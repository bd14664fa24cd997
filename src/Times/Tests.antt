-- ===== src/Times/Tests.antt =====
-- The theorems on HTSUtils.c at concrete dates.
use cern_httpd.Times.Span.Clock.{parse_time-clock}
use cern_httpd.Times.Span.{parse_time}
use cern_httpd.Base.{◌∷◌, [], ◌+◌, ◌*◌, ◌≡◌, refl, arith, some, codes, true}
use cern_httpd.Base.Int.{ℤ, pos, pos_part}
use cern_httpd.Times.{Tm, parse_http_time, http_date}
use cern_httpd.Times.Print.{two, Date, IsDate, rfc850, rfc1123, asctime, tm_of}
use cern_httpd.Times.Dates.{parse_http_time-formats, parse_http_time-after_1999}

abbrev november : Date
november = record { day = 6; mon = 10; year = 1994; hour = 8; min = 49; sec = 37 }

november-IsDate : IsDate november
november-IsDate = record {
  day_low = omega arith;
  day_high = omega arith;
  mon_high = omega arith;
  year_low = omega arith;
  year_high = omega arith;
  hour_high = omega arith;
  min_high = omega arith;
  sec_high = omega arith;
}

abbrev leap : Date
leap = record { day = 29; mon = 1; year = 2004; hour = 23; min = 0; sec = 59 }

leap-IsDate : IsDate leap
leap-IsDate = record {
  day_low = omega arith;
  day_high = omega arith;
  mon_high = omega arith;
  year_low = omega arith;
  year_high = omega arith;
  hour_high = omega arith;
  min_high = omega arith;
  sec_high = omega arith;
}

-- A stand-in for mktime that looks at two fields.
abbrev seconds : Tm → ℤ
seconds tm = pos (pos_part tm.tm_year * 1000 + pos_part tm.tm_mday)

november_asctime : http_date (codes "Sun Nov  6 08:49:37 1994 GMT") ≡ some (tm_of november)
unfolding http_date tm_of
november_asctime = refl

parse_http_time-formats_example :
    (parse_http_time seconds (some (rfc1123 (codes "Sun") november)) ≡ seconds (tm_of november))
    × (parse_http_time seconds (some (rfc850 (codes "Sun") november)) ≡ seconds (tm_of november))
    × (parse_http_time seconds (some (asctime b'S' b'u' b'n' november)) ≡ seconds (tm_of november))
parse_http_time-formats_example =
    parse_http_time-formats seconds (codes "Sun") b'S' b'u' b'n' november (refl, (refl, (refl, tt)))
      (refl, (refl, (refl, tt))) refl november-IsDate (omega arith)

parse_http_time-after_1999_example :
    (parse_http_time seconds (some (rfc1123 (codes "Sun") leap)) ≡ seconds (tm_of leap))
    × (parse_http_time seconds (some (rfc850 (codes "Sun") leap)) ≡ pos 0)
    × (parse_http_time seconds (some (asctime b'S' b'u' b'n' leap)) ≡ pos 0)
parse_http_time-after_1999_example =
    parse_http_time-after_1999 seconds (codes "Sun") b'S' b'u' b'n' leap (refl, (refl, (refl, tt)))
      (refl, (refl, (refl, tt))) refl leap-IsDate (omega arith)

-- Three hours and a half, two days before it, and white space at both ends.
two_days : parse_time (some (codes " 2 Days 3:30 ")) 60 ≡ some (true, 185400)
unfolding parse_time
two_days = refl

parse_time-clock_example :
    parse_time (some (two 1 (b':' ∷ two 30 (b':' ∷ two 5 [])))) 86400
    ≡ some (true, 1 * 3600 + 30 * 60 + 5)
parse_time-clock_example = parse_time-clock 86400 1 30 5 (omega arith) (omega arith) (omega arith)
