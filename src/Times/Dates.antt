-- ===== src/Times/Dates.antt =====
-- The dates that parse_http_time of HTSUtils.c reads, in the three formats.
use cern_httpd.Base.{
  if◌then◌else◌, ℕ, ◌+◌, ◌/◌, ◌%◌, ◌≤◌, ◌<◌, ◌≡◌, refl, ap, ◌∙◌, arith, Bool, true, false, some, [],
  ◌∷◌, ◌++◌, ◌==◌,
}
use cern_httpd.Base.Int.{ℤ, pos}
use cern_httpd.Str.{CStr}
use cern_httpd.Times.{
  Tm, skip_spaces, by_minus, comma_format, some_format, is_legal, http_date, checked_time,
  parse_http_time,
}
use cern_httpd.Times.Print.{
  Date, IsDate, two, padded, month, clock, gmt, year4, day_850, rfc850, day_1123, rfc1123, asctime,
  tm_of,
}
use cern_httpd.Times.Digits.{IsMark, minus-IsMark, comma-IsMark, Lacks, two-Lacks, month-Lacks}
use cern_httpd.Times.Formats.{
  strchr-Lacks, strchr-behind, first_format-day, second_format-day, other_format-asctime,
  last_digits,
}

clock-Lacks :
    (x : ℕ) (d : Date) (rest : CStr)
    → IsMark x
    → (b':' == x) ≡ false
    → IsDate d
    → Lacks x rest
    → Lacks x (clock d rest)
clock-Lacks x d rest m c h t =
    two-Lacks x d.hour (b':' ∷ two d.min (b':' ∷ two d.sec rest)) m (omega (arith, h.hour_high)) (
      c,
      two-Lacks x d.min (b':' ∷ two d.sec rest) m (omega (arith, h.min_high))
          (c, two-Lacks x d.sec rest m (omega (arith, h.sec_high)) t),
    )

year4-Lacks :
    (x : ℕ) (d : Date) (rest : CStr)
    → IsMark x
    → IsDate d
    → Lacks x rest
    → Lacks x (year4 d.year rest)
year4-Lacks x d rest m h t =
    two-Lacks x (d.year / 100) (two (d.year % 100) rest) m (omega (arith, h.year_high))
      (two-Lacks x (d.year % 100) rest m (omega arith) t)

day_1123-Lacks : (d : Date) → IsDate d → Lacks b'-' (day_1123 d)
day_1123-Lacks d h =
    let time = b' ' ∷ clock d gmt in
    let year = b' ' ∷ year4 d.year time in
    two-Lacks b'-' d.day (b' ' ∷ month d.mon year) minus-IsMark (omega (arith, h.day_high)) (
      refl,
      month-Lacks b'-' d.mon year minus-IsMark h.mon_high (
        refl,
        year4-Lacks b'-' d time minus-IsMark h
            (refl, clock-Lacks b'-' d gmt minus-IsMark refl h (refl, (refl, (refl, (refl, tt))))),
      ),
    )

not_blank : (a : ℕ) → ((48 + a) == b' ') ≡ false
not_blank a = ground arith

skip_spaces-two : (n : ℕ) (rest : CStr) → skip_spaces (b' ' ∷ two n rest) ≡ two n rest
unfolding skip_spaces
skip_spaces-two n rest = rw (not_blank (n / 10)) refl

comma_format-1123 : (d : Date) → IsDate d → comma_format (day_1123 d) ≡ some (tm_of d)
unfolding comma_format
comma_format-1123 d h =
    ap (λ o. by_minus o (day_1123 d)) (strchr-Lacks b'-' (day_1123 d) (day_1123-Lacks d h))
    ∙ second_format-day d h

comma_format-850 : (d : Date) → IsDate d → comma_format (day_850 d) ≡ some (last_digits d)
unfolding comma_format
comma_format-850 d h =
    ap (λ o. by_minus o (day_850 d))
      (strchr-behind b'-' (two d.day []) _
        (two-Lacks b'-' d.day [] minus-IsMark (omega (arith, h.day_high)) tt))
    ∙ first_format-day d h

-- Behind the weekday and a comma.
http_date-comma :
    (weekday : CStr) (n : ℕ) (rest : CStr)
    → Lacks b',' weekday
    → http_date (weekday ++ b',' ∷ b' ' ∷ two n rest) ≡ comma_format (two n rest)
unfolding http_date some_format
http_date-comma weekday n rest h =
    ap (λ o. some_format o (weekday ++ b',' ∷ b' ' ∷ two n rest))
      (strchr-behind b',' weekday (b' ' ∷ two n rest) h)
    ∙ ap comma_format (skip_spaces-two n rest)

padded-Lacks : (n : ℕ) (rest : CStr) → n < 100 → Lacks b',' rest → Lacks b',' (padded n rest)
padded-Lacks n rest lt t = (ground arith, (ground arith, t))

asctime-Lacks :
    (w1 w2 w3 : ℕ) (d : Date)
    → Lacks b',' (w1 ∷ w2 ∷ w3 ∷ [])
    → IsDate d
    → Lacks b',' (asctime w1 w2 w3 d)
asctime-Lacks w1 w2 w3 d hw h =
    let year = b' ' ∷ year4 d.year gmt in
    let time = b' ' ∷ clock d year in
    (
      hw.0,
      (
        hw.1.0,
        (
          hw.1.1.0,
          (
            refl,
            month-Lacks b',' d.mon (b' ' ∷ padded d.day time) comma-IsMark h.mon_high (
              refl,
              padded-Lacks d.day time (omega (arith, h.day_high)) (
                refl,
                clock-Lacks b',' d year comma-IsMark refl h (
                  refl,
                  year4-Lacks b',' d gmt comma-IsMark h (refl, (refl, (refl, (refl, tt)))),
                ),
              ),
            ),
          ),
        ),
      ),
    )

http_date-asctime :
    (w1 w2 w3 : ℕ) (d : Date)
    → Lacks b',' (w1 ∷ w2 ∷ w3 ∷ [])
    → (w1 == b' ') ≡ false
    → IsDate d
    → http_date (asctime w1 w2 w3 d) ≡ some (last_digits d)
unfolding http_date some_format skip_spaces
http_date-asctime w1 w2 w3 d hw s h =
    ap (λ o. some_format o (asctime w1 w2 w3 d))
      (strchr-Lacks b',' (asctime w1 w2 w3 d) (asctime-Lacks w1 w2 w3 d hw h))
    ∙ rw s (other_format-asctime w1 w2 w3 d h)

is_legal-date : (d : Date) → IsDate d → is_legal (tm_of d) ≡ true
unfolding is_legal tm_of
is_legal-date d h = ground (
  arith, h.day_low, h.day_high, h.mon_high, h.year_low, h.year_high, h.hour_high, h.min_high,
  h.sec_high,
)

-- Two digits of a year after 1999.
is_legal-late : (d : Date) → IsDate d → 2000 ≤ d.year → is_legal (last_digits d) ≡ false
unfolding is_legal tm_of
is_legal-late d h y =
    ground
      (arith, h.day_low, h.day_high, h.mon_high, h.year_high, h.hour_high, h.min_high, h.sec_high)

last_digits-early : (d : Date) → IsDate d → d.year ≤ 1999 → last_digits d ≡ tm_of d
unfolding tm_of
last_digits-early d h y =
    ap (λ (n : ℕ). record (tm_of d) { tm_year = pos n }) (omega (arith, h.year_low))

parsed_as :
    (make_time : Tm → ℤ) (str : CStr) (tm : Tm) (legal : Bool)
    → http_date str ≡ some tm
    → is_legal tm ≡ legal
    → parse_http_time make_time (some str) ≡ (if legal then make_time tm else pos 0)
unfolding parse_http_time checked_time
parsed_as make_time str tm legal e l =
    ap (checked_time make_time) e ∙ ap (λ (b : Bool). if b then make_time tm else pos 0) l

date_1123 :
    (weekday : CStr) (d : Date)
    → Lacks b',' weekday
    → IsDate d
    → http_date (rfc1123 weekday d) ≡ some (tm_of d)
date_1123 weekday d hw h = http_date-comma weekday d.day _ hw ∙ comma_format-1123 d h

date_850 :
    (weekday : CStr) (d : Date)
    → Lacks b',' weekday
    → IsDate d
    → http_date (rfc850 weekday d) ≡ some (last_digits d)
date_850 weekday d hw h = http_date-comma weekday d.day _ hw ∙ comma_format-850 d h

-- A date from 1970 to 1999 in any of the three formats is read as this date: by whatever function
-- mktime makes a time of the fields, parse_http_time gives the time of the same fields. A weekday
-- is any text without a comma, of three characters and with no blank first in the last format.
pub parse_http_time-formats :
    (make_time : Tm → ℤ) (weekday : CStr) (w1 w2 w3 : ℕ) (d : Date)
    → Lacks b',' weekday
    → Lacks b',' (w1 ∷ w2 ∷ w3 ∷ [])
    → (w1 == b' ') ≡ false
    → IsDate d
    → d.year ≤ 1999
    → (parse_http_time make_time (some (rfc1123 weekday d)) ≡ make_time (tm_of d))
      × (parse_http_time make_time (some (rfc850 weekday d)) ≡ make_time (tm_of d))
      × (parse_http_time make_time (some (asctime w1 w2 w3 d)) ≡ make_time (tm_of d))
parse_http_time-formats make_time weekday w1 w2 w3 d hw hw3 s h y =
    let legal = is_legal-date d h in
    let early = ap some (last_digits-early d h y) in
    (
      parsed_as make_time (rfc1123 weekday d) (tm_of d) true (date_1123 weekday d hw h) legal,
      parsed_as make_time (rfc850 weekday d) (tm_of d) true (date_850 weekday d hw h ∙ early) legal,
      parsed_as make_time (asctime w1 w2 w3 d) (tm_of d) true
          (http_date-asctime w1 w2 w3 d hw3 s h ∙ early) legal,
    )

-- From 2000 to 2020 a date with `Thu, 10 Jan 2000` is still read as this date, but the two other
-- formats give 0, although the last has all four digits of the year.
pub parse_http_time-after_1999 :
    (make_time : Tm → ℤ) (weekday : CStr) (w1 w2 w3 : ℕ) (d : Date)
    → Lacks b',' weekday
    → Lacks b',' (w1 ∷ w2 ∷ w3 ∷ [])
    → (w1 == b' ') ≡ false
    → IsDate d
    → 2000 ≤ d.year
    → (parse_http_time make_time (some (rfc1123 weekday d)) ≡ make_time (tm_of d))
      × (parse_http_time make_time (some (rfc850 weekday d)) ≡ pos 0)
      × (parse_http_time make_time (some (asctime w1 w2 w3 d)) ≡ pos 0)
parse_http_time-after_1999 make_time weekday w1 w2 w3 d hw hw3 s h y =
    let late = is_legal-late d h y in
    (
      parsed_as make_time (rfc1123 weekday d) (tm_of d) true (date_1123 weekday d hw h)
          (is_legal-date d h),
      parsed_as make_time (rfc850 weekday d) (last_digits d) false (date_850 weekday d hw h) late,
      parsed_as make_time (asctime w1 w2 w3 d) (last_digits d) false
          (http_date-asctime w1 w2 w3 d hw3 s h) late,
    )
