-- ===== src/Times/Print.antt =====
-- The dates of HTTP, as they are written: what HTSUtils.c reads, described without its code.
use cern_httpd.Base.{ℕ, ◌+◌, ◌-◌, ◌/◌, ◌%◌, ◌≤◌, [], ◌∷◌, ◌++◌, ltb, if◌then◌else◌, codes, get_or}
use cern_httpd.Base.Int.{pos}
use cern_httpd.Str.{CStr}
use cern_httpd.Times.{Tm, month_names}

-- A date and a time of the day; `mon` is 0 for January.
pub record Date : Type 0 where
  pub day : ℕ
  pub mon : ℕ
  pub year : ℕ
  pub hour : ℕ
  pub min : ℕ
  pub sec : ℕ

-- The years that the code takes end with 2020.
pub record IsDate (d : Date) : Type 0 where
  pub day_low : 1 ≤ d.day
  pub day_high : d.day ≤ 31
  pub mon_high : d.mon ≤ 11
  pub year_low : 1970 ≤ d.year
  pub year_high : d.year ≤ 2020
  pub hour_high : d.hour ≤ 23
  pub min_high : d.min ≤ 59
  pub sec_high : d.sec ≤ 59

-- Two digits, and what stands behind them.
abbrev pub two : ℕ → CStr → CStr
two n rest = (48 + n / 10) ∷ (48 + n % 10) ∷ rest

-- A blank in place of a leading zero.
abbrev pub padded : ℕ → CStr → CStr
padded n rest = (if ltb n 10 then 32 else 48 + n / 10) ∷ (48 + n % 10) ∷ rest

abbrev pub letter : ℕ → ℕ → ℕ
letter mon i = get_or (get_or month_names mon []) i 0

abbrev pub month : ℕ → CStr → CStr
month mon rest = letter mon 0 ∷ letter mon 1 ∷ letter mon 2 ∷ rest

abbrev pub clock : Date → CStr → CStr
clock d rest = two d.hour (b':' ∷ two d.min (b':' ∷ two d.sec rest))

abbrev pub gmt : CStr
gmt = codes " GMT"

abbrev pub year4 : ℕ → CStr → CStr
year4 y rest = two (y / 100) (two (y % 100) rest)

-- `Thursday, 10-Jun-93 01:29:59 GMT`
abbrev pub day_850 : Date → CStr
day_850 d = two d.day (b'-' ∷ month d.mon (b'-' ∷ two (d.year % 100) (b' ' ∷ clock d gmt)))

abbrev pub rfc850 : CStr → Date → CStr
rfc850 weekday d = weekday ++ b',' ∷ b' ' ∷ day_850 d

-- `Thu, 10 Jan 1993 01:29:59 GMT`
abbrev pub day_1123 : Date → CStr
day_1123 d = two d.day (b' ' ∷ month d.mon (b' ' ∷ year4 d.year (b' ' ∷ clock d gmt)))

abbrev pub rfc1123 : CStr → Date → CStr
rfc1123 weekday d = weekday ++ b',' ∷ b' ' ∷ day_1123 d

-- `Wed Jun  9 01:29:59 1993 GMT`; the weekday has three letters.
abbrev pub asctime : ℕ → ℕ → ℕ → Date → CStr
asctime w1 w2 w3 d =
    w1
    ∷ w2
    ∷ w3
    ∷ b' '
    ∷ month d.mon (b' ' ∷ padded d.day (b' ' ∷ clock d (b' ' ∷ year4 d.year gmt)))

-- The fields of the date, with the year counted from 1900.
unfoldable pub tm_of : Date → Tm
tm_of d = record {
  tm_mday = pos d.day;
  tm_mon = d.mon;
  tm_year = pos (d.year - 1900);
  tm_hour = pos d.hour;
  tm_min = pos d.min;
  tm_sec = pos d.sec;
}
