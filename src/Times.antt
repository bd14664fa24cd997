-- ===== src/Times.antt =====
-- Daemon/Implementation/HTSUtils.c: dates, times and sizes in requests and in the configuration.
-- mktime, with the correction for the time zone behind it, is the argument `make_time`.
pub mod Print
pub mod Digits
pub mod Formats
pub mod Dates
pub mod Span
pub mod InPlace
mod Tests
use cern_httpd.Base.{
  ℕ, zero, suc, ◌+◌, ◌-◌, ◌*◌, Bool, true, false, ◌||◌, ◌&&◌, not, Option, none, some, List, [],
  ◌∷◌, leb, ltb, ◌==◌, if◌then◌else◌, length, drop, take, get_or, codes,
}
use cern_httpd.Base.Int.{ℤ, pos, negsuc, ◌-ℤ◌, pos_part, neg_part, neg}
use cern_httpd.Str.{CStr, to_lower, to_upper, char_value, strchr, streq}

unfoldable pub is_digit : ℕ → Bool
is_digit c = leb b'0' c && leb c b'9'

unfoldable pub month_names : List CStr
month_names =
    codes "Jan"
    ∷ codes "Feb"
    ∷ codes "Mar"
    ∷ codes "Apr"
    ∷ codes "May"
    ∷ codes "Jun"
    ∷ codes "Jul"
    ∷ codes "Aug"
    ∷ codes "Sep"
    ∷ codes "Oct"
    ∷ codes "Nov"
    ∷ codes "Dec"
    ∷ []

unfoldable pub digits : CStr → Bool
unfolding is_digit
digits [] = true
digits (c ∷ s) = is_digit c && digits s

-- HTIsNumber
unfoldable pub is_number : Option CStr → Bool
unfolding digits
is_number none = false
is_number (some []) = false
is_number (some (c ∷ s)) = if c == b'-' then digits s else digits (c ∷ s)

-- A character of a string, the terminator behind it.
abbrev pub char_at : CStr → ℕ → ℕ
char_at s i = get_or s i 0

-- make_num
unfoldable pub make_num : CStr → ℤ
unfolding is_digit char_value
make_num s =
    let c = char_at s 0 in
    let d = char_value (char_at s 1) -ℤ pos b'0' in
    if is_digit c then pos (10 * (c - b'0')) -ℤ neg d else d

unfoldable pub month_loop : List CStr → ℕ → CStr → ℕ
unfolding streq
month_loop [] i s = 0
month_loop (name ∷ names) i s =
    let rest = month_loop names (suc i) s in if streq name (take 3 s) then i else rest

-- make_month; no field is read from the letters that it stores (month_stored).
unfoldable pub make_month : CStr → ℕ
unfolding month_loop month_names to_upper to_lower
make_month s =
    month_loop month_names 0
      (to_upper (char_at s 0) ∷ to_lower (char_at s 1) ∷ to_lower (char_at s 2) ∷ [])

-- What make_month for the n-th character of a string leaves there.
unfoldable pub month_stored : ℕ → CStr → CStr
unfolding to_upper to_lower
month_stored zero (a ∷ b ∷ c ∷ s) = to_upper a ∷ to_lower b ∷ to_lower c ∷ s
month_stored zero s = s
month_stored (suc n) [] = []
month_stored (suc n) (c ∷ s) = c ∷ month_stored n s

-- The fields of struct tm that parse_http_time sets.
pub record Tm : Type 0 where
  pub tm_mday : ℤ
  pub tm_mon : ℕ
  pub tm_year : ℤ
  pub tm_hour : ℤ
  pub tm_min : ℤ
  pub tm_sec : ℤ

unfoldable pub skip_spaces : CStr → CStr
skip_spaces [] = []
skip_spaces (c ∷ s) = if c == b' ' then skip_spaces s else c ∷ s

-- `Thursday, 10-Jun-93 01:29:59 GMT`, from the day of the month on.
unfoldable pub first_format : CStr → Option Tm
unfolding make_num make_month
first_format s =
    if ltb (length s) 18
    then none
    else some (record {
      tm_mday = make_num s;
      tm_mon = make_month (drop 3 s);
      tm_year = make_num (drop 7 s);
      tm_hour = make_num (drop 10 s);
      tm_min = make_num (drop 13 s);
      tm_sec = make_num (drop 16 s);
    })

-- a * z, for a number.
abbrev pub times : ℕ → ℤ → ℤ
times a (pos n) = pos (a * n)
times a (negsuc n) = neg (pos (a * suc n))

-- `Thu, 10 Jan 1993 01:29:59 GMT`
unfoldable pub second_format : CStr → Option Tm
unfolding make_num make_month
second_format s =
    if ltb (length s) 20
    then none
    else some (record {
      tm_mday = make_num s;
      tm_mon = make_month (drop 3 s);
      tm_year = (times 100 (make_num (drop 7 s)) -ℤ pos 1900) -ℤ neg (make_num (drop 9 s));
      tm_hour = make_num (drop 12 s);
      tm_min = make_num (drop 15 s);
      tm_sec = make_num (drop 18 s);
    })

-- `Wed Jun  9 01:29:59 1993 GMT`
unfoldable pub other_format : CStr → Option Tm
unfolding make_num make_month
other_format s =
    if ltb (length s) 24
    then none
    else some (record {
      tm_mday = make_num (drop 8 s);
      tm_mon = make_month (drop 4 s);
      tm_year = make_num (drop 22 s);
      tm_hour = make_num (drop 11 s);
      tm_min = make_num (drop 14 s);
      tm_sec = make_num (drop 17 s);
    })

-- `if (strchr(s,'-'))`
unfoldable pub by_minus : Option CStr → CStr → Option Tm
unfolding first_format second_format
by_minus none s = second_format s
by_minus (some rest) s = first_format s

-- Behind a comma.
unfoldable pub comma_format : CStr → Option Tm
unfolding by_minus strchr
comma_format s = by_minus (strchr s b'-') s

unfoldable pub some_format : Option CStr → CStr → Option Tm
unfolding skip_spaces comma_format other_format
some_format none str = other_format (skip_spaces str)
some_format (some from_comma) str = comma_format (skip_spaces (drop 1 from_comma))

unfoldable pub within : ℕ → ℤ → ℕ → Bool
within lo (pos n) hi = leb lo n && leb n hi
within lo (negsuc n) hi = false

-- The test of the fields.
unfoldable pub is_legal : Tm → Bool
unfolding within
is_legal tm =
    within 0 tm.tm_sec 59
    && within 0 tm.tm_min 59
    && within 0 tm.tm_hour 23
    && within 1 tm.tm_mday 31
    && leb tm.tm_mon 11
    && within 70 tm.tm_year 120

-- The fields of the date, where it is one.
unfoldable pub http_date : CStr → Option Tm
unfolding some_format strchr
http_date str = some_format (strchr str b',') str

unfoldable pub checked_time : (Tm → ℤ) → Option Tm → ℤ
unfolding is_legal
checked_time make_time none = pos 0
checked_time make_time (some tm) = if is_legal tm then make_time tm else pos 0

-- parse_http_time
unfoldable pub parse_http_time : (Tm → ℤ) → Option CStr → ℤ
unfolding http_date checked_time
parse_http_time make_time none = pos 0
parse_http_time make_time (some str) = checked_time make_time (http_date str)

-- What parse_http_time leaves of `str`, where the month is the n-th character of `s`, which is its
-- end, if `s` has so many characters.
unfoldable pub stored_at : CStr → ℕ → ℕ → CStr → CStr
unfolding month_stored
stored_at s n least str =
    if ltb (length s) least then str else month_stored (length str - length s + n) str

unfoldable pub stored_by_minus : Option CStr → CStr → CStr → CStr
unfolding stored_at
stored_by_minus none s str = stored_at s 3 20 str
stored_by_minus (some rest) s str = stored_at s 3 18 str

unfoldable pub stored_format : Option CStr → CStr → CStr
unfolding stored_at stored_by_minus skip_spaces strchr
stored_format none str = stored_at (skip_spaces str) 4 24 str
stored_format (some from_comma) str =
    let s = skip_spaces (drop 1 from_comma) in stored_by_minus (strchr s b'-') s str

-- parse_http_time on a buffer: the time, and what it leaves in the buffer.
unfoldable pub parse_in_place : (Tm → ℤ) → CStr → ℤ × CStr
unfolding parse_http_time stored_format strchr
parse_in_place make_time str =
    (parse_http_time make_time (some str), stored_format (strchr str b',') str)
