-- ===== src/Times/InPlace.antt =====
-- What parse_http_time of HTSUtils.c leaves of its argument.
use cern_httpd.Base.{
  ℕ, zero, suc, refl, ap, Option, none, some, [], ◌∷◌, length, drop, map, Bool, true, false,
  if◌then◌else◌, ltb, ◌-◌, ◌+◌,
}
use cern_httpd.Base.Int.{ℤ}
use cern_httpd.Str.{CStr, strchr, to_lower}
use cern_httpd.Str.Letters.{SameText, to_lower-to_upper, to_lower-to_lower}
use cern_httpd.Times.{
  Tm, month_stored, stored_at, stored_by_minus, stored_format, parse_in_place, skip_spaces,
}

month_stored-SameText : (n : ℕ) (s : CStr) → SameText (month_stored n s) s
unfolding month_stored
month_stored-SameText zero [] = refl
month_stored-SameText zero (a ∷ []) = refl
month_stored-SameText zero (a ∷ b ∷ []) = refl
month_stored-SameText zero (a ∷ b ∷ c ∷ s) =
    λ i. to_lower-to_upper a i ∷ to_lower-to_lower b i ∷ to_lower-to_lower c i ∷ map to_lower s
month_stored-SameText (suc n) [] = refl
month_stored-SameText (suc n) (c ∷ s) = ap (λ t. to_lower c ∷ t) (month_stored-SameText n s)

if-SameText :
    (test : Bool) (s t str : CStr)
    → SameText s str
    → SameText t str
    → SameText (if test then s else t) str
if-SameText true s t str h k = h
if-SameText false s t str h k = k

stored_at-SameText : (s : CStr) (n least : ℕ) (str : CStr) → SameText (stored_at s n least str) str
unfolding stored_at
stored_at-SameText s n least str =
    if-SameText (ltb (length s) least) str (month_stored (length str - length s + n) str) str refl
      (month_stored-SameText (length str - length s + n) str)

stored_by_minus-SameText : (o : Option CStr) (s str : CStr) → SameText (stored_by_minus o s str) str
unfolding stored_by_minus
stored_by_minus-SameText none s str = stored_at-SameText s 3 20 str
stored_by_minus-SameText (some rest) s str = stored_at-SameText s 3 18 str

stored_format-SameText : (o : Option CStr) (str : CStr) → SameText (stored_format o str) str
unfolding stored_format
stored_format-SameText none str = stored_at-SameText (skip_spaces str) 4 24 str
stored_format-SameText (some from_comma) str =
    let s = skip_spaces (drop 1 from_comma) in stored_by_minus-SameText (strchr s b'-') s str

-- parse_http_time changes at most the case of letters in its argument.
pub parse_in_place-SameText :
    (make_time : Tm → ℤ) (str : CStr) → SameText (parse_in_place make_time str).1 str
unfolding parse_in_place
parse_in_place-SameText make_time str = stored_format-SameText (strchr str b',') str
