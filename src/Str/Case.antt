-- ===== src/Str/Case.antt =====
-- Comparison without regard to case (HTString.c).
use cern_httpd.Base.{ℕ, suc, zero, ◌<◌, ◌≡◌, ◌↔◌, refl, [], ◌∷◌, map, arith, All, ◌∙◌, sym}
use mathlib.Core.Path.{ap₂}
use cern_httpd.Base.Int.{ℤ, pos, negsuc, neg, ◌-ℤ◌}
use cern_httpd.Str.{CStr, to_lower, strcasecomp, char_value, or_diff}

-- Two texts that differ at most in the case of their letters.
abbrev pub SameLower : CStr → CStr → Type 0
SameLower a b = map to_lower a ≡ map to_lower b

abbrev pub IsByte : ℕ → Type 0
IsByte c = c < 256

to_lower-IsByte : (c : ℕ) → IsByte c → IsByte (to_lower c)
unfolding to_lower
to_lower-IsByte c h = ground arith

char_value-injective :
    (c d : ℕ) → IsByte c → IsByte d → (char_value c -ℤ char_value d) ≡ pos 0 → c ≡ d
unfolding char_value
char_value-injective c d hc hd e = ground arith

pub char_value_self : (c : ℕ) → (char_value c -ℤ char_value c) ≡ pos 0
unfolding char_value
char_value_self c = ground arith

char_value-neg : (c d : ℕ) → (char_value c -ℤ char_value d) ≡ neg (char_value d -ℤ char_value c)
unfolding char_value
char_value-neg c d = ground arith

strcasecomp_sound :
    (a b : CStr) → All IsByte a → All IsByte b → strcasecomp a b ≡ pos 0 → SameLower a b
unfolding strcasecomp
strcasecomp_sound [] [] ha hb e = refl
strcasecomp_sound [] (d ∷ q) ha hb e = cc
strcasecomp_sound (c ∷ p) [] ha hb e = ground arith
strcasecomp_sound (c ∷ p) (d ∷ q) ha hb e = ground (
  arith,
  strcasecomp_sound p q ha.1 hb.1,
  char_value-injective (to_lower c) (to_lower d) (to_lower-IsByte c ha.0) (to_lower-IsByte d hb.0),
)

strcasecomp_complete : (a b : CStr) → SameLower a b → strcasecomp a b ≡ pos 0
unfolding strcasecomp
strcasecomp_complete [] [] e = refl
strcasecomp_complete [] (d ∷ q) e = cc
strcasecomp_complete (c ∷ p) [] e = cc
strcasecomp_complete (c ∷ p) (d ∷ q) e =
    ground (arith, strcasecomp_complete p q, char_value_self (to_lower c))

-- On strings of bytes, strcasecomp returns 0 exactly when the strings differ at most in the case
-- of their letters.
strcasecomp-eq-zero :
    (a b : CStr) → All IsByte a → All IsByte b → (strcasecomp a b ≡ pos 0) ↔ SameLower a b
strcasecomp-eq-zero a b ha hb = (strcasecomp_sound a b ha hb, strcasecomp_complete a b)

or_diff-neg : (d r : ℤ) → neg (or_diff d r) ≡ or_diff (neg d) (neg r)
unfolding or_diff
or_diff-neg (pos zero) r = refl
or_diff-neg (pos (suc n)) r = ground arith
or_diff-neg (negsuc n) r = ground arith

-- Exchanging the arguments of strcasecomp negates its result.
pub strcasecomp_antisym : (a b : CStr) → strcasecomp b a ≡ neg (strcasecomp a b)
unfolding strcasecomp
strcasecomp_antisym [] [] = refl
strcasecomp_antisym [] (d ∷ q) = refl
strcasecomp_antisym (c ∷ p) [] = refl
strcasecomp_antisym (c ∷ p) (d ∷ q) =
    ap₂ or_diff (char_value-neg (to_lower d) (to_lower c)) (strcasecomp_antisym p q)
    ∙ sym (or_diff-neg (char_value (to_lower c) -ℤ char_value (to_lower d)) (strcasecomp p q))
