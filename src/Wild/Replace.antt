-- ===== src/Wild/Replace.antt =====
-- The two loops of `replace` agree on the room that the result takes.
use cern_httpd.Base.{
  ℕ, ◌+◌, ◌≡◌, refl, false, [], ◌∷◌, ◌++◌, arith, length, length-append, Bool-cases, inl, inr, true,
  some,
}
use cern_httpd.Wild.{PatNode, HtPattern, WildMatch, replace, replace_len, text_of, CStr}

pub replace-plain :
    (t : PatNode) (eqv : HtPattern) (w : WildMatch)
    → t.wild ≡ false
    → replace (t ∷ eqv) w ≡ text_of t.text ++ replace eqv w
unfolding replace
replace-plain t eqv [] h = refl
replace-plain t eqv (x ∷ w) h = rw h

-- The first loop of `replace` counts one byte for each character that the second loop copies.
replace_len-replace :
    (len : ℕ) (eqv : HtPattern) (w : WildMatch)
    → replace_len len eqv w ≡ len + length (replace eqv w)
unfolding replace_len replace
replace_len-replace len [] w = omega arith
replace_len-replace len (t ∷ eqv) [] = omega (
  arith,
  replace_len-replace (len + length (text_of t.text)) eqv [],
  length-append (text_of t.text) (replace eqv []),
)
replace_len-replace len (t ∷ eqv) (x ∷ w) = elim (Bool-cases t.wild) [
  | inl e ↦ rw e (
      omega (
        arith,
        replace_len-replace (len + length (text_of x) + length (text_of t.text)) eqv w,
        length-append (text_of x) (text_of t.text ++ replace eqv w),
        length-append (text_of t.text) (replace eqv w),
      ))
  | inr e ↦ rw e (
      omega (
        arith,
        replace_len-replace (len + length (text_of t.text)) eqv (x ∷ w),
        length-append (text_of t.text) (replace eqv (x ∷ w)),
      ))
]

pub replace-wild :
    (t : PatNode) (eqv : HtPattern) (x : CStr) (w : WildMatch)
    → t.wild ≡ true
    → replace (t ∷ eqv) (some x ∷ w) ≡ x ++ (text_of t.text ++ replace eqv w)
unfolding replace
replace-wild t eqv x w h = rw h
