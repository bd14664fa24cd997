-- ===== src/Str/Search.antt =====
-- What the searches of HTString.c and of the C library find.
use cern_httpd.Base.{
  ℕ, ◌-◌, ◌≡◌, refl, ap, Bool, [], ◌∷◌, ◌++◌, map, arith, true, false, none, some, ◌∙◌, length,
  drop, length-append, take-length-append, Bool-cases, some_inj, inl, inr,
}
use mathlib.Core.Path.{subst, sym}
use mathlib.Core.List.{cons-ne-nil}
use mathlib.Core.Logic.{◌≢◌}
use cern_httpd.Str.{CStr, to_upper, case_agrees, find_suffix, strcasestr, starts, before}

-- `r` is what a pointer into `s` points to.
abbrev pub IsSuffix : CStr → CStr → Type 0
IsSuffix r s = (p : CStr) × (s ≡ p ++ r)

IsSuffix-cons : {r s : CStr} (c : ℕ) → IsSuffix r s → IsSuffix r (c ∷ s)
IsSuffix-cons c (p, e) = (c ∷ p, ap (λ t. c ∷ t) e)

pub before-append : (p r : CStr) → before (p ++ r) r ≡ p
unfolding before
before-append p r =
    let e : length (p ++ r) - length r ≡ length p = omega (arith, length-append p r) in
    rw e (take-length-append p r)

pub starts-append : (t s : CStr) → starts t s ≡ true → s ≡ t ++ drop (length t) s
unfolding starts
starts-append [] s h = refl
starts-append (c ∷ t) [] h = cc
starts-append (c ∷ t) (d ∷ s) h = ground (arith, starts-append t s)

pub starts_self : (t s : CStr) → starts t (t ++ s) ≡ true
unfolding starts
starts_self [] s = refl
starts_self (c ∷ t) s = ground (arith, starts_self t s)

-- The suffix that is found passes the test.
pub find_suffix-IsSuffix :
    (test : CStr → Bool) (s : CStr) {r : CStr}
    → find_suffix test s ≡ some r
    → IsSuffix r s × (test r ≡ true)
unfolding find_suffix
find_suffix-IsSuffix test [] h = cc
find_suffix-IsSuffix test (c ∷ s) {r} h = elim (Bool-cases (test (c ∷ s))) [
  | inl e ↦
      let same : c ∷ s ≡ r = some_inj (rw e at h) in (([], same), subst (λ x. test x ≡ true) same e)
  | inr e ↦
      let (later, passes) = find_suffix-IsSuffix test s (rw e at h) in
      (IsSuffix-cons c later, passes)
]

-- A search that fails has passed over no suffix that passes the test.
pub find_suffix-eq-none :
    (test : CStr → Bool) (p : CStr) (c : ℕ) (r : CStr)
    → find_suffix test (p ++ c ∷ r) ≡ none
    → test (c ∷ r) ≡ false
unfolding find_suffix
find_suffix-eq-none test [] c r h = ground arith
find_suffix-eq-none test (d ∷ p) c r h = find_suffix-eq-none test p c r (ground arith)

pub find_suffix_first :
    (test : CStr → Bool) (c : ℕ) (s : CStr)
    → test (c ∷ s) ≡ true
    → find_suffix test (c ∷ s) ≡ some (c ∷ s)
unfolding find_suffix
find_suffix_first test c s h = rw h

case_agrees-starts : (s t : CStr) → case_agrees s t ≡ starts (map to_upper t) (map to_upper s)
unfolding case_agrees starts
case_agrees-starts s [] = refl
case_agrees-starts [] (d ∷ t) = refl
case_agrees-starts (c ∷ s) (d ∷ t) = ground (arith, case_agrees-starts s t)

-- `t` stands at the front of `s`, if letters are read as capitals.
abbrev pub UpperStarts : CStr → CStr → Type 0
UpperStarts t s = starts (map to_upper t) (map to_upper s) ≡ true

-- The suffix that strcasestr finds begins with the text sought, up to the case of letters.
pub strcasestr_found :
    (s t : CStr) {r : CStr} → strcasestr (some s) (some t) ≡ some r → IsSuffix r s × UpperStarts t r
unfolding strcasestr
strcasestr_found s [] h = (([], some_inj h), unfold starts in refl)
strcasestr_found s (d ∷ t) {r} h =
    let (suffix, passes) = find_suffix-IsSuffix (λ try. case_agrees try (d ∷ t)) s h in
    (suffix, sym (case_agrees-starts r (d ∷ t)) ∙ passes)

-- Where strcasestr finds nothing, the text sought is not empty and stands nowhere in the string.
strcasestr-eq-none :
    (s t : CStr)
    → strcasestr (some s) (some t) ≡ none
    → (t ≢ []) × ((p r : CStr) → s ≡ p ++ r → ¬ UpperStarts t r)
unfolding strcasestr
strcasestr-eq-none s [] h = cc
strcasestr-eq-none s (d ∷ t) h = (cons-ne-nil d t, λ p r e up. none_at p r e up)
  where
    none_at : (p r : CStr) → s ≡ p ++ r → ¬ UpperStarts (d ∷ t) r
    none_at p [] e up = unfold starts in cc
    none_at p (c ∷ r) e up =
        let miss : case_agrees (c ∷ r) (d ∷ t) ≡ false =
          find_suffix-eq-none (λ try. case_agrees try (d ∷ t)) p c r (rw e at h) in
        cc (miss, case_agrees-starts (c ∷ r) (d ∷ t))
