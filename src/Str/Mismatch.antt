-- ===== src/Str/Mismatch.antt =====
-- Where two strings first differ, and the comparison of strings.
use mathlib.Core.Path.{ap₂}
use cern_httpd.Base.{
  ◌∙◌, ℕ, ◌≡◌, ◌≢◌, ◌↔◌, refl, ap, true, false, [], ◌∷◌, ◌++◌, All, arith, ◌==◌, ==_refl, ==_ne,
  ==_iff, ◌⊎◌, Bool-cases, inl, inr, length, drop, length-append, drop-length-append, ◌-◌, ◌<◌, sym,
}
use cern_httpd.Str.{CStr, same_head, first_mismatch, streq}

abbrev pub NoStar : CStr → Type 0
NoStar = All (λ c. c ≢ b'*')

pub first_mismatch-append : (a p q : CStr) → first_mismatch (a ++ p) (a ++ q) ≡ first_mismatch p q
unfolding first_mismatch
first_mismatch-append [] p q = refl
first_mismatch-append (c ∷ a) p q = rw (==_refl c) (first_mismatch-append a p q)

streq_sound : (s t : CStr) → streq s t ≡ true → s ≡ t
unfolding streq
streq_sound [] [] h = refl
streq_sound [] (d ∷ t) h = cc
streq_sound (c ∷ s) [] h = cc
streq_sound (c ∷ s) (d ∷ t) h = ground (arith, streq_sound s t)

pub streq_self : (s : CStr) → streq s s ≡ true
unfolding streq
streq_self [] = refl
streq_self (c ∷ s) = rw (==_refl c) (streq_self s)

pub streq_iff : (s t : CStr) → (streq s t ≡ true) ↔ (s ≡ t)
streq_iff s t = (streq_sound s t, λ e. rw (← e) (streq_self s))

-- A template `a*b` against a text without stars: either the text begins with `a`, and the strings
-- first differ at the star, or they first differ before it.
abbrev pub AtStar : CStr → CStr → CStr → Type 0
AtStar a b f = (g : CStr) × (f ≡ a ++ g) × (first_mismatch (a ++ b'*' ∷ b) f ≡ (b'*' ∷ b, g))

abbrev pub BeforeStar : CStr → CStr → CStr → Type 0
BeforeStar a b f =
    (c : ℕ) × (p q : CStr) × (c ≢ b'*')
    × (first_mismatch (a ++ b'*' ∷ b) f ≡ (c ∷ p, q))
    × (same_head (c ∷ p) q ≡ false)
    × ((g : CStr) → f ≢ a ++ g)

pub first_mismatch-star : (a b f : CStr) → NoStar a → NoStar f → AtStar a b f ⊎ BeforeStar a b f
unfolding first_mismatch same_head
first_mismatch-star [] b [] ha hf = inl ([], refl, refl)
first_mismatch-star [] b (d ∷ f) ha hf = inl (d ∷ f, refl, rw (==_ne b'*' d (λ e. hf.0 (sym e))))
first_mismatch-star (c ∷ a) b [] ha hf = inr (c, a ++ b'*' ∷ b, [], ha.0, refl, refl, λ g e. cc)
first_mismatch-star (c ∷ a) b (d ∷ f) ha hf = elim (Bool-cases (c == d)) [
  | inl e ↦ elim (first_mismatch-star a b f ha.1 hf.1) [
    | inl (g, whole, here) ↦ inl (g, ap₂ (λ u v. u ∷ v) (sym ((==_iff c d).0 e)) whole, rw e here)
    | inr (x, p, q, ne, here, differ, none_at) ↦
        inr (x, p, q, ne, rw e here, differ, λ g e'. none_at g (cc))
  ]
  | inr e ↦ inr (c, a ++ b'*' ∷ b, d ∷ f, ha.0, rw e, e, λ g e'. (cc (e, ==_refl c)))
]

-- What a pointer to the tail of `q` that is as long as `p` is compared with.
pub tail_of_append : (x b : CStr) → drop (length (x ++ b) - length b) (x ++ b) ≡ b
tail_of_append x b =
    let e : length (x ++ b) - length b ≡ length x = omega (arith, length-append x b) in
    rw e (drop-length-append x b)

pub no_tail_longer : (b g : CStr) → length g < length b → (x : CStr) → g ≢ x ++ b
no_tail_longer b g h x e = omega (arith, ap length e, length-append x b)

star_stops : (b q : CStr) → NoStar q → first_mismatch (b'*' ∷ b) q ≡ (b'*' ∷ b, q)
unfolding first_mismatch
star_stops b [] h = refl
star_stops b (d ∷ q) h = rw (==_ne b'*' d (λ e. h.0 (sym e)))

pub first_mismatch-at_star :
    (a b q : CStr) → NoStar q → first_mismatch (a ++ b'*' ∷ b) (a ++ q) ≡ (b'*' ∷ b, q)
first_mismatch-at_star a b q h = first_mismatch-append a (b'*' ∷ b) q ∙ star_stops b q h
