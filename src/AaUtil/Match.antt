-- ===== src/AaUtil/Match.antt =====
-- What HTAA_templateMatch accepts.
use mathlib.Core.Path.{ap₂}
use cern_httpd.Base.{
  ==_iff, ==_refl, ℕ, ◌≡◌, ◌≢◌, ◌↔◌, refl, sym, ap, ◌∙◌, true, false, some, [], ◌∷◌, ◌++◌, arith,
  Bool-cases, inl, inr, length, drop, ltb, ◌-◌, ==_ne, ◌==◌, length-append, append_cancel_left,
  take-append-drop,
}
use cern_httpd.Str.{CStr, streq}
use cern_httpd.Str.Mismatch.{
  NoStar, first_mismatch-star, first_mismatch-append, streq_iff, streq_self, tail_of_append,
}
use cern_httpd.AaUtil.{tail_matches, match_end, template_match, take}

-- `g` ends in `b`.
abbrev pub EndsIn : CStr → CStr → Type 0
EndsIn b g = (x : CStr) × (g ≡ x ++ b)

tail_matches_sound : (b g : CStr) → tail_matches streq b g ≡ true → EndsIn b g
unfolding tail_matches
tail_matches_sound b g h = elim (Bool-cases (ltb (length g) (length b))) [
  | inl e ↦ cc (rw e at h)
  | inr e ↦
      let same = (streq_iff b (drop (length g - length b) g)).0 (rw e at h) in
      (
        take (length g - length b) g,
        sym (take-append-drop (length g - length b) g)
            ∙ ap (λ t. take (length g - length b) g ++ t) (sym same),
      )
]

tail_matches-append : (x b : CStr) → tail_matches streq b (x ++ b) ≡ true
unfolding tail_matches
tail_matches-append x b =
    let long_enough : ltb (length (x ++ b)) (length b) ≡ false =
      ground (arith, length-append x b) in
    rw (long_enough, tail_of_append x b) (streq_self b)

tail_matches_iff : (b g : CStr) → (tail_matches streq b g ≡ true) ↔ EndsIn b g
tail_matches_iff b g = (tail_matches_sound b g, λ (x, e). rw e (tail_matches-append x b))

-- A text fits `a*b` if it is `a`, anything, and `b`.
abbrev pub FitsStar : CStr → CStr → CStr → Type 0
FitsStar a b f = (x : CStr) × (f ≡ a ++ (x ++ b))

match_end-star : (b g : CStr) → match_end streq (b'*' ∷ b) g ≡ tail_matches streq b g
unfolding match_end
match_end-star b g = refl

match_end-other : (c : ℕ) (p q : CStr) → c ≢ b'*' → match_end streq (c ∷ p) q ≡ false
unfolding match_end
match_end-other c p q ne = rw (==_ne c b'*' ne)

-- HTAA_templateMatch accepts a text without stars against `a*b`, where `a` has no star, exactly
-- when the text begins with `a` and ends in `b`, and the two do not overlap in it.
pub template_match_iff :
    (a b f : CStr)
    → NoStar a
    → NoStar f
    → (template_match (some (a ++ b'*' ∷ b)) (some f) ≡ true) ↔ FitsStar a b f
template_match_iff a b f ha hf = elim (first_mismatch-star a b f ha hf) [
  | inl (g, whole, here) ↦
      let reduced : template_match (some (a ++ b'*' ∷ b)) (some f) ≡ tail_matches streq b g =
        unfold template_match in rw here in
      let (sound, complete) = tail_matches_iff b g in
      (
        λ h. let (x, e) = sound (sym reduced ∙ h) in (x, whole ∙ ap (λ t. a ++ t) e),
        λ (x, e). reduced ∙ complete (x, append_cancel_left a g (x ++ b) (sym whole ∙ e)),
      )
  | inr (c, p, q, ne, here, _, none_at) ↦
      let reduced : template_match (some (a ++ b'*' ∷ b)) (some f) ≡ false =
        unfold template_match in rw here (match_end-other c p q ne) in
      (λ h. cc (h, reduced), λ (x, e). absurd (none_at (x ++ b) e))
]

literal_sound : (t f : CStr) → NoStar t → template_match (some t) (some f) ≡ true → t ≡ f
unfolding template_match
literal_sound [] [] h e = refl
literal_sound [] (d ∷ f) h e = cc
literal_sound (c ∷ t) [] h e = cc (e, match_end-other c t [] h.0)
literal_sound (c ∷ t) (d ∷ f) h e = elim (Bool-cases (c == d)) [
  | inl same ↦ ap₂ (λ u v. u ∷ v) ((==_iff c d).0 same) (literal_sound t f h.1 (rw same at e))
  | inr differ ↦ cc (rw differ at e, match_end-other c t (d ∷ f) h.0)
]

literal_self : (t : CStr) → template_match (some t) (some t) ≡ true
unfolding template_match
literal_self [] = refl
literal_self (c ∷ t) = rw (==_refl c) (literal_self t)

-- A template without a star is accepted by the equal text only.
template_match-literal :
    (t f : CStr) → NoStar t → (template_match (some t) (some f) ≡ true) ↔ (t ≡ f)
template_match-literal t f h = (literal_sound t f h, λ e. rw (← e) (literal_self t))

-- A star of the text that meets the star of the template is taken for an equal character: then what
-- stands behind the stars must match by itself, so `a*` refuses `a*` followed by anything.
template_match_star_in_text :
    (a y : CStr) (c : ℕ) → template_match (some (a ++ b'*' ∷ [])) (some (a ++ b'*' ∷ c ∷ y)) ≡ false
template_match_star_in_text a y c =
    unfold template_match in rw (first_mismatch-append a (b'*' ∷ []) (b'*' ∷ c ∷ y))
