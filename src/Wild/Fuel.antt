-- ===== src/Wild/Fuel.antt =====
-- The search loop of `match` ends: each round stands further on in the text.
use cern_httpd.Base.{
  ℕ, zero, suc, ◌<◌, ◌≤◌, ◌≡◌, refl, ap, Bool, true, false, Option, none, some, [], ◌∷◌, arith,
  length, drop, length-append, length-drop, Option-cases, inl, inr,
}
use cern_httpd.Str.{CStr, starts, strstr}
use cern_httpd.Str.Search.{IsSuffix, find_suffix-IsSuffix, strcasestr_found}
use cern_httpd.Wild.{WildMatch, search_text, wild_loop}

length-IsSuffix : (r s : CStr) → IsSuffix r s → length r ≤ length s
length-IsSuffix r s (p, e) = omega (arith, ap length e, length-append p r)

search_text-length :
    (cs : Bool) (text s : CStr) {r : CStr} → search_text cs text s ≡ some r → length r ≤ length s
unfolding search_text strstr
search_text-length true text s {r} h =
    length-IsSuffix r s (find_suffix-IsSuffix (starts text) s h).0
search_text-length false text s {r} h = length-IsSuffix r s (strcasestr_found s text h).0

search_text-nil : (cs : Bool) (c : ℕ) (text : CStr) → search_text cs (c ∷ text) [] ≡ none
unfolding search_text
search_text-nil true c text = refl
search_text-nil false c text = refl

-- A search behind a text that was found stands further on.
search_text-drop :
    (cs : Bool) (c : ℕ) (text : CStr) (n : ℕ) (cur r : CStr)
    → search_text cs (c ∷ text) (drop (suc n) cur) ≡ some r
    → length r < length cur
search_text-drop cs c text n [] r h = cc (h, search_text-nil cs c text)
search_text-drop cs c text n (d ∷ cur) r h =
    omega (arith, search_text-length cs (c ∷ text) (drop n cur) h, length-drop n cur)

module _ (cs : Bool) (c : ℕ) (text : CStr) (next : CStr → Option WildMatch) (act : CStr) where
  abbrev loop_from : ℕ → Option CStr → Option WildMatch
  loop_from = wild_loop (search_text cs (c ∷ text)) (length (c ∷ text)) next act

  abbrev Within : ℕ → Option CStr → Type 0
  Within f none = Unit
  Within f (some cur) = length cur < f

  search_text-Within :
      (n f : ℕ) (cur : CStr)
      → length cur < suc f
      → Within f (search_text cs (c ∷ text) (drop (suc n) cur))
  search_text-Within n f cur h =
      elim (Option-cases (search_text cs (c ∷ text) (drop (suc n) cur))) [
        | inl e ↦ rw e tt
        | inr (r, e) ↦ rw e (omega (arith, search_text-drop cs c text n cur r e))
      ]

  loop_from-fuel :
      (f g : ℕ) (o : Option CStr) → Within f o → Within g o → loop_from f o ≡ loop_from g o
  unfolding wild_loop
  loop_from-fuel zero zero o hf hg = refl
  loop_from-fuel f g none hf hg = refl
  loop_from-fuel zero (suc g) (some cur) hf hg = absurd (omega arith)
  loop_from-fuel (suc f) zero (some cur) hf hg = absurd (omega arith)
  loop_from-fuel (suc f) (suc g) (some cur) hf hg =
      elim (Option-cases (next (drop (length (c ∷ text)) cur))) [
        | inl e ↦
            rw (e, wild_loop)
              (loop_from-fuel f g (search_text cs (c ∷ text) (drop (length (c ∷ text)) cur))
                (search_text-Within (length text) f cur hf)
                (search_text-Within (length text) g cur hg))
        | inr (m, e) ↦ rw (e, wild_loop)
      ]

  -- The fuel that `match` gives its loop, one more than the characters of the text, is enough: from
  -- there on, more of it changes no result.
  wild_loop-fuel :
      (fuel : ℕ)
      → length act < fuel
      → wild_loop
          (search_text cs (c ∷ text))
          (length (c ∷ text))
          next
          act
          fuel
          (search_text cs (c ∷ text) act)
        ≡ wild_loop
            (search_text cs (c ∷ text))
            (length (c ∷ text))
            next
            act
            (suc (length act))
            (search_text cs (c ∷ text) act)
  wild_loop-fuel fuel h = elim (Option-cases (search_text cs (c ∷ text) act)) [
    | inl e ↦ rw e (loop_from-fuel fuel (suc (length act)) none tt tt)
    | inr (r, e) ↦ rw e (
        loop_from-fuel fuel (suc (length act)) (some r)
          (omega (arith, search_text-length cs (c ∷ text) act e))
          (omega (arith, search_text-length cs (c ∷ text) act e)))
  ]
