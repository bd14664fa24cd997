-- ===== src/Str/Letters.antt =====
-- Texts that differ at most in the case of their letters.
use cern_httpd.Base.{
  ℕ, zero, suc, ◌≡◌, refl, sym, ap, ◌∙◌, List, [], ◌∷◌, ◌++◌, map, length, drop, arith,
}
use cern_httpd.Str.{to_lower, to_upper}

abbrev pub SameText : List ℕ → List ℕ → Type 0
SameText s t = map to_lower s ≡ map to_lower t

pub to_lower-to_upper : (c : ℕ) → to_lower (to_upper c) ≡ to_lower c
unfolding to_lower to_upper
to_lower-to_upper c = ground arith

pub to_lower-to_lower : (c : ℕ) → to_lower (to_lower c) ≡ to_lower c
unfolding to_lower
to_lower-to_lower c = ground arith

map-append : (s t : List ℕ) → map to_lower (s ++ t) ≡ map to_lower s ++ map to_lower t
map-append [] t = refl
map-append (c ∷ s) t = ap (λ r. to_lower c ∷ r) (map-append s t)

pub SameText-append :
    (s s' t t' : List ℕ) → SameText s s' → SameText t t' → SameText (s ++ t) (s' ++ t')
SameText-append s s' t t' h k =
    map-append s t
    ∙ ap (λ r. r ++ map to_lower t) h
    ∙ ap (λ r. map to_lower s' ++ r) k
    ∙ sym (map-append s' t')

length-map : (s : List ℕ) → length (map to_lower s) ≡ length s
length-map [] = refl
length-map (c ∷ s) = ap suc (length-map s)

pub length-SameText : (s t : List ℕ) → SameText s t → length s ≡ length t
length-SameText s t h = sym (length-map s) ∙ ap length h ∙ length-map t

map-drop : (n : ℕ) (s : List ℕ) → map to_lower (drop n s) ≡ drop n (map to_lower s)
map-drop zero s = refl
map-drop (suc n) [] = refl
map-drop (suc n) (c ∷ s) = map-drop n s

pub SameText-drop : (n : ℕ) (s t : List ℕ) → SameText s t → SameText (drop n s) (drop n t)
SameText-drop n s t h = map-drop n s ∙ ap (drop n) h ∙ sym (map-drop n t)
