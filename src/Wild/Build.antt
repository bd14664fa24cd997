-- ===== src/Wild/Build.antt =====
-- The shape of the patterns that HTPattern_new makes.
use cern_httpd.Base.{
  ℕ, ◌≡◌, refl, Bool, true, false, Option, none, some, [], ◌∷◌, ◌++◌, All, ◌==◌, if◌then◌else◌,
  All-append, Bool-cases, inl, inr, ◌||◌,
}
use cern_httpd.Str.{CStr}
use cern_httpd.Wild.{PatNode, HtPattern, pat_new, has_text, pattern_end, pattern_loop, pattern_new}

abbrev pub IsText : PatNode → Type 0
IsText p = (c : ℕ) × (s : CStr) × (p.text ≡ some (c ∷ s))

-- Each node has a text, and only that of the last may be empty.
abbrev pub IsBuilt : HtPattern → Type 0
IsBuilt [] = Unit
IsBuilt (p ∷ []) = (s : CStr) × (p.text ≡ some s)
IsBuilt (p ∷ q ∷ pat) = IsText p × IsBuilt (q ∷ pat)

IsBuilt-texts : (chain : HtPattern) → All IsText chain → IsBuilt chain
IsBuilt-texts [] h = tt
IsBuilt-texts (p ∷ []) ((c, s, e), _) = (c ∷ s, e)
IsBuilt-texts (p ∷ q ∷ chain) h = (h.0, IsBuilt-texts (q ∷ chain) h.1)

pat_new-IsBuilt :
    (wild : Bool) (text : CStr) (chain : HtPattern)
    → All IsText chain
    → IsBuilt (pat_new wild text chain)
unfolding pat_new
pat_new-IsBuilt wild text [] h = (text, refl)
pat_new-IsBuilt wild text (p ∷ []) h = (h.0, (text, refl))
pat_new-IsBuilt wild text (p ∷ q ∷ chain) h = (h.0, pat_new-IsBuilt wild text (q ∷ chain) h.1)

pattern_end-IsBuilt :
    (buf : CStr) (chain : HtPattern) (wild : Bool)
    → All IsText chain
    → IsBuilt (pattern_end buf chain wild)
unfolding pattern_end
pattern_end-IsBuilt buf chain wild h = elim (Bool-cases (wild || has_text buf)) [
  | inl e ↦ rw e (pat_new-IsBuilt wild buf chain h)
  | inr e ↦ rw e (IsBuilt-texts chain h)
]

-- The node made at a star is made only if the buffer holds a text.
starred-All :
    (buf : CStr) (chain : HtPattern) (wild : Bool)
    → All IsText chain
    → All IsText (if has_text buf then pat_new wild buf chain else chain)
unfolding has_text pat_new
starred-All [] chain wild h = h
starred-All (c ∷ s) chain wild h = All-append IsText chain _ h ((c, s, refl), tt)

pattern_loop-IsBuilt :
    (cur buf : CStr) (chain : HtPattern) (wild : Bool)
    → All IsText chain
    → IsBuilt (pattern_loop cur buf chain wild)
unfolding pattern_loop
pattern_loop-IsBuilt [] buf chain wild h = pattern_end-IsBuilt buf chain wild h
pattern_loop-IsBuilt (c ∷ []) buf chain wild h = elim (Bool-cases (c == b'\\')) [
  | inl e ↦ rw e (pattern_end-IsBuilt (buf ++ 10 ∷ []) chain wild h)
  | inr e ↦ elim (Bool-cases (c == b'*')) [
    | inl e' ↦ rw (e, e') (pattern_end-IsBuilt [] _ true (starred-All buf chain wild h))
    | inr e' ↦ rw (e, e') (pattern_end-IsBuilt (buf ++ c ∷ []) chain wild h)
  ]
]
pattern_loop-IsBuilt (c ∷ d ∷ cur) buf chain wild h = elim (Bool-cases (c == b'\\')) [
  | inl e ↦ rw e (pattern_loop-IsBuilt cur (buf ++ d ∷ []) chain wild h)
  | inr e ↦ elim (Bool-cases (c == b'*')) [
    | inl e' ↦ rw (e, e') (pattern_loop-IsBuilt (d ∷ cur) [] _ true (starred-All buf chain wild h))
    | inr e' ↦ rw (e, e') (pattern_loop-IsBuilt (d ∷ cur) (buf ++ c ∷ []) chain wild h)
  ]
]

-- In a pattern of HTPattern_new each node has a text, and only the last text may be empty.
pub pattern_new-IsBuilt : (str : Option CStr) → IsBuilt (pattern_new str)
unfolding pattern_new
pattern_new-IsBuilt none = tt
pattern_new-IsBuilt (some str) = pattern_loop-IsBuilt str [] [] false tt
