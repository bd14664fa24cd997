-- ===== src/Wild/Prefix.antt =====
-- Templates with one star at the end, and templates whose text overlaps itself.
use cern_httpd.Base.{
  ℕ, ◌≡◌, ◌≢◌, refl, ap, ◌∙◌, Bool, true, false, ◌&&◌, ◌||◌, not, Option, none, some, [], ◌∷◌, ◌++◌,
  length, drop, All, ==_ne, if◌then◌else◌, append_assoc, append-nil,
}
use cern_httpd.Str.{CStr, starts}
use cern_httpd.Wild.{HtPattern, WildMatch, is_user_dir, pattern_loop, pattern_new, pattern_match}

-- A text with no star and no backslash.
abbrev pub IsLiteral : CStr → Type 0
IsLiteral = All (λ c. (c ≢ b'*') × (c ≢ b'\\'))

pattern_loop-literal :
    (t rest buf : CStr) (chain : HtPattern) (wild : Bool)
    → IsLiteral t
    → pattern_loop (t ++ rest) buf chain wild ≡ pattern_loop rest (buf ++ t) chain wild
unfolding pattern_loop
pattern_loop-literal [] rest buf chain wild h = rw append-nil
pattern_loop-literal (c ∷ []) [] buf chain wild h = rw (==_ne c b'\\' h.0.1, ==_ne c b'*' h.0.0)
pattern_loop-literal (c ∷ []) (d ∷ rest) buf chain wild h =
    rw (==_ne c b'\\' h.0.1, ==_ne c b'*' h.0.0)
pattern_loop-literal (c ∷ d ∷ t) rest buf chain wild h =
    rw (==_ne c b'\\' h.0.1, ==_ne c b'*' h.0.0)
      (pattern_loop-literal (d ∷ t) rest (buf ++ c ∷ []) chain wild h.1
        ∙ ap (λ b. pattern_loop rest b chain wild) (append_assoc buf (c ∷ []) (d ∷ t)))

-- The pattern of a text and a star behind it.
abbrev prefix_pattern : CStr → HtPattern
prefix_pattern t =
    record { wild = false; text = some t } ∷ record { wild = true; text = some [] } ∷ []

pattern_new-prefix :
    (c : ℕ) (t : CStr)
    → IsLiteral (c ∷ t)
    → pattern_new (some (c ∷ t ++ b'*' ∷ [])) ≡ prefix_pattern (c ∷ t)
unfolding pattern_new
pattern_new-prefix c t h = pattern_loop-literal (c ∷ t) (b'*' ∷ []) [] [] false h

-- The four tests, in the order in which the code makes them.
prefix_tests :
    (a u v w : Bool) (rest act : CStr) (loop : Option WildMatch)
    → ◌≡◌ {A = Option CStr}
        (elim (if not a || (u && not v)
          then none
          else if not w
          then some (some rest ∷ [])
          else if w && true
          then none
          else loop) [ none ↦ none | some matches ↦ some act ])
        (if a && (not u || v) && not w then some act else none)
prefix_tests false u v w rest act loop = refl
prefix_tests true false v false rest act loop = refl
prefix_tests true false v true rest act loop = refl
prefix_tests true true false w rest act loop = refl
prefix_tests true true true false rest act loop = refl
prefix_tests true true true true rest act loop = refl

-- A template that ends in its only star matches exactly the texts that begin with what stands
-- before the star, except that neither a user directory nor one that begins at the star is matched
-- implicitly; the result is the text itself.
pattern_match-prefix :
    (c : ℕ) (t act : CStr)
    → IsLiteral (c ∷ t)
    → pattern_match true (pattern_new (some (c ∷ t ++ b'*' ∷ []))) [] (some act) ≡ (
        if starts (c ∷ t) act
          && (not (is_user_dir act) || is_user_dir (c ∷ t))
          && not (is_user_dir (drop (length (c ∷ t)) act))
        then some act
        else none)
unfolding pattern_match
pattern_match-prefix c t act h =
    rw (pattern_new-prefix c t h) (prefix_tests _ (is_user_dir act) _ _ _ act _)
