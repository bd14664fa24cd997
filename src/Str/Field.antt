-- ===== src/Str/Field.antt =====
-- Reading white-separated fields (HTNextField of HTString.c).
use cern_httpd.Base.{
  ℕ, ◌≡◌, ◌≢◌, refl, ap, ◌∙◌, [], ◌∷◌, ◌++◌, arith, true, false, none, some, All, ==_ne,
}
use cern_httpd.Str.{
  CStr, white, skip_white, plain_field, quoted_field, past_delimiter, field_at, next_field,
}

-- No character is white.
abbrev pub IsWord : CStr → Type 0
IsWord = All (λ c. white c ≡ false)

abbrev pub IsBlank : CStr → Type 0
IsBlank = All (λ c. white c ≡ true)

-- A rest that ends a field: its first character, if any, is white.
abbrev pub EndsField : CStr → Type 0
EndsField [] = Unit
EndsField (c ∷ s) = white c ≡ true

next_field_lem : (s : CStr) → next_field s ≡ field_at (skip_white s)
unfolding next_field
next_field_lem s = refl

skip_white-append : (ws s : CStr) → IsBlank ws → skip_white (ws ++ s) ≡ skip_white s
unfolding skip_white
skip_white-append [] s h = refl
skip_white-append (c ∷ ws) s h = rw h.0 (skip_white-append ws s h.1)

plain_field-append : (w s : CStr) → IsWord w → EndsField s → plain_field (w ++ s) ≡ (w, s)
unfolding plain_field
plain_field-append [] [] hw hs = refl
plain_field-append [] (c ∷ s) hw hs = rw hs
plain_field-append (c ∷ w) s hw hs = rw (hw.0, plain_field-append w s hw.1 hs)

skip_white_word : (c : ℕ) (s : CStr) → white c ≡ false → skip_white (c ∷ s) ≡ c ∷ s
unfolding skip_white
skip_white_word c s h = rw h

field_at-word :
    (c : ℕ) (w s : CStr)
    → IsWord (c ∷ w)
    → c ≢ b'"'
    → EndsField s
    → field_at (c ∷ (w ++ s)) ≡ (some (c ∷ w), past_delimiter s)
unfolding field_at
field_at-word c w s hw hc hs = rw (==_ne c b'"' hc, plain_field-append (c ∷ w) s hw hs)

next_field_step :
    (ws s : CStr) (c : ℕ)
    → IsBlank ws
    → white c ≡ false
    → next_field (ws ++ c ∷ s) ≡ field_at (c ∷ s)
next_field_step ws s c hws hc =
    next_field_lem (ws ++ c ∷ s)
    ∙ ap field_at (skip_white-append ws (c ∷ s) hws ∙ skip_white_word c s hc)

-- White space before a word is skipped, the word is the field, and the text goes on behind the
-- character that ends it; the word begins with no quote.
next_field-word :
    (ws : CStr) (c : ℕ) (w s : CStr)
    → IsBlank ws
    → IsWord (c ∷ w)
    → c ≢ b'"'
    → EndsField s
    → next_field (ws ++ c ∷ (w ++ s)) ≡ (some (c ∷ w), past_delimiter s)
next_field-word ws c w s hws hw hc hs =
    next_field_step ws (w ++ s) c hws hw.0 ∙ field_at-word c w s hw hc hs

-- Nothing but white space holds no field.
pub next_field-blank : (ws : CStr) → IsBlank ws → next_field ws ≡ (none, [])
unfolding next_field
next_field-blank [] h = refl
next_field-blank (c ∷ ws) h = rw h.0 (next_field-blank ws h.1)

-- No quote and no backslash.
abbrev pub IsQuotable : CStr → Type 0
IsQuotable = All (λ c. (c ≢ b'"') × (c ≢ b'\\'))

quoted_field-append : (w s : CStr) → IsQuotable w → quoted_field (w ++ b'"' ∷ s) ≡ (w, b'"' ∷ s)
unfolding quoted_field
quoted_field-append [] [] h = refl
quoted_field-append [] (d ∷ s) h = refl
quoted_field-append (c ∷ []) [] h = ground arith
quoted_field-append (c ∷ []) (d ∷ s) h = ground arith
quoted_field-append (c ∷ d ∷ w) s h =
    rw (==_ne c b'"' h.0.0, ==_ne c b'\\' h.0.1, quoted_field-append (d ∷ w) s h.1)

field_at-quoted : (w s : CStr) → IsQuotable w → field_at (b'"' ∷ (w ++ b'"' ∷ s)) ≡ (some w, s)
unfolding field_at
field_at-quoted w s h = rw (quoted_field-append w s h)

-- A quoted field may hold white space, and the quotes are no part of it.
next_field-quoted :
    (ws w s : CStr)
    → IsBlank ws
    → IsQuotable w
    → next_field (ws ++ b'"' ∷ (w ++ b'"' ∷ s)) ≡ (some w, s)
next_field-quoted ws w s hws hw =
    next_field_step ws (w ++ b'"' ∷ s) b'"' hws (unfold white in refl) ∙ field_at-quoted w s hw

-- A word that can stand as an unquoted field.
abbrev pub IsField : CStr → Type 0
IsField [] = ⊥
IsField (c ∷ w) = IsWord (c ∷ w) × (c ≢ b'"')

pub next_field-field :
    (ws w s : CStr)
    → IsBlank ws
    → IsField w
    → EndsField s
    → next_field (ws ++ (w ++ s)) ≡ (some w, past_delimiter s)
next_field-field ws [] s hws hw hs = absurd hw
next_field-field ws (c ∷ w) s hws hw hs = next_field-word ws c w s hws hw.0 hw.1 hs
