-- ===== src/Mime/Line.antt =====
-- A line of a header that names the content type, in HTMIME.c.
use mathlib.Core.Path.{subst}
use cern_httpd.Base.{
  ℕ, ◌<◌, ◌≡◌, refl, sym, ap, ◌∙◌, arith, true, false, List, [], ◌∷◌, ◌++◌, ◌==◌, length, codes,
  All, map,
}
use cern_httpd.Str.{CStr, white, to_lower}
use cern_httpd.Mime.{
  content_type, skip_get_value, newline, Mime, StreamStack, at_field, at_state, is_transparent,
  put_character, put_characters,
}
use cern_httpd.Mime.Blocks.{put_characters-append}
use cern_httpd.Mime.Value.{
  value_of, BeforeValue, put_character-at, value_loop, value_end, skip_loop, value_start, not_cr,
}
use cern_httpd.Mime.Name.{AtLine, IsC, IsY, name_loop}

-- The line has ended, and has set the content type.
abbrev pub TypeSet : List ℕ → Mime → Type 0
TypeSet v me = (me.format ≡ v) × (me.state ≡ newline)

-- White space within a line.
abbrev pub IsBlank : ℕ → Type 0
IsBlank c = (white c ≡ true) × ((c == 10) ≡ false)

value_line :
    (stream_stack : StreamStack) (me : Mime) (ws line : List ℕ) (c : ℕ)
    → BeforeValue content_type me
    → All IsBlank ws
    → white c ≡ false
    → All (λ d. (d == 10) ≡ false) line
    → length (value_of line) < 127
    → TypeSet (c ∷ value_of line) (put_characters stream_stack me (ws ++ c ∷ (line ++ 10 ∷ [])))
value_line stream_stack me ws line c h hws hc hl lt =
    let me1 = put_characters stream_stack me ws in
    let me2 = put_character stream_stack me1 c in
    let me3 = put_characters stream_stack me2 line in
    let h1 = skip_loop stream_stack content_type ws me h hws in
    let h2 = value_start stream_stack c content_type me1 h1 hc in
    let h3 = value_loop stream_stack content_type line (c ∷ []) me2 h2 hl (omega arith) in
    subst (TypeSet (c ∷ value_of line))
      (sym (
        put_characters-append stream_stack me ws (c ∷ (line ++ 10 ∷ []))
        ∙ put_characters-append stream_stack me2 line (10 ∷ [])))
      (value_end stream_stack (c ∷ value_of line) me3 h3)

-- The first character behind the colon.
field_first :
    (stream_stack : StreamStack) (me : Mime) (c : ℕ) (t : List ℕ)
    → me.state ≡ content_type
    → (c == 13) ≡ false
    → put_characters stream_stack me (c ∷ t)
      ≡ put_characters stream_stack (record me { field = me.state; state = skip_get_value }) (c ∷ t)
unfolding is_transparent at_state at_field
field_first stream_stack me c t e n =
    ap (λ (m : Mime). put_characters stream_stack m t)
      (put_character-at stream_stack me c content_type e refl n
        ∙ sym (
            put_character-at stream_stack (record me { field = me.state; state = skip_get_value }) c
              skip_get_value refl refl n))

behind_name :
    (stream_stack : StreamStack) (me : Mime) (ws line : List ℕ) (c : ℕ)
    → me.state ≡ content_type
    → All IsBlank ws
    → All (λ d. (d == 13) ≡ false) ws
    → white c ≡ false
    → All (λ d. (d == 10) ≡ false) line
    → length (value_of line) < 127
    → TypeSet (c ∷ value_of line) (put_characters stream_stack me (ws ++ c ∷ (line ++ 10 ∷ [])))
behind_name stream_stack me [] line c e hws ncr hc hl lt =
    subst (TypeSet (c ∷ value_of line))
      (sym (field_first stream_stack me c (line ++ 10 ∷ []) e (not_cr c hc)))
      (value_line stream_stack (record me { field = me.state; state = skip_get_value }) [] line c
        (refl, e) hws hc hl lt)
behind_name stream_stack me (b ∷ ws) line c e hws ncr hc hl lt =
    subst (TypeSet (c ∷ value_of line))
      (sym (field_first stream_stack me b (ws ++ c ∷ (line ++ 10 ∷ [])) e ncr.0))
      (value_line stream_stack (record me { field = me.state; state = skip_get_value }) (b ∷ ws)
        line c (refl, e) hws hc hl lt)

-- Where a header line is expected, a line with the name Content-Type in letters of any case, white
-- space, and a value sets the content type to the value without the white space in it: the value
-- goes on behind a blank, to the end of the line. The line has no newline but the last, and the
-- value has 127 characters at most.
pub content_type-line :
    (stream_stack : StreamStack) (me : Mime) (c1 c2 : ℕ) (w1 w2 : CStr) (ws line : List ℕ) (c : ℕ)
    → AtLine me
    → IsC c1
    → map to_lower w1 ≡ codes "ontent-t"
    → IsY c2
    → map to_lower w2 ≡ codes "pe:"
    → All IsBlank ws
    → All (λ d. (d == 13) ≡ false) ws
    → white c ≡ false
    → All (λ d. (d == 10) ≡ false) line
    → length (value_of line) < 127
    → TypeSet
        (c ∷ value_of line)
        (put_characters stream_stack me (((c1 ∷ w1) ++ (c2 ∷ w2)) ++ (ws ++ c ∷ (line ++ 10 ∷ []))))
content_type-line stream_stack me c1 c2 w1 w2 ws line c at h1 e1 h2 e2 hws ncr hc hl lt =
    let name = (c1 ∷ w1) ++ (c2 ∷ w2) in
    subst (TypeSet (c ∷ value_of line))
      (sym (put_characters-append stream_stack me name (ws ++ c ∷ (line ++ 10 ∷ []))))
      (behind_name stream_stack (put_characters stream_stack me name) ws line c
        (name_loop stream_stack me c1 c2 w1 w2 at h1 e1 h2 e2) hws ncr hc hl lt)
