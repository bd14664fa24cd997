-- ===== src/Mime/Fold.antt =====
-- The continuation of a line that the stream of HTMIME.c ignores.
use mathlib.Core.Path.{subst}
use cern_httpd.Base.{
  ℕ, ◌<◌, ◌≡◌, refl, sym, ap, Bool-cases, inl, inr, false, ◌&&◌, List, [], ◌∷◌, ◌++◌, ◌==◌, length,
  codes, All, map,
}
use cern_httpd.Str.{CStr, white, to_lower}
use cern_httpd.Mime.{
  MimeState, junk_line, newline, Mime, StreamStack, at_junk_line, at_newline, at_state,
  is_transparent, put_character, put_characters,
}
use cern_httpd.Mime.Blocks.{put_characters-append}
use cern_httpd.Mime.Value.{value_of, put_character-at}
use cern_httpd.Mime.Name.{IsC, IsY}
use cern_httpd.Mime.Line.{IsBlank, TypeSet, content_type-line}

junk_step :
    (stream_stack : StreamStack) (c : ℕ) (me : Mime)
    → me.state ≡ junk_line
    → (c == 10) ≡ false
    → (put_character stream_stack me c).state ≡ junk_line
unfolding put_character is_transparent at_state at_junk_line
junk_step stream_stack c me h n = elim (Bool-cases (me.net_ascii && c == 13)) [
  | inl e ↦ rw (ap is_transparent h, e) h
  | inr e ↦
      rw (ap is_transparent h, e)
        (subst (λ (s : MimeState). (at_state stream_stack s c me).state ≡ junk_line) (sym h)
          (rw n h))
]

junk_loop :
    (stream_stack : StreamStack) (line : List ℕ) (me : Mime)
    → me.state ≡ junk_line
    → All (λ d. (d == 10) ≡ false) line
    → (put_characters stream_stack me line).state ≡ junk_line
junk_loop stream_stack [] me h n = h
junk_loop stream_stack (c ∷ line) me h n =
    junk_loop stream_stack line (put_character stream_stack me c)
      (junk_step stream_stack c me h n.0) n.1

-- The state on a fold is the one behind a newline, and not junk_line.
abbrev Unfolds : Mime → Type 0
Unfolds me = (me.state ≡ newline) × (me.fold_state ≡ newline)

junk_end :
    (stream_stack : StreamStack) (me : Mime)
    → me.state ≡ junk_line
    → Unfolds (put_character stream_stack me 10)
unfolding is_transparent at_state at_junk_line
junk_end stream_stack me h =
    subst Unfolds (sym (put_character-at stream_stack me 10 junk_line h refl refl)) (refl, refl)

fold_step :
    (stream_stack : StreamStack) (b : ℕ) (me : Mime)
    → Unfolds me
    → IsBlank b
    → (put_character stream_stack me b).state ≡ newline
unfolding put_character is_transparent at_state at_newline
fold_step stream_stack b me h n = elim (Bool-cases (me.net_ascii && b == 13)) [
  | inl e ↦ rw (ap is_transparent h.0, e) h.0
  | inr e ↦
      rw (ap is_transparent h.0, e)
        (subst (λ (s : MimeState). (at_state stream_stack s b me).state ≡ newline) (sym h.0)
          (rw (n.1, n.0) h.1))
]

folded :
    (stream_stack : StreamStack) (me : Mime) (junk : List ℕ) (b : ℕ)
    → me.state ≡ junk_line
    → All (λ d. (d == 10) ≡ false) junk
    → IsBlank b
    → (put_characters stream_stack me (junk ++ 10 ∷ b ∷ [])).state ≡ newline
folded stream_stack me junk b h hj hb =
    let me1 = put_characters stream_stack me junk in
    subst (λ (m : Mime). m.state ≡ newline)
      (sym (put_characters-append stream_stack me junk (10 ∷ b ∷ [])))
      (fold_step stream_stack b (put_character stream_stack me1 10)
        (junk_end stream_stack me1 (junk_loop stream_stack junk me h hj)) hb)

-- In the midst of a line that is ignored: the line's continuation, a new line that begins with a
-- blank, is not ignored. Where the name Content-Type stands behind the blank, what follows it sets
-- the content type of the message.
pub folded_junk-sets_type :
    (stream_stack : StreamStack) (me : Mime) (junk : List ℕ) (b c1 c2 : ℕ) (w1 w2 : CStr)
    (line : List ℕ) (c : ℕ)
    → me.state ≡ junk_line
    → All (λ d. (d == 10) ≡ false) junk
    → IsBlank b
    → IsC c1
    → map to_lower w1 ≡ codes "ontent-t"
    → IsY c2
    → map to_lower w2 ≡ codes "pe:"
    → white c ≡ false
    → All (λ d. (d == 10) ≡ false) line
    → length (value_of line) < 127
    → TypeSet (c ∷ value_of line) (
        put_characters stream_stack me
          ((junk ++ 10 ∷ b ∷ []) ++ (((c1 ∷ w1) ++ (c2 ∷ w2)) ++ (c ∷ (line ++ 10 ∷ [])))))
folded_junk-sets_type stream_stack me junk b c1 c2 w1 w2 line c h hj hb h1 e1 h2 e2 hc hl lt =
    subst (TypeSet (c ∷ value_of line))
      (sym (
        put_characters-append stream_stack me (junk ++ 10 ∷ b ∷ [])
          (((c1 ∷ w1) ++ (c2 ∷ w2)) ++ (c ∷ (line ++ 10 ∷ [])))))
      (content_type-line stream_stack (put_characters stream_stack me (junk ++ 10 ∷ b ∷ [])) c1 c2
        w1 w2 [] line c (inl (folded stream_stack me junk b h hj hb)) h1 e1 h2 e2 tt tt hc hl lt)
