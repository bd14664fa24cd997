-- ===== src/Mime/Body.antt =====
-- The end of the header and the body of a message, in HTMIME.c.
use mathlib.Core.Path.{subst}
use cern_httpd.Base.{
  ℕ, ◌≡◌, refl, sym, ap, ◌∙◌, Bool-cases, inl, inr, false, ◌&&◌, Option, none, some, List, [], ◌∷◌,
  ◌++◌, ◌==◌, map, append-nil,
}
use cern_httpd.Mime.{
  MimeState, mime_ignore, mime_transparent, newline, beginning_of_line, Mime, StreamStack,
  at_line_start, at_newline, at_state, is_transparent, end_header, or_sink, state_for,
  put_character, put_characters, char_call,
}
use cern_httpd.Mime.Blocks.{content, content-append, content-chars, put_characters-Passing}
use cern_httpd.Mime.Value.{put_character-at}
use cern_httpd.Mime.Name.{AtLine}

-- A body for which there is no target is dropped.
abbrev pub taken_by : Option ℕ → List ℕ → List ℕ
taken_by none body = []
taken_by (some target) body = body

ignored_one :
    (stream_stack : StreamStack) (c : ℕ) (me : Mime)
    → me.state ≡ mime_ignore
    → put_character stream_stack me c ≡ me
unfolding put_character is_transparent at_state
ignored_one stream_stack c me h = elim (Bool-cases (me.net_ascii && c == 13)) [
  | inl e ↦ rw (ap is_transparent h, e) refl
  | inr e ↦ rw (ap is_transparent h, e) (ap (λ (s : MimeState). at_state stream_stack s c me) h)
]

ignored :
    (stream_stack : StreamStack) (body : List ℕ) (me : Mime)
    → me.state ≡ mime_ignore
    → put_characters stream_stack me body ≡ me
ignored stream_stack [] me h = refl
ignored stream_stack (c ∷ body) me h =
    ap (λ (m : Mime). put_characters stream_stack m body) (ignored_one stream_stack c me h)
    ∙ ignored stream_stack body me h

-- The body has gone to the target.
abbrev Passed : Mime → Option ℕ → List ℕ → Mime → Type 0
Passed me target body m =
    (m.target ≡ target) × (content m.sent ≡ content me.sent ++ taken_by target body)

pass_body :
    (stream_stack : StreamStack) (me : Mime) (target : Option ℕ) (body : List ℕ)
    → me.fault ≡ false
    → Passed me target body
        (put_characters stream_stack (record me { target = target; state = state_for target }) body)
unfolding state_for
pass_body stream_stack me none body f =
    subst (Passed me none body)
      (sym (ignored stream_stack body (record me { target = none; state = mime_ignore }) refl))
      (refl, sym (append-nil (content me.sent)))
pass_body stream_stack me (some target) body f =
    let m = record me { target = some target; state = mime_transparent } in
    subst (Passed me (some target) body)
      (sym (put_characters-Passing stream_stack m body (refl, f, refl)))
      (
        refl,
        content-append me.sent (map char_call body)
            ∙ ap (λ (t : List ℕ). content me.sent ++ t) (content-chars body),
      )

blank_line :
    (stream_stack : StreamStack) (me : Mime)
    → AtLine me
    → put_character stream_stack me 10 ≡ end_header stream_stack me
unfolding is_transparent at_state at_newline at_line_start
blank_line stream_stack me (inl e) = put_character-at stream_stack me 10 newline e refl refl
blank_line stream_stack me (inr e) =
    put_character-at stream_stack me 10 beginning_of_line e refl refl

-- Where a header line is expected, a blank line ends the header: the stream for the content type
-- becomes the target, the given sink where there is no such stream, and the target gets the rest of
-- the message as it is, whatever it contains. Where there is neither, the rest is dropped.
pub blank_line-body :
    (stream_stack : StreamStack) (me : Mime) (body : List ℕ)
    → AtLine me
    → me.fault ≡ false
    → let target = or_sink (stream_stack me.format) me.sink in
      let m = put_characters stream_stack me (10 ∷ body) in
      (m.target ≡ target) × (content m.sent ≡ content me.sent ++ taken_by target body)
unfolding end_header
blank_line-body stream_stack me body at f =
    let target = or_sink (stream_stack me.format) me.sink in
    subst (λ (m : Mime). Passed me target body (put_characters stream_stack m body))
      (sym (blank_line stream_stack me at)) (pass_body stream_stack me target body f)
