-- ===== src/Mime/Streams.antt =====
-- The whole stream of HTMIME.c keeps within its memory.
use mathlib.Core.Path.{subst}
use cern_httpd.Base.{
  ℕ, ◌≡◌, refl, Bool, true, false, ◌&&◌, Option, List, [], ◌∷◌, ◌==◌, Bool-cases, inl, inr, is_some,
}
use cern_httpd.Str.{CStr}
use cern_httpd.Mime.{
  MimeState, mime_transparent, TargetCall, free_call, abort_call, char_call, string_call,
  block_call, Mime, StreamStack, mime_convert, net_mime, call_target, is_transparent, is_ignore,
  put_character, put_characters, put_string, write, finish, mime_free, mime_abort,
}
use cern_httpd.Mime.Room.{Sound, Ready, at_state-Sound, call_target-Sound}

pub transparent_target :
    (call : TargetCall) (st : MimeState) (me : Mime)
    → me.state ≡ st
    → is_transparent st ≡ true
    → Sound me
    → Sound (call_target call me)
unfolding is_transparent
transparent_target call mime_transparent me e t h =
    call_target-Sound call me h.0 e (subst (λ st. Ready st me) e h.1)
transparent_target call _ me e t h = cc

pub put_character-Sound :
    (stream_stack : StreamStack) (me : Mime) (c : ℕ)
    → Sound me
    → Sound (put_character stream_stack me c)
unfolding put_character
put_character-Sound stream_stack me c h = elim (Bool-cases (is_transparent me.state)) [
  | inl e ↦ rw e (transparent_target (char_call c) me.state me refl e h)
  | inr e ↦ rw e (elim (Bool-cases (me.net_ascii && c == 13)) [
    | inl e' ↦ rw e' h
    | inr e' ↦ rw e' (at_state-Sound stream_stack me.state c me refl h.0 h.1)
  ])
]

pub put_characters-Sound :
    (stream_stack : StreamStack) (me : Mime) (s : List ℕ)
    → Sound me
    → Sound (put_characters stream_stack me s)
put_characters-Sound stream_stack me [] h = h
put_characters-Sound stream_stack me (c ∷ s) h =
    put_characters-Sound stream_stack (put_character stream_stack me c) s
      (put_character-Sound stream_stack me c h)

put_string-Sound :
    (stream_stack : StreamStack) (me : Mime) (s : CStr)
    → Sound me
    → Sound (put_string stream_stack me s)
unfolding put_string
put_string-Sound stream_stack me s h = elim (Bool-cases (is_transparent me.state)) [
  | inl e ↦ rw e (transparent_target (string_call s) me.state me refl e h)
  | inr e ↦ rw e (elim (Bool-cases (is_ignore me.state)) [
    | inl e' ↦ rw e' h
    | inr e' ↦ rw e' (put_characters-Sound stream_stack me s h)
  ])
]

pub write-Sound :
    (stream_stack : StreamStack) (me : Mime) (s : List ℕ)
    → Sound me
    → Sound (write stream_stack me s)
unfolding write
write-Sound stream_stack me s h = elim (Bool-cases (is_transparent me.state)) [
  | inl e ↦ rw e (transparent_target (block_call s) me.state me refl e h)
  | inr e ↦ rw e (put_characters-Sound stream_stack me s h)
]

-- What a caller gives to the stream.
pub data Input : Type 0 where
  one_char : ℕ → Input
  one_string : CStr → Input
  one_block : List ℕ → Input

unfoldable pub feed_one : StreamStack → Mime → Input → Mime
unfolding put_character put_string write
feed_one stream_stack me (one_char c) = put_character stream_stack me c
feed_one stream_stack me (one_string s) = put_string stream_stack me s
feed_one stream_stack me (one_block s) = write stream_stack me s

abbrev pub feed : StreamStack → Mime → List Input → Mime
feed stream_stack me [] = me
feed stream_stack me (input ∷ inputs) = feed stream_stack (feed_one stream_stack me input) inputs

feed_one-Sound :
    (stream_stack : StreamStack) (me : Mime) (input : Input)
    → Sound me
    → Sound (feed_one stream_stack me input)
unfolding feed_one
feed_one-Sound stream_stack me (one_char c) h = put_character-Sound stream_stack me c h
feed_one-Sound stream_stack me (one_string s) h = put_string-Sound stream_stack me s h
feed_one-Sound stream_stack me (one_block s) h = write-Sound stream_stack me s h

pub feed-Sound :
    (stream_stack : StreamStack) (me : Mime) (inputs : List Input)
    → Sound me
    → Sound (feed stream_stack me inputs)
feed-Sound stream_stack me [] h = h
feed-Sound stream_stack me (input ∷ inputs) h =
    feed-Sound stream_stack (feed_one stream_stack me input) inputs
      (feed_one-Sound stream_stack me input h)

unfoldable pub opened : Bool → Option ℕ → Mime
unfolding net_mime mime_convert
opened true output_stream = net_mime output_stream
opened false output_stream = mime_convert output_stream

opened-Sound : (is_net : Bool) (output_stream : Option ℕ) → Sound (opened is_net output_stream)
unfolding opened
opened-Sound true output_stream = (refl, tt)
opened-Sound false output_stream = (refl, tt)

finish_faultless :
    (call : TargetCall) (me : Mime) → me.fault ≡ false → (finish call me).fault ≡ false
unfolding finish call_target
finish_faultless call me f = elim (Bool-cases (is_some me.target)) [
  | inl e ↦ rw e (cc f)
  | inr e ↦ rw e f
]

-- Whatever characters, strings and blocks the stream is fed with, it writes no byte outside `value`
-- and follows no pointer that is NULL, nor does HTMIME_free or HTMIME_abort at its end; this holds
-- for the streams of HTMIMEConvert and of HTNetMIME, with and without a sink.
pub mime-faultless :
    (stream_stack : StreamStack) (is_net : Bool) (output_stream : Option ℕ) (inputs : List Input)
    (e : ℕ)
    → ((mime_free (feed stream_stack (opened is_net output_stream) inputs)).fault ≡ false)
      × ((mime_abort e (feed stream_stack (opened is_net output_stream) inputs)).fault ≡ false)
unfolding mime_free mime_abort
mime-faultless stream_stack is_net output_stream inputs e =
    let me = feed stream_stack (opened is_net output_stream) inputs in
    let sound =
      feed-Sound stream_stack (opened is_net output_stream) inputs
        (opened-Sound is_net output_stream) in
    (finish_faultless free_call me sound.0, finish_faultless (abort_call e) me sound.0)
