-- ===== src/Mime/Blocks.antt =====
-- The blocks that the stream of HTMIME.c is fed with.
use mathlib.Core.Path.{subst}
use cern_httpd.Base.{
  ℕ, ◌≡◌, refl, sym, ap, ◌∙◌, true, false, List, [], ◌∷◌, ◌++◌, map, append_assoc, append-nil,
  Bool-cases, inl, inr, is_some,
}
use cern_httpd.Mime.{
  MimeState, mime_transparent, TargetCall, char_call, string_call, block_call, free_call,
  abort_call, Mime, StreamStack, call_target, is_transparent, put_character, put_characters, write,
}
use cern_httpd.Mime.Room.{Sound, Ready}
use cern_httpd.Mime.Streams.{write-Sound}

-- The bytes that the target was given.
unfoldable pub content : List TargetCall → List ℕ
content [] = []
content (char_call c ∷ calls) = c ∷ content calls
content (string_call s ∷ calls) = s ++ content calls
content (block_call s ∷ calls) = s ++ content calls
content (free_call ∷ calls) = content calls
content (abort_call e ∷ calls) = content calls

pub content-append : (xs ys : List TargetCall) → content (xs ++ ys) ≡ content xs ++ content ys
unfolding content
content-append [] ys = refl
content-append (char_call c ∷ xs) ys = ap (λ t. c ∷ t) (content-append xs ys)
content-append (string_call s ∷ xs) ys =
    ap (λ t. s ++ t) (content-append xs ys) ∙ sym (append_assoc s (content xs) (content ys))
content-append (block_call s ∷ xs) ys =
    ap (λ t. s ++ t) (content-append xs ys) ∙ sym (append_assoc s (content xs) (content ys))
content-append (free_call ∷ xs) ys = content-append xs ys
content-append (abort_call e ∷ xs) ys = content-append xs ys

pub content-chars : (s : List ℕ) → content (map char_call s) ≡ s
unfolding content
content-chars [] = refl
content-chars (c ∷ s) = ap (λ t. c ∷ t) (content-chars s)

-- The stream, but for how the bytes of the target were divided into calls.
abbrev pub flat : Mime → Mime
flat me = record me { sent = block_call (content me.sent) ∷ [] }

-- The body is passed on.
abbrev pub Passing : Mime → Type 0
Passing me = (me.state ≡ mime_transparent) × (me.fault ≡ false) × (is_some me.target ≡ true)

transparent-Passing :
    (st : MimeState) (me : Mime) → me.state ≡ st → is_transparent st ≡ true → Sound me → Passing me
unfolding is_transparent
transparent-Passing mime_transparent me e t h = (e, h.0, subst (λ st. Ready st me) e h.1)
transparent-Passing _ me e t h = cc

abbrev pub appended : Mime → List TargetCall → Mime
appended me calls = record me { sent = me.sent ++ calls }

call_target-appended :
    (call : TargetCall) (me : Mime) → Passing me → call_target call me ≡ appended me (call ∷ [])
unfolding call_target
call_target-appended call me (s, f, t) =
    ap (λ b. record (appended me (call ∷ [])) { fault = b }) (cc (f, t))

is_transparent-Passing : (me : Mime) → Passing me → is_transparent me.state ≡ true
unfolding is_transparent
is_transparent-Passing me h = ap is_transparent h.0

put_character-Passing :
    (stream_stack : StreamStack) (me : Mime) (c : ℕ)
    → Passing me
    → put_character stream_stack me c ≡ appended me (char_call c ∷ [])
unfolding put_character
put_character-Passing stream_stack me c h =
    rw (is_transparent-Passing me h) (call_target-appended (char_call c) me h)

pub put_characters-Passing :
    (stream_stack : StreamStack) (me : Mime) (s : List ℕ)
    → Passing me
    → put_characters stream_stack me s ≡ appended me (map char_call s)
put_characters-Passing stream_stack me [] h =
    ap (λ (t : List TargetCall). record me { sent = t }) (sym (append-nil me.sent))
put_characters-Passing stream_stack me (c ∷ s) h =
    ap (λ (m : Mime). put_characters stream_stack m s) (put_character-Passing stream_stack me c h)
    ∙ put_characters-Passing stream_stack (appended me (char_call c ∷ [])) s h
    ∙ ap (λ (t : List TargetCall). record me { sent = t })
        (append_assoc me.sent (char_call c ∷ []) (map char_call s))

write-Passing :
    (stream_stack : StreamStack) (me : Mime) (s : List ℕ)
    → Passing me
    → write stream_stack me s ≡ appended me (block_call s ∷ [])
unfolding write
write-Passing stream_stack me s h =
    rw (is_transparent-Passing me h) (call_target-appended (block_call s) me h)

pub put_characters-append :
    (stream_stack : StreamStack) (me : Mime) (s t : List ℕ)
    → put_characters stream_stack me (s ++ t)
      ≡ put_characters stream_stack (put_characters stream_stack me s) t
put_characters-append stream_stack me [] t = refl
put_characters-append stream_stack me (c ∷ s) t =
    put_characters-append stream_stack (put_character stream_stack me c) s t

flat-appended :
    (me : Mime) (xs ys : List TargetCall)
    → content xs ≡ content ys
    → flat (appended me xs) ≡ flat (appended me ys)
flat-appended me xs ys e =
    ap (λ (t : List ℕ). record me { sent = block_call t ∷ [] })
      (content-append me.sent xs
        ∙ ap (λ (t : List ℕ). content me.sent ++ t) e
        ∙ sym (content-append me.sent ys))

content-block :
    (s t : List ℕ) → content (block_call s ∷ map char_call t) ≡ content (map char_call (s ++ t))
unfolding content
content-block s t = ap (λ (u : List ℕ). s ++ u) (content-chars t) ∙ sym (content-chars (s ++ t))

-- The characters behind a block that is passed on.
block-then_chars :
    (stream_stack : StreamStack) (me : Mime) (s t : List ℕ)
    → Passing me
    → flat (put_characters stream_stack (write stream_stack me s) t)
      ≡ flat (put_characters stream_stack me (s ++ t))
block-then_chars stream_stack me s t h =
    ap (λ (m : Mime). flat (put_characters stream_stack m t)) (write-Passing stream_stack me s h)
    ∙ ap flat (put_characters-Passing stream_stack (appended me (block_call s ∷ [])) t h)
    ∙ ap (λ (cs : List TargetCall). flat (record me { sent = cs }))
        (append_assoc me.sent (block_call s ∷ []) (map char_call t))
    ∙ flat-appended me (block_call s ∷ map char_call t) (map char_call (s ++ t)) (content-block s t)
    ∙ sym (ap flat (put_characters-Passing stream_stack me (s ++ t) h))

abbrev pub writes : StreamStack → Mime → List (List ℕ) → Mime
writes stream_stack me [] = me
writes stream_stack me (s ∷ blocks) = writes stream_stack (write stream_stack me s) blocks

abbrev pub joined : List (List ℕ) → List ℕ
joined [] = []
joined (s ∷ blocks) = s ++ joined blocks

block_step :
    (stream_stack : StreamStack) (me : Mime) (s t : List ℕ)
    → Sound me
    → flat (put_characters stream_stack (write stream_stack me s) t)
      ≡ flat (put_characters stream_stack me (s ++ t))
unfolding write
block_step stream_stack me s t h = elim (Bool-cases (is_transparent me.state)) [
  | inl e ↦ block-then_chars stream_stack me s t (transparent-Passing me.state me refl e h)
  | inr e ↦ rw e (ap flat (sym (put_characters-append stream_stack me s t)))
]

-- Into whatever blocks the network has divided a message, the stream comes to the same state as by
-- its characters one by one, and the target gets the same bytes, in the same order; this holds from
-- every sound state, in the header and in the body.
pub writes-chars :
    (stream_stack : StreamStack) (me : Mime) (blocks : List (List ℕ))
    → Sound me
    → flat (writes stream_stack me blocks) ≡ flat (put_characters stream_stack me (joined blocks))
writes-chars stream_stack me [] h = refl
writes-chars stream_stack me (s ∷ blocks) h =
    writes-chars stream_stack (write stream_stack me s) blocks (write-Sound stream_stack me s h)
    ∙ block_step stream_stack me s (joined blocks) h
