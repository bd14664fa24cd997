-- ===== src/Ims/Delivery.antt =====
-- What the stream of HTims.c hands on of a response.
use mathlib.Core.Path.{subst}
use cern_httpd.Str.Letters.{SameText, SameText-append}
use cern_httpd.Ims.InPlace.{
  KeepsText, has_old_date_from-SameText, with_string-SameText, fields-SameText,
}
use cern_httpd.Base.{
  ltb, length, ◌+◌, ◌-◌, if◌then◌else◌, ◌==◌, ℕ, ◌≡◌, refl, sym, ap, ◌∙◌, Bool, true, false, Option,
  none, some, List, [], ◌∷◌, ◌++◌, append_assoc, append-nil, codes, drop, map, suc,
}
use cern_httpd.Base.Int.{ℤ}
use cern_httpd.Str.{CStr, strchr}
use cern_httpd.Parse.Escape.{c_str}
use cern_httpd.Ims.{
  Ims, has_old_date_from, ImsState, eol, line, body, junk, SinkCall, put_character, put_string,
  put_block, free_sink, abort_sink, answer_304, to_body, decide, decide_at, put_header, put_in,
  put_char, reads_header, pass_rest, terminate, store, call_sink, decided, with_string, to_lower,
}

-- The bytes that the calls have handed on.
abbrev pub passed : List SinkCall → List ℕ
passed [] = []
passed (put_character c ∷ calls) = c ∷ passed calls
passed (put_string s ∷ calls) = s ++ passed calls
passed (put_block b ∷ calls) = b ++ passed calls
passed (free_sink ∷ calls) = passed calls
passed (abort_sink e ∷ calls) = passed calls

pub passed-append : (xs ys : List SinkCall) → passed (xs ++ ys) ≡ passed xs ++ passed ys
passed-append [] ys = refl
passed-append (put_character c ∷ xs) ys = ap (λ t. c ∷ t) (passed-append xs ys)
passed-append (put_string s ∷ xs) ys =
    ap (λ t. s ++ t) (passed-append xs ys) ∙ sym (append_assoc s (passed xs) (passed ys))
passed-append (put_block b ∷ xs) ys =
    ap (λ t. b ++ t) (passed-append xs ys) ∙ sym (append_assoc b (passed xs) (passed ys))
passed-append (free_sink ∷ xs) ys = passed-append xs ys
passed-append (abort_sink e ∷ xs) ys = passed-append xs ys

abbrev pub status_line : CStr
status_line = codes "HTTP/1.0 304 Not modified" ++ 13 ∷ 10 ∷ []

-- Some first part of the input was a header, of which the answer repeats what stands behind the
-- first line, up to the case of letters.
abbrev pub Replaced : List SinkCall → ℕ → List ℕ → Type 0
Replaced sink status_code input =
    (header : List ℕ) × (rest : List ℕ) × (mime : CStr) × (input ≡ header ++ rest)
    × (strchr (c_str header) 10 ≡ some mime)
    × SameText (passed sink) (status_line ++ drop 1 mime)
    × (status_code ≡ 304)

-- What the stream has done with the input so far: it holds all of it back, it has handed all of it
-- on, up to the case of letters, or it has answered 304.
abbrev pub DeliveredIn : ImsState → List SinkCall → List ℕ → ℕ → List ℕ → Type 0
DeliveredIn eol sink buffer status_code input = (passed sink ≡ []) × (buffer ≡ input)
DeliveredIn line sink buffer status_code input = (passed sink ≡ []) × (buffer ≡ input)
DeliveredIn body sink buffer status_code input = SameText (passed sink) input
DeliveredIn junk sink buffer status_code input = Replaced sink status_code input

abbrev pub Delivered : Ims → List ℕ → Type 0
Delivered me input = DeliveredIn me.state me.sink me.buffer me.status_code input

-- The header is complete.
to_body-Delivered :
    (me : Ims) (input : List ℕ)
    → passed me.sink ≡ []
    → SameText me.buffer input
    → Delivered (to_body me) input
unfolding to_body call_sink
to_body-Delivered me input none_passed same =
    ap (map to_lower) (
      passed-append me.sink (put_block me.buffer ∷ [])
      ∙ ap (λ t. t ++ (me.buffer ++ [])) none_passed
      ∙ append-nil me.buffer)
    ∙ same

answer_304-Delivered :
    (fields mime : CStr) (me : Ims) (input : List ℕ)
    → passed me.sink ≡ []
    → strchr (c_str input) 10 ≡ some mime
    → SameText fields (drop 1 mime)
    → Delivered (answer_304 fields me) input
unfolding answer_304 call_sink
answer_304-Delivered fields mime me input none_passed found same = (
  input,
  [],
  mime,
  sym (append-nil input),
  found,
  ap (map to_lower) (
        passed-append (me.sink ++ put_string status_line ∷ []) (put_string fields ∷ [])
        ∙ ap (λ t. t ++ (fields ++ []))
            (passed-append me.sink (put_string status_line ∷ [])
              ∙ ap (λ t. t ++ (status_line ++ [])) none_passed)
        ∙ ap (λ t. status_line ++ t) (append-nil fields))
      ∙ SameText-append status_line status_line fields (drop 1 mime) refl same,
  refl,
)

if-Delivered :
    (test : Bool) (a b : Ims) (input : List ℕ)
    → Delivered a input
    → Delivered b input
    → Delivered (if test then a else b) input
if-Delivered true a b input ha hb = ha
if-Delivered false a b input ha hb = hb

decided-Delivered :
    (mime : CStr) (answer : Bool × CStr) (me : Ims)
    → passed me.sink ≡ []
    → strchr (c_str me.buffer) 10 ≡ some mime
    → SameText answer.1 (c_str me.buffer)
    → Delivered (decided (suc (length (c_str me.buffer) - length mime)) answer me) me.buffer
unfolding decided with_string
decided-Delivered mime (true, str) me h found same =
    answer_304-Delivered (drop (suc (length (c_str me.buffer) - length mime)) str) mime
      (with_string str me) me.buffer h found (fields-SameText (c_str me.buffer) str mime found same)
decided-Delivered mime (false, str) me h found same =
    to_body-Delivered (with_string str me) me.buffer h (with_string-SameText str me same)

decide_at-Delivered :
    (parse : CStr → ℤ × CStr)
    → KeepsText parse
    → (me : Ims) (found : Option CStr) → passed me.sink ≡ []
    → strchr (c_str me.buffer) 10 ≡ found
    → Delivered (decide_at parse (c_str me.buffer) found me) me.buffer
unfolding decide_at
decide_at-Delivered parse keeps me none h e = to_body-Delivered me me.buffer h refl
decide_at-Delivered parse keeps me (some mime) h e =
    let str = c_str me.buffer in
    let answer = has_old_date_from parse me.limit (length str - length mime + 12) [] str in
    if-Delivered (ltb 20 (length mime)) (decided (suc (length str - length mime)) answer me)
      (to_body me) me.buffer
      (decided-Delivered mime answer me h e
        (has_old_date_from-SameText parse keeps me.limit (length str - length mime + 12) str))
      (to_body-Delivered me me.buffer h refl)

decide-Delivered :
    (parse : CStr → ℤ × CStr)
    → KeepsText parse
    → (me : Ims) → passed me.sink ≡ []
    → Delivered (decide parse me) me.buffer
unfolding decide
decide-Delivered parse keeps me h =
    decide_at-Delivered parse keeps me (strchr (c_str me.buffer) 10) h refl

held :
    (state : ImsState) (sink : List SinkCall) (buffer : List ℕ) (status_code : ℕ)
    → reads_header state ≡ true
    → passed sink ≡ []
    → DeliveredIn state sink buffer status_code buffer
unfolding reads_header
held eol sink buffer status_code r h = (h, refl)
held line sink buffer status_code r h = (h, refl)
held body sink buffer status_code r h = cc
held junk sink buffer status_code r h = cc

put_header-Delivered :
    (parse : CStr → ℤ × CStr)
    → KeepsText parse
    → (at_eol : Bool) (c : ℕ) (me : Ims) → reads_header me.state ≡ true
    → passed me.sink ≡ []
    → Delivered (put_header parse at_eol c me) (me.buffer ++ c ∷ [])
unfolding put_header store terminate
put_header-Delivered parse keeps at_eol c me r h =
    let stored = store c me in
    if-Delivered (c == 10)
      (if at_eol then decide parse (terminate stored) else record stored { state = eol })
      (if c == 13 then stored else record stored { state = line }) (me.buffer ++ c ∷ [])
      (if-Delivered at_eol (decide parse (terminate stored)) (record stored { state = eol }) _
        (decide-Delivered parse keeps (terminate stored) h) (h, refl))
      (if-Delivered (c == 13) stored (record stored { state = line }) _
        (held me.state me.sink (me.buffer ++ c ∷ []) me.status_code r h) (h, refl))

Replaced-more :
    (sink : List SinkCall) (status_code : ℕ) (input more : List ℕ)
    → Replaced sink status_code input
    → Replaced sink status_code (input ++ more)
Replaced-more sink status_code input more (header, rest, mime, e, found, out, status) = (
  header,
  rest ++ more,
  mime,
  ap (λ t. t ++ more) e ∙ append_assoc header rest more,
  found,
  out,
  status,
)

put_in-Delivered :
    (parse : CStr → ℤ × CStr)
    → KeepsText parse
    → (state : ImsState) (c : ℕ) (me : Ims) (input : List ℕ) → me.state ≡ state
    → DeliveredIn state me.sink me.buffer me.status_code input
    → Delivered (put_in parse state c me) (input ++ c ∷ [])
unfolding put_in call_sink
put_in-Delivered parse keeps eol c me input e (h, b) =
    subst (λ t. Delivered (put_header parse true c me) (t ++ c ∷ [])) b
      (put_header-Delivered parse keeps true c me (rw e unfold reads_header in refl) h)
put_in-Delivered parse keeps line c me input e (h, b) =
    subst (λ t. Delivered (put_header parse false c me) (t ++ c ∷ [])) b
      (put_header-Delivered parse keeps false c me (rw e unfold reads_header in refl) h)
put_in-Delivered parse keeps body c me input e h = rw e (
    ap (map to_lower) (passed-append me.sink (put_character c ∷ []))
    ∙ SameText-append (passed me.sink) input (c ∷ []) (c ∷ []) h refl)
put_in-Delivered parse keeps junk c me input e h =
    rw e (Replaced-more me.sink me.status_code input (c ∷ []) h)

pub put_char-Delivered :
    (parse : CStr → ℤ × CStr)
    → KeepsText parse
    → (me : Ims) (c : ℕ) (input : List ℕ) → Delivered me input
    → Delivered (put_char parse me c) (input ++ c ∷ [])
unfolding put_char
put_char-Delivered parse keeps me c input h =
    put_in-Delivered parse keeps me.state c me input refl h

pub pass_rest-Delivered :
    (state : ImsState) (rest : List ℕ) (me : Ims) (input : List ℕ)
    → me.state ≡ state
    → reads_header state ≡ false
    → DeliveredIn state me.sink me.buffer me.status_code input
    → Delivered (pass_rest state rest me) (input ++ rest)
unfolding pass_rest call_sink reads_header
pass_rest-Delivered eol rest me input e r h = cc
pass_rest-Delivered line rest me input e r h = cc
pass_rest-Delivered body rest me input e r h = rw e (
    ap (map to_lower) (passed-append me.sink (put_block rest ∷ []))
    ∙ SameText-append (passed me.sink) input (rest ++ []) rest h
        (ap (map to_lower) (append-nil rest)))
pass_rest-Delivered junk rest me input e r h =
    rw e (Replaced-more me.sink me.status_code input rest h)
