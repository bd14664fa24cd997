-- ===== src/Ims/Room.antt =====
-- Responses that fit into the buffer of the stream of HTims.c.
use cern_httpd.Str.Letters.{SameText, length-SameText}
use cern_httpd.Ims.InPlace.{KeepsText, has_old_date_from-SameText, with_string-SameText}
use cern_httpd.Base.{◌-◌, ltb}
use cern_httpd.Base.{
  ℕ, suc, ◌+◌, ◌<◌, ◌≤◌, ◌≡◌, refl, ◌∙◌, true, false, Bool, Option, none, some, List, [], ◌∷◌,
  arith, length, length-append, if◌then◌else◌, ◌==◌, Bool-cases, inl, inr,
}
use cern_httpd.Base.Int.{ℤ}
use cern_httpd.Str.{CStr, strchr}
use cern_httpd.Parse.Escape.{c_str}
use cern_httpd.Ims.{
  Ims, ImsState, eol, line, body, junk, put_char, put_in, put_header, store, reads_header,
  block_loop, ims_put_block, if_mod_since_stream, buf_size, call_sink, decide_at, decide,
  answer_304, to_body, terminate, decided, with_string, has_old_date_from,
}
use cern_httpd.Ims.Bounds.{pass_rest-overrun}

-- The stream has written at most `n` bytes, all of them inside the buffer.
abbrev pub Within : ℕ → Ims → Type 0
Within n me = (me.overrun ≡ false) × (length me.buffer ≤ n)

with_string-length :
    (str : CStr) (me : Ims)
    → SameText str (c_str me.buffer)
    → length (with_string str me).buffer ≡ length me.buffer
with_string-length str me h =
    length-SameText (with_string str me).buffer me.buffer (with_string-SameText str me h)

decided-Within :
    (n k : ℕ) (answer : Bool × CStr) (me : Ims)
    → SameText answer.1 (c_str me.buffer)
    → Within n me
    → Within n (decided k answer me)
unfolding decided answer_304 to_body with_string call_sink
decided-Within n k (true, str) me h (o, le) = (o, omega (arith, with_string-length str me h))
decided-Within n k (false, str) me h (o, le) = (o, omega (arith, with_string-length str me h))

if-Within :
    (n : ℕ) (test : Bool) (a b : Ims) → Within n a → Within n b → Within n (if test then a else b)
if-Within n true a b ha hb = ha
if-Within n false a b ha hb = hb

decide_at-Within :
    (parse : CStr → ℤ × CStr)
    → KeepsText parse
    → (n : ℕ) (found : Option CStr) (me : Ims) → Within n me
    → Within n (decide_at parse (c_str me.buffer) found me)
unfolding decide_at to_body call_sink
decide_at-Within parse keeps n none me h = h
decide_at-Within parse keeps n (some mime) me h =
    let str = c_str me.buffer in
    let k = length str - length mime in
    if-Within n (ltb 20 (length mime))
      (decided (suc k) (has_old_date_from parse me.limit (k + 12) [] str) me) (to_body me)
      (decided-Within n (suc k) (has_old_date_from parse me.limit (k + 12) [] str) me
        (has_old_date_from-SameText parse keeps me.limit (k + 12) str) h)
      h

decide-Within :
    (parse : CStr → ℤ × CStr)
    → KeepsText parse
    → (n : ℕ) (me : Ims) → Within n me
    → Within n (decide parse me)
unfolding decide
decide-Within parse keeps n me h = decide_at-Within parse keeps n (strchr (c_str me.buffer) 10) me h

store-Within : (n c : ℕ) (me : Ims) → n < buf_size → Within n me → Within (suc n) (store c me)
unfolding store
store-Within n c me room (o, h) =
    (rw o ground arith, omega (arith, length-append me.buffer (c ∷ [])))

terminate-Within : (n : ℕ) (me : Ims) → n < buf_size → Within n me → Within n (terminate me)
unfolding terminate
terminate-Within n me room (o, h) = (rw o ground arith, h)

put_header-Within :
    (parse : CStr → ℤ × CStr)
    → KeepsText parse
    → (n : ℕ) (at_eol : Bool) (c : ℕ) (me : Ims) → suc n < buf_size
    → Within n me
    → Within (suc n) (put_header parse at_eol c me)
unfolding put_header
put_header-Within parse keeps n at_eol c me room h =
    let kept = store-Within n c me (omega arith) h in
    if-Within (suc n) (c == 10)
      (if at_eol
        then decide parse (terminate (store c me))
        else record (store c me) { state = eol })
      (if c == 13 then store c me else record (store c me) { state = line })
      (if-Within (suc n) at_eol _ (record (store c me) { state = eol })
        (decide-Within parse keeps (suc n) (terminate (store c me))
          (terminate-Within (suc n) (store c me) room kept))
        kept)
      (if-Within (suc n) (c == 13) (store c me) (record (store c me) { state = line }) kept kept)

put_in-Within :
    (parse : CStr → ℤ × CStr)
    → KeepsText parse
    → (n : ℕ) (state : ImsState) (c : ℕ) (me : Ims) → suc n < buf_size
    → Within n me
    → Within (suc n) (put_in parse state c me)
unfolding put_in call_sink
put_in-Within parse keeps n eol c me room h = put_header-Within parse keeps n true c me room h
put_in-Within parse keeps n line c me room h = put_header-Within parse keeps n false c me room h
put_in-Within parse keeps n body c me room (o, h) = (o, omega arith)
put_in-Within parse keeps n junk c me room (o, h) = (o, omega arith)

block_loop-overrun :
    (parse : CStr → ℤ × CStr)
    → KeepsText parse
    → (b : List ℕ) (n : ℕ) (me : Ims) → n + length b < buf_size
    → Within n me
    → (block_loop parse me b).0.overrun ≡ false
unfolding block_loop put_char
block_loop-overrun parse keeps [] n me room h = h.0
block_loop-overrun parse keeps (c ∷ b) n me room h = elim (Bool-cases (reads_header me.state)) [
  | inl e ↦ rw e (
      block_loop-overrun parse keeps b (suc n) (put_char parse me c) (omega arith)
        (put_in-Within parse keeps n me.state c me (omega arith) h))
  | inr e ↦ rw e h.0
]

-- A block that is shorter than the buffer, whatever it holds, is kept within it by a fresh stream.
put_block-fits :
    (parse : CStr → ℤ × CStr)
    → KeepsText parse
    → (limit : ℤ) (status_code content_length : ℕ) (b : List ℕ) → length b < buf_size
    → (ims_put_block parse (if_mod_since_stream limit status_code content_length) (some b)).overrun
      ≡ false
unfolding ims_put_block
put_block-fits parse keeps limit status_code content_length b room =
    let me = if_mod_since_stream limit status_code content_length in
    pass_rest-overrun (block_loop parse me b).0.state (block_loop parse me b).1
      (block_loop parse me b).0
    ∙ block_loop-overrun parse keeps b 0 me (omega arith)
        (unfold if_mod_since_stream in (refl, omega arith))
