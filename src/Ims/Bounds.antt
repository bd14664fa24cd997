-- ===== src/Ims/Bounds.antt =====
-- The buffer of the stream of HTims.c.
use cern_httpd.Base.{
  false, Bool, ℕ, suc, ◌+◌, ◌<◌, ◌≤◌, ◌≡◌, ◌≢◌, refl, ap, ◌∙◌, true, some, List, [], ◌∷◌, arith,
  length, length-append, Bool-cases, inl, inr, All, ==_ne, leb, Bool,
}
use cern_httpd.Base.Int.{ℤ}
use cern_httpd.Str.{CStr}
use cern_httpd.Ims.{
  Ims, ImsState, eol, line, body, junk, put_char, put_in, put_header, store, reads_header,
  block_loop, pass_rest, ims_put_block, if_mod_since_stream, buf_size, call_sink,
}

-- A byte that ends no line.
abbrev pub IsInLine : ℕ → Type 0
IsInLine c = (c ≢ 10) × (c ≢ 13)

put_header_in_line :
    (parse : CStr → ℤ × CStr) (at_eol : Bool) (c : ℕ) (me : Ims)
    → IsInLine c
    → put_header parse at_eol c me ≡ record (store c me) { state = line }
unfolding put_header
put_header_in_line parse at_eol c me (lf, cr) = rw (==_ne c 10 lf, ==_ne c 13 cr) refl

put_in_line :
    (parse : CStr → ℤ × CStr) (state : ImsState) (c : ℕ) (me : Ims)
    → IsInLine c
    → reads_header state ≡ true
    → put_in parse state c me ≡ record (store c me) { state = line }
unfolding put_in reads_header
put_in_line parse eol c me h r = put_header_in_line parse true c me h
put_in_line parse line c me h r = put_header_in_line parse false c me h
put_in_line parse body c me h r = cc
put_in_line parse junk c me h r = cc

pub put_char_in_line :
    (parse : CStr → ℤ × CStr) (c : ℕ) (me : Ims)
    → IsInLine c
    → reads_header me.state ≡ true
    → put_char parse me c ≡ record (store c me) { state = line }
unfolding put_char
put_char_in_line parse c me h r = put_in_line parse me.state c me h r

-- The stream that has stored the bytes of an unfinished line.
abbrev stored : Ims → List ℕ → Ims
stored me [] = me
stored me (c ∷ b) = stored (record (store c me) { state = line }) b

block_loop_in_line :
    (parse : CStr → ℤ × CStr) (b : List ℕ) (me : Ims)
    → All IsInLine b
    → reads_header me.state ≡ true
    → block_loop parse me b ≡ (stored me b, [])
unfolding block_loop reads_header
block_loop_in_line parse [] me h r = refl
block_loop_in_line parse (c ∷ b) me h r =
    rw (r, put_char_in_line parse c me h.0 r)
      (block_loop_in_line parse b (record (store c me) { state = line }) h.1 refl)

stored_keeps_overrun : (b : List ℕ) (me : Ims) → me.overrun ≡ true → (stored me b).overrun ≡ true
unfolding store
stored_keeps_overrun [] me h = h
stored_keeps_overrun (c ∷ b) me h =
    stored_keeps_overrun b (record (store c me) { state = line }) (rw h refl)

store_full : (c : ℕ) (me : Ims) → buf_size ≤ length me.buffer → (store c me).overrun ≡ true
unfolding store
store_full c me h = ground arith

length-store : (c : ℕ) (me : Ims) → length (store c me).buffer ≡ suc (length me.buffer)
unfolding store
length-store c me = omega (arith, length-append me.buffer (c ∷ []))

stored_overrun :
    (b : List ℕ) (me : Ims)
    → buf_size < length me.buffer + length b
    → length me.buffer ≤ buf_size
    → (stored me b).overrun ≡ true
stored_overrun [] me h room = absurd (omega arith)
stored_overrun (c ∷ b) me h room = elim (Bool-cases (leb buf_size (length me.buffer))) [
  | inl e ↦
      stored_keeps_overrun b (record (store c me) { state = line }) (store_full c me (ground arith))
  | inr e ↦
      stored_overrun b (record (store c me) { state = line }) (omega (arith, length-store c me))
        (ground (arith, length-store c me))
]

pub pass_rest-overrun :
    (state : ImsState) (rest : List ℕ) (me : Ims) → (pass_rest state rest me).overrun ≡ me.overrun
unfolding pass_rest call_sink
pass_rest-overrun eol rest me = refl
pass_rest-overrun line rest me = refl
pass_rest-overrun body rest me = refl
pass_rest-overrun junk rest me = refl

-- A first line of more bytes than the buffer has, none of which ends a line, is written over the end
-- of the buffer.
pub put_block-overrun :
    (parse : CStr → ℤ × CStr) (limit : ℤ) (status_code content_length : ℕ) (b : List ℕ)
    → All IsInLine b
    → buf_size < length b
    → (ims_put_block parse (if_mod_since_stream limit status_code content_length) (some b)).overrun
      ≡ true
unfolding ims_put_block
put_block-overrun parse limit status_code content_length b h long =
    let me = if_mod_since_stream limit status_code content_length in
    let looped =
      block_loop_in_line parse b me h (unfold if_mod_since_stream reads_header in refl) in
    ap (λ (r : Ims × List ℕ). (pass_rest r.0.state r.1 r.0).overrun) looped
    ∙ pass_rest-overrun (stored me b).state [] (stored me b)
    ∙ stored_overrun b me (unfold if_mod_since_stream in omega arith)
        (unfold if_mod_since_stream in omega arith)
