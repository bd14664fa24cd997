-- ===== src/Ims/Chunks.antt =====
-- The stream of HTims.c does not depend on how a response is cut into blocks.
use cern_httpd.Base.{
  ℕ, ◌≡◌, refl, sym, ap, ◌∙◌, true, false, some, List, [], ◌∷◌, ◌++◌, append_assoc, append-nil,
  Bool-cases, inl, inr,
}
use cern_httpd.Base.Int.{ℤ}
use cern_httpd.Str.{CStr}
use cern_httpd.Ims.{
  Ims, ImsState, eol, line, body, junk, put_block, put_char, reads_header, call_sink, block_loop,
  pass_rest, ims_put_block,
}
use cern_httpd.Ims.Delivery.{passed, passed-append}

-- Two streams that have handed on the same bytes and agree in all else.
abbrev pub Same : Ims → Ims → Type 0
Same x y = (passed x.sink ≡ passed y.sink) × (record x { sink = [] } ≡ record y { sink = [] })

block_loop-reading :
    (parse : CStr → ℤ × CStr) (a b : List ℕ) (me : Ims)
    → reads_header (block_loop parse me a).0.state ≡ true
    → (block_loop parse me (a ++ b) ≡ block_loop parse (block_loop parse me a).0 b)
      × ((block_loop parse me a).1 ≡ [])
unfolding block_loop
block_loop-reading parse [] b me h = (refl, refl)
block_loop-reading parse (c ∷ a) b me h = elim (Bool-cases (reads_header me.state)) [
  | inl e ↦ rw e (block_loop-reading parse a b (put_char parse me c) (rw e at h))
  | inr e ↦ absurd (cc (rw e at h))
]

block_loop-passing :
    (parse : CStr → ℤ × CStr) (b : List ℕ) (me : Ims)
    → reads_header me.state ≡ false
    → block_loop parse me b ≡ (me, b)
unfolding block_loop
block_loop-passing parse [] me h = refl
block_loop-passing parse (c ∷ b) me h = rw h refl

block_loop-decided :
    (parse : CStr → ℤ × CStr) (a b : List ℕ) (me : Ims)
    → reads_header (block_loop parse me a).0.state ≡ false
    → block_loop parse me (a ++ b) ≡ ((block_loop parse me a).0, (block_loop parse me a).1 ++ b)
unfolding block_loop
block_loop-decided parse [] b me h = block_loop-passing parse b me h
block_loop-decided parse (c ∷ a) b me h = elim (Bool-cases (reads_header me.state)) [
  | inl e ↦ rw e (block_loop-decided parse a b (put_char parse me c) (rw e at h))
  | inr e ↦ rw e refl
]

-- What IMS_put_block does behind its loop.
abbrev put_rest : Ims × List ℕ → Ims
put_rest (me, rest) = pass_rest me.state rest me

pass_rest-reading :
    (state : ImsState) (me : Ims) → reads_header state ≡ true → pass_rest state [] me ≡ me
unfolding pass_rest reads_header
pass_rest-reading eol me h = refl
pass_rest-reading line me h = refl
pass_rest-reading body me h = cc
pass_rest-reading junk me h = cc

pass_rest-state :
    (state : ImsState) (rest : List ℕ) (me : Ims) → (pass_rest state rest me).state ≡ me.state
unfolding pass_rest call_sink
pass_rest-state eol rest me = refl
pass_rest-state line rest me = refl
pass_rest-state body rest me = refl
pass_rest-state junk rest me = refl

-- Two rests in turn, or both at once.
pass_rest-twice :
    (state : ImsState) (rest b : List ℕ) (me : Ims)
    → Same (pass_rest state b (pass_rest state rest me)) (pass_rest state (rest ++ b) me)
unfolding pass_rest call_sink
pass_rest-twice eol rest b me = (refl, refl)
pass_rest-twice line rest b me = (refl, refl)
pass_rest-twice junk rest b me = (refl, refl)
pass_rest-twice body rest b me = (
  passed-append (me.sink ++ put_block rest ∷ []) (put_block b ∷ [])
      ∙ ap (λ t. t ++ (b ++ [])) (passed-append me.sink (put_block rest ∷ []))
      ∙ shape (passed me.sink)
      ∙ sym (passed-append me.sink (put_block (rest ++ b) ∷ [])),
  refl,
)
  where
    shape : (p : List ℕ) → (p ++ (rest ++ [])) ++ (b ++ []) ≡ p ++ ((rest ++ b) ++ [])
    shape p = simp (append_assoc, append-nil)

Same-eq : {x y : Ims} → x ≡ y → Same x y
Same-eq e = (ap (λ (m : Ims). passed m.sink) e, ap (λ (m : Ims). record m { sink = [] }) e)

Same-along : {x x' y y' : Ims} → x ≡ x' → y ≡ y' → Same x' y' → Same x y
Same-along ex ey (p, r) = (
  ap (λ (m : Ims). passed m.sink) ex ∙ p ∙ sym (ap (λ (m : Ims). passed m.sink) ey),
  ap (λ (m : Ims). record m { sink = [] }) ex
      ∙ r
      ∙ sym (ap (λ (m : Ims). record m { sink = [] }) ey),
)

put_block-passing :
    (parse : CStr → ℤ × CStr) (b : List ℕ) (me : Ims)
    → reads_header me.state ≡ false
    → ims_put_block parse me (some b) ≡ pass_rest me.state b me
unfolding ims_put_block
put_block-passing parse b me h = ap put_rest (block_loop-passing parse b me h)

-- Two blocks in turn do to the stream what one block of both does: it hands on the same bytes, and
-- its state, its buffer and the answer's status are the same.
put_block-append :
    (parse : CStr → ℤ × CStr) (a b : List ℕ) (me : Ims)
    → Same
        (ims_put_block parse (ims_put_block parse me (some a)) (some b))
        (ims_put_block parse me (some (a ++ b)))
unfolding ims_put_block
put_block-append parse a b me = elim (Bool-cases (reads_header (block_loop parse me a).0.state)) [
  | inl e ↦
      let (joint, none_left) = block_loop-reading parse a b me e in
      let after_a : ims_put_block parse me (some a) ≡ (block_loop parse me a).0 =
        ap (λ r. pass_rest (block_loop parse me a).0.state r (block_loop parse me a).0) none_left
        ∙ pass_rest-reading (block_loop parse me a).0.state (block_loop parse me a).0 e in
      Same-eq (ap (λ x. ims_put_block parse x (some b)) after_a ∙ sym (ap put_rest joint))
  | inr e ↦
      let me' : Ims = (block_loop parse me a).0 in
      let rest : List ℕ = (block_loop parse me a).1 in
      let state_after : (pass_rest me'.state rest me').state ≡ me'.state =
        pass_rest-state me'.state rest me' in
      let left =
        put_block-passing parse b (pass_rest me'.state rest me') (ap reads_header state_after ∙ e)
        ∙ ap (λ s. pass_rest s b (pass_rest me'.state rest me')) state_after in
      Same-along left (ap put_rest (block_loop-decided parse a b me e))
        (pass_rest-twice me'.state rest b me')
]
