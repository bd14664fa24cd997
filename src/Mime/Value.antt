-- ===== src/Mime/Value.antt =====
-- The fields that the stream of HTMIME.c reads from a header.
use mathlib.Core.Path.{subst}
use cern_httpd.Base.{
  ℕ, ◌+◌, ◌<◌, ◌≡◌, refl, sym, ap, ◌∙◌, arith, Bool, true, false, ◌||◌, ◌&&◌, not, Option, some,
  List, [], ◌∷◌, ◌++◌, ltb, ◌==◌, length, length-append, Bool-cases, inl, inr, if◌then◌else◌, All,
  append_assoc, append-nil,
}
use cern_httpd.Str.{white}
use cern_httpd.Mime.{
  MimeState, content_transfer_encoding, content_type, skip_get_value, get_value, newline, Mime,
  StreamStack, at_junk_line, set_field, end_value, add_value, at_get_value, at_skip_get_value,
  at_state, is_transparent, put_character, put_characters,
}

-- The characters of a line that are left of a value.
abbrev pub value_of : List ℕ → List ℕ
value_of [] = []
value_of (c ∷ line) = let rest = value_of line in if white c then rest else c ∷ rest

-- The stream is in the value of the field.
abbrev pub InValue : MimeState → List ℕ → Mime → Type 0
InValue field v me = (me.state ≡ get_value) × (me.field ≡ field) × (me.value ≡ some v)

-- The value is behind the name of the field.
abbrev pub BeforeValue : MimeState → Mime → Type 0
BeforeValue field me = (me.state ≡ skip_get_value) × (me.field ≡ field)

-- What a line sets.
abbrev pub FieldIs : MimeState → List ℕ → Mime → Type 0
FieldIs content_type v me = me.format ≡ v
FieldIs content_transfer_encoding v me = me.encoding ≡ some v
FieldIs _ v me = Unit {0}

and_false : (a b : Bool) → b ≡ false → (a && b) ≡ false
and_false true b e = e
and_false false b e = refl

-- put_character in a state that is not transparent, on a character that is not dropped.
pub put_character-at :
    (stream_stack : StreamStack) (me : Mime) (c : ℕ) (st : MimeState)
    → me.state ≡ st
    → is_transparent st ≡ false
    → (c == 13) ≡ false
    → put_character stream_stack me c ≡ at_state stream_stack st c me
unfolding put_character
put_character-at stream_stack me c st e t d =
    rw (ap is_transparent e ∙ t, and_false me.net_ascii (c == 13) d)
      (ap (λ (s : MimeState). at_state stream_stack s c me) e)

set_field-InValue :
    (st field : MimeState) (text v : List ℕ) (me : Mime)
    → InValue field v me
    → InValue field v (set_field st text me)
unfolding set_field
set_field-InValue content_type field text v me h = h
set_field-InValue content_transfer_encoding field text v me h = h
set_field-InValue _ field text v me h = h

pub ltb_yes : (n m : ℕ) → n < m → ltb n m ≡ true
ltb_yes n m lt = ground arith

InValue-white :
    (c : ℕ) (field : MimeState) (v : List ℕ) (me : Mime)
    → InValue field v me
    → white c ≡ true
    → (c == 10) ≡ false
    → InValue field v (at_get_value c me)
unfolding at_get_value end_value at_junk_line
InValue-white c field v me h w n = rw w (
    subst (λ (t : Option (List ℕ)). InValue field v (at_junk_line c (end_value t me))) (sym h.2)
      (rw n (set_field-InValue me.field field v v _ h)))

InValue-store :
    (c : ℕ) (field : MimeState) (v : List ℕ) (me : Mime)
    → InValue field v me
    → white c ≡ false
    → length v < 127
    → InValue field (v ++ c ∷ []) (at_get_value c me)
unfolding at_get_value add_value
InValue-store c field v me h w lt = rw w (
    subst (λ (t : Option (List ℕ)). InValue field (v ++ c ∷ []) (add_value c t me)) (sym h.2)
      (rw (ltb_yes (length v) 127 lt) (h.0, h.1, refl)))

pub not_cr : (c : ℕ) → white c ≡ false → (c == 13) ≡ false
unfolding white
not_cr c w = ground arith

InValue-next :
    (stream_stack : StreamStack) (c : ℕ) (field : MimeState) (v : List ℕ) (me : Mime)
    → InValue field v me
    → white c ≡ true
    → (c == 10) ≡ false
    → InValue field v (put_character stream_stack me c)
unfolding put_character is_transparent at_state
InValue-next stream_stack c field v me h w n = elim (Bool-cases (me.net_ascii && c == 13)) [
  | inl e ↦ rw (ap is_transparent h.0, e) h
  | inr e ↦
      rw (ap is_transparent h.0, e)
        (subst (λ (s : MimeState). InValue field v (at_state stream_stack s c me)) (sym h.0)
          (InValue-white c field v me h w n))
]

InValue-kept :
    (stream_stack : StreamStack) (c : ℕ) (field : MimeState) (v : List ℕ) (me : Mime)
    → InValue field v me
    → white c ≡ false
    → length v < 127
    → InValue field (v ++ c ∷ []) (put_character stream_stack me c)
unfolding is_transparent at_state
InValue-kept stream_stack c field v me h w lt =
    rw (put_character-at stream_stack me c get_value h.0 refl (not_cr c w))
      (InValue-store c field v me h w lt)

value_of-white : (c : ℕ) (line : List ℕ) → white c ≡ true → value_of (c ∷ line) ≡ value_of line
value_of-white c line w = rw w refl

value_of-kept : (c : ℕ) (line : List ℕ) → white c ≡ false → value_of (c ∷ line) ≡ c ∷ value_of line
value_of-kept c line w = rw w refl

not_newline : (c : ℕ) → white c ≡ false → (c == 10) ≡ false
unfolding white
not_newline c w = ground arith

-- The rest of a line, to its end.
pub value_loop :
    (stream_stack : StreamStack) (field : MimeState) (line v : List ℕ) (me : Mime)
    → InValue field v me
    → All (λ c. (c == 10) ≡ false) line
    → length v + length (value_of line) < 128
    → InValue field (v ++ value_of line) (put_characters stream_stack me line)
value_loop stream_stack field [] v me h n lt =
    subst (λ (t : List ℕ). InValue field t me) (sym (append-nil v)) h
value_loop stream_stack field (c ∷ line) v me h n lt = elim (Bool-cases (white c)) [
  | inl w ↦
      subst (λ (t : List ℕ). InValue field (v ++ t) (put_characters stream_stack me (c ∷ line)))
        (sym (value_of-white c line w))
        (value_loop stream_stack field line v (put_character stream_stack me c)
          (InValue-next stream_stack c field v me h w n.0) n.1
          (omega (arith, ap length (value_of-white c line w))))
  | inr w ↦
      subst (λ (t : List ℕ). InValue field t (put_characters stream_stack me (c ∷ line)))
        (append_assoc v (c ∷ []) (value_of line)
          ∙ ap (λ (t : List ℕ). v ++ t) (sym (value_of-kept c line w)))
        (value_loop stream_stack field line (v ++ c ∷ []) (put_character stream_stack me c)
          (InValue-kept stream_stack c field v me h w
            (omega (arith, ap length (value_of-kept c line w))))
          n.1 (omega (arith, ap length (value_of-kept c line w), length-append v (c ∷ []))))
]

-- The end of the line.
pub value_end :
    (stream_stack : StreamStack) (v : List ℕ) (me : Mime)
    → InValue content_type v me
    → let me' = put_character stream_stack me 10 in (me'.format ≡ v) × (me'.state ≡ newline)
unfolding is_transparent at_state at_get_value end_value set_field at_junk_line white
value_end stream_stack v me h =
    subst (λ (m : Mime). (m.format ≡ v) × (m.state ≡ newline))
      (sym (put_character-at stream_stack me 10 get_value h.0 refl refl))
      (subst
        (λ (t : Option (List ℕ)).
          let m = at_junk_line 10 (end_value t me) in (m.format ≡ v) × (m.state ≡ newline))
        (sym h.2)
        (subst
          (λ (s : MimeState).
            let m =
              at_junk_line 10
                (set_field s v (record me { fault = me.fault || not (ltb (length v) 128) })) in
            (m.format ≡ v) × (m.state ≡ newline))
          (sym h.1) (refl, refl)))

skip_next :
    (stream_stack : StreamStack) (c : ℕ) (field : MimeState) (me : Mime)
    → BeforeValue field me
    → white c ≡ true
    → (c == 10) ≡ false
    → BeforeValue field (put_character stream_stack me c)
unfolding put_character is_transparent at_state at_skip_get_value
skip_next stream_stack c field me h w n = elim (Bool-cases (me.net_ascii && c == 13)) [
  | inl e ↦ rw (ap is_transparent h.0, e) h
  | inr e ↦
      rw (ap is_transparent h.0, e)
        (subst (λ (s : MimeState). BeforeValue field (at_state stream_stack s c me)) (sym h.0)
          (rw (n, w) h))
]

-- White space before the value.
pub skip_loop :
    (stream_stack : StreamStack) (field : MimeState) (ws : List ℕ) (me : Mime)
    → BeforeValue field me
    → All (λ c. (white c ≡ true) × ((c == 10) ≡ false)) ws
    → BeforeValue field (put_characters stream_stack me ws)
skip_loop stream_stack field [] me h n = h
skip_loop stream_stack field (c ∷ ws) me h n =
    skip_loop stream_stack field ws (put_character stream_stack me c)
      (skip_next stream_stack c field me h n.0.0 n.0.1) n.1

-- The first character of the value.
pub value_start :
    (stream_stack : StreamStack) (c : ℕ) (field : MimeState) (me : Mime)
    → BeforeValue field me
    → white c ≡ false
    → InValue field (c ∷ []) (put_character stream_stack me c)
unfolding is_transparent at_state at_skip_get_value
value_start stream_stack c field me h w =
    rw (put_character-at stream_stack me c skip_get_value h.0 refl (not_cr c w), not_newline c w, w)
      (refl, h.1, refl)
