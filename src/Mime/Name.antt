-- ===== src/Mime/Name.antt =====
-- The names of fields that the stream of HTMIME.c knows, and a header line as a whole.
use mathlib.Core.Path.{subst}
use cern_httpd.Base.{
  ℕ, ◌≡◌, ◌⊎◌, refl, sym, arith, Bool, true, false, ◌||◌, ◌&&◌, not, [], ◌∷◌, ◌++◌, ◌==◌, inl, inr,
  codes, All, map,
}
use cern_httpd.Str.{CStr, white, to_lower}
use cern_httpd.Mime.{
  MimeState, beginning_of_line, content_t, content_type, newline, check, Mime, StreamStack,
  start_check, checked, at_check, at_content_t, at_newline, at_line_start, at_state, is_transparent,
  put_character, put_characters,
}
use cern_httpd.Mime.Blocks.{put_characters-append}
use cern_httpd.Mime.Value.{put_character-at, not_cr}

-- What is left to compare, and the state behind it.
abbrev Awaits : CStr → MimeState → Mime → Type 0
Awaits [] st me = me.state ≡ st
Awaits (d ∷ p) st me = (me.state ≡ check) × (me.check_pointer ≡ d ∷ p) × (me.if_ok ≡ st)

checked-Awaits :
    (p : CStr) (st : MimeState) (me : Mime)
    → me.state ≡ check
    → me.if_ok ≡ st
    → Awaits p st (checked p me)
unfolding checked
checked-Awaits [] st me s e = e
checked-Awaits (d ∷ p) st me s e = (s, refl, e)

same_char : (n : ℕ) → (n == n) ≡ true
same_char n = ground arith

lower_cr : (c : ℕ) → (to_lower c == 13) ≡ false → (c == 13) ≡ false
unfolding to_lower
lower_cr c e = ground arith

check_step :
    (stream_stack : StreamStack) (c : ℕ) (p : CStr) (st : MimeState) (me : Mime)
    → Awaits (to_lower c ∷ p) st me
    → (to_lower c == 13) ≡ false
    → Awaits p st (put_character stream_stack me c)
unfolding is_transparent at_state at_check
check_step stream_stack c p st me h n =
    rw (put_character-at stream_stack me c check h.0 refl (lower_cr c n)) (
      subst (λ (t : CStr). Awaits p st (at_check c t me)) (sym h.1)
        (rw (same_char (to_lower c)) (checked-Awaits p st me h.0 h.2)))

check_loop :
    (stream_stack : StreamStack) (w : CStr) (st : MimeState) (me : Mime)
    → Awaits (map to_lower w) st me
    → All (λ d. (d == 13) ≡ false) (map to_lower w)
    → (put_characters stream_stack me w).state ≡ st
check_loop stream_stack [] st me h n = h
check_loop stream_stack (c ∷ w) st me h n =
    check_loop stream_stack w st (put_character stream_stack me c)
      (check_step stream_stack c (map to_lower w) st me h n.0) n.1

-- The rest of a name, in letters of any case.
check_name :
    (stream_stack : StreamStack) (w p : CStr) (st : MimeState) (me : Mime)
    → map to_lower w ≡ p
    → All (λ d. (d == 13) ≡ false) p
    → Awaits p st me
    → (put_characters stream_stack me w).state ≡ st
check_name stream_stack w p st me e n h =
    check_loop stream_stack w st me (subst (λ (t : CStr). Awaits t st me) (sym e) h)
      (subst (All (λ d. (d == 13) ≡ false)) (sym e) n)

abbrev pub IsC : ℕ → Type 0
IsC c = (c == b'c' || c == b'C') ≡ true

abbrev pub IsY : ℕ → Type 0
IsY c = (c == b'y' || c == b'Y') ≡ true

-- The stream expects a header line.
abbrev pub AtLine : Mime → Type 0
AtLine me = (me.state ≡ newline) ⊎ (me.state ≡ beginning_of_line)

c_white : (c : ℕ) → IsC c → white c ≡ false
unfolding white
c_white c h = ground arith

y_white : (c : ℕ) → IsY c → white c ≡ false
unfolding white
y_white c h = ground arith

y-not_r : (c : ℕ) → IsY c → (c == b'r' || c == b'R') ≡ false
y-not_r c h = ground arith

and_not : (a b : Bool) → b ≡ false → (a && b) ≡ false
and_not true b e = e
and_not false b e = refl

line_start :
    (stream_stack : StreamStack) (c : ℕ) (me : Mime)
    → IsC c
    → Awaits (codes "ontent-t") content_t (at_line_start stream_stack c me)
unfolding at_line_start start_check
line_start stream_stack c me h = rw h (refl, refl, refl)

line_first :
    (stream_stack : StreamStack) (c : ℕ) (me : Mime)
    → IsC c
    → AtLine me
    → Awaits (codes "ontent-t") content_t (put_character stream_stack me c)
unfolding is_transparent at_state at_newline
line_first stream_stack c me h (inl e) =
    rw
      (
        put_character-at stream_stack me c newline e refl (not_cr c (c_white c h)),
        and_not (not (c == 10)) (white c) (c_white c h),
      )
      (line_start stream_stack c me h)
line_first stream_stack c me h (inr e) =
    rw (put_character-at stream_stack me c beginning_of_line e refl (not_cr c (c_white c h)))
      (line_start stream_stack c me h)

type_first :
    (stream_stack : StreamStack) (c : ℕ) (me : Mime)
    → IsY c
    → me.state ≡ content_t
    → Awaits (codes "pe:") content_type (put_character stream_stack me c)
unfolding is_transparent at_state at_content_t start_check
type_first stream_stack c me h e =
    rw
      (put_character-at stream_stack me c content_t e refl (not_cr c (y_white c h)), y-not_r c h, h)
      (refl, refl, refl)

-- The name as a whole.
pub name_loop :
    (stream_stack : StreamStack) (me : Mime) (c1 c2 : ℕ) (w1 w2 : CStr)
    → AtLine me
    → IsC c1
    → map to_lower w1 ≡ codes "ontent-t"
    → IsY c2
    → map to_lower w2 ≡ codes "pe:"
    → (put_characters stream_stack me ((c1 ∷ w1) ++ (c2 ∷ w2))).state ≡ content_type
name_loop stream_stack me c1 c2 w1 w2 at h1 e1 h2 e2 =
    let me1 = put_characters stream_stack me (c1 ∷ w1) in
    let s1 =
      check_name stream_stack w1 (codes "ontent-t") content_t (put_character stream_stack me c1) e1
        (refl, (refl, (refl, (refl, (refl, (refl, (refl, (refl, tt))))))))
        (line_first stream_stack c1 me h1 at) in
    subst (λ (m : Mime). m.state ≡ content_type)
      (sym (put_characters-append stream_stack me (c1 ∷ w1) (c2 ∷ w2)))
      (check_name stream_stack w2 (codes "pe:") content_type (put_character stream_stack me1 c2) e2
        (refl, (refl, (refl, tt))) (type_first stream_stack c2 me1 h2 s1))
