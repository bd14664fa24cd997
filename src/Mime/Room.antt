-- ===== src/Mime/Room.antt =====
-- The memory that the stream of HTMIME.c writes and the pointers that it follows, state by state.
use mathlib.Core.Path.{subst}
use cern_httpd.Base.{
  ℕ, ◌<◌, ◌≡◌, ◌≢◌, refl, sym, ap, arith, Bool, true, false, ◌||◌, ◌&&◌, not, Option, none, some,
  List, [], ◌∷◌, ◌++◌, ltb, ◌==◌, length, length-append, Bool-cases, inl, inr, is_some,
  if◌then◌else◌,
}
use cern_httpd.Str.{CStr, white, to_lower}
use cern_httpd.Mime.{
  MimeState, mime_transparent, beginning_of_line, content_t, content_transfer_encoding,
  content_type, skip_get_value, get_value, junk_line, newline, check, mime_net_ascii, mime_ignore,
  TargetCall, char_call, Mime, StreamStack, call_target, bad_field_name, start_check, state_for,
  end_header, at_line_start, at_newline, checked, at_check, at_content_t, at_junk_line, set_field,
  end_value, add_value, at_get_value, at_skip_get_value, at_field, at_state,
}

abbrev IsField : MimeState → Type 0
IsField content_t = Unit {0}
IsField content_type = Unit {0}
IsField content_transfer_encoding = Unit {0}
IsField _ = ⊥

abbrev IsFold : MimeState → Type 0
IsFold skip_get_value = Unit {0}
IsFold newline = Unit {0}
IsFold _ = ⊥

-- What the stream relies on in a state.
abbrev pub Ready : MimeState → Mime → Type 0
Ready mime_transparent me = is_some me.target ≡ true
Ready get_value me = (v : List ℕ) × (me.value ≡ some v) × (length v < 128)
Ready check me = (me.check_pointer ≢ []) × IsField me.if_ok
Ready newline me = IsFold me.fold_state
Ready mime_net_ascii me = ⊥
Ready _ me = Unit {0}

abbrev pub Sound : Mime → Type 0
Sound me = (me.fault ≡ false) × Ready me.state me

if-Sound :
    (b : Bool) (x y : Mime)
    → (b ≡ true → Sound x)
    → (b ≡ false → Sound y)
    → Sound (if b then x else y)
if-Sound true x y h k = h refl
if-Sound false x y h k = k refl

Ready-target : (target : Option ℕ) (me : Mime) → me.target ≡ target → Ready (state_for target) me
unfolding state_for
Ready-target none me e = tt
Ready-target (some target) me e = ap is_some e

pub call_target-Sound :
    (call : TargetCall) (me : Mime)
    → me.fault ≡ false
    → me.state ≡ mime_transparent
    → is_some me.target ≡ true
    → Sound (call_target call me)
unfolding call_target
call_target-Sound call me f s t =
    (cc (f, t), subst (λ (st : MimeState). Ready st (call_target call me)) (sym s) t)

at_line_start-Sound :
    (stream_stack : StreamStack) (c : ℕ) (me : Mime)
    → me.fault ≡ false
    → Sound (at_line_start stream_stack c me)
unfolding at_line_start start_check end_header bad_field_name
at_line_start-Sound stream_stack c me f = elim (Bool-cases (c == b'c' || c == b'C')) [
  | inl e ↦ rw e (f, ((λ h. cc h), tt))
  | inr e ↦ rw e (elim (Bool-cases (c == 10)) [
    | inl e' ↦ rw e' (f, Ready-target _ _ refl)
    | inr e' ↦ rw e' (f, tt)
  ])
]

fold-Ready : (st : MimeState) (me : Mime) → IsFold st → me.fold_state ≡ st → Ready st me
fold-Ready skip_get_value me h e = tt
fold-Ready newline me h e = subst IsFold (sym e) tt
fold-Ready _ me h e = absurd h

at_newline-Sound :
    (stream_stack : StreamStack) (c : ℕ) (me : Mime)
    → me.fault ≡ false
    → IsFold me.fold_state
    → Sound (at_newline stream_stack c me)
unfolding at_newline
at_newline-Sound stream_stack c me f h = elim (Bool-cases (not (c == 10) && white c)) [
  | inl e ↦ rw e (f, fold-Ready me.fold_state (record me { state = me.fold_state }) h refl)
  | inr e ↦ rw e (at_line_start-Sound stream_stack c me f)
]

field-Ready : (st : MimeState) (me : Mime) → IsField st → Ready st me
field-Ready content_t me h = tt
field-Ready content_type me h = tt
field-Ready content_transfer_encoding me h = tt
field-Ready _ me h = absurd h

checked-Sound :
    (rest : CStr) (me : Mime)
    → me.fault ≡ false
    → me.state ≡ check
    → IsField me.if_ok
    → Sound (checked rest me)
unfolding checked
checked-Sound [] me f s h = (f, field-Ready me.if_ok _ h)
checked-Sound (d ∷ rest) me f s h = (
  f,
  subst (λ (st : MimeState). Ready st (record me { check_pointer = d ∷ rest })) (sym s)
      ((λ e. cc e), h),
)

at_check-Sound :
    (c : ℕ) (text : CStr) (me : Mime)
    → me.fault ≡ false
    → me.state ≡ check
    → IsField me.if_ok
    → text ≢ []
    → Sound (at_check c text me)
unfolding at_check bad_field_name
at_check-Sound c [] me f s h n = absurd (n refl)
at_check-Sound c (d ∷ rest) me f s h n = elim (Bool-cases (to_lower c == d)) [
  | inl e ↦ rw e (checked-Sound rest me f s h)
  | inr e ↦ rw e (f, tt)
]

at_content_t-Sound : (c : ℕ) (me : Mime) → me.fault ≡ false → Sound (at_content_t c me)
unfolding at_content_t start_check bad_field_name
at_content_t-Sound c me f = elim (Bool-cases (c == b'r' || c == b'R')) [
  | inl e ↦ rw e (f, ((λ h. cc h), tt))
  | inr e ↦ rw e (elim (Bool-cases (c == b'y' || c == b'Y')) [
    | inl e' ↦ rw e' (f, ((λ h. cc h), tt))
    | inr e' ↦ rw e' (f, tt)
  ])
]

at_junk_line-Sound : (c : ℕ) (me : Mime) → Sound me → Sound (at_junk_line c me)
unfolding at_junk_line
at_junk_line-Sound c me h = elim (Bool-cases (c == 10)) [ inl e ↦ rw e (h.0, tt) | inr e ↦ rw e h ]

-- The state is get_value.
abbrev Holds : List ℕ → Mime → Type 0
Holds v me = (me.fault ≡ false) × (me.state ≡ get_value) × (me.value ≡ some v) × (length v < 128)

Holds-Sound : (v : List ℕ) (me : Mime) → Holds v me → Sound me
Holds-Sound v me (f, s, e, lt) = (f, subst (λ (st : MimeState). Ready st me) (sym s) (v, e, lt))

set_field-Holds :
    (st : MimeState) (text : CStr) (v : List ℕ) (me : Mime)
    → Holds v me
    → Holds v (set_field st text me)
unfolding set_field
set_field-Holds content_type text v me h = h
set_field-Holds content_transfer_encoding text v me h = h
set_field-Holds _ text v me h = h

fits : (n m : ℕ) (fault : Bool) → fault ≡ false → n < m → (fault || not (ltb n m)) ≡ false
fits n m fault f lt = ground arith

end_value-Holds : (v : List ℕ) (me : Mime) → Holds v me → Holds v (end_value (some v) me)
unfolding end_value
end_value-Holds v me (f, s, e, lt) =
    set_field-Holds me.field v v _ (fits (length v) 128 me.fault f lt, s, e, lt)

add_value-Sound : (c : ℕ) (v : List ℕ) (me : Mime) → Holds v me → Sound (add_value c (some v) me)
unfolding add_value bad_field_name
add_value-Sound c v me (f, s, e, lt) = elim (Bool-cases (ltb (length v) 127)) [
  | inl e' ↦ rw e' (
      Holds-Sound (v ++ c ∷ []) _
        (fits (length v) 128 me.fault f lt, s, refl, ground (arith, length-append v (c ∷ []))))
  | inr e' ↦ rw e' (f, tt)
]

at_get_value-Sound : (c : ℕ) (v : List ℕ) (me : Mime) → Holds v me → Sound (at_get_value c me)
unfolding at_get_value
at_get_value-Sound c v me h = elim (Bool-cases (white c)) [
  | inl e ↦ rw e (
      subst (λ (t : Option (List ℕ)). Sound (at_junk_line c (end_value t me))) (sym h.2)
        (at_junk_line-Sound c (end_value (some v) me) (Holds-Sound v _ (end_value-Holds v me h))))
  | inr e ↦ rw e (
      subst (λ (t : Option (List ℕ)). Sound (add_value c t me)) (sym h.2)
        (add_value-Sound c v me h))
]

at_skip_get_value-Sound :
    (c : ℕ) (me : Mime)
    → me.fault ≡ false
    → me.state ≡ skip_get_value
    → Sound (at_skip_get_value c me)
unfolding at_skip_get_value
at_skip_get_value-Sound c me f s =
    if-Sound (c == 10) _ _ (λ e. (f, subst IsFold (sym s) tt))
      (λ e.
        if-Sound (white c) _ _ (λ e'. (f, subst (λ (st : MimeState). Ready st me) (sym s) tt))
          (λ e'.
            at_get_value-Sound c [] (record me { value = some []; state = get_value })
              (f, refl, refl, omega arith)))

at_field-Sound : (c : ℕ) (me : Mime) → me.fault ≡ false → Sound (at_field c me)
unfolding at_field
at_field-Sound c me f =
    at_skip_get_value-Sound c (record me { field = me.state; state = skip_get_value }) f refl

pub at_state-Sound :
    (stream_stack : StreamStack) (st : MimeState) (c : ℕ) (me : Mime)
    → me.state ≡ st
    → me.fault ≡ false
    → Ready st me
    → Sound (at_state stream_stack st c me)
unfolding at_state
at_state-Sound stream_stack mime_ignore c me e f h = (f, subst (λ st. Ready st me) (sym e) h)
at_state-Sound stream_stack mime_transparent c me e f h = call_target-Sound (char_call c) me f e h
at_state-Sound stream_stack mime_net_ascii c me e f h = absurd h
at_state-Sound stream_stack newline c me e f h = at_newline-Sound stream_stack c me f h
at_state-Sound stream_stack beginning_of_line c me e f h = at_line_start-Sound stream_stack c me f
at_state-Sound stream_stack check c me e f h = at_check-Sound c me.check_pointer me f e h.1 h.0
at_state-Sound stream_stack content_t c me e f h = at_content_t-Sound c me f
at_state-Sound stream_stack content_type c me e f h = at_field-Sound c me f
at_state-Sound stream_stack content_transfer_encoding c me e f h = at_field-Sound c me f
at_state-Sound stream_stack skip_get_value c me e f h = at_skip_get_value-Sound c me f e
at_state-Sound stream_stack get_value c me e f h = at_get_value-Sound c h.0 me (f, e, h.1, h.2)
at_state-Sound stream_stack junk_line c me e f h =
    at_junk_line-Sound c me (f, subst (λ st. Ready st me) (sym e) h)
