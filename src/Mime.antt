-- ===== src/Mime.antt =====
-- Library/Implementation/HTMIME.c: the stream that reads the header of a MIME message and feeds the
-- body to the stream for its content type. HTStreamStack is the argument `stream_stack`. The target
-- is its number; the calls made of it are kept in `sent`. An atom is its name.
pub mod Room
pub mod Streams
pub mod Blocks
pub mod Value
pub mod Name
pub mod Line
pub mod Fold
pub mod Body
mod Tests
use cern_httpd.Base.{
  ℕ, suc, ◌+◌, Bool, true, false, ◌&&◌, ◌||◌, not, Option, none, some, List, [], ◌∷◌, ◌++◌, ltb,
  leb, ◌==◌, if◌then◌else◌, length, codes, is_some, ◌-◌,
}
use cern_httpd.Str.{CStr, to_lower, white}

pub data MimeState : Type 0 where
  mime_transparent : MimeState
  beginning_of_line : MimeState
  content_t : MimeState
  content_transfer_encoding : MimeState
  content_type : MimeState
  skip_get_value : MimeState
  get_value : MimeState
  junk_line : MimeState
  newline : MimeState
  check : MimeState
  mime_net_ascii : MimeState
  mime_ignore : MimeState

-- VALUE_SIZE
abbrev pub value_size : ℕ
value_size = 128

pub data TargetCall : Type 0 where
  char_call : ℕ → TargetCall
  string_call : CStr → TargetCall
  block_call : List ℕ → TargetCall
  free_call : TargetCall
  abort_call : ℕ → TargetCall

-- `value` holds the bytes before value_pointer, and is none while that is NULL. `fault` says that a
-- byte was written outside the array, or a call made of a target that is NULL.
pub record Mime : Type 0 where
  pub net_ascii : Bool
  pub state : MimeState
  pub if_ok : MimeState
  pub field : MimeState
  pub fold_state : MimeState
  pub check_pointer : CStr
  pub value : Option (List ℕ)
  pub sink : Option ℕ
  pub encoding : Option CStr
  pub format : CStr
  pub target : Option ℕ
  pub sent : List TargetCall
  pub fault : Bool

abbrev pub StreamStack : Type 0
StreamStack = CStr → Option ℕ

-- HTMIMEConvert: what calloc leaves zero is MIME_TRANSPARENT or NULL.
unfoldable pub mime_convert : Option ℕ → Mime
mime_convert output_stream = record {
  net_ascii = false;
  state = beginning_of_line;
  if_ok = mime_transparent;
  field = mime_transparent;
  fold_state = mime_transparent;
  check_pointer = [];
  value = none;
  sink = output_stream;
  encoding = none;
  format = codes "text/plain";
  target = none;
  sent = [];
  fault = false;
}

-- HTNetMIME
unfoldable pub net_mime : Option ℕ → Mime
unfolding mime_convert
net_mime output_stream = record (mime_convert output_stream) { net_ascii = true }

unfoldable pub call_target : TargetCall → Mime → Mime
call_target call me = record me {
  sent = me.sent ++ call ∷ [];
  fault = me.fault || not (is_some me.target);
}

-- bad_field_name
unfoldable pub bad_field_name : Mime → Mime
bad_field_name me = record me { state = junk_line }

unfoldable pub start_check : CStr → MimeState → Mime → Mime
start_check text if_ok me = record me { check_pointer = text; if_ok = if_ok; state = check }

-- `me->target = me->sink`
unfoldable pub or_sink : Option ℕ → Option ℕ → Option ℕ
or_sink none sink = sink
or_sink (some target) sink = some target

unfoldable pub state_for : Option ℕ → MimeState
state_for none = mime_ignore
state_for (some target) = mime_transparent

-- The end of the header.
unfoldable pub end_header : StreamStack → Mime → Mime
unfolding or_sink state_for
end_header stream_stack me =
    let target = or_sink (stream_stack me.format) me.sink in
    record me { target = target; state = state_for target }

unfoldable pub at_line_start : StreamStack → ℕ → Mime → Mime
unfolding start_check end_header bad_field_name
at_line_start stream_stack c me =
    if c == b'c' || c == b'C'
    then start_check (codes "ontent-t") content_t me
    else if c == 10
    then end_header stream_stack me
    else bad_field_name me

unfoldable pub at_newline : StreamStack → ℕ → Mime → Mime
unfolding at_line_start white
at_newline stream_stack c me =
    if not (c == 10) && white c
    then record me { state = me.fold_state }
    else at_line_start stream_stack c me

unfoldable pub checked : CStr → Mime → Mime
checked [] me = record me { state = me.if_ok; check_pointer = [] }
checked (d ∷ rest) me = record me { check_pointer = d ∷ rest }

-- The pointer is moved on whether or not the character fits.
unfoldable pub at_check : ℕ → CStr → Mime → Mime
unfolding to_lower checked bad_field_name
at_check c [] me = if to_lower c == 0 then record me { fault = true } else bad_field_name me
at_check c (d ∷ rest) me =
    if to_lower c == d then checked rest me else bad_field_name (record me { check_pointer = rest })

unfoldable pub at_content_t : ℕ → Mime → Mime
unfolding start_check bad_field_name
at_content_t c me =
    if c == b'r' || c == b'R'
    then start_check (codes "ansfer-encoding:") content_transfer_encoding me
    else if c == b'y' || c == b'Y'
    then start_check (codes "pe:") content_type me
    else bad_field_name me

unfoldable pub at_junk_line : ℕ → Mime → Mime
at_junk_line c me = if c == 10 then record me { state = newline; fold_state = newline } else me

-- HTAtom_for(me->value)
unfoldable pub set_field : MimeState → CStr → Mime → Mime
set_field content_type text me = record me { format = text }
set_field content_transfer_encoding text me = record me { encoding = some text }
set_field _ text me = me

-- `*me->value_pointer = 0` and what follows it.
unfoldable pub end_value : Option (List ℕ) → Mime → Mime
unfolding set_field
end_value none me = record me { fault = true }
end_value (some value) me =
    set_field me.field value (record me { fault = me.fault || not (ltb (length value) value_size) })

-- `*me->value_pointer++ = c`, or value_too_long.
unfoldable pub add_value : ℕ → Option (List ℕ) → Mime → Mime
unfolding bad_field_name
add_value c none me = record me { fault = true }
add_value c (some value) me =
    if ltb (length value) (value_size - 1)
    then record me {
      value = some (value ++ c ∷ []);
      fault = me.fault || not (ltb (length value) value_size);
    }
    else bad_field_name me

unfoldable pub at_get_value : ℕ → Mime → Mime
unfolding end_value at_junk_line add_value white
at_get_value c me =
    if white c then at_junk_line c (end_value me.value me) else add_value c me.value me

unfoldable pub at_skip_get_value : ℕ → Mime → Mime
unfolding at_get_value white
at_skip_get_value c me =
    if c == 10
    then record me { fold_state = me.state; state = newline }
    else if white c
    then me
    else at_get_value c (record me { value = some []; state = get_value })

unfoldable pub at_field : ℕ → Mime → Mime
unfolding at_skip_get_value
at_field c me = at_skip_get_value c (record me { field = me.state; state = skip_get_value })

-- The switch on the state.
unfoldable pub at_state : StreamStack → MimeState → ℕ → Mime → Mime
unfolding call_target at_newline at_line_start at_check at_content_t at_field at_skip_get_value
    at_get_value at_junk_line
at_state stream_stack mime_ignore c me = me
at_state stream_stack mime_transparent c me = call_target (char_call c) me
at_state stream_stack mime_net_ascii c me = call_target (char_call c) me
at_state stream_stack newline c me = at_newline stream_stack c me
at_state stream_stack beginning_of_line c me = at_line_start stream_stack c me
at_state stream_stack check c me = at_check c me.check_pointer me
at_state stream_stack content_t c me = at_content_t c me
at_state stream_stack content_type c me = at_field c me
at_state stream_stack content_transfer_encoding c me = at_field c me
at_state stream_stack skip_get_value c me = at_skip_get_value c me
at_state stream_stack get_value c me = at_get_value c me
at_state stream_stack junk_line c me = at_junk_line c me

unfoldable pub is_transparent : MimeState → Bool
is_transparent mime_transparent = true
is_transparent _ = false

unfoldable pub is_ignore : MimeState → Bool
is_ignore mime_ignore = true
is_ignore _ = false

-- HTMIME_put_character
unfoldable pub put_character : StreamStack → Mime → ℕ → Mime
unfolding call_target at_state is_transparent
put_character stream_stack me c =
    if is_transparent me.state
    then call_target (char_call c) me
    else if me.net_ascii && c == 13
    then me
    else at_state stream_stack me.state c me

abbrev pub put_characters : StreamStack → Mime → List ℕ → Mime
put_characters stream_stack me [] = me
put_characters stream_stack me (c ∷ s) =
    put_characters stream_stack (put_character stream_stack me c) s

-- HTMIME_put_string
unfoldable pub put_string : StreamStack → Mime → CStr → Mime
unfolding call_target put_character is_transparent is_ignore
put_string stream_stack me s =
    if is_transparent me.state
    then call_target (string_call s) me
    else if is_ignore me.state
    then me
    else put_characters stream_stack me s

-- HTMIME_write
unfoldable pub write : StreamStack → Mime → List ℕ → Mime
unfolding call_target put_character is_transparent
write stream_stack me s =
    if is_transparent me.state
    then call_target (block_call s) me
    else put_characters stream_stack me s

-- HTMIME_free and HTMIME_abort, which make a last call of the target.
unfoldable pub finish : TargetCall → Mime → Mime
unfolding call_target
finish call me = if is_some me.target then call_target call me else me

unfoldable pub mime_free : Mime → Mime
unfolding finish
mime_free me = finish free_call me

unfoldable pub mime_abort : ℕ → Mime → Mime
unfolding finish
mime_abort e me = finish (abort_call e) me
