-- ===== src/Ims.antt =====
-- Daemon/Implementation/HTims.c: the stream that answers an If-Modified-Since request with 304.
-- A stream that it feeds is the list of the calls made of it. The fields of the global `out` that
-- HTims.c sets are fields of the state. parse_http_time of HTSUtils.c on a string is an argument, `parse`:
-- it gives a time, and what it leaves of the string, in which make_month changes letters.
pub mod InPlace
pub mod Delivery
pub mod Blocks
pub mod Bounds
pub mod Room
pub mod Chunks
mod Tests
use cern_httpd.Base.{
  ℕ, zero, suc, ◌+◌, ◌-◌, Bool, true, false, ◌&&◌, ◌||◌, not, Option, none, some, List, [], ◌∷◌,
  ◌++◌, ltb, leb, ◌==◌, if◌then◌else◌, length, drop, codes,
}
use cern_httpd.Base.Int.{ℤ, pos, negsuc, ◌-ℤ◌}
use cern_httpd.Str.{CStr, to_lower, is_zero, strchr}
use cern_httpd.Parse.Escape.{c_str}

-- IMS_BUF_SIZE
abbrev pub buf_size : ℕ
buf_size = 8096

pub data ImsState : Type 0 where
  eol : ImsState
  line : ImsState
  body : ImsState
  junk : ImsState

pub data SinkCall : Type 0 where
  put_character : ℕ → SinkCall
  put_string : CStr → SinkCall
  put_block : List ℕ → SinkCall
  free_sink : SinkCall
  abort_sink : ℕ → SinkCall

-- `buffer` holds the `index` bytes written so far; `overrun` says that one of them, or the zero
-- behind them, was written outside the array.
pub record Ims : Type 0 where
  pub sink : List SinkCall
  pub state : ImsState
  pub limit : ℤ
  pub buffer : List ℕ
  pub overrun : Bool
  pub status_code : ℕ
  pub content_length : ℕ

-- HTIfModSinceStream. The fields of `out` have the values that the request has left.
unfoldable pub if_mod_since_stream : ℤ → ℕ → ℕ → Ims
if_mod_since_stream limit status_code content_length = record {
  sink = [];
  state = eol;
  limit = limit;
  buffer = [];
  overrun = false;
  status_code = status_code;
  content_length = content_length;
}

unfoldable pub call_sink : SinkCall → Ims → Ims
call_sink call me = record me { sink = me.sink ++ call ∷ [] }

-- `for ( ; *p1 && TOLOWER(*p2)==*p1; p1++, p2--)` and the test behind it. `back` is the text before
-- the colon, read backwards. Its first line ends within the text, so the loop ends in it.
unfoldable pub is_header : CStr → CStr → Bool
unfolding to_lower
is_header [] [] = true
is_header [] (c ∷ back) = c == 10
is_header (d ∷ search) [] = false
is_header (d ∷ search) (c ∷ back) = to_lower c == d && is_header search back

unfoldable pub nonneg : ℤ → Bool
nonneg (pos n) = true
nonneg (negsuc n) = false

-- `t && t <= me->limit`
unfoldable pub not_modified : ℤ → ℤ → Bool
unfolding is_zero nonneg
not_modified limit t = not (is_zero t) && nonneg (limit -ℤ t)

-- A text whose first part is written backwards.
unfoldable pub turned_onto : CStr → CStr → CStr
turned_onto [] p = p
turned_onto (c ∷ back) p = turned_onto back (c ∷ p)

-- parse_http_time on what stands behind the colon of such a field; elsewhere it is not called.
unfoldable pub date_behind : (CStr → ℤ × CStr) → Bool → CStr → ℤ × CStr
date_behind parse true p = parse p
date_behind parse false p = (pos 0, p)

-- The loop over the colons, on the number of characters left: is one of them that of a last-modified
-- field with such a time? With the answer goes what it leaves in the buffer.
unfoldable pub has_old_date : (CStr → ℤ × CStr) → ℤ → ℕ → CStr → CStr → Bool × CStr
unfolding is_header not_modified turned_onto date_behind
has_old_date parse limit zero back p = (false, turned_onto back p)
has_old_date parse limit (suc n) back [] = (false, turned_onto back [])
has_old_date parse limit (suc n) back (c ∷ p) =
    let date = date_behind parse (c == b':' && is_header (codes "deifidom-tsal") back) p in
    let further = has_old_date parse limit n (c ∷ back) date.1 in
    if not_modified limit date.0 then (true, turned_onto (c ∷ back) date.1) else further

-- The loop from the n-th character of `p` on.
unfoldable pub has_old_date_from : (CStr → ℤ × CStr) → ℤ → ℕ → CStr → CStr → Bool × CStr
unfolding has_old_date turned_onto
has_old_date_from parse limit zero back p = has_old_date parse limit (length p) back p
has_old_date_from parse limit (suc n) back [] = (false, turned_onto back [])
has_old_date_from parse limit (suc n) back (c ∷ p) = has_old_date_from parse limit n (c ∷ back) p

unfoldable pub answer_304 : CStr → Ims → Ims
unfolding call_sink
answer_304 fields me = call_sink (put_string fields) (
    call_sink (put_string (codes "HTTP/1.0 304 Not modified" ++ 13 ∷ 10 ∷ []))
      (record me { state = junk; status_code = 304 }))

unfoldable pub to_body : Ims → Ims
unfolding call_sink
to_body me = call_sink (put_block me.buffer) (record me { state = body })

-- The C string in the buffer is overwritten by one of the same length.
unfoldable pub with_string : CStr → Ims → Ims
with_string str me = record me { buffer = str ++ drop (length str) me.buffer }

-- The answer of the loop over the colons; the fields begin with the n-th character.
unfoldable pub decided : ℕ → Bool × CStr → Ims → Ims
unfolding answer_304 to_body with_string
decided n (true, str) me = answer_304 (drop n str) (with_string str me)
decided n (false, str) me = to_body (with_string str me)

-- IMS_decide, where `str` is the C string in the buffer and `mime` its first line feed.
unfoldable pub decide_at : (CStr → ℤ × CStr) → CStr → Option CStr → Ims → Ims
unfolding has_old_date_from decided to_body
decide_at parse str none me = to_body me
decide_at parse str (some mime) me =
    let line_end = length str - length mime in
    if ltb 20 (length mime)
    then decided (suc line_end) (has_old_date_from parse me.limit (line_end + 12) [] str) me
    else to_body me

unfoldable pub decide : (CStr → ℤ × CStr) → Ims → Ims
unfolding decide_at c_str strchr
decide parse me = decide_at parse (c_str me.buffer) (strchr (c_str me.buffer) 10) me

-- `me->buffer[me->index++] = c`
unfoldable pub store : ℕ → Ims → Ims
store c me = record me {
  buffer = me.buffer ++ c ∷ [];
  overrun = me.overrun || leb buf_size (length me.buffer);
}

-- `me->buffer[me->index] = 0`
unfoldable pub terminate : Ims → Ims
terminate me = record me { overrun = me.overrun || leb buf_size (length me.buffer) }

-- IMS_put_char in a state that reads the header.
unfoldable pub put_header : (CStr → ℤ × CStr) → Bool → ℕ → Ims → Ims
unfolding store terminate decide
put_header parse at_eol c me =
    let stored = store c me in
    if c == 10
    then (if at_eol then decide parse (terminate stored) else record stored { state = eol })
    else if c == 13
    then stored
    else record stored { state = line }

unfoldable pub put_in : (CStr → ℤ × CStr) → ImsState → ℕ → Ims → Ims
unfolding put_header call_sink
put_in parse junk c me = me
put_in parse body c me = call_sink (put_character c) me
put_in parse eol c me = put_header parse true c me
put_in parse line c me = put_header parse false c me

-- IMS_put_char
unfoldable pub put_char : (CStr → ℤ × CStr) → Ims → ℕ → Ims
unfolding put_in
put_char parse me c = put_in parse me.state c me

unfoldable pub reads_header : ImsState → Bool
reads_header eol = true
reads_header line = true
reads_header body = false
reads_header junk = false

-- The loop of IMS_put_block: the stream, and what is left of the block.
unfoldable pub block_loop : (CStr → ℤ × CStr) → Ims → List ℕ → Ims × List ℕ
unfolding put_char reads_header
block_loop parse me [] = (me, [])
block_loop parse me (c ∷ b) =
    let further = block_loop parse (put_char parse me c) b in
    if reads_header me.state then further else (me, c ∷ b)

unfoldable pub pass_rest : ImsState → List ℕ → Ims → Ims
unfolding call_sink
pass_rest eol rest me = me
pass_rest line rest me = me
pass_rest body rest me = call_sink (put_block rest) me
pass_rest junk rest me = me

-- IMS_put_block
unfoldable pub ims_put_block : (CStr → ℤ × CStr) → Ims → Option (List ℕ) → Ims
unfolding block_loop pass_rest
ims_put_block parse me none = me
ims_put_block parse me (some b) =
    let (me', rest) = block_loop parse me b in pass_rest me'.state rest me'

-- IMS_put_string
unfoldable pub ims_put_string : (CStr → ℤ × CStr) → Ims → Option CStr → Ims
unfolding ims_put_block
ims_put_string parse me none = me
ims_put_string parse me (some []) = me
ims_put_string parse me (some (c ∷ s)) = ims_put_block parse me (some (c ∷ s))

unfoldable pub is_junk : ImsState → Bool
is_junk eol = false
is_junk line = false
is_junk body = false
is_junk junk = true

-- IMS_free
unfoldable pub ims_free : Ims → Ims
unfolding call_sink is_junk
ims_free me =
    let freed = call_sink free_sink me in
    if is_junk me.state then record freed { content_length = 0 } else freed

-- IMS_abort, with the error that it hands on.
unfoldable pub ims_abort : ℕ → Ims → Ims
unfolding call_sink
ims_abort e me = call_sink (abort_sink e) me
