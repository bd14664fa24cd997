-- ===== src/Parse/Escape.antt =====
-- HTEscape and HTUnEscape of Library/Implementation/HTParse.c.
-- A character is a byte, so `char` arithmetic is taken modulo 256. TOASCII and FROMASCII are the
-- identity, as tcp.h defines them outside EBCDIC machines.
pub mod Laws
use Prim.Native.Nat.{bit_and}
use cern_httpd.Base.{
  ℕ, zero, ◌+◌, ◌-◌, ◌*◌, ◌/◌, ◌%◌, Bool, ◌&&◌, not, List, [], ◌∷◌, ltb, leb, ◌==◌, if◌then◌else◌,
  get_or, codes,
}
use cern_httpd.Str.{CStr}

-- isAcceptable: the rows are those of the source, for the characters 0x20 to 0x7f.
is_acceptable : List ℕ
is_acceptable =
    0 ∷ 0 ∷ 0 ∷ 0 ∷ 0 ∷ 0 ∷ 0 ∷ 0 ∷ 0 ∷ 0 ∷ 7 ∷ 6 ∷ 0 ∷ 7 ∷ 7 ∷ 4 ∷ 7 ∷ 7 ∷ 7 ∷ 7 ∷ 7 ∷ 7 ∷ 7 ∷ 7
    ∷ 7 ∷ 7 ∷ 0 ∷ 0 ∷ 0 ∷ 0 ∷ 0 ∷ 0 ∷ 7 ∷ 7 ∷ 7 ∷ 7 ∷ 7 ∷ 7 ∷ 7 ∷ 7 ∷ 7 ∷ 7 ∷ 7 ∷ 7 ∷ 7 ∷ 7 ∷ 7 ∷ 7
    ∷ 7 ∷ 7 ∷ 7 ∷ 7 ∷ 7 ∷ 7 ∷ 7 ∷ 7 ∷ 7 ∷ 7 ∷ 7 ∷ 0 ∷ 0 ∷ 0 ∷ 0 ∷ 7 ∷ 0 ∷ 7 ∷ 7 ∷ 7 ∷ 7 ∷ 7 ∷ 7 ∷ 7
    ∷ 7 ∷ 7 ∷ 7 ∷ 7 ∷ 7 ∷ 7 ∷ 7 ∷ 7 ∷ 7 ∷ 7 ∷ 7 ∷ 7 ∷ 7 ∷ 7 ∷ 7 ∷ 7 ∷ 7 ∷ 7 ∷ 7 ∷ 0 ∷ 0 ∷ 0 ∷ 0 ∷ 0
    ∷ []

-- ACCEPTABLE(a)
unfoldable pub acceptable : ℕ → ℕ → Bool
unfolding is_acceptable
acceptable mask a =
    leb 32 a && ltb a 128 && not (bit_and (get_or is_acceptable (a - 32) 0) mask == 0)

-- hex[d]
unfoldable pub hex : ℕ → ℕ
hex d = get_or (codes "0123456789ABCDEF") d 0

-- The second loop of HTEscape; the first only counts the room that the result takes.
unfoldable pub escape : CStr → ℕ → CStr
escape [] mask = []
escape (a ∷ p) mask =
    let rest = escape p mask in
    if acceptable mask a then a ∷ rest else b'%' ∷ hex (a / 16) ∷ hex (a % 16) ∷ rest

unfoldable pub from_hex : ℕ → ℕ
from_hex c =
    if leb b'0' c && leb c b'9'
    then c - b'0'
    else if leb b'A' c && leb c b'F'
    then c - b'A' + 10
    else (c + 256 - b'a' + 10) % 256

-- The loop of HTUnEscape, which writes at `q` into the buffer that it reads. What stands at `q` is
-- still the character of the original text when a `%` ends the text and nothing is written.
unfoldable pub unescape_from : CStr → ℕ → CStr → List ℕ
unescape_from str q [] = []
unescape_from str q (c ∷ []) = if c == b'%' then get_or str q 0 ∷ [] else c ∷ []
unescape_from str q (c ∷ d ∷ []) =
    if c == b'%' then ((from_hex d * 16) % 256) ∷ [] else c ∷ unescape_from str (q + 1) (d ∷ [])
unescape_from str q (c ∷ d ∷ e ∷ p) =
    let decoded = (((from_hex d * 16) % 256 + from_hex e) % 256) ∷ unescape_from str (q + 1) p in
    let copied = c ∷ unescape_from str (q + 1) (d ∷ e ∷ p) in if c == b'%' then decoded else copied

-- The C string in a buffer ends at the first zero.
unfoldable pub c_str : List ℕ → CStr
c_str [] = []
c_str (zero ∷ s) = []
c_str (c ∷ s) = c ∷ c_str s

unfoldable pub unescape : CStr → CStr
unfolding unescape_from from_hex c_str
unescape str = c_str (unescape_from str 0 str)
