-- ===== src/Uu.antt =====
-- Library/Implementation/HTUU.c: the printable encoding of RFC 1113 (base 64).
-- A buffer is the list of the bytes from the pointer on. Bytes behind the list, which a decoded
-- group can reach over the terminator, are read as 0. A coded character is taken for an unsigned
-- char: an index into pr2six by a negative `char` is outside the table.
pub mod Bits
pub mod Encode
pub mod RoundTrip
mod Tests
use Prim.Native.Nat.{bit_and, bit_or}
use cern_httpd.Base.{
  ℕ, zero, suc, ◌+◌, ◌-◌, ◌*◌, ◌/◌, ◌%◌, Bool, ◌||◌, List, [], ◌∷◌, ◌++◌, ltb, leb, ◌==◌,
  if◌then◌else◌, get_or, drop, codes,
}

abbrev pub Bytes : Type 0
Bytes = List ℕ

pub six2pr : List ℕ
six2pr = codes "ABCDEFGHIJKLMNOPQRSTUVWXYZabcdefghijklmnopqrstuvwxyz0123456789+/"

-- ENC(c)
unfoldable pub enc : ℕ → ℕ
unfolding six2pr
enc c = get_or six2pr c 0

-- The entry of the table pr2six that HTUU_decode fills on its first call: the place of the
-- character in six2pr, and MAXVAL + 1 for a character that is not in it.
unfoldable pub place : ℕ → ℕ → List ℕ → ℕ
place c j [] = 64
place c j (d ∷ table) = if c == d then j else place c (j + 1) table

unfoldable pub dec : ℕ → ℕ
unfolding six2pr place
dec c = place c 0 six2pr

unfoldable pub char1 : ℕ → ℕ
unfolding enc
char1 a = enc (a / 4)

unfoldable pub char2 : ℕ → ℕ → ℕ
unfolding enc
char2 a b = enc (bit_or (bit_and (a * 16) 48) (bit_and (b / 16) 15))

unfoldable pub char3 : ℕ → ℕ → ℕ
unfolding enc
char3 b c = enc (bit_or (bit_and (b * 4) 60) (bit_and (c / 64) 3))

unfoldable pub char4 : ℕ → ℕ
unfolding enc
char4 c = enc (bit_and c 63)

-- HTUU_encode. `x` and `y` are the two bytes behind the buffer, which the last group reads when the
-- length is no multiple of three; its characters for missing bytes are overwritten by `=`.
unfoldable pub encode : Bytes → ℕ → ℕ → Bytes
unfolding char1 char2 char3 char4
encode [] x y = []
encode (a ∷ []) x y = char1 a ∷ char2 a x ∷ b'=' ∷ b'=' ∷ []
encode (a ∷ b ∷ []) x y = char1 a ∷ char2 a b ∷ char3 b x ∷ b'=' ∷ []
encode (a ∷ b ∷ c ∷ bufin) x y = char1 a ∷ char2 a b ∷ char3 b c ∷ char4 c ∷ encode bufin x y

unfoldable pub skip_blanks : Bytes → Bytes
skip_blanks [] = []
skip_blanks (c ∷ s) = if c == b' ' || c == 9 then skip_blanks s else c ∷ s

-- `while(pr2six[(int)*(bufin++)] <= MAXVAL)`: how many printable characters there are.
unfoldable pub count_printable : Bytes → ℕ
unfolding dec
count_printable [] = 0
count_printable (c ∷ s) = if leb (dec c) 63 then suc (count_printable s) else 0

-- The three bytes of a group of four characters.
unfoldable pub group : Bytes → Bytes
unfolding dec
group s =
    let d0 : ℕ = dec (get_or s 0 0) in
    let d1 : ℕ = dec (get_or s 1 0) in
    let d2 : ℕ = dec (get_or s 2 0) in
    let d3 : ℕ = dec (get_or s 3 0) in
    (bit_or (d0 * 4) (d1 / 16) % 256)
    ∷ (bit_or (d1 * 16) (d2 / 4) % 256)
    ∷ (bit_or (d2 * 64) d3 % 256)
    ∷ []

-- `while (nprbytes > 0)`
unfoldable pub groups : ℕ → Bytes → Bytes
unfolding group
groups zero s = []
groups (suc zero) s = group s
groups (suc (suc zero)) s = group s
groups (suc (suc (suc zero))) s = group s
groups (suc (suc (suc (suc n)))) s = group s ++ groups n (drop 4 s)

-- The third character of the last group, at `bufin[-2]` behind the loop.
unfoldable pub third_of_last : ℕ → Bytes → ℕ
third_of_last n s = get_or s ((n + 3) / 4 * 4 - 2) 0

-- The correction for a last group that is not full: `left` is `nprbytes & 03` behind the loop,
-- which is `n % 4`, and `value` the table's entry for the third character.
unfoldable pub corrected : ℕ → ℕ → ℕ → ℕ
corrected nbytesdecoded left value =
    if left == 0
    then nbytesdecoded
    else if ltb 63 value
    then nbytesdecoded - 2
    else nbytesdecoded - 1

unfoldable pub decoded_count : ℕ → ℕ → Bytes → ℕ
unfolding third_of_last dec corrected
decoded_count nbytesdecoded n s = corrected nbytesdecoded (n % 4) (dec (third_of_last n s))

-- `nprbytes`, cut down if its groups would not fit into the output buffer.
unfoldable pub fitting : ℕ → ℕ → ℕ
fitting outbufsize n = if ltb outbufsize ((n + 3) / 4 * 3) then outbufsize * 4 / 3 else n

-- HTUU_decode: the bytes that it writes, and the number that it returns.
unfoldable pub decode : Bytes → ℕ → Bytes × ℕ
unfolding skip_blanks count_printable fitting groups decoded_count
decode bufcoded outbufsize =
    let s = skip_blanks bufcoded in
    let n = count_printable s in
    let m = fitting outbufsize n in (groups m s, decoded_count ((n + 3) / 4 * 3) m s)
