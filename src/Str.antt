-- ===== src/Str.antt =====
-- Library/Implementation/HTString.c, with the character macros of HTUtils.h and tcp.h and the
-- functions of the C library that the other modules call.
-- A C string is the list of its characters up to the terminating zero, a character the number of
-- its byte. A pointer into a string is the suffix that it points to; `none` is NULL.
pub mod Letters
pub mod Case
pub mod Search
pub mod Field
pub mod Mismatch
use cern_httpd.Base.{
  ℕ, zero, ◌+◌, ◌-◌, Bool, true, false, ◌&&◌, ◌||◌, Option, none, some, List, [], ◌∷◌, ◌++◌, ltb,
  leb, ◌==◌, if◌then◌else◌, length, take, suc,
}
use cern_httpd.Base.Int.{ℤ, pos, negsuc, ◌-ℤ◌}

abbrev pub CStr : Type 0
CStr = List ℕ

-- TOLOWER and TOUPPER, in the "C" locale.
unfoldable pub to_lower : ℕ → ℕ
to_lower c = if leb b'A' c && leb c b'Z' then c + 32 else c

unfoldable pub to_upper : ℕ → ℕ
to_upper c = if leb b'a' c && leb c b'z' then c - 32 else c

-- WHITE, which looks at the byte as an unsigned char.
unfoldable pub white : ℕ → Bool
white c = leb c 32

-- The value of a `char` in an `int` expression, on a machine whose plain `char` is signed.
unfoldable pub char_value : ℕ → ℤ
char_value c = if ltb c 128 then pos c else negsuc (255 - c)

-- `if (diff) return diff;` and what follows it.
unfoldable pub or_diff : ℤ → ℤ → ℤ
or_diff (pos zero) rest = rest
or_diff (pos (suc n)) rest = pos (suc n)
or_diff (negsuc n) rest = negsuc n

-- The loop of strcasecomp.
unfoldable pub strcasecomp : CStr → CStr → ℤ
unfolding char_value to_lower or_diff
strcasecomp [] [] = pos 0
strcasecomp (c ∷ p) [] = pos 1
strcasecomp [] (d ∷ q) = negsuc 0
strcasecomp (c ∷ p) (d ∷ q) =
    or_diff (char_value (to_lower c) -ℤ char_value (to_lower d)) (strcasecomp p q)

-- strncasecomp: at the end of a string it returns `*p - *q`, where the terminator is 0.
unfoldable pub strncasecomp : CStr → CStr → ℕ → ℤ
unfolding char_value to_lower or_diff
strncasecomp p q zero = pos 0
strncasecomp [] [] (suc n) = pos 0
strncasecomp (c ∷ p) [] (suc n) = char_value c -ℤ pos 0
strncasecomp [] (d ∷ q) (suc n) = pos 0 -ℤ char_value d
strncasecomp (c ∷ p) (d ∷ q) (suc n) =
    or_diff (char_value (to_lower c) -ℤ char_value (to_lower d)) (strncasecomp p q n)

-- `0 == strcasecomp(a, b)`
unfoldable pub is_zero : ℤ → Bool
is_zero (pos zero) = true
is_zero (pos (suc n)) = false
is_zero (negsuc n) = false

-- The inner loop of strcasestr and the test after it: `cur2` has come to its end.
unfoldable pub case_agrees : CStr → CStr → Bool
unfolding to_upper
case_agrees cur1 [] = true
case_agrees [] (d ∷ cur2) = false
case_agrees (c ∷ cur1) (d ∷ cur2) = to_upper c == to_upper d && case_agrees cur1 cur2

-- `while (*try) { if (test) return try; try++; } return NULL;`
unfoldable pub find_suffix : (CStr → Bool) → CStr → Option CStr
find_suffix test [] = none
find_suffix test (c ∷ try) = if test (c ∷ try) then some (c ∷ try) else find_suffix test try

unfoldable pub strcasestr : Option CStr → Option CStr → Option CStr
unfolding case_agrees find_suffix
strcasestr none s2 = none
strcasestr (some s1) none = some s1
strcasestr (some s1) (some []) = some s1
strcasestr (some s1) (some (d ∷ s2)) = find_suffix (λ try. case_agrees try (d ∷ s2)) s1

-- HTSACopy, the macro StrAllocCopy: the old copy is freed, the result is a copy of `src`.
unfoldable pub sa_copy : Option CStr → Option CStr → Option CStr
sa_copy dest none = none
sa_copy dest (some src) = some src

-- HTSACat, the macro StrAllocCat.
unfoldable pub sa_cat : Option CStr → Option CStr → Option CStr
sa_cat dest none = dest
sa_cat dest (some []) = dest
sa_cat (some dest) (some (c ∷ src)) = some (dest ++ c ∷ src)
sa_cat none (some (c ∷ src)) = some (c ∷ src)

-- `while(*p && WHITE(*p)) p++`
unfoldable pub skip_white : CStr → CStr
unfolding white
skip_white [] = []
skip_white (c ∷ p) = if white c then skip_white p else c ∷ p

-- The text up to the first white character, and what begins there.
unfoldable pub plain_field : CStr → CStr × CStr
unfolding white
plain_field [] = ([], [])
plain_field (c ∷ p) =
    let (field, rest) = plain_field p in if white c then ([], c ∷ p) else (c ∷ field, rest)

-- The text up to the closing quote, and what begins there; an escaped character is passed over.
unfoldable pub quoted_field : CStr → CStr × CStr
quoted_field [] = ([], [])
quoted_field (c ∷ []) = if c == b'"' then ([], c ∷ []) else (c ∷ [], [])
quoted_field (c ∷ d ∷ p) =
    let (field, rest) = quoted_field p in
    let (field', rest') = quoted_field (d ∷ p) in
    if c == b'"'
    then ([], c ∷ d ∷ p)
    else if c == b'\\'
    then (c ∷ d ∷ field, rest)
    else (c ∷ field', rest')

-- `if (*p) *p++ = 0`
unfoldable pub past_delimiter : CStr → CStr
past_delimiter [] = []
past_delimiter (c ∷ p) = p

-- HTNextField: the field, and the new value of `*pstr`.
unfoldable pub field_at : CStr → Option CStr × CStr
unfolding plain_field quoted_field past_delimiter
field_at [] = (none, [])
field_at (c ∷ p) =
    let (field, rest) = if c == b'"' then quoted_field p else plain_field (c ∷ p) in
    (some field, past_delimiter rest)

unfoldable pub next_field : CStr → Option CStr × CStr
unfolding skip_white field_at
next_field pstr = field_at (skip_white pstr)

-- The C library: strchr and strrchr with a character that is not 0, strstr with a text that is not
-- empty, `!strncmp(t, s, strlen(t))`, and `!strcmp(s, t)`.
unfoldable pub strchr : CStr → ℕ → Option CStr
strchr [] c = none
strchr (d ∷ s) c = if d == c then some (d ∷ s) else strchr s c

-- The string that is left when its first `c`, if it has one, is overwritten with the terminator.
unfoldable pub chop_at : ℕ → CStr → CStr
chop_at c [] = []
chop_at c (d ∷ s) = if d == c then [] else d ∷ chop_at c s

-- fgets(line, n, fp): at most n - 1 characters, up to and with a newline, and what is left to read.
unfoldable pub fgets : ℕ → CStr → CStr × CStr
fgets zero text = ([], text)
fgets (suc zero) text = ([], text)
fgets (suc (suc n)) [] = ([], [])
fgets (suc (suc n)) (c ∷ text) =
    let (line, rest) = fgets (suc n) text in if c == 10 then (c ∷ [], text) else (c ∷ line, rest)

unfoldable pub strrchr : CStr → ℕ → Option CStr
strrchr [] c = none
strrchr (d ∷ s) c =
    let later = strrchr s c in
    elim later [ some r ↦ some r | none ↦ if d == c then some (d ∷ s) else none ]

unfoldable pub starts : CStr → CStr → Bool
starts [] s = true
starts (c ∷ t) [] = false
starts (c ∷ t) (d ∷ s) = c == d && starts t s

unfoldable pub strstr : CStr → CStr → Option CStr
unfolding starts find_suffix
strstr s t = find_suffix (starts t) s

unfoldable pub streq : CStr → CStr → Bool
streq [] [] = true
streq [] (d ∷ t) = false
streq (c ∷ s) [] = false
streq (c ∷ s) (d ∷ t) = c == d && streq s t

-- The characters from the pointer `s` up to the pointer `cur` further on in the same string.
unfoldable pub before : CStr → CStr → CStr
before s cur = take (length s - length cur) s

-- `for( ; *p && *q && *p == *q; p++, q++)`: where two strings first differ.
unfoldable pub first_mismatch : CStr → CStr → CStr × CStr
first_mismatch [] q = ([], q)
first_mismatch (c ∷ p) [] = (c ∷ p, [])
first_mismatch (c ∷ p) (d ∷ q) =
    let further = first_mismatch p q in if c == d then further else (c ∷ p, d ∷ q)

-- `*p == *q`, where the terminator is a character too.
unfoldable pub same_head : CStr → CStr → Bool
same_head [] [] = true
same_head [] (d ∷ q) = false
same_head (c ∷ p) [] = false
same_head (c ∷ p) (d ∷ q) = c == d
