-- ===== src/Image.antt =====
-- Daemon/Implementation/HTImage.c, the program htimage: the lexer and the parser of the
-- configuration of a picture.
--
-- An int has 32 bits in two's complement and a long has 64; where int arithmetic overflows, which C
-- leaves open, the model wraps. `dead` is the call of syntax_error, which ends the program by fatal,
-- with what it leaves of the file; the page's text is not modelled. The text of a word goes with its
-- item instead of lex_str and lex_int: nothing is read between the item and its use. lex_str has
-- room for 256 characters: a longer word is written over its end, which is the item lex_overrun, and
-- the model follows the program no further.
pub mod Picture
pub mod Area
pub mod Words
pub mod Lines
pub mod Corners
pub mod Steps
pub mod Load
pub mod Vertex
pub mod Progress
pub mod Total
pub mod Main
pub mod Reply
mod Tests
use cern_httpd.Base.{
  ℕ, zero, suc, ◌+◌, ◌-◌, ◌*◌, Bool, true, false, not, ◌&&◌, ◌||◌, Option, none, some, List, [],
  ◌∷◌, ◌++◌, if◌then◌else◌, leb, ◌==◌, length, codes, ltb,
}
use cern_httpd.Base.Int.{ℤ, pos, negsuc, neg, ◌-ℤ◌, to_int}
use cern_httpd.Str.{CStr, strncasecomp, is_zero, sa_copy}
use cern_httpd.Parse.Escape.{c_str}

-- strtol of the C library for the base 10: blanks, a sign, and digits up to the first other
-- character; a number out of the range of long gives the nearest one in it.
unfoldable pub digits_value : ℕ → CStr → ℕ
digits_value n [] = n
digits_value n (c ∷ s) =
    let more = digits_value (n * 10 + (c - 48)) s in if leb 48 c && leb c 57 then more else n

unfoldable pub to_long : ℤ → ℤ
to_long (pos n) = if leb n 9223372036854775807 then pos n else pos 9223372036854775807
to_long (negsuc n) = if leb n 9223372036854775807 then negsuc n else negsuc 9223372036854775807

unfoldable pub strtol : CStr → ℤ
unfolding digits_value to_long
strtol [] = pos 0
strtol (c ∷ s) =
    let blank = strtol s in
    if c == b' ' || (leb 9 c && leb c 13)
    then blank
    else if c == b'-'
    then to_long (neg (pos (digits_value 0 s)))
    else if c == b'+'
    then to_long (pos (digits_value 0 s))
    else to_long (pos (digits_value 0 (c ∷ s)))

-- atoi, which is `(int)strtol`
unfoldable pub atoi : CStr → ℤ
unfolding strtol to_int
atoi s = to_int (strtol s)

pub record Coord : Type 0 where
  pub x : ℤ
  pub y : ℤ

-- HTShape with its type; the list of a polygon has the pair that was added last first.
pub data Shape : Type 0 where
  rect : Coord → Coord → Shape
  circ : Coord → ℤ → Shape
  poly : List Coord → Shape

-- HTMapping
pub record Mapping : Type 0 where
  pub url : CStr
  pub shape : Shape

-- HTPict
pub record Pict : Type 0 where
  pub default_url : Option CStr
  pub mappings : List Mapping

-- PictItem
pub data PictItem : Type 0 where
  lex_eof : PictItem
  lex_comma : PictItem
  lex_open_paren : PictItem
  lex_close_paren : PictItem
  lex_str : CStr → PictItem
  lex_int : ℤ → PictItem
  lex_overrun : PictItem

-- lex_pushed_back, and what is left of the file.
pub record PictReader : Type 0 where
  pub pushed_back : Option PictItem
  pub text : List ℕ

-- isNumber for a string that is there.
unfoldable pub all_digits : CStr → Bool
all_digits [] = true
all_digits (c ∷ s) = leb 48 c && (leb c 57 && all_digits s)

unfoldable pub is_numeral : CStr → Bool
unfolding all_digits
is_numeral [] = false
is_numeral (c ∷ s) = if c == b'-' then all_digits s else all_digits (c ∷ s)

unfoldable pub is_space : ℕ → Bool
is_space ch = ch == b' ' || (ch == 9 || (ch == 13 || ch == 10))

-- The characters that end a word.
unfoldable pub ends_word : ℕ → Bool
unfolding is_space
ends_word ch = is_space ch || (ch == b'(' || (ch == b')' || ch == b','))

unfoldable pub text_item : CStr → PictItem
unfolding is_numeral atoi
text_item s = if is_numeral s then lex_int (atoi s) else lex_str s

-- MAX_STR_LEN
abbrev pub max_str_len : ℕ
max_str_len = 256

-- The item of the characters that were stored in lex_str.
unfoldable pub word_item : List ℕ → PictItem
unfolding text_item c_str
word_item word = if ltb max_str_len (length word) then lex_overrun else text_item (c_str word)

unfoldable pub bracket_item : ℕ → PictItem
bracket_item ch =
    if ch == b',' then lex_comma else if ch == b'(' then lex_open_paren else lex_close_paren

-- The loop of lex, with the word so far.
unfoldable pub lex_from : List ℕ → List ℕ → PictItem × List ℕ
unfolding ends_word is_space word_item bracket_item
lex_from [] [] = (lex_eof, [])
lex_from (d ∷ word) [] = (word_item (d ∷ word), [])
lex_from [] (ch ∷ text) =
    let blank = lex_from [] text in
    let other = lex_from (ch ∷ []) text in
    if ends_word ch then (if is_space ch then blank else (bracket_item ch, text)) else other
lex_from (d ∷ word) (ch ∷ text) =
    let other = lex_from (d ∷ (word ++ ch ∷ [])) text in
    if ends_word ch then (word_item (d ∷ word), ch ∷ text) else other

unfoldable pub lex_pushed : Option PictItem → List ℕ → PictItem × PictReader
unfolding lex_from
lex_pushed (some ret) text = (ret, record { pushed_back = none; text = text })
lex_pushed none text =
    let (item, rest) = lex_from [] text in (item, record { pushed_back = none; text = rest })

-- lex and unlex
unfoldable pub image_lex : PictReader → PictItem × PictReader
unfolding lex_pushed
image_lex r = lex_pushed r.pushed_back r.text

unfoldable pub image_unlex : PictItem → PictReader → PictReader
image_unlex lex_item r = record { pushed_back = some lex_item; text = r.text }

-- What a parser ends with; without fuel it is `starved`.
pub data Outcome (A : Type 0) : Type 0 where
  done : A → PictReader → Outcome A
  dead : List ℕ → Outcome A
  overrun : Outcome A
  starved : Outcome A

infixl 5 ◌>>=◌
unfoldable pub ◌>>=◌ : {A B : Type 0} → Outcome A → (A → PictReader → Outcome B) → Outcome B
done a r >>= f = f a r
dead rest >>= f = dead rest
overrun >>= f = overrun
starved >>= f = starved

-- The loop of syntax_error to the end of the line; as `ch` is a char, the byte 255 is EOF for it.
unfoldable pub rest_of_line : List ℕ → List ℕ
rest_of_line [] = []
rest_of_line (ch ∷ text) =
    let rest = rest_of_line text in if ch == 10 || ch == 255 then text else rest

-- syntax_error
unfoldable pub image_syntax_error : {A : Type 0} → PictReader → Outcome A
unfolding rest_of_line
image_syntax_error r = dead (rest_of_line r.text)

-- The integer, the comma and so on that must stand next; anything else is a syntax_error.
unfoldable pub want_int : PictItem × PictReader → Outcome ℤ
unfolding image_syntax_error
want_int (lex_int n, r) = done n r
want_int (lex_overrun, r) = overrun
want_int (lex_item, r) = image_syntax_error r

unfoldable pub want_comma : PictItem × PictReader → Outcome ℕ
unfolding image_syntax_error
want_comma (lex_comma, r) = done 0 r
want_comma (lex_overrun, r) = overrun
want_comma (lex_item, r) = image_syntax_error r

unfoldable pub want_close : PictItem × PictReader → Outcome ℕ
unfolding image_syntax_error
want_close (lex_close_paren, r) = done 0 r
want_close (lex_overrun, r) = overrun
want_close (lex_item, r) = image_syntax_error r

unfoldable pub want_str : PictItem × PictReader → Outcome CStr
unfolding image_syntax_error
want_str (lex_str s, r) = done s r
want_str (lex_overrun, r) = overrun
want_str (lex_item, r) = image_syntax_error r

-- parse_coord behind its first item; `none` is NULL.
unfoldable pub coord_from : PictItem × PictReader → Outcome (Option Coord)
unfolding image_lex want_int want_comma want_close image_unlex ◌>>=◌
coord_from (lex_open_paren, r) = want_int (image_lex r) >>= (λ x r1.
    want_comma (image_lex r1) >>= (λ c r2. want_int (image_lex r2) >>= (λ y r3.
      want_close (image_lex r3) >>= (λ d r4. done (some (record { x = x; y = y })) r4))))
coord_from (lex_overrun, r) = overrun
coord_from (lex_item, r) = done none (image_unlex lex_item r)

unfoldable pub parse_coord : PictReader → Outcome (Option Coord)
unfolding coord_from image_lex
parse_coord r = coord_from (image_lex r)

-- A pair that must be there; for the message the next item is read.
unfoldable pub want_coord : Option Coord → PictReader → Outcome Coord
unfolding image_lex image_syntax_error
want_coord none r = image_syntax_error (image_lex r).1
want_coord (some c) r = done c r

unfoldable pub parse_rectangle : PictReader → Outcome Mapping
unfolding parse_coord want_coord want_str image_lex ◌>>=◌
parse_rectangle r = parse_coord r >>= want_coord >>= (λ corner1 r1.
    parse_coord r1 >>= want_coord >>= (λ corner2 r2.
      want_str (image_lex r2)
      >>= (λ url r3. done (record { url = url; shape = rect corner1 corner2 }) r3)))

unfoldable pub parse_circle : PictReader → Outcome Mapping
unfolding parse_coord want_coord want_int want_str image_lex ◌>>=◌
parse_circle r = parse_coord r >>= want_coord >>= (λ center r1.
    want_int (image_lex r1) >>= (λ radius r2.
      want_str (image_lex r2)
      >>= (λ url r3. done (record { url = url; shape = circ center radius }) r3)))

unfoldable pub eq_ℤ : ℤ → ℤ → Bool
eq_ℤ (pos a) (pos b) = a == b
eq_ℤ (pos a) (negsuc b) = false
eq_ℤ (negsuc a) (pos b) = false
eq_ℤ (negsuc a) (negsuc b) = a == b

unfoldable pub same_coord : Coord → Coord → Bool
unfolding eq_ℤ
same_coord a b = eq_ℤ a.x b.x && eq_ℤ a.y b.y

-- One more pair, unless it is the previous one again.
unfoldable pub add_coord : Coord → List Coord → List Coord
unfolding same_coord
add_coord c [] = c ∷ []
add_coord c (prev ∷ coords) = if same_coord c prev then prev ∷ coords else c ∷ prev ∷ coords
