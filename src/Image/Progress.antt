-- ===== src/Image/Progress.antt =====
-- What the lexer of HTImage.c leaves to read, and parsers that do not starve.
use cern_httpd.Base.{
  ℕ, ◌+◌, ◌≤◌, ◌<◌, ◌≡◌, refl, Option, none, some, List, [], ◌∷◌, ◌++◌, length, arith, Bool-cases,
  ◌⊎◌, inl, inr,
}
use cern_httpd.Str.{CStr}
use cern_httpd.Image.{
  PictReader, PictItem, lex_eof, lex_comma, lex_open_paren, lex_close_paren, lex_str, lex_int,
  is_space, ends_word, lex_from, lex_pushed, image_lex, Outcome, done, dead, ◌>>=◌, want_int,
  want_comma, want_close, want_str, lex_overrun, overrun, image_syntax_error,
}

-- What is left to read: the bytes, and an item that was pushed back.
abbrev pub pushed_size : Option PictItem → ℕ
pushed_size none = 0
pushed_size (some item) = 1

abbrev pub size : PictReader → ℕ
size r = pushed_size r.pushed_back + length r.text

lex_from-le : (word : CStr) (text : List ℕ) → length (lex_from word text).1 ≤ length text
unfolding lex_from
lex_from-le [] [] = omega arith
lex_from-le (d ∷ word) [] = omega arith
lex_from-le [] (ch ∷ text) = elim (Bool-cases (ends_word ch)) [
  | inl e ↦ elim (Bool-cases (is_space ch)) [
    | inl b ↦ rw (e, b) (omega (arith, lex_from-le [] text))
    | inr b ↦ rw (e, b) (omega arith)
  ]
  | inr e ↦ rw e (omega (arith, lex_from-le (ch ∷ []) text))
]
lex_from-le (d ∷ word) (ch ∷ text) = elim (Bool-cases (ends_word ch)) [
  | inl e ↦ rw e (omega arith)
  | inr e ↦ rw e (omega (arith, lex_from-le (d ∷ (word ++ ch ∷ [])) text))
]

-- An item but the end of the file takes a byte.
lex_from-lt :
    (text : List ℕ) → ((lex_from [] text).0 ≡ lex_eof) ⊎ (length (lex_from [] text).1 < length text)
unfolding lex_from
lex_from-lt [] = inl refl
lex_from-lt (ch ∷ text) = elim (Bool-cases (ends_word ch)) [
  | inl e ↦ elim (Bool-cases (is_space ch)) [
    | inl b ↦ rw (e, b) (elim (lex_from-lt text) [ inl h ↦ inl h | inr h ↦ inr (omega arith) ])
    | inr b ↦ rw (e, b) (inr (omega arith))
  ]
  | inr e ↦ rw e (inr (omega (arith, lex_from-le (ch ∷ []) text)))
]

pub image_lex-le : (r : PictReader) → size (image_lex r).1 ≤ size r
unfolding image_lex
image_lex-le r = by_pushed r.pushed_back r.text
  where
    by_pushed :
        (p : Option PictItem) (text : List ℕ)
        → size (lex_pushed p text).1 ≤ pushed_size p + length text
    by_pushed none text = unfold lex_pushed in omega (arith, lex_from-le [] text)
    by_pushed (some item) text = unfold lex_pushed in omega arith

pub image_lex-lt : (r : PictReader) → ((image_lex r).0 ≡ lex_eof) ⊎ (size (image_lex r).1 < size r)
unfolding image_lex
image_lex-lt r = by_pushed r.pushed_back r.text
  where
    by_pushed :
        (p : Option PictItem) (text : List ℕ)
        → ((lex_pushed p text).0 ≡ lex_eof)
          ⊎ (size (lex_pushed p text).1 < pushed_size p + length text)
    by_pushed none text =
        unfold lex_pushed in elim (lex_from-lt text) [ inl h ↦ inl h | inr h ↦ inr (omega arith) ]
    by_pushed (some item) text = unfold lex_pushed in inr (omega arith)

-- A parser that has not starved, and what holds behind it.
pub data Ends {A : Type 0} (P : A → PictReader → Type 0) : Outcome A → Type 0 where
  ends_done : (a : A) (r : PictReader) → P a r → Ends P (done a r)
  ends_dead : (rest : List ℕ) → Ends P (dead rest)
  ends_overrun : Ends P overrun

pub Ends-bind :
    {A B : Type 0} (P : A → PictReader → Type 0) (Q : B → PictReader → Type 0) (o : Outcome A)
    (f : A → PictReader → Outcome B)
    → Ends P o
    → ((a : A) (r : PictReader) → P a r → Ends Q (f a r))
    → Ends Q (o >>= f)
unfolding ◌>>=◌
Ends-bind P Q _ f (ends_done a r h) k = k a r h
Ends-bind P Q _ f (ends_dead rest) k = ends_dead rest
Ends-bind P Q _ f ends_overrun k = ends_overrun

-- The reader has at most so much left.
abbrev pub AtMost : {A : Type 0} → ℕ → A → PictReader → Type 0
AtMost n a r = size r ≤ n

pub want_int-Ends :
    (n : ℕ) (t : PictItem × PictReader) → size t.1 ≤ n → Ends (AtMost n) (want_int t)
unfolding want_int image_syntax_error
want_int-Ends n (lex_overrun, r) h = ends_overrun
want_int-Ends n (lex_int x, r) h = ends_done x r h
want_int-Ends n (lex_eof, r) h = ends_dead _
want_int-Ends n (lex_comma, r) h = ends_dead _
want_int-Ends n (lex_open_paren, r) h = ends_dead _
want_int-Ends n (lex_close_paren, r) h = ends_dead _
want_int-Ends n (lex_str s, r) h = ends_dead _

pub want_comma-Ends :
    (n : ℕ) (t : PictItem × PictReader) → size t.1 ≤ n → Ends (AtMost n) (want_comma t)
unfolding want_comma image_syntax_error
want_comma-Ends n (lex_overrun, r) h = ends_overrun
want_comma-Ends n (lex_comma, r) h = ends_done 0 r h
want_comma-Ends n (lex_eof, r) h = ends_dead _
want_comma-Ends n (lex_int x, r) h = ends_dead _
want_comma-Ends n (lex_open_paren, r) h = ends_dead _
want_comma-Ends n (lex_close_paren, r) h = ends_dead _
want_comma-Ends n (lex_str s, r) h = ends_dead _

pub want_close-Ends :
    (n : ℕ) (t : PictItem × PictReader) → size t.1 ≤ n → Ends (AtMost n) (want_close t)
unfolding want_close image_syntax_error
want_close-Ends n (lex_overrun, r) h = ends_overrun
want_close-Ends n (lex_close_paren, r) h = ends_done 0 r h
want_close-Ends n (lex_eof, r) h = ends_dead _
want_close-Ends n (lex_int x, r) h = ends_dead _
want_close-Ends n (lex_open_paren, r) h = ends_dead _
want_close-Ends n (lex_comma, r) h = ends_dead _
want_close-Ends n (lex_str s, r) h = ends_dead _

pub want_str-Ends :
    (n : ℕ) (t : PictItem × PictReader) → size t.1 ≤ n → Ends (AtMost n) (want_str t)
unfolding want_str image_syntax_error
want_str-Ends n (lex_overrun, r) h = ends_overrun
want_str-Ends n (lex_str s, r) h = ends_done s r h
want_str-Ends n (lex_eof, r) h = ends_dead _
want_str-Ends n (lex_int x, r) h = ends_dead _
want_str-Ends n (lex_open_paren, r) h = ends_dead _
want_str-Ends n (lex_comma, r) h = ends_dead _
want_str-Ends n (lex_close_paren, r) h = ends_dead _
