-- ===== src/Lex/Progress.antt =====
-- What lex takes from a file of HTLex.c.
use cern_httpd.Base.{
  zero, ℕ, suc, ◌+◌, ◌≤◌, ◌≡◌, refl, arith, Bool, false, Bool-cases, inl, inr, Option, none, some,
  List, [], ◌∷◌, ◌++◌, length, length-append, ◌||◌, ◌==◌, ap, ◌⊎◌,
}
use cern_httpd.Lex.{
  LexItem, LexState, LexResult, lex, lex_none, lex_eof, select_file, at_end, at_separator,
  at_delimiter, lex_loop, take_pushed, string_item, separator, is_delimiter, store,
}

-- An item that is pushed back counts as one.
unfoldable pub item_size : LexItem → ℕ
item_size lex_none = 0
item_size lex_eof = 0
item_size _ = 1

-- Every item but the end of the file stands for a byte of it at least.
unfoldable pub taken : LexItem → ℕ
taken lex_eof = 0
taken _ = 1

-- Nothing is pushed back, and the item and what is left to read are within the size.
abbrev pub Within : ℕ → LexResult → Type 0
Within n (it, st, text) = (st.pushed_back ≡ lex_none) × (taken it + length text ≤ n)

Within-mono : (n m : ℕ) (res : LexResult) → n ≤ m → Within n res → Within m res
Within-mono n m (it, st, text) h (e, le) = (e, omega arith)

taken-le : (it : LexItem) → taken it ≤ 1
unfolding taken
taken-le lex_eof = omega arith
taken-le _ = omega arith

pub item_size-taken : (it : LexItem) → item_size it ≤ taken it
unfolding item_size taken
item_size-taken lex_none = omega arith
item_size-taken lex_eof = omega arith
item_size-taken _ = omega arith

at_end-Within :
    (word : List ℕ) (found : Bool) (st : LexState)
    → st.pushed_back ≡ lex_none
    → Within (length word) (at_end word found st)
unfolding at_end taken
at_end-Within [] found st e = (e, omega arith)
at_end-Within (c ∷ word) found st e = (e, omega (arith, taken-le (string_item found)))

at_separator-Within :
    (it : LexItem) (st : LexState) (text : List ℕ) (further : LexResult)
    → st.pushed_back ≡ lex_none
    → Within (length text) further
    → Within (suc (length text)) (at_separator it st text further)
unfolding at_separator taken
at_separator-Within lex_none st text further e h =
    Within-mono (length text) (suc (length text)) further (omega arith) h
at_separator-Within lex_eof st text further e h = (e, omega arith)
at_separator-Within _ st text further e h = (e, omega arith)

at_delimiter-Within :
    (word : List ℕ) (found : Bool) (st : LexState) (ch : ℕ) (text : List ℕ) (further : LexResult)
    → st.pushed_back ≡ lex_none
    → Within (length word + length text) further
    → Within (length word + suc (length text)) (at_delimiter word found st ch text further)
unfolding at_delimiter
at_delimiter-Within [] found st ch text further e h =
    Within-mono (suc (length text)) (0 + suc (length text))
      (at_separator (separator ch) st text further) (omega arith)
      (at_separator-Within (separator ch) st text further e
        (Within-mono (0 + length text) (length text) further (omega arith) h))
at_delimiter-Within (c ∷ word) found st ch text further e h =
    (e, omega (arith, taken-le (string_item found)))

lex_loop-Within :
    (word : List ℕ) (found : Bool) (st : LexState) (text : List ℕ)
    → st.pushed_back ≡ lex_none
    → Within (length word + length text) (lex_loop word found st text)
unfolding lex_loop store
lex_loop-Within word found st [] e =
    Within-mono (length word) (length word + 0) (at_end word found st) (omega arith)
      (at_end-Within word found st e)
lex_loop-Within word found st (ch ∷ text) e = elim (Bool-cases (is_delimiter ch)) [
  | inl h ↦ rw h (
      at_delimiter-Within word found st ch text (lex_loop word found st text) e
        (lex_loop-Within word found st text e))
  | inr h ↦ rw h (
      Within-mono (length (word ++ ch ∷ []) + length text) (length word + suc (length text))
        (lex_loop (word ++ ch ∷ []) (found || ch == b'*') (store word ch st) text)
        (omega (arith, length-append word (ch ∷ [])))
        (lex_loop-Within (word ++ ch ∷ []) (found || ch == b'*') (store word ch st) text e))
]

take_pushed-Within :
    (it : LexItem) (st : LexState) (text : List ℕ)
    → st.pushed_back ≡ it
    → Within (item_size it + length text) (take_pushed it st text)
unfolding take_pushed item_size taken
take_pushed-Within lex_none st text e = lex_loop-Within [] false st text e
take_pushed-Within lex_eof st text e = (refl, omega arith)
take_pushed-Within _ st text e = (refl, omega arith)

pub select_file-pushed :
    (fp : ℕ) (cache : Option ℕ) (st : LexState)
    → (select_file fp cache st).pushed_back ≡ st.pushed_back
unfolding select_file
select_file-pushed fp none st = refl
select_file-pushed fp (some opened) st = elim (Bool-cases (fp == opened)) [
  | inl e ↦ rw e refl
  | inr e ↦ rw e refl
]

-- lex takes the pushed item, or a byte of the file for each item but the end of the file.
pub lex-Within :
    (fp : ℕ) (st : LexState) (text : List ℕ)
    → Within (item_size st.pushed_back + length text) (lex fp st text)
unfolding lex
lex-Within fp st text =
    let st' = select_file fp st.cache st in
    Within-mono (item_size st'.pushed_back + length text) (item_size st.pushed_back + length text)
      (take_pushed st'.pushed_back st' text)
      (omega (arith, ap item_size (select_file-pushed fp st.cache st)))
      (take_pushed-Within st'.pushed_back st' text refl)

-- The item that the call number `n` of lex returns, counted from zero.
unfoldable pub item_of_call : ℕ → ℕ → LexState → List ℕ → LexItem
unfolding lex
item_of_call zero fp st text = (lex fp st text).0
item_of_call (suc n) fp st text = item_of_call n fp (lex fp st text).1 (lex fp st text).2

abbrev EofWithin : ℕ → ℕ → LexState → List ℕ → Type 0
EofWithin bound fp st text = (n : ℕ) × (n ≤ bound) × (item_of_call n fp st text ≡ lex_eof)

pub is_end : (it : LexItem) → (it ≡ lex_eof) ⊎ (taken it ≡ 1)
unfolding taken
is_end lex_eof = inl refl
is_end _ = inr refl

next_call :
    (bound fp : ℕ) (st : LexState) (text : List ℕ)
    → EofWithin bound fp (lex fp st text).1 (lex fp st text).2
    → EofWithin (suc bound) fp st text
unfolding item_of_call
next_call bound fp st text (n, le, e) = (suc n, omega arith, e)

first_call :
    (bound fp : ℕ) (st : LexState) (text : List ℕ)
    → (lex fp st text).0 ≡ lex_eof
    → EofWithin bound fp st text
unfolding item_of_call
first_call bound fp st text e = (0, omega arith, e)

lex-reaches_bound :
    (bound fp : ℕ) (st : LexState) (text : List ℕ)
    → item_size st.pushed_back + length text ≤ bound
    → EofWithin bound fp st text
unfolding item_size
lex-reaches_bound zero fp st text le =
    let within = lex-Within fp st text in
    elim (is_end (lex fp st text).0) [
      | inl e ↦ first_call 0 fp st text e
      | inr e ↦ absurd (omega (arith, within.1))
    ]
lex-reaches_bound (suc bound) fp st text le =
    let within = lex-Within fp st text in
    elim (is_end (lex fp st text).0) [
      | inl e ↦ first_call (suc bound) fp st text e
      | inr e ↦ next_call bound fp st text (
          lex-reaches_bound bound fp (lex fp st text).1 (lex fp st text).2
            (omega (arith, within.1, ap item_size within.0)))
    ]

-- A reader that calls lex again and again comes to the end of the file, whatever the bytes and the
-- item that is pushed back: after at most as many items as there are bytes, and the pushed one.
pub lex-reaches_eof :
    (fp : ℕ) (st : LexState) (text : List ℕ)
    → (n : ℕ) × (n ≤ item_size st.pushed_back + length text) × (item_of_call n fp st text ≡ lex_eof)
lex-reaches_eof fp st text =
    lex-reaches_bound (item_size st.pushed_back + length text) fp st text (omega arith)
