-- ===== src/Lex.antt =====
-- Daemon/Implementation/HTLex.c: the lexer of group files, access lists and protection files.
-- A file is its number, and the bytes that are left to read of it.
pub mod Words
pub mod Progress
mod Tests
use cern_httpd.Str.{CStr}
use cern_httpd.Base.{
  codes, ℕ, zero, suc, ◌+◌, Bool, true, false, ◌||◌, Option, none, some, List, [], ◌∷◌, ◌++◌, leb,
  ◌==◌, if◌then◌else◌, length,
}

pub data LexItem : Type 0 where
  lex_none : LexItem
  lex_eof : LexItem
  lex_rec_sep : LexItem
  lex_field_sep : LexItem
  lex_item_sep : LexItem
  lex_open_paren : LexItem
  lex_close_paren : LexItem
  lex_at_sign : LexItem
  lex_alph_str : LexItem
  lex_tmpl_str : LexItem
  lex_close_brace : LexItem

-- The size of lex_buffer.
abbrev pub lex_size : ℕ
lex_size = 256

-- `overrun` says that a byte was written behind the end of lex_buffer. `cache` is the file of the
-- last call, `none` before the first.
pub record LexState : Type 0 where
  pub lex_buffer : List ℕ
  pub lex_line : ℕ
  pub pushed_back : LexItem
  pub cache : Option ℕ
  pub overrun : Bool

unfoldable pub initial : LexState
initial = record {
  lex_buffer = [];
  lex_line = 1;
  pushed_back = lex_none;
  cache = none;
  overrun = false;
}

unfoldable pub unlex : LexItem → LexState → LexState
unlex lex_item st = record st { pushed_back = lex_item }

-- `if (fp != cache)`
unfoldable pub select_file : ℕ → Option ℕ → LexState → LexState
select_file fp none st = record st { cache = some fp; lex_line = 1 }
select_file fp (some opened) st =
    if fp == opened then st else record st { cache = some fp; lex_line = 1 }

-- The characters that end a string.
unfoldable pub is_delimiter : ℕ → Bool
is_delimiter ch =
    ch == b' '
    || ch == 9
    || ch == 13
    || ch == 10
    || ch == b':'
    || ch == b','
    || ch == b'('
    || ch == b')'
    || ch == b'@'
    || ch == b'}'

-- The item of a delimiter, lex_none for white space.
unfoldable pub separator : ℕ → LexItem
separator ch =
    if ch == 10
    then lex_rec_sep
    else if ch == b':'
    then lex_field_sep
    else if ch == b','
    then lex_item_sep
    else if ch == b'('
    then lex_open_paren
    else if ch == b')'
    then lex_close_paren
    else if ch == b'@'
    then lex_at_sign
    else if ch == b'}'
    then lex_close_brace
    else lex_none

unfoldable pub string_item : Bool → LexItem
string_item true = lex_tmpl_str
string_item false = lex_alph_str

-- `lex_buffer[lex_cnt++] = ch; lex_buffer[lex_cnt] = 0;`
unfoldable pub store : List ℕ → ℕ → LexState → LexState
store word ch st = record st {
  lex_buffer = word ++ ch ∷ [];
  overrun = st.overrun || leb lex_size (suc (length word));
}

abbrev pub LexResult : Type 0
LexResult = LexItem × LexState × List ℕ

-- At the end of the file.
unfoldable pub at_end : List ℕ → Bool → LexState → LexResult
unfolding string_item
at_end [] lex_template st = (lex_eof, st, [])
at_end (c ∷ word) lex_template st = (string_item lex_template, st, [])

-- A separator where no string has begun; `further` is what the loop does behind white space.
unfoldable pub at_separator : LexItem → LexState → List ℕ → LexResult → LexResult
at_separator lex_none st text further = further
at_separator lex_rec_sep st text further =
    (lex_rec_sep, record st { lex_line = st.lex_line + 1 }, text)
at_separator item st text further = (item, st, text)

-- A delimiter, which is put back where a string has begun.
unfoldable pub at_delimiter : List ℕ → Bool → LexState → ℕ → List ℕ → LexResult → LexResult
unfolding string_item at_separator separator
at_delimiter [] lex_template st ch text further = at_separator (separator ch) st text further
at_delimiter (c ∷ word) lex_template st ch text further = (string_item lex_template, st, ch ∷ text)

-- The loop of lex, with the string so far and whether it has a star.
unfoldable pub lex_loop : List ℕ → Bool → LexState → List ℕ → LexResult
unfolding at_end at_delimiter is_delimiter store
lex_loop word lex_template st [] = at_end word lex_template st
lex_loop word lex_template st (ch ∷ text) =
    let further = lex_loop word lex_template st text in
    let stored = lex_loop (word ++ ch ∷ []) (lex_template || ch == b'*') (store word ch st) text in
    if is_delimiter ch then at_delimiter word lex_template st ch text further else stored

-- An item that was pushed back, or the next one of the file.
unfoldable pub take_pushed : LexItem → LexState → List ℕ → LexResult
unfolding lex_loop
take_pushed lex_none st text = lex_loop [] false st text
take_pushed item st text = (item, record st { pushed_back = lex_none }, text)

unfoldable pub lex : ℕ → LexState → List ℕ → LexResult
unfolding select_file take_pushed
lex fp st text = let st' = select_file fp st.cache st in take_pushed st'.pushed_back st' text

-- lex_verbose: the name of an item, with the string in lex_buffer for one that has a string.
unfoldable pub lex_verbose : LexItem → LexState → CStr
lex_verbose lex_none st = codes "NO-LEX-ITEM"
lex_verbose lex_eof st = codes "end-of-file"
lex_verbose lex_rec_sep st = codes "record separator (newline)"
lex_verbose lex_field_sep st = codes "field separator ':'"
lex_verbose lex_item_sep st = codes "item separator ','"
lex_verbose lex_open_paren st = codes "'('"
lex_verbose lex_close_paren st = codes "')'"
lex_verbose lex_close_brace st = codes "'}'"
lex_verbose lex_at_sign st = codes "address qualifier '@'"
lex_verbose lex_alph_str st = codes "alphanumeric string '" ++ (st.lex_buffer ++ b'\'' ∷ [])
lex_verbose lex_tmpl_str st = codes "template string '" ++ (st.lex_buffer ++ b'\'' ∷ [])
