-- ===== src/AaFile.antt =====
-- Daemon/Implementation/HTAAFile.c: the records and fields of the files of access authorization.
-- A character that getc returns is `none` at the end of the file.
pub mod Left
pub mod Plain
use cern_httpd.Base.{
  ℕ, zero, suc, ◌+◌, Bool, true, false, ◌||◌, ◌&&◌, not, Option, none, some, List, [], ◌∷◌, ◌++◌,
  ◌==◌, map, get_or, if◌then◌else◌, length, codes, is_some,
}
use cern_httpd.Str.{CStr, strcasecomp, is_zero, strrchr, to_upper, streq, before}
use cern_httpd.Parse.Escape.{c_str}
use cern_httpd.AaUtil.{template_match}
use cern_httpd.Group.{GroupDef}
use cern_httpd.Group.Parse.{Reader, Parsed, Parser, parsed, rejected, starved, and_parse, starve}
use cern_httpd.Group.Parse.File.{parse_group_def}

unfoldable pub is_eol : ℕ → Bool
is_eol ch = ch == 13 || ch == 10

unfoldable pub is_blank : ℕ → Bool
is_blank ch = ch == b' ' || ch == 9

-- HTAAFile_nextRec: `ended` between the end of a line and the next character, `last` the last
-- character that is not blank. The first character of a continuation line is read twice by the
-- code, which gives the same `last`.
unfoldable pub rec_loop : Bool → ℕ → List ℕ → List ℕ
unfolding is_eol is_blank
rec_loop ended last [] = []
rec_loop ended last (ch ∷ text) =
    let eol = rec_loop true last text in
    let blank = rec_loop false last text in
    let other = rec_loop false ch text in
    if is_eol ch
    then eol
    else if ended && not (last == b',')
    then ch ∷ text
    else if is_blank ch
    then blank
    else other

unfoldable pub next_rec : List ℕ → List ℕ
unfolding rec_loop
next_rec text = rec_loop false 0 text

unfoldable pub skip_space_tab : List ℕ → List ℕ
unfolding is_blank
skip_space_tab [] = []
skip_space_tab (ch ∷ text) =
    let rest = skip_space_tab text in if is_blank ch then rest else ch ∷ text

-- The characters that end an item.
unfoldable pub ends_item : Bool → ℕ → Bool
unfolding is_eol
ends_item reading_list ch = ch == b':' || (reading_list && ch == b',') || is_eol ch

-- The first loop of read_item: at most so many characters, and what is left to read.
unfoldable pub collect : Bool → ℕ → List ℕ → List ℕ → List ℕ × List ℕ
unfolding ends_item
collect reading_list zero word text = (word, text)
collect reading_list (suc n) word [] = (word, [])
collect reading_list (suc n) word (ch ∷ text) =
    let more = collect reading_list n (word ++ ch ∷ []) text in
    if ends_item reading_list ch then (word, ch ∷ text) else more

-- The rest of an item that is too long.
unfoldable pub skip_item : Bool → List ℕ → List ℕ
unfolding ends_item
skip_item reading_list [] = []
skip_item reading_list (ch ∷ text) =
    let rest = skip_item reading_list text in if ends_item reading_list ch then ch ∷ text else rest

-- The blanks at the end are left out.
unfoldable pub trimmed : List ℕ → List ℕ
unfolding is_blank
trimmed [] = []
trimmed (ch ∷ word) = elim (trimmed word) [
  | [] ↦ if is_blank ch then [] else ch ∷ []
  | d ∷ w ↦ ch ∷ d ∷ w
]

-- The terminating character; the end of a line is put back.
unfoldable pub terminator : List ℕ → Option ℕ × List ℕ
unfolding is_eol
terminator [] = (none, [])
terminator (ch ∷ text) = (some ch, if is_eol ch then ch ∷ text else text)

-- read_item: the terminating character, the contents, and what is left to read.
unfoldable pub read_item : Bool → ℕ → List ℕ → Option ℕ × CStr × List ℕ
unfolding skip_space_tab collect skip_item trimmed terminator c_str
read_item reading_list max_len text =
    let (word, rest) = collect reading_list max_len [] (skip_space_tab text) in
    let rest' = if length word == max_len then skip_item reading_list rest else rest in
    let (ch, rest'') = terminator rest' in (ch, c_str (trimmed word), rest'')

-- HTAAFile_readField
unfoldable pub read_field : ℕ → List ℕ → Option ℕ × CStr × List ℕ
unfolding read_item
read_field max_len text = read_item false max_len text

-- `if ((int)strlen(item) > 0)`
unfoldable pub add_item : CStr → List CStr → List CStr
add_item [] result = result
add_item (c ∷ item) result = (c ∷ item) ∷ result

unfoldable pub is_list_separator : Option ℕ → Bool
is_list_separator none = false
is_list_separator (some ch) = ch == b','

-- The loop of HTAAFile_readList; it goes on behind a comma, which is the only terminating character
-- that is not in its condition. It runs on fuel, one more than the bytes left.
unfoldable pub list_from : ℕ → ℕ → List CStr → List ℕ → Option (List CStr × List ℕ)
unfolding read_item add_item is_list_separator
list_from zero max_len result text = none
list_from (suc fuel) max_len result text =
    let (ch, item, rest) = read_item true max_len text in
    let more = list_from fuel max_len (add_item item result) rest in
    if is_list_separator ch then more else some (add_item item result, rest)

-- HTAAFile_readList, with the item that was added last first.
unfoldable pub read_list : ℕ → List ℕ → Option (List CStr × List ℕ)
unfolding list_from
read_list max_len text = list_from (suc (length text)) max_len [] text
