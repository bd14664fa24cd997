-- ===== src/AaFile/Left.antt =====
-- What the functions of HTAAFile.c leave to read of a file.
use cern_httpd.Base.{
  ℕ, zero, suc, ◌≤◌, ◌<◌, ◌≡◌, refl, arith, Bool, true, false, ◌&&◌, not, Option, none, some, List,
  [], ◌∷◌, ◌++◌, ◌==◌, length, if◌then◌else◌, Bool-cases, inl, inr,
}
use cern_httpd.Str.{CStr}
use cern_httpd.AaFile.{
  is_eol, is_blank, rec_loop, next_rec, skip_space_tab, ends_item, collect, skip_item, terminator,
  read_item, read_list, list_from, add_item, is_list_separator,
}

if-le :
    (n : ℕ) (b : Bool) (x y : List ℕ)
    → length x ≤ n
    → length y ≤ n
    → length (if b then x else y) ≤ n
if-le n true x y h k = h
if-le n false x y h k = k

rec_loop-le :
    (ended : Bool) (last : ℕ) (text : List ℕ) → length (rec_loop ended last text) ≤ length text
unfolding rec_loop
rec_loop-le ended last [] = omega arith
rec_loop-le ended last (ch ∷ text) =
    if-le _ (is_eol ch) _ _ (omega (arith, rec_loop-le true last text)) (
      if-le _ (ended && not (last == b',')) _ _ (omega arith) (
        if-le _ (is_blank ch) _ _ (omega (arith, rec_loop-le false last text))
          (omega (arith, rec_loop-le false ch text))))

-- HTAAFile_nextRec takes a character at least.
pub next_rec-lt : (ch : ℕ) (text : List ℕ) → length (next_rec (ch ∷ text)) ≤ length text
unfolding next_rec rec_loop
next_rec-lt ch text =
    if-le _ (is_eol ch) _ _ (rec_loop-le true 0 text)
      (if-le _ (is_blank ch) _ _ (rec_loop-le false 0 text) (rec_loop-le false ch text))

skip_space_tab-le : (text : List ℕ) → length (skip_space_tab text) ≤ length text
unfolding skip_space_tab
skip_space_tab-le [] = omega arith
skip_space_tab-le (ch ∷ text) =
    if-le _ (is_blank ch) _ _ (omega (arith, skip_space_tab-le text)) (omega arith)

collect-le :
    (reading_list : Bool) (n : ℕ) (word text : List ℕ)
    → length (collect reading_list n word text).1 ≤ length text
unfolding collect
collect-le reading_list zero word text = omega arith
collect-le reading_list (suc n) word [] = omega arith
collect-le reading_list (suc n) word (ch ∷ text) = elim (Bool-cases (ends_item reading_list ch)) [
  | inl e ↦ rw e (omega arith)
  | inr e ↦ rw e (omega (arith, collect-le reading_list n (word ++ ch ∷ []) text))
]

skip_item-le :
    (reading_list : Bool) (text : List ℕ) → length (skip_item reading_list text) ≤ length text
unfolding skip_item
skip_item-le reading_list [] = omega arith
skip_item-le reading_list (ch ∷ text) =
    if-le _ (ends_item reading_list ch) _ _ (omega arith)
      (omega (arith, skip_item-le reading_list text))

terminator-le : (text : List ℕ) → length (terminator text).1 ≤ length text
unfolding terminator
terminator-le [] = omega arith
terminator-le (ch ∷ text) = if-le _ (is_eol ch) _ _ (omega arith) (omega arith)

not_eol : (ch : ℕ) → (ch == b',') ≡ true → is_eol ch ≡ false
unfolding is_eol
not_eol ch h = ground arith

-- A comma is taken.
terminator-comma :
    (text : List ℕ)
    → is_list_separator (terminator text).0 ≡ true
    → length (terminator text).1 < length text
unfolding terminator is_list_separator is_eol
terminator-comma [] h = cc
terminator-comma (ch ∷ text) h = rw (not_eol ch h) (omega arith)

-- What read_item ends with.
abbrev pub last_part : Bool → ℕ → List ℕ → List ℕ
last_part reading_list max_len text =
    let word_rest = collect reading_list max_len [] (skip_space_tab text) in
    if length word_rest.0 == max_len then skip_item reading_list word_rest.1 else word_rest.1

pub last_part-le :
    (reading_list : Bool) (max_len : ℕ) (text : List ℕ)
    → length (last_part reading_list max_len text) ≤ length text
last_part-le reading_list max_len text =
    let word_rest = collect reading_list max_len [] (skip_space_tab text) in
    let le = collect-le reading_list max_len [] (skip_space_tab text) in
    let blanks = skip_space_tab-le text in
    if-le _ (length word_rest.0 == max_len) _ _
      (omega (arith, skip_item-le reading_list word_rest.1)) (omega arith)

pub read_item-le :
    (reading_list : Bool) (max_len : ℕ) (text : List ℕ)
    → length (read_item reading_list max_len text).2 ≤ length text
unfolding read_item
read_item-le reading_list max_len text = omega (
  arith,
  terminator-le (last_part reading_list max_len text),
  last_part-le reading_list max_len text,
)

read_item-comma :
    (max_len : ℕ) (text : List ℕ)
    → is_list_separator (read_item true max_len text).0 ≡ true
    → length (read_item true max_len text).2 < length text
unfolding read_item
read_item-comma max_len text h =
    omega (arith, terminator-comma (last_part true max_len text) h, last_part-le true max_len text)

abbrev Listed : List ℕ → Option (List CStr × List ℕ) → Type 0
Listed text out =
    (items : List CStr) × (rest : List ℕ) × (out ≡ some (items, rest)) × (length rest ≤ length text)

list_from-Listed :
    (fuel max_len : ℕ) (result : List CStr) (text : List ℕ)
    → length text < fuel
    → Listed text (list_from fuel max_len result text)
unfolding list_from
list_from-Listed zero max_len result text lt = absurd (omega arith)
list_from-Listed (suc fuel) max_len result text lt =
    let read = read_item true max_len text in
    elim (Bool-cases (is_list_separator read.0)) [
      | inl e ↦
          let (items, rest, eq, le) =
            list_from-Listed fuel max_len (add_item read.1 result) read.2
              (omega (arith, read_item-comma max_len text e)) in
          rw e (items, rest, eq, omega (arith, read_item-comma max_len text e))
      | inr e ↦ rw e (add_item read.1 result, read.2, refl, read_item-le true max_len text)
    ]

-- HTAAFile_readList comes to an end.
pub read_list-Listed : (max_len : ℕ) (text : List ℕ) → Listed text (read_list max_len text)
unfolding read_list
read_list-Listed max_len text = list_from-Listed (suc (length text)) max_len [] text (omega arith)

terminator-none : (text : List ℕ) → length text ≤ 0 → (terminator text).0 ≡ none
unfolding terminator
terminator-none [] h = refl
terminator-none (ch ∷ text) h = absurd (omega arith)

-- At the end of the file.
pub read_item-empty :
    (reading_list : Bool) (max_len : ℕ) → (read_item reading_list max_len []).0 ≡ none
unfolding read_item
read_item-empty reading_list max_len =
    terminator-none (last_part reading_list max_len [])
      (omega (arith, last_part-le reading_list max_len []))
