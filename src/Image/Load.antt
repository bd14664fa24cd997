-- ===== src/Image/Load.antt =====
-- parse_picture of HTImage.c on the lines of a picture's configuration.
use cern_httpd.Base.{
  ℕ, zero, suc, ◌≤◌, ◌<◌, ◌≡◌, refl, sym, ap, ◌∙◌, none, List, [], ◌∷◌, ◌++◌, All, append-nil,
  length, arith, codes,
}
use cern_httpd.Str.{CStr}
use cern_httpd.Image.{
  Mapping, Pict, PictReader, lex_str, lex_eof, image_lex, Outcome, done, ends_word, is_space,
  is_numeral, ◌>>=◌,
}
use cern_httpd.Image.Picture.{parse_field, picture_item, picture_loop, rev_list, parse_picture}
use cern_httpd.Image.Words.{IsName, from_text, image_lex-name, image_lex-space}
use cern_httpd.Image.Lines.{
  length-pair_before, length-word_before, length-pairs_before, Line, default_line, rectangle_line,
  circle_line, polygon_line, pair_before, word_before, line_before, lines_text, IsLine, areas,
  default_of, with_line, name_of, fields_of,
}
use cern_httpd.Image.Steps.{parse_field-line}

IsName-default : IsName (codes "default")
unfolding ends_word is_numeral
IsName-default = ground arith

IsName-rectangle : IsName (codes "rectangle")
unfolding ends_word is_numeral
IsName-rectangle = ground arith

IsName-circle : IsName (codes "circle")
unfolding ends_word is_numeral
IsName-circle = ground arith

IsName-polygon : IsName (codes "polygon")
unfolding ends_word is_numeral
IsName-polygon = ground arith

image_lex-line :
    (l : Line) (rest : List ℕ)
    → image_lex (from_text (line_before l rest))
      ≡ (lex_str (name_of l), from_text (fields_of l rest))
unfolding ends_word
image_lex-line (default_line url) rest = image_lex-name (codes "default") b' ' _ IsName-default refl
image_lex-line (rectangle_line p q url) rest =
    image_lex-name (codes "rectangle") b' ' _ IsName-rectangle refl
image_lex-line (circle_line p radius url) rest =
    image_lex-name (codes "circle") b' ' _ IsName-circle refl
image_lex-line (polygon_line [] url) rest =
    image_lex-name (codes "polygon") b' ' _ IsName-polygon refl
image_lex-line (polygon_line (p ∷ ps) url) rest =
    image_lex-name (codes "polygon") b' ' _ IsName-polygon refl

abbrev with_lines : Pict → List Line → Pict
with_lines pict [] = pict
with_lines pict (l ∷ ls) = with_lines (with_line pict l) ls

picture_step :
    (fuel : ℕ) (pict pict' : Pict) (r r1 r2 : PictReader) (name : CStr)
    → image_lex r ≡ (lex_str name, r1)
    → parse_field fuel pict name r1 ≡ done pict' r2
    → picture_loop (suc fuel) pict r ≡ picture_loop fuel pict' r2
unfolding picture_loop
picture_step fuel pict pict' r r1 r2 name e0 e1 = rw (e0, e1) refl

picture_end :
    (fuel : ℕ) (pict : Pict) (r r1 : PictReader)
    → image_lex r ≡ (lex_eof, r1)
    → picture_loop (suc fuel) pict r ≡ done pict r1
unfolding picture_loop
picture_end fuel pict r r1 e = rw e refl

newline : (text : List ℕ) → image_lex (from_text (10 ∷ text)) ≡ image_lex (from_text text)
unfolding is_space
newline text = image_lex-space 10 text refl

no_more : image_lex (from_text []) ≡ (lex_eof, from_text [])
unfolding image_lex
no_more = refl

fields_fit : (l : Line) (rest : List ℕ) → length (fields_of l rest) < length (line_before l rest)
fields_fit (default_line url) rest = omega arith
fields_fit (rectangle_line p q url) rest = omega arith
fields_fit (circle_line p radius url) rest = omega arith
fields_fit (polygon_line ps url) rest = omega arith

rest_fits : (l : Line) (rest : List ℕ) → length rest ≤ length (fields_of l rest)
rest_fits (default_line url) rest = length-word_before url rest
rest_fits (rectangle_line p q url) rest = omega (
  arith,
  length-pair_before p (pair_before q (word_before url rest)),
  length-pair_before q (word_before url rest),
  length-word_before url rest,
)
rest_fits (circle_line p radius url) rest = omega (
  arith,
  length-pair_before p (word_before radius (word_before url rest)),
  length-word_before radius (word_before url rest),
  length-word_before url rest,
)
rest_fits (polygon_line ps url) rest =
    omega (arith, length-pairs_before ps (word_before url rest), length-word_before url rest)

picture_loop-lines :
    (fuel : ℕ) (pict : Pict) (ls : List Line)
    → All IsLine ls
    → length (lines_text ls) < fuel
    → picture_loop fuel pict (from_text (10 ∷ lines_text ls))
      ≡ done (with_lines pict ls) (from_text [])
picture_loop-lines zero pict ls h lt = absurd (omega arith)
picture_loop-lines (suc fuel) pict [] h lt = picture_end fuel pict _ _ (newline [] ∙ no_more)
picture_loop-lines (suc fuel) pict (l ∷ ls) h lt =
    picture_step fuel pict (with_line pict l) _ _ _ (name_of l)
      (newline (lines_text (l ∷ ls)) ∙ image_lex-line l (10 ∷ lines_text ls))
      (parse_field-line fuel pict l (lines_text ls) h.0
        (omega (arith, fields_fit l (10 ∷ lines_text ls))))
    ∙ picture_loop-lines fuel (with_line pict l) ls h.1
        (omega (arith, fields_fit l (10 ∷ lines_text ls), rest_fits l (10 ∷ lines_text ls)))

from_newline :
    (fuel : ℕ) (pict : Pict) (text : List ℕ)
    → picture_loop (suc fuel) pict (from_text text)
      ≡ picture_loop (suc fuel) pict (from_text (10 ∷ text))
unfolding picture_loop
from_newline fuel pict text = ap (picture_item (picture_loop fuel) fuel pict) (sym (newline text))

with_lines-default :
    (pict : Pict) (ls : List Line)
    → (with_lines pict ls).default_url ≡ default_of pict.default_url ls
with_lines-default pict [] = refl
with_lines-default pict (default_line url ∷ ls) =
    with_lines-default (with_line pict (default_line url)) ls
with_lines-default pict (rectangle_line p q url ∷ ls) =
    with_lines-default (with_line pict (rectangle_line p q url)) ls
with_lines-default pict (circle_line p radius url ∷ ls) =
    with_lines-default (with_line pict (circle_line p radius url)) ls
with_lines-default pict (polygon_line ps url ∷ ls) =
    with_lines-default (with_line pict (polygon_line ps url)) ls

rev_list-step :
    (tmp list : List Mapping) (m : Mapping) → rev_list tmp (m ∷ list) ≡ rev_list (m ∷ tmp) list
unfolding rev_list
rev_list-step tmp list m = refl

-- The list of areas, turned round.
with_lines-areas :
    (tmp : List Mapping) (pict : Pict) (ls : List Line)
    → rev_list tmp (with_lines pict ls).mappings ≡ rev_list (areas ls ++ tmp) pict.mappings
with_lines-areas tmp pict [] = refl
with_lines-areas tmp pict (default_line url ∷ ls) =
    with_lines-areas tmp (with_line pict (default_line url)) ls
with_lines-areas tmp pict (rectangle_line p q url ∷ ls) =
    with_lines-areas tmp (with_line pict (rectangle_line p q url)) ls ∙ rev_list-step _ _ _
with_lines-areas tmp pict (circle_line p radius url ∷ ls) =
    with_lines-areas tmp (with_line pict (circle_line p radius url)) ls ∙ rev_list-step _ _ _
with_lines-areas tmp pict (polygon_line ps url ∷ ls) =
    with_lines-areas tmp (with_line pict (polygon_line ps url)) ls ∙ rev_list-step _ _ _

all_areas : (ms : List Mapping) → rev_list (ms ++ []) [] ≡ ms
unfolding rev_list
all_areas ms = append-nil ms

picture_done :
    (text : List ℕ) (pict : Pict) (r : PictReader)
    → picture_loop
        (suc (length text))
        (record { default_url = none; mappings = [] })
        (from_text text)
      ≡ done pict r
    → parse_picture text
      ≡ done (record { default_url = pict.default_url; mappings = rev_list [] pict.mappings }) r
unfolding parse_picture ◌>>=◌
picture_done text pict r e =
    ap
      (λ (o : Outcome Pict). o >>= (λ (p : Pict) (r1 : PictReader).
        done (record { default_url = p.default_url; mappings = rev_list [] p.mappings }) r1))
      e

-- parse_picture reads a file of lines, each a default, a rectangle, a circle or a polygon with its
-- numbers and its URL, where no word is longer than lex_str, as the picture that they stand for: the
-- areas in the order of the lines, a number as atoi takes it, a polygon's path through its pairs
-- without immediate repetitions and back to the first, and the last default.
pub parse_picture-lines_text :
    (ls : List Line)
    → All IsLine ls
    → parse_picture (lines_text ls)
      ≡ done (record { default_url = default_of none ls; mappings = areas ls }) (from_text [])
parse_picture-lines_text ls h =
    let empty : Pict = record { default_url = none; mappings = [] } in
    picture_done (lines_text ls) (with_lines empty ls) (from_text []) (
      from_newline (length (lines_text ls)) empty (lines_text ls)
      ∙ picture_loop-lines (suc (length (lines_text ls))) empty ls h (omega arith))
    ∙ (λ i.
        done
          (record {
            default_url = with_lines-default empty ls i;
            mappings = (with_lines-areas [] empty ls ∙ all_areas (areas ls)) i;
          })
          (from_text []))
