-- ===== src/Image/Steps.antt =====
-- The parsers of HTImage.c on one line of a picture's configuration.
use cern_httpd.Base.{
  ℕ, zero, suc, ◌≤◌, ◌<◌, ◌≡◌, refl, ◌∙◌, Option, none, some, List, [], ◌∷◌, All, length, arith,
  codes, ap,
}
use cern_httpd.Base.Int.{ℤ}
use cern_httpd.Str.{CStr}
use cern_httpd.Image.{
  Coord, rect, circ, poly, Mapping, Pict, PictReader, PictItem, lex_str, lex_int, atoi, image_lex,
  image_unlex, Outcome, done, parse_coord, parse_rectangle, parse_circle, add_coord, ends_word,
  is_space,
}
use cern_httpd.Image.Picture.{next_pair, poly_loop, close_path, parse_polygon, parse_field}
use cern_httpd.Image.Words.{
  IsNumeral, IsName, from_text, image_lex-numeral, image_lex-name, image_lex-space,
  parse_coord-pair_text,
}
use cern_httpd.Image.Corners.{corners, close_path-corners}
use cern_httpd.Image.Lines.{
  Pair, Line, default_line, rectangle_line, circle_line, polygon_line, pairs_before, word_before,
  IsPair, IsLine, coord_of, with_line, name_of, fields_of, length-pairs_before,
}

-- The end of a line's last word.
url_at :
    (url : CStr) (rest : List ℕ)
    → IsName url
    → image_lex (from_text (word_before url (10 ∷ rest))) ≡ (lex_str url, from_text (10 ∷ rest))
unfolding is_space ends_word
url_at url rest h = image_lex-space b' ' _ refl ∙ image_lex-name url 10 rest h refl

radius_at :
    (radius : CStr) (rest : List ℕ)
    → IsNumeral radius
    → image_lex (from_text (word_before radius (b' ' ∷ rest)))
      ≡ (lex_int (atoi radius), from_text (b' ' ∷ rest))
unfolding is_space ends_word
radius_at radius rest h = image_lex-space b' ' _ refl ∙ image_lex-numeral radius b' ' rest h refl

rectangle_steps :
    (r r1 r2 r3 : PictReader) (c d : Coord) (url : CStr)
    → parse_coord r ≡ done (some c) r1
    → parse_coord r1 ≡ done (some d) r2
    → image_lex r2 ≡ (lex_str url, r3)
    → parse_rectangle r ≡ done (record { url = url; shape = rect c d }) r3
unfolding parse_rectangle
rectangle_steps r r1 r2 r3 c d url e0 e1 e2 = rw (e0, e1, e2) refl

circle_steps :
    (r r1 r2 r3 : PictReader) (c : Coord) (radius : ℤ) (url : CStr)
    → parse_coord r ≡ done (some c) r1
    → image_lex r1 ≡ (lex_int radius, r2)
    → image_lex r2 ≡ (lex_str url, r3)
    → parse_circle r ≡ done (record { url = url; shape = circ c radius }) r3
unfolding parse_circle
circle_steps r r1 r2 r3 c radius url e0 e1 e2 = rw (e0, e1, e2) refl

pairs_step :
    (fuel : ℕ) (coords : List Coord) (r r1 : PictReader) (o : Option Coord)
    → parse_coord r ≡ done o r1
    → poly_loop (suc fuel) coords r ≡ next_pair (poly_loop fuel) coords o r1
unfolding poly_loop
pairs_step fuel coords r r1 o e = rw e refl

coord_at_name :
    (r r1 : PictReader) (url : CStr)
    → image_lex r ≡ (lex_str url, r1)
    → parse_coord r ≡ done none (image_unlex (lex_str url) r1)
unfolding parse_coord
coord_at_name r r1 url e = rw e refl

next_pair-some :
    (more : List Coord → PictReader → Outcome (List Coord)) (coords : List Coord) (c : Coord)
    (r : PictReader)
    → next_pair more coords (some c) r ≡ more (add_coord c coords) r
unfolding next_pair
next_pair-some more coords c r = refl

-- The pairs of a polygon up to its URL, which is pushed back.
poly_loop-pairs :
    (fuel : ℕ) (coords : List Coord) (ps : List Pair) (url : CStr) (rest : List ℕ)
    → All IsPair ps
    → IsName url
    → length ps < fuel
    → poly_loop fuel coords (from_text (pairs_before ps (word_before url (10 ∷ rest))))
      ≡ done (corners coords ps) (image_unlex (lex_str url) (from_text (10 ∷ rest)))
poly_loop-pairs zero coords ps url rest h hu lt = absurd (omega arith)
poly_loop-pairs (suc fuel) coords [] url rest h hu lt =
    pairs_step fuel coords _ _ none (coord_at_name _ _ url (url_at url rest hu))
    ∙ (unfold next_pair in refl)
poly_loop-pairs (suc fuel) coords (p ∷ ps) url rest h hu lt =
    pairs_step fuel coords _ _ (some (coord_of p))
      (parse_coord-pair_text p.first p.second _ h.0.0 h.0.1)
    ∙ next_pair-some (poly_loop fuel) coords (coord_of p) _
    ∙ poly_loop-pairs fuel (add_coord (coord_of p) coords) ps url rest h.1 hu (omega arith)

pushed_again :
    (item : PictItem) (text : List ℕ)
    → image_lex (image_unlex item (from_text text)) ≡ (item, from_text text)
unfolding image_lex image_unlex
pushed_again item text = refl

polygon_steps :
    (fuel : ℕ) (r r1 r2 : PictReader) (coords : List Coord) (url : CStr)
    → poly_loop fuel [] r ≡ done coords r1
    → image_lex r1 ≡ (lex_str url, r2)
    → parse_polygon fuel r ≡ done (record { url = url; shape = poly (close_path coords) }) r2
unfolding parse_polygon
polygon_steps fuel r r1 r2 coords url e0 e1 = rw (e0, e1) refl

default_steps :
    (fuel : ℕ) (pict : Pict) (r r1 : PictReader) (url : CStr)
    → image_lex r ≡ (lex_str url, r1)
    → parse_field fuel pict (codes "default") r
      ≡ done (record { default_url = some url; mappings = pict.mappings }) r1
unfolding parse_field
default_steps fuel pict r r1 url e = rw e refl

area_steps :
    (fuel : ℕ) (pict : Pict) (r r1 : PictReader) (m : Mapping)
    → (parse_rectangle r ≡ done m r1
        → parse_field fuel pict (codes "rectangle") r
          ≡ done (record { default_url = pict.default_url; mappings = m ∷ pict.mappings }) r1)
      × (parse_circle r ≡ done m r1
          → parse_field fuel pict (codes "circle") r
            ≡ done (record { default_url = pict.default_url; mappings = m ∷ pict.mappings }) r1)
      × (parse_polygon fuel r ≡ done m r1
          → parse_field fuel pict (codes "polygon") r
            ≡ done (record { default_url = pict.default_url; mappings = m ∷ pict.mappings }) r1)
unfolding parse_field
area_steps fuel pict r r1 m = (λ e. rw e refl, λ e. rw e refl, λ e. rw e refl)

-- Each line's fields are read as what the line stands for.
pub parse_field-line :
    (fuel : ℕ) (pict : Pict) (l : Line) (rest : List ℕ)
    → IsLine l
    → length (fields_of l (10 ∷ rest)) ≤ fuel
    → parse_field fuel pict (name_of l) (from_text (fields_of l (10 ∷ rest)))
      ≡ done (with_line pict l) (from_text (10 ∷ rest))
parse_field-line fuel pict (default_line url) rest h le =
    default_steps fuel pict _ _ url (url_at url rest h)
parse_field-line fuel pict (rectangle_line p q url) rest (hp, hq, hu) le =
    (area_steps fuel pict _ _ _).0 (
      rectangle_steps _ _ _ _ (coord_of p) (coord_of q) url
        (parse_coord-pair_text p.first p.second _ hp.0 hp.1)
        (parse_coord-pair_text q.first q.second _ hq.0 hq.1) (url_at url rest hu))
parse_field-line fuel pict (circle_line p radius url) rest (hp, hr, hu) le =
    (area_steps fuel pict _ _ _).1 (
      circle_steps _ _ _ _ (coord_of p) (atoi radius) url
        (parse_coord-pair_text p.first p.second _ hp.0 hp.1) (radius_at radius _ hr)
        (url_at url rest hu))
parse_field-line fuel pict (polygon_line ps url) rest (hs, hu) le =
    (area_steps fuel pict _ _ _).2 (
      polygon_steps fuel _ _ _ (corners [] ps) url
        (poly_loop-pairs fuel [] ps url rest hs hu
          (omega (arith, length-pairs_before ps (word_before url (10 ∷ rest)))))
        (pushed_again (lex_str url) (10 ∷ rest)))
    ∙ ap
        (λ (cs : List Coord).
          done
            (record {
              default_url = pict.default_url;
              mappings = record { url = url; shape = poly cs } ∷ pict.mappings;
            })
            (from_text (10 ∷ rest)))
        (close_path-corners ps)
