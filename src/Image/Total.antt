-- ===== src/Image/Total.antt =====
-- parse_picture of HTImage.c comes to an end on every file.
use cern_httpd.Base.{
  ℕ, zero, suc, ◌-◌, ◌≤◌, ◌<◌, ◌≡◌, refl, Bool, true, false, Option, none, some, List, [], length,
  arith, codes, ◌⊎◌, inl, inr, if◌then◌else◌,
}
use cern_httpd.Str.{CStr}
use cern_httpd.Image.{
  Coord, Mapping, Pict, PictReader, PictItem, lex_eof, lex_comma, lex_open_paren, lex_close_paren,
  lex_str, lex_int, lex_overrun, overrun, image_syntax_error, image_lex, image_unlex, Outcome, done,
  dead, ◌>>=◌, want_int, want_comma, want_close, want_str, want_coord, coord_from, parse_coord,
  parse_rectangle, parse_circle, add_coord, overrun, image_syntax_error,
}
use cern_httpd.Image.Picture.{
  next_pair, poly_loop, parse_polygon, add_mapping, is_field, parse_field, picture_item,
  picture_loop, parse_picture,
}
use cern_httpd.Image.Progress.{
  size, image_lex-le, image_lex-lt, Ends, ends_done, ends_dead, ends_overrun, Ends-bind, AtMost,
  want_int-Ends, want_comma-Ends, want_close-Ends, want_str-Ends, ends_overrun,
}

-- Behind parse_coord: a pair took a byte; what was pushed back instead is read again.
abbrev AfterCoord : ℕ → Option Coord → PictReader → Type 0
AfterCoord n none r = size (image_lex r).1 ≤ n
AfterCoord n (some c) r = size r < n

pair_Ends :
    (n : ℕ) (r : PictReader) → size r < n → Ends (AfterCoord n) (coord_from (lex_open_paren, r))
unfolding coord_from
pair_Ends n r h =
    Ends-bind (AtMost (n - 1)) (AfterCoord n) (want_int (image_lex r)) _
      (want_int-Ends (n - 1) (image_lex r) (omega (arith, image_lex-le r)))
      (λ x r1 h1.
        Ends-bind (AtMost (n - 1)) (AfterCoord n) (want_comma (image_lex r1)) _
          (want_comma-Ends (n - 1) (image_lex r1) (omega (arith, image_lex-le r1)))
          (λ c r2 h2.
            Ends-bind (AtMost (n - 1)) (AfterCoord n) (want_int (image_lex r2)) _
              (want_int-Ends (n - 1) (image_lex r2) (omega (arith, image_lex-le r2)))
              (λ y r3 h3.
                Ends-bind (AtMost (n - 1)) (AfterCoord n) (want_close (image_lex r3)) _
                  (want_close-Ends (n - 1) (image_lex r3) (omega (arith, image_lex-le r3)))
                  (λ d r4 h4. ends_done _ r4 (omega arith)))))

unlexed :
    (item : PictItem) (r : PictReader) → size (image_lex (image_unlex item r)).1 ≡ length r.text
unfolding image_lex image_unlex
unlexed item r = omega arith

coord_from-Ends :
    (n : ℕ) (t : PictItem × PictReader)
    → size t.1 ≤ n
    → ((t.0 ≡ lex_eof) ⊎ (size t.1 < n))
    → Ends (AfterCoord n) (coord_from t)
unfolding coord_from
coord_from-Ends n (lex_open_paren, r) h (inl e) = absurd (cc)
coord_from-Ends n (lex_open_paren, r) h (inr lt) = pair_Ends n r lt
coord_from-Ends n (lex_overrun, r) h k = ends_overrun
coord_from-Ends n (lex_eof, r) h k = ends_done none _ (omega (arith, unlexed lex_eof r))
coord_from-Ends n (lex_comma, r) h k = ends_done none _ (omega (arith, unlexed lex_comma r))
coord_from-Ends n (lex_close_paren, r) h k =
    ends_done none _ (omega (arith, unlexed lex_close_paren r))
coord_from-Ends n (lex_str s, r) h k = ends_done none _ (omega (arith, unlexed (lex_str s) r))
coord_from-Ends n (lex_int x, r) h k = ends_done none _ (omega (arith, unlexed (lex_int x) r))

parse_coord-Ends : (r : PictReader) → Ends (AfterCoord (size r)) (parse_coord r)
unfolding parse_coord
parse_coord-Ends r = coord_from-Ends (size r) (image_lex r) (image_lex-le r) (image_lex-lt r)

wanted-Ends : (n : ℕ) (r : PictReader) → size r ≤ n → Ends (AtMost n) (parse_coord r >>= want_coord)
unfolding want_coord image_syntax_error
wanted-Ends n r h =
    Ends-bind (AfterCoord (size r)) (AtMost n) (parse_coord r) want_coord (parse_coord-Ends r)
      by_pair
  where
    by_pair :
        (o : Option Coord) (r1 : PictReader)
        → AfterCoord (size r) o r1
        → Ends (AtMost n) (want_coord o r1)
    by_pair none r1 k = ends_dead _
    by_pair (some c) r1 k = ends_done c r1 (omega arith)

url-Ends :
    (n : ℕ) (r : PictReader)
    → size (image_lex r).1 ≤ n
    → (f : CStr → PictReader → Outcome Mapping)
    → ((url : CStr) (r1 : PictReader) → AtMost n url r1 → Ends (AtMost n) (f url r1))
    → Ends (AtMost n) (want_str (image_lex r) >>= f)
url-Ends n r h f k =
    Ends-bind (AtMost n) (AtMost n) (want_str (image_lex r)) f (want_str-Ends n (image_lex r) h) k

parse_rectangle-Ends : (n : ℕ) (r : PictReader) → size r ≤ n → Ends (AtMost n) (parse_rectangle r)
unfolding parse_rectangle
parse_rectangle-Ends n r h =
    Ends-bind (AtMost n) (AtMost n) (parse_coord r >>= want_coord) _ (wanted-Ends n r h)
      (λ c1 r1 h1.
        Ends-bind (AtMost n) (AtMost n) (parse_coord r1 >>= want_coord) _ (wanted-Ends n r1 h1)
          (λ c2 r2 h2.
            url-Ends n r2 (omega (arith, image_lex-le r2)) _ (λ url r3 h3. ends_done _ r3 h3)))

parse_circle-Ends : (n : ℕ) (r : PictReader) → size r ≤ n → Ends (AtMost n) (parse_circle r)
unfolding parse_circle
parse_circle-Ends n r h =
    Ends-bind (AtMost n) (AtMost n) (parse_coord r >>= want_coord) _ (wanted-Ends n r h) (λ c r1 h1.
      Ends-bind (AtMost n) (AtMost n) (want_int (image_lex r1)) _
        (want_int-Ends n (image_lex r1) (omega (arith, image_lex-le r1)))
        (λ radius r2 h2.
          url-Ends n r2 (omega (arith, image_lex-le r2)) _ (λ url r3 h3. ends_done _ r3 h3)))

-- Behind the pairs of a polygon, of which each round takes a byte at least.
abbrev AfterPairs : ℕ → List Coord → PictReader → Type 0
AfterPairs n coords r = size (image_lex r).1 ≤ n

poly_loop-Ends :
    (fuel n : ℕ) (coords : List Coord) (r : PictReader)
    → size r ≤ n
    → size r < fuel
    → Ends (AfterPairs n) (poly_loop fuel coords r)
unfolding poly_loop
poly_loop-Ends zero n coords r h lt = absurd (omega arith)
poly_loop-Ends (suc fuel) n coords r h lt =
    Ends-bind (AfterCoord (size r)) (AfterPairs n) (parse_coord r) _ (parse_coord-Ends r)
      (by_pair (λ cs r1 h1 lt1. poly_loop-Ends fuel n cs r1 h1 lt1))
  where
    by_pair :
        ((cs : List Coord) (r1 : PictReader)
          → size r1 ≤ n
          → size r1 < fuel
          → Ends (AfterPairs n) (poly_loop fuel cs r1))
        → (o : Option Coord) (r1 : PictReader) → AfterCoord (size r) o r1
        → Ends (AfterPairs n) (next_pair (poly_loop fuel) coords o r1)
    by_pair ih none r1 k = unfold next_pair in ends_done coords r1 (omega arith)
    by_pair ih (some c) r1 k =
        unfold next_pair in ih (add_coord c coords) r1 (omega arith) (omega arith)

parse_polygon-Ends :
    (fuel n : ℕ) (r : PictReader)
    → size r ≤ n
    → size r < fuel
    → Ends (AtMost n) (parse_polygon fuel r)
unfolding parse_polygon
parse_polygon-Ends fuel n r h lt =
    Ends-bind (AfterPairs n) (AtMost n) (poly_loop fuel [] r) _ (poly_loop-Ends fuel n [] r h lt)
      (λ coords r1 h1. url-Ends n r1 h1 _ (λ url r2 h2. ends_done _ r2 h2))

add_mapping-Ends :
    (n : ℕ) (pict : Pict) (o : Outcome Mapping)
    → Ends (AtMost n) o
    → Ends (AtMost n) (o >>= add_mapping pict)
unfolding add_mapping
add_mapping-Ends n pict o h =
    Ends-bind (AtMost n) (AtMost n) o (add_mapping pict) h (λ m r h1. ends_done _ r h1)

Ends-if :
    (n : ℕ) (b : Bool) (x y : Outcome Pict)
    → Ends (AtMost n) x
    → Ends (AtMost n) y
    → Ends (AtMost n) (if b then x else y)
Ends-if n true x y h k = h
Ends-if n false x y h k = k

parse_field-Ends :
    (fuel n : ℕ) (pict : Pict) (name : CStr) (r : PictReader)
    → size r ≤ n
    → size r < fuel
    → Ends (AtMost n) (parse_field fuel pict name r)
unfolding parse_field image_syntax_error
parse_field-Ends fuel n pict name r h lt =
    Ends-if n (is_field name (codes "default") 3) _ _
      (Ends-bind (AtMost n) (AtMost n) (want_str (image_lex r)) _
        (want_str-Ends n (image_lex r) (omega (arith, image_lex-le r)))
        (λ url r1 h1. ends_done _ r1 h1))
      (Ends-if n (is_field name (codes "rectangle") 4) _ _
        (add_mapping-Ends n pict (parse_rectangle r) (parse_rectangle-Ends n r h))
        (Ends-if n (is_field name (codes "circle") 4) _ _
          (add_mapping-Ends n pict (parse_circle r) (parse_circle-Ends n r h))
          (Ends-if n (is_field name (codes "polygon") 4) _ _
            (add_mapping-Ends n pict (parse_polygon fuel r) (parse_polygon-Ends fuel n r h lt))
            (ends_dead _))))

-- A result of any kind but starved.
abbrev Any : {A : Type 0} → A → PictReader → Type 0
Any a r = Unit

picture_item-Ends :
    (fuel : ℕ) (pict : Pict) (t : PictItem × PictReader)
    → ((t.0 ≡ lex_eof) ⊎ (size t.1 < fuel))
    → ((p : Pict) (r : PictReader) → size r < fuel → Ends Any (picture_loop fuel p r))
    → Ends Any (picture_item (picture_loop fuel) fuel pict t)
unfolding picture_item image_syntax_error
picture_item-Ends fuel pict (lex_overrun, r) h ih = ends_overrun
picture_item-Ends fuel pict (lex_eof, r) h ih = ends_done pict r tt
picture_item-Ends fuel pict (lex_str name, r) (inl e) ih = absurd (cc)
picture_item-Ends fuel pict (lex_str name, r) (inr lt) ih =
    Ends-bind (AtMost (size r)) Any (parse_field fuel pict name r) (picture_loop fuel)
      (parse_field-Ends fuel (size r) pict name r (omega arith) lt)
      (λ p r1 h1. ih p r1 (omega arith))
picture_item-Ends fuel pict (lex_int x, r) h ih = ends_dead _
picture_item-Ends fuel pict (lex_comma, r) h ih = ends_dead _
picture_item-Ends fuel pict (lex_open_paren, r) h ih = ends_dead _
picture_item-Ends fuel pict (lex_close_paren, r) h ih = ends_dead _

picture_loop-Ends :
    (fuel : ℕ) (pict : Pict) (r : PictReader) → size r < fuel → Ends Any (picture_loop fuel pict r)
unfolding picture_loop
picture_loop-Ends zero pict r lt = absurd (omega arith)
picture_loop-Ends (suc fuel) pict r lt =
    picture_item-Ends fuel pict (image_lex r)
      (elim (image_lex-lt r) [ inl e ↦ inl e | inr h ↦ inr (omega arith) ])
      (λ p r1 h1. picture_loop-Ends fuel p r1 h1)

-- The three ways in which a parser ends.
abbrev pub HasEnded : {A : Type 0} → Outcome A → Type 0
HasEnded {A} o =
    ((a : A) × (r : PictReader) × (o ≡ done a r))
    ⊎ (((rest : List ℕ) × (o ≡ dead rest)) ⊎ (o ≡ overrun))

Ends-HasEnded : {A : Type 0} (o : Outcome A) → Ends Any o → HasEnded o
Ends-HasEnded _ (ends_done a r h) = inl (a, r, refl)
Ends-HasEnded _ (ends_dead rest) = inr (inl (rest, refl))
Ends-HasEnded _ ends_overrun = inr (inr refl)

-- parse_picture comes to an end on every file: it gives a picture, it ends the program by a syntax
-- error, or it writes a word of more than 256 characters over the end of lex_str. Up to there none
-- of its loops, nor that of the lexer or of syntax_error, reads on for ever.
pub parse_picture-ends : (text : List ℕ) → HasEnded (parse_picture text)
unfolding parse_picture
parse_picture-ends text =
    let start : PictReader = record { pushed_back = none; text = text } in
    let empty : Pict = record { default_url = none; mappings = [] } in
    Ends-HasEnded (parse_picture text) (
      Ends-bind Any Any (picture_loop (suc (length text)) empty start) _
        (picture_loop-Ends (suc (length text)) empty start (omega arith))
        (λ p r h. ends_done _ r tt))
