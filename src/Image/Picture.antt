-- ===== src/Image/Picture.antt =====
-- Daemon/Implementation/HTImage.c: polygons, pictures, and points in rectangles and circles.
use cern_httpd.Base.{
  ℕ, zero, suc, Bool, true, false, ◌&&◌, Option, none, some, List, [], ◌∷◌, if◌then◌else◌, leb,
  length, codes,
}
use cern_httpd.Base.Int.{ℤ, pos, negsuc, ◌-ℤ◌, ◌*ℤ◌, neg, to_int}
use cern_httpd.Str.{CStr, strncasecomp, is_zero}
use cern_httpd.Image.{
  Coord, poly, Mapping, Pict, PictItem, lex_eof, lex_str, PictReader, image_lex, Outcome, done,
  overrun, image_syntax_error, lex_overrun, starved, ◌>>=◌, parse_coord, want_str, parse_rectangle,
  parse_circle, same_coord, add_coord,
}

-- The pair that parse_coord gives, or the end of the list.
unfoldable pub next_pair :
    (List Coord → PictReader → Outcome (List Coord))
    → List Coord
    → Option Coord
    → PictReader
    → Outcome (List Coord)
unfolding add_coord
next_pair more coords none r = done coords r
next_pair more coords (some c) r = more (add_coord c coords) r

-- The loops of parse_polygon, on fuel.
unfoldable pub poly_loop : ℕ → List Coord → PictReader → Outcome (List Coord)
unfolding parse_coord next_pair ◌>>=◌
poly_loop zero coords r = starved
poly_loop (suc fuel) coords r = parse_coord r >>= next_pair (poly_loop fuel) coords

unfoldable pub last_coord : Coord → List Coord → Coord
last_coord c [] = c
last_coord c (d ∷ coords) = last_coord d coords

-- The first pair once more, unless it is the last one too.
unfoldable pub close_path : List Coord → List Coord
unfolding same_coord last_coord
close_path [] = []
close_path (prev ∷ coords) =
    let first = last_coord prev coords in
    if same_coord first prev then prev ∷ coords else first ∷ prev ∷ coords

unfoldable pub parse_polygon : ℕ → PictReader → Outcome Mapping
unfolding poly_loop close_path want_str image_lex ◌>>=◌
parse_polygon fuel r = poly_loop fuel [] r >>= (λ coords r1.
    want_str (image_lex r1)
    >>= (λ url r2. done (record { url = url; shape = poly (close_path coords) }) r2))

unfoldable pub add_mapping : Pict → Mapping → PictReader → Outcome Pict
add_mapping pict mapping r =
    done (record { default_url = pict.default_url; mappings = mapping ∷ pict.mappings }) r

-- `0==strncasecomp(lex_str, name, n)`
unfoldable pub is_field : CStr → CStr → ℕ → Bool
unfolding strncasecomp is_zero
is_field s name n = is_zero (strncasecomp s name n)

-- One field of a picture, by its name.
unfoldable pub parse_field : ℕ → Pict → CStr → PictReader → Outcome Pict
unfolding is_field want_str image_lex parse_rectangle parse_circle parse_polygon add_mapping
    image_syntax_error ◌>>=◌
parse_field fuel pict name r =
    if is_field name (codes "default") 3
    then want_str (image_lex r)
      >>= (λ url r1. done (record { default_url = some url; mappings = pict.mappings }) r1)
    else if is_field name (codes "rectangle") 4
    then parse_rectangle r >>= add_mapping pict
    else if is_field name (codes "circle") 4
    then parse_circle r >>= add_mapping pict
    else if is_field name (codes "polygon") 4
    then parse_polygon fuel r >>= add_mapping pict
    else image_syntax_error r

-- A round of the loop of parse_picture, with the rounds that follow.
unfoldable pub picture_item :
    (Pict → PictReader → Outcome Pict) → ℕ → Pict → PictItem × PictReader → Outcome Pict
unfolding parse_field image_syntax_error ◌>>=◌
picture_item more fuel pict (lex_eof, r) = done pict r
picture_item more fuel pict (lex_str name, r) = parse_field fuel pict name r >>= more
picture_item more fuel pict (lex_overrun, r) = overrun
picture_item more fuel pict (lex_item, r) = image_syntax_error r

unfoldable pub picture_loop : ℕ → Pict → PictReader → Outcome Pict
unfolding picture_item image_lex
picture_loop zero pict r = starved
picture_loop (suc fuel) pict r = picture_item (picture_loop fuel) fuel pict (image_lex r)

-- rev_list on the objects of a list.
unfoldable pub rev_list : List Mapping → List Mapping → List Mapping
rev_list tmp [] = tmp
rev_list tmp (object ∷ list) = rev_list (object ∷ tmp) list

-- parse_picture for a file that was opened.
unfoldable pub parse_picture : List ℕ → Outcome Pict
unfolding picture_loop rev_list ◌>>=◌
parse_picture text =
    picture_loop (suc (length text)) (record { default_url = none; mappings = [] })
      (record { pushed_back = none; text = text })
    >>= (λ pict r.
        done (record { default_url = pict.default_url; mappings = rev_list [] pict.mappings }) r)

unfoldable pub leb_ℤ : ℤ → ℤ → Bool
leb_ℤ (pos a) (pos b) = leb a b
leb_ℤ (pos a) (negsuc b) = false
leb_ℤ (negsuc a) (pos b) = true
leb_ℤ (negsuc a) (negsuc b) = leb b a

-- HTMIN and HTMAX
unfoldable pub min_ℤ : ℤ → ℤ → ℤ
unfolding leb_ℤ
min_ℤ a b = if leb_ℤ a b then a else b

unfoldable pub max_ℤ : ℤ → ℤ → ℤ
unfolding leb_ℤ
max_ℤ a b = if leb_ℤ b a then a else b

unfoldable pub inside_rect : Coord → Coord → ℤ → ℤ → Bool
unfolding leb_ℤ min_ℤ max_ℤ
inside_rect corner1 corner2 x y =
    leb_ℤ (min_ℤ corner1.x corner2.x) x
    && (leb_ℤ x (max_ℤ corner1.x corner2.x)
        && (leb_ℤ (min_ℤ corner1.y corner2.y) y && leb_ℤ y (max_ℤ corner1.y corner2.y)))

-- The operations on int.
unfoldable pub add_int : ℤ → ℤ → ℤ
unfolding to_int
add_int a b = to_int (a -ℤ neg b)

unfoldable pub sub_int : ℤ → ℤ → ℤ
unfolding to_int
sub_int a b = to_int (a -ℤ b)

unfoldable pub mul_int : ℤ → ℤ → ℤ
unfolding to_int
mul_int a b = to_int (a *ℤ b)

-- SQR
unfoldable pub sqr : ℤ → ℤ
unfolding mul_int
sqr x = mul_int x x

unfoldable pub inside_circ : Coord → ℤ → ℤ → ℤ → Bool
unfolding leb_ℤ add_int sub_int sqr
inside_circ center radius x y =
    leb_ℤ (add_int (sqr (sub_int center.x x)) (sqr (sub_int center.y y))) (sqr radius)
