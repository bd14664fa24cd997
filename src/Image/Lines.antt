-- ===== src/Image/Lines.antt =====
-- The lines of a picture's configuration (HTImage.c) and what they stand for.
use cern_httpd.Base.{
  ℕ, ◌+◌, ◌≤◌, Option, some, List, [], ◌∷◌, ◌++◌, All, length, length-append, arith, codes, suc,
  if◌then◌else◌,
}
use cern_httpd.Str.{CStr}
use cern_httpd.Image.{Coord, rect, circ, poly, Mapping, Pict, atoi, same_coord}
use cern_httpd.Image.Words.{IsNumeral, IsName, pair_text}

-- A pair of numbers as it is written.
pub record Pair : Type 0 where
  pub first : CStr
  pub second : CStr

-- A line of the configuration.
pub data Line : Type 0 where
  default_line : CStr → Line
  rectangle_line : Pair → Pair → CStr → Line
  circle_line : Pair → CStr → CStr → Line
  polygon_line : List Pair → CStr → Line

abbrev pub pair_before : Pair → List ℕ → List ℕ
pair_before p rest = b' ' ∷ pair_text p.first p.second rest

abbrev pub pairs_before : List Pair → List ℕ → List ℕ
pairs_before [] rest = rest
pairs_before (p ∷ ps) rest = pair_before p (pairs_before ps rest)

abbrev pub word_before : CStr → List ℕ → List ℕ
word_before w rest = b' ' ∷ (w ++ rest)

abbrev pub line_before : Line → List ℕ → List ℕ
line_before (default_line url) rest = codes "default" ++ word_before url rest
line_before (rectangle_line p q url) rest =
    codes "rectangle" ++ pair_before p (pair_before q (word_before url rest))
line_before (circle_line p radius url) rest =
    codes "circle" ++ pair_before p (word_before radius (word_before url rest))
line_before (polygon_line ps url) rest = codes "polygon" ++ pairs_before ps (word_before url rest)

abbrev pub lines_text : List Line → List ℕ
lines_text [] = []
lines_text (l ∷ ls) = line_before l (10 ∷ lines_text ls)

abbrev pub IsPair : Pair → Type 0
IsPair p = IsNumeral p.first × IsNumeral p.second

abbrev pub IsLine : Line → Type 0
IsLine (default_line url) = IsName url
IsLine (rectangle_line p q url) = IsPair p × IsPair q × IsName url
IsLine (circle_line p radius url) = IsPair p × IsNumeral radius × IsName url
IsLine (polygon_line ps url) = All IsPair ps × IsName url

-- What the lines stand for.
abbrev pub coord_of : Pair → Coord
coord_of p = record { x = atoi p.first; y = atoi p.second }

-- The pairs of a polygon as they are written, without those that repeat the one before.
abbrev pub distinct_after : Coord → List Pair → List Coord
distinct_after prev [] = []
distinct_after prev (p ∷ ps) =
    if same_coord (coord_of p) prev
    then distinct_after prev ps
    else coord_of p ∷ distinct_after (coord_of p) ps

-- The path through them that comes back to the first.
abbrev pub back_to : Coord → Coord → List Coord → List Coord
back_to first c [] = if same_coord first c then [] else first ∷ []
back_to first c (d ∷ path) = d ∷ back_to first d path

abbrev pub closed_path : List Pair → List Coord
closed_path [] = []
closed_path (p ∷ ps) =
    coord_of p ∷ back_to (coord_of p) (coord_of p) (distinct_after (coord_of p) ps)

-- The list of a polygon has the pair that was added last first.
abbrev pub backwards : List Coord → List Coord
backwards [] = []
backwards (c ∷ path) = backwards path ++ c ∷ []

abbrev pub areas : List Line → List Mapping
areas [] = []
areas (default_line url ∷ ls) = areas ls
areas (rectangle_line p q url ∷ ls) =
    record { url = url; shape = rect (coord_of p) (coord_of q) } ∷ areas ls
areas (circle_line p radius url ∷ ls) =
    record { url = url; shape = circ (coord_of p) (atoi radius) } ∷ areas ls
areas (polygon_line ps url ∷ ls) =
    record { url = url; shape = poly (backwards (closed_path ps)) } ∷ areas ls

abbrev pub default_of : Option CStr → List Line → Option CStr
default_of d [] = d
default_of d (default_line url ∷ ls) = default_of (some url) ls
default_of d (rectangle_line p q url ∷ ls) = default_of d ls
default_of d (circle_line p radius url ∷ ls) = default_of d ls
default_of d (polygon_line ps url ∷ ls) = default_of d ls

-- A picture with one more line.
abbrev pub with_line : Pict → Line → Pict
with_line pict (default_line url) = record { default_url = some url; mappings = pict.mappings }
with_line pict (rectangle_line p q url) = record {
  default_url = pict.default_url;
  mappings = record { url = url; shape = rect (coord_of p) (coord_of q) } ∷ pict.mappings;
}
with_line pict (circle_line p radius url) = record {
  default_url = pict.default_url;
  mappings = record { url = url; shape = circ (coord_of p) (atoi radius) } ∷ pict.mappings;
}
with_line pict (polygon_line ps url) = record {
  default_url = pict.default_url;
  mappings = record { url = url; shape = poly (backwards (closed_path ps)) } ∷ pict.mappings;
}

-- A line behind its name.
abbrev pub name_of : Line → CStr
name_of (default_line url) = codes "default"
name_of (rectangle_line p q url) = codes "rectangle"
name_of (circle_line p radius url) = codes "circle"
name_of (polygon_line ps url) = codes "polygon"

abbrev pub fields_of : Line → List ℕ → List ℕ
fields_of (default_line url) rest = word_before url rest
fields_of (rectangle_line p q url) rest = pair_before p (pair_before q (word_before url rest))
fields_of (circle_line p radius url) rest =
    pair_before p (word_before radius (word_before url rest))
fields_of (polygon_line ps url) rest = pairs_before ps (word_before url rest)

pub length-pair_before :
    (p : Pair) (rest : List ℕ) → suc (length rest) ≤ length (pair_before p rest)
length-pair_before p rest = omega (
  arith,
  length-append p.first (b',' ∷ (p.second ++ (b')' ∷ rest))),
  length-append p.second (b')' ∷ rest),
)

pub length-word_before : (w : CStr) (rest : List ℕ) → length rest ≤ length (word_before w rest)
length-word_before w rest = omega (arith, length-append w rest)

pub length-pairs_before :
    (ps : List Pair) (rest : List ℕ) → length ps + length rest ≤ length (pairs_before ps rest)
length-pairs_before [] rest = omega arith
length-pairs_before (p ∷ ps) rest =
    omega (arith, length-pair_before p (pairs_before ps rest), length-pairs_before ps rest)
