-- ===== src/Image/Tests.antt =====
-- The theorems on HTImage.c at a concrete picture.
use Prim.Native.Nat.{Ordering}
use cern_httpd.Base.{
  refl, ℕ, Option, if◌then◌else◌, ◌≡◌, true, none, List, [], ◌∷◌, ◌++◌, codes, arith, some, false,
}
use cern_httpd.Base.Int.{◌-ℤ◌, ◌*ℤ◌, neg, ℤ, pos, negsuc}
use cern_httpd.Image.{eq_ℤ, Coord, done, ends_word, is_numeral, atoi}
use cern_httpd.Image.Picture.{leb_ℤ, inside_circ, parse_picture, close_path}
use cern_httpd.Image.Area.{Floats, inside_poly}
use cern_httpd.Image.Words.{from_text}
use cern_httpd.Image.Lines.{
  Line, default_line, rectangle_line, circle_line, polygon_line, lines_text, areas, default_of,
}
use cern_httpd.Image.Load.{parse_picture-lines_text}
use cern_httpd.Image.Total.{HasEnded, parse_picture-ends}
use cern_httpd.Str.{CStr, streq}
use cern_httpd.Image.Main.{htimage, location}
use cern_httpd.Image.Reply.{form_query, htimage-form_query}
use cern_httpd.Image.Vertex.{inside_poly-corner}

abbrev some_lines : List Line
some_lines =
    default_line (codes "/home")
    ∷ rectangle_line (record { first = codes "10"; second = codes "-4" })
        (record { first = codes "0"; second = codes "20" }) (codes "/box")
    ∷ polygon_line
        (record { first = codes "1"; second = codes "2" }
          ∷ record { first = codes "3"; second = codes "4" }
          ∷ [])
        (codes "/line")
    ∷ circle_line (record { first = codes "5"; second = codes "5" }) (codes "3") (codes "/disc")
    ∷ []

parse_picture-lines_text_example :
    parse_picture (lines_text some_lines)
    ≡ done
        (record { default_url = default_of none some_lines; mappings = areas some_lines })
        (from_text [])
unfolding ends_word is_numeral
parse_picture-lines_text_example = parse_picture-lines_text some_lines (ground arith)

-- The arithmetic of exact fractions, with the denominator second.
abbrev Fraction : Type 0
Fraction = ℤ × ℤ

abbrev compare_ℤ : ℤ → ℤ → Ordering
compare_ℤ a b = if eq_ℤ a b then Ordering.eq else if leb_ℤ a b then Ordering.lt else Ordering.gt

abbrev exact : Floats
exact = record {
  float = Fraction;
  double = Fraction;
  of_int = λ n. (n, pos 1);
  plus = λ p q. ((p.0 *ℤ q.1) -ℤ neg (q.0 *ℤ p.1), p.1 *ℤ q.1);
  divided = λ p q. ((p.0 *ℤ q.1) *ℤ (q.0 *ℤ p.1), (q.0 *ℤ p.1) *ℤ (q.0 *ℤ p.1));
  widen = λ p. p;
  double_of_int = λ n. (n, pos 1);
  compare = λ p q. compare_ℤ (p.0 *ℤ q.1) (q.0 *ℤ p.1);
}

abbrev some_corner : Coord
some_corner = record { x = pos 3; y = negsuc 3 }

inside_poly-corner_example :
    inside_poly exact
      (close_path ((record { x = pos 0; y = pos 0 } ∷ []) ++ (some_corner ∷ [])))
      (pos 3)
      (negsuc 3)
    ≡ true
inside_poly-corner_example =
    inside_poly-corner exact (record { x = pos 0; y = pos 0 } ∷ []) [] some_corner (omega arith)

-- A comma where an integer must stand.
parse_picture-ends_example : HasEnded (parse_picture (codes "circle (1,,"))
parse_picture-ends_example = parse_picture-ends (codes "circle (1,,")

abbrev some_files : CStr → Option (List ℕ)
some_files name = if streq name (codes "/pict") then some (lines_text some_lines) else none

htimage-form_query_example :
    htimage exact some_files none none
      (some (codes "/pict"))
      (some (form_query (codes "7") (codes "5")))
    ≡ htimage exact some_files none none
        (some (codes "/pict"))
        (some (codes "7" ++ (b',' ∷ codes "5")))
unfolding atoi eq_ℤ
htimage-form_query_example =
    htimage-form_query exact some_files none none (some (codes "/pict")) (codes "7") (codes "5")
      (ground arith) (ground arith) refl refl

-- The point is in the rectangle.
in_box :
    htimage exact some_files none none
      (some (codes "/pict"))
      (some (codes "7" ++ (b',' ∷ codes "5")))
    ≡ location (codes "/box")
unfolding htimage streq
in_box = refl

-- A number out of the range of int, and a radius whose square is.
wrapped : atoi (codes "4294967295") ≡ negsuc 0
unfolding atoi
wrapped = refl

far_point : inside_circ (record { x = pos 0; y = pos 0 }) (pos 1) (pos 65536) (pos 0) ≡ true
unfolding inside_circ
far_point = refl

-- A triangle and two points, one in it and one outside.
abbrev some_triangle : List Coord
some_triangle =
    record { x = pos 0; y = pos 0 }
    ∷ record { x = pos 10; y = pos 0 }
    ∷ record { x = pos 5; y = pos 9 }
    ∷ record { x = pos 0; y = pos 0 }
    ∷ []

triangle_test : inside_poly exact some_triangle (pos 5) (pos 3) ≡ true
unfolding inside_poly leb_ℤ
triangle_test = refl

outside_test : inside_poly exact some_triangle (pos 9) (pos 7) ≡ false
unfolding inside_poly leb_ℤ
outside_test = refl
