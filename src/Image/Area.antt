-- ===== src/Image/Area.antt =====
-- Daemon/Implementation/HTImage.c: the area of a picture that a point is in.
--
-- The arithmetic of float and double is the machine's, an argument.
use Prim.Native.Nat.{Ordering}
use cern_httpd.Base.{
  ℕ, suc, ◌%◌, Bool, true, false, not, ◌&&◌, ◌||◌, Option, none, some, List, [], ◌∷◌, if◌then◌else◌,
  ◌==◌,
}
use cern_httpd.Base.Int.{ℤ}
use cern_httpd.Str.{CStr}
use cern_httpd.Image.{Coord, Shape, rect, circ, poly, Mapping, Pict, eq_ℤ}
use cern_httpd.Image.Picture.{leb_ℤ, min_ℤ, max_ℤ, inside_rect, inside_circ, sub_int, mul_int}

unfoldable pub ltb_ℤ : ℤ → ℤ → Bool
unfolding leb_ℤ
ltb_ℤ a b = not (leb_ℤ b a)

unfoldable pub is_eq : Ordering → Bool
is_eq Ordering.eq = true
is_eq o = false

unfoldable pub is_gt : Ordering → Bool
is_gt Ordering.gt = true
is_gt o = false

-- One crossing more, if so.
unfoldable pub plus_if : Bool → ℕ → ℕ
plus_if true crossings = suc crossings
plus_if false crossings = crossings

-- Whether the lines from the vertex `a` to the ones before and behind it go to different sides.
unfoldable pub passes : Coord → Coord → Coord → Bool
unfolding ltb_ℤ
passes before a b = (ltb_ℤ before.y a.y && ltb_ℤ a.y b.y) || (ltb_ℤ a.y before.y && ltb_ℤ b.y a.y)

-- check_previous and crossings behind a round; `none` is the answer YES.
abbrev pub PolyRound : Type 0
PolyRound = Option (Option Coord × ℕ)

-- The answer YES, or the further rounds.
unfoldable pub after_round : PolyRound → (Option Coord × ℕ → Bool) → Bool
after_round none more = true
after_round (some state) more = more state

-- The operations on float and double that the program uses; `of_int` and `double_of_int` are the
-- conversions of an int, `widen` is that of a float to double.
pub record Floats : Type 1 where
  pub float : Type 0
  pub double : Type 0
  pub of_int : ℤ → float
  pub plus : float → float → float
  pub divided : float → float → float
  pub widen : float → double
  pub double_of_int : ℤ → double
  pub compare : double → double → Ordering

module _ (fl : Floats) where
  -- cross_x
  unfoldable pub cross_x : Coord → Coord → ℤ → fl.double
  unfolding sub_int mul_int
  cross_x a b y = fl.widen (
      fl.plus (fl.of_int a.x) (
        fl.divided (fl.of_int (mul_int (sub_int y a.y) (sub_int b.x a.x)))
          (fl.of_int (sub_int b.y a.y))))

  -- How cross_x compares with an int.
  unfoldable pub crossing : Coord → Coord → ℤ → ℤ → Ordering
  unfolding cross_x
  crossing a b y n = fl.compare (cross_x a b y) (fl.double_of_int n)

  -- An edge that may cross the line from the point to the right.
  unfoldable pub edge_crosses : Coord → Coord → ℤ → ℤ → ℕ → PolyRound
  unfolding eq_ℤ ltb_ℤ is_eq is_gt plus_if crossing
  edge_crosses a b x y crossings =
      if eq_ℤ a.x b.x
      then (if eq_ℤ a.x x then none else some (none, plus_if (ltb_ℤ x a.x) crossings))
      else if is_eq (crossing a b y b.x)
      then some (some a, crossings)
      else if is_eq (crossing a b y x)
      then none
      else some (none, plus_if (is_gt (crossing a b y x)) crossings)

  -- The edge behind a vertex that the one before has ended at, or an edge by itself.
  unfoldable pub slanted : Option Coord → Coord → Coord → ℤ → ℤ → ℕ → PolyRound
  unfolding edge_crosses passes plus_if leb_ℤ min_ℤ max_ℤ
  slanted (some check_previous) a b x y crossings =
      some (none, plus_if (passes check_previous a b) crossings)
  slanted none a b x y crossings =
      if leb_ℤ (min_ℤ a.y b.y) y && (leb_ℤ y (max_ℤ a.y b.y) && leb_ℤ x (max_ℤ a.x b.x))
      then edge_crosses a b x y crossings
      else some (none, crossings)

  -- A round of the loop of inside_poly.
  unfoldable pub poly_round : Option Coord → Coord → Coord → ℤ → ℤ → ℕ → PolyRound
  unfolding eq_ℤ leb_ℤ slanted
  poly_round check_previous a b x y crossings =
      if eq_ℤ x a.x && eq_ℤ y a.y
      then none
      else if eq_ℤ a.y b.y
      then (if eq_ℤ y a.y && ((leb_ℤ a.x x && leb_ℤ x b.x) || (leb_ℤ x a.x && leb_ℤ b.x x))
          then none
          else some (check_previous, crossings))
      else slanted check_previous a b x y crossings

  unfoldable pub last_vertex : Option Coord → Coord → Coord → ℕ → ℕ
  unfolding passes plus_if
  last_vertex none a first crossings = crossings
  last_vertex (some check_previous) a first crossings =
      plus_if (passes check_previous a first) crossings

  -- The loop of inside_poly from the vertex `a` on, and what follows it.
  unfoldable pub poly_edges : Coord → Coord → List Coord → ℤ → ℤ → Option Coord × ℕ → Bool
  unfolding poly_round last_vertex after_round
  poly_edges first a [] x y (check_previous, crossings) =
      last_vertex check_previous a first crossings % 2 == 1
  poly_edges first a (b ∷ cur) x y (check_previous, crossings) =
      after_round (poly_round check_previous a b x y crossings) (poly_edges first b cur x y)

  unfoldable pub inside_poly : List Coord → ℤ → ℤ → Bool
  unfolding poly_edges
  inside_poly [] x y = false
  inside_poly (a ∷ cur) x y = poly_edges a a cur x y (none, 0)

  unfoldable pub inside : Shape → ℤ → ℤ → Bool
  unfolding inside_rect inside_circ inside_poly
  inside (rect corner1 corner2) x y = inside_rect corner1 corner2 x y
  inside (circ center radius) x y = inside_circ center radius x y
  inside (poly coords) x y = inside_poly coords x y

  -- The loop of get_url.
  unfoldable pub url_from : List Mapping → Option CStr → ℤ → ℤ → Option CStr
  unfolding inside
  url_from [] default_url x y = default_url
  url_from (mapping ∷ cur) default_url x y =
      let rest = url_from cur default_url x y in
      if inside mapping.shape x y then some mapping.url else rest

  -- get_url
  unfoldable pub get_url : Pict → ℤ → ℤ → Option CStr
  unfolding url_from
  get_url pict x y = url_from pict.mappings pict.default_url x y
