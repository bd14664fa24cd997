-- ===== src/Image/Corners.antt =====
-- The corners that parse_polygon of HTImage.c collects are the closed path of the pairs.
use cern_httpd.Base.{
  ◌≡◌, refl, sym, ap, ◌∙◌, List, [], ◌∷◌, ◌++◌, append_assoc, Bool-cases, inl, inr,
}
use cern_httpd.Image.{Coord, same_coord, add_coord}
use cern_httpd.Image.Picture.{last_coord, close_path}
use cern_httpd.Image.Lines.{Pair, coord_of, distinct_after, back_to, closed_path, backwards}

-- The corners behind those that were collected before, the one that was written last first.
abbrev pub corners : List Coord → List Pair → List Coord
corners coords [] = coords
corners coords (p ∷ ps) = corners (add_coord (coord_of p) coords) ps

corners-distinct :
    (prev : Coord) (coords : List Coord) (ps : List Pair)
    → corners (prev ∷ coords) ps ≡ backwards (distinct_after prev ps) ++ (prev ∷ coords)
unfolding add_coord
corners-distinct prev coords [] = refl
corners-distinct prev coords (p ∷ ps) = elim (Bool-cases (same_coord (coord_of p) prev)) [
  | inl e ↦ rw e (corners-distinct prev coords ps)
  | inr e ↦ rw e (
      corners-distinct (coord_of p) (prev ∷ coords) ps
      ∙ sym (
          append_assoc (backwards (distinct_after (coord_of p) ps)) (coord_of p ∷ [])
            (prev ∷ coords)))
]

-- The path `first`, ..., `c`, `path`, of which the part up to `c` is written backwards in `tail`.
close_path-back_to :
    (first c : Coord) (tail path : List Coord)
    → last_coord c tail ≡ first
    → close_path (backwards path ++ (c ∷ tail)) ≡ backwards (back_to first c path) ++ (c ∷ tail)
unfolding close_path last_coord
close_path-back_to first c tail [] e = elim (Bool-cases (same_coord first c)) [
  | inl s ↦ rw (e, s) refl
  | inr s ↦ rw (e, s) refl
]
close_path-back_to first c tail (d ∷ path) e =
    ap close_path (append_assoc (backwards path) (d ∷ []) (c ∷ tail))
    ∙ close_path-back_to first d (c ∷ tail) path e
    ∙ sym (append_assoc (backwards (back_to first d path)) (d ∷ []) (c ∷ tail))

pub close_path-corners : (ps : List Pair) → close_path (corners [] ps) ≡ backwards (closed_path ps)
unfolding close_path add_coord last_coord
close_path-corners [] = refl
close_path-corners (p ∷ ps) =
    let c = coord_of p in
    ap close_path (corners-distinct c [] ps) ∙ close_path-back_to c c [] (distinct_after c ps) refl
