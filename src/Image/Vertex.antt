-- ===== src/Image/Vertex.antt =====
-- The corners of a polygon are inside it (HTImage.c).
use cern_httpd.Base.{
  ℕ, ◌≤◌, ◌≡◌, refl, ap, Bool, true, false, ◌&&◌, Option, none, some, List, [], ◌∷◌, ◌++◌, length,
  length-append, arith, Bool-cases, inl, inr, ==_refl,
}
use cern_httpd.Base.Int.{ℤ, pos, negsuc}
use cern_httpd.Image.{Coord, eq_ℤ, same_coord}
use cern_httpd.Image.Picture.{last_coord, close_path}
use cern_httpd.Image.Area.{Floats, PolyRound, after_round, poly_round, poly_edges, inside_poly}

eq_ℤ-self : (a : ℤ) → eq_ℤ a a ≡ true
unfolding eq_ℤ
eq_ℤ-self (pos a) = ==_refl a
eq_ℤ-self (negsuc a) = ==_refl a

after_round-true :
    (o : PolyRound) (more : Option Coord × ℕ → Bool)
    → ((state : Option Coord × ℕ) → more state ≡ true)
    → after_round o more ≡ true
unfolding after_round
after_round-true none more h = refl
after_round-true (some state) more h = h state

same_coord-parts :
    (a b : Coord) → same_coord a b ≡ true → (eq_ℤ a.x b.x ≡ true) × (eq_ℤ a.y b.y ≡ true)
unfolding same_coord
same_coord-parts a b h = and_parts (eq_ℤ a.x b.x) (eq_ℤ a.y b.y) h
  where
    and_parts : (p q : Bool) → (p && q) ≡ true → (p ≡ true) × (q ≡ true)
    and_parts true q h = (refl, h)
    and_parts false q h = absurd (cc)

module _ (fl : Floats) where
  poly_round-vertex :
      (check : Option Coord) (a b : Coord) (x y : ℤ) (n : ℕ)
      → eq_ℤ x a.x ≡ true
      → eq_ℤ y a.y ≡ true
      → poly_round fl check a b x y n ≡ none
  unfolding poly_round
  poly_round-vertex check a b x y n ex ey = rw (ex, ey) refl

  -- At a vertex that an edge begins with, the answer is YES.
  vertex_here :
      (first a b : Coord) (cur : List Coord) (x y : ℤ) (state : Option Coord × ℕ)
      → eq_ℤ x a.x ≡ true
      → eq_ℤ y a.y ≡ true
      → poly_edges fl first a (b ∷ cur) x y state ≡ true
  unfolding poly_edges
  vertex_here first a b cur x y (check, n) ex ey =
      ap (λ (o : PolyRound). after_round o (poly_edges fl first b cur x y))
        (poly_round-vertex check a b x y n ex ey)

  edges_step :
      (first a b : Coord) (cur : List Coord) (x y : ℤ) (check : Option Coord) (n : ℕ)
      → ((state : Option Coord × ℕ) → poly_edges fl first b cur x y state ≡ true)
      → poly_edges fl first a (b ∷ cur) x y (check, n) ≡ true
  unfolding poly_edges
  edges_step first a b cur x y check n h =
      after_round-true (poly_round fl check a b x y n) (poly_edges fl first b cur x y) h

  -- And so it is at one further on.
  vertex_behind :
      (first a c b : Coord) (pre post : List Coord) (state : Option Coord × ℕ)
      → poly_edges fl first a (pre ++ (c ∷ b ∷ post)) c.x c.y state ≡ true
  vertex_behind first a c b [] post (check, n) =
      edges_step first a c (b ∷ post) c.x c.y check n
        (λ state. vertex_here first c b post c.x c.y state (eq_ℤ-self c.x) (eq_ℤ-self c.y))
  vertex_behind first a c b (d ∷ pre) post (check, n) =
      edges_step first a d (pre ++ (c ∷ b ∷ post)) c.x c.y check n
        (λ state. vertex_behind first d c b pre post state)

  last_coord-append : (p c : Coord) (pre : List Coord) → last_coord p (pre ++ c ∷ []) ≡ c
  unfolding last_coord
  last_coord-append p c [] = refl
  last_coord-append p c (d ∷ pre) = last_coord-append d c pre

  -- A point at the head of a path of two pairs at least.
  inside_poly-head :
      (a : Coord) (cur : List Coord) (x y : ℤ)
      → 1 ≤ length cur
      → eq_ℤ x a.x ≡ true
      → eq_ℤ y a.y ≡ true
      → inside_poly fl (a ∷ cur) x y ≡ true
  unfolding inside_poly
  inside_poly-head a [] x y h ex ey = absurd (omega arith)
  inside_poly-head a (b ∷ cur) x y h ex ey = vertex_here a a b cur x y (none, 0) ex ey

  inside_poly-behind :
      (a c b : Coord) (pre post : List Coord)
      → inside_poly fl (a ∷ (pre ++ (c ∷ b ∷ post))) c.x c.y ≡ true
  unfolding inside_poly
  inside_poly-behind a c b pre post = vertex_behind a a c b pre post (none, 0)

  -- Each corner of a polygon with two corners at least is inside it, whatever the arithmetic of float is: the
  -- path that parse_polygon closes begins and ends at the same corner.
  pub inside_poly-corner :
      (pre post : List Coord) (c : Coord)
      → 2 ≤ length (pre ++ (c ∷ post))
      → inside_poly fl (close_path (pre ++ (c ∷ post))) c.x c.y ≡ true
  unfolding close_path
  inside_poly-corner [] [] c h = absurd (omega arith)
  inside_poly-corner [] (b ∷ post) c h = elim (Bool-cases (same_coord (last_coord b post) c)) [
    | inl e ↦
        rw e (inside_poly-head c (b ∷ post) c.x c.y (omega arith) (eq_ℤ-self c.x) (eq_ℤ-self c.y))
    | inr e ↦ rw e (inside_poly-behind (last_coord b post) c b [] post)
  ]
  inside_poly-corner (p ∷ pre) [] c h =
      let last = last_coord-append p c pre in
      elim (Bool-cases (same_coord c p)) [
        | inl e ↦
            let (ex, ey) = same_coord-parts c p e in
            rw (last, e)
              (inside_poly-head p (pre ++ c ∷ []) c.x c.y
                (omega (arith, length-append pre (c ∷ []))) ex ey)
        | inr e ↦
            rw (last, e)
              (inside_poly-head c (p ∷ (pre ++ c ∷ [])) c.x c.y (omega arith) (eq_ℤ-self c.x)
                (eq_ℤ-self c.y))
      ]
  inside_poly-corner (p ∷ pre) (b ∷ post) c h =
      elim (Bool-cases (same_coord (last_coord p (pre ++ (c ∷ b ∷ post))) p)) [
        | inl e ↦ rw e (inside_poly-behind p c b pre post)
        | inr e ↦
            rw e (inside_poly-behind (last_coord p (pre ++ (c ∷ b ∷ post))) c b (p ∷ pre) post)
      ]
