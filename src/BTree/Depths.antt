-- ===== src/BTree/Depths.antt =====
-- The invariant of HTBTree.c: the depths that the elements carry are the heights of their children;
-- that the depths of a path are corrected, and that the rotations keep all of it.
use mathlib.Core.Path.{subst}
use cern_httpd.Base.{
  ℕ, suc, ◌≡◌, refl, sym, ap, ◌∙◌, true, false, Option, some, List, [], ◌∷◌, ◌++◌, append_assoc,
  arith, Bool-cases, inl, inr, ◌==◌, ltb, ==_iff,
}
use cern_httpd.BTree.{
  Element, null, element, Frame, from_left, from_right, Place, maximum, update_depths, is_null,
  rotate_right, rotate_left,
}

maximum_comm : (a b : ℕ) → maximum a b ≡ maximum b a
maximum_comm a b = ground arith

module _ {ℓ} {A : Type ℓ} where
  -- The height of a tree.
  abbrev pub depth : Element A → ℕ
  depth null = 0
  depth (element l ld o rd r) = suc (maximum (depth l) (depth r))

  -- Each element's depths are the heights of its children.
  abbrev pub IsDeep : Element A → Type 0
  IsDeep null = Unit
  IsDeep (element l ld o rd r) = (ld ≡ depth l) × (rd ≡ depth r) × IsDeep l × IsDeep r

  -- The depths on a path are right for a tree of height `d` at its end.
  abbrev pub PathIsDeep : ℕ → List (Frame A) → Type 0
  PathIsDeep d [] = Unit
  PathIsDeep d (from_left ld o rd r ∷ path) =
      (ld ≡ d) × (rd ≡ depth r) × IsDeep r × PathIsDeep (suc (maximum d (depth r))) path
  PathIsDeep d (from_right l ld o rd ∷ path) =
      (ld ≡ depth l) × (rd ≡ d) × IsDeep l × PathIsDeep (suc (maximum (depth l) d)) path

  -- The objects of a tree from left to right.
  abbrev pub objects : Element A → List A
  objects null = []
  objects (element l ld o rd r) = objects l ++ (o ∷ objects r)

  -- The objects of a whole tree, where those at the end of the path are given.
  abbrev pub around : List (Frame A) → List A → List A
  around [] xs = xs
  around (from_left ld o rd r ∷ path) xs = around path (xs ++ (o ∷ objects r))
  around (from_right l ld o rd ∷ path) xs = around path (objects l ++ (o ∷ xs))

  pub update_depths-PathIsDeep :
      (new old : ℕ) (path : List (Frame A))
      → PathIsDeep old path
      → PathIsDeep new (update_depths new path)
  unfolding update_depths
  update_depths-PathIsDeep new old [] h = tt
  update_depths-PathIsDeep new old (from_left ld o rd r ∷ path) h =
      let rest =
        update_depths-PathIsDeep (suc (maximum new rd)) (suc (maximum old (depth r))) path h.3 in
      elim (Bool-cases (ld == new)) [
        | inl e ↦ rw e (
          refl,
          h.1,
          h.2,
          subst (λ (t : ℕ). PathIsDeep (suc (maximum t (depth r))) path)
              (sym h.0 ∙ (==_iff ld new).0 e) h.3,
        )
        | inr e ↦ rw e (
          refl,
          h.1,
          h.2,
          subst
              (λ (t : ℕ).
                PathIsDeep (suc (maximum new t)) (update_depths (suc (maximum new rd)) path))
              h.1 rest,
        )
      ]
  update_depths-PathIsDeep new old (from_right l ld o rd ∷ path) h =
      let rest =
        update_depths-PathIsDeep (suc (maximum new ld)) (suc (maximum (depth l) old)) path h.3 in
      elim (Bool-cases (rd == new)) [
        | inl e ↦ rw e (
          h.0,
          refl,
          h.2,
          subst (λ (t : ℕ). PathIsDeep (suc (maximum (depth l) t)) path)
              (sym h.1 ∙ (==_iff rd new).0 e) h.3,
        )
        | inr e ↦ rw e (
          h.0,
          refl,
          h.2,
          subst (λ (t : ℕ). PathIsDeep (suc t) (update_depths (suc (maximum new ld)) path))
              (maximum_comm new ld ∙ ap (λ (t : ℕ). maximum t new) h.0) rest,
        )
      ]

  pub around-update_depths :
      (new : ℕ) (path : List (Frame A)) (xs : List A)
      → around (update_depths new path) xs ≡ around path xs
  unfolding update_depths
  around-update_depths new [] xs = refl
  around-update_depths new (from_left ld o rd r ∷ path) xs = elim (Bool-cases (ld == new)) [
    | inl e ↦ rw e refl
    | inr e ↦ rw e (around-update_depths (suc (maximum new rd)) path (xs ++ (o ∷ objects r)))
  ]
  around-update_depths new (from_right l ld o rd ∷ path) xs = elim (Bool-cases (rd == new)) [
    | inl e ↦ rw e refl
    | inr e ↦ rw e (around-update_depths (suc (maximum new ld)) path (objects l ++ (o ∷ xs)))
  ]

  -- What a place keeps: right depths in it and above it, and the tree's objects in order.
  pub record IsSound (xs : List A) (p : Place A) : Type ℓ where
    pub deep : IsDeep p.here
    pub path_deep : PathIsDeep (depth p.here) p.path
    pub not_null : is_null p.here ≡ false
    pub order : around p.path (objects p.here) ≡ xs

  -- A result that is there and sound.
  abbrev pub Sound : List A → Option (Place A) → Type ℓ
  Sound xs result = (p : Place A) × (result ≡ some p) × IsSound xs p

  pub rotate_right-Sound :
      (path : List (Frame A)) (l : Element A) (ld : ℕ) (o : A) (rd : ℕ) (r : Element A)
      → IsDeep (element l ld o rd r)
      → PathIsDeep (depth (element l ld o rd r)) path
      → ltb rd ld ≡ true
      → Sound (around path (objects (element l ld o rd r))) (rotate_right path l o rd r)
  unfolding rotate_right
  rotate_right-Sound path null ld o rd r h hp b = absurd (ground arith)
  rotate_right-Sound path (element al ald ao ard ar) ld o rd r (eld, erd, (ea, eb, da, db), dr) hp
        b =
      (
        _,
        refl,
        record {
          deep = (eb, erd, db, dr);
          path_deep = (
            ea,
            λ i. suc (maximum_comm (erd i) (eb i) i),
            da,
            subst
                (λ (t : ℕ).
                  PathIsDeep t (update_depths (suc (maximum ald (suc (maximum rd ard)))) path))
                (λ i. suc (maximum (ea i) (suc (maximum_comm (erd i) (eb i) i))))
                (update_depths-PathIsDeep (suc (maximum ald (suc (maximum rd ard)))) _ path hp),
          );
          not_null = refl;
          order =
              around-update_depths (suc (maximum ald (suc (maximum rd ard)))) path _
              ∙ ap (around path)
                  (sym (append_assoc (objects al) (ao ∷ objects ar) (o ∷ objects r)));
        },
      )

  pub rotate_left-Sound :
      (path : List (Frame A)) (l : Element A) (ld : ℕ) (o : A) (rd : ℕ) (r : Element A)
      → IsDeep (element l ld o rd r)
      → PathIsDeep (depth (element l ld o rd r)) path
      → ltb ld rd ≡ true
      → Sound (around path (objects (element l ld o rd r))) (rotate_left path l ld o r)
  unfolding rotate_left
  rotate_left-Sound path l ld o rd null h hp b = absurd (ground arith)
  rotate_left-Sound path l ld o rd (element al ald ao ard ar) (eld, erd, dl, (ea, eb, da, db)) hp
        b =
      (
        _,
        refl,
        record {
          deep = (eld, ea, dl, da);
          path_deep = (
            λ i. suc (maximum_comm (ea i) (eld i) i),
            eb,
            db,
            subst
                (λ (t : ℕ).
                  PathIsDeep t (update_depths (suc (maximum (suc (maximum ald ld)) ard)) path))
                (λ i. suc (maximum (suc (maximum_comm (ea i) (eld i) i)) (eb i)))
                (update_depths-PathIsDeep (suc (maximum (suc (maximum ald ld)) ard)) _ path hp),
          );
          not_null = refl;
          order =
              around-update_depths (suc (maximum (suc (maximum ald ld)) ard)) path _
              ∙ ap (around path) (append_assoc (objects l) (o ∷ objects al) (ao ∷ objects ar));
        },
      )
