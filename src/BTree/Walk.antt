-- ===== src/BTree/Walk.antt =====
-- HTBTree_next visits the objects of a tree from left to right.
use mathlib.Core.Path.{subst}
use cern_httpd.Base.{
  ℕ, zero, suc, ◌≡◌, refl, sym, Option, none, some, List, [], ◌∷◌, ◌++◌, append_assoc, append-nil,
  arith, length, ◌<◌, ◌>>=◌, ap,
}
use cern_httpd.BTree.{
  BTree, Element, null, element, Frame, from_left, from_right, Place, leftmost, climb_right,
  next_place, btree_next,
}
use cern_httpd.BTree.Depths.{objects}

module _ {ℓ} {A : Type ℓ} where
  -- The object of an element, before those of the rest.
  abbrev pub visit : Element A → Option (List A) → Option (List A)
  visit null rest = none
  visit (element l ld o rd r) rest = rest >>= (λ (os : List A). some (o ∷ os))

  -- The loop of a client: from a first element on, each one's object and then the next element.
  -- Without fuel, or where there is no object, there is no result.
  unfoldable pub walk_tree : ℕ → BTree A → Option (Place A) → Option (List A)
  walk_tree zero tree next_element = none
  walk_tree (suc n) tree none = some []
  walk_tree (suc n) tree (some p) = visit p.here (walk_tree n tree (btree_next tree (some p)))

  -- The objects behind a path's end.
  abbrev pub behind : List (Frame A) → List A
  behind [] = []
  behind (from_left ld o rd r ∷ path) = o ∷ (objects r ++ behind path)
  behind (from_right l ld o rd ∷ path) = behind path

  -- The element at a place, and the objects from it on.
  abbrev PointsAt : List A → List (Frame A) → Element A → Type ℓ
  PointsAt xs path null = some xs ≡ none
  PointsAt xs path (element l ld o rd r) = xs ≡ o ∷ (objects r ++ behind path)

  abbrev Points : List A → Option (Place A) → Type ℓ
  Points xs none = xs ≡ []
  Points xs (some p) = PointsAt xs p.path p.here

  leftmost-Points :
      (path : List (Frame A)) (l : Element A) (ld : ℕ) (o : A) (rd : ℕ) (r : Element A)
      → Points (objects (element l ld o rd r) ++ behind path) (leftmost path (element l ld o rd r))
  unfolding leftmost
  leftmost-Points path null ld o rd r = refl
  leftmost-Points path (element ll lld lo lrd lr) ld o rd r =
      rw (append_assoc (objects (element ll lld lo lrd lr)) (o ∷ objects r) (behind path))
        (leftmost-Points (from_left ld o rd r ∷ path) ll lld lo lrd lr)

  climb_right-Points :
      (path : List (Frame A)) (e : Element A) → Points (behind path) (climb_right path e)
  unfolding climb_right
  climb_right-Points [] e = refl
  climb_right-Points (from_left ld o rd r ∷ path) e = refl
  climb_right-Points (from_right l ld o rd ∷ path) e = climb_right-Points path (element l ld o rd e)

  next_place-Points :
      (path : List (Frame A)) (l : Element A) (ld : ℕ) (o : A) (rd : ℕ) (r : Element A)
      → Points (objects r ++ behind path) (next_place path (element l ld o rd r))
  unfolding next_place
  next_place-Points path l ld o rd null = climb_right-Points path (element l ld o rd null)
  next_place-Points path l ld o rd (element rl rld ro rrd rr) =
      leftmost-Points (from_right l ld o rd ∷ path) rl rld ro rrd rr

  walk_tree-Points :
      (tree : BTree A) (xs : List A) (n : ℕ) (place : Option (Place A))
      → Points xs place
      → length xs < n
      → walk_tree n tree place ≡ some xs
  unfolding walk_tree btree_next
  walk_tree-Points tree xs zero place h b = absurd (omega arith)
  walk_tree-Points tree xs (suc n) none h b = ap some (sym h)
  walk_tree-Points tree xs (suc n) (some p) h b =
      at_place xs p.path p.here h b (λ ys place. walk_tree-Points tree ys n place)
    where
      at_place :
          (xs : List A) (path : List (Frame A)) (e : Element A)
          → PointsAt xs path e
          → length xs < suc n
          → ((ys : List A) (place : Option (Place A))
              → Points ys place
              → length ys < n
              → walk_tree n tree place ≡ some ys)
          → visit e (walk_tree n tree (next_place path e)) ≡ some xs
      at_place xs path null h b ih = absurd (cc)
      at_place xs path (element l ld o rd r) h b ih =
          rw
            (ih (objects r ++ behind path) (next_place path (element l ld o rd r))
              (next_place-Points path l ld o rd r) (omega (arith, ap length h)))
            (ap some (sym h))

  -- The client's walk from the leftmost element gives all objects.
  pub walk_tree-objects :
      (tree : BTree A) (n : ℕ)
      → length (objects tree.top) < n
      → walk_tree n tree (btree_next tree none) ≡ some (objects tree.top)
  unfolding btree_next
  walk_tree-objects tree n b =
      walk_tree-Points tree (objects tree.top) n (leftmost [] tree.top) (from_top tree.top) b
    where
      from_top : (e : Element A) → Points (objects e) (leftmost [] e)
      from_top null = unfold leftmost in refl
      from_top (element l ld o rd r) =
          subst (λ (xs : List A). Points xs (leftmost [] (element l ld o rd r))) (append-nil _)
            (leftmost-Points [] l ld o rd r)
