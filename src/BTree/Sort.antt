-- ===== src/BTree/Sort.antt =====
-- HTBTree_add and HTBTree_next together: sorting by a tree.
use mathlib.Core.List.{Perm, perm_middle}
use mathlib.Core.Path.{subst}
use mathlib.Core.List.Perm
use cern_httpd.Base.{
  suc, ◌≡◌, refl, sym, ap, ◌∙◌, Option, none, some, List, [], ◌∷◌, ◌++◌, arith, length, append-nil,
  append_assoc, Bool-cases, inl, inr, ◌+◌, ◌>>=◌, append-nil, Bool-cases, append_assoc, inl, inr,
}
use cern_httpd.Base.Int.{ℤ}
use cern_httpd.BTree.{
  is_negative, BTree, Element, null, element, Frame, from_left, from_right, search, update_depths,
  btree_new, btree_add, btree_next, is_negative,
}
use cern_httpd.BTree.Depths.{
  objects, around, IsDeep, update_depths-PathIsDeep, around-update_depths,
}
use cern_httpd.BTree.Sound.{settle-IsDeep, search-PathIsDeep}
use cern_httpd.BTree.Order.{
  IsComparer, IsSorted, insort, insertion_sort, search-insort, insort-IsSorted,
}
use cern_httpd.BTree.Walk.{walk_tree, walk_tree-objects, behind}

module _ {ℓ} {A : Type ℓ} where
  -- The objects before a path's end.
  abbrev pub before : List (Frame A) → List A
  before [] = []
  before (from_left ld o rd r ∷ path) = before path
  before (from_right l ld o rd ∷ path) = before path ++ (objects l ++ (o ∷ []))

  around-before :
      (path : List (Frame A)) (xs : List A) → around path xs ≡ before path ++ (xs ++ behind path)
  around-before [] xs = sym (append-nil xs)
  around-before (from_left ld o rd r ∷ path) xs =
      around-before path (xs ++ (o ∷ objects r))
      ∙ ap (λ t. before path ++ t) (append_assoc xs (o ∷ objects r) (behind path))
  around-before (from_right l ld o rd ∷ path) xs =
      around-before path (objects l ++ (o ∷ xs)) ∙ simp append_assoc

  search-objects :
      (compare : A → A → ℤ) (x : A) (e : Element A) (path : List (Frame A))
      → around (search compare x e path) [] ≡ around path (objects e)
  unfolding search
  search-objects compare x null path = refl
  search-objects compare x (element l ld o rd r) path =
      elim (Bool-cases (is_negative (compare x o))) [
        | inl e ↦ rw e (search-objects compare x l (from_left ld o rd r ∷ path))
        | inr e ↦ rw e (search-objects compare x r (from_right l ld o rd ∷ path))
      ]

  -- HTBTree_add, by whatever comparer, follows no NULL and ends: the new tree holds the old
  -- one's objects in their order with the new object somewhere between them, and the depths of
  -- its elements are again the heights of their children.
  pub btree_add-IsDeep :
      (tree : BTree A) (object : A)
      → IsDeep tree.top
      → (grown : BTree A) × (btree_add tree object ≡ some grown)
        × IsDeep grown.top
        × (xs ys : List A) × (objects tree.top ≡ xs ++ ys)
        × (objects grown.top ≡ xs ++ (object ∷ ys))
  unfolding btree_add
  btree_add-IsDeep tree object h =
      let path = search tree.compare object tree.top [] in
      let fits =
        update_depths-PathIsDeep 1 0 path
          (search-PathIsDeep tree.compare object tree.top [] h tt) in
      let (top, et, d, o) = settle-IsDeep object (update_depths 1 path) fits in
      (
        record { compare = tree.compare; top = top },
        rw et refl,
        d,
        before path,
        behind path,
        sym (search-objects tree.compare object tree.top []) ∙ around-before path [],
        o ∙ around-update_depths 1 path (object ∷ []) ∙ around-before path (object ∷ []),
      )

module _ {ℓ} {A : Type ℓ} (compare : A → A → ℤ) where
  -- What HTDirBrw.c does for each entry of a directory: the objects added one after the other.
  abbrev pub add_all : List A → BTree A → Option (BTree A)
  add_all [] tree = some tree
  add_all (x ∷ xs) tree = btree_add tree x >>= (λ (grown : BTree A). add_all xs grown)

  add-insort :
      IsComparer compare
      → (x : A) (e : Element A) → IsDeep e
      → IsSorted compare (objects e)
      → (top : Element A) × (btree_add (record { compare = compare; top = e }) x
          ≡ some (record { compare = compare; top = top }))
        × IsDeep top
        × (objects top ≡ insort compare x (objects e))
  unfolding btree_add
  add-insort law x e h s =
      let path = search compare x e [] in
      let fits = update_depths-PathIsDeep 1 0 path (search-PathIsDeep compare x e [] h tt) in
      let (top, et, d, o) = settle-IsDeep x (update_depths 1 path) fits in
      (
        top,
        rw et refl,
        d,
        o ∙ around-update_depths 1 path (x ∷ []) ∙ search-insort compare law x e [] s,
      )

  add_all-insertion_sort :
      IsComparer compare
      → (xs : List A) (e : Element A) → IsDeep e
      → IsSorted compare (objects e)
      → (top : Element A) × (add_all xs (record { compare = compare; top = e })
          ≡ some (record { compare = compare; top = top }))
        × IsSorted compare (objects top)
        × (objects top ≡ insertion_sort compare xs (objects e))
  add_all-insertion_sort law [] e h s = (e, refl, s, refl)
  add_all-insertion_sort law (x ∷ xs) e h s =
      let (mid, em, d, o) = add-insort law x e h s in
      let sorted = subst (IsSorted compare) (sym o) (insort-IsSorted compare law x (objects e) s) in
      let (top, et, st, ot) = add_all-insertion_sort law xs mid d sorted in
      (top, rw em et, st, ot ∙ ap (insertion_sort compare xs) o)

  Perm-insort : (x : A) (ys : List A) → Perm (x ∷ ys) (insort compare x ys)
  Perm-insort x [] = Perm.refl (x ∷ [])
  Perm-insort x (y ∷ ys) = elim (Bool-cases (is_negative (compare x y))) [
    | inl e ↦ rw e (Perm.refl (x ∷ y ∷ ys))
    | inr e ↦ rw e (Perm.trans (Perm.swap y x ys) (Perm.cons y (Perm-insort x ys)))
  ]

  Perm-insertion_sort : (xs ys : List A) → Perm (xs ++ ys) (insertion_sort compare xs ys)
  Perm-insertion_sort [] ys = Perm.refl ys
  Perm-insertion_sort (x ∷ xs) ys = Perm.trans (Perm.symm (perm_middle xs ys)) (
      Perm.trans (Perm.append (Perm.refl xs) (Perm-insort x ys))
        (Perm-insertion_sort xs (insort compare x ys)))

  length-insertion_sort :
      (xs ys : List A) → length (insertion_sort compare xs ys) ≡ length xs + length ys
  length-insertion_sort [] ys = omega arith
  length-insertion_sort (x ∷ xs) ys =
      omega (arith, length-insertion_sort xs (insort compare x ys), length-insort x ys)
    where
      length-insort : (x : A) (ys : List A) → length (insort compare x ys) ≡ suc (length ys)
      length-insort x [] = refl
      length-insort x (y ∷ ys) = elim (Bool-cases (is_negative (compare x y))) [
        | inl e ↦ rw e refl
        | inr e ↦ rw e (ap suc (length-insort x ys))
      ]

  -- Objects added to a new tree, by a comparer that is a strict weak order, come back from
  -- HTBTree_next sorted, each one once, and those that are equal in the order in which they were
  -- added: this is insertion sort. Neither the additions nor the walk follow NULL.
  pub walk_tree-add_all :
      IsComparer compare
      → (xs : List A)
      → (tree : BTree A) × (add_all xs (btree_new compare) ≡ some tree)
        × (walk_tree (suc (length xs)) tree (btree_next tree none)
            ≡ some (insertion_sort compare xs []))
        × IsSorted compare (insertion_sort compare xs [])
        × Perm xs (insertion_sort compare xs [])
  unfolding btree_new
  walk_tree-add_all law xs =
      let (top, et, s, o) = add_all-insertion_sort law xs null tt tt in
      (
        record { compare = compare; top = top },
        et,
        walk_tree-objects (record { compare = compare; top = top }) (suc (length xs))
              (omega (arith, ap length o, length-insertion_sort xs []))
            ∙ ap some o,
        subst (IsSorted compare) o s,
        subst (λ (t : List A). Perm t (insertion_sort compare xs [])) (append-nil xs)
            (Perm-insertion_sort xs []),
      )
