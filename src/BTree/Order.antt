-- ===== src/BTree/Order.antt =====
-- Sorted lists under a comparer, and the place that HTBTree_add searches for a new object.
use cern_httpd.Base.{
  ◌≡◌, refl, sym, ap, ◌∙◌, true, false, List, [], ◌∷◌, ◌++◌, Bool-cases, inl, inr, All,
  if◌then◌else◌,
}
use cern_httpd.Base.Int.{ℤ}
use cern_httpd.BTree.{Element, null, element, Frame, from_left, from_right, search, is_negative}
use cern_httpd.BTree.Depths.{objects, around}

-- What HTBTree.c takes for granted of the user's comparer: "before" is a strict weak order.
pub record IsComparer {ℓ} {A : Type ℓ} (compare : A → A → ℤ) : Type ℓ where
  pub asym : (a b : A) → is_negative (compare a b) ≡ true → is_negative (compare b a) ≡ false
  pub trans_not :
      (a b c : A)
      → is_negative (compare a b) ≡ false
      → is_negative (compare b c) ≡ false
      → is_negative (compare a c) ≡ false

module _ {ℓ} {A : Type ℓ} (compare : A → A → ℤ) where
  -- No object behind another one goes before it.
  abbrev pub NotBefore : A → A → Type 0
  NotBefore a b = is_negative (compare b a) ≡ false

  abbrev pub IsSorted : List A → Type 0
  IsSorted [] = Unit
  IsSorted (x ∷ xs) = All (NotBefore x) xs × IsSorted xs

  -- The object before the first one that it goes before: behind all its equals.
  abbrev pub insort : A → List A → List A
  insort x [] = x ∷ []
  insort x (y ∷ ys) = if is_negative (compare x y) then x ∷ y ∷ ys else y ∷ insort x ys

  abbrev pub insertion_sort : List A → List A → List A
  insertion_sort [] sorted = sorted
  insertion_sort (x ∷ xs) sorted = insertion_sort xs (insort x sorted)

  insort-left :
      (x o : A) (ls rs : List A)
      → is_negative (compare x o) ≡ true
      → insort x (ls ++ (o ∷ rs)) ≡ insort x ls ++ (o ∷ rs)
  insort-left x o [] rs h = rw h refl
  insort-left x o (y ∷ ls) rs h = elim (Bool-cases (is_negative (compare x y))) [
    | inl e ↦ rw e refl
    | inr e ↦ rw e (ap (λ t. y ∷ t) (insort-left x o ls rs h))
  ]

  insort-right :
      (x o : A) (ls rs : List A)
      → All (λ y. is_negative (compare x y) ≡ false) ls
      → is_negative (compare x o) ≡ false
      → insort x (ls ++ (o ∷ rs)) ≡ ls ++ (o ∷ insort x rs)
  insort-right x o [] rs hl h = rw h refl
  insort-right x o (y ∷ ls) rs hl h = rw hl.0 (ap (λ t. y ∷ t) (insort-right x o ls rs hl.1 h))

  -- The halves of a sorted list.
  IsSorted-halves :
      (o : A) (ls rs : List A)
      → IsSorted (ls ++ (o ∷ rs))
      → IsSorted ls × All (λ y. NotBefore y o) ls × IsSorted rs
  IsSorted-halves o [] rs h = (tt, tt, h.1)
  IsSorted-halves o (y ∷ ls) rs h =
      let (a, b, c) = IsSorted-halves o ls rs h.1 in
      let (front, mid) = All-halves (NotBefore y) ls (o ∷ rs) h.0 in ((front, a), (mid.0, b), c)
    where
      All-halves : (P : A → Type 0) (xs ys : List A) → All P (xs ++ ys) → All P xs × All P ys
      All-halves P [] ys h = (tt, h)
      All-halves P (x ∷ xs) ys h = let (a, b) = All-halves P xs ys h.1 in ((h.0, a), b)

  All-insort : (P : A → Type 0) (x : A) (ys : List A) → P x → All P ys → All P (insort x ys)
  All-insort P x [] p h = (p, tt)
  All-insort P x (y ∷ ys) p h = elim (Bool-cases (is_negative (compare x y))) [
    | inl e ↦ rw e (p, h)
    | inr e ↦ rw e (h.0, All-insort P x ys p h.1)
  ]

  module _ (law : IsComparer compare) where
    All-trans_not :
        (x o : A) (ls : List A)
        → is_negative (compare x o) ≡ false
        → All (λ y. NotBefore y o) ls
        → All (λ y. is_negative (compare x y) ≡ false) ls
    All-trans_not x o [] h hl = tt
    All-trans_not x o (y ∷ ls) h hl = (law.trans_not x o y h hl.0, All-trans_not x o ls h hl.1)

    -- In a sorted tree the search ends where the object belongs.
    pub search-insort :
        (x : A) (e : Element A) (path : List (Frame A))
        → IsSorted (objects e)
        → around (search compare x e path) (x ∷ []) ≡ around path (insort x (objects e))
    unfolding search
    search-insort x null path h = refl
    search-insort x (element l ld o rd r) path h =
        let (sl, before_o, sr) = IsSorted-halves o (objects l) (objects r) h in
        elim (Bool-cases (is_negative (compare x o))) [
          | inl e ↦ rw e (
              search-insort x l (from_left ld o rd r ∷ path) sl
              ∙ ap (around path) (sym (insort-left x o (objects l) (objects r) e)))
          | inr e ↦ rw e (
              search-insort x r (from_right l ld o rd ∷ path) sr
              ∙ ap (around path) (
                  sym (
                    insort-right x o (objects l) (objects r)
                      (All-trans_not x o (objects l) e before_o) e)))
        ]

    pub insort-IsSorted : (x : A) (ys : List A) → IsSorted ys → IsSorted (insort x ys)
    insort-IsSorted x [] h = (tt, tt)
    insort-IsSorted x (y ∷ ys) h = elim (Bool-cases (is_negative (compare x y))) [
      | inl e ↦ rw e ((law.asym x y e, behind ys h.0 (law.asym x y e)), h)
      | inr e ↦ rw e (All-insort (NotBefore y) x ys e h.0, insort-IsSorted x ys h.1)
    ]
      where
        behind : (zs : List A) → All (NotBefore y) zs → NotBefore x y → All (NotBefore x) zs
        behind [] hz b = tt
        behind (z ∷ zs) hz b = (law.trans_not z y x hz.0 b, behind zs hz.1 b)
