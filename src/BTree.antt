-- ===== src/BTree.antt =====
-- The sorted tree of Library/Implementation/HTBTree.c and HTBTree.h.
--
-- An element's pointer `up` is the path from it to the top: an element of the tree is the element
-- with its children and the frames above it, the nearest first. A fault (`none`) is a NULL pointer
-- that is followed. The comparer is a pure function, so that the two tests of the search loop,
-- where the second one tests the father that the first has moved to, are two rounds of one test.
pub mod Depths
pub mod Sound
pub mod Order
pub mod Walk
pub mod Sort
pub mod Directory
mod Tests
use cern_httpd.Base.{
  ℕ, zero, suc, Bool, true, false, Option, none, some, List, [], ◌∷◌, ltb, if◌then◌else◌, ◌>>=◌,
  ◌==◌, ◌&&◌, ◌+◌, ◌||◌,
}
use cern_httpd.Base.Int.{ℤ, pos, negsuc}

-- struct _HTBTree_element without `up`; `null` is NULL.
pub data Element {ℓ} (A : Type ℓ) : Type ℓ where
  null : Element A
  element : Element A → ℕ → A → ℕ → Element A → Element A

-- What is above a left child, and above a right child: the father's other fields.
pub data Frame {ℓ} (A : Type ℓ) : Type ℓ where
  from_left : ℕ → A → ℕ → Element A → Frame A
  from_right : Element A → ℕ → A → ℕ → Frame A

-- A pointer to an element of a tree.
pub record Place {ℓ} (A : Type ℓ) : Type ℓ where
  pub path : List (Frame A)
  pub here : Element A

pub record BTree {ℓ} (A : Type ℓ) : Type ℓ where
  pub compare : A → A → ℤ
  pub top : Element A

unfoldable pub is_negative : ℤ → Bool
is_negative (pos n) = false
is_negative (negsuc n) = true

abbrev pub maximum : ℕ → ℕ → ℕ
maximum a b = if ltb b a then a else b

-- HTBTree_new
unfoldable pub btree_new {ℓ} : {A : Type ℓ} → (A → A → ℤ) → BTree A
btree_new comp = record { compare = comp; top = null }

module _ {ℓ} {A : Type ℓ} where
  -- An element's father, with the element as the child.
  abbrev pub up : Frame A → Element A → Element A
  up (from_left ld o rd r) e = element e ld o rd r
  up (from_right l ld o rd) e = element l ld o rd e

  -- An element without children.
  abbrev pub leaf : A → Element A
  leaf object = element null 0 object 0 null

  -- The loop that searches the father of a new element: the frames of the place that it gets.
  unfoldable pub search : (A → A → ℤ) → A → Element A → List (Frame A) → List (Frame A)
  search compare object null path = path
  search compare object (element l ld o rd r) path =
      if is_negative (compare object o)
      then search compare object l (from_left ld o rd r ∷ path)
      else search compare object r (from_right l ld o rd ∷ path)

  -- The loop that changes the depths above an element of depth `depth2`, until one stays.
  unfoldable pub update_depths : ℕ → List (Frame A) → List (Frame A)
  update_depths depth2 [] = []
  update_depths depth2 (from_left ld o rd r ∷ path) =
      from_left depth2 o rd r
      ∷ (if ld == depth2 then path else update_depths (suc (maximum depth2 rd)) path)
  update_depths depth2 (from_right l ld o rd ∷ path) =
      from_right l ld o depth2
      ∷ (if rd == depth2 then path else update_depths (suc (maximum depth2 ld)) path)

  -- The pointers `left` and `right` of an element, and tests of NULL.
  abbrev pub left : Element A → Option (Element A)
  left null = none
  left (element l ld o rd r) = some l

  abbrev pub right : Element A → Option (Element A)
  right null = none
  right (element l ld o rd r) = some r

  abbrev pub is_null : Element A → Bool
  is_null null = true
  is_null (element l ld o rd r) = false

  -- The first exception: only a right child, which has only a left child, a leaf.
  unfoldable pub right_exception : Element A → Option Bool
  right_exception e = do
    l ← left e
    if is_null l
        then (do
          r ← right e
          rr ← right r
          if is_null rr
              then (do
                rl ← left r
                rll ← left rl
                if is_null rll then right rl >>= (λ rlr. some (is_null rlr)) else some false)
              else some false)
        else some false

  -- The second exception: only a left child, which has only a right child, a leaf.
  unfoldable pub left_exception : Element A → Option Bool
  left_exception e = do
    r ← right e
    if is_null r
        then (do
          l ← left e
          ll ← left l
          if is_null ll
              then (do
                lr ← right l
                lrr ← right lr
                if is_null lrr then left lr >>= (λ lrl. some (is_null lrl)) else some false)
              else some false)
        else some false

  -- The rotations: the higher child takes the father's place and gets it as a child; the father
  -- stays in the focus.
  unfoldable pub rotate_right : List (Frame A) → Element A → A → ℕ → Element A → Option (Place A)
  rotate_right path null o rd r = none
  rotate_right path (element al ald ao ard ar) o rd r =
      let depth = suc (maximum rd ard) in
      some (record {
        path = from_right al ald ao depth ∷ update_depths (suc (maximum ald depth)) path;
        here = element ar ard o rd r;
      })

  unfoldable pub rotate_left : List (Frame A) → Element A → ℕ → A → Element A → Option (Place A)
  rotate_left path l ld o null = none
  rotate_left path l ld o (element al ald ao ard ar) =
      let depth = suc (maximum ald ld) in
      some (record {
        path = from_left depth ao ard ar ∷ update_depths (suc (maximum depth ard)) path;
        here = element l ld o ald al;
      })

  -- One correction, and whether it was made with an exception.
  unfoldable pub correct : List (Frame A) → Element A → Option (Bool × Place A)
  correct path null = none
  correct path (element l ld o rd r) = do
    right_only ← right_exception (element l ld o rd r)
    left_only ← left_exception (element l ld o rd r)
    place ← (if ltb rd ld then rotate_right path l o rd r else rotate_left path l ld o r)
    some (right_only || left_only, place)

  -- abs(left_depth - right_depth) < 2
  unfoldable pub is_balanced : Element A → Option Bool
  is_balanced null = none
  is_balanced (element l ld o rd r) = some (ltb ld (rd + 2) && ltb rd (ld + 2))

  -- The balancing loop with the number of corrections that are left of seven; an exception leaves
  -- none.
  unfoldable pub balance : ℕ → List (Frame A) → Element A → Option (Place A)
  balance zero path father = some (record { path = path; here = father })
  balance (suc n) [] father =
      let corrected = correct [] father >>= (λ (c : Bool × Place A).
        let rest = balance n c.1.path c.1.here in if c.0 then some c.1 else rest) in
      is_balanced father
      >>= (λ (b : Bool). if b then some (record { path = []; here = father }) else corrected)
  balance (suc n) (f ∷ path) father =
      let risen = balance (suc n) path (up f father) in
      let corrected = correct (f ∷ path) father >>= (λ (c : Bool × Place A).
        let rest = balance n c.1.path c.1.here in if c.0 then some c.1 else rest) in
      is_balanced father >>= (λ (b : Bool). if b then risen else corrected)

  -- The loop that climbs to the top.
  unfoldable pub climb : List (Frame A) → Element A → Element A
  climb [] e = e
  climb (f ∷ path) e = climb path (up f e)

  -- What HTBTree_add does above the new element, when the first loop has changed the depths.
  unfoldable pub settle : A → List (Frame A) → Option (Element A)
  settle object [] = some (leaf object)
  settle object (f ∷ path) =
      balance 7 path (up f (leaf object)) >>= (λ (p : Place A). some (climb p.path p.here))

  -- HTBTree_add
  unfoldable pub btree_add : BTree A → A → Option (BTree A)
  btree_add tree object = do
    top ← settle object (update_depths 1 (search tree.compare object tree.top []))
    some (record { compare = tree.compare; top = top })

  -- The leftmost element below one; `none` is NULL.
  unfoldable pub leftmost : List (Frame A) → Element A → Option (Place A)
  leftmost path null = none
  leftmost path (element null ld o rd r) =
      some (record { path = path; here = element null ld o rd r })
  leftmost path (element (element ll lld lo lrd lr) ld o rd r) =
      leftmost (from_left ld o rd r ∷ path) (element ll lld lo lrd lr)

  -- The loop that climbs from right children.
  unfoldable pub climb_right : List (Frame A) → Element A → Option (Place A)
  climb_right [] e = none
  climb_right (from_left ld o rd r ∷ path) e =
      some (record { path = path; here = element e ld o rd r })
  climb_right (from_right l ld o rd ∷ path) e = climb_right path (element l ld o rd e)

  -- The element behind one.
  unfoldable pub next_place : List (Frame A) → Element A → Option (Place A)
  next_place path null = none
  next_place path (element l ld o rd null) = climb_right path (element l ld o rd null)
  next_place path (element l ld o rd (element rl rld ro rrd rr)) =
      leftmost (from_right l ld o rd ∷ path) (element rl rld ro rrd rr)

  -- HTBTree_next
  unfoldable pub btree_next : BTree A → Option (Place A) → Option (Place A)
  btree_next tree none = leftmost [] tree.top
  btree_next tree (some ele) = next_place ele.path ele.here
