-- ===== src/HtList.antt =====
-- Library/Implementation/HTList.c: lists of objects.
-- An object is a pointer, a number, and NULL is 0. A list is that of its objects behind the header
-- node, which has none; `none` is the pointer NULL.
pub mod Queue
pub mod Index
use cern_httpd.Base.{
  ℕ, zero, suc, Bool, true, false, Option, none, some, List, [], ◌∷◌, ◌==◌, if◌then◌else◌, length,
}
use cern_httpd.Base.Int.{ℤ, pos, negsuc}

abbrev pub ObjectList : Type 0
ObjectList = Option (List ℕ)

-- HTList_new
unfoldable pub new : ObjectList
new = some []

-- HTList_addObject; `none` as the result is the call of abort.
unfoldable pub add_object : ObjectList → ℕ → Option ObjectList
add_object none new_object = none
add_object (some me) new_object = some (some (new_object ∷ me))

-- The loop of HTList_removeObject.
unfoldable pub remove_loop : List ℕ → ℕ → List ℕ × Bool
remove_loop [] old_object = ([], false)
remove_loop (object ∷ me) old_object =
    let (rest, found) = remove_loop me old_object in
    if object == old_object then (me, true) else (object ∷ rest, found)

unfoldable pub remove_object : ObjectList → ℕ → ObjectList × Bool
unfolding remove_loop
remove_object none old_object = (none, false)
remove_object (some me) old_object =
    let (rest, found) = remove_loop me old_object in (some rest, found)

-- HTList_removeLastObject: the object that was added last stands first.
unfoldable pub remove_last_object : ObjectList → ObjectList × ℕ
remove_last_object none = (none, 0)
remove_last_object (some []) = (some [], 0)
remove_last_object (some (object ∷ me)) = (some me, object)

-- The loop of HTList_removeFirstObject, from the node of `object` on.
unfoldable pub remove_end : ℕ → List ℕ → List ℕ × ℕ
remove_end object [] = ([], object)
remove_end object (next ∷ me) = let (rest, first) = remove_end next me in (object ∷ rest, first)

unfoldable pub remove_first_object : ObjectList → ObjectList × ℕ
unfolding remove_end
remove_first_object none = (none, 0)
remove_first_object (some []) = (some [], 0)
remove_first_object (some (object ∷ me)) =
    let (rest, first) = remove_end object me in (some rest, first)

-- HTList_count
unfoldable pub count : ObjectList → ℕ
count none = 0
count (some me) = length me

-- The loop of HTList_indexOf.
unfoldable pub index_from : ℕ → List ℕ → ℕ → ℤ
index_from position [] object = negsuc 0
index_from position (x ∷ me) object =
    let further = index_from (suc position) me object in
    if x == object then pos position else further

unfoldable pub index_of : ObjectList → ℕ → ℤ
unfolding index_from
index_of none object = negsuc 0
index_of (some me) object = index_from 0 me object

-- The loop of HTList_objectAt.
unfoldable pub object_from : List ℕ → ℕ → ℕ
object_from [] position = 0
object_from (x ∷ me) zero = x
object_from (x ∷ me) (suc position) = object_from me position

unfoldable pub object_at : ObjectList → ℤ → ℕ
unfolding object_from
object_at me (negsuc n) = 0
object_at none (pos n) = 0
object_at (some me) (pos n) = object_from me n
