-- ===== src/HtList/Index.antt =====
-- Positions of objects in the lists of HTList.c.
use cern_httpd.Base.{
  ℕ, suc, ◌+◌, ◌<◌, ◌≡◌, ◌≢◌, ◌⊎◌, inl, inr, refl, ap, ◌∙◌, some, List, [], ◌∷◌, arith, length,
  Bool-cases, ==_iff, ◌==◌, All, ==_refl,
}
use cern_httpd.Base.Int.{ℤ, pos, negsuc}
use cern_httpd.HtList.{index_from, index_of, object_from, object_at, count}

-- The object stands at the place that is `n` behind the first position, and not before.
abbrev pub Found : ℕ → List ℕ → ℕ → ℤ → Type 0
Found position me object at =
    (n : ℕ) × (at ≡ pos (position + n)) × (n < length me) × (object_from me n ≡ object)

abbrev pub Absent : List ℕ → ℕ → Type 0
Absent me object = All (λ x. x ≢ object) me

index_from_lem :
    (position : ℕ) (me : List ℕ) (object : ℕ)
    → Found position me object (index_from position me object)
      ⊎ ((index_from position me object ≡ negsuc 0) × Absent me object)
unfolding index_from object_from
index_from_lem position [] object = inr (refl, tt)
index_from_lem position (x ∷ me) object = elim (Bool-cases (x == object)) [
  | inl e ↦ rw e (inl (0, ap pos (omega arith), omega arith, (==_iff x object).0 e))
  | inr e ↦ rw e (elim (index_from_lem (suc position) me object) [
    | inl (n, at, lt, found) ↦ inl (suc n, at ∙ ap pos (omega arith), omega arith, found)
    | inr (at, absent) ↦ inr (at, ((λ same. cc (rw (same, ==_refl object) at e)), absent))
  ])
]

-- HTList_indexOf gives a position at which HTList_objectAt finds the object, or -1 for an object
-- that is not in the list.
index_of-object_at :
    (me : List ℕ) (object : ℕ)
    → ((n : ℕ) × (index_of (some me) object ≡ pos n)
        × (n < count (some me))
        × (object_at (some me) (pos n) ≡ object))
      ⊎ ((index_of (some me) object ≡ negsuc 0) × Absent me object)
unfolding index_of object_at count
index_of-object_at me object = elim (index_from_lem 0 me object) [
  | inl (n, at, lt, found) ↦ inl (n, at ∙ ap pos (omega arith), lt, found)
  | inr absent ↦ inr absent
]
