-- ===== src/HtList/Queue.antt =====
-- The order in which HTList.c gives objects back.
use cern_httpd.Base.{ℕ, ◌≡◌, refl, ap, ◌∙◌, some, List, [], ◌∷◌, ◌++◌}
use cern_httpd.HtList.{add_object, remove_end, remove_first_object, remove_last_object}

-- The objects behind the header when the given ones have been added in turn.
abbrev pub added : List ℕ → List ℕ → List ℕ
added me [] = me
added me (x ∷ xs) = added (x ∷ me) xs

remove_end-last :
    (object : ℕ) (me : List ℕ) (x : ℕ) → remove_end object (me ++ x ∷ []) ≡ (object ∷ me, x)
unfolding remove_end
remove_end-last object [] x = refl
remove_end-last object (y ∷ me) x = rw (remove_end-last y me x) refl

added-append : (xs me more : List ℕ) → added (me ++ more) xs ≡ added me xs ++ more
added-append [] me more = refl
added-append (x ∷ xs) me more = added-append xs (x ∷ me) more

remove_first-last : (me : List ℕ) (x : ℕ) → remove_first_object (some (me ++ x ∷ [])) ≡ (some me, x)
unfolding remove_first_object remove_end
remove_first-last [] x = refl
remove_first-last (y ∷ me) x = rw (remove_end-last y me x) refl

-- Objects leave a list by HTList_removeFirstObject in the order in which they were added, and by
-- HTList_removeLastObject in the reverse order.
remove-added :
    (me xs : List ℕ) (x y : ℕ)
    → (remove_first_object (some (added (x ∷ []) xs)) ≡ (some (added [] xs), x))
      × (add_object (some me) y ≡ some (some (y ∷ me)))
      × (remove_last_object (some (added me (xs ++ y ∷ []))) ≡ (some (added me xs), y))
unfolding add_object remove_last_object
remove-added me xs x y = (
  ap (λ t. remove_first_object (some t)) (added-append xs [] (x ∷ []))
      ∙ remove_first-last (added [] xs) x,
  refl,
  ap (λ t. remove_last_object (some t)) (added_snoc me xs y),
)
  where
    added_snoc : (me xs : List ℕ) (y : ℕ) → added me (xs ++ y ∷ []) ≡ y ∷ added me xs
    added_snoc me [] y = refl
    added_snoc me (x ∷ xs) y = added_snoc (x ∷ me) xs y
