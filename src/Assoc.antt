-- ===== src/Assoc.antt =====
-- Library/Implementation/HTAssoc.c: lists of names and values.
-- A list is that of the associations behind the header node, the one that was added last first;
-- `none` is the pointer NULL.
pub mod Lookup
use cern_httpd.Base.{Bool, Option, none, some, List, [], ◌∷◌, if◌then◌else◌, length}
use cern_httpd.Str.{CStr, strncasecomp, is_zero, sa_copy}

-- HTAssoc
pub record Association : Type 0 where
  pub name : Option CStr
  pub value : Option CStr

-- HTAssocList_new
unfoldable pub assoc_list_new : Option (List Association)
assoc_list_new = some []

-- HTAssocList_add
unfoldable pub assoc_add :
    Option (List Association) → Option CStr → Option CStr → Option (List Association)
unfolding sa_copy
assoc_add none name value = none
assoc_add (some alist) name value =
    some (record { name = sa_copy none name; value = sa_copy none value } ∷ alist)

-- What HTAssocList_lookup returns: a value, which may be NULL, or NULL at the end of the list, or
-- nothing because of a name that is NULL.
pub data Answer : Type 0 where
  answer : Option CStr → Answer
  null_name : Answer

-- `!strncasecomp(assoc->name, name, strlen(name))`
unfoldable pub is_named : CStr → CStr → Bool
unfolding strncasecomp is_zero
is_named assoc_name name = is_zero (strncasecomp assoc_name name (length name))

-- The test of one association, with what the rest of the list gives.
unfoldable pub lookup_at : Option CStr → Option CStr → CStr → Answer → Answer
unfolding is_named
lookup_at none value name further = null_name
lookup_at (some assoc_name) value name further =
    if is_named assoc_name name then answer value else further

unfoldable pub lookup_loop : List Association → CStr → Answer
unfolding lookup_at
lookup_loop [] name = answer none
lookup_loop (assoc ∷ alist) name = lookup_at assoc.name assoc.value name (lookup_loop alist name)

-- HTAssocList_lookup
unfoldable pub assoc_lookup : Option (List Association) → CStr → Answer
unfolding lookup_loop
assoc_lookup none name = answer none
assoc_lookup (some alist) name = lookup_loop alist name
