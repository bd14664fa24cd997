-- ===== src/Assoc/Lookup.antt =====
-- What a lookup in an association list finds (HTAssoc.c).
use cern_httpd.Base.{◌≡◌, refl, ap, true, false, Option, none, some, List, [], ◌∷◌, ◌++◌}
use cern_httpd.Str.{CStr, strncasecomp, is_zero, to_lower, sa_copy}
use cern_httpd.Str.Case.{char_value_self}
use cern_httpd.Assoc.{Association, answer, is_named, lookup_at, assoc_add, assoc_lookup}

-- A name is found by each of its beginnings.
is_named-append : (name more : CStr) → is_named (name ++ more) name ≡ true
unfolding is_named strncasecomp is_zero
is_named-append [] more = refl
is_named-append (c ∷ name) more = rw (char_value_self (to_lower c)) (is_named-append name more)

sa_copy-none : (value : Option CStr) → sa_copy none value ≡ value
unfolding sa_copy
sa_copy-none none = refl
sa_copy-none (some value) = refl

-- A value that has been added is found by its name, and by each beginning of the name, whatever was
-- added before. A name that does not begin with the one sought leaves the lookup as it was.
assoc_lookup-add :
    (alist : List Association) (name more other : CStr) (value : Option CStr)
    → is_named other name ≡ false
    → (assoc_lookup (assoc_add (some alist) (some (name ++ more)) value) name ≡ answer value)
      × (assoc_lookup (assoc_add (some alist) (some other) value) name
          ≡ assoc_lookup (some alist) name)
unfolding assoc_lookup assoc_add lookup_at
assoc_lookup-add alist name more other value h =
    (rw (is_named-append name more) (ap answer (sa_copy-none value)), rw h refl)
