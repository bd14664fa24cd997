-- ===== src/Acl/Total.antt =====
-- HTACL.c comes to an end on every access control list.
use cern_httpd.Base.{Bool, ℕ, arith, List, Bool-cases, inl, inr, ◌==◌}
use cern_httpd.Str.{CStr}
use cern_httpd.Group.{GroupDef}
use cern_httpd.Group.Parse.{Reader, Parsed, parsed, rejected, starved, and_parse, size}
use cern_httpd.Group.Parse.File.{parse_group_def}
use cern_httpd.Group.Parse.Fuel.{Ends, ends_parsed, ends_rejected, Left}
use cern_httpd.Group.Parse.Total.{group_def-Ends}
use cern_httpd.Acl.{filename_of, find_record, method_in_list, get_acl_entry}
use cern_httpd.Acl.Search.{
  at, Finds, no_record, other_template, other_method, found, find_record-Finds,
}

-- A result that is there.
abbrev Returns {ℓ} : {A : Type ℓ} → Parsed A → Type 0
Returns (parsed a) = Unit {0}
Returns rejected = Unit {0}
Returns starved = ⊥

Ends-Returns : (n : ℕ) (out : Parsed GroupDef × Reader) → Ends (Left n) n out → Returns out.0
Ends-Returns n _ (ends_parsed def r h) = tt
Ends-Returns n _ (ends_rejected r h) = tt

Finds-Returns :
    (filename : CStr) (accepts : List CStr → Bool) (r : Reader) (out : Parsed (List CStr) × Reader)
    → Finds filename accepts r out
    → Returns (and_parse out (λ methods. parse_group_def)).0
Finds-Returns filename accepts r _ (no_record _ buf text e) = tt
Finds-Returns filename accepts r _ (other_template _ ch buf text out e t h) =
    Finds-Returns filename accepts _ out h
Finds-Returns filename accepts r _ (other_method _ ch buf text methods rest out e t l a h) =
    Finds-Returns filename accepts _ out h
Finds-Returns filename accepts r _ (found _ ch buf text methods rest e t l a) =
    let r' = at r rest in
    Ends-Returns (size r') (parse_group_def r') (group_def-Ends (size r') r' (omega arith))

-- HTAA_getAclEntry returns for every file, path and method: neither the search for a record nor the
-- parser of the group behind it reads on for ever.
get_acl_entry-total :
    (pathname : CStr) (method : ℕ) (r : Reader) → Returns (get_acl_entry pathname method r).0
unfolding get_acl_entry
get_acl_entry-total pathname method r = elim (Bool-cases (method == 0)) [
  | inl e ↦ rw e tt
  | inr e ↦ rw e (
      Finds-Returns (filename_of pathname) (method_in_list method) r
        (find_record pathname (method_in_list method) r)
        (find_record-Finds pathname (method_in_list method) r))
]
