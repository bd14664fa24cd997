-- ===== src/Acl.antt =====
-- Daemon/Implementation/HTACL.c: access control lists; the methods of
-- Library/Implementation/HTAccess.c.
pub mod Search
pub mod Total
pub mod Lines
pub mod Methods
pub mod First
mod Tests
use cern_httpd.Base.{
  ℕ, zero, suc, ◌+◌, Bool, true, false, ◌||◌, ◌&&◌, not, Option, none, some, List, [], ◌∷◌, ◌++◌,
  ◌==◌, map, get_or, if◌then◌else◌, length, codes, is_some,
}
use cern_httpd.Str.{CStr, strcasecomp, is_zero, strrchr, to_upper, streq, before}
use cern_httpd.Parse.Escape.{c_str}
use cern_httpd.AaUtil.{template_match}
use cern_httpd.Group.{GroupDef}
use cern_httpd.Group.Parse.{Reader, Parsed, Parser, parsed, rejected, starved, and_parse, starve}
use cern_httpd.Group.Parse.File.{parse_group_def}
use cern_httpd.AaFile.{
  is_eol, is_blank, rec_loop, next_rec, skip_space_tab, ends_item, collect, skip_item, trimmed,
  terminator, read_item, read_field, add_item, is_list_separator, list_from, read_list,
}

unfoldable pub method_names : List CStr
method_names =
    codes "INVALID-METHOD"
    ∷ codes "GET"
    ∷ codes "HEAD"
    ∷ codes "POST"
    ∷ codes "PUT"
    ∷ codes "DELETE"
    ∷ codes "CHECKOUT"
    ∷ codes "CHECKIN"
    ∷ codes "SHOWMETHOD"
    ∷ codes "LINK"
    ∷ codes "UNLINK"
    ∷ []

-- HTMethod_name
unfoldable pub method_name : ℕ → CStr
unfolding method_names
method_name method = get_or method_names method (codes "INVALID-METHOD")

-- The loop of HTMethod_inList.
unfoldable pub name_in : CStr → List CStr → Bool
unfolding strcasecomp is_zero
name_in name [] = false
name_in name (item ∷ list) = is_zero (strcasecomp item name) || name_in name list

-- HTMethod_inList
unfoldable pub method_in_list : ℕ → List CStr → Bool
unfolding method_name name_in
method_in_list method list = name_in (method_name method) list

-- MAX_METHODNAME_LEN
abbrev pub max_methodname_len : ℕ
max_methodname_len = 12

-- `filename++`, or the whole path where it has no slash.
unfoldable pub behind_slash : Option CStr → CStr → CStr
behind_slash none pathname = pathname
behind_slash (some []) pathname = []
behind_slash (some (c ∷ filename)) pathname = filename

unfoldable pub filename_of : CStr → CStr
unfolding behind_slash strrchr
filename_of pathname = behind_slash (strrchr pathname b'/') pathname

-- Behind the template of a record: the methods, if the template matches, and the rest of the text.
unfoldable pub methods_for : CStr → CStr → List ℕ → Option (Option (List CStr) × List ℕ)
unfolding template_match read_list
methods_for filename buf text =
    if template_match (some buf) (some filename)
    then elim (read_list max_methodname_len text) [
      | none ↦ none
      | some (methods, rest) ↦ some (some methods, rest)
    ]
    else some (none, text)

-- A record that is passed over, or the methods of the one that is found.
unfoldable pub record_step :
    (List CStr → Bool)
    → Parser (List CStr)
    → Option (Option (List CStr) × List ℕ)
    → Parser (List CStr)
unfolding next_rec starve
record_step accepts more none r = starve r
record_step accepts more (some (none, text)) r = more (record r { text = next_rec text })
record_step accepts more (some (some methods, text)) r =
    let skipped = more (record r { text = next_rec text }) in
    if accepts methods then (parsed methods, record r { text = text }) else skipped

-- A record, given what HTAAFile_readField has read of it.
unfoldable pub field_step :
    CStr → (List CStr → Bool) → Parser (List CStr) → Option ℕ × CStr × List ℕ → Parser (List CStr)
unfolding methods_for record_step
field_step filename accepts more (none, buf, text) r = (rejected, record r { text = text })
field_step filename accepts more (some ch, buf, text) r =
    record_step accepts more (methods_for filename buf text) r

-- The loop of HTAA_getAclEntry and of HTAA_getFullAclEntry to the record that they take: the methods
-- of that record, or nothing at the end of the file.
unfoldable pub record_loop : CStr → (List CStr → Bool) → ℕ → Parser (List CStr)
unfolding read_field field_step starve
record_loop filename accepts zero r = starve r
record_loop filename accepts (suc fuel) r =
    field_step filename accepts (record_loop filename accepts fuel)
      (read_field (length filename + 1) r.text) r

unfoldable pub find_record : CStr → (List CStr → Bool) → Parser (List CStr)
unfolding record_loop filename_of
find_record pathname accepts r = record_loop (filename_of pathname) accepts (suc (length r.text)) r

-- HTAA_getAclEntry, for a file that was opened and a path that is there. NULL is `rejected`.
unfoldable pub get_acl_entry : CStr → ℕ → Parser GroupDef
unfolding find_record parse_group_def method_in_list
get_acl_entry pathname method r =
    if method == 0
    then (rejected, r)
    else and_parse (find_record pathname (method_in_list method) r) (λ methods. parse_group_def)

unfoldable pub upper : CStr → CStr
unfolding to_upper
upper s = map to_upper s

-- The names are added one by one to another list, which turns them round.
unfoldable pub atoms : List CStr → List CStr → List CStr
unfolding upper
atoms [] result = result
atoms (str ∷ methods) result = atoms methods (upper str ∷ result)

-- `entry.groups = HTAA_parseGroupDef(acl_file)`, which may be NULL.
unfoldable pub full_entry :
    List CStr → Parsed GroupDef × Reader → Parsed (List CStr × Option GroupDef) × Reader
full_entry methods (parsed def, r) = (parsed (methods, some def), r)
full_entry methods (rejected, r) = (parsed (methods, none), r)
full_entry methods (starved, r) = (starved, r)

-- HTAA_getFullAclEntry
unfoldable pub get_full_acl_entry : CStr → Parser (List CStr × Option GroupDef)
unfolding find_record parse_group_def atoms full_entry
get_full_acl_entry pathname r =
    and_parse (find_record pathname (λ methods. true) r)
      (λ methods r1. full_entry (atoms methods []) (parse_group_def r1))

unfoldable pub acl_directory : Option CStr → CStr → CStr
unfolding before
acl_directory none pathname = codes "."
acl_directory (some name) pathname = before pathname name

-- HTAA_getAclFilename
unfoldable pub get_acl_filename : CStr → CStr
unfolding acl_directory strrchr
get_acl_filename pathname =
    acl_directory (strrchr pathname b'/') pathname ++ (codes "/" ++ codes ".www_acl")
