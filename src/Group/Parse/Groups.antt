-- ===== src/Group/Parse/Groups.antt =====
-- Group files of HTGroup.c: references between groups, and the cache of files.
use cern_httpd.Base.{ℕ, zero, suc, Bool, false, Option, none, some, List, [], ◌∷◌, if◌then◌else◌}
use cern_httpd.Str.{CStr, streq}
use cern_httpd.Group.{
  GroupDef, Items, Users, Refs, group, group_name, no_items, item, any_user, users, no_refs, user,
  member_of,
}
use cern_httpd.Group.Parse.{Reader, Parsed, parsed, rejected, starved, size}
use cern_httpd.Group.Parse.File.{parse_group_decl}

-- find_group_def. A group of a list has a name.
unfoldable pub has_name : CStr → Option CStr → Bool
unfolding streq
has_name name none = false
has_name name (some group_name) = streq name group_name

unfoldable pub find_group_def : List GroupDef → CStr → Option GroupDef
unfolding has_name group_name
find_group_def [] name = none
find_group_def (def ∷ group_list) name =
    if has_name name (group_name def) then some def else find_group_def group_list name

-- A reference, given what the search for its name has found.
unfoldable pub translate_ref : Option GroupDef → CStr → Refs → Refs
translate_ref none name refs = user name refs
translate_ref (some def) name refs = member_of name def refs

unfoldable pub resolve_refs : List GroupDef → Refs → Refs
unfolding translate_ref find_group_def
resolve_refs group_def_list no_refs = no_refs
resolve_refs group_def_list (user name refs) =
    translate_ref (find_group_def group_def_list name) name (resolve_refs group_def_list refs)
resolve_refs group_def_list (member_of name old refs) =
    translate_ref (find_group_def group_def_list name) name (resolve_refs group_def_list refs)

unfoldable pub resolve_users : List GroupDef → Users → Users
unfolding resolve_refs
resolve_users group_def_list any_user = any_user
resolve_users group_def_list (users refs) = users (resolve_refs group_def_list refs)

unfoldable pub resolve_items : List GroupDef → Items → Items
unfolding resolve_users
resolve_items group_def_list no_items = no_items
resolve_items group_def_list (item who masks items) =
    item (resolve_users group_def_list who) masks (resolve_items group_def_list items)

-- HTAA_resolveGroupReferences; it does nothing where one of its arguments is NULL.
unfoldable pub resolve_group_references : Option (List GroupDef) → GroupDef → GroupDef
unfolding resolve_items
resolve_group_references none def = def
resolve_group_references (some group_def_list) (group name items) =
    group name (resolve_items group_def_list items)

-- add_group_def
unfoldable pub add_group_def : List GroupDef → GroupDef → List GroupDef
unfolding resolve_group_references
add_group_def group_def_list def =
    resolve_group_references (some group_def_list) def ∷ group_def_list

-- The loop of parse_group_file behind a declaration; it ends at the first that is none.
unfoldable pub file_step :
    (GroupDef → Reader → Parsed (List GroupDef))
    → List GroupDef
    → Parsed GroupDef × Reader
    → Parsed (List GroupDef)
file_step more group_def_list (parsed def, r) = more def r
file_step more group_def_list (rejected, r) = parsed group_def_list
file_step more group_def_list (starved, r) = starved

unfoldable pub file_loop : ℕ → List GroupDef → Reader → Parsed (List GroupDef)
unfolding parse_group_decl add_group_def file_step
file_loop zero group_def_list r = starved
file_loop (suc fuel) group_def_list r =
    file_step (λ def. file_loop fuel (add_group_def group_def_list def)) group_def_list
      (parse_group_decl r)

unfoldable pub parse_group_file : Reader → Parsed (List GroupDef)
unfolding file_loop size
parse_group_file r = file_loop (suc (size r)) [] r

-- GroupCache
abbrev pub Cache : Type 0
Cache = List (CStr × List GroupDef)

unfoldable pub cached : Cache → CStr → Option (List GroupDef)
unfolding streq
cached [] filename = none
cached ((name, groups) ∷ cache) filename =
    if streq filename name then some groups else cached cache filename

-- The file that fopen gives for a name is an argument.
unfoldable pub load_groups : CStr → Option Reader → Cache → Parsed (List GroupDef) × Option Cache
unfolding parse_group_file
load_groups filename none cache = (rejected, some cache)
load_groups filename (some r) cache = elim (parse_group_file r) [
  | parsed groups ↦ (parsed groups, some ((filename, groups) ∷ cache))
  | rejected ↦ (rejected, some cache)
  | starved ↦ (starved, some cache)
]

unfoldable pub read_cached :
    (CStr → Option Reader)
    → CStr
    → Option (List GroupDef)
    → Cache
    → Parsed (List GroupDef) × Option Cache
unfolding load_groups
read_cached open_file filename none cache = load_groups filename (open_file filename) cache
read_cached open_file filename (some groups) cache = (parsed groups, some cache)

-- HTAA_readGroupFile, with group_cache_list before and behind.
unfoldable pub read_group_file :
    (CStr → Option Reader) → Option CStr → Option Cache → Parsed (List GroupDef) × Option Cache
unfolding read_cached cached
read_group_file open_file none cache = (rejected, cache)
read_group_file open_file (some []) cache = (rejected, cache)
read_group_file open_file (some (c ∷ name)) none = read_cached open_file (c ∷ name) none []
read_group_file open_file (some (c ∷ name)) (some cache) =
    read_cached open_file (c ∷ name) (cached cache (c ∷ name)) cache
