-- ===== src/Group/Parse/File.antt =====
-- Items and group definitions of HTGroup.c.
use cern_httpd.Base.{
  ℕ, zero, suc, Bool, true, false, Option, none, some, List, [], ◌∷◌, if◌then◌else◌, is_some, ◌||◌,
}
use cern_httpd.Str.{CStr}
use cern_httpd.Lex.{LexItem, lex_eof, lex_field_sep}
use cern_httpd.Group.{
  GroupDef, Items, Users, Refs, group, no_items, item, any_user, users, no_refs, user,
}
use cern_httpd.Group.Parse.{
  Reader, Parsed, Parser, parsed, rejected, starved, and_parse, pure, next, push_back, reject,
  starve, syntax_error, size, skip_rec_seps, is_rec_sep, is_alph, is_templ, is_open_paren,
  is_item_sep, is_at_sign, lexed, parse_user_part, parse_address_part,
}

unfoldable pub is_eof : LexItem → Bool
is_eof lex_eof = true
is_eof _ = false

unfoldable pub is_field_sep : LexItem → Bool
is_field_sep lex_field_sep = true
is_field_sep _ = false

-- A part whose syntax error the caller passes over: NULL stands for it.
unfoldable pub part_or_null : Parsed (List CStr) × Reader → Parsed (Option (List CStr)) × Reader
part_or_null (parsed names, r) = (parsed (some names), r)
part_or_null (rejected, r) = (parsed none, r)
part_or_null (starved, r) = (starved, r)

abbrev pub Item : Type 0
Item = Option (List CStr) × Option (List CStr)

-- The end of parse_item.
unfoldable pub make_item : Option (List CStr) → Option (List CStr) → Parser Item
unfolding reject
make_item user_def_list address_def_list =
    if is_some user_def_list || is_some address_def_list
    then pure (user_def_list, address_def_list)
    else reject

-- The addresses, behind the at sign.
unfoldable pub addresses_from : Option (List CStr) → LexItem → Parser Item
unfolding push_back part_or_null parse_address_part make_item reject is_templ is_open_paren
addresses_from user_def_list lex_item r =
    if is_templ lex_item || is_open_paren lex_item
    then and_parse (part_or_null (parse_address_part (push_back lex_item r)))
        (make_item user_def_list)
    else reject r

-- parse_item from the item behind the users on.
unfoldable pub parse_at : Option (List CStr) → LexItem → Parser Item
unfolding next push_back addresses_from make_item is_at_sign
parse_at user_def_list lex_item r =
    if is_at_sign lex_item
    then and_parse (next r) (addresses_from user_def_list)
    else make_item user_def_list none (push_back lex_item r)

unfoldable pub behind_users : Option (List CStr) → Parser Item
unfolding next parse_at
behind_users user_def_list r = and_parse (next r) (parse_at user_def_list)

unfoldable pub item_from : LexItem → Parser Item
unfolding push_back part_or_null parse_user_part behind_users parse_at is_alph is_open_paren
item_from lex_item r =
    if is_alph lex_item || is_open_paren lex_item
    then and_parse (part_or_null (parse_user_part (push_back lex_item r))) behind_users
    else parse_at none lex_item r

unfoldable pub parse_item : Parser Item
unfolding next item_from
parse_item r = and_parse (next r) item_from

-- The next round of the loop, with the item put back.
unfoldable pub push_then : Parser (List Item) → LexItem → Parser (List Item)
unfolding push_back
push_then more lex_item r = more (push_back lex_item r)

unfoldable pub item_step : List Item → Parser (List Item) → LexItem → Parser (List Item)
unfolding skip_rec_seps size push_then push_back is_item_sep
item_step items more lex_item r =
    if is_item_sep lex_item
    then and_parse (skip_rec_seps (suc (size r)) r) (push_then more)
    else pure items (push_back lex_item r)

-- The loop of parse_item_list, with the items so far, the last one first.
unfoldable pub item_loop : ℕ → List Item → Parser (List Item)
unfolding parse_item next item_step starve
item_loop zero items r = starve r
item_loop (suc fuel) items r =
    let more = λ (one : Item). item_loop fuel (one ∷ items) in
    and_parse (parse_item r) (λ one r1. and_parse (next r1) (item_step (one ∷ items) (more one)))

unfoldable pub parse_item_list : Parser (List Item)
unfolding item_loop size
parse_item_list r = item_loop (suc (size r)) [] r

unfoldable pub to_refs : List CStr → Refs
to_refs [] = no_refs
to_refs (name ∷ names) = user name (to_refs names)

unfoldable pub to_users : Option (List CStr) → Users
unfolding to_refs
to_users none = any_user
to_users (some names) = users (to_refs names)

unfoldable pub to_items : List Item → Items
unfolding to_users
to_items [] = no_items
to_items ((user_def_list, address_def_list) ∷ items) =
    item (to_users user_def_list) address_def_list (to_items items)

unfoldable pub end_of_def : List Item → LexItem → Parser GroupDef
unfolding to_items is_rec_sep syntax_error
end_of_def items lex_item r =
    pure (group none (to_items items)) (if is_rec_sep lex_item then r else syntax_error r)

-- HTAA_parseGroupDef: garbage behind the definition is skipped.
unfoldable pub parse_group_def : Parser GroupDef
unfolding parse_item_list next end_of_def
parse_group_def r =
    and_parse (parse_item_list r) (λ items r1. and_parse (next r1) (end_of_def items))

unfoldable pub set_name : CStr → GroupDef → GroupDef
set_name name (group old items) = group (some name) items

unfoldable pub name_def : CStr → GroupDef → Parser GroupDef
unfolding set_name
name_def name def r = pure (set_name name def) r

-- Behind the name of a group.
unfoldable pub def_from : CStr → LexItem → Parser GroupDef
unfolding parse_group_def name_def reject is_field_sep
def_from name lex_item r =
    if is_field_sep lex_item then and_parse (parse_group_def r) (name_def name) else reject r

unfoldable pub decl_from : LexItem → Parser GroupDef
unfolding next lexed def_from reject is_alph is_eof
decl_from lex_item r =
    if is_alph lex_item
    then and_parse (next r) (def_from (lexed r))
    else if is_eof lex_item
    then (rejected, r)
    else reject r

unfoldable pub parse_group_decl : Parser GroupDef
unfolding skip_rec_seps decl_from size
parse_group_decl r = and_parse (skip_rec_seps (suc (size r)) r) decl_from
