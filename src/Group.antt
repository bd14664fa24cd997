-- ===== src/Group.antt =====
-- Daemon/Implementation/HTGroup.c: groups of users and addresses.
-- A definition is a value; HTAA_resolveGroupReferences puts the referenced definition in place of
-- a name. The lists are in the order in which HTList_nextObject gives them, the one that was added
-- last first.
pub mod Member
pub mod Denial
pub mod Allowed
pub mod Possible
pub mod Parse
mod Tests
use cern_httpd.Base.{
  ℕ, Bool, true, false, ◌||◌, ◌&&◌, Option, none, some, List, [], ◌∷◌, if◌then◌else◌, map, codes,
  is_some,
}
use cern_httpd.Str.{CStr, to_lower, streq, strcasecomp, is_zero}
use cern_httpd.Wild.{HtPattern, pattern_new, pattern_match, has_text}

-- A Ref whose translation is NULL is a `user`, one with a translation is a `member_of`.
mutual
  pub data GroupDef : Type 0 where
    group : Option CStr → Items → GroupDef

  pub data Items : Type 0 where
    no_items : Items
    item : Users → Option (List CStr) → Items → Items

  pub data Users : Type 0 where
    any_user : Users
    users : Refs → Users

  pub data Refs : Type 0 where
    no_refs : Refs
    user : CStr → Refs → Refs
    member_of : CStr → GroupDef → Refs → Refs

unfoldable pub group_name : GroupDef → Option CStr
group_name (group name items) = name

unfoldable pub group_items : GroupDef → Items
group_items (group name items) = items

-- A string that may be NULL against the pattern.
unfoldable pub mask_fits : Bool → HtPattern → Option CStr → Bool
unfolding pattern_match
mask_fits case_sense pat none = false
mask_fits case_sense pat (some text) = is_some (pattern_match case_sense pat [] (some text))

unfoldable pub lower_name : Option CStr → Option CStr
unfolding to_lower
lower_name none = none
lower_name (some ip_name) = some (map to_lower ip_name)

-- HTIpMaskMatch
unfoldable pub ip_mask_match : Bool → HtPattern → Option CStr → Option CStr → Bool
unfolding mask_fits lower_name
ip_mask_match case_sense pat ip_number ip_name =
    mask_fits case_sense pat (lower_name ip_name) || mask_fits case_sense pat ip_number

-- The loop of ip_in_def_list.
unfoldable pub in_masks : Bool → List CStr → Option CStr → Option CStr → Bool
unfolding ip_mask_match pattern_new
in_masks case_sense [] ip_number ip_name = false
in_masks case_sense (mask ∷ address_def_list) ip_number ip_name =
    ip_mask_match case_sense (pattern_new (some mask)) ip_number ip_name
    || in_masks case_sense address_def_list ip_number ip_name

unfoldable pub ip_in_def_list : Bool → Option (List CStr) → Option CStr → Option CStr → Bool
unfolding in_masks
ip_in_def_list case_sense none ip_number ip_name = false
ip_in_def_list case_sense (some address_def_list) ip_number ip_name =
    if is_some ip_number || is_some ip_name
    then in_masks case_sense address_def_list ip_number ip_name
    else false

-- `!item->address_def_list || ip_in_def_list(...)`
unfoldable pub address_allowed : Bool → Option (List CStr) → Option CStr → Option CStr → Bool
unfolding ip_in_def_list
address_allowed case_sense none ip_number ip_name = true
address_allowed case_sense (some masks) ip_number ip_name =
    ip_in_def_list case_sense (some masks) ip_number ip_name

-- `0==strcasecomp(ref->name, word)`
unfoldable pub is_word : CStr → CStr → Bool
unfolding strcasecomp is_zero
is_word name word = is_zero (strcasecomp name word)

-- The names that stand for every user who gave a name.
unfoldable pub named_fits : CStr → CStr → Bool
unfolding streq is_word
named_fits name username =
    streq name username
    || is_word name (codes "Users")
    || is_word name (codes "All")
    || is_word name (codes "*")

-- The names that stand for everybody.
unfoldable pub is_anybody : CStr → Bool
unfolding is_word
is_anybody name =
    is_word name (codes "Anybody")
    || is_word name (codes "Anyone")
    || is_word name (codes "Anonymous")

unfoldable pub user_fits : CStr → Option CStr → Bool
unfolding named_fits is_anybody has_text
user_fits name none = is_anybody name
user_fits name (some username) = (has_text username && named_fits name username) || is_anybody name

-- The values of HTAAFailReason that HTAA_userAndInetInGroup returns.
pub data FailReason : Type 0 where
  htaa_ok : FailReason
  htaa_ip_mask : FailReason
  htaa_not_member : FailReason

-- How a call or a loop ends: with HTAA_OK, or with the values of `reason` and of the static `poss`.
pub data Verdict : Type 0 where
  allowed : Verdict
  denied : FailReason → Bool → Verdict
