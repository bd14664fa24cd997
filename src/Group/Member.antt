-- ===== src/Group/Member.antt =====
-- HTAA_userAndInetInGroup of HTGroup.c. The static variable `poss` is passed through the recursion.
use cern_httpd.Base.{Bool, true, false, Option, none, some, if◌then◌else◌, List}
use cern_httpd.Str.{CStr}
use cern_httpd.Group.{
  GroupDef, Items, Users, Refs, group, no_items, item, any_user, users, no_refs, user, member_of,
  address_allowed, user_fits, FailReason, htaa_ok, htaa_ip_mask, htaa_not_member, Verdict, allowed,
  denied,
}

-- `if (poss) return HTAA_NOT_MEMBER; else return reason;`
unfoldable pub no_match : Verdict → Verdict
no_match allowed = allowed
no_match (denied reason true) = denied htaa_not_member true
no_match (denied reason false) = denied reason false

-- `if (!poss) reason = HTAA_IP_MASK;`
unfoldable pub mask_failed : FailReason → Bool → FailReason
mask_failed reason true = reason
mask_failed reason false = htaa_ip_mask

-- What follows a verdict: nothing behind HTAA_OK, else the rest with the values that it left.
abbrev pub and_then : Verdict → (FailReason → Bool → Verdict) → Verdict
and_then allowed rest = allowed
and_then (denied reason poss) rest = rest reason poss

-- The caller: does its address suit a mask list, and its name a reference?
unfoldable mutual
  unfolding no_match mask_failed

  pub check_group : (Option (List CStr) → Bool) → (CStr → Bool) → GroupDef → Verdict
  check_group address fits (group name items) =
      no_match (check_items address fits items htaa_not_member false)

  pub check_items :
      (Option (List CStr) → Bool) → (CStr → Bool) → Items → FailReason → Bool → Verdict
  check_items address fits no_items reason poss = denied reason poss
  check_items address fits (item who where_from items) reason poss =
      let here = check_users address fits who reason in
      let rest = λ (r : FailReason) (p : Bool). check_items address fits items r p in
      let skipped = check_items address fits items (mask_failed reason poss) poss in
      if address where_from then and_then here rest else skipped

  pub check_users : (Option (List CStr) → Bool) → (CStr → Bool) → Users → FailReason → Verdict
  check_users address fits any_user reason = allowed
  check_users address fits (users refs) reason = check_refs address fits refs reason true

  pub check_refs : (Option (List CStr) → Bool) → (CStr → Bool) → Refs → FailReason → Bool → Verdict
  check_refs address fits no_refs reason poss = denied reason poss
  check_refs address fits (user name refs) reason poss =
      let rest = check_refs address fits refs reason poss in if fits name then allowed else rest
  check_refs address fits (member_of name translation refs) reason poss =
      and_then (check_group address fits translation) (λ r p. check_refs address fits refs r p)

unfoldable pub reason_of : Verdict → FailReason
reason_of allowed = htaa_ok
reason_of (denied reason poss) = reason

-- HTAA_userAndInetInGroup
unfoldable pub user_and_inet_in_group :
    Bool → Option GroupDef → Option CStr → Option CStr → Option CStr → FailReason
unfolding check_group reason_of address_allowed user_fits
user_and_inet_in_group case_sense none username ip_number ip_name = htaa_not_member
user_and_inet_in_group case_sense (some def) username ip_number ip_name = reason_of (
    check_group (λ masks. address_allowed case_sense masks ip_number ip_name)
      (λ name. user_fits name username) def)
