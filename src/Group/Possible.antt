-- ===== src/Group/Possible.antt =====
-- The static variable `poss` of HTAA_userAndInetInGroup (HTGroup.c).
use cern_httpd.Base.{Bool, true, false, ◌≡◌, refl, ap, Option, none, some, List}
use cern_httpd.Str.{CStr}
use cern_httpd.Group.{
  GroupDef, Users, group, no_items, item, users, no_refs, user, member_of, address_allowed,
  user_fits, htaa_ip_mask, htaa_not_member, denied,
}
use cern_httpd.Group.Member.{check_group, no_match, mask_failed, reason_of, user_and_inet_in_group}

-- A group of one item, which lists a group and a user; and the same without the group.
abbrev pub outer : CStr → GroupDef → CStr → Option (List CStr) → GroupDef
outer inner_name inner name masks =
    group none (item (users (member_of inner_name inner (user name no_refs))) masks no_items)

abbrev pub flat : CStr → Option (List CStr) → GroupDef
flat name masks = group none (item (users (user name no_refs)) masks no_items)

module _ (address : Option (List CStr) → Bool) (fits : CStr → Bool) where
  check_flat :
      (name : CStr) (masks : Option (List CStr))
      → address masks ≡ true
      → fits name ≡ false
      → check_group address fits (flat name masks) ≡ denied htaa_not_member true
  unfolding check_group no_match
  check_flat name masks a f = rw (a, f) refl

  check_masked :
      (inner_name : Option CStr) (who : Users) (masks : Option (List CStr))
      → address masks ≡ false
      → check_group address fits (group inner_name (item who masks no_items))
        ≡ denied htaa_ip_mask false
  unfolding check_group no_match mask_failed
  check_masked inner_name who masks a = rw a refl

  check_outer :
      (inner_name : CStr) (inner : GroupDef) (name : CStr) (masks : Option (List CStr))
      → address masks ≡ true
      → fits name ≡ false
      → check_group address fits inner ≡ denied htaa_ip_mask false
      → check_group address fits (outer inner_name inner name masks) ≡ denied htaa_ip_mask false
  unfolding check_group no_match
  check_outer inner_name inner name masks a f e = rw (a, e) (rw f refl)

-- An item allows the caller's address and lists a user who is not he. If a group that allows no
-- address of the caller stands before that user, the result is HTAA_IP_MASK, because the recursive
-- call resets `poss`; without the group it is HTAA_NOT_MEMBER.
pub user_and_inet_in_group-poss :
    (case_sense : Bool) (inner_name : CStr) (who : Users) (inner_masks masks : Option (List CStr))
    (name : CStr) (username ip_number ip_name : Option CStr)
    → address_allowed case_sense masks ip_number ip_name ≡ true
    → address_allowed case_sense inner_masks ip_number ip_name ≡ false
    → user_fits name username ≡ false
    → (user_and_inet_in_group case_sense
          (some
            (outer inner_name (group (some inner_name) (item who inner_masks no_items)) name masks))
          username
          ip_number
          ip_name
        ≡ htaa_ip_mask)
      × (user_and_inet_in_group case_sense (some (flat name masks)) username ip_number ip_name
          ≡ htaa_not_member)
unfolding user_and_inet_in_group reason_of
user_and_inet_in_group-poss case_sense inner_name who inner_masks masks name username ip_number
      ip_name a i f =
    let address = λ (m : Option (List CStr)). address_allowed case_sense m ip_number ip_name in
    let fits = λ (n : CStr). user_fits n username in
    let inner = group (some inner_name) (item who inner_masks no_items) in
    (
      ap reason_of (
          check_outer address fits inner_name inner name masks a f
            (check_masked address fits (some inner_name) who inner_masks i)),
      ap reason_of (check_flat address fits name masks a f),
    )
