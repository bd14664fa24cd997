-- ===== src/Group/Allowed.antt =====
-- Who belongs to a group: what HTAA_userAndInetInGroup decides.
use cern_httpd.Group.Denial.{check_group-IsDenial, reason_of-allowed}
use cern_httpd.Base.{
  Bool, true, false, ◌≡◌, ◌↔◌, ◌⊎◌, inl, inr, refl, ap, Option, some, List, Bool-cases,
}
use cern_httpd.Str.{CStr}
use cern_httpd.Group.{
  GroupDef, Items, Users, Refs, group, no_items, item, any_user, users, no_refs, user, member_of,
  address_allowed, user_fits, FailReason, htaa_ok, htaa_not_member, Verdict, allowed, denied,
}
use cern_httpd.Group.Member.{
  check_group, check_items, check_users, check_refs, no_match, mask_failed, reason_of,
  user_and_inet_in_group,
}

Verdict-cases : (v : Verdict) → (v ≡ allowed) ⊎ ((r : FailReason) × (p : Bool) × (v ≡ denied r p))
Verdict-cases allowed = inl refl
Verdict-cases (denied reason poss) = inr (reason, poss, refl)

module _ (address : Option (List CStr) → Bool) (fits : CStr → Bool) where
  -- Some item of the group allows the address, and lists no users, or a name that suits the user, or
  -- a group to which he belongs from this address.
  mutual
    pub data Belongs : GroupDef → Type 0 where
      by_item :
          {name : Option CStr} {items : Items} → BelongsItems items → Belongs (group name items)

    pub data BelongsItems : Items → Type 0 where
      this_item :
          {who : Users} {masks : Option (List CStr)} {items : Items}
          → address masks ≡ true
          → BelongsUsers who
          → BelongsItems (item who masks items)
      later_item :
          {who : Users} {masks : Option (List CStr)} {items : Items}
          → BelongsItems items
          → BelongsItems (item who masks items)

    pub data BelongsUsers : Users → Type 0 where
      anybody : BelongsUsers any_user
      listed : {refs : Refs} → BelongsRefs refs → BelongsUsers (users refs)

    pub data BelongsRefs : Refs → Type 0 where
      this_user : {name : CStr} {refs : Refs} → fits name ≡ true → BelongsRefs (user name refs)
      this_group :
          {name : CStr} {def : GroupDef} {refs : Refs}
          → Belongs def
          → BelongsRefs (member_of name def refs)
      later_user : {name : CStr} {refs : Refs} → BelongsRefs refs → BelongsRefs (user name refs)
      later_group :
          {name : CStr} {def : GroupDef} {refs : Refs}
          → BelongsRefs refs
          → BelongsRefs (member_of name def refs)

  no_match-allowed : (v : Verdict) → no_match v ≡ allowed → v ≡ allowed
  unfolding no_match
  no_match-allowed allowed e = refl
  no_match-allowed (denied reason true) e = cc
  no_match-allowed (denied reason false) e = cc

  mutual
    unfolding check_group

    sound_group : (g : GroupDef) → check_group address fits g ≡ allowed → Belongs g
    sound_group (group name items) e = by_item (
        sound_items items htaa_not_member false
          (no_match-allowed (check_items address fits items htaa_not_member false) e))

    sound_items :
        (items : Items) (reason : FailReason) (poss : Bool)
        → check_items address fits items reason poss ≡ allowed
        → BelongsItems items
    sound_items no_items reason poss e = cc
    sound_items (item who masks items) reason poss e = elim (Bool-cases (address masks)) [
      | inl h ↦ elim (Verdict-cases (check_users address fits who reason)) [
        | inl ok ↦ this_item h (sound_users who reason ok)
        | inr (r, p, d) ↦ later_item (sound_items items r p (rw (h, d) at e))
      ]
      | inr h ↦ later_item (sound_items items (mask_failed reason poss) poss (rw h at e))
    ]

    sound_users :
        (who : Users) (reason : FailReason)
        → check_users address fits who reason ≡ allowed
        → BelongsUsers who
    sound_users any_user reason e = anybody
    sound_users (users refs) reason e = listed (sound_refs refs reason true e)

    sound_refs :
        (refs : Refs) (reason : FailReason) (poss : Bool)
        → check_refs address fits refs reason poss ≡ allowed
        → BelongsRefs refs
    sound_refs no_refs reason poss e = cc
    sound_refs (user name refs) reason poss e = elim (Bool-cases (fits name)) [
      | inl h ↦ this_user h
      | inr h ↦ later_user (sound_refs refs reason poss (rw h at e))
    ]
    sound_refs (member_of name def refs) reason poss e =
        elim (Verdict-cases (check_group address fits def)) [
          | inl ok ↦ this_group (sound_group def ok)
          | inr (r, p, d) ↦ later_group (sound_refs refs r p (rw d at e))
        ]

  mutual
    unfolding check_group no_match

    complete_group : (g : GroupDef) → Belongs g → check_group address fits g ≡ allowed
    complete_group (group name items) (by_item b) =
        rw (complete_items items b htaa_not_member false) refl

    complete_items :
        (items : Items)
        → BelongsItems items
        → (reason : FailReason) (poss : Bool) → check_items address fits items reason poss ≡ allowed
    complete_items no_items b reason poss = elim b [ ]
    complete_items (item who masks items) (this_item h b) reason poss =
        rw (h, complete_users who b reason) refl
    complete_items (item who masks items) (later_item b) reason poss =
        elim (Bool-cases (address masks)) [
          | inl h ↦ rw h (elim (Verdict-cases (check_users address fits who reason)) [
            | inl ok ↦ rw ok refl
            | inr (r, p, d) ↦ rw d (complete_items items b r p)
          ])
          | inr h ↦ rw h (complete_items items b (mask_failed reason poss) poss)
        ]

    complete_users :
        (who : Users)
        → BelongsUsers who
        → (reason : FailReason) → check_users address fits who reason ≡ allowed
    complete_users any_user anybody reason = refl
    complete_users (users refs) (listed b) reason = complete_refs refs b reason true

    complete_refs :
        (refs : Refs)
        → BelongsRefs refs
        → (reason : FailReason) (poss : Bool) → check_refs address fits refs reason poss ≡ allowed
    complete_refs no_refs b reason poss = elim b [ ]
    complete_refs (user name refs) (this_user h) reason poss = rw h refl
    complete_refs (member_of name def refs) (this_group b) reason poss =
        rw (complete_group def b) refl
    complete_refs (user name refs) (later_user b) reason poss = elim (Bool-cases (fits name)) [
      | inl h ↦ rw h refl
      | inr h ↦ rw h (complete_refs refs b reason poss)
    ]
    complete_refs (member_of name def refs) (later_group b) reason poss =
        elim (Verdict-cases (check_group address fits def)) [
          | inl ok ↦ rw ok refl
          | inr (r, p, d) ↦ rw d (complete_refs refs b r p)
        ]

-- The user and the addresses belong to the group.
abbrev pub BelongsTo : Bool → GroupDef → Option CStr → Option CStr → Option CStr → Type 0
BelongsTo case_sense def username ip_number ip_name =
    Belongs (λ masks. address_allowed case_sense masks ip_number ip_name)
      (λ name. user_fits name username) def

-- HTAA_userAndInetInGroup returns HTAA_OK exactly for those who belong to the group: some item of it
-- allows the address, and lists no users, or a name that suits the user, or a group to which he
-- belongs from this address.
pub user_and_inet_in_group_iff :
    (case_sense : Bool) (def : GroupDef) (username ip_number ip_name : Option CStr)
    → (user_and_inet_in_group case_sense (some def) username ip_number ip_name ≡ htaa_ok)
      ↔ BelongsTo case_sense def username ip_number ip_name
unfolding user_and_inet_in_group reason_of
user_and_inet_in_group_iff case_sense def username ip_number ip_name =
    let address =
      λ (masks : Option (List CStr)). address_allowed case_sense masks ip_number ip_name in
    let fits = λ (name : CStr). user_fits name username in
    (
      λ e.
          sound_group address fits def
            (reason_of-allowed _ (check_group-IsDenial address fits def) e),
      λ b. ap reason_of (complete_group address fits def b),
    )
