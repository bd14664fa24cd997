-- ===== src/Group/Denial.antt =====
-- HTAA_userAndInetInGroup of HTGroup.c never denies by HTAA_OK.
use cern_httpd.Base.{Bool, true, false, ◌≡◌, ◌≢◌, inl, inr, refl, Option, List, Bool-cases}
use cern_httpd.Str.{CStr}
use cern_httpd.Group.{
  GroupDef, Items, Users, Refs, group, no_items, item, any_user, users, no_refs, user, member_of,
  FailReason, htaa_ok, htaa_not_member, Verdict, allowed, denied,
}
use cern_httpd.Group.Member.{
  check_group, check_items, check_users, check_refs, no_match, mask_failed, and_then, reason_of,
}

-- A denial is never HTAA_OK.
abbrev pub IsDenial : Verdict → Type 0
IsDenial allowed = Unit
IsDenial (denied reason poss) = reason ≢ htaa_ok

module _ (address : Option (List CStr) → Bool) (fits : CStr → Bool) where
  mask_failed-IsDenial :
      (reason : FailReason) (poss : Bool) → reason ≢ htaa_ok → mask_failed reason poss ≢ htaa_ok
  unfolding mask_failed
  mask_failed-IsDenial reason true h = h
  mask_failed-IsDenial reason false h = λ e. cc

  no_match-IsDenial : (v : Verdict) → IsDenial v → IsDenial (no_match v)
  unfolding no_match
  no_match-IsDenial allowed h = tt
  no_match-IsDenial (denied reason true) h = λ e. cc
  no_match-IsDenial (denied reason false) h = h

  and_then-IsDenial :
      (v : Verdict) (rest : FailReason → Bool → Verdict)
      → IsDenial v
      → ((r : FailReason) (p : Bool) → r ≢ htaa_ok → IsDenial (rest r p))
      → IsDenial (and_then v rest)
  and_then-IsDenial allowed rest h k = tt
  and_then-IsDenial (denied reason poss) rest h k = k reason poss h

  mutual
    unfolding check_group

    pub check_group-IsDenial : (g : GroupDef) → IsDenial (check_group address fits g)
    check_group-IsDenial (group name items) =
        no_match-IsDenial (check_items address fits items htaa_not_member false)
          (check_items-IsDenial items htaa_not_member false (λ e. cc))

    check_items-IsDenial :
        (items : Items) (reason : FailReason) (poss : Bool)
        → reason ≢ htaa_ok
        → IsDenial (check_items address fits items reason poss)
    check_items-IsDenial no_items reason poss h = h
    check_items-IsDenial (item who masks items) reason poss h = elim (Bool-cases (address masks)) [
      | inl e ↦ rw e (
          and_then-IsDenial (check_users address fits who reason) _
            (check_users-IsDenial who reason h) (λ r p k. check_items-IsDenial items r p k))
      | inr e ↦ rw e (
          check_items-IsDenial items (mask_failed reason poss) poss
            (mask_failed-IsDenial reason poss h))
    ]

    check_users-IsDenial :
        (who : Users) (reason : FailReason)
        → reason ≢ htaa_ok
        → IsDenial (check_users address fits who reason)
    check_users-IsDenial any_user reason h = tt
    check_users-IsDenial (users refs) reason h = check_refs-IsDenial refs reason true h

    check_refs-IsDenial :
        (refs : Refs) (reason : FailReason) (poss : Bool)
        → reason ≢ htaa_ok
        → IsDenial (check_refs address fits refs reason poss)
    check_refs-IsDenial no_refs reason poss h = h
    check_refs-IsDenial (user name refs) reason poss h = elim (Bool-cases (fits name)) [
      | inl e ↦ rw e tt
      | inr e ↦ rw e (check_refs-IsDenial refs reason poss h)
    ]
    check_refs-IsDenial (member_of name def refs) reason poss h =
        and_then-IsDenial (check_group address fits def) _ (check_group-IsDenial def)
          (λ r p k. check_refs-IsDenial refs r p k)

pub reason_of-allowed : (v : Verdict) → IsDenial v → reason_of v ≡ htaa_ok → v ≡ allowed
unfolding reason_of
reason_of-allowed allowed d e = refl
reason_of-allowed (denied reason poss) d e = absurd (d e)
