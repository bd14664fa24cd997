-- ===== src/Group/Tests.antt =====
-- The theorems on HTGroup.c at concrete groups.
use cern_httpd.Group.Parse.Cached.{read_group_file-again}
use cern_httpd.Group.Parse.Total.{parse_group_file-total}
use cern_httpd.Group.Parse.Groups.{read_group_file}
use cern_httpd.Base.{true, ◌≡◌, ◌↔◌, refl, some, none, Option, List, [], ◌∷◌, codes, ◌++◌}
use cern_httpd.Str.{CStr}
use cern_httpd.Group.{
  GroupDef, group, no_items, item, users, no_refs, user, htaa_ok, htaa_ip_mask, htaa_not_member,
  address_allowed, user_fits, member_of,
}
use cern_httpd.Lex.{initial}
use cern_httpd.Group.Parse.{Reader, parsed}
use cern_httpd.Group.Parse.Groups.{parse_group_file, read_group_file}
use cern_httpd.Group.Member.{user_and_inet_in_group}
use cern_httpd.Group.Allowed.{BelongsTo, user_and_inet_in_group_iff}
use cern_httpd.Group.Possible.{outer, flat, user_and_inet_in_group-poss}

abbrev cern_hosts : Option (List CStr)
cern_hosts = some (codes "128.141.*" ∷ [])

abbrev other_hosts : Option (List CStr)
other_hosts = some (codes "192.*" ∷ [])

abbrev staff : GroupDef
staff = group (some (codes "staff")) (item (users (user (codes "tim") no_refs)) cern_hosts no_items)

tim_from_cern :
    user_and_inet_in_group true (some staff) (some (codes "tim")) (some (codes "128.141.2.3")) none
    ≡ htaa_ok
unfolding user_and_inet_in_group
tim_from_cern = refl

tim_from_elsewhere :
    user_and_inet_in_group true (some staff) (some (codes "tim")) (some (codes "130.1.2.3")) none
    ≡ htaa_ip_mask
unfolding user_and_inet_in_group
tim_from_elsewhere = refl

user_and_inet_in_group_iff_example :
    (user_and_inet_in_group true (some staff) (some (codes "tim")) (some (codes "128.141.2.3")) none
      ≡ htaa_ok)
    ↔ BelongsTo true staff (some (codes "tim")) (some (codes "128.141.2.3")) none
user_and_inet_in_group_iff_example =
    user_and_inet_in_group_iff true staff (some (codes "tim")) (some (codes "128.141.2.3")) none

user_and_inet_in_group-poss_example :
    (user_and_inet_in_group true
        (some (
          outer
            (codes "staff")
            (group
              (some (codes "staff"))
              (item (users (user (codes "tim") no_refs)) other_hosts no_items))
            (codes "ari")
            cern_hosts))
        (some (codes "tim"))
        (some (codes "128.141.2.3"))
        none
      ≡ htaa_ip_mask)
    × (user_and_inet_in_group true
          (some (flat (codes "ari") cern_hosts))
          (some (codes "tim"))
          (some (codes "128.141.2.3"))
          none
        ≡ htaa_not_member)
user_and_inet_in_group-poss_example =
    user_and_inet_in_group-poss true (codes "staff") (users (user (codes "tim") no_refs))
      other_hosts cern_hosts (codes "ari") (some (codes "tim")) (some (codes "128.141.2.3")) none
      (unfold address_allowed in refl) (unfold address_allowed in refl) (unfold user_fits in refl)

abbrev reader_of : CStr → Reader
reader_of text = record { fp = 3; st = initial; text = text }

abbrev parsed_staff : GroupDef
parsed_staff = group (some (codes "staff")) (
    item (users (user (codes "jim") (user (codes "ari") no_refs))) (some (codes "128.*" ∷ []))
      (item (users (user (codes "tim") no_refs)) none no_items))

two_groups :
    parse_group_file
      (reader_of (codes "staff: tim, (ari, jim)@128.*" ++ 10 ∷ codes "all : staff,\nann\n"))
    ≡ parsed (
        group (some (codes "all")) (
          item
            (users (user (codes "ann") no_refs))
            none
            (item (users (member_of (codes "staff") parsed_staff no_refs)) none no_items))
        ∷ parsed_staff
        ∷ [])
unfolding parse_group_file initial
two_groups = refl

abbrev open_groups : CStr → Option Reader
open_groups name = some (reader_of (codes "staff: tim, (ari, jim)@128.*\n"))

abbrev open_nothing : CStr → Option Reader
open_nothing name = none

-- The group file is taken away between the two calls.
read_group_file-again_example :
    (read_group_file open_nothing
        (some (b'g' ∷ codes "roup"))
        (read_group_file open_groups (some (b'g' ∷ codes "roup")) none).1
      ≡ read_group_file open_groups (some (b'g' ∷ codes "roup")) none)
    × (groups : List GroupDef) × ((read_group_file open_groups (some (b'g' ∷ codes "roup")) none).0
        ≡ parsed groups)
read_group_file-again_example =
    read_group_file-again open_groups open_nothing b'g' (codes "roup")
      (reader_of (codes "staff: tim, (ari, jim)@128.*\n")) none refl

-- The file ends within a list.
parse_group_file-total_example :
    (group_list : List GroupDef) × (parse_group_file (reader_of (codes "staff: tim, (ari, "))
      ≡ parsed group_list)
parse_group_file-total_example = parse_group_file-total (reader_of (codes "staff: tim, (ari, "))
