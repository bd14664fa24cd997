-- ===== src/AaUtil.antt =====
-- Library/Implementation/HTAAUtil.c: templates with one wildcard, and authentication schemes.
pub mod Match
pub mod Scheme
pub mod Directory
mod Tests
use cern_httpd.Base.{
  ℕ, ◌-◌, Bool, true, false, ◌&&◌, not, Option, none, some, [], ◌∷◌, ◌++◌, ltb, ◌==◌, if◌then◌else◌,
  length, drop, take, map, codes,
}
use cern_httpd.Str.{
  CStr, first_mismatch, streq, starts, strcasecomp, is_zero, to_upper, strrchr, before,
}

-- Behind the wildcard: `p` is compared with the end of `q` that is as long as `p`.
unfoldable pub tail_matches : (CStr → CStr → Bool) → CStr → CStr → Bool
tail_matches equal p q =
    if ltb (length q) (length p) then false else equal p (drop (length q - length p) q)

-- What HTAA_templateMatch does at the first mismatch.
unfoldable pub match_end : (CStr → CStr → Bool) → CStr → CStr → Bool
unfolding tail_matches
match_end equal [] [] = true
match_end equal [] (d ∷ q) = false
match_end equal (c ∷ p) q = if c == b'*' then tail_matches equal p q else false

-- HTAA_templateMatch
unfoldable pub template_match : Option CStr → Option CStr → Bool
unfolding first_mismatch match_end streq
template_match none filename = false
template_match (some template) none = false
template_match (some template) (some filename) =
    let (p, q) = first_mismatch template filename in match_end streq p q

-- `for( ; *p && *q && toupper(*p) == toupper(*q); p++, q++)`
unfoldable pub first_case_mismatch : CStr → CStr → CStr × CStr
first_case_mismatch [] q = ([], q)
first_case_mismatch (c ∷ p) [] = (c ∷ p, [])
first_case_mismatch (c ∷ p) (d ∷ q) =
    let further = first_case_mismatch p q in
    if to_upper c == to_upper d then further else (c ∷ p, d ∷ q)

-- HTAA_templateCaseMatch
unfoldable pub template_case_match : Option CStr → Option CStr → Bool
unfolding first_case_mismatch match_end strcasecomp is_zero
template_case_match none filename = false
template_case_match (some template) none = false
template_case_match (some template) (some filename) =
    let (p, q) = first_case_mismatch template filename in
    match_end (λ s t. is_zero (strcasecomp s t)) p q

-- The docname up to and with the slash that is pointed to, nothing if there is none.
unfoldable pub through_slash : CStr → Option CStr → CStr
unfolding before
through_slash docname (some slash) = before docname slash ++ b'/' ∷ []
through_slash docname none = []

-- HTAA_makeProtectionTemplate
unfoldable pub make_protection_template : Option CStr → CStr
unfolding through_slash strrchr
make_protection_template none = b'*' ∷ []
make_protection_template (some docname) = through_slash docname (strrchr docname b'/') ++ b'*' ∷ []

pub data HtaaScheme : Type 0 where
  unknown : HtaaScheme
  none_scheme : HtaaScheme
  basic : HtaaScheme
  pubkey : HtaaScheme
  kerberos_v4 : HtaaScheme
  kerberos_v5 : HtaaScheme

-- HTAAScheme_enum. The comparisons are of prefixes, as strncmp makes them.
unfoldable pub scheme_enum : Option CStr → HtaaScheme
unfolding to_upper starts
scheme_enum none = unknown
scheme_enum (some name) =
    let upcased = map to_upper name in
    if starts (codes "NONE") upcased
    then none_scheme
    else if starts (codes "BASIC") upcased
    then basic
    else if starts (codes "PUBKEY") upcased
    then pubkey
    else if starts (codes "KERBEROSV4") upcased
    then kerberos_v4
    else if starts (codes "KERBEROSV5") upcased
    then kerberos_v5
    else unknown

-- HTAAScheme_name
unfoldable pub scheme_name : HtaaScheme → CStr
scheme_name none_scheme = codes "None"
scheme_name basic = codes "Basic"
scheme_name pubkey = codes "Pubkey"
scheme_name kerberos_v4 = codes "KerberosV4"
scheme_name kerberos_v5 = codes "KerberosV5"
scheme_name unknown = codes "UNKNOWN"
