-- ===== src/Auth.antt =====
-- Daemon/Implementation/HTAuth.c: who sends a request.
--
-- The functions that HTPasswd.c takes as arguments are arguments here too. HTProt and HTAuthString
-- are arguments of `authenticate`, and HTUser is one and a result.
pub mod Basic
pub mod Safe
mod Tests
use cern_httpd.Base.{
  ℕ, suc, Bool, true, false, ◌&&◌, Option, none, some, List, [], ◌∷◌, if◌then◌else◌, take, length,
  codes, ◌==◌, ◌>>=◌,
}
use cern_httpd.Base.Int.{ℤ, pos, negsuc}
use cern_httpd.Str.{CStr, strchr, chop_at}
use cern_httpd.Parse.Escape.{c_str}
use cern_httpd.Uu.{decode}
use cern_httpd.AaUtil.{HtaaScheme, unknown, none_scheme, basic, pubkey, kerberos_v4, kerberos_v5}
use cern_httpd.HtList.{ObjectList, index_of}
use cern_httpd.Assoc.{Association, Answer, answer, null_name, assoc_lookup}
use cern_httpd.Passwd.{check_password}

-- HTAAUser
pub record AaUser : Type 0 where
  pub scheme : HtaaScheme
  pub username : CStr
  pub password : CStr
  pub inet_addr : Option CStr
  pub timestamp : Option CStr
  pub secret_key : Option CStr

-- The part of HTAAProt that is read here.
pub record Protection : Type 0 where
  pub valid_schemes : ObjectList
  pub values : Option (List Association)

-- A scheme as an object of a list: its place in the enumeration.
unfoldable pub scheme_number : HtaaScheme → ℕ
scheme_number unknown = 0
scheme_number none_scheme = 1
scheme_number basic = 2
scheme_number pubkey = 3
scheme_number kerberos_v4 = 4
scheme_number kerberos_v5 = 5

-- The text that HTUU_decode leaves in `cleartext`.
unfoldable pub cleartext_of : CStr → CStr
unfolding c_str decode
cleartext_of authstring =
    let (bytes, count) = decode authstring (suc (length authstring)) in c_str (take count bytes)

-- The user's name before the first colon, the password behind it.
unfoldable pub split_user : CStr → Option CStr → Option AaUser
unfolding chop_at
split_user cleartext none = none
split_user cleartext (some []) = none
split_user cleartext (some (colon ∷ password)) = some (record {
  scheme = basic;
  username = chop_at b':' cleartext;
  password = password;
  inet_addr = none;
  timestamp = none;
  secret_key = none;
})

unfoldable pub decompose_basic : CStr → Option AaUser
unfolding cleartext_of split_user strchr
decompose_basic authstring =
    let cleartext = cleartext_of authstring in split_user cleartext (strchr cleartext b':')

-- decompose_auth_string: any scheme but Basic is refused before it is looked at.
unfoldable pub decompose_auth_string : Option CStr → HtaaScheme → Option AaUser
unfolding decompose_basic
decompose_auth_string none scheme = none
decompose_auth_string (some []) scheme = none
decompose_auth_string (some (c ∷ authstring)) basic = decompose_basic (c ∷ authstring)
decompose_auth_string (some (c ∷ authstring)) scheme = none

-- `-1 == index`
unfoldable pub is_missing : ℤ → Bool
is_missing (pos n) = false
is_missing (negsuc n) = n == 0

-- `HTAA_BASIC == req->scheme || HTAA_checkTimeStamp(..) && ..`, whose stubs answer NO.
unfoldable pub scheme_allows : HtaaScheme → Bool
scheme_allows basic = true
scheme_allows scheme = false

module _ (crypt : CStr → CStr → CStr) (open_file : CStr → Option (List ℕ)) where
  -- The conditions on a decomposed user; a lookup that follows NULL is `none`.
  unfoldable pub check_user : HtaaScheme → Answer → Option AaUser → Option (Bool × Option AaUser)
  unfolding check_password scheme_allows
  check_user scheme filename none = some (false, none)
  check_user scheme null_name (some user) = none
  check_user scheme (answer filename) (some user) = do
    accepted ← check_password crypt open_file (some user.username) (some user.password) filename
    some (if accepted && scheme_allows scheme then (true, some user) else (false, none))

  -- The switch over the schemes.
  unfoldable pub authenticate_by :
      HtaaScheme → Protection → Option CStr → Option (Bool × Option AaUser)
  unfolding check_user decompose_auth_string assoc_lookup
  authenticate_by basic prot authstring =
      check_user basic (assoc_lookup prot.values (codes "passw"))
        (decompose_auth_string authstring basic)
  authenticate_by pubkey prot authstring =
      check_user pubkey (assoc_lookup prot.values (codes "passw"))
        (decompose_auth_string authstring pubkey)
  authenticate_by scheme prot authstring = some (false, none)

  unfoldable pub authenticate_for :
      HtaaScheme → Option Protection → Option CStr → Option AaUser → Option (Bool × Option AaUser)
  unfolding authenticate_by index_of is_missing scheme_number
  authenticate_for scheme none authstring ht_user = some (false, ht_user)
  authenticate_for scheme (some prot) authstring ht_user =
      if is_missing (index_of prot.valid_schemes (scheme_number scheme))
      then some (false, ht_user)
      else authenticate_by scheme prot authstring

  -- HTAA_authenticate: the answer, and HTUser behind it.
  unfoldable pub authenticate :
      HtaaScheme → Option Protection → Option CStr → Option AaUser → Option (Bool × Option AaUser)
  unfolding authenticate_for
  authenticate unknown ht_prot authstring ht_user = some (false, ht_user)
  authenticate scheme ht_prot authstring ht_user =
      authenticate_for scheme ht_prot authstring ht_user
