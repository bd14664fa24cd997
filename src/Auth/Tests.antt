-- ===== src/Auth/Tests.antt =====
-- The theorems on HTAuth.c at a concrete request.
use cern_httpd.Base.{◌≡◌, refl, true, false, some, none, [], ◌∷◌, ◌++◌, codes, arith, if◌then◌else◌}
use cern_httpd.Str.{streq}
use cern_httpd.Uu.{encode}
use cern_httpd.AaUtil.{basic}
use cern_httpd.Assoc.{assoc_lookup}
use cern_httpd.Auth.{AaUser, Protection, is_missing, scheme_number, authenticate}
use cern_httpd.Auth.Basic.{basic_user, authenticate-file_of}
use cern_httpd.Auth.Safe.{Accepted, authenticate-Accepted}
use cern_httpd.Passwd.{passwd_filename, is_user, rec_accepts, encrypt_passwd}
use cern_httpd.HtList.{index_of}
use cern_httpd.Passwd.File.{verdict}
use cern_httpd.Passwd.Tests.{some_crypt, some_files, some_entries, some_entries-All}

-- Basic alone is valid, and the password file is /passwd.
abbrev some_protection : Protection
some_protection = record {
  valid_schemes = some (2 ∷ []);
  values = some (record { name = some (codes "passwd"); value = some (codes "/passwd") } ∷ []);
}

authenticate-file_of_example :
    authenticate some_crypt some_files basic
      (some some_protection)
      (some (encode (codes "tim" ++ (b':' ∷ codes "web")) 0 0))
      none
    ≡ some (
        if verdict some_crypt (some (codes "tim")) (some (codes "web")) some_entries
        then (true, some (basic_user (codes "tim") (codes "web")))
        else (false, none))
unfolding index_of is_missing scheme_number assoc_lookup passwd_filename streq
authenticate-file_of_example =
    authenticate-file_of some_crypt some_files some_protection (some (codes "/passwd")) none
      (codes "tim") (codes "web") some_entries refl refl refl some_entries-All (ground arith)
      (ground arith) (ground arith)

-- The user of this request is accepted.
tim_accepted :
    authenticate some_crypt some_files basic
      (some some_protection)
      (some (encode (codes "tim" ++ (b':' ∷ codes "web")) 0 0))
      none
    ≡ some (true, some (basic_user (codes "tim") (codes "web")))
unfolding is_user rec_accepts encrypt_passwd index_of is_missing scheme_number assoc_lookup
    passwd_filename streq
tim_accepted =
    authenticate-file_of some_crypt some_files some_protection (some (codes "/passwd")) none
      (codes "tim") (codes "web") some_entries refl refl refl some_entries-All (ground arith)
      (ground arith) (ground arith)

authenticate-Accepted_example :
    (p : Protection) × (user : AaUser) × (basic ≡ basic)
    × (some some_protection ≡ some p)
    × (some (basic_user (codes "tim") (codes "web")) ≡ some user)
    × Accepted some_crypt some_files p
        (some (encode (codes "tim" ++ (b':' ∷ codes "web")) 0 0))
        user
authenticate-Accepted_example =
    authenticate-Accepted some_crypt some_files basic (some some_protection)
      (some (encode (codes "tim" ++ (b':' ∷ codes "web")) 0 0)) none
      (some (basic_user (codes "tim") (codes "web"))) tim_accepted
