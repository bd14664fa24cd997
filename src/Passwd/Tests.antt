-- ===== src/Passwd/Tests.antt =====
-- The theorems on HTPasswd.c at concrete passwords and files.
use cern_httpd.AaFile.{is_blank, ends_item, is_eol}
use cern_httpd.Base.{
  All, if◌then◌else◌, zero, suc, length, length-append, ap, ◌≤◌, ℕ, ◌≡◌, refl, Bool, true, Option,
  some, none, List, [], ◌∷◌, ◌++◌, codes, arith, take,
}
use cern_httpd.Str.{CStr, streq}
use cern_httpd.Passwd.{
  encrypt_passwd, passwd_match, check_password, passwd_filename, chunks, is_user, rec_accepts,
}
use cern_httpd.Passwd.Match.{passwd_match-encrypt_passwd, passwd_match-first_eight}
use cern_httpd.Passwd.File.{IsEntry, Entry, file_of, verdict, check_password-file_of}
use cern_httpd.Passwd.Total.{check_password-total}

-- A stand-in for crypt: the salt, and the first eight characters of the key before and behind dots.
abbrev pub some_crypt : CStr → CStr → CStr
some_crypt key salt = take 2 (salt ++ codes "..") ++ take 11 (take 8 key ++ codes "...........")

abbrev pub long_password : CStr
long_password = codes "correct horse"

length-take : (n : ℕ) (s : CStr) → n ≤ length s → length (take n s) ≡ n
length-take zero s le = refl
length-take (suc n) [] le = absurd (omega arith)
length-take (suc n) (c ∷ s) le = ap suc (length-take n s (omega arith))

eleven : (key : CStr) → length (take 11 (take 8 key ++ codes "...........")) ≡ 11
eleven key =
    length-take 11 (take 8 key ++ codes "...........")
      (omega (arith, length-append (take 8 key) (codes "...........")))

passwd_match-encrypt_passwd_example :
    passwd_match some_crypt (some long_password) (encrypt_passwd some_crypt 755 long_password)
    ≡ true
passwd_match-encrypt_passwd_example =
    passwd_match-encrypt_passwd some_crypt (λ key i j hi hj. (_, refl, eleven key)) 755
      long_password (omega arith)

passwd_match-first_eight_example :
    passwd_match some_crypt
      (some (codes "correct battery"))
      (encrypt_passwd some_crypt 755 long_password)
    ≡ true
passwd_match-first_eight_example =
    passwd_match-first_eight some_crypt
      (λ key other salt e.
        ap (λ (t : CStr). take 2 (salt ++ codes "..") ++ take 11 (t ++ codes "...........")) e)
      long_password (codes "correct battery") (encrypt_passwd some_crypt 755 long_password) refl
      (unfold chunks in omega arith)
      (passwd_match-encrypt_passwd some_crypt (λ key i j hi hj. (_, refl, eleven key)) 755
        long_password (omega arith))

-- Two lines of a password file: a user with a password and a real name, and one without a password.
abbrev pub some_entries : List Entry
some_entries =
    record {
      user = codes "tim";
      password = some_crypt (codes "web") (codes "zl");
      more = some (codes "Tim: CERN");
    }
    ∷ record { user = codes "guest"; password = []; more = none }
    ∷ []

abbrev pub some_files : CStr → Option (List ℕ)
some_files name = if streq name (codes "/passwd") then some (file_of some_entries) else none

pub some_entries-All : All IsEntry some_entries
unfolding encrypt_passwd is_blank ends_item is_eol
some_entries-All = ground arith

check_password-file_of_example :
    check_password some_crypt some_files
      (some (codes "tim"))
      (some (codes "web"))
      (some (codes "/passwd"))
    ≡ some (verdict some_crypt (some (codes "tim")) (some (codes "web")) some_entries)
unfolding passwd_filename streq
check_password-file_of_example =
    check_password-file_of some_crypt some_files (some (codes "tim")) (some (codes "web"))
      (some (codes "/passwd")) some_entries some_entries-All refl

verdict_test : verdict some_crypt (some (codes "tim")) (some (codes "web")) some_entries ≡ true
unfolding is_user rec_accepts encrypt_passwd
verdict_test = refl

check_password-total_example :
    (b : Bool) × (check_password some_crypt some_files
        (some (codes "nobody"))
        none
        (some (codes "/passwd"))
      ≡ some b)
check_password-total_example =
    check_password-total some_crypt some_files (some (codes "nobody")) none (some (codes "/passwd"))
