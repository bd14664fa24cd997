-- ===== src/Auth/Basic.antt =====
-- The Basic scheme of HTAuth.c from the encoding that the client sends to the password file.
use cern_httpd.Base.{
  ℕ, zero, suc, ◌+◌, ◌*◌, ◌/◌, ◌≤◌, ◌<◌, ◌≡◌, ◌≢◌, refl, ap, ◌∙◌, Bool, true, false, ◌&&◌, Option,
  none, some, List, [], ◌∷◌, ◌++◌, length, length-append, arith, if◌then◌else◌, All, All-append,
  codes, take,
}
use cern_httpd.Str.{CStr, strchr}
use cern_httpd.Parse.Escape.{c_str}
use cern_httpd.Parse.Address.RoundTrip.{Lacks, chop_at-append, strchr-append}
use cern_httpd.Uu.{encode, decode}
use cern_httpd.Uu.RoundTrip.{IsOctet, decode-encode}
use cern_httpd.AaUtil.{basic}
use cern_httpd.HtList.{index_of}
use cern_httpd.Assoc.{answer, assoc_lookup}
use cern_httpd.Passwd.{passwd_filename}
use cern_httpd.Passwd.File.{Entry, IsEntry, file_of, verdict, check_password-file_of}
use cern_httpd.Auth.{
  AaUser, Protection, cleartext_of, split_user, decompose_basic, decompose_auth_string, is_missing,
  scheme_number, check_user, authenticate_by, authenticate_for, authenticate,
}

-- A byte of a text: not the terminator.
abbrev pub IsTextByte : ℕ → Type 0
IsTextByte c = (c ≢ 0) × (c < 256)

IsOctet-IsTextByte : (s : CStr) → All IsTextByte s → All IsOctet s
IsOctet-IsTextByte [] h = tt
IsOctet-IsTextByte (c ∷ s) h = (h.0.1, IsOctet-IsTextByte s h.1)

c_str-text : (s : CStr) → All IsTextByte s → c_str s ≡ s
unfolding c_str
c_str-text [] h = refl
c_str-text (zero ∷ s) h = absurd (h.0.0 refl)
c_str-text (suc c ∷ s) h = ap (λ t. suc c ∷ t) (c_str-text s h.1)

encode-length : (s : CStr) → (length s + 2) / 3 * 3 ≤ length (encode s 0 0)
unfolding encode
encode-length [] = omega arith
encode-length (a ∷ []) = omega arith
encode-length (a ∷ b ∷ []) = omega arith
encode-length (a ∷ b ∷ c ∷ s) = omega (arith, encode-length s)

cleartext_of-encode : (s : CStr) → All IsTextByte s → cleartext_of (encode s 0 0) ≡ s
unfolding cleartext_of
cleartext_of-encode s h =
    let size = suc (length (encode s 0 0)) in
    let (count, bytes) =
      decode-encode s size (IsOctet-IsTextByte s h) (omega (arith, encode-length s)) in
    ap (λ n. c_str (take n (decode (encode s 0 0) size).0)) count ∙ ap c_str bytes ∙ c_str-text s h

decompose-basic :
    (s : CStr) → 0 < length s → decompose_auth_string (some s) basic ≡ decompose_basic s
unfolding decompose_auth_string
decompose-basic [] h = absurd (omega arith)
decompose-basic (c ∷ s) h = refl

-- The user that a name and a password stand for.
abbrev pub basic_user : CStr → CStr → AaUser
basic_user username password = record {
  scheme = basic;
  username = username;
  password = password;
  inet_addr = none;
  timestamp = none;
  secret_key = none;
}

-- decompose_auth_string gets back the name and the password that a client has joined by a colon and
-- encoded by HTUU_encode, where the name has no colon; the password may have some.
pub decompose_auth_string-encode :
    (username password : CStr)
    → Lacks b':' username
    → All IsTextByte username
    → All IsTextByte password
    → decompose_auth_string (some (encode (username ++ (b':' ∷ password)) 0 0)) basic
      ≡ some (basic_user username password)
unfolding decompose_basic split_user
decompose_auth_string-encode username password colon hu hp =
    let text = username ++ (b':' ∷ password) in
    let whole =
      All-append IsTextByte username (b':' ∷ password) hu (((omega arith), omega arith), hp) in
    decompose-basic (encode text 0 0)
      (omega (arith, encode-length text, length-append username (b':' ∷ password)))
    ∙ ap (λ (t : CStr). split_user t (strchr t b':')) (cleartext_of-encode text whole)
    ∙ ap (split_user text) (strchr-append b':' username password colon)
    ∙ ap (λ (t : CStr). some (basic_user t password)) (chop_at-append b':' username password colon)

and_true :
    {A : Type 0} (b : Bool) (x y : A)
    → ◌≡◌ {A = Option A} (some (if b && true then x else y)) (some (if b then x else y))
and_true true x y = refl
and_true false x y = refl

-- HTAA_authenticate, given what a Basic client sends for a name and a password, where the protection
-- has Basic among its schemes and names a password file: it accepts, and HTUser is then this user,
-- exactly when the first record of the user in the file has no password or one that
-- HTAA_passwdMatch accepts; otherwise it refuses, and there is no HTUser.
pub authenticate-file_of :
    (crypt : CStr → CStr → CStr) (open_file : CStr → Option (List ℕ)) (prot : Protection)
    (filename : Option CStr) (ht_user : Option AaUser) (username password : CStr) (es : List Entry)
    → is_missing (index_of prot.valid_schemes (scheme_number basic)) ≡ false
    → assoc_lookup prot.values (codes "passw") ≡ answer filename
    → open_file (passwd_filename filename) ≡ some (file_of es)
    → All IsEntry es
    → Lacks b':' username
    → All IsTextByte username
    → All IsTextByte password
    → authenticate crypt open_file basic
        (some prot)
        (some (encode (username ++ (b':' ∷ password)) 0 0))
        ht_user
      ≡ some (
          if verdict crypt (some username) (some password) es
          then (true, some (basic_user username password))
          else (false, none))
unfolding authenticate authenticate_for authenticate_by check_user
authenticate-file_of crypt open_file prot filename ht_user username password es valid passw file he
      colon hu hp =
    rw
      (
        valid,
        passw,
        decompose_auth_string-encode username password colon hu hp,
        check_password-file_of crypt open_file (some username) (some password) filename es he file,
      )
      (and_true (verdict crypt (some username) (some password) es) _ _)
