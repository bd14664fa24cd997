-- ===== src/Passwd.antt =====
-- Daemon/Implementation/HTPasswd.c: passwords and the password file.
--
-- `crypt` of the C library is an argument: from a key and a salt it makes a text. `time` is the
-- daemon's clock, a time_t that is not negative. The copies to `chunk` are left out: crypt gets the whole password,
-- and nothing reads them.
pub mod Match
pub mod File
pub mod Total
pub mod Tests
use cern_httpd.Base.{
  ℕ, zero, suc, ◌+◌, ◌*◌, ◌/◌, ◌%◌, Bool, true, false, Option, none, some, List, [], ◌∷◌, ◌++◌,
  if◌then◌else◌, ltb, get_or, take, length, codes, ◌==◌,
}
use cern_httpd.Base.Int.{ℤ, pos, negsuc, neg, to_int}
use cern_httpd.Str.{CStr, starts, streq}
use cern_httpd.AaFile.{is_eol, read_field}

abbrev pub salt_chars : List ℕ
salt_chars = codes "abcdefghijklmnopqrstuvwxyzABCDEFGHIJKLMNOPQRSTUVWXYZ0123456789./"

abbrev pub passwd_file : CStr
passwd_file = codes "/home2/luotonen/passwd"

-- MAX_USERNAME_LEN and MAX_PASSWORD_LEN
abbrev pub max_username_len : ℕ
max_username_len = 16

abbrev pub max_password_len : ℕ
max_password_len = 52

-- `((int)strlen(password)+7)/8`: for how many chunks of eight the loops run.
unfoldable pub chunks : CStr → ℕ
chunks password = (length password + 7) / 8

-- `strcat(result, tmp)`, so many times.
abbrev pub repeated : ℕ → CStr → CStr
repeated zero tmp = []
repeated (suc n) tmp = tmp ++ repeated n tmp

-- `salt_chars[random%64]`, where the remainder of a negative number is not positive; `none` is an
-- index in front of the array.
unfoldable pub salt_char : ℤ → Option ℕ
salt_char (pos n) = some (get_or salt_chars (n % 64) 0)
salt_char (negsuc n) = if (suc n % 64) == 0 then some (get_or salt_chars 0 0) else none

-- `random/64`, which is rounded towards zero.
unfoldable pub sixty_fourth : ℤ → ℤ
sixty_fourth (pos n) = pos (n / 64)
sixty_fourth (negsuc n) = neg (pos (suc n / 64))

unfoldable pub encrypt_by : (CStr → CStr → CStr) → Option ℕ → Option ℕ → CStr → Option CStr
unfolding chunks
encrypt_by crypt (some a) (some b) password =
    some (repeated (chunks password) (crypt password (a ∷ b ∷ [])))
encrypt_by crypt a b password = none

-- HTAA_encryptPasswd; `none` is a reading outside salt_chars, as for a clock beyond the range of int.
unfoldable pub encrypt_passwd : (CStr → CStr → CStr) → ℕ → CStr → Option CStr
unfolding encrypt_by salt_char sixty_fourth to_int
encrypt_passwd crypt time [] = some []
encrypt_passwd crypt time (c ∷ password) =
    let random = to_int (pos time) in
    encrypt_by crypt (salt_char random) (salt_char (sixty_fourth random)) (c ∷ password)

-- HTAA_passwdMatch for strings that are there. The salt is that of the first chunk in each round,
-- as the pointers are set anew in it.
unfoldable pub passwd_agrees : (CStr → CStr → CStr) → CStr → CStr → Bool
unfolding chunks starts
passwd_agrees crypt password encrypted =
    if ltb (13 * chunks password) (length encrypted)
    then false
    else starts encrypted (repeated (chunks password) (crypt password (take 2 encrypted)))

-- HTAA_passwdMatch
unfoldable pub passwd_match : (CStr → CStr → CStr) → Option CStr → Option CStr → Bool
unfolding passwd_agrees
passwd_match crypt none encrypted = false
passwd_match crypt (some password) none = false
passwd_match crypt (some password) (some encrypted) = passwd_agrees crypt password encrypted

-- The two loops of next_rec of HTPasswd.c, which knows no continuation lines.
unfoldable pub to_eol : List ℕ → List ℕ
unfolding is_eol
to_eol [] = []
to_eol (ch ∷ text) = let rest = to_eol text in if is_eol ch then ch ∷ text else rest

unfoldable pub past_eol : List ℕ → List ℕ
unfolding is_eol
past_eol [] = []
past_eol (ch ∷ text) = let rest = past_eol text in if is_eol ch then rest else ch ∷ text

unfoldable pub next_passwd_rec : List ℕ → List ℕ
unfolding to_eol past_eol
next_passwd_rec text = past_eol (to_eol text)

-- What HTAAFile_readPasswdRec returns: EOF, 1 or 2, with the fields that it has read.
pub data PasswdRec : Type 0 where
  end_of_file : PasswdRec
  one_field : CStr → PasswdRec
  two_fields : CStr → CStr → PasswdRec

-- Behind the user's name and its terminating character.
unfoldable pub rec_from : Option ℕ × CStr × List ℕ → PasswdRec × List ℕ
unfolding is_eol read_field next_passwd_rec
rec_from (none, username, text) = (end_of_file, text)
rec_from (some ch, username, text) =
    let (terminator, password, rest) = read_field max_password_len text in
    if is_eol ch
    then (one_field username, next_passwd_rec text)
    else (two_fields username password, next_passwd_rec rest)

-- HTAAFile_readPasswdRec
unfoldable pub read_passwd_rec : List ℕ → PasswdRec × List ℕ
unfolding rec_from read_field
read_passwd_rec text = rec_from (read_field max_username_len text)

-- `username && user && !strcmp(username,user)`
unfoldable pub is_user : Option CStr → CStr → Bool
unfolding streq
is_user none user = false
is_user (some username) user = streq username user

-- What the user's record says: a password that is empty in the file is not asked for.
unfoldable pub rec_accepts : (CStr → CStr → CStr) → Option CStr → CStr → Bool
unfolding passwd_match
rec_accepts crypt password [] = true
rec_accepts crypt password (c ∷ pw) = passwd_match crypt password (some (c ∷ pw))

-- A round of the loop of HTAA_checkPassword, with what the further rounds give.
unfoldable pub check_rec :
    (CStr → CStr → CStr) → Option CStr → Option CStr → PasswdRec → Option Bool → Option Bool
unfolding is_user rec_accepts
check_rec crypt username password end_of_file further = some false
check_rec crypt username password (one_field user) further = further
check_rec crypt username password (two_fields user pw) further =
    if is_user username user then some (rec_accepts crypt password pw) else further

-- The loop of HTAA_checkPassword, on fuel; `none` is that the fuel has run out.
unfoldable pub passwd_loop :
    (CStr → CStr → CStr) → Option CStr → Option CStr → ℕ → List ℕ → Option Bool
unfolding check_rec read_passwd_rec
passwd_loop crypt username password zero text = none
passwd_loop crypt username password (suc fuel) text =
    let (rec, rest) = read_passwd_rec text in
    check_rec crypt username password rec (passwd_loop crypt username password fuel rest)

-- `filename && *filename ? filename : PASSWD_FILE`
unfoldable pub passwd_filename : Option CStr → CStr
passwd_filename none = passwd_file
passwd_filename (some []) = passwd_file
passwd_filename (some (c ∷ filename)) = c ∷ filename

unfoldable pub check_opened :
    (CStr → CStr → CStr) → Option CStr → Option CStr → Option (List ℕ) → Option Bool
unfolding passwd_loop
check_opened crypt username password none = some false
check_opened crypt username password (some text) =
    passwd_loop crypt username password (suc (length text)) text

-- HTAA_checkPassword; `open_file` gives a file's contents, or `none` for a file that is not opened.
unfoldable pub check_password :
    (CStr → CStr → CStr)
    → (CStr → Option (List ℕ))
    → Option CStr
    → Option CStr
    → Option CStr
    → Option Bool
unfolding check_opened passwd_filename
check_password crypt open_file username password filename =
    check_opened crypt username password (open_file (passwd_filename filename))
