-- ===== src/Passwd/File.antt =====
-- HTAA_checkPassword on the lines of a password file, and on every file that there is.
use cern_httpd.Base.{
  ℕ, zero, suc, ◌≤◌, ◌<◌, ◌≡◌, refl, ap, ◌∙◌, Bool, true, false, Option, none, some, List, [], ◌∷◌,
  ◌++◌, length, length-append, arith, inl, inr, Bool-cases, if◌then◌else◌, All,
}
use cern_httpd.Str.{CStr}
use cern_httpd.AaFile.{is_eol, is_blank, read_field, ends_item}
use cern_httpd.AaFile.Plain.{IsItemChar, read_item-plain}
use cern_httpd.Passwd.{
  to_eol, past_eol, next_passwd_rec, read_passwd_rec, rec_from, PasswdRec, two_fields, is_user,
  rec_accepts, check_rec, passwd_loop, check_opened, check_password, passwd_filename,
  max_username_len, max_password_len,
}

-- A character of a field: no blank, no colon, no end of a line, and not the terminator.
abbrev pub IsFieldChar : ℕ → Type 0
IsFieldChar c = IsItemChar false c

ends_item-not_blank : (ch : ℕ) → ends_item false ch ≡ true → is_blank ch ≡ false
unfolding ends_item is_blank
ends_item-not_blank ch e = ground arith

-- A field is read up to the character that ends it.
pub read_field-plain :
    (n : ℕ) (w : CStr) (ch : ℕ) (rest : List ℕ)
    → All IsFieldChar w
    → length w ≤ n
    → ends_item false ch ≡ true
    → read_field n (w ++ (ch ∷ rest)) ≡ (some ch, w, (if is_eol ch then ch ∷ rest else rest))
unfolding read_field
read_field-plain n w ch rest h le e =
    read_item-plain false n w ch rest h le e (ends_item-not_blank ch e)

-- A line of the password file: the user's name, the password, and maybe a third field.
pub record Entry : Type 0 where
  pub user : CStr
  pub password : CStr
  pub more : Option CStr

abbrev pub line_end : Option CStr → List ℕ → List ℕ
line_end none rest = 10 ∷ rest
line_end (some name) rest = b':' ∷ (name ++ (10 ∷ rest))

abbrev pub file_of : List Entry → List ℕ
file_of [] = []
file_of (e ∷ es) = e.user ++ (b':' ∷ (e.password ++ line_end e.more (file_of es)))

abbrev pub MoreOnLine : Option CStr → Type 0
MoreOnLine none = Unit
MoreOnLine (some name) = All (λ c. is_eol c ≡ false) name

abbrev pub IsEntry : Entry → Type 0
IsEntry e =
    All IsFieldChar e.user
    × (length e.user ≤ max_username_len)
    × All IsFieldChar e.password
    × (length e.password ≤ max_password_len)
    × MoreOnLine e.more

-- What the first record of the user says; a user without a record is not accepted.
abbrev pub verdict : (CStr → CStr → CStr) → Option CStr → Option CStr → List Entry → Bool
verdict crypt username password [] = false
verdict crypt username password (e ∷ es) =
    if is_user username e.user
    then rec_accepts crypt password e.password
    else verdict crypt username password es

not_eol : (c : ℕ) → ends_item false c ≡ false → is_eol c ≡ false
unfolding ends_item
not_eol c e = ground arith

past_eol-file_of : (es : List Entry) → All IsEntry es → past_eol (file_of es) ≡ file_of es
unfolding past_eol
past_eol-file_of [] h = refl
past_eol-file_of (e ∷ es) h = from_user e.user _ h.0.0
  where
    from_user :
        (user : CStr) (rest : List ℕ)
        → All IsFieldChar user
        → past_eol (user ++ (b':' ∷ rest)) ≡ user ++ (b':' ∷ rest)
    from_user [] rest hu = refl
    from_user (c ∷ user) rest hu = rw (not_eol c hu.0.2) refl

to_eol-name :
    (name : CStr) (rest : List ℕ)
    → All (λ c. is_eol c ≡ false) name
    → to_eol (name ++ (10 ∷ rest)) ≡ 10 ∷ rest
unfolding to_eol
to_eol-name [] rest h = refl
to_eol-name (c ∷ name) rest h = rw h.0 (to_eol-name name rest h.1)

rec_from-colon :
    (username : CStr) (text : List ℕ) (t : Option ℕ) (password : CStr) (rest : List ℕ)
    → read_field max_password_len text ≡ (t, password, rest)
    → rec_from (some b':', username, text) ≡ (two_fields username password, next_passwd_rec rest)
unfolding rec_from
rec_from-colon username text t password rest e =
    λ i. (two_fields username (e i).1, next_passwd_rec (e i).2)

next_passwd_rec-end : (rest : List ℕ) → past_eol rest ≡ rest → next_passwd_rec (10 ∷ rest) ≡ rest
unfolding next_passwd_rec to_eol past_eol
next_passwd_rec-end rest p = p

next_passwd_rec-name :
    (name : CStr) (rest : List ℕ)
    → All (λ c. is_eol c ≡ false) name
    → past_eol rest ≡ rest
    → next_passwd_rec (name ++ (10 ∷ rest)) ≡ rest
unfolding next_passwd_rec
next_passwd_rec-name name rest h p = rw (to_eol-name name rest h) (next_passwd_rec-end rest p)

-- From the password on to the next line.
password_line :
    (username password : CStr) (more : Option CStr) (rest : List ℕ)
    → All IsFieldChar password
    → length password ≤ max_password_len
    → MoreOnLine more
    → past_eol rest ≡ rest
    → rec_from (some b':', username, password ++ line_end more rest)
      ≡ (two_fields username password, rest)
unfolding ends_item
password_line username password none rest h le hm p =
    rec_from-colon username _ _ _ _ (read_field-plain max_password_len password 10 rest h le refl)
    ∙ ap (λ (t : List ℕ). (two_fields username password, t)) (next_passwd_rec-end rest p)
password_line username password (some name) rest h le hm p =
    rec_from-colon username _ _ _ _ (read_field-plain max_password_len password b':' _ h le refl)
    ∙ ap (λ (t : List ℕ). (two_fields username password, t)) (next_passwd_rec-name name rest hm p)

-- A record of the file is read as it is.
read_passwd_rec-entry :
    (e : Entry) (es : List Entry)
    → IsEntry e
    → All IsEntry es
    → read_passwd_rec (file_of (e ∷ es)) ≡ (two_fields e.user e.password, file_of es)
unfolding read_passwd_rec ends_item
read_passwd_rec-entry e es h hs =
    ap rec_from (read_field-plain max_username_len e.user b':' _ h.0 h.1 refl)
    ∙ password_line e.user e.password e.more (file_of es) h.2 h.3 h.4 (past_eol-file_of es hs)

length-line_end : (more : Option CStr) (rest : List ℕ) → length rest < length (line_end more rest)
length-line_end none rest = omega arith
length-line_end (some name) rest = omega (arith, length-append name (10 ∷ rest))

length-file_of : (e : Entry) (es : List Entry) → length (file_of es) < length (file_of (e ∷ es))
length-file_of e es = omega (
  arith,
  length-append e.user (b':' ∷ (e.password ++ line_end e.more (file_of es))),
  length-append e.password (line_end e.more (file_of es)),
  length-line_end e.more (file_of es),
)

passwd_loop-file_of :
    (crypt : CStr → CStr → CStr) (username password : Option CStr) (fuel : ℕ) (es : List Entry)
    → All IsEntry es
    → length (file_of es) < fuel
    → passwd_loop crypt username password fuel (file_of es)
      ≡ some (verdict crypt username password es)
unfolding passwd_loop check_rec
passwd_loop-file_of crypt username password zero es h lt = absurd (omega arith)
passwd_loop-file_of crypt username password (suc fuel) [] h lt = refl
passwd_loop-file_of crypt username password (suc fuel) (e ∷ es) h lt =
    ap
      (λ (r : PasswdRec × List ℕ).
        check_rec crypt username password r.0 (passwd_loop crypt username password fuel r.1))
      (read_passwd_rec-entry e es h.0 h.1)
    ∙ by_user (
        passwd_loop-file_of crypt username password fuel es h.1
          (omega (arith, length-file_of e es)))
  where
    by_user :
        passwd_loop crypt username password fuel (file_of es)
          ≡ some (verdict crypt username password es)
        → check_rec crypt username password
            (two_fields e.user e.password)
            (passwd_loop crypt username password fuel (file_of es))
          ≡ some (verdict crypt username password (e ∷ es))
    by_user ih = elim (Bool-cases (is_user username e.user)) [ inl t ↦ rw t refl | inr f ↦ rw f ih ]

-- On the lines of a password file, HTAA_checkPassword answers by the first record of the user: it
-- accepts one without a password, and otherwise the password that HTAA_passwdMatch accepts; a user
-- without a record is refused.
pub check_password-file_of :
    (crypt : CStr → CStr → CStr) (open_file : CStr → Option (List ℕ))
    (username password filename : Option CStr) (es : List Entry)
    → All IsEntry es
    → open_file (passwd_filename filename) ≡ some (file_of es)
    → check_password crypt open_file username password filename
      ≡ some (verdict crypt username password es)
unfolding check_password check_opened
check_password-file_of crypt open_file username password filename es h e =
    rw e
      (passwd_loop-file_of crypt username password (suc (length (file_of es))) es h (omega arith))
