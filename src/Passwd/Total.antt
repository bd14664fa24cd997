-- ===== src/Passwd/Total.antt =====
-- HTAA_checkPassword comes to an end on every file.
use cern_httpd.Base.{
  ℕ, zero, suc, ◌≤◌, ◌<◌, ◌≡◌, refl, Bool, true, false, Option, none, some, List, [], ◌∷◌, length,
  arith, Bool-cases, ◌⊎◌, inl, inr,
}
use cern_httpd.Str.{CStr}
use cern_httpd.AaFile.{is_eol, read_field, read_item, terminator}
use cern_httpd.AaFile.Left.{last_part, last_part-le, read_item-le}
use cern_httpd.Passwd.{
  to_eol, past_eol, next_passwd_rec, read_passwd_rec, rec_from, PasswdRec, end_of_file, one_field,
  two_fields, is_user, check_rec, passwd_loop, check_opened, check_password, passwd_filename,
  max_username_len, max_password_len,
}

to_eol-le : (text : List ℕ) → length (to_eol text) ≤ length text
unfolding to_eol
to_eol-le [] = omega arith
to_eol-le (ch ∷ text) = elim (Bool-cases (is_eol ch)) [
  | inl e ↦ rw e (omega arith)
  | inr e ↦ rw e (omega (arith, to_eol-le text))
]

past_eol-le : (text : List ℕ) → length (past_eol text) ≤ length text
unfolding past_eol
past_eol-le [] = omega arith
past_eol-le (ch ∷ text) = elim (Bool-cases (is_eol ch)) [
  | inl e ↦ rw e (omega (arith, past_eol-le text))
  | inr e ↦ rw e (omega arith)
]

next_passwd_rec-le : (text : List ℕ) → length (next_passwd_rec text) ≤ length text
unfolding next_passwd_rec
next_passwd_rec-le text = omega (arith, past_eol-le (to_eol text), to_eol-le text)

next_passwd_rec-eol :
    (ch : ℕ) (text : List ℕ) → is_eol ch ≡ true → length (next_passwd_rec (ch ∷ text)) ≤ length text
unfolding next_passwd_rec to_eol past_eol
next_passwd_rec-eol ch text e = rw (e, e) (past_eol-le text)

-- A record takes a character at least, or it is the end of the file.
abbrev Advances : ℕ → PasswdRec × List ℕ → Type 0
Advances n out = (out.0 ≡ end_of_file) ⊎ (length out.1 < n)

rec_from-Advances :
    (username : CStr) (n : ℕ) (text : List ℕ)
    → length text ≤ n
    → Advances n (rec_from ((terminator text).0, username, (terminator text).1))
unfolding rec_from terminator
rec_from-Advances username n [] le = inl refl
rec_from-Advances username n (ch ∷ text) le = elim (Bool-cases (is_eol ch)) [
  | inl e ↦ inr (rw e (omega (arith, next_passwd_rec-eol ch text e)))
  | inr e ↦ inr (
      rw e (
        omega (
          arith,
          next_passwd_rec-le (read_item false max_password_len text).2,
          read_item-le false max_password_len text,
        )))
]

read_passwd_rec-Advances : (text : List ℕ) → Advances (length text) (read_passwd_rec text)
unfolding read_passwd_rec read_field read_item
read_passwd_rec-Advances text =
    rec_from-Advances _ (length text) (last_part false max_username_len text)
      (last_part-le false max_username_len text)

passwd_loop-total :
    (crypt : CStr → CStr → CStr) (username password : Option CStr) (fuel : ℕ) (text : List ℕ)
    → length text < fuel
    → (b : Bool) × (passwd_loop crypt username password fuel text ≡ some b)
unfolding passwd_loop check_rec
passwd_loop-total crypt username password zero text lt = absurd (omega arith)
passwd_loop-total crypt username password (suc fuel) text lt =
    by_rec (read_passwd_rec text) (read_passwd_rec-Advances text)
      (passwd_loop-total crypt username password fuel)
  where
    by_rec :
        (out : PasswdRec × List ℕ)
        → Advances (length text) out
        → ((t : List ℕ)
            → length t < fuel
            → (b : Bool) × (passwd_loop crypt username password fuel t ≡ some b))
        → (b : Bool) × (check_rec crypt username password out.0
              (passwd_loop crypt username password fuel out.1)
            ≡ some b)
    by_rec (end_of_file, t) a ih = (false, refl)
    by_rec (one_field user, t) (inl e) ih = absurd (cc)
    by_rec (one_field user, t) (inr l) ih = ih t (omega arith)
    by_rec (two_fields user pw, t) (inl e) ih = absurd (cc)
    by_rec (two_fields user pw, t) (inr l) ih = elim (Bool-cases (is_user username user)) [
      | inl e ↦ rw e (_, refl)
      | inr e ↦ rw e (ih t (omega arith))
    ]

-- HTAA_checkPassword answers for every password file and every caller: its loop ends, since each
-- round takes a character at least.
pub check_password-total :
    (crypt : CStr → CStr → CStr) (open_file : CStr → Option (List ℕ))
    (username password filename : Option CStr)
    → (b : Bool) × (check_password crypt open_file username password filename ≡ some b)
unfolding check_password check_opened
check_password-total crypt open_file username password filename =
    by_file (open_file (passwd_filename filename))
  where
    by_file :
        (file : Option (List ℕ)) → (b : Bool) × (check_opened crypt username password file ≡ some b)
    by_file none = (false, refl)
    by_file (some text) =
        passwd_loop-total crypt username password (suc (length text)) text (omega arith)
