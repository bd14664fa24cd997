-- ===== src/Passwd/Match.antt =====
-- Which passwords HTAA_passwdMatch takes for an encrypted one.
use cern_httpd.Base.{
  ℕ, zero, suc, ◌*◌, ◌/◌, ◌≤◌, ◌≡◌, refl, sym, true, false, Option, none, some, [], ◌∷◌, ◌++◌,
  length, length-append, ◌-◌, ◌%◌, get_or, take, ltb, arith, Bool-cases, inl, inr, append_assoc,
  if◌then◌else◌, ==_refl, ◌==◌, ap, ◌<◌, ◌∙◌,
}
use cern_httpd.Str.{CStr, starts}
use cern_httpd.Base.Int.{pos, to_int}
use cern_httpd.Passwd.{
  chunks, repeated, encrypt_passwd, encrypt_by, salt_char, sixty_fourth, passwd_agrees,
  passwd_match, salt_chars,
}

starts_self : (s : CStr) → starts s s ≡ true
unfolding starts
starts_self [] = refl
starts_self (c ∷ s) = rw (==_refl c) (starts_self s)

-- A beginning is one of every longer text.
starts-more : (s t u : CStr) → starts s t ≡ true → starts s (t ++ u) ≡ true
unfolding starts
starts-more [] t u h = refl
starts-more (c ∷ s) [] u h = absurd (cc)
starts-more (c ∷ s) (d ∷ t) u h = elim (Bool-cases (c == d)) [
  | inl e ↦ rw e (starts-more s t u (rw e at h))
  | inr e ↦ absurd (let bad : false ≡ true = rw e at h in cc)
]

repeated-le :
    (m n : ℕ) (tmp : CStr) → m ≤ n → repeated n tmp ≡ repeated m tmp ++ repeated (n - m) tmp
repeated-le zero n tmp le = let e : n - 0 ≡ n = omega arith in rw e refl
repeated-le (suc m) zero tmp le = absurd (omega arith)
repeated-le (suc m) (suc n) tmp le =
    let e : suc n - suc m ≡ n - m = omega arith in
    rw (e, repeated-le m n tmp (omega arith))
      (sym (append_assoc tmp (repeated m tmp) (repeated (n - m) tmp)))

length-repeated : (n : ℕ) (tmp : CStr) → length (repeated n tmp) ≡ n * length tmp
length-repeated zero tmp = omega arith
length-repeated (suc n) tmp =
    omega (arith, length-append tmp (repeated n tmp), length-repeated n tmp)

salted :
    (f : CStr → CStr) (a b : ℕ) (rest : CStr)
    → f (a ∷ b ∷ []) ≡ a ∷ b ∷ rest
    → length rest ≡ 11
    → (n : ℕ)
    → (if ltb (13 * n) (length (repeated n (f (a ∷ b ∷ []))))
        then false
        else starts
            (repeated n (f (a ∷ b ∷ [])))
            (repeated n (f (take 2 (repeated n (f (a ∷ b ∷ [])))))))
      ≡ true
unfolding starts
salted f a b rest e l zero = refl
salted f a b rest e l (suc n) =
    let fits : ltb (13 * suc n) (length (repeated (suc n) (a ∷ b ∷ rest))) ≡ false =
      ground (arith, length-repeated (suc n) (a ∷ b ∷ rest)) in
    rw (e, e, fits) (starts_self (repeated (suc n) (a ∷ b ∷ rest)))

-- What crypt promises: for a salt of two of the characters a-z, A-Z, 0-9, `.` and `/`, thirteen
-- characters of which the first two are the salt.
abbrev pub IsCrypt : (CStr → CStr → CStr) → Type 0
IsCrypt crypt =
    (key : CStr) (i j : ℕ)
    → i < 64
    → j < 64
    → (rest : CStr) × (crypt key (get_or salt_chars i 0 ∷ get_or salt_chars j 0 ∷ [])
        ≡ get_or salt_chars i 0 ∷ get_or salt_chars j 0 ∷ rest)
      × (length rest ≡ 11)

to_int-small : (n : ℕ) → n ≤ 2147483647 → to_int (pos n) ≡ pos n
unfolding to_int
to_int-small n le = ground arith

encrypt_passwd-at :
    (crypt : CStr → CStr → CStr) (time c : ℕ) (password : CStr)
    → time ≤ 2147483647
    → encrypt_passwd crypt time (c ∷ password)
      ≡ encrypt_by crypt
          (some (get_or salt_chars (time % 64) 0))
          (some (get_or salt_chars (time / 64 % 64) 0))
          (c ∷ password)
unfolding encrypt_passwd salt_char sixty_fourth
encrypt_passwd-at crypt time c password le =
    ap (λ r. encrypt_by crypt (salt_char r) (salt_char (sixty_fourth r)) (c ∷ password))
      (to_int-small time le)

-- HTAA_passwdMatch accepts each password for what HTAA_encryptPasswd makes of it, where crypt does
-- what it promises and the clock is within the range of int, so up to the year 2038.
pub passwd_match-encrypt_passwd :
    (crypt : CStr → CStr → CStr)
    → IsCrypt crypt
    → (time : ℕ) (password : CStr) → time ≤ 2147483647
    → passwd_match crypt (some password) (encrypt_passwd crypt time password) ≡ true
unfolding passwd_match passwd_agrees encrypt_passwd encrypt_by
passwd_match-encrypt_passwd crypt law time [] le = refl
passwd_match-encrypt_passwd crypt law time (c ∷ password) le =
    let a = get_or salt_chars (time % 64) 0 in
    let b = get_or salt_chars (time / 64 % 64) 0 in
    let (rest, e, l) =
      law (c ∷ password) (time % 64) (time / 64 % 64) (omega arith) (omega arith) in
    ap (passwd_match crypt (some (c ∷ password))) (encrypt_passwd-at crypt time c password le)
    ∙ salted (crypt (c ∷ password)) a b rest e l (chunks (c ∷ password))

agrees_more :
    (crypt : CStr → CStr → CStr) (password other encrypted : CStr)
    → crypt password (take 2 encrypted) ≡ crypt other (take 2 encrypted)
    → chunks password ≤ chunks other
    → passwd_agrees crypt password encrypted ≡ true
    → passwd_agrees crypt other encrypted ≡ true
unfolding passwd_agrees
agrees_more crypt password other encrypted e le h =
    elim (Bool-cases (ltb (13 * chunks password) (length encrypted))) [
      | inl short ↦ absurd (let bad : false ≡ true = rw short at h in cc)
      | inr long ↦
          let long' : ltb (13 * chunks other) (length encrypted) ≡ false = ground arith in
          let tmp = crypt other (take 2 encrypted) in
          rw (long', repeated-le (chunks password) (chunks other) tmp le)
            (starts-more encrypted (repeated (chunks password) tmp) _ (rw (long, e) at h))
    ]

-- HTAA_passwdMatch goes by the first eight characters of a password, since it gives crypt the whole
-- password for each chunk, of which crypt reads no more: a password with the same first eight
-- characters is accepted where another one is, if it is not shorter in chunks.
pub passwd_match-first_eight :
    (crypt : CStr → CStr → CStr)
    → ((key other salt : CStr) → take 8 key ≡ take 8 other → crypt key salt ≡ crypt other salt)
    → (password other : CStr) (encrypted : Option CStr) → take 8 password ≡ take 8 other
    → chunks password ≤ chunks other
    → passwd_match crypt (some password) encrypted ≡ true
    → passwd_match crypt (some other) encrypted ≡ true
unfolding passwd_match passwd_agrees
passwd_match-first_eight crypt law password other none e le h = absurd (cc)
passwd_match-first_eight crypt law password other (some encrypted) e le h =
    agrees_more crypt password other encrypted (law password other (take 2 encrypted) e) le h
