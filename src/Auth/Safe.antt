-- ===== src/Auth/Safe.antt =====
-- Whom HTAA_authenticate of HTAuth.c lets through.
use cern_httpd.Base.{
  ℕ, ◌≡◌, ◌≢◌, refl, Bool, true, false, Option, none, some, List, [], ◌∷◌, codes, if◌then◌else◌,
  Bool-cases, inl, inr, Option-cases,
}
use cern_httpd.Str.{CStr}
use cern_httpd.AaUtil.{HtaaScheme, unknown, none_scheme, basic, pubkey, kerberos_v4, kerberos_v5}
use cern_httpd.HtList.{index_of}
use cern_httpd.Assoc.{Answer, answer, null_name, assoc_lookup}
use cern_httpd.Passwd.{check_password}
use cern_httpd.Auth.{
  AaUser, Protection, decompose_auth_string, is_missing, scheme_number, check_user, authenticate_by,
  authenticate_for, authenticate,
}

refused-either :
    (b : Bool) (x y ht : Option AaUser)
    → ◌≢◌ {A = Option (Bool × Option AaUser)}
        (if b then some (false, x) else some (false, y))
        (some (true, ht))
refused-either true x y ht h = absurd (cc)
refused-either false x y ht h = absurd (cc)

decompose-pubkey : (authstring : Option CStr) → decompose_auth_string authstring pubkey ≡ none
unfolding decompose_auth_string
decompose-pubkey none = refl
decompose-pubkey (some []) = refl
decompose-pubkey (some (c ∷ s)) = refl

module _ (crypt : CStr → CStr → CStr) (open_file : CStr → Option (List ℕ)) where
  -- All that an accepted request has: Basic is the scheme and one of those of the protection, its
  -- authentication string stands for a user, and the password file of the protection accepts him.
  pub record Accepted (prot : Protection) (authstring : Option CStr) (user : AaUser) : Type 0 where
    pub filename : Option CStr
    pub valid : is_missing (index_of prot.valid_schemes (scheme_number basic)) ≡ false
    pub decomposed : decompose_auth_string authstring basic ≡ some user
    pub passw : assoc_lookup prot.values (codes "passw") ≡ answer filename
    pub password_ok :
        check_password crypt open_file (some user.username) (some user.password) filename
        ≡ some true

  check_user-true :
      (found : Answer) (user : Option AaUser) (ht : Option AaUser)
      → check_user crypt open_file basic found user ≡ some (true, ht)
      → (u : AaUser) × (filename : Option CStr) × (ht ≡ some u)
        × (user ≡ some u)
        × (found ≡ answer filename)
        × (check_password crypt open_file (some u.username) (some u.password) filename ≡ some true)
  unfolding check_user
  check_user-true found none ht h = absurd (cc)
  check_user-true null_name (some u) ht h = absurd (cc)
  check_user-true (answer filename) (some u) ht h =
      elim (Option-cases
        (check_password crypt open_file (some u.username) (some u.password) filename)) [
          | inl e ↦ absurd (let bad : none ≡ some (true, ht) = rw e at h in cc)
          | inr (true, e) ↦ (
            u,
            filename,
            (let same : some (true, some u) ≡ some (true, ht) = rw e at h in cc),
            refl,
            refl,
            e,
          )
          | inr (false, e) ↦
              absurd (let bad : some (false, none) ≡ some (true, ht) = rw e at h in cc)
        ]

  -- HTAA_authenticate accepts only Basic, and only where the protection has it among its schemes, the
  -- authentication string decomposes into a user, and HTAA_checkPassword accepts him by the
  -- protection's password file; HTUser is then that user. No other scheme is let through.
  pub authenticate-Accepted :
      (scheme : HtaaScheme) (prot : Option Protection) (authstring : Option CStr)
      (ht_user ht : Option AaUser)
      → authenticate crypt open_file scheme prot authstring ht_user ≡ some (true, ht)
      → (p : Protection) × (user : AaUser) × (scheme ≡ basic)
        × (prot ≡ some p)
        × (ht ≡ some user)
        × Accepted p authstring user
  unfolding authenticate authenticate_for authenticate_by
  authenticate-Accepted unknown prot authstring ht_user ht h = absurd (cc)
  authenticate-Accepted none_scheme none authstring ht_user ht h = absurd (cc)
  authenticate-Accepted none_scheme (some p) authstring ht_user ht h =
      absurd (refused-either _ _ _ ht h)
  authenticate-Accepted basic none authstring ht_user ht h = absurd (cc)
  authenticate-Accepted basic (some p) authstring ht_user ht h =
      elim (Bool-cases (is_missing (index_of p.valid_schemes (scheme_number basic)))) [
        | inl e ↦ absurd (let bad : some (false, ht_user) ≡ some (true, ht) = rw e at h in cc)
        | inr e ↦
            let (u, filename, ehts, eu, ef, ec) =
              check_user-true (assoc_lookup p.values (codes "passw"))
                (decompose_auth_string authstring basic) ht (rw e at h) in
            (
              p,
              u,
              refl,
              refl,
              ehts,
              record {
                filename = filename;
                valid = e;
                decomposed = eu;
                passw = ef;
                password_ok = ec;
              },
            )
      ]
  authenticate-Accepted pubkey none authstring ht_user ht h = absurd (cc)
  authenticate-Accepted pubkey (some p) authstring ht_user ht h =
      absurd (refused-either _ ht_user none ht (rw (decompose-pubkey authstring) at h))
  authenticate-Accepted kerberos_v4 none authstring ht_user ht h = absurd (cc)
  authenticate-Accepted kerberos_v4 (some p) authstring ht_user ht h =
      absurd (refused-either _ _ _ ht h)
  authenticate-Accepted kerberos_v5 none authstring ht_user ht h = absurd (cc)
  authenticate-Accepted kerberos_v5 (some p) authstring ht_user ht h =
      absurd (refused-either _ _ _ ht h)
