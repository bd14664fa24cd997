-- ===== src/Parse/Address/RoundTrip.antt =====
-- An address that has all its parts is put together from them (scan and HTParse of HTParse.c).
use mathlib.Core.Path.{ap₂}
use cern_httpd.Base.{
  ℕ, ◌≡◌, ◌≢◌, refl, ap, sym, append-nil, ◌∙◌, false, Option, none, some, [], ◌∷◌, ◌++◌, All,
  All-append, ==_ne, ==_refl, append_assoc, codes, arith,
}
use cern_httpd.Str.{CStr, strchr, chop_at, strcasecomp, is_zero}
use cern_httpd.Parse.Address.{
  Parts, access_loop, anchor_of, scan_path, scan, after_slash, parse_parts, ht_parse, parse_all,
}

abbrev pub Lacks : ℕ → CStr → Type 0
Lacks c = All (λ d. d ≢ c)

pub chop_at-append : (c : ℕ) (s t : CStr) → Lacks c s → chop_at c (s ++ c ∷ t) ≡ s
unfolding chop_at
chop_at-append c [] t h = rw (==_refl c) refl
chop_at-append c (d ∷ s) t h = rw (==_ne d c h.0) (ap (λ x. d ∷ x) (chop_at-append c s t h.1))

pub chop_at-Lacks : (c : ℕ) (s : CStr) → Lacks c s → chop_at c s ≡ s
unfolding chop_at
chop_at-Lacks c [] h = refl
chop_at-Lacks c (d ∷ s) h = rw (==_ne d c h.0) (ap (λ x. d ∷ x) (chop_at-Lacks c s h.1))

pub strchr-append : (c : ℕ) (s t : CStr) → Lacks c s → strchr (s ++ c ∷ t) c ≡ some (c ∷ t)
unfolding strchr
strchr-append c [] t h = rw (==_refl c) refl
strchr-append c (d ∷ s) t h = rw (==_ne d c h.0) (strchr-append c s t h.1)

-- The characters of an access: no colon, slash or hash.
abbrev pub IsAccessChar : ℕ → Type 0
IsAccessChar c = (c ≢ b':') × (c ≢ b'/') × (c ≢ b'#')

abbrev pub IsAccess : CStr → Type 0
IsAccess access = All IsAccessChar access × (is_zero (strcasecomp (codes "URL") access) ≡ false)

access_loop-access :
    (s seen after_access rest : CStr) (access : Option CStr)
    → All IsAccessChar s
    → is_zero (strcasecomp (codes "URL") (seen ++ s)) ≡ false
    → access_loop seen after_access access (s ++ b':' ∷ rest) ≡ (some (seen ++ s), rest)
unfolding access_loop
access_loop-access [] seen after_access rest access h url =
    let url' : is_zero (strcasecomp (codes "URL") seen) ≡ false =
      ap (λ t. is_zero (strcasecomp (codes "URL") t)) (sym (append-nil seen)) ∙ url in
    rw url' (ap (λ t. (some t, rest)) (sym (append-nil seen)))
access_loop-access (c ∷ s) seen after_access rest access h url =
    rw (==_ne c b':' h.0.0, ==_ne c b'/' h.0.1, ==_ne c b'#' h.0.2)
      (access_loop-access s (seen ++ c ∷ []) after_access rest access h.1
          (rw (append_assoc seen (c ∷ []) s) url)
        ∙ ap (λ t. (some t, rest)) (append_assoc seen (c ∷ []) s))

abbrev pub full : CStr → CStr → CStr → CStr → CStr
full access host absolute anchor =
    access ++ b':' ∷ b'/' ∷ b'/' ∷ (host ++ b'/' ∷ (absolute ++ b'#' ∷ anchor))

abbrev full_parts : CStr → CStr → CStr → CStr → Parts
full_parts access host absolute anchor = record {
  access = some access;
  host = some host;
  absolute = some absolute;
  relative = none;
  anchor = some anchor;
}

abbrev pub path_text : CStr → CStr → CStr
path_text host absolute = b'/' ∷ b'/' ∷ (host ++ b'/' ∷ absolute)

scan_path-full :
    (access anchor : Option CStr) (host absolute : CStr)
    → Lacks b'/' host
    → scan_path access anchor (path_text host absolute) ≡ record {
      access = access;
      host = some host;
      absolute = some absolute;
      relative = none;
      anchor = anchor;
    }
unfolding scan_path after_slash
scan_path-full access anchor host absolute h =
    rw (chop_at-append b'/' host absolute h, strchr-append b'/' host absolute h) refl

Lacks-path_text :
    (host absolute : CStr)
    → Lacks b'#' host
    → Lacks b'#' absolute
    → Lacks b'#' (path_text host absolute)
Lacks-path_text host absolute h a =
    (omega arith, (omega arith, All-append _ host _ h (omega arith, a)))

path_text-append :
    (host absolute anchor : CStr)
    → b'/' ∷ b'/' ∷ (host ++ b'/' ∷ (absolute ++ b'#' ∷ anchor))
      ≡ path_text host absolute ++ b'#' ∷ anchor
path_text-append host absolute anchor = simp append_assoc

-- What scan does with the access and the text behind it.
abbrev scan_rest : Option CStr × CStr → Parts
scan_rest (access, after_access) =
    scan_path access (anchor_of (strchr after_access b'#')) (chop_at b'#' after_access)

scan-full :
    (access host absolute anchor : CStr)
    → IsAccess access
    → Lacks b'/' host
    → Lacks b'#' host
    → Lacks b'#' absolute
    → Lacks b'#' anchor
    → scan (full access host absolute anchor) ≡ full_parts access host absolute anchor
unfolding scan anchor_of
scan-full access host absolute anchor ha hs hh hp hr =
    let found =
      strchr-append b'#' (path_text host absolute) anchor (Lacks-path_text host absolute hh hp) in
    let chopped =
      chop_at-append b'#' (path_text host absolute) anchor (Lacks-path_text host absolute hh hp) in
    ap scan_rest (access_loop-access access [] (full access host absolute anchor) _ none ha.0 ha.1)
    ∙ ap (λ t. scan_rest (some access, t)) (path_text-append host absolute anchor)
    ∙ ap₂ (scan_path (some access)) (ap anchor_of found ∙ ap some (chop_at-Lacks b'#' anchor hr))
        chopped
    ∙ scan_path-full (some access) (some anchor) host absolute hs

parse_parts-full :
    (simplify : CStr → CStr) (access host absolute anchor : CStr) (related : Parts)
    → parse_parts simplify (full_parts access host absolute anchor) related parse_all
      ≡ some (
          (((access ++ codes ":") ++ (codes "//" ++ host)) ++ (codes "/" ++ absolute))
          ++ (codes "#" ++ anchor))
unfolding parse_parts
parse_parts-full simplify access host absolute anchor related = refl

-- HTParse, asked for all parts of an address that has them all, gives the address back, whatever it
-- is relative to.
pub ht_parse-full :
    (simplify : CStr → CStr) (access host absolute anchor related_name : CStr)
    → IsAccess access
    → Lacks b'/' host
    → Lacks b'#' host
    → Lacks b'#' absolute
    → Lacks b'#' anchor
    → ht_parse simplify (full access host absolute anchor) related_name parse_all
      ≡ some (full access host absolute anchor)
unfolding ht_parse
ht_parse-full simplify access host absolute anchor related_name ha hs hh hp hr =
    ap (λ given. parse_parts simplify given (scan related_name) parse_all)
      (scan-full access host absolute anchor ha hs hh hp hr)
    ∙ parse_parts-full simplify access host absolute anchor (scan related_name)
    ∙ ap some (joined_lem access host absolute anchor)
  where
    joined_lem :
        (access host absolute anchor : CStr)
        → (((access ++ codes ":") ++ (codes "//" ++ host)) ++ (codes "/" ++ absolute))
            ++ (codes "#" ++ anchor)
          ≡ full access host absolute anchor
    joined_lem access host absolute anchor = simp append_assoc
