-- ===== src/AaUtil/Directory.antt =====
-- The protection template of a document is that of its directory.
use cern_httpd.Base.{
  ℕ, ◌≡◌, ◌≢◌, refl, sym, ap, ◌∙◌, true, some, none, [], ◌∷◌, ◌++◌, All, All-append, append_assoc,
  append-nil, arith, ==_ne,
}
use cern_httpd.Str.{CStr, strrchr}
use cern_httpd.Str.Search.{before-append}
use cern_httpd.Str.Mismatch.{NoStar}
use cern_httpd.AaUtil.{through_slash, make_protection_template, template_match}
use cern_httpd.AaUtil.Match.{template_match_iff}

abbrev pub NoSlash : CStr → Type 0
NoSlash = All (λ c. c ≢ b'/')

strrchr-none : (name : CStr) → NoSlash name → strrchr name b'/' ≡ none
unfolding strrchr
strrchr-none [] h = refl
strrchr-none (c ∷ name) h = rw (strrchr-none name h.1, ==_ne c b'/' h.0)

strrchr-last :
    (dir name : CStr) → NoSlash name → strrchr (dir ++ b'/' ∷ name) b'/' ≡ some (b'/' ∷ name)
unfolding strrchr
strrchr-last [] name h = rw (strrchr-none name h)
strrchr-last (c ∷ dir) name h = rw (strrchr-last dir name h)

through_slash-append :
    (dir rest : CStr) → through_slash (dir ++ rest) (some rest) ≡ dir ++ b'/' ∷ []
unfolding through_slash
through_slash-append dir rest = ap (λ t. t ++ b'/' ∷ []) (before-append dir rest)

make_protection_template_lem :
    (docname : CStr)
    → make_protection_template (some docname)
      ≡ through_slash docname (strrchr docname b'/') ++ b'*' ∷ []
unfolding make_protection_template
make_protection_template_lem docname = refl

make_protection_template-slash :
    (dir name : CStr)
    → NoSlash name
    → make_protection_template (some (dir ++ b'/' ∷ name)) ≡ (dir ++ b'/' ∷ []) ++ b'*' ∷ []
make_protection_template-slash dir name h =
    make_protection_template_lem (dir ++ b'/' ∷ name)
    ∙ ap (λ t. t ++ b'*' ∷ [])
        (ap (through_slash (dir ++ b'/' ∷ name)) (strrchr-last dir name h)
          ∙ through_slash-append dir (b'/' ∷ name))

slash_ne_star : ◌≢◌ {A = ℕ} b'/' b'*'
slash_ne_star = omega arith

-- The protection template that is made for one document of a directory matches every other, in that
-- directory or below it.
make_protection_template-match :
    (dir name other : CStr)
    → NoSlash name
    → NoStar dir
    → NoStar other
    → template_match
        (some (make_protection_template (some (dir ++ b'/' ∷ name))))
        (some (dir ++ b'/' ∷ other))
      ≡ true
make_protection_template-match dir name other hn hd ho =
    rw (make_protection_template-slash dir name hn) (
      (template_match_iff (dir ++ b'/' ∷ []) [] (dir ++ b'/' ∷ other)
          (All-append _ dir (b'/' ∷ []) hd (slash_ne_star, tt))
          (All-append _ dir (b'/' ∷ other) hd (slash_ne_star, ho))).1
        (
          other,
          ap (λ t. dir ++ b'/' ∷ t) (sym (append-nil other))
              ∙ sym (append_assoc dir (b'/' ∷ []) (other ++ [])),
        ))
