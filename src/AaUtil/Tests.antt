-- ===== src/AaUtil/Tests.antt =====
-- The theorems about HTAAUtil.c at concrete templates and names.
use cern_httpd.Base.{◌≡◌, ◌↔◌, true, some, ◌∷◌, ◌++◌, arith, codes}
use cern_httpd.AaUtil.{template_match}
use cern_httpd.AaUtil.Match.{FitsStar, template_match_iff}

template_match_iff_example :
    (template_match (some (codes "/a/" ++ b'*' ∷ codes ".txt")) (some (codes "/a/b.txt")) ≡ true)
    ↔ FitsStar (codes "/a/") (codes ".txt") (codes "/a/b.txt")
template_match_iff_example =
    template_match_iff (codes "/a/") (codes ".txt") (codes "/a/b.txt") (omega arith) (omega arith)
