-- ===== src/Wild/Tests.antt =====
-- The theorems about HTWild.c at concrete templates and names.
use cern_httpd.Base.{◌≡◌, refl, true, some, none, [], ◌∷◌, ◌++◌, arith, codes}
use cern_httpd.Wild.{PatNode, HtPattern, is_user_dir, text_is_user_dir, pattern_new, pattern_match}
use cern_httpd.Wild.Sound.{pattern_match_self}
use cern_httpd.Wild.Dirs.{pattern_match-user_dir}
use cern_httpd.Wild.Overlap.{odd_run, pattern_match-overlap}

-- `*.html` as a chain of one node.
abbrev html : HtPattern
html = record { wild = true; text = some (codes ".html") } ∷ []

pattern_match_self_example : codes "/a/x.b/y" ≡ codes "/a/x.b/y"
unfolding pattern_new pattern_match
pattern_match_self_example = pattern_match_self (codes "/a*.b*") (codes "/a/x.b/y") refl

pattern_match-user_dir_example :
    (p : PatNode) × (rest : HtPattern) × (pattern_new (some (codes "/~*")) ≡ p ∷ rest)
    × (text_is_user_dir p.text ≡ true)
unfolding pattern_new pattern_match is_user_dir
pattern_match-user_dir_example =
    pattern_match-user_dir true (pattern_new (some (codes "/~*"))) [] (codes "/~ari") refl refl

pattern_match-overlap_example :
    (odd_run b'a' 1 ≡ odd_run b'a' 0 ++ codes "aa")
    × (pattern_match true (pattern_new (some (codes "*aa"))) [] (some (odd_run b'a' 1)) ≡ none)
pattern_match-overlap_example = pattern_match-overlap b'a' 0 (omega arith) (omega arith)
