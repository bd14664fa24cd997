-- ===== src/Rules/Tests.antt =====
-- The theorems about HTRules.c at concrete rules, names and files.
use mathlib.Core.List.{flat_map}
use cern_httpd.Base.{◌≡◌, refl, some, none, List, [], ◌∷◌, ◌++◌, map, arith, codes, inl, inr}
use cern_httpd.Base.Int.{pos}
use cern_httpd.Str.{CStr, white}
use cern_httpd.Rules.{
  map_op, pass_op, fail_op, Rule, next, pass, refuse, apply_rule, translate, refused, crashed,
  add_rule,
}
use cern_httpd.Rules.Apply.{star_rule, apply_rule-star}
use cern_httpd.Rules.Config.{set_configuration, new_rule, load_rules}
use cern_httpd.Rules.Config.Print.{FileRule, rule_line, to_rule}
use cern_httpd.Rules.Config.Load.{load_rules-print}
use cern_httpd.Rules.Config.Fault.{translate-map_without_equiv}

abbrev web_rule : Rule
web_rule = star_rule map_op (codes "/web/") [] (some (codes "/www/*"))

abbrev pass_all : Rule
pass_all = star_rule pass_op [] [] none

apply_rule-star_example :
    (apply_rule
        (star_rule map_op (codes "/a/") (codes ".htm") (some (codes "/b/" ++ b'*' ∷ codes ".html")))
        (codes "/a/" ++ (codes "x" ++ codes ".htm"))
      ≡ next (codes "/b/" ++ (codes "x" ++ codes ".html")))
    × (apply_rule
          (star_rule pass_op
            (codes "/a/")
            (codes ".htm")
            (some (codes "/b/" ++ b'*' ∷ codes ".html")))
          (codes "/a/" ++ (codes "x" ++ codes ".htm"))
        ≡ pass (codes "/b/" ++ (codes "x" ++ codes ".html")))
    × (apply_rule
          (star_rule fail_op
            (codes "/a/")
            (codes ".htm")
            (some (codes "/b/" ++ b'*' ∷ codes ".html")))
          (codes "/a/" ++ (codes "x" ++ codes ".htm"))
        ≡ refuse)
apply_rule-star_example =
    apply_rule-star (codes "/a/") (codes ".htm") (codes "/b/") (codes ".html") (codes "x")
      (omega arith) (omega arith)

not_fits : ¬ ((x : CStr) × (codes "/" ≡ codes "/a/" ++ (x ++ [])))
not_fits (x, e) = cc

abbrev file : List FileRule
file =
    record { op = map_op; pattern_text = codes "/a/*"; equiv = codes "/b/*" }
    ∷ record { op = pass_op; pattern_text = codes "/b/*"; equiv = codes "/usr/b/*" }
    ∷ []

load_rules-print_example :
    load_rules (some (flat_map rule_line file)) [] ≡ ([] ++ map to_rule file, pos 0)
unfolding white
load_rules-print_example = load_rules-print file [] (
  record {
    valid = inl refl;
    pattern_field = ((refl, (refl, (refl, (refl, tt)))), omega arith);
    equiv_field = ((refl, (refl, (refl, (refl, tt)))), omega arith);
    no_hash = omega arith;
    fits = omega arith;
  },
  (
    record {
      valid = inr (inl refl);
      pattern_field = ((refl, (refl, (refl, (refl, tt)))), omega arith);
      equiv_field =
          ((refl, (refl, (refl, (refl, (refl, (refl, (refl, (refl, tt)))))))), omega arith);
      no_hash = omega arith;
      fits = omega arith;
    },
    tt,
  ),
)

abbrev fail_all : Rule
fail_all = record { op = fail_op; pattern_text = codes "*"; equiv = none }

translate-map_without_equiv_example :
    (set_configuration (codes "map " ++ (codes "/x" ++ 10 ∷ []))
      ≡ new_rule map_op (codes "/x") none)
    × (translate (add_rule [] map_op (codes "/x") none) (codes "/x") ≡ refused)
    × (translate (add_rule [] map_op (codes "/x") none ++ (fail_all ∷ [])) (codes "/x") ≡ crashed)
unfolding white
translate-map_without_equiv_example =
    translate-map_without_equiv (codes "/x") fail_all [] ((refl, (refl, tt)), omega arith)
      (omega arith)
