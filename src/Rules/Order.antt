-- ===== src/Rules/Order.antt =====
-- The rules of a list and those behind them.
use cern_httpd.Base.{◌≡◌, refl, List, [], ◌∷◌, ◌++◌}
use cern_httpd.Rules.{Rule, Round, next, pass, refuse, lost, fault, apply_rule, translate_loop}

-- What a list of rules has done behind its last rule.
abbrev pub run : List Rule → Round → Round
run [] r = r
run (x ∷ rules) (next current) = run rules (apply_rule x current)
run (x ∷ rules) (pass current) = pass current
run (x ∷ rules) refuse = refuse
run (x ∷ rules) lost = fault
run (x ∷ rules) fault = fault

pub translate_loop-append :
    (rules more : List Rule) (r : Round)
    → translate_loop (rules ++ more) r ≡ translate_loop more (run rules r)
unfolding translate_loop
translate_loop-append [] more r = refl
translate_loop-append (x ∷ rules) more (next current) =
    translate_loop-append rules more (apply_rule x current)
translate_loop-append (x ∷ rules) [] (pass current) = refl
translate_loop-append (x ∷ rules) (y ∷ more) (pass current) = refl
translate_loop-append (x ∷ rules) [] refuse = refl
translate_loop-append (x ∷ rules) (y ∷ more) refuse = refl
translate_loop-append (x ∷ rules) [] fault = refl
translate_loop-append (x ∷ rules) (y ∷ more) fault = refl
translate_loop-append (x ∷ rules) [] lost = refl
translate_loop-append (x ∷ rules) (y ∷ more) lost = refl
