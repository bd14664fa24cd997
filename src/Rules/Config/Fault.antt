-- ===== src/Rules/Config/Fault.antt =====
-- A Map line with one operand.
use cern_httpd.Base.{
  inl, ◌≡◌, refl, ap, ◌∙◌, some, none, Option, List, [], ◌∷◌, ◌++◌, All-append, arith, codes,
  ==_refl,
}
use cern_httpd.Str.{CStr, first_mismatch, next_field}
use cern_httpd.Str.Field.{IsField}
use cern_httpd.Rules.{
  Rule, map_op, add_rule, apply_rule, apply_at, lost, translate, translate_loop, refused, crashed,
}
use cern_httpd.Rules.Config.{new_rule, configure, with_operands, with_keyword, set_configuration}
use cern_httpd.Rules.Config.Print.{NoHash, chop_at-none, operand_at_newline, keyword-field}

first_mismatch_self : (p : CStr) → first_mismatch p p ≡ ([], [])
unfolding first_mismatch
first_mismatch_self [] = refl
first_mismatch_self (c ∷ p) = rw (==_refl c) (first_mismatch_self p)

abbrev half_rule : CStr → Rule
half_rule word = record { op = map_op; pattern_text = word; equiv = none }

apply_rule-half : (word : CStr) → apply_rule (half_rule word) word ≡ lost
unfolding apply_rule
apply_rule-half word = ap (apply_at (half_rule word) word) (first_mismatch_self word)

translate-half : (word : CStr) → translate (half_rule word ∷ []) word ≡ refused
unfolding translate
translate-half word = ap (translate_loop []) (apply_rule-half word)

translate-half_and_more :
    (word : CStr) (r : Rule) (rules : List Rule)
    → translate (half_rule word ∷ r ∷ rules) word ≡ crashed
unfolding translate
translate-half_and_more word r rules = ap (translate_loop (r ∷ rules)) (apply_rule-half word)

one_operand :
    (word : CStr)
    → IsField word
    → with_keyword (some (codes "map")) (word ++ 10 ∷ []) ≡ new_rule map_op word none
unfolding with_keyword configure
one_operand word h =
    ap (λ (f : Option CStr × CStr). with_operands (codes "map") f.0 f.1) (operand_at_newline word h)

map_blank-NoHash : NoHash (codes "map ")
map_blank-NoHash = omega arith

newline-NoHash : NoHash (10 ∷ [])
newline-NoHash = omega arith

line_lem :
    (word : CStr)
    → IsField word
    → NoHash word
    → set_configuration (codes "map " ++ (word ++ 10 ∷ [])) ≡ new_rule map_op word none
unfolding set_configuration
line_lem word h hash =
    ap (λ t. with_keyword (next_field t).0 (next_field t).1)
      (chop_at-none (codes "map " ++ (word ++ 10 ∷ []))
        (All-append _ (codes "map ") _ map_blank-NoHash (All-append _ word _ hash newline-NoHash)))
    ∙ ap (λ (f : Option CStr × CStr). with_keyword f.0 f.1)
        (keyword-field map_op (word ++ 10 ∷ []) (inl refl))
    ∙ one_operand word h

-- For a Map line with one operand, HTSetConfiguration adds a rule without an equivalent. On the
-- name that equals the operand HTTranslate then gives NULL, as a Fail rule would, if no rule is
-- behind that one, and uses the NULL as a string if there is one.
pub translate-map_without_equiv :
    (word : CStr) (r : Rule) (rules : List Rule)
    → IsField word
    → NoHash word
    → (set_configuration (codes "map " ++ (word ++ 10 ∷ [])) ≡ new_rule map_op word none)
      × (translate (add_rule [] map_op word none) word ≡ refused)
      × (translate (add_rule [] map_op word none ++ (r ∷ rules)) word ≡ crashed)
unfolding add_rule
translate-map_without_equiv word r rules h hash =
    (line_lem word h hash, translate-half word, translate-half_and_more word r rules)
