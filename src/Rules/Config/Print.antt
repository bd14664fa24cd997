-- ===== src/Rules/Config/Print.antt =====
-- Rules written as lines of a configuration file, and read back.
use cern_httpd.Base.{
  ◌<◌, ◌≡◌, ◌≢◌, refl, ap, ◌∙◌, some, [], ◌∷◌, ◌++◌, All, length, codes, ==_ne, Option, inl, ◌⊎◌,
  inr,
}
use cern_httpd.Str.{CStr, next_field, chop_at, white, past_delimiter}
use cern_httpd.Str.Field.{IsField, next_field-field}
use cern_httpd.Rules.{RuleOp, map_op, pass_op, fail_op, Rule}
use cern_httpd.Rules.Config.{
  new_rule, configure, with_operands, with_keyword, set_configuration, line_size,
}

-- A rule as it can stand in a file: both words are fields, and neither has a hash.
pub record FileRule : Type 0 where
  pub op : RuleOp
  pub pattern_text : CStr
  pub equiv : CStr

abbrev pub NoHash : CStr → Type 0
NoHash = All (λ c. c ≢ b'#')

abbrev pub keyword : RuleOp → CStr
keyword map_op = codes "map"
keyword pass_op = codes "pass"
keyword fail_op = codes "fail"
keyword _ = []

-- The operations that a line of a file can give.
abbrev pub HasKeyword : RuleOp → Type 0
HasKeyword op = (op ≡ map_op) ⊎ ((op ≡ pass_op) ⊎ (op ≡ fail_op))

-- The line behind the keyword.
abbrev pub operands : CStr → CStr → CStr
operands pattern equiv = pattern ++ b' ' ∷ (equiv ++ 10 ∷ [])

abbrev pub rule_line : FileRule → CStr
rule_line r = keyword r.op ++ b' ' ∷ operands r.pattern_text r.equiv

abbrev pub to_rule : FileRule → Rule
to_rule r = record { op = r.op; pattern_text = r.pattern_text; equiv = some r.equiv }

pub record IsWritable (r : FileRule) : Type 0 where
  pub valid : HasKeyword r.op
  pub pattern_field : IsField r.pattern_text
  pub equiv_field : IsField r.equiv
  pub no_hash : NoHash (rule_line r)
  pub fits : length (rule_line r) < line_size

pub chop_at-none : (s : CStr) → NoHash s → chop_at b'#' s ≡ s
unfolding chop_at
chop_at-none [] h = refl
chop_at-none (c ∷ s) h = rw (==_ne c b'#' h.0) (ap (λ t. c ∷ t) (chop_at-none s h.1))

operand_at_blank : (w s : CStr) → IsField w → next_field (w ++ b' ' ∷ s) ≡ (some w, s)
operand_at_blank w s h =
    next_field-field [] w (b' ' ∷ s) tt h (unfold white in refl) ∙ unfold past_delimiter in refl

pub operand_at_newline : (w : CStr) → IsField w → next_field (w ++ 10 ∷ []) ≡ (some w, [])
operand_at_newline w h =
    next_field-field [] w (10 ∷ []) tt h (unfold white in refl) ∙ unfold past_delimiter in refl

with_operands-two :
    (word1 w2 w3 : CStr)
    → IsField w3
    → with_operands word1 (some w2) (w3 ++ 10 ∷ []) ≡ configure word1 w2 (some w3) []
unfolding with_operands
with_operands-two word1 w2 w3 h =
    ap (λ (f : Option CStr × CStr). configure word1 w2 f.0 f.1) (operand_at_newline w3 h)

with_keyword-operands :
    (word1 w2 w3 : CStr)
    → IsField w2
    → IsField w3
    → with_keyword (some word1) (operands w2 w3) ≡ configure word1 w2 (some w3) []
unfolding with_keyword
with_keyword-operands word1 w2 w3 h2 h3 =
    ap (λ (f : Option CStr × CStr). with_operands word1 f.0 f.1)
      (operand_at_blank w2 (w3 ++ 10 ∷ []) h2)
    ∙ with_operands-two word1 w2 w3 h3

pub keyword-field :
    (op : RuleOp) (s : CStr)
    → HasKeyword op
    → next_field (keyword op ++ b' ' ∷ s) ≡ (some (keyword op), s)
unfolding next_field
keyword-field op s (inl e) = rw e refl
keyword-field op s (inr (inl e)) = rw e refl
keyword-field op s (inr (inr e)) = rw e refl

configure-keyword :
    (op : RuleOp) (w2 w3 : CStr)
    → HasKeyword op
    → configure (keyword op) w2 (some w3) [] ≡ new_rule op w2 (some w3)
unfolding configure
configure-keyword op w2 w3 (inl e) = rw e refl
configure-keyword op w2 w3 (inr (inl e)) = rw e refl
configure-keyword op w2 w3 (inr (inr e)) = rw e refl

-- A line of a rule is read as that rule.
pub set_configuration-rule_line :
    (r : FileRule)
    → IsWritable r
    → set_configuration (rule_line r) ≡ new_rule r.op r.pattern_text (some r.equiv)
unfolding set_configuration
set_configuration-rule_line r h =
    ap (λ t. with_keyword (next_field t).0 (next_field t).1) (chop_at-none (rule_line r) h.no_hash)
    ∙ ap (λ (f : Option CStr × CStr). with_keyword f.0 f.1)
        (keyword-field r.op (operands r.pattern_text r.equiv) h.valid)
    ∙ with_keyword-operands (keyword r.op) r.pattern_text r.equiv h.pattern_field h.equiv_field
    ∙ configure-keyword r.op r.pattern_text r.equiv h.valid
