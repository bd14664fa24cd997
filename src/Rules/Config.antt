-- ===== src/Rules/Config.antt =====
-- HTSetConfiguration and HTLoadRules of Library/Implementation/HTRules.c.
-- The calls of HTFormat.c and HTFile.c that a line leads to are its action, with the text from
-- which sscanf reads the numbers behind the fields; `none` is the NULL of a missing field.
pub mod Print
pub mod Load
pub mod Fault
use cern_httpd.Base.{
  ℕ, zero, suc, Bool, Option, none, some, List, [], ◌∷◌, if◌then◌else◌, length, codes,
}
use cern_httpd.Base.Int.{ℤ, pos, negsuc}
use cern_httpd.Str.{CStr, next_field, strcasecomp, is_zero, chop_at, fgets}
use cern_httpd.Rules.{RuleOp, invalid, map_op, pass_op, fail_op, Rule, add_rule}

pub data ConfigAction : Type 0 where
  blank_line : ConfigAction
  insufficient : ConfigAction
  add_type : CStr → Option CStr → CStr → CStr → ConfigAction
  add_encoding : CStr → Option CStr → CStr → ConfigAction
  add_language : CStr → Option CStr → CStr → ConfigAction
  set_presentation : CStr → Option CStr → CStr → ConfigAction
  bad_rule : ConfigAction
  new_rule : RuleOp → CStr → Option CStr → ConfigAction

-- `0 == strcasecomp(word, ...)`
unfoldable pub is_keyword : CStr → CStr → Bool
unfolding is_zero strcasecomp
is_keyword word keyword = is_zero (strcasecomp word keyword)

unfoldable pub config_op : CStr → RuleOp
unfolding is_keyword
config_op word1 =
    if is_keyword word1 (codes "map")
    then map_op
    else if is_keyword word1 (codes "pass")
    then pass_op
    else if is_keyword word1 (codes "fail")
    then fail_op
    else invalid

unfoldable pub rule_action : RuleOp → CStr → Option CStr → ConfigAction
rule_action invalid word2 word3 = bad_rule
rule_action op word2 word3 = new_rule op word2 word3

-- `encoding ? encoding : "binary"`
unfoldable pub encoding_or_binary : Option CStr → CStr
encoding_or_binary none = codes "binary"
encoding_or_binary (some encoding) = encoding

unfoldable pub configure : CStr → CStr → Option CStr → CStr → ConfigAction
unfolding is_keyword config_op rule_action encoding_or_binary next_field
configure word1 word2 word3 pointer =
    if is_keyword word1 (codes "suffix")
    then add_type word2 word3 (encoding_or_binary (next_field pointer).0) (next_field pointer).1
    else if is_keyword word1 (codes "addtype")
    then add_type word2 word3 (encoding_or_binary (next_field pointer).0) (next_field pointer).1
    else if is_keyword word1 (codes "addencoding")
    then add_encoding word2 word3 pointer
    else if is_keyword word1 (codes "addlanguage")
    then add_language word2 word3 pointer
    else if is_keyword word1 (codes "presentation")
    then set_presentation word2 word3 pointer
    else rule_action (config_op word1) word2 word3

unfoldable pub with_operands : CStr → Option CStr → CStr → ConfigAction
unfolding configure next_field
with_operands word1 none pointer = insufficient
with_operands word1 (some word2) pointer =
    let (word3, pointer') = next_field pointer in configure word1 word2 word3 pointer'

unfoldable pub with_keyword : Option CStr → CStr → ConfigAction
unfolding with_operands next_field
with_keyword none pointer = blank_line
with_keyword (some word1) pointer =
    let (word2, pointer') = next_field pointer in with_operands word1 word2 pointer'

-- HTSetConfiguration
unfoldable pub set_configuration : CStr → ConfigAction
unfolding with_keyword next_field chop_at
set_configuration config =
    let (word1, pointer) = next_field (chop_at b'#' config) in with_keyword word1 pointer

-- The result of HTSetConfiguration: -2 is a syntax error.
unfoldable pub config_status : ConfigAction → ℤ
config_status insufficient = negsuc 1
config_status _ = pos 0

-- The effect of an action on the rules.
unfoldable pub act_on_rules : ConfigAction → List Rule → List Rule
unfolding add_rule
act_on_rules (new_rule op pattern equiv) rules = add_rule rules op pattern equiv
act_on_rules _ rules = rules

-- LINE_LENGTH + 1
abbrev pub line_size : ℕ
line_size = 257

-- The loop of HTLoadRules: each round reads at least one character.
unfoldable pub load_loop : ℕ → CStr → List Rule → List Rule
unfolding act_on_rules set_configuration fgets
load_loop fuel [] rules = rules
load_loop zero (c ∷ text) rules = rules
load_loop (suc fuel) (c ∷ text) rules =
    let (line, rest) = fgets line_size (c ∷ text) in
    load_loop fuel rest (act_on_rules (set_configuration line) rules)

-- HTLoadRules, given the text of the file, or `none` if it cannot be opened.
unfoldable pub load_rules : Option CStr → List Rule → List Rule × ℤ
unfolding load_loop
load_rules none rules = (rules, negsuc 0)
load_rules (some text) rules = (load_loop (length text) text rules, pos 0)
