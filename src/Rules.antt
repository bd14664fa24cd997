-- ===== src/Rules.antt =====
-- Library/Implementation/HTRules.c: the rules that translate a requested document name.
-- The list `rules` is a value; HTAddRule adds at its end, as it does unless PUT_ON_HEAD is defined.
pub mod Order
pub mod Apply
pub mod Config
mod Tests
use cern_httpd.Base.{
  ℕ, ◌-◌, Bool, true, false, ◌&&◌, not, Option, none, some, List, [], ◌∷◌, ◌++◌, ltb, ◌==◌,
  if◌then◌else◌, length, drop, take, codes,
}
use cern_httpd.Base.Int.{ℤ, pos, negsuc}
use cern_httpd.Str.{
  CStr, first_mismatch, same_head, streq, strchr, before, next_field, strcasecomp, is_zero,
}

pub data RuleOp : Type 0 where
  invalid : RuleOp
  map_op : RuleOp
  pass_op : RuleOp
  fail_op : RuleOp
  def_prot : RuleOp
  protect : RuleOp
  exec : RuleOp
  redirect : RuleOp
  moved : RuleOp
  use_proxy : RuleOp

pub record Rule : Type 0 where
  pub op : RuleOp
  pub pattern_text : CStr
  pub equiv : Option CStr

-- HTAddRule
unfoldable pub add_rule : List Rule → RuleOp → CStr → Option CStr → List Rule
add_rule rules op pattern equiv =
    rules ++ record { op = op; pattern_text = pattern; equiv = equiv } ∷ []

-- HTClearRules
unfoldable pub clear_rules : List Rule → List Rule
clear_rules rules = []

-- What one round of the loop of HTTranslate does with `current`. `lost` leaves a NULL in it, which
-- StrAllocCopy has copied; `fault` is a string operation on the NULL of a rule without an equivalent.
pub data Round : Type 0 where
  next : CStr → Round
  pass : CStr → Round
  refuse : Round
  lost : Round
  fault : Round

-- The test at the first mismatch: how many characters the wildcard matches, if the rule applies.
unfoldable pub rule_matches : CStr → CStr → Option ℕ
unfolding streq same_head
rule_matches [] q = if same_head [] q then some 0 else none
rule_matches (c ∷ p) q =
    if c == b'*'
    then (if ltb (length q) (length p)
        then none
        else if streq (drop (length q - length p) q) p
        then some (length q - length p)
        else none)
    else if same_head (c ∷ p) q
    then some 0
    else none

-- The equivalent with `m` characters of `q` for its first star, or as it is if it has none.
unfoldable pub insert_match : CStr → Option CStr → CStr → ℕ → CStr
unfolding before
insert_match equiv none q m = equiv
insert_match equiv (some ins) q m = before equiv ins ++ (take m q ++ drop 1 ins)

unfoldable pub substitute : CStr → CStr → CStr → ℕ → CStr
unfolding insert_match strchr same_head
substitute equiv p q m = if same_head p q then equiv else insert_match equiv (strchr equiv b'*') q m

unfoldable pub perform : RuleOp → Option CStr → CStr → CStr → CStr → ℕ → Round
unfolding substitute same_head
perform pass_op none current p q m = pass current
perform pass_op (some equiv) current p q m = pass (substitute equiv p q m)
perform map_op none current p q m = if same_head p q then lost else fault
perform map_op (some equiv) current p q m = next (substitute equiv p q m)
perform fail_op equiv current p q m = refuse
perform _ equiv current p q m = refuse

unfoldable pub perform_if : Option ℕ → Rule → CStr → CStr → CStr → Round
unfolding perform
perform_if none r current p q = next current
perform_if (some m) r current p q = perform r.op r.equiv current p q m

unfoldable pub apply_at : Rule → CStr → CStr × CStr → Round
unfolding rule_matches perform_if
apply_at r current (p, q) = perform_if (rule_matches p q) r current p q

unfoldable pub apply_rule : Rule → CStr → Round
unfolding first_mismatch apply_at
apply_rule r current = apply_at r current (first_mismatch r.pattern_text current)

-- What HTTranslate returns: a string, NULL, or nothing because of a fault.
pub data Translation : Type 0 where
  translated : CStr → Translation
  refused : Translation
  crashed : Translation

-- The loop of HTTranslate; a rule behind a lost `current` compares its pattern with NULL.
unfoldable pub translate_loop : List Rule → Round → Translation
unfolding apply_rule
translate_loop rules (pass current) = translated current
translate_loop rules refuse = refused
translate_loop rules fault = crashed
translate_loop [] lost = refused
translate_loop (r ∷ rules) lost = crashed
translate_loop [] (next current) = translated current
translate_loop (r ∷ rules) (next current) = translate_loop rules (apply_rule r current)

-- HTTranslate
unfoldable pub translate : List Rule → CStr → Translation
unfolding translate_loop
translate rules required = translate_loop rules (next required)
