-- ===== src/Rules/Config/Load.antt =====
-- A file of rules is loaded as those rules (HTLoadRules).
use mathlib.Core.List.{flat_map}
use cern_httpd.Base.{
  ℕ, zero, suc, ◌≤◌, ◌≡◌, ◌≢◌, refl, sym, ap, ◌∙◌, some, List, [], ◌∷◌, ◌++◌, All, All-append,
  arith, length, length-append, ==_ne, append_assoc, append-nil, map, inl, inr,
}
use cern_httpd.Base.Int.{pos}
use cern_httpd.Str.{CStr, fgets, white}
use cern_httpd.Str.Field.{IsWord, IsField}
use cern_httpd.Rules.{RuleOp, Rule}
use cern_httpd.Rules.Config.{
  new_rule, set_configuration, act_on_rules, line_size, load_loop, load_rules,
}
use cern_httpd.Rules.Config.Print.{
  FileRule, keyword, rule_line, to_rule, IsWritable, set_configuration-rule_line, HasKeyword,
}

-- A line without a newline but at its end is read whole, if the buffer holds it.
fgets-line :
    (n : ℕ) (s rest : CStr)
    → All (λ c. c ≢ 10) s
    → length s ≤ n
    → fgets (suc (suc n)) (s ++ 10 ∷ rest) ≡ (s ++ 10 ∷ [], rest)
unfolding fgets
fgets-line n [] rest h lt = refl
fgets-line zero (c ∷ s) rest h lt = absurd (omega arith)
fgets-line (suc n) (c ∷ s) rest h lt =
    rw (==_ne c 10 h.0) (rw (fgets-line n s rest h.1 (omega arith)))

load_loop_step :
    (fuel : ℕ) (text line rest : CStr) (rules : List Rule)
    → text ≢ []
    → fgets line_size text ≡ (line, rest)
    → load_loop (suc fuel) text rules
      ≡ load_loop fuel rest (act_on_rules (set_configuration line) rules)
unfolding load_loop
load_loop_step fuel [] line rest rules ne e = absurd (ne refl)
load_loop_step fuel (c ∷ text) line rest rules ne e =
    ap (λ (f : CStr × CStr). load_loop fuel f.1 (act_on_rules (set_configuration f.0) rules)) e

IsWord-NoNewline : (w : CStr) → IsWord w → All (λ c. c ≢ 10) w
unfolding white
IsWord-NoNewline [] h = tt
IsWord-NoNewline (c ∷ w) h = ((λ e. ground arith), IsWord-NoNewline w h.1)

IsField-NoNewline : (w : CStr) → IsField w → All (λ c. c ≢ 10) w
IsField-NoNewline [] h = absurd h
IsField-NoNewline (c ∷ w) h = IsWord-NoNewline (c ∷ w) h.0

-- The line without its newline.
abbrev line_body : FileRule → CStr
line_body r = keyword r.op ++ b' ' ∷ (r.pattern_text ++ b' ' ∷ r.equiv)

keyword-NoNewline : (op : RuleOp) → HasKeyword op → All (λ c. c ≢ 10) (keyword op)
keyword-NoNewline op (inl e) = rw e omega arith
keyword-NoNewline op (inr (inl e)) = rw e omega arith
keyword-NoNewline op (inr (inr e)) = rw e omega arith

blank_ne_newline : ◌≢◌ {A = ℕ} b' ' 10
blank_ne_newline = omega arith

line_body-NoNewline : (r : FileRule) → IsWritable r → All (λ c. c ≢ 10) (line_body r)
line_body-NoNewline r h = All-append _ (keyword r.op) _ (keyword-NoNewline r.op h.valid) (
  blank_ne_newline,
  All-append _ r.pattern_text _ (IsField-NoNewline r.pattern_text h.pattern_field)
      (blank_ne_newline, IsField-NoNewline r.equiv h.equiv_field),
)

rule_line-append : (r : FileRule) (rest : CStr) → rule_line r ++ rest ≡ line_body r ++ 10 ∷ rest
rule_line-append r rest = simp append_assoc

fgets-rule_line :
    (r : FileRule) (rest : CStr)
    → IsWritable r
    → fgets line_size (rule_line r ++ rest) ≡ (rule_line r, rest)
fgets-rule_line r rest h =
    ap (fgets line_size) (rule_line-append r rest)
    ∙ fgets-line 255 (line_body r) rest (line_body-NoNewline r h) (
        omega (
          arith,
          h.fits,
          ap length (sym (append-nil (rule_line r)) ∙ rule_line-append r []),
          length-append (line_body r) (10 ∷ []),
        ))
    ∙ ap (λ t. (t, rest)) (sym (sym (append-nil (rule_line r)) ∙ rule_line-append r []))

rule_line-ne-nil : (r : FileRule) (rest : CStr) → rule_line r ++ rest ≢ []
rule_line-ne-nil r rest e =
    omega (
      arith,
      ap length (sym (rule_line-append r rest) ∙ e),
      length-append (line_body r) (10 ∷ rest),
    )

act_on_rules-new_rule :
    (r : FileRule) (rules : List Rule)
    → act_on_rules (new_rule r.op r.pattern_text (some r.equiv)) rules ≡ rules ++ to_rule r ∷ []
unfolding act_on_rules
act_on_rules-new_rule r rules = refl

load_loop-nil : (fuel : ℕ) (rules : List Rule) → load_loop fuel [] rules ≡ rules ++ []
unfolding load_loop
load_loop-nil zero rules = sym (append-nil rules)
load_loop-nil (suc fuel) rules = sym (append-nil rules)

load_loop-lines :
    (fuel : ℕ) (file : List FileRule) (rules : List Rule)
    → All IsWritable file
    → length file ≤ fuel
    → load_loop fuel (flat_map rule_line file) rules ≡ rules ++ map to_rule file
unfolding flat_map
load_loop-lines fuel [] rules h le = load_loop-nil fuel rules
load_loop-lines zero (r ∷ file) rules h le = absurd (omega arith)
load_loop-lines (suc fuel) (r ∷ file) rules h le =
    load_loop_step fuel (rule_line r ++ flat_map rule_line file) (rule_line r)
      (flat_map rule_line file) rules (rule_line-ne-nil r (flat_map rule_line file))
      (fgets-rule_line r (flat_map rule_line file) h.0)
    ∙ ap (load_loop fuel (flat_map rule_line file)) (
        ap (λ a. act_on_rules a rules) (set_configuration-rule_line r h.0)
        ∙ act_on_rules-new_rule r rules)
    ∙ load_loop-lines fuel file (rules ++ to_rule r ∷ []) h.1 (omega arith)
    ∙ append_assoc rules (to_rule r ∷ []) (map to_rule file)

length-flat_map-rule_line : (file : List FileRule) → length file ≤ length (flat_map rule_line file)
unfolding flat_map
length-flat_map-rule_line [] = omega arith
length-flat_map-rule_line (r ∷ file) = omega (
  arith,
  length-flat_map-rule_line file,
  ap length (rule_line-append r (flat_map rule_line file)),
  length-append (line_body r) (10 ∷ flat_map rule_line file),
)

-- A file that holds a line for each of a list of rules, each line within the line buffer, each word
-- a plain field and no hash among them, is loaded as those rules, in their order, behind the rules
-- that were there.
pub load_rules-print :
    (file : List FileRule) (rules : List Rule)
    → All IsWritable file
    → load_rules (some (flat_map rule_line file)) rules ≡ (rules ++ map to_rule file, pos 0)
unfolding load_rules
load_rules-print file rules h =
    ap (λ l. (l, pos 0))
      (load_loop-lines (length (flat_map rule_line file)) file rules h
        (length-flat_map-rule_line file))
