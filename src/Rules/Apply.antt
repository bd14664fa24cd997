-- ===== src/Rules/Apply.antt =====
-- What a rule with one wildcard does to a name.
use mathlib.Core.Path.{ap₂}
use cern_httpd.Base.{
  take-append-drop, ℕ, ◌-◌, ◌≡◌, ◌≢◌, refl, sym, ap, ◌∙◌, false, Option, none, some, [], ◌∷◌, ◌++◌,
  arith, Bool-cases, inl, inr, length, drop, take, ltb, length-append, take-length-append, ==_ne,
}
use cern_httpd.Str.{CStr, first_mismatch, streq, strchr, before, same_head}
use cern_httpd.Str.Search.{before-append}
use cern_httpd.Str.Mismatch.{
  first_mismatch-at_star, NoStar, first_mismatch-star, streq_self, streq_iff, tail_of_append,
}
use cern_httpd.Rules.{
  RuleOp, map_op, pass_op, fail_op, Rule, next, pass, refuse, rule_matches, insert_match,
  substitute, perform, perform_if, apply_at, apply_rule,
}

-- A name fits `a*b` if it is `a`, anything, and `b`.
abbrev pub Fits : CStr → CStr → CStr → Type 0
Fits a b f = (x : CStr) × (f ≡ a ++ (x ++ b))

star_matches : (x b : CStr) → rule_matches (b'*' ∷ b) (x ++ b) ≡ some (length (x ++ b) - length b)
unfolding rule_matches
star_matches x b =
    let long_enough : ltb (length (x ++ b)) (length b) ≡ false =
      ground (arith, length-append x b) in
    rw (long_enough, tail_of_append x b, rule_matches) (rw (streq_self b))

strchr-star : (c d : CStr) → NoStar c → strchr (c ++ b'*' ∷ d) b'*' ≡ some (b'*' ∷ d)
unfolding strchr
strchr-star [] d h = refl
strchr-star (x ∷ c) d h = rw (==_ne x b'*' h.0) (strchr-star c d h.1)

take_match : (x b : CStr) → take (length (x ++ b) - length b) (x ++ b) ≡ x
take_match x b =
    let e : length (x ++ b) - length b ≡ length x = omega (arith, length-append x b) in
    rw e (take-length-append x b)

same_head-star : (b q : CStr) → NoStar q → same_head (b'*' ∷ b) q ≡ false
unfolding same_head
same_head-star b [] h = refl
same_head-star b (d ∷ q) h = ==_ne b'*' d (λ e. h.0 (sym e))

substitute_lem :
    (equiv b q : CStr) (m : ℕ)
    → NoStar q
    → substitute equiv (b'*' ∷ b) q m ≡ insert_match equiv (strchr equiv b'*') q m
unfolding substitute
substitute_lem equiv b q m h = rw (same_head-star b q h)

insert_match_lem :
    (equiv ins q : CStr) (m : ℕ)
    → insert_match equiv (some ins) q m ≡ before equiv ins ++ (take m q ++ drop 1 ins)
unfolding insert_match
insert_match_lem equiv ins q m = refl

-- What the equivalent `c*d` becomes.
substitute-star :
    (c d b x : CStr)
    → NoStar c
    → NoStar (x ++ b)
    → substitute (c ++ b'*' ∷ d) (b'*' ∷ b) (x ++ b) (length (x ++ b) - length b) ≡ c ++ (x ++ d)
substitute-star c d b x hc hq =
    substitute_lem (c ++ b'*' ∷ d) b (x ++ b) (length (x ++ b) - length b) hq
    ∙ ap (λ o. insert_match (c ++ b'*' ∷ d) o (x ++ b) (length (x ++ b) - length b))
        (strchr-star c d hc)
    ∙ insert_match_lem (c ++ b'*' ∷ d) (b'*' ∷ d) (x ++ b) (length (x ++ b) - length b)
    ∙ ap₂ (λ u v. u ++ (v ++ d)) (before-append c (b'*' ∷ d)) (take_match x b)

apply_rule_lem :
    (r : Rule) (current : CStr)
    → apply_rule r current ≡ apply_at r current (first_mismatch r.pattern_text current)
unfolding apply_rule
apply_rule_lem r current = refl

apply_at_lem :
    (r : Rule) (current p q : CStr)
    → apply_at r current (p, q) ≡ perform_if (rule_matches p q) r current p q
unfolding apply_at
apply_at_lem r current p q = refl

perform_if-none : (r : Rule) (current p q : CStr) → perform_if none r current p q ≡ next current
unfolding perform_if
perform_if-none r current p q = refl

perform_if-some :
    (r : Rule) (current p q : CStr) (m : ℕ)
    → perform_if (some m) r current p q ≡ perform r.op r.equiv current p q m
unfolding perform_if
perform_if-some r current p q m = refl

perform_map :
    (equiv current p q : CStr) (m : ℕ)
    → perform map_op (some equiv) current p q m ≡ next (substitute equiv p q m)
unfolding perform
perform_map equiv current p q m = refl

perform_pass :
    (equiv current p q : CStr) (m : ℕ)
    → perform pass_op (some equiv) current p q m ≡ pass (substitute equiv p q m)
unfolding perform
perform_pass equiv current p q m = refl

perform_fail :
    (equiv : Option CStr) (current p q : CStr) (m : ℕ)
    → perform fail_op equiv current p q m ≡ refuse
unfolding perform
perform_fail equiv current p q m = refl

NoStar-drop : (a q : CStr) → NoStar (a ++ q) → NoStar q
NoStar-drop [] q h = h
NoStar-drop (c ∷ a) q h = NoStar-drop a q h.1

-- The rule `a*b` with its operation and equivalent.
abbrev pub star_rule : RuleOp → CStr → CStr → Option CStr → Rule
star_rule op a b equiv = record { op = op; pattern_text = a ++ b'*' ∷ b; equiv = equiv }

apply_rule-mismatch :
    (r : Rule) (current p q : CStr)
    → first_mismatch r.pattern_text current ≡ (p, q)
    → apply_rule r current ≡ perform_if (rule_matches p q) r current p q
apply_rule-mismatch r current p q e =
    apply_rule_lem r current ∙ ap (apply_at r current) e ∙ apply_at_lem r current p q

apply_rule-none :
    (r : Rule) (current p q : CStr)
    → first_mismatch r.pattern_text current ≡ (p, q)
    → rule_matches p q ≡ none
    → apply_rule r current ≡ next current
apply_rule-none r current p q e h =
    apply_rule-mismatch r current p q e
    ∙ ap (λ o. perform_if o r current p q) h
    ∙ perform_if-none r current p q

apply_rule-at_star :
    (op : RuleOp) (a b x : CStr) (equiv : Option CStr)
    → NoStar (a ++ (x ++ b))
    → apply_rule (star_rule op a b equiv) (a ++ (x ++ b))
      ≡ perform op equiv (a ++ (x ++ b)) (b'*' ∷ b) (x ++ b) (length (x ++ b) - length b)
apply_rule-at_star op a b x equiv h =
    apply_rule-mismatch (star_rule op a b equiv) (a ++ (x ++ b)) (b'*' ∷ b) (x ++ b)
      (first_mismatch-at_star a b (x ++ b) (NoStar-drop a (x ++ b) h))
    ∙ ap (λ o. perform_if o (star_rule op a b equiv) (a ++ (x ++ b)) (b'*' ∷ b) (x ++ b))
        (star_matches x b)
    ∙ perform_if-some _ _ _ _ _

-- A Map rule `a*b` with the equivalent `c*d` turns each name `axb` without stars into `cxd` and
-- goes on; a Pass rule gives that name out; a Fail rule refuses the request.
pub apply_rule-star :
    (a b c d x : CStr)
    → NoStar (a ++ (x ++ b))
    → NoStar c
    → (apply_rule (star_rule map_op a b (some (c ++ b'*' ∷ d))) (a ++ (x ++ b))
        ≡ next (c ++ (x ++ d)))
      × (apply_rule (star_rule pass_op a b (some (c ++ b'*' ∷ d))) (a ++ (x ++ b))
          ≡ pass (c ++ (x ++ d)))
      × (apply_rule (star_rule fail_op a b (some (c ++ b'*' ∷ d))) (a ++ (x ++ b)) ≡ refuse)
apply_rule-star a b c d x h hc =
    let made = substitute-star c d b x hc (NoStar-drop a (x ++ b) h) in
    (
      apply_rule-at_star map_op a b x (some (c ++ b'*' ∷ d)) h
          ∙ perform_map _ _ _ _ _
          ∙ ap next made,
      apply_rule-at_star pass_op a b x (some (c ++ b'*' ∷ d)) h
          ∙ perform_pass _ _ _ _ _
          ∙ ap pass made,
      apply_rule-at_star fail_op a b x (some (c ++ b'*' ∷ d)) h ∙ perform_fail _ _ _ _ _,
    )

rule_matches-other :
    (c : ℕ) (p q : CStr) → c ≢ b'*' → same_head (c ∷ p) q ≡ false → rule_matches (c ∷ p) q ≡ none
unfolding rule_matches
rule_matches-other c p q ne differ = rw (==_ne c b'*' ne) (rw differ)

-- A tail that the name does not end in.
star_refuses : (b q : CStr) → ((x : CStr) → q ≢ x ++ b) → rule_matches (b'*' ∷ b) q ≡ none
unfolding rule_matches
star_refuses b q h = elim (Bool-cases (ltb (length q) (length b))) [
  | inl e ↦ rw e
  | inr e ↦ elim (Bool-cases (streq (drop (length q - length b) q) b)) [
    | inl e' ↦ absurd (
        h (take (length q - length b) q) (
          sym (take-append-drop (length q - length b) q)
          ∙ ap (λ t. take (length q - length b) q ++ t)
              ((streq_iff (drop (length q - length b) q) b).0 e')))
    | inr e' ↦ rw (e, e')
  ]
]

-- A rule `a*b`, whatever its operation and equivalent are, leaves every name without stars that
-- does not begin with `a` and end in `b` behind it to the next rule.
apply_rule-unfit :
    (op : RuleOp) (a b f : CStr) (equiv : Option CStr)
    → NoStar a
    → NoStar f
    → ¬ Fits a b f
    → apply_rule (star_rule op a b equiv) f ≡ next f
apply_rule-unfit op a b f equiv ha hf unfit = elim (first_mismatch-star a b f ha hf) [
  | inl (g, whole, here) ↦
      apply_rule-none (star_rule op a b equiv) f (b'*' ∷ b) g here
        (star_refuses b g (λ x e. unfit (x, whole ∙ ap (λ t. a ++ t) e)))
  | inr (c, p, q, ne, here, differ, none_at) ↦
      apply_rule-none (star_rule op a b equiv) f (c ∷ p) q here (rule_matches-other c p q ne differ)
]
