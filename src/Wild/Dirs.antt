-- ===== src/Wild/Dirs.antt =====
-- User directories are matched by explicit templates only.
use cern_httpd.Base.{
  ◌≡◌, refl, Bool, true, false, none, some, [], ◌∷◌, ◌&&◌, not, Bool-cases, Option-cases, inl, inr,
  Option,
}
use cern_httpd.Str.{CStr}
use cern_httpd.Wild.{
  PatNode, HtPattern, WildMatch, is_user_dir, text_is_user_dir, match_plain, match_wild, match_node,
  match_act, pattern_match,
}
use cern_httpd.Wild.Invert.{match_plain_inv, match_wild_inv}

not-not-and : (b : Bool) → (true && not b) ≡ false → b ≡ true
not-not-and true h = refl
not-not-and false h = cc

no_text_plain :
    (cs : Bool) (next : CStr → Option WildMatch) (act : CStr) (ws : WildMatch)
    → match_plain cs true none next act ≡ some ws
    → ¬ (is_user_dir act ≡ true)
unfolding match_plain is_user_dir
no_text_plain cs next [] ws h dir = cc
no_text_plain cs next (c ∷ act) ws h dir = cc

module _ (cs : Bool) (pat : HtPattern) (act : CStr) (ws : WildMatch) where
  plain_dir :
      (text : Option CStr)
      → match_plain cs true text (match_act cs pat) act ≡ some ws
      → is_user_dir act ≡ true
      → text_is_user_dir text ≡ true
  unfolding match_plain text_is_user_dir
  plain_dir none h dir = absurd (no_text_plain cs (match_act cs pat) act ws h dir)
  plain_dir (some text) h dir =
      not-not-and _ (match_plain_inv cs true text act (match_act cs pat) ws h).1

  wild_dir :
      (text : Option CStr)
      → match_wild cs true text (match_act cs pat) act ≡ some ws
      → text_is_user_dir text ≡ true
  unfolding match_wild text_is_user_dir
  wild_dir none h = cc
  wild_dir (some text) h = not-not-and _ (match_wild_inv cs true text act (match_act cs pat) ws h).0

  node_dir :
      (p : PatNode)
      → match_node cs p (match_act cs pat) act ≡ some ws
      → is_user_dir act ≡ true
      → text_is_user_dir p.text ≡ true
  unfolding match_node
  node_dir p h dir = elim (Bool-cases p.wild) [
    | inl e ↦ wild_dir p.text (rw (e, dir, match_node) at h)
    | inr e ↦ plain_dir p.text (rw (e, dir, match_node) at h) dir
  ]

-- A text that begins with `/~` or `file:/~` is matched only by a pattern whose first node's text
-- begins so too, whatever the case sensitivity, the wildcards and the equivalent are.
pub pattern_match-user_dir :
    (cs : Bool) (pat eqv : HtPattern) (act : CStr) {result : CStr}
    → pattern_match cs pat eqv (some act) ≡ some result
    → is_user_dir act ≡ true
    → (p : PatNode) × (rest : HtPattern) × (pat ≡ p ∷ rest) × (text_is_user_dir p.text ≡ true)
unfolding pattern_match
pattern_match-user_dir cs [] eqv act h dir = cc
pattern_match-user_dir cs (p ∷ pat) eqv act h dir =
    elim (Option-cases (match_node cs p (match_act cs pat) act)) [
      | inl e ↦ cc (rw (e, pattern_match) at h)
      | inr (ws, e) ↦ (p, pat, refl, node_dir cs pat act ws p e dir)
    ]
