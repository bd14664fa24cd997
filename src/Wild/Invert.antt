-- ===== src/Wild/Invert.antt =====
-- What follows from a match of a single node that succeeds.
use cern_httpd.Base.{
  suc, ◌≡◌, ◌⊎◌, refl, sym, ap, Bool, true, false, ◌&&◌, not, Option, some, [], ◌∷◌, length, drop,
  Bool-cases, inl, inr, some_inj,
}
use cern_httpd.Str.{CStr}
use cern_httpd.Wild.{
  PatNode, WildMatch, is_user_dir, text_agrees, search_text, wild_loop, match_plain, match_wild,
  match_node,
}

pub match_plain_inv :
    (cs udir : Bool) (text act : CStr) (next : CStr → Option WildMatch) (ws : WildMatch)
    → match_plain cs udir (some text) next act ≡ some ws
    → (text_agrees cs text act ≡ true)
      × ((udir && not (is_user_dir text)) ≡ false)
      × (next (drop (length text) act) ≡ some ws)
unfolding match_plain
match_plain_inv cs udir text act next ws h = elim (Bool-cases (text_agrees cs text act)) [
  | inl e ↦ elim (Bool-cases (udir && not (is_user_dir text))) [
    | inl e' ↦ cc (rw (e, e') at h)
    | inr e' ↦ (e, e', rw (e, e') at h)
  ]
  | inr e ↦ cc (rw e at h)
]

pub match_node-wild :
    (p : PatNode) (next : CStr → Option WildMatch) (act text : CStr)
    → p.wild ≡ true
    → p.text ≡ some text
    → match_node true p next act ≡ match_wild true (is_user_dir act) (some text) next act
unfolding match_node
match_node-wild p next act text e has =
    rw e (ap (λ t. match_wild true (is_user_dir act) t next act) has)

pub match_node-plain :
    (p : PatNode) (next : CStr → Option WildMatch) (act text : CStr)
    → p.wild ≡ false
    → p.text ≡ some text
    → match_node true p next act ≡ match_plain true (is_user_dir act) (some text) next act
unfolding match_node
match_node-plain p next act text e has =
    rw e (ap (λ t. match_plain true (is_user_dir act) t next act) has)

-- The loop as `match` starts it.
abbrev pub start_loop : Bool → CStr → (CStr → Option WildMatch) → CStr → Option WildMatch
start_loop cs text next act =
    wild_loop (search_text cs text) (length text) next act (suc (length act))
      (search_text cs text act)

pub match_wild_inv :
    (cs udir : Bool) (text act : CStr) (next : CStr → Option WildMatch) (ws : WildMatch)
    → match_wild cs udir (some text) next act ≡ some ws
    → ((udir && not (is_user_dir text)) ≡ false)
      × (((text ≡ []) × (ws ≡ some act ∷ [])) ⊎ (start_loop cs text next act ≡ some ws))
unfolding match_wild
match_wild_inv cs true [] act next ws h = cc
match_wild_inv cs true (c ∷ text) act next ws h = elim (Bool-cases (is_user_dir (c ∷ text))) [
  | inl e ↦ (ap not e, inr (rw e at h))
  | inr e ↦ cc (rw e at h)
]
match_wild_inv cs false [] act next ws h = (refl, inl (refl, sym (some_inj h)))
match_wild_inv cs false (c ∷ text) act next ws h = (refl, inr h)
