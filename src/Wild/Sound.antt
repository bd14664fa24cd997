-- ===== src/Wild/Sound.antt =====
-- The texts that a match returns, put back for the wildcards, give the text that was matched.
use mathlib.Core.Path.{ap₂}
use cern_httpd.Base.{
  ℕ, zero, suc, ◌≡◌, refl, sym, ap, ◌∙◌, Bool, true, false, Option, none, some, [], ◌∷◌, ◌++◌,
  length, drop, Bool-cases, Option-cases, inl, inr, some_inj, append-nil, append_assoc, take,
  take-append-drop,
}
use cern_httpd.Str.{CStr, starts, strstr, before}
use cern_httpd.Str.Search.{IsSuffix, before-append, starts-append, find_suffix-IsSuffix}
use cern_httpd.Wild.{
  PatNode, HtPattern, WildMatch, is_user_dir, text_agrees, search_text, wild_loop, match_plain,
  match_wild, match_act, replace, text_of, pattern_match, pattern_new,
}
use cern_httpd.Wild.Invert.{match_plain_inv, match_wild_inv, match_node-wild, match_node-plain}
use cern_httpd.Wild.Build.{IsBuilt, pattern_new-IsBuilt}
use cern_httpd.Wild.Replace.{replace-plain, replace-wild}

IsSuffix-trans : (r s t : CStr) → IsSuffix r s → IsSuffix s t → IsSuffix r t
IsSuffix-trans r s t (p, e) (q, f) = (q ++ p, f ∙ ap (λ u. q ++ u) e ∙ sym (append_assoc q p r))

IsSuffix-drop : (n : ℕ) (s : CStr) → IsSuffix (drop n s) s
IsSuffix-drop n s = (take n s, sym (take-append-drop n s))

-- What a round of the loop has found when it returns.
abbrev FoundAt : CStr → (CStr → Option WildMatch) → CStr → WildMatch → Type 0
FoundAt text next act ws =
    (cur : CStr) × (m : WildMatch) × (ws ≡ some (before act cur) ∷ m)
    × (next (drop (length text) cur) ≡ some m)
    × IsSuffix cur act
    × (starts text cur ≡ true)

search_text-IsSuffix :
    (text s : CStr) {r : CStr}
    → search_text true text s ≡ some r
    → IsSuffix r s × (starts text r ≡ true)
unfolding search_text strstr
search_text-IsSuffix text s h = find_suffix-IsSuffix (starts text) s h

-- The loop's pointer is NULL or stands at an occurrence of the text.
abbrev AtText : CStr → CStr → Option CStr → Type 0
AtText text act none = Unit
AtText text act (some cur) = IsSuffix cur act × (starts text cur ≡ true)

search_text-AtText :
    (text act s : CStr) → IsSuffix s act → AtText text act (search_text true text s)
search_text-AtText text act s inside = elim (Option-cases (search_text true text s)) [
  | inl e ↦ rw e tt
  | inr (cur, e) ↦
      let (suffix, at) = search_text-IsSuffix text s e in
      rw e (IsSuffix-trans cur s act suffix inside, at)
]

wild_loop-FoundAt :
    (text : CStr) (next : CStr → Option WildMatch) (act : CStr) (fuel : ℕ) (o : Option CStr)
    (ws : WildMatch)
    → AtText text act o
    → wild_loop (search_text true text) (length text) next act fuel o ≡ some ws
    → FoundAt text next act ws
unfolding wild_loop
wild_loop-FoundAt text next act fuel none ws at h = cc
wild_loop-FoundAt text next act zero (some cur) ws at h = cc
wild_loop-FoundAt text next act (suc fuel) (some cur) ws (inside, here) h =
    elim (Option-cases (next (drop (length text) cur))) [
      | inl e ↦
          let behind = IsSuffix-trans _ cur act (IsSuffix-drop (length text) cur) inside in
          wild_loop-FoundAt text next act fuel (search_text true text (drop (length text) cur)) ws
            (search_text-AtText text act (drop (length text) cur) behind) (rw (e, wild_loop) at h)
      | inr (m, e) ↦ (cur, m, sym (some_inj (rw (e, wild_loop) at h)), e, inside, here)
    ]

-- The text matched, rebuilt from the pattern and the texts of the wildcards.
abbrev Rebuilds : HtPattern → CStr → WildMatch → Type 0
Rebuilds pat act ws = replace pat ws ≡ act

module _ (p : PatNode) (pat : HtPattern) (text : CStr) (has : p.text ≡ some text) where
  plain-Rebuilds :
      (udir : Bool) (act : CStr) (ws : WildMatch)
      → ((rest : CStr) → match_act true pat rest ≡ some ws → Rebuilds pat rest ws)
      → p.wild ≡ false
      → match_plain true udir (some text) (match_act true pat) act ≡ some ws
      → Rebuilds (p ∷ pat) act ws
  plain-Rebuilds udir act ws ih wild h =
      let (agrees, _, rest) = match_plain_inv true udir text act (match_act true pat) ws h in
      replace-plain p pat ws wild
      ∙ ap₂ (λ t r. text_of t ++ r) has (ih (drop (length text) act) rest)
      ∙ sym (starts-append text act (unfold text_agrees in agrees))

  wild-Rebuilds :
      (udir : Bool) (act : CStr) (ws : WildMatch)
      → ((rest : CStr) (m : WildMatch) → match_act true pat rest ≡ some m → Rebuilds pat rest m)
      → p.wild ≡ true
      → (text ≡ [] → pat ≡ [])
      → match_wild true udir (some text) (match_act true pat) act ≡ some ws
      → Rebuilds (p ∷ pat) act ws
  wild-Rebuilds udir act ws ih wild last h =
      elim (match_wild_inv true udir text act (match_act true pat) ws h).1 [
        | inl (empty, taken) ↦
            rw (taken, last empty)
              (replace-wild p [] act [] wild
                ∙ unfold replace in
                  ap (λ t. act ++ (text_of t ++ [])) (has ∙ ap some empty) ∙ append-nil act)
        | inr looped ↦
            let (cur, m, e, found, (before_cur, whole), here) =
              wild_loop-FoundAt text (match_act true pat) act (suc (length act))
                (search_text true text act) ws (search_text-AtText text act act ([], refl))
                looped in
            rw e (
              replace-wild p pat (before act cur) m wild
              ∙ ap₂ (λ t r. before act cur ++ (text_of t ++ r)) has
                  (ih (drop (length text) cur) m found)
              ∙ ap (λ t. before act cur ++ t) (sym (starts-append text cur here))
              ∙ ap (λ t. before t cur ++ cur) whole
              ∙ ap (λ t. t ++ cur) (before-append before_cur cur)
              ∙ sym whole)
      ]

-- The rest of a pattern behind an empty text is empty.
last_if_empty :
    (p : PatNode) (pat : HtPattern) (text : CStr)
    → IsBuilt (p ∷ pat)
    → p.text ≡ some text
    → text ≡ []
    → pat ≡ []
last_if_empty p [] text built has empty = refl
last_if_empty p (q ∷ pat) text ((c, s, e), rest) has empty = cc

IsBuilt-text :
    (p : PatNode) (pat : HtPattern) → IsBuilt (p ∷ pat) → (text : CStr) × (p.text ≡ some text)
IsBuilt-text p [] built = built
IsBuilt-text p (q ∷ pat) ((c, s, e), rest) = (c ∷ s, e)

IsBuilt-tail : (p : PatNode) (pat : HtPattern) → IsBuilt (p ∷ pat) → IsBuilt pat
IsBuilt-tail p [] built = tt
IsBuilt-tail p (q ∷ pat) built = built.1

match_act-Rebuilds :
    (pat : HtPattern) (act : CStr) (ws : WildMatch)
    → IsBuilt pat
    → match_act true pat act ≡ some ws
    → Rebuilds pat act ws
unfolding match_act
match_act-Rebuilds [] [] ws built h = unfold replace in refl
match_act-Rebuilds [] (c ∷ act) ws built h = cc
match_act-Rebuilds (p ∷ pat) act ws built h =
    let (text, has) = IsBuilt-text p pat built in
    let ih =
      λ (rest : CStr) (m : WildMatch). match_act-Rebuilds pat rest m (IsBuilt-tail p pat built) in
    elim (Bool-cases p.wild) [
      | inl e ↦
          wild-Rebuilds p pat text has (is_user_dir act) act ws ih e
            (last_if_empty p pat text built has)
            (rw (match_node-wild p (match_act true pat) act text e has) at h)
      | inr e ↦
          plain-Rebuilds p pat text has (is_user_dir act) act ws (λ rest. ih rest ws) e
            (rw (match_node-plain p (match_act true pat) act text e has) at h)
    ]

IsBuilt-match_self :
    (pat : HtPattern) (act result : CStr)
    → IsBuilt pat
    → pattern_match true pat pat (some act) ≡ some result
    → result ≡ act
unfolding pattern_match
IsBuilt-match_self [] act result built h = cc
IsBuilt-match_self (p ∷ pat) act result built h =
    elim (Option-cases (match_act true (p ∷ pat) act)) [
      | inl e ↦ cc (rw (e, pattern_match) at h)
      | inr (ws, e) ↦
          sym (some_inj (rw (e, pattern_match) at h)) ∙ match_act-Rebuilds (p ∷ pat) act ws built e
    ]

-- Matching a text, case-sensitively, against a template of HTPattern_new with the same template as
-- its equivalent gives the text back: the wildcards stand for what they matched.
pub pattern_match_self :
    (str act : CStr) {result : CStr}
    → pattern_match true (pattern_new (some str)) (pattern_new (some str)) (some act) ≡ some result
    → result ≡ act
pattern_match_self str act {result} h =
    IsBuilt-match_self (pattern_new (some str)) act result (pattern_new-IsBuilt (some str)) h
