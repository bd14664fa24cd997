-- ===== src/Wild/Overlap.antt =====
-- A text behind a wildcard that can overlap itself.
use cern_httpd.Base.{
  ℕ, zero, suc, ◌≡◌, ◌≢◌, refl, sym, ap, ◌∙◌, true, false, none, some, [], ◌∷◌, ◌++◌, arith, length,
  ==_refl, ==_ne, append_assoc,
}
use cern_httpd.Str.{CStr}
use cern_httpd.Wild.{
  PatNode, is_user_dir, pattern_new, wild_loop, search_text, match_node, match_act, pattern_match,
}

-- 2n + 1 times the character.
abbrev pub odd_run : ℕ → ℕ → CStr
odd_run c zero = c ∷ []
odd_run c (suc n) = c ∷ c ∷ odd_run c n

odd_run-snoc : (c n : ℕ) → odd_run c n ++ c ∷ [] ≡ c ∷ odd_run c n
odd_run-snoc c zero = refl
odd_run-snoc c (suc n) = ap (λ t. c ∷ c ∷ t) (odd_run-snoc c n)

odd_run-is_user_dir : (c n : ℕ) → is_user_dir (odd_run c n) ≡ false
unfolding is_user_dir
odd_run-is_user_dir c zero = ground arith
odd_run-is_user_dir c (suc n) = ground arith

match_act-run : (c n : ℕ) → match_act true [] (odd_run c n) ≡ none
unfolding match_act
match_act-run c zero = refl
match_act-run c (suc n) = refl

double_loop :
    (c n fuel : ℕ) (act : CStr)
    → wild_loop
        (search_text true (c ∷ c ∷ []))
        2
        (match_act true [])
        act
        fuel
        (search_text true (c ∷ c ∷ []) (odd_run c n))
      ≡ none
unfolding wild_loop search_text
double_loop c zero zero act = ground arith
double_loop c zero (suc fuel) act = ground arith
double_loop c (suc n) zero act = rw (==_refl c)
double_loop c (suc n) (suc fuel) act =
    rw (==_refl c) (rw (match_act-run c n, wild_loop) (double_loop c n fuel act))

double_node : ℕ → PatNode
double_node c = record { wild = true; text = some (c ∷ c ∷ []) }

match_node-double :
    (c n : ℕ) → match_node true (double_node c) (match_act true []) (odd_run c n) ≡ none
unfolding match_node double_node
match_node-double c n =
    rw (odd_run-is_user_dir c n) (double_loop c n (suc (length (odd_run c n))) (odd_run c n))

pattern_new-double :
    (c : ℕ) → c ≢ b'*' → c ≢ b'\\' → pattern_new (some (b'*' ∷ c ∷ c ∷ [])) ≡ double_node c ∷ []
unfolding pattern_new double_node
pattern_new-double c star slash = rw (==_ne c b'*' star, ==_ne c b'\\' slash)

-- A star before a text that is one character twice does not match every text that ends so: the
-- search goes on behind an occurrence and not one character further, so a run of that character of
-- odd length is refused.
pub pattern_match-overlap :
    (c n : ℕ)
    → c ≢ b'*'
    → c ≢ b'\\'
    → (odd_run c (suc n) ≡ odd_run c n ++ c ∷ c ∷ [])
      × (pattern_match true (pattern_new (some (b'*' ∷ c ∷ c ∷ []))) [] (some (odd_run c (suc n)))
          ≡ none)
unfolding pattern_match
pattern_match-overlap c n star slash = (
  ap (λ t. c ∷ t) (sym (odd_run-snoc c n))
      ∙ (ap (λ t. t ++ c ∷ []) (sym (odd_run-snoc c n))
          ∙ append_assoc (odd_run c n) (c ∷ []) (c ∷ [])),
  rw (pattern_new-double c star slash) (rw (match_node-double c (suc n), pattern_match)),
)
