-- ===== src/Group/Parse/Fuel.antt =====
-- How much the parser of HTGroup.c takes from a file: no loop of it runs out of fuel.
use cern_httpd.Base.{
  ℕ, zero, suc, ◌+◌, ◌≤◌, ◌<◌, ◌≡◌, refl, ap, arith, Bool, true, false, Bool-cases, inl, inr, List,
  [], ◌∷◌, length, ◌||◌, ◌==◌, if◌then◌else◌,
}
use cern_httpd.Str.{CStr}
use cern_httpd.Lex.{LexItem, unlex, lex_none, lex_eof}
use cern_httpd.Lex.Progress.{item_size, taken, item_size-taken, lex-Within, is_end}
use cern_httpd.Group.Parse.{
  Reader, Parsed, Parser, parsed, rejected, and_parse, next, push_back, skip_line, syntax_error,
  reject, size, is_rec_sep, skip_rec_seps, is_item_sep, is_close_paren, is_open_paren, lexed,
  list_loop, parse_part, skip_again, if_accepted, list_step, part_from, parse_list,
}

-- What is known of a reader and the item that was taken last.
abbrev pub Took : ℕ → LexItem → Reader → Type 0
Took n it r = (r.st.pushed_back ≡ lex_none) × (taken it + length r.text ≤ n)

abbrev pub Left {ℓ} : {A : Type ℓ} → ℕ → A → Reader → Type 0
Left n a r = size r ≤ n

-- The fuel was enough, and no more is left than before.
pub data Ends {A : Type 0} (P : A → Reader → Type 0) (n : ℕ) : Parsed A × Reader → Type 0 where
  ends_parsed : (a : A) (r : Reader) → P a r → Ends P n (parsed a, r)
  ends_rejected : (r : Reader) → size r ≤ n → Ends P n (rejected, r)

pub and_parse-Ends :
    {A B : Type 0} {P : A → Reader → Type 0} {Q : B → Reader → Type 0} {n : ℕ}
    {out : Parsed A × Reader} {f : A → Parser B}
    → Ends P n out
    → ((a : A) (r : Reader) → P a r → Ends Q n (f a r))
    → Ends Q n (and_parse out f)
and_parse-Ends (ends_parsed a r h) k = k a r h
and_parse-Ends (ends_rejected r h) k = ends_rejected r h

pub Ends-mono :
    {A : Type 0} {P Q : A → Reader → Type 0} {n m : ℕ} {out : Parsed A × Reader}
    → n ≤ m
    → ((a : A) (r : Reader) → P a r → Q a r)
    → Ends P n out
    → Ends Q m out
Ends-mono le k (ends_parsed a r h) = ends_parsed a r (k a r h)
Ends-mono le k (ends_rejected r h) = ends_rejected r (omega arith)

pub if-Ends :
    {A : Type 0} {Q : A → Reader → Type 0} {n : ℕ} (b : Bool) (x y : Parsed A × Reader)
    → (b ≡ true → Ends Q n x)
    → (b ≡ false → Ends Q n y)
    → Ends Q n (if b then x else y)
if-Ends true x y h k = h refl
if-Ends false x y h k = k refl

-- next never refuses.
pub next-Ends : (n m : ℕ) (r : Reader) → size r ≤ n → Ends (Took n) m (next r)
unfolding next size
next-Ends n m r le =
    let within = lex-Within r.fp r.st r.text in ends_parsed _ _ (within.0, omega (arith, within.1))

pub push_back-Left : (n : ℕ) (it : LexItem) (r : Reader) → Took n it r → size (push_back it r) ≤ n
unfolding push_back size unlex
push_back-Left n it r (e, le) = omega (arith, item_size-taken it)

pub Took-Left : (n : ℕ) (it : LexItem) (r : Reader) → Took n it r → size r + taken it ≤ n
unfolding size item_size
Took-Left n it r (e, le) = omega (arith, ap item_size e)

pub taken_if :
    (test : LexItem → Bool) (it : LexItem) → test lex_eof ≡ false → test it ≡ true → taken it ≡ 1
taken_if test it f t = elim (is_end it) [ inl e ↦ absurd (cc (ap test e)) | inr e ↦ e ]

skip_line-le : (text : List ℕ) → length (skip_line text) ≤ length text
unfolding skip_line
skip_line-le [] = omega arith
skip_line-le (ch ∷ text) = elim (Bool-cases (ch == 10 || ch == 255)) [
  | inl e ↦ rw e (omega arith)
  | inr e ↦ rw e (omega (arith, skip_line-le text))
]

pub syntax_error-Left : (n : ℕ) (r : Reader) → size r ≤ n → size (syntax_error r) ≤ n
unfolding syntax_error size
syntax_error-Left n r le = omega (arith, skip_line-le r.text)

pub reject-Ends :
    {A : Type 0} {P : A → Reader → Type 0} (n : ℕ) (r : Reader) → size r ≤ n → Ends P n (reject r)
unfolding reject
reject-Ends n r le = ends_rejected _ (syntax_error-Left n r le)

-- Nor does the loop over the ends of lines.
pub skip_rec_seps-Ends :
    (fuel n m : ℕ) (r : Reader)
    → size r < fuel
    → size r ≤ n
    → Ends (Took n) m (skip_rec_seps fuel r)
unfolding skip_rec_seps is_rec_sep skip_again
skip_rec_seps-Ends zero n m r lt le = absurd (omega arith)
skip_rec_seps-Ends (suc fuel) n m r lt le =
    and_parse-Ends {f = skip_again (skip_rec_seps fuel)} (next-Ends (size r) m r (omega arith))
      (λ it r1 h.
        let left = Took-Left (size r) it r1 h in
        if-Ends (is_rec_sep it) _ _
          (λ e.
            skip_rec_seps-Ends fuel n m r1 (omega (arith, taken_if is_rec_sep it refl e))
              (omega arith))
          (λ e. ends_parsed it r1 (h.0, omega (arith, h.1))))

if_accepted-Ends :
    {Q : List CStr → Reader → Type 0} (accepts : LexItem → Bool) (rest : Parser (List CStr)) (n : ℕ)
    (it : LexItem) (r : Reader)
    → size r ≤ n
    → Ends Q n (rest r)
    → Ends Q n (if_accepted accepts rest it r)
unfolding if_accepted
if_accepted-Ends accepts rest n it r le h =
    if-Ends (accepts it) _ _ (λ e. h) (λ e. reject-Ends n r le)

list_loop-Ends :
    (accepts : LexItem → Bool) (fuel n : ℕ) (names : List CStr) (r : Reader)
    → size r < fuel
    → size r ≤ n
    → Ends (Left n) n (list_loop accepts fuel names r)
unfolding list_loop list_step is_item_sep
list_loop-Ends accepts zero n names r lt le = absurd (omega arith)
list_loop-Ends accepts (suc fuel) n names r lt le =
    let names' = lexed r ∷ names in
    let more = list_loop accepts fuel names' in
    and_parse-Ends {f = list_step accepts names' more} (next-Ends (size r) n r (omega arith))
      (λ it r1 h.
        let left = Took-Left (size r) it r1 h in
        if-Ends (is_item_sep it) _ _
          (λ e.
            let took = taken_if is_item_sep it refl e in
            and_parse-Ends {f = if_accepted accepts more}
              (skip_rec_seps-Ends (suc (size r1)) (size r1) n r1 (omega arith) (omega arith))
              (λ it2 r2 h2.
                let left2 = Took-Left (size r1) it2 r2 h2 in
                if_accepted-Ends accepts more n it2 r2 (omega arith)
                  (list_loop-Ends accepts fuel n names' r2 (omega arith) (omega arith))))
          (λ e.
            if-Ends (is_close_paren it) _ _ (λ e'. ends_parsed names' r1 (omega arith))
              (λ e'. reject-Ends n r1 (omega arith))))

pub parse_part-Ends :
    (accepts : LexItem → Bool) (n : ℕ) (r : Reader)
    → size r ≤ n
    → Ends (Left n) n (parse_part accepts r)
unfolding parse_part part_from parse_list
parse_part-Ends accepts n r le =
    and_parse-Ends {f = part_from accepts} (next-Ends n n r le) (λ it r1 h.
      let left = Took-Left n it r1 h in
      if-Ends (accepts it) _ _ (λ e. ends_parsed (lexed r1 ∷ []) r1 (omega arith))
        (λ e.
          if-Ends (is_open_paren it) _ _
            (λ e'.
              and_parse-Ends {f = if_accepted accepts (parse_list accepts)}
                (next-Ends n n r1 (omega arith))
                (λ it2 r2 h2.
                  let left2 = Took-Left n it2 r2 h2 in
                  if_accepted-Ends accepts (parse_list accepts) n it2 r2 (omega arith)
                    (list_loop-Ends accepts (suc (size r2)) n [] r2 (omega arith) (omega arith))))
            (λ e'. reject-Ends n r1 (omega arith))))
