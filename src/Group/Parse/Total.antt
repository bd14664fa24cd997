-- ===== src/Group/Parse/Total.antt =====
-- The parser of HTGroup.c comes to an end on every file.
use cern_httpd.Base.{
  ℕ, zero, suc, ◌≤◌, ◌<◌, ◌≡◌, refl, arith, Option, none, some, List, [], ◌∷◌, ◌||◌, is_some,
  Bool-cases, inl, inr,
}
use cern_httpd.Str.{CStr}
use cern_httpd.Lex.{LexItem}
use cern_httpd.Group.{GroupDef}
use cern_httpd.Group.Parse.{
  Reader, Parsed, parsed, and_parse, next, push_back, syntax_error, size, is_rec_sep, is_item_sep,
  is_open_paren, is_alph, is_templ, is_at_sign, lexed, parse_user_part, parse_address_part,
}
use cern_httpd.Group.Parse.File.{
  part_or_null, Item, make_item, addresses_from, parse_at, behind_users, item_from, parse_item,
  push_then, item_step, item_loop, parse_item_list, end_of_def, parse_group_def, name_def, def_from,
  decl_from, parse_group_decl, is_eof, is_field_sep,
}
use cern_httpd.Group.Parse.Groups.{file_step, file_loop, add_group_def, parse_group_file}
use cern_httpd.Group.Parse.Fuel.{
  Took, Left, Ends, ends_parsed, ends_rejected, and_parse-Ends, if-Ends, Ends-mono, next-Ends,
  push_back-Left, Took-Left, taken_if, reject-Ends, syntax_error-Left, skip_rec_seps-Ends,
  parse_part-Ends,
}

part_or_null-Ends :
    (n : ℕ) (out : Parsed (List CStr) × Reader)
    → Ends (Left n) n out
    → Ends (Left n) n (part_or_null out)
unfolding part_or_null
part_or_null-Ends n _ (ends_parsed names r h) = ends_parsed (some names) r h
part_or_null-Ends n _ (ends_rejected r h) = ends_parsed none r h

make_item-Ends :
    (n : ℕ) (us ads : Option (List CStr)) (r : Reader)
    → size r ≤ n
    → Ends (Left n) n (make_item us ads r)
unfolding make_item
make_item-Ends n us ads r le = elim (Bool-cases (is_some us || is_some ads)) [
  | inl e ↦ rw e (ends_parsed (us, ads) r le)
  | inr e ↦ rw e (reject-Ends n r le)
]

parse_at-Ends :
    (n : ℕ) (us : Option (List CStr)) (it : LexItem) (r : Reader)
    → Took n it r
    → Ends (Left n) n (parse_at us it r)
unfolding parse_at addresses_from parse_address_part
parse_at-Ends n us it r h =
    let left = Took-Left n it r h in
    if-Ends (is_at_sign it) _ _
      (λ e. and_parse-Ends {f = addresses_from us} (next-Ends n n r (omega arith)) (λ it2 r2 h2.
        let left2 = Took-Left n it2 r2 h2 in
        if-Ends (is_templ it2 || is_open_paren it2) _ _
          (λ e'.
            and_parse-Ends {f = make_item us}
              (part_or_null-Ends n _
                (parse_part-Ends is_templ n (push_back it2 r2) (push_back-Left n it2 r2 h2)))
              (λ ads r3 h3. make_item-Ends n us ads r3 h3))
          (λ e'. reject-Ends n r2 (omega arith))))
      (λ e. make_item-Ends n us none (push_back it r) (push_back-Left n it r h))

parse_item-Ends : (n : ℕ) (r : Reader) → size r ≤ n → Ends (Left n) n (parse_item r)
unfolding parse_item item_from behind_users parse_user_part
parse_item-Ends n r le = and_parse-Ends {f = item_from} (next-Ends n n r le) (λ it r1 h.
    if-Ends (is_alph it || is_open_paren it) _ _
      (λ e.
        and_parse-Ends {f = behind_users}
          (part_or_null-Ends n _
            (parse_part-Ends is_alph n (push_back it r1) (push_back-Left n it r1 h)))
          (λ us r2 h2.
            and_parse-Ends {f = parse_at us} (next-Ends n n r2 h2)
              (λ it3 r3 h3. parse_at-Ends n us it3 r3 h3)))
      (λ e. parse_at-Ends n none it r1 h))

item_loop-Ends :
    (fuel n : ℕ) (items : List Item) (r : Reader)
    → size r < fuel
    → size r ≤ n
    → Ends (Left n) n (item_loop fuel items r)
unfolding item_loop item_step push_then is_item_sep
item_loop-Ends zero n items r lt le = absurd (omega arith)
item_loop-Ends (suc fuel) n items r lt le =
    and_parse-Ends
      {f = λ one r1. and_parse (next r1) (item_step (one ∷ items) (item_loop fuel (one ∷ items)))}
      (Ends-mono le (λ one r1 h. h) (parse_item-Ends (size r) r (omega arith)))
      (λ one r1 h1.
        let items' = one ∷ items in
        let more = item_loop fuel items' in
        and_parse-Ends {f = item_step items' more} (next-Ends (size r) n r1 h1) (λ it r2 h2.
          let left = Took-Left (size r) it r2 h2 in
          if-Ends (is_item_sep it) _ _
            (λ e.
              let took = taken_if is_item_sep it refl e in
              and_parse-Ends {f = push_then more}
                (skip_rec_seps-Ends (suc (size r2)) (size r2) n r2 (omega arith) (omega arith))
                (λ it3 r3 h3.
                  let left3 = push_back-Left (size r2) it3 r3 h3 in
                  item_loop-Ends fuel n items' (push_back it3 r3) (omega arith) (omega arith)))
            (λ e.
              let left2 = push_back-Left (size r) it r2 h2 in
              ends_parsed items' (push_back it r2) (omega arith))))

pub group_def-Ends : (n : ℕ) (r : Reader) → size r ≤ n → Ends (Left n) n (parse_group_def r)
unfolding parse_group_def parse_item_list end_of_def
group_def-Ends n r le =
    and_parse-Ends {f = λ items r1. and_parse (next r1) (end_of_def items)}
      (item_loop-Ends (suc (size r)) n [] r (omega arith) le)
      (λ items r1 h1. and_parse-Ends {f = end_of_def items} (next-Ends n n r1 h1) (λ it r2 h2.
        let left = Took-Left n it r2 h2 in
        elim (Bool-cases (is_rec_sep it)) [
          | inl e ↦ rw e (ends_parsed _ r2 (omega arith))
          | inr e ↦ rw e (ends_parsed _ (syntax_error r2) (syntax_error-Left n r2 (omega arith)))
        ]))

abbrev Less : ℕ → GroupDef → Reader → Type 0
Less n def r = size r < n

-- A declaration takes its name from the file at least.
group_decl-Ends : (n : ℕ) (r : Reader) → size r ≤ n → Ends (Less n) n (parse_group_decl r)
unfolding parse_group_decl decl_from def_from name_def is_alph is_eof
group_decl-Ends n r le =
    and_parse-Ends {f = decl_from} (skip_rec_seps-Ends (suc (size r)) n n r (omega arith) le)
      (λ it r1 h1.
        let left = Took-Left n it r1 h1 in
        if-Ends (is_alph it) _ _
          (λ e.
            let took = taken_if is_alph it refl e in
            and_parse-Ends {f = def_from (lexed r1)} (next-Ends (size r1) n r1 (omega arith))
              (λ it2 r2 h2.
                let left2 = Took-Left (size r1) it2 r2 h2 in
                if-Ends (is_field_sep it2) _ _
                  (λ e2.
                    and_parse-Ends {f = name_def (lexed r1)}
                      (Ends-mono (omega arith) (λ def r3 h3. h3)
                        (group_def-Ends (size r1) r2 (omega arith)))
                      (λ def r3 h3. ends_parsed _ r3 (omega arith)))
                  (λ e2. reject-Ends n r2 (omega arith))))
          (λ e.
            if-Ends (is_eof it) _ _ (λ e2. ends_rejected r1 (omega arith))
              (λ e2. reject-Ends n r1 (omega arith))))

abbrev Returns : Parsed (List GroupDef) → Type 0
Returns out = (group_list : List GroupDef) × (out ≡ parsed group_list)

file_step-Returns :
    (n : ℕ) (more : GroupDef → Reader → Parsed (List GroupDef)) (group_list : List GroupDef)
    (out : Parsed GroupDef × Reader)
    → Ends (Less n) n out
    → ((def : GroupDef) (r : Reader) → size r < n → Returns (more def r))
    → Returns (file_step more group_list out)
unfolding file_step
file_step-Returns n more group_list _ (ends_parsed def r h) k = k def r h
file_step-Returns n more group_list _ (ends_rejected r h) k = (group_list, refl)

file_loop-Returns :
    (fuel : ℕ) (group_list : List GroupDef) (r : Reader)
    → size r < fuel
    → Returns (file_loop fuel group_list r)
unfolding file_loop
file_loop-Returns zero group_list r lt = absurd (omega arith)
file_loop-Returns (suc fuel) group_list r lt =
    file_step-Returns (size r) (λ def. file_loop fuel (add_group_def group_list def)) group_list
      (parse_group_decl r) (group_decl-Ends (size r) r (omega arith))
      (λ def r1 h. file_loop-Returns fuel (add_group_def group_list def) r1 (omega arith))

-- parse_group_file returns a list of groups for every file and in every state of the lexer: none of
-- its loops, nor those of the functions that it calls, reads on for ever.
pub parse_group_file-total :
    (r : Reader) → (group_list : List GroupDef) × (parse_group_file r ≡ parsed group_list)
unfolding parse_group_file
parse_group_file-total r = file_loop-Returns (suc (size r)) [] r (omega arith)
