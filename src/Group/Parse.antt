-- ===== src/Group/Parse.antt =====
-- The parser of HTGroup.c, on the lexer of HTLex.c.
-- The loops run on fuel: one more than the bytes and the item that are left to read.
pub mod File
pub mod Groups
pub mod Fuel
pub mod Total
pub mod Cached
use cern_httpd.Base.{
  ℕ, zero, suc, ◌+◌, Bool, true, false, ◌||◌, Option, none, some, List, [], ◌∷◌, ◌==◌,
  if◌then◌else◌, length,
}
use cern_httpd.Str.{CStr}
use cern_httpd.Parse.Escape.{c_str}
use cern_httpd.Lex.Progress.{item_size}
use cern_httpd.Lex.{
  LexItem, lex_none, lex_eof, lex_rec_sep, lex_field_sep, lex_item_sep, lex_open_paren,
  lex_close_paren, lex_at_sign, lex_alph_str, lex_tmpl_str, lex_close_brace, LexState, lex, unlex,
}
use cern_httpd.Group.{
  GroupDef, Items, Users, Refs, group, no_items, item, any_user, users, no_refs, user,
}

-- The file that is read, with the state of the lexer.
pub record Reader : Type 0 where
  pub fp : ℕ
  pub st : LexState
  pub text : List ℕ

-- What a function of the parser returns: a value, NULL, or nothing because the fuel ran out.
pub data Parsed {ℓ} (A : Type ℓ) : Type ℓ where
  parsed : A → Parsed A
  rejected : Parsed A
  starved : Parsed A

abbrev pub Parser {ℓ} : Type ℓ → Type ℓ
Parser A = Reader → Parsed A × Reader

abbrev pub and_parse {ℓ κ} :
    {A : Type ℓ} {B : Type κ} → Parsed A × Reader → (A → Parser B) → Parsed B × Reader
and_parse (parsed a, r) f = f a r
and_parse (rejected, r) f = (rejected, r)
and_parse (starved, r) f = (starved, r)

abbrev pub pure {ℓ} : {A : Type ℓ} → A → Parser A
pure a r = (parsed a, r)

-- lex(fp)
unfoldable pub next : Parser LexItem
unfolding lex
next r =
    let (lex_item, st, text) = lex r.fp r.st r.text in
    (parsed lex_item, record r { st = st; text = text })

unfoldable pub push_back : LexItem → Reader → Reader
unfolding unlex
push_back lex_item r = record r { st = unlex lex_item r.st }

-- The loop of syntax_error. A byte 255 is EOF once it is a `char`.
unfoldable pub skip_line : List ℕ → List ℕ
skip_line [] = []
skip_line (ch ∷ text) = let rest = skip_line text in if ch == 10 || ch == 255 then text else rest

-- syntax_error, and `return NULL`.
unfoldable pub syntax_error : Reader → Reader
unfolding skip_line
syntax_error r = record r {
  st = record r.st { lex_line = r.st.lex_line + 1 };
  text = skip_line r.text;
}

unfoldable pub reject {ℓ} : {A : Type ℓ} → Parser A
unfolding syntax_error
reject r = (rejected, syntax_error r)

unfoldable pub starve {ℓ} : {A : Type ℓ} → Parser A
starve r = (starved, r)

-- The bytes and the item that are left to read.
unfoldable pub size : Reader → ℕ
unfolding item_size
size r = length r.text + item_size r.st.pushed_back

unfoldable pub is_rec_sep : LexItem → Bool
is_rec_sep lex_rec_sep = true
is_rec_sep _ = false

unfoldable pub skip_again : Parser LexItem → LexItem → Parser LexItem
unfolding is_rec_sep
skip_again again lex_item r = if is_rec_sep lex_item then again r else pure lex_item r

-- `do lex_item = lex(fp); while (lex_item == LEX_REC_SEP);`
unfoldable pub skip_rec_seps : ℕ → Parser LexItem
unfolding next skip_again starve
skip_rec_seps zero r = starve r
skip_rec_seps (suc fuel) r = and_parse (next r) (skip_again (skip_rec_seps fuel))

-- The strings that name a user, and those that name an address.
unfoldable pub is_alph : LexItem → Bool
is_alph lex_alph_str = true
is_alph _ = false

unfoldable pub is_templ : LexItem → Bool
is_templ lex_alph_str = true
is_templ lex_tmpl_str = true
is_templ _ = false

unfoldable pub is_open_paren : LexItem → Bool
is_open_paren lex_open_paren = true
is_open_paren _ = false

unfoldable pub is_close_paren : LexItem → Bool
is_close_paren lex_close_paren = true
is_close_paren _ = false

unfoldable pub is_item_sep : LexItem → Bool
is_item_sep lex_item_sep = true
is_item_sep _ = false

unfoldable pub is_at_sign : LexItem → Bool
is_at_sign lex_at_sign = true
is_at_sign _ = false

-- A copy of lex_buffer, as a C string.
unfoldable pub lexed : Reader → CStr
unfolding c_str
lexed r = c_str r.st.lex_buffer

-- The rest of the loop, if a name stands here.
unfoldable pub if_accepted : (LexItem → Bool) → Parser (List CStr) → LexItem → Parser (List CStr)
unfolding reject
if_accepted accepts rest lex_item r = if accepts lex_item then rest r else reject r

-- Behind a name of a list in parentheses.
unfoldable pub list_step :
    (LexItem → Bool) → List CStr → Parser (List CStr) → LexItem → Parser (List CStr)
unfolding skip_rec_seps size reject if_accepted is_item_sep is_close_paren
list_step accepts names more lex_item r =
    if is_item_sep lex_item
    then and_parse (skip_rec_seps (suc (size r)) r) (if_accepted accepts more)
    else if is_close_paren lex_item
    then pure names r
    else reject r

-- The loop of parse_address_part and of parse_user_part behind an opening parenthesis: lex_buffer
-- holds a name, and `names` are those before it, the last one first.
unfoldable pub list_loop : (LexItem → Bool) → ℕ → List CStr → Parser (List CStr)
unfolding next lexed list_step starve
list_loop accepts zero names r = starve r
list_loop accepts (suc fuel) names r =
    and_parse (next r)
      (list_step accepts (lexed r ∷ names) (list_loop accepts fuel (lexed r ∷ names)))

unfoldable pub parse_list : (LexItem → Bool) → Parser (List CStr)
unfolding list_loop size
parse_list accepts r = list_loop accepts (suc (size r)) [] r

unfoldable pub part_from : (LexItem → Bool) → LexItem → Parser (List CStr)
unfolding next lexed parse_list if_accepted reject is_open_paren
part_from accepts lex_item r =
    if accepts lex_item
    then pure (lexed r ∷ []) r
    else if is_open_paren lex_item
    then and_parse (next r) (if_accepted accepts (parse_list accepts))
    else reject r

-- parse_address_part and parse_user_part, which differ in the strings that they accept.
unfoldable pub parse_part : (LexItem → Bool) → Parser (List CStr)
unfolding next part_from
parse_part accepts r = and_parse (next r) (part_from accepts)

unfoldable pub parse_address_part : Parser (List CStr)
unfolding parse_part is_templ
parse_address_part = parse_part is_templ

unfoldable pub parse_user_part : Parser (List CStr)
unfolding parse_part is_alph
parse_user_part = parse_part is_alph
