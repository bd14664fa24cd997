-- ===== src/Image/Words.antt =====
-- The lexer of HTImage.c on words, blanks and bracket_item.
use cern_httpd.Base.{
  ℕ, zero, suc, ◌≡◌, ◌≢◌, refl, ap, ◌∙◌, true, false, none, some, List, [], ◌∷◌, ◌++◌, All,
  append_assoc, append-nil, length, ◌<◌, arith, ◌≤◌, ltb,
}
use cern_httpd.Base.Int.{ℤ}
use cern_httpd.Str.{CStr}
use cern_httpd.Parse.Escape.{c_str}
use cern_httpd.Image.{
  PictReader, PictItem, lex_str, lex_int, lex_open_paren, lex_close_paren, lex_comma, is_space,
  ends_word, is_numeral, atoi, word_item, lex_from, image_lex, done, parse_coord, coord_from,
  text_item, max_str_len,
}

-- A character of a word.
abbrev pub IsWordChar : ℕ → Type 0
IsWordChar c = (c ≢ 0) × (ends_word c ≡ false)

abbrev pub IsWord : CStr → Type 0
IsWord s = (0 < length s) × All IsWordChar s

-- A word that fits in lex_str and that isNumber takes for a number.
abbrev pub IsNumeral : CStr → Type 0
IsNumeral s = IsWord s × (length s ≤ max_str_len) × (is_numeral s ≡ true)

-- A word that fits in lex_str and that is no number.
abbrev pub IsName : CStr → Type 0
IsName s = IsWord s × (length s ≤ max_str_len) × (is_numeral s ≡ false)

-- The reader at a text, with nothing pushed back.
abbrev pub from_text : List ℕ → PictReader
from_text text = record { pushed_back = none; text = text }

c_str-word : (w : CStr) → All IsWordChar w → c_str w ≡ w
unfolding c_str
c_str-word [] h = refl
c_str-word (zero ∷ w) h = absurd (h.0.0 refl)
c_str-word (suc c ∷ w) h = ap (λ t. suc c ∷ t) (c_str-word w h.1)

lex_from-word :
    (d : ℕ) (word w : CStr) (ch : ℕ) (rest : List ℕ)
    → All IsWordChar w
    → ends_word ch ≡ true
    → lex_from (d ∷ word) (w ++ (ch ∷ rest)) ≡ (word_item (d ∷ (word ++ w)), ch ∷ rest)
unfolding lex_from
lex_from-word d word [] ch rest h e = rw (e, append-nil word) refl
lex_from-word d word (c ∷ w) ch rest h e = rw (h.0.1) (
    lex_from-word d (word ++ c ∷ []) w ch rest h.1 e
    ∙ ap (λ (t : List ℕ). (word_item (d ∷ t), ch ∷ rest)) (append_assoc word (c ∷ []) w))

lex_from-start :
    (w : CStr) (ch : ℕ) (rest : List ℕ)
    → IsWord w
    → ends_word ch ≡ true
    → lex_from [] (w ++ (ch ∷ rest)) ≡ (word_item w, ch ∷ rest)
unfolding lex_from
lex_from-start [] ch rest h e = absurd (omega arith)
lex_from-start (c ∷ w) ch rest h e = rw (h.1.0.1) (lex_from-word c [] w ch rest h.1.1 e)

-- A word up to the character that ends it.
pub image_lex-word :
    (w : CStr) (ch : ℕ) (rest : List ℕ)
    → IsWord w
    → ends_word ch ≡ true
    → image_lex (from_text (w ++ (ch ∷ rest))) ≡ (word_item w, from_text (ch ∷ rest))
unfolding image_lex
image_lex-word w ch rest h e =
    ap (λ (t : PictItem × List ℕ). (t.0, from_text t.1)) (lex_from-start w ch rest h e)

word_item-text : (s : CStr) → IsWord s → length s ≤ max_str_len → word_item s ≡ text_item s
unfolding word_item
word_item-text s h le =
    let fits : ltb max_str_len (length s) ≡ false = ground arith in
    rw fits (ap text_item (c_str-word s h.1))

text_item-numeral : (s : CStr) → is_numeral s ≡ true → text_item s ≡ lex_int (atoi s)
unfolding text_item
text_item-numeral s h = rw h refl

text_item-name : (s : CStr) → is_numeral s ≡ false → text_item s ≡ lex_str s
unfolding text_item
text_item-name s h = rw h refl

pub image_lex-numeral :
    (w : CStr) (ch : ℕ) (rest : List ℕ)
    → IsNumeral w
    → ends_word ch ≡ true
    → image_lex (from_text (w ++ (ch ∷ rest))) ≡ (lex_int (atoi w), from_text (ch ∷ rest))
image_lex-numeral w ch rest h e =
    image_lex-word w ch rest h.0 e
    ∙ ap (λ (t : PictItem). (t, from_text (ch ∷ rest)))
        (word_item-text w h.0 h.1 ∙ text_item-numeral w h.2)

pub image_lex-name :
    (w : CStr) (ch : ℕ) (rest : List ℕ)
    → IsName w
    → ends_word ch ≡ true
    → image_lex (from_text (w ++ (ch ∷ rest))) ≡ (lex_str w, from_text (ch ∷ rest))
image_lex-name w ch rest h e =
    image_lex-word w ch rest h.0 e
    ∙ ap (λ (t : PictItem). (t, from_text (ch ∷ rest)))
        (word_item-text w h.0 h.1 ∙ text_item-name w h.2)

-- Blanks and the ends of lines are skipped.
pub image_lex-space :
    (ch : ℕ) (text : List ℕ)
    → is_space ch ≡ true
    → image_lex (from_text (ch ∷ text)) ≡ image_lex (from_text text)
unfolding image_lex lex_from
image_lex-space ch text e = let ends : ends_word ch ≡ true = space_ends ch e in rw (ends, e) refl
  where
    space_ends : (ch : ℕ) → is_space ch ≡ true → ends_word ch ≡ true
    space_ends ch e = unfold ends_word in rw e refl

image_lex-open : (t : List ℕ) → image_lex (from_text (b'(' ∷ t)) ≡ (lex_open_paren, from_text t)
unfolding image_lex
image_lex-open t = refl

image_lex-comma : (t : List ℕ) → image_lex (from_text (b',' ∷ t)) ≡ (lex_comma, from_text t)
unfolding image_lex
image_lex-comma t = refl

image_lex-close : (t : List ℕ) → image_lex (from_text (b')' ∷ t)) ≡ (lex_close_paren, from_text t)
unfolding image_lex
image_lex-close t = refl

-- A pair of numbers.
abbrev pub pair_text : CStr → CStr → List ℕ → List ℕ
pair_text a b rest = b'(' ∷ (a ++ (b',' ∷ (b ++ (b')' ∷ rest))))

coord_steps :
    (r0 r1 r2 r3 r4 r5 : PictReader) (x y : ℤ)
    → image_lex r0 ≡ (lex_open_paren, r1)
    → image_lex r1 ≡ (lex_int x, r2)
    → image_lex r2 ≡ (lex_comma, r3)
    → image_lex r3 ≡ (lex_int y, r4)
    → image_lex r4 ≡ (lex_close_paren, r5)
    → parse_coord r0 ≡ done (some (record { x = x; y = y })) r5
unfolding parse_coord coord_from
coord_steps r0 r1 r2 r3 r4 r5 x y e0 e1 e2 e3 e4 = rw (e0, e1, e2, e3, e4) refl

pub parse_coord-pair_text :
    (a b : CStr) (rest : List ℕ)
    → IsNumeral a
    → IsNumeral b
    → parse_coord (from_text (b' ' ∷ pair_text a b rest))
      ≡ done (some (record { x = atoi a; y = atoi b })) (from_text rest)
unfolding ends_word is_space
parse_coord-pair_text a b rest ha hb =
    coord_steps _ _ _ _ _ _ (atoi a) (atoi b)
      (image_lex-space b' ' _ refl ∙ image_lex-open (a ++ (b',' ∷ (b ++ (b')' ∷ rest)))))
      (image_lex-numeral a b',' _ ha refl) (image_lex-comma (b ++ (b')' ∷ rest)))
      (image_lex-numeral b b')' _ hb refl) (image_lex-close rest)
