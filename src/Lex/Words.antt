-- ===== src/Lex/Words.antt =====
-- The strings that the lexer of HTLex.c reads.
use cern_httpd.Base.{
  ℕ, ◌≡◌, refl, sym, ap, ◌∙◌, Bool, true, false, ◌||◌, List, [], ◌∷◌, ◌++◌, append_assoc,
  append-nil, All, ◌==◌,
}
use cern_httpd.Lex.{
  lex_none, LexState, select_file, is_delimiter, string_item, store, separator, at_delimiter,
  at_separator, lex_loop, take_pushed, lex,
}

abbrev pub InString : ℕ → Type 0
InString c = is_delimiter c ≡ false

abbrev pub has_star : Bool → List ℕ → Bool
has_star found [] = found
has_star found (c ∷ w) = has_star (found || c == b'*') w

-- The state behind the characters of a string.
abbrev pub stores : List ℕ → List ℕ → LexState → LexState
stores word [] st = st
stores word (c ∷ w) st = stores (word ++ c ∷ []) w (store word c st)

lex_loop-word :
    (w word : List ℕ) (found : Bool) (st : LexState) (text : List ℕ)
    → All InString w
    → lex_loop word found st (w ++ text)
      ≡ lex_loop (word ++ w) (has_star found w) (stores word w st) text
unfolding lex_loop
lex_loop-word [] word found st text h = ap (λ t. lex_loop t found st text) (sym (append-nil word))
lex_loop-word (c ∷ w) word found st text h = rw h.0 (
    lex_loop-word w (word ++ c ∷ []) (found || c == b'*') (store word c st) text h.1
    ∙ ap (λ t. lex_loop t (has_star found (c ∷ w)) (stores word (c ∷ w) st) text)
        (append_assoc word (c ∷ []) w))

lex_loop-end :
    (c d : ℕ) (w : List ℕ) (found : Bool) (st : LexState) (text : List ℕ)
    → is_delimiter d ≡ true
    → lex_loop (c ∷ w) found st (d ∷ text) ≡ (string_item found, st, d ∷ text)
unfolding lex_loop at_delimiter
lex_loop-end c d w found st text h = rw h refl

lex_loop-end_snoc :
    (w : List ℕ) (c d : ℕ) (found : Bool) (st : LexState) (text : List ℕ)
    → is_delimiter d ≡ true
    → lex_loop (w ++ c ∷ []) found st (d ∷ text) ≡ (string_item found, st, d ∷ text)
lex_loop-end_snoc [] c d found st text h = lex_loop-end c d [] found st text h
lex_loop-end_snoc (x ∷ w) c d found st text h = lex_loop-end x d (w ++ c ∷ []) found st text h

-- White space before an item.
abbrev pub IsSpace : ℕ → Type 0
IsSpace c = (is_delimiter c ≡ true) × (separator c ≡ lex_none)

lex_loop-space :
    (ws : List ℕ) (found : Bool) (st : LexState) (text : List ℕ)
    → All IsSpace ws
    → lex_loop [] found st (ws ++ text) ≡ lex_loop [] found st text
unfolding lex_loop at_delimiter at_separator
lex_loop-space [] found st text h = refl
lex_loop-space (c ∷ ws) found st text h = rw (h.0.0, h.0.1) (lex_loop-space ws found st text h.1)

stores-buffer :
    (w word : List ℕ) (c : ℕ) (st : LexState)
    → (stores word (w ++ c ∷ []) st).lex_buffer ≡ word ++ (w ++ c ∷ [])
unfolding store
stores-buffer [] word c st = refl
stores-buffer (d ∷ w) word c st =
    stores-buffer w (word ++ d ∷ []) c (store word d st) ∙ append_assoc word (d ∷ []) (w ++ c ∷ [])

-- In a file with no item pushed back, white space is skipped, and the characters up to the next
-- delimiter are a string, which is left in lex_buffer: a template if a star is among them. The
-- delimiter is left to read.
lex-string :
    (fp d : ℕ) (ws w text : List ℕ) (c : ℕ) (st : LexState)
    → All IsSpace ws
    → All InString (w ++ c ∷ [])
    → is_delimiter d ≡ true
    → (select_file fp st.cache st).pushed_back ≡ lex_none
    → (st' : LexState) × (lex fp st (ws ++ ((w ++ c ∷ []) ++ d ∷ text))
        ≡ (string_item (has_star false (w ++ c ∷ [])), st', d ∷ text))
      × (st'.lex_buffer ≡ w ++ c ∷ [])
unfolding lex take_pushed
lex-string fp d ws w text c st hws hw hd none_pushed =
    let opened = select_file fp st.cache st in
    (
      stores [] (w ++ c ∷ []) opened,
      rw none_pushed (
          lex_loop-space ws false opened ((w ++ c ∷ []) ++ d ∷ text) hws
          ∙ lex_loop-word (w ++ c ∷ []) [] false opened (d ∷ text) hw
          ∙ lex_loop-end_snoc w c d _ (stores [] (w ++ c ∷ []) opened) text hd),
      stores-buffer w [] c opened,
    )
