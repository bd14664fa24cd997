-- ===== src/Ims/InPlace.antt =====
-- What the search for a date by HTims.c leaves in the buffer.
use cern_httpd.Base.{
  ℕ, zero, suc, ◌≡◌, refl, sym, ap, ◌∙◌, Bool, true, false, some, List, [], ◌∷◌, ◌++◌, map, length,
  drop, ◌-◌, ◌&&◌, ◌==◌, codes, arith, ◌≤◌, if◌then◌else◌, some-ne-none, Bool-cases, inl, inr,
}
use cern_httpd.Base.Int.{ℤ}
use cern_httpd.Str.{CStr, strchr, to_lower}
use cern_httpd.Str.Letters.{SameText, SameText-append, length-SameText, SameText-drop}
use cern_httpd.Parse.Escape.{c_str}
use cern_httpd.Ims.{
  Ims, turned_onto, date_behind, is_header, not_modified, has_old_date, has_old_date_from,
  with_string,
}

-- A parser of dates that changes at most the case of letters in the string.
abbrev pub KeepsText : (CStr → ℤ × CStr) → Type 0
KeepsText parse = (s : CStr) → SameText (parse s).1 s

turned_onto-SameText :
    (back s t : CStr) → SameText s t → SameText (turned_onto back s) (turned_onto back t)
unfolding turned_onto
turned_onto-SameText [] s t h = h
turned_onto-SameText (c ∷ back) s t h =
    turned_onto-SameText back (c ∷ s) (c ∷ t) (ap (λ r. to_lower c ∷ r) h)

date_behind-SameText :
    (parse : CStr → ℤ × CStr)
    → KeepsText parse
    → (hit : Bool) (p : CStr) → SameText (date_behind parse hit p).1 p
unfolding date_behind
date_behind-SameText parse keeps true p = keeps p
date_behind-SameText parse keeps false p = refl

if-SameText :
    (test : Bool) (x y : Bool × CStr) (s : CStr)
    → SameText x.1 s
    → SameText y.1 s
    → SameText (if test then x else y).1 s
if-SameText true x y s h k = h
if-SameText false x y s h k = k

has_old_date-SameText :
    (parse : CStr → ℤ × CStr)
    → KeepsText parse
    → (limit : ℤ) (n : ℕ) (back p : CStr)
    → SameText (has_old_date parse limit n back p).1 (turned_onto back p)
unfolding has_old_date turned_onto
has_old_date-SameText parse keeps limit zero back p = refl
has_old_date-SameText parse keeps limit (suc n) back [] = refl
has_old_date-SameText parse keeps limit (suc n) back (c ∷ p) =
    let hit = c == b':' && is_header (codes "deifidom-tsal") back in
    let date = date_behind parse hit p in
    let same : SameText (turned_onto (c ∷ back) date.1) (turned_onto (c ∷ back) p) =
      turned_onto-SameText (c ∷ back) date.1 p (date_behind-SameText parse keeps hit p) in
    if-SameText (not_modified limit date.0) (true, turned_onto (c ∷ back) date.1)
      (has_old_date parse limit n (c ∷ back) date.1) (turned_onto (c ∷ back) p) same
      (has_old_date-SameText parse keeps limit n (c ∷ back) date.1 ∙ same)

has_old_date_from-turned :
    (parse : CStr → ℤ × CStr)
    → KeepsText parse
    → (limit : ℤ) (n : ℕ) (back p : CStr)
    → SameText (has_old_date_from parse limit n back p).1 (turned_onto back p)
unfolding has_old_date_from turned_onto
has_old_date_from-turned parse keeps limit zero back p =
    has_old_date-SameText parse keeps limit (length p) back p
has_old_date_from-turned parse keeps limit (suc n) back [] = refl
has_old_date_from-turned parse keeps limit (suc n) back (c ∷ p) =
    has_old_date_from-turned parse keeps limit n (c ∷ back) p

pub has_old_date_from-SameText :
    (parse : CStr → ℤ × CStr)
    → KeepsText parse
    → (limit : ℤ) (n : ℕ) (str : CStr) → SameText (has_old_date_from parse limit n [] str).1 str
unfolding turned_onto
has_old_date_from-SameText parse keeps limit n str =
    has_old_date_from-turned parse keeps limit n [] str

c_str-drop : (s : List ℕ) → c_str s ++ drop (length (c_str s)) s ≡ s
unfolding c_str
c_str-drop [] = refl
c_str-drop (zero ∷ s) = refl
c_str-drop (suc c ∷ s) = ap (λ t. suc c ∷ t) (c_str-drop s)

-- The buffer with another C string of the same text.
pub with_string-SameText :
    (str : CStr) (me : Ims)
    → SameText str (c_str me.buffer)
    → SameText (with_string str me).buffer me.buffer
unfolding with_string
with_string-SameText str me h =
    SameText-append str (c_str me.buffer) _ _ h
      (ap (λ n. map to_lower (drop n me.buffer)) (length-SameText str (c_str me.buffer) h))
    ∙ ap (map to_lower) (c_str-drop me.buffer)

strchr-length :
    (s t : CStr) (c : ℕ)
    → strchr s c ≡ some t
    → (length t ≤ length s) × (drop (length s - length t) s ≡ t)
unfolding strchr
strchr-length [] t c e = absurd (some-ne-none (sym e))
strchr-length (d ∷ s) t c e = elim (Bool-cases (d == c)) [
  | inl h ↦
      let same : d ∷ s ≡ t = cc (rw h at e) in
      (
        rw (sym same) omega arith,
        let n : length (d ∷ s) - length t ≡ 0 = rw (sym same) omega arith in rw n same,
      )
  | inr h ↦
      let (le, same) = strchr-length s t c (rw h at e) in
      (
        omega arith,
        let n : suc (length s) - length t ≡ suc (length s - length t) = omega arith in rw n same,
      )
]

drop-suc : (n : ℕ) (s : List ℕ) → drop (suc n) s ≡ drop 1 (drop n s)
drop-suc zero s = refl
drop-suc (suc n) [] = refl
drop-suc (suc n) (c ∷ s) = drop-suc n s

-- The fields behind the first line, in another string of the same text.
pub fields-SameText :
    (s str mime : CStr)
    → strchr s 10 ≡ some mime
    → SameText str s
    → SameText (drop (suc (length s - length mime)) str) (drop 1 mime)
fields-SameText s str mime e h =
    SameText-drop (suc (length s - length mime)) str s h
    ∙ ap (map to_lower)
        (drop-suc (length s - length mime) s ∙ ap (drop 1) ((strchr-length s mime 10 e).1))
