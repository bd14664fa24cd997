-- ===== src/Acl/Lines.antt =====
-- The lines of an access control list, and how HTAAFile.c reads them.
use cern_httpd.Base.{
  ℕ, ◌≤◌, ◌<◌, ◌≡◌, refl, ◌∙◌, arith, Bool, true, false, ◌&&◌, some, List, [], ◌∷◌, ◌++◌, length,
  All, ◌==◌, if◌then◌else◌, Bool-cases, inl, inr,
}
use cern_httpd.Str.{CStr}
use cern_httpd.AaUtil.{template_match}
use cern_httpd.AaFile.{is_eol, is_blank, ends_item, rec_loop, next_rec}
use cern_httpd.AaFile.Plain.{IsItemChar}
use cern_httpd.Acl.{max_methodname_len, method_in_list}

-- A line: the template, the methods, of which there is one at least, and the text of the group.
pub record AclLine : Type 0 where
  pub template : CStr
  pub first : CStr
  pub others : List CStr
  pub group_text : List ℕ

-- The methods up to the colon behind them.
abbrev pub methods_before : CStr → List CStr → List ℕ → List ℕ
methods_before m [] rest = m ++ (b':' ∷ rest)
methods_before m (o ∷ os) rest = m ++ (b',' ∷ methods_before o os rest)

abbrev pub line_before : AclLine → List ℕ → List ℕ
line_before l rest =
    l.template ++ (b':' ∷ methods_before l.first l.others (l.group_text ++ (10 ∷ rest)))

abbrev pub acl_text : List AclLine → List ℕ
acl_text [] = []
acl_text (l ∷ ls) = line_before l (acl_text ls)

abbrev pub IsMethod : CStr → Type 0
IsMethod m = (0 < length m) × (length m ≤ max_methodname_len) × All (IsItemChar true) m

-- The last character that is not blank, or the one before.
abbrev pub last_char : ℕ → List ℕ → ℕ
last_char last [] = last
last_char last (c ∷ w) = if is_blank c then last_char last w else last_char c w

-- A line whose template has `n` characters at most and whose group does not end in a comma, which
-- would continue the record on the next line.
abbrev pub IsAclLine : ℕ → AclLine → Type 0
IsAclLine n l =
    (0 < length l.template)
    × (length l.template ≤ n)
    × All (IsItemChar false) l.template
    × All IsMethod (l.first ∷ l.others)
    × All (λ c. is_eol c ≡ false) l.group_text
    × ((last_char b':' l.group_text == b',') ≡ false)

-- A line for the file and the method.
abbrev pub applies : CStr → ℕ → AclLine → Bool
applies filename method l =
    template_match (some l.template) (some filename) && method_in_list method (l.first ∷ l.others)

-- The end of the file, or a character that ends no line.
abbrev pub Starts : List ℕ → Type 0
Starts [] = Unit
Starts (c ∷ rest) = is_eol c ≡ false

not_eol : (b : Bool) (c : ℕ) → IsItemChar b c → is_eol c ≡ false
unfolding ends_item is_eol
not_eol true c h = ground (arith, h.2)
not_eol false c h = ground (arith, h.2)

line_before-Starts :
    (n : ℕ) (l : AclLine) (rest : List ℕ) → IsAclLine n l → Starts (line_before l rest)
line_before-Starts n l rest h = by_template l.template _ h.0 h.2
  where
    by_template :
        (t : CStr) (rest : List ℕ) → 0 < length t → All (IsItemChar false) t → Starts (t ++ rest)
    by_template [] rest lt h = absurd (omega arith)
    by_template (c ∷ t) rest lt h = not_eol false c h.0

pub acl_text-Starts : (n : ℕ) (ls : List AclLine) → All (IsAclLine n) ls → Starts (acl_text ls)
acl_text-Starts n [] h = tt
acl_text-Starts n (l ∷ ls) h = line_before-Starts n l (acl_text ls) h.0

last_char-other :
    (last other : ℕ) (w : List ℕ)
    → (last == b',') ≡ false
    → (last_char other w == b',') ≡ false
    → (last_char last w == b',') ≡ false
last_char-other last other [] h k = h
last_char-other last other (c ∷ w) h k = elim (Bool-cases (is_blank c)) [
  | inl b ↦ rw b (last_char-other last other w h (rw b at k))
  | inr b ↦ rw b (rw b at k)
]

-- The rest of a record up to the next one.
rec_loop-line :
    (last : ℕ) (w rest : List ℕ)
    → All (λ c. is_eol c ≡ false) w
    → (last_char last w == b',') ≡ false
    → Starts rest
    → rec_loop false last (w ++ (10 ∷ rest)) ≡ rest
unfolding rec_loop is_eol
rec_loop-line last [] [] h k s = refl
rec_loop-line last [] (c ∷ rest) h k s = rw (s, k) refl
rec_loop-line last (c ∷ w) rest h k s = elim (Bool-cases (is_blank c)) [
  | inl b ↦ rw (h.0, b) (rec_loop-line last w rest h.1 (rw b at k) s)
  | inr b ↦ rw (h.0, b) (rec_loop-line c w rest h.1 (rw b at k) s)
]

pub next_rec-groups :
    (w rest : List ℕ)
    → All (λ c. is_eol c ≡ false) w
    → (last_char b':' w == b',') ≡ false
    → Starts rest
    → next_rec (w ++ (10 ∷ rest)) ≡ rest
unfolding next_rec
next_rec-groups w rest h k s = rec_loop-line 0 w rest h (last_char-other 0 b':' w refl k) s

rec_loop-mark :
    (last ch : ℕ) (m t : List ℕ)
    → All (IsItemChar true) m
    → is_eol ch ≡ false
    → is_blank ch ≡ false
    → rec_loop false last (m ++ (ch ∷ t)) ≡ rec_loop false ch t
unfolding rec_loop
rec_loop-mark last ch [] t h e b = rw (e, b) refl
rec_loop-mark last ch (c ∷ m) t h e b =
    let eol = not_eol true c h.0 in rw (eol, h.0.1) (rec_loop-mark c ch m t h.1 e b)

rec_loop-methods :
    (last : ℕ) (m : CStr) (os : List CStr) (t : List ℕ)
    → All IsMethod (m ∷ os)
    → rec_loop false last (methods_before m os t) ≡ rec_loop false b':' t
unfolding is_eol is_blank
rec_loop-methods last m [] t h = rec_loop-mark last b':' m t h.0.2 refl refl
rec_loop-methods last m (o ∷ os) t h =
    rec_loop-mark last b',' m (methods_before o os t) h.0.2 refl refl
    ∙ rec_loop-methods b',' o os t h.1

-- The record is passed over from its methods on.
pub next_rec-methods :
    (m : CStr) (os : List CStr) (w rest : List ℕ)
    → All IsMethod (m ∷ os)
    → All (λ c. is_eol c ≡ false) w
    → (last_char b':' w == b',') ≡ false
    → Starts rest
    → next_rec (methods_before m os (w ++ (10 ∷ rest))) ≡ rest
unfolding next_rec
next_rec-methods m os w rest hm h k s =
    rec_loop-methods 0 m os (w ++ (10 ∷ rest)) hm ∙ rec_loop-line b':' w rest h k s
