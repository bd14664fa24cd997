-- ===== src/Acl/First.antt =====
-- HTAA_getAclEntry of HTACL.c on the lines of an access control list.
use cern_httpd.Base.{
  ℕ, zero, suc, ◌+◌, ◌≤◌, ◌<◌, ◌≡◌, refl, ap, ◌∙◌, arith, true, false, some, List, [], ◌∷◌, ◌++◌,
  length, length-append, All, ◌==◌, Bool-cases, inl, inr,
}
use cern_httpd.Str.{CStr}
use cern_httpd.AaUtil.{template_match}
use cern_httpd.AaFile.{ends_item, is_blank, is_eol, read_field, read_item}
use cern_httpd.AaFile.Plain.{read_item-plain}
use cern_httpd.Group.Parse.{Reader, parsed, rejected, and_parse}
use cern_httpd.Group.Parse.File.{parse_group_def}
use cern_httpd.Acl.{
  methods_for, record_step, field_step, record_loop, find_record, filename_of, method_in_list,
  get_acl_entry, none,
}
use cern_httpd.Acl.Search.{
  at, methods_for-none, methods_for-list, record_step-found, record_step-other,
}
use cern_httpd.Acl.Lines.{
  AclLine, methods_before, line_before, acl_text, IsAclLine, applies, Starts, acl_text-Starts,
  next_rec-groups, next_rec-methods,
}
use cern_httpd.Acl.Methods.{onto, read_list-methods, method_in_list-onto}

read_nothing : (n : ℕ) → read_field n [] ≡ (none, [], [])
unfolding read_field read_item
read_nothing zero = refl
read_nothing (suc n) = let ne : (0 == suc n) ≡ false = ground arith in rw ne refl

module _ (filename : CStr) (method : ℕ) where
  abbrev Fits : AclLine → Type 0
  Fits = IsAclLine (length filename + 1)

  -- What a line's text is behind its template.
  abbrev behind_template : AclLine → List ℕ → List ℕ
  behind_template l rest = methods_before l.first l.others (l.group_text ++ (10 ∷ rest))

  read_template :
      (l : AclLine) (rest : List ℕ)
      → Fits l
      → read_field (length filename + 1) (line_before l rest)
        ≡ (some b':', l.template, behind_template l rest)
  unfolding read_field ends_item is_blank is_eol
  read_template l rest h =
      read_item-plain false (length filename + 1) l.template b':' (behind_template l rest) h.2 h.1
        refl refl

  line_step :
      (fuel : ℕ) (r : Reader) (l : AclLine) (rest : List ℕ)
      → Fits l
      → record_loop filename (method_in_list method) (suc fuel) (at r (line_before l rest))
        ≡ record_step
            (method_in_list method)
            (record_loop filename (method_in_list method) fuel)
            (methods_for filename l.template (behind_template l rest))
            (at r (line_before l rest))
  unfolding record_loop field_step
  line_step fuel r l rest h =
      ap
        (λ t.
          field_step filename (method_in_list method)
            (record_loop filename (method_in_list method) fuel) t (at r (line_before l rest)))
        (read_template l rest h)

  listed :
      (l : AclLine) (rest : List ℕ)
      → Fits l
      → template_match (some l.template) (some filename) ≡ true
      → methods_for filename l.template (behind_template l rest)
        ≡ some (some (onto [] (l.first ∷ l.others)), l.group_text ++ (10 ∷ rest))
  listed l rest h t =
      methods_for-list filename l.template (behind_template l rest) _ _ t
        (read_list-methods l.first l.others (l.group_text ++ (10 ∷ rest)) h.3)

  -- A line that does not apply is passed over.
  line-other :
      (fuel : ℕ) (r : Reader) (l : AclLine) (rest : List ℕ)
      → Fits l
      → Starts rest
      → applies filename method l ≡ false
      → record_loop filename (method_in_list method) (suc fuel) (at r (line_before l rest))
        ≡ record_loop filename (method_in_list method) fuel (at r rest)
  unfolding record_step
  line-other fuel r l rest h s a =
      let more = record_loop filename (method_in_list method) fuel in
      line_step fuel r l rest h
      ∙ elim (Bool-cases (template_match (some l.template) (some filename))) [
        | inl t ↦
            let not_in : method_in_list method (onto [] (l.first ∷ l.others)) ≡ false =
              method_in_list-onto method (l.first ∷ l.others) ∙ (rw t at a) in
            rw (listed l rest h t) (
              record_step-other (method_in_list method) more (onto [] (l.first ∷ l.others))
                (l.group_text ++ (10 ∷ rest)) (at r (line_before l rest)) not_in
              ∙ ap (λ t. more (at r t)) (next_rec-groups l.group_text rest h.4 h.5 s))
        | inr t ↦ rw (methods_for-none filename l.template (behind_template l rest) t) (
            ap (λ t. more (at r t))
              (next_rec-methods l.first l.others l.group_text rest h.3 h.4 h.5 s))
      ]

  -- The methods of a line that applies are found.
  line-found :
      (fuel : ℕ) (r : Reader) (l : AclLine) (rest : List ℕ)
      → Fits l
      → applies filename method l ≡ true
      → record_loop filename (method_in_list method) (suc fuel) (at r (line_before l rest))
        ≡ (parsed (onto [] (l.first ∷ l.others)), at r (l.group_text ++ (10 ∷ rest)))
  line-found fuel r l rest h a =
      let more = record_loop filename (method_in_list method) fuel in
      line_step fuel r l rest h
      ∙ elim (Bool-cases (template_match (some l.template) (some filename))) [
        | inl t ↦
            let is_in : method_in_list method (onto [] (l.first ∷ l.others)) ≡ true =
              method_in_list-onto method (l.first ∷ l.others) ∙ (rw t at a) in
            rw (listed l rest h t) (
              record_step-found (method_in_list method) more (onto [] (l.first ∷ l.others))
                (l.group_text ++ (10 ∷ rest)) (at r (line_before l rest)) is_in)
        | inr t ↦ absurd (let bad : false ≡ true = rw t at a in cc)
      ]

  no_more :
      (fuel : ℕ) (r : Reader)
      → record_loop filename (method_in_list method) (suc fuel) (at r []) ≡ (rejected, at r [])
  unfolding record_loop field_step
  no_more fuel r =
      ap
        (λ t.
          field_step filename (method_in_list method)
            (record_loop filename (method_in_list method) fuel) t (at r []))
        (read_nothing (length filename + 1))

  lines-none :
      (fuel : ℕ) (r : Reader) (ls : List AclLine)
      → All Fits ls
      → All (λ l. applies filename method l ≡ false) ls
      → length ls < fuel
      → record_loop filename (method_in_list method) fuel (at r (acl_text ls)) ≡ (rejected, at r [])
  lines-none zero r ls h a lt = absurd (omega arith)
  lines-none (suc fuel) r [] h a lt = no_more fuel r
  lines-none (suc fuel) r (l ∷ ls) h a lt =
      line-other fuel r l (acl_text ls) h.0 (acl_text-Starts _ ls h.1) a.0
      ∙ lines-none fuel r ls h.1 a.1 (omega arith)

  lines-first :
      (fuel : ℕ) (r : Reader) (before after : List AclLine) (l : AclLine)
      → All Fits (before ++ (l ∷ after))
      → All (λ l. applies filename method l ≡ false) before
      → applies filename method l ≡ true
      → length before < fuel
      → record_loop filename (method_in_list method) fuel (at r (acl_text (before ++ (l ∷ after))))
        ≡ (parsed (onto [] (l.first ∷ l.others)), at r (l.group_text ++ (10 ∷ acl_text after)))
  lines-first zero r before after l h a e lt = absurd (omega arith)
  lines-first (suc fuel) r [] after l h a e lt = line-found fuel r l (acl_text after) h.0 e
  lines-first (suc fuel) r (b ∷ before) after l h a e lt =
      line-other fuel r b (acl_text (before ++ (l ∷ after))) h.0
        (acl_text-Starts _ (before ++ (l ∷ after)) h.1) a.0
      ∙ lines-first fuel r before after l h.1 a.1 e (omega arith)

length-acl_text : (ls : List AclLine) → length ls ≤ length (acl_text ls)
length-acl_text [] = omega arith
length-acl_text (l ∷ ls) = omega (
  arith,
  length-append l.template
      (b':' ∷ methods_before l.first l.others (l.group_text ++ (10 ∷ acl_text ls))),
  behind (l.first) l.others l.group_text (acl_text ls),
  length-acl_text ls,
)
  where
    behind :
        (m : CStr) (os : List CStr) (w t : List ℕ)
        → length t ≤ length (methods_before m os (w ++ (10 ∷ t)))
    behind m [] w t =
        omega (arith, length-append m (b':' ∷ (w ++ (10 ∷ t))), length-append w (10 ∷ t))
    behind m (o ∷ os) w t =
        omega (arith, length-append m (b',' ∷ methods_before o os (w ++ (10 ∷ t))), behind o os w t)

-- On the lines of an access control list, HTAA_getAclEntry parses, for a valid method, the group of
-- the first line whose template matches the file's name and whose methods have that method, and it
-- gives NULL if there is no such line. The templates and methods are words without blanks; no
-- template is longer than the file's name by more than a character, which is all that HTACL.c reads
-- of one, no method has more than 12 characters, and no line ends in a comma.
pub get_acl_entry-first_line :
    (pathname : CStr) (method : ℕ) (r : Reader) (before after : List AclLine) (l : AclLine)
    → (method == 0) ≡ false
    → All (IsAclLine (length (filename_of pathname) + 1)) before
    → All (IsAclLine (length (filename_of pathname) + 1)) (before ++ (l ∷ after))
    → All (λ b. applies (filename_of pathname) method b ≡ false) before
    → applies (filename_of pathname) method l ≡ true
    → (get_acl_entry pathname method (at r (acl_text (before ++ (l ∷ after))))
        ≡ parse_group_def (at r (l.group_text ++ (10 ∷ acl_text after))))
      × (get_acl_entry pathname method (at r (acl_text before)) ≡ (rejected, at r []))
unfolding get_acl_entry find_record
get_acl_entry-first_line pathname method r before after l valid hb h a e =
    let text = acl_text (before ++ (l ∷ after)) in
    (
      rw valid (
          ap (λ out. and_parse out (λ methods. parse_group_def))
            (lines-first (filename_of pathname) method (suc (length text)) r before after l h a e (
              omega (
                arith,
                length-acl_text (before ++ (l ∷ after)),
                length-append before (l ∷ after),
              )))),
      rw valid (
          ap (λ out. and_parse out (λ methods. parse_group_def))
            (lines-none (filename_of pathname) method (suc (length (acl_text before))) r before hb a
              (omega (arith, length-acl_text before)))),
    )
