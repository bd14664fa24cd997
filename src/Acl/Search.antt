-- ===== src/Acl/Search.antt =====
-- The record of an access control list that HTACL.c takes.
use cern_httpd.Base.{
  ℕ, zero, suc, ◌+◌, ◌≤◌, ◌<◌, ◌≡◌, refl, sym, ap, ◌∙◌, arith, Bool, true, false, Option, none,
  some, List, [], ◌∷◌, length, Bool-cases, inl, inr, some-ne-none,
}
use cern_httpd.Str.{CStr}
use cern_httpd.AaUtil.{template_match}
use cern_httpd.Group.Parse.{Reader, Parsed, parsed, rejected, Parser}
use cern_httpd.Acl.{
  methods_for, record_step, field_step, record_loop, find_record, filename_of, max_methodname_len,
}
use cern_httpd.AaFile.{next_rec, read_field, read_list}
use cern_httpd.AaFile.Left.{next_rec-lt, read_item-le, read_item-empty, read_list-Listed}

abbrev pub Read : Type 0
Read = Option ℕ × CStr × List ℕ

abbrev pub field_of : CStr → Reader → Read
field_of filename r = read_field (length filename + 1) r.text

abbrev pub at : Reader → List ℕ → Reader
at r text = record r { text = text }

-- The steps from record to record, to the first whose template is that of the file and whose
-- methods are accepted, or to the end of the file.
pub data Finds (filename : CStr) (accepts : List CStr → Bool)
    : Reader → Parsed (List CStr) × Reader → Type 0 where
  no_record :
      (r : Reader) (buf : CStr) (text : List ℕ)
      → field_of filename r ≡ (none, buf, text)
      → Finds filename accepts r (rejected, at r text)
  other_template :
      (r : Reader) (ch : ℕ) (buf : CStr) (text : List ℕ) (out : Parsed (List CStr) × Reader)
      → field_of filename r ≡ (some ch, buf, text)
      → template_match (some buf) (some filename) ≡ false
      → Finds filename accepts (at r (next_rec text)) out
      → Finds filename accepts r out
  other_method :
      (r : Reader) (ch : ℕ) (buf : CStr) (text : List ℕ) (methods : List CStr) (rest : List ℕ)
      (out : Parsed (List CStr) × Reader)
      → field_of filename r ≡ (some ch, buf, text)
      → template_match (some buf) (some filename) ≡ true
      → read_list max_methodname_len text ≡ some (methods, rest)
      → accepts methods ≡ false
      → Finds filename accepts (at r (next_rec rest)) out
      → Finds filename accepts r out
  found :
      (r : Reader) (ch : ℕ) (buf : CStr) (text : List ℕ) (methods : List CStr) (rest : List ℕ)
      → field_of filename r ≡ (some ch, buf, text)
      → template_match (some buf) (some filename) ≡ true
      → read_list max_methodname_len text ≡ some (methods, rest)
      → accepts methods ≡ true
      → Finds filename accepts r (parsed methods, at r rest)

-- The record behind a field is nearer to the end of the file.
next_rec-nearer : (n : ℕ) (text : List ℕ) → length text ≤ n → 0 < n → length (next_rec text) < n
unfolding next_rec
next_rec-nearer n [] le lt = lt
next_rec-nearer n (ch ∷ text) le lt = omega (arith, next_rec-lt ch text)

field-nonempty :
    (max_len ch : ℕ) (buf : CStr) (text rest : List ℕ)
    → read_field max_len text ≡ (some ch, buf, rest)
    → 0 < length text
unfolding read_field
field-nonempty max_len ch buf [] rest e =
    absurd (some-ne-none (sym (ap (λ (t : Read). t.0) e) ∙ read_item-empty false max_len))
field-nonempty max_len ch buf (c ∷ text) rest e = omega arith

field-le :
    (max_len : ℕ) (text : List ℕ) (read : Read)
    → read_field max_len text ≡ read
    → length read.2 ≤ length text
unfolding read_field
field-le max_len text read e =
    omega (arith, read_item-le false max_len text, ap (λ (t : Read). length t.2) e)

-- A loop that finds, for readers nearer to the end than n.
abbrev Loop : CStr → (List CStr → Bool) → ℕ → Parser (List CStr) → Type 0
Loop filename accepts n more = (r : Reader) → length r.text < n → Finds filename accepts r (more r)

pub methods_for-list :
    (filename buf : CStr) (text : List ℕ) (methods : List CStr) (rest : List ℕ)
    → template_match (some buf) (some filename) ≡ true
    → read_list max_methodname_len text ≡ some (methods, rest)
    → methods_for filename buf text ≡ some (some methods, rest)
unfolding methods_for
methods_for-list filename buf text methods rest t e = rw (t, e) refl

pub methods_for-none :
    (filename buf : CStr) (text : List ℕ)
    → template_match (some buf) (some filename) ≡ false
    → methods_for filename buf text ≡ some (none, text)
unfolding methods_for
methods_for-none filename buf text t = rw t refl

pub record_step-found :
    (accepts : List CStr → Bool) (more : Parser (List CStr)) (methods : List CStr) (rest : List ℕ)
    (r : Reader)
    → accepts methods ≡ true
    → record_step accepts more (some (some methods, rest)) r ≡ (parsed methods, at r rest)
unfolding record_step
record_step-found accepts more methods rest r a = rw a refl

pub record_step-other :
    (accepts : List CStr → Bool) (more : Parser (List CStr)) (methods : List CStr) (rest : List ℕ)
    (r : Reader)
    → accepts methods ≡ false
    → record_step accepts more (some (some methods, rest)) r ≡ more (at r (next_rec rest))
unfolding record_step
record_step-other accepts more methods rest r a = rw a refl

matching :
    (filename : CStr) (accepts : List CStr → Bool) (more : Parser (List CStr)) (r : Reader) (ch : ℕ)
    (buf : CStr) (text : List ℕ)
    → Loop filename accepts (length r.text) more
    → field_of filename r ≡ (some ch, buf, text)
    → template_match (some buf) (some filename) ≡ true
    → Finds filename accepts r (record_step accepts more (methods_for filename buf text) r)
matching filename accepts more r ch buf text loop e t =
    let (methods, rest, listed, le) = read_list-Listed max_methodname_len text in
    let nearer =
      next_rec-nearer (length r.text) rest
        (omega (arith, field-le (length filename + 1) r.text (some ch, buf, text) e))
        (field-nonempty (length filename + 1) ch buf r.text text e) in
    rw (methods_for-list filename buf text methods rest t listed)
      (elim (Bool-cases (accepts methods)) [
        | inl a ↦
            rw (record_step-found accepts more methods rest r a)
              (found r ch buf text methods rest e t listed a)
        | inr a ↦ rw (record_step-other accepts more methods rest r a) (
            other_method r ch buf text methods rest (more (at r (next_rec rest))) e t listed a
              (loop (at r (next_rec rest)) nearer))
      ])

field-Finds :
    (filename : CStr) (accepts : List CStr → Bool) (more : Parser (List CStr)) (r : Reader)
    (read : Read)
    → Loop filename accepts (length r.text) more
    → field_of filename r ≡ read
    → Finds filename accepts r (field_step filename accepts more read r)
unfolding field_step record_step
field-Finds filename accepts more r (none, buf, text) loop e = no_record r buf text e
field-Finds filename accepts more r (some ch, buf, text) loop e =
    elim (Bool-cases (template_match (some buf) (some filename))) [
      | inl t ↦ matching filename accepts more r ch buf text loop e t
      | inr t ↦ rw (methods_for-none filename buf text t) (
          other_template r ch buf text (more (at r (next_rec text))) e t (
            loop (at r (next_rec text)) (
              next_rec-nearer (length r.text) text
                (field-le (length filename + 1) r.text (some ch, buf, text) e)
                (field-nonempty (length filename + 1) ch buf r.text text e))))
    ]

record_loop-Finds :
    (filename : CStr) (accepts : List CStr → Bool) (fuel : ℕ) (r : Reader)
    → length r.text < fuel
    → Finds filename accepts r (record_loop filename accepts fuel r)
unfolding record_loop
record_loop-Finds filename accepts zero r lt = absurd (omega arith)
record_loop-Finds filename accepts (suc fuel) r lt =
    field-Finds filename accepts (record_loop filename accepts fuel) r (field_of filename r)
      (λ r1 lt1. record_loop-Finds filename accepts fuel r1 (omega arith)) refl

-- The search comes to an end.
pub find_record-Finds :
    (pathname : CStr) (accepts : List CStr → Bool) (r : Reader)
    → Finds (filename_of pathname) accepts r (find_record pathname accepts r)
unfolding find_record
find_record-Finds pathname accepts r =
    record_loop-Finds (filename_of pathname) accepts (suc (length r.text)) r (omega arith)
