-- ===== src/Acl/Methods.antt =====
-- The methods of a line of an access control list, as HTAAFile.c reads them.
use cern_httpd.Base.{
  ℕ, zero, suc, ◌≤◌, ◌<◌, ◌≡◌, refl, ap, ◌∙◌, arith, Bool, true, false, ◌||◌, some, List, [], ◌∷◌,
  ◌++◌, length, length-append, All, if◌then◌else◌,
}
use cern_httpd.Str.{CStr, is_zero, strcasecomp}
use cern_httpd.AaFile.{
  is_eol, is_blank, ends_item, read_item, read_list, list_from, add_item, is_list_separator,
}
use cern_httpd.AaFile.Plain.{read_item-plain}
use cern_httpd.Acl.{max_methodname_len, method_in_list, name_in, method_name, Option}
use cern_httpd.Acl.Lines.{methods_before, IsMethod}

-- The list as HTAAFile_readList makes it: the item that was added last first.
abbrev pub onto : List CStr → List CStr → List CStr
onto result [] = result
onto result (m ∷ ms) = onto (m ∷ result) ms

add_item-method : (m : CStr) (result : List CStr) → 0 < length m → add_item m result ≡ m ∷ result
unfolding add_item
add_item-method [] result lt = absurd (omega arith)
add_item-method (c ∷ m) result lt = refl

read_method :
    (m : CStr) (ch : ℕ) (t : List ℕ)
    → IsMethod m
    → ends_item true ch ≡ true
    → is_blank ch ≡ false
    → is_eol ch ≡ false
    → read_item true max_methodname_len (m ++ (ch ∷ t)) ≡ (some ch, m, t)
read_method m ch t h e b l =
    read_item-plain true max_methodname_len m ch t h.2 h.1 e b
    ∙ ap (λ (eol : Bool). (some ch, m, (if eol then ch ∷ t else t))) l

read_step :
    (fuel : ℕ) (result : List CStr) (text : List ℕ) (read : Option ℕ × CStr × List ℕ)
    → read_item true max_methodname_len text ≡ read
    → list_from (suc fuel) max_methodname_len result text ≡ (
        if is_list_separator read.0
        then list_from fuel max_methodname_len (add_item read.1 result) read.2
        else some (add_item read.1 result, read.2))
unfolding list_from
read_step fuel result text read e =
    ap
      (λ (t : Option ℕ × CStr × List ℕ).
        if is_list_separator t.0
        then list_from fuel max_methodname_len (add_item t.1 result) t.2
        else some (add_item t.1 result, t.2))
      e

list_from-methods :
    (fuel : ℕ) (result : List CStr) (m : CStr) (os : List CStr) (t : List ℕ)
    → All IsMethod (m ∷ os)
    → length os < fuel
    → list_from fuel max_methodname_len result (methods_before m os t)
      ≡ some (onto result (m ∷ os), t)
unfolding is_list_separator ends_item is_blank is_eol
list_from-methods zero result m os t h lt = absurd (omega arith)
list_from-methods (suc fuel) result m [] t h lt =
    read_step fuel result (m ++ (b':' ∷ t)) (some b':', m, t)
      (read_method m b':' t h.0 refl refl refl)
    ∙ ap (λ (l : List CStr). some (l, t)) (add_item-method m result h.0.0)
list_from-methods (suc fuel) result m (o ∷ os) t h lt =
    read_step fuel result (m ++ (b',' ∷ methods_before o os t))
      (some b',', m, methods_before o os t)
      (read_method m b',' (methods_before o os t) h.0 refl refl refl)
    ∙ ap (λ (l : List CStr). list_from fuel max_methodname_len l (methods_before o os t))
        (add_item-method m result h.0.0)
    ∙ list_from-methods fuel (m ∷ result) o os t h.1 (omega arith)

length-methods_before :
    (m : CStr) (os : List CStr) (t : List ℕ) → length os ≤ length (methods_before m os t)
length-methods_before m [] t = omega arith
length-methods_before m (o ∷ os) t =
    omega (arith, length-append m (b',' ∷ methods_before o os t), length-methods_before o os t)

pub read_list-methods :
    (m : CStr) (os : List CStr) (t : List ℕ)
    → All IsMethod (m ∷ os)
    → read_list max_methodname_len (methods_before m os t) ≡ some (onto [] (m ∷ os), t)
unfolding read_list
read_list-methods m os t h =
    list_from-methods (suc (length (methods_before m os t))) [] m os t h
      (omega (arith, length-methods_before m os t))

name_in-onto :
    (name : CStr) (result ms : List CStr)
    → name_in name (onto result ms) ≡ (name_in name ms || name_in name result)
unfolding name_in
name_in-onto name result [] = refl
name_in-onto name result (m ∷ ms) =
    name_in-onto name (m ∷ result) ms
    ∙ or_swap (name_in name ms) (is_zero (strcasecomp m name)) (name_in name result)
  where
    or_swap : (a b c : Bool) → (a || (b || c)) ≡ ((b || a) || c)
    or_swap true true c = refl
    or_swap true false c = refl
    or_swap false true c = refl
    or_swap false false c = refl

-- The order of the list does not matter for HTMethod_inList.
pub method_in_list-onto :
    (method : ℕ) (ms : List CStr) → method_in_list method (onto [] ms) ≡ method_in_list method ms
unfolding method_in_list name_in
method_in_list-onto method ms =
    name_in-onto (method_name method) [] ms ∙ or_false (name_in (method_name method) ms)
  where
    or_false : (a : Bool) → (a || false) ≡ a
    or_false true = refl
    or_false false = refl
