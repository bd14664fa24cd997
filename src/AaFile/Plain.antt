-- ===== src/AaFile/Plain.antt =====
-- What read_item of HTAAFile.c reads where an item stands as it is.
use cern_httpd.Base.{
  ℕ, zero, suc, ◌≤◌, ◌≡◌, ◌≢◌, refl, sym, ap, ◌∙◌, Bool, true, false, some, List, [], ◌∷◌, ◌++◌,
  length, arith, append_assoc, append-nil, if◌then◌else◌, All, ◌==◌,
}
use cern_httpd.Str.{CStr}
use cern_httpd.Parse.Escape.{c_str}
use cern_httpd.AaFile.{
  is_eol, is_blank, read_item, skip_space_tab, collect, skip_item, trimmed, ends_item,
}

-- A character of an item: no blank, none that ends the item, and not the terminator.
abbrev pub IsItemChar : Bool → ℕ → Type 0
IsItemChar reading_list c = (c ≢ 0) × (is_blank c ≡ false) × (ends_item reading_list c ≡ false)

module _ (reading_list : Bool) where
  collect-plain :
      (w : CStr) (n : ℕ) (word : CStr) (ch : ℕ) (rest : List ℕ)
      → All (IsItemChar reading_list) w
      → length w ≤ n
      → ends_item reading_list ch ≡ true
      → collect reading_list n word (w ++ (ch ∷ rest)) ≡ (word ++ w, ch ∷ rest)
  unfolding collect
  collect-plain [] zero word ch rest h le e =
      ap (λ (t : CStr). (t, ch ∷ rest)) (sym (append-nil word))
  collect-plain [] (suc n) word ch rest h le e =
      rw e (ap (λ (t : CStr). (t, ch ∷ rest)) (sym (append-nil word)))
  collect-plain (c ∷ w) zero word ch rest h le e = absurd (omega arith)
  collect-plain (c ∷ w) (suc n) word ch rest h le e = rw (h.0.2) (
      collect-plain w n (word ++ c ∷ []) ch rest h.1 (omega arith) e
      ∙ ap (λ (t : CStr). (t, ch ∷ rest)) (append_assoc word (c ∷ []) w))

  skip_space_tab-plain :
      (w : CStr) (ch : ℕ) (rest : List ℕ)
      → All (IsItemChar reading_list) w
      → is_blank ch ≡ false
      → skip_space_tab (w ++ (ch ∷ rest)) ≡ w ++ (ch ∷ rest)
  unfolding skip_space_tab
  skip_space_tab-plain [] ch rest h b = rw b refl
  skip_space_tab-plain (c ∷ w) ch rest h b = rw (h.0.1) refl

  trimmed-plain : (w : CStr) → All (IsItemChar reading_list) w → trimmed w ≡ w
  unfolding trimmed
  trimmed-plain [] h = refl
  trimmed-plain (c ∷ []) h = rw (h.0.1) refl
  trimmed-plain (c ∷ d ∷ w) h = rw (trimmed-plain (d ∷ w) h.1) refl

  c_str-plain : (w : CStr) → All (IsItemChar reading_list) w → c_str w ≡ w
  unfolding c_str
  c_str-plain [] h = refl
  c_str-plain (zero ∷ w) h = absurd (h.0.0 refl)
  c_str-plain (suc c ∷ w) h = ap (λ t. suc c ∷ t) (c_str-plain w h.1)

  skip_item-ends :
      (b : Bool) (ch : ℕ) (rest : List ℕ)
      → ends_item reading_list ch ≡ true
      → (if b then skip_item reading_list (ch ∷ rest) else ch ∷ rest) ≡ ch ∷ rest
  unfolding skip_item
  skip_item-ends true ch rest e = rw e refl
  skip_item-ends false ch rest e = refl

  -- An item is read up to the character that ends it.
  pub read_item-plain :
      (n : ℕ) (w : CStr) (ch : ℕ) (rest : List ℕ)
      → All (IsItemChar reading_list) w
      → length w ≤ n
      → ends_item reading_list ch ≡ true
      → is_blank ch ≡ false
      → read_item reading_list n (w ++ (ch ∷ rest))
        ≡ (some ch, w, (if is_eol ch then ch ∷ rest else rest))
  unfolding read_item
  read_item-plain n w ch rest h le e b =
      rw
        (
          skip_space_tab-plain w ch rest h b,
          collect-plain w n [] ch rest h le e,
          skip_item-ends (length w == n) ch rest e,
          trimmed-plain w h,
        )
        (ap (λ (t : CStr). (some ch, t, (if is_eol ch then ch ∷ rest else rest))) (c_str-plain w h))
