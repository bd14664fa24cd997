-- ===== src/BTree/Directory.antt =====
-- The order of the entries of a directory: HTDirStrCaseCmp of Library/Implementation/HTDirBrw.c as
-- the comparer of the sorted tree.
use cern_httpd.Base.{ℕ, ◌≡◌, refl, true, false, [], ◌∷◌, arith}
use cern_httpd.Base.Int.{ℤ, pos, negsuc, neg, ◌-ℤ◌}
use cern_httpd.Str.{CStr, to_lower, strcasecomp, char_value, or_diff}
use cern_httpd.Str.Case.{strcasecomp_antisym}
use cern_httpd.BTree.{is_negative}
use cern_httpd.BTree.Order.{IsComparer}

-- HTDirStrCaseCmp
unfoldable pub dir_str_case_cmp : CStr → CStr → ℤ
unfolding strcasecomp
dir_str_case_cmp a b = strcasecomp a b

or_diff-trans_not :
    (a b c : ℕ) (r s t : ℤ)
    → (is_negative r ≡ false → is_negative s ≡ false → is_negative t ≡ false)
    → is_negative (or_diff (char_value a -ℤ char_value b) r) ≡ false
    → is_negative (or_diff (char_value b -ℤ char_value c) s) ≡ false
    → is_negative (or_diff (char_value a -ℤ char_value c) t) ≡ false
unfolding or_diff char_value is_negative
or_diff-trans_not a b c r s t ih h k = ground arith

strcasecomp-trans_not :
    (a b c : CStr)
    → is_negative (strcasecomp a b) ≡ false
    → is_negative (strcasecomp b c) ≡ false
    → is_negative (strcasecomp a c) ≡ false
unfolding strcasecomp is_negative
strcasecomp-trans_not [] [] c h k = k
strcasecomp-trans_not [] (y ∷ q) c h k = absurd (cc)
strcasecomp-trans_not (x ∷ p) [] [] h k = refl
strcasecomp-trans_not (x ∷ p) [] (z ∷ r) h k = absurd (cc)
strcasecomp-trans_not (x ∷ p) (y ∷ q) [] h k = refl
strcasecomp-trans_not (x ∷ p) (y ∷ q) (z ∷ r) h k =
    or_diff-trans_not (to_lower x) (to_lower y) (to_lower z) (strcasecomp p q) (strcasecomp q r)
      (strcasecomp p r) (strcasecomp-trans_not p q r) h k

strcasecomp-asym :
    (a b : CStr) → is_negative (strcasecomp a b) ≡ true → is_negative (strcasecomp b a) ≡ false
strcasecomp-asym a b h = rw (strcasecomp_antisym a b) (not_negative (strcasecomp a b) h)
  where
    not_negative : (z : ℤ) → is_negative z ≡ true → is_negative (neg z) ≡ false
    not_negative (pos n) h = absurd (unfold is_negative in cc)
    not_negative (negsuc n) h = unfold is_negative in ground arith

-- HTDirStrCaseCmp orders the names of a directory as HTBTree.c takes for granted: no two names go
-- before each other, and a name that does not go before a second one, which does not go before a
-- third one, does not go before the third one.
pub dir_str_case_cmp-IsComparer : IsComparer dir_str_case_cmp
unfolding dir_str_case_cmp
dir_str_case_cmp-IsComparer = record { asym = strcasecomp-asym; trans_not = strcasecomp-trans_not }
