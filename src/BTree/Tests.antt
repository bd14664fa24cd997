-- ===== src/BTree/Tests.antt =====
-- The theorems on HTBTree.c at a concrete tree.
use cern_httpd.Base.{◌≡◌, refl, some, none, List, [], ◌∷◌, ◌++◌, suc, length, codes}
use mathlib.Core.List.{Perm}
use cern_httpd.Str.{CStr, strcasecomp, to_lower, char_value, or_diff}
use cern_httpd.BTree.{
  BTree, null, element, leaf, btree_new, btree_add, btree_next, settle, update_depths, search,
  is_negative, balance, is_balanced, climb, correct, right_exception, left_exception, rotate_right,
  rotate_left,
}
use cern_httpd.BTree.Depths.{IsDeep, objects}
use cern_httpd.BTree.Order.{insertion_sort, IsSorted}
use cern_httpd.BTree.Walk.{walk_tree}
use cern_httpd.BTree.Sort.{add_all, btree_add-IsDeep, walk_tree-add_all}
use cern_httpd.BTree.Directory.{dir_str_case_cmp, dir_str_case_cmp-IsComparer}

abbrev some_names : List CStr
some_names = codes "Test" ∷ codes "FAQ" ∷ codes "test" ∷ codes "DesignIssues" ∷ []

walk_tree-add_all_example :
    (tree : BTree CStr) × (add_all dir_str_case_cmp some_names (btree_new dir_str_case_cmp)
      ≡ some tree)
    × (walk_tree (suc (length some_names)) tree (btree_next tree none)
        ≡ some (insertion_sort dir_str_case_cmp some_names []))
    × IsSorted dir_str_case_cmp (insertion_sort dir_str_case_cmp some_names [])
    × Perm some_names (insertion_sort dir_str_case_cmp some_names [])
walk_tree-add_all_example =
    walk_tree-add_all dir_str_case_cmp dir_str_case_cmp-IsComparer some_names

-- A tree that the next object makes unbalanced.
abbrev two_names : BTree CStr
two_names = record {
  compare = dir_str_case_cmp;
  top = element (leaf (codes "FAQ")) 1 (codes "Test") 0 null;
}

btree_add-IsDeep_example :
    (grown : BTree CStr) × (btree_add two_names (codes "DesignIssues") ≡ some grown)
    × IsDeep grown.top
    × (xs ys : List CStr) × (objects two_names.top ≡ xs ++ ys)
    × (objects grown.top ≡ xs ++ (codes "DesignIssues" ∷ ys))
btree_add-IsDeep_example =
    btree_add-IsDeep two_names (codes "DesignIssues") (refl, refl, (refl, refl, tt, tt), tt)

-- Single rotations leave a depth difference of two where the new object is between the last two.
zigzag_test :
    add_all dir_str_case_cmp (codes "c" ∷ codes "a" ∷ codes "b" ∷ []) (btree_new dir_str_case_cmp)
    ≡ some (record {
      compare = dir_str_case_cmp;
      top = element null 0 (codes "a") 2 (element (leaf (codes "b")) 1 (codes "c") 0 null);
    })
unfolding btree_add btree_new dir_str_case_cmp settle update_depths search is_negative balance
    is_balanced climb correct right_exception left_exception rotate_right rotate_left strcasecomp
    to_lower char_value or_diff
zigzag_test = refl
