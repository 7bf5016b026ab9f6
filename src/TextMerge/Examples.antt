-- ===== src/TextMerge/Examples.antt =====
-- The text merge at small texts: lines "a", "b", "c" with their line ends.
use syncali.Prelude.{ℕ_discrete, ◌≡◌, ◌≤◌, refl, some, List, [], ◌∷◌, ◌++◌, length}
use syncali.TextMerge.Lines.{Text, split_lines, join}
use syncali.TextMerge.Diff.{diff_replacements, create_lcs_table, cell}
use syncali.TextMerge.Merge.{merge_text3, merge_replacements, text_eq, clean, conflict}
use syncali.TextMerge.SplitJoin.{join-split_lines, split_lines_drop}
use syncali.TextMerge.Patch.{merge_replacements-diff}
use syncali.TextMerge.Symmetry.{merge_text3_sym}
use syncali.TextMerge.Lcs.{Common, done, keep, skip_left, skip_right, create_lcs_table_longest}

abbrev a : Text
a = 97 ∷ 10 ∷ []

abbrev b : Text
b = 98 ∷ 13 ∷ 10 ∷ []

abbrev c : Text
c = 99 ∷ []

join-split_lines_example :
    join (split_lines (97 ∷ 10 ∷ 13 ∷ 10 ∷ 98 ∷ [])) ≡ 97 ∷ 10 ∷ 13 ∷ 10 ∷ 98 ∷ []
join-split_lines_example =
    join-split_lines (97 ∷ 10 ∷ 13 ∷ 10 ∷ 98 ∷ []) (refl, (refl, (refl, (refl, (refl, tt)))))

-- "a", U+2028, "b", newline: the "a" is lost.
split_lines_drop_example : split_lines (97 ∷ 0x2028 ∷ 98 ∷ 10 ∷ []) ≡ split_lines (98 ∷ 10 ∷ [])
split_lines_drop_example = split_lines_drop (97 ∷ []) (98 ∷ 10 ∷ []) 0x2028 (refl, tt) refl

merge_replacements-diff_example :
    merge_replacements text_eq
      (a ∷ b ∷ [])
      (diff_replacements text_eq (a ∷ b ∷ []) (c ∷ b ∷ a ∷ []))
      []
    ≡ some (c ∷ b ∷ a ∷ [])
merge_replacements-diff_example = merge_replacements-diff text_eq (a ∷ b ∷ []) (c ∷ b ∷ a ∷ [])

merge_text3_sym_example :
    merge_text3 (a ++ b) (97 ∷ b) (a ++ 97 ∷ b) ≡ merge_text3 (a ++ b) (a ++ 97 ∷ b) (97 ∷ b)
merge_text3_sym_example = merge_text3_sym (a ++ b) (97 ∷ b) (a ++ 97 ∷ b)

create_lcs_table_longest_example :
    ((k : List Text) × (Common k (a ∷ b ∷ c ∷ []) (b ∷ c ∷ [])
        × (length k
            ≡ cell text_eq (create_lcs_table text_eq (a ∷ b ∷ c ∷ []) (c ∷ b ∷ c ∷ [])) 0 1)))
    × (1 ≤ cell text_eq (create_lcs_table text_eq (a ∷ b ∷ c ∷ []) (c ∷ b ∷ c ∷ [])) 0 1)
create_lcs_table_longest_example =
    create_lcs_table_longest text_eq (a ∷ b ∷ c ∷ []) (c ∷ b ∷ c ∷ []) 0 1 (c ∷ [])
      (skip_left (skip_left (skip_right (keep done))))

-- Edits of two different lines are both in the result, and two edits of one line are a conflict.
clean_merge :
    merge_text3 (a ++ b ++ c) (99 ∷ a ++ b ++ c) (a ++ b ++ 99 ∷ c) ≡ clean (99 ∷ a ++ b ++ 99 ∷ c)
unfolding merge_text3 ℕ_discrete
clean_merge = refl

no_merge : merge_text3 a b c ≡ conflict
unfolding merge_text3 ℕ_discrete
no_merge = refl
