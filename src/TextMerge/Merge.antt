-- ===== src/TextMerge/Merge.antt =====
-- mergeReplacements and mergeText3 of text-merge.ts.
use mathlib.Core.Logic.{ite}
use syncali.Prelude.{
  ℕ, ◌+◌, ◌*◌, ◌-◌, Bool, true, false, not, ◌&&◌, ◌||◌, Option, none, some, List, [], ◌∷◌, ◌++◌,
  ltb, leb, ◌==◌, take, drop, length, if◌then◌else◌, ℕ_discrete,
}
use syncali.TextMerge.Lines.{Text, split_lines, join}
use syncali.TextMerge.Diff.{Replacement, equal, diff_replacements}

module _ {ℓ} {A : Type ℓ} where
  abbrev pub same_range : Replacement A → Replacement A → Bool
  same_range l r = l.start == r.start && l.end == r.end

  abbrev pub ranges_overlap : Replacement A → Replacement A → Bool
  ranges_overlap l r = ltb l.start r.end && ltb r.start l.end

  -- base[i], …, base[target - 1]
  abbrev pub copy_unchanged : List A → ℕ → ℕ → List A
  copy_unchanged base i target = take (target - i) (drop i base)

  -- What applying a replacement at base index i puts out.
  abbrev pub apply_replacement : List A → ℕ → Replacement A → List A
  apply_replacement base i r = copy_unchanged base i r.start ++ r.lines

  -- Lines put out before those of the rest.
  abbrev pub put : List A → Option (List A) → Option (List A)
  put out none = none
  put out (some rest) = some (out ++ rest)

module _ {ℓ} {A : Type ℓ} (dec : Discrete A) where
  -- Equal in length, and line by line.
  unfoldable pub same_lines : List A → List A → Bool
  same_lines [] [] = true
  same_lines [] (b ∷ bs) = false
  same_lines (a ∷ as') [] = false
  same_lines (a ∷ as') (b ∷ bs) = equal dec a b && same_lines as' bs

  abbrev pub conflicts_at_same_insertion_point : Replacement A → Replacement A → Bool
  conflicts_at_same_insertion_point l r =
      l.start == l.end
      && (r.start == r.end && (l.start == r.start && not (same_lines l.lines r.lines)))

  -- What is put out from base index i on; `none` is a conflict.
  unfoldable pub merge_from :
      List A → ℕ → List (Replacement A) → List (Replacement A) → Option (List A)
  unfolding same_lines
  merge_from base i [] [] = some (copy_unchanged base i (length base))
  merge_from base i (l ∷ ls) [] = put (apply_replacement base i l) (merge_from base l.end ls [])
  merge_from base i [] (r ∷ rs) = put (apply_replacement base i r) (merge_from base r.end [] rs)
  merge_from base i (l ∷ ls) (r ∷ rs) =
      let both = put (apply_replacement base i l) (merge_from base l.end ls rs) in
      let left = put (apply_replacement base i l) (merge_from base l.end ls (r ∷ rs)) in
      let right = put (apply_replacement base i r) (merge_from base r.end (l ∷ ls) rs) in
      if same_range l r
      then (if same_lines l.lines r.lines then both else none)
      else (if conflicts_at_same_insertion_point l r || ranges_overlap l r
          then none
          else (if leb l.end r.start then left else (if leb r.end l.start then right else none)))

  unfoldable pub merge_replacements :
      List A → List (Replacement A) → List (Replacement A) → Option (List A)
  unfolding merge_from
  merge_replacements base local remote = merge_from base 0 local remote

-- Structural equality of texts.
unfoldable pub text_eq : Discrete Text
text_eq = hlevel ℕ_discrete

pub data TextMergeResult : Type 0 where
  clean : Text → TextMergeResult
  conflict : TextMergeResult

max_lcs_cells : ℕ
max_lcs_cells = 2_000_000

unfoldable pub exceeds_lcs_budget : List Text → List Text → Bool
unfolding max_lcs_cells
exceeds_lcs_budget left right = ltb max_lcs_cells ((length left + 1) * (length right + 1))

abbrev pub merged : Option (List Text) → TextMergeResult
merged none = conflict
merged (some ls) = clean (join ls)

unfoldable pub merge_text3 : Text → Text → Text → TextMergeResult
unfolding split_lines diff_replacements merge_replacements exceeds_lcs_budget join text_eq
merge_text3 base local remote =
    let base_lines = split_lines base in
    let local_lines = split_lines local in
    let remote_lines = split_lines remote in
    ite (text_eq local remote) (clean local) (
      ite (text_eq base local) (clean remote) (
        ite (text_eq base remote) (clean local) (
          if exceeds_lcs_budget base_lines local_lines || exceeds_lcs_budget base_lines remote_lines
          then conflict
          else merged (
              merge_replacements text_eq base_lines
                (diff_replacements text_eq base_lines local_lines)
                (diff_replacements text_eq base_lines remote_lines)))))
