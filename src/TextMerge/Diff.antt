-- ===== src/TextMerge/Diff.antt =====
-- createLcsTable and diffReplacements of text-merge.ts, for lines of any type with a decided equality.
use mathlib.Core.Logic.{ite}
use syncali.Prelude.{
  ℕ, ◌+◌, max, Bool, true, false, Option, none, some, List, [], ◌∷◌, ◌++◌, leb, get_or, drop,
  replicate, length, if◌then◌else◌,
}

pub record Replacement {ℓ} (A : Type ℓ) : Type ℓ where
  pub start : ℕ
  pub end : ℕ
  pub lines : List A

module _ {ℓ} {A : Type ℓ} (dec : Discrete A) where
  abbrev pub equal : A → A → Bool
  equal a b = ite (dec a b) true false

  -- A row of the table, from the row below it: cell j is for the rest of `right` from j on.
  unfoldable pub lcs_row : A → List A → List ℕ → List ℕ
  lcs_row a [] below = 0 ∷ []
  lcs_row a (b ∷ right) below =
      let row = lcs_row a right (drop 1 below) in
      (if equal a b then get_or below 1 0 + 1 else max (get_or below 0 0) (get_or row 0 0)) ∷ row

  -- Row i is for the rest of `left` from i on.
  unfoldable pub create_lcs_table : List A → List A → List (List ℕ)
  unfolding lcs_row
  create_lcs_table [] right = replicate (length right + 1) 0 ∷ []
  create_lcs_table (a ∷ left) right =
      let table = create_lcs_table left right in lcs_row a right (get_or table 0 []) ∷ table

  abbrev pub cell : List (List ℕ) → ℕ → ℕ → ℕ
  cell table i j = get_or (get_or table i []) j 0

-- The replacement that the loop is at, `ensureCurrent` and `flush`.
module _ {ℓ} {A : Type ℓ} where
  abbrev pub ensure_current : ℕ → Option (Replacement A) → Replacement A
  ensure_current i none = record { start = i; end = i; lines = [] }
  ensure_current i (some r) = r

  abbrev pub flush : Option (Replacement A) → List (Replacement A) → List (Replacement A)
  flush none rest = rest
  flush (some r) rest = r ∷ rest

  -- The line at `i` of the base is deleted.
  abbrev pub delete_line : ℕ → Option (Replacement A) → Option (Replacement A)
  delete_line i current = let r = ensure_current i current in some (record r { end = i + 1 })

  abbrev pub insert_line : ℕ → A → Option (Replacement A) → Option (Replacement A)
  insert_line i a current =
      let r = ensure_current i current in some (record r { lines = r.lines ++ a ∷ [] })

module _ {ℓ} {A : Type ℓ} (dec : Discrete A) (table : List (List ℕ)) where
  -- The three loops, at base index i and variant index j, over what is left of base and variant.
  unfoldable pub diff_walk : ℕ → ℕ → Option (Replacement A) → List A → List A → List (Replacement A)
  diff_walk i j current [] [] = flush current []
  diff_walk i j current (a ∷ base) [] = diff_walk (i + 1) j (delete_line i current) base []
  diff_walk i j current [] (b ∷ variant) = diff_walk i (j + 1) (insert_line i b current) [] variant
  diff_walk i j current (a ∷ base) (b ∷ variant) =
      let same_line = flush current (diff_walk (i + 1) (j + 1) none base variant) in
      let deleted = diff_walk (i + 1) j (delete_line i current) base (b ∷ variant) in
      let inserted = diff_walk i (j + 1) (insert_line i b current) (a ∷ base) variant in
      if equal dec a b
      then same_line
      else (if leb (cell dec table i (j + 1)) (cell dec table (i + 1) j) then deleted else inserted)

module _ {ℓ} {A : Type ℓ} (dec : Discrete A) where
  unfoldable pub diff_replacements : List A → List A → List (Replacement A)
  unfolding diff_walk create_lcs_table
  diff_replacements base variant =
      diff_walk dec (create_lcs_table dec base variant) 0 0 none base variant
