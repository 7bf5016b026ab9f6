-- ===== src/TextMerge/Symmetry.antt =====
-- mergeText3 of text-merge.ts does not tell the local side from the remote one.
use mathlib.Core.Logic.{ite}
use syncali.Prelude.{
  ℕ, ◌+◌, ◌≤◌, ◌≡◌, ◌∙◌, refl, sym, ap, ap₂, Bool, true, false, ◌||◌, Option, none, some, List, [],
  ◌∷◌, ◌++◌, arith, All, leb, if◌then◌else◌, Bool-cases, inl, inr,
}
use syncali.TextMerge.Lines.{Text, split_lines}
use syncali.TextMerge.Diff.{
  Replacement, equal, cell, flush, delete_line, insert_line, diff_walk, diff_replacements,
  create_lcs_table,
}
use syncali.TextMerge.Merge.{
  merge_from, put, copy_unchanged, apply_replacement, merge_replacements, same_lines, same_range,
  ranges_overlap, conflicts_at_same_insertion_point, merge_text3, text_eq, TextMergeResult, clean,
  conflict, exceeds_lcs_budget, merged,
}

abbrev IsRange {ℓ} : {A : Type ℓ} → Replacement A → Type 0
IsRange r = r.start ≤ r.end

-- The current replacement at base index i.
abbrev IsOpen {ℓ} : {A : Type ℓ} → ℕ → Option (Replacement A) → Type 0
IsOpen i none = Unit
IsOpen i (some r) = (r.start ≤ r.end) × (r.start ≤ i)

module _ {A : Type 0} (dec : Discrete A) where
  same_lines_eq : (a b : List A) → same_lines dec a b ≡ true → a ≡ b
  unfolding same_lines
  same_lines_eq [] [] h = refl
  same_lines_eq [] (y ∷ b) h = ground arith
  same_lines_eq (x ∷ a) [] h = ground arith
  same_lines_eq (x ∷ a) (y ∷ b) h = ground (arith, same_lines_eq a b)

  same_lines_refl : (a : List A) → same_lines dec a a ≡ true
  unfolding same_lines
  same_lines_refl [] = refl
  same_lines_refl (x ∷ a) = ground (arith, same_lines_refl a)

  same_lines_sym : (a b : List A) → same_lines dec a b ≡ same_lines dec b a
  unfolding same_lines
  same_lines_sym [] [] = refl
  same_lines_sym [] (y ∷ b) = refl
  same_lines_sym (x ∷ a) [] = refl
  same_lines_sym (x ∷ a) (y ∷ b) = ground (arith, same_lines_sym a b)

  IsOpen-delete :
      (i : ℕ) (current : Option (Replacement A))
      → IsOpen i current
      → IsOpen (i + 1) (delete_line i current)
  IsOpen-delete i none h = (omega arith, omega arith)
  IsOpen-delete i (some r) h = (omega (arith, h.1), omega (arith, h.1))

  IsOpen-insert :
      (i : ℕ) (b : A) (current : Option (Replacement A))
      → IsOpen i current
      → IsOpen i (insert_line i b current)
  IsOpen-insert i b none h = (omega arith, omega arith)
  IsOpen-insert i b (some r) h = h

  flush-IsRange :
      (i : ℕ) (current : Option (Replacement A)) (rest : List (Replacement A))
      → IsOpen i current
      → All IsRange rest
      → All IsRange (flush current rest)
  flush-IsRange i none rest h k = k
  flush-IsRange i (some r) rest h k = (h.0, k)

  module _ (table : List (List ℕ)) where
    diff_walk-IsRange :
        (rest v : List A) (i j : ℕ) (current : Option (Replacement A))
        → IsOpen i current
        → All IsRange (diff_walk dec table i j current rest v)
    unfolding diff_walk
    diff_walk-IsRange [] [] i j none h = tt
    diff_walk-IsRange [] [] i j (some r) h = (h.0, tt)
    diff_walk-IsRange (a ∷ rest) [] i j current h =
        diff_walk-IsRange rest [] (i + 1) j (delete_line i current) (IsOpen-delete i current h)
    diff_walk-IsRange [] (b ∷ v) i j current h =
        diff_walk-IsRange [] v i (j + 1) (insert_line i b current) (IsOpen-insert i b current h)
    diff_walk-IsRange (a ∷ rest) (b ∷ v) i j current h = elim (Bool-cases (equal dec a b)) [
      | inl e ↦
          rw e (flush-IsRange i current _ h (diff_walk-IsRange rest v (i + 1) (j + 1) none tt))
      | inr e ↦
          rw e (elim (Bool-cases (leb (cell dec table i (j + 1)) (cell dec table (i + 1) j))) [
            | inl f ↦ rw f (
                diff_walk-IsRange rest (b ∷ v) (i + 1) j (delete_line i current)
                  (IsOpen-delete i current h))
            | inr f ↦ rw f (
                diff_walk-IsRange (a ∷ rest) v i (j + 1) (insert_line i b current)
                  (IsOpen-insert i b current h))
          ])
    ]

  same_range_sym : (l r : Replacement A) → same_range l r ≡ same_range r l
  same_range_sym l r = ground arith

  same_range_eq :
      (l r : Replacement A) → same_range l r ≡ true → (l.start ≡ r.start) × (l.end ≡ r.end)
  same_range_eq l r h = ground arith

  -- The two tests that end the merge.
  abbrev clashes : Replacement A → Replacement A → Bool
  clashes l r = conflicts_at_same_insertion_point dec l r || ranges_overlap l r

  overlap_sym : (l r : Replacement A) → ranges_overlap l r ≡ ranges_overlap r l
  overlap_sym l r = ground arith

  insertion_sym :
      (l r : Replacement A)
      → conflicts_at_same_insertion_point dec l r ≡ conflicts_at_same_insertion_point dec r l
  insertion_sym l r = ground (arith, same_lines_sym l.lines r.lines)

  -- At most one of two different ranges stands before the other.
  one_before :
      (l r : Replacement A)
      → IsRange l
      → IsRange r
      → same_range l r ≡ false
      → leb l.end r.start ≡ true
      → leb r.end l.start ≡ false
  one_before l r h k = ground arith

  abbrev by_order :
      Replacement A → Replacement A → Option (List A) → Option (List A) → Option (List A)
  by_order l r left right =
      if leb l.end r.start then left else (if leb r.end l.start then right else none)

  by_order_sym :
      (l r : Replacement A) (left right : Option (List A))
      → IsRange l
      → IsRange r
      → same_range l r ≡ false
      → by_order l r left right ≡ by_order r l right left
  by_order_sym l r left right h k e = elim (Bool-cases (leb l.end r.start)) [
    | inl f ↦ rw (f, one_before l r h k e f) refl
    | inr f ↦ rw f refl
  ]

  abbrev apart : Replacement A → Replacement A → Option (List A) → Option (List A) → Option (List A)
  apart l r left right = if clashes l r then none else by_order l r left right

  apart_sym :
      (l r : Replacement A) (left right : Option (List A))
      → IsRange l
      → IsRange r
      → same_range l r ≡ false
      → apart l r left right ≡ apart r l right left
  apart_sym l r left right h k e =
      rw (insertion_sym l r, overlap_sym l r)
        (ap (λ x. if clashes r l then none else x) (by_order_sym l r left right h k e))

  together :
      (base : List A) (i : ℕ) (l r : Replacement A) (rest rest' : Option (List A))
      → same_range l r ≡ true
      → (l.end ≡ r.end → rest ≡ rest')
      → (if same_lines dec l.lines r.lines then put (apply_replacement base i l) rest else none)
        ≡ (if same_lines dec r.lines l.lines then put (apply_replacement base i r) rest' else none)
  together base i l r rest rest' e h = elim (Bool-cases (same_lines dec l.lines r.lines)) [
    | inl f ↦
        rw (f, sym (same_lines_sym l.lines r.lines) ∙ f)
          (ap₂ put
            (ap₂ (λ n x. copy_unchanged base i n ++ x) (same_range_eq l r e).0
              (same_lines_eq l.lines r.lines f))
            (h (same_range_eq l r e).1))
    | inr f ↦ rw (f, sym (same_lines_sym l.lines r.lines) ∙ f) refl
  ]

  merge_from_sym :
      (base : List A) (i : ℕ) (ls rs : List (Replacement A))
      → All IsRange ls
      → All IsRange rs
      → merge_from dec base i ls rs ≡ merge_from dec base i rs ls
  unfolding merge_from
  merge_from_sym base i [] [] h k = refl
  merge_from_sym base i (l ∷ ls) [] h k =
      ap (put (apply_replacement base i l)) (merge_from_sym base l.end ls [] h.1 k)
  merge_from_sym base i [] (r ∷ rs) h k =
      ap (put (apply_replacement base i r)) (merge_from_sym base r.end [] rs h k.1)
  merge_from_sym base i (l ∷ ls) (r ∷ rs) h k = elim (Bool-cases (same_range l r)) [
    | inl e ↦
        rw (e, sym (same_range_sym l r) ∙ e)
          (together base i l r (merge_from dec base l.end ls rs) (merge_from dec base r.end rs ls) e
            λ f. merge_from_sym base l.end ls rs h.1 k.1 ∙ ap (λ n. merge_from dec base n rs ls) f)
    | inr e ↦
        rw (e, sym (same_range_sym l r) ∙ e)
          (apart_sym l r _ _ h.0 k.0 e
            ∙ ap₂ (apart r l)
                (ap (put (apply_replacement base i r))
                  (merge_from_sym base r.end (l ∷ ls) rs h k.1))
                (ap (put (apply_replacement base i l))
                  (merge_from_sym base l.end ls (r ∷ rs) h.1 k)))
  ]

  merge_replacements_sym :
      (base local remote : List A)
      → merge_replacements dec base
          (diff_replacements dec base local)
          (diff_replacements dec base remote)
        ≡ merge_replacements dec base
            (diff_replacements dec base remote)
            (diff_replacements dec base local)
  unfolding merge_replacements diff_replacements
  merge_replacements_sym base local remote =
      merge_from_sym base 0 (diff_replacements dec base local) (diff_replacements dec base remote)
        (diff_walk-IsRange (create_lcs_table dec base local) base local 0 0 none tt)
        (diff_walk-IsRange (create_lcs_table dec base remote) base remote 0 0 none tt)

-- The tests on equal texts, before the merge of the lines.
equal_texts_sym :
    {B : Type 0} {R : Type 0} (dec : Discrete B) (base local remote : B) (f : B → R) (x y : R)
    → x ≡ y
    → ite
        (dec local remote)
        (f local)
        (ite (dec base local) (f remote) (ite (dec base remote) (f local) x))
      ≡ ite
          (dec remote local)
          (f remote)
          (ite (dec base remote) (f local) (ite (dec base local) (f remote) y))
equal_texts_sym dec base local remote f x y h = ground arith

-- The budget, and the merge of the lines.
within_budget_sym :
    (over_local over_remote : Bool) (x y : TextMergeResult)
    → x ≡ y
    → (if over_local || over_remote then conflict else x)
      ≡ (if over_remote || over_local then conflict else y)
within_budget_sym over_local over_remote x y h = ground arith

-- Swapping the two sides of a merge does not change its result.
pub merge_text3_sym :
    (base local remote : Text) → merge_text3 base local remote ≡ merge_text3 base remote local
unfolding merge_text3
merge_text3_sym base local remote =
    let b = split_lines base in
    let l = split_lines local in
    let r = split_lines remote in
    equal_texts_sym text_eq base local remote clean _ _ (
      within_budget_sym (exceeds_lcs_budget b l) (exceeds_lcs_budget b r) _ _
        (ap merged (merge_replacements_sym text_eq b l r)))
