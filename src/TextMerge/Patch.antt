-- ===== src/TextMerge/Patch.antt =====
-- The replacements between a base and a variant turn the base into the variant.
use mathlib.Core.List.{append-nil, append_assoc}
use syncali.Prelude.{
  ℕ, ◌+◌, ◌-◌, ◌≡◌, ◌∙◌, refl, sym, ap, subst, true, Option, none, some, List, [], ◌∷◌, ◌++◌, arith,
  take, drop, length, length-append, leb, Bool-cases, inl, inr,
}
use syncali.TextMerge.Diff.{
  Replacement, equal, cell, flush, delete_line, insert_line, diff_walk, diff_replacements,
  create_lcs_table,
}
use syncali.TextMerge.Merge.{merge_from, copy_unchanged, merge_replacements}

module _ {ℓ} {A : Type ℓ} where
  drop-append : (p q : List A) → drop (length p) (p ++ q) ≡ q
  drop-append [] q = refl
  drop-append (x ∷ p) q = drop-append p q

  take-append : (p q : List A) → take (length p) (p ++ q) ≡ p
  take-append [] q = refl
  take-append (x ∷ p) q = ap (λ l. x ∷ l) (take-append p q)

  copy_lem :
      (base p q s : List A) (i target : ℕ)
      → base ≡ p ++ (q ++ s)
      → i ≡ length p
      → target ≡ length p + length q
      → take (target - i) (drop i base) ≡ q
  copy_lem base p q s i target e f g =
      rw (e, f, g)
        (rw (drop-append p (q ++ s))
          (subst (λ n. take n (q ++ s) ≡ q) (omega arith) (take-append q s)))

  -- The lines that the current replacement holds.
  abbrev held : Option (Replacement A) → List A
  held none = []
  held (some r) = r.lines

  -- The current replacement stands behind `kept` lines at `start`, deletes `d`, and ends at `i`.
  abbrev Fits : ℕ → List A → ℕ → Option (Replacement A) → Type ℓ
  Fits start d i none = d ≡ []
  Fits start d i (some r) = ((r.start ≡ start) × (r.end ≡ i)) × Unit {ℓ}

  pub length_base :
      (base p q d rest : List A)
      → base ≡ p ++ (q ++ (d ++ rest))
      → length base ≡ length p + (length q + (length d + length rest))
  length_base base p q d rest e =
      ap length e
      ∙ length-append p (q ++ (d ++ rest))
      ∙ omega (arith, length-append q (d ++ rest), length-append d rest)

  held-delete :
      (i : ℕ) (current : Option (Replacement A)) → held (delete_line i current) ≡ held current
  held-delete i none = refl
  held-delete i (some r) = refl

  held-insert :
      (i : ℕ) (b : A) (current : Option (Replacement A)) (v : List A)
      → held (insert_line i b current) ++ v ≡ held current ++ b ∷ v
  held-insert i b none v = refl
  held-insert i b (some r) v = append_assoc r.lines (b ∷ []) v

  Fits-delete :
      (start i : ℕ) (d : List A) (a : A) (current : Option (Replacement A))
      → i ≡ start + length d
      → Fits start d i current
      → Fits start (d ++ a ∷ []) (i + 1) (delete_line i current)
  Fits-delete start i d a none e f = ((e ∙ ap (λ x. start + length x) f ∙ omega arith, refl), tt)
  Fits-delete start i d a (some r) e f = ((f.0.0, refl), tt)

  Fits-insert :
      (start i : ℕ) (d : List A) (b : A) (current : Option (Replacement A))
      → i ≡ start + length d
      → Fits start d i current
      → Fits start d i (insert_line i b current)
  Fits-insert start i d b none e f = ((e ∙ ap (λ x. start + length x) f ∙ omega arith, refl), tt)
  Fits-insert start i d b (some r) e f = f

pub equal_eq {ℓ} : {A : Type ℓ} (dec : Discrete A) (a b : A) → equal dec a b ≡ true → a ≡ b
equal_eq dec a b h = ground arith

module _ {ℓ} {A : Type ℓ} (dec : Discrete A) (base : List A) where
  end-merge : (i : ℕ) → i ≡ length base → merge_from dec base i [] [] ≡ some []
  unfolding merge_from
  end-merge i e =
      ap some (copy_lem base base [] [] i (length base) (sym (append-nil base)) e (omega arith))

  -- The flushed replacement, merged before changes that start behind it.
  flush-merge :
      (p q d rest : List A) (i : ℕ) (current : Option (Replacement A))
      (changes : List (Replacement A)) (out : List A)
      → base ≡ p ++ (q ++ (d ++ rest))
      → Fits (length p + length q) d i current
      → merge_from dec base i changes [] ≡ some out
      → (d ≡ [] → merge_from dec base (length p) changes [] ≡ some (q ++ out))
      → merge_from dec base (length p) (flush current changes) []
        ≡ some (q ++ (held current ++ out))
  unfolding merge_from
  flush-merge p q d rest i none changes out e f behind here = here f
  flush-merge p q d rest i (some r) changes out e f behind here =
      let copied : copy_unchanged base (length p) r.start ≡ q =
        copy_lem base p q (d ++ rest) (length p) r.start e refl f.0.0 in
      let next : merge_from dec base r.end changes [] ≡ some out = rw f.0.1 behind in
      rw (next, copied) (ap some (append_assoc q r.lines out))

  module _ (table : List (List ℕ)) where
    walk-merge :
        (p q d rest v : List A) (i j : ℕ) (current : Option (Replacement A))
        → base ≡ p ++ (q ++ (d ++ rest))
        → i ≡ (length p + length q) + length d
        → Fits (length p + length q) d i current
        → merge_from dec base (length p) (diff_walk dec table i j current rest v) []
          ≡ some (q ++ (held current ++ v))
    unfolding diff_walk
    walk-merge p q d [] [] i j current e f g =
        flush-merge p q d [] i current [] [] e g
          (end-merge i (f ∙ omega (arith, length_base base p q d [] e)))
          λ none_deleted.
            unfold merge_from in
            ap some (
              copy_lem base p q [] (length p) (length base)
                (e ∙ ap (λ x. p ++ (q ++ (x ++ []))) none_deleted) refl
                (omega (arith, length_base base p q d [] e, ap length none_deleted))
              ∙ sym (append-nil q))
    walk-merge p q d (a ∷ rest) [] i j current e f g =
        walk-merge p q (d ++ a ∷ []) rest [] (i + 1) j (delete_line i current)
          (e ∙ ap (λ x. p ++ (q ++ x)) (sym (append_assoc d (a ∷ []) rest)))
          (omega (arith, length-append d (a ∷ [])))
          (Fits-delete (length p + length q) i d a current f g)
        ∙ ap (λ x. some (q ++ (x ++ []))) (held-delete i current)
    walk-merge p q d [] (b ∷ v) i j current e f g =
        walk-merge p q d [] v i (j + 1) (insert_line i b current) e f
          (Fits-insert (length p + length q) i d b current f g)
        ∙ ap (λ x. some (q ++ x)) (held-insert i b current v)
    walk-merge p q d (a ∷ rest) (b ∷ v) i j current e f g = elim (Bool-cases (equal dec a b)) [
      | inl same_line ↦ rw same_line (
          flush-merge p q d (a ∷ rest) i current (diff_walk dec table (i + 1) (j + 1) none rest v)
            (b ∷ v) e g
            (subst
              (λ n.
                merge_from dec base n (diff_walk dec table (i + 1) (j + 1) none rest v) []
                ≡ some (b ∷ v))
              (length-append p (q ++ d) ∙ omega (arith, length-append q d))
              (walk-merge (p ++ (q ++ d)) (a ∷ []) [] rest v (i + 1) (j + 1) none
                  (e ∙ simp append_assoc)
                  (omega (arith, length-append p (q ++ d), length-append q d)) refl
                ∙ ap (λ x. some (x ∷ v)) (equal_eq dec a b same_line)))
            (λ none_deleted.
              walk-merge p (q ++ a ∷ []) [] rest v (i + 1) (j + 1) none
                (e
                  ∙ ap (λ x. p ++ (q ++ (x ++ a ∷ rest))) none_deleted
                  ∙ ap (λ x. p ++ x) (sym (append_assoc q (a ∷ []) rest)))
                (omega (arith, length-append q (a ∷ []), ap length none_deleted)) refl
              ∙ ap some
                  (append_assoc q (a ∷ []) v ∙ ap (λ x. q ++ x ∷ v) (equal_eq dec a b same_line))))
      | inr differ ↦
          rw differ (elim (Bool-cases (leb (cell dec table i (j + 1)) (cell dec table (i + 1) j))) [
            | inl x ↦ rw x (
                walk-merge p q (d ++ a ∷ []) rest (b ∷ v) (i + 1) j (delete_line i current)
                  (e ∙ ap (λ x. p ++ (q ++ x)) (sym (append_assoc d (a ∷ []) rest)))
                  (omega (arith, length-append d (a ∷ [])))
                  (Fits-delete (length p + length q) i d a current f g)
                ∙ ap (λ x. some (q ++ (x ++ b ∷ v))) (held-delete i current))
            | inr x ↦ rw x (
                walk-merge p q d (a ∷ rest) v i (j + 1) (insert_line i b current) e f
                  (Fits-insert (length p + length q) i d b current f g)
                ∙ ap (λ x. some (q ++ x)) (held-insert i b current v))
          ])
    ]

-- The replacements found between a base and a variant, merged with no other change, give the
-- variant, whatever the two are.
pub merge_replacements-diff {ℓ} :
    {A : Type ℓ} (dec : Discrete A) (base variant : List A)
    → merge_replacements dec base (diff_replacements dec base variant) [] ≡ some variant
unfolding merge_replacements diff_replacements
merge_replacements-diff dec base variant =
    walk-merge dec base (create_lcs_table dec base variant) [] [] [] base variant 0 0 none refl
      (omega arith) refl
