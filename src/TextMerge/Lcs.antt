-- ===== src/TextMerge/Lcs.antt =====
-- createLcsTable of text-merge.ts against what its cells stand for: longest common subsequences.
use syncali.Prelude.{
  ℕ, zero, suc, ◌+◌, ◌≤◌, ◌≡◌, ◌⊎◌, subst, ◌∙◌, refl, ap, ap₂, max, true, List, [], ◌∷◌, arith,
  drop, length, get_or, replicate, leb, if◌then◌else◌, Bool-cases, inl, inr,
}
use syncali.TextMerge.Patch.{equal_eq}
use syncali.TextMerge.Diff.{equal, cell, lcs_row, create_lcs_table}

-- `Common c a b`: c is a subsequence of both a and b.
pub data Common {ℓ} {A : Type ℓ} : List A → List A → List A → Type ℓ where
  done : {a b : List A} → Common [] a b
  keep : {x : A} {c a b : List A} → Common c a b → Common (x ∷ c) (x ∷ a) (x ∷ b)
  skip_left : {x : A} {c a b : List A} → Common c a b → Common c (x ∷ a) b
  skip_right : {x : A} {c a b : List A} → Common c a b → Common c a (x ∷ b)

module _ {A : Type 0} (dec : Discrete A) where
  -- The recursion behind the table.
  unfoldable pub lcs : List A → List A → ℕ
  lcs [] right = 0
  lcs (a ∷ left) [] = 0
  lcs (a ∷ left) (b ∷ right) =
      let both = lcs left right in
      let below = lcs left (b ∷ right) in
      let beside = lcs (a ∷ left) right in if equal dec a b then both + 1 else max below beside

  get_or-drop : (n : ℕ) (xs : List ℕ) → get_or (drop 1 xs) n 0 ≡ get_or xs (suc n) 0
  get_or-drop n [] = refl
  get_or-drop n (x ∷ xs) = refl

  get_or-replicate : (n j : ℕ) → get_or {A = ℕ} (replicate n 0) j 0 ≡ zero
  get_or-replicate zero j = refl
  get_or-replicate (suc n) zero = refl
  get_or-replicate (suc n) (suc j) = get_or-replicate n j

  lcs_row_lem :
      (a : A) (left right : List A) (below : List ℕ) (j : ℕ)
      → ((k : ℕ) → get_or below k 0 ≡ lcs left (drop k right))
      → get_or (lcs_row dec a right below) j 0 ≡ lcs (a ∷ left) (drop j right)
  unfolding lcs_row lcs
  lcs_row_lem a left [] below zero h = refl
  lcs_row_lem a left [] below (suc j) h = refl
  lcs_row_lem a left (b ∷ right) below zero h =
      ap₂ (λ x y. if equal dec a b then x else y) (ap (λ n. n + 1) (h 1))
        (ap₂ max (h 0)
          (lcs_row_lem a left right (drop 1 below) 0 λ k. get_or-drop k below ∙ h (suc k)))
  lcs_row_lem a left (b ∷ right) below (suc j) h =
      lcs_row_lem a left right (drop 1 below) j λ k. get_or-drop k below ∙ h (suc k)

  cell_lem :
      (left right : List A) (i j : ℕ)
      → cell dec (create_lcs_table dec left right) i j ≡ lcs (drop i left) (drop j right)
  unfolding create_lcs_table lcs
  cell_lem [] right zero j = get_or-replicate (length right + 1) j
  cell_lem [] right (suc i) j = refl
  cell_lem (a ∷ left) right zero j =
      lcs_row_lem a left right (get_or (create_lcs_table dec left right) 0 []) j
        (cell_lem left right 0)
  cell_lem (a ∷ left) right (suc i) j = cell_lem left right i j

  -- One more line on the left adds none or one.
  abbrev Grows : List A → List A → Type 0
  Grows left right =
      ((a : A)
        → (lcs left right ≤ lcs (a ∷ left) right) × (lcs (a ∷ left) right ≤ lcs left right + 1))
      × ((b : A)
          → (lcs left right ≤ lcs left (b ∷ right)) × (lcs left (b ∷ right) ≤ lcs left right + 1))

  Grows-left :
      (a y : A) (left right : List A)
      → Grows left right
      → (lcs left (y ∷ right) ≤ lcs (a ∷ left) (y ∷ right))
        × (lcs (a ∷ left) (y ∷ right) ≤ lcs left (y ∷ right) + 1)
  unfolding lcs
  Grows-left a y left right h = ground (arith, h.0 a, h.1 y)

  Grows-right :
      (x b : A) (left right : List A)
      → Grows left right
      → (lcs (x ∷ left) right ≤ lcs (x ∷ left) (b ∷ right))
        × (lcs (x ∷ left) (b ∷ right) ≤ lcs (x ∷ left) right + 1)
  unfolding lcs
  Grows-right x b left right h = ground (arith, h.0 x, h.1 b)

  lcs-Grows : (left right : List A) → Grows left right
  unfolding lcs
  lcs-Grows [] [] = (λ a. (omega arith, omega arith), λ b. (omega arith, omega arith))
  lcs-Grows [] (y ∷ right) =
      (λ a. Grows-left a y [] right (lcs-Grows [] right), λ b. (omega arith, omega arith))
  lcs-Grows (x ∷ left) [] =
      (λ a. (omega arith, omega arith), λ b. Grows-right x b left [] (lcs-Grows left []))
  lcs-Grows (x ∷ left) (y ∷ right) = (
    λ a. Grows-left a y (x ∷ left) right (lcs-Grows (x ∷ left) right),
    λ b. Grows-right x b left (y ∷ right) (lcs-Grows left (y ∷ right)),
  )

  equal_refl : (x : A) → equal dec x x ≡ true
  equal_refl x = ground arith

  Common-bound : (c left right : List A) → Common c left right → length c ≤ lcs left right
  unfolding lcs
  Common-bound c left right done = omega arith
  Common-bound c left right (keep {x} {c = d} {a} {b} h) =
      rw (equal_refl x) (omega (arith, Common-bound d a b h))
  Common-bound c left right (skip_left {x} {a} {b} h) =
      omega (arith, Common-bound c a b h, ((lcs-Grows a b).0 x).0)
  Common-bound c left right (skip_right {x} {a} {b} h) =
      omega (arith, Common-bound c a b h, ((lcs-Grows a b).1 x).0)

  max_cases : (m n : ℕ) → (max m n ≡ m) ⊎ (max m n ≡ n)
  max_cases m n = elim (Bool-cases (leb m n)) [
    | inl h ↦ inr (ground arith)
    | inr h ↦ inl (ground arith)
  ]

  lcs-Common :
      (left right : List A) → (c : List A) × (Common c left right × (length c ≡ lcs left right))
  unfolding lcs
  lcs-Common [] right = ([], (done, refl))
  lcs-Common (a ∷ left) [] = ([], (done, refl))
  lcs-Common (a ∷ left) (b ∷ right) = elim (Bool-cases (equal dec a b)) [
    | inl h ↦ rw h (
        let rest = lcs-Common left right in
        (
          a ∷ rest.0,
          (
            subst (λ x. Common (a ∷ rest.0) (a ∷ left) (x ∷ right)) (equal_eq dec a b h)
                (keep rest.1.0),
            omega (arith, rest.1.1),
          ),
        ))
    | inr h ↦ rw h (elim (max_cases (lcs left (b ∷ right)) (lcs (a ∷ left) right)) [
      | inl e ↦
          rw e (let rest = lcs-Common left (b ∷ right) in (rest.0, (skip_left rest.1.0, rest.1.1)))
      | inr e ↦
          rw e (let rest = lcs-Common (a ∷ left) right in (rest.0, (skip_right rest.1.0, rest.1.1)))
    ])
  ]

-- Cell (i, j) of the table is the length of a longest common subsequence of what is left of the
-- two texts from i and from j on: one has that length, and none is longer.
pub create_lcs_table_longest :
    {A : Type 0} (dec : Discrete A) (left right : List A) (i j : ℕ) (c : List A)
    → Common c (drop i left) (drop j right)
    → ((longest : List A) × (Common longest (drop i left) (drop j right)
          × (length longest ≡ cell dec (create_lcs_table dec left right) i j)))
      × (length c ≤ cell dec (create_lcs_table dec left right) i j)
create_lcs_table_longest dec left right i j c h =
    rw (cell_lem dec left right i j) (
      lcs-Common dec (drop i left) (drop j right),
      Common-bound dec c (drop i left) (drop j right) h,
    )
