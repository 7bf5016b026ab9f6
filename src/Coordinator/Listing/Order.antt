-- ===== src/Coordinator/Listing/Order.antt =====
-- Ordered rows: sorting and filtering commute, and a row cuts the list behind it.
use syncali.Prelude.{
  suc, ◌≤◌, length, ◌&&◌, Bool, true, false, ◌||◌, ◌≡◌, ◌∙◌, refl, sym, ap, List, [], ◌∷◌, ◌++◌,
  arith, All, All-map, if◌then◌else◌, select_where, Bool-cases, inl, inr,
}
use syncali.Coordinator.Listing.{insert_row, order_by, TellsFrom, Apart, Ascending}

pub All-select_where {ℓ κ} :
    {A : Type ℓ} (P : A → Type κ) (p : A → Bool) (xs : List A)
    → All P xs
    → All P (select_where p xs)
unfolding select_where
All-select_where P p [] h = tt
All-select_where P p (x ∷ xs) h = elim (Bool-cases (p x)) [
  | inl e ↦ rw e (h.0, All-select_where P p xs h.1)
  | inr e ↦ rw e (All-select_where P p xs h.1)
]

pub All-middle :
    {A : Type 0} (P : A → Type 0) (front : List A) (z : A) (back : List A)
    → All P (front ++ z ∷ back)
    → P z
All-middle P [] z back h = h.0
All-middle P (x ∷ front) z back h = All-middle P front z back h.1

-- Every row that is selected meets the condition.
pub All-selected {ℓ} :
    {A : Type ℓ} (p : A → Bool) (xs : List A) → All (λ x. p x ≡ true) (select_where p xs)
unfolding select_where
All-selected p [] = tt
All-selected p (x ∷ xs) = elim (Bool-cases (p x)) [
  | inl e ↦ rw e (e, All-selected p xs)
  | inr e ↦ rw e (All-selected p xs)
]

module _ {A : Type 0} (before : A → A → Bool) where
  All-insert_row :
      (P : A → Type 0) (x : A) (ys : List A) → P x → All P ys → All P (insert_row before x ys)
  unfolding insert_row
  All-insert_row P x [] h k = (h, tt)
  All-insert_row P x (y ∷ ys) h k = elim (Bool-cases (before y x)) [
    | inl e ↦ rw e (k.0, All-insert_row P x ys h k.1)
    | inr e ↦ rw e (h, k)
  ]

  pub All-order_by : (P : A → Type 0) (xs : List A) → All P xs → All P (order_by before xs)
  unfolding order_by
  All-order_by P [] h = tt
  All-order_by P (x ∷ xs) h = All-insert_row P x (order_by before xs) h.0 (All-order_by P xs h.1)

module _ {A : Type 0} (before : A → A → Bool)
    (transitive : (x y z : A) → before x y ≡ true → before y z ≡ true → before x z ≡ true)
    (asymmetric : (x y : A) → before x y ≡ true → before y x ≡ false) where
  insert_row-Ascending :
      (x : A) (ys : List A)
      → TellsFrom before x ys
      → Ascending before ys
      → Ascending before (insert_row before x ys)
  unfolding insert_row
  insert_row-Ascending x [] h s = (tt, tt)
  insert_row-Ascending x (y ∷ ys) h s = elim (Bool-cases (before y x)) [
    | inl e ↦ rw e (
      All-insert_row before (λ z. before y z ≡ true) x ys e s.0,
      insert_row-Ascending x ys h.1 s.1,
    )
    | inr e ↦
        let first : before x y ≡ true = ground (arith, h.0) in
        rw e ((first, All-map ys (λ z k. transitive x y z first k) s.0), s)
  ]

  pub order_by-Ascending : (xs : List A) → Apart before xs → Ascending before (order_by before xs)
  unfolding order_by
  order_by-Ascending [] h = tt
  order_by-Ascending (x ∷ xs) h =
      insert_row-Ascending x (order_by before xs)
        (All-order_by before (λ y. (before x y || before y x) ≡ true) xs h.0)
        (order_by-Ascending xs h.1)

  insert_row-first :
      (x : A) (ys : List A) → All (λ y. before x y ≡ true) ys → insert_row before x ys ≡ x ∷ ys
  unfolding insert_row
  insert_row-first x [] h = refl
  insert_row-first x (y ∷ ys) h = rw (asymmetric x y h.0) refl

  select-insert_row :
      (p : A → Bool) (x : A) (ys : List A)
      → TellsFrom before x ys
      → Ascending before ys
      → select_where p (insert_row before x ys)
        ≡ (if p x then insert_row before x (select_where p ys) else select_where p ys)
  unfolding insert_row select_where
  select-insert_row p x [] h s = ground arith
  select-insert_row p x (y ∷ ys) h s = elim (Bool-cases (before y x)) [
    | inl e ↦ elim (Bool-cases (p y)) [
      | inl f ↦ rw (e, f) (rw (select-insert_row p x ys h.1 s.1) (ground arith))
      | inr f ↦ rw (e, f) (select-insert_row p x ys h.1 s.1)
    ]
    | inr e ↦
        let first : before x y ≡ true = ground (arith, h.0) in
        let front : All (λ z. before x z ≡ true) (y ∷ ys) =
          (first, All-map ys (λ z k. transitive x y z first k) s.0) in
        let kept = All-select_where (λ z. before x z ≡ true) p (y ∷ ys) front in
        rw e (elim (Bool-cases (p x)) [
          | inl g ↦ rw g (sym (insert_row-first x (select_where p (y ∷ ys)) kept))
          | inr g ↦ rw g refl
        ])
  ]

  pub select-order_by :
      (p : A → Bool) (xs : List A)
      → Apart before xs
      → order_by before (select_where p xs) ≡ select_where p (order_by before xs)
  unfolding order_by select_where
  select-order_by p [] h = refl
  select-order_by p (x ∷ xs) h =
      let rest = select-order_by p xs h.1 in
      let inserted =
        select-insert_row p x (order_by before xs)
          (All-order_by before (λ y. (before x y || before y x) ≡ true) xs h.0)
          (order_by-Ascending xs h.1) in
      elim (Bool-cases (p x)) [
        | inl e ↦ rw e (ap (insert_row before x) rest ∙ sym (inserted ∙ rw e refl))
        | inr e ↦ rw e (rest ∙ sym (inserted ∙ rw e refl))
      ]

  -- A row is past itself never, and past a row that it is before never.
  irreflexive : (z : A) → before z z ≡ false
  irreflexive z = elim (Bool-cases (before z z)) [ inl e ↦ asymmetric z z e | inr e ↦ e ]

  select-All :
      (z : A) (back : List A)
      → All (λ y. before z y ≡ true) back
      → select_where (before z) back ≡ back
  unfolding select_where
  select-All z [] h = refl
  select-All z (y ∷ back) h = rw h.0 (ap (λ ys. y ∷ ys) (select-All z back h.1))

  -- Behind a row of an ascending list stands what the list has past it.
  pub select-behind :
      (front : List A) (z : A) (back : List A)
      → Ascending before (front ++ z ∷ back)
      → select_where (before z) (front ++ z ∷ back) ≡ back
  unfolding select_where
  select-behind [] z back s = rw (irreflexive z) (select-All z back s.0)
  select-behind (x ∷ front) z back s =
      rw (asymmetric x z (All-middle (λ y. before x y ≡ true) front z back s.0))
        (select-behind front z back s.1)

  length-insert_row : (x : A) (ys : List A) → length (insert_row before x ys) ≡ suc (length ys)
  unfolding insert_row
  length-insert_row x [] = refl
  length-insert_row x (y ∷ ys) = ground (arith, length-insert_row x ys)

  pub length-order_by : (xs : List A) → length (order_by before xs) ≡ length xs
  unfolding order_by
  length-order_by [] = refl
  length-order_by (x ∷ xs) = length-insert_row x (order_by before xs) ∙ ap suc (length-order_by xs)

  pub Apart-select_where :
      (p : A → Bool) (xs : List A) → Apart before xs → Apart before (select_where p xs)
  unfolding select_where
  Apart-select_where p [] h = tt
  Apart-select_where p (x ∷ xs) h = elim (Bool-cases (p x)) [
    | inl e ↦ rw e (
      All-select_where (λ y. (before x y || before y x) ≡ true) p xs h.0,
      Apart-select_where p xs h.1,
    )
    | inr e ↦ rw e (Apart-select_where p xs h.1)
  ]

pub select-and {ℓ} :
    {A : Type ℓ} (p q : A → Bool) (xs : List A)
    → select_where (λ x. p x && q x) xs ≡ select_where q (select_where p xs)
unfolding select_where
select-and p q [] = refl
select-and p q (x ∷ xs) = elim (Bool-cases (p x)) [
  | inl e ↦ elim (Bool-cases (q x)) [
    | inl f ↦ rw (e, f) (ap (λ ys. x ∷ ys) (select-and p q xs))
    | inr f ↦ rw (e, f) (select-and p q xs)
  ]
  | inr e ↦ rw e (select-and p q xs)
]

pub length-select_where {ℓ} :
    {A : Type ℓ} (p : A → Bool) (xs : List A) → length (select_where p xs) ≤ length xs
unfolding select_where
length-select_where p [] = omega arith
length-select_where p (x ∷ xs) = elim (Bool-cases (p x)) [
  | inl e ↦ rw e (omega (arith, length-select_where p xs))
  | inr e ↦ rw e (omega (arith, length-select_where p xs))
]

pub select_where-true {ℓ} : {A : Type ℓ} (xs : List A) → select_where (λ x. true) xs ≡ xs
unfolding select_where
select_where-true [] = refl
select_where-true (x ∷ xs) = ap (λ ys. x ∷ ys) (select_where-true xs)
