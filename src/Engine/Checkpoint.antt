-- ===== src/Engine/Checkpoint.antt =====
-- engine/pull-service.ts: the cursor that a device saves while it applies what it pulled. Of an item
-- of the manifest only the state matters here; the store keeps the cursor.
use syncali.Prelude.{
  ℕ, ◌-◌, ◌≤◌, ◌<◌, max, ◌≡◌, Option, none, some, List, [], ◌∷◌, arith, All, leb, if◌then◌else◌,
  map, least, Option-cases, Bool-cases, refl, inl, inr,
}
use syncali.Coordinator.EntryStore.{EntryStateRow}

-- The greatest number of a list and `n`.
unfoldable pub greatest : ℕ → List ℕ → ℕ
greatest n [] = n
greatest n (m ∷ ms) = max m (greatest n ms)

abbrev pub seqs_of : List EntryStateRow → List ℕ
seqs_of items = map (λ e. e.updated_seq) items

unfoldable pub get_safe_checkpoint_cursor :
    ℕ → (window deferred : List EntryStateRow) → (final_target_cursor : Option ℕ) → ℕ
unfolding greatest least
get_safe_checkpoint_cursor current window deferred final_target_cursor =
    elim (least (seqs_of deferred)) [
      | some first_deferred ↦ max current (first_deferred - 1)
      | none ↦ elim final_target_cursor [
        | some target ↦ max current target
        | none ↦ greatest current (seqs_of window)
      ]
    ]

-- checkpointAppliedWindow: the saved cursor, which never goes back.
unfoldable pub checkpoint_applied_window :
    ℕ → (window deferred : List EntryStateRow) → (final_target_cursor : Option ℕ) → ℕ
unfolding get_safe_checkpoint_cursor
checkpoint_applied_window current window deferred final_target_cursor =
    let safe = get_safe_checkpoint_cursor current window deferred final_target_cursor in
    if leb safe current then current else safe

greatest-below :
    (n bound : ℕ) (items : List EntryStateRow)
    → n < bound
    → All (λ w. w.updated_seq < bound) items
    → greatest n (seqs_of items) < bound
unfolding greatest
greatest-below n bound [] h k = h
greatest-below n bound (w ∷ items) h k = omega (arith, greatest-below n bound items h k.1, k.0)

-- A bound of the least number is one of all, and a number past all of them is past the least one.
least-below :
    (k : ℕ) (items : List EntryStateRow) (m : ℕ)
    → least (seqs_of items) ≡ some m
    → k ≤ m
    → All (λ d. k ≤ d.updated_seq) items
unfolding least
least-below k [] m h le = tt
least-below k (d ∷ items) m h le = elim (Option-cases (least (seqs_of items))) [
  | inl e ↦ (ground arith, none-left k items e)
  | inr (j, e) ↦ (ground arith, least-below k items j e (ground arith))
]
  where
    none-left :
        (k : ℕ) (items : List EntryStateRow)
        → least (seqs_of items) ≡ none
        → All (λ d. k ≤ d.updated_seq) items
    none-left k [] e = tt
    none-left k (d ∷ items) e = absurd (ground arith)

least-reached :
    (bound : ℕ) (items : List EntryStateRow) (m : ℕ)
    → least (seqs_of items) ≡ some m
    → All (λ d. d.updated_seq < bound) items
    → m < bound
unfolding least
least-reached bound [] m h k = absurd (ground arith)
least-reached bound (d ∷ items) m h k = elim (Option-cases (least (seqs_of items))) [
  | inl e ↦ ground (arith, k.0)
  | inr (j, e) ↦ ground (arith, k.0, least-reached bound items j e k.1)
]

none-deferred :
    (r : ℕ) (items : List EntryStateRow)
    → least (seqs_of items) ≡ none
    → All (λ d. r < d.updated_seq) items
unfolding least
none-deferred r [] e = tt
none-deferred r (d ∷ items) e = absurd (ground arith)

checkpoint_bounds :
    (current : ℕ) (window deferred : List EntryStateRow)
    → (current ≤ checkpoint_applied_window current window deferred none)
      × (checkpoint_applied_window current window deferred none
          ≤ max current (get_safe_checkpoint_cursor current window deferred none))
unfolding checkpoint_applied_window
checkpoint_bounds current window deferred =
    let safe = get_safe_checkpoint_cursor current window deferred none in
    elim (Bool-cases (leb safe current)) [
      | inl e ↦ rw (e, checkpoint_applied_window) (omega arith, omega arith)
      | inr e ↦ rw (e, checkpoint_applied_window) (ground arith, omega arith)
    ]

safe_applied :
    (current : ℕ) (window deferred : List EntryStateRow)
    → least (seqs_of deferred) ≡ none
    → get_safe_checkpoint_cursor current window deferred none ≡ greatest current (seqs_of window)
unfolding get_safe_checkpoint_cursor
safe_applied current window deferred e = rw (e, get_safe_checkpoint_cursor) refl

safe_deferred :
    (current : ℕ) (window deferred : List EntryStateRow) (m : ℕ)
    → least (seqs_of deferred) ≡ some m
    → get_safe_checkpoint_cursor current window deferred none ≡ max current (m - 1)
unfolding get_safe_checkpoint_cursor
safe_deferred current window deferred m e = rw (e, get_safe_checkpoint_cursor) refl

All-both :
    {A : Type 0} {P Q R : A → Type 0} (xs : List A)
    → ((x : A) → P x → Q x → R x)
    → All P xs
    → All Q xs
    → All R xs
All-both [] f h k = tt
All-both (x ∷ xs) f h k = (f x h.0 k.0, All-both xs f h.1 k.1)

-- The checkpoint that a device saves before the last page never goes back, and stands before every
-- change that the device has not applied: those that it deferred, and those of the pages to come,
-- when these lie past the pages read and all lie past the cursor saved before. A pull that starts
-- again from the checkpoint reads them.
pub checkpoint_applied_window_safe :
    (current : ℕ) (window deferred rest : List EntryStateRow)
    → All (λ d. current < d.updated_seq) deferred
    → All (λ e. current < e.updated_seq) rest
    → All (λ e. All (λ w. w.updated_seq < e.updated_seq) window) rest
    → All (λ e. All (λ d. d.updated_seq < e.updated_seq) deferred) rest
    → (current ≤ checkpoint_applied_window current window deferred none)
      × All (λ d. checkpoint_applied_window current window deferred none < d.updated_seq) deferred
      × All (λ e. checkpoint_applied_window current window deferred none < e.updated_seq) rest
checkpoint_applied_window_safe current window deferred rest a b c d =
    let bounds = checkpoint_bounds current window deferred in
    elim (Option-cases (least (seqs_of deferred))) [
      | inl e ↦
          let safe = safe_applied current window deferred e in
          (
            bounds.0,
            none-deferred _ deferred e,
            All-both rest
                (λ x h k.
                  omega (arith, bounds.1, safe, greatest-below current x.updated_seq window h k))
                b c,
          )
      | inr (m, e) ↦
          let safe = safe_deferred current window deferred m e in
          (
            bounds.0,
            All-both deferred (λ x h k. omega (arith, bounds.1, safe, h, k)) a
                (least-below m deferred m e (omega arith)),
            All-both rest
                (λ x h k.
                  omega (arith, bounds.1, safe, least-reached x.updated_seq deferred m e k, h))
                b d,
          )
    ]
