-- ===== src/Coordinator/MutationStore/Entries.antt =====
-- The rows of entries under the write of one row.
use syncali.Prelude.{
  ℕ, ◌≤◌, ◌<◌, ◌≡◌, ◌≢◌, refl, String, none, some, List, [], ◌∷◌, arith, same, All, All-map,
  if◌then◌else◌, Bool-cases, inl, inr,
}
use syncali.Coordinator.Tables.{Entry}
use syncali.Coordinator.MutationStore.Model.{find_entry}
use syncali.Coordinator.MutationStore.{write_entry}

-- The primary key of the table: no two rows have one id.
abbrev pub DistinctEntries : List Entry → Type 0
DistinctEntries [] = Unit
DistinctEntries (e ∷ es) = (find_entry e.entry_id es ≡ none) × DistinctEntries es

-- Every row was written at a cursor up to `n`.
abbrev pub Below : ℕ → List Entry → Type 0
Below n es = All (λ e. e.updated_seq ≤ n) es

-- No two rows were written at one cursor.
abbrev pub DistinctSeqs : List Entry → Type 0
DistinctSeqs [] = Unit
DistinctSeqs (e ∷ es) = All (λ d. d.updated_seq ≢ e.updated_seq) es × DistinctSeqs es

pub find_entry-id :
    (id : String) (es : List Entry) (e : Entry) → find_entry id es ≡ some e → e.entry_id ≡ id
unfolding find_entry
find_entry-id id [] e h = ground arith
find_entry-id id (x ∷ es) e h = ground (arith, find_entry-id id es e)

module _ (row : Entry) where
  pub find_entry-write :
      (id : String) (es : List Entry)
      → find_entry id (write_entry row es)
        ≡ (if same row.entry_id id then some row else find_entry id es)
  unfolding find_entry write_entry
  find_entry-write id [] = refl
  find_entry-write id (e ∷ es) = ground (arith, find_entry-write id es)

  pub write_entry-Distinct :
      (es : List Entry) → DistinctEntries es → DistinctEntries (write_entry row es)
  unfolding write_entry
  write_entry-Distinct [] d = (unfold find_entry in refl, tt)
  write_entry-Distinct (e ∷ es) d =
      ground (arith, write_entry-Distinct es d.1, find_entry-write e.entry_id es)

  pub write_entry-All {ℓ} :
      (P : Entry → Type ℓ) (es : List Entry)
      → ((id : String) → P (record row { entry_id = id }))
      → All P es
      → All P (write_entry row es)
  unfolding write_entry
  write_entry-All P [] new old = (new row.entry_id, tt)
  write_entry-All P (e ∷ es) new old = elim (Bool-cases (same e.entry_id row.entry_id)) [
    | inl p ↦ rw (p, write_entry) (new e.entry_id, old.1)
    | inr p ↦ rw (p, write_entry) (old.0, write_entry-All P es new old.1)
  ]

  pub write_entry-DistinctSeqs :
      (es : List Entry) (n : ℕ)
      → n < row.updated_seq
      → Below n es
      → DistinctSeqs es
      → DistinctSeqs (write_entry row es)
  unfolding write_entry
  write_entry-DistinctSeqs [] n h b d = (tt, tt)
  write_entry-DistinctSeqs (e ∷ es) n h b d = elim (Bool-cases (same e.entry_id row.entry_id)) [
    | inl p ↦ rw (p, write_entry) (All-map es (λ x k. omega arith) b.1, d.1)
    | inr p ↦
        rw (p, write_entry)
          (
            write_entry-All (λ x. x.updated_seq ≢ e.updated_seq) es (λ _. omega (arith, b.0)) d.0,
            write_entry-DistinctSeqs es n h b.1 d.1,
          )
  ]
