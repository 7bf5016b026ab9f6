-- ===== src/Coordinator/MutationStore/Cases.antt =====
-- What one pass of the loop does to the batch: it refuses the mutation, answers it as before, or
-- applies it behind all tests.
use syncali.Prelude.{
  ◌+◌, ◌≡◌, inl, inr, refl, ◌∙◌, ap, sym, subst, ◌++◌, String, true, Option, none, some, List, [],
  ◌∷◌, arith, truthy, has, trim, refers, if◌then◌else◌, Bool-cases, Option-cases, ◌==◌,
}
use syncali.Coordinator.Tables.{Tables, Entry, Blob, ok, BlobState, staged, live, pending_delete}
use syncali.Coordinator.BlobStore.{
  find_blob, read_blob_state, restage_pending_delete_blob, is_pending_delete,
}
use syncali.Coordinator.MutationStore.Model.{
  Batch, BatchResult, accepted, rejected, RejectCode, duplicate_mutation_id, stale_revision,
  blob_not_found, blob_not_staged, Mutation, CommitContext, find_entry, next_blob_id,
  current_revision,
}
use syncali.Coordinator.MutationStore.{
  apply_mutation, commit_with_blob, commit_at_revision, commit_unless_applied, commit_one,
}

-- The batches agree in the tables and in the cursors taken.
pub record SameStore (s u : Batch) : Type 0 where
  pub tables : u.tables ≡ s.tables
  pub initial_cursor : u.initial_cursor ≡ s.initial_cursor
  pub next_cursor : u.next_cursor ≡ s.next_cursor

-- The blob that the mutation names, if any, has a row in `t`, and `u` is `t` but for the state of
-- that row, which was on its way to deletion.
pub data BlobReady (c : CommitContext) (m : Mutation) (t : Tables) : Tables → Type 0 where
  no_blob : truthy (next_blob_id m) ≡ none → BlobReady c m t t
  present :
      (id : String) (b : Blob)
      → truthy (next_blob_id m) ≡ some id
      → find_blob id t.blobs ≡ some b
      → BlobReady c m t t
  restaged :
      (id : String) (b : Blob)
      → truthy (next_blob_id m) ≡ some id
      → find_blob id t.blobs ≡ some b
      → b.state ≡ pending_delete
      → BlobReady c m t (restage_pending_delete_blob t id (c.now + c.stage_grace_period_ms))

pub record Applied (c : CommitContext) (m : Mutation) (s u : Batch) : Type 0 where
  pub before : Batch
  pub ready : BlobReady c m s.tables before.tables
  pub initial_cursor : before.initial_cursor ≡ s.initial_cursor
  pub next_cursor : before.next_cursor ≡ s.next_cursor
  pub results : before.results ≡ s.results
  pub base : current_revision (find_entry m.entry_id s.tables.entries) ≡ m.base_revision
  pub applied :
      apply_mutation c m (trim m.mutation_id) (find_entry m.entry_id s.tables.entries) before ≡ ok u

-- The answer to a mutation that is not applied: a refusal, or the acceptance of the entry that
-- shows the mutation as its last one.
pub data Answer (m : Mutation) (s : Batch) : BatchResult → Type 0 where
  refusal : (code : RejectCode) → Answer m s (rejected (trim m.mutation_id) m.entry_id code)
  again :
      (e : Entry)
      → find_entry m.entry_id s.tables.entries ≡ some e
      → refers (trim m.mutation_id) e.last_mutation_id ≡ true
      → Answer m s (accepted (trim m.mutation_id) e.updated_seq e.entry_id e.revision)

pub data StepTo (c : CommitContext) (m : Mutation) (s u : Batch) : Type 0 where
  kept :
      SameStore s u
      → (r : BatchResult) → u.results ≡ s.results ++ r ∷ []
      → Answer m s r
      → StepTo c m s u
  applied : Applied c m s u → StepTo c m s u

-- The result of the tests of the blob.
data Prepared (c : CommitContext) (m : Mutation) (id : String) (current : Option Entry)
    (s u : Batch) : Type 0 where
  refused :
      SameStore s u
      → (code : RejectCode) → u.results ≡ s.results ++ rejected id m.entry_id code ∷ []
      → Prepared c m id current s u
  prepared :
      (before : Batch)
      → BlobReady c m s.tables before.tables
      → before.initial_cursor ≡ s.initial_cursor
      → before.next_cursor ≡ s.next_cursor
      → before.results ≡ s.results
      → apply_mutation c m id current before ≡ ok u
      → Prepared c m id current s u

same_store : {s u v : Batch} → SameStore s u → ok u ≡ ok v → SameStore s v
same_store h e = ground arith

pushed :
    {u v : Batch} (rs : List BatchResult) (r : BatchResult)
    → u.results ≡ rs ++ r ∷ []
    → ok u ≡ ok v
    → v.results ≡ rs ++ r ∷ []
pushed rs r h e = ground arith

-- Two batches with one store and one list of results.
record SameSoFar (s u : Batch) : Type 0 where
  store : SameStore s u
  results : u.results ≡ s.results

same_so_far :
    {s u : Batch}
    → u.tables ≡ s.tables
    → u.initial_cursor ≡ s.initial_cursor
    → u.next_cursor ≡ s.next_cursor
    → u.results ≡ s.results
    → SameSoFar s u
same_so_far p q r t = record {
  store = record { tables = p; initial_cursor = q; next_cursor = r };
  results = t;
}

module _ (c : CommitContext) (m : Mutation) (id : String) (current : Option Entry)
    (s u : Batch) where
  prepare_present :
      (b : String) (row : Blob) (state : BlobState)
      → truthy (next_blob_id m) ≡ some b
      → find_blob b s.tables.blobs ≡ some row
      → row.state ≡ state
      → apply_mutation c m id current (
          if is_pending_delete state
          then record s {
            tables = restage_pending_delete_blob s.tables b (c.now + c.stage_grace_period_ms);
          }
          else s)
        ≡ ok u
      → Prepared c m id current s u
  prepare_present b row staged e f g h = prepared s (present b row e f) refl refl refl h
  prepare_present b row live e f g h = prepared s (present b row e f) refl refl refl h
  prepare_present b row pending_delete e f g h = prepared _ (restaged b row e f g) refl refl refl h

  commit_with_blob-Prepared : commit_with_blob c m id current s ≡ ok u → Prepared c m id current s u
  unfolding commit_with_blob read_blob_state
  commit_with_blob-Prepared h = elim (Option-cases (truthy (next_blob_id m))) [
    | inl e ↦ prepared s (no_blob e) refl refl refl (rw (e, commit_with_blob) at h)
    | inr (b, e) ↦
        let h₁ = rw (e, commit_with_blob) at h in
        elim (Bool-cases (has c.unavailable_blob_ids b)) [
          | inl x ↦
              refused
                (same_store (record { tables = refl; initial_cursor = refl; next_cursor = refl })
                  (rw x at h₁))
                (blob_not_found b) (pushed _ _ refl (rw x at h₁))
          | inr x ↦
              let h₂ = rw x at h₁ in
              elim (Option-cases (find_blob b s.tables.blobs)) [
                | inl f ↦
                    refused
                      (same_store
                        (record { tables = refl; initial_cursor = refl; next_cursor = refl })
                        (rw (f, read_blob_state) at h₂))
                      (blob_not_staged b) (pushed _ _ refl (rw (f, read_blob_state) at h₂))
                | inr (row, f) ↦
                    prepare_present b row row.state e f refl (rw (f, read_blob_state) at h₂)
              ]
        ]
  ]

module _ (c : CommitContext) (m : Mutation) (s u : Batch) where
  abbrev current : Option Entry
  current = find_entry m.entry_id s.tables.entries

  Prepared-StepTo :
      (s' : Batch)
      → SameSoFar s s'
      → current_revision current ≡ m.base_revision
      → Prepared c m (trim m.mutation_id) current s' u
      → StepTo c m s u
  Prepared-StepTo s' k base (refused r code e) =
      kept
        (record {
          tables = r.tables ∙ k.store.tables;
          initial_cursor = r.initial_cursor ∙ k.store.initial_cursor;
          next_cursor = r.next_cursor ∙ k.store.next_cursor;
        })
        (rejected (trim m.mutation_id) m.entry_id code)
        (e ∙ ap (λ rs. rs ++ rejected (trim m.mutation_id) m.entry_id code ∷ []) k.results)
        (refusal code)
  Prepared-StepTo s' k base (prepared before ready i n rs h) = applied (record {
    before = before;
    ready = subst (λ t. BlobReady c m t before.tables) k.store.tables ready;
    initial_cursor = i ∙ k.store.initial_cursor;
    next_cursor = n ∙ k.store.next_cursor;
    results = rs ∙ k.results;
    base = base;
    applied = h;
  })

  -- A branch that answers at once.
  step_kept :
      (s' v : Batch) (r : BatchResult)
      → SameSoFar s s'
      → SameStore s' v
      → v.results ≡ s'.results ++ r ∷ []
      → Answer m s r
      → ok v ≡ ok u
      → StepTo c m s u
  step_kept s' v r k w e a h =
      kept
        (same_store
          (record {
            tables = w.tables ∙ k.store.tables;
            initial_cursor = w.initial_cursor ∙ k.store.initial_cursor;
            next_cursor = w.next_cursor ∙ k.store.next_cursor;
          })
          h)
        r (pushed s.results r (e ∙ ap (λ rs. rs ++ r ∷ []) k.results) h) a

  step_at_revision :
      (s' : Batch)
      → SameSoFar s s'
      → commit_at_revision c m (trim m.mutation_id) current s' ≡ ok u
      → StepTo c m s u
  unfolding commit_at_revision
  step_at_revision s' k h = elim (Bool-cases (current_revision current == m.base_revision)) [
    | inl e ↦ Prepared-StepTo s' k (ground arith) (
        commit_with_blob-Prepared c m (trim m.mutation_id) current s' u
          (rw (e, commit_at_revision) at h))
    | inr e ↦
        step_kept s' _ _ k (record { tables = refl; initial_cursor = refl; next_cursor = refl })
          refl (refusal (stale_revision (current_revision current) m.base_revision))
          (rw (e, commit_at_revision) at h)
  ]

  step_unless_applied :
      (s' : Batch) (o : Option Entry)
      → o ≡ current
      → SameSoFar s s'
      → commit_unless_applied c m (trim m.mutation_id) o s' ≡ ok u
      → StepTo c m s u
  unfolding commit_unless_applied
  step_unless_applied s' none e k h = step_at_revision s' k (rw e at h)
  step_unless_applied s' (some row) e k h =
      elim (Bool-cases (refers (trim m.mutation_id) row.last_mutation_id)) [
        | inl x ↦
            step_kept s' _ _ k (record { tables = refl; initial_cursor = refl; next_cursor = refl })
              refl (again row (sym e) x) (rw (x, commit_unless_applied) at h)
        | inr x ↦ step_at_revision s' k (rw e at (rw (x, commit_unless_applied) at h))
      ]

  -- Every pass that does not throw answers the mutation, and either keeps the store or applies the
  -- mutation behind all tests.
  pub commit_one-StepTo : commit_one c m s ≡ ok u → StepTo c m s u
  unfolding commit_one
  commit_one-StepTo h = elim (Bool-cases (has s.seen_mutation_ids (trim m.mutation_id))) [
    | inl x ↦
        step_kept s _ _ (same_so_far refl refl refl refl)
          (record { tables = refl; initial_cursor = refl; next_cursor = refl }) refl
          (refusal duplicate_mutation_id) (rw (x, commit_one) at h)
    | inr x ↦
        step_unless_applied _ current refl (same_so_far refl refl refl refl)
          (rw (x, commit_one) at h)
  ]

pub BlobReady-state :
    (c : CommitContext) (m : Mutation) (t u : Tables)
    → BlobReady c m t u
    → u.coordinator_state ≡ t.coordinator_state
unfolding restage_pending_delete_blob
BlobReady-state c m t u (no_blob e) = refl
BlobReady-state c m t u (present id b e f) = refl
BlobReady-state c m t u (restaged id b e f g) = refl

pub BlobReady-entries :
    (c : CommitContext) (m : Mutation) (t u : Tables) → BlobReady c m t u → u.entries ≡ t.entries
unfolding restage_pending_delete_blob
BlobReady-entries c m t u (no_blob e) = refl
BlobReady-entries c m t u (present id b e f) = refl
BlobReady-entries c m t u (restaged id b e f g) = refl
