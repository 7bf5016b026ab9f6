-- ===== src/Coordinator/MutationStore/Invariant.antt =====
-- A commit keeps the tables consistent.
use syncali.Prelude.{
  ℕ, ◌+◌, ◌≤◌, ◌<◌, ◌≡◌, inl, inr, refl, sym, ap, ◌∙◌, subst, String, true, Option, some, List, [],
  ◌∷◌, arith, All-map,
}
use syncali.Coordinator.Tables.{Tables, Entry, CoordinatorState, ok, ok-injective, ok-split}
use syncali.Coordinator.BlobStore.{mark_blob_live, mark_blob_pending_delete_if_unreferenced}
use syncali.Coordinator.BlobStore.Usage.{IsAccounted}
use syncali.Coordinator.BlobStore.References.{Backed, is_backed}
use syncali.Coordinator.MutationStore.Model.{
  Batch, Mutation, CommitContext, next_blob_id, current_revision,
}
use syncali.Coordinator.MutationStore.Entries.{
  Below, write_entry-Distinct, write_entry-DistinctSeqs, write_entry-All,
}
use syncali.Coordinator.MutationStore.Cases.{
  StepTo, kept, applied, SameStore, commit_one-StepTo, BlobReady-state,
}
use syncali.Coordinator.MutationStore.Shape.{Shape, apply_mutation-Shape, top, cursor_of, Started}
use syncali.Coordinator.MutationStore.BlobSteps.{
  IsConsistent, NextBlobPresent, BlobReady-present, BlobReady-IsConsistent, hold_next_blob-backs,
  hold_next_blob-keeps, release_current_blob-keeps,
}
use syncali.Coordinator.MutationStore.{
  entry_row, write_entry, hold_next_blob, release_current_blob, commit_one, commit_all, start_batch,
  save_cursor, commit_mutations, CommitMutationsResult, response_cursor,
}

pub record IsBatch (s : Batch) : Type 0 where
  pub consistent : IsConsistent (top s) s.tables
  pub started : Started s.initial_cursor s.next_cursor s.tables.coordinator_state

Below-le : (m n : ℕ) (es : List Entry) → m ≤ n → Below m es → Below n es
Below-le m n es h b = All-map es (λ e k. omega arith) b

-- The state's row is left alone until the end of the batch.
release-state :
    (c : CommitContext) (m : Mutation) (current : Option Entry) (t : Tables)
    → (release_current_blob c m current (hold_next_blob m t)).coordinator_state
      ≡ t.coordinator_state
unfolding release_current_blob hold_next_blob mark_blob_live
    mark_blob_pending_delete_if_unreferenced
release-state c m current t = ground arith

IsAccounted-rows :
    (t u : Tables)
    → u.blobs ≡ t.blobs
    → u.coordinator_state ≡ t.coordinator_state
    → IsAccounted t
    → IsAccounted u
IsAccounted-rows t u p q v = record { total = rw (p, q) v.total; distinct = rw p v.distinct }

module _ (c : CommitContext) (m : Mutation) (id : String) (current : Option Entry) (s u : Batch)
    (h : Shape c m id current s u) (p : NextBlobPresent m s.tables)
    (v : IsConsistent (top s) s.tables) where
  abbrev row : Entry
  row = entry_row c m id (current_revision current + 1) h.cursor

  abbrev held : Tables
  held = hold_next_blob m h.middle

  abbrev es : List Entry
  es = s.tables.entries

  Shape-keeps : IsAccounted held × Backed held.blobs es × (held.entries ≡ h.middle.entries)
  Shape-keeps =
      hold_next_blob-keeps m h.middle es
        (IsAccounted-rows s.tables h.middle h.blobs h.coordinator_state v.accounted)
        (subst (λ bs. Backed bs es) (sym h.blobs) v.backed)

  Shape-backs : is_backed held.blobs (next_blob_id m) ≡ true
  Shape-backs = hold_next_blob-backs m h.middle (λ j e. rw h.blobs (p j e))

  Shape-Backed : Backed held.blobs held.entries
  Shape-Backed =
      subst (λ xs. Backed held.blobs xs) (sym (Shape-keeps.2 ∙ h.entries))
        (write_entry-All row (λ e. is_backed held.blobs e.blob_id ≡ true) es (λ _. Shape-backs)
          Shape-keeps.1)

  Shape-released :
      IsAccounted (release_current_blob c m current held)
      × Backed (release_current_blob c m current held).blobs held.entries
      × ((release_current_blob c m current held).entries ≡ held.entries)
  Shape-released = release_current_blob-keeps c m current held Shape-keeps.0 Shape-Backed

  pub Shape-entries : u.tables.entries ≡ write_entry row es
  Shape-entries = ap (λ t. t.entries) h.tables ∙ Shape-released.2 ∙ Shape-keeps.2 ∙ h.entries

  pub Shape-IsConsistent : IsConsistent h.cursor u.tables
  Shape-IsConsistent =
      let counted = h.counted in
      record {
        accounted = subst IsAccounted (sym h.tables) Shape-released.0;
        backed =
            subst (λ t. Backed t.blobs t.entries) (sym h.tables)
              (subst (λ xs. Backed (release_current_blob c m current held).blobs xs)
                (sym Shape-released.2) Shape-released.1);
        entries = rw Shape-entries (write_entry-Distinct row es v.entries);
        below = rw Shape-entries (
            write_entry-All row (λ e. e.updated_seq ≤ h.cursor) es (λ _. omega arith)
              (Below-le (top s) h.cursor es (omega arith) v.below));
        seqs =
            rw Shape-entries (write_entry-DistinctSeqs row es (top s) (omega arith) v.below v.seqs);
      }

  pub Shape-state : u.tables.coordinator_state ≡ s.tables.coordinator_state
  Shape-state =
      ap (λ t. t.coordinator_state) h.tables
      ∙ release-state c m current h.middle
      ∙ h.coordinator_state

Shape-IsBatch :
    (c : CommitContext) (m : Mutation) (id : String) (current : Option Entry) (s u : Batch)
    → Shape c m id current s u
    → NextBlobPresent m s.tables
    → IsBatch s
    → IsBatch u
Shape-IsBatch c m id current s u h p v = record {
  consistent = rw h.next_cursor (Shape-IsConsistent c m id current s u h p v.consistent);
  started = rw (Shape-state c m id current s u h p v.consistent) (h.started v.started);
}

SameStore-IsBatch : (s u : Batch) → SameStore s u → IsBatch s → IsBatch u
SameStore-IsBatch s u k v = record {
  consistent = rw (k.tables, k.next_cursor) v.consistent;
  started = rw (k.tables, k.initial_cursor, k.next_cursor) v.started;
}

StepTo-IsBatch :
    (c : CommitContext) (m : Mutation) (s u : Batch) → StepTo c m s u → IsBatch s → IsBatch u
StepTo-IsBatch c m s u (kept k _ _ _) v = SameStore-IsBatch s u k v
StepTo-IsBatch c m s u (applied a) v =
    let state = BlobReady-state c m s.tables a.before.tables a.ready in
    let same_top : top s ≡ top a.before = rw (a.next_cursor, state) refl in
    let before : IsBatch a.before = record {
      consistent =
          subst (λ n. IsConsistent n a.before.tables) same_top
            (BlobReady-IsConsistent c m (top s) s.tables a.before.tables a.ready v.consistent);
      started = rw (a.initial_cursor, a.next_cursor, state) v.started;
    } in
    Shape-IsBatch c m _ _ a.before u (apply_mutation-Shape c m _ _ a.before u a.applied)
      (BlobReady-present c m s.tables a.before.tables a.ready) before

pub commit_all-IsBatch :
    (c : CommitContext) (ms : List Mutation) (s u : Batch)
    → commit_all c ms s ≡ ok u
    → IsBatch s
    → IsBatch u
unfolding commit_all
commit_all-IsBatch c [] s u h v = subst IsBatch (ok-injective s u h) v
commit_all-IsBatch c (m ∷ ms) s u h v =
    let (s', e, rest) = ok-split (commit_one c m s) _ h in
    commit_all-IsBatch c ms s' u rest (StepTo-IsBatch c m s s' (commit_one-StepTo c m s s' e) v)

-- Tables that are consistent up to the cursor that they hold.
abbrev pub IsStored : Tables → Type 0
IsStored t = IsConsistent (cursor_of t.coordinator_state) t

pub start_batch-IsBatch : (t : Tables) → IsStored t → IsBatch (start_batch t)
unfolding start_batch
start_batch-IsBatch t v = record { consistent = v; started = inl refl }

abbrev moved : ℕ → ℕ → CoordinatorState → Tables → Tables
moved now n st t = record t {
  coordinator_state = some (record st { current_cursor = n; last_commit_at = some now });
}

pub save_cursor-moves :
    (now : ℕ) (s : Batch) (st : CoordinatorState) (n : ℕ)
    → s.tables.coordinator_state ≡ some st
    → s.initial_cursor ≡ some st.current_cursor
    → s.next_cursor ≡ some n
    → st.current_cursor < n
    → save_cursor now s ≡ moved now n st s.tables
unfolding save_cursor
save_cursor-moves now s st n state initial next lt = ground arith

moved-IsStored :
    (now : ℕ) (t : Tables) (st : CoordinatorState) (n : ℕ)
    → t.coordinator_state ≡ some st
    → IsConsistent n t
    → IsStored (moved now n st t)
moved-IsStored now t st n e v = record {
  accounted = record { total = rw e at v.accounted.total; distinct = v.accounted.distinct };
  backed = v.backed;
  entries = v.entries;
  below = v.below;
  seqs = v.seqs;
}

pub save_cursor-IsStored : (now : ℕ) (s : Batch) → IsBatch s → IsStored (save_cursor now s)
unfolding save_cursor
save_cursor-IsStored now s v = elim v.started [
  | inl e ↦ rw (e, save_cursor) (subst (λ n. IsConsistent n s.tables) (rw e refl) v.consistent)
  | inr (st, n, state, initial, next, lt) ↦
      subst IsStored (sym (save_cursor-moves now s st n state initial next lt)) (
        moved-IsStored now s.tables st n state
          (subst (λ k. IsConsistent k s.tables) (rw next refl) v.consistent))
]

-- A commit that succeeds leaves the tables consistent, if they were: the byte count is the size of
-- the rows, every blob that an entry names is live, no two entries have one id or one cursor, and
-- no entry is ahead of the stored cursor.
pub commit_mutations-IsStored :
    (c : CommitContext) (request_id : String) (ms : List Mutation) (t u : Tables)
    (r : CommitMutationsResult)
    → IsStored t
    → commit_mutations c request_id ms t ≡ ok (r, u)
    → IsStored u
unfolding commit_mutations
commit_mutations-IsStored c request_id ms t u r v h =
    let (s, e, rest) = ok-split (commit_all c ms (start_batch t)) _ h in
    let (cursor, f, last) = ok-split (response_cursor s (save_cursor c.now s)) _ rest in
    subst IsStored (ap (λ x. x.1) (ok-injective _ _ last)) (
      save_cursor-IsStored c.now s
        (commit_all-IsBatch c ms (start_batch t) s e (start_batch-IsBatch t v)))
