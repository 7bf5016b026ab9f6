-- ===== src/Coordinator/MutationStore/Answers.antt =====
-- The answer to a single mutation, and what it says of the tables before and after.
use syncali.Prelude.{
  ℕ, ◌+◌, ◌≡◌, ◌⊎◌, inl, inr, refl, sym, ap, ◌∙◌, subst, String, true, Option, none, some, [], ◌∷◌,
  ◌++◌, arith, refers, same, trim,
}
use syncali.Coordinator.Tables.{Tables, Entry, ok, ok-injective, ok-split}
use syncali.Coordinator.BlobStore.{mark_blob_live, mark_blob_pending_delete_if_unreferenced}
use syncali.Coordinator.MutationStore.Model.{
  Batch, BatchResult, accepted, Mutation, CommitContext, find_entry, current_revision, next_blob_id,
  next_deleted,
}
use syncali.Coordinator.MutationStore.Entries.{find_entry-write}
use syncali.Coordinator.MutationStore.Cases.{
  StepTo, kept, applied, SameStore, Applied, Answer, refusal, again, commit_one-StepTo,
  BlobReady-state, BlobReady-entries,
}
use syncali.Coordinator.MutationStore.Shape.{apply_mutation-Shape, top, cursor_of}
use syncali.Coordinator.MutationStore.{
  entry_row, write_entry, hold_next_blob, release_current_blob, commit_one, commit_all, start_batch,
  save_cursor, response_cursor, commit_mutations, CommitMutationsResult,
}

-- The entry of the mutation shows it as its last one, at this cursor and revision.
pub record Shows (m : Mutation) (cursor revision : ℕ) (t : Tables) : Type 0 where
  pub entry : Entry
  pub found : find_entry m.entry_id t.entries ≡ some entry
  pub last : refers (trim m.mutation_id) entry.last_mutation_id ≡ true
  pub cursor_eq : entry.updated_seq ≡ cursor
  pub revision_eq : entry.revision ≡ revision

pub release-entries :
    (c : CommitContext) (m : Mutation) (current : Option Entry) (t : Tables)
    → (release_current_blob c m current (hold_next_blob m t)).entries ≡ t.entries
unfolding release_current_blob hold_next_blob mark_blob_live
    mark_blob_pending_delete_if_unreferenced
release-entries c m current t = ground arith

pub save_cursor-entries : (now : ℕ) (s : Batch) → (save_cursor now s).entries ≡ s.tables.entries
unfolding save_cursor
save_cursor-entries now s = ground arith

-- The row that an applied mutation leaves.
pub Applied-entries :
    (c : CommitContext) (m : Mutation) (s u : Batch) (a : Applied c m s u)
    → (cursor : ℕ) × (u.tables.entries
        ≡ write_entry
            (entry_row c m (trim m.mutation_id) (m.base_revision + 1) cursor)
            s.tables.entries)
      × (cursor ≡ top a.before + 1)
      × (u.results
          ≡ s.results ++ accepted (trim m.mutation_id) cursor m.entry_id (m.base_revision + 1) ∷ [])
      × (u.next_cursor ≡ some cursor)
Applied-entries c m s u a =
    let h = apply_mutation-Shape c m _ _ a.before u a.applied in
    (
      h.cursor,
      ap (λ t. t.entries) h.tables
          ∙ release-entries c m _ h.middle
          ∙ h.entries
          ∙ ap (write_entry _) (BlobReady-entries c m s.tables a.before.tables a.ready)
          ∙ ap
              (λ k.
                write_entry (entry_row c m (trim m.mutation_id) (k + 1) h.cursor) s.tables.entries)
              a.base,
      h.counted,
      h.results
          ∙ ap
              (λ rs.
                rs
                ++ accepted (trim m.mutation_id) h.cursor m.entry_id
                    (current_revision (find_entry m.entry_id s.tables.entries) + 1)
                  ∷ [])
              a.results
          ∙ ap (λ k. s.results ++ accepted (trim m.mutation_id) h.cursor m.entry_id (k + 1) ∷ [])
              a.base,
      h.next_cursor,
    )

-- A batch of one mutation runs the loop's body once.
record Single (c : CommitContext) (m : Mutation) (t : Tables) (r : CommitMutationsResult)
    (u : Tables) : Type 0 where
  batch : Batch
  one : commit_one c m (start_batch t) ≡ ok batch
  tables : u ≡ save_cursor c.now batch
  results : r.results ≡ batch.results

commit_mutations-Single :
    (c : CommitContext) (request_id : String) (m : Mutation) (t u : Tables)
    (r : CommitMutationsResult)
    → commit_mutations c request_id (m ∷ []) t ≡ ok (r, u)
    → Single c m t r u
unfolding commit_mutations commit_all
commit_mutations-Single c request_id m t u r h =
    let (s', e, rest) = ok-split (commit_all c (m ∷ []) (start_batch t)) _ h in
    let (s, one, same_batch) = ok-split (commit_one c m (start_batch t)) _ e in
    let (cursor, f, last) = ok-split (response_cursor s' (save_cursor c.now s')) _ rest in
    let s_eq : s ≡ s' = ok-injective s s' same_batch in
    let out = ok-injective _ _ last in
    record {
      batch = s;
      one = one;
      tables = sym (ap (λ x. x.1) out) ∙ ap (save_cursor c.now) (sym s_eq);
      results = sym (ap (λ x. x.0.results) out) ∙ ap (λ x. x.results) (sym s_eq);
    }

-- The entry of the mutation has its operation, its blob and its metadata, at this revision.
pub record Stores (m : Mutation) (revision : ℕ) (t : Tables) : Type 0 where
  pub entry : Entry
  pub found : find_entry m.entry_id t.entries ≡ some entry
  pub revision_eq : entry.revision ≡ revision
  pub blob_eq : entry.blob_id ≡ next_blob_id m
  pub deleted_eq : entry.deleted ≡ next_deleted m
  pub metadata_eq : entry.encrypted_metadata ≡ m.encrypted_metadata

-- What an acceptance says: the entry showed the mutation before, or the mutation was based on the
-- entry's revision, took the next revision and the next cursor, and left its contents.
pub record Advanced (m : Mutation) (cursor revision : ℕ) (t u : Tables) : Type 0 where
  pub base : current_revision (find_entry m.entry_id t.entries) ≡ m.base_revision
  pub next_revision : revision ≡ m.base_revision + 1
  pub next_cursor : cursor ≡ cursor_of t.coordinator_state + 1
  pub shown : Shows m cursor revision u
  pub stored : Stores m revision u

pub same_refl : (s : String) → same s s ≡ true
same_refl s = ground arith

Applied-Advanced :
    (c : CommitContext) (m : Mutation) (t : Tables) (s : Batch) (a : Applied c m (start_batch t) s)
    (cursor revision : ℕ) (id entry_id : String)
    → s.results ≡ accepted id cursor entry_id revision ∷ []
    → Advanced m cursor revision t (save_cursor c.now s)
unfolding start_batch
Applied-Advanced c m t s a cursor revision id entry_id h =
    let (k, entries, counted, results, next) = Applied-entries c m (start_batch t) s a in
    let row = entry_row c m (trim m.mutation_id) (m.base_revision + 1) k in
    let e₁ : k ≡ cursor = ground arith in
    let e₂ : m.base_revision + 1 ≡ revision = ground arith in
    let state = BlobReady-state c m t a.before.tables a.ready in
    let start : top a.before ≡ cursor_of t.coordinator_state = rw (a.next_cursor, state) refl in
    let found : find_entry m.entry_id (save_cursor c.now s).entries ≡ some row =
      rw
        (
          save_cursor-entries c.now s,
          entries,
          find_entry-write row m.entry_id t.entries,
          same_refl m.entry_id,
        )
        refl in
    record {
      base = a.base;
      next_revision = sym e₂;
      next_cursor = sym e₁ ∙ counted ∙ ap (λ n. n + 1) start;
      shown = record {
        entry = row;
        found = found;
        last = same_refl (trim m.mutation_id);
        cursor_eq = e₁;
        revision_eq = e₂;
      };
      stored = record {
        entry = row;
        found = found;
        revision_eq = e₂;
        blob_eq = refl;
        deleted_eq = refl;
        metadata_eq = refl;
      };
    }

save_cursor-idle : (now : ℕ) (s : Batch) → s.next_cursor ≡ none → save_cursor now s ≡ s.tables
unfolding save_cursor
save_cursor-idle now s e = ground arith

-- A mutation that is not applied changes no table.
kept-tables :
    (now : ℕ) (t u : Tables) (s : Batch)
    → SameStore (start_batch t) s
    → u ≡ save_cursor now s
    → u ≡ t
unfolding start_batch
kept-tables now t u s k e = e ∙ save_cursor-idle now s k.next_cursor ∙ k.tables

kept-Shows :
    (m : Mutation) (t : Tables) (r : BatchResult) (cursor revision : ℕ) (id entry_id : String)
    → Answer m (start_batch t) r
    → r ≡ accepted id cursor entry_id revision
    → Shows m cursor revision t
unfolding start_batch
kept-Shows m t r cursor revision id entry_id (refusal code) e = cc
kept-Shows m t r cursor revision id entry_id (again row found last) e = record {
  entry = row;
  found = found;
  last = last;
  cursor_eq = ground arith;
  revision_eq = ground arith;
}

only_result :
    (s : Batch) (t : Tables) (r x : BatchResult)
    → s.results ≡ (start_batch t).results ++ r ∷ []
    → s.results ≡ x ∷ []
    → r ≡ x
unfolding start_batch
only_result s t r x e f = ground arith

StepTo-Advanced :
    (c : CommitContext) (m : Mutation) (t u : Tables) (s : Batch) (id entry_id : String)
    (cursor revision : ℕ)
    → StepTo c m (start_batch t) s
    → u ≡ save_cursor c.now s
    → s.results ≡ accepted id cursor entry_id revision ∷ []
    → ((u ≡ t) × Shows m cursor revision t) ⊎ Advanced m cursor revision t u
StepTo-Advanced c m t u s id entry_id cursor revision (applied x) e b = inr (
    subst (Advanced m cursor revision t) (sym e)
      (Applied-Advanced c m t s x cursor revision id entry_id b))
StepTo-Advanced c m t u s id entry_id cursor revision (kept k r p a) e b = inl (
  kept-tables c.now t u s k e,
  kept-Shows m t r cursor revision id entry_id a (only_result s t r _ p b),
)

-- An acceptance of a single mutation says one of two things. Either the entry showed the mutation as
-- its last one, at the answered cursor and revision, and the tables stay as they were. Or the
-- mutation was based on the entry's current revision, and the entry now shows it at the next
-- revision and at the next cursor of the vault, with its operation, its blob and its metadata.
pub commit_mutations-Advanced :
    (c : CommitContext) (request_id : String) (m : Mutation) (t u : Tables)
    (r : CommitMutationsResult) (id entry_id : String) (cursor revision : ℕ)
    → commit_mutations c request_id (m ∷ []) t ≡ ok (r, u)
    → r.results ≡ accepted id cursor entry_id revision ∷ []
    → ((u ≡ t) × Shows m cursor revision t) ⊎ Advanced m cursor revision t u
commit_mutations-Advanced c request_id m t u r id entry_id cursor revision h a =
    let v = commit_mutations-Single c request_id m t u r h in
    StepTo-Advanced c m t u v.batch id entry_id cursor revision
      (commit_one-StepTo c m (start_batch t) v.batch v.one) v.tables (sym v.results ∙ a)

pub accepted-Shows :
    (c : CommitContext) (request_id : String) (m : Mutation) (t u : Tables)
    (r : CommitMutationsResult) (id entry_id : String) (cursor revision : ℕ)
    → commit_mutations c request_id (m ∷ []) t ≡ ok (r, u)
    → r.results ≡ accepted id cursor entry_id revision ∷ []
    → Shows m cursor revision u
accepted-Shows c request_id m t u r id entry_id cursor revision h a =
    elim (commit_mutations-Advanced c request_id m t u r id entry_id cursor revision h a) [
      | inl x ↦ subst (Shows m cursor revision) (sym x.0) x.1
      | inr x ↦ x.shown
    ]
