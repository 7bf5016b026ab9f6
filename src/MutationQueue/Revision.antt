-- ===== src/MutationQueue/Revision.antt =====
-- The plugin encrypts the metadata of a change for the revision that the coordinator gives it.
use syncali.Prelude.{
  Bool, true, false, ℕ, ◌+◌, ◌≡◌, ◌⊎◌, inl, inr, refl, ap, ◌∙◌, sym, String, none, some, [], ◌∷◌,
}
use syncali.Coordinator.Tables.{Tables, Entry, Op, upsert, delete, ok}
use syncali.Coordinator.MutationStore.Model.{
  CommitContext, accepted, find_entry, next_blob_id, next_deleted,
}
use syncali.Coordinator.MutationStore.Entries.{find_entry-id}
use syncali.Coordinator.MutationStore.{commit_mutations, CommitMutationsResult}
use syncali.Coordinator.MutationStore.Answers.{Shows, Stores, commit_mutations-Advanced}
use syncali.MutationQueue.{
  PendingMutationRow, EntryMetadata, MetadataContext, LocalUpsert, LocalDelete,
  build_local_upsert_mutation, build_local_delete_mutation, commit_payload,
}

-- What a device changes: a note is written, or deleted.
pub data LocalChange : Type 0 where
  writes : LocalUpsert → (new_blob_id mutation_id : String) → ℕ → LocalChange
  deletes : LocalDelete → (mutation_id : String) → ℕ → LocalChange

unfoldable pub queued :
    (EntryMetadata → MetadataContext → String) → LocalChange → PendingMutationRow
unfolding build_local_upsert_mutation build_local_delete_mutation
queued encrypt (writes input new_blob_id mutation_id now) =
    build_local_upsert_mutation encrypt input new_blob_id mutation_id now
queued encrypt (deletes input mutation_id now) =
    build_local_delete_mutation encrypt input mutation_id now

abbrev pub metadata_of : LocalChange → EntryMetadata
metadata_of (writes input new_blob_id mutation_id now) = record {
  path = input.path;
  hash = some input.hash;
}
metadata_of (deletes input mutation_id now) = record { path = input.path; hash = none }

abbrev pub bound_to : PendingMutationRow → ℕ → MetadataContext
bound_to q revision = record {
  entry_id = q.entry_id;
  revision = revision;
  op = q.op;
  blob_id = q.blob_id;
}

queued_lem :
    (encrypt : EntryMetadata → MetadataContext → String) (change : LocalChange)
    → (queued encrypt change).encrypted_metadata
      ≡ encrypt
          (metadata_of change)
          (bound_to (queued encrypt change) ((queued encrypt change).base_revision + 1))
unfolding queued
queued_lem encrypt (writes input new_blob_id mutation_id now) = refl
queued_lem encrypt (deletes input mutation_id now) = refl

abbrev pub op_of : Bool → Op
op_of true = delete
op_of false = upsert

-- What the columns of an entry's row say of its metadata.
abbrev pub bound_to_row : Entry → MetadataContext
bound_to_row e = record {
  entry_id = e.entry_id;
  revision = e.revision;
  op = op_of e.deleted;
  blob_id = e.blob_id;
}

-- The row of the change's entry holds metadata that is encrypted for the contents of that row.
pub record IsReadable (encrypt : EntryMetadata → MetadataContext → String) (change : LocalChange)
    (u : Tables) : Type 0 where
  pub entry : Entry
  pub found : find_entry (queued encrypt change).entry_id u.entries ≡ some entry
  pub readable : entry.encrypted_metadata ≡ encrypt (metadata_of change) (bound_to_row entry)

queued-op :
    (encrypt : EntryMetadata → MetadataContext → String) (change : LocalChange)
    → op_of (next_deleted (commit_payload (queued encrypt change))) ≡ (queued encrypt change).op
unfolding queued
queued-op encrypt (writes input new_blob_id mutation_id now) = refl
queued-op encrypt (deletes input mutation_id now) = refl

queued-blob :
    (encrypt : EntryMetadata → MetadataContext → String) (change : LocalChange)
    → next_blob_id (commit_payload (queued encrypt change)) ≡ (queued encrypt change).blob_id
unfolding queued
queued-blob encrypt (writes input new_blob_id mutation_id now) = refl
queued-blob encrypt (deletes input mutation_id now) = refl

context_path :
    (x y : MetadataContext)
    → x.entry_id ≡ y.entry_id
    → x.revision ≡ y.revision
    → x.op ≡ y.op
    → x.blob_id ≡ y.blob_id
    → x ≡ y
context_path x y p q r s = λ i. record { entry_id = p i; revision = q i; op = r i; blob_id = s i }

Stores-IsReadable :
    (encrypt : EntryMetadata → MetadataContext → String) (change : LocalChange) (revision : ℕ)
    (u : Tables)
    → revision ≡ (queued encrypt change).base_revision + 1
    → Stores (commit_payload (queued encrypt change)) revision u
    → IsReadable encrypt change u
Stores-IsReadable encrypt change revision u next v =
    let q = queued encrypt change in
    record {
      entry = v.entry;
      found = v.found;
      readable =
          v.metadata_eq
          ∙ queued_lem encrypt change
          ∙ ap (encrypt (metadata_of change)) (
              context_path (bound_to q (q.base_revision + 1)) (bound_to_row v.entry)
                (sym (find_entry-id q.entry_id u.entries v.entry v.found))
                (sym (v.revision_eq ∙ next))
                (sym (ap op_of v.deleted_eq ∙ queued-op encrypt change))
                (sym (v.blob_eq ∙ queued-blob encrypt change)));
    }

-- When the coordinator accepts a queued change, the entry shows it already and nothing changes, or
-- the entry's row now holds metadata that is encrypted for exactly the entry, the revision, the
-- operation and the blob of that row.
pub queued-accepted :
    (encrypt : EntryMetadata → MetadataContext → String) (change : LocalChange) (c : CommitContext)
    (request_id : String) (t u : Tables) (r : CommitMutationsResult) (id entry_id : String)
    (cursor revision : ℕ)
    → commit_mutations c request_id (commit_payload (queued encrypt change) ∷ []) t ≡ ok (r, u)
    → r.results ≡ accepted id cursor entry_id revision ∷ []
    → ((u ≡ t) × Shows (commit_payload (queued encrypt change)) cursor revision t)
      ⊎ (IsReadable encrypt change u
          × Shows (commit_payload (queued encrypt change)) cursor revision u)
queued-accepted encrypt change c request_id t u r id entry_id cursor revision h a =
    elim (commit_mutations-Advanced c request_id (commit_payload (queued encrypt change)) t u r id
      entry_id cursor revision h a) [
        | inl again ↦ inl again
        | inr v ↦
            inr (Stores-IsReadable encrypt change revision u v.next_revision v.stored, v.shown)
      ]
