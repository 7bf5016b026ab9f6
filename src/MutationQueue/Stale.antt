-- ===== src/MutationQueue/Stale.antt =====
-- engine/push-mutation-shared.ts and engine/push-mutation-committer.ts: what a device does with a
-- change that the coordinator rejects. The vault, the file reader and decryption are parameters;
-- `none` is an error that is thrown.
pub mod Kept
mod Examples
use syncali.Prelude.{
  ℕ, ◌+◌, String, Option, none, some, is_some, Bool, true, false, not, List, [], ◌∷◌, ◌++◌, ltb,
  same, if◌then◌else◌,
}
use syncali.Coordinator.Tables.{Op, upsert, delete}
use syncali.Coordinator.MutationStore.Model.{
  RejectCode, duplicate_mutation_id, stale_revision, blob_not_found, blob_not_staged,
}
use syncali.MutationQueue.{PendingMutationRow, MetadataContext}
use syncali.Paths.Units.{Units}
use syncali.Paths.ConflictFile.{LocalTime, ConflictFileWriter, write_conflict_copy}
use syncali.Engine.PullPlan.{SyncedEntryMetadata}

-- A field of an error: a number, undefined or null, or anything else.
pub data RevisionValue : Type 0 where
  number_value : ℕ → RevisionValue
  missing other_value : RevisionValue

pub record StaleRevisionDetails : Type 0 where
  pub expected_base_revision : RevisionValue
  pub received_base_revision : RevisionValue

pub record StaleRevisionLike : Type 0 where
  pub code : String
  pub expected_base_revision : RevisionValue
  pub received_base_revision : RevisionValue
  pub details : Option StaleRevisionDetails

-- An error or an object with a `code`, or any other value.
pub data PushFailure : Type 0 where
  coded : StaleRevisionLike → PushFailure
  other_failure : PushFailure

unfoldable pub is_stale_revision_like : PushFailure → Bool
is_stale_revision_like (coded error) = same error.code "stale_revision"
is_stale_revision_like other_failure = false

abbrev coalesce : RevisionValue → RevisionValue → RevisionValue
coalesce (number_value n) fallback = number_value n
coalesce missing fallback = fallback
coalesce other_value fallback = other_value

abbrev detail : (StaleRevisionDetails → RevisionValue) → Option StaleRevisionDetails → RevisionValue
detail field none = missing
detail field (some details) = field details

abbrev both_numbers : RevisionValue → RevisionValue → Option (ℕ × ℕ)
both_numbers (number_value expected) (number_value received) = some (expected, received)
both_numbers (number_value expected) missing = none
both_numbers (number_value expected) other_value = none
both_numbers missing received = none
both_numbers other_value received = none

unfoldable pub stale_revision_numbers : PushFailure → Option (ℕ × ℕ)
unfolding is_stale_revision_like
stale_revision_numbers other_failure = none
stale_revision_numbers (coded error) =
    if not (is_stale_revision_like (coded error))
    then none
    else both_numbers
        (coalesce error.expected_base_revision
          (detail (λ (d : StaleRevisionDetails). d.expected_base_revision) error.details))
        (coalesce error.received_base_revision
          (detail (λ (d : StaleRevisionDetails). d.received_base_revision) error.details))

abbrev server_ahead : Option (ℕ × ℕ) → Bool
server_ahead none = false
server_ahead (some (expected, received)) = ltb received expected

abbrev local_ahead : Option (ℕ × ℕ) → Bool
local_ahead none = false
local_ahead (some (expected, received)) = ltb expected received

unfoldable pub is_pull_resolvable_stale_revision : PushFailure → Bool
unfolding stale_revision_numbers
is_pull_resolvable_stale_revision error = server_ahead (stale_revision_numbers error)

unfoldable pub is_local_ahead_stale_revision : PushFailure → Bool
unfolding stale_revision_numbers
is_local_ahead_stale_revision error = local_ahead (stale_revision_numbers error)

unfoldable pub metadata_context_from_mutation : PendingMutationRow → MetadataContext
metadata_context_from_mutation mutation = record {
  entry_id = mutation.entry_id;
  revision = mutation.base_revision + 1;
  op = mutation.op;
  blob_id = mutation.blob_id;
}

-- The rejection of one mutation in the answer to a batch.
abbrev coded_as : String → PushFailure
coded_as code = coded (record {
  code = code;
  expected_base_revision = missing;
  received_base_revision = missing;
  details = none;
})

abbrev pub rejected_failure : RejectCode → PushFailure
rejected_failure duplicate_mutation_id = coded_as "duplicate_mutation_id"
rejected_failure (blob_not_found blob_id) = coded_as "blob_not_found"
rejected_failure (blob_not_staged blob_id) = coded_as "blob_not_staged"
rejected_failure (stale_revision expected received) = coded (record {
  code = "stale_revision";
  expected_base_revision = number_value expected;
  received_base_revision = number_value received;
  details = none;
})

pub record PushConflictEvent : Type 0 where
  pub entry_id : String
  pub op : Op
  pub original_path : Units
  pub conflict_path : Option Units

-- The two results of a rejection; those of an accepted and of a requeued change are left out.
pub data PushStatus : Type 0 where
  stale conflict : PushStatus

pub record PushMutationCommitResult : Type 0 where
  pub status : PushStatus
  pub files_created_or_updated : ℕ
  pub files_deleted : ℕ
  pub conflicts_created : ℕ
  pub should_pull_after_push : Bool

-- The first entry that has the mutation loses it.
unfoldable pub clear_dirty_entry_by_mutation_id :
    String → List PendingMutationRow → List PendingMutationRow
clear_dirty_entry_by_mutation_id mutation_id [] = []
clear_dirty_entry_by_mutation_id mutation_id (row ∷ rows) =
    let rest = clear_dirty_entry_by_mutation_id mutation_id rows in
    if same row.mutation_id mutation_id then rows else row ∷ rest

-- The vault, the queued changes, and the calls of `onConflict`.
pub record Device (S : Type 0) : Type 0 where
  pub vault : S
  pub dirty : List PendingMutationRow
  pub conflicts : List PushConflictEvent

abbrev pub stale_result : PushMutationCommitResult
stale_result = record {
  status = stale;
  files_created_or_updated = 0;
  files_deleted = 0;
  conflicts_created = 0;
  should_pull_after_push = true;
}

abbrev pub conflict_result : PushConflictEvent → PushMutationCommitResult
conflict_result event = record {
  status = conflict;
  files_created_or_updated = 0;
  files_deleted = 0;
  conflicts_created = if is_some event.conflict_path then 1 else 0;
  should_pull_after_push = false;
}

module _ {S : Type 0} (writer : Option (ConflictFileWriter S)) (read : S → Units → Option Units)
    (decrypt : String → MetadataContext → Option SyncedEntryMetadata) (now : LocalTime)
    (fuel : ℕ) where
  abbrev pub write_with : Option (ConflictFileWriter S) → S → Units → Units → Option (Units × S)
  write_with none vault path bytes = none
  write_with (some w) vault path bytes = write_conflict_copy w fuel vault path bytes now

  abbrev pub as_copy : Option (Units × S) → Option (Option Units × S)
  as_copy none = none
  as_copy (some (conflict_path, vault)) = some (some conflict_path, vault)

  -- The copy of a local edit, and none of a deletion.
  abbrev pub copy_of : Op → S → Units → Option Units → Option (Option Units × S)
  copy_of delete vault path content = some (none, vault)
  copy_of upsert vault path none = none
  copy_of upsert vault path (some bytes) = as_copy (write_with writer vault path bytes)

  abbrev pub resolved :
      PendingMutationRow
      → SyncedEntryMetadata
      → Device S
      → Option (Option Units × S)
      → Option (PushConflictEvent × Device S)
  resolved mutation metadata device none = none
  resolved mutation metadata device (some (conflict_path, vault)) =
      let event : PushConflictEvent = record {
        entry_id = mutation.entry_id;
        op = mutation.op;
        original_path = metadata.path;
        conflict_path = conflict_path;
      } in
      some (
        event,
        record {
          vault = vault;
          dirty = clear_dirty_entry_by_mutation_id mutation.mutation_id device.dirty;
          conflicts = device.conflicts ++ event ∷ [];
        },
      )

  abbrev pub conflict_of :
      PendingMutationRow
      → Device S
      → Option SyncedEntryMetadata
      → Option (PushConflictEvent × Device S)
  conflict_of mutation device none = none
  conflict_of mutation device (some metadata) =
      resolved mutation metadata device
        (copy_of mutation.op device.vault metadata.path (read device.vault metadata.path))

  -- For an error that says that this device is ahead of the server.
  unfoldable pub handle_local_ahead_conflict :
      PendingMutationRow → Device S → Option (PushConflictEvent × Device S)
  unfolding metadata_context_from_mutation
  handle_local_ahead_conflict mutation device =
      conflict_of mutation device
        (decrypt mutation.encrypted_metadata (metadata_context_from_mutation mutation))

  abbrev pub conflict_answer :
      Option (PushConflictEvent × Device S) → Option (PushMutationCommitResult × Device S)
  conflict_answer none = none
  conflict_answer (some (event, device)) = some (conflict_result event, device)

  unfoldable pub handle_rejected_prepared_mutation :
      PendingMutationRow → RejectCode → Device S → Option (PushMutationCommitResult × Device S)
  unfolding handle_local_ahead_conflict is_pull_resolvable_stale_revision
      is_local_ahead_stale_revision
  handle_rejected_prepared_mutation mutation code device =
      if is_pull_resolvable_stale_revision (rejected_failure code)
      then some (stale_result, device)
      else if is_local_ahead_stale_revision (rejected_failure code)
      then conflict_answer (handle_local_ahead_conflict mutation device)
      else none
