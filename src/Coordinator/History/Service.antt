-- ===== src/Coordinator/History/Service.antt =====
-- entry/history-service.ts of the coordinator: listings of the history, restoring and purging.
-- Requests run one at a time. `crypto.randomUUID()` draws the ids of the mutations before the
-- commit draws its own. The code of an error stands for its text.
use syncali.Prelude.{
  ℕ, suc, ◌+◌, ◌-◌, ◌*◌, min, String, Bool, true, false, not, ◌&&◌, ◌||◌, Option, none, some, ◌==◌,
  if◌then◌else◌, is_some, refers, length, TextOrder,
}
use syncali.Coordinator.Tables.{
  Tables, Entry, EntryVersion, EntryVersionReason, before_restore, Op, upsert, delete, Outcome, ok,
  throws, StoreError,
}
use syncali.Coordinator.CursorStore.{read_version_history_retention_days}
use syncali.Coordinator.EntryStore.{read_entry}
use syncali.Coordinator.Listing.{Listed, list_page}
use syncali.Coordinator.MutationStore.Model.{Mutation, RejectCode}
use syncali.Coordinator.MutationStore.{CommitMutationResult, commit_accepted, commit_rejected}
use syncali.Coordinator.BlobSync.{BlobSync, tables_of}
use syncali.Coordinator.CommitService.{CommitCall, day_in_ms, commit_mutation_request}
use syncali.Coordinator.History.{
  EntryVersionPageCursor, DeletedEntryPageCursor, list_entry_versions, list_deleted_entries,
  read_entry_version, is_upsert,
}

abbrev pub max_history_batch : ℕ
max_history_batch = 100

abbrev pub max_deleted_entries_batch : ℕ
max_deleted_entries_batch = 100

-- What a request fails with.
pub data HistoryError : Type 0 where
  store_fails : StoreError → HistoryError
  history_not_found entry_not_found version_not_found version_mismatch : HistoryError
  stale_revision : (expected received : ℕ) → HistoryError
  commit_rejects : RejectCode → HistoryError

pub data Reply {ℓ} (A : Type ℓ) : Type ℓ where
  fails : HistoryError → Reply A
  replies : A → Reply A

-- A call of a store in a request.
abbrev pub from_store {ℓ κ} : {A : Type ℓ} {B : Type κ} → Outcome A → (A → Reply B) → Reply B
from_store first rest = elim first [ throws e ↦ fails (store_fails e) | ok value ↦ rest value ]

-- now - retention; a time before all others is 0 here.
abbrev pub retention_start : ℕ → ℕ → ℕ
retention_start now days = now - days * day_in_ms

pub record DeletedEntry : Type 0 where
  pub entry_id : String
  pub revision : ℕ
  pub encrypted_metadata : String
  pub deleted_at : ℕ

abbrev pub to_deleted_entry : Entry → DeletedEntry
to_deleted_entry e = record {
  entry_id = e.entry_id;
  revision = e.revision;
  encrypted_metadata = e.encrypted_metadata;
  deleted_at = e.updated_at;
}

abbrev pub cursor_of_deleted : Entry → DeletedEntryPageCursor
cursor_of_deleted e = record { deleted_at = e.updated_at; entry_id = e.entry_id }

pub record ListedVersion : Type 0 where
  pub version_id : String
  pub source_revision : ℕ
  pub op : Op
  pub blob_id : Option String
  pub encrypted_metadata : String
  pub reason : EntryVersionReason
  pub captured_at : ℕ

abbrev pub to_listed_version : EntryVersion → ListedVersion
to_listed_version v = record {
  version_id = v.version_id;
  source_revision = v.source_revision;
  op = v.op_type;
  blob_id = v.blob_id;
  encrypted_metadata = v.encrypted_metadata;
  reason = v.reason;
  captured_at = v.captured_at;
}

abbrev pub cursor_of_version : EntryVersion → EntryVersionPageCursor
cursor_of_version v = record { captured_at = v.captured_at; version_id = v.version_id }

module _ (texts : TextOrder) where
  unfoldable pub list_deleted_entries_page :
      Tables
      → ℕ
      → Option DeletedEntryPageCursor
      → ℕ
      → Reply (Listed DeletedEntry DeletedEntryPageCursor)
  unfolding list_deleted_entries list_page read_version_history_retention_days day_in_ms
  list_deleted_entries_page t now before limit =
      from_store (read_version_history_retention_days t) λ days.
        let effective_limit = min limit max_deleted_entries_batch in
        replies (
          list_page to_deleted_entry cursor_of_deleted effective_limit
            (list_deleted_entries texts t before (retention_start now days) (suc effective_limit)))

  -- An entry without versions is told from one that does not exist.
  unfoldable pub list_entry_versions_page :
      Tables
      → ℕ
      → String
      → Option EntryVersionPageCursor
      → ℕ
      → Reply (Listed ListedVersion EntryVersionPageCursor)
  unfolding list_entry_versions list_page read_version_history_retention_days day_in_ms read_entry
  list_entry_versions_page t now entry_id before limit =
      from_store (read_version_history_retention_days t) λ days.
        let effective_limit = min limit max_history_batch in
        let page = list_page to_listed_version cursor_of_version effective_limit (
          list_entry_versions texts t entry_id before (retention_start now days)
            (suc effective_limit)) in
        if length page.entries == 0 && not (is_some (read_entry t entry_id))
        then fails history_not_found
        else replies page

-- What a client asks to restore: a version, and the mutation that it makes of it.
pub record Restore : Type 0 where
  pub entry_id : String
  pub version_id : String
  pub base_revision : ℕ
  pub op : Op
  pub blob_id : Option String
  pub encrypted_metadata : String

abbrev same_blob : Option String → Option String → Bool
same_blob none none = true
same_blob none (some b) = false
same_blob (some a) o = refers a o

abbrev same_op : Op → Op → Bool
same_op upsert o = is_upsert o
same_op delete o = not (is_upsert o)

-- The tests of a restore: the version's revision, or the refusal.
unfoldable pub check_restore : Tables → ℕ → Restore → Reply ℕ
unfolding read_entry read_entry_version
check_restore t start r = elim (read_entry t r.entry_id) [
  | none ↦ fails entry_not_found
  | some current ↦ elim (read_entry_version t r.entry_id r.version_id start) [
    | none ↦ fails version_not_found
    | some target ↦
        if not (current.revision == r.base_revision)
        then fails (stale_revision current.revision r.base_revision)
        else (if not (same_op target.op_type r.op) || not (same_blob target.blob_id r.blob_id)
            then fails version_mismatch
            else replies target.source_revision)
  ]
]

abbrev pub mutation_of : String → Restore → Mutation
mutation_of id r = record {
  mutation_id = id;
  entry_id = r.entry_id;
  op = r.op;
  base_revision = r.base_revision;
  blob_id = r.blob_id;
  encrypted_metadata = r.encrypted_metadata;
}

-- The call of the commit, after `n` ids are drawn.
abbrev pub restoring : ℕ → CommitCall → CommitCall
restoring n call = record call {
  forced_history_before = some before_restore;
  random_uuid = λ k. call.random_uuid (n + k);
}

pub record Restored : Type 0 where
  pub restored_from_revision : ℕ
  pub cursor : ℕ
  pub revision : ℕ
  pub broadcast_cursor : Option ℕ

restored : ℕ → CommitMutationResult × BlobSync → Reply (Restored × BlobSync)
restored from (commit_accepted request_id cursor entry_id revision broadcast, s) = replies (
  record {
    restored_from_revision = from;
    cursor = cursor;
    revision = revision;
    broadcast_cursor = broadcast;
  },
  s,
)
restored from (commit_rejected request_id code, s) = fails (commit_rejects code)

unfoldable pub restore_entry_version :
    CommitCall → String → Restore → BlobSync → Reply (Restored × BlobSync)
unfolding check_restore restored commit_mutation_request read_version_history_retention_days
    day_in_ms
restore_entry_version call request_id r s =
    from_store (read_version_history_retention_days (tables_of s)) λ days.
      elim (check_restore (tables_of s) (retention_start call.now days) r) [
        | fails e ↦ fails e
        | replies from ↦
            from_store
              (commit_mutation_request (restoring 1 call) request_id
                (mutation_of (call.random_uuid 0) r) s)
              (restored from)
      ]
