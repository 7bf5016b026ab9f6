-- ===== src/Coordinator/MutationStore/Model.antt =====
-- The data of a commit: the session, the mutations, their results, and the variables of the loop
-- over a batch (store/mutation-store.ts and types.ts of the coordinator).
use syncali.Prelude.{
  ℕ, ◌+◌, ◌*◌, String, Bool, true, false, not, Option, none, some, List, same, select_first,
}
use syncali.Coordinator.Tables.{
  Tables, Entry, Op, upsert, delete, EntryVersionReason, before_delete, Outcome, ok, ◌>>=◌, ◌>>◌,
  throw_if, or_throw, not_initialized, vault_id_mismatch,
}

pub record SocketSession : Type 0 where
  pub user_id : String
  pub local_vault_id : String
  pub vault_id : String
  pub wants_storage_status : Bool

pub record Mutation : Type 0 where
  pub mutation_id : String
  pub entry_id : String
  pub op : Op
  pub base_revision : ℕ
  pub blob_id : Option String
  pub encrypted_metadata : String

pub data RejectCode : Type 0 where
  duplicate_mutation_id : RejectCode
  stale_revision : ℕ → ℕ → RejectCode
  blob_not_found : String → RejectCode
  blob_not_staged : String → RejectCode

pub data BatchResult : Type 0 where
  accepted : String → ℕ → String → ℕ → BatchResult
  rejected : String → String → RejectCode → BatchResult

pub record StaleRevisionRejection : Type 0 where
  pub entry_id : String
  pub expected_base_revision : ℕ
  pub received_base_revision : ℕ

-- The arguments of commitMutations, the time, and the source of ids.
pub record CommitContext : Type 0 where
  pub session : SocketSession
  pub now : ℕ
  pub stage_grace_period_ms : ℕ
  pub version_history_retention_ms : ℕ
  pub forced_history_before : Option EntryVersionReason
  pub unavailable_blob_ids : List String
  pub random_uuid : ℕ → String

pub record Batch : Type 0 where
  pub tables : Tables
  pub results : List BatchResult
  pub highest_response_cursor : Option ℕ
  pub highest_broadcast_cursor : Option ℕ
  pub initial_cursor : Option ℕ
  pub next_cursor : Option ℕ
  pub seen_mutation_ids : List String
  pub stale_rejections : List StaleRevisionRejection
  pub drawn : ℕ

abbrev pub auto_entry_version_bucket_ms : ℕ
auto_entry_version_bucket_ms = 5 * 60 * 1000

unfoldable pub find_entry : String → List Entry → Option Entry
unfolding select_first
find_entry id es = select_first (λ e. same e.entry_id id) es

unfoldable pub allocate_cursor : SocketSession → Batch → Outcome (ℕ × Batch)
allocate_cursor session s = elim s.next_cursor [
  | some n ↦ ok (n + 1, record s { next_cursor = some (n + 1) })
  | none ↦ do
    state ← or_throw s.tables.coordinator_state not_initialized
    throw_if (not (same state.vault_id session.vault_id)) vault_id_mismatch
    ok (
      state.current_cursor + 1,
      record s {
        initial_cursor = some state.current_cursor;
        next_cursor = some (state.current_cursor + 1);
      },
    )
]

abbrev pub next_blob_id : Mutation → Option String
next_blob_id m = elim m.op [ delete ↦ none | upsert ↦ m.blob_id ]

abbrev pub next_deleted : Mutation → Bool
next_deleted m = elim m.op [ delete ↦ true | upsert ↦ false ]

abbrev pub current_revision : Option Entry → ℕ
current_revision none = 0
current_revision (some e) = e.revision

abbrev pub current_blob_id : Option Entry → Option String
current_blob_id none = none
current_blob_id (some e) = e.blob_id

abbrev pub history_before : CommitContext → Mutation → Option EntryVersionReason
history_before c m = elim m.op [ delete ↦ some before_delete | upsert ↦ c.forced_history_before ]
