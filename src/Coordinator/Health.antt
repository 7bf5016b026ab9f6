-- ===== src/Coordinator/Health.antt =====
-- store/health-store.ts of the coordinator: the summary of a vault's health, the reasons for it, and
-- the time at which it is written again. The number of open sockets is an argument. The share of
-- the limit, `Math.floor(limit * 0.8)`, is four fifths rounded down.
pub mod Stable
pub mod Flush
mod Examples
use syncali.Prelude.{
  ℕ, ◌+◌, ◌-◌, ◌*◌, ◌/◌, min, String, Bool, true, false, not, ◌&&◌, ◌||◌, Option, none, some, List,
  [], ◌∷◌, ◌++◌, ltb, leb, if◌then◌else◌, length, select_where, least,
}
use syncali.Coordinator.Tables.{
  Tables, Blob, BlobState, staged, live, pending_delete, CoordinatorState,
}
use syncali.Coordinator.BlobStore.{is_staged, is_pending_delete}

unfoldable pub staged_blob_stale_ms : ℕ
staged_blob_stale_ms = 60 * 60 * 1000

unfoldable pub pending_delete_stale_ms : ℕ
pending_delete_stale_ms = 24 * 60 * 60 * 1000

unfoldable pub active_without_recent_commit_ms : ℕ
active_without_recent_commit_ms = 24 * 60 * 60 * 1000

abbrev pub pending_delete_backlog_warning_count : ℕ
pending_delete_backlog_warning_count = 100

pub data HealthStatus : Type 0 where
  ok warning critical unknown : HealthStatus

pub data HealthReason : Type 0 where
  storage_over_limit storage_near_limit staged_blob_stale pending_delete_stale : HealthReason
  pending_delete_backlog active_without_recent_commit : HealthReason

pub record VaultSyncStatusSummary : Type 0 where
  pub vault_id : String
  pub health_status : HealthStatus
  pub health_reasons : List HealthReason
  pub current_cursor : ℕ
  pub entry_count : ℕ
  pub live_blob_count : ℕ
  pub staged_blob_count : ℕ
  pub pending_delete_blob_count : ℕ
  pub storage_used_bytes : ℕ
  pub storage_limit_bytes : ℕ
  pub active_local_vault_count : ℕ
  pub websocket_count : ℕ
  pub oldest_staged_blob_age_ms : Option ℕ
  pub oldest_pending_delete_age_ms : Option ℕ
  pub last_commit_at : Option ℕ
  pub last_gc_at : Option ℕ

abbrev set_state : (CoordinatorState → CoordinatorState) → Tables → Tables
set_state f t = record t {
  coordinator_state = elim t.coordinator_state [ none ↦ none | some s ↦ some (f s) ];
}

unfoldable pub record_gc_completed : ℕ → Tables → Tables
record_gc_completed now t = set_state (λ s. record s { last_gc_at = some now }) t

unfoldable pub record_health_summary_flushed : ℕ → Tables → Tables
record_health_summary_flushed now t =
    set_state
      (λ s. record s {
        last_health_flushed_at = some now;
        health_flush_retry_count = 0;
        last_health_flush_error = none;
        last_health_flush_error_at = none;
      })
      t

-- The text of the error is what formatCompactError makes of it.
unfoldable pub record_health_summary_flush_failed : String → ℕ → Tables → Tables
record_health_summary_flush_failed error now t =
    set_state
      (λ s. record s {
        health_flush_retry_count = s.health_flush_retry_count + 1;
        last_health_flush_error = some error;
        last_health_flush_error_at = some now;
      })
      t

created_times : List Blob → List ℕ
created_times [] = []
created_times (b ∷ bs) =
    let rest = created_times bs in if is_staged b.state then b.created_at ∷ rest else rest

delete_times : List Blob → List ℕ
delete_times [] = []
delete_times (b ∷ bs) =
    let rest = delete_times bs in
    let counted : List ℕ = elim b.delete_after [ none ↦ rest | some d ↦ d ∷ rest ] in
    if is_pending_delete b.state then counted else rest

abbrev is_live : BlobState → Bool
is_live staged = false
is_live live = true
is_live pending_delete = false

-- max(0, now - timestamp)
abbrev pub age_ms : ℕ → Option ℕ → Option ℕ
age_ms now none = none
age_ms now (some timestamp) = some (now - timestamp)

-- The status so far and the reasons so far.
abbrev pub warn : HealthReason → HealthStatus × List HealthReason → HealthStatus × List HealthReason
warn reason (status, reasons) = (
  elim status [ ok ↦ warning | warning ↦ warning | critical ↦ critical | unknown ↦ unknown ],
  reasons ++ reason ∷ [],
)

abbrev pub warn_if :
    Bool → HealthReason → HealthStatus × List HealthReason → HealthStatus × List HealthReason
warn_if test reason e = if test then warn reason e else e

abbrev is_older : ℕ → Option ℕ → Bool
is_older threshold none = false
is_older threshold (some age) = leb threshold age

abbrev no_recent_commit : ℕ → VaultSyncStatusSummary → Bool
no_recent_commit now s = ltb 0 s.active_local_vault_count && elim s.last_commit_at [
  | none ↦ true
  | some at ↦ leb active_without_recent_commit_ms (now - at)
]

abbrev pub storage_health : VaultSyncStatusSummary → HealthStatus × List HealthReason
storage_health s =
    if ltb 0 s.storage_limit_bytes && leb s.storage_limit_bytes s.storage_used_bytes
    then (critical, storage_over_limit ∷ [])
    else (if ltb 0 s.storage_limit_bytes && leb (s.storage_limit_bytes * 4 / 5) s.storage_used_bytes
        then (warning, storage_near_limit ∷ [])
        else (ok, []))

unfoldable pub evaluate_health : VaultSyncStatusSummary → ℕ → HealthStatus × List HealthReason
unfolding staged_blob_stale_ms pending_delete_stale_ms active_without_recent_commit_ms
evaluate_health s now = warn_if (no_recent_commit now s) active_without_recent_commit (
    warn_if (ltb pending_delete_backlog_warning_count s.pending_delete_blob_count)
      pending_delete_backlog
      (warn_if (is_older pending_delete_stale_ms s.oldest_pending_delete_age_ms)
        pending_delete_stale
        (warn_if (is_older staged_blob_stale_ms s.oldest_staged_blob_age_ms) staged_blob_stale
          (storage_health s))))

-- The summary before it is judged.
unfoldable pub gather_summary : Tables → CoordinatorState → ℕ → ℕ → ℕ → VaultSyncStatusSummary
unfolding least created_times delete_times select_where
gather_summary t s now active_cursor_ttl_ms sockets = record {
  vault_id = s.vault_id;
  health_status = ok;
  health_reasons = [];
  current_cursor = s.current_cursor;
  entry_count = length (select_where (λ e. not e.deleted) t.entries);
  live_blob_count = length (select_where (λ b. is_live b.state) t.blobs);
  staged_blob_count = length (select_where (λ b. is_staged b.state) t.blobs);
  pending_delete_blob_count = length (select_where (λ b. is_pending_delete b.state) t.blobs);
  storage_used_bytes = s.storage_used_bytes;
  storage_limit_bytes = s.storage_limit_bytes;
  active_local_vault_count = length (
      select_where (λ c. leb (now - active_cursor_ttl_ms) c.last_connected_at)
        t.local_vault_connections);
  websocket_count = sockets;
  oldest_staged_blob_age_ms = age_ms now (least (created_times t.blobs));
  oldest_pending_delete_age_ms = age_ms now (least (delete_times t.blobs));
  last_commit_at = s.last_commit_at;
  last_gc_at = s.last_gc_at;
}

unfoldable pub read_health_summary : Tables → ℕ → ℕ → ℕ → Option VaultSyncStatusSummary
unfolding gather_summary evaluate_health
read_health_summary t now active_cursor_ttl_ms sockets = elim t.coordinator_state [
  | none ↦ none
  | some s ↦
      let summary = gather_summary t s now active_cursor_ttl_ms sockets in
      let evaluated = evaluate_health summary now in
      some (record summary { health_status = evaluated.0; health_reasons = evaluated.1 })
]

abbrev pub future_due_from_age : ℕ → Option ℕ → ℕ → List ℕ
future_due_from_age now none threshold = []
future_due_from_age now (some age) threshold =
    if leb threshold age then [] else (now + (threshold - age)) ∷ []

abbrev pub commit_warning : VaultSyncStatusSummary → ℕ → List ℕ
commit_warning s now = elim s.last_commit_at [
  | none ↦ []
  | some at ↦
      if ltb 0 s.active_local_vault_count && ltb now (at + active_without_recent_commit_ms)
      then (at + active_without_recent_commit_ms) ∷ []
      else []
]

unfoldable pub next_health_summary_flush_at : VaultSyncStatusSummary → ℕ → Option ℕ
unfolding least staged_blob_stale_ms pending_delete_stale_ms active_without_recent_commit_ms
next_health_summary_flush_at s now = least (
    commit_warning s now
    ++ (future_due_from_age now s.oldest_staged_blob_age_ms staged_blob_stale_ms
        ++ future_due_from_age now s.oldest_pending_delete_age_ms pending_delete_stale_ms))

pub record StorageStatusSnapshot : Type 0 where
  pub storage_used_bytes : ℕ
  pub storage_limit_bytes : ℕ

unfoldable pub read_storage_status : Tables → StorageStatusSnapshot
read_storage_status t = elim t.coordinator_state [
  | none ↦ record { storage_used_bytes = 0; storage_limit_bytes = 0 }
  | some s ↦ record {
    storage_used_bytes = s.storage_used_bytes;
    storage_limit_bytes = s.storage_limit_bytes;
  }
]
