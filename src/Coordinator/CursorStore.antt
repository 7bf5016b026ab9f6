-- ===== src/Coordinator/CursorStore.antt =====
-- store/cursor-store.ts of the coordinator: the row of coordinator_state and the connections.
use syncali.Prelude.{
  ℕ, String, Bool, true, false, not, ◌&&◌, Option, none, some, same, truthy, delete_where,
  upsert_where,
}
use syncali.Coordinator.Tables.{
  Tables, CoordinatorState, LocalVaultConnection, Outcome, ok, ◌>>=◌, ◌>>◌, throw_if, or_throw,
  not_initialized, vault_id_mismatch,
}

pub record VaultStateLimits : Type 0 where
  pub storage_limit_bytes : ℕ
  pub max_file_size_bytes : ℕ
  pub version_history_retention_days : ℕ

unfoldable pub current_cursor : Tables → Outcome ℕ
current_cursor t = do s ← or_throw t.coordinator_state not_initialized; ok s.current_cursor

initial_state : String → VaultStateLimits → CoordinatorState
initial_state vault_id limits = record {
  vault_id = vault_id;
  current_cursor = 0;
  storage_used_bytes = 0;
  storage_limit_bytes = limits.storage_limit_bytes;
  max_file_size_bytes = limits.max_file_size_bytes;
  version_history_retention_days = limits.version_history_retention_days;
  last_commit_at = none;
  last_gc_at = none;
  last_health_flushed_at = none;
  health_flush_retry_count = 0;
  last_health_flush_error = none;
  last_health_flush_error_at = none;
}

unfoldable pub ensure_vault_state : Tables → String → VaultStateLimits → Outcome Tables
unfolding initial_state
ensure_vault_state t vault_id limits = elim t.coordinator_state [
  | none ↦ ok (record t { coordinator_state = some (initial_state vault_id limits) })
  | some s ↦ do throw_if (not (same s.vault_id vault_id)) vault_id_mismatch; ok t
]

unfoldable pub read_vault_id : Tables → Option String
read_vault_id t = elim t.coordinator_state [ none ↦ none | some s ↦ some s.vault_id ]

unfoldable pub vault_state_exists_for : Tables → String → Outcome Bool
unfolding read_vault_id
vault_state_exists_for t vault_id = elim (truthy (read_vault_id t)) [
  | none ↦ ok false
  | some existing ↦ do throw_if (not (same existing vault_id)) vault_id_mismatch; ok true
]

unfoldable pub read_vault_limits : Tables → Outcome VaultStateLimits
read_vault_limits t = do
  s ← or_throw t.coordinator_state not_initialized
  ok (record {
    storage_limit_bytes = s.storage_limit_bytes;
    max_file_size_bytes = s.max_file_size_bytes;
    version_history_retention_days = s.version_history_retention_days;
  })

set_limits : VaultStateLimits → Option CoordinatorState → Option CoordinatorState
set_limits limits none = none
set_limits limits (some s) = some (record s {
  storage_limit_bytes = limits.storage_limit_bytes;
  max_file_size_bytes = limits.max_file_size_bytes;
  version_history_retention_days = limits.version_history_retention_days;
})

unfoldable pub apply_vault_policy : Tables → String → VaultStateLimits → Outcome (Bool × Tables)
unfolding read_vault_id set_limits
apply_vault_policy t vault_id limits = elim (truthy (read_vault_id t)) [
  | none ↦ ok (false, t)
  | some existing ↦ do
    throw_if (not (same existing vault_id)) vault_id_mismatch
    ok (true, record t { coordinator_state = set_limits limits t.coordinator_state })
]

unfoldable pub read_version_history_retention_days : Tables → Outcome ℕ
unfolding read_vault_limits
read_version_history_retention_days t = do
  limits ← read_vault_limits t
  ok limits.version_history_retention_days

is_connection : String → String → LocalVaultConnection → Bool
is_connection user_id local_vault_id c =
    same c.user_id user_id && same c.local_vault_id local_vault_id

unfoldable pub record_local_vault_connection : Tables → String → String → ℕ → Tables
unfolding is_connection upsert_where
record_local_vault_connection t user_id local_vault_id now = record t {
  local_vault_connections =
      upsert_where (is_connection user_id local_vault_id)
        (λ c. record c { last_connected_at = now })
        (record { user_id = user_id; local_vault_id = local_vault_id; last_connected_at = now })
        t.local_vault_connections;
}

unfoldable pub delete_local_vault_connection : Tables → String → String → Tables
unfolding is_connection delete_where
delete_local_vault_connection t user_id local_vault_id = record t {
  local_vault_connections =
      delete_where (is_connection user_id local_vault_id) t.local_vault_connections;
}
