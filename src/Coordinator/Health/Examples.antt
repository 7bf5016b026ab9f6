-- ===== src/Coordinator/Health/Examples.antt =====
-- The health of a vault with one note, and the flush of its summary.
use syncali.Prelude.{◌≡◌, ◌+◌, ◌∷◌, refl, true, false, none, some, [], arith}
use syncali.Coordinator.Tables.{Tables}
use syncali.Coordinator.Examples.{tables}
use syncali.Coordinator.Maintenance.{health_summary_flush}
use syncali.Coordinator.Maintenance.Defer.{due_of}
use syncali.Coordinator.Health.{
  VaultSyncStatusSummary, read_health_summary, ok, warning, active_without_recent_commit,
  next_health_summary_flush_at,
}
use syncali.Coordinator.Health.Flush.{
  HealthSync, IsTracked, IsFlushed, AtMost, default_health_summary_flush_delay_ms,
  schedule_summary_flush, flush_summary, schedule_summary_flush-IsTracked, flush_summary-IsFlushed,
}
use syncali.Coordinator.Health.Stable.{Before, lasting, status_of, read_health_summary_stable}

abbrev summary : VaultSyncStatusSummary
summary = record {
  vault_id = "vault";
  health_status = ok;
  health_reasons = [];
  current_cursor = 4;
  entry_count = 1;
  live_blob_count = 1;
  staged_blob_count = 0;
  pending_delete_blob_count = 0;
  storage_used_bytes = 10;
  storage_limit_bytes = 100;
  active_local_vault_count = 0;
  websocket_count = 0;
  oldest_staged_blob_age_ms = none;
  oldest_pending_delete_age_ms = none;
  last_commit_at = none;
  last_gc_at = none;
}

tables_summary : read_health_summary tables 50 1000 0 ≡ some summary
unfolding read_health_summary
tables_summary = refl

-- A device that connected once, and is active for 1,000 milliseconds.
abbrev connected : Tables
connected = record tables {
  local_vault_connections =
      record { user_id = "user"; local_vault_id = "device"; last_connected_at = 40 } ∷ [];
}

abbrev active_summary : VaultSyncStatusSummary
active_summary = record summary {
  health_status = warning;
  health_reasons = active_without_recent_commit ∷ [];
  active_local_vault_count = 1;
}

connected_summary : read_health_summary connected 50 1000 0 ≡ some active_summary
unfolding read_health_summary
connected_summary = refl

later_summary : read_health_summary connected 2000 1000 0 ≡ some summary
unfolding read_health_summary
later_summary = refl

no_next_flush : Before 2000 (next_health_summary_flush_at active_summary 50)
unfolding next_health_summary_flush_at
no_next_flush = tt

read_health_summary_stable_example :
    (summary.health_reasons ≡ lasting false active_summary.health_reasons)
    × (summary.health_status ≡ status_of summary.health_reasons)
read_health_summary_stable_example =
    read_health_summary_stable connected 50 2000 1000 0 0 active_summary summary connected_summary
      later_summary (omega arith) no_next_flush

abbrev sync : HealthSync
sync = record {
  scheduled_flush_at = none;
  scheduler = record { jobs = []; alarm = none };
  tables = tables;
}

schedule_summary_flush-IsTracked_example :
    IsTracked (schedule_summary_flush 50 sync)
    × AtMost
        (due_of health_summary_flush (schedule_summary_flush 50 sync).scheduler.jobs)
        (50 + default_health_summary_flush_delay_ms)
schedule_summary_flush-IsTracked_example = schedule_summary_flush-IsTracked 50 sync tt

flush_summary-IsFlushed_example :
    IsFlushed
      (some "offline")
      false
      50
      summary
      sync
      (flush_summary true (some "offline") false 50 1000 0 sync)
flush_summary-IsFlushed_example =
    flush_summary-IsFlushed (some "offline") false 50 1000 0 sync summary tables_summary
