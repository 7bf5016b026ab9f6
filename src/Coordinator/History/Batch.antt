-- ===== src/Coordinator/History/Batch.antt =====
-- restoreEntryVersions and purgeDeletedEntries of entry/history-service.ts. The arrays that the
-- source fills together, mutationIndexes, restoredFromRevisions and mutations, are one list.
use syncali.Prelude.{ℕ, zero, suc, String, Bool, Option, none, some, List, [], ◌∷◌, map, length}
use syncali.Coordinator.Tables.{Tables}
use syncali.Coordinator.CursorStore.{read_version_history_retention_days, current_cursor}
use syncali.Coordinator.MutationStore.Model.{Mutation, BatchResult, accepted, rejected}
use syncali.Coordinator.BlobSync.{BlobSync, tables_of, with_tables, collect_purged_blobs}
use syncali.Coordinator.CommitService.{CommitCall, day_in_ms, commit_mutations_request}
use syncali.Coordinator.History.{PurgeEntry, PurgeResult, purge_deleted_entry_versions}
use syncali.Coordinator.History.Service.{
  HistoryError, commit_rejects, Reply, fails, replies, from_store, retention_start, Restore,
  check_restore, mutation_of, restoring,
}

pub data RestoreResult : Type 0 where
  restored_from : (entry_id version_id : String) (from cursor revision : ℕ) → RestoreResult
  refused : (entry_id version_id : String) → HistoryError → RestoreResult
  commit_pending : (entry_id version_id : String) → RestoreResult

-- A restore that passed its tests: its place among the results, its version's revision, and its
-- mutation.
pub record Pending : Type 0 where
  pub index : ℕ
  pub from : ℕ
  pub mutation : Mutation

-- The loop over the restores, behind `i` results and `n` drawn ids.
unfoldable pub prepare :
    Tables → ℕ → (ℕ → String) → List Restore → (i n : ℕ) → List RestoreResult × List Pending
unfolding check_restore
prepare t start uuid [] i n = ([], [])
prepare t start uuid (r ∷ rs) i n =
    let skipped = prepare t start uuid rs (suc i) n in
    let onward = prepare t start uuid rs (suc i) (suc n) in
    elim (check_restore t start r) [
      | fails e ↦ (refused r.entry_id r.version_id e ∷ skipped.0, skipped.1)
      | replies from ↦ (
        commit_pending r.entry_id r.version_id ∷ onward.0,
        record { index = i; from = from; mutation = mutation_of (uuid n) r } ∷ onward.1,
      )
    ]

abbrev pub answer_of : Restore → (from : ℕ) → BatchResult → RestoreResult
answer_of r from (accepted id cursor entry_id revision) =
    restored_from r.entry_id r.version_id from cursor revision
answer_of r from (rejected id entry_id code) = refused r.entry_id r.version_id (commit_rejects code)

unfoldable pub get_elem? : {A : Type 0} → List A → ℕ → Option A
get_elem? [] i = none
get_elem? (x ∷ xs) zero = some x
get_elem? (x ∷ xs) (suc i) = get_elem? xs i

-- `results[i] = x`, for an index in range.
unfoldable pub set_at : {A : Type 0} → ℕ → A → List A → List A
set_at i x [] = []
set_at zero x (y ∷ ys) = x ∷ ys
set_at (suc i) x (y ∷ ys) = y ∷ set_at i x ys

-- The loop over the results of the commit.
unfoldable pub place :
    List Restore → List Pending → List BatchResult → List RestoreResult → List RestoreResult
unfolding get_elem? set_at
place restores ps [] results = results
place restores [] (b ∷ bs) results = results
place restores (p ∷ ps) (b ∷ bs) results = place restores ps bs (elim (get_elem? restores p.index) [
  | none ↦ results
  | some r ↦ set_at p.index (answer_of r p.from b) results
])

pub record VersionsRestored : Type 0 where
  pub cursor : ℕ
  pub results : List RestoreResult
  pub broadcast_cursor : Option ℕ

-- What follows the tests: nothing to commit, or one commit of all mutations.
unfoldable pub commit_restores :
    CommitCall
    → String
    → List Restore
    → BlobSync
    → List RestoreResult × List Pending
    → Reply (VersionsRestored × BlobSync)
unfolding commit_mutations_request place current_cursor
commit_restores call request_id restores s (results, []) =
    from_store (current_cursor (tables_of s))
      λ cursor. replies (record { cursor = cursor; results = results; broadcast_cursor = none }, s)
commit_restores call request_id restores s (results, p ∷ ps) =
    from_store
      (commit_mutations_request (restoring (length (p ∷ ps)) call) request_id
        (map (λ q. q.mutation) (p ∷ ps)) s)
      λ committed. replies (
        record {
          cursor = committed.0.cursor;
          results = place restores (p ∷ ps) committed.0.results results;
          broadcast_cursor = committed.0.broadcast_cursor;
        },
        committed.1,
      )

unfoldable pub restore_entry_versions :
    CommitCall → String → List Restore → BlobSync → Reply (VersionsRestored × BlobSync)
unfolding prepare commit_restores read_version_history_retention_days day_in_ms
restore_entry_versions call request_id restores s =
    from_store (read_version_history_retention_days (tables_of s)) λ days.
      commit_restores call request_id restores s
        (prepare (tables_of s) (retention_start call.now days) call.random_uuid restores 0 0)

-- purgeDeletedEntries. `fails_to` tells the blobs whose object cannot be deleted.
unfoldable pub purge_deleted_entries :
    (fails_to : String → Bool)
    → (now clock : ℕ) → List PurgeEntry
    → BlobSync
    → Reply (List PurgeResult × BlobSync)
unfolding purge_deleted_entry_versions collect_purged_blobs read_version_history_retention_days
    day_in_ms
purge_deleted_entries fails_to now clock entries s =
    from_store (read_version_history_retention_days (tables_of s)) λ days.
      let p = purge_deleted_entry_versions entries (retention_start now days) (tables_of s) in
      replies (
        p.results,
        collect_purged_blobs fails_to now clock p.candidate_blob_ids (with_tables s p.tables),
      )
