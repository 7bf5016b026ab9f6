-- ===== src/Coordinator/Examples.antt =====
-- The stores of the coordinator at concrete tables: a vault with one note, and an edit of it.
use syncali.Prelude.{
  map, ◌≡◌, ◌≢◌, ◌⊎◌, refl, ◌≤◌, false, none, some, [], ◌∷◌, arith, text_dec, has, trim,
}
use syncali.Coordinator.Tables.{
  Tables, Blob, Entry, CoordinatorState, staged, live, upsert, ok, throws,
}
use syncali.Coordinator.BlobStore.{
  in_entries, stage_blob, find_blob, read_blob_state, mark_blob_live,
  mark_blob_pending_delete_if_unreferenced,
}
use syncali.Coordinator.BlobStore.Rows.{total_size}
use syncali.Coordinator.BlobStore.Usage.{IsAccounted, stage_blob-IsAccounted, stage_blob_quota}
use syncali.Coordinator.BlobStore.References.{is_backed, live_blob}
use syncali.Coordinator.CursorStore.{current_cursor}
use syncali.Coordinator.MutationStore.Model.{
  CommitContext, Mutation, find_entry, allocate_cursor, accepted, rejected, stale_revision,
}
use syncali.Coordinator.MutationStore.Versions.{capture_before, capture_auto}
use syncali.Coordinator.MutationStore.Invariant.{IsStored, commit_mutations-IsStored}
use syncali.Coordinator.MutationStore.Answers.{Shows, Advanced, commit_mutations-Advanced}
use syncali.Coordinator.MutationStore.Replay.{commit_mutations_replay, commit_mutations_rival}
use syncali.Coordinator.MutationStore.Frame.{answered, asked, commit_mutations_frame}
use syncali.Coordinator.StoreHistory.{
  call, history, stages, commits, collects, removes, history-IsStored,
}
use syncali.Coordinator.MutationStore.{
  commit_mutations, CommitMutationsResult, commit_all, commit_one, commit_unless_applied,
  commit_at_revision, commit_with_blob, apply_mutation, write_entry, hold_next_blob,
  release_current_blob, start_batch, save_cursor, response_cursor,
}

abbrev pub state : CoordinatorState
state = record {
  vault_id = "vault";
  current_cursor = 4;
  storage_used_bytes = 10;
  storage_limit_bytes = 100;
  max_file_size_bytes = 50;
  version_history_retention_days = 1;
  last_commit_at = none;
  last_gc_at = none;
  last_health_flushed_at = none;
  health_flush_retry_count = 0;
  last_health_flush_error = none;
  last_health_flush_error_at = none;
}

abbrev pub old_blob : Blob
old_blob = record {
  blob_id = "old";
  state = live;
  size_bytes = 10;
  created_at = 1;
  last_uploaded_at = 1;
  delete_after = none;
}

abbrev pub note : Entry
note = record {
  entry_id = "note";
  revision = 2;
  blob_id = some "old";
  encrypted_metadata = "{}";
  deleted = false;
  updated_seq = 4;
  updated_at = 9;
  updated_by_user_id = "user";
  updated_by_local_vault_id = "laptop";
  last_mutation_id = some "m1";
}

abbrev pub tables : Tables
tables = record {
  coordinator_state = some state;
  entries = note ∷ [];
  entry_versions = [];
  blobs = old_blob ∷ [];
  local_vault_connections = [];
}

abbrev new_blob : Blob
new_blob = record {
  blob_id = "new";
  state = staged;
  size_bytes = 20;
  created_at = 30;
  last_uploaded_at = 30;
  delete_after = some 90;
}

abbrev pub staged_tables : Tables
staged_tables = record tables {
  coordinator_state = some (record state { storage_used_bytes = 30 });
  blobs = old_blob ∷ new_blob ∷ [];
}

abbrev pub context : CommitContext
context = record {
  session = record {
    user_id = "user";
    local_vault_id = "phone";
    vault_id = "vault";
    wants_storage_status = false;
  };
  now = 40;
  stage_grace_period_ms = 60;
  version_history_retention_ms = 1000;
  forced_history_before = none;
  unavailable_blob_ids = [];
  random_uuid = λ n. "v";
}

abbrev pub edit : Mutation
edit = record {
  mutation_id = " m2 ";
  entry_id = "note";
  op = upsert;
  base_revision = 2;
  blob_id = some "new";
  encrypted_metadata = "{1}";
}

tables-IsAccounted : IsAccounted tables
unfolding total_size find_blob
tables-IsAccounted = record { total = refl; distinct = (refl, tt) }

stage_new_blob : stage_blob tables "new" 20 30 90 ≡ ok staged_tables
unfolding stage_blob text_dec
stage_new_blob = refl

stage_blob-IsAccounted_example : IsAccounted staged_tables
stage_blob-IsAccounted_example =
    stage_blob-IsAccounted tables staged_tables "new" 20 30 90 tables-IsAccounted stage_new_blob

stage_blob_quota_example : total_size staged_tables.blobs ≤ 100
unfolding find_blob text_dec
stage_blob_quota_example =
    stage_blob_quota tables staged_tables "new" 20 30 90 state tables-IsAccounted refl (omega arith)
      refl stage_new_blob

staged_tables-IsStored : IsStored staged_tables
unfolding total_size find_blob is_backed live_blob text_dec find_entry
staged_tables-IsStored = record {
  accounted = record { total = refl; distinct = (refl, (refl, tt)) };
  backed = (refl, tt);
  entries = (refl, tt);
  below = (omega arith, tt);
  seqs = (tt, tt);
}

pub tables-IsStored : IsStored tables
unfolding find_blob is_backed live_blob text_dec find_entry
tables-IsStored = record {
  accounted = tables-IsAccounted;
  backed = (refl, tt);
  entries = (refl, tt);
  below = (omega arith, tt);
  seqs = (tt, tt);
}

abbrev pub committed : CommitMutationsResult
committed = record {
  request_id = "r";
  cursor = 5;
  results = accepted "m2" 5 "note" 3 ∷ [];
  broadcast_cursor = some 5;
  stale_rejections = [];
}

committed_tables : Tables
unfolding commit_mutations commit_all commit_one commit_unless_applied commit_at_revision
    commit_with_blob apply_mutation write_entry hold_next_blob release_current_blob start_batch
    save_cursor response_cursor current_cursor capture_before capture_auto allocate_cursor
    find_entry has trim text_dec read_blob_state mark_blob_live
    mark_blob_pending_delete_if_unreferenced
committed_tables = elim (commit_mutations context "r" (edit ∷ []) staged_tables) [
  | ok (r, u) ↦ u
  | throws e ↦ staged_tables
]

commit_edit :
    commit_mutations context "r" (edit ∷ []) staged_tables ≡ ok (committed, committed_tables)
unfolding committed_tables
commit_edit = refl

commit_mutations-IsStored_example : IsStored committed_tables
commit_mutations-IsStored_example =
    commit_mutations-IsStored context "r" (edit ∷ []) staged_tables committed_tables committed
      staged_tables-IsStored commit_edit

commit_mutations-Advanced_example :
    ((committed_tables ≡ staged_tables) × Shows edit 5 3 staged_tables)
    ⊎ Advanced edit 5 3 staged_tables committed_tables
commit_mutations-Advanced_example =
    commit_mutations-Advanced context "r" edit staged_tables committed_tables committed "m2" "note"
      5 3 commit_edit refl

commit_mutations_replay_example :
    commit_mutations context "r2" (edit ∷ []) committed_tables
    ≡ ok (
      record {
        request_id = "r2";
        cursor = 5;
        results = accepted (trim " m2 ") 5 "note" 3 ∷ [];
        broadcast_cursor = none;
        stale_rejections = [];
      },
      committed_tables,
    )
commit_mutations_replay_example =
    commit_mutations_replay context context "r" "r2" edit staged_tables committed_tables committed
      "m2" "note" 5 3 commit_edit refl

abbrev rival : Mutation
rival = record edit { mutation_id = "m3" }

rival_differs : trim "m3" ≢ trim " m2 "
unfolding trim text_dec
rival_differs h = cc

commit_mutations_rival_example :
    commit_mutations context "r3" (rival ∷ []) committed_tables
    ≡ ok (
      record {
        request_id = "r3";
        cursor = 5;
        results = rejected (trim "m3") "note" (stale_revision 3 2) ∷ [];
        broadcast_cursor = none;
        stale_rejections =
            record { entry_id = "note"; expected_base_revision = 3; received_base_revision = 2 }
            ∷ [];
      },
      committed_tables,
    )
unfolding committed_tables
commit_mutations_rival_example =
    commit_mutations_rival context context "r" "r3" edit rival staged_tables committed_tables
      committed "m2" "note" 5 3
      (record state { current_cursor = 5; storage_used_bytes = 30; last_commit_at = some 40 })
      commit_edit refl refl refl rival_differs (omega arith)

other_name : edit.entry_id ≢ "other"
unfolding text_dec
other_name h = cc

commit_mutations_frame_example :
    (map answered committed.results ≡ map asked (edit ∷ []))
    × (find_entry "other" committed_tables.entries ≡ find_entry "other" staged_tables.entries)
commit_mutations_frame_example =
    commit_mutations_frame context "r" (edit ∷ []) staged_tables committed_tables committed "other"
      commit_edit (other_name, tt)

new_unnamed : in_entries "new" (call tables (stages "new" 20 30 90)).entries ≡ false
unfolding call stage_blob in_entries text_dec
new_unnamed = refl

history-IsStored_example : IsStored (
    history tables (
      stages "new" 20 30 90
      ∷ removes "new"
      ∷ stages "new" 20 30 90
      ∷ commits context "r" (edit ∷ [])
      ∷ collects "old" 2000
      ∷ []))
history-IsStored_example =
    history-IsStored tables
      (stages "new" 20 30 90
        ∷ removes "new"
        ∷ stages "new" 20 30 90
        ∷ commits context "r" (edit ∷ [])
        ∷ collects "old" 2000
        ∷ [])
      (tt, (new_unnamed, (tt, (tt, (tt, tt))))) tables-IsStored
