-- ===== src/Coordinator/History/Examples.antt =====
-- A vault with a deleted note of which one version is kept.
use syncali.Prelude.{
  ◌≡◌, refl, true, none, some, [], ◌∷◌, ◌&&◌, arith, text_dec, has, trim, map, leb, same,
  select_where, code_point_order,
}
use syncali.Coordinator.Tables.{Tables, Entry, EntryVersion, upsert, auto, ok, throws}
use syncali.Coordinator.Examples.{tables, note, context}
use syncali.Coordinator.CursorStore.{current_cursor, read_version_history_retention_days}
use syncali.Coordinator.BlobStore.{
  read_blob_state, mark_blob_live, mark_blob_pending_delete_if_unreferenced,
}
use syncali.Coordinator.EntryStore.{read_entry}
use syncali.Coordinator.Listing.{order_by, read_pages}
use syncali.Coordinator.MutationStore.Model.{allocate_cursor, find_entry, accepted}
use syncali.Coordinator.MutationStore.Versions.{capture_before, capture_auto}
use syncali.Coordinator.MutationStore.{
  commit_mutations, commit_all, commit_one, commit_unless_applied, commit_at_revision,
  commit_with_blob, apply_mutation, write_entry, hold_next_blob, release_current_blob, start_batch,
  save_cursor, response_cursor, CommitMutationsResult,
}
use syncali.Coordinator.BlobSync.{BlobSync}
use syncali.Coordinator.CommitService.{
  CommitCall, commit_mutations_request, unavailable_blobs, upsert_blob_ids, day_in_ms,
}
use syncali.Coordinator.History.{PurgeEntry, version_before, purge_deleted_entry_versions}
use syncali.Coordinator.History.Purging.{IsPurged, purge_deleted_entry_versions-IsPurged}
use syncali.Coordinator.History.Service.{
  Restore, mutation_of, restoring, replies, to_listed_version, list_entry_versions_page,
  retention_start,
}
use syncali.Coordinator.History.Batch.{Pending, restore_entry_versions, prepare}
use syncali.Coordinator.History.Answers.{answer_each, restore_entry_versions-each}
use syncali.Coordinator.History.Paging.{page_of, read_pages-entry_versions}

abbrev gone : Entry
gone = record note {
  entry_id = "gone";
  revision = 3;
  blob_id = none;
  deleted = true;
  updated_seq = 3;
  last_mutation_id = some "m0";
}

abbrev version : EntryVersion
version = record {
  version_id = "v1";
  entry_id = "gone";
  source_revision = 2;
  op_type = upsert;
  blob_id = some "old";
  encrypted_metadata = "{}";
  reason = auto;
  bucket_start_ms = some 0;
  captured_at = 5;
  expires_at = 90000000;
  created_by_user_id = "user";
  created_by_local_vault_id = "laptop";
}

abbrev vault : Tables
vault = record tables { entries = note ∷ gone ∷ []; entry_versions = version ∷ [] }

abbrev purge_request : PurgeEntry
purge_request = record { entry_id = "gone"; revision = 3 }

purge_deleted_entry_versions-IsPurged_example :
    IsPurged vault (purge_deleted_entry_versions (purge_request ∷ []) 0 vault)
purge_deleted_entry_versions-IsPurged_example =
    purge_deleted_entry_versions-IsPurged (purge_request ∷ []) 0 vault

purge_candidates :
    (purge_deleted_entry_versions (purge_request ∷ []) 0 vault).candidate_blob_ids ≡ "old" ∷ []
unfolding purge_deleted_entry_versions text_dec
purge_candidates = refl

read_pages-entry_versions_example :
    read_pages
      (λ before. page_of (list_entry_versions_page code_point_order vault 40 "gone" before 1))
      2
      none
    ≡ some (
        map to_listed_version (
          order_by (version_before code_point_order) (
            select_where
              (λ v. same v.entry_id "gone" && leb (retention_start 40 1) v.captured_at)
              vault.entry_versions)))
unfolding read_entry text_dec read_version_history_retention_days
read_pages-entry_versions_example =
    read_pages-entry_versions code_point_order vault 40 1 1 2 "gone" gone (tt, tt) refl refl
      (omega arith) (omega arith)

abbrev call : CommitCall
call = record {
  session = context.session;
  now = 40;
  later = 41;
  blob_grace_period_ms = 60;
  forced_history_before = none;
  random_uuid = λ n. "v2";
}

abbrev restore : Restore
restore = record {
  entry_id = "gone";
  version_id = "v1";
  base_revision = 3;
  op = upsert;
  blob_id = some "old";
  encrypted_metadata = "{2}";
}

abbrev lost : Restore
lost = record restore { entry_id = "lost" }

abbrev sync : BlobSync
sync = record {
  health = record {
    scheduled_flush_at = none;
    scheduler = record { jobs = []; alarm = none };
    tables = vault;
  };
  objects = "old" ∷ [];
}

abbrev pending : Pending
pending = record { index = 1; from = 2; mutation = mutation_of "v2" restore }

prepared :
    (prepare vault (retention_start 40 1) call.random_uuid (lost ∷ restore ∷ []) 0 0).1
    ≡ pending ∷ []
unfolding prepare text_dec day_in_ms
prepared = refl

restored_sync : BlobSync
unfolding commit_mutations_request commit_mutations commit_all commit_one commit_unless_applied
    commit_at_revision commit_with_blob apply_mutation write_entry hold_next_blob
    release_current_blob start_batch save_cursor response_cursor current_cursor capture_before
    capture_auto allocate_cursor find_entry has trim text_dec read_blob_state mark_blob_live
    mark_blob_pending_delete_if_unreferenced unavailable_blobs upsert_blob_ids
    read_version_history_retention_days
restored_sync =
    elim (commit_mutations_request (restoring 1 call) "r" (pending.mutation ∷ []) sync) [
      | ok (r, u) ↦ u
      | throws e ↦ sync
    ]

abbrev committed : CommitMutationsResult
committed = record {
  request_id = "r";
  cursor = 5;
  results = accepted "v2" 5 "gone" 4 ∷ [];
  broadcast_cursor = some 5;
  stale_rejections = [];
}

commit_restore :
    commit_mutations_request (restoring 1 call) "r" (pending.mutation ∷ []) sync
    ≡ ok (committed, restored_sync)
unfolding restored_sync
commit_restore = refl

restore_entry_versions-each_example :
    restore_entry_versions call "r" (lost ∷ restore ∷ []) sync
    ≡ replies (
      record {
        cursor = 5;
        results = answer_each vault (retention_start 40 1) (lost ∷ restore ∷ []) committed.results;
        broadcast_cursor = some 5;
      },
      restored_sync,
    )
unfolding read_version_history_retention_days
restore_entry_versions-each_example =
    restore_entry_versions-each call "r" (lost ∷ restore ∷ []) sync restored_sync committed 1
      pending [] refl prepared commit_restore
