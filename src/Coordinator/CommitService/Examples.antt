-- ===== src/Coordinator/CommitService/Examples.antt =====
-- The edit of a note whose new blob has an object.
use syncali.Prelude.{◌≡◌, refl, none, [], ◌∷◌, text_dec, has, trim}
use syncali.Coordinator.Tables.{ok, throws}
use syncali.Coordinator.Examples.{staged_tables, context, edit, committed}
use syncali.Coordinator.CursorStore.{current_cursor, read_version_history_retention_days}
use syncali.Coordinator.BlobStore.{
  read_blob_state, mark_blob_live, mark_blob_pending_delete_if_unreferenced,
}
use syncali.Coordinator.MutationStore.Model.{allocate_cursor, find_entry}
use syncali.Coordinator.MutationStore.Versions.{capture_before, capture_auto}
use syncali.Coordinator.MutationStore.{
  commit_mutations, commit_all, commit_one, commit_unless_applied, commit_at_revision,
  commit_with_blob, apply_mutation, write_entry, hold_next_blob, release_current_blob, start_batch,
  save_cursor, response_cursor,
}
use syncali.Coordinator.BlobSync.{BlobSync}
use syncali.Coordinator.BlobSync.Held.{IsHeld, is_held}
use syncali.Coordinator.CommitService.{
  CommitCall, commit_mutations_request, unavailable_blobs, upsert_blob_ids,
}
use syncali.Coordinator.CommitService.Held.{commit_mutations_request-IsHeld}

abbrev call : CommitCall
call = record {
  session = context.session;
  now = 40;
  later = 41;
  blob_grace_period_ms = 60;
  forced_history_before = none;
  random_uuid = λ n. "v";
}

abbrev sync : BlobSync
sync = record {
  health = record {
    scheduled_flush_at = none;
    scheduler = record { jobs = []; alarm = none };
    tables = staged_tables;
  };
  objects = "old" ∷ "new" ∷ [];
}

committed_sync : BlobSync
unfolding commit_mutations_request commit_mutations commit_all commit_one commit_unless_applied
    commit_at_revision commit_with_blob apply_mutation write_entry hold_next_blob
    release_current_blob start_batch save_cursor response_cursor current_cursor capture_before
    capture_auto allocate_cursor find_entry has trim text_dec read_blob_state mark_blob_live
    mark_blob_pending_delete_if_unreferenced unavailable_blobs upsert_blob_ids
    read_version_history_retention_days
committed_sync = elim (commit_mutations_request call "r" (edit ∷ []) sync) [
  | ok (r, u) ↦ u
  | throws e ↦ sync
]

commit_edit : commit_mutations_request call "r" (edit ∷ []) sync ≡ ok (committed, committed_sync)
unfolding committed_sync
commit_edit = refl

sync-IsHeld : IsHeld 50 sync
unfolding is_held text_dec
sync-IsHeld = record { entries = (refl, tt); versions = tt }

commit_mutations_request-IsHeld_example : IsHeld 50 committed_sync
commit_mutations_request-IsHeld_example =
    commit_mutations_request-IsHeld 50 call "r" (edit ∷ []) sync committed_sync committed
      commit_edit sync-IsHeld
