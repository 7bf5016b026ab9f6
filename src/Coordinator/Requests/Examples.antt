-- ===== src/Coordinator/Requests/Examples.antt =====
-- Uploads, deletions, the commit of an edit, a run of the collector, and an upload given up.
use syncali.Prelude.{
  ◌≡◌, refl, true, false, none, [], ◌∷◌, ◌&&◌, not, List, arith, text_dec, has, trim,
  code_point_order,
}
use syncali.Coordinator.CursorStore.{current_cursor, read_version_history_retention_days}
use syncali.Coordinator.BlobStore.{
  read_blob_state, mark_blob_live, mark_blob_pending_delete_if_unreferenced, read_blob,
  is_blob_pinned, in_entries, stage_blob, abort_staged_blob,
}
use syncali.Coordinator.MutationStore.Model.{allocate_cursor, find_entry}
use syncali.Coordinator.MutationStore.Versions.{capture_before, capture_auto}
use syncali.Coordinator.MutationStore.{
  commit_mutations, commit_all, commit_one, commit_unless_applied, commit_at_revision,
  commit_with_blob, apply_mutation, write_entry, hold_next_blob, release_current_blob, start_batch,
  save_cursor, response_cursor,
}
use syncali.Coordinator.Examples.{tables, context, edit}
use syncali.Coordinator.BlobSync.{
  BlobSync, tables_of, stage_blob_request, abort_staged_blob_request, remove_object,
}
use syncali.Coordinator.BlobSync.Held.{IsHeld, is_held}
use syncali.Coordinator.CommitService.{
  CommitCall, commit_mutations_request, unavailable_blobs, upsert_blob_ids,
}
use syncali.Coordinator.Requests.{
  Request, stages, stores, mismatches, deletes, commits, handle, collects, aborts, AllKnown,
  handle_all, time_after,
}
use syncali.Coordinator.Requests.Held.{handle_all-IsHeld}

abbrev call : CommitCall
call = record {
  session = context.session;
  now = 40;
  later = 41;
  blob_grace_period_ms = 60;
  forced_history_before = none;
  random_uuid = λ n. "v";
}

abbrev sync : BlobSync
sync = record {
  health = record {
    scheduled_flush_at = none;
    scheduler = record { jobs = []; alarm = none };
    tables = tables;
  };
  objects = "old" ∷ [];
}

sync-IsHeld : IsHeld 10 sync
unfolding is_held text_dec
sync-IsHeld = record { entries = (refl, tt); versions = tt }

abbrev requests : List Request
requests =
    stages "other" 20 60 20
    ∷ mismatches "other" 21
    ∷ stages "spare" 20 60 22
    ∷ stores "spare" 23
    ∷ deletes "spare" 24
    ∷ stages "new" 20 60 30
    ∷ stores "new" 31
    ∷ commits call "r" (edit ∷ [])
    ∷ collects none 50 50 true true
    ∷ aborts "new" 60
    ∷ []

other_free :
    is_blob_pinned
      (tables_of (handle_all code_point_order (stages "other" 20 60 20 ∷ []) sync))
      "other"
      false
      21
    ≡ false
unfolding handle_all handle stage_blob_request stage_blob is_blob_pinned text_dec
other_free = refl

abbrev before_delete : List Request
before_delete =
    stages "other" 20 60 20
    ∷ mismatches "other" 21
    ∷ stages "spare" 20 60 22
    ∷ stores "spare" 23
    ∷ []

spare_free :
    read_blob (tables_of (handle_all code_point_order before_delete sync)) "spare" ≡ none
    → is_blob_pinned (tables_of (handle_all code_point_order before_delete sync)) "spare" false 24
      ≡ false
unfolding handle_all handle stage_blob_request stage_blob is_blob_pinned text_dec
    abort_staged_blob_request abort_staged_blob
spare_free h = refl

-- A retry of the upload that ends in another size, behind the commit: the condition does not hold,
-- and the object is gone while the entry names it.
abbrev retried : BlobSync
retried =
    handle_all code_point_order
      (stages "new" 20 60 30
        ∷ stages "new" 20 60 31
        ∷ stores "new" 32
        ∷ commits call "r" (edit ∷ [])
        ∷ mismatches "new" 42
        ∷ [])
      sync

mismatch_test :
    (in_entries "new" (tables_of retried).entries && not (has retried.objects "new")) ≡ true
unfolding handle_all handle commit_mutations_request commit_mutations commit_all commit_one
    commit_unless_applied commit_at_revision commit_with_blob apply_mutation write_entry
    hold_next_blob release_current_blob start_batch save_cursor response_cursor current_cursor
    capture_before capture_auto allocate_cursor find_entry has trim text_dec read_blob_state
    mark_blob_live mark_blob_pending_delete_if_unreferenced unavailable_blobs upsert_blob_ids
    read_version_history_retention_days stage_blob_request stage_blob abort_staged_blob_request
    abort_staged_blob in_entries remove_object is_blob_pinned
mismatch_test = refl

requests-AllKnown : AllKnown code_point_order requests sync
unfolding handle handle_all
requests-AllKnown = (tt, (other_free, (tt, (tt, (spare_free, (tt, (tt, (tt, (tt, (tt, tt))))))))))

handle_all-IsHeld_example :
    IsHeld (time_after 10 requests) (handle_all code_point_order requests sync)
handle_all-IsHeld_example =
    handle_all-IsHeld code_point_order 10 requests sync
      (
        omega arith,
        (
          omega arith,
          (
            omega arith,
            (
              omega arith,
              (
                omega arith,
                (omega arith, (omega arith, (omega arith, (omega arith, (omega arith, tt))))),
              ),
            ),
          ),
        ),
      )
      requests-AllKnown sync-IsHeld
