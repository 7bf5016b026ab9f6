-- ===== src/Coordinator/BlobSync/Examples.antt =====
-- The blobs of a vault with one note: a run of the collector, and deletions.
use syncali.Prelude.{◌≡◌, refl, true, false, none, some, [], ◌∷◌, text_dec, code_point_order}
use syncali.Coordinator.Tables.{Blob, pending_delete}
use syncali.Coordinator.Examples.{tables, old_blob}
use syncali.Coordinator.BlobStore.{is_blob_pinned}
use syncali.Coordinator.BlobSync.{BlobSync, tables_of, run_gc}
use syncali.Coordinator.BlobSync.Held.{IsHeld, is_held}
use syncali.Coordinator.BlobSync.Collect.{run_gc-IsHeld}

abbrev unused_blob : Blob
unused_blob = record old_blob { blob_id = "unused"; state = pending_delete; delete_after = some 20 }

abbrev sync : BlobSync
sync = record {
  health = record {
    scheduled_flush_at = none;
    scheduler = record { jobs = []; alarm = none };
    tables = record tables { blobs = unused_blob ∷ old_blob ∷ [] };
  };
  objects = "old" ∷ "unused" ∷ [];
}

sync-IsHeld : IsHeld 50 sync
unfolding is_held text_dec
sync-IsHeld = record { entries = (refl, tt); versions = tt }

run_gc_objects : (run_gc code_point_order none 50 50 true true sync).1.objects ≡ "old" ∷ []
unfolding run_gc text_dec code_point_order
run_gc_objects = refl

run_gc-IsHeld_example : IsHeld 50 (run_gc code_point_order none 50 50 true true sync).1
run_gc-IsHeld_example = run_gc-IsHeld code_point_order none 50 50 true true sync sync-IsHeld

unused_free : is_blob_pinned (tables_of sync) "unused" false 50 ≡ false
unfolding is_blob_pinned text_dec
unused_free = refl
