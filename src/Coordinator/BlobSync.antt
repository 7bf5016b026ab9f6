-- ===== src/Coordinator/BlobSync.antt =====
-- blob/sync-service.ts of the coordinator: uploads, deletions and the collection of blobs. The
-- storage of objects is the list of the blob ids that have an object (one vault, so the prefix of
-- the object's key is left out). Requests are those whose token is accepted, and broadcasts to
-- sockets are left out. deleteBlob waits for the storage between its `…_begin` and `…_end`. The wait
-- of runGc is one step with what follows it, and a storage that throws there is not modelled.
pub mod Held
pub mod Collect
pub mod Purged
mod Examples
use syncali.Prelude.{
  ℕ, ◌+◌, String, Bool, true, false, not, ◌&&◌, ◌||◌, Option, none, some, List, [], ◌∷◌, ltb,
  if◌then◌else◌, is_some, same, has, truthy, map, delete_where, TextOrder,
}
use syncali.Coordinator.Tables.{
  Tables, Blob, Outcome, ok, ◌>>=◌, BlobState, staged, live, pending_delete,
}
use syncali.Coordinator.BlobStore.{
  stage_blob, read_blob, is_blob_pinned, delete_blob_record, abort_staged_blob,
  delete_blob_if_collectible, list_blobs_ready_for_deletion, next_blob_gc_at,
  mark_blob_pending_delete_if_unpinned, is_pending_delete,
}
use syncali.Coordinator.CursorStore.{read_vault_id}
use syncali.Coordinator.Maintenance.{Scheduler, defer, blob_gc, health_summary_flush}
use syncali.Coordinator.Health.{record_gc_completed}
use syncali.Coordinator.Health.Flush.{HealthSync, schedule_summary_flush}

pub record BlobSync : Type 0 where
  pub health : HealthSync
  pub objects : List String

abbrev pub tables_of : BlobSync → Tables
tables_of s = s.health.tables

abbrev pub with_tables : BlobSync → Tables → BlobSync
with_tables s t = record s { health = record (s.health) { tables = t } }

abbrev pub with_objects : BlobSync → List String → BlobSync
with_objects s objects = record s { objects = objects }

abbrev pub defer_gc : ℕ → ℕ → BlobSync → BlobSync
defer_gc due now s = record s {
  health = record (s.health) { scheduler = defer blob_gc due now s.health.scheduler };
}

abbrev pub schedule_flush : ℕ → BlobSync → BlobSync
schedule_flush now s = record s { health = schedule_summary_flush now s.health }

-- blobRepository.delete, and deleteMany
unfoldable pub remove_object : String → List String → List String
unfolding delete_where
remove_object id objects = delete_where (λ o. same o id) objects

unfoldable pub remove_objects : List String → List String → List String
unfolding remove_object
remove_objects [] objects = objects
remove_objects (id ∷ ids) objects = remove_objects ids (remove_object id objects)

unfoldable pub stage_blob_request : String → (size grace now : ℕ) → BlobSync → Outcome BlobSync
stage_blob_request id size grace now s = do
  t ← stage_blob (tables_of s) id size now (now + grace)
  ok (defer_gc (now + grace) now (with_tables s t))

unfoldable pub abort_staged_blob_request : String → ℕ → BlobSync → BlobSync
abort_staged_blob_request id now s =
    schedule_flush now (with_tables s (abort_staged_blob (tables_of s) id now))

-- Whether deleteBlob goes on, and whether it saw a row.
unfoldable pub delete_blob_begin : String → ℕ → BlobSync → Option Bool
unfolding read_blob is_blob_pinned
delete_blob_begin id now s =
    let present = is_some (read_blob (tables_of s) id) in
    if present && is_blob_pinned (tables_of s) id false now then none else some present

unfoldable pub delete_blob_end : String → ℕ → (saw_row : Bool) → BlobSync → BlobSync
unfolding remove_object
delete_blob_end id now saw_row s =
    let deleted = with_objects s (remove_object id s.objects) in
    if saw_row
    then schedule_flush now (with_tables deleted (delete_blob_record (tables_of s) id))
    else deleted

-- deleteBlob, when nothing else runs while it waits.
unfoldable pub delete_blob_request : String → ℕ → BlobSync → BlobSync
unfolding delete_blob_begin delete_blob_end
delete_blob_request id now s = elim (delete_blob_begin id now s) [
  | none ↦ s
  | some saw_row ↦ delete_blob_end id now saw_row s
]

unfoldable pub gc_batch_size : ℕ
gc_batch_size = 64

unfoldable pub collect_all : List Blob → ℕ → Tables → Tables
unfolding delete_blob_if_collectible
collect_all [] now t = t
collect_all (b ∷ bs) now t = collect_all bs now (delete_blob_if_collectible t b.blob_id now)

-- The next collection, if there is one and the caller wants it.
unfoldable pub arm_gc : (next : Option ℕ) (wanted : Bool) → ℕ → BlobSync → BlobSync
arm_gc none wanted now s = s
arm_gc (some due) wanted now s = if wanted then defer_gc due now s else s

unfoldable pub flush_now : (wanted : Bool) → ℕ → BlobSync → BlobSync
flush_now wanted now s =
    if wanted
    then record s {
      health = record (s.health) {
        scheduler = defer health_summary_flush now now s.health.scheduler;
      };
    }
    else s

-- The part of runGc behind the deletions. `clock` is the time that nextBlobGcAt reads.
unfoldable pub finish_gc :
    (now clock : ℕ) (schedule_health_flush schedule_next_gc : Bool) → BlobSync → Option ℕ × BlobSync
unfolding next_blob_gc_at record_gc_completed arm_gc flush_now
finish_gc now clock schedule_health_flush schedule_next_gc s =
    let next = next_blob_gc_at (tables_of s) clock in
    let armed = arm_gc next schedule_next_gc now s in
    (
      next,
      flush_now schedule_health_flush now
          (with_tables armed (record_gc_completed now (tables_of armed))),
    )

-- runGc, when nothing else runs while it waits. The vault's id is the option or the stored one.
unfoldable pub run_gc :
    TextOrder
    → Option String
    → (now clock : ℕ) (schedule_health_flush schedule_next_gc : Bool) → BlobSync
    → Option ℕ × BlobSync
unfolding remove_objects collect_all finish_gc list_blobs_ready_for_deletion gc_batch_size
    read_vault_id
run_gc texts vault_id now clock schedule_health_flush schedule_next_gc s =
    let effective : Option String = elim vault_id [
      | none ↦ read_vault_id (tables_of s)
      | some id ↦ some id
    ] in
    let listed = list_blobs_ready_for_deletion texts (tables_of s) now gc_batch_size in
    let deleted =
      with_objects (with_tables s listed.1)
        (remove_objects (map (λ b. b.blob_id) listed.0) s.objects) in
    let collected = with_tables deleted (collect_all listed.0 now listed.1) in
    elim (truthy effective) [
      | none ↦ (none, s)
      | some id ↦ finish_gc now clock schedule_health_flush schedule_next_gc collected
    ]

-- Why collectPurgedBlobs leaves a blob for a later run.
unfoldable pub stays : Tables → ℕ → String → Blob → Bool
unfolding is_blob_pinned
stays t now id b =
    not (is_pending_delete b.state)
    || (elim b.delete_after [ none ↦ false | some d ↦ ltb now d ] || is_blob_pinned t id false now)

-- One blob of collectPurgedBlobs; a deletion of its object that fails is logged and leaves it.
unfoldable pub collect_purged_blob : (fails : String → Bool) → ℕ → String → BlobSync → BlobSync
unfolding mark_blob_pending_delete_if_unpinned read_blob stays remove_object
    delete_blob_if_collectible
collect_purged_blob fails now id s =
    let marked = with_tables s (mark_blob_pending_delete_if_unpinned (tables_of s) id now) in
    elim (read_blob (tables_of marked) id) [
      | none ↦ marked
      | some b ↦
          if stays (tables_of marked) now id b || fails id
          then marked
          else with_tables (with_objects marked (remove_object id s.objects))
              (delete_blob_if_collectible (tables_of marked) id now)
    ]

unfoldable pub collect_each : (fails : String → Bool) → ℕ → List String → BlobSync → BlobSync
unfolding collect_purged_blob
collect_each fails now [] s = s
collect_each fails now (id ∷ ids) s =
    collect_each fails now ids (collect_purged_blob fails now id s)

-- `[...new Set(blobIds)]`, where `seen` is in the set already.
unique_ids : List String → List String → List String
unfolding has
unique_ids seen [] = []
unique_ids seen (id ∷ ids) =
    let skipped = unique_ids seen ids in
    let added = id ∷ unique_ids (id ∷ seen) ids in if has seen id then skipped else added

unfoldable pub collect_purged_blobs :
    (fails : String → Bool) → (now clock : ℕ) → List String → BlobSync → BlobSync
unfolding collect_each unique_ids next_blob_gc_at arm_gc
collect_purged_blobs fails now clock [] s = s
collect_purged_blobs fails now clock (id ∷ ids) s =
    let collected = collect_each fails now (unique_ids [] (id ∷ ids)) s in
    schedule_flush now (arm_gc (next_blob_gc_at (tables_of collected) clock) true now collected)
