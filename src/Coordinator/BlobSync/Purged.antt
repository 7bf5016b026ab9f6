-- ===== src/Coordinator/BlobSync/Purged.antt =====
-- collectPurgedBlobs keeps the objects that are referred to.
use syncali.Prelude.{
  ℕ, ◌≡◌, refl, String, Bool, true, false, ◌||◌, List, [], ◌∷◌, arith, leb, Bool-cases,
  Option-cases, inl, inr,
}
use syncali.Coordinator.Tables.{Tables, Blob}
use syncali.Coordinator.BlobStore.{
  mark_blob_pending_delete_if_unpinned, delete_expired_entry_versions, delete_blob_if_collectible,
  is_blob_pinned, read_blob, next_blob_gc_at,
}
use syncali.Coordinator.BlobSync.{
  BlobSync, tables_of, with_tables, with_objects, remove_object, stays, collect_purged_blob,
  collect_each, unique_ids, collect_purged_blobs, arm_gc, schedule_flush,
}
use syncali.Coordinator.BlobSync.Held.{
  IsHeld, HeldEntries-remove, HeldVersions-remove, All-delete_where, collect_one-entries,
}
use syncali.Coordinator.BlobSync.Collect.{
  Keeps-IsHeld, arm_gc-Keeps, schedule_flush-Keeps, pinned_free,
}

stays-pinned :
    (t : Tables) (now : ℕ) (id : String) (b : Blob)
    → stays t now id b ≡ false
    → is_blob_pinned t id false now ≡ false
unfolding stays
stays-pinned t now id b h = ground arith

marked-IsHeld :
    (now : ℕ) (id : String) (s : BlobSync)
    → IsHeld now s
    → IsHeld now (with_tables s (mark_blob_pending_delete_if_unpinned (tables_of s) id now))
unfolding mark_blob_pending_delete_if_unpinned delete_expired_entry_versions
marked-IsHeld now id s h = record {
  entries = h.entries;
  versions = All-delete_where _ (λ v. leb v.expires_at now) (tables_of s).entry_versions h.versions;
}

-- The object and the row of a blob that nothing refers to.
removed-IsHeld :
    (now : ℕ) (id : String) (s : BlobSync)
    → is_blob_pinned (tables_of s) id false now ≡ false
    → IsHeld now s
    → IsHeld now (
        with_tables
          (with_objects s (remove_object id s.objects))
          (delete_blob_if_collectible (tables_of s) id now))
removed-IsHeld now id s unpinned h =
    let t = tables_of s in
    let free = pinned_free t id now unpinned in
    let deleted = with_objects s (remove_object id s.objects) in
    let kept = collect_one-entries t id now in
    Keeps-IsHeld now deleted (with_tables deleted (delete_blob_if_collectible t id now))
      (refl, kept.0, kept.1)
      (record {
        entries = HeldEntries-remove id s.objects t.entries free.0 h.entries;
        versions = HeldVersions-remove id now s.objects t.entry_versions free.1 h.versions;
      })

collect_purged_blob-IsHeld :
    (fails : String → Bool) (now : ℕ) (id : String) (s : BlobSync)
    → IsHeld now s
    → IsHeld now (collect_purged_blob fails now id s)
unfolding collect_purged_blob
collect_purged_blob-IsHeld fails now id s h =
    let marked = with_tables s (mark_blob_pending_delete_if_unpinned (tables_of s) id now) in
    let held = marked-IsHeld now id s h in
    elim (Option-cases (read_blob (tables_of marked) id)) [
      | inl e ↦ rw (e, collect_purged_blob) held
      | inr (b, e) ↦ elim (Bool-cases (stays (tables_of marked) now id b || fails id)) [
        | inl k ↦ rw (e, collect_purged_blob) (rw (k, collect_purged_blob) held)
        | inr k ↦
            rw (e, collect_purged_blob)
              (rw (k, collect_purged_blob)
                (removed-IsHeld now id marked
                  (stays-pinned (tables_of marked) now id b (ground arith)) held))
      ]
    ]

collect_each-IsHeld :
    (fails : String → Bool) (now : ℕ) (ids : List String) (s : BlobSync)
    → IsHeld now s
    → IsHeld now (collect_each fails now ids s)
unfolding collect_each
collect_each-IsHeld fails now [] s h = h
collect_each-IsHeld fails now (id ∷ ids) s h =
    collect_each-IsHeld fails now ids (collect_purged_blob fails now id s)
      (collect_purged_blob-IsHeld fails now id s h)

-- A collection of given blobs keeps every object that an entry names, or a version that has not
-- expired, whichever deletions of objects fail.
pub collect_purged_blobs-IsHeld :
    (fails : String → Bool) (now clock : ℕ) (ids : List String) (s : BlobSync)
    → IsHeld now s
    → IsHeld now (collect_purged_blobs fails now clock ids s)
unfolding collect_purged_blobs
collect_purged_blobs-IsHeld fails now clock [] s h = h
collect_purged_blobs-IsHeld fails now clock (id ∷ ids) s h =
    let collected = collect_each fails now (unique_ids [] (id ∷ ids)) s in
    let next = next_blob_gc_at (tables_of collected) clock in
    let armed = arm_gc next true now collected in
    Keeps-IsHeld now armed (schedule_flush now armed) (schedule_flush-Keeps now armed) (
      Keeps-IsHeld now collected armed (arm_gc-Keeps next true now collected)
        (collect_each-IsHeld fails now (unique_ids [] (id ∷ ids)) s h))
