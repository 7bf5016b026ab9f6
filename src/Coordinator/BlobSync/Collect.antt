-- ===== src/Coordinator/BlobSync/Collect.antt =====
-- runGc and deleteBlob of blob/sync-service.ts keep the objects that are referred to.
use syncali.Prelude.{
  ℕ, ◌+◌, ◌≡◌, refl, ap, String, Bool, true, false, ◌&&◌, ◌||◌, Option, none, some, map, arith, ltb,
  ◌==◌, take, truthy, All-map, select_where, TextOrder, leb, Bool-cases, Option-cases, inl, inr,
}
use syncali.Coordinator.Tables.{Tables, Blob}
use syncali.Coordinator.Listing.{order_by}
use syncali.Coordinator.Listing.Order.{All-order_by, All-selected}
use syncali.Coordinator.BlobStore.{
  is_collectible, delete_expired_entry_versions, list_blobs_ready_for_deletion, next_blob_gc_at,
  due_time, is_blob_pinned, read_blob, delete_blob_record, in_entries, in_versions, drop_blob,
}
use syncali.Coordinator.BlobStore.Cases.{delete_blob_record_cases}
use syncali.Coordinator.CursorStore.{read_vault_id}
use syncali.Coordinator.BlobSync.{
  BlobSync, tables_of, with_tables, with_objects, remove_object, remove_objects, collect_all,
  finish_gc, run_gc, gc_batch_size, arm_gc, flush_now, schedule_flush, delete_blob_begin,
  delete_blob_end, delete_blob_request,
}
use syncali.Coordinator.Health.{record_gc_completed}
use syncali.Coordinator.Health.Flush.{
  HealthSync, schedule_summary_flush, default_health_summary_flush_delay_ms,
}
use syncali.Coordinator.BlobSync.Held.{
  IsHeld, Free, HeldEntries, HeldVersions, HeldEntries-remove, HeldVersions-remove,
  HeldEntries-remove_all, HeldVersions-remove_all, collect_all-entries, All-delete_where, All-take,
  collectible_free,
}

-- The blobs of a batch are free of references once the expired versions are gone.
list_blobs-Free :
    (texts : TextOrder) (t : Tables) (now limit : ℕ)
    → Free now t.entries
        (delete_expired_entry_versions t now).entry_versions
        (list_blobs_ready_for_deletion texts t now limit).0
unfolding list_blobs_ready_for_deletion delete_expired_entry_versions
list_blobs-Free texts t now limit =
    let u = delete_expired_entry_versions t now in
    let first = λ (a : Blob) (b : Blob).
      ltb (due_time a) (due_time b)
      || (due_time a == due_time b && texts.before a.blob_id b.blob_id) in
    All-map (take limit (order_by first (select_where (is_collectible u now) u.blobs)))
      (λ b h. collectible_free u now b h)
      (All-take (λ b. is_collectible u now b ≡ true) limit _
        (All-order_by first (λ b. is_collectible u now b ≡ true) _
          (All-selected (is_collectible u now) u.blobs)))

-- The state behind the deletions of a batch.
collected-IsHeld :
    (texts : TextOrder) (now limit : ℕ) (s : BlobSync)
    → IsHeld now s
    → let listed = list_blobs_ready_for_deletion texts (tables_of s) now limit in
      let objects = remove_objects (map (λ b. b.blob_id) listed.0) s.objects in
      HeldEntries objects (collect_all listed.0 now listed.1).entries
      × HeldVersions now objects (collect_all listed.0 now listed.1).entry_versions
unfolding list_blobs_ready_for_deletion delete_expired_entry_versions
collected-IsHeld texts now limit s h =
    let t = tables_of s in
    let u = delete_expired_entry_versions t now in
    let batch = (list_blobs_ready_for_deletion texts t now limit).0 in
    let free = list_blobs-Free texts t now limit in
    let same_tables = collect_all-entries batch now u in
    (
      rw same_tables.0
          (HeldEntries-remove_all now s.objects t.entries u.entry_versions batch free h.entries),
      rw same_tables.1 (
          HeldVersions-remove_all now s.objects t.entries u.entry_versions batch free
            (All-delete_where _ (λ v. leb v.expires_at now) t.entry_versions h.versions)),
    )

-- The objects and the rows that refer to them stay.
abbrev pub Keeps : BlobSync → BlobSync → Type 0
Keeps s r =
    (r.objects ≡ s.objects)
    × ((tables_of r).entries ≡ (tables_of s).entries)
    × ((tables_of r).entry_versions ≡ (tables_of s).entry_versions)

pub Keeps-IsHeld : (now : ℕ) (s r : BlobSync) → Keeps s r → IsHeld now s → IsHeld now r
Keeps-IsHeld now s r k h = record {
  entries = rw (k.0, k.1) h.entries;
  versions = rw (k.0, k.2) h.versions;
}

pub arm_gc-Keeps :
    (next : Option ℕ) (wanted : Bool) (now : ℕ) (s : BlobSync) → Keeps s (arm_gc next wanted now s)
unfolding arm_gc
arm_gc-Keeps none wanted now s = (refl, refl, refl)
arm_gc-Keeps (some due) true now s = (refl, refl, refl)
arm_gc-Keeps (some due) false now s = (refl, refl, refl)

flush_now-Keeps : (wanted : Bool) (now : ℕ) (s : BlobSync) → Keeps s (flush_now wanted now s)
unfolding flush_now
flush_now-Keeps true now s = (refl, refl, refl)
flush_now-Keeps false now s = (refl, refl, refl)

record_gc_completed-Keeps :
    (now : ℕ) (s : BlobSync) → Keeps s (with_tables s (record_gc_completed now (tables_of s)))
unfolding record_gc_completed
record_gc_completed-Keeps now s = (refl, refl, refl)

-- What follows the deletions touches neither the objects nor the rows that refer to them.
finish_gc-IsHeld :
    (now clock : ℕ) (flush next : Bool) (s : BlobSync)
    → IsHeld now s
    → IsHeld now (finish_gc now clock flush next s).1
unfolding finish_gc
finish_gc-IsHeld now clock flush next s h =
    let armed = arm_gc (next_blob_gc_at (tables_of s) clock) next now s in
    let recorded = with_tables armed (record_gc_completed now (tables_of armed)) in
    Keeps-IsHeld now recorded (flush_now flush now recorded) (flush_now-Keeps flush now recorded) (
      Keeps-IsHeld now armed recorded (record_gc_completed-Keeps now armed) (
        Keeps-IsHeld now s armed (arm_gc-Keeps (next_blob_gc_at (tables_of s) clock) next now s) h))

-- A run of the collector loses no object that is referred to: when every blob that an entry names,
-- or a version that has not expired, has its object, the same holds behind the run.
pub run_gc-IsHeld :
    (texts : TextOrder) (vault_id : Option String) (now clock : ℕ) (flush next : Bool)
    (s : BlobSync)
    → IsHeld now s
    → IsHeld now (run_gc texts vault_id now clock flush next s).1
unfolding run_gc
run_gc-IsHeld texts vault_id now clock flush next s h =
    let listed = list_blobs_ready_for_deletion texts (tables_of s) now gc_batch_size in
    let deleted =
      with_objects (with_tables s listed.1)
        (remove_objects (map (λ b. b.blob_id) listed.0) s.objects) in
    let collected = with_tables deleted (collect_all listed.0 now listed.1) in
    let effective : Option String = elim vault_id [
      | none ↦ read_vault_id (tables_of s)
      | some id ↦ some id
    ] in
    let held = collected-IsHeld texts now gc_batch_size s h in
    elim (Option-cases (truthy effective)) [
      | inl e ↦ rw (e, run_gc) h
      | inr (id, e) ↦
          rw (e, run_gc)
            (finish_gc-IsHeld now clock flush next collected
              (record { entries = held.0; versions = held.1 }))
    ]

schedule_summary_flush-tables :
    (now : ℕ) (h : HealthSync) → (schedule_summary_flush now h).tables ≡ h.tables
unfolding schedule_summary_flush
schedule_summary_flush-tables now h = elim (Option-cases h.scheduled_flush_at) [
  | inl e ↦ rw (e, schedule_summary_flush) refl
  | inr (at, e) ↦ elim (Bool-cases (leb at (now + default_health_summary_flush_delay_ms))) [
    | inl k ↦ rw (e, schedule_summary_flush) (rw (k, schedule_summary_flush) refl)
    | inr k ↦ rw (e, schedule_summary_flush) (rw (k, schedule_summary_flush) refl)
  ]
]

pub schedule_flush-Keeps : (now : ℕ) (s : BlobSync) → Keeps s (schedule_flush now s)
schedule_flush-Keeps now s =
    let unchanged = schedule_summary_flush-tables now s.health in
    (refl, ap (λ t. t.entries) unchanged, ap (λ t. t.entry_versions) unchanged)

pub delete_blob_record-Keeps :
    (t : Tables) (id : String)
    → ((delete_blob_record t id).entries ≡ t.entries)
      × ((delete_blob_record t id).entry_versions ≡ t.entry_versions)
unfolding drop_blob
delete_blob_record-Keeps t id =
    delete_blob_record_cases (λ u. (u.entries ≡ t.entries) × (u.entry_versions ≡ t.entry_versions))
      t id (refl, refl) λ b e. (refl, refl)

pub pinned_free :
    (t : Tables) (id : String) (now : ℕ)
    → is_blob_pinned t id false now ≡ false
    → (in_entries id t.entries ≡ false) × (in_versions id now t.entry_versions ≡ false)
unfolding is_blob_pinned
pinned_free t id now h = (ground arith, ground arith)

-- The end of a deletion loses nothing that is referred to when it runs.
delete_blob_end-IsHeld :
    (id : String) (now : ℕ) (saw_row : Bool) (s : BlobSync)
    → in_entries id (tables_of s).entries ≡ false
    → in_versions id now (tables_of s).entry_versions ≡ false
    → IsHeld now s
    → IsHeld now (delete_blob_end id now saw_row s)
unfolding delete_blob_end
delete_blob_end-IsHeld id now saw_row s free unversioned h =
    let deleted = with_objects s (remove_object id s.objects) in
    let held : IsHeld now deleted = record {
      entries = HeldEntries-remove id s.objects (tables_of s).entries free h.entries;
      versions =
          HeldVersions-remove id now s.objects (tables_of s).entry_versions unversioned h.versions;
    } in
    let dropped = with_tables deleted (delete_blob_record (tables_of s) id) in
    let kept = delete_blob_record-Keeps (tables_of s) id in
    elim (Bool-cases saw_row) [
      | inl e ↦
          rw (e, delete_blob_end)
            (Keeps-IsHeld now dropped (schedule_flush now dropped)
              (schedule_flush-Keeps now dropped)
              (Keeps-IsHeld now deleted dropped (refl, kept.0, kept.1) held))
      | inr e ↦ rw (e, delete_blob_end) held
    ]

-- A deletion that nothing interleaves with keeps every object that an entry names, or a version
-- that has not expired, provided that a blob without a row is not referred to.
pub delete_blob_request-IsHeld :
    (id : String) (now : ℕ) (s : BlobSync)
    → (read_blob (tables_of s) id ≡ none → is_blob_pinned (tables_of s) id false now ≡ false)
    → IsHeld now s
    → IsHeld now (delete_blob_request id now s)
unfolding delete_blob_request delete_blob_begin
delete_blob_request-IsHeld id now s rowless h =
    let t = tables_of s in
    elim (Bool-cases (is_blob_pinned t id false now)) [
      | inl pinned ↦ elim (Option-cases (read_blob t id)) [
        | inl e ↦ ground (arith, rowless e)
        | inr (b, e) ↦ rw (e, delete_blob_request) (rw (pinned, delete_blob_request) h)
      ]
      | inr unpinned ↦
          let free = pinned_free t id now unpinned in
          elim (Option-cases (read_blob t id)) [
            | inl e ↦
                rw (e, delete_blob_request) (delete_blob_end-IsHeld id now false s free.0 free.1 h)
            | inr (b, e) ↦
                rw (e, delete_blob_request)
                  (rw (unpinned, delete_blob_request)
                    (delete_blob_end-IsHeld id now true s free.0 free.1 h))
          ]
    ]
