-- ===== src/Coordinator/BlobStore.antt =====
-- store/blob-store.ts of the coordinator: staging, collection and reference marking of blobs.
-- Reads of the clock (`Date.now()`) are arguments.
pub mod Rows
pub mod Cases
pub mod Usage
pub mod References
use syncali.Prelude.{
  ℕ, zero, ◌+◌, ◌-◌, String, Bool, true, false, not, ◌&&◌, ◌||◌, Option, none, some, List, [], ◌∷◌,
  take, ltb, leb, ◌==◌, if◌then◌else◌, is_some, same, refers, select_first, select_where,
  delete_where, update_where, exists_where, upsert_where, ◌++◌, map, TextOrder, least,
}
use syncali.Coordinator.Listing.{order_by}
use syncali.Coordinator.Tables.{
  Tables, Blob, Entry, EntryVersion, CoordinatorState, BlobState, staged, live, pending_delete,
  Outcome, ok, throws, ◌>>=◌, ◌>>◌, throw_if, or_throw, sync_state_uninitialized, file_too_large,
  blob_already_live, blob_size_changed, quota_exceeded,
}

unfoldable pub has_blob_id : String → Blob → Bool
has_blob_id id b = same b.blob_id id

unfoldable pub find_blob : String → List Blob → Option Blob
unfolding has_blob_id select_first
find_blob id bs = select_first (has_blob_id id) bs

abbrev pub is_staged : BlobState → Bool
is_staged staged = true
is_staged live = false
is_staged pending_delete = false

abbrev pub is_pending_delete : BlobState → Bool
is_pending_delete staged = false
is_pending_delete live = false
is_pending_delete pending_delete = true

-- EXISTS (SELECT 1 FROM entries WHERE entries.blob_id = ?)
unfoldable pub in_entries : String → List Entry → Bool
unfolding exists_where
in_entries id es = exists_where (λ e. refers id e.blob_id) es

-- EXISTS (SELECT 1 FROM entry_versions WHERE blob_id = ? AND expires_at > ?)
unfoldable pub in_versions : String → ℕ → List EntryVersion → Bool
unfolding exists_where
in_versions id now vs = exists_where (λ v. refers id v.blob_id && ltb now v.expires_at) vs

-- `state = 'staged' AND delete_after > ?`, where NULL is not greater.
abbrev pub still_staged : ℕ → Blob → Bool
still_staged now b = is_staged b.state && elim b.delete_after [ none ↦ false | some d ↦ ltb now d ]

unfoldable pub is_blob_pinned : Tables → String → Bool → ℕ → Bool
unfolding in_entries in_versions exists_where
is_blob_pinned t id include_staging now =
    in_entries id t.entries
    || (in_versions id now t.entry_versions
        || (include_staging && exists_where (λ b. same b.blob_id id && still_staged now b) t.blobs))

-- UPDATE coordinator_state SET storage_used_bytes = max(0, storage_used_bytes - ?) WHERE id = 1
unfoldable pub decrement_storage_used_bytes : ℕ → Option CoordinatorState → Option CoordinatorState
decrement_storage_used_bytes n none = none
decrement_storage_used_bytes n (some s) =
    some (record s { storage_used_bytes = s.storage_used_bytes - n })

-- The row that a first upload inserts, and the columns that a later one sets.
unfoldable pub stage_row : String → ℕ → ℕ → ℕ → List Blob → List Blob
unfolding has_blob_id upsert_where
stage_row id size now delete_after bs =
    upsert_where (has_blob_id id)
      (λ b. record b { state = staged; last_uploaded_at = now; delete_after = some delete_after })
      (record {
        blob_id = id;
        state = staged;
        size_bytes = size;
        created_at = now;
        last_uploaded_at = now;
        delete_after = some delete_after;
      })
      bs

-- A blob whose row is new is counted against the quota.
unfoldable pub stage_new : CoordinatorState → ℕ → Outcome CoordinatorState
stage_new s size = do
  let total = s.storage_used_bytes + size
  throw_if (ltb 0 s.storage_limit_bytes && ltb s.storage_limit_bytes total)
      (quota_exceeded s.storage_limit_bytes size s.storage_used_bytes)
  ok (record s { storage_used_bytes = total })

-- A row that is there must be free of references and of the same size.
unfoldable pub stage_again :
    Tables → CoordinatorState → String → ℕ → ℕ → Blob → Outcome CoordinatorState
unfolding is_blob_pinned
stage_again t s id size now b = do
  throw_if (is_blob_pinned t id false now) (blob_already_live id)
  throw_if (not (b.size_bytes == size)) (blob_size_changed id b.size_bytes size)
  ok s

unfoldable pub stage_blob : Tables → String → ℕ → ℕ → ℕ → Outcome Tables
unfolding stage_row stage_new stage_again find_blob
stage_blob t id size now delete_after = do
  s ← or_throw t.coordinator_state sync_state_uninitialized
  throw_if (ltb 0 s.max_file_size_bytes && ltb s.max_file_size_bytes size)
      (file_too_large s.max_file_size_bytes size)
  s' ← elim (find_blob id t.blobs) [
    | none ↦ stage_new s size
    | some b ↦ stage_again t s id size now b
  ]
  ok (record t { coordinator_state = some s'; blobs = stage_row id size now delete_after t.blobs })

unfoldable pub read_blob : Tables → String → Option Blob
unfolding find_blob
read_blob t id = find_blob id t.blobs

-- DELETE FROM blobs WHERE blob_id = ?, and the size of `b` returned to the quota.
unfoldable pub drop_blob : Tables → String → Blob → Tables
unfolding has_blob_id delete_where decrement_storage_used_bytes
drop_blob t id b = record t {
  coordinator_state = decrement_storage_used_bytes b.size_bytes t.coordinator_state;
  blobs = delete_where (has_blob_id id) t.blobs;
}

unfoldable pub delete_blob_record : Tables → String → Tables
unfolding find_blob drop_blob
delete_blob_record t id = elim (find_blob id t.blobs) [
  | none ↦ record t { blobs = delete_where (has_blob_id id) t.blobs }
  | some b ↦ drop_blob t id b
]

unfoldable pub abort_staged_blob : Tables → String → ℕ → Tables
unfolding drop_blob is_blob_pinned select_first
abort_staged_blob t id now =
    elim (select_first (λ b. same b.blob_id id && is_staged b.state) t.blobs) [
      | none ↦ t
      | some b ↦ if is_blob_pinned t id false now then t else drop_blob t id b
    ]

-- The rows that the collector may delete: due, and not pinned.
unfoldable pub is_collectible : Tables → ℕ → Blob → Bool
unfolding in_entries in_versions
is_collectible t now b =
    (is_staged b.state || is_pending_delete b.state)
    && (elim b.delete_after [ none ↦ false | some d ↦ leb d now ]
        && (not (in_entries b.blob_id t.entries)
            && not (in_versions b.blob_id now t.entry_versions)))

unfoldable pub delete_blob_if_collectible : Tables → String → ℕ → Tables
unfolding drop_blob is_collectible select_first
delete_blob_if_collectible t id now =
    elim (select_first (λ b. same b.blob_id id && is_collectible t now b) t.blobs) [
      | none ↦ t
      | some b ↦ drop_blob t id b
    ]

-- DELETE FROM entry_versions WHERE expires_at <= ?
unfoldable pub delete_expired_entry_versions : Tables → ℕ → Tables
unfolding delete_where
delete_expired_entry_versions t now = record t {
  entry_versions = delete_where (λ v. leb v.expires_at now) t.entry_versions;
}

-- CASE WHEN delete_after IS NULL OR delete_after > ? THEN ? ELSE delete_after END
abbrev pub delete_by : ℕ → Option ℕ → Option ℕ
delete_by now none = some now
delete_by now (some d) = if ltb now d then some now else some d

abbrev pub set_pending_delete : ℕ → Blob → Blob
set_pending_delete now b = record b {
  state = pending_delete;
  delete_after = delete_by now b.delete_after;
}

unfoldable pub is_unpinned_row : Tables → ℕ → Blob → Bool
unfolding in_entries in_versions
is_unpinned_row t now b =
    not (is_staged b.state)
    && (not (in_entries b.blob_id t.entries) && not (in_versions b.blob_id now t.entry_versions))

unfoldable pub mark_unpinned_blobs_for_deletion : Tables → ℕ → Tables
unfolding delete_expired_entry_versions is_unpinned_row update_where
mark_unpinned_blobs_for_deletion t now =
    let t' = delete_expired_entry_versions t now in
    record t' { blobs = update_where (is_unpinned_row t' now) (set_pending_delete now) t'.blobs }

unfoldable pub mark_blob_pending_delete_if_unpinned : Tables → String → ℕ → Tables
unfolding delete_expired_entry_versions is_unpinned_row update_where
mark_blob_pending_delete_if_unpinned t id now =
    let t' = delete_expired_entry_versions t now in
    record t' {
      blobs =
          update_where (λ b. same b.blob_id id && is_unpinned_row t' now b) (set_pending_delete now)
            t'.blobs;
    }

unfoldable pub read_blob_state : Tables → String → Option BlobState
unfolding find_blob
read_blob_state t id = elim (find_blob id t.blobs) [ none ↦ none | some b ↦ some b.state ]

unfoldable pub restage_pending_delete_blob : Tables → String → ℕ → Tables
unfolding has_blob_id update_where
restage_pending_delete_blob t id delete_after = record t {
  blobs =
      update_where (has_blob_id id)
        (λ b. record b { state = staged; delete_after = some delete_after }) t.blobs;
}

unfoldable pub mark_blob_live : Tables → String → Tables
unfolding has_blob_id update_where
mark_blob_live t id = record t {
  blobs =
      update_where (has_blob_id id) (λ b. record b { state = live; delete_after = none }) t.blobs;
}

unfoldable pub mark_blob_pending_delete_if_unreferenced : Tables → String → ℕ → Tables
unfolding has_blob_id update_where in_entries
mark_blob_pending_delete_if_unreferenced t id delete_after =
    if in_entries id t.entries then t else record t {
      blobs =
          update_where (has_blob_id id)
            (λ b. record b { state = pending_delete; delete_after = some delete_after }) t.blobs;
    }

-- Every blob that the collector waits for, and every version's end of life; the least of these is
-- the time of the next collection.
staged_ends : List Blob → List ℕ
staged_ends [] = []
staged_ends (b ∷ bs) =
    let rest = staged_ends bs in
    let counted : List ℕ = elim b.delete_after [ none ↦ rest | some d ↦ d ∷ rest ] in
    if is_staged b.state then counted else rest

free_ends : Tables → ℕ → List Blob → List ℕ
unfolding in_entries in_versions
free_ends t now [] = []
free_ends t now (b ∷ bs) =
    let rest = free_ends t now bs in
    let counted : List ℕ = elim b.delete_after [ none ↦ rest | some d ↦ d ∷ rest ] in
    if is_pending_delete b.state
      && (not (in_entries b.blob_id t.entries) && not (in_versions b.blob_id now t.entry_versions))
    then counted
    else rest

unfoldable pub next_blob_gc_at : Tables → ℕ → Option ℕ
unfolding staged_ends free_ends least
next_blob_gc_at t now =
    least
      (staged_ends t.blobs ++ (free_ends t now t.blobs ++ map (λ v. v.expires_at) t.entry_versions))

-- ORDER BY delete_after ASC, blob_id ASC
abbrev pub due_time : Blob → ℕ
due_time b = elim b.delete_after [ none ↦ 0 | some d ↦ d ]

-- The collector's batch; versions that have expired are deleted first.
unfoldable pub list_blobs_ready_for_deletion : TextOrder → Tables → ℕ → ℕ → List Blob × Tables
unfolding delete_expired_entry_versions is_collectible order_by select_where
list_blobs_ready_for_deletion texts t now limit =
    let t' = delete_expired_entry_versions t now in
    (
      take limit (
          order_by
            (λ a b.
              ltb (due_time a) (due_time b)
              || (due_time a == due_time b && texts.before a.blob_id b.blob_id))
            (select_where (is_collectible t' now) t'.blobs)),
      t',
    )
