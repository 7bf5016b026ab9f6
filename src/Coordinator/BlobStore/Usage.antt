-- ===== src/Coordinator/BlobStore/Usage.antt =====
-- The byte count of coordinator_state against the rows of blobs.
use syncali.Prelude.{
  ℕ, ◌≤◌, ◌<◌, ◌≡◌, refl, String, Bool, Option, none, some, arith, update_where, inl, inr,
  Bool-cases,
}
use syncali.Coordinator.Tables.{Tables, Blob, CoordinatorState, ok}
use syncali.Coordinator.BlobStore.Rows.{
  total_size, DistinctBlobs, total_size-delete, delete_where-DistinctBlobs, total_size-stage,
  stage_row-DistinctBlobs, update_where-DistinctBlobs, total_size-update,
}
use syncali.Coordinator.BlobStore.Cases.{
  delete_blob_record_cases, abort_staged_blob_cases, delete_blob_if_collectible_cases,
}
use syncali.Coordinator.BlobStore.{
  has_blob_id, find_blob, stage_blob, drop_blob, delete_blob_record, abort_staged_blob,
  delete_blob_if_collectible, mark_unpinned_blobs_for_deletion,
  mark_blob_pending_delete_if_unpinned, restage_pending_delete_blob, mark_blob_live,
  mark_blob_pending_delete_if_unreferenced, set_pending_delete, in_entries,
}

abbrev pub used_bytes : Option CoordinatorState → ℕ
used_bytes none = 0
used_bytes (some s) = s.storage_used_bytes

-- The byte count is the size of all rows, and no two rows have one id.
pub record IsAccounted (t : Tables) : Type 0 where
  pub total : used_bytes t.coordinator_state ≡ total_size t.blobs
  pub distinct : DistinctBlobs t.blobs

-- Staging a blob, when it succeeds, keeps the byte count equal to the size of all rows, and the ids
-- of the rows distinct.
pub stage_blob-IsAccounted :
    (t u : Tables) (id : String) (size now by : ℕ)
    → IsAccounted t
    → stage_blob t id size now by ≡ ok u
    → IsAccounted u
unfolding stage_blob
stage_blob-IsAccounted t u id size now by v h = ground (
  arith,
  total_size-stage id size now by t.blobs,
  stage_row-DistinctBlobs id size now by t.blobs v.distinct,
)

drop_blob-IsAccounted :
    (t : Tables) (id : String) (b : Blob)
    → IsAccounted t
    → find_blob id t.blobs ≡ some b
    → IsAccounted (drop_blob t id b)
unfolding drop_blob
drop_blob-IsAccounted t id b v h = ground (
  arith,
  total_size-delete id t.blobs b v.distinct h,
  delete_where-DistinctBlobs id t.blobs v.distinct,
)

pub delete_blob_record-IsAccounted :
    (t : Tables) (id : String) → IsAccounted t → IsAccounted (delete_blob_record t id)
delete_blob_record-IsAccounted t id v =
    delete_blob_record_cases IsAccounted t id v (λ b e. drop_blob-IsAccounted t id b v e)

pub abort_staged_blob-IsAccounted :
    (t : Tables) (id : String) (now : ℕ) → IsAccounted t → IsAccounted (abort_staged_blob t id now)
abort_staged_blob-IsAccounted t id now v =
    abort_staged_blob_cases IsAccounted t id now v.distinct v
      (λ b e _. drop_blob-IsAccounted t id b v e)

pub delete_blob_if_collectible-IsAccounted :
    (t : Tables) (id : String) (now : ℕ)
    → IsAccounted t
    → IsAccounted (delete_blob_if_collectible t id now)
delete_blob_if_collectible-IsAccounted t id now v =
    delete_blob_if_collectible_cases IsAccounted t id now v.distinct v
      (λ b e _. drop_blob-IsAccounted t id b v e)

module _ (p : Blob → Bool) (f : Blob → Blob) (keeps_id : (b : Blob) → (f b).blob_id ≡ b.blob_id)
    (keeps_size : (b : Blob) → (f b).size_bytes ≡ b.size_bytes) where
  pub update-IsAccounted :
      (t u : Tables)
      → IsAccounted t
      → u.blobs ≡ update_where p f t.blobs
      → u.coordinator_state ≡ t.coordinator_state
      → IsAccounted u
  update-IsAccounted t u v hb hs = ground (
    arith,
    total_size-update p f t.blobs keeps_size,
    update_where-DistinctBlobs p f keeps_id t.blobs v.distinct,
  )

pub mark_unpinned-IsAccounted :
    (t : Tables) (now : ℕ) → IsAccounted t → IsAccounted (mark_unpinned_blobs_for_deletion t now)
unfolding mark_unpinned_blobs_for_deletion
mark_unpinned-IsAccounted t now v =
    update-IsAccounted _ (set_pending_delete now) (λ b. refl) (λ b. refl) t _ v refl refl

pub mark_if_unpinned-IsAccounted :
    (t : Tables) (id : String) (now : ℕ)
    → IsAccounted t
    → IsAccounted (mark_blob_pending_delete_if_unpinned t id now)
unfolding mark_blob_pending_delete_if_unpinned
mark_if_unpinned-IsAccounted t id now v =
    update-IsAccounted _ (set_pending_delete now) (λ b. refl) (λ b. refl) t _ v refl refl

pub restage-IsAccounted :
    (t : Tables) (id : String) (by : ℕ)
    → IsAccounted t
    → IsAccounted (restage_pending_delete_blob t id by)
unfolding restage_pending_delete_blob
restage-IsAccounted t id by v =
    update-IsAccounted (has_blob_id id) _ (λ b. refl) (λ b. refl) t _ v refl refl

pub mark_blob_live-IsAccounted :
    (t : Tables) (id : String) → IsAccounted t → IsAccounted (mark_blob_live t id)
unfolding mark_blob_live
mark_blob_live-IsAccounted t id v =
    update-IsAccounted (has_blob_id id) _ (λ b. refl) (λ b. refl) t _ v refl refl

pub mark_if_unreferenced-IsAccounted :
    (t : Tables) (id : String) (by : ℕ)
    → IsAccounted t
    → IsAccounted (mark_blob_pending_delete_if_unreferenced t id by)
unfolding mark_blob_pending_delete_if_unreferenced
mark_if_unreferenced-IsAccounted t id by v = elim (Bool-cases (in_entries id t.entries)) [
  | inl e ↦ rw (e, mark_blob_pending_delete_if_unreferenced) v
  | inr e ↦
      rw (e, mark_blob_pending_delete_if_unreferenced)
        (update-IsAccounted (has_blob_id id) _ (λ b. refl) (λ b. refl) t _ v refl refl)
]

-- With a limit, an upload of a new blob is accepted only if all rows then fit in the limit.
pub stage_blob_quota :
    (t u : Tables) (id : String) (size now by : ℕ) (s : CoordinatorState)
    → IsAccounted t
    → t.coordinator_state ≡ some s
    → 0 < s.storage_limit_bytes
    → find_blob id t.blobs ≡ none
    → stage_blob t id size now by ≡ ok u
    → total_size u.blobs ≤ s.storage_limit_bytes
unfolding stage_blob
stage_blob_quota t u id size now by s v hs hl absent h =
    ground (arith, total_size-stage id size now by t.blobs)
