-- ===== src/Coordinator/BlobStore/Cases.antt =====
-- The operations that remove one blob either leave the tables alone or drop the row of that blob,
-- which then passed the operation's guards.
use syncali.Prelude.{
  ℕ, ◌≡◌, ◌&&◌, String, true, false, some, same, select_first, inl, inr, Option-cases, Bool-cases,
}
use syncali.Coordinator.Tables.{Tables, Blob}
use syncali.Coordinator.BlobStore.Rows.{DistinctBlobs, delete_where-absent, find_blob-select}
use syncali.Coordinator.BlobStore.{
  find_blob, is_staged, is_blob_pinned, drop_blob, delete_blob_record, abort_staged_blob,
  is_collectible, delete_blob_if_collectible,
}

module _ {ℓ} (P : Tables → Type ℓ) (t : Tables) (id : String) where
  pub delete_blob_record_cases :
      P t
      → ((b : Blob) → find_blob id t.blobs ≡ some b → P (drop_blob t id b))
      → P (delete_blob_record t id)
  unfolding delete_blob_record
  delete_blob_record_cases kept dropped = elim (Option-cases (find_blob id t.blobs)) [
    | inl e ↦ rw (e, delete_blob_record, delete_where-absent id t.blobs e) kept
    | inr (b, e) ↦ rw (e, delete_blob_record) (dropped b e)
  ]

  module _ (now : ℕ) (distinct : DistinctBlobs t.blobs) where
    pub abort_staged_blob_cases :
        P t
        → ((b : Blob)
            → find_blob id t.blobs ≡ some b
            → is_blob_pinned t id false now ≡ false
            → P (drop_blob t id b))
        → P (abort_staged_blob t id now)
    unfolding abort_staged_blob
    abort_staged_blob_cases kept dropped =
        elim (Option-cases (select_first (λ b. same b.blob_id id && is_staged b.state) t.blobs)) [
          | inl e ↦ rw (e, abort_staged_blob) kept
          | inr (b, e) ↦ elim (Bool-cases (is_blob_pinned t id false now)) [
            | inl pinned ↦ rw (e, abort_staged_blob) (rw (pinned, abort_staged_blob) kept)
            | inr free ↦
                rw (e, abort_staged_blob)
                  (rw (free, abort_staged_blob)
                    (dropped b (find_blob-select id (λ c. is_staged c.state) t.blobs b distinct e).0
                      free))
          ]
        ]

    pub delete_blob_if_collectible_cases :
        P t
        → ((b : Blob)
            → find_blob id t.blobs ≡ some b
            → is_collectible t now b ≡ true
            → P (drop_blob t id b))
        → P (delete_blob_if_collectible t id now)
    unfolding delete_blob_if_collectible
    delete_blob_if_collectible_cases kept dropped =
        elim (Option-cases
          (select_first (λ b. same b.blob_id id && is_collectible t now b) t.blobs)) [
            | inl e ↦ rw (e, delete_blob_if_collectible) kept
            | inr (b, e) ↦
                let found = find_blob-select id (is_collectible t now) t.blobs b distinct e in
                rw (e, delete_blob_if_collectible) (dropped b found.0 found.1)
          ]
