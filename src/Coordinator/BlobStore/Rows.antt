-- ===== src/Coordinator/BlobStore/Rows.antt =====
-- The rows of blobs: their ids, their sizes, and what the statements of the store do to both.
use syncali.Prelude.{
  ℕ, ◌+◌, ◌≡◌, refl, String, Bool, true, false, ◌&&◌, none, some, List, [], ◌∷◌, arith, same,
  select_first, delete_where, update_where, if◌then◌else◌,
}
use syncali.Coordinator.Tables.{Blob}
use syncali.Coordinator.BlobStore.{has_blob_id, find_blob, stage_row}

-- The bytes of all rows.
unfoldable pub total_size : List Blob → ℕ
total_size [] = 0
total_size (b ∷ bs) = b.size_bytes + total_size bs

-- The primary key of the table: no two rows have one id.
abbrev pub DistinctBlobs : List Blob → Type 0
DistinctBlobs [] = Unit
DistinctBlobs (b ∷ bs) = (find_blob b.blob_id bs ≡ none) × DistinctBlobs bs

pub find_blob-nil : (id : String) → find_blob id [] ≡ none
unfolding find_blob
find_blob-nil id = refl

pub find_blob-id :
    (id : String) (bs : List Blob) (b : Blob) → find_blob id bs ≡ some b → b.blob_id ≡ id
unfolding find_blob
find_blob-id id [] b h = ground arith
find_blob-id id (c ∷ bs) b h = ground (arith, find_blob-id id bs b)

pub delete_where-absent :
    (id : String) (bs : List Blob) → find_blob id bs ≡ none → delete_where (has_blob_id id) bs ≡ bs
unfolding delete_where find_blob
delete_where-absent id [] h = refl
delete_where-absent id (b ∷ bs) h = ground (arith, delete_where-absent id bs)

pub total_size-delete :
    (id : String) (bs : List Blob) (b : Blob)
    → DistinctBlobs bs
    → find_blob id bs ≡ some b
    → total_size (delete_where (has_blob_id id) bs) + b.size_bytes ≡ total_size bs
unfolding delete_where find_blob total_size
total_size-delete id [] b d h = ground arith
total_size-delete id (c ∷ bs) b d h =
    ground (arith, total_size-delete id bs b d.1, delete_where-absent id bs)

pub find_blob-delete :
    (id j : String) (bs : List Blob)
    → find_blob j (delete_where (has_blob_id id) bs) ≡ (if same id j then none else find_blob j bs)
unfolding delete_where find_blob
find_blob-delete id j [] = ground arith
find_blob-delete id j (b ∷ bs) = ground (arith, find_blob-delete id j bs)

pub delete_where-DistinctBlobs :
    (id : String) (bs : List Blob)
    → DistinctBlobs bs
    → DistinctBlobs (delete_where (has_blob_id id) bs)
unfolding delete_where has_blob_id
delete_where-DistinctBlobs id [] d = tt
delete_where-DistinctBlobs id (b ∷ bs) d =
    ground (arith, delete_where-DistinctBlobs id bs d.1, find_blob-delete id b.blob_id bs)

-- A condition beside the id does not matter where ids are distinct.
pub find_blob-select :
    (id : String) (q : Blob → Bool) (bs : List Blob) (b : Blob)
    → DistinctBlobs bs
    → select_first (λ c. same c.blob_id id && q c) bs ≡ some b
    → (find_blob id bs ≡ some b) × (q b ≡ true)
unfolding select_first find_blob
find_blob-select id q [] b d h = ground arith
find_blob-select id q (c ∷ bs) b d h =
    ground (arith, find_blob-select id q bs b d.1, find_blob-id id bs b)

pub total_size-stage :
    (id : String) (size now by : ℕ) (bs : List Blob)
    → total_size (stage_row id size now by bs)
      ≡ (elim (find_blob id bs) [ none ↦ size | some b ↦ 0 ]) + total_size bs
unfolding stage_row total_size find_blob
total_size-stage id size now by [] = omega arith
total_size-stage id size now by (c ∷ bs) = ground (arith, total_size-stage id size now by bs)

pub find_blob-stage :
    (id j : String) (size now by : ℕ) (bs : List Blob)
    → same id j ≡ false
    → find_blob j (stage_row id size now by bs) ≡ find_blob j bs
unfolding stage_row find_blob
find_blob-stage id j size now by [] h = ground arith
find_blob-stage id j size now by (c ∷ bs) h = ground (arith, find_blob-stage id j size now by bs)

pub stage_row-DistinctBlobs :
    (id : String) (size now by : ℕ) (bs : List Blob)
    → DistinctBlobs bs
    → DistinctBlobs (stage_row id size now by bs)
unfolding stage_row has_blob_id
stage_row-DistinctBlobs id size now by [] d = (find_blob-nil id, tt)
stage_row-DistinctBlobs id size now by (c ∷ bs) d = ground (
  arith,
  stage_row-DistinctBlobs id size now by bs d.1,
  find_blob-stage id c.blob_id size now by bs,
)

module _ (p : Blob → Bool) (f : Blob → Blob)
    (keeps_id : (b : Blob) → (f b).blob_id ≡ b.blob_id) where
  pub find_blob-update :
      (j : String) (bs : List Blob)
      → find_blob j (update_where p f bs)
        ≡ (elim (find_blob j bs) [ none ↦ none | some b ↦ some (if p b then f b else b) ])
  unfolding update_where find_blob
  find_blob-update j [] = refl
  find_blob-update j (c ∷ bs) = ground (arith, find_blob-update j bs, keeps_id c)

  pub update_where-DistinctBlobs :
      (bs : List Blob) → DistinctBlobs bs → DistinctBlobs (update_where p f bs)
  unfolding update_where
  update_where-DistinctBlobs [] d = tt
  update_where-DistinctBlobs (c ∷ bs) d =
      ground (arith, update_where-DistinctBlobs bs d.1, find_blob-update c.blob_id bs, keeps_id c)

pub total_size-update :
    (p : Blob → Bool) (f : Blob → Blob) (bs : List Blob)
    → ((b : Blob) → (f b).size_bytes ≡ b.size_bytes)
    → total_size (update_where p f bs) ≡ total_size bs
unfolding update_where total_size
total_size-update p f [] h = refl
total_size-update p f (c ∷ bs) h = ground (arith, total_size-update p f bs h, h c)
