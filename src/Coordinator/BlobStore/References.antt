-- ===== src/Coordinator/BlobStore/References.antt =====
-- Every blob that an entry refers to has a row, and that row is live.
use syncali.Prelude.{
  ℕ, ◌≡◌, ◌⊎◌, refl, String, Bool, true, false, Option, none, some, List, [], ◌∷◌, arith, refers,
  truthy, truthy-some, All, update_where, inl, inr, Bool-cases, Option-cases,
}
use syncali.Coordinator.Tables.{Tables, Blob, Entry, BlobState, staged, live, pending_delete, ok}
use syncali.Coordinator.BlobStore.Rows.{
  DistinctBlobs, find_blob-delete, find_blob-id, find_blob-stage, find_blob-update,
}
use syncali.Coordinator.BlobStore.Cases.{
  abort_staged_blob_cases, delete_blob_record_cases, delete_blob_if_collectible_cases,
}
use syncali.Coordinator.BlobStore.{
  has_blob_id, find_blob, in_entries, is_blob_pinned, stage_row, stage_blob, drop_blob,
  delete_blob_record, abort_staged_blob, is_collectible, delete_blob_if_collectible,
  is_unpinned_row, mark_unpinned_blobs_for_deletion, mark_blob_pending_delete_if_unpinned,
  mark_blob_live, mark_blob_pending_delete_if_unreferenced, set_pending_delete,
  delete_expired_entry_versions,
}

abbrev pub is_live : BlobState → Bool
is_live staged = false
is_live live = true
is_live pending_delete = false

-- The blob has a row, and the row is live.
unfoldable pub live_blob : List Blob → String → Bool
live_blob bs id = elim (find_blob id bs) [ none ↦ false | some b ↦ is_live b.state ]

-- The blob that a column names, if it names one, is live.
unfoldable pub is_backed : List Blob → Option String → Bool
is_backed bs o = elim (truthy o) [ none ↦ true | some id ↦ live_blob bs id ]

abbrev pub Backed : List Blob → List Entry → Type 0
Backed bs es = All (λ e. is_backed bs e.blob_id ≡ true) es

pub is_backed-some :
    (bs : List Blob) (o : Option String) (id : String)
    → is_backed bs o ≡ true
    → truthy o ≡ some id
    → live_blob bs id ≡ true
unfolding is_backed
is_backed-some bs o id h e = rw (e, is_backed) at h

pub is_backed-change :
    (bs cs : List Blob) (o : Option String)
    → ((id : String) → refers id o ≡ true → live_blob bs id ≡ true → live_blob cs id ≡ true)
    → is_backed bs o ≡ true
    → is_backed cs o ≡ true
unfolding is_backed
is_backed-change bs cs o keep h = elim (Option-cases (truthy o)) [
  | inl e ↦ rw (e, is_backed)
  | inr (id, e) ↦
      rw (e, is_backed) (keep id (rw (truthy-some o id e) (ground arith)) (rw (e, is_backed) at h))
]

-- A change of the rows that keeps the live rows which some entry refers to.
pub Backed-change :
    (bs cs : List Blob) (es : List Entry)
    → ((id : String) → in_entries id es ≡ true → live_blob bs id ≡ true → live_blob cs id ≡ true)
    → Backed bs es
    → Backed cs es
unfolding in_entries
Backed-change bs cs [] keep h = tt
Backed-change bs cs (e ∷ es) keep h = (
  is_backed-change bs cs e.blob_id (λ id r. keep id (ground arith)) h.0,
  Backed-change bs cs es (λ id r. keep id (ground arith)) h.1,
)

has_blob_id-eq : (id : String) (b : Blob) → has_blob_id id b ≡ true → b.blob_id ≡ id
unfolding has_blob_id
has_blob_id-eq id b h = ground arith

drop_blob-Backed :
    (t : Tables) (id : String) (b : Blob)
    → in_entries id t.entries ≡ false
    → Backed t.blobs t.entries
    → Backed (drop_blob t id b).blobs t.entries
unfolding drop_blob live_blob
drop_blob-Backed t id b free =
    Backed-change t.blobs (drop_blob t id b).blobs t.entries
      λ j r l. ground (arith, find_blob-delete id j t.blobs)

-- What the operations test before they remove or change a row.
pinned_free :
    (t : Tables) (id : String) (now : ℕ)
    → is_blob_pinned t id false now ≡ false
    → in_entries id t.entries ≡ false
unfolding is_blob_pinned
pinned_free t id now h = ground arith

collectible_free :
    (t : Tables) (now : ℕ) (b : Blob)
    → is_collectible t now b ≡ true
    → in_entries b.blob_id t.entries ≡ false
unfolding is_collectible
collectible_free t now b h = ground arith

unpinned_free :
    (t : Tables) (now : ℕ) (b : Blob)
    → is_unpinned_row t now b ≡ true
    → in_entries b.blob_id t.entries ≡ false
unfolding is_unpinned_row
unpinned_free t now b h = ground arith

-- A staged blob has no row yet, or no entry refers to it.
stage_blob_cases :
    (t u : Tables) (id : String) (size now by : ℕ)
    → stage_blob t id size now by ≡ ok u
    → (u.blobs ≡ stage_row id size now by t.blobs)
      × (u.entries ≡ t.entries)
      × ((find_blob id t.blobs ≡ none) ⊎ (in_entries id t.entries ≡ false))
unfolding stage_blob
stage_blob_cases t u id size now by h = ground (arith, pinned_free t id now)

-- Staging changes only the row of a blob that no entry refers to.
pub stage_blob-Backed :
    (t u : Tables) (id : String) (size now by : ℕ)
    → stage_blob t id size now by ≡ ok u
    → Backed t.blobs t.entries
    → Backed u.blobs u.entries
unfolding live_blob
stage_blob-Backed t u id size now by h v =
    let (blobs, entries, free) = stage_blob_cases t u id size now by h in
    rw (blobs, entries)
      (Backed-change t.blobs (stage_row id size now by t.blobs) t.entries
        (λ j r l. ground (arith, find_blob-stage id j size now by t.blobs)) v)

pub delete_blob_record-Backed :
    (t : Tables) (id : String)
    → in_entries id t.entries ≡ false
    → Backed t.blobs t.entries
    → Backed (delete_blob_record t id).blobs (delete_blob_record t id).entries
unfolding drop_blob
delete_blob_record-Backed t id free v =
    delete_blob_record_cases (λ u. Backed u.blobs u.entries) t id v
      λ b e. drop_blob-Backed t id b free v

pub abort_staged_blob-Backed :
    (t : Tables) (id : String) (now : ℕ)
    → DistinctBlobs t.blobs
    → Backed t.blobs t.entries
    → Backed (abort_staged_blob t id now).blobs (abort_staged_blob t id now).entries
unfolding drop_blob
abort_staged_blob-Backed t id now d v =
    abort_staged_blob_cases (λ u. Backed u.blobs u.entries) t id now d v
      λ b e free. drop_blob-Backed t id b (pinned_free t id now free) v

pub delete_blob_if_collectible-Backed :
    (t : Tables) (id : String) (now : ℕ)
    → DistinctBlobs t.blobs
    → Backed t.blobs t.entries
    → Backed
        (delete_blob_if_collectible t id now).blobs
        (delete_blob_if_collectible t id now).entries
unfolding drop_blob
delete_blob_if_collectible-Backed t id now d v =
    delete_blob_if_collectible_cases (λ u. Backed u.blobs u.entries) t id now d v
      λ b e free.
        drop_blob-Backed t id b
          (rw (find_blob-id id t.blobs b e) at (collectible_free t now b free)) v

-- An update that leaves alone the rows which some entry refers to.
update-Backed :
    (p : Blob → Bool) (f : Blob → Blob) (bs : List Blob) (es : List Entry)
    → ((b : Blob) → (f b).blob_id ≡ b.blob_id)
    → ((b : Blob) → p b ≡ true → in_entries b.blob_id es ≡ false)
    → Backed bs es
    → Backed (update_where p f bs) es
unfolding live_blob
update-Backed p f bs es keeps_id free = Backed-change bs (update_where p f bs) es λ j r l.
    elim (Option-cases (find_blob j bs)) [
      | inl e ↦ ground arith
      | inr (b, e) ↦
          ground (arith, find_blob-update p f keeps_id j bs, find_blob-id j bs b e, free b)
    ]

pub mark_unpinned-Backed :
    (t : Tables) (now : ℕ)
    → Backed t.blobs t.entries
    → Backed (mark_unpinned_blobs_for_deletion t now).blobs t.entries
unfolding mark_unpinned_blobs_for_deletion
mark_unpinned-Backed t now v =
    update-Backed _ (set_pending_delete now) t.blobs t.entries (λ b. refl)
      (λ b h. unpinned_free (delete_expired_entry_versions t now) now b h) v

pub mark_if_unpinned-Backed :
    (t : Tables) (id : String) (now : ℕ)
    → Backed t.blobs t.entries
    → Backed (mark_blob_pending_delete_if_unpinned t id now).blobs t.entries
unfolding mark_blob_pending_delete_if_unpinned
mark_if_unpinned-Backed t id now v =
    update-Backed _ (set_pending_delete now) t.blobs t.entries (λ b. refl)
      (λ b h. unpinned_free (delete_expired_entry_versions t now) now b (ground arith)) v

pub mark_if_unreferenced-Backed :
    (t : Tables) (id : String) (by : ℕ)
    → Backed t.blobs t.entries
    → Backed (mark_blob_pending_delete_if_unreferenced t id by).blobs t.entries
unfolding mark_blob_pending_delete_if_unreferenced
mark_if_unreferenced-Backed t id by v = elim (Bool-cases (in_entries id t.entries)) [
  | inl e ↦ rw (e, mark_blob_pending_delete_if_unreferenced) v
  | inr e ↦
      rw (e, mark_blob_pending_delete_if_unreferenced)
        (update-Backed (has_blob_id id) _ t.blobs t.entries (λ b. refl)
          (λ b h. rw (has_blob_id-eq id b h) e) v)
]

-- Making a blob live keeps every live row.
pub mark_blob_live-Backed :
    (t : Tables) (id : String) (es : List Entry)
    → Backed t.blobs es
    → Backed (mark_blob_live t id).blobs es
unfolding mark_blob_live live_blob
mark_blob_live-Backed t id es v =
    Backed-change t.blobs (mark_blob_live t id).blobs es
      (λ j r l. ground (
        arith,
        find_blob-update (has_blob_id id) (λ b. record b { state = live; delete_after = none })
            (λ b. refl) j t.blobs,
      ))
      v

-- A blob that has a row is live once it is marked.
pub live_blob-mark :
    (t : Tables) (id : String) (b : Blob)
    → find_blob id t.blobs ≡ some b
    → live_blob (mark_blob_live t id).blobs id ≡ true
unfolding mark_blob_live live_blob
live_blob-mark t id b e =
    (ground (
      arith,
      find_blob-id id t.blobs b e,
      find_blob-update (has_blob_id id) (λ b. record b { state = live; delete_after = none })
          (λ b. refl) id t.blobs,
    ))
