-- ===== src/Coordinator/MutationStore/BlobSteps.antt =====
-- What a commit does to the rows of blobs keeps the tables consistent.
use syncali.Prelude.{
  ℕ, ◌+◌, ◌≡◌, inl, inr, refl, String, true, Option, some, List, arith, truthy, refers, Bool-cases,
  Option-cases,
}
use syncali.Coordinator.Tables.{Tables, Blob, Entry, pending_delete, staged}
use syncali.Coordinator.BlobStore.{
  find_blob, has_blob_id, restage_pending_delete_blob, mark_blob_live,
  mark_blob_pending_delete_if_unreferenced,
}
use syncali.Coordinator.BlobStore.Rows.{find_blob-update, find_blob-id}
use syncali.Coordinator.BlobStore.Usage.{
  IsAccounted, restage-IsAccounted, mark_blob_live-IsAccounted, mark_if_unreferenced-IsAccounted,
}
use syncali.Coordinator.BlobStore.References.{
  Backed, Backed-change, is_backed, live_blob, mark_blob_live-Backed, live_blob-mark,
  mark_if_unreferenced-Backed,
}
use syncali.Coordinator.MutationStore.Model.{Mutation, CommitContext, next_blob_id, current_blob_id}
use syncali.Coordinator.MutationStore.Entries.{DistinctEntries, DistinctSeqs, Below}
use syncali.Coordinator.MutationStore.Cases.{BlobReady, no_blob, present, restaged}
use syncali.Coordinator.MutationStore.{hold_next_blob, release_current_blob}

-- The tables are consistent up to cursor `n`.
pub record IsConsistent (n : ℕ) (t : Tables) : Type 0 where
  pub accounted : IsAccounted t
  pub backed : Backed t.blobs t.entries
  pub entries : DistinctEntries t.entries
  pub below : Below n t.entries
  pub seqs : DistinctSeqs t.entries

-- A blob that a mutation names has a row.
abbrev pub NextBlobPresent : Mutation → Tables → Type 0
NextBlobPresent m t =
    (id : String) → truthy (next_blob_id m) ≡ some id → (b : Blob) × (find_blob id t.blobs ≡ some b)

-- Staging a blob again that was on its way to deletion takes no live row away.
restage-Backed :
    (t : Tables) (id : String) (by : ℕ) (b : Blob)
    → find_blob id t.blobs ≡ some b
    → b.state ≡ pending_delete
    → Backed t.blobs t.entries
    → Backed (restage_pending_delete_blob t id by).blobs t.entries
unfolding restage_pending_delete_blob live_blob
restage-Backed t id by b e p =
    Backed-change t.blobs (restage_pending_delete_blob t id by).blobs t.entries λ j r l.
      elim (Option-cases (find_blob j t.blobs)) [
        | inl none_found ↦ ground arith
        | inr (x, found) ↦ ground (
          arith,
          find_blob-id j t.blobs x found,
          find_blob-update (has_blob_id id)
              (λ b. record b { state = staged; delete_after = some by }) (λ b. refl) j t.blobs,
        )
      ]

pub BlobReady-present :
    (c : CommitContext) (m : Mutation) (t u : Tables) → BlobReady c m t u → NextBlobPresent m u
unfolding restage_pending_delete_blob
BlobReady-present c m t u (no_blob e) = λ id h. absurd (ground arith)
BlobReady-present c m t u (present id b e f) = λ j h. (b, ground arith)
BlobReady-present c m t u (restaged id b e f g) = λ j h. elim (Bool-cases (has_blob_id id b)) [
  | inl x ↦ (
    record b { state = staged; delete_after = some (c.now + c.stage_grace_period_ms) },
    ground (
      arith,
      find_blob-update (has_blob_id id)
          (λ b. record b { state = staged; delete_after = some (c.now + c.stage_grace_period_ms) })
          (λ b. refl) j t.blobs,
    ),
  )
  | inr x ↦ (
    b,
    ground (
      arith,
      find_blob-update (has_blob_id id)
          (λ b. record b { state = staged; delete_after = some (c.now + c.stage_grace_period_ms) })
          (λ b. refl) j t.blobs,
    ),
  )
]

pub BlobReady-IsConsistent :
    (c : CommitContext) (m : Mutation) (n : ℕ) (t u : Tables)
    → BlobReady c m t u
    → IsConsistent n t
    → IsConsistent n u
unfolding restage_pending_delete_blob
BlobReady-IsConsistent c m n t u (no_blob e) v = v
BlobReady-IsConsistent c m n t u (present id b e f) v = v
BlobReady-IsConsistent c m n t u (restaged id b e f g) v = record {
  accounted = restage-IsAccounted t id (c.now + c.stage_grace_period_ms) v.accounted;
  backed = restage-Backed t id (c.now + c.stage_grace_period_ms) b f g v.backed;
  entries = v.entries;
  below = v.below;
  seqs = v.seqs;
}

-- The row that a mutation wrote is backed once its blob is live.
pub hold_next_blob-backs :
    (m : Mutation) (t : Tables)
    → NextBlobPresent m t
    → is_backed (hold_next_blob m t).blobs (next_blob_id m) ≡ true
unfolding hold_next_blob is_backed
hold_next_blob-backs m t h = elim (Option-cases (truthy (next_blob_id m))) [
  | inl e ↦ rw (e, is_backed)
  | inr (id, e) ↦
      rw (e, is_backed) (rw (e, hold_next_blob) (live_blob-mark t id (h id e).0 (h id e).1))
]

pub hold_next_blob-keeps :
    (m : Mutation) (t : Tables) (es : List Entry)
    → IsAccounted t
    → Backed t.blobs es
    → IsAccounted (hold_next_blob m t)
      × Backed (hold_next_blob m t).blobs es
      × ((hold_next_blob m t).entries ≡ t.entries)
unfolding hold_next_blob
hold_next_blob-keeps m t es v w = elim (Option-cases (truthy (next_blob_id m))) [
  | inl e ↦ rw (e, hold_next_blob) (v, w, refl)
  | inr (id, e) ↦
      rw (e, hold_next_blob)
        (
          mark_blob_live-IsAccounted t id v,
          mark_blob_live-Backed t id es w,
          unfold mark_blob_live in refl,
        )
]

mark_if_unreferenced-entries :
    (t : Tables) (id : String) (by : ℕ)
    → (mark_blob_pending_delete_if_unreferenced t id by).entries ≡ t.entries
unfolding mark_blob_pending_delete_if_unreferenced
mark_if_unreferenced-entries t id by = ground arith

pub release_current_blob-keeps :
    (c : CommitContext) (m : Mutation) (current : Option Entry) (t : Tables)
    → IsAccounted t
    → Backed t.blobs t.entries
    → IsAccounted (release_current_blob c m current t)
      × Backed (release_current_blob c m current t).blobs t.entries
      × ((release_current_blob c m current t).entries ≡ t.entries)
unfolding release_current_blob
release_current_blob-keeps c m current t v w =
    elim (Option-cases (truthy (current_blob_id current))) [
      | inl e ↦ rw (e, release_current_blob) (v, w, refl)
      | inr (b, e) ↦ elim (Bool-cases (refers b (next_blob_id m))) [
        | inl x ↦ rw (e, release_current_blob) (rw (x, release_current_blob) (v, w, refl))
        | inr x ↦
            rw (e, release_current_blob)
              (rw (x, release_current_blob)
                (
                  mark_if_unreferenced-IsAccounted t b c.now v,
                  mark_if_unreferenced-Backed t b c.now w,
                  mark_if_unreferenced-entries t b c.now,
                ))
      ]
    ]
