-- ===== src/Coordinator/Requests/Held.antt =====
-- What a sequence of requests keeps of the objects that are referred to.
use syncali.Prelude.{
  ℕ, ◌+◌, ◌≤◌, ◌≡◌, refl, String, true, false, ◌||◌, Option, List, [], ◌∷◌, arith, leb, has, truthy,
  All-map, TextOrder, Bool-cases, Option-cases, inl, inr,
}
use syncali.Coordinator.Tables.{Tables, ok, Outcome-cases}
use syncali.Coordinator.BlobStore.{stage_blob, abort_staged_blob, drop_blob, is_blob_pinned}
use syncali.Coordinator.MutationStore.Model.{Mutation}
use syncali.Coordinator.BlobSync.{
  BlobSync, tables_of, with_tables, with_objects, remove_object, stage_blob_request,
  abort_staged_blob_request, schedule_flush, defer_gc,
}
use syncali.Coordinator.BlobSync.Held.{IsHeld, is_held, HeldEntries-remove, HeldVersions-remove}
use syncali.Coordinator.BlobSync.Collect.{
  Keeps-IsHeld, schedule_flush-Keeps, pinned_free, run_gc-IsHeld, delete_blob_request-IsHeld,
}
use syncali.Coordinator.BlobSync.Purged.{collect_purged_blobs-IsHeld}
use syncali.Coordinator.CommitService.{CommitCall, commit_mutations_request}
use syncali.Coordinator.CommitService.Held.{commit_mutations_request-IsHeld}
use syncali.Coordinator.Requests.{
  Request, stages, stores, mismatches, aborts, deletes, collects, collects_purged, commits, time_of,
  handle, handle_all, time_after, InOrder, IsKnown, AllKnown,
}

later-IsHeld : (now later : ℕ) (s : BlobSync) → now ≤ later → IsHeld now s → IsHeld later s
later-IsHeld now later s le h = record {
  entries = h.entries;
  versions =
      All-map {Q = λ v. (leb v.expires_at later || is_held s.objects v.blob_id) ≡ true}
        (tables_of s).entry_versions
        (λ v k. elim (Bool-cases (is_held s.objects v.blob_id)) [
          | inl e ↦ rw e (ground arith)
          | inr e ↦ ground (arith, rw e at k)
        ])
        h.versions;
}

stage_blob-names :
    (t u : Tables) (id : String) (size now by : ℕ)
    → stage_blob t id size now by ≡ ok u
    → (u.entries ≡ t.entries) × (u.entry_versions ≡ t.entry_versions)
unfolding stage_blob
stage_blob-names t u id size now by h = (ground arith, ground arith)

stages-IsHeld :
    (texts : TextOrder) (id : String) (size grace now : ℕ) (s : BlobSync)
    → IsHeld now s
    → IsHeld now (handle texts (stages id size grace now) s)
unfolding handle stage_blob_request
stages-IsHeld texts id size grace now s h =
    elim (Outcome-cases (stage_blob (tables_of s) id size now (now + grace))) [
      | inl (e, x) ↦ rw (x, handle) h
      | inr (t, x) ↦
          let kept = stage_blob-names (tables_of s) t id size now (now + grace) x in
          rw (x, handle)
            (Keeps-IsHeld now s (defer_gc (now + grace) now (with_tables s t))
              (refl, kept.0, kept.1) h)
    ]

-- One more object hides none of the others.
is_held-more :
    (id : String) (objects : List String) (o : Option String)
    → is_held objects o ≡ true
    → is_held (id ∷ objects) o ≡ true
unfolding is_held has
is_held-more id objects o h = elim (Option-cases (truthy o)) [
  | inl e ↦ rw (e, is_held) refl
  | inr (j, e) ↦ rw (e, is_held) (ground (arith, rw (e, is_held) at h))
]

stores-IsHeld :
    (now : ℕ) (id : String) (s : BlobSync)
    → IsHeld now s
    → IsHeld now (with_objects s (id ∷ s.objects))
stores-IsHeld now id s h = record {
  entries = All-map (tables_of s).entries (λ e k. is_held-more id s.objects e.blob_id k) h.entries;
  versions =
      All-map {Q = λ v. (leb v.expires_at now || is_held (id ∷ s.objects) v.blob_id) ≡ true}
        (tables_of s).entry_versions
        (λ v k. elim (Bool-cases (leb v.expires_at now)) [
          | inl e ↦ rw e refl
          | inr e ↦ rw e (is_held-more id s.objects v.blob_id (rw e at k))
        ])
        h.versions;
}

abort-names :
    (t : Tables) (id : String) (now : ℕ)
    → ((abort_staged_blob t id now).entries ≡ t.entries)
      × ((abort_staged_blob t id now).entry_versions ≡ t.entry_versions)
unfolding abort_staged_blob drop_blob
abort-names t id now = (ground arith, ground arith)

aborts-IsHeld :
    (id : String) (now : ℕ) (s : BlobSync)
    → IsHeld now s
    → IsHeld now (abort_staged_blob_request id now s)
unfolding abort_staged_blob_request
aborts-IsHeld id now s h =
    let aborted = with_tables s (abort_staged_blob (tables_of s) id now) in
    let kept = abort-names (tables_of s) id now in
    Keeps-IsHeld now aborted (schedule_flush now aborted) (schedule_flush-Keeps now aborted)
      (Keeps-IsHeld now s aborted (refl, kept.0, kept.1) h)

mismatches-IsHeld :
    (id : String) (now : ℕ) (s : BlobSync)
    → is_blob_pinned (tables_of s) id false now ≡ false
    → IsHeld now s
    → IsHeld now (abort_staged_blob_request id now (with_objects s (remove_object id s.objects)))
mismatches-IsHeld id now s unpinned h =
    let free = pinned_free (tables_of s) id now unpinned in
    aborts-IsHeld id now (with_objects s (remove_object id s.objects)) (record {
      entries = HeldEntries-remove id s.objects (tables_of s).entries free.0 h.entries;
      versions =
          HeldVersions-remove id now s.objects (tables_of s).entry_versions free.1 h.versions;
    })

commits-IsHeld :
    (texts : TextOrder) (now : ℕ) (call : CommitCall) (request_id : String) (ms : List Mutation)
    (s : BlobSync)
    → IsHeld now s
    → IsHeld now (handle texts (commits call request_id ms) s)
unfolding handle
commits-IsHeld texts now call request_id ms s h =
    elim (Outcome-cases (commit_mutations_request call request_id ms s)) [
      | inl (e, x) ↦ rw (x, handle) h
      | inr (r, x) ↦
          rw (x, handle) (commit_mutations_request-IsHeld now call request_id ms s r.1 r.0 x h)
    ]

handle-IsHeld :
    (texts : TextOrder) (r : Request) (s : BlobSync)
    → IsKnown r s
    → IsHeld (time_of r) s
    → IsHeld (time_of r) (handle texts r s)
unfolding handle
handle-IsHeld texts (stages id size grace now) s k h = stages-IsHeld texts id size grace now s h
handle-IsHeld texts (stores id now) s k h = stores-IsHeld now id s h
handle-IsHeld texts (mismatches id now) s k h = mismatches-IsHeld id now s k h
handle-IsHeld texts (aborts id now) s k h = aborts-IsHeld id now s h
handle-IsHeld texts (deletes id now) s k h = delete_blob_request-IsHeld id now s k h
handle-IsHeld texts (collects vault_id now clock flush next) s k h =
    run_gc-IsHeld texts vault_id now clock flush next s h
handle-IsHeld texts (collects_purged fails now clock ids) s k h =
    collect_purged_blobs-IsHeld fails now clock ids s h
handle-IsHeld texts (commits call request_id ms) s k h =
    commits-IsHeld texts call.now call request_id ms s h

-- Through any sequence of uploads, deletions, collections and commits, handled one after the other
-- in the order of their times, every blob that an entry names, or a version that has not expired,
-- keeps its object, if it was so at first, and if each deletion of a blob that has no row, and each
-- upload that ends in another size than declared, is of a blob that nothing refers to at that time.
pub handle_all-IsHeld :
    (texts : TextOrder) (now : ℕ) (rs : List Request) (s : BlobSync)
    → InOrder now rs
    → AllKnown texts rs s
    → IsHeld now s
    → IsHeld (time_after now rs) (handle_all texts rs s)
unfolding handle_all time_after
handle_all-IsHeld texts now [] s o k h = h
handle_all-IsHeld texts now (r ∷ rs) s o k h =
    handle_all-IsHeld texts (time_of r) rs (handle texts r s) o.1 k.1
      (handle-IsHeld texts r s k.0 (later-IsHeld now (time_of r) s o.0 h))
