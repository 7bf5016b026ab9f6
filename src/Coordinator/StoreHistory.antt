-- ===== src/Coordinator/StoreHistory.antt =====
-- Histories of calls to the blob, cursor and mutation stores of the coordinator. A call that throws
-- is rolled back.
use syncali.Prelude.{ℕ, ◌≡◌, refl, String, Bool, false, List, [], ◌∷◌, arith}
use syncali.Coordinator.Tables.{Tables, Outcome, ok, throws}
use syncali.Coordinator.BlobStore.{
  stage_blob, abort_staged_blob, drop_blob, delete_blob_record, in_entries,
  delete_blob_if_collectible, mark_unpinned_blobs_for_deletion,
  mark_blob_pending_delete_if_unpinned,
}
use syncali.Coordinator.BlobStore.Cases.{
  abort_staged_blob_cases, delete_blob_record_cases, delete_blob_if_collectible_cases,
}
use syncali.Coordinator.BlobStore.Usage.{
  IsAccounted, stage_blob-IsAccounted, delete_blob_record-IsAccounted,
  abort_staged_blob-IsAccounted, delete_blob_if_collectible-IsAccounted, mark_unpinned-IsAccounted,
  mark_if_unpinned-IsAccounted,
}
use syncali.Coordinator.BlobStore.References.{
  Backed, stage_blob-Backed, delete_blob_record-Backed, abort_staged_blob-Backed,
  delete_blob_if_collectible-Backed, mark_unpinned-Backed, mark_if_unpinned-Backed,
}
use syncali.Coordinator.CursorStore.{
  VaultStateLimits, ensure_vault_state, apply_vault_policy, record_local_vault_connection,
  delete_local_vault_connection,
}
use syncali.Coordinator.MutationStore.Model.{CommitContext, Mutation}
use syncali.Coordinator.MutationStore.Shape.{cursor_of}
use syncali.Coordinator.MutationStore.Invariant.{IsStored, commit_mutations-IsStored}
use syncali.Coordinator.MutationStore.{commit_mutations}

pub data StoreCall : Type 0 where
  ensures : String → VaultStateLimits → StoreCall
  applies_policy : String → VaultStateLimits → StoreCall
  connects : String → String → ℕ → StoreCall
  disconnects : String → String → StoreCall
  stages : String → ℕ → ℕ → ℕ → StoreCall
  aborts : String → ℕ → StoreCall
  collects : String → ℕ → StoreCall
  removes : String → StoreCall
  marks_unpinned : ℕ → StoreCall
  marks_if_unpinned : String → ℕ → StoreCall
  commits : CommitContext → String → List Mutation → StoreCall

abbrev pub or_rollback {ℓ} : {A : Type ℓ} → Tables → (A → Tables) → Outcome A → Tables
or_rollback t f (ok a) = f a
or_rollback t f (throws e) = t

unfoldable pub call : Tables → StoreCall → Tables
unfolding ensure_vault_state apply_vault_policy record_local_vault_connection
    delete_local_vault_connection stage_blob abort_staged_blob delete_blob_if_collectible
    delete_blob_record mark_unpinned_blobs_for_deletion mark_blob_pending_delete_if_unpinned
    commit_mutations
call t (ensures vault_id limits) = or_rollback t (λ u. u) (ensure_vault_state t vault_id limits)
call t (applies_policy vault_id limits) =
    or_rollback t (λ x. x.1) (apply_vault_policy t vault_id limits)
call t (connects user_id local_vault_id now) =
    record_local_vault_connection t user_id local_vault_id now
call t (disconnects user_id local_vault_id) = delete_local_vault_connection t user_id local_vault_id
call t (stages id size now by) = or_rollback t (λ u. u) (stage_blob t id size now by)
call t (aborts id now) = abort_staged_blob t id now
call t (collects id now) = delete_blob_if_collectible t id now
call t (removes id) = delete_blob_record t id
call t (marks_unpinned now) = mark_unpinned_blobs_for_deletion t now
call t (marks_if_unpinned id now) = mark_blob_pending_delete_if_unpinned t id now
call t (commits c request_id ms) = or_rollback t (λ x. x.1) (commit_mutations c request_id ms t)

pub history : Tables → List StoreCall → Tables
history t [] = t
history t (c ∷ cs) = history (call t c) cs

-- The guard that deleteBlobRecord leaves to its caller: no entry names the blob.
abbrev IsGuarded : Tables → StoreCall → Type 0
IsGuarded t (removes id) = in_entries id t.entries ≡ false
IsGuarded t (ensures vault_id limits) = Unit
IsGuarded t (applies_policy vault_id limits) = Unit
IsGuarded t (connects user_id local_vault_id now) = Unit
IsGuarded t (disconnects user_id local_vault_id) = Unit
IsGuarded t (stages id size now by) = Unit
IsGuarded t (aborts id now) = Unit
IsGuarded t (collects id now) = Unit
IsGuarded t (marks_unpinned now) = Unit
IsGuarded t (marks_if_unpinned id now) = Unit
IsGuarded t (commits c request_id ms) = Unit

abbrev pub AreGuarded : Tables → List StoreCall → Type 0
AreGuarded t [] = Unit
AreGuarded t (c ∷ cs) = IsGuarded t c × AreGuarded (call t c) cs

-- The rows that the calls on blobs leave alone.
record SameEntries (t u : Tables) : Type 0 where
  entries : u.entries ≡ t.entries
  cursor : cursor_of u.coordinator_state ≡ cursor_of t.coordinator_state

SameEntries-IsStored :
    (t u : Tables)
    → SameEntries t u
    → IsAccounted u
    → Backed u.blobs u.entries
    → IsStored t
    → IsStored u
SameEntries-IsStored t u k a b v = record {
  accounted = a;
  backed = b;
  entries = rw k.entries v.entries;
  below = rw (k.entries, k.cursor) v.below;
  seqs = rw k.entries v.seqs;
}

stage_blob-SameEntries :
    (t u : Tables) (id : String) (size now by : ℕ)
    → stage_blob t id size now by ≡ ok u
    → SameEntries t u
unfolding stage_blob
stage_blob-SameEntries t u id size now by h = ground arith

drop_blob-SameEntries : (t : Tables) (id : String) (b : _) → SameEntries t (drop_blob t id b)
unfolding drop_blob
drop_blob-SameEntries t id b = ground arith

ensure_vault_state-IsStored :
    (t u : Tables) (vault_id : String) (limits : VaultStateLimits)
    → ensure_vault_state t vault_id limits ≡ ok u
    → IsStored t
    → IsStored u
unfolding ensure_vault_state
ensure_vault_state-IsStored t u vault_id limits h v = ground arith

apply_vault_policy-IsStored :
    (t u : Tables) (vault_id : String) (limits : VaultStateLimits) (b : Bool)
    → apply_vault_policy t vault_id limits ≡ ok (b, u)
    → IsStored t
    → IsStored u
unfolding apply_vault_policy
apply_vault_policy-IsStored t u vault_id limits b h v = ground arith

rollback-IsStored {ℓ} :
    {A : Type ℓ} (t : Tables) (f : A → Tables) (o : Outcome A)
    → IsStored t
    → ((a : A) → o ≡ ok a → IsStored (f a))
    → IsStored (or_rollback t f o)
rollback-IsStored t f (ok a) v g = g a refl
rollback-IsStored t f (throws e) v g = v

call-IsStored : (t : Tables) (c : StoreCall) → IsGuarded t c → IsStored t → IsStored (call t c)
unfolding call
call-IsStored t (ensures vault_id limits) g v =
    rollback-IsStored t _ _ v (λ u h. ensure_vault_state-IsStored t u vault_id limits h v)
call-IsStored t (applies_policy vault_id limits) g v =
    rollback-IsStored t _ _ v (λ x h. apply_vault_policy-IsStored t x.1 vault_id limits x.0 h v)
call-IsStored t (connects user_id local_vault_id now) g v =
    unfold record_local_vault_connection in
    SameEntries-IsStored t _ (record { entries = refl; cursor = refl })
      (record { total = v.accounted.total; distinct = v.accounted.distinct }) v.backed v
call-IsStored t (disconnects user_id local_vault_id) g v =
    unfold delete_local_vault_connection in
    SameEntries-IsStored t _ (record { entries = refl; cursor = refl })
      (record { total = v.accounted.total; distinct = v.accounted.distinct }) v.backed v
call-IsStored t (stages id size now by) g v = rollback-IsStored t _ _ v λ u h.
    SameEntries-IsStored t u (stage_blob-SameEntries t u id size now by h)
      (stage_blob-IsAccounted t u id size now by v.accounted h)
      (stage_blob-Backed t u id size now by h v.backed) v
call-IsStored t (aborts id now) g v =
    SameEntries-IsStored t (abort_staged_blob t id now)
      (abort_staged_blob_cases (SameEntries t) t id now v.accounted.distinct
        (record { entries = refl; cursor = refl }) (λ b _ _. drop_blob-SameEntries t id b))
      (abort_staged_blob-IsAccounted t id now v.accounted)
      (abort_staged_blob-Backed t id now v.accounted.distinct v.backed) v
call-IsStored t (collects id now) g v =
    SameEntries-IsStored t (delete_blob_if_collectible t id now)
      (delete_blob_if_collectible_cases (SameEntries t) t id now v.accounted.distinct
        (record { entries = refl; cursor = refl }) (λ b _ _. drop_blob-SameEntries t id b))
      (delete_blob_if_collectible-IsAccounted t id now v.accounted)
      (delete_blob_if_collectible-Backed t id now v.accounted.distinct v.backed) v
call-IsStored t (removes id) g v =
    SameEntries-IsStored t (delete_blob_record t id)
      (delete_blob_record_cases (SameEntries t) t id (record { entries = refl; cursor = refl })
        (λ b _. drop_blob-SameEntries t id b))
      (delete_blob_record-IsAccounted t id v.accounted) (delete_blob_record-Backed t id g v.backed)
      v
call-IsStored t (marks_unpinned now) g v =
    unfold mark_unpinned_blobs_for_deletion in
    SameEntries-IsStored t _ (record { entries = refl; cursor = refl })
      (mark_unpinned-IsAccounted t now v.accounted) (mark_unpinned-Backed t now v.backed) v
call-IsStored t (marks_if_unpinned id now) g v =
    unfold mark_blob_pending_delete_if_unpinned in
    SameEntries-IsStored t _ (record { entries = refl; cursor = refl })
      (mark_if_unpinned-IsAccounted t id now v.accounted)
      (mark_if_unpinned-Backed t id now v.backed) v
call-IsStored t (commits c request_id ms) g v =
    rollback-IsStored t _ _ v (λ x h. commit_mutations-IsStored c request_id ms t x.1 x.0 v h)

-- The tables stay consistent through any history of the calls of `StoreCall`, whether they succeed
-- or throw, if each deleteBlobRecord among them is of a blob that no entry names at that time: the
-- byte count is the size of all rows of blobs, no two rows of blobs have one id, every blob that an
-- entry names has a row that is live, no two entries have one id or one cursor, and no entry is
-- ahead of the vault's cursor.
pub history-IsStored :
    (t : Tables) (cs : List StoreCall) → AreGuarded t cs → IsStored t → IsStored (history t cs)
unfolding history
history-IsStored t [] g v = v
history-IsStored t (c ∷ cs) g v = history-IsStored (call t c) cs g.1 (call-IsStored t c g.0 v)
