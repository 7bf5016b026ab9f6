-- ===== src/Coordinator/Requests.antt =====
-- Sequences of requests to the coordinator, one after the other, and what they do to the objects of
-- the blobs (blob/sync-service.ts, mutation/commit-service.ts, entry/history-service.ts, and the two
-- ends of an upload in blob/routes.ts).
pub mod Held
mod Examples
use syncali.Prelude.{
  ℕ, ◌+◌, ◌≤◌, ◌≡◌, refl, sym, ap, subst, String, Bool, true, false, ◌||◌, Option, none, some, List,
  [], ◌∷◌, arith, leb, has, truthy, All, All-map, TextOrder, Bool-cases, Option-cases, inl, inr,
  same,
}
use syncali.Coordinator.Tables.{Tables, ok, throws, ok-split, ok-injective, Outcome-cases}
use syncali.Coordinator.BlobStore.{
  stage_blob, abort_staged_blob, drop_blob, is_blob_pinned, is_staged, read_blob,
}
use syncali.Coordinator.MutationStore.Model.{Mutation}
use syncali.Coordinator.MutationStore.{CommitMutationsResult}
use syncali.Coordinator.BlobSync.{
  BlobSync, tables_of, with_tables, with_objects, remove_object, stage_blob_request,
  abort_staged_blob_request, delete_blob_request, run_gc, collect_purged_blobs, schedule_flush,
  defer_gc,
}
use syncali.Coordinator.BlobSync.Held.{IsHeld, is_held}
use syncali.Coordinator.BlobSync.Collect.{
  Keeps, Keeps-IsHeld, schedule_flush-Keeps, run_gc-IsHeld, delete_blob_request-IsHeld,
}
use syncali.Coordinator.BlobSync.Purged.{collect_purged_blobs-IsHeld}
use syncali.Coordinator.CommitService.{CommitCall, commit_mutations_request}
use syncali.Coordinator.CommitService.Held.{commit_mutations_request-IsHeld}

pub data Request : Type 0 where
  stages : (id : String) (size grace now : ℕ) → Request
  stores : (id : String) (now : ℕ) → Request
  mismatches aborts deletes : (id : String) (now : ℕ) → Request
  collects :
      (vault_id : Option String) (now clock : ℕ) (schedule_health_flush schedule_next_gc : Bool)
      → Request
  collects_purged : (fails : String → Bool) (now clock : ℕ) (ids : List String) → Request
  commits : CommitCall → (request_id : String) → List Mutation → Request

abbrev pub time_of : Request → ℕ
time_of (stages id size grace now) = now
time_of (stores id now) = now
time_of (mismatches id now) = now
time_of (aborts id now) = now
time_of (deletes id now) = now
time_of (collects vault_id now clock flush next) = now
time_of (collects_purged fails now clock ids) = now
time_of (commits call request_id ms) = call.now

-- The state behind a request; one that throws leaves it as it was. `stores` and `mismatches` are the
-- two ends of an upload that was staged (blob/routes.ts): the object is stored, or it is deleted
-- since its size is not the declared one.
unfoldable pub handle : TextOrder → Request → BlobSync → BlobSync
unfolding stage_blob_request abort_staged_blob_request delete_blob_request run_gc
    collect_purged_blobs commit_mutations_request remove_object
handle texts (stages id size grace now) s = elim (stage_blob_request id size grace now s) [
  | throws e ↦ s
  | ok u ↦ u
]
handle texts (stores id now) s = with_objects s (id ∷ s.objects)
handle texts (mismatches id now) s =
    abort_staged_blob_request id now (with_objects s (remove_object id s.objects))
handle texts (aborts id now) s = abort_staged_blob_request id now s
handle texts (deletes id now) s = delete_blob_request id now s
handle texts (collects vault_id now clock flush next) s =
    (run_gc texts vault_id now clock flush next s).1
handle texts (collects_purged fails now clock ids) s = collect_purged_blobs fails now clock ids s
handle texts (commits call request_id ms) s = elim (commit_mutations_request call request_id ms s) [
  | throws e ↦ s
  | ok r ↦ r.1
]

unfoldable pub handle_all : TextOrder → List Request → BlobSync → BlobSync
unfolding handle
handle_all texts [] s = s
handle_all texts (r ∷ rs) s = handle_all texts rs (handle texts r s)

-- The time behind the requests, which started at `now`.
unfoldable pub time_after : ℕ → List Request → ℕ
time_after now [] = now
time_after now (r ∷ rs) = time_after (time_of r) rs

-- The requests come in the order of their times.
abbrev pub InOrder : ℕ → List Request → Type 0
InOrder now [] = Unit
InOrder now (r ∷ rs) = (now ≤ time_of r) × InOrder (time_of r) rs

-- A deletion of a blob that has no row, and an upload that ends in another size, are of a blob that
-- nothing refers to at that time. The source does not test this.
abbrev pub IsKnown : Request → BlobSync → Type 0
IsKnown (deletes id now) s =
    read_blob (tables_of s) id ≡ none → is_blob_pinned (tables_of s) id false now ≡ false
IsKnown (stages id size grace now) s = Unit
IsKnown (stores id now) s = Unit
IsKnown (mismatches id now) s = is_blob_pinned (tables_of s) id false now ≡ false
IsKnown (aborts id now) s = Unit
IsKnown (collects vault_id now clock flush next) s = Unit
IsKnown (collects_purged fails now clock ids) s = Unit
IsKnown (commits call request_id ms) s = Unit

abbrev pub AllKnown : TextOrder → List Request → BlobSync → Type 0
AllKnown texts [] s = Unit
AllKnown texts (r ∷ rs) s = IsKnown r s × AllKnown texts rs (handle texts r s)
