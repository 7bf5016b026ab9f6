-- ===== src/Engine/PullPlan/Placed.antt =====
-- `planManifest`: every item of a manifest is planned, put off or rejected as a rollback.
pub mod Planned
pub mod Sound
pub mod Whole
mod Examples
use syncali.Prelude.{
  ℕ, suc, String, Option, none, some, is_some, truthy, Bool, true, false, not, ◌||◌, ◌&&◌, List, [],
  ◌∷◌, length, least, same, has, ltb, if◌then◌else◌,
}
use syncali.Coordinator.EntryStore.{EntryStateRow}
use syncali.MutationQueue.{PendingMutationRow}
use syncali.Paths.Units.{Units, equal}
use syncali.Paths.ConflictFile.{LocalTime}
use syncali.Engine.PullPlan.{
  PullEntryStateManifestItem, SyncedEntryMetadata, PullManifestStore, SyncEntryRow,
  AdoptedLocalEntry, PullRollbackEvent, PathCollision, PlannedVaultMove, PlannedEntryState,
  ReservedPaths, reserved_by, id_of, ids_where, seqs_where, is_deferred_by_cursor_threshold,
  path_owner,
}
use syncali.Engine.PullPlan.Deferral.{deferred_entry_ids}
use syncali.Engine.PullPlan.Collision.{collision_path}

-- What the main loop does with an item.
pub data Placement : Type 0 where
  planned : PlannedEntryState → Placement
  put_off : Placement
  rolled_back : PullRollbackEvent → Placement

-- The result, and the calls of `onRollbackDetected`.
pub record PlannedManifest : Type 0 where
  pub plans : List PlannedEntryState
  pub deferred : List PullEntryStateManifestItem
  pub rollbacks : List PullRollbackEvent

unfoldable pub is_rollback : Option SyncEntryRow → EntryStateRow → Bool
is_rollback none state = false
is_rollback (some existing) state = ltb 0 existing.revision && ltb state.revision existing.revision

unfoldable pub rollback_event : Option SyncEntryRow → PullEntryStateManifestItem → PullRollbackEvent
rollback_event none item = record {
  entry_id = id_of item;
  path = item.metadata.path;
  local_revision = 0;
  remote_revision = item.state.revision;
}
rollback_event (some existing) item = record {
  entry_id = id_of item;
  path = item.metadata.path;
  local_revision = existing.revision;
  remote_revision = item.state.revision;
}

abbrev pub add_path : Option Units → List Units → List Units
add_path none paths = paths
add_path (some path) paths = path ∷ paths

abbrev pub reserve_path : Option Units → String → ReservedPaths → ReservedPaths
reserve_path none id reserved = reserved
reserve_path (some path) id reserved = (path, id) ∷ reserved

unfoldable pub reserve : Placement → ReservedPaths → ReservedPaths
reserve put_off reserved = reserved
reserve (rolled_back event) reserved = reserved
reserve (planned plan) reserved = reserve_path plan.final_path plan.state.entry_id reserved

abbrev pub combine :
    Placement → PullEntryStateManifestItem → Option PlannedManifest → Option PlannedManifest
combine placement item none = none
combine (planned plan) item (some m) = some (record m { plans = plan ∷ m.plans })
combine put_off item (some m) = some (record m { deferred = item ∷ m.deferred })
combine (rolled_back event) item (some m) = some (record m { rollbacks = event ∷ m.rollbacks })

module _ (store : PullManifestStore) (decrypt : PendingMutationRow → Option SyncedEntryMetadata)
    (exists : Units → Bool) (now : LocalTime) (fuel : ℕ) where
  unfoldable pub plan_vault_move :
      String
      → Option SyncEntryRow
      → Units
      → Option PathCollision
      → Option AdoptedLocalEntry
      → Option PlannedVaultMove
  plan_vault_move entry_id none final_path conflict adopted = none
  plan_vault_move entry_id (some existing) final_path conflict adopted = elim existing.path [
    | none ↦ none
    | some [] ↦ none
    | some (c ∷ path) ↦
        if (not (same existing.entry_id entry_id)
            || (existing.deleted
                || (equal (c ∷ path) final_path
                    || (is_some conflict
                        || (is_some adopted
                            || is_some (store.get_dirty_entry_mutation entry_id))))))
          || (not (exists (c ∷ path)) || exists final_path)
        then none
        else some (record { from = c ∷ path; to = final_path })
  ]

  abbrev pub plan_for :
      PullEntryStateManifestItem
      → Option SyncEntryRow
      → String
      → Option AdoptedLocalEntry
      → Option PathCollision
      → Units
      → PlannedEntryState
  plan_for item existing hash adopted conflict path = record {
    state = item.state;
    existing = existing;
    adopted_local_entry = adopted;
    vault_move = plan_vault_move (id_of item) existing path conflict adopted;
    skip_vault_write = false;
    metadata = item.metadata;
    final_path = some path;
    hash = some hash;
    path_conflict = conflict;
  }

  abbrev pub plan_at :
      PullEntryStateManifestItem
      → Option SyncEntryRow
      → String
      → Option AdoptedLocalEntry
      → Option PathCollision
      → Units
      → Option Placement
  plan_at item existing hash adopted conflict [] = none
  plan_at item existing hash adopted conflict (c ∷ path) =
      some (planned (plan_for item existing hash adopted conflict (c ∷ path)))

  abbrev pub plan_collided :
      PullEntryStateManifestItem
      → Option SyncEntryRow
      → String
      → Option AdoptedLocalEntry
      → Option Units
      → Option Placement
  plan_collided item existing hash adopted none = none
  plan_collided item existing hash adopted (some conflict_path) =
      plan_at item existing hash adopted
        (some (record {
          entry_id = id_of item;
          original_path = item.metadata.path;
          conflict_path = conflict_path;
        }))
        conflict_path

  abbrev pub plan_owned :
      Bool
      → ReservedPaths
      → PullEntryStateManifestItem
      → Option SyncEntryRow
      → String
      → Option (Option AdoptedLocalEntry × Bool)
      → Option Placement
  plan_owned defer_external reserved item existing hash none = none
  plan_owned defer_external reserved item existing hash (some (adopted, external)) =
      if external && defer_external
      then some put_off
      else if is_some (truthy (reserved_by reserved item.metadata.path)) || external
      then plan_collided item existing hash adopted
          (collision_path exists now fuel reserved item.metadata.path)
      else plan_at item existing hash adopted none item.metadata.path

  abbrev pub plan_content :
      Bool
      → ReservedPaths
      → List String
      → PullEntryStateManifestItem
      → Option SyncEntryRow
      → Option String
      → Option String
      → Option Placement
  plan_content defer_external reserved delta item existing none hash = none
  plan_content defer_external reserved delta item existing (some blob) none = none
  plan_content defer_external reserved delta item existing (some blob) (some hash) =
      plan_owned defer_external reserved item existing hash
        (path_owner store decrypt item.state item.metadata hash delta)

  abbrev pub plan_deleted :
      PullEntryStateManifestItem → Option SyncEntryRow → Option String → Option Placement
  plan_deleted item existing (some hash) = none
  plan_deleted item existing none = some (
      planned (record {
        state = item.state;
        existing = existing;
        adopted_local_entry = none;
        vault_move = none;
        skip_vault_write = false;
        metadata = item.metadata;
        final_path = none;
        hash = none;
        path_conflict = none;
      }))

  unfoldable pub plan_item :
      Bool → Option ℕ → List String → ReservedPaths → PullEntryStateManifestItem → Option Placement
  plan_item defer_external threshold delta reserved item =
      let existing = store.get_entry_by_id (id_of item) in
      if is_deferred_by_cursor_threshold item threshold
      then some put_off
      else if is_rollback existing item.state
      then some (rolled_back (rollback_event existing item))
      else if item.state.deleted
      then plan_deleted item existing item.metadata.hash
      else plan_content defer_external reserved delta item existing (truthy item.state.blob_id)
          (truthy item.metadata.hash)

  unfoldable pub plan_items :
      Bool
      → Option ℕ
      → List String
      → ReservedPaths
      → List PullEntryStateManifestItem
      → Option PlannedManifest
  plan_items defer_external threshold delta reserved [] =
      some (record { plans = []; deferred = []; rollbacks = [] })
  plan_items defer_external threshold delta reserved (item ∷ items) =
      elim (plan_item defer_external threshold delta reserved item) [
        | none ↦ none
        | some placement ↦
            combine placement item
              (plan_items defer_external threshold delta (reserve placement reserved) items)
      ]

  -- The main loop, behind the entries that are put off: all from the first of them on.
  unfoldable pub plan_undeferred :
      Bool → List PullEntryStateManifestItem → List String → Option PlannedManifest
  plan_undeferred defer_external manifest deferred =
      let threshold = least (seqs_where (λ item. has deferred (id_of item)) manifest) in
      plan_items defer_external threshold
        (ids_where (λ item. not (is_deferred_by_cursor_threshold item threshold)) manifest) []
        manifest

  unfoldable pub plan_manifest : Bool → List PullEntryStateManifestItem → Option PlannedManifest
  unfolding plan_undeferred deferred_entry_ids
  plan_manifest defer_external manifest =
      elim (deferred_entry_ids store decrypt defer_external manifest) [
        | none ↦ none
        | some deferred ↦ plan_undeferred defer_external manifest deferred
      ]
