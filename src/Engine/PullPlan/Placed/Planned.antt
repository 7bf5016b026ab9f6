-- ===== src/Engine/PullPlan/Placed/Planned.antt =====
-- What a plan for one entry, or for several, has to satisfy.
use syncali.Prelude.{◌≤◌, ◌<◌, ◌≡◌, none, some, is_some, truthy, Bool, false, List, [], ◌∷◌}
use syncali.Paths.Units.{Units, contains}
use syncali.Engine.PullPlan.{
  PullEntryStateManifestItem, PullManifestStore, PathCollision, SyncEntryRow, PullRollbackEvent,
  PlannedEntryState, ReservedPaths, reserved_by, is_reserved,
}
use syncali.Engine.PullPlan.Placed.{Placement, planned, put_off, rolled_back, add_path}

-- The paths that a plan writes.
abbrev pub final_paths : List PlannedEntryState → List Units
final_paths [] = []
final_paths (plan ∷ plans) = add_path plan.final_path (final_paths plans)

abbrev pub AreDistinct : List Units → Type 0
AreDistinct [] = Unit {0}
AreDistinct (path ∷ paths) = (contains paths path ≡ false) × AreDistinct paths

-- A plan moves an entry to no older revision, and to its own path, or to a free one if another
-- entry has that path.
pub record IsPlacedPlan (store : PullManifestStore) (exists : Units → Bool)
    (plan : PlannedEntryState) : Type 0 where
  pub known : plan.existing ≡ store.get_entry_by_id plan.state.entry_id
  pub not_older :
      (row : SyncEntryRow)
      → store.get_entry_by_id plan.state.entry_id ≡ some row
      → row.revision ≤ plan.state.revision
  pub in_place :
      plan.path_conflict ≡ none
      → plan.state.deleted ≡ false
      → plan.final_path ≡ some plan.metadata.path
  pub in_free_place :
      (conflict : PathCollision)
      → plan.path_conflict ≡ some conflict
      → (plan.final_path ≡ some conflict.conflict_path) × (exists conflict.conflict_path ≡ false)

-- An item that is rejected: the store has a later revision, and the event names both.
pub record IsRolledBack (store : PullManifestStore) (item : PullEntryStateManifestItem)
    (event : PullRollbackEvent) : Type 0 where
  pub row : SyncEntryRow
  pub found : store.get_entry_by_id item.state.entry_id ≡ some row
  pub older : item.state.revision < row.revision
  pub entry_eq : event.entry_id ≡ item.state.entry_id
  pub local_eq : event.local_revision ≡ row.revision
  pub remote_eq : event.remote_revision ≡ item.state.revision

-- The items of a manifest, shared out in their order: each is planned with its state and metadata,
-- put off as it is, or rejected, and nothing else is.
pub data AreShared (store : PullManifestStore)
    : List PullEntryStateManifestItem
      → List PlannedEntryState
      → List PullEntryStateManifestItem
      → List PullRollbackEvent
      → Type 0 where
  no_items : AreShared store [] [] [] []
  to_plan :
      {item : PullEntryStateManifestItem} {plan : PlannedEntryState}
      {items deferred : List PullEntryStateManifestItem} {plans : List PlannedEntryState}
      {events : List PullRollbackEvent}
      → plan.state ≡ item.state
      → plan.metadata ≡ item.metadata
      → AreShared store items plans deferred events
      → AreShared store (item ∷ items) (plan ∷ plans) deferred events
  to_later :
      {item : PullEntryStateManifestItem} {items deferred : List PullEntryStateManifestItem}
      {plans : List PlannedEntryState} {events : List PullRollbackEvent}
      → AreShared store items plans deferred events
      → AreShared store (item ∷ items) plans (item ∷ deferred) events
  to_rollback :
      {item : PullEntryStateManifestItem} {event : PullRollbackEvent}
      {items deferred : List PullEntryStateManifestItem} {plans : List PlannedEntryState}
      {events : List PullRollbackEvent}
      → IsRolledBack store item event
      → AreShared store items plans deferred events
      → AreShared store (item ∷ items) plans deferred (event ∷ events)

-- A path that stands in `reservedPaths` has an entry's id that is not empty.
abbrev pub AreNamed : ReservedPaths → Type 0
AreNamed reserved =
    (path : Units) → is_some (truthy (reserved_by reserved path)) ≡ is_reserved reserved path

abbrev pub Good :
    PullManifestStore
    → (Units → Bool)
    → ReservedPaths
    → PullEntryStateManifestItem
    → Placement
    → Type 0
Good store exists reserved item put_off = Unit {0}
Good store exists reserved item (rolled_back event) = IsRolledBack store item event
Good store exists reserved item (planned plan) =
    IsPlacedPlan store exists plan
    × ((path : Units) → plan.final_path ≡ some path → is_reserved reserved path ≡ false)
    × (plan.state ≡ item.state)
    × (plan.metadata ≡ item.metadata)
