-- ===== src/Engine/PullPlan.antt =====
-- engine/pull-manifest-planner.ts: where the entries of a pulled manifest go on this device. The
-- store and the vault are read only; decryption is a parameter, `none` where it throws, and so is
-- the time. `none` as a result is an error that is thrown, or lack of fuel.
pub mod Owner
pub mod Deferral
pub mod Collision
pub mod Placed
use syncali.Prelude.{
  ℕ, zero, suc, ◌+◌, ◌≡◌, ◌≢◌, refl, ap, inl, inr, Option-cases, Bool-cases, String, Option, none,
  some, is_some, Bool, true, false, not, ◌||◌, ◌&&◌, List, [], ◌∷◌, map, length, least, truthy,
  refers, same, has, ltb, leb, ◌==◌, if◌then◌else◌,
}
use syncali.Coordinator.Tables.{Op, upsert, delete}
use syncali.Coordinator.EntryStore.{EntryStateRow}
use syncali.MutationQueue.{PendingMutationRow}
use syncali.Paths.Units.{Units, equal}

pub record SyncedEntryMetadata : Type 0 where
  pub path : Units
  pub hash : Option String

pub record PullEntryStateManifestItem : Type 0 where
  pub state : EntryStateRow
  pub metadata : SyncedEntryMetadata

pub record SyncEntryRow : Type 0 where
  pub entry_id : String
  pub path : Option Units
  pub revision : ℕ
  pub blob_id : Option String
  pub hash : Option String
  pub deleted : Bool
  pub updated_at : ℕ
  pub local_mtime : Option ℕ
  pub local_size : Option ℕ

pub record PullManifestStore : Type 0 where
  pub get_entry_by_id : String → Option SyncEntryRow
  pub get_entry_by_path : Units → Option SyncEntryRow
  pub get_dirty_entry_mutation : String → Option PendingMutationRow

pub record AdoptedLocalEntry : Type 0 where
  pub entry : SyncEntryRow
  pub pending : Option PendingMutationRow
  pub hash_matches : Bool

pub record PullRollbackEvent : Type 0 where
  pub entry_id : String
  pub path : Units
  pub local_revision : ℕ
  pub remote_revision : ℕ

-- A `PullConflictEvent` of the planner: its operation is `upsert`, its reason a collision of paths.
pub record PathCollision : Type 0 where
  pub entry_id : String
  pub original_path : Units
  pub conflict_path : Units

pub record PlannedVaultMove : Type 0 where
  pub from : Units
  pub to : Units

-- The field `pendingConflict`, which the planner leaves null, is left out.
pub record PlannedEntryState : Type 0 where
  pub state : EntryStateRow
  pub existing : Option SyncEntryRow
  pub adopted_local_entry : Option AdoptedLocalEntry
  pub vault_move : Option PlannedVaultMove
  pub skip_vault_write : Bool
  pub metadata : SyncedEntryMetadata
  pub final_path : Option Units
  pub hash : Option String
  pub path_conflict : Option PathCollision

abbrev pub path_is : Option Units → Units → Bool
path_is none path = false
path_is (some own) path = equal own path

abbrev is_empty_path : Units → Bool
is_empty_path [] = true
is_empty_path (c ∷ path) = false

abbrev pub id_of : PullEntryStateManifestItem → String
id_of item = item.state.entry_id

unfoldable pub is_deferred_by_cursor_threshold : PullEntryStateManifestItem → Option ℕ → Bool
is_deferred_by_cursor_threshold item none = false
is_deferred_by_cursor_threshold item (some threshold) = leb threshold item.state.updated_seq

-- The ids of the items that pass a test, and `min` of the sequence numbers of such items.
unfoldable pub ids_where :
    (PullEntryStateManifestItem → Bool) → List PullEntryStateManifestItem → List String
ids_where test [] = []
ids_where test (item ∷ items) =
    let rest = ids_where test items in if test item then id_of item ∷ rest else rest

unfoldable pub seqs_where :
    (PullEntryStateManifestItem → Bool) → List PullEntryStateManifestItem → List ℕ
seqs_where test [] = []
seqs_where test (item ∷ items) =
    let rest = seqs_where test items in if test item then item.state.updated_seq ∷ rest else rest

-- `reservedPaths`, the last write first.
abbrev pub ReservedPaths : Type 0
ReservedPaths = List (Units × String)

unfoldable pub reserved_by : ReservedPaths → Units → Option String
reserved_by [] path = none
reserved_by ((own, id) ∷ reserved) path =
    if equal path own then some id else reserved_by reserved path

abbrev pub is_reserved : ReservedPaths → Units → Bool
is_reserved reserved path = is_some (reserved_by reserved path)

module _ (store : PullManifestStore)
    (decrypt : PendingMutationRow → Option SyncedEntryMetadata) where
  abbrev pub adopt_decrypted :
      SyncEntryRow
      → PendingMutationRow
      → SyncedEntryMetadata
      → String
      → Option SyncedEntryMetadata
      → Option (Option AdoptedLocalEntry)
  adopt_decrypted owner pending metadata remote_hash none = none
  adopt_decrypted owner pending metadata remote_hash (some own) = some (
      if not (equal own.path metadata.path) || not (is_some (truthy own.hash))
      then none
      else some (record {
        entry = owner;
        pending = some pending;
        hash_matches = refers remote_hash own.hash && refers remote_hash owner.hash;
      }))

  abbrev pub adopt_by_op :
      Op
      → SyncEntryRow
      → PendingMutationRow
      → SyncedEntryMetadata
      → String
      → Option (Option AdoptedLocalEntry)
  adopt_by_op delete owner pending metadata remote_hash = some none
  adopt_by_op upsert owner pending metadata remote_hash =
      adopt_decrypted owner pending metadata remote_hash (decrypt pending)

  abbrev pub adopt_with :
      SyncEntryRow
      → SyncedEntryMetadata
      → String
      → Option PendingMutationRow
      → Option (Option AdoptedLocalEntry)
  adopt_with owner metadata remote_hash none = some (
      if refers remote_hash (truthy owner.hash)
      then some (record { entry = owner; pending = none; hash_matches = true })
      else none)
  adopt_with owner metadata remote_hash (some pending) =
      adopt_by_op pending.op owner pending metadata remote_hash

  unfoldable pub find_adoptable_local_path_owner :
      EntryStateRow
      → SyncedEntryMetadata
      → SyncEntryRow
      → String
      → Option (Option AdoptedLocalEntry)
  find_adoptable_local_path_owner state metadata owner remote_hash =
      if same owner.entry_id state.entry_id
        || (not (owner.revision == 0) || (owner.deleted || not (path_is owner.path metadata.path)))
      then some none
      else adopt_with owner metadata remote_hash (store.get_dirty_entry_mutation owner.entry_id)

  -- `adoptedLocalEntry` and `externalPathOwner`; `present` are the ids that the pull moves anyway.
  abbrev pub judged :
      EntryStateRow
      → List String
      → SyncEntryRow
      → Option (Option AdoptedLocalEntry)
      → Option (Option AdoptedLocalEntry × Bool)
  judged state present owner none = none
  judged state present owner (some adopted) = some (
    adopted,
    not (same owner.entry_id state.entry_id)
        && (not (has present owner.entry_id) && not (is_some adopted)),
  )

  abbrev pub owned_by :
      EntryStateRow
      → SyncedEntryMetadata
      → String
      → List String
      → Option SyncEntryRow
      → Option (Option AdoptedLocalEntry × Bool)
  owned_by state metadata hash present none = some (none, false)
  owned_by state metadata hash present (some owner) =
      judged state present owner (find_adoptable_local_path_owner state metadata owner hash)

  unfoldable pub path_owner :
      EntryStateRow
      → SyncedEntryMetadata
      → String
      → List String
      → Option (Option AdoptedLocalEntry × Bool)
  unfolding find_adoptable_local_path_owner
  path_owner state metadata hash present =
      owned_by state metadata hash present (store.get_entry_by_path metadata.path)
