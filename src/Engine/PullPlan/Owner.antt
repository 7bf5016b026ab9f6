-- ===== src/Engine/PullPlan/Owner.antt =====
-- Who owns a path: the questions that the planner asks its store.
use syncali.Prelude.{
  ◌≡◌, ◌≢◌, refl, ap, inl, inr, Option-cases, Bool-cases, String, Option, none, some, Bool, not,
  ◌||◌, List, same, ◌==◌,
}
use syncali.Coordinator.Tables.{Op, upsert, delete}
use syncali.Coordinator.EntryStore.{EntryStateRow}
use syncali.MutationQueue.{PendingMutationRow}
use syncali.Engine.PullPlan.{
  SyncedEntryMetadata, SyncEntryRow, PullManifestStore, AdoptedLocalEntry, path_is, adopt_decrypted,
  adopt_by_op, adopt_with, find_adoptable_local_path_owner, judged, owned_by, path_owner,
}

module _ (store : PullManifestStore) (decrypt : PendingMutationRow → Option SyncedEntryMetadata)
    (decrypts : (pending : PendingMutationRow) → decrypt pending ≢ none) where
  adopt_by_op-total :
      (op : Op) (owner : SyncEntryRow) (pending : PendingMutationRow)
      (metadata : SyncedEntryMetadata) (hash : String)
      → (a : Option AdoptedLocalEntry) × (adopt_by_op store decrypt op owner pending metadata hash
          ≡ some a)
  adopt_by_op-total delete owner pending metadata hash = (none, refl)
  adopt_by_op-total upsert owner pending metadata hash = elim (Option-cases (decrypt pending)) [
    | inl fails ↦ absurd (decrypts pending fails)
    | inr (own, e) ↦ (_, ap (adopt_decrypted store decrypt owner pending metadata hash) e)
  ]

  adopt_with-total :
      (owner : SyncEntryRow) (metadata : SyncedEntryMetadata) (hash : String)
      (o : Option PendingMutationRow)
      → (a : Option AdoptedLocalEntry) × (adopt_with store decrypt owner metadata hash o ≡ some a)
  adopt_with-total owner metadata hash none = (_, refl)
  adopt_with-total owner metadata hash (some pending) =
      adopt_by_op-total pending.op owner pending metadata hash

  find_adoptable-total :
      (state : EntryStateRow) (metadata : SyncedEntryMetadata) (owner : SyncEntryRow)
      (hash : String)
      → (a : Option AdoptedLocalEntry) × (find_adoptable_local_path_owner store decrypt state
            metadata owner hash
          ≡ some a)
  unfolding find_adoptable_local_path_owner
  find_adoptable-total state metadata owner hash =
      let (a, e) =
        adopt_with-total owner metadata hash (store.get_dirty_entry_mutation owner.entry_id) in
      elim (Bool-cases (
        same owner.entry_id state.entry_id
        || (not (owner.revision == 0)
            || (owner.deleted || not (path_is owner.path metadata.path))))) [
              | inl unfit ↦ (none, rw unfit refl)
              | inr fit ↦ (a, rw fit e)
            ]

  owned_by-total :
      (state : EntryStateRow) (metadata : SyncedEntryMetadata) (hash : String)
      (present : List String) (o : Option SyncEntryRow)
      → (r : Option AdoptedLocalEntry × Bool) × (owned_by store decrypt state metadata hash present
            o
          ≡ some r)
  owned_by-total state metadata hash present none = (_, refl)
  owned_by-total state metadata hash present (some owner) =
      let (a, e) = find_adoptable-total state metadata owner hash in
      (_, ap (judged store decrypt state present owner) e)

  -- Where decryption does not throw, neither does the question who owns a path.
  pub path_owner-total :
      (state : EntryStateRow) (metadata : SyncedEntryMetadata) (hash : String)
      (present : List String)
      → (r : Option AdoptedLocalEntry × Bool) × (path_owner store decrypt state metadata hash
            present
          ≡ some r)
  unfolding path_owner
  path_owner-total state metadata hash present =
      owned_by-total state metadata hash present (store.get_entry_by_path metadata.path)
