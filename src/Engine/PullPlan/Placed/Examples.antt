-- ===== src/Engine/PullPlan/Placed/Examples.antt =====
-- A manifest of four entries: two that ask for one path, a deletion, and a stale revision.
use syncali.Prelude.{
  ℕ, ◌≡◌, ◌≢◌, refl, String, Option, none, some, is_some, truthy, Bool, true, false, List, [], ◌∷◌,
  All, arith, same, if◌then◌else◌,
}
use syncali.Coordinator.EntryStore.{EntryStateRow}
use syncali.MutationQueue.{PendingMutationRow}
use syncali.Paths.Units.{Units, codes, equal, contains}
use syncali.Paths.ConflictFile.{LocalTime}
use syncali.Engine.PullPlan.{
  PullEntryStateManifestItem, SyncedEntryMetadata, PullManifestStore, SyncEntryRow,
}
use syncali.Engine.PullPlan.Deferral.{IsWellFormed}
use syncali.Engine.PullPlan.Placed.{PlannedManifest, plan_manifest}
use syncali.Engine.PullPlan.Placed.Planned.{final_paths, AreDistinct, IsPlacedPlan, AreShared}
use syncali.Engine.PullPlan.Placed.Whole.{plan_manifest-IsPlanned}

abbrev state_of : String → ℕ → Bool → EntryStateRow
state_of id revision deleted = record {
  entry_id = id;
  revision = revision;
  blob_id = if deleted then none else some "blob";
  encrypted_metadata = "";
  deleted = deleted;
  updated_seq = 1;
  updated_at = 0;
}

abbrev present_item : String → ℕ → Units → PullEntryStateManifestItem
present_item id revision path = record {
  state = state_of id revision false;
  metadata = record { path = path; hash = some "hash" };
}

abbrev deleted_item : String → Units → PullEntryStateManifestItem
deleted_item id path = record {
  state = state_of id 2 true;
  metadata = record { path = path; hash = none };
}

abbrev manifest : List PullEntryStateManifestItem
manifest =
    present_item "e1" 4 (codes "a.md")
    ∷ present_item "e2" 1 (codes "a.md")
    ∷ deleted_item "e3" (codes "b.md")
    ∷ present_item "e4" 2 (codes "c.md")
    ∷ []

present_item-IsWellFormed :
    (id : String) (revision : ℕ) (path : Units)
    → is_some (truthy (some id)) ≡ true
    → path ≢ []
    → IsWellFormed (present_item id revision path)
present_item-IsWellFormed id revision path named full = record {
  named = named;
  placed = λ h. full;
  filled = λ h. (refl, refl);
  emptied = λ h. cc;
}

deleted_item-IsWellFormed :
    (id : String) (path : Units)
    → is_some (truthy (some id)) ≡ true
    → IsWellFormed (deleted_item id path)
deleted_item-IsWellFormed id path named = record {
  named = named;
  placed = λ h. absurd (cc);
  filled = λ h. cc;
  emptied = λ h. refl;
}

manifest-IsWellFormed : All IsWellFormed manifest
manifest-IsWellFormed = (
  present_item-IsWellFormed "e1" 4 (codes "a.md") refl (λ h. cc),
  (
    present_item-IsWellFormed "e2" 1 (codes "a.md") refl (λ h. cc),
    (
      deleted_item-IsWellFormed "e3" (codes "b.md") refl,
      (present_item-IsWellFormed "e4" 2 (codes "c.md") refl (λ h. cc), tt),
    ),
  ),
)

abbrev row : SyncEntryRow
row = record {
  entry_id = "e4";
  path = some (codes "c.md");
  revision = 3;
  blob_id = none;
  hash = none;
  deleted = false;
  updated_at = 0;
  local_mtime = none;
  local_size = none;
}

abbrev store : PullManifestStore
store = record {
  get_entry_by_id = λ id. if same id "e4" then some row else none;
  get_entry_by_path = λ path. none;
  get_dirty_entry_mutation = λ id. none;
}

abbrev decrypt : PendingMutationRow → Option SyncedEntryMetadata
decrypt pending = some (record { path = []; hash = none })

abbrev exists : Units → Bool
exists path = equal path (codes "c.md")

exists-listed : (file : Units) → exists file ≡ true → contains (codes "c.md" ∷ []) file ≡ true
unfolding contains
exists-listed file h = ground arith

abbrev now : LocalTime
now = record { full_year = 2026; month = 9; date = 1; hours = 8; minutes = 11; seconds = 41 }

plan_manifest-IsPlanned_example :
    (m : PlannedManifest) × (plan_manifest store decrypt exists now 9 true manifest ≡ some m)
    × AreDistinct (final_paths m.plans)
    × All (IsPlacedPlan store exists) m.plans
    × AreShared store manifest m.plans m.deferred m.rollbacks
plan_manifest-IsPlanned_example =
    plan_manifest-IsPlanned store decrypt (λ pending h. cc) exists now 9 (codes "c.md" ∷ [])
      exists-listed true manifest manifest-IsWellFormed (omega arith)
