-- ===== src/Coordinator/History.antt =====
-- The history of entries: store/history-store.ts, and listDeletedEntries of store/entry-store.ts.
pub mod Service
pub mod Candidates
pub mod Purging
pub mod Paging
pub mod Batch
pub mod Answers
mod Examples
use syncali.Prelude.{
  ℕ, String, Bool, true, false, not, ◌&&◌, ◌||◌, Option, none, some, List, [], ◌∷◌, ◌++◌, map, ltb,
  leb, ◌==◌, if◌then◌else◌, is_some, take, same, has, truthy, select_first, select_where,
  delete_where, exists_where, TextOrder,
}
use syncali.Coordinator.Tables.{Tables, Entry, EntryVersion, EntryVersionReason, Op, upsert, delete}
use syncali.Coordinator.Listing.{order_by}
use syncali.Coordinator.MutationStore.Model.{find_entry}

pub record EntryVersionPageCursor : Type 0 where
  pub captured_at : ℕ
  pub version_id : String

pub record DeletedEntryPageCursor : Type 0 where
  pub deleted_at : ℕ
  pub entry_id : String

abbrev pub is_upsert : Op → Bool
is_upsert upsert = true
is_upsert delete = false

-- entry_id = ? AND op_type = 'upsert' AND blob_id IS NOT NULL AND captured_at >= ?
abbrev pub is_restorable : String → ℕ → EntryVersion → Bool
is_restorable id retention_start v =
    same v.entry_id id
    && (is_upsert v.op_type && (is_some v.blob_id && leb retention_start v.captured_at))

-- A deleted entry that can be restored.
unfoldable pub is_listed : Tables → ℕ → Entry → Bool
unfolding exists_where
is_listed t retention_start e =
    e.deleted
    && (ltb 0 e.revision
        && exists_where (is_restorable e.entry_id retention_start) t.entry_versions)

module _ (texts : TextOrder) where
  -- ORDER BY captured_at DESC, version_id DESC
  abbrev pub version_before : EntryVersion → EntryVersion → Bool
  version_before v w =
      ltb w.captured_at v.captured_at
      || (v.captured_at == w.captured_at && texts.before w.version_id v.version_id)

  -- ? IS NULL OR captured_at < ? OR (captured_at = ? AND version_id < ?)
  abbrev pub past_version : Option EntryVersionPageCursor → EntryVersion → Bool
  past_version none v = true
  past_version (some c) v =
      ltb v.captured_at c.captured_at
      || (c.captured_at == v.captured_at && texts.before v.version_id c.version_id)

  unfoldable pub list_entry_versions :
      Tables → String → Option EntryVersionPageCursor → ℕ → ℕ → List EntryVersion
  unfolding order_by select_where
  list_entry_versions t id before retention_start limit = take limit (
      order_by version_before (
        select_where
          (λ v. (same v.entry_id id && leb retention_start v.captured_at) && past_version before v)
          t.entry_versions))

  -- ORDER BY updated_at DESC, entry_id DESC
  abbrev pub deleted_before : Entry → Entry → Bool
  deleted_before d e =
      ltb e.updated_at d.updated_at
      || (d.updated_at == e.updated_at && texts.before e.entry_id d.entry_id)

  abbrev pub past_deleted : Option DeletedEntryPageCursor → Entry → Bool
  past_deleted none e = true
  past_deleted (some c) e =
      ltb e.updated_at c.deleted_at
      || (c.deleted_at == e.updated_at && texts.before e.entry_id c.entry_id)

  unfoldable pub list_deleted_entries : Tables → Option DeletedEntryPageCursor → ℕ → ℕ → List Entry
  unfolding order_by select_where is_listed
  list_deleted_entries t before retention_start limit = take limit (
      order_by deleted_before
        (select_where (λ e. is_listed t retention_start e && past_deleted before e) t.entries))

unfoldable pub read_entry_version : Tables → String → String → ℕ → Option EntryVersion
unfolding select_first
read_entry_version t entry_id version_id retention_start =
    select_first
      (λ v.
        same v.entry_id entry_id
        && (same v.version_id version_id && leb retention_start v.captured_at))
      t.entry_versions

-- An entry that a client asks to purge, at the revision that it knows.
pub record PurgeEntry : Type 0 where
  pub entry_id : String
  pub revision : ℕ

pub data PurgeCode : Type 0 where
  not_found not_deleted no_history : PurgeCode
  stale_revision : (expected received : ℕ) → PurgeCode

pub data PurgeResult : Type 0 where
  purged : String → PurgeResult
  rejected : String → PurgeCode → PurgeResult

-- The loop's variables: the tables, the results and the set of blobs, in the order of insertion.
pub record Purge : Type 0 where
  pub tables : Tables
  pub results : List PurgeResult
  pub candidate_blob_ids : List String

unfoldable pub add_id : String → List String → List String
unfolding has
add_id id ids = if has ids id then ids else ids ++ id ∷ []

-- The blobs of the versions of an entry; the rows' order is that of the table.
unfoldable pub add_candidates : String → List EntryVersion → List String → List String
unfolding add_id
add_candidates entry_id [] ids = ids
add_candidates entry_id (v ∷ vs) ids =
    let skipped = add_candidates entry_id vs ids in
    let added : List String = elim (truthy v.blob_id) [
      | none ↦ skipped
      | some id ↦ add_candidates entry_id vs (add_id id ids)
    ] in
    if same v.entry_id entry_id then added else skipped

-- Why the entry is not purged, if it is not.
unfoldable pub purge_refusal : Tables → PurgeEntry → ℕ → Option PurgeCode
unfolding find_entry exists_where
purge_refusal t entry retention_start = elim (find_entry entry.entry_id t.entries) [
  | none ↦ some not_found
  | some current ↦
      if not current.deleted
      then some not_deleted
      else (if not (current.revision == entry.revision)
          then some (stale_revision current.revision entry.revision)
          else (if exists_where (is_restorable entry.entry_id retention_start) t.entry_versions
              then none
              else some no_history))
]

unfoldable pub purge_one : ℕ → PurgeEntry → Purge → Purge
unfolding purge_refusal add_candidates delete_where
purge_one retention_start entry p = elim (purge_refusal p.tables entry retention_start) [
  | some code ↦ record p { results = p.results ++ rejected entry.entry_id code ∷ [] }
  | none ↦ record {
    tables = record (p.tables) {
      entry_versions = delete_where (λ v. same v.entry_id entry.entry_id) p.tables.entry_versions;
    };
    results = p.results ++ purged entry.entry_id ∷ [];
    candidate_blob_ids = add_candidates entry.entry_id p.tables.entry_versions p.candidate_blob_ids;
  }
]

unfoldable pub purge_all : ℕ → List PurgeEntry → Purge → Purge
unfolding purge_one
purge_all retention_start [] p = p
purge_all retention_start (entry ∷ entries) p =
    purge_all retention_start entries (purge_one retention_start entry p)

unfoldable pub purge_deleted_entry_versions : List PurgeEntry → ℕ → Tables → Purge
unfolding purge_all
purge_deleted_entry_versions entries retention_start t =
    purge_all retention_start entries (record { tables = t; results = []; candidate_blob_ids = [] })
