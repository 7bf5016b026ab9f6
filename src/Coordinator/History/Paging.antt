-- ===== src/Coordinator/History/Paging.antt =====
-- A client that follows `nextBefore` reads the deleted entries, and the versions of an entry, once
-- each.
use syncali.Prelude.{
  ℕ, suc, ◌≤◌, ◌<◌, min, ◌≡◌, refl, String, true, false, ◌||◌, ◌&&◌, Bool, Option, none, some, List,
  [], ◌∷◌, map, arith, length, All, All-map, leb, same, select_where, TextOrder, Bool-cases, inl,
  inr,
}
use syncali.Coordinator.Tables.{Tables, Entry, EntryVersion, ok}
use syncali.Coordinator.CursorStore.{read_version_history_retention_days}
use syncali.Coordinator.MutationStore.Model.{find_entry}
use syncali.Coordinator.MutationStore.Entries.{DistinctEntries}
use syncali.Coordinator.EntryStore.{read_entry}
use syncali.Coordinator.Listing.{order_by, Apart, list_page, read_pages}
use syncali.Coordinator.Listing.Keyset.{read_pages-keyset}
use syncali.Coordinator.History.{
  EntryVersionPageCursor, is_listed, deleted_before, past_deleted, version_before, past_version,
  list_deleted_entries, list_entry_versions,
}
use syncali.Coordinator.History.Service.{
  Reply, fails, replies, retention_start, to_deleted_entry, cursor_of_deleted, to_listed_version,
  cursor_of_version, max_deleted_entries_batch, max_history_batch, list_deleted_entries_page,
  list_entry_versions_page,
}

abbrev pub page_of {ℓ} : {A : Type ℓ} → Reply A → Option A
page_of (fails e) = none
page_of (replies page) = some page

find_entry-All :
    (id : String) (es : List Entry)
    → find_entry id es ≡ none
    → All (λ e. same e.entry_id id ≡ false) es
unfolding find_entry
find_entry-All id [] h = tt
find_entry-All id (e ∷ es) h = elim (Bool-cases (same e.entry_id id)) [
  | inl x ↦ ground arith
  | inr x ↦ (x, find_entry-All id es (rw (x, find_entry) at h))
]

module _ (texts : TextOrder) where
  deleted_before_trans :
      (x y z : Entry)
      → deleted_before texts x y ≡ true
      → deleted_before texts y z ≡ true
      → deleted_before texts x z ≡ true
  deleted_before_trans x y z h k = ground (arith, texts.transitive z.entry_id y.entry_id x.entry_id)

  deleted_before_asym :
      (x y : Entry) → deleted_before texts x y ≡ true → deleted_before texts y x ≡ false
  deleted_before_asym x y h = ground (arith, texts.asymmetric y.entry_id x.entry_id)

  deleted_tells :
      (x y : Entry)
      → same y.entry_id x.entry_id ≡ false
      → (deleted_before texts x y || deleted_before texts y x) ≡ true
  deleted_tells x y h = ground (arith, texts.connected x.entry_id y.entry_id)

  DistinctEntries-Apart : (es : List Entry) → DistinctEntries es → Apart (deleted_before texts) es
  DistinctEntries-Apart [] d = tt
  DistinctEntries-Apart (e ∷ es) d = (
    All-map es (λ y h. deleted_tells e y h) (find_entry-All e.entry_id es d.0),
    DistinctEntries-Apart es d.1,
  )

  -- A client that asks for page after page reads every deleted entry that can still be restored,
  -- once each, the last deleted first. No two entries have one id, the tables do not change, and the
  -- time is the same for all pages; as many pages as there are entries, and one more, suffice.
  pub read_pages-deleted_entries :
      (t : Tables) (now limit days fuel : ℕ)
      → DistinctEntries t.entries
      → read_version_history_retention_days t ≡ ok days
      → 1 ≤ limit
      → length t.entries < fuel
      → read_pages
          (λ before. page_of (list_deleted_entries_page texts t now before limit))
          fuel
          none
        ≡ some (
            map to_deleted_entry (
              order_by
                (deleted_before texts)
                (select_where (is_listed t (retention_start now days)) t.entries)))
  unfolding list_deleted_entries_page list_deleted_entries
  read_pages-deleted_entries t now limit days fuel d e h k =
      read_pages-keyset to_deleted_entry cursor_of_deleted (min limit max_deleted_entries_batch)
        (deleted_before texts) deleted_before_trans deleted_before_asym (past_deleted texts)
        (λ z. refl) refl (is_listed t (retention_start now days)) t.entries
        (DistinctEntries-Apart t.entries d)
        (λ before. page_of (list_deleted_entries_page texts t now before limit))
        (λ before. rw (e, list_deleted_entries_page) refl) (omega arith) fuel k

-- The primary key of the table: no two versions have one id.
abbrev pub DistinctVersions : List EntryVersion → Type 0
DistinctVersions [] = Unit
DistinctVersions (v ∷ vs) =
    All (λ w. same w.version_id v.version_id ≡ false) vs × DistinctVersions vs

module _ (texts : TextOrder) where
  version_before_trans :
      (x y z : EntryVersion)
      → version_before texts x y ≡ true
      → version_before texts y z ≡ true
      → version_before texts x z ≡ true
  version_before_trans x y z h k =
      ground (arith, texts.transitive z.version_id y.version_id x.version_id)

  version_before_asym :
      (x y : EntryVersion) → version_before texts x y ≡ true → version_before texts y x ≡ false
  version_before_asym x y h = ground (arith, texts.asymmetric y.version_id x.version_id)

  version_tells :
      (x y : EntryVersion)
      → same y.version_id x.version_id ≡ false
      → (version_before texts x y || version_before texts y x) ≡ true
  version_tells x y h = ground (arith, texts.connected x.version_id y.version_id)

  DistinctVersions-Apart :
      (vs : List EntryVersion) → DistinctVersions vs → Apart (version_before texts) vs
  DistinctVersions-Apart [] d = tt
  DistinctVersions-Apart (v ∷ vs) d =
      (All-map vs (λ w h. version_tells v w h) d.0, DistinctVersions-Apart vs d.1)

  and_false : (b : Bool) → (b && false) ≡ false
  and_false b = ground arith

  versions_page :
      (t : Tables) (now limit days : ℕ) (entry_id : String) (before : Option EntryVersionPageCursor)
      (current : Entry)
      → read_entry t entry_id ≡ some current
      → read_version_history_retention_days t ≡ ok days
      → page_of (list_entry_versions_page texts t now entry_id before limit)
        ≡ some (
            list_page to_listed_version cursor_of_version (min limit max_history_batch) (
              list_entry_versions texts t entry_id before
                (retention_start now days)
                (suc (min limit max_history_batch))))
  unfolding list_entry_versions_page
  versions_page t now limit days entry_id before current e f =
      rw (f, list_entry_versions_page) (rw e (rw (and_false _) refl))

  -- A client that asks for page after page reads every version of an entry that is within the
  -- retention time, once each, the latest first. The entry exists, no two versions have one id, the
  -- tables do not change, and the time is the same for all pages; as many pages as there are
  -- versions, and one more, suffice.
  pub read_pages-entry_versions :
      (t : Tables) (now limit days fuel : ℕ) (entry_id : String) (current : Entry)
      → DistinctVersions t.entry_versions
      → read_entry t entry_id ≡ some current
      → read_version_history_retention_days t ≡ ok days
      → 1 ≤ limit
      → length t.entry_versions < fuel
      → read_pages
          (λ before. page_of (list_entry_versions_page texts t now entry_id before limit))
          fuel
          none
        ≡ some (
            map to_listed_version (
              order_by (version_before texts) (
                select_where
                  (λ v. same v.entry_id entry_id && leb (retention_start now days) v.captured_at)
                  t.entry_versions)))
  unfolding list_entry_versions
  read_pages-entry_versions t now limit days fuel entry_id current d e f h k =
      read_pages-keyset to_listed_version cursor_of_version (min limit max_history_batch)
        (version_before texts) version_before_trans version_before_asym (past_version texts)
        (λ z. refl) refl
        (λ v. same v.entry_id entry_id && leb (retention_start now days) v.captured_at)
        t.entry_versions (DistinctVersions-Apart t.entry_versions d)
        (λ before. page_of (list_entry_versions_page texts t now entry_id before limit))
        (λ before. versions_page t now limit days entry_id before current e f) (omega arith) fuel k
