-- ===== src/Coordinator/EntryStore.antt =====
-- store/entry-store.ts and entry/sync-service.ts of the coordinator: the listings of entries. SQL's
-- order on texts is a parameter. An EntryStateSnapshot has the columns of an EntryStateRow under
-- other names, and is that record here.
pub mod Paging
pub mod Lookup
mod Examples
use syncali.Prelude.{
  ℕ, ◌+◌, suc, min, String, Bool, true, false, not, ◌&&◌, ◌||◌, Option, none, some, List, [], ◌∷◌,
  ◌++◌, map, ltb, leb, ◌==◌, if◌then◌else◌, is_some, length, take, same, has, select_first,
  select_where, exists_where, TextOrder,
}
use syncali.Coordinator.Tables.{
  Tables, Entry, EntryVersion, Op, upsert, delete, Outcome, ok, throws, StoreError,
}
use syncali.Coordinator.CursorStore.{current_cursor}
use syncali.Coordinator.Listing.{order_by, Listed, list_page}

pub record EntryStateRow : Type 0 where
  pub entry_id : String
  pub revision : ℕ
  pub blob_id : Option String
  pub encrypted_metadata : String
  pub deleted : Bool
  pub updated_seq : ℕ
  pub updated_at : ℕ

abbrev pub to_entry_state_row : Entry → EntryStateRow
to_entry_state_row e = record {
  entry_id = e.entry_id;
  revision = e.revision;
  blob_id = e.blob_id;
  encrypted_metadata = e.encrypted_metadata;
  deleted = e.deleted;
  updated_seq = e.updated_seq;
  updated_at = e.updated_at;
}

pub record EntryStatePageCursor : Type 0 where
  pub updated_seq : ℕ
  pub entry_id : String

-- updated_seq > ? AND updated_seq <= ?
abbrev pub in_range : ℕ → ℕ → Entry → Bool
in_range since target e = ltb since e.updated_seq && leb e.updated_seq target

unfoldable pub count_entry_states : Tables → ℕ → ℕ → ℕ
unfolding select_where
count_entry_states t since target = length (select_where (in_range since target) t.entries)

-- SELECT … WHERE entry_id IN (…)
unfoldable pub read_entry_states : Tables → List String → List EntryStateRow
unfolding select_where has
read_entry_states t ids = map to_entry_state_row (select_where (λ e. has ids e.entry_id) t.entries)

unfoldable pub read_entry : Tables → String → Option Entry
unfolding select_first
read_entry t id = select_first (λ e. same e.entry_id id) t.entries

-- What the client asks for.
pub record ListEntryStatesMessage : Type 0 where
  pub since_cursor : ℕ
  pub target_cursor : Option ℕ
  pub after : Option EntryStatePageCursor
  pub limit : ℕ

pub data EntrySyncRequestError : Type 0 where
  cursor_ahead_of_server : EntrySyncRequestError
  invalid_cursor_range : EntrySyncRequestError

-- The answer to a request, an error of the request, or one of the store.
pub data Answer {ℓ} (A : Type ℓ) : Type ℓ where
  store_error : StoreError → Answer A
  request_error : EntrySyncRequestError → Answer A
  answered : A → Answer A

pub record EntryStatesListed : Type 0 where
  pub target_cursor : ℕ
  pub total_entries : ℕ
  pub page : Listed EntryStateRow EntryStatePageCursor

abbrev pub max_entry_state_batch : ℕ
max_entry_state_batch = 500

abbrev pub out_of_range : ℕ → ℕ → Option EntryStatePageCursor → Bool
out_of_range since target none = false
out_of_range since target (some c) = leb c.updated_seq since || ltb target c.updated_seq

unfoldable pub validate_cursor_range : ListEntryStatesMessage → ℕ → ℕ → Option EntrySyncRequestError
validate_cursor_range m target current =
    if ltb current m.since_cursor
    then some cursor_ahead_of_server
    else (if ltb target m.since_cursor || ltb current target
        then some invalid_cursor_range
        else (if out_of_range m.since_cursor target m.after
            then some invalid_cursor_range
            else none))

abbrev pub target_of : Option ℕ → ℕ → ℕ
target_of none current = current
target_of (some target) current = target

pick_rows : List EntryStateRow → List String → List EntryStateRow
unfolding select_first
pick_rows rows [] = []
pick_rows rows (id ∷ ids) =
    let rest = pick_rows rows ids in
    elim (select_first (λ r. same r.entry_id id) rows) [ none ↦ rest | some r ↦ r ∷ rest ]

-- The answer of getEntryStates, in the order of the ids. `rowsById` is a map of rows with distinct
-- ids, the primary key of the table, so it gives the first row of an id.
unfoldable pub get_entry_states : Tables → List String → List EntryStateRow
unfolding read_entry_states pick_rows
get_entry_states t ids = pick_rows (read_entry_states t ids) ids

module _ (texts : TextOrder) where
  -- ORDER BY updated_seq ASC, entry_id ASC
  abbrev pub entry_before : Entry → Entry → Bool
  entry_before d e =
      ltb d.updated_seq e.updated_seq
      || (d.updated_seq == e.updated_seq && texts.before d.entry_id e.entry_id)

  -- ? IS NULL OR updated_seq > ? OR (updated_seq = ? AND entry_id > ?)
  abbrev pub past_cursor : Option EntryStatePageCursor → Entry → Bool
  past_cursor none e = true
  past_cursor (some c) e =
      ltb c.updated_seq e.updated_seq
      || (c.updated_seq == e.updated_seq && texts.before c.entry_id e.entry_id)

  abbrev pub cursor_of_entry : Entry → EntryStatePageCursor
  cursor_of_entry e = record { updated_seq = e.updated_seq; entry_id = e.entry_id }

  -- The rows of listEntryStates, before they are shown as EntryStateRow.
  unfoldable pub list_entry_states : Tables → ℕ → ℕ → Option EntryStatePageCursor → ℕ → List Entry
  unfolding order_by select_where
  list_entry_states t since target after limit = take limit (
      order_by entry_before
        (select_where (λ e. in_range since target e && past_cursor after e) t.entries))

  list_in_range : Tables → ListEntryStatesMessage → ℕ → EntryStatesListed
  unfolding list_entry_states count_entry_states list_page
  list_in_range t m target =
      let effective_limit = min m.limit max_entry_state_batch in
      record {
        target_cursor = target;
        total_entries = count_entry_states t m.since_cursor target;
        page =
            list_page to_entry_state_row cursor_of_entry effective_limit
              (list_entry_states t m.since_cursor target m.after (suc effective_limit));
      }

  -- listEntryStates of the service.
  unfoldable pub list_entry_states_page : Tables → ListEntryStatesMessage → Answer EntryStatesListed
  unfolding validate_cursor_range list_in_range current_cursor
  list_entry_states_page t m = elim (current_cursor t) [
    | throws e ↦ store_error e
    | ok current ↦ elim (validate_cursor_range m (target_of m.target_cursor current) current) [
      | some e ↦ request_error e
      | none ↦ answered (list_in_range t m (target_of m.target_cursor current))
    ]
  ]
