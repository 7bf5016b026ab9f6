-- ===== src/Coordinator/EntryStore/Paging.antt =====
-- A client that follows `nextAfter` reads every entry of the range once, in order.
use syncali.Prelude.{
  ℕ, suc, ◌≤◌, ◌<◌, min, ◌≡◌, ◌∙◌, refl, ap, true, false, Option, none, some, List, [], ◌∷◌, map,
  arith, length, take, All, All-map, select_where, TextOrder,
}
use syncali.Coordinator.Tables.{Tables, Entry, ok}
use syncali.Coordinator.CursorStore.{current_cursor}
use syncali.Coordinator.MutationStore.Entries.{DistinctSeqs}
use syncali.Coordinator.MutationStore.Invariant.{IsStored}
use syncali.Coordinator.Listing.{order_by, Apart, Ascending, Listed, list_page, read_pages}
use syncali.Coordinator.Listing.Order.{
  select_where-true, order_by-Ascending, select-order_by, length-order_by, select-and, All-order_by,
  All-selected, length-select_where, Apart-select_where,
}
use syncali.Coordinator.Listing.Pages.{read_pages-from}
use syncali.Coordinator.EntryStore.{
  EntryStateRow, EntryStatePageCursor, ListEntryStatesMessage, EntryStatesListed, Answer,
  store_error, request_error, answered, out_of_range, target_of, max_entry_state_batch, in_range,
  entry_before, past_cursor, cursor_of_entry, list_entry_states, list_in_range,
  list_entry_states_page, to_entry_state_row, validate_cursor_range,
}

abbrev pub page_of : Answer EntryStatesListed → Option (Listed EntryStateRow EntryStatePageCursor)
page_of (store_error e) = none
page_of (request_error e) = none
page_of (answered listed) = some listed.page

module _ (texts : TextOrder) where
  entry_before_trans :
      (x y z : Entry)
      → entry_before texts x y ≡ true
      → entry_before texts y z ≡ true
      → entry_before texts x z ≡ true
  entry_before_trans x y z h k = ground (arith, texts.transitive x.entry_id y.entry_id z.entry_id)

  entry_before_asym : (x y : Entry) → entry_before texts x y ≡ true → entry_before texts y x ≡ false
  entry_before_asym x y h = ground (arith, texts.asymmetric x.entry_id y.entry_id)

  DistinctSeqs-Apart : (es : List Entry) → DistinctSeqs es → Apart (entry_before texts) es
  DistinctSeqs-Apart [] h = tt
  DistinctSeqs-Apart (e ∷ es) h = (All-map es (λ d k. ground arith) h.0, DistinctSeqs-Apart es h.1)

  -- Ask for the page behind `after`, with the other parts of the request as they are.
  abbrev pub ask :
      Tables
      → ListEntryStatesMessage
      → Option EntryStatePageCursor
      → Option (Listed EntryStateRow EntryStatePageCursor)
  ask t m after = page_of (list_entry_states_page texts t (record m { after = after }))

  abbrev IsInRange : ℕ → ℕ → Option EntryStatePageCursor → Type 0
  IsInRange since target after = out_of_range since target after ≡ false

  validate_lem :
      (m : ListEntryStatesMessage) (target current : ℕ)
      → m.since_cursor ≤ target
      → target ≤ current
      → IsInRange m.since_cursor target m.after
      → validate_cursor_range m target current ≡ none
  unfolding validate_cursor_range
  validate_lem m target current f g v = rw v (ground arith)

  abbrev range : Tables → ℕ → ℕ → List Entry
  range t since target =
      order_by (entry_before texts) (select_where (in_range since target) t.entries)

  list_entry_states_lem :
      (t : Tables) (since target limit : ℕ) (after : Option EntryStatePageCursor)
      → DistinctSeqs t.entries
      → list_entry_states texts t since target after limit
        ≡ take limit (select_where (past_cursor texts after) (range t since target))
  unfolding list_entry_states
  list_entry_states_lem t since target limit after d =
      ap (λ es. take limit (order_by (entry_before texts) es))
        (select-and (in_range since target) (past_cursor texts after) t.entries)
      ∙ ap (take limit) (
          select-order_by (entry_before texts) entry_before_trans entry_before_asym
            (past_cursor texts after) (select_where (in_range since target) t.entries)
            (Apart-select_where (entry_before texts) entry_before_trans entry_before_asym
              (in_range since target) t.entries (DistinctSeqs-Apart t.entries d)))

  answer_lem :
      (t : Tables) (m : ListEntryStatesMessage) (current : ℕ)
      → current_cursor t ≡ ok current
      → validate_cursor_range m (target_of m.target_cursor current) current ≡ none
      → list_entry_states_page texts t m
        ≡ answered (list_in_range texts t m (target_of m.target_cursor current))
  unfolding list_entry_states_page
  answer_lem t m current e v = rw (e, list_entry_states_page) (rw (v, list_entry_states_page) refl)

  module _ (t : Tables) (m : ListEntryStatesMessage) (current : ℕ) (d : DistinctSeqs t.entries)
      (e : current_cursor t ≡ ok current) (f : m.since_cursor ≤ target_of m.target_cursor current)
      (g : target_of m.target_cursor current ≤ current) where
    abbrev limit : ℕ
    limit = min m.limit max_entry_state_batch

    abbrev rows : List Entry
    rows = range t m.since_cursor (target_of m.target_cursor current)

    ask-listed :
        (after : Option EntryStatePageCursor)
        → IsInRange m.since_cursor (target_of m.target_cursor current) after
        → ask t m after
          ≡ some (
              list_page to_entry_state_row
                (cursor_of_entry texts)
                limit
                (take (suc limit) (select_where (past_cursor texts after) rows)))
    unfolding list_in_range
    ask-listed after v =
        ap page_of (
          answer_lem t (record m { after = after }) current e
            (validate_lem (record m { after = after }) (target_of m.target_cursor current) current f
              g v))
        ∙ ap (λ es. some (list_page to_entry_state_row (cursor_of_entry texts) limit es))
            (list_entry_states_lem t m.since_cursor (target_of m.target_cursor current) (suc limit)
              after d)

    rows-valid :
        All
          (λ z.
            IsInRange m.since_cursor
              (target_of m.target_cursor current)
              (some (cursor_of_entry texts z)))
          rows
    rows-valid =
        All-order_by (entry_before texts)
          (λ z.
            IsInRange m.since_cursor (target_of m.target_cursor current)
              (some (cursor_of_entry texts z)))
          (select_where (in_range m.since_cursor (target_of m.target_cursor current)) t.entries)
          (All-map
            (select_where (in_range m.since_cursor (target_of m.target_cursor current)) t.entries)
            (λ z k. ground arith)
            (All-selected (in_range m.since_cursor (target_of m.target_cursor current)) t.entries))

    rows-Ascending : Ascending (entry_before texts) rows
    rows-Ascending =
        order_by-Ascending (entry_before texts) entry_before_trans entry_before_asym
          (select_where (in_range m.since_cursor (target_of m.target_cursor current)) t.entries)
          (Apart-select_where (entry_before texts) entry_before_trans entry_before_asym
            (in_range m.since_cursor (target_of m.target_cursor current)) t.entries
            (DistinctSeqs-Apart t.entries d))

    rows-length : length rows ≤ length t.entries
    rows-length = omega (
      arith,
      length-order_by (entry_before texts) entry_before_trans entry_before_asym
          (select_where (in_range m.since_cursor (target_of m.target_cursor current)) t.entries),
      length-select_where {0} (in_range m.since_cursor (target_of m.target_cursor current))
          t.entries,
    )

-- A client that asks for a range of cursors, page after page, reads the entries of the range as
-- one listing without a limit would show them: each once, in the order of their cursors. The tables
-- are consistent and do not change, and the range lies within the vault's cursor; as many pages as
-- there are entries, and one more, suffice.
pub read_pages-entry_states :
    (texts : TextOrder) (t : Tables) (m : ListEntryStatesMessage) (current fuel : ℕ)
    → IsStored t
    → current_cursor t ≡ ok current
    → m.since_cursor ≤ target_of m.target_cursor current
    → target_of m.target_cursor current ≤ current
    → 1 ≤ m.limit
    → length t.entries < fuel
    → read_pages (ask texts t m) fuel none
      ≡ some (
          map to_entry_state_row (
            order_by (entry_before texts) (
              select_where
                (in_range m.since_cursor (target_of m.target_cursor current))
                t.entries)))
read_pages-entry_states texts t m current fuel v e f g h k =
    let d = v.seqs in
    read_pages-from to_entry_state_row (cursor_of_entry texts) (min m.limit max_entry_state_batch)
      (entry_before texts) (entry_before_trans texts) (entry_before_asym texts) (past_cursor texts)
      (λ z. refl) (rows texts t m current d e f g) (rows-Ascending texts t m current d e f g)
      (ask texts t m) (IsInRange texts m.since_cursor (target_of m.target_cursor current))
      (rows-valid texts t m current d e f g) (ask-listed texts t m current d e f g) (omega arith)
      fuel none [] (rows texts t m current d e f g)
      (select_where-true (rows texts t m current d e f g)) refl
      (omega (arith, rows-length texts t m current d e f g)) refl
