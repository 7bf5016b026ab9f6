-- ===== src/Coordinator/EntryStore/Examples.antt =====
-- The listing of a vault with one note, by pages of one entry.
use syncali.Prelude.{
  ◌≡◌, refl, none, some, [], ◌∷◌, arith, text_dec, map, code_point_order, select_where,
}
use syncali.Coordinator.Examples.{tables, note, tables-IsStored}
use syncali.Coordinator.CursorStore.{current_cursor}
use syncali.Coordinator.Listing.{read_pages, order_by}
use syncali.Coordinator.EntryStore.{
  ListEntryStatesMessage, to_entry_state_row, entry_before, in_range, get_entry_states,
}
use syncali.Coordinator.EntryStore.Paging.{ask, read_pages-entry_states}
use syncali.Coordinator.EntryStore.Lookup.{get_entry_states-each, read_each}

abbrev message : ListEntryStatesMessage
message = record { since_cursor = 0; target_cursor = none; after = none; limit = 1 }

read_pages-entry_states_example :
    read_pages (ask code_point_order tables message) 2 none
    ≡ some (
        map to_entry_state_row
          (order_by (entry_before code_point_order) (select_where (in_range 0 4) (note ∷ []))))
unfolding current_cursor
read_pages-entry_states_example =
    read_pages-entry_states code_point_order tables message 4 2 tables-IsStored refl (omega arith)
      (omega arith) (omega arith) (omega arith)

read_each-note : read_each tables ("gone" ∷ "note" ∷ []) ≡ to_entry_state_row note ∷ []
unfolding read_each text_dec
read_each-note = refl

get_entry_states-each_example :
    get_entry_states tables ("gone" ∷ "note" ∷ []) ≡ read_each tables ("gone" ∷ "note" ∷ [])
get_entry_states-each_example = get_entry_states-each tables ("gone" ∷ "note" ∷ [])
