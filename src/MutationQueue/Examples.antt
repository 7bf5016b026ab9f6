-- ===== src/MutationQueue/Examples.antt =====
-- An edit of the note whose base is the entry of the coordinator.
use syncali.Prelude.{◌≡◌, ◌⊎◌, refl, false, none, some, [], ◌∷◌, text_dec, has, trim, String}
use syncali.Coordinator.Tables.{Tables, ok, throws}
use syncali.Coordinator.Examples.{staged_tables, context, committed}
use syncali.Coordinator.CursorStore.{current_cursor}
use syncali.Coordinator.BlobStore.{
  read_blob_state, mark_blob_live, mark_blob_pending_delete_if_unreferenced,
}
use syncali.Coordinator.MutationStore.Model.{allocate_cursor, find_entry}
use syncali.Coordinator.MutationStore.Versions.{capture_before, capture_auto}
use syncali.Coordinator.MutationStore.Answers.{Shows}
use syncali.Coordinator.MutationStore.{
  commit_mutations, commit_all, commit_one, commit_unless_applied, commit_at_revision,
  commit_with_blob, apply_mutation, write_entry, hold_next_blob, release_current_blob, start_batch,
  save_cursor, response_cursor,
}
use syncali.MutationQueue.{EntryMetadata, MetadataContext, commit_payload, create_next_blob_id}
use syncali.MutationQueue.Revision.{LocalChange, writes, queued, IsReadable, queued-accepted}

abbrev encrypt : EntryMetadata → MetadataContext → String
encrypt metadata bound = metadata.path

abbrev change : LocalChange
change =
    writes
      (record {
        path = "note.md";
        entry_id = "note";
        base =
            some (record { revision = 2; deleted = false; blob_id = some "old"; hash = some "h1" });
        previous_local = none;
        hash = "h2";
      })
      "new" "m2" 39

committed_tables : Tables
unfolding commit_mutations commit_all commit_one commit_unless_applied commit_at_revision
    commit_with_blob apply_mutation write_entry hold_next_blob release_current_blob start_batch
    save_cursor response_cursor current_cursor capture_before capture_auto allocate_cursor
    find_entry has trim text_dec read_blob_state mark_blob_live
    mark_blob_pending_delete_if_unreferenced queued create_next_blob_id
committed_tables =
    elim (commit_mutations context "r" (commit_payload (queued encrypt change) ∷ [])
      staged_tables) [ ok (r, u) ↦ u | throws e ↦ staged_tables ]

commit_change :
    commit_mutations context "r" (commit_payload (queued encrypt change) ∷ []) staged_tables
    ≡ ok (committed, committed_tables)
unfolding committed_tables
commit_change = refl

queued-accepted_example :
    ((committed_tables ≡ staged_tables)
      × Shows (commit_payload (queued encrypt change)) 5 3 staged_tables)
    ⊎ (IsReadable encrypt change committed_tables
        × Shows (commit_payload (queued encrypt change)) 5 3 committed_tables)
queued-accepted_example =
    queued-accepted encrypt change context "r" staged_tables committed_tables committed "m2" "note"
      5 3 commit_change refl
