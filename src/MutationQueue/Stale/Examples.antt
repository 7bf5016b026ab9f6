-- ===== src/MutationQueue/Stale/Examples.antt =====
-- An edit of a note, rejected by a server that has lost a revision.
use syncali.Prelude.{
  ◌<◌, ◌≡◌, refl, ◌⊎◌, String, Option, none, some, true, [], ◌∷◌, arith, if◌then◌else◌,
}
use syncali.Coordinator.Tables.{upsert}
use syncali.Coordinator.MutationStore.Model.{stale_revision}
use syncali.MutationQueue.{PendingMutationRow, MetadataContext}
use syncali.Paths.Units.{Units, codes, equal, contains}
use syncali.Paths.ConflictFile.{LocalTime}
use syncali.Paths.ConflictFile.MemoryVault.{Vault, writer, read, writer-IsFileWriter}
use syncali.Engine.PullPlan.{SyncedEntryMetadata}
use syncali.MutationQueue.Stale.{
  Device, PushConflictEvent, stale_result, conflict_result, clear_dirty_entry_by_mutation_id,
  handle_rejected_prepared_mutation,
}
use syncali.MutationQueue.Stale.Kept.{Saved, handle_rejected_prepared_mutation_lem}

abbrev note : Units
note = codes "a.md"

abbrev one_note : Vault
one_note = record { files = λ file. if equal file note then some (7 ∷ []) else none; folders = [] }

one_note-listed :
    (file : Units) → writer.exists one_note file ≡ true → contains (note ∷ []) file ≡ true
unfolding contains
one_note-listed file h = ground arith

note-read : read one_note note ≡ some (7 ∷ [])
unfolding equal
note-read = refl

abbrev edit : PendingMutationRow
edit = record {
  mutation_id = "m";
  entry_id = "e";
  op = upsert;
  status = none;
  blocked_reason = none;
  blocked_encrypted_size_bytes = none;
  blocked_max_file_size_bytes = none;
  base_revision = 5;
  base_blob_id = none;
  base_hash = none;
  blob_id = some "b";
  hash = some "h";
  encrypted_metadata = "";
  created_at = 0;
}

abbrev metadata : SyncedEntryMetadata
metadata = record { path = note; hash = some "h" }

abbrev decrypt : String → MetadataContext → Option SyncedEntryMetadata
decrypt text context = some metadata

abbrev noon : LocalTime
noon = record { full_year = 2026; month = 9; date = 1; hours = 12; minutes = 0; seconds = 0 }

abbrev device : Device Vault
device = record { vault = one_note; dirty = edit ∷ []; conflicts = [] }

handle_rejected_prepared_mutation_example :
    ((5 < 4)
      × (handle_rejected_prepared_mutation
            (some writer)
            read
            decrypt
            noon
            2
            edit
            (stale_revision 4 5)
            device
          ≡ some (stale_result, device)))
    ⊎ ((4 < 5)
        × ((event : PushConflictEvent) × (after : Device Vault) × (handle_rejected_prepared_mutation
                (some writer)
                read
                decrypt
                noon
                2
                edit
                (stale_revision 4 5)
                device
              ≡ some (conflict_result event, after))
            × (after.dirty ≡ clear_dirty_entry_by_mutation_id "m" device.dirty)
            × Saved writer.exists read upsert (7 ∷ []) one_note after.vault event.conflict_path
            × ((file : Units)
                → writer.exists one_note file ≡ true
                → read after.vault file ≡ read one_note file)))
handle_rejected_prepared_mutation_example =
    handle_rejected_prepared_mutation_lem writer read writer-IsFileWriter decrypt noon 2 device
      (note ∷ []) one_note-listed (omega arith) edit metadata (7 ∷ []) 4 5 refl
      (λ edited. note-read) (omega arith)
