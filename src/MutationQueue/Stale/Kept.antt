-- ===== src/MutationQueue/Stale/Kept.antt =====
-- A rejected change is never dropped: the device pulls first, or keeps the edit as a copy.
use syncali.Prelude.{
  ℕ, ◌<◌, ◌≡◌, ◌≢◌, refl, ap, ◌∙◌, ◌⊎◌, inl, inr, String, Option, none, some, Bool, true, false,
  List, [], ◌∷◌, ◌++◌, length, arith, ltb, Bool-cases, text_dec,
}
use syncali.Coordinator.Tables.{Op, upsert, delete}
use syncali.Coordinator.MutationStore.Model.{stale_revision}
use syncali.MutationQueue.{PendingMutationRow, MetadataContext}
use syncali.Paths.Units.{Units, contains}
use syncali.Paths.ConflictFile.{LocalTime, ConflictFileWriter}
use syncali.Paths.ConflictFile.Copy.{IsFileWriter, write_conflict_copy_lem}
use syncali.Engine.PullPlan.{SyncedEntryMetadata}
use syncali.MutationQueue.Stale.{
  is_stale_revision_like, stale_revision_numbers, rejected_failure,
  is_pull_resolvable_stale_revision, is_local_ahead_stale_revision, metadata_context_from_mutation,
  PushConflictEvent, Device, stale_result, conflict_result, as_copy, copy_of, resolved, conflict_of,
  conflict_answer, clear_dirty_entry_by_mutation_id, handle_local_ahead_conflict,
  handle_rejected_prepared_mutation,
}

-- What a deletion, and an edit of a file of `bytes`, leave behind.
abbrev pub Saved :
    {S : Type 0}
    → (S → Units → Bool)
    → (S → Units → Option Units)
    → Op
    → Units
    → S
    → S
    → Option Units
    → Type 0
Saved exists read delete bytes before after copy = copy ≡ none
Saved exists read upsert bytes before after copy =
    (path : Units) × (copy ≡ some path)
    × (exists before path ≡ false)
    × (read after path ≡ some bytes)

rejected_numbers :
    (expected received : ℕ)
    → stale_revision_numbers (rejected_failure (stale_revision expected received))
      ≡ some (expected, received)
unfolding stale_revision_numbers is_stale_revision_like text_dec
rejected_numbers expected received = refl

module _ {S : Type 0} (w : ConflictFileWriter S) (read : S → Units → Option Units)
    (law : IsFileWriter w read) (decrypt : String → MetadataContext → Option SyncedEntryMetadata)
    (now : LocalTime) (fuel : ℕ) (device : Device S) (files : List Units)
    (listed : (file : Units) → w.exists device.vault file ≡ true → contains files file ≡ true)
    (enough : length files < fuel) where
  abbrev Unharmed : S → Type 0
  Unharmed after =
      (file : Units) → w.exists device.vault file ≡ true → read after file ≡ read device.vault file

  copy_of-lem :
      (op : Op) (path bytes : Units) (content : Option Units)
      → (op ≡ upsert → content ≡ some bytes)
      → (copy : Option Units) × (after : S) × (copy_of
            (some w)
            read
            decrypt
            now
            fuel
            op
            device.vault
            path
            content
          ≡ some (copy, after))
        × Saved w.exists read op bytes device.vault after copy
        × Unharmed after
  copy_of-lem delete path bytes content h = (none, device.vault, refl, refl, λ file k. refl)
  copy_of-lem upsert path bytes none h = absurd (let k = h refl in cc)
  copy_of-lem upsert path bytes (some found) h =
      let (copy, after, written, free, content, others) =
        write_conflict_copy_lem w read law device.vault files path found now fuel listed enough in
      (
        some copy,
        after,
        ap (as_copy (some w) read decrypt now fuel) written,
        (copy, refl, free, content ∙ h refl),
        others,
      )

  -- A change that the coordinator rejects for another revision is handled, and nothing of it is
  -- lost, if its metadata decrypts and, for an edit, the file can be read. If the server is ahead, nothing changes and the device pulls. If this device is ahead,
  -- the change leaves the queue, every file that was there reads as before, and the edited file's
  -- content stands in a conflict copy, under a name that no file had; a deletion has no copy.
  pub handle_rejected_prepared_mutation_lem :
      (mutation : PendingMutationRow) (metadata : SyncedEntryMetadata) (bytes : Units)
      (expected received : ℕ)
      → decrypt mutation.encrypted_metadata (metadata_context_from_mutation mutation)
        ≡ some metadata
      → (mutation.op ≡ upsert → read device.vault metadata.path ≡ some bytes)
      → expected ≢ received
      → ((received < expected)
          × (handle_rejected_prepared_mutation
                (some w)
                read
                decrypt
                now
                fuel
                mutation
                (stale_revision expected received)
                device
              ≡ some (stale_result, device)))
        ⊎ ((expected < received)
            × ((event : PushConflictEvent) × (after : Device S) × (handle_rejected_prepared_mutation
                    (some w)
                    read
                    decrypt
                    now
                    fuel
                    mutation
                    (stale_revision expected received)
                    device
                  ≡ some (conflict_result event, after))
                × (after.dirty ≡ clear_dirty_entry_by_mutation_id mutation.mutation_id device.dirty)
                × Saved w.exists read mutation.op bytes device.vault after.vault event.conflict_path
                × Unharmed after.vault))
  unfolding handle_rejected_prepared_mutation handle_local_ahead_conflict
      is_pull_resolvable_stale_revision is_local_ahead_stale_revision
  handle_rejected_prepared_mutation_lem mutation metadata bytes expected received plain content
        differ =
      let (copy, after, copied, saved, unharmed) =
        copy_of-lem mutation.op metadata.path bytes (read device.vault metadata.path) content in
      let event : PushConflictEvent = record {
        entry_id = mutation.entry_id;
        op = mutation.op;
        original_path = metadata.path;
        conflict_path = copy;
      } in
      elim (Bool-cases (ltb received expected)) [
        | inl behind ↦ inl (ground arith, rw (rejected_numbers expected received, behind) refl)
        | inr not_behind ↦
            let ahead : ltb expected received ≡ true = ground arith in
            let outcome : Device S = record {
              vault = after;
              dirty = clear_dirty_entry_by_mutation_id mutation.mutation_id device.dirty;
              conflicts = device.conflicts ++ event ∷ [];
            } in
            inr (
              ground arith,
              (
                event,
                outcome,
                rw (rejected_numbers expected received, not_behind, ahead)
                    (ap (conflict_answer (some w) read decrypt now fuel) (
                      ap (conflict_of (some w) read decrypt now fuel mutation device) plain
                      ∙ ap (resolved (some w) read decrypt now fuel mutation metadata device)
                          copied)),
                refl,
                saved,
                unharmed,
              ),
            )
      ]
