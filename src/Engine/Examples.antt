-- ===== src/Engine/Examples.antt =====
-- The event gate with two actions at once, and the work queue over a few calls.
use syncali.Prelude.{true, false, none, some, List, [], ◌∷◌, String, ℕ, ◌≤◌, ◌<◌, All, arith}
use syncali.Coordinator.EntryStore.{EntryStateRow}
use syncali.Engine.Checkpoint.{checkpoint_applied_window, checkpoint_applied_window_safe}
use syncali.Engine.EventGate.{unique_paths}
use syncali.Engine.WorkQueue.{PendingSyncWork, QueueCall, pushes, pulls, takes, clears}

abbrev first : List String
first = unique_paths [] (some "a.md" ∷ some "b.md" ∷ some "a.md" ∷ [])

abbrev second : List String
second = unique_paths [] (none ∷ some "b.md" ∷ some " " ∷ [])

abbrev calls : List QueueCall
calls = pushes ∷ takes false ∷ clears ∷ pulls none ∷ takes true ∷ pushes ∷ pulls (some 7) ∷ []

abbrev asked_push : PendingSyncWork
asked_push = record { push = true; pull_target_cursor = none }

abbrev item : ℕ → EntryStateRow
item seq = record {
  entry_id = "note";
  revision = 1;
  blob_id = none;
  encrypted_metadata = "{}";
  deleted = false;
  updated_seq = seq;
  updated_at = 0;
}

checkpoint_applied_window_safe_example :
    (2 ≤ checkpoint_applied_window 2 (item 3 ∷ item 5 ∷ []) (item 5 ∷ []) none)
    × All
        (λ d. checkpoint_applied_window 2 (item 3 ∷ item 5 ∷ []) (item 5 ∷ []) none < d.updated_seq)
        (item 5 ∷ [])
    × All
        (λ e. checkpoint_applied_window 2 (item 3 ∷ item 5 ∷ []) (item 5 ∷ []) none < e.updated_seq)
        (item 8 ∷ [])
checkpoint_applied_window_safe_example =
    checkpoint_applied_window_safe 2 (item 3 ∷ item 5 ∷ []) (item 5 ∷ []) (item 8 ∷ [])
      (omega arith, tt) (omega arith, tt) ((omega arith, (omega arith, tt)), tt)
      ((omega arith, tt), tt)
