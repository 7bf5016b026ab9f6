-- ===== src/Coordinator/MutationStore.antt =====
-- store/mutation-store.ts of the coordinator: a batch of mutations, committed in one transaction.
-- The loop's variables are the fields of `Batch`; `crypto.randomUUID()` is a parameter that gives
-- the n-th id drawn, and the log lines are the list `stale_rejections`. The text of a rejection's
-- message is determined by its code, which carries the values that the text shows.
pub mod Model
pub mod Versions
pub mod Cases
pub mod Shape
pub mod BlobSteps
pub mod Entries
pub mod Invariant
pub mod Answers
pub mod Replay
pub mod Frame
pub mod Blobs
use mathlib.Core.Logic.{ite}
use syncali.Prelude.{
  ℕ, ◌+◌, ◌*◌, ◌/◌, max, String, Bool, true, false, not, ◌&&◌, ◌||◌, Option, none, some, List, [],
  ◌∷◌, ◌++◌, ltb, ◌==◌, if◌then◌else◌, is_some, or_else, same, refers, truthy, has, trim,
  select_first, exists_where, upsert_where,
}
use syncali.Coordinator.Tables.{
  Tables, Entry, EntryVersion, CoordinatorState, Op, upsert, delete, EntryVersionReason, auto,
  before_delete, Outcome, ok, throws, ◌>>=◌, ◌>>◌, throw_if, or_throw, not_initialized,
  vault_id_mismatch, no_result,
}
use syncali.Coordinator.BlobStore.{
  is_pending_delete, read_blob_state, restage_pending_delete_blob, mark_blob_live,
  mark_blob_pending_delete_if_unreferenced,
}
use syncali.Coordinator.CursorStore.{current_cursor}
use syncali.Coordinator.MutationStore.Model.{
  SocketSession, Mutation, RejectCode, duplicate_mutation_id, stale_revision, blob_not_found,
  blob_not_staged, BatchResult, accepted, rejected, StaleRevisionRejection, CommitContext, Batch,
  find_entry, allocate_cursor, next_blob_id, next_deleted, history_before, current_revision,
  current_blob_id,
}
use syncali.Coordinator.MutationStore.Versions.{capture_before, capture_auto}

abbrev pub entry_row : CommitContext → Mutation → String → ℕ → ℕ → Entry
entry_row c m id revision cursor = record {
  entry_id = m.entry_id;
  revision = revision;
  blob_id = next_blob_id m;
  encrypted_metadata = m.encrypted_metadata;
  deleted = next_deleted m;
  updated_seq = cursor;
  updated_at = c.now;
  updated_by_user_id = c.session.user_id;
  updated_by_local_vault_id = c.session.local_vault_id;
  last_mutation_id = some id;
}

unfoldable pub write_entry : Entry → List Entry → List Entry
unfolding upsert_where
write_entry row es =
    upsert_where (λ e. same e.entry_id row.entry_id) (λ e. record row { entry_id = e.entry_id }) row
      es

unfoldable pub hold_next_blob : Mutation → Tables → Tables
hold_next_blob m t = elim (truthy (next_blob_id m)) [ none ↦ t | some b ↦ mark_blob_live t b ]

unfoldable pub release_current_blob : CommitContext → Mutation → Option Entry → Tables → Tables
release_current_blob c m current t = elim (truthy (current_blob_id current)) [
  | none ↦ t
  | some b ↦
      if refers b (next_blob_id m) then t else mark_blob_pending_delete_if_unreferenced t b c.now
]

abbrev pub push : BatchResult → Batch → Batch
push r s = record s { results = s.results ++ r ∷ [] }

-- The part of the loop's body behind the tests.
unfoldable pub apply_mutation :
    CommitContext → Mutation → String → Option Entry → Batch → Outcome Batch
apply_mutation c m id current s = do
  let revision = current_revision current + 1
  (cursor, s₁) ← allocate_cursor c.session (capture_before c m current s)
  let s₂ = capture_auto c m revision (record s₁ {
    tables = record (s₁.tables) {
      entries = write_entry (entry_row c m id revision cursor) s₁.tables.entries;
    };
  })
  ok (
      push (accepted id cursor m.entry_id revision) (record s₂ {
        tables = release_current_blob c m current (hold_next_blob m s₂.tables);
        highest_response_cursor = some (max (or_else s₂.highest_response_cursor 0) cursor);
        highest_broadcast_cursor = some (max (or_else s₂.highest_broadcast_cursor 0) cursor);
      }))

-- The tests of the blob that an upsert names. A blob on its way to deletion is staged again.
unfoldable pub commit_with_blob :
    CommitContext → Mutation → String → Option Entry → Batch → Outcome Batch
commit_with_blob c m id current s = elim (truthy (next_blob_id m)) [
  | none ↦ apply_mutation c m id current s
  | some b ↦
      if has c.unavailable_blob_ids b
      then ok (push (rejected id m.entry_id (blob_not_found b)) s)
      else elim (read_blob_state s.tables b) [
        | none ↦ ok (push (rejected id m.entry_id (blob_not_staged b)) s)
        | some state ↦ apply_mutation c m id current (
            if is_pending_delete state
            then record s {
              tables = restage_pending_delete_blob s.tables b (c.now + c.stage_grace_period_ms);
            }
            else s)
      ]
]

unfoldable pub commit_at_revision :
    CommitContext → Mutation → String → Option Entry → Batch → Outcome Batch
commit_at_revision c m id current s =
    if not (current_revision current == m.base_revision)
    then ok (
        push (rejected id m.entry_id (stale_revision (current_revision current) m.base_revision))
          (record s {
            stale_rejections =
                s.stale_rejections
                ++ record {
                  entry_id = m.entry_id;
                  expected_base_revision = current_revision current;
                  received_base_revision = m.base_revision;
                }
                  ∷ [];
          }))
    else commit_with_blob c m id current s

-- A mutation that is the last one applied to its entry is answered as before.
unfoldable pub commit_unless_applied :
    CommitContext → Mutation → String → Option Entry → Batch → Outcome Batch
commit_unless_applied c m id none s = commit_at_revision c m id none s
commit_unless_applied c m id (some e) s =
    if refers id e.last_mutation_id
    then ok (
        push (accepted id e.updated_seq e.entry_id e.revision) (record s {
          highest_response_cursor = some (max (or_else s.highest_response_cursor 0) e.updated_seq);
        }))
    else commit_at_revision c m id (some e) s

-- The loop's body.
unfoldable pub commit_one : CommitContext → Mutation → Batch → Outcome Batch
commit_one c m s =
    let id = trim m.mutation_id in
    if has s.seen_mutation_ids id
    then ok (push (rejected id m.entry_id duplicate_mutation_id) s)
    else commit_unless_applied c m id (find_entry m.entry_id s.tables.entries)
        (record s { seen_mutation_ids = id ∷ s.seen_mutation_ids })

unfoldable pub commit_all : CommitContext → List Mutation → Batch → Outcome Batch
commit_all c [] s = ok s
commit_all c (m ∷ ms) s = do s' ← commit_one c m s; commit_all c ms s'

unfoldable pub start_batch : Tables → Batch
start_batch t = record {
  tables = t;
  results = [];
  highest_response_cursor = none;
  highest_broadcast_cursor = none;
  initial_cursor = none;
  next_cursor = none;
  seen_mutation_ids = [];
  stale_rejections = [];
  drawn = 0;
}

advance_cursor : ℕ → ℕ → Option CoordinatorState → Option CoordinatorState
advance_cursor now n none = none
advance_cursor now n (some s) = some (record s { current_cursor = n; last_commit_at = some now })

-- UPDATE coordinator_state, if the batch took a cursor.
unfoldable pub save_cursor : ℕ → Batch → Tables
unfolding advance_cursor
save_cursor now s = elim s.next_cursor [
  | none ↦ s.tables
  | some n ↦ elim s.initial_cursor [
    | none ↦ s.tables
    | some i ↦
        if ltb i n
        then record (s.tables) {
          coordinator_state = advance_cursor now n s.tables.coordinator_state;
        }
        else s.tables
  ]
]

pub record CommitMutationsResult : Type 0 where
  pub request_id : String
  pub cursor : ℕ
  pub results : List BatchResult
  pub broadcast_cursor : Option ℕ
  pub stale_rejections : List StaleRevisionRejection

unfoldable pub response_cursor : Batch → Tables → Outcome ℕ
response_cursor s t = elim s.highest_response_cursor [ none ↦ current_cursor t | some n ↦ ok n ]

unfoldable pub commit_mutations :
    CommitContext → String → List Mutation → Tables → Outcome (CommitMutationsResult × Tables)
commit_mutations c request_id ms t = do
  s ← commit_all c ms (start_batch t)
  let t' = save_cursor c.now s
  cursor ← response_cursor s t'
  ok (
    record {
      request_id = request_id;
      cursor = cursor;
      results = s.results;
      broadcast_cursor = s.highest_broadcast_cursor;
      stale_rejections = s.stale_rejections;
    },
    t',
  )

-- The answer to a single mutation: the first result of a batch of one.
pub data CommitMutationResult : Type 0 where
  commit_accepted : String → ℕ → String → ℕ → Option ℕ → CommitMutationResult
  commit_rejected : String → RejectCode → CommitMutationResult

abbrev pub first_result : CommitMutationsResult → List BatchResult → Outcome CommitMutationResult
first_result b [] = throws no_result
first_result b (accepted id cursor entry_id revision ∷ rs) =
    ok (commit_accepted b.request_id cursor entry_id revision b.broadcast_cursor)
first_result b (rejected id entry_id code ∷ rs) = ok (commit_rejected b.request_id code)

unfoldable pub commit_mutation :
    CommitContext → String → Mutation → Tables → Outcome (CommitMutationResult × Tables)
commit_mutation c request_id m t = do
  (b, t') ← commit_mutations c request_id (m ∷ []) t
  r ← first_result b b.results
  ok (r, t')
