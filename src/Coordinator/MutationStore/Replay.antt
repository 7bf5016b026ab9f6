-- ===== src/Coordinator/MutationStore/Replay.antt =====
-- A mutation that is sent again, and a second mutation of the entry.
use syncali.Prelude.{ℕ, ◌≡◌, ◌≢◌, String, none, some, [], ◌∷◌, arith, has, trim}
use syncali.Coordinator.Tables.{Tables, CoordinatorState, ok}
use syncali.Coordinator.CursorStore.{current_cursor}
use syncali.Coordinator.MutationStore.Model.{
  accepted, rejected, Mutation, CommitContext, stale_revision,
}
use syncali.Coordinator.MutationStore.{
  commit_one, commit_unless_applied, commit_at_revision, commit_all, start_batch, save_cursor,
  response_cursor, commit_mutations, CommitMutationsResult,
}
use syncali.Coordinator.MutationStore.Entries.{find_entry-id}
use syncali.Coordinator.MutationStore.Answers.{Shows, accepted-Shows}

-- A single mutation of an entry that shows a mutation.
replay-Shows :
    (c : CommitContext) (request_id : String) (m : Mutation) (t : Tables) (cursor revision : ℕ)
    → Shows m cursor revision t
    → commit_mutations c request_id (m ∷ []) t
      ≡ ok (
        record {
          request_id = request_id;
          cursor = cursor;
          results = accepted (trim m.mutation_id) cursor m.entry_id revision ∷ [];
          broadcast_cursor = none;
          stale_rejections = [];
        },
        t,
      )
unfolding commit_mutations commit_all commit_one start_batch has commit_unless_applied save_cursor
    response_cursor
replay-Shows c request_id m t cursor revision v =
    ground (arith, find_entry-id m.entry_id t.entries v.entry v.found)

-- A mutation that was accepted is accepted again, by whatever call repeats it next, at the same
-- cursor and revision; nothing is broadcast and the tables stay as they were.
pub commit_mutations_replay :
    (c d : CommitContext) (request_id again_id : String) (m : Mutation) (t u : Tables)
    (r : CommitMutationsResult) (id entry_id : String) (cursor revision : ℕ)
    → commit_mutations c request_id (m ∷ []) t ≡ ok (r, u)
    → r.results ≡ accepted id cursor entry_id revision ∷ []
    → commit_mutations d again_id (m ∷ []) u
      ≡ ok (
        record {
          request_id = again_id;
          cursor = cursor;
          results = accepted (trim m.mutation_id) cursor m.entry_id revision ∷ [];
          broadcast_cursor = none;
          stale_rejections = [];
        },
        u,
      )
commit_mutations_replay c d request_id again_id m t u r id entry_id cursor revision h a =
    replay-Shows d again_id m u cursor revision
      (accepted-Shows c request_id m t u r id entry_id cursor revision h a)

rival-Shows :
    (c : CommitContext) (request_id : String) (m n : Mutation) (t : Tables) (cursor revision : ℕ)
    (st : CoordinatorState)
    → Shows m cursor revision t
    → t.coordinator_state ≡ some st
    → n.entry_id ≡ m.entry_id
    → trim n.mutation_id ≢ trim m.mutation_id
    → n.base_revision ≢ revision
    → commit_mutations c request_id (n ∷ []) t
      ≡ ok (
        record {
          request_id = request_id;
          cursor = st.current_cursor;
          results =
              rejected (trim n.mutation_id) n.entry_id (stale_revision revision n.base_revision)
              ∷ [];
          broadcast_cursor = none;
          stale_rejections =
              record {
                entry_id = n.entry_id;
                expected_base_revision = revision;
                received_base_revision = n.base_revision;
              }
              ∷ [];
        },
        t,
      )
unfolding commit_mutations commit_all commit_one start_batch has commit_unless_applied
    commit_at_revision save_cursor response_cursor current_cursor
rival-Shows c request_id m n t cursor revision st v s e ne stale = ground arith

-- No update is lost: once a mutation of an entry is accepted, another mutation of that entry that is
-- based on any other revision than the accepted one is rejected as stale, with the accepted
-- revision as the expected one, and the tables stay as they were.
pub commit_mutations_rival :
    (c d : CommitContext) (request_id rival_id : String) (m n : Mutation) (t u : Tables)
    (r : CommitMutationsResult) (id entry_id : String) (cursor revision : ℕ) (st : CoordinatorState)
    → commit_mutations c request_id (m ∷ []) t ≡ ok (r, u)
    → r.results ≡ accepted id cursor entry_id revision ∷ []
    → u.coordinator_state ≡ some st
    → n.entry_id ≡ m.entry_id
    → trim n.mutation_id ≢ trim m.mutation_id
    → n.base_revision ≢ revision
    → commit_mutations d rival_id (n ∷ []) u
      ≡ ok (
        record {
          request_id = rival_id;
          cursor = st.current_cursor;
          results =
              rejected (trim n.mutation_id) n.entry_id (stale_revision revision n.base_revision)
              ∷ [];
          broadcast_cursor = none;
          stale_rejections =
              record {
                entry_id = n.entry_id;
                expected_base_revision = revision;
                received_base_revision = n.base_revision;
              }
              ∷ [];
        },
        u,
      )
commit_mutations_rival c d request_id rival_id m n t u r id entry_id cursor revision st h a s e ne
      stale =
    rival-Shows d rival_id m n u cursor revision st
      (accepted-Shows c request_id m t u r id entry_id cursor revision h a) s e ne stale
