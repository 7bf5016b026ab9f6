-- ===== src/Coordinator/CommitService.antt =====
-- mutation/commit-service.ts of the coordinator: a commit, behind the question which blobs have an
-- object. Requests run one at a time. `now` is the time of the commit and `later` the time at which
-- the collector and the flush are scheduled; the log lines and the broadcasts are left out.
pub mod Held
mod Examples
use syncali.Prelude.{
  ℕ, ◌*◌, String, Bool, true, false, not, Option, none, some, List, [], ◌∷◌, if◌then◌else◌, truthy,
  has, select_where,
}
use syncali.Coordinator.Tables.{Tables, EntryVersionReason, Outcome, ok, ◌>>=◌}
use syncali.Coordinator.BlobStore.{next_blob_gc_at}
use syncali.Coordinator.CursorStore.{read_version_history_retention_days}
use syncali.Coordinator.MutationStore.Model.{SocketSession, Mutation, CommitContext, next_blob_id}
use syncali.Coordinator.MutationStore.{
  commit_mutations, CommitMutationsResult, CommitMutationResult, first_result,
}
use syncali.Coordinator.BlobSync.{BlobSync, tables_of, with_tables, arm_gc, schedule_flush}
use syncali.Coordinator.Health.Flush.{schedule_summary_flush}

unfoldable pub day_in_ms : ℕ
day_in_ms = 24 * 60 * 60 * 1000

-- What a call of the service brings along.
pub record CommitCall : Type 0 where
  pub session : SocketSession
  pub now : ℕ
  pub later : ℕ
  pub blob_grace_period_ms : ℕ
  pub forced_history_before : Option EntryVersionReason
  pub random_uuid : ℕ → String

-- The blobs that the upserts name; the set is used for its members only.
unfoldable pub upsert_blob_ids : List Mutation → List String
upsert_blob_ids [] = []
upsert_blob_ids (m ∷ ms) =
    let rest = upsert_blob_ids ms in
    elim (truthy (next_blob_id m)) [ none ↦ rest | some id ↦ id ∷ rest ]

unfoldable pub unavailable_blobs : List String → List Mutation → List String
unfolding upsert_blob_ids select_where has
unavailable_blobs objects ms = select_where (λ id. not (has objects id)) (upsert_blob_ids ms)

abbrev pub context_of : CommitCall → (retention_days : ℕ) → List String → CommitContext
context_of call retention_days unavailable = record {
  session = call.session;
  now = call.now;
  stage_grace_period_ms = call.blob_grace_period_ms;
  version_history_retention_ms = retention_days * day_in_ms;
  forced_history_before = call.forced_history_before;
  unavailable_blob_ids = unavailable;
  random_uuid = call.random_uuid;
}

-- What follows a commit that changed the vault.
unfoldable pub schedule_next : Option ℕ → ℕ → BlobSync → BlobSync
unfolding next_blob_gc_at arm_gc schedule_summary_flush
schedule_next none later s = s
schedule_next (some cursor) later s =
    schedule_flush later (arm_gc (next_blob_gc_at (tables_of s) later) true later s)

unfoldable pub commit_mutations_request :
    CommitCall → String → List Mutation → BlobSync → Outcome (CommitMutationsResult × BlobSync)
unfolding commit_mutations unavailable_blobs day_in_ms schedule_next
    read_version_history_retention_days
commit_mutations_request call request_id ms s = do
  days ← read_version_history_retention_days (tables_of s)
  (r, t) ←
      commit_mutations (context_of call days (unavailable_blobs s.objects ms)) request_id ms
        (tables_of s)
  ok (r, schedule_next r.broadcast_cursor call.later (with_tables s t))

unfoldable pub commit_mutation_request :
    CommitCall → String → Mutation → BlobSync → Outcome (CommitMutationResult × BlobSync)
unfolding commit_mutations_request
commit_mutation_request call request_id m s = do
  (b, s') ← commit_mutations_request call request_id (m ∷ []) s
  r ← first_result b b.results
  ok (r, s')
