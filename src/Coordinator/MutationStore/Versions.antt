-- ===== src/Coordinator/MutationStore/Versions.antt =====
-- Entry versions that a commit keeps (store/mutation-store.ts of the coordinator).

use syncali.Prelude.{
  ℕ, ◌+◌, ◌*◌, ◌/◌, Bool, true, false, not, ◌&&◌, ◌||◌, Option, none, some, List, [], ◌∷◌, ◌++◌,
  ltb, ◌==◌, if◌then◌else◌, is_some, same, exists_where,
}
use syncali.Coordinator.Tables.{
  Entry, EntryVersion, upsert, delete, EntryVersionReason, auto, before_delete, before_restore,
  manual,
}
use syncali.Coordinator.MutationStore.Model.{
  Batch, Mutation, CommitContext, next_blob_id, history_before, auto_entry_version_bucket_ms,
}

abbrev pub same_reason : EntryVersionReason → EntryVersionReason → Bool
same_reason auto auto = true
same_reason before_delete before_delete = true
same_reason before_restore before_restore = true
same_reason manual manual = true
same_reason _ _ = false

-- Equal in the columns of the unique index, where NULL equals nothing.
abbrev pub same_bucket : EntryVersion → EntryVersion → Bool
same_bucket v w =
    same v.entry_id w.entry_id
    && (same_reason v.reason w.reason && elim v.bucket_start_ms [
      | none ↦ false
      | some a ↦ elim w.bucket_start_ms [ none ↦ false | some b ↦ a == b ]
    ])

-- INSERT … ON CONFLICT DO NOTHING, after the look-up that `ignore_conflict` asks for. The Boolean
-- is the source's result.
unfoldable pub insert_entry_version :
    EntryVersion → Bool → List EntryVersion → List EntryVersion × Bool
unfolding exists_where
insert_entry_version v ignore_conflict vs =
    if ignore_conflict && (is_some v.bucket_start_ms && exists_where (λ w. same_bucket w v) vs)
    then (vs, false)
    else (
      if exists_where (λ w. same w.version_id v.version_id || same_bucket w v) vs
          then vs
          else vs ++ v ∷ [],
      true,
    )

abbrev pub insert_version : EntryVersion → Bool → Batch → Batch
insert_version v ignore_conflict s = record s {
  tables = record (s.tables) {
    entry_versions = (insert_entry_version v ignore_conflict s.tables.entry_versions).0;
  };
  drawn = s.drawn + 1;
}

-- The row of the version that keeps `e`.
abbrev pub before_version : CommitContext → Mutation → Entry → EntryVersionReason → ℕ → EntryVersion
before_version c m e reason drawn = record {
  version_id = c.random_uuid drawn;
  entry_id = m.entry_id;
  source_revision = e.revision;
  op_type = if e.deleted then delete else upsert;
  blob_id = e.blob_id;
  encrypted_metadata = e.encrypted_metadata;
  reason = reason;
  bucket_start_ms = none;
  captured_at = c.now;
  expires_at = c.now + c.version_history_retention_ms;
  created_by_user_id = c.session.user_id;
  created_by_local_vault_id = c.session.local_vault_id;
}

-- The version that keeps the state before the mutation.
unfoldable pub capture_before : CommitContext → Mutation → Option Entry → Batch → Batch
unfolding insert_entry_version
capture_before c m none s = s
capture_before c m (some e) s = elim (history_before c m) [
  | none ↦ s
  | some reason ↦ insert_version (before_version c m e reason s.drawn) false s
]

-- The row of the version that keeps what the mutation writes.
abbrev pub after_version : CommitContext → Mutation → ℕ → ℕ → EntryVersion
after_version c m revision drawn = record {
  version_id = c.random_uuid drawn;
  entry_id = m.entry_id;
  source_revision = revision;
  op_type = m.op;
  blob_id = next_blob_id m;
  encrypted_metadata = m.encrypted_metadata;
  reason = auto;
  bucket_start_ms = some ((c.now / auto_entry_version_bucket_ms) * auto_entry_version_bucket_ms);
  captured_at = c.now;
  expires_at = c.now + c.version_history_retention_ms;
  created_by_user_id = c.session.user_id;
  created_by_local_vault_id = c.session.local_vault_id;
}

-- The version that keeps the state after the mutation, at most one for each bucket of time.
unfoldable pub capture_auto : CommitContext → Mutation → ℕ → Batch → Batch
unfolding insert_entry_version
capture_auto c m revision s =
    if not (is_some (history_before c m)) && ltb 0 m.base_revision
    then insert_version (after_version c m revision s.drawn) true s
    else s
