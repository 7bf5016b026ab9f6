-- ===== src/MutationQueue.antt =====
-- apps/obsidian-plugin/src/sync/core/mutation-queue.ts: the mutation that a local change queues, and
-- its form in a commit (engine/push-mutation-shared.ts, engine/push-mutation-preparer.ts). The
-- encryption of metadata is a parameter, the ids that are drawn and the time are arguments, and the
-- store that keeps the row is left out.
pub mod Revision
pub mod Stale
mod Examples
use syncali.Prelude.{
  ℕ, ◌+◌, String, or_else, Bool, true, false, not, ◌&&◌, Option, none, some, refers, truthy,
  if◌then◌else◌, ltb,
}
use syncali.Coordinator.Tables.{Op, upsert, delete}
use syncali.Coordinator.MutationStore.Model.{Mutation}

pub data PendingStatus : Type 0 where
  pending blocked : PendingStatus

pub data PendingMutationBlockedReason : Type 0 where
  file_too_large prepare_failed stale_unresolved : PendingMutationBlockedReason

pub record PendingMutationRow : Type 0 where
  pub mutation_id : String
  pub entry_id : String
  pub op : Op
  pub status : Option PendingStatus
  pub blocked_reason : Option PendingMutationBlockedReason
  pub blocked_encrypted_size_bytes : Option ℕ
  pub blocked_max_file_size_bytes : Option ℕ
  pub base_revision : ℕ
  pub base_blob_id : Option String
  pub base_hash : Option String
  pub blob_id : Option String
  pub hash : Option String
  pub encrypted_metadata : String
  pub created_at : ℕ

pub record MutationBase : Type 0 where
  pub revision : ℕ
  pub deleted : Bool
  pub blob_id : Option String
  pub hash : Option String

pub record MutationLocalContent : Type 0 where
  pub deleted : Bool
  pub blob_id : Option String
  pub hash : Option String

-- What is encrypted, and what it is bound to.
pub record EntryMetadata : Type 0 where
  pub path : String
  pub hash : Option String

pub record MetadataContext : Type 0 where
  pub entry_id : String
  pub revision : ℕ
  pub op : Op
  pub blob_id : Option String

pub record LocalUpsert : Type 0 where
  pub path : String
  pub entry_id : String
  pub base : Option MutationBase
  pub previous_local : Option MutationLocalContent
  pub hash : String

pub record LocalDelete : Type 0 where
  pub entry_id : String
  pub base : MutationBase
  pub path : String

-- The blob of content that is there already, or a new one.
unfoldable pub create_next_blob_id : Option MutationLocalContent → (hash new_id : String) → String
create_next_blob_id none hash new_id = new_id
create_next_blob_id (some entry) hash new_id =
    if not entry.deleted && refers hash entry.hash
    then elim (truthy entry.blob_id) [ none ↦ new_id | some id ↦ id ]
    else new_id

abbrev pub content_of : MutationBase → MutationLocalContent
content_of base = record { deleted = base.deleted; blob_id = base.blob_id; hash = base.hash }

-- previousLocal ?? base
abbrev pub known_content : LocalUpsert → Option MutationLocalContent
known_content input = elim input.previous_local [
  | some content ↦ some content
  | none ↦ elim input.base [ none ↦ none | some base ↦ some (content_of base) ]
]

module _ (encrypt_metadata : EntryMetadata → MetadataContext → String) where
  unfoldable pub build_local_upsert_mutation :
      LocalUpsert → (new_blob_id mutation_id : String) → ℕ → PendingMutationRow
  unfolding create_next_blob_id
  build_local_upsert_mutation input new_blob_id mutation_id now =
      let base_revision : ℕ = elim input.base [ none ↦ 0 | some base ↦ base.revision ] in
      let blob_id = create_next_blob_id (known_content input) input.hash new_blob_id in
      record {
        mutation_id = mutation_id;
        entry_id = input.entry_id;
        op = upsert;
        status = none;
        blocked_reason = none;
        blocked_encrypted_size_bytes = none;
        blocked_max_file_size_bytes = none;
        base_revision = base_revision;
        base_blob_id = elim input.base [ none ↦ none | some base ↦ base.blob_id ];
        base_hash = elim input.base [ none ↦ none | some base ↦ base.hash ];
        blob_id = some blob_id;
        hash = some input.hash;
        encrypted_metadata =
            encrypt_metadata (record { path = input.path; hash = some input.hash })
              (record {
                entry_id = input.entry_id;
                revision = base_revision + 1;
                op = upsert;
                blob_id = some blob_id;
              });
        created_at = now;
      }

  unfoldable pub build_local_delete_mutation :
      LocalDelete → (mutation_id : String) → ℕ → PendingMutationRow
  build_local_delete_mutation input mutation_id now = record {
    mutation_id = mutation_id;
    entry_id = input.entry_id;
    op = delete;
    status = none;
    blocked_reason = none;
    blocked_encrypted_size_bytes = none;
    blocked_max_file_size_bytes = none;
    base_revision = input.base.revision;
    base_blob_id = input.base.blob_id;
    base_hash = input.base.hash;
    blob_id = none;
    hash = none;
    encrypted_metadata =
        encrypt_metadata (record { path = input.path; hash = none })
          (record {
            entry_id = input.entry_id;
            revision = input.base.revision + 1;
            op = delete;
            blob_id = none;
          });
    created_at = now;
  }

-- replacePendingMutationForEntry: the row for a mutation that is put together elsewhere.
unfoldable pub replaced_row :
    (mutation_id entry_id : String)
    → Op
    → (base_revision : ℕ) → (base_blob_id base_hash blob_id hash : Option String)
    → (encrypted_metadata : String) → (created_at : Option ℕ) → (now : ℕ) → PendingMutationRow
replaced_row mutation_id entry_id op base_revision base_blob_id base_hash blob_id hash
      encrypted_metadata created_at now =
    record {
      mutation_id = mutation_id;
      entry_id = entry_id;
      op = op;
      status = none;
      blocked_reason = none;
      blocked_encrypted_size_bytes = none;
      blocked_max_file_size_bytes = none;
      base_revision = base_revision;
      base_blob_id = base_blob_id;
      base_hash = base_hash;
      blob_id = blob_id;
      hash = hash;
      encrypted_metadata = encrypted_metadata;
      created_at = or_else created_at now;
    }

-- The mutation that the plugin sends.
abbrev pub commit_payload : PendingMutationRow → Mutation
commit_payload q = record {
  mutation_id = q.mutation_id;
  entry_id = q.entry_id;
  op = q.op;
  base_revision = q.base_revision;
  blob_id = q.blob_id;
  encrypted_metadata = q.encrypted_metadata;
}
