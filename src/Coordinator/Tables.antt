-- ===== src/Coordinator/Tables.antt =====
-- The coordinator's SQLite tables (apps/api/src/db/do/index.ts). Each table is the list of its
-- rows; numbers are natural, times are milliseconds, and a nullable column is an Option.
use syncali.Prelude.{ℕ, String, Bool, Option, List, none, some, ◌≡◌, refl, ◌⊎◌, inl, inr}

pub data BlobState : Type 0 where
  staged live pending_delete : BlobState

pub data Op : Type 0 where
  upsert delete : Op

pub data EntryVersionReason : Type 0 where
  auto before_delete before_restore manual : EntryVersionReason

pub record Entry : Type 0 where
  pub entry_id : String
  pub revision : ℕ
  pub blob_id : Option String
  pub encrypted_metadata : String
  pub deleted : Bool
  pub updated_seq : ℕ
  pub updated_at : ℕ
  pub updated_by_user_id : String
  pub updated_by_local_vault_id : String
  pub last_mutation_id : Option String

pub record EntryVersion : Type 0 where
  pub version_id : String
  pub entry_id : String
  pub source_revision : ℕ
  pub op_type : Op
  pub blob_id : Option String
  pub encrypted_metadata : String
  pub reason : EntryVersionReason
  pub bucket_start_ms : Option ℕ
  pub captured_at : ℕ
  pub expires_at : ℕ
  pub created_by_user_id : String
  pub created_by_local_vault_id : String

pub record Blob : Type 0 where
  pub blob_id : String
  pub state : BlobState
  pub size_bytes : ℕ
  pub created_at : ℕ
  pub last_uploaded_at : ℕ
  pub delete_after : Option ℕ

-- The row with id 1.
pub record CoordinatorState : Type 0 where
  pub vault_id : String
  pub current_cursor : ℕ
  pub storage_used_bytes : ℕ
  pub storage_limit_bytes : ℕ
  pub max_file_size_bytes : ℕ
  pub version_history_retention_days : ℕ
  pub last_commit_at : Option ℕ
  pub last_gc_at : Option ℕ
  pub last_health_flushed_at : Option ℕ
  pub health_flush_retry_count : ℕ
  pub last_health_flush_error : Option String
  pub last_health_flush_error_at : Option ℕ

pub record LocalVaultConnection : Type 0 where
  pub user_id : String
  pub local_vault_id : String
  pub last_connected_at : ℕ

pub record Tables : Type 0 where
  pub coordinator_state : Option CoordinatorState
  pub entries : List Entry
  pub entry_versions : List EntryVersion
  pub blobs : List Blob
  pub local_vault_connections : List LocalVaultConnection

-- What a store operation may throw. A transaction that throws is rolled back, so an error
-- carries no tables.
pub data StoreError : Type 0 where
  sync_state_uninitialized : StoreError
  not_initialized : StoreError
  vault_id_mismatch : StoreError
  file_too_large : ℕ → ℕ → StoreError
  blob_already_live : String → StoreError
  blob_size_changed : String → ℕ → ℕ → StoreError
  quota_exceeded : ℕ → ℕ → ℕ → StoreError
  no_result : StoreError

pub data Outcome {ℓ} (A : Type ℓ) : Type ℓ where
  throws : StoreError → Outcome A
  ok : A → Outcome A

infixl 5 ◌>>=◌ ◌>>◌
-- What follows a statement that may throw.
abbrev pub ◌>>=◌ {ℓ κ} : {A : Type ℓ} {B : Type κ} → Outcome A → (A → Outcome B) → Outcome B
◌>>=◌ first rest = elim first [ throws e ↦ throws e | ok value ↦ rest value ]

abbrev pub ◌>>◌ {ℓ} : {B : Type ℓ} → Outcome (Unit {0}) → Outcome B → Outcome B
◌>>◌ check rest = elim check [ throws e ↦ throws e | ok _ ↦ rest ]

-- `if (condition) throw e`
abbrev pub throw_if : Bool → StoreError → Outcome (Unit {0})
throw_if Bool.true e = throws e
throw_if Bool.false e = ok tt

abbrev pub or_throw {ℓ} : {A : Type ℓ} → Option A → StoreError → Outcome A
or_throw none e = throws e
or_throw (some a) e = ok a

pub ok-injective {ℓ} : {A : Type ℓ} (a b : A) → ok a ≡ ok b → a ≡ b
ok-injective a b h = cc

-- A sequence that succeeds has a first statement that succeeds, and the rest goes on from its value.
pub ok-split {ℓ κ} :
    {A : Type ℓ} {B : Type κ} (first : Outcome A) (rest : A → Outcome B) {out : B}
    → (first >>= rest) ≡ ok out
    → (value : A) × (first ≡ ok value) × (rest value ≡ ok out)
ok-split (throws e) rest h = cc
ok-split (ok value) rest h = (value, refl, h)

-- The two outcomes, each with its equation.
pub Outcome-cases {ℓ} :
    {A : Type ℓ} (o : Outcome A) → ((e : StoreError) × (o ≡ throws e)) ⊎ ((a : A) × (o ≡ ok a))
Outcome-cases (throws e) = inl (e, refl)
Outcome-cases (ok a) = inr (a, refl)
