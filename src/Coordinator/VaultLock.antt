-- ===== src/Coordinator/VaultLock.antt =====
-- `store/vault-lock.ts`: calls of `VaultLockRegistry.run` in one process, which take turns for each
-- vault. A call is a number in the order of arrival. Its promise `ourTail` resolves when the call
-- releases the next one, so a promise is resolved exactly when its call has finished. What runs
-- without a wait is one step: up to `await previousTail`, the start of `fn` behind it, and the
-- `finally` block.
pub mod Queue
pub mod Exclusive
pub mod Progress
mod Examples
use syncali.Prelude.{
  ℕ, zero, ◌+◌, ◌<◌, ◌≡◌, Option, none, some, String, Bool, true, false, ◌==◌, same, if◌then◌else◌,
}

-- `waiting` at `await previousTail`, `running` in `fn`, which may also throw, `finished` behind it.
pub data Phase : Type 0 where
  waiting running finished : Phase

-- `previous` is the promise that a call found in `tails`, or none for `Promise.resolve()`.
pub record VaultLockRegistry : Type 0 where
  pub calls : ℕ
  pub vault_of : ℕ → String
  pub previous : ℕ → Option ℕ
  pub phase : ℕ → Phase
  pub tails : String → Option ℕ

abbrev pub set_call {ℓ} : {A : Type ℓ} → (ℕ → A) → ℕ → A → ℕ → A
set_call f call a = λ other. if other == call then a else f other

abbrev pub set_tail : (String → Option ℕ) → String → Option ℕ → String → Option ℕ
set_tail tails vault tail = λ other. if same other vault then tail else tails other

unfoldable pub no_calls : VaultLockRegistry
no_calls = record {
  calls = 0;
  vault_of = λ call. "";
  previous = λ call. none;
  phase = λ call. finished;
  tails = λ vault. none;
}

-- A call of `run`, up to its wait.
unfoldable pub enter : String → VaultLockRegistry → VaultLockRegistry
enter vault s = record {
  calls = s.calls + 1;
  vault_of = set_call s.vault_of s.calls vault;
  previous = set_call s.previous s.calls (s.tails vault);
  phase = set_call s.phase s.calls waiting;
  tails = set_tail s.tails vault (some s.calls);
}

abbrev pub is_finished : Phase → Bool
is_finished waiting = false
is_finished running = false
is_finished finished = true

abbrev pub is_resolved : VaultLockRegistry → Option ℕ → Bool
is_resolved s none = true
is_resolved s (some call) = is_finished (s.phase call)

unfoldable pub start : ℕ → VaultLockRegistry → VaultLockRegistry
start call s = record s { phase = set_call s.phase call running }

abbrev pub is_tail : Option ℕ → ℕ → Bool
is_tail none call = false
is_tail (some tail) call = tail == call

-- The `finally` block: the next call is released, and the last call takes its entry away.
unfoldable pub finish : ℕ → VaultLockRegistry → VaultLockRegistry
finish call s =
    let vault = s.vault_of call in
    record s {
      phase = set_call s.phase call finished;
      tails = if is_tail (s.tails vault) call then set_tail s.tails vault none else s.tails;
    }

-- The steps, in any interleaving.
pub data Step (s : VaultLockRegistry) : VaultLockRegistry → Type 0 where
  enters : (vault : String) → Step s (enter vault s)
  starts :
      (call : ℕ)
      → s.phase call ≡ waiting
      → is_resolved s (s.previous call) ≡ true
      → Step s (start call s)
  finishes : (call : ℕ) → s.phase call ≡ running → Step s (finish call s)

pub data Reached : VaultLockRegistry → Type 0 where
  initially : Reached no_calls
  after : {s t : VaultLockRegistry} → Reached s → Step s t → Reached t
