-- ===== src/Coordinator/VaultLock/Examples.antt =====
-- Two calls of one vault and one of another, of which the first is running.
use syncali.Prelude.{ℕ, ◌<◌, ◌≤◌, ◌≡◌, refl, ◌⊎◌, none, some, true, arith, text_dec}
use syncali.Coordinator.VaultLock.{
  VaultLockRegistry, waiting, finished, no_calls, enter, start, is_finished, enters, starts,
  Reached, initially, after,
}
use syncali.Coordinator.VaultLock.Exclusive.{Reached-exclusive}
use syncali.Coordinator.VaultLock.Queue.{Unfinished}
use syncali.Coordinator.VaultLock.Progress.{IsEnabled, Reached-progress}

abbrev queued_registry : VaultLockRegistry
queued_registry = start 0 (enter "b" (enter "a" (enter "a" no_calls)))

queued_registry-Reached : Reached queued_registry
queued_registry-Reached =
    after (after (after (after initially (enters "a")) (enters "a")) (enters "b"))
      (starts 0 (unfold enter no_calls in refl) (unfold enter no_calls text_dec in refl))

vault_test : (call : ℕ) → call < 2 → queued_registry.vault_of call ≡ "a"
unfolding start enter no_calls
vault_test call h = ground arith

calls_test : queued_registry.calls ≡ 3
unfolding start enter no_calls
calls_test = refl

Reached-exclusive_example :
    (queued_registry.phase 0 ≡ finished) ⊎ (queued_registry.phase 1 ≡ waiting)
Reached-exclusive_example =
    Reached-exclusive "a" 0 1 queued_registry-Reached (vault_test 0 (omega arith))
      (vault_test 1 (omega arith)) (omega arith) (omega (arith, calls_test))

Reached-progress_example :
    ((queued_registry.tails "a" ≡ none)
      × ((call : ℕ)
          → queued_registry.vault_of call ≡ "a"
          → is_finished (queued_registry.phase call) ≡ true))
    ⊎ ((tail : ℕ) × (next : ℕ) × (queued_registry.tails "a" ≡ some tail)
        × Unfinished queued_registry "a" tail
        × (queued_registry.vault_of next ≡ "a")
        × (next ≤ tail)
        × IsEnabled queued_registry next)
Reached-progress_example = Reached-progress "a" queued_registry-Reached
