-- ===== src/Coordinator/VaultLock/Progress.antt =====
-- No vault is locked for good: one of its calls can always take its next step, and the registry
-- keeps nothing of a vault whose calls have all finished.
use syncali.Prelude.{
  ℕ, zero, suc, ◌<◌, ◌≤◌, ◌≡◌, refl, sym, ◌∙◌, ◌⊎◌, inl, inr, none, some, String, true, false,
  arith, Bool-cases, Option-cases,
}
use syncali.Coordinator.VaultLock.{
  Phase, waiting, running, finished, VaultLockRegistry, is_finished, is_resolved, Reached,
}
use syncali.Coordinator.VaultLock.Exclusive.{Reached-IsQueue}
use syncali.Coordinator.VaultLock.Queue.{IsQueue, Unfinished}

-- A call whose `fn` runs, or that waits for nothing any more.
abbrev pub IsEnabled : VaultLockRegistry → ℕ → Type 0
IsEnabled s call =
    (s.phase call ≡ running) ⊎ ((s.phase call ≡ waiting) × (is_resolved s (s.previous call) ≡ true))

open_phase : (p : Phase) → is_finished p ≡ false → (p ≡ running) ⊎ (p ≡ waiting)
open_phase waiting h = inr refl
open_phase running h = inl refl
open_phase finished h = absurd (cc)

IsEnabled-before :
    (s : VaultLockRegistry) (q : IsQueue s) (vault : String) (bound call : ℕ)
    → call < bound
    → Unfinished s vault call
    → (next : ℕ) × (s.vault_of next ≡ vault) × (next ≤ call) × IsEnabled s next
IsEnabled-before s q vault zero call lt h = elim lt [ ]
IsEnabled-before s q vault (suc bound) call lt h = elim (open_phase (s.phase call) h.1) [
  | inl runs ↦ (call, h.0, omega arith, inl runs)
  | inr waits ↦ elim (Option-cases (s.previous call)) [
    | inl free ↦ (call, h.0, omega arith, inr (waits, rw free refl))
    | inr (before, e) ↦ elim (Bool-cases (is_finished (s.phase before))) [
      | inl done ↦ (call, h.0, omega arith, inr (waits, rw e done))
      | inr open_call ↦
          let (low, same_vault) = q.linked call before waits e in
          let (next, there, le, enabled) =
            IsEnabled-before s q vault bound before (omega arith) (same_vault ∙ h.0, open_call) in
          (next, there, omega arith, enabled)
    ]
  ]
]

-- In every reachable state, a vault has an entry in `tails` exactly while one of its calls has not
-- finished, and then some call of this vault, and none behind the entry's, runs or can start.
pub Reached-progress :
    {s : VaultLockRegistry} (vault : String)
    → Reached s
    → ((s.tails vault ≡ none)
        × ((call : ℕ) → s.vault_of call ≡ vault → is_finished (s.phase call) ≡ true))
      ⊎ ((tail : ℕ) × (next : ℕ) × (s.tails vault ≡ some tail)
          × Unfinished s vault tail
          × (s.vault_of next ≡ vault)
          × (next ≤ tail)
          × IsEnabled s next)
Reached-progress {s} vault r =
    let q = Reached-IsQueue r in
    elim (Option-cases (s.tails vault)) [
      | inl idle ↦ inl (
        idle,
        λ call here. elim (Bool-cases (is_finished (s.phase call))) [
          | inl done ↦ done
          | inr open_call ↦
              let (tail, e, le) = q.tailed vault call (here, open_call) in
              absurd (let k = sym idle ∙ e in cc)
        ],
      )
      | inr (tail, e) ↦
          let last = q.listed vault tail e in
          let (next, there, le, enabled) =
            IsEnabled-before s q vault (suc tail) tail (omega arith) last in
          inr (tail, next, e, last, there, le, enabled)
    ]
