-- ===== src/Coordinator/VaultLock/Queue.antt =====
-- The queue that the calls of one vault form, which a new call joins at its end.
use syncali.Prelude.{ℕ, ◌<◌, ◌≤◌, ◌≡◌, ◌≢◌, some, String, false, arith, text_dec, ℕ_discrete}
use syncali.Coordinator.VaultLock.{waiting, VaultLockRegistry, no_calls, enter, is_finished}

abbrev pub Unfinished : VaultLockRegistry → String → ℕ → Type 0
Unfinished s vault call = (s.vault_of call ≡ vault) × (is_finished (s.phase call) ≡ false)

-- A call of a vault that has arrived.
abbrev pub Made : VaultLockRegistry → String → ℕ → Type 0
Made s vault call = (s.vault_of call ≡ vault) × (call < s.calls)

-- `call` waits for a call that has not finished, `first` or a later one.
abbrev pub Waits : VaultLockRegistry → String → ℕ → ℕ → Type 0
Waits s vault first call =
    (before : ℕ) × (s.phase call ≡ waiting)
    × (s.previous call ≡ some before)
    × (first ≤ before)
    × (before < call)
    × Unfinished s vault before

-- Who waits for whom: a call with an unfinished one before it waits, for the same or a later one,
-- and the entry in `tails` is the last call, which has not finished.
pub record IsQueue (s : VaultLockRegistry) : Type 0 where
  pub known : (call : ℕ) → is_finished (s.phase call) ≡ false → call < s.calls
  pub queued :
      (vault : String) (first call : ℕ)
      → first < call
      → Unfinished s vault first
      → Made s vault call
      → Waits s vault first call
  pub linked :
      (call before : ℕ)
      → s.phase call ≡ waiting
      → s.previous call ≡ some before
      → (before < call) × (s.vault_of before ≡ s.vault_of call)
  pub tailed :
      (vault : String) (call : ℕ)
      → Unfinished s vault call
      → (tail : ℕ) × (s.tails vault ≡ some tail) × (call ≤ tail)
  pub listed : (vault : String) (tail : ℕ) → s.tails vault ≡ some tail → Unfinished s vault tail

pub no_calls-IsQueue : IsQueue no_calls
unfolding no_calls
no_calls-IsQueue = record {
  known = λ call open_call. cc;
  queued = λ vault first call before one other. absurd (let h = one.1 in cc);
  linked = λ call before waits. absurd (cc);
  tailed = λ vault call one. absurd (let h = one.1 in cc);
  listed = λ vault tail h. absurd (cc);
}

module _ (vault : String) (s : VaultLockRegistry) (q : IsQueue s) where
  -- Of the calls that were there, a new one changes nothing.
  old_call :
      (v : String) (call : ℕ)
      → call ≢ s.calls
      → Unfinished (enter vault s) v call
      → Unfinished s v call
  unfolding enter
  old_call v call differ h = ground arith

  kept_call : (v : String) (call : ℕ) → Unfinished s v call → Unfinished (enter vault s) v call
  unfolding enter
  kept_call v call h = ground (arith, q.known call)

  new_call :
      (v : String) (call : ℕ) → call ≡ s.calls → Unfinished (enter vault s) v call → vault ≡ v
  unfolding enter
  new_call v call new h = ground arith

  new-Made : (v : String) (call : ℕ) → call ≡ s.calls → Made (enter vault s) v call → vault ≡ v
  unfolding enter
  new-Made v call new h = ground arith

  old-Made : (v : String) (call : ℕ) → call ≢ s.calls → Made (enter vault s) v call → Made s v call
  unfolding enter
  old-Made v call differ h = ground arith

  enter-known :
      (call : ℕ) → is_finished ((enter vault s).phase call) ≡ false → call < (enter vault s).calls
  unfolding enter
  enter-known call h = ground (arith, q.known call)

  enter-queued :
      (v : String) (first call : ℕ)
      → first < call
      → Unfinished (enter vault s) v first
      → Made (enter vault s) v call
      → Waits (enter vault s) v first call
  enter-queued v first call lt one other =
      let old_first : first ≢ s.calls =
        λ e. absurd (let k = other.1 in unfold enter in omega arith) in
      let one' = old_call v first old_first one in
      elim (ℕ_discrete call s.calls) [
        | yes new ↦
            let same_vault = new-Made v call new other in
            let (tail, e, le) = q.tailed v first one' in
            let last = q.listed v tail e in
            (
              tail,
              unfold enter in ground arith,
              unfold enter in ground arith,
              le,
              omega (arith, q.known tail last.1),
              kept_call v tail last,
            )
        | no old ↦
            let (before, waits, e, low, high, held) =
              q.queued v first call lt one' (old-Made v call old other) in
            (
              before,
              unfold enter in ground arith,
              unfold enter in ground arith,
              low,
              high,
              kept_call v before held,
            )
      ]

  enter-tailed :
      (v : String) (call : ℕ)
      → Unfinished (enter vault s) v call
      → (tail : ℕ) × ((enter vault s).tails v ≡ some tail) × (call ≤ tail)
  enter-tailed v call h = elim (ℕ_discrete call s.calls) [
    | yes new ↦
        let same_vault = new_call v call new h in
        (s.calls, unfold enter in ground arith, omega arith)
    | no old ↦
        let (tail, e, le) = q.tailed v call (old_call v call old h) in
        elim (text_dec v vault) [
          | yes here ↦ (
            s.calls,
            unfold enter in ground arith,
            omega (arith, q.known call (old_call v call old h).1),
          )
          | no elsewhere ↦ (tail, unfold enter in ground arith, le)
        ]
  ]

  enter-listed :
      (v : String) (tail : ℕ)
      → (enter vault s).tails v ≡ some tail
      → Unfinished (enter vault s) v tail
  enter-listed v tail h = elim (text_dec v vault) [
    | yes here ↦
        let e : s.calls ≡ tail = unfold enter in ground arith in
        rw (← e) (unfold enter in ground arith)
    | no elsewhere ↦ kept_call v tail (q.listed v tail (unfold enter in ground arith))
  ]

  enter-linked :
      (call before : ℕ)
      → (enter vault s).phase call ≡ waiting
      → (enter vault s).previous call ≡ some before
      → (before < call) × ((enter vault s).vault_of before ≡ (enter vault s).vault_of call)
  enter-linked call before waits e = elim (ℕ_discrete call s.calls) [
    | yes new ↦
        let last = q.listed vault before (unfold enter in ground arith) in
        (omega (arith, q.known before last.1), unfold enter in ground (arith, q.known before))
    | no old ↦
        let waits' : s.phase call ≡ waiting = unfold enter in ground arith in
        let (low, same_vault) = q.linked call before waits' (unfold enter in ground arith) in
        (low, unfold enter in ground (arith, q.known call))
  ]

  pub enter-IsQueue : IsQueue (enter vault s)
  enter-IsQueue = record {
    known = enter-known;
    queued = enter-queued;
    linked = enter-linked;
    tailed = enter-tailed;
    listed = enter-listed;
  }

pub IsQueue-Made :
    {s : VaultLockRegistry} (q : IsQueue s) (vault : String) (call : ℕ)
    → Unfinished s vault call
    → Made s vault call
IsQueue-Made q vault call h = (h.0, q.known call h.1)
