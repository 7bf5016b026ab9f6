-- ===== src/Coordinator/VaultLock/Exclusive.antt =====
-- The calls of one vault take turns in the order of their arrival.
use syncali.Prelude.{
  ℕ, ◌<◌, ◌≤◌, ◌≡◌, ◌≢◌, refl, ◌∙◌, ◌⊎◌, inl, inr, some, String, true, arith, Bool-cases,
  ℕ_discrete,
}
use syncali.Coordinator.VaultLock.{
  Phase, waiting, running, finished, VaultLockRegistry, is_finished, is_resolved, start, finish,
  enters, starts, finishes, Reached, initially, after,
}
use syncali.Coordinator.VaultLock.Queue.{
  Unfinished, Made, Waits, IsQueue, IsQueue-Made, no_calls-IsQueue, enter-IsQueue,
}

module _ (c : ℕ) (s : VaultLockRegistry) (q : IsQueue s) where
  -- A step of a call that has not finished leaves the others as they are.
  module _ (waits : s.phase c ≡ waiting) (turn : is_resolved s (s.previous c) ≡ true) where
    back_start : (v : String) (call : ℕ) → Unfinished (start c s) v call → Unfinished s v call
    unfolding start
    back_start v call h = ground arith

    forth_start : (v : String) (call : ℕ) → Unfinished s v call → Unfinished (start c s) v call
    unfolding start
    forth_start v call h = ground arith

    -- A call whose turn it is has no unfinished call before it.
    first_start : (v : String) (first : ℕ) → first < c → Unfinished s v first → s.vault_of c ≡ v → ⊥
    first_start v first lt one here =
        let mine : Unfinished s v c = (here, ground arith) in
        let (before, still, e, low, high, held) =
          q.queued v first c lt one (IsQueue-Made q v c mine) in
        let done : is_finished (s.phase before) ≡ true = ground arith in
        absurd (let open_call = held.1 in cc)

    start-queued :
        (v : String) (first call : ℕ)
        → first < call
        → Unfinished (start c s) v first
        → Made (start c s) v call
        → Waits (start c s) v first call
    start-queued v first call lt one other = elim (ℕ_discrete call c) [
      | yes here ↦ absurd (
          first_start v first (omega arith) (back_start v first one)
            (let k = other.0 in unfold start in ground arith))
      | no elsewhere ↦
          let (before, still, e, low, high, held) =
            q.queued v first call lt (back_start v first one) (unfold start in other) in
          (
            before,
            unfold start in ground arith,
            unfold start in e,
            low,
            high,
            forth_start v before held,
          )
    ]

    start-IsQueue : IsQueue (start c s)
    start-IsQueue = record {
      known = λ call h. unfold start in ground (arith, q.known call);
      queued = start-queued;
      linked = λ call before still e.
          unfold start in q.linked call before (unfold start in ground arith) e;
      tailed = λ v call h. unfold start in q.tailed v call (back_start v call h);
      listed = λ v tail h. forth_start v tail (q.listed v tail (unfold start in h));
    }

  module _ (runs : s.phase c ≡ running) where
    back_finish :
        (v : String) (call : ℕ) → Unfinished (finish c s) v call → Unfinished s v call × (call ≢ c)
    unfolding finish
    back_finish v call h = (ground arith, λ e. absurd (ground arith))

    forth_finish :
        (v : String) (call : ℕ) → call ≢ c → Unfinished s v call → Unfinished (finish c s) v call
    unfolding finish
    forth_finish v call differ h = ground arith

    finish-queued :
        (v : String) (first call : ℕ)
        → first < call
        → Unfinished (finish c s) v first
        → Made (finish c s) v call
        → Waits (finish c s) v first call
    finish-queued v first call lt one other =
        let (one', first_differs) = back_finish v first one in
        let (before, still, e, low, high, held) =
          q.queued v first call lt one' (unfold finish in other) in
        let not_running : before ≢ c = λ same. elim (ℕ_discrete first before) [
          | yes equal ↦ first_differs (equal ∙ same)
          | no less ↦
              let k =
                (q.queued v first before (omega arith) one' (IsQueue-Made q v before held)).1 in
              absurd (ground arith)
        ] in
        (
          before,
          unfold finish in ground arith,
          unfold finish in e,
          low,
          high,
          forth_finish v before not_running held,
        )

    -- The entry of a vault is taken away only behind its last call.
    finish-tailed :
        (v : String) (call : ℕ)
        → Unfinished (finish c s) v call
        → (tail : ℕ) × ((finish c s).tails v ≡ some tail) × (call ≤ tail)
    finish-tailed v call h =
        let (held, differ) = back_finish v call h in
        let (tail, e, le) = q.tailed v call held in
        let last = q.listed v tail e in
        let not_running : tail ≢ c = λ same.
          let k = (q.queued v call tail (omega arith) held (IsQueue-Made q v tail last)).1 in
          absurd (ground arith) in
        (tail, unfold finish in ground arith, le)

    finish-listed :
        (v : String) (tail : ℕ) → (finish c s).tails v ≡ some tail → Unfinished (finish c s) v tail
    finish-listed v tail h =
        let e : s.tails v ≡ some tail = unfold finish in ground arith in
        let last = q.listed v tail e in
        forth_finish v tail (λ same. absurd (unfold finish in ground arith)) last

    finish-IsQueue : IsQueue (finish c s)
    finish-IsQueue = record {
      known = λ call h. unfold finish in ground (arith, q.known call);
      queued = finish-queued;
      linked = λ call before still e.
          unfold finish in q.linked call before (unfold finish in ground arith) e;
      tailed = finish-tailed;
      listed = finish-listed;
    }

pub Reached-IsQueue : {s : VaultLockRegistry} → Reached s → IsQueue s
Reached-IsQueue initially = no_calls-IsQueue
Reached-IsQueue (after {s} r (enters vault)) = enter-IsQueue vault s (Reached-IsQueue r)
Reached-IsQueue (after {s} r (starts call waits turn)) =
    start-IsQueue call s (Reached-IsQueue r) waits turn
Reached-IsQueue (after {s} r (finishes call runs)) = finish-IsQueue call s (Reached-IsQueue r) runs

finished_lem : (p : Phase) → is_finished p ≡ true → p ≡ finished
finished_lem waiting h = absurd (cc)
finished_lem running h = absurd (cc)
finished_lem finished h = refl

-- Whatever calls arrive, start and finish in whatever order: of two calls of one vault, the first
-- has finished or the second waits. So at most one call of a vault runs at a time, and they run in
-- the order of their arrival.
pub Reached-exclusive :
    {s : VaultLockRegistry} (vault : String) (first second : ℕ)
    → Reached s
    → s.vault_of first ≡ vault
    → s.vault_of second ≡ vault
    → first < second
    → second < s.calls
    → (s.phase first ≡ finished) ⊎ (s.phase second ≡ waiting)
Reached-exclusive {s} vault first second r here there lt arrived =
    elim (Bool-cases (is_finished (s.phase first))) [
      | inl done ↦ inl (finished_lem (s.phase first) done)
      | inr open_call ↦
          inr (
            ((Reached-IsQueue r).queued vault first second lt (here, open_call) (there, arrived)).1)
    ]
