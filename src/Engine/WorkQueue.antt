-- ===== src/Engine/WorkQueue.antt =====
-- auto-sync-work-queue.ts of the sync engine: the requests to push and to pull that wait.
use syncali.Prelude.{
  ℕ, max, ◌≡◌, Bool, true, false, not, ◌||◌, ◌&&◌, Option, none, some, List, [], ◌∷◌, All, arith,
  is_some, or_else,
}

pub record PendingSyncWork : Type 0 where
  pub push : Bool
  pub pull_target_cursor : Option ℕ

abbrev pub no_work : PendingSyncWork
no_work = record { push = false; pull_target_cursor = none }

abbrev pub request_push : PendingSyncWork → PendingSyncWork
request_push q = record q { push = true }

unfoldable pub request_pull : Option ℕ → PendingSyncWork → PendingSyncWork
request_pull none q = record q { pull_target_cursor = some (or_else q.pull_target_cursor 0) }
request_pull (some target) q = record q {
  pull_target_cursor = some (max (or_else q.pull_target_cursor 0) target);
}

abbrev pub has_pending_work : PendingSyncWork → Bool
has_pending_work q = q.push || is_some q.pull_target_cursor

unfoldable pub has_runnable_work : (hold_push : Bool) → PendingSyncWork → Bool
has_runnable_work hold_push q = (q.push && not hold_push) || is_some q.pull_target_cursor

-- The work that is taken, and what is left.
unfoldable pub take_pending_work :
    (hold_push : Bool) → PendingSyncWork → PendingSyncWork × PendingSyncWork
take_pending_work hold_push q = (
  record { push = q.push && not hold_push; pull_target_cursor = q.pull_target_cursor },
  record { push = q.push && hold_push; pull_target_cursor = none },
)

abbrev pub clear : PendingSyncWork → PendingSyncWork
clear q = record q { push = false; pull_target_cursor = none }

pub data QueueCall : Type 0 where
  pushes : QueueCall
  pulls : Option ℕ → QueueCall
  takes : (hold_push : Bool) → QueueCall
  clears : QueueCall

-- The works that the calls take or clear away, in order, and the queue behind them.
unfoldable pub queue_history :
    List QueueCall → PendingSyncWork → List PendingSyncWork × PendingSyncWork
unfolding request_pull take_pending_work
queue_history [] q = ([], q)
queue_history (pushes ∷ cs) q = queue_history cs (request_push q)
queue_history (pulls target ∷ cs) q = queue_history cs (request_pull target q)
queue_history (takes hold_push ∷ cs) q =
    let taken = take_pending_work hold_push q in
    let rest = queue_history cs taken.1 in (taken.0 ∷ rest.0, rest.1)
queue_history (clears ∷ cs) q = let rest = queue_history cs (clear q) in (q ∷ rest.0, rest.1)

-- The union of two pieces of work.
abbrev pub later : Option ℕ → Option ℕ → Option ℕ
later none n = n
later (some m) none = some m
later (some m) (some n) = some (max m n)

abbrev pub join_work : PendingSyncWork → PendingSyncWork → PendingSyncWork
join_work a b = record {
  push = a.push || b.push;
  pull_target_cursor = later a.pull_target_cursor b.pull_target_cursor;
}

-- All that the calls ask for.
unfoldable pub requested : List QueueCall → PendingSyncWork
requested [] = no_work
requested (pushes ∷ cs) =
    join_work (record { push = true; pull_target_cursor = none }) (requested cs)
requested (pulls target ∷ cs) =
    join_work (record { push = false; pull_target_cursor = some (or_else target 0) }) (requested cs)
requested (takes hold_push ∷ cs) = requested cs
requested (clears ∷ cs) = requested cs

unfoldable pub all_work : List PendingSyncWork → PendingSyncWork
all_work [] = no_work
all_work (w ∷ ws) = join_work w (all_work ws)

abbrev is_request : QueueCall → Bool
is_request pushes = true
is_request (pulls target) = true
is_request (takes hold_push) = false
is_request clears = false

-- Calls that only ask for work.
abbrev pub AreRequests : List QueueCall → Type 0
AreRequests cs = All (λ c. is_request c ≡ true) cs

-- A push that a take left waiting.
abbrev pub held_push : (hold_push : Bool) → PendingSyncWork → PendingSyncWork
held_push hold_push q = record { push = q.push && hold_push; pull_target_cursor = none }

-- What is taken is not empty exactly when there was work to run, and behind it only a held push is
-- left.
pub take_pending_work-has_runnable_work :
    (hold_push : Bool) (q : PendingSyncWork)
    → (has_pending_work (take_pending_work hold_push q).0 ≡ has_runnable_work hold_push q)
      × (has_pending_work (take_pending_work hold_push q).1 ≡ (q.push && hold_push))
unfolding take_pending_work has_runnable_work
take_pending_work-has_runnable_work hold_push q = ground arith
