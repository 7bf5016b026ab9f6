-- ===== src/Coordinator/Maintenance/Alarm.antt =====
-- The alarm of maintenance-scheduler.ts stands at the earliest due time through any history.
use syncali.Prelude.{ℕ, String, ◌≡◌, Bool, none, List, [], ◌∷◌}
use syncali.Coordinator.Maintenance.{
  Scheduler, defer, ensure_armed, drain, HandlerResult, read_next_due_at,
}

abbrev pub IsArmed : Scheduler → Type 0
IsArmed s = s.alarm ≡ read_next_due_at s.jobs

abbrev pub Handlers : Type 0 → Type 0
Handlers W = String → ℕ → W × Scheduler → HandlerResult × (W × Scheduler)

-- What happens to the scheduler: a job is deferred, the alarm fires (the platform has cleared it
-- by then) and the jobs are drained, they are drained out of turn, or the alarm is looked after.
pub data SchedulerCall (W : Type 0) : Type 0 where
  defers : (key : String) (due_at now : ℕ) → SchedulerCall W
  fires : Handlers W → ℕ → SchedulerCall W
  drains : Handlers W → ℕ → SchedulerCall W
  looks : SchedulerCall W

module _ {W : Type 0} (key_before : String → String → Bool) where
  unfoldable pub scheduler_call : SchedulerCall W → W × Scheduler → W × Scheduler
  unfolding defer drain ensure_armed
  scheduler_call (defers key due_at now) (w, s) = (w, defer key due_at now s)
  scheduler_call (fires handlers now) (w, s) =
      drain key_before handlers now (w, record s { alarm = none })
  scheduler_call (drains handlers now) (w, s) = drain key_before handlers now (w, s)
  scheduler_call looks (w, s) = (w, ensure_armed s)

  unfoldable pub scheduler_history : List (SchedulerCall W) → W × Scheduler → W × Scheduler
  unfolding scheduler_call
  scheduler_history [] ws = ws
  scheduler_history (c ∷ cs) ws = scheduler_history cs (scheduler_call c ws)
