-- ===== src/Coordinator/Maintenance.antt =====
-- maintenance-scheduler.ts of the coordinator: the table of jobs, and the one alarm that is set for
-- the first of them. `setAlarm`, `getAlarm` and `deleteAlarm` are the field `alarm`; the order that
-- SQL gives to keys is a parameter, and a handler is a function of the scheduler and of the state
-- that it works on, since a handler may defer jobs itself.
pub mod Times
pub mod Defer
pub mod Alarm
mod Examples
use mathlib.Core.Logic.{ite}
use syncali.Prelude.{
  ℕ, zero, suc, ◌+◌, ◌-◌, ◌*◌, ◌/◌, ◌^◌, min, max, String, Bool, true, false, ◌&&◌, ◌||◌, Option,
  none, some, List, [], ◌∷◌, ltb, leb, ◌==◌, if◌then◌else◌, same, select_first, select_where,
  delete_where, update_where, upsert_where, ℕ_discrete,
}

unfoldable pub max_drained_jobs_per_alarm : ℕ
max_drained_jobs_per_alarm = 16

unfoldable pub maintenance_retry_min_ms : ℕ
maintenance_retry_min_ms = 30 * 1000

unfoldable pub maintenance_retry_max_ms : ℕ
maintenance_retry_max_ms = 15 * 60 * 1000

unfoldable pub blob_gc_alarm_bucket_ms : ℕ
blob_gc_alarm_bucket_ms = 30 * 60 * 1000

abbrev pub blob_gc : String
blob_gc = "blob_gc"

abbrev pub health_summary_flush : String
health_summary_flush = "health_summary_flush"

-- A row of maintenance_jobs.
pub record MaintenanceJob : Type 0 where
  pub key : String
  pub due_at : ℕ
  pub retry_count : ℕ
  pub last_error : Option String
  pub last_error_at : Option ℕ
  pub updated_at : ℕ

pub record Scheduler : Type 0 where
  pub jobs : List MaintenanceJob
  pub alarm : Option ℕ

abbrev pub is_maintenance_job_key : String → Bool
is_maintenance_job_key key = same key blob_gc || same key health_summary_flush

-- min(max_ms, min_ms * 2 ** max(0, retry_count - 1))
unfoldable pub maintenance_retry_delay_ms : ℕ → ℕ
unfolding maintenance_retry_min_ms maintenance_retry_max_ms
maintenance_retry_delay_ms retry_count =
    min maintenance_retry_max_ms (maintenance_retry_min_ms * 2 ^ (retry_count - 1))

-- ceil(due_at / bucket) * bucket
unfoldable pub maintenance_job_due_at : String → ℕ → ℕ
unfolding blob_gc_alarm_bucket_ms
maintenance_job_due_at key due_at =
    if same key blob_gc
    then (due_at + (blob_gc_alarm_bucket_ms - 1))
      / blob_gc_alarm_bucket_ms
      * blob_gc_alarm_bucket_ms
    else due_at

unfoldable pub read_job : String → List MaintenanceJob → Option MaintenanceJob
unfolding select_first
read_job key jobs = elim (select_first (λ j. same j.key key) jobs) [
  | none ↦ none
  | some j ↦ if is_maintenance_job_key j.key then some j else none
]

-- The least due time.
unfoldable pub read_next_due_at : List MaintenanceJob → Option ℕ
read_next_due_at [] = none
read_next_due_at (j ∷ js) = elim (read_next_due_at js) [
  | none ↦ some j.due_at
  | some d ↦ some (min j.due_at d)
]

unfoldable pub delete_job : String → List MaintenanceJob → List MaintenanceJob
unfolding delete_where
delete_job key jobs = delete_where (λ j. same j.key key) jobs

unfoldable pub defer_row : String → ℕ → ℕ → List MaintenanceJob → List MaintenanceJob
unfolding upsert_where
defer_row key scheduled now jobs =
    upsert_where (λ j. same j.key key)
      (λ j. record j { due_at = min j.due_at scheduled; updated_at = now })
      (record {
        key = key;
        due_at = scheduled;
        retry_count = 0;
        last_error = none;
        last_error_at = none;
        updated_at = now;
      })
      jobs

unfoldable pub reschedule_job : String → ℕ → ℕ → List MaintenanceJob → List MaintenanceJob
unfolding upsert_where maintenance_job_due_at
reschedule_job key due_at now jobs =
    upsert_where (λ j. same j.key key)
      (λ j. record j {
        due_at = maintenance_job_due_at key due_at;
        retry_count = 0;
        last_error = none;
        last_error_at = none;
        updated_at = now;
      })
      (record {
        key = key;
        due_at = maintenance_job_due_at key due_at;
        retry_count = 0;
        last_error = none;
        last_error_at = none;
        updated_at = now;
      })
      jobs

unfoldable pub reschedule_failed_job :
    MaintenanceJob → String → ℕ → List MaintenanceJob → List MaintenanceJob
unfolding update_where maintenance_retry_delay_ms
reschedule_failed_job job error now jobs =
    update_where (λ j. same j.key job.key)
      (λ j. record j {
        due_at = now + maintenance_retry_delay_ms (job.retry_count + 1);
        retry_count = job.retry_count + 1;
        last_error = some error;
        last_error_at = some now;
        updated_at = now;
      })
      jobs

unfoldable pub rearm : Scheduler → Scheduler
unfolding read_next_due_at
rearm s = elim (read_next_due_at s.jobs) [
  | none ↦ record s { alarm = none }
  | some next ↦ elim s.alarm [
    | none ↦ record s { alarm = some next }
    | some existing ↦ if existing == next then s else record s { alarm = some next }
  ]
]

unfoldable pub ensure_armed : Scheduler → Scheduler
unfolding read_next_due_at
ensure_armed s = elim (read_next_due_at s.jobs) [
  | none ↦ s
  | some next ↦ elim s.alarm [
    | none ↦ record s { alarm = some next }
    | some existing ↦ if ltb next existing then record s { alarm = some next } else s
  ]
]

unfoldable pub defer : String → ℕ → ℕ → Scheduler → Scheduler
unfolding read_job defer_row rearm maintenance_job_due_at
defer key due_at now s =
    let scheduled = maintenance_job_due_at key due_at in
    let deferred = rearm (record s { jobs = defer_row key scheduled now s.jobs }) in
    elim (read_job key s.jobs) [
      | none ↦ deferred
      | some existing ↦ if leb existing.due_at scheduled then s else deferred
    ]

-- What a handler comes back with: an error's text, no further run, or the time of the next one.
pub data HandlerResult : Type 0 where
  failed : String → HandlerResult
  finished : HandlerResult
  due_again : ℕ → HandlerResult

abbrev pub settle : MaintenanceJob → ℕ → HandlerResult → List MaintenanceJob → List MaintenanceJob
settle job now (failed error) jobs = reschedule_failed_job job error now jobs
settle job now finished jobs = delete_job job.key jobs
settle job now (due_again next) jobs = reschedule_job job.key next now jobs

module _ (key_before : String → String → Bool) where
  -- ORDER BY due_at ASC, key ASC
  abbrev before : MaintenanceJob → MaintenanceJob → Bool
  before j k = ltb j.due_at k.due_at || (j.due_at == k.due_at && key_before j.key k.key)

  unfoldable earliest : List MaintenanceJob → Option MaintenanceJob
  earliest [] = none
  earliest (j ∷ js) = elim (earliest js) [
    | none ↦ some j
    | some k ↦ if before k j then some k else some j
  ]

  unfoldable pub read_next_due_job : ℕ → List MaintenanceJob → Option MaintenanceJob
  unfolding earliest select_where
  read_next_due_job now jobs = elim (earliest (select_where (λ j. leb j.due_at now) jobs)) [
    | none ↦ none
    | some j ↦ if is_maintenance_job_key j.key then some j else none
  ]

  module _ {W : Type 0}
      (handlers : String → ℕ → W × Scheduler → HandlerResult × (W × Scheduler)) where
    -- The loop of `drain`, which takes `left` jobs at most.
    unfoldable pub drain_jobs : (left now : ℕ) → W × Scheduler → W × Scheduler
    unfolding read_next_due_job reschedule_failed_job delete_job reschedule_job
    drain_jobs zero now (w, s) = (w, s)
    drain_jobs (suc left) now (w, s) = elim (read_next_due_job now s.jobs) [
      | none ↦ (w, s)
      | some job ↦
          let run = handlers job.key now (w, s) in
          drain_jobs left now
            (run.1.0, record (run.1.1) { jobs = settle job now run.0 run.1.1.jobs })
    ]

    unfoldable pub drain : ℕ → W × Scheduler → W × Scheduler
    unfolding drain_jobs rearm max_drained_jobs_per_alarm
    drain now (w, s) =
        let done = drain_jobs max_drained_jobs_per_alarm now (w, s) in (done.0, rearm done.1)
