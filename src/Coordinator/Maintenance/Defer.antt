-- ===== src/Coordinator/Maintenance/Defer.antt =====
-- `defer` of maintenance-scheduler.ts: when the jobs are due after it.
use syncali.Prelude.{
  ℕ, min, String, ◌≡◌, ◌∙◌, refl, sym, ap, false, Option, none, some, List, [], ◌∷◌, arith, leb,
  if◌then◌else◌, same, select_first, upsert_where, Bool-cases, Option-cases, inl, inr,
}
use syncali.Coordinator.Maintenance.{
  MaintenanceJob, Scheduler, defer, defer_row, read_job, rearm, maintenance_job_due_at,
}

-- When the job of a key is due, if there is one.
unfoldable pub due_of : String → List MaintenanceJob → Option ℕ
due_of key [] = none
due_of key (j ∷ js) = let rest = due_of key js in if same j.key key then some j.due_at else rest

-- The earlier of the two.
abbrev pub earlier : ℕ → Option ℕ → ℕ
earlier d none = d
earlier d (some e) = min e d

module _ (key : String) (scheduled now : ℕ) where
  defer_row-due_of :
      (jobs : List MaintenanceJob)
      → due_of key (defer_row key scheduled now jobs) ≡ some (earlier scheduled (due_of key jobs))
  unfolding due_of defer_row upsert_where
  defer_row-due_of [] = ground arith
  defer_row-due_of (j ∷ js) = ground (arith, defer_row-due_of js)

  defer_row-other :
      (other : String) (jobs : List MaintenanceJob)
      → same key other ≡ false
      → due_of other (defer_row key scheduled now jobs) ≡ due_of other jobs
  unfolding due_of defer_row upsert_where
  defer_row-other other [] h = ground arith
  defer_row-other other (j ∷ js) h = ground (arith, defer_row-other other js h)

rearm-jobs : (s : Scheduler) → (rearm s).jobs ≡ s.jobs
unfolding rearm
rearm-jobs s = ground arith

read_job-due_of :
    (key : String) (jobs : List MaintenanceJob) (j : MaintenanceJob)
    → read_job key jobs ≡ some j
    → due_of key jobs ≡ some j.due_at
unfolding read_job due_of select_first
read_job-due_of key [] j h = ground arith
read_job-due_of key (k ∷ js) j h = ground (arith, read_job-due_of key js j)

-- Both facts of the table that is written.
written :
    (key : String) (due_at now : ℕ) (s : Scheduler)
    → let scheduled = maintenance_job_due_at key due_at in
      let jobs = (rearm (record s { jobs = defer_row key scheduled now s.jobs })).jobs in
      (due_of key jobs ≡ some (earlier scheduled (due_of key s.jobs)))
      × ((other : String) → same key other ≡ false → due_of other jobs ≡ due_of other s.jobs)
written key due_at now s =
    let scheduled = maintenance_job_due_at key due_at in
    let kept = rearm-jobs (record s { jobs = defer_row key scheduled now s.jobs }) in
    (
      ap (due_of key) kept ∙ defer_row-due_of key scheduled now s.jobs,
      λ other h. ap (due_of other) kept ∙ defer_row-other key scheduled now other s.jobs h,
    )

pub defer_lem :
    (key : String) (due_at now : ℕ) (s : Scheduler)
    → (due_of key (defer key due_at now s).jobs
        ≡ some (earlier (maintenance_job_due_at key due_at) (due_of key s.jobs)))
      × ((other : String)
          → same key other ≡ false
          → due_of other (defer key due_at now s).jobs ≡ due_of other s.jobs)
unfolding defer
defer_lem key due_at now s = elim (Option-cases (read_job key s.jobs)) [
  | inl none_yet ↦ rw (none_yet, defer) (written key due_at now s)
  | inr (j, known) ↦
      rw (known, defer)
        (elim (Bool-cases (leb j.due_at (maintenance_job_due_at key due_at))) [
          | inl sooner ↦ rw sooner (
            read_job-due_of key s.jobs j known
                ∙ ap some (ground arith)
                ∙ ap (λ o. some (earlier (maintenance_job_due_at key due_at) o))
                    (sym (read_job-due_of key s.jobs j known)),
            λ other h. refl,
          )
          | inr later ↦ rw (later, defer) (written key due_at now s)
        ])
]

-- After a job is deferred it is due at the asked time, rounded for the collector, or at the time
-- that it was due at already, if that is earlier; any other job is due when it was.
pub defer-due_of :
    (key other : String) (due_at now : ℕ) (s : Scheduler)
    → same key other ≡ false
    → (due_of key (defer key due_at now s).jobs
        ≡ some (earlier (maintenance_job_due_at key due_at) (due_of key s.jobs)))
      × (due_of other (defer key due_at now s).jobs ≡ due_of other s.jobs)
defer-due_of key other due_at now s h =
    ((defer_lem key due_at now s).0, (defer_lem key due_at now s).1 other h)
