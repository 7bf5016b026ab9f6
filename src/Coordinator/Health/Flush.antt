-- ===== src/Coordinator/Health/Flush.antt =====
-- health/sync-service.ts of the coordinator: when the summary is written. The repository of the
-- summaries is outside: `upsert` is the text of the error that the write ends in, if it fails.

use syncali.Prelude.{
  ℕ, ◌+◌, ◌*◌, ◌≤◌, ◌≡◌, ◌∙◌, refl, sym, ap, String, Bool, true, false, Option, none, some, arith,
  leb, if◌then◌else◌, Bool-cases, Option-cases, subst, text_dec, inl, inr,
}
use syncali.Coordinator.Tables.{Tables}
use syncali.Coordinator.Maintenance.{Scheduler, defer, health_summary_flush, maintenance_job_due_at}
use syncali.Coordinator.Maintenance.Defer.{due_of, earlier, defer_lem}
use syncali.Coordinator.Health.{
  VaultSyncStatusSummary, read_health_summary, record_health_summary_flushed,
  record_health_summary_flush_failed, next_health_summary_flush_at,
}

unfoldable pub default_health_summary_flush_delay_ms : ℕ
default_health_summary_flush_delay_ms = 10 * 60 * 1000

-- The service's own field and the two stores that it works on.
pub record HealthSync : Type 0 where
  pub scheduled_flush_at : Option ℕ
  pub scheduler : Scheduler
  pub tables : Tables

unfoldable pub schedule_summary_flush : ℕ → HealthSync → HealthSync
unfolding default_health_summary_flush_delay_ms
schedule_summary_flush now h =
    let flush_at = now + default_health_summary_flush_delay_ms in
    let deferred = record h {
      scheduled_flush_at = some flush_at;
      scheduler = defer health_summary_flush flush_at now h.scheduler;
    } in
    elim h.scheduled_flush_at [
      | none ↦ deferred
      | some at ↦ if leb at flush_at then h else deferred
    ]

-- What the call ends in: the time of the next flush, or the error that is thrown on.
pub data FlushResult : Type 0 where
  next_due : Option ℕ → FlushResult
  flush_throws : String → FlushResult

-- The next flush, and the job for it.
abbrev set_next : Option ℕ → ℕ → HealthSync → HealthSync
set_next none now h = record h { scheduled_flush_at = none }
set_next (some due) now h = record h {
  scheduled_flush_at = some due;
  scheduler = defer health_summary_flush due now h.scheduler;
}

abbrev flush_written : ℕ → VaultSyncStatusSummary → HealthSync → FlushResult × HealthSync
flush_written now summary h =
    let next = next_health_summary_flush_at summary now in
    (
      next_due next,
      set_next next now (record h { tables = record_health_summary_flushed now h.tables }),
    )

abbrev flush_failed : String → Bool → ℕ → HealthSync → FlushResult × HealthSync
flush_failed error throw_on_error now h =
    let failed = record h {
      scheduled_flush_at = none;
      tables = record_health_summary_flush_failed error now h.tables;
    } in
    if throw_on_error then (flush_throws error, failed) else (
      next_due none,
      record failed { scheduler = defer health_summary_flush now now h.scheduler },
    )

unfoldable pub flush_summary :
    (has_repository : Bool)
    → (upsert : Option String) → (throw_on_error : Bool) → (now active_cursor_ttl_ms sockets : ℕ)
    → HealthSync
    → FlushResult × HealthSync
unfolding next_health_summary_flush_at
flush_summary has_repository upsert throw_on_error now ttl sockets h =
    if has_repository
    then elim (read_health_summary h.tables now ttl sockets) [
      | none ↦ (next_due none, h)
      | some summary ↦ elim upsert [
        | none ↦ flush_written now summary h
        | some error ↦ flush_failed error throw_on_error now h
      ]
    ]
    else (next_due none, h)

abbrev pub AtMost : Option ℕ → ℕ → Type 0
AtMost none d = ⊥
AtMost (some n) d = n ≤ d

abbrev Tracks : Option ℕ → Scheduler → Type 0
Tracks none s = Unit
Tracks (some at) s = AtMost (due_of health_summary_flush s.jobs) at

-- If the service takes a flush for scheduled, there is a job that is due by then.
abbrev pub IsTracked : HealthSync → Type 0
IsTracked h = Tracks h.scheduled_flush_at h.scheduler

earlier-AtMost : (d : ℕ) (o : Option ℕ) → AtMost (some (earlier d o)) d
earlier-AtMost d none = omega arith
earlier-AtMost d (some e) = omega arith

AtMost-le : (o : Option ℕ) (d e : ℕ) → d ≤ e → AtMost o d → AtMost o e
AtMost-le none d e h k = k
AtMost-le (some n) d e h k = omega arith

not_bucketed : (due : ℕ) → maintenance_job_due_at health_summary_flush due ≡ due
unfolding maintenance_job_due_at text_dec
not_bucketed due = refl

flush_due :
    (due now : ℕ) (s : Scheduler)
    → AtMost (due_of health_summary_flush (defer health_summary_flush due now s).jobs) due
flush_due due now s =
    subst (λ o. AtMost o due)
      (sym (
        (defer_lem health_summary_flush due now s).0
        ∙ ap (λ d. some (earlier d (due_of health_summary_flush s.jobs))) (not_bucketed due)))
      (earlier-AtMost due (due_of health_summary_flush s.jobs))

-- After a change, the summary is due for a flush within ten minutes, whether this call sets the
-- flush or finds one, and the service goes on to know of a job for every flush that it takes for
-- scheduled.
pub schedule_summary_flush-IsTracked :
    (now : ℕ) (h : HealthSync)
    → IsTracked h
    → IsTracked (schedule_summary_flush now h)
      × AtMost
          (due_of health_summary_flush (schedule_summary_flush now h).scheduler.jobs)
          (now + default_health_summary_flush_delay_ms)
unfolding schedule_summary_flush
schedule_summary_flush-IsTracked now h t =
    let flush_at = now + default_health_summary_flush_delay_ms in
    let set = flush_due flush_at now h.scheduler in
    elim (Option-cases h.scheduled_flush_at) [
      | inl e ↦ rw (e, schedule_summary_flush) (set, set)
      | inr (at, e) ↦ elim (Bool-cases (leb at flush_at)) [
        | inl sooner ↦
            rw (e, schedule_summary_flush)
              (rw (sooner, schedule_summary_flush)
                (
                  t,
                  AtMost-le (due_of health_summary_flush h.scheduler.jobs) at flush_at
                      (ground arith) (subst (λ o. Tracks o h.scheduler) e t),
                ))
        | inr later ↦ rw (e, schedule_summary_flush) (rw (later, schedule_summary_flush) (set, set))
      ]
    ]

set_next-IsTracked : (next : Option ℕ) (now : ℕ) (h : HealthSync) → IsTracked (set_next next now h)
set_next-IsTracked none now h = tt
set_next-IsTracked (some due) now h = flush_due due now h.scheduler

-- What a flush ends in. A flush that is written leaves a job that is due by the next flush, if there
-- is one. A flush that fails leaves a job that is due at once, unless the caller wants the error.
abbrev pub IsFlushed :
    (upsert : Option String)
    → (throw_on_error : Bool) → ℕ
    → VaultSyncStatusSummary
    → HealthSync
    → FlushResult × HealthSync
    → Type 0
IsFlushed none throw_on_error now summary h (result, after) =
    (result ≡ next_due (next_health_summary_flush_at summary now))
    × (after.scheduled_flush_at ≡ next_health_summary_flush_at summary now)
    × IsTracked after
    × (after.tables ≡ record_health_summary_flushed now h.tables)
IsFlushed (some error) false now summary h (result, after) =
    (result ≡ next_due none)
    × (after.scheduled_flush_at ≡ none)
    × AtMost (due_of health_summary_flush after.scheduler.jobs) now
    × (after.tables ≡ record_health_summary_flush_failed error now h.tables)
IsFlushed (some error) true now summary h (result, after) =
    (result ≡ flush_throws error)
    × (after.scheduled_flush_at ≡ none)
    × (due_of health_summary_flush after.scheduler.jobs
        ≡ due_of health_summary_flush h.scheduler.jobs)
    × (after.tables ≡ record_health_summary_flush_failed error now h.tables)

set_next-scheduled :
    (next : Option ℕ) (now : ℕ) (h : HealthSync)
    → ((set_next next now h).scheduled_flush_at ≡ next) × ((set_next next now h).tables ≡ h.tables)
set_next-scheduled none now h = (refl, refl)
set_next-scheduled (some due) now h = (refl, refl)

-- The result of the write, whether it fails or not.
abbrev after_write :
    Option String → Bool → ℕ → VaultSyncStatusSummary → HealthSync → FlushResult × HealthSync
after_write none throw_on_error now summary h = flush_written now summary h
after_write (some error) throw_on_error now summary h = flush_failed error throw_on_error now h

after_write-IsFlushed :
    (upsert : Option String) (throw_on_error : Bool) (now : ℕ) (summary : VaultSyncStatusSummary)
    (h : HealthSync)
    → IsFlushed upsert throw_on_error now summary h
        (after_write upsert throw_on_error now summary h)
after_write-IsFlushed none throw_on_error now summary h =
    let next = next_health_summary_flush_at summary now in
    let written = record h { tables = record_health_summary_flushed now h.tables } in
    let set = set_next-scheduled next now written in
    (refl, set.0, set_next-IsTracked next now written, set.1)
after_write-IsFlushed (some error) true now summary h = (refl, refl, refl, refl)
after_write-IsFlushed (some error) false now summary h =
    (refl, refl, flush_due now now h.scheduler, refl)

-- A flush of a vault that has a summary, to a repository that is there, ends in one of three ways.
-- Written: it returns the time of the next flush, if there is one, a job is due by then, and the
-- tables say that the summary was flushed. Failed, where the caller does not want the error: a job
-- is due at once, and the tables say that the flush failed. Failed, where the caller wants the
-- error: the error is thrown on, the job stays as it was, and the tables say that the flush failed.
pub flush_summary-IsFlushed :
    (upsert : Option String) (throw_on_error : Bool) (now ttl sockets : ℕ) (h : HealthSync)
    (summary : VaultSyncStatusSummary)
    → read_health_summary h.tables now ttl sockets ≡ some summary
    → IsFlushed upsert throw_on_error now summary h
        (flush_summary true upsert throw_on_error now ttl sockets h)
unfolding flush_summary
flush_summary-IsFlushed none throw_on_error now ttl sockets h summary e =
    rw e (after_write-IsFlushed none throw_on_error now summary h)
flush_summary-IsFlushed (some error) false now ttl sockets h summary e =
    rw e (after_write-IsFlushed (some error) false now summary h)
flush_summary-IsFlushed (some error) true now ttl sockets h summary e =
    rw e (after_write-IsFlushed (some error) true now summary h)
