-- ===== src/Coordinator/Maintenance/Times.antt =====
-- When a job of maintenance-scheduler.ts is due: the bucket of the collector and the retry delay.
use native.Mathlib.Numerals.{unary_clauses}
use syncali.Prelude.{zero, suc, subst, ℕ, ◌+◌, ◌-◌, ◌*◌, ◌^◌, ◌≤◌, ◌<◌, ◌≡◌, min, String, arith}
use syncali.Prelude.{◌%◌}
use syncali.Coordinator.Maintenance.{
  blob_gc, maintenance_job_due_at, maintenance_retry_delay_ms, blob_gc_alarm_bucket_ms,
  maintenance_retry_min_ms, maintenance_retry_max_ms,
}

-- A job is scheduled at its due time or later, and by less than one bucket, and a run of the
-- collector at the start of a bucket.
pub maintenance_job_due_at_bounds :
    (key : String) (due_at : ℕ)
    → (due_at ≤ maintenance_job_due_at key due_at)
      × (maintenance_job_due_at key due_at < due_at + blob_gc_alarm_bucket_ms)
      × (maintenance_job_due_at blob_gc due_at % blob_gc_alarm_bucket_ms ≡ 0)
unfolding maintenance_job_due_at blob_gc_alarm_bucket_ms
maintenance_job_due_at_bounds key due_at = ground arith

pow_pos : (n : ℕ) → 1 ≤ 2 ^ n
pow_pos zero = omega arith
pow_pos (suc n) = simp unary_clauses (omega (arith, pow_pos n))

pow_suc : (n : ℕ) → 2 ^ (n + 1) ≡ 2 * 2 ^ n
pow_suc n = simp unary_clauses (omega arith)

delay_step :
    (k : ℕ) → min 900000 (30000 * 2 ^ (k + 1)) ≡ min 900000 (2 * min 900000 (30000 * 2 ^ k))
delay_step k = omega (arith, pow_suc k)

-- The delay before a retry is between half a minute and a quarter of an hour, and each further
-- failure doubles it up to that.
pub maintenance_retry_delay_ms_bounds :
    (failures : ℕ)
    → ((maintenance_retry_min_ms ≤ maintenance_retry_delay_ms failures)
        × (maintenance_retry_delay_ms failures ≤ maintenance_retry_max_ms))
      × (maintenance_retry_delay_ms (failures + 2)
          ≡ min maintenance_retry_max_ms (2 * maintenance_retry_delay_ms (failures + 1)))
unfolding maintenance_retry_delay_ms maintenance_retry_min_ms maintenance_retry_max_ms
maintenance_retry_delay_ms_bounds failures = (
  (omega (arith, pow_pos (failures - 1)), omega arith),
  subst
      (λ n. min 900000 (30000 * 2 ^ n) ≡ min 900000 (2 * maintenance_retry_delay_ms (failures + 1)))
      (omega arith)
      (subst
        (λ n. min 900000 (30000 * 2 ^ (failures + 1)) ≡ min 900000 (2 * min 900000 (30000 * 2 ^ n)))
        (omega arith) (delay_step failures)),
)
