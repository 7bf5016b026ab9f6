-- ===== src/Coordinator/Health/Stable.antt =====
-- The health of a vault that nobody changes, between a summary and the next flush.
use syncali.Prelude.{
  ℕ, ◌-◌, ◌≤◌, ◌<◌, ◌≡◌, ◌≢◌, ◌∙◌, refl, sym, ap, ap₂, Bool, true, false, ◌&&◌, Option, none, some,
  List, [], ◌∷◌, ◌++◌, arith, least, All, length, ltb, leb, select_where, if◌then◌else◌, subst,
  Option-cases, inl, inr,
}
use syncali.Coordinator.Tables.{Tables, CoordinatorState, LocalVaultConnection}
use syncali.Coordinator.Health.{
  VaultSyncStatusSummary, gather_summary, evaluate_health, read_health_summary,
  next_health_summary_flush_at, age_ms, is_older, no_recent_commit, future_due_from_age,
  commit_warning, staged_blob_stale_ms, pending_delete_stale_ms, active_without_recent_commit_ms,
  HealthStatus, ok, warning, critical, HealthReason, storage_over_limit, storage_near_limit,
  staged_blob_stale, pending_delete_stale, pending_delete_backlog, active_without_recent_commit,
  warn_if, storage_health, pending_delete_backlog_warning_count,
}

some_injective {ℓ} : {A : Type ℓ} (a b : A) → some a ≡ some b → a ≡ b
some_injective a b h = cc

none-some {ℓ} : {A : Type ℓ} (a : A) → none ≡ some a → ⊥
none-some a h = cc

-- Earlier than a time that may not be there.
abbrev pub Before : ℕ → Option ℕ → Type 0
Before u none = Unit
Before u (some d) = u < d

Before-least : (u : ℕ) (ns : List ℕ) → Before u (least ns) → All (λ n. u < n) ns
unfolding least
Before-least u [] h = tt
Before-least u (n ∷ ns) h = ground (arith, Before-least u ns)

is_older_stable :
    (now u threshold : ℕ) (timestamp : Option ℕ)
    → now ≤ u
    → All (λ n. u < n) (future_due_from_age now (age_ms now timestamp) threshold)
    → is_older threshold (age_ms u timestamp) ≡ is_older threshold (age_ms now timestamp)
is_older_stable now u threshold none h k = refl
is_older_stable now u threshold (some ts) h k = ground arith

no_recent_commit_stable :
    (s s' : VaultSyncStatusSummary) (now u : ℕ)
    → s'.active_local_vault_count ≤ s.active_local_vault_count
    → s'.last_commit_at ≡ s.last_commit_at
    → now ≤ u
    → All (λ n. u < n) (commit_warning s now)
    → no_recent_commit u s' ≡ (no_recent_commit now s && ltb 0 s'.active_local_vault_count)
unfolding active_without_recent_commit_ms
no_recent_commit_stable s s' now u a l h k = ground arith

All-front :
    (u : ℕ) (ms ns : List ℕ)
    → All (λ n. u < n) (ms ++ ns)
    → All (λ n. u < n) ms × All (λ n. u < n) ns
All-front u [] ns h = (tt, h)
All-front u (m ∷ ms) ns h = let rest = All-front u ms ns h.1 in ((h.0, rest.0), rest.1)

-- The status that the reasons amount to.
abbrev pub status_of : List HealthReason → HealthStatus
status_of [] = ok
status_of (storage_over_limit ∷ rs) = critical
status_of (storage_near_limit ∷ rs) = warning
status_of (staged_blob_stale ∷ rs) = warning
status_of (pending_delete_stale ∷ rs) = warning
status_of (pending_delete_backlog ∷ rs) = warning
status_of (active_without_recent_commit ∷ rs) = warning

abbrev is_lasting : HealthReason → Bool
is_lasting storage_over_limit = true
is_lasting storage_near_limit = true
is_lasting staged_blob_stale = true
is_lasting pending_delete_stale = true
is_lasting pending_delete_backlog = true
is_lasting active_without_recent_commit = false

-- The reasons without the one that needs an active device, where no device is active any more.
abbrev pub lasting : (active : Bool) → List HealthReason → List HealthReason
lasting true rs = rs
lasting false rs = select_where is_lasting rs

-- The status fits the reasons, and none of these needs an active device.
record IsBase (e : HealthStatus × List HealthReason) : Type 0 where
  fits : e.0 ≡ status_of e.1
  lasts : select_where is_lasting e.1 ≡ e.1

select-append :
    (rs : List HealthReason) (r : HealthReason)
    → select_where is_lasting (rs ++ r ∷ [])
      ≡ (if is_lasting r then select_where is_lasting rs ++ r ∷ [] else select_where is_lasting rs)
unfolding select_where
select-append [] r = ground arith
select-append (x ∷ rs) r = ground (arith, select-append rs r)

warn_if-fits :
    (test : Bool) (r : HealthReason) (e : HealthStatus × List HealthReason)
    → r ≢ storage_over_limit
    → e.0 ≡ status_of e.1
    → (warn_if test r e).0 ≡ status_of (warn_if test r e).1
warn_if-fits test r (status, []) ne h = ground arith
warn_if-fits test r (status, x ∷ rs) ne h = ground arith

warn_if-IsBase :
    (test : Bool) (r : HealthReason) (e : HealthStatus × List HealthReason)
    → r ≢ storage_over_limit
    → is_lasting r ≡ true
    → IsBase e
    → IsBase (warn_if test r e)
warn_if-IsBase false r e ne l v = v
warn_if-IsBase true r e ne l v = record {
  fits = warn_if-fits true r e ne v.fits;
  lasts = select-append e.1 r ∙ rw l (ap (λ rs. rs ++ r ∷ []) v.lasts);
}

storage_health-IsBase : (s : VaultSyncStatusSummary) → IsBase (storage_health s)
unfolding select_where
storage_health-IsBase s = record { fits = ground arith; lasts = ground arith }

-- All reasons but the last one.
abbrev base_health : VaultSyncStatusSummary → HealthStatus × List HealthReason
base_health s =
    warn_if (ltb pending_delete_backlog_warning_count s.pending_delete_blob_count)
      pending_delete_backlog
      (warn_if (is_older pending_delete_stale_ms s.oldest_pending_delete_age_ms)
        pending_delete_stale
        (warn_if (is_older staged_blob_stale_ms s.oldest_staged_blob_age_ms) staged_blob_stale
          (storage_health s)))

base_health-IsBase : (s : VaultSyncStatusSummary) → IsBase (base_health s)
base_health-IsBase s =
    warn_if-IsBase (ltb pending_delete_backlog_warning_count s.pending_delete_blob_count)
      pending_delete_backlog _ (λ e. cc) refl
      (warn_if-IsBase (is_older pending_delete_stale_ms s.oldest_pending_delete_age_ms)
        pending_delete_stale _ (λ e. cc) refl
        (warn_if-IsBase (is_older staged_blob_stale_ms s.oldest_staged_blob_age_ms)
          staged_blob_stale _ (λ e. cc) refl (storage_health-IsBase s)))

-- The judgement with and without active devices.
warn_inactive :
    (n active : Bool) (e : HealthStatus × List HealthReason)
    → IsBase e
    → let after = warn_if (n && active) active_without_recent_commit e in
      let before = warn_if n active_without_recent_commit e in
      (after.1 ≡ lasting active before.1) × (after.0 ≡ status_of after.1)
warn_inactive false active e v =
    (elim active as (λ b. e.1 ≡ lasting b e.1) [ true ↦ refl | false ↦ sym v.lasts ], v.fits)
warn_inactive true true e v =
    (refl, warn_if-fits true active_without_recent_commit e (λ h. cc) v.fits)
warn_inactive true false e v =
    (sym (select-append e.1 active_without_recent_commit ∙ v.lasts), v.fits)

-- The judgement of a vault, in terms of an earlier one whose parts are the same.
evaluate-later :
    (s s' : VaultSyncStatusSummary) (now u : ℕ)
    → base_health s' ≡ base_health s
    → no_recent_commit u s' ≡ (no_recent_commit now s && ltb 0 s'.active_local_vault_count)
    → ((evaluate_health s' u).1
        ≡ lasting (ltb 0 s'.active_local_vault_count) (evaluate_health s now).1)
      × ((evaluate_health s' u).0 ≡ status_of (evaluate_health s' u).1)
unfolding evaluate_health
evaluate-later s s' now u e n =
    subst
      (λ x.
        (x.1 ≡ lasting (ltb 0 s'.active_local_vault_count) (evaluate_health s now).1)
        × (x.0 ≡ status_of x.1))
      (sym (ap₂ (λ b x. warn_if b active_without_recent_commit x) n e))
      (warn_inactive (no_recent_commit now s) (ltb 0 s'.active_local_vault_count) (base_health s)
        (base_health-IsBase s))

base_health-same :
    (s s' : VaultSyncStatusSummary)
    → s'.storage_used_bytes ≡ s.storage_used_bytes
    → s'.storage_limit_bytes ≡ s.storage_limit_bytes
    → s'.pending_delete_blob_count ≡ s.pending_delete_blob_count
    → is_older staged_blob_stale_ms s'.oldest_staged_blob_age_ms
      ≡ is_older staged_blob_stale_ms s.oldest_staged_blob_age_ms
    → is_older pending_delete_stale_ms s'.oldest_pending_delete_age_ms
      ≡ is_older pending_delete_stale_ms s.oldest_pending_delete_age_ms
    → base_health s' ≡ base_health s
base_health-same s s' a b c d e = rw (a, b, c, d, e) refl

-- Without a new connection, no device becomes active.
active_count-le :
    (cs : List LocalVaultConnection) (now u ttl : ℕ)
    → now ≤ u
    → length (select_where (λ c. leb (u - ttl) c.last_connected_at) cs)
      ≤ length (select_where (λ c. leb (now - ttl) c.last_connected_at) cs)
unfolding select_where
active_count-le [] now u ttl h = omega arith
active_count-le (c ∷ cs) now u ttl h = ground (arith, active_count-le cs now u ttl h)

-- The judgement of a vault whose tables stay as they are.
gathered_stable :
    (t : Tables) (state : CoordinatorState) (now u ttl sockets sockets' : ℕ)
    → now ≤ u
    → Before u (next_health_summary_flush_at (gather_summary t state now ttl sockets) now)
    → let s = gather_summary t state now ttl sockets in
      let s' = gather_summary t state u ttl sockets' in
      ((evaluate_health s' u).1
        ≡ lasting (ltb 0 s'.active_local_vault_count) (evaluate_health s now).1)
      × ((evaluate_health s' u).0 ≡ status_of (evaluate_health s' u).1)
unfolding gather_summary next_health_summary_flush_at
gathered_stable t state now u ttl sockets sockets' h b =
    let s = gather_summary t state now ttl sockets in
    let s' = gather_summary t state u ttl sockets' in
    let times = Before-least u _ b in
    let commits = All-front u (commit_warning s now) _ times in
    let ages =
      All-front u (future_due_from_age now s.oldest_staged_blob_age_ms staged_blob_stale_ms) _
        commits.1 in
    evaluate-later s s' now u
      (base_health-same s s' refl refl refl (is_older_stable now u staged_blob_stale_ms _ h ages.0)
        (is_older_stable now u pending_delete_stale_ms _ h ages.1))
      (no_recent_commit_stable s s' now u (active_count-le t.local_vault_connections now u ttl h)
        refl h commits.0)

abbrev judged : VaultSyncStatusSummary → ℕ → VaultSyncStatusSummary
judged s now = record s {
  health_status = (evaluate_health s now).0;
  health_reasons = (evaluate_health s now).1;
}

read_lem :
    (t : Tables) (state : CoordinatorState) (now ttl sockets : ℕ) (s : VaultSyncStatusSummary)
    → t.coordinator_state ≡ some state
    → read_health_summary t now ttl sockets ≡ some s
    → judged (gather_summary t state now ttl sockets) now ≡ s
unfolding read_health_summary
read_lem t state now ttl sockets s e h = some_injective _ s (sym (rw e refl) ∙ h)

initialized :
    (t : Tables) (now ttl sockets : ℕ) (s : VaultSyncStatusSummary)
    → read_health_summary t now ttl sockets ≡ some s
    → (state : CoordinatorState) × (t.coordinator_state ≡ some state)
unfolding read_health_summary
initialized t now ttl sockets s h = elim (Option-cases t.coordinator_state) [
  | inl e ↦ absurd (none-some s (sym (rw e refl) ∙ h))
  | inr found ↦ found
]

-- The health of a vault that nobody changes, at every time from a summary up to the next flush that
-- is set by that summary, and at every later time if none is set: as long as a device is active, the
-- reasons are those of the summary, and when none is, they are those of the summary without
-- `active_without_recent_commit`. The status is the one that the reasons amount to.
pub read_health_summary_stable :
    (t : Tables) (now u ttl sockets sockets' : ℕ) (s s' : VaultSyncStatusSummary)
    → read_health_summary t now ttl sockets ≡ some s
    → read_health_summary t u ttl sockets' ≡ some s'
    → now ≤ u
    → Before u (next_health_summary_flush_at s now)
    → (s'.health_reasons ≡ lasting (ltb 0 s'.active_local_vault_count) s.health_reasons)
      × (s'.health_status ≡ status_of s'.health_reasons)
unfolding next_health_summary_flush_at
read_health_summary_stable t now u ttl sockets sockets' s s' e e' h b =
    let (state, known) = initialized t now ttl sockets s e in
    let p = read_lem t state now ttl sockets s known e in
    let p' = read_lem t state u ttl sockets' s' known e' in
    let later =
      gathered_stable t state now u ttl sockets sockets' h
        (subst (λ x. Before u (next_health_summary_flush_at x now)) (sym p) b) in
    (
      subst (λ x. x.health_reasons ≡ lasting (ltb 0 x.active_local_vault_count) s.health_reasons) p'
          (later.0
            ∙ ap
                (λ x.
                  lasting (ltb 0 (gather_summary t state u ttl sockets').active_local_vault_count)
                    x.health_reasons)
                p),
      subst (λ x. x.health_status ≡ status_of x.health_reasons) p' later.1,
    )
