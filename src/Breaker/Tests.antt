-- ===== src/Breaker/Tests.antt =====
-- Runs of internal/breaker/breaker.go on small inputs.
use governator.Prelude.{
  ℕ, ◌≤◌, ◌<◌, ◌≡◌, ◌≢◌, refl, ◌⊎◌, inl, ◌↔◌, true, false, arith, List, [], ◌∷◌, none, All,
}
use governator.Breaker.{
  Time, rate_limit, transient_upstream, auth_expired, kind_eq, is_infra_failure, doctor_gated,
  closed, degraded, opened, half_open, Breaker, registered_backends, is_valid_backend,
  effective_state, rate_limit_cooldown, on_transient, on_rate_limit, on_quota_exhausted,
  on_doctor_gated, on_kind, apply_policy,
}
use governator.Breaker.Store.{
  snapshot, Faults, Op, fail, load, save, append_event, commit, cleared, was_probe, success_event,
  closed_by_success, record_success, diff_summary, failure_event, record_failure, reset_row_event,
  reset, apply_op,
}
use governator.Breaker.Invariant.{IsWell}
use governator.Breaker.Reachable.{Call, run_calls, new_db, run_calls-IsWell, effective_state-opened}
use governator.Breaker.Transient.{fail_transient, transient-demotes}
use governator.Breaker.Audit.{replay, run_calls-audited}
use governator.Breaker.Unaudited.{insert_fails, record_failure-unaudited}

-- Unfolding this opens all of the breaker.
all_opened : Unit {0}
unfolding kind_eq is_infra_failure doctor_gated registered_backends is_valid_backend effective_state
    rate_limit_cooldown on_transient on_rate_limit on_quota_exhausted on_doctor_gated on_kind
    apply_policy load save append_event commit cleared was_probe success_event closed_by_success
    record_success diff_summary failure_event record_failure reset_row_event reset apply_op
    run_calls fail_transient replay
all_opened = tt

abbrev healthy : Faults
healthy = record { load = none; save = none; event = none }

abbrev call : ℕ → Op → Call
call now op = record { faults = healthy; op = op; now = now }

-- A login that expires, then a rate limit of another backend.
abbrev calls : List Call
calls = call 100 (fail "codex" auth_expired 0) ∷ call 200 (fail "glm" rate_limit 0) ∷ []

at_real_times : All (λ c. 0 < c.now) calls
at_real_times = (omega arith, (omega arith, tt))

run_calls-IsWell_example : IsWell (load (run_calls new_db calls) "codex")
run_calls-IsWell_example = run_calls-IsWell calls "codex" at_real_times

-- The row of the expired login.
abbrev expired : Breaker
expired = load (run_calls new_db calls) "codex"

effective_state-opened_example :
    ((effective_state expired 300 ≡ half_open)
      ↔ ((doctor_gated expired.failure_kind ≡ false) × (expired.cooldown_until ≤ 300)))
    × ((effective_state expired 300 ≡ half_open) ⊎ (effective_state expired 300 ≡ opened))
unfolding all_opened
effective_state-opened_example =
    effective_state-opened expired 300 (run_calls-IsWell calls "codex" at_real_times) refl

abbrev fresh : Breaker
fresh = load (run_calls new_db []) "pi"

abbrev times : List ℕ
times = 20 ∷ 30 ∷ []

expired-kind : expired.failure_kind ≢ transient_upstream
unfolding all_opened
expired-kind e = cc

-- The backend whose login expired is DEGRADED, not OPEN, after one upstream error.
transient-demotes_example :
    ((apply_policy expired transient_upstream 0 300).consecutive_failures ≡ 1)
    × (effective_state (apply_policy expired transient_upstream 0 300) 400 ≡ degraded)
unfolding all_opened
transient-demotes_example =
    transient-demotes expired 0 300 400 (run_calls-IsWell calls "codex" at_real_times) refl
      (inl expired-kind)

run_calls-audited_example :
    (load (run_calls new_db calls) "glm").persisted_state
    ≡ replay closed (run_calls new_db calls).events "glm"
run_calls-audited_example = run_calls-audited calls "glm" (refl, (refl, tt))

untold : replay closed (run_calls new_db calls).events "claude-code" ≢ opened
unfolding all_opened
untold e = cc e

registered : is_valid_backend "claude-code" ≡ true
unfolding all_opened
registered = refl

gated : doctor_gated auth_expired ≡ true
unfolding all_opened
gated = refl

record_failure-unaudited_example :
    let after =
      (record_failure
        (insert_fails "disk full")
        (run_calls new_db calls)
        "claude-code"
        auth_expired
        0
        300).0 in
    ((t : Time) → (snapshot none after "claude-code" t).effective_state ≡ opened)
    × (replay closed after.events "claude-code" ≢ opened)
record_failure-unaudited_example =
    record_failure-unaudited calls "claude-code" auth_expired 0 300 "disk full" registered gated
      untold
