-- ===== src/Breaker/Reachable.antt =====
-- The invariant of internal/breaker/breaker.go along any operations.
use governator.Prelude.{
  ◌<◌, String, ◌⊎◌, inl, inr, Bool-cases, ◌≡◌, ◌↔◌, false, not, none, List, [], ◌∷◌, arith, ◌≤◌,
  All,
}
use governator.Breaker.{
  Time, Kind, unset, is_infra_failure, doctor_gated, opened, half_open, is_closed, is_valid_backend,
  Breaker, effective_state, apply_policy,
}
use governator.Breaker.Store.{
  Db, Faults, Op, success, fail, manual_reset, load, cleared, closed_by_success, success_event,
  failure_event, reset_row_event, record_success, record_failure, reset, apply_op,
}
use governator.Breaker.Invariant.{
  IsWell, IsWellDb, apply_policy-IsWell, cleared-IsWell, closed_by_success-IsWell, commit-IsWellDb,
  if_loaded-IsWellDb, if-IsWellDb, log-rows, rows-IsWellDb,
}

record_success-IsWellDb :
    (f : Faults) (db : Db) (backend : String) (now : Time)
    → IsWellDb db
    → IsWellDb (record_success f db backend now).0
unfolding record_success
record_success-IsWellDb f db backend now w =
    if-IsWellDb (not (is_valid_backend backend)) _ _ (λ _. w)
      λ _. if_loaded-IsWellDb f.load db _ w (
        if-IsWellDb (is_closed (load db backend).persisted_state) _ _ (λ _. w)
          λ _.
            commit-IsWellDb f.save f.event db (closed_by_success (load db backend) now)
              (success_event (load db backend) now) (closed_by_success-IsWell (load db backend) now)
              w)

record_failure-IsWellDb :
    (f : Faults) (db : Db) (backend : String) (kind : Kind) (reset_at now : Time)
    → 0 < now
    → IsWellDb db
    → IsWellDb (record_failure f db backend kind reset_at now).0
unfolding record_failure
record_failure-IsWellDb f db backend kind reset_at now h w =
    let b : Breaker = load db backend in
    if-IsWellDb (not (is_valid_backend backend)) _ _ (λ _. w)
      λ _.
        if-IsWellDb (not (is_infra_failure kind)) _ _ (λ _. w)
          λ infra. if_loaded-IsWellDb f.load db _ w (
            commit-IsWellDb f.save f.event db (apply_policy b kind reset_at now)
              (failure_event b (apply_policy b kind reset_at now) kind now)
              (apply_policy-IsWell b kind reset_at now h (ground arith)) w)

reset-IsWellDb :
    (f : Faults) (db : Db) (backend : String) (now : Time) (detail : String)
    → IsWellDb db
    → IsWellDb (reset f db backend now detail).0
unfolding reset
reset-IsWellDb f db backend now detail w =
    let b : Breaker = load db backend in
    if-IsWellDb (not (is_valid_backend backend)) _ _ (λ _. w)
      λ _. if_loaded-IsWellDb f.load db _ w (
        if-IsWellDb (is_closed b.persisted_state) _ _
          (λ _.
            rows-IsWellDb db _ (log-rows f.event db (reset_row_event b b.failure_kind now detail))
              w)
          λ _.
            commit-IsWellDb f.save f.event db (cleared b now) (reset_row_event b unset now detail)
              (cleared-IsWell b now) w)

-- A call of an operation at some time, with what the database answers.
pub record Call : Type 0 where
  pub faults : Faults
  pub op : Op
  pub now : Time

unfoldable pub run_calls : Db → List Call → Db
run_calls db [] = db
run_calls db (c ∷ cs) = run_calls (apply_op c.faults db c.op c.now).0 cs

pub apply_op-IsWellDb :
    (f : Faults) (db : Db) (op : Op) (now : Time)
    → 0 < now
    → IsWellDb db
    → IsWellDb (apply_op f db op now).0
unfolding apply_op
apply_op-IsWellDb f db (success backend) now h w = record_success-IsWellDb f db backend now w
apply_op-IsWellDb f db (fail backend kind reset_at) now h w =
    record_failure-IsWellDb f db backend kind reset_at now h w
apply_op-IsWellDb f db (manual_reset backend detail) now h w =
    reset-IsWellDb f db backend now detail w

-- An empty ledger.
abbrev pub new_db : Db
new_db = record { rows = λ _. none; events = [] }

new_db-IsWellDb : IsWellDb new_db
unfolding load
new_db-IsWellDb backend = ground arith

run-IsWellDb :
    (db : Db) (calls : List Call)
    → All (λ c. 0 < c.now) calls
    → IsWellDb db
    → IsWellDb (run_calls db calls)
unfolding run_calls
run-IsWellDb db [] h w = w
run-IsWellDb db (c ∷ cs) h w =
    run-IsWellDb (apply_op c.faults db c.op c.now).0 cs h.1
      (apply_op-IsWellDb c.faults db c.op c.now h.0 w)

-- Whatever successes, failures and resets are recorded from an empty ledger on, at real times and
-- with failing statements or without, every backend's row is well-formed: HALF_OPEN is never
-- persisted; CLOSED has no failure left; DEGRADED counts one or two transient failures; OPEN has an
-- infrastructure kind, and a cooldown exactly if the kind is not doctor-gated, and three strikes at
-- least if it is transient.
pub run_calls-IsWell :
    (calls : List Call) (backend : String)
    → All (λ c. 0 < c.now) calls
    → IsWell (load (run_calls new_db calls) backend)
run_calls-IsWell calls backend h = run-IsWellDb new_db calls h new_db-IsWellDb backend

-- A well-formed row that is OPEN is HALF_OPEN at a time exactly when its kind is not doctor-gated
-- and its cooldown has ended by then; at any other time it stays OPEN.
pub effective_state-opened :
    (b : Breaker) (now : Time)
    → IsWell b
    → b.persisted_state ≡ opened
    → ((effective_state b now ≡ half_open)
        ↔ ((doctor_gated b.failure_kind ≡ false) × (b.cooldown_until ≤ now)))
      × ((effective_state b now ≡ half_open) ⊎ (effective_state b now ≡ opened))
unfolding effective_state
effective_state-opened b now w o = elim (Bool-cases (doctor_gated b.failure_kind)) [
  | inl g ↦ ground (arith, w.gated o g, o)
  | inr g ↦ ground (arith, w.timed o g, o)
]
