-- ===== src/Router/Health.antt =====
-- internal/breaker/health.go: what the breaker and the quotas tell internal/router. The quota of each
-- backend is read from the same tables; the rollover that a reading may write is seen in its answer only.
use governator.Prelude.{
  ◌<◌, ◌≤◌, ◌↔◌, ◌≡◌, ◌≢◌, ◌⊎◌, ◌∙◌, inl, inr, sym, ap, String, true, false, Option, none, some,
  List, arith, All, if◌then◌else◌,
}
use governator.Dbtime as Clock
use governator.Breaker as Circuit
use governator.Breaker.{Kind, doctor_gated, effective_state}
use governator.Breaker.Store as Table
use governator.Breaker.Store.{load, snapshot}
use governator.Breaker.Reachable.{Call, run_calls, new_db, effective_state-opened, run_calls-IsWell}
use governator.Quota as Plan
use governator.Quota.Operations as Booking
use governator.Quota.Windows.{Fraction, Snapshot, headroom}
use governator.Router.{
  Floats, Requirements, Request, BreakerState, BreakerSnapshot, QuotaSnapshot, HealthSource,
  WeightSet, Decision,
}
use governator.Router.Agents.{Backend}
use governator.Router.Evidence.{Ledger, zero_score}
use governator.Router.Resolve.{Router, decided, resolve}
use governator.Router.Winner.{IsOrder}
use governator.Router.Qualified.{resolve-IsQualified}

-- `mapState`.
abbrev pub map_state : Circuit.State → BreakerState
map_state Circuit.State.degraded = BreakerState.degraded
map_state Circuit.State.opened = BreakerState.opened
map_state Circuit.State.half_open = BreakerState.closed
map_state Circuit.State.closed = BreakerState.closed

-- `ReasonFor`.
abbrev pub reason_for : Kind → String
reason_for Kind.rate_limit = "RATE_LIMIT"
reason_for Kind.quota_exhausted = "QUOTA_EXHAUSTED"
reason_for Kind.auth_expired = "AUTH_EXPIRED"
reason_for Kind.binary_missing = "BINARY_MISSING"
reason_for Kind.flag_drift = "FLAG_DRIFT"
reason_for Kind.transient_upstream = "TRANSIENT_UPSTREAM"
reason_for Kind.unset = ""
reason_for (Kind.other s) = s

-- `Breaker`, with what the database answers to its read.
abbrev pub store_breaker : Option String → Table.Db → Circuit.Time → String → BreakerSnapshot
store_breaker fault db now agent =
    let b = snapshot fault db agent now in
    record { state = map_state b.effective_state; reason = reason_for b.failure_kind }

module _ {F : Type 0} (fl : Floats F) where
  abbrev unmeasured : QuotaSnapshot F
  unmeasured = record { headroom_pct = zero_score fl; available = false }

  abbrev float_of : Fraction → F
  float_of p = fl.divided (fl.of_int p.num) (fl.of_int p.den)

  abbrev pub quota_of : Booking.Result Snapshot → QuotaSnapshot F
  quota_of (Booking.Result.err e) = unmeasured
  quota_of (Booking.Result.ok s) =
      if s.available
      then record { headroom_pct = float_of s.headroom_pct; available = true }
      else unmeasured

  module _ (normalize trim_space : String → String)
      (month_start next_month : Clock.Time → Clock.Time) (format : Clock.Time → String)
      (parse : String → Option Clock.Time)
      (parse_layout : String → String → Option Clock.Time) where
    -- `Quota`.
    abbrev pub store_quota : Booking.Faults → Plan.Db → Clock.Time → String → QuotaSnapshot F
    store_quota faults d now agent =
        quota_of
          (headroom normalize trim_space month_start next_month format parse parse_layout faults
            agent "default" now d).1

    -- `Store` as the health that a router asks.
    abbrev pub store_health :
        Option String → Table.Db → Booking.Faults → Plan.Db → Clock.Time → HealthSource F
    store_health fault db faults d now = record {
      breaker = store_breaker fault db now;
      quota = store_quota faults d now;
    }

    module _ (policy_hash : WeightSet F → Requirements → String) (lower upper : String → String)
        (r : Router F) (backends : String → Backend) (db : Ledger F) where
      -- After any operations of the breaker, from empty tables on and at times after Go's zero time: if the row of a
      -- backend is OPEN, and its kind is doctor-gated or its cooldown has not ended, then `Resolve`
      -- does not select the backend, provided that the breaker can be read, the name is not
      -- empty and comparisons are an order.
      pub open-unselected :
          (calls : List Call) (backend : String) (faults : Booking.Faults) (d : Plan.Db)
          (now : Clock.Time) (req : Request) (choice : Decision F)
          → IsOrder fl
          → backend ≢ ""
          → All (λ (c : Call). 0 < c.now) calls
          → (load (run_calls new_db calls) backend).persisted_state ≡ Circuit.State.opened
          → (doctor_gated (load (run_calls new_db calls) backend).failure_kind ≡ true)
            ⊎ (now < (load (run_calls new_db calls) backend).cooldown_until)
          → resolve fl policy_hash lower upper
              (record r { health = some (store_health none (run_calls new_db calls) faults d now) })
              backends
              db
              req
            ≡ decided choice
          → choice.selected ≢ backend
      unfolding snapshot
      open-unselected calls backend faults d now req choice ord n times o w h e =
          let (m, fit) =
            resolve-IsQualified fl policy_hash lower upper
              (record r { health = some (store_health none (run_calls new_db calls) faults d now) })
              backends db ord req choice h (λ x. n (sym e ∙ x)) in
          let b = load (run_calls new_db calls) backend in
          let still : effective_state b now ≡ Circuit.State.opened =
            stays b now (effective_state-opened b now (run_calls-IsWell calls backend times) o) w in
          fit.closed (
            ap (λ name. map_state (effective_state (load (run_calls new_db calls) name) now)) e
            ∙ ap map_state still)
        where
          stays :
              (b : Circuit.Breaker) (now : Clock.Time)
              → ((effective_state b now ≡ Circuit.State.half_open)
                  ↔ ((doctor_gated b.failure_kind ≡ false) × (b.cooldown_until ≤ now)))
                × ((effective_state b now ≡ Circuit.State.half_open)
                    ⊎ (effective_state b now ≡ Circuit.State.opened))
              → (doctor_gated b.failure_kind ≡ true) ⊎ (now < b.cooldown_until)
              → effective_state b now ≡ Circuit.State.opened
          stays b now (t, inr o) w = o
          stays b now (t, inl half) (inl g) = absurd (ground (arith, (t.0 half).0, g))
          stays b now (t, inl half) (inr early) = absurd (omega (arith, (t.0 half).1, early))
