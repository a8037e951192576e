-- ===== src/Breaker/Invariant.antt =====
-- What holds of every row of breaker_state that internal/breaker/breaker.go writes.
use native.Mathlib.Numerals.{add-one}
use governator.Prelude.{
  ℕ, ◌+◌, ◌≤◌, ◌<◌, String, ◌≡◌, ◌≢◌, refl, ap, Bool, true, false, not, ◌&&◌, Option, none, some,
  arith, str_eq, Bool-cases, inl, inr, if◌then◌else◌,
}
use governator.Breaker.{
  Time, Kind, rate_limit, quota_exhausted, auth_expired, binary_missing, flag_drift,
  transient_upstream, unset, is_unset, is_infra_failure, doctor_gated, closed, degraded, opened,
  half_open, Breaker, kind_eq, rate_limit_cooldown, on_transient, on_rate_limit, on_quota_exhausted,
  on_doctor_gated, on_kind, apply_policy,
}
use governator.Breaker.Cooldown.{rate_limit_cooldown_bounds}
use governator.Breaker.Store.{
  Db, Error, Event, load, save, append_event, if_loaded, log, commit, row_or_healthy, cleared,
  closed_by_success,
}

pub record IsWell (b : Breaker) : Type 0 where
  pub never_half_open : b.persisted_state ≢ half_open
  pub idle :
      b.persisted_state ≡ closed
      → (b.failure_kind ≡ unset)
        × (b.consecutive_failures ≡ 0)
        × (b.opened_at ≡ 0)
        × (b.cooldown_until ≡ 0)
  pub counting :
      b.persisted_state ≡ degraded
      → (b.failure_kind ≡ transient_upstream)
        × (0 < b.consecutive_failures)
        × (b.consecutive_failures < 3)
        × (b.cooldown_until ≡ 0)
  pub failing :
      b.persisted_state ≡ opened → (is_infra_failure b.failure_kind ≡ true) × (0 < b.opened_at)
  pub gated : b.persisted_state ≡ opened → doctor_gated b.failure_kind ≡ true → b.cooldown_until ≡ 0
  pub timed :
      b.persisted_state ≡ opened
      → doctor_gated b.failure_kind ≡ false
      → b.updated_at < b.cooldown_until
  pub struck :
      b.persisted_state ≡ opened → b.failure_kind ≡ transient_upstream → 3 ≤ b.consecutive_failures

rate_limit_cooldown-pos : (n : ℕ) → 0 < rate_limit_cooldown (n + 1)
rate_limit_cooldown-pos n = simp add-one (omega (arith, (rate_limit_cooldown_bounds n).0))

on_kind-IsWell :
    (kind : Kind) (changed : Bool) (b : Breaker) (reset_at now : Time)
    → 0 < now
    → is_infra_failure kind ≡ true
    → b.failure_kind ≡ kind
    → IsWell (record (on_kind kind changed b reset_at now) { updated_at = now })
unfolding on_kind on_transient on_rate_limit on_quota_exhausted on_doctor_gated is_infra_failure
    doctor_gated
on_kind-IsWell transient_upstream changed b reset_at now h i e = ground arith
on_kind-IsWell rate_limit changed b reset_at now h i e =
    ground (arith, rate_limit_cooldown-pos (if changed then 0 else b.consecutive_failures))
on_kind-IsWell quota_exhausted changed b reset_at now h i e = ground arith
on_kind-IsWell auth_expired changed b reset_at now h i e = ground arith
on_kind-IsWell binary_missing changed b reset_at now h i e = ground arith
on_kind-IsWell flag_drift changed b reset_at now h i e = ground arith
on_kind-IsWell _ changed b reset_at now h i e = cc

pub apply_policy-IsWell :
    (b : Breaker) (kind : Kind) (reset_at now : Time)
    → 0 < now
    → is_infra_failure kind ≡ true
    → IsWell (apply_policy b kind reset_at now)
unfolding apply_policy
apply_policy-IsWell b kind reset_at now h i =
    on_kind-IsWell kind (not (is_unset b.failure_kind) && not (kind_eq b.failure_kind kind))
      (record b { failure_kind = kind }) reset_at now h i refl

pub cleared-IsWell : (b : Breaker) (now : Time) → IsWell (cleared b now)
unfolding cleared
cleared-IsWell b now = ground arith

pub closed_by_success-IsWell : (b : Breaker) (now : Time) → IsWell (closed_by_success b now)
unfolding closed_by_success cleared
closed_by_success-IsWell b now = ground arith

-- Every backend's row is well-formed; one that has no row is closed.
abbrev pub IsWellDb : Db → Type 0
IsWellDb db = (backend : String) → IsWell (load db backend)

-- The two fields that `load` sets are not part of the invariant.
loaded-IsWell :
    (b : Breaker) (backend : String)
    → IsWell b
    → IsWell (record b { backend = backend; effective_state = closed })
loaded-IsWell b backend w = record {
  never_half_open = w.never_half_open;
  idle = w.idle;
  counting = w.counting;
  failing = w.failing;
  gated = w.gated;
  timed = w.timed;
  struck = w.struck;
}

save-IsWellDb : (db : Db) (b : Breaker) → IsWell b → IsWellDb db → IsWellDb (save db b)
unfolding save load
save-IsWellDb db b w all backend = elim (Bool-cases (str_eq b.backend backend)) [
  | inl e ↦ rw e (loaded-IsWell b backend w)
  | inr e ↦ rw e (all backend)
]

pub log-rows : (f : Option String) (db : Db) (ev : Event) → (log f db ev).0.rows ≡ db.rows
unfolding append_event
log-rows none db ev = refl
log-rows (some e) db ev = refl

pub rows-IsWellDb : (db after : Db) → after.rows ≡ db.rows → IsWellDb db → IsWellDb after
unfolding load
rows-IsWellDb db after e all backend =
    rw (ap (λ r. row_or_healthy (r backend) backend) e) (all backend)

pub commit-IsWellDb :
    (f g : Option String) (db : Db) (b : Breaker) (ev : Event)
    → IsWell b
    → IsWellDb db
    → IsWellDb (commit f g db b ev).0
unfolding commit
commit-IsWellDb (some e) g db b ev w all = all
commit-IsWellDb none g db b ev w all =
    rows-IsWellDb (save db b) (log g (save db b) ev).0 (log-rows g (save db b) ev)
      (save-IsWellDb db b w all)

pub if_loaded-IsWellDb :
    (f : Option String) (db : Db) (rest : Db × Option Error)
    → IsWellDb db
    → IsWellDb rest.0
    → IsWellDb (if_loaded f db rest).0
if_loaded-IsWellDb none db rest all w = w
if_loaded-IsWellDb (some e) db rest all w = all

pub if-IsWellDb :
    (t : Bool) (p q : Db × Option Error)
    → (t ≡ true → IsWellDb p.0)
    → (t ≡ false → IsWellDb q.0)
    → IsWellDb (if t then p else q).0
if-IsWellDb true p q f g = f refl
if-IsWellDb false p q f g = g refl
