-- ===== src/Breaker/Unaudited.antt =====
-- What a failing insert of an event does to the audit trail of internal/breaker/breaker.go.
use governator.Prelude.{
  ◌≢◌, String, ◌≡◌, refl, sym, ap, ◌∙◌, Bool, true, not, ◌&&◌, none, some, List, arith, str_eq,
  eq_iff,
}
use governator.Breaker.{
  effective_state, doctor_gated, opened, Time, Kind, is_unset, kind_eq, closed, is_infra_failure,
  is_valid_backend, Breaker, apply_policy, on_kind, on_transient, on_rate_limit, on_quota_exhausted,
  on_doctor_gated,
}
use governator.Breaker.Store.{snapshot, Db, Faults, load, save, commit, record_failure}
use governator.Breaker.Reachable.{Call, run_calls, new_db}
use governator.Breaker.Audit.{replay, load-backend}

-- The read and the upsert go through, the insert of the event fails.
abbrev pub insert_fails : String → Faults
insert_fails e = record { load = none; save = none; event = some e }

on_kind-backend :
    (kind : Kind) (changed : Bool) (b : Breaker) (reset_at now : Time)
    → (on_kind kind changed b reset_at now).backend ≡ b.backend
unfolding on_kind on_transient on_rate_limit on_quota_exhausted on_doctor_gated
on_kind-backend kind changed b reset_at now = ground arith

apply_policy-backend :
    (b : Breaker) (kind : Kind) (reset_at now : Time)
    → (apply_policy b kind reset_at now).backend ≡ b.backend
unfolding apply_policy
apply_policy-backend b kind reset_at now =
    on_kind-backend kind (not (is_unset b.failure_kind) && not (kind_eq b.failure_kind kind))
      (record b { failure_kind = kind }) reset_at now

load-save_row :
    (db : Db) (b : Breaker) → load (save db b) b.backend ≡ record b { effective_state = closed }
unfolding load save
load-save_row db b =
    let e : str_eq b.backend b.backend ≡ true = ground (arith, eq_iff b.backend b.backend) in
    rw e refl

-- A doctor-gated failure opens the breaker for any time.
gated-opened :
    (b : Breaker) (kind : Kind) (reset_at now : Time)
    → doctor_gated kind ≡ true
    → ((apply_policy b kind reset_at now).persisted_state ≡ opened)
      × ((apply_policy b kind reset_at now).cooldown_until ≡ 0)
unfolding doctor_gated apply_policy on_kind on_doctor_gated
gated-opened b Kind.auth_expired reset_at now h = (refl, refl)
gated-opened b Kind.binary_missing reset_at now h = (refl, refl)
gated-opened b Kind.flag_drift reset_at now h = (refl, refl)
gated-opened b Kind.rate_limit reset_at now h = cc h
gated-opened b Kind.quota_exhausted reset_at now h = cc h
gated-opened b Kind.transient_upstream reset_at now h = cc h
gated-opened b Kind.unset reset_at now h = cc h
gated-opened b (Kind.other s) reset_at now h = cc h

gated-is_infra_failure : (kind : Kind) → doctor_gated kind ≡ true → is_infra_failure kind ≡ true
unfolding doctor_gated is_infra_failure
gated-is_infra_failure Kind.auth_expired h = refl
gated-is_infra_failure Kind.binary_missing h = refl
gated-is_infra_failure Kind.flag_drift h = refl
gated-is_infra_failure Kind.rate_limit h = refl
gated-is_infra_failure Kind.quota_exhausted h = refl
gated-is_infra_failure Kind.transient_upstream h = refl
gated-is_infra_failure Kind.unset h = cc h
gated-is_infra_failure (Kind.other s) h = cc h

unaudited-row :
    (db : Db) (backend : String) (kind : Kind) (reset_at now : Time) (e : String)
    → is_valid_backend backend ≡ true
    → is_infra_failure kind ≡ true
    → (load (record_failure (insert_fails e) db backend kind reset_at now).0 backend
        ≡ record (apply_policy (load db backend) kind reset_at now) { effective_state = closed })
      × ((record_failure (insert_fails e) db backend kind reset_at now).0.events ≡ db.events)
unfolding record_failure commit
unaudited-row db backend kind reset_at now e v i =
    let after : Breaker = apply_policy (load db backend) kind reset_at now in
    let same : after.backend ≡ backend =
      apply_policy-backend (load db backend) kind reset_at now ∙ load-backend db backend in
    rw (v, i) (ap (load (save db after)) (sym same) ∙ load-save_row db after, unfold save in refl)

-- The upsert of a row and the insert of its event are not one transaction. After any operations from
-- empty tables on, with failing statements or without: if the events of a registered backend do not
-- tell OPEN, and the next thing recorded is a doctor-gated failure of which only the insert of the
-- event fails, then the breaker reads OPEN at any time, and the events still do not tell it.
pub record_failure-unaudited :
    (calls : List Call) (backend : String) (kind : Kind) (reset_at now : Time) (e : String)
    → is_valid_backend backend ≡ true
    → doctor_gated kind ≡ true
    → replay closed (run_calls new_db calls).events backend ≢ opened
    → let after =
        (record_failure (insert_fails e) (run_calls new_db calls) backend kind reset_at now).0 in
      ((t : Time) → (snapshot none after backend t).effective_state ≡ opened)
      × (replay closed after.events backend ≢ opened)
unfolding snapshot effective_state
record_failure-unaudited calls backend kind reset_at now e v g n =
    let db = run_calls new_db calls in
    let (row, events) =
      unaudited-row db backend kind reset_at now e v (gated-is_infra_failure kind g) in
    let (o, c) = gated-opened (load db backend) kind reset_at now g in
    (
      (λ t. ap (λ (b : Breaker). effective_state b t) row ∙ ground (arith, o, c)),
      λ x. n (ap (λ es. replay closed es backend) (sym events) ∙ x),
    )
