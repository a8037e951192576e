-- ===== src/Breaker/Audit.antt =====
-- The audit trail of internal/breaker/breaker.go: breaker_events against breaker_state.
use governator.Prelude.{
  String, ◌≡◌, refl, sym, ap, ◌∙◌, Bool, true, false, not, Option, none, some, List, [], ◌∷◌, ◌++◌,
  arith, subst, str_eq, eq_iff, Bool-cases, inl, inr, All, if◌then◌else◌,
}
use governator.Breaker.{
  Time, Kind, unset, State, closed, is_closed, is_infra_failure, is_valid_backend, Breaker,
  apply_policy,
}
use governator.Breaker.Store.{
  Db, Faults, Error, Event, Op, success, fail, manual_reset, load, save, append_event, log, commit,
  if_loaded, row_or_healthy, cleared, closed_by_success, success_event, failure_event,
  reset_row_event, record_success, record_failure, reset, apply_op,
}
use governator.Breaker.Reachable.{Call, run_calls, new_db}

-- The state that the events tell: the last event of the backend, from a given state on.
unfoldable pub replay : State → List Event → String → State
replay s [] backend = s
replay s (e ∷ es) backend = replay (if str_eq e.backend backend then e.to_state else s) es backend

replay-append :
    (s : State) (es : List Event) (e : Event) (backend : String)
    → replay s (es ++ e ∷ []) backend
      ≡ (if str_eq e.backend backend then e.to_state else replay s es backend)
unfolding replay
replay-append s [] e backend = refl
replay-append s (x ∷ xs) e backend =
    replay-append (if str_eq x.backend backend then x.to_state else s) xs e backend

abbrev pub IsAudited : Db → Type 0
IsAudited db =
    (backend : String) → (load db backend).persisted_state ≡ replay closed db.events backend

load-save :
    (db : Db) (b : Breaker) (backend : String)
    → (load (save db b) backend).persisted_state
      ≡ (if str_eq b.backend backend then b.persisted_state else (load db backend).persisted_state)
unfolding load save
load-save db b backend = ground arith

load-append_event :
    (db : Db) (ev : Event) (backend : String) → load (append_event db ev) backend ≡ load db backend
unfolding load append_event
load-append_event db ev backend = refl

load-append_persisted :
    (db : Db) (ev : Event) (backend : String)
    → (load (append_event db ev) backend).persisted_state ≡ (load db backend).persisted_state
load-append_persisted db ev backend =
    ap (λ (b : Breaker). b.persisted_state) (load-append_event db ev backend)

same_branch :
    (b : Breaker) (ev : Event) (backend : String) (s t : State)
    → ev.backend ≡ b.backend
    → ev.to_state ≡ b.persisted_state
    → s ≡ t
    → (if str_eq b.backend backend then b.persisted_state else s)
      ≡ (if str_eq ev.backend backend then ev.to_state else t)
same_branch b ev backend s t p q e = rw (p, q, e)

-- A row and its event, written together.
saved-IsAudited :
    (db : Db) (b : Breaker) (ev : Event)
    → ev.backend ≡ b.backend
    → ev.to_state ≡ b.persisted_state
    → IsAudited db
    → (backend : String)
    → (load (save db b) backend).persisted_state ≡ replay closed (db.events ++ ev ∷ []) backend
saved-IsAudited db b ev p q a backend =
    load-save db b backend
    ∙ (same_branch b ev backend (load db backend).persisted_state (replay closed db.events backend)
          p q (a backend)
        ∙ sym (replay-append closed db.events ev backend))

commit-IsAudited :
    (f : Option String) (db : Db) (b : Breaker) (ev : Event)
    → ev.backend ≡ b.backend
    → ev.to_state ≡ b.persisted_state
    → IsAudited db
    → IsAudited (commit f none db b ev).0
unfolding commit append_event save load
commit-IsAudited (some e) db b ev p q a backend = a backend
commit-IsAudited none db b ev p q a backend = saved-IsAudited db b ev p q a backend

-- An event that changes no state.
log-IsAudited :
    (db : Db) (ev : Event)
    → ev.to_state ≡ closed
    → (load db ev.backend).persisted_state ≡ closed
    → IsAudited db
    → IsAudited (log none db ev).0
unfolding append_event
log-IsAudited db ev c s a backend =
    load-append_persisted db ev backend
    ∙ (closed_branch ∙ sym (replay-append closed db.events ev backend))
  where
    closed_branch :
        (load db backend).persisted_state
        ≡ (if str_eq ev.backend backend then ev.to_state else replay closed db.events backend)
    closed_branch = elim (Bool-cases (str_eq ev.backend backend)) [
      | inl e ↦
          rw
            (e, c, ap (λ x. (load db x).persisted_state) (sym ((eq_iff ev.backend backend).0 e)), s)
      | inr e ↦ rw (e, a backend)
    ]

if-IsAudited :
    (t : Bool) (p q : Db × Option Error)
    → (t ≡ true → IsAudited p.0)
    → (t ≡ false → IsAudited q.0)
    → IsAudited (if t then p else q).0
if-IsAudited true p q f g = f refl
if-IsAudited false p q f g = g refl

if_loaded-IsAudited :
    (f : Option String) (db : Db) (rest : Db × Option Error)
    → IsAudited db
    → IsAudited rest.0
    → IsAudited (if_loaded f db rest).0
if_loaded-IsAudited none db rest a b = b
if_loaded-IsAudited (some e) db rest a b = a

pub load-backend : (db : Db) (backend : String) → (load db backend).backend ≡ backend
unfolding load
load-backend db backend = row_backend (db.rows backend)
  where
    row_backend : (o : Option Breaker) → (row_or_healthy o backend).backend ≡ backend
    row_backend none = refl
    row_backend (some b) = refl

is_closed→ : (s : State) → is_closed s ≡ true → s ≡ closed
is_closed→ s h = ground arith

success-IsAudited :
    (f : Faults) (db : Db) (backend : String) (now : Time)
    → f.event ≡ none
    → IsAudited db
    → IsAudited (record_success f db backend now).0
unfolding record_success closed_by_success cleared success_event
success-IsAudited f db backend now h a =
    let b : Breaker = load db backend in
    if-IsAudited (not (is_valid_backend backend)) _ _ (λ _. a)
      λ _. if_loaded-IsAudited f.load db _ a (
        if-IsAudited (is_closed b.persisted_state) _ _ (λ _. a)
          λ _.
            subst
              (λ g.
                IsAudited (commit f.save g db (closed_by_success b now) (success_event b now)).0)
              (sym h)
              (commit-IsAudited f.save db (closed_by_success b now) (success_event b now) refl refl
                a))

failure-IsAudited :
    (f : Faults) (db : Db) (backend : String) (kind : Kind) (reset_at now : Time)
    → f.event ≡ none
    → IsAudited db
    → IsAudited (record_failure f db backend kind reset_at now).0
unfolding record_failure failure_event
failure-IsAudited f db backend kind reset_at now h a =
    let after : Breaker = apply_policy (load db backend) kind reset_at now in
    let ev : Event = failure_event (load db backend) after kind now in
    if-IsAudited (not (is_valid_backend backend)) _ _ (λ _. a)
      λ _.
        if-IsAudited (not (is_infra_failure kind)) _ _ (λ _. a)
          λ _. if_loaded-IsAudited f.load db _ a (
            subst (λ g. IsAudited (commit f.save g db after ev).0) (sym h)
              (commit-IsAudited f.save db after ev refl refl a))

reset-IsAudited :
    (f : Faults) (db : Db) (backend : String) (now : Time) (detail : String)
    → f.event ≡ none
    → IsAudited db
    → IsAudited (reset f db backend now detail).0
unfolding reset cleared reset_row_event
reset-IsAudited f db backend now detail h a =
    let b : Breaker = load db backend in
    if-IsAudited (not (is_valid_backend backend)) _ _ (λ _. a)
      λ _. if_loaded-IsAudited f.load db _ a (
        if-IsAudited (is_closed b.persisted_state) _ _
          (λ c.
            subst (λ g. IsAudited (log g db (reset_row_event b b.failure_kind now detail)).0)
              (sym h)
              (log-IsAudited db (reset_row_event b b.failure_kind now detail) refl
                (ap (λ x. (load db x).persisted_state) (load-backend db backend)
                  ∙ is_closed→ b.persisted_state c)
                a))
          λ _.
            subst
              (λ g.
                IsAudited
                  (commit f.save g db (cleared b now) (reset_row_event b unset now detail)).0)
              (sym h)
              (commit-IsAudited f.save db (cleared b now) (reset_row_event b unset now detail) refl
                refl a))

op-IsAudited :
    (f : Faults) (db : Db) (op : Op) (now : Time)
    → f.event ≡ none
    → IsAudited db
    → IsAudited (apply_op f db op now).0
unfolding apply_op
op-IsAudited f db (success backend) now h a = success-IsAudited f db backend now h a
op-IsAudited f db (fail backend kind reset_at) now h a =
    failure-IsAudited f db backend kind reset_at now h a
op-IsAudited f db (manual_reset backend detail) now h a =
    reset-IsAudited f db backend now detail h a

run-IsAudited :
    (db : Db) (calls : List Call)
    → All (λ c. c.faults.event ≡ none) calls
    → IsAudited db
    → IsAudited (run_calls db calls)
unfolding run_calls
run-IsAudited db [] h a = a
run-IsAudited db (c ∷ cs) h a =
    run-IsAudited (apply_op c.faults db c.op c.now).0 cs h.1
      (op-IsAudited c.faults db c.op c.now h.0 a)

new_db-IsAudited : IsAudited new_db
unfolding load replay
new_db-IsAudited backend = refl

-- Whatever operations are recorded from an empty ledger on, as long as no insert into
-- breaker_events fails (reads and upserts may), the events of each backend tell its persisted
-- state: the last one's `to_state`, or CLOSED when there is none.
pub run_calls-audited :
    (calls : List Call) (backend : String)
    → All (λ c. c.faults.event ≡ none) calls
    → (load (run_calls new_db calls) backend).persisted_state
      ≡ replay closed (run_calls new_db calls).events backend
run_calls-audited calls backend h = run-IsAudited new_db calls h new_db-IsAudited backend
