-- ===== src/Breaker/Store.antt =====
-- The persistence of internal/breaker/breaker.go: the tables breaker_state and breaker_events, and
-- the operations that write them.
use governator.Prelude.{
  ℕ, String, Bool, true, false, not, Option, none, some, List, [], ◌∷◌, ◌++◌, map, str_eq, ◌==◌,
  if◌then◌else◌,
}
use governator.Breaker.{
  Time, Kind, unset, is_infra_failure, State, closed, degraded, opened, is_closed, is_half_open,
  state_eq, Breaker, registered_backends, is_valid_backend, effective_state, apply_policy,
}

pub data EventName : Type 0 where
  close probe_success open_event degrade probe_fail reset_event : EventName

-- A part of `diffSummary`.
pub data Change : Type 0 where
  state_change : State → State → Change
  cooldown_change : Time → Change
  count_change : ℕ → Change

-- The text `detail` of an event, by what it is printed from.
pub data Detail : Type 0 where
  quality_run probe_closed : Detail
  failure : Kind → List Change → Detail
  counted_failure : Kind → ℕ → List Change → Detail
  probe_failure : Kind → List Change → Detail
  operator : String → Detail

-- A row of `breaker_events`.
pub record Event : Type 0 where
  pub backend : String
  pub event : EventName
  pub failure_kind : Kind
  pub from_state : State
  pub to_state : State
  pub detail : Detail
  pub created : Time

-- The two tables: the row of each backend, and the events, oldest first.
pub record Db : Type 0 where
  pub rows : String → Option Breaker
  pub events : List Event

pub data Error : Type 0 where
  unknown_backend : Error
  database : String → Error

-- What the database answers to the three statements of an operation: `none`, or an error.
pub record Faults : Type 0 where
  pub load : Option String
  pub save : Option String
  pub event : Option String

abbrev pub healthy_row : String → Breaker
healthy_row backend = record {
  backend = backend;
  persisted_state = closed;
  effective_state = closed;
  failure_kind = unset;
  opened_at = 0;
  cooldown_until = 0;
  consecutive_failures = 0;
  last_probe_at = 0;
  updated_at = 0;
}

abbrev pub row_or_healthy : Option Breaker → String → Breaker
row_or_healthy none backend = healthy_row backend
row_or_healthy (some b) backend = record b { backend = backend; effective_state = closed }

-- `load` without an error.
unfoldable pub load : Db → String → Breaker
load db backend = row_or_healthy (db.rows backend) backend

-- The upsert of `save`.
unfoldable pub save : Db → Breaker → Db
save db b = record db { rows = λ name. if str_eq b.backend name then some b else db.rows name }

-- The insert of `appendEvent`.
unfoldable pub append_event : Db → Event → Db
append_event db e = record db { events = db.events ++ e ∷ [] }

abbrev pub if_loaded : Option String → Db → Db × Option Error → Db × Option Error
if_loaded (some e) db rest = (db, some (database e))
if_loaded none db rest = rest

abbrev pub log : Option String → Db → Event → Db × Option Error
log (some e) db ev = (db, some (database e))
log none db ev = (append_event db ev, none)

-- `save`, then `appendEvent`: two statements and no transaction.
unfoldable pub commit : Option String → Option String → Db → Breaker → Event → Db × Option Error
commit (some e) event_fault db b ev = (db, some (database e))
commit none event_fault db b ev = log event_fault (save db b) ev

-- `Snapshot`.
unfoldable pub snapshot : Option String → Db → String → Time → Breaker
snapshot (some e) db backend now = healthy_row backend
snapshot none db backend now = record (load db backend) {
  effective_state = effective_state (load db backend) now;
}

-- `All`; a failing read stops it.
unfoldable pub all_breakers : Option String → Db → Time → Option (List Breaker)
all_breakers (some e) db now = none
all_breakers none db now = some (map (λ b. snapshot none db b now) registered_backends)

-- What `RecordSuccess` and `Reset` write over a row that is not closed.
unfoldable pub cleared : Breaker → Time → Breaker
cleared b now = record b {
  persisted_state = closed;
  failure_kind = unset;
  opened_at = 0;
  cooldown_until = 0;
  consecutive_failures = 0;
  updated_at = now;
}

unfoldable pub was_probe : Breaker → Time → Bool
was_probe b now = is_half_open (effective_state b now)

unfoldable pub success_event : Breaker → Time → Event
success_event b now = record {
  backend = b.backend;
  event = if was_probe b now then probe_success else close;
  failure_kind = b.failure_kind;
  from_state = b.persisted_state;
  to_state = closed;
  detail = if was_probe b now then probe_closed else quality_run;
  created = now;
}

unfoldable pub closed_by_success : Breaker → Time → Breaker
closed_by_success b now = record (cleared b now) {
  last_probe_at = if was_probe b now then now else b.last_probe_at;
}

-- `RecordSuccess`.
unfoldable pub record_success : Faults → Db → String → Time → Db × Option Error
record_success f db backend now =
    if not (is_valid_backend backend)
    then (db, some unknown_backend)
    else if_loaded f.load db (
        let b = load db backend in
        if is_closed b.persisted_state
        then (db, none)
        else commit f.save f.event db (closed_by_success b now) (success_event b now))

abbrev pub when : Bool → Change → List Change
when true c = c ∷ []
when false c = []

-- `diffSummary`.
unfoldable pub diff_summary : Breaker → Breaker → List Change
diff_summary prev cur =
    when (not (state_eq prev.persisted_state cur.persisted_state))
      (state_change prev.persisted_state cur.persisted_state)
    ++ (when (not (cur.cooldown_until == 0)) (cooldown_change cur.cooldown_until)
        ++ when (not (cur.consecutive_failures == prev.consecutive_failures))
            (count_change cur.consecutive_failures))

abbrev pub failure_name : State → Bool → EventName
failure_name degraded probe = degrade
failure_name opened true = probe_fail
failure_name _ probe = open_event

abbrev pub failure_detail : State → Bool → Kind → ℕ → List Change → Detail
failure_detail degraded probe kind count changes = counted_failure kind count changes
failure_detail opened true kind count changes = probe_failure kind changes
failure_detail _ probe kind count changes = failure kind changes

unfoldable pub failure_event : Breaker → Breaker → Kind → Time → Event
failure_event prev cur kind now = record {
  backend = cur.backend;
  event = failure_name cur.persisted_state (was_probe prev now);
  failure_kind = kind;
  from_state = prev.persisted_state;
  to_state = cur.persisted_state;
  detail =
      failure_detail cur.persisted_state (was_probe prev now) kind cur.consecutive_failures
        (diff_summary prev cur);
  created = now;
}

-- `RecordFailure`; `reset` is the answer of `quota.NextReset`.
unfoldable pub record_failure : Faults → Db → String → Kind → Time → Time → Db × Option Error
record_failure f db backend kind reset now =
    if not (is_valid_backend backend)
    then (db, some unknown_backend)
    else if not (is_infra_failure kind)
    then (db, none)
    else if_loaded f.load db (
        let b = load db backend in
        let after = apply_policy b kind reset now in
        commit f.save f.event db after (failure_event b after kind now))

unfoldable pub reset_row_event : Breaker → Kind → Time → String → Event
reset_row_event b kind now detail = record {
  backend = b.backend;
  event = reset_event;
  failure_kind = kind;
  from_state = b.persisted_state;
  to_state = closed;
  detail = operator detail;
  created = now;
}

-- `Reset`.
unfoldable pub reset : Faults → Db → String → Time → String → Db × Option Error
reset f db backend now detail =
    if not (is_valid_backend backend)
    then (db, some unknown_backend)
    else if_loaded f.load db (
        let b = load db backend in
        if is_closed b.persisted_state
        then log f.event db (reset_row_event b b.failure_kind now detail)
        else commit f.save f.event db (cleared b now) (reset_row_event b unset now detail))

-- One operation on the breaker of a backend.
pub data Op : Type 0 where
  success : String → Op
  fail : String → Kind → Time → Op
  manual_reset : String → String → Op

unfoldable pub apply_op : Faults → Db → Op → Time → Db × Option Error
apply_op f db (success backend) now = record_success f db backend now
apply_op f db (fail backend kind reset) now = record_failure f db backend kind reset now
apply_op f db (manual_reset backend detail) now = reset f db backend now detail
