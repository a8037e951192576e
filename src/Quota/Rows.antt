-- ===== src/Quota/Rows.antt =====
-- The SQL statements of internal/quota/quota.go as functions of its two tables. A time comes as its text
-- and its nanoseconds.
use governator.Prelude.{
  ℕ, ◌+◌, ◌-◌, String, Bool, false, not, ◌&&◌, ◌||◌, Option, none, some, List, [], ◌∷◌, ◌++◌, map,
  any, filter, str_eq, str_lt, ◌==◌, leb, if◌then◌else◌, max,
}
use governator.Dbtime.{unset_unix_nano, int64_lt}
use governator.Quota.{Window, Row, Db}

-- A time as both columns store it.
pub record Stamp : Type 0 where
  pub text : String
  pub nanos : ℕ

-- `WHERE backend=? AND account=?`.
abbrev pub is_of : String → String → Window → Bool
is_of backend account w = str_eq w.backend backend && str_eq w.account account

-- `... AND window_type=?`: the primary key.
abbrev pub is_key : String → String → String → Window → Bool
is_key backend account window_type w = is_of backend account w && str_eq w.window_type window_type

-- The condition of the update in `Reserve`; a limit of 0 is none.
abbrev pub has_room : ℕ → Window → Bool
has_room usage w =
    w.estimated_limit == 0 || leb (w.measured_usage + w.reserved_usage + usage) w.estimated_limit

abbrev pub reserve_window : String → String → String → ℕ → Stamp → Window → Window
reserve_window backend account window_type usage now w =
    if is_key backend account window_type w && has_room usage w
    then record w {
      reserved_usage = w.reserved_usage + usage;
      updated_at = now.text;
      updated_unix_nano = now.nanos;
    }
    else w

-- Whether that update affects a row.
abbrev pub reserves : String → String → String → ℕ → List Window → Bool
reserves backend account window_type usage ws =
    any (λ w. is_key backend account window_type w && has_room usage w) ws

abbrev pub new_row : ℕ → String → String → String → ℕ → ℕ → ℕ → Row
new_row id run_id backend account usage expires created = record {
  id = id;
  run_id = run_id;
  backend = backend;
  account = account;
  usage = usage;
  measured_usage = 0;
  expired = false;
  settled_at = "";
  expires_unix_nano = expires;
  created_unix_nano = created;
  settled_unix_nano = unset_unix_nano;
}

unfoldable pub insert_row : String → String → String → ℕ → ℕ → ℕ → Db → Db
insert_row run_id backend account usage expires created d = record d {
  reservations =
      d.reservations ++ new_row d.next_id run_id backend account usage expires created ∷ [];
  next_id = d.next_id + 1;
}

-- `WHERE id=? AND settled_at=''`, and the row that RETURNING gives.
abbrev pub is_unsettled : Row → Bool
is_unsettled r = str_eq r.settled_at ""

abbrev pub is_open : ℕ → Row → Bool
is_open id r = r.id == id && is_unsettled r

unfoldable pub find_open : ℕ → List Row → Option Row
find_open id [] = none
find_open id (r ∷ rows) = if is_open id r then some r else find_open id rows

abbrev pub claim_row : ℕ → Stamp → Bool → Row → Row
claim_row id now expired r =
    if is_open id r
    then record r { settled_at = now.text; settled_unix_nano = now.nanos; expired = expired }
    else r

unfoldable pub claim_rows : ℕ → Stamp → Bool → Db → Db
claim_rows id now expired d = record d {
  reservations = map (claim_row id now expired) d.reservations;
}

-- The update of the windows in `Release`, `expireOne` and, with a measured usage, in `Settle`.
-- `MAX(reserved_usage-?,0)` is the subtraction that stops at 0.
abbrev pub close_window : String → String → ℕ → ℕ → Stamp → Window → Window
close_window backend account reserved measured now w =
    if is_of backend account w
    then record w {
      reserved_usage = w.reserved_usage - reserved;
      measured_usage = w.measured_usage + measured;
      updated_at = now.text;
      updated_unix_nano = now.nanos;
    }
    else w

unfoldable pub close_windows : String → String → ℕ → ℕ → Stamp → Db → Db
close_windows backend account reserved measured now d = record d {
  windows = map (close_window backend account reserved measured now) d.windows;
}

-- `UPDATE quota_reservations SET measured_usage=? WHERE id=?`.
unfoldable pub measure_rows : ℕ → ℕ → Db → Db
measure_rows id measured d = record d {
  reservations =
      map (λ (r : Row). if r.id == id then record r { measured_usage = measured } else r)
        d.reservations;
}

-- `settled_at='' AND expires_unix_nano<>? AND expires_unix_nano<?`.
abbrev pub is_stale : ℕ → Row → Bool
is_stale now r =
    is_unsettled r
    && (not (r.expires_unix_nano == unset_unix_nano) && int64_lt r.expires_unix_nano now)

abbrev pub stale_ids : ℕ → List Row → List ℕ
stale_ids now rows = map (λ (r : Row). r.id) (filter (is_stale now) rows)

-- `run_id=? AND settled_at=''`.
abbrev pub run_ids : String → List Row → List ℕ
run_ids run_id rows =
    map (λ (r : Row). r.id) (filter (λ r. str_eq r.run_id run_id && is_unsettled r) rows)

-- `reset_unix_nano<>? AND reset_unix_nano<=?`, on signed numbers.
abbrev pub is_due : ℕ → Window → Bool
is_due now w = not (w.reset_unix_nano == unset_unix_nano) && not (int64_lt now w.reset_unix_nano)

-- The update of `rolloverExpired`.
abbrev pub roll_window : String → String → String → Stamp → Stamp → Stamp → Window → Window
roll_window backend account window_type start reset now w =
    if is_key backend account window_type w
    then record w {
      window_started_at = start.text;
      reset_at = reset.text;
      measured_usage = 0;
      reserved_usage = 0;
      updated_at = now.text;
      window_started_unix_nano = start.nanos;
      reset_unix_nano = reset.nanos;
      updated_unix_nano = now.nanos;
    }
    else w

-- INSERT ... ON CONFLICT(backend,account,window_type) DO UPDATE, by what it does on a conflict.
unfoldable pub upsert_window : Window → (Window → Window) → List Window → List Window
upsert_window new change [] = new ∷ []
upsert_window new change (w ∷ ws) =
    if is_key new.backend new.account new.window_type w
    then change w ∷ ws
    else w ∷ upsert_window new change ws

-- On a conflict the upsert of `SeedFromConfig` keeps the usages and the start of the window.
abbrev pub reseed : Window → Window → Window
reseed new w = record w {
  estimated_limit = new.estimated_limit;
  reset_at = new.reset_at;
  confidence = new.confidence;
  source = "config";
  updated_at = new.updated_at;
  reset_unix_nano = new.reset_unix_nano;
  updated_unix_nano = new.updated_unix_nano;
}

-- That of `ApplyResetHint` keeps the limit as well.
abbrev pub hint : Window → Window → Window
hint new w = record w {
  reset_at = new.reset_at;
  confidence = max w.confidence 900000;
  source = "error_hint";
  updated_at = new.updated_at;
  reset_unix_nano = new.reset_unix_nano;
  updated_unix_nano = new.updated_unix_nano;
}

-- `ORDER BY window_type`.
unfoldable pub insert_by_type : Window → List Window → List Window
insert_by_type w [] = w ∷ []
insert_by_type w (v ∷ vs) =
    if str_lt v.window_type w.window_type then v ∷ insert_by_type w vs else w ∷ v ∷ vs

unfoldable pub sort_by_type : List Window → List Window
unfolding insert_by_type
sort_by_type [] = []
sort_by_type (w ∷ ws) = insert_by_type w (sort_by_type ws)

-- `remaining`.
abbrev pub remaining : Window → ℕ
remaining w = w.estimated_limit - w.measured_usage - w.reserved_usage
