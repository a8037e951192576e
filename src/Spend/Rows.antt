-- ===== src/Spend/Rows.antt =====
-- The tables that internal/spend/reservation.go reads and writes, and each of its SQL statements as a
-- function of them.
use governator.Prelude.{
  ℕ, ◌+◌, String, Bool, true, false, not, ◌&&◌, Option, none, some, List, [], ◌∷◌, ◌++◌, map, any,
  str_eq, ◌==◌, leb, if◌then◌else◌, sum_of, ℤ, pos_part,
}
use governator.Dbtime.{unset_unix_nano, int64_lt}
use governator.Spend.{Run, finished_on}

pub data Status : Type 0 where
  pending settled released expired : Status

abbrev pub is_pending : Status → Bool
is_pending pending = true
is_pending _ = false

abbrev pub is_settled : Status → Bool
is_settled settled = true
is_settled _ = false

-- A row of `spend_reservations`; the text columns of its times are left out.
pub record Row : Type 0 where
  pub id : ℕ
  pub run_id : String
  pub day : String
  pub estimated_usd : ℕ
  pub actual_usd : ℕ
  pub status : Status
  pub expires_unix_nano : ℕ
  pub created_unix_nano : ℕ
  pub settled_unix_nano : ℕ

-- The two tables, and the next value of AUTOINCREMENT.
pub record Ledger : Type 0 where
  pub runs : List Run
  pub reservations : List Row
  pub next_id : ℕ

-- `id IN (SELECT run_id FROM spend_reservations WHERE run_id<>'' AND day=?)`.
abbrev pub has_reservation : List Row → String → String → Bool
has_reservation rows day id =
    any (λ (r : Row). not (str_eq r.run_id "") && (str_eq r.day day && str_eq r.run_id id)) rows

-- The three terms of the sum in `ReserveGlobal`.
abbrev pub run_term : List Row → String → Run → ℕ
run_term rows day r =
    if finished_on day r && not (has_reservation rows day r.id) then r.cost_usd else 0

abbrev pub pending_term : String → Row → ℕ
pending_term day r = if str_eq r.day day && is_pending r.status then r.estimated_usd else 0

abbrev pub settled_term : String → Row → ℕ
settled_term day r = if str_eq r.day day && is_settled r.status then r.actual_usd else 0

unfoldable pub committed : Ledger → String → ℕ
committed l day =
    sum_of (run_term l.reservations day) l.runs
    + sum_of (pending_term day) l.reservations
    + sum_of (settled_term day) l.reservations

-- The statement of `expireStaleReservations`.
abbrev pub is_stale : ℕ → Row → Bool
is_stale now r =
    is_pending r.status
    && (not (r.expires_unix_nano == unset_unix_nano) && int64_lt r.expires_unix_nano now)

abbrev pub expire_row : ℕ → Row → Row
expire_row now r =
    if is_stale now r then record r { status = expired; settled_unix_nano = now } else r

unfoldable pub expire_rows : ℕ → Ledger → Ledger
expire_rows now l = record l { reservations = map (expire_row now) l.reservations }

abbrev pub new_row : ℕ → String → String → ℕ → ℕ → ℕ → Row
new_row id run_id day estimate expires created = record {
  id = id;
  run_id = run_id;
  day = day;
  estimated_usd = estimate;
  actual_usd = 0;
  status = pending;
  expires_unix_nano = expires;
  created_unix_nano = created;
  settled_unix_nano = unset_unix_nano;
}

-- INSERT with no condition.
unfoldable pub insert_row : String → String → ℕ → ℕ → ℕ → Ledger → Ledger
insert_row run_id day estimate expires created l = record l {
  reservations = l.reservations ++ new_row l.next_id run_id day estimate expires created ∷ [];
  next_id = l.next_id + 1;
}

-- The condition of INSERT ... SELECT ... WHERE.
unfoldable pub fits : ℕ → String → ℕ → Ledger → Bool
fits cap day estimate l = leb (committed l day + estimate) cap

-- That statement: it inserts one row or none.
unfoldable pub insert_within : ℕ → String → String → ℕ → ℕ → ℕ → Ledger → Ledger
unfolding fits insert_row
insert_within cap run_id day estimate expires created l =
    if fits cap day estimate l then insert_row run_id day estimate expires created l else l

-- `UPDATE ... WHERE id=? AND status='pending' RETURNING estimated_usd`: the row that it returns.
abbrev pub is_open : ℕ → Row → Bool
is_open id r = r.id == id && is_pending r.status

unfoldable pub find_open : ℕ → List Row → Option Row
find_open id [] = none
find_open id (r ∷ rows) = if is_open id r then some r else find_open id rows

abbrev pub settle_amount : ℤ → Bool → Row → ℕ
settle_amount actual available r = if available then pos_part actual else r.estimated_usd

-- The two updates of `SettleGlobal`, in one transaction; `id` is the primary key.
abbrev pub settle_row : ℕ → ℕ → ℤ → Bool → Row → Row
settle_row id now actual available r =
    if is_open id r
    then record r {
      status = settled;
      settled_unix_nano = now;
      actual_usd = settle_amount actual available r;
    }
    else r

unfoldable pub settle_rows : ℕ → ℕ → ℤ → Bool → Ledger → Ledger
settle_rows id now actual available l = record l {
  reservations = map (settle_row id now actual available) l.reservations;
}

-- The statements of `ReleaseGlobal` and `ReleaseForRun`, by the rows that they select.
abbrev pub release_row : (Row → Bool) → ℕ → Row → Row
release_row selects now r =
    if selects r && is_pending r.status
    then record r { status = released; settled_unix_nano = now }
    else r

unfoldable pub release_rows : (Row → Bool) → ℕ → Ledger → Ledger
release_rows selects now l = record l {
  reservations = map (release_row selects now) l.reservations;
}
