-- ===== src/Quota/Operations.antt =====
-- The operations of internal/quota/quota.go that change its tables. An operation takes the tables and
-- returns them with a result; a transaction that fails leaves them as they were.
pub mod Tracked
pub mod Kept
pub mod Booked
pub mod Reach
pub mod Expired
pub mod Refined
pub mod Final
pub mod Closed
pub mod Rolled
use governator.Prelude.{
  ℕ, ◌+◌, ◌-◌, ◌==◌, String, Bool, true, false, not, ◌&&◌, ◌||◌, Option, none, some, List, [], ◌∷◌,
  map, filter, str_eq, str_lt, leb, ltb, if◌then◌else◌, ℤ, pos_part, is_positive,
}
use governator.Dbtime.{
  Time, unset_unix_nano, to_unix_nano, from_unix_nano, format_legacy, verify_legacy_round_trip,
}
use governator.Dbtime
use governator.Quota.{
  Window, Row, Db, Error, database, time_out_of_range, corrupt_timestamp, no_headroom,
  reset_hint_out_of_range,
}
use governator.Quota.Calendar.{window_start, next_reset, infer_window_type}
use governator.Quota.Rows.{
  Stamp, is_of, reserve_window, reserves, insert_row, find_open, claim_rows, close_windows,
  measure_rows, stale_ids, run_ids, is_due, roll_window, upsert_window, reseed, hint, sort_by_type,
  remaining,
}
pub use governator.Quota.Actions.{
  Result, ok, err, M, pure, fail, continue, ◌>>=◌, ◌>>◌, exec, query, rolled_back, transaction,
}

-- What the database answers to the statements of the transactions that close a reservation.
pub record TxFaults : Type 0 where
  pub begin : Option String
  pub claim : Option String
  pub measure : Option String
  pub update : Option String
  pub commit : Option String

-- To those of `Reserve` and of the reads before it; the transaction of an expiry by the id of its row,
-- and the update of a window by its type or, for its rollover, by the window.
pub record Faults : Type 0 where
  pub stale : Option String
  pub expire : ℕ → TxFaults
  pub due : Option String
  pub roll : Window → Option String
  pub select : Option String
  pub begin : Option String
  pub update : String → Option String
  pub insert : Option String
  pub last_id : Option String
  pub commit : Option String

pub record Reservation : Type 0 where
  pub id : ℕ
  pub backend : String
  pub account : String
  pub usage : ℕ

abbrev pub is_nil {ℓ} : {A : Type ℓ} → List A → Bool
is_nil [] = true
is_nil (x ∷ xs) = false

-- The lower case of a trimmed text, the months and the layout of times are of the packages `strings` and
-- `time`.
module _ (normalize : String → String) (month_start next_month : Time → Time)
    (format : Time → String) (parse : String → Option Time) where
  abbrev pub normalize_account : String → String
  normalize_account account = if str_eq (normalize account) "" then "default" else normalize account

  abbrev pub stamp_at : Time → Option ℕ → M Stamp
  stamp_at t none = fail time_out_of_range
  stamp_at t (some n) = pure (record { text = format_legacy format parse t; nanos = n })

  -- `ToUnixNano` and `formatTime` of one time.
  abbrev pub stamp : Time → M Stamp
  stamp t = stamp_at t (to_unix_nano t)

  -- `claimReservation`.
  abbrev pub claim_at : TxFaults → ℕ → Bool → Stamp → M (Option Row)
  claim_at f id expired at = do
    found ← query f.claim (λ d. find_open id d.reservations)
    exec none (claim_rows id at expired)
    pure found

  unfoldable pub claim_reservation : TxFaults → ℕ → Time → Bool → M (Option Row)
  unfolding claim_rows find_open
  claim_reservation f id now expired = do at ← stamp now; claim_at f id expired at

  -- The rest of the transactions of `Release` and `expireOne`.
  abbrev pub release_claimed : TxFaults → Time → Option Row → M (Unit {0})
  release_claimed f now none = pure tt
  release_claimed f now (some r) = do
    at ← stamp now
    exec f.update (close_windows r.backend r.account r.usage 0 at)
    exec f.commit (λ d. d)

  unfoldable pub release_tx : TxFaults → ℕ → Time → M (Unit {0})
  unfolding claim_reservation close_windows
  release_tx f id now =
      transaction f.begin
        (do claimed ← claim_reservation f id now true; release_claimed f now claimed)

  -- `Release`.
  unfoldable pub release : TxFaults → ℕ → Time → M (Unit {0})
  unfolding release_tx
  release f id now = if id == 0 then pure tt else release_tx f id now

  unfoldable pub release_each : (ℕ → TxFaults) → Time → List ℕ → M (Unit {0})
  unfolding release
  release_each f now [] = pure tt
  release_each f now (id ∷ ids) = do release (f id) id now; release_each f now ids

  -- `ReleaseForRun`.
  unfoldable pub release_for_run : Option String → (ℕ → TxFaults) → String → Time → M (Unit {0})
  unfolding release_each
  release_for_run select f run_id now =
      if str_eq run_id ""
      then pure tt
      else do ids ← query select (λ d. run_ids run_id d.reservations); release_each f now ids

  -- A measured usage that is not positive counts as the reserved one.
  abbrev pub settled_usage : ℤ → Row → ℕ
  settled_usage measured r = if is_positive measured then pos_part measured else r.usage

  abbrev pub settle_claimed : TxFaults → ℕ → ℤ → Time → Option Row → M (Unit {0})
  settle_claimed f id measured now none = pure tt
  settle_claimed f id measured now (some r) = do
    exec f.measure (measure_rows id (settled_usage measured r))
    at ← stamp now
    exec f.update (close_windows r.backend r.account r.usage (settled_usage measured r) at)
    exec f.commit (λ d. d)

  -- `Settle`.
  unfoldable pub settle : TxFaults → ℕ → ℤ → Time → M (Unit {0})
  unfolding claim_reservation close_windows measure_rows
  settle f id measured now =
      if id == 0
      then pure tt
      else transaction f.begin
          (do claimed ← claim_reservation f id now false; settle_claimed f id measured now claimed)

  unfoldable pub expire_each : (ℕ → TxFaults) → Time → List ℕ → M (Unit {0})
  unfolding release_tx
  expire_each f now [] = pure tt
  expire_each f now (id ∷ ids) = do release_tx (f id) id now; expire_each f now ids

  -- `ExpireStale`; `expireOne` is the transaction of `Release`.
  unfoldable pub expire_stale : Option String → (ℕ → TxFaults) → Time → M (Unit {0})
  unfolding expire_each
  expire_stale select f now = do
    at ← stamp now
    ids ← query select (λ d. stale_ids at.nanos d.reservations)
    expire_each f now ids

  unfoldable pub roll_each : (Window → Option String) → Stamp → Time → List Window → M (Unit {0})
  unfolding window_start next_reset
  roll_each f at now [] = pure tt
  roll_each f at now (k ∷ ks) = do
    start ← stamp (window_start normalize month_start next_month k.window_type now)
    reset ← stamp (next_reset normalize month_start next_month k.window_type now)
    exec (f k) (λ d. record d {
      windows = map (roll_window k.backend k.account k.window_type start reset at) d.windows;
    })
    roll_each f at now ks

  -- `rolloverExpired`.
  unfoldable pub rollover_expired : Option String → (Window → Option String) → Time → M (Unit {0})
  unfolding roll_each
  rollover_expired select f now = do
    at ← stamp now
    keys ← query select (λ d. filter (is_due at.nanos) d.windows)
    roll_each f at now keys

  abbrev pub checked : String → Option Dbtime.Error → M (Unit {0}) → M (Unit {0})
  checked column none rest = rest
  checked column (some e) rest = fail (corrupt_timestamp column)

  -- `scanWindow`: each numeric column against its text.
  unfoldable pub scan_window : Window → M (Unit {0})
  scan_window w =
      checked "window_started_unix_nano"
        (verify_legacy_round_trip format parse w.window_started_at w.window_started_unix_nano)
        (checked "reset_unix_nano"
          (verify_legacy_round_trip format parse w.reset_at w.reset_unix_nano)
          (checked "updated_unix_nano"
            (verify_legacy_round_trip format parse w.updated_at w.updated_unix_nano) (pure tt)))

  unfoldable pub scan_each : List Window → M (Unit {0})
  unfolding scan_window
  scan_each [] = pure tt
  scan_each (w ∷ ws) = do scan_window w; scan_each ws

  -- `windowsFor`.
  unfoldable pub windows_for : Faults → String → String → Time → M (List Window)
  unfolding rollover_expired scan_each sort_by_type
  windows_for f backend account now = do
    rollover_expired f.due f.roll now
    ws ← query f.select (λ d. sort_by_type (filter (is_of backend account) d.windows))
    scan_each ws
    pure ws

  -- The updates of `Reserve` for the windows that it has read.
  abbrev pub reserve_one : Option String → String → String → ℕ → Stamp → Window → M (Unit {0})
  reserve_one fault backend account usage at w = do
    booked ← query fault (λ d. reserves backend account w.window_type usage d.windows)
    exec none (λ d. record d {
      windows = map (reserve_window backend account w.window_type usage at) d.windows;
    })
    if booked then pure tt else fail (no_headroom w.window_type (remaining w))

  unfoldable pub reserve_each :
      (String → Option String) → String → String → ℕ → Stamp → List Window → M (Unit {0})
  reserve_each f backend account usage at [] = pure tt
  reserve_each f backend account usage at (w ∷ ws) = do
    reserve_one (f w.window_type) backend account usage at w
    reserve_each f backend account usage at ws

  abbrev pub insert_reserved :
      Faults → String → String → String → ℕ → Time → Stamp → M (Option Reservation)
  insert_reserved f backend account run_id usage expires at = do
    expiry ← stamp expires
    id ← query f.insert (λ d. d.next_id)
    exec f.last_id (insert_row run_id backend account usage expiry.nanos at.nanos)
    exec f.commit (λ d. d)
    pure (some (record { id = id; backend = backend; account = account; usage = usage }))

  -- The transaction of `Reserve`.
  unfoldable pub reserve_tx :
      Faults → String → String → String → ℕ → Time → Stamp → List Window → M (Option Reservation)
  unfolding reserve_each insert_row
  reserve_tx f backend account run_id usage expires at ws = transaction f.begin (do
    reserve_each f.update backend account usage at ws
    insert_reserved f backend account run_id usage expires at)

  abbrev pub reserve_windows :
      Faults → String → String → String → ℕ → ℕ → Time → List Window → M (Option Reservation)
  reserve_windows f backend account run_id usage ttl now ws =
      if is_nil ws
      then pure none
      else do at ← stamp now; reserve_tx f backend account run_id usage (now + ttl) at ws

  -- `Reserve` with a time to live that is not negative; `none` is the empty reservation.
  unfoldable pub reserve : Faults → String → String → String → ℤ → ℕ → Time → M (Option Reservation)
  unfolding expire_stale windows_for reserve_tx
  reserve f backend account run_id usage ttl now =
      if str_eq (normalize backend) "" || not (is_positive usage) then pure none else do
        expire_stale f.stale f.expire now
        ws ← windows_for f (normalize backend) (normalize_account account) now
        reserve_windows f (normalize backend) (normalize_account account) run_id (pos_part usage)
            ttl now ws
