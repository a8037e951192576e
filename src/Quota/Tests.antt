-- ===== src/Quota/Tests.antt =====
-- Tests of internal/quota, and the theorems at concrete tables.
use governator.Prelude.{
  ℕ, ◌+◌, ◌*◌, ◌≤◌, ◌<◌, ◌≡◌, ◌≢◌, ◌^◌, inr, refl, String, true, false, Option, none, some, List,
  [], ◌∷◌, All, arith, str_eq, eq_iff, pos, Memᴰ,
}
use governator.Dbtime.{Time, epoch, int64_lt, to_unix_nano, format_legacy, verify_legacy_round_trip}
use governator.Quota.{Window, Row, Db, no_headroom, database, corrupt_timestamp}
use governator.Quota.Calendar.{
  hour, day, window_start, next_reset, infer_window_type, window_bounds,
}
use governator.Quota.Rows.{is_of, find_open}
use governator.Quota.Operations.{
  ok, err, TxFaults, Faults, release, release_tx, settle, reserve, rollover_expired,
}
use governator.Quota.Operations.Tracked.{IsBalanced, open_usage}
use governator.Quota.Operations.Reach.{here, next, releasing, Reach-IsBalanced}
use governator.Quota.Operations.Expired.{Transactions}
use governator.Quota.Operations.Refined.{reserve-Reach}
use governator.Quota.Operations.Closed.{closed-final}
use governator.Quota.Operations.Rolled.{IsShortBy, release-IsShortBy}
use governator.Quota.Windows.{headroom, least, full, snapshot_of, headroom_of, windows}
use governator.Quota.Sources.{seed_from_config, apply_reset_hint}
use governator.Quota.Windows.Least.{IsAtMost, least-IsAtMost}

-- A layout with one time.
abbrev same : String → String
same s = s

abbrev month_start : Time → Time
month_start t = t

abbrev next_month : Time → Time
next_month t = t + 30 * day

abbrev noon : Time
noon = epoch + 1000

abbrev format : Time → String
format t = "T"

abbrev parse : String → Option Time
parse s = some noon

abbrev sound : TxFaults
sound = record { begin = none; claim = none; measure = none; update = none; commit = none }

abbrev fine : Faults
fine = record {
  stale = none;
  expire = λ id. sound;
  due = none;
  roll = λ w. none;
  select = none;
  begin = none;
  update = λ t. none;
  insert = none;
  last_id = none;
  commit = none;
}

abbrev window : String → ℕ → ℕ → ℕ → Window
window window_type limit measured reserved = record {
  backend = "claude";
  account = "default";
  window_type = window_type;
  window_started_at = "";
  reset_at = "";
  estimated_limit = limit;
  measured_usage = measured;
  reserved_usage = reserved;
  confidence = 600000;
  source = "config";
  updated_at = "T";
  window_started_unix_nano = 2 ^ 63;
  reset_unix_nano = 2 ^ 63;
  updated_unix_nano = 1000;
}

abbrev row : ℕ → String → ℕ → Row
row id run_id usage = record {
  id = id;
  run_id = run_id;
  backend = "claude";
  account = "default";
  usage = usage;
  measured_usage = 0;
  expired = false;
  settled_at = "";
  expires_unix_nano = 1500;
  created_unix_nano = 1000;
  settled_unix_nano = 2 ^ 63;
}

abbrev empty : Db
empty = record {
  windows = window "daily" 100 20 0 ∷ window "weekly" 0 20 0 ∷ [];
  reservations = [];
  next_id = 1;
}

abbrev one : Db
one = record {
  windows = window "daily" 100 20 30 ∷ window "weekly" 0 20 30 ∷ [];
  reservations = row 1 "r1" 30 ∷ [];
  next_id = 2;
}

booked :
    reserve same month_start next_month format parse fine "claude" "" "r1" (pos 30) 500 noon empty
    ≡ (one, ok (some (record { id = 1; backend = "claude"; account = "default"; usage = 30 })))
unfolding reserve to_unix_nano format_legacy verify_legacy_round_trip
booked = refl

-- The second window is not booked when the first has no room.
full_up :
    reserve same month_start next_month format parse fine "claude" "" "r2" (pos 60) 500 noon one
    ≡ (one, err (no_headroom "daily" 50))
unfolding reserve to_unix_nano format_legacy verify_legacy_round_trip int64_lt
full_up = refl

-- A commit that fails rolls the bookings back.
uncommitted :
    reserve same month_start next_month format parse
      (record fine { commit = some "disk full" })
      "claude"
      ""
      "r1"
      (pos 30)
      500
      noon
      empty
    ≡ (empty, err (database "disk full"))
unfolding reserve to_unix_nano format_legacy verify_legacy_round_trip
uncommitted = refl

settles :
    (settle same month_start next_month format parse sound 1 (pos 25) noon one).0.windows
    ≡ window "daily" 100 45 0 ∷ window "weekly" 0 45 0 ∷ []
unfolding settle to_unix_nano format_legacy
settles = refl

-- A corrupt number keeps a reservation from being booked.
corrupted :
    (reserve same month_start next_month format parse fine "claude" "" "r1"
      (pos 30)
      500
      noon
      (record empty {
        windows = record (window "daily" 100 20 0) { updated_unix_nano = 7 } ∷ [];
      })).1
    ≡ err (corrupt_timestamp "updated_unix_nano")
unfolding reserve to_unix_nano format_legacy verify_legacy_round_trip
corrupted = refl

rolls :
    (rollover_expired same month_start next_month format parse none
      (λ w. none)
      noon
      (record one {
        windows = record (window "daily" 100 20 30) { reset_unix_nano = 900; reset_at = "T" } ∷ [];
      })).0.windows
    ≡ record (window "daily" 100 0 0) {
      window_started_at = "T";
      window_started_unix_nano = 0;
      reset_at = "T";
      reset_unix_nano = day;
    }
      ∷ []
unfolding rollover_expired window_start next_reset to_unix_nano format_legacy int64_lt
rolls = refl

five_hours : infer_window_type noon (noon + 6 * hour) ≡ "5h"
unfolding infer_window_type
five_hours = refl

hinted :
    (apply_reset_hint same same month_start next_month format parse
      (λ l s. some noon)
      none
      "claude"
      ""
      (noon + day)
      noon
      (record empty { windows = [] })).0.windows
    ≡ record (window "daily" 0 0 0) {
      window_started_at = "T";
      window_started_unix_nano = 1000;
      reset_at = "T";
      reset_unix_nano = 1000 + day;
      confidence = 900000;
      source = "error_hint";
    }
      ∷ []
unfolding apply_reset_hint infer_window_type to_unix_nano format_legacy
hinted = refl

seeds :
    (seed_from_config same same month_start next_month format parse
      (λ l s. some noon)
      (λ q. none)
      noon
      (record {
        backend = "claude";
        account = "";
        window_type = "";
        window_started_at = "";
        reset_at = "";
        estimated_limit = pos 100;
        confidence = pos 2000000;
      }
        ∷ [])
      (record empty { windows = [] })).0.windows
    ≡ record (window "daily" 100 0 0) {
      window_started_at = "T";
      window_started_unix_nano = 0;
      reset_at = "T";
      reset_unix_nano = day;
      confidence = 1000000;
    }
      ∷ []
unfolding seed_from_config window_start next_reset to_unix_nano format_legacy
seeds = refl

lists :
    (windows same same month_start next_month format parse
      (λ l s. some noon)
      none
      (λ w. none)
      none
      noon
      (record empty {
        windows =
            window "weekly" 0 20 0
            ∷ record (window "5h" 1 1 1) { updated_unix_nano = 7 }
            ∷ window "daily" 100 20 0
            ∷ [];
      })).1
    ≡ ok empty.windows
unfolding windows to_unix_nano format_legacy verify_legacy_round_trip
lists = refl

-- The daily window of `one` is the one that `Headroom` reports.
reported :
    (headroom same same month_start next_month format parse
      (λ l s. some noon)
      fine
      "claude"
      ""
      noon
      one).1
    ≡ ok (snapshot_of (window "daily" 100 20 30))
unfolding headroom to_unix_nano format_legacy verify_legacy_round_trip
reported = refl

-- A weekly window whose month is that of its day.
window_bounds_example :
    (window_start same month_start next_month "weekly" noon ≤ noon)
    × (noon < next_reset same month_start next_month "weekly" noon)
window_bounds_example =
    window_bounds same month_start next_month "weekly" noon (omega arith, omega arith)

abbrev holding : ℕ → ℕ → List Row → Db
holding measured reserved rows = record {
  windows = window "daily" 100 measured reserved ∷ [];
  reservations = rows;
  next_id = 3;
}

abbrev held : Db
held = holding 20 30 (row 1 "r1" 30 ∷ [])

held-IsBalanced : IsBalanced held
unfolding open_usage
held-IsBalanced = record {
  keyed = λ b a t. ground arith;
  numbered = λ id. ground arith;
  below = (omega arith, tt);
  tracked = (refl, tt);
  within = (inr (omega arith), tt);
}

named : format_legacy format parse noon ≢ ""
unfolding format_legacy
named h = ground (arith, eq_iff (format_legacy format parse noon) "", h)

noon-to_unix_nano : to_unix_nano noon ≡ some 1000
unfolding to_unix_nano
noon-to_unix_nano = refl

abbrev released : Db
released = (release same month_start next_month format parse sound 1 noon held).0

released_eq : release same month_start next_month format parse sound 1 noon held ≡ (released, ok tt)
unfolding release to_unix_nano format_legacy
released_eq = refl

Reach-IsBalanced_example :
    IsBalanced (release_tx same month_start next_month format parse sound 1 noon held).0
Reach-IsBalanced_example =
    Reach-IsBalanced same month_start next_month format parse
      (next here (releasing sound 1 noon named)) held-IsBalanced

reserve-Reach_example :
    Transactions same month_start next_month format parse held
      (reserve same month_start next_month format parse fine "claude" "" "r2"
        (pos 20)
        500
        noon
        held).0
reserve-Reach_example =
    reserve-Reach same month_start next_month format parse 1000 fine "claude" "" "r2" (pos 20) 500
      noon held named noon-to_unix_nano (refl, tt) held-IsBalanced

closed-final_example :
    ((release same month_start next_month format parse sound 1 (noon + 5) released).0 ≡ released)
    × ((settle same month_start next_month format parse sound 1 (pos 25) (noon + 5) released).0
        ≡ released)
closed-final_example =
    closed-final same month_start next_month format parse 1 sound (pos 25) noon held named refl
      (omega arith) (inr released_eq) here sound (pos 25) (noon + 5)

-- Since its window was reset a reservation of 40 has been booked; that of 30 is older.
abbrev rolled : Db
rolled = holding 0 40 (row 1 "r1" 30 ∷ row 2 "r2" 40 ∷ [])

abbrev short : Db
short = (release same month_start next_month format parse sound 1 noon rolled).0

short_eq : release same month_start next_month format parse sound 1 noon rolled ≡ (short, ok tt)
unfolding release to_unix_nano format_legacy
short_eq = refl

-- Beside the open 40 there is room for 90 of a limit of 100.
overshoots :
    (reserve same month_start next_month format parse fine "claude" "" "r3"
      (pos 90)
      500
      noon
      short).1
    ≡ ok (some (record { id = 3; backend = "claude"; account = "default"; usage = 90 }))
unfolding reserve release to_unix_nano format_legacy verify_legacy_round_trip int64_lt
overshoots = refl

rolled-short :
    All
      (λ (w : Window).
        is_of "claude" "default" w ≡ true
        → IsShortBy 30 rolled.reservations w × (30 ≤ w.reserved_usage))
      rolled.windows
unfolding open_usage
rolled-short = ((λ h. (refl, omega arith)), tt)

found : find_open 1 rolled.reservations ≡ some (row 1 "r1" 30)
unfolding find_open
found = refl

release-IsShortBy_example :
    All
      (λ (w : Window). is_of "claude" "default" w ≡ true → IsShortBy 30 short.reservations w)
      short.windows
release-IsShortBy_example =
    release-IsShortBy same month_start next_month format parse 1 sound noon rolled (row 1 "r1" 30)
      named refl (omega arith) found rolled-short short_eq

least-IsAtMost_example :
    (w : Window) × Memᴰ w (window "daily" 100 20 30 ∷ window "weekly" 0 20 30 ∷ [])
    × (least full (window "daily" 100 20 30 ∷ window "weekly" 0 20 30 ∷ []) ≡ snapshot_of w)
    × All
        (λ v. IsAtMost (headroom_of w) (headroom_of v))
        (window "daily" 100 20 30 ∷ window "weekly" 0 20 30 ∷ [])
least-IsAtMost_example =
    least-IsAtMost (window "daily" 100 20 30) (window "weekly" 0 20 30 ∷ [])
      (ne "daily" refl, (ne "weekly" refl, tt))
  where
    ne : (s : String) → str_eq s "" ≡ false → s ≢ ""
    ne s f h = ground (arith, f, eq_iff s "", h)
