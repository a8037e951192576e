-- ===== src/Spend/Tests.antt =====
-- Tests of internal/spend, and the theorems at concrete ledgers.
use governator.Prelude.{
  some, ◌++◌, Memᴰ, eq_iff, ℕ, ◌≤◌, ◌^◌, ◌+◌, ◌≡◌, ◌≢◌, refl, String, true, false, none, [], ◌∷◌,
  arith, pos, negsuc,
}
use governator.Dbtime.{Time, epoch, to_unix_nano, int64_lt}
use governator.Spend.{Config, Run, Today, is_halted, estimate_cost_usd}
use governator.Spend.Accountant as InProcess
use governator.Spend.Accountant.{Accountant}
use governator.Spend.Rows.{is_stale, Row, Ledger, pending, committed, expire_rows}
use governator.Spend.Reservation.{
  expire_stale_reservations, reserved, GlobalReservation, Faults, reserve_global, settle_global,
  release_global,
}
use governator.Spend.Booked.{booked}
use governator.Spend.Cap.{IsGranted, Reach, Reach-booked, reserve_global-IsGranted}
use governator.Spend.Reserving.{IsReserving, reserve_global-IsReserving}
use governator.Spend.Settled.{no_faults, settle_global-final}
use governator.Spend.Uncounted.{expired-uncounted}
use governator.Spend.Batch as Workers
use governator.Spend.Batch.{Batch, IsSound, Reach-IsSound}

abbrev config : Config
config = record { halt_file = "/state/HALT"; daily_cap_usd = pos 1000 }

abbrev day_of : Time → String
day_of t = "2026-01-01"

abbrev noon : Time
noon = epoch + 1000

abbrev fine : Faults
fine = record { expire = none; write = none; rows_affected = none; last_id = none }

abbrev empty : Ledger
empty = record { runs = []; reservations = []; next_id = 1 }

abbrev row : ℕ → String → ℕ → Row
row id run_id estimate = record {
  id = id;
  run_id = run_id;
  day = "2026-01-01";
  estimated_usd = estimate;
  actual_usd = 0;
  status = pending;
  expires_unix_nano = 1500;
  created_unix_nano = 1000;
  settled_unix_nano = 2 ^ 63;
}

abbrev one : Ledger
one = record { runs = []; reservations = row 1 "r1" 600 ∷ []; next_id = 2 }

abbrev first : GlobalReservation
first = record { id = 1; run_id = "r1"; day = "2026-01-01"; estimated_usd = 600 }

reserves :
    reserve_global day_of config false fine "r1" (pos 600) 500 noon empty ≡ (one, reserved first)
unfolding reserve_global is_halted committed to_unix_nano expire_rows
reserves = refl

-- A second reservation of the same size does not fit.
refuses : (reserve_global day_of config false fine "r2" (pos 600) 500 noon one).0 ≡ one
unfolding reserve_global is_halted committed to_unix_nano expire_rows int64_lt
refuses = refl

estimates : estimate_cost_usd (λ s. s) "glm" (pos 1000) none ≡ 3000
unfolding estimate_cost_usd
estimates = refl

estimates_unknown : estimate_cost_usd (λ s. s) "new" (pos 1000) none ≡ 15000
unfolding estimate_cost_usd
estimates_unknown = refl

empty_books : booked empty "2026-01-01" ≤ 1000
unfolding booked
empty_books = omega arith

Reach-booked_example :
    booked (reserve_global day_of config false fine "r1" (pos 600) 500 noon empty).0 "2026-01-01"
    ≤ 1000
Reach-booked_example =
    Reach-booked "2026-01-01"
      (reserve_global-IsReserving day_of config false fine "r1" (pos 600) 500 noon empty refl).1
      empty_books

reserve_global-IsReserving_example :
    let m = (reserve_global day_of config false fine "r1" (pos 600) 500 noon empty).0 in
    IsReserving 1000 "r1" "2026-01-01" 600 noon (noon + 500) empty m × Reach 1000 empty m
reserve_global-IsReserving_example =
    reserve_global-IsReserving day_of config false fine "r1" (pos 600) 500 noon empty refl

reserve_global-IsGranted_example : IsGranted 1000 "r1" "2026-01-01" 600 one first
reserve_global-IsGranted_example =
    reserve_global-IsGranted day_of config false fine "r1" (pos 600) 500 noon empty refl reserves

named : (row 1 "r1" 600).run_id ≢ ""
named h = ground (arith, eq_iff "r1" "", h)

abbrev finished : Run
finished = record {
  id = "r1";
  day = "2026-01-01";
  running = false;
  cost_usd = 900;
  cost_unavailable = false;
}

later_time : to_unix_nano (noon + 2000) ≢ none
unfolding to_unix_nano
later_time = λ e. cc e

expiry_time : to_unix_nano (noon + 1000) ≡ some 2000
unfolding to_unix_nano
expiry_time = refl

stale : is_stale 2000 (row 1 "r1" 600) ≡ true
unfolding int64_lt
stale = refl

-- The reservation of `r1` expires while the run still works, and the run then costs 900.
expired-uncounted_example :
    let m = (expire_stale_reservations (noon + 1000) none one).0 in
    (committed m "2026-01-01" + 600 ≤ committed one "2026-01-01")
    × (settle_global no_faults 1 (pos 900) true (noon + 2000) m ≡ (m, none))
    × (committed (record m { runs = m.runs ++ finished ∷ [] }) "2026-01-01"
        ≡ committed m "2026-01-01")
expired-uncounted_example =
    expired-uncounted one (row 1 "r1" 600) finished (noon + 1000) 2000 (pos 900) true (noon + 2000)
      (Memᴰ.head refl) (omega arith) named refl expiry_time stale later_time

settled_once : (settle_global no_faults 1 (pos 500) true noon one).1 ≡ none
unfolding settle_global to_unix_nano
settled_once = refl

settle_global-final_example :
    let m = (settle_global no_faults 1 (pos 500) true noon one).0 in
    ((settle_global no_faults 1 (negsuc 0) false noon m).0 ≡ m)
    × ((release_global 1 noon none m).0 ≡ m)
settle_global-final_example =
    settle_global-final one 1 no_faults no_faults (pos 500) (negsuc 0) true false noon noon none
      (omega arith) settled_once

abbrev fresh : Accountant
fresh = record { spent = 100; pending = 0 }

starts : (InProcess.reserve config false 300 fresh).1 ≡ none
unfolding InProcess.reserve is_halted
starts = refl

Reach-IsSound_example : IsSound 1000 100 (record {
  accountant = InProcess.settle 300 250 (InProcess.reserve config false 300 fresh).0;
  running = [];
})
Reach-IsSound_example = Reach-IsSound refl (
    Workers.Reach.next (Workers.Reach.next Workers.Reach.here (Workers.Step.start false 300 starts))
      (Workers.Step.finish [] 300 [] 250 refl (omega arith)))

abbrev spent_today : Today
spent_today = record { date = "2026-01-01"; runs = 4; total_cost_usd = 1200; unknown_cost_runs = 0 }
