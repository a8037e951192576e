-- ===== src/Spend/Halt.antt =====
-- The halt file of internal/spend/spend.go and the operations that heed it.
use governator.Prelude.{
  ℕ, ◌≤◌, ◌≡◌, Bool, true, false, String, none, some, arith, ℤ, pos_part, str_eq,
}
use governator.Dbtime.{Time}
use governator.Spend.{
  Config, is_capped, is_halted, Today, Writes, halt_file_present, Read, answer, maybe_halt,
  check_budget, Removal, resume, removed, missing, failed,
}
use governator.Spend.Accountant as InProcess
use governator.Spend.Accountant.{Accountant}
use governator.Spend.Rows.{Ledger}
use governator.Spend.Reservation.{refused, Faults, reserve_global}

abbrev pub is_failed : Removal → Bool
is_failed (failed e) = true
is_failed _ = false

-- The writes of the halt file succeed.
abbrev pub working : Writes
working = record { mkdir = none; write = none; left_behind = false }

module _ (cfg : Config) (today : Today) (present : Bool) (named : str_eq cfg.halt_file "" ≡ false)
    (capped : is_capped cfg ≡ true)
    (spent : pos_part cfg.daily_cap_usd ≤ today.total_cost_usd) where
  maybe_halt-present : (maybe_halt cfg working present (answer today)).0 ≡ true
  unfolding maybe_halt
  maybe_halt-present = ground arith

  -- Once the total of a day has reached the cap and the hook after a run has written the halt file,
  -- every later check of the budget, reservation of a batch and reservation in the ledger is
  -- refused for the halt file and changes nothing, on whatever day and whatever the ledger says,
  -- and `Resume` lifts the halt unless the removal of the file fails.
  pub maybe_halt-refuses :
      (later : Read) (estimate : ℕ) (a : Accountant) (day_of : Time → String) (f : Faults)
      (run_id : String) (amount : ℤ) (ttl : ℕ) (now : Time) (l : Ledger) (r : Removal)
      → let halted = (maybe_halt cfg working present (answer today)).0 in
        (check_budget cfg halted later ≡ some (halt_file_present cfg.halt_file))
        × (InProcess.reserve cfg halted estimate a ≡ (a, some InProcess.Refusal.halt_file))
        × (reserve_global day_of cfg halted f run_id amount ttl now l
            ≡ (l, refused (halt_file_present cfg.halt_file)))
        × (is_halted cfg (resume cfg r halted).0 ≡ is_failed r)
  unfolding check_budget InProcess.reserve reserve_global is_halted resume
  maybe_halt-refuses later estimate a day_of f run_id amount ttl now l r =
      rw maybe_halt-present (ground arith, ground arith, ground arith, lifted r)
    where
      lifted : (r : Removal) → is_halted cfg (resume cfg r true).0 ≡ is_failed r
      lifted removed = ground arith
      lifted missing = ground arith
      lifted (failed e) = ground arith
