-- ===== src/Spend/Accountant.antt =====
-- internal/spend/accountant.go: the reservations of one batch, which its workers make one at a time
-- under a mutex.
use governator.Prelude.{ℕ, ◌+◌, ◌-◌, Bool, Option, none, some, leb, if◌then◌else◌, pos_part}
use governator.Spend.{Config, is_capped, is_halted, Read, answer, read_error}

-- The fields of `Accountant` that change.
pub record Accountant : Type 0 where
  pub spent : ℕ
  pub pending : ℕ

-- `NewAccountant`, by the answer of `TodaySpend`.
unfoldable pub new_accountant : Read → Option Accountant
new_accountant (read_error e) = none
new_accountant (answer today) = some (record { spent = today.total_cost_usd; pending = 0 })

pub data Refusal : Type 0 where
  halt_file over_cap : Refusal

-- `Reserve`: `none` is ok, else the reason.
unfoldable pub reserve : Config → Bool → ℕ → Accountant → Accountant × Option Refusal
reserve cfg present estimate a =
    if is_halted cfg present
    then (a, some halt_file)
    else if is_capped cfg
    then if leb (a.spent + a.pending + estimate) (pos_part cfg.daily_cap_usd)
      then (record a { pending = a.pending + estimate }, none)
      else (a, some over_cap)
    else (record a { pending = a.pending + estimate }, none)

-- `Settle`; the subtraction stops at 0, as the reset of a negative `pending` does.
unfoldable pub settle : ℕ → ℕ → Accountant → Accountant
settle reserved actual a = record { spent = a.spent + actual; pending = a.pending - reserved }

-- `Spent`.
unfoldable pub spent_so_far : Accountant → ℕ
spent_so_far a = a.spent
