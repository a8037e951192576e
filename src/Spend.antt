-- ===== src/Spend.antt =====
-- internal/spend: the daily cap on what runs may cost, and the halt file. An amount of dollars is a
-- number of microdollars; the cap and the amounts that the source compares with zero are signed.
pub mod Rows
pub mod Reservation
pub mod Accountant
mod Booked
mod Cap
mod Reserving
mod Settled
mod Uncounted
mod Batch
mod Halt
mod Tests
use governator.Prelude.{
  ℕ, ◌+◌, ◌*◌, String, Bool, true, false, not, ◌&&◌, Option, none, some, List, [], ◌∷◌, str_eq, leb,
  ltb, if◌then◌else◌, filter, length, sum_of, ℤ, pos_part,
}

-- The part `spend` of the configuration.
pub record Config : Type 0 where
  pub halt_file : String
  pub daily_cap_usd : ℤ

-- `DailyCapUSD <= 0` means that there is no cap.
abbrev pub is_capped : Config → Bool
is_capped cfg = ltb 0 (pos_part cfg.daily_cap_usd)

-- A row of `runs`, by what the queries here read of it: `substr(created,1,10)`, whether the status
-- is RUNNING, and whether the notes hold `cost_unavailable`.
pub record Run : Type 0 where
  pub id : String
  pub day : String
  pub running : Bool
  pub cost_usd : ℕ
  pub cost_unavailable : Bool

pub record Today : Type 0 where
  pub date : String
  pub runs : ℕ
  pub total_cost_usd : ℕ
  pub unknown_cost_runs : ℕ

-- The rows that the query of `DaySpend` selects.
abbrev pub finished_on : String → Run → Bool
finished_on day r = str_eq r.day day && not r.running

-- `DaySpend` with a database that answers.
unfoldable pub day_spend : List Run → String → Today
day_spend runs day = record {
  date = day;
  runs = length (filter (finished_on day) runs);
  total_cost_usd = sum_of (λ (r : Run). r.cost_usd) (filter (finished_on day) runs);
  unknown_cost_runs =
      length (filter (λ (r : Run). r.cost_unavailable) (filter (finished_on day) runs));
}

-- `IsHalted`; whether `os.Stat` finds the file is an argument.
unfoldable pub is_halted : Config → Bool → Bool
is_halted cfg present = not (str_eq cfg.halt_file "") && present

pub data HaltError : Type 0 where
  not_configured : HaltError
  file_system ledger_error : String → HaltError

-- The answers of the file system to `os.MkdirAll` and to `os.WriteFile`: `none`, or an error; a
-- failing write may leave the file behind.
pub record Writes : Type 0 where
  pub mkdir : Option String
  pub write : Option String
  pub left_behind : Bool

abbrev pub written : Bool → Writes → Bool × Option HaltError
written present w = elim w.mkdir [
  | some e ↦ (present, some (file_system e))
  | none ↦ elim w.write [ some e ↦ (w.left_behind, some (file_system e)) | none ↦ (true, none) ]
]

-- `Halt`: whether the file is there afterwards, and the error.
unfoldable pub halt : Config → Writes → Bool → Bool × Option HaltError
halt cfg w present =
    if str_eq cfg.halt_file "" then (present, some not_configured) else written present w

pub data Removal : Type 0 where
  removed missing : Removal
  failed : String → Removal

abbrev pub after_removal : Bool → Removal → Bool × Option HaltError
after_removal present removed = (false, none)
after_removal present missing = (false, none)
after_removal present (failed e) = (present, some (file_system e))

-- `Resume`.
unfoldable pub resume : Config → Removal → Bool → Bool × Option HaltError
resume cfg answer present =
    if str_eq cfg.halt_file "" then (present, none) else after_removal present answer

pub data Reason : Type 0 where
  halt_file_present ledger_unavailable : String → Reason
  over_cap : Today → Reason

abbrev pub within : Config → Today → Option Reason
within cfg today =
    if leb (pos_part cfg.daily_cap_usd) today.total_cost_usd then some (over_cap today) else none

-- The answer of the ledger to `TodaySpend`.
pub data Read : Type 0 where
  answer : Today → Read
  read_error : String → Read

abbrev pub check_read : Config → Read → Option Reason
check_read cfg (read_error e) = some (ledger_unavailable e)
check_read cfg (answer today) = within cfg today

-- `CheckBudget`: the reason of a refusal, or `none`.
unfoldable pub check_budget : Config → Bool → Read → Option Reason
unfolding is_halted
check_budget cfg present ledger =
    if is_halted cfg present
    then some (halt_file_present cfg.halt_file)
    else if is_capped cfg
    then check_read cfg ledger
    else none

abbrev pub halt_over : Config → Writes → Bool → Read → Bool × Option HaltError
halt_over cfg w present (read_error e) = (present, some (ledger_error e))
halt_over cfg w present (answer today) =
    if leb (pos_part cfg.daily_cap_usd) today.total_cost_usd
    then halt cfg w present
    else (present, none)

-- `MaybeHalt`.
unfoldable pub maybe_halt : Config → Writes → Bool → Read → Bool × Option HaltError
unfolding halt
maybe_halt cfg w present ledger =
    if is_capped cfg then halt_over cfg w present ledger else (present, none)

-- `DefaultCostPerMTokUSD`, in dollars for a million tokens, which is microdollars for a token.
abbrev pub default_cost_per_m_tok_usd : List (String × ℕ)
default_cost_per_m_tok_usd =
    ("claude", 15)
    ∷ ("claude-code", 15)
    ∷ ("codex", 15)
    ∷ ("glm", 3)
    ∷ ("opencode", 15)
    ∷ ("pi", 15)
    ∷ []

abbrev pub fallback_cost_per_m_tok_usd : ℕ
fallback_cost_per_m_tok_usd = 15

abbrev pub unbounded_estimate_usd : ℕ
unbounded_estimate_usd = 250000

unfoldable pub rate_or_fallback : String → List (String × ℕ) → ℕ
rate_or_fallback name [] = fallback_cost_per_m_tok_usd
rate_or_fallback name ((n, rate) ∷ rates) =
    if str_eq n name then rate else rate_or_fallback name rates

abbrev pub rates_or_default : Option (List (String × ℕ)) → List (String × ℕ)
rates_or_default none = default_cost_per_m_tok_usd
rates_or_default (some rates) = rates

-- `EstimateCostUSD`; the lower case of the trimmed name, from the package `strings`, is the
-- parameter `normalize`.
unfoldable pub estimate_cost_usd : (String → String) → String → ℤ → Option (List (String × ℕ)) → ℕ
unfolding rate_or_fallback
estimate_cost_usd normalize backend max_tokens rates =
    if ltb 0 (pos_part max_tokens)
    then pos_part max_tokens * rate_or_fallback (normalize backend) (rates_or_default rates)
    else unbounded_estimate_usd
