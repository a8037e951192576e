-- ===== src/Spend/Reservation.antt =====
-- internal/spend/reservation.go: reservations against the daily cap in the table
-- `spend_reservations`, which all processes share. An operation is a row of SQL statements; each
-- statement is a function of the ledger.
use governator.Prelude.{
  ℕ, ◌+◌, String, Bool, Option, none, some, str_eq, ◌==◌, if◌then◌else◌, ℤ, pos_part,
}
use governator.Dbtime.{Time, to_unix_nano}
use governator.Spend.Rows.{
  expire_rows, insert_row, fits, insert_within, find_open, settle_rows, release_rows, Row, Ledger,
}
use governator.Spend.{Config, is_capped, is_halted, day_spend, Reason, halt_file_present, over_cap}

pub data Error : Type 0 where
  time_out_of_range : Error
  database : String → Error

pub record GlobalReservation : Type 0 where
  pub id : ℕ
  pub run_id : String
  pub day : String
  pub estimated_usd : ℕ

pub data Answer : Type 0 where
  reserved : GlobalReservation → Answer
  refused : Reason → Answer
  failed : Error → Answer

-- What the database answers to the statements of an operation: `none`, or an error. `result` is
-- that of `RowsAffected` or `LastInsertId`, which come after the write.
pub record Faults : Type 0 where
  pub expire : Option String
  pub write : Option String
  pub rows_affected : Option String
  pub last_id : Option String

-- `expireStaleReservations`.
abbrev pub expire_at : Option ℕ → Option String → Ledger → Ledger × Option Error
expire_at none fault l = (l, some time_out_of_range)
expire_at (some now) (some e) l = (l, some (database e))
expire_at (some now) none l = (expire_rows now l, none)

unfoldable pub expire_stale_reservations : Time → Option String → Ledger → Ledger × Option Error
expire_stale_reservations now fault l = expire_at (to_unix_nano now) fault l

-- The answer after a row was inserted under an id.
abbrev pub granted : Option String → ℕ → String → String → ℕ → Answer
granted (some e) id run_id day estimate = failed (database e)
granted none id run_id day estimate =
    reserved (record { id = id; run_id = run_id; day = day; estimated_usd = estimate })

-- The branch with no cap.
abbrev pub reserve_uncapped : Faults → String → String → ℕ → ℕ → ℕ → Ledger → Ledger × Answer
reserve_uncapped f run_id day estimate expires created l = elim f.write [
  | some e ↦ (l, failed (database e))
  | none ↦ (
    insert_row run_id day estimate expires created l,
    granted f.last_id l.next_id run_id day estimate,
  )
]

-- The branch with a cap; the message of a refusal has the total of `DaySpend`.
abbrev pub inserted_answer : ℕ → Faults → String → String → ℕ → Ledger → Answer
inserted_answer cap f run_id day estimate l = elim f.rows_affected [
  | some e ↦ failed (database e)
  | none ↦
      if fits cap day estimate l
      then granted f.last_id l.next_id run_id day estimate
      else refused (over_cap (day_spend l.runs day))
]

abbrev pub reserve_capped : ℕ → Faults → String → String → ℕ → ℕ → ℕ → Ledger → Ledger × Answer
reserve_capped cap f run_id day estimate expires created l = elim f.write [
  | some e ↦ (l, failed (database e))
  | none ↦ (
    insert_within cap run_id day estimate expires created l,
    inserted_answer cap f run_id day estimate l,
  )
]

abbrev pub reserve_timed :
    Config → Faults → String → String → ℕ → Option ℕ → Option ℕ → Ledger → Ledger × Answer
reserve_timed cfg f run_id day estimate none created l = (l, failed time_out_of_range)
reserve_timed cfg f run_id day estimate (some expires) none l = (l, failed time_out_of_range)
reserve_timed cfg f run_id day estimate (some expires) (some created) l =
    if is_capped cfg
    then reserve_capped (pos_part cfg.daily_cap_usd) f run_id day estimate expires created l
    else reserve_uncapped f run_id day estimate expires created l

abbrev pub reserve_expired :
    Config
    → Faults
    → String
    → String
    → ℕ
    → Option ℕ
    → Option ℕ
    → Ledger × Option Error
    → Ledger × Answer
reserve_expired cfg f run_id day estimate expires created (l, some e) = (l, failed e)
reserve_expired cfg f run_id day estimate expires created (l, none) =
    reserve_timed cfg f run_id day estimate expires created l

-- `ReserveGlobal` on a ledger that is there. A negative estimate counts as 0; the UTC day of a time,
-- from the package `time`, is the parameter `day_of`.
unfoldable pub reserve_global :
    (Time → String) → Config → Bool → Faults → String → ℤ → ℕ → Time → Ledger → Ledger × Answer
unfolding expire_stale_reservations insert_within
reserve_global day_of cfg present f run_id estimate ttl now l =
    if is_halted cfg present
    then (l, refused (halt_file_present cfg.halt_file))
    else reserve_expired cfg f run_id (day_of now) (pos_part estimate) (to_unix_nano (now + ttl))
        (to_unix_nano now) (expire_stale_reservations now f.expire l)

-- What the database answers to the begin, the two updates and the commit of the transaction; each
-- error rolls it back.
pub record TxFaults : Type 0 where
  pub begin : Option String
  pub claim : Option String
  pub amount : Option String
  pub commit : Option String

abbrev pub tx_error : TxFaults → Option String
tx_error f = elim f.begin [
  | some e ↦ some e
  | none ↦ elim f.claim [
    | some e ↦ some e
    | none ↦ elim f.amount [ some e ↦ some e | none ↦ f.commit ]
  ]
]

abbrev pub claim_error : TxFaults → Option String
claim_error f = elim f.begin [ some e ↦ some e | none ↦ f.claim ]

abbrev pub settle_found : TxFaults → ℕ → ℤ → Bool → ℕ → Option Row → Ledger → Ledger × Option Error
settle_found f id actual available now none l = elim (claim_error f) [
  | some e ↦ (l, some (database e))
  | none ↦ (l, none)
]
settle_found f id actual available now (some r) l = elim (tx_error f) [
  | some e ↦ (l, some (database e))
  | none ↦ (settle_rows id now actual available l, none)
]

abbrev pub settle_at : TxFaults → ℕ → ℤ → Bool → Option ℕ → Ledger → Ledger × Option Error
settle_at f id actual available none l = (l, some time_out_of_range)
settle_at f id actual available (some now) l =
    settle_found f id actual available now (find_open id l.reservations) l

-- `SettleGlobal`.
unfoldable pub settle_global : TxFaults → ℕ → ℤ → Bool → Time → Ledger → Ledger × Option Error
unfolding find_open settle_rows
settle_global f id actual available now l =
    if id == 0 then (l, none) else settle_at f id actual available (to_unix_nano now) l

abbrev pub release_at : (Row → Bool) → Option ℕ → Option String → Ledger → Ledger × Option Error
release_at selects none fault l = (l, some time_out_of_range)
release_at selects (some now) (some e) l = (l, some (database e))
release_at selects (some now) none l = (release_rows selects now l, none)

-- `ReleaseGlobal`.
unfoldable pub release_global : ℕ → Time → Option String → Ledger → Ledger × Option Error
unfolding release_rows
release_global id now fault l =
    if id == 0 then (l, none) else release_at (λ (r : Row). r.id == id) (to_unix_nano now) fault l

-- `ReleaseForRun`.
unfoldable pub release_for_run : String → Time → Option String → Ledger → Ledger × Option Error
unfolding release_rows
release_for_run run_id now fault l =
    if str_eq run_id ""
    then (l, none)
    else release_at (λ (r : Row). str_eq r.run_id run_id) (to_unix_nano now) fault l
