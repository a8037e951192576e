-- ===== src/Lifecycle.antt =====
-- internal/lifecycle/lifecycle.go: the run state machine, and the run_stages table of
-- internal/observability/ledger.go that it guards.
mod Walk
mod History
pub mod Gate
pub mod Terminal
pub mod Answers
mod Tests
use governator.Prelude.{
  ℕ, String, ◌≡◌, Bool, true, false, not, ◌&&◌, Option, none, some, List, [], ◌∷◌, ◌++◌, map,
  is_yes, is_yes_iff, ◌↔◌, any, filter, get_last?, if◌then◌else◌, String-discrete, str_eq,
}

-- `Stage`: a constant of the package, or any other text that a row may hold.
pub data Stage : Type 0 where
  parsed preflighted routed quota_reserved workspace_ready agent_running output_truncated : Stage
  descendants_terminated audited validating assaying final_validation_barrier : Stage
  merge_intent merge_applied root_committed merged merged_ledger_pending : Stage
  ledger_finalizing approved quarantined complete rolled_back cleanup_pending abandoned : Stage
  other : String → Stage

unfoldable pub Stage-discrete : Discrete Stage
unfolding String-discrete
Stage-discrete = hlevel String-discrete

-- `==` of Go on two stages.
unfoldable pub stage_eq : Stage → Stage → Bool
unfolding Stage-discrete
stage_eq a b = is_yes (Stage-discrete a b)

pub stage_eq_iff : (a b : Stage) → (stage_eq a b ≡ true) ↔ (a ≡ b)
unfolding stage_eq
stage_eq_iff a b = is_yes_iff (Stage-discrete a b)

-- `terminalStages`.
unfoldable pub terminal_stages : Stage → Bool
terminal_stages complete = true
terminal_stages rolled_back = true
terminal_stages abandoned = true
terminal_stages merged_ledger_pending = true
terminal_stages _ = false

-- `transitions`, with the entry for `CLEANUP_PENDING` that `init` adds; a missing key is empty.
unfoldable pub transitions : Stage → List Stage
transitions parsed = preflighted ∷ []
transitions preflighted = quarantined ∷ routed ∷ []
transitions routed = quarantined ∷ quota_reserved ∷ []
transitions quota_reserved = workspace_ready ∷ quarantined ∷ []
transitions workspace_ready = agent_running ∷ []
transitions agent_running = output_truncated ∷ descendants_terminated ∷ []
transitions output_truncated = descendants_terminated ∷ []
transitions descendants_terminated = audited ∷ []
transitions audited = validating ∷ []
transitions validating = assaying ∷ final_validation_barrier ∷ quarantined ∷ []
transitions assaying = final_validation_barrier ∷ quarantined ∷ []
transitions final_validation_barrier = merge_intent ∷ merged ∷ quarantined ∷ []
transitions merge_intent = merge_applied ∷ quarantined ∷ []
transitions merge_applied = root_committed ∷ []
transitions root_committed = merged ∷ ledger_finalizing ∷ merged_ledger_pending ∷ []
transitions merged = ledger_finalizing ∷ approved ∷ quarantined ∷ merged_ledger_pending ∷ []
transitions ledger_finalizing = approved ∷ quarantined ∷ merged_ledger_pending ∷ []
transitions approved = complete ∷ rolled_back ∷ merged_ledger_pending ∷ []
transitions quarantined = complete ∷ merged_ledger_pending ∷ []
transitions complete = rolled_back ∷ []
transitions cleanup_pending = cleanup_pending ∷ abandoned ∷ quarantined ∷ []
transitions _ = []

-- `recoveryTargets`.
unfoldable pub recovery_targets : Stage → Bool
recovery_targets cleanup_pending = true
recovery_targets abandoned = true
recovery_targets quarantined = true
recovery_targets _ = false

-- The errors of `Validate` and, last, one that the database returned to `Record`.
pub data Error : Type 0 where
  not_first : Stage → Error
  terminal_transition : Stage → Stage → Error
  invalid_transition : Stage → Stage → Error
  database : String → Error

-- `Validate` behind its check of an empty history; `none` is the nil error.
unfoldable pub check_edge : Stage → Stage → Option Error
check_edge latest next =
    if stage_eq next latest
    then none
    else if not (terminal_stages latest) && recovery_targets next
    then none
    else if any (λ allowed. stage_eq allowed next) (transitions latest)
    then none
    else if terminal_stages latest
    then some (terminal_transition latest next)
    else some (invalid_transition latest next)

unfoldable pub validate : List Stage → Stage → Option Error
validate history next = elim (get_last? history) [
  | none ↦ if stage_eq next parsed then none else some (not_first next)
  | some latest ↦ check_edge latest next
]

-- A row of `run_stages`; the table is the list of its rows, oldest first (`ORDER BY id`).
pub record Row : Type 0 where
  pub run_id : String
  pub stage : Stage
  pub detail : String
  pub created : String

-- `observability.StageHistory`, as far as `Record` reads it.
unfoldable pub stage_history : List Row → String → List Stage
stage_history rows run = map (λ r. r.stage) (filter (λ r. str_eq r.run_id run) rows)

-- `observability.RecordStage`: a row with this run and stage stays as it is.
unfoldable pub record_stage : List Row → String → Stage → String → String → List Row
record_stage rows run stage detail created =
    if any (λ r. str_eq r.run_id run && stage_eq r.stage stage) rows
    then rows
    else rows ++ record { run_id = run; stage = stage; detail = detail; created = created } ∷ []

-- What SQLite answers to the two statements of one call: `none`, or an error that stops the call.
pub record Faults : Type 0 where
  pub read : Option String
  pub write : Option String

-- `if err != nil { return err }`: the table stays as it is.
abbrev pub attempt : Option Error → List Row → List Row × Option Error → List Row × Option Error
attempt (some e) rows rest = (rows, some e)
attempt none rows rest = rest

abbrev pub db_error : Option String → Option Error
db_error none = none
db_error (some e) = some (database e)

-- `Record`: the table and the error that it leaves.
unfoldable pub record_checked :
    Faults → List Row → String → Stage → String → String → List Row × Option Error
record_checked faults rows run stage detail created = attempt (db_error faults.read) rows (
    attempt (validate (stage_history rows run) stage) rows
      (attempt (db_error faults.write) rows (record_stage rows run stage detail created, none)))

-- One call of `Record` by any part of the runtime.
pub record Call : Type 0 where
  pub faults : Faults
  pub run_id : String
  pub stage : Stage
  pub detail : String
  pub created : String

-- The table after any calls, of any runs, in any order.
unfoldable pub record_calls : List Row → List Call → List Row
record_calls rows [] = rows
record_calls rows (c ∷ cs) =
    record_calls (record_checked c.faults rows c.run_id c.stage c.detail c.created).0 cs
