-- ===== src/Lifecycle/Tests.antt =====
-- Runs of the ledger of internal/lifecycle/lifecycle.go on small inputs.
use governator.Prelude.{
  ◌≡◌, refl, ◌⊎◌, reverse, none, some, List, [], ◌∷◌, ◌++◌, Memᴰ, map, get_last?,
}
use governator.Lifecycle.{
  Stage, parsed, preflighted, routed, quota_reserved, workspace_ready, agent_running,
  descendants_terminated, audited, validating, final_validation_barrier, merged, approved,
  quarantined, complete, rolled_back, abandoned, cleanup_pending, invalid_transition, Row, Faults,
  Call, stage_history, record_checked, record_calls, validate, check_edge, transitions,
  terminal_stages, recovery_targets, stage_eq, record_stage,
}
use governator.Lifecycle.Walk.{Walk}
use governator.Lifecycle.Gate.{is_landing, landing-gated}
use governator.Lifecycle.Terminal.{terminal-absorbs}
use governator.Lifecycle.Answers.{acknowledged}
use governator.Lifecycle.History.{record_calls_walks}

-- Unfolding this opens all of the ledger.
opened : Unit {0}
unfolding record_calls record_checked stage_history validate check_edge stage_eq transitions
    terminal_stages recovery_targets record_stage
opened = tt

abbrev healthy : Faults
healthy = record { read = none; write = none }

abbrev call : Stage → Call
call s = record { faults = healthy; run_id = "r1"; stage = s; detail = ""; created = "t" }

abbrev to_validating : List Stage
to_validating =
    parsed ∷ preflighted ∷ routed ∷ quota_reserved ∷ workspace_ready ∷ agent_running
    ∷ descendants_terminated ∷ audited ∷ validating ∷ final_validation_barrier ∷ []

abbrev copied : List Stage
copied = to_validating ++ merged ∷ approved ∷ []

-- A run of a root that is no git repository.
copied_history : stage_history (record_calls [] (map call copied)) "r1" ≡ copied
unfolding opened
copied_history = refl

landing-gated_example :
    Memᴰ final_validation_barrier to_validating
    × Memᴰ validating to_validating
    × Memᴰ descendants_terminated to_validating
unfolding is_landing
landing-gated_example =
    landing-gated (map call copied) "r1" to_validating (approved ∷ []) merged copied_history refl

skips_validation :
    validate (parsed ∷ preflighted ∷ []) merged ≡ some (invalid_transition preflighted merged)
unfolding opened
skips_validation = refl

abbrev given_up : List Row
given_up = record_calls [] (map call (parsed ∷ abandoned ∷ []))

terminal-absorbs_example :
    (stage_history (record_calls given_up (map call (preflighted ∷ []))) "r1"
      ≡ stage_history given_up "r1")
    ⊎ ((abandoned ≡ complete)
        × (stage_history (record_calls given_up (map call (preflighted ∷ []))) "r1"
            ≡ stage_history given_up "r1" ++ rolled_back ∷ []))
unfolding opened
terminal-absorbs_example =
    terminal-absorbs given_up (map call (preflighted ∷ [])) "r1" abandoned refl refl

-- A quarantined run whose cleanup failed.
abbrev uncleaned : List Row
uncleaned = record_calls [] (map call (parsed ∷ preflighted ∷ quarantined ∷ cleanup_pending ∷ []))

acknowledged_example :
    (validate (stage_history uncleaned "r1") quarantined ≡ none)
    × ((Memᴰ quarantined (stage_history uncleaned "r1")
          × ((record_checked healthy uncleaned "r1" quarantined "" "t").0 ≡ uncleaned))
        ⊎ (¬ Memᴰ quarantined (stage_history uncleaned "r1")
            × (get_last?
                  (stage_history (record_checked healthy uncleaned "r1" quarantined "" "t").0 "r1")
                ≡ some quarantined)))
unfolding opened
acknowledged_example = acknowledged healthy uncleaned "r1" quarantined "" "t" refl

-- The call is accepted, and the run's last stage is still `CLEANUP_PENDING`.
quarantine_dropped :
    let (rows, err) = record_checked healthy uncleaned "r1" quarantined "" "t" in
    (err ≡ none) × (get_last? (stage_history rows "r1") ≡ some cleanup_pending)
unfolding opened
quarantine_dropped = (refl, refl)

record_calls_walks_example : Walk (reverse (stage_history (record_calls [] (map call copied)) "r1"))
record_calls_walks_example = record_calls_walks (map call copied) "r1"
