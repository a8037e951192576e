-- ===== src/Router/Score.antt =====
-- The weights and the scores of internal/router.
use governator.Prelude.{
  ℕ, ◌-◌, ◌==◌, String, Bool, true, false, Option, none, some, List, [], ◌∷◌, map, str_eq, ltb,
  if◌then◌else◌, ℤ, min, max,
}
use governator.Spend.{estimate_cost_usd}
use governator.Router.{Floats, BreakerState, degraded, QuotaSnapshot, ScoredCandidate, WeightSet}
use governator.Router.Evidence.{AssayEvidence, neutral, zero_score, full_score, clamp_unit}

abbrev pub is_survivor : {F : Type 0} → ScoredCandidate F → Bool
is_survivor c = elim c.exclusion [ none ↦ true | some r ↦ false ]

-- The least and the greatest cost of the survivors.
abbrev pub least_of : Option ℕ → ℕ → Option ℕ
least_of none c = some c
least_of (some m) c = some (min m c)

abbrev pub greatest_of : Option ℕ → ℕ → Option ℕ
greatest_of none c = some c
greatest_of (some m) c = some (max m c)

module _ {F : Type 0} (fl : Floats F) where
  -- `objectiveWeights`, in hundredths.
  abbrev weights_of : ℕ → ℕ → ℕ → ℕ → ℕ → ℕ → ℕ → WeightSet F
  weights_of valid severity cost breaker quota affinity assay = record {
    valid_rate = fl.literal valid 100;
    severity = fl.literal severity 100;
    cost = fl.literal cost 100;
    breaker = fl.literal breaker 100;
    quota = fl.literal quota 100;
    affinity = fl.literal affinity 100;
    assay_quality = fl.literal assay 100;
  }

  abbrev pub objective_weights : String → WeightSet F
  objective_weights objective =
      if str_eq objective "cheapest"
      then weights_of 18 10 50 5 5 5 7
      else if str_eq objective "most_reliable"
      then weights_of 30 28 5 18 5 5 9
      else weights_of 27 15 22 10 5 15 6

  abbrev pub shifted : WeightSet F → F → WeightSet F
  shifted w shift = record w {
    cost = fl.minus w.cost shift;
    valid_rate = fl.plus w.valid_rate (fl.times shift (fl.literal 40 100));
    severity = fl.plus w.severity (fl.times shift (fl.literal 25 100));
    breaker = fl.plus w.breaker (fl.times shift (fl.literal 20 100));
    assay_quality = fl.plus w.assay_quality (fl.times shift (fl.literal 15 100));
  }

  abbrev pub at_most_cost : WeightSet F → F → F
  at_most_cost w shift = if fl.less w.cost shift then w.cost else shift

  -- `riskAdjustedWeights`.
  abbrev pub risk_adjusted_weights : WeightSet F → String → WeightSet F
  risk_adjusted_weights w risk =
      if str_eq risk "high"
      then shifted w (at_most_cost w (fl.literal 15 100))
      else if str_eq risk "medium"
      then shifted w (at_most_cost w (fl.literal 5 100))
      else w

  -- `totalScore`.
  unfoldable pub total_score : ScoredCandidate F → WeightSet F → F
  total_score c w =
      fl.plus
        (fl.plus
          (fl.plus
            (fl.plus
              (fl.plus
                (fl.plus (fl.times c.valid_rate_score w.valid_rate)
                  (fl.times c.failure_severity_score w.severity))
                (fl.times c.cost_score w.cost))
              (fl.times c.breaker_score w.breaker))
            (fl.times c.quota_score w.quota))
          (fl.times c.repair_affinity_score w.affinity))
        (fl.times c.assay_quality_score w.assay_quality)

  -- `recomputeTotals`.
  unfoldable pub recompute_totals :
      List (ScoredCandidate F) → WeightSet F → List (ScoredCandidate F)
  unfolding total_score
  recompute_totals scored w =
      map
        (λ (c : ScoredCandidate F).
          if is_survivor c then record c { total = total_score c w } else c)
        scored

  abbrev pub valid_rate_component : ℕ → ℕ → F
  valid_rate_component runs valid =
      if runs == 0
      then neutral fl
      else clamp_unit fl (fl.divided (fl.of_int valid) (fl.of_int runs))

  abbrev pub severity_component : F → F
  severity_component rate = clamp_unit fl (fl.minus (full_score fl) rate)

  -- `breakerScore`.
  abbrev pub score_of_breaker : BreakerState → F
  score_of_breaker degraded = neutral fl
  score_of_breaker _ = full_score fl

  -- `quotaScore`.
  abbrev pub score_of_quota : QuotaSnapshot F → F
  score_of_quota q = if q.available then clamp_unit fl q.headroom_pct else full_score fl

  abbrev pub affinity_score : String → String → String → F
  affinity_score lineage lineage_agent candidate =
      if str_eq lineage ""
      then full_score fl
      else if str_eq lineage_agent ""
      then zero_score fl
      else if str_eq candidate lineage_agent
      then full_score fl
      else zero_score fl

  abbrev pub assay_quality_component : AssayEvidence F → F
  assay_quality_component e = clamp_unit fl (
      fl.divided
        (fl.plus (fl.plus (fl.plus e.assay_pass_rate e.validator_pass_rate) e.repair_success_rate)
          e.panel_agreement_rate)
        (fl.literal 4 1))

  module _ (lower : String → String) where
    abbrev pub cost_of : ℤ → ScoredCandidate F → ℕ
    cost_of max_tokens c = estimate_cost_usd lower c.agent max_tokens none

    unfoldable pub costs_from :
        (Option ℕ → ℕ → Option ℕ) → ℤ → Option ℕ → List (ScoredCandidate F) → Option ℕ
    unfolding estimate_cost_usd
    costs_from pick max_tokens best [] = best
    costs_from pick max_tokens best (c ∷ cs) =
        costs_from pick max_tokens
          (if is_survivor c then pick best (cost_of max_tokens c) else best) cs

    abbrev pub normalized : Option ℕ → Option ℕ → ℕ → F
    normalized none hi c = full_score fl
    normalized (some lo) none c = full_score fl
    normalized (some lo) (some hi) c =
        if ltb lo hi
        then clamp_unit fl (fl.divided (fl.of_int (hi - c)) (fl.of_int (hi - lo)))
        else full_score fl

    -- `finalizeCosts`, with the costs in microdollars.
    unfoldable pub finalize_costs : List (ScoredCandidate F) → ℤ → List (ScoredCandidate F)
    unfolding costs_from estimate_cost_usd
    finalize_costs scored max_tokens =
        let lo = costs_from least_of max_tokens none scored in
        let hi = costs_from greatest_of max_tokens none scored in
        map
          (λ (c : ScoredCandidate F).
            if is_survivor c
            then record c { cost_score = normalized lo hi (cost_of max_tokens c) }
            else c)
          scored
