-- ===== src/Router/Resolve.antt =====
-- `evaluate` and `Resolve` of internal/router.
use governator.Prelude.{String, Bool, false, Option, none, some, List, map, str_eq, if◌then◌else◌}
use governator.Router.{
  Floats, Requirements, Request, closed, HealthSource, Reason, ScoredCandidate, WeightSet, Decision,
}
use governator.Router.Agents.{Capability, Backend, candidate_pool}
use governator.Router.Evidence.{Ledger, zero_score, evidence_for, assay_evidence_for}
use governator.Router.Score.{
  objective_weights, risk_adjusted_weights, total_score, recompute_totals, valid_rate_component,
  severity_component, score_of_breaker, score_of_quota, affinity_score, assay_quality_component,
  finalize_costs,
}
use governator.Router.Excluded.{model_capability, exclusion_of}
use governator.Router.Choice.{select_winner, selected_agent, order_for_display}

-- The fields of `Router`, with the probe of a binary as what it answers; `none` is a nil.
pub record Router (F : Type 0) : Type 0 where
  pub health : Option (HealthSource F)
  pub binary : String → Bool
  pub model_capability : Option (String → Capability → Capability)

-- `closedHealth`.
abbrev pub closed_health : {F : Type 0} → Floats F → HealthSource F
closed_health fl = record {
  breaker = λ name. record { state = closed; reason = "" };
  quota = λ name. record { headroom_pct = zero_score fl; available = false };
}

abbrev pub health_of : {F : Type 0} → Floats F → Option (HealthSource F) → HealthSource F
health_of fl none = closed_health fl
health_of fl (some h) = h

abbrev pub text_or : String → String → String
text_or default s = if str_eq s "" then default else s

-- The answer of `lineageAgentFor`, an error or an agent.
pub data Lineage : Type 0 where
  lineage_error : String → Lineage
  lineage_agent : String → Lineage

abbrev pub lineage_row : Option String → Option String → Lineage
lineage_row (some e) row = lineage_error e
lineage_row none none = lineage_agent ""
lineage_row none (some agent) = lineage_agent agent

-- `lineageAgentFor`.
abbrev pub lineage_agent_for : {F : Type 0} → Ledger F → String → Lineage
lineage_agent_for db lineage =
    if str_eq lineage ""
    then lineage_agent ""
    else lineage_row (db.lineage_error lineage) (db.lineage lineage)

-- The answer of `Resolve`.
pub data Answer (F : Type 0) : Type 0 where
  decided : Decision F → Answer F
  unread : String → Answer F

-- The hash of a policy, the lower and upper case of a trimmed text, and the backends of the configuration.
module _ {F : Type 0} (fl : Floats F) (policy_hash : WeightSet F → Requirements → String)
    (lower upper : String → String) (r : Router F) (backends : String → Backend)
    (db : Ledger F) where
  -- The exclusion of a candidate by this router.
  unfoldable pub exclusion : Request → String → Option Reason
  unfolding exclusion_of
  exclusion req name =
      exclusion_of req (model_capability r.model_capability backends) r.binary
        (λ n. (health_of fl r.health).breaker n) name

  abbrev pub unscored : String → Option Reason → ScoredCandidate F
  unscored name excluded = record {
    agent = name;
    valid_rate_score = zero_score fl;
    failure_severity_score = zero_score fl;
    cost_score = zero_score fl;
    breaker_score = zero_score fl;
    quota_score = zero_score fl;
    repair_affinity_score = zero_score fl;
    assay_quality_score = zero_score fl;
    assay_pass_rate = zero_score fl;
    validator_pass_rate = zero_score fl;
    repair_success_rate = zero_score fl;
    panel_agreement_rate = zero_score fl;
    cost_per_accepted_usd = zero_score fl;
    total = zero_score fl;
    exclusion = excluded;
    selected = false;
  }

  -- The soft scores of `evaluate`.
  abbrev pub scored_candidate : String → Request → String → ScoredCandidate F
  scored_candidate name req lineage =
      let e = evidence_for fl upper db name req.job_type in
      let assay = assay_evidence_for fl db name req.job_type in
      record (unscored name none) {
        valid_rate_score = valid_rate_component fl e.0 e.1.0;
        failure_severity_score = severity_component fl e.1.1;
        breaker_score = score_of_breaker fl ((health_of fl r.health).breaker name).state;
        quota_score = score_of_quota fl ((health_of fl r.health).quota name);
        repair_affinity_score = affinity_score fl req.repair_lineage lineage name;
        assay_quality_score = assay_quality_component fl assay;
        assay_pass_rate = assay.assay_pass_rate;
        validator_pass_rate = assay.validator_pass_rate;
        repair_success_rate = assay.repair_success_rate;
        panel_agreement_rate = assay.panel_agreement_rate;
        cost_per_accepted_usd = assay.cost_per_accepted_usd;
      }

  abbrev pub with_total : ScoredCandidate F → WeightSet F → ScoredCandidate F
  unfolding total_score
  with_total c w = record c { total = total_score fl c w }

  -- `evaluate`.
  unfoldable pub evaluate : String → Request → WeightSet F → String → ScoredCandidate F
  unfolding exclusion total_score evidence_for assay_evidence_for
  evaluate name req w lineage = elim (exclusion req name) [
    | some reason ↦ unscored name (some reason)
    | none ↦ with_total (scored_candidate name req lineage) w
  ]

  abbrev pub weights : Request → WeightSet F
  weights req =
      risk_adjusted_weights fl (objective_weights fl (text_or "balanced" req.objective))
        req.risk_class

  -- The candidates of `Resolve` before and after its choice.
  unfoldable pub evaluated : Request → String → List (ScoredCandidate F)
  unfolding candidate_pool evaluate finalize_costs recompute_totals
  evaluated req lineage =
      recompute_totals fl
        (finalize_costs fl lower
          (map (λ name. evaluate name req (weights req) lineage) (candidate_pool req.candidates))
          req.max_tokens)
        (weights req)

  abbrev pub decision_of : Request → List (ScoredCandidate F) → Decision F
  decision_of req scored = record {
    objective = text_or "balanced" req.objective;
    job_id = req.job_id;
    job_type = req.job_type;
    risk_class = req.risk_class;
    policy_hash = policy_hash (weights req) req.requirements;
    selected = selected_agent scored;
    candidates = order_for_display fl scored;
  }

  abbrev pub resolved_for : Request → Lineage → Answer F
  resolved_for req (lineage_error e) = unread e
  resolved_for req (lineage_agent a) =
      decided (decision_of req (select_winner fl (evaluated req a)))

  -- `Resolve`.
  unfoldable pub resolve : Request → Answer F
  unfolding evaluated select_winner selected_agent order_for_display
  resolve req = resolved_for req (lineage_agent_for db req.repair_lineage)
