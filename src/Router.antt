-- ===== src/Router.antt =====
-- internal/router/router.go: the choice of a backend for a job. The arithmetic of floating-point numbers,
-- the ledger and the hash of a policy are parameters. An integer of the source is signed where the
-- code compares it with zero.
pub mod Agents
pub mod Evidence
pub mod Score
pub mod Excluded
pub mod Choice
pub mod Resolve
pub mod Winner
pub mod Fit
pub mod Qualified
pub mod Health
mod Tests
use governator.Prelude.{ℕ, String, Bool, true, false, Option, none, some, List, [], ℤ}

-- What the code uses of `float64`: decimal literals, the conversion of an integer, and the arithmetic.
pub record Floats (F : Type 0) : Type 0 where
  pub literal : ℕ → ℕ → F
  pub of_int : ℕ → F
  pub plus : F → F → F
  pub minus : F → F → F
  pub times : F → F → F
  pub divided : F → F → F
  pub less : F → F → Bool
  pub equal : F → F → Bool

-- `contracts.RoutingRequirements`.
pub record Requirements : Type 0 where
  pub native_sandbox : Bool
  pub network_control : Bool
  pub read_only_mode : Bool
  pub vision : Bool
  pub tool_calling : Bool
  pub local_only : Bool
  pub min_context_tokens : ℤ
  pub min_output_tokens : ℤ

pub record Request : Type 0 where
  pub job_id : String
  pub job_type : String
  pub risk_class : String
  pub objective : String
  pub candidates : List String
  pub requirements : Requirements
  pub max_tokens : ℤ
  pub repair_lineage : String
  pub exclude_agents : List String

-- The block `routing` of a contract, and the fields of a contract that a request takes.
pub record Routing : Type 0 where
  pub objective : String
  pub candidates : List String
  pub requirements : Requirements

pub record Contract : Type 0 where
  pub job_id : String
  pub job_type : String
  pub risk_class : String
  pub max_tokens : ℤ
  pub repair_lineage : String
  pub routing : Option Routing

abbrev pub no_requirements : Requirements
no_requirements = record {
  native_sandbox = false;
  network_control = false;
  read_only_mode = false;
  vision = false;
  tool_calling = false;
  local_only = false;
  min_context_tokens = ℤ.pos 0;
  min_output_tokens = ℤ.pos 0;
}

abbrev pub routing_or_zero : Option Routing → Routing
routing_or_zero none = record { objective = ""; candidates = []; requirements = no_requirements }
routing_or_zero (some r) = r

-- `RequestFromContract`.
abbrev pub request_from_contract : Contract → Request
request_from_contract c =
    let r = routing_or_zero c.routing in
    record {
      job_id = c.job_id;
      job_type = c.job_type;
      risk_class = c.risk_class;
      objective = r.objective;
      candidates = r.candidates;
      requirements = r.requirements;
      max_tokens = c.max_tokens;
      repair_lineage = c.repair_lineage;
      exclude_agents = [];
    }

pub data BreakerState : Type 0 where
  closed degraded opened : BreakerState

pub record BreakerSnapshot : Type 0 where
  pub state : BreakerState
  pub reason : String

pub record QuotaSnapshot (F : Type 0) : Type 0 where
  pub headroom_pct : F
  pub available : Bool

-- `HealthSource`.
pub record HealthSource (F : Type 0) : Type 0 where
  pub breaker : String → BreakerSnapshot
  pub quota : String → QuotaSnapshot F

-- The text of an exclusion, by what it is printed from.
pub data Reason : Type 0 where
  diversity_exclusion unknown_backend missing_binary : Reason
  is_required : String → Reason
  tokens_required : String → ℤ → ℤ → Reason
  breaker_open : String → Reason

pub record ScoredCandidate (F : Type 0) : Type 0 where
  pub agent : String
  pub valid_rate_score : F
  pub failure_severity_score : F
  pub cost_score : F
  pub breaker_score : F
  pub quota_score : F
  pub repair_affinity_score : F
  pub assay_quality_score : F
  pub assay_pass_rate : F
  pub validator_pass_rate : F
  pub repair_success_rate : F
  pub panel_agreement_rate : F
  pub cost_per_accepted_usd : F
  pub total : F
  pub exclusion : Option Reason
  pub selected : Bool

pub record WeightSet (F : Type 0) : Type 0 where
  pub valid_rate : F
  pub severity : F
  pub cost : F
  pub breaker : F
  pub quota : F
  pub affinity : F
  pub assay_quality : F

pub record Decision (F : Type 0) : Type 0 where
  pub objective : String
  pub job_id : String
  pub job_type : String
  pub risk_class : String
  pub policy_hash : String
  pub selected : String
  pub candidates : List (ScoredCandidate F)
