-- ===== src/Router/Tests.antt =====
-- Tests of internal/router, and the theorems at concrete requests. A number of ten-thousandths stands for
-- a `float64`.
use governator.Prelude.{
  ℕ, ◌+◌, ◌-◌, ◌*◌, ◌/◌, ◌≡◌, ◌≢◌, ◌⊎◌, inl, refl, String, Bool, true, false, not, none, some, List,
  [], ◌∷◌, ltb, ◌==◌, str_eq, eq_iff, if◌then◌else◌, arith, Memᴰ, All, pos,
}
use governator.Breaker as Circuit
use governator.Breaker.{
  Kind, doctor_gated, apply_policy, is_valid_backend, is_infra_failure, registered_backends,
  on_kind, on_doctor_gated,
}
use governator.Breaker.Store as Table
use governator.Breaker.Store.{load, save, append_event, commit, record_failure, apply_op}
use governator.Breaker.Reachable.{Call, run_calls, new_db}
use governator.Quota as Plan
use governator.Quota.Operations as Booking
use governator.Router.{
  Floats, Requirements, Request, ScoredCandidate, WeightSet, Decision, no_requirements, Reason,
}
use governator.Router.Agents.{claude, Backend, candidate_pool, new_agent}
use governator.Router.Evidence.{Ledger}
use governator.Router.Resolve.{Router, decided, resolve}
use governator.Router.Choice.{select_winner, selected_agent}
use governator.Router.Winner.{IsOrder, IsBest, select_winner-IsBest}
use governator.Router.Qualified.{IsFit, resolve-IsQualified, resolve-selects}
use governator.Router.Health.{open-unselected, store_health}

abbrev fixed : Floats ℕ
fixed = record {
  literal = λ n d. n * 10000 / d;
  of_int = λ n. n * 10000;
  plus = λ a b. a + b;
  minus = λ a b. a - b;
  times = λ a b. a * b / 10000;
  divided = λ a b. a * 10000 / b;
  less = ltb;
  equal = λ a b. a == b;
}

fixed-IsOrder : IsOrder fixed
fixed-IsOrder = record {
  less_irrefl = λ a. ground arith;
  less_trans = λ a b c h k. ground (arith, h, k);
  equal_sym = λ a b h. ground (arith, h);
  equal_trans = λ a b c h k. ground (arith, h, k);
  less_equal = λ a b c h k. ground (arith, h, k);
  equal_less = λ a b c h k. ground (arith, h, k);
}

abbrev hash : WeightSet ℕ → Requirements → String
hash w q = "policy"

abbrev same : String → String
same s = s

abbrev undeclared : String → Backend
undeclared name = record {
  vision = false;
  tool_calling = false;
  local_only = false;
  context_tokens = pos 0;
  output_tokens = pos 0;
}

abbrev unused : Ledger ℕ
unused = record {
  lineage_error = λ run. none;
  lineage = λ run. none;
  profile = λ agent job. if str_eq agent "codex" then some (10, 9) else none;
  taxonomies = λ agent job. some (("VALIDATION_FAILED", 1) ∷ []);
  assay_verdicts = λ agent job. some [];
  validator_statuses = λ agent job. some [];
  repair_statuses = λ agent job. some [];
  panel_rows = λ agent job. some [];
  accepted_cost = λ agent job. none;
}

abbrev plain : Router ℕ
plain = record { health = none; binary = λ name. true; model_capability = none }

abbrev request : Requirements → Request
request q = record {
  job_id = "j";
  job_type = "code";
  risk_class = "high";
  objective = "most_reliable";
  candidates = "pi" ∷ "claude" ∷ "codex" ∷ "claude-code" ∷ [];
  requirements = q;
  max_tokens = pos 1000;
  repair_lineage = "";
  exclude_agents = [];
}

-- An alias and a repeated name give one candidate.
pools : candidate_pool (request no_requirements).candidates ≡ "claude-code" ∷ "codex" ∷ "pi" ∷ []
unfolding candidate_pool
pools = refl

abbrev sandboxed : Requirements
sandboxed = record no_requirements { native_sandbox = true }

abbrev networked : Requirements
networked = record no_requirements { network_control = true }

abbrev answer : Router ℕ → Request → String
unfolding resolve
answer r q = elim (resolve fixed hash same same r undeclared unused q) [
  | decided d ↦ d.selected
  | _ ↦ "unread"
]

-- The backend with evidence of valid outputs.
chooses : answer plain (request sandboxed) ≡ "codex"
unfolding resolve
chooses = refl

-- Only codex controls the network, and its binary is not there.
refuses :
    answer (record plain { binary = λ name. not (str_eq name "codex") }) (request networked) ≡ ""
unfolding resolve
refuses = refl

abbrev choice : Decision ℕ
choice = elim (resolve fixed hash same same plain undeclared unused (request sandboxed)) [
  | decided d ↦ d
  | _ ↦ record {
    objective = "";
    job_id = "";
    job_type = "";
    risk_class = "";
    policy_hash = "";
    selected = "";
    candidates = [];
  }
]

choice_eq :
    resolve fixed hash same same plain undeclared unused (request sandboxed) ≡ decided choice
unfolding resolve
choice_eq = refl

ne : (s : String) → str_eq s "" ≡ false → s ≢ ""
ne s f h = ground (arith, f, eq_iff s "", h)

choice_codex : choice.selected ≡ "codex"
unfolding resolve
choice_codex = refl

choice_ne : choice.selected ≢ ""
unfolding resolve
choice_ne = ne "codex" refl

resolve-IsQualified_example :
    Memᴰ choice.selected (candidate_pool (request sandboxed).candidates)
    × IsFit fixed hash same same plain undeclared unused (request sandboxed) choice.selected
resolve-IsQualified_example =
    resolve-IsQualified fixed hash same same plain undeclared unused fixed-IsOrder
      (request sandboxed) choice choice_eq choice_ne

claude-IsFit : IsFit fixed hash same same plain undeclared unused (request sandboxed) "claude-code"
unfolding new_agent
claude-IsFit = record {
  agent = claude;
  known = refl;
  not_named = refl;
  sandbox = λ h. refl;
  network = λ h. cc h;
  read_only = λ h. refl;
  vision = λ h. cc h;
  tool_calling = λ h. cc h;
  local_only = λ h. cc h;
  context = λ h. cc h;
  output = λ h. cc h;
  present = refl;
  closed = λ h. cc h;
}

claude-pooled : Memᴰ "claude-code" (candidate_pool (request sandboxed).candidates)
unfolding candidate_pool
claude-pooled = Memᴰ.head refl

resolve-selects_example :
    (d : Decision ℕ) × (resolve fixed hash same same plain undeclared unused (request sandboxed)
      ≡ decided d)
    × (d.selected ≢ "")
resolve-selects_example =
    resolve-selects fixed hash same same plain undeclared unused fixed-IsOrder (request sandboxed)
      "" "claude-code" refl claude-pooled claude-IsFit

-- Two survivors of one total, and one that is excluded with a greater one.
abbrev candidate : String → Bool → ℕ → ScoredCandidate ℕ
candidate agent is_free total = record {
  agent = agent;
  valid_rate_score = 0;
  failure_severity_score = 0;
  cost_score = 0;
  breaker_score = 0;
  quota_score = 0;
  repair_affinity_score = 0;
  assay_quality_score = 0;
  assay_pass_rate = 0;
  validator_pass_rate = 0;
  repair_success_rate = 0;
  panel_agreement_rate = 0;
  cost_per_accepted_usd = 0;
  total = total;
  exclusion = if is_free then none else some Reason.unknown_backend;
  selected = false;
}

abbrev table : List (ScoredCandidate ℕ)
table = candidate "pi" true 70 ∷ candidate "glm" false 90 ∷ candidate "codex" true 70 ∷ []

tie_by_name : selected_agent (select_winner fixed table) ≡ "codex"
unfolding select_winner selected_agent
tie_by_name = refl

select_winner-IsBest_example :
    (All (λ (c : ScoredCandidate ℕ). c.exclusion ≢ none) table
      × (selected_agent (select_winner fixed table) ≡ ""))
    ⊎ ((c : ScoredCandidate ℕ) × IsBest fixed table c
        × (selected_agent (select_winner fixed table) ≡ c.agent))
select_winner-IsBest_example =
    select_winner-IsBest fixed fixed-IsOrder table (refl, (refl, (refl, tt)))

-- The breaker of codex after an expired login.
abbrev calls : List Call
calls =
    record {
      faults = record { load = none; save = none; event = none };
      op = Table.Op.fail "codex" Kind.auth_expired 0;
      now = 5;
    }
    ∷ []

abbrev quiet : Booking.Faults
quiet = record {
  stale = none;
  expire =
      λ id. record { begin = none; claim = none; measure = none; update = none; commit = none };
  due = none;
  roll = λ w. none;
  select = none;
  begin = none;
  update = λ t. none;
  insert = none;
  last_id = none;
  commit = none;
}

abbrev no_plan : Plan.Db
no_plan = record { windows = []; reservations = []; next_id = 1 }

abbrev careful : Router ℕ
careful = record plain {
  health = some (
      store_health fixed same same (λ t. t) (λ t. t + 1) (λ t. "") (λ s. none) (λ l s. none) none
        (run_calls new_db calls) quiet no_plan 300);
}

abbrev wary : Decision ℕ
wary = elim (resolve fixed hash same same careful undeclared unused (request networked)) [
  | decided d ↦ d
  | _ ↦ choice
]

wary_eq : resolve fixed hash same same careful undeclared unused (request networked) ≡ decided wary
unfolding resolve
wary_eq = refl

expired_opened : (load (run_calls new_db calls) "codex").persisted_state ≡ Circuit.State.opened
unfolding run_calls apply_op record_failure apply_policy commit save append_event load
    is_valid_backend is_infra_failure registered_backends on_kind on_doctor_gated
expired_opened = refl

expired_gated : doctor_gated (load (run_calls new_db calls) "codex").failure_kind ≡ true
unfolding run_calls apply_op record_failure apply_policy commit save append_event load
    is_valid_backend is_infra_failure registered_backends doctor_gated on_kind on_doctor_gated
expired_gated = refl

open-unselected_example : wary.selected ≢ "codex"
open-unselected_example =
    open-unselected fixed same same (λ t. t) (λ t. t + 1) (λ t. "") (λ s. none) (λ l s. none) hash
      same same plain undeclared unused calls "codex" quiet no_plan 300 (request networked) wary
      fixed-IsOrder (ne "codex" refl) (omega arith, tt) expired_opened (inl expired_gated) wary_eq
