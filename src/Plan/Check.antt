-- ===== src/Plan/Check.antt =====
-- `ValidatePlan` of internal/contracts/plan.go. `Validate` of a contract, `strings.TrimSpace` and the
-- codes of a text's characters are arguments; an error names the job by its id where the text has its
-- index.
use governator.Prelude.{
  is_positive, ℕ, ◌%◌, ◌^◌, String, Bool, not, ◌&&◌, List, [], ◌∷◌, ◌++◌, map, filter, flat_map,
  sum_of, str_eq, ltb, if◌then◌else◌, Option, none, some, ℤ, pos_part,
}
use governator.Plan.{Contract}
use governator.Plan.Levels.{Result, ok, cycle, out_of_fuel, level_ids}
use governator.Plan.Envelope.{Pattern, is_empty, envelope_covers}
use governator.Plan.Artifacts.{has_id, resolve_artifact_sources}

pub data PlanError : Type 0 where
  no_jobs : PlanError
  no_total : PlanError
  no_envelope : PlanError
  invalid_job : String → PlanError
  duplicate_job : String → PlanError
  other_root : String → PlanError
  no_risk_class : String → PlanError
  unbounded_tokens : String → PlanError
  escapes : String → String → PlanError
  over_total : ℕ → PlanError
  depends_on_itself : String → PlanError
  depends_on_unknown : String → String → PlanError
  not_produced : String → PlanError
  cyclic : ℕ → PlanError
  unfinished : PlanError

abbrev pub report : Bool → PlanError → List PlanError
report fails e = if fails then e ∷ [] else []

abbrev pub all_errors : List (List PlanError) → List PlanError
all_errors lists = flat_map (λ es. es) lists

-- What a signed sum of 64 bits is, where it is not negative.
abbrev pub exceeds : ℕ → ℕ → Bool
exceeds total max = ltb (total % 2 ^ 64) (2 ^ 63) && ltb max (total % 2 ^ 64)

abbrev pub tokens : Contract → ℕ
tokens j = pos_part j.max_tokens

-- The ids of some jobs, without the empty one: the keys of `seen`.
abbrev pub seen_ids : List Contract → List String
seen_ids jobs = filter (λ id. not (str_eq id "")) (map (λ (j : Contract). j.job_id) jobs)

pub data Answer : Type 0 where
  accepted : List (List String) → Answer
  rejected : List PlanError → Answer

abbrev pub answer_of : Result → Answer
answer_of (ok levels) = accepted levels
answer_of (cycle n) = rejected (cyclic n ∷ [])
answer_of out_of_fuel = rejected (unfinished ∷ [])

abbrev pub or_levels : List PlanError → Result → Answer
or_levels [] r = answer_of r
or_levels (e ∷ es) r = rejected (e ∷ es)

module _ (valid : Contract → Bool) (trim_space : String → String) (codes : String → Pattern) where
  abbrev pub escaping : List Pattern → String → String → List PlanError
  escaping envelope id w = report (not (envelope_covers envelope (codes w))) (escapes id w)

  abbrev pub job_error_lists :
      String → List Pattern → List Contract → Contract → List (List PlanError)
  job_error_lists root envelope before j =
      report (not (valid j)) (invalid_job j.job_id)
      ∷ report (has_id j.job_id (seen_ids before)) (duplicate_job j.job_id)
      ∷ report (not (str_eq j.root root)) (other_root j.job_id)
      ∷ report (str_eq (trim_space j.risk_class) "") (no_risk_class j.job_id)
      ∷ report (not (is_positive j.max_tokens)) (unbounded_tokens j.job_id)
      ∷ flat_map (escaping envelope j.job_id) j.write
      ∷ flat_map (escaping envelope j.job_id) j.intended_writes
      ∷ []

  unfoldable pub job_errors : String → List Pattern → List Contract → Contract → List PlanError
  job_errors root envelope before j = all_errors (job_error_lists root envelope before j)

  -- The first loop; `before` are the jobs that it has passed, the last one first.
  unfoldable pub jobs_errors :
      String → List Pattern → List Contract → List Contract → List PlanError
  unfolding job_errors
  jobs_errors root envelope before [] = []
  jobs_errors root envelope before (j ∷ js) =
      job_errors root envelope before j ++ jobs_errors root envelope (j ∷ before) js

  abbrev pub dependency_error : List Contract → Contract → String → List PlanError
  dependency_error jobs j dep =
      if str_eq dep j.job_id
      then depends_on_itself dep ∷ []
      else report (not (has_id dep (seen_ids jobs))) (depends_on_unknown j.job_id dep)

  abbrev pub missing_errors : Option (List Contract × List (List String)) → List PlanError
  missing_errors none = unfinished ∷ []
  missing_errors (some (resolved, missing)) = flat_map (map not_produced) missing

  -- All errors before the levels are asked for.
  unfoldable pub plan_error_lists :
      List Contract → String → List Pattern → ℤ → List (List PlanError)
  unfolding jobs_errors resolve_artifact_sources
  plan_error_lists jobs root envelope max_total_tokens =
      report (is_empty jobs) no_jobs
      ∷ report (not (is_positive max_total_tokens)) no_total
      ∷ report (is_empty envelope) no_envelope
      ∷ jobs_errors root envelope [] jobs
      ∷ report
          (is_positive max_total_tokens && exceeds (sum_of tokens jobs) (pos_part max_total_tokens))
          (over_total (sum_of tokens jobs))
      ∷ flat_map (λ (j : Contract). flat_map (dependency_error jobs j) j.depends_on) jobs
      ∷ missing_errors (resolve_artifact_sources jobs)
      ∷ []

  unfoldable pub plan_errors : List Contract → String → List Pattern → ℤ → List PlanError
  unfolding plan_error_lists
  plan_errors jobs root envelope max_total_tokens =
      all_errors (plan_error_lists jobs root envelope max_total_tokens)

  unfoldable pub validate_plan : List Contract → String → List Pattern → ℤ → Answer
  unfolding plan_errors level_ids
  validate_plan jobs root envelope max_total_tokens =
      or_levels (plan_errors jobs root envelope max_total_tokens) (level_ids jobs)
