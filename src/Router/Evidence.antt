-- ===== src/Router/Evidence.antt =====
-- What internal/router reads from the ledger about a backend's earlier runs.
use governator.Prelude.{
  ℕ, ◌==◌, String, Bool, ◌&&◌, ◌||◌, Option, none, some, List, [], ◌∷◌, ◌++◌, any, filter, length,
  str_eq, ltb, if◌then◌else◌,
}
use governator.Router.{Floats}

-- The answers of the ledger for an agent and a type of job; `none` is a query that fails, or that finds
-- nothing where it asks for one row.
pub record Ledger (F : Type 0) : Type 0 where
  pub lineage_error : String → Option String
  pub lineage : String → Option String
  pub profile : String → String → Option (ℕ × ℕ)
  pub taxonomies : String → String → Option (List (String × ℕ))
  pub assay_verdicts : String → String → Option (List String)
  pub validator_statuses : String → String → Option (List String)
  pub repair_statuses : String → String → Option (List String)
  pub panel_rows : String → String → Option (List (String × (String × String)))
  pub accepted_cost : String → String → Option F

-- `IsInfraFailure` of internal/observability/phase4.go on a text.
abbrev pub is_infra_taxonomy : String → Bool
is_infra_taxonomy t = any (str_eq t) (
    "RATE_LIMIT" ∷ "QUOTA_EXHAUSTED" ∷ "AUTH_EXPIRED" ∷ "BINARY_MISSING" ∷ "FLAG_DRIFT"
    ∷ "TRANSIENT_UPSTREAM" ∷ [])

-- A map from taxonomies to counts, in one of the orders in which Go may go through it.
unfoldable pub set_count : String → ℕ → List (String × ℕ) → List (String × ℕ)
set_count t n [] = (t, n) ∷ []
set_count t n ((u, m) ∷ cs) = if str_eq t u then (u, n) ∷ cs else (u, m) ∷ set_count t n cs

-- The loop of `evidenceFor`; `normalize` is the upper case of the trimmed text.
unfoldable pub count_taxonomies :
    (String → String) → List (String × ℕ) → List (String × ℕ) → List (String × ℕ)
unfolding set_count
count_taxonomies normalize [] counts = counts
count_taxonomies normalize ((t, n) ∷ rows) counts =
    count_taxonomies normalize rows
      (if is_infra_taxonomy (normalize t) then counts else set_count (normalize t) n counts)

-- A job of a panel is seen once.
abbrev pub is_job : String → String → String × String → Bool
is_job panel job (p, j) = str_eq panel p && str_eq job j

-- The distinct statuses of each panel.
abbrev pub add_distinct : String → List String → List String
add_distinct s ss = if any (str_eq s) ss then ss else ss ++ s ∷ []

unfoldable pub add_status :
    String → String → List (String × List String) → List (String × List String)
add_status panel status [] = (panel, status ∷ []) ∷ []
add_status panel status ((p, ss) ∷ ps) =
    if str_eq panel p
    then (p, add_distinct status ss) ∷ ps
    else (p, ss) ∷ add_status panel status ps

-- The loop of `panelAgreementRateFor`.
unfoldable pub panel_statuses :
    List (String × (String × String))
    → List (String × String)
    → List (String × List String)
    → List (String × List String)
unfolding add_status
panel_statuses [] seen statuses = statuses
panel_statuses ((panel, (job, status)) ∷ rows) seen statuses =
    if any (is_job panel job) seen
    then panel_statuses rows seen statuses
    else panel_statuses rows ((panel, job) ∷ seen) (add_status panel status statuses)

abbrev pub disagreements : List (String × List String) → ℕ
disagreements ps = length (filter (λ (p : String × List String). ltb 1 (length p.1)) ps)

abbrev pub is_assay_pass : String → Bool
is_assay_pass verdict = str_eq verdict "pass" || str_eq verdict "advisory"

abbrev pub is_pass : String → Bool
is_pass status = str_eq status "pass"

abbrev pub is_approved : String → Bool
is_approved status = str_eq status "APPROVED"

pub record AssayEvidence (F : Type 0) : Type 0 where
  pub assay_pass_rate : F
  pub validator_pass_rate : F
  pub repair_success_rate : F
  pub panel_agreement_rate : F
  pub cost_per_accepted_usd : F

module _ {F : Type 0} (fl : Floats F) where
  abbrev pub neutral : F
  neutral = fl.literal 1 2

  abbrev pub zero_score : F
  zero_score = fl.literal 0 1

  abbrev pub full_score : F
  full_score = fl.literal 1 1

  abbrev pub clamp_unit : F → F
  clamp_unit v =
      if fl.less v zero_score then zero_score else if fl.less full_score v then full_score else v

  -- `failureSeverity` and `severityWeight`.
  abbrev pub severity_weight : String → F
  severity_weight t =
      if any (str_eq t)
        ("SCOPE_DRIFT" ∷ "OVERWRITE_RISK" ∷ "DESTRUCTIVE_COMMAND" ∷ "UNAUTHORIZED_REFACTOR" ∷ [])
      then fl.literal 1 1
      else if any (str_eq t) ("VALIDATION_FAILED" ∷ "BUDGET_EXCEEDED" ∷ [])
      then fl.literal 4 10
      else fl.literal 7 10

  unfoldable pub weighted_from : F → List (String × ℕ) → F
  weighted_from sum [] = sum
  weighted_from sum ((t, n) ∷ cs) =
      weighted_from (fl.plus sum (fl.times (severity_weight t) (fl.of_int n))) cs

  unfoldable pub severity_rate_of : List (String × ℕ) → ℕ → F
  unfolding weighted_from
  severity_rate_of counts runs =
      if runs == 0
      then zero_score
      else clamp_unit (fl.divided (weighted_from zero_score counts) (fl.of_int runs))

  abbrev pub runs_and_valid : Option (ℕ × ℕ) → ℕ × ℕ
  runs_and_valid none = (0, 0)
  runs_and_valid (some p) = p

  unfoldable pub rate_of_rows : (String → String) → Option (List (String × ℕ)) → ℕ → F
  unfolding count_taxonomies severity_rate_of
  rate_of_rows normalize none runs = zero_score
  rate_of_rows normalize (some rows) runs =
      severity_rate_of (count_taxonomies normalize rows []) runs

  -- `evidenceFor`.
  unfoldable pub evidence_for : (String → String) → Ledger F → String → String → ℕ × (ℕ × F)
  unfolding rate_of_rows
  evidence_for normalize db agent job_type =
      let p = runs_and_valid (db.profile agent job_type) in
      (
        p.0,
        (
          p.1,
          if p.0 == 0
              then zero_score
              else rate_of_rows normalize (db.taxonomies agent job_type) p.0,
        ),
      )

  -- `rateQuery`.
  abbrev pub rate_query : (String → Bool) → Option (List String) → F
  rate_query is_hit none = neutral
  rate_query is_hit (some rows) =
      if length rows == 0
      then neutral
      else clamp_unit
          (fl.divided (fl.of_int (length (filter is_hit rows))) (fl.of_int (length rows)))

  -- `panelAgreementRateFor`.
  abbrev pub agreement_of : List (String × List String) → F
  agreement_of panels =
      if length panels == 0
      then neutral
      else clamp_unit (
          fl.minus full_score
            (fl.divided (fl.of_int (disagreements panels)) (fl.of_int (length panels))))

  unfoldable pub panel_agreement_rate_for : Option (List (String × (String × String))) → F
  unfolding panel_statuses
  panel_agreement_rate_for none = neutral
  panel_agreement_rate_for (some rows) = agreement_of (panel_statuses rows [] [])

  -- `costPerAcceptedFor`.
  abbrev pub cost_per_accepted_for : Option F → F
  cost_per_accepted_for none = zero_score
  cost_per_accepted_for (some c) = c

  -- `assayEvidenceFor`.
  unfoldable pub assay_evidence_for : Ledger F → String → String → AssayEvidence F
  unfolding panel_agreement_rate_for
  assay_evidence_for db agent job_type = record {
    assay_pass_rate = rate_query is_assay_pass (db.assay_verdicts agent job_type);
    validator_pass_rate = rate_query is_pass (db.validator_statuses agent job_type);
    repair_success_rate = rate_query is_approved (db.repair_statuses agent job_type);
    panel_agreement_rate = panel_agreement_rate_for (db.panel_rows agent job_type);
    cost_per_accepted_usd = cost_per_accepted_for (db.accepted_cost agent job_type);
  }
