-- ===== src/Plan/Accepted.antt =====
-- What a plan is that `ValidatePlan` of internal/contracts/plan.go accepts.
use governator.Prelude.{
  is_positive, ℕ, ◌^◌, ◌≤◌, ◌<◌, String, Bool, true, false, not, ◌&&◌, List, [], ◌∷◌, ◌++◌,
  flat_map, sum_of, eq_iff, ℤ, pos_part, ◌≡◌, refl, arith, All, All-imp,
}
use governator.Plan.{Contract}
use governator.Plan.Levels.{Result, ok, cycle, out_of_fuel, level_ids}
use governator.Plan.Envelope.{Pattern, envelope_covers}
use governator.Plan.Check.{
  PlanError, report, exceeds, tokens, escaping, job_error_lists, job_errors, jobs_errors,
  plan_error_lists, plan_errors, accepted, or_levels, validate_plan,
}

append-nil_left : {A : Type 0} (xs ys : List A) → xs ++ ys ≡ [] → xs ≡ []
append-nil_left [] ys h = refl
append-nil_left (x ∷ xs) ys h = cc h

append-nil_right : {A : Type 0} (xs ys : List A) → xs ++ ys ≡ [] → ys ≡ []
append-nil_right [] ys h = h
append-nil_right (x ∷ xs) ys h = cc h

report-nil : (b : Bool) (e : PlanError) → report b e ≡ [] → b ≡ false
report-nil true e h = cc h
report-nil false e h = refl

flat_map-nil :
    {A : Type 0} (f : A → List PlanError) (xs : List A)
    → flat_map f xs ≡ []
    → All (λ x. f x ≡ []) xs
flat_map-nil f [] h = tt
flat_map-nil f (x ∷ xs) h = (
  append-nil_left (f x) (flat_map f xs) h,
  flat_map-nil f xs (append-nil_right (f x) (flat_map f xs) h),
)

or_levels-accepted :
    (es : List PlanError) (r : Result) {levels : List (List String)}
    → or_levels es r ≡ accepted levels
    → (es ≡ []) × (r ≡ ok levels)
or_levels-accepted [] (ok ls) h = (refl, cc h)
or_levels-accepted [] (cycle n) h = cc h
or_levels-accepted [] out_of_fuel h = cc h
or_levels-accepted (e ∷ es) r h = cc h

module _ (valid : Contract → Bool) (trim_space : String → String) (codes : String → Pattern) where
  -- A job that the first loop passes.
  pub record IsBounded (root : String) (envelope : List Pattern) (j : Contract) : Type 0 where
    pub is_valid : valid j ≡ true
    pub root_same : j.root ≡ root
    pub positive : is_positive j.max_tokens ≡ true
    pub writes : All (λ w. envelope_covers envelope (codes w) ≡ true) j.write
    pub intended : All (λ w. envelope_covers envelope (codes w) ≡ true) j.intended_writes

  escaping-nil :
      (envelope : List Pattern) (id : String) (ws : List String)
      → flat_map (escaping valid trim_space codes envelope id) ws ≡ []
      → All (λ w. envelope_covers envelope (codes w) ≡ true) ws
  escaping-nil envelope id ws h =
      All-imp ws (λ w e. ground (arith, report-nil _ _ e)) (flat_map-nil _ ws h)

  true_of_not : (b : Bool) → not b ≡ false → b ≡ true
  true_of_not b h = ground arith

  job_errors-IsBounded :
      (root : String) (envelope : List Pattern) (before : List Contract) (j : Contract)
      → job_errors valid trim_space codes root envelope before j ≡ []
      → IsBounded root envelope j
  unfolding job_errors
  job_errors-IsBounded root envelope before j h0 =
      let q =
        flat_map-nil (λ es. es) (job_error_lists valid trim_space codes root envelope before j)
          h0 in
      record {
        is_valid = true_of_not (valid j) (report-nil _ _ q.0);
        root_same = (eq_iff j.root root).0 (true_of_not _ (report-nil _ _ q.1.1.0));
        positive = true_of_not (is_positive j.max_tokens) (report-nil _ _ q.1.1.1.1.0);
        writes = escaping-nil envelope j.job_id j.write q.1.1.1.1.1.0;
        intended = escaping-nil envelope j.job_id j.intended_writes q.1.1.1.1.1.1.0;
      }

  jobs_errors-IsBounded :
      (root : String) (envelope : List Pattern) (before jobs : List Contract)
      → jobs_errors valid trim_space codes root envelope before jobs ≡ []
      → All (IsBounded root envelope) jobs
  unfolding jobs_errors
  jobs_errors-IsBounded root envelope before [] h = tt
  jobs_errors-IsBounded root envelope before (j ∷ js) h = (
    job_errors-IsBounded root envelope before j (append-nil_left _ _ h),
    jobs_errors-IsBounded root envelope (j ∷ before) js (append-nil_right _ _ h),
  )

  within_total :
      (max : ℤ) (total : ℕ)
      → total < 2 ^ 63
      → is_positive max ≡ true
      → (is_positive max && exceeds total (pos_part max)) ≡ false
      → total ≤ pos_part max
  within_total max total small p h = ground (arith, p, h)

  -- If a contract's check is any test, `ValidatePlan` accepts a plan, and its tokens add up to less than
  -- 2^63, then the tokens add up to no more than the total that is allowed, which is positive, each job
  -- passes the check, has the root of the plan and a positive number of tokens, the envelope covers
  -- each pattern that it may write and each that it intends to, and the levels are those of
  -- `TopologicalLevels`.
  pub validate_plan-IsBounded :
      (jobs : List Contract) (root : String) (envelope : List Pattern) (max_total_tokens : ℤ)
      {levels : List (List String)}
      → sum_of tokens jobs < 2 ^ 63
      → validate_plan valid trim_space codes jobs root envelope max_total_tokens ≡ accepted levels
      → (sum_of tokens jobs ≤ pos_part max_total_tokens)
        × (is_positive max_total_tokens ≡ true)
        × All (IsBounded root envelope) jobs
        × (level_ids jobs ≡ ok levels)
  unfolding validate_plan plan_errors plan_error_lists
  validate_plan-IsBounded jobs root envelope max_total_tokens small h =
      let (h0, levels) =
        or_levels-accepted (plan_errors valid trim_space codes jobs root envelope max_total_tokens)
          _ h in
      let q =
        flat_map-nil (λ es. es)
          (plan_error_lists valid trim_space codes jobs root envelope max_total_tokens) h0 in
      let positive = true_of_not (is_positive max_total_tokens) (report-nil _ _ q.1.0) in
      (
        within_total max_total_tokens (sum_of tokens jobs) small positive
            (report-nil _ _ q.1.1.1.1.0),
        positive,
        jobs_errors-IsBounded root envelope [] jobs q.1.1.1.0,
        levels,
      )
