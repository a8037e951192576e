-- ===== src/Policy/Tests.antt =====
-- Runs of the evaluation of internal/policy/verdict.go and decision.go on small inputs.
use governator.Prelude.{
  String, ◌≡◌, refl, ◌↔◌, true, false, List, [], ◌∷◌, some, all, Memᴰ, Permᴰ, All, arith,
}
use governator.Policy.Sources.{
  source_org_policy, source_project_doctrine, source_job_contract, contains, unique_from,
  sort_strings, insert_sorted, unique_sorted,
}
use governator.Policy.Verdict.{Verdict, PolicyDecision, rank, raise, worst, blocks}
use governator.Policy.Decision.{allow, deny, ask, effective, combine_step, combine_from, combine}
use governator.Policy.Combine.{IsCoherent}
use governator.Policy.Layers.{
  LayerResult, Override, precedence_rank, insert_layer, sort_layers, layer_step, layers_from,
  evaluate_layers, by_rule, verdict_text, override_for, resolved, is_applied, resolve_from,
  resolve_overrides,
}
use governator.Policy.Resolve.{lets_through, deny_final, resolved-allowed}
use governator.Policy.Applied.{ids_of, Distinct, resolve_overrides-applied}

-- Unfolding this opens all of the evaluation.
opened : Unit {0}
unfolding contains unique_from sort_strings insert_sorted unique_sorted rank raise worst blocks
    effective combine_step combine_from combine precedence_rank insert_layer sort_layers layer_step
    layers_from evaluate_layers by_rule verdict_text override_for resolved resolve_from
    resolve_overrides allow deny ask
opened = tt

-- A hash that keeps the evaluator's name.
abbrev name_hash {ℓ} : {A : Type ℓ} → A → String
name_hash document = "digest"

abbrev layer : String → Verdict → String → String → LayerResult
layer source verdict reason rule = record {
  source = source;
  verdict = verdict;
  reason = reason;
  rule_id = rule;
  override_target = "";
  rule_hash = "";
}

-- The contract asks, the organization denies.
abbrev asking : LayerResult
asking = layer source_job_contract Verdict.ask "network access" "NET-1"

abbrev denying : LayerResult
denying = layer source_org_policy Verdict.deny "secrets in output" "SEC-1"

abbrev quiet : LayerResult
quiet = layer source_project_doctrine Verdict.allow "" "DOC-1"

abbrev approving : String → Override
approving rule = record { id = 7; rule_id = rule; verdict = Verdict.allow; one_shot = true }

abbrev both : List LayerResult
both = asking ∷ denying ∷ []

abbrev approvals : List Override
approvals = approving "NET-1" ∷ approving "SEC-1" ∷ []

evaluated : (evaluate_layers name_hash both).reasons ≡ "secrets in output" ∷ "network access" ∷ []
unfolding opened
evaluated = refl

deny_final_example :
    ((evaluate_layers name_hash (resolve_overrides both approvals).0).verdict ≡ Verdict.deny)
    × ((evaluate_layers name_hash (resolve_overrides both approvals).0).allowed ≡ false)
deny_final_example = deny_final name_hash both approvals refl

resolved-allowed_example :
    (evaluate_layers name_hash (resolve_overrides (asking ∷ quiet ∷ []) approvals).0).allowed
    ≡ all (λ r. lets_through (override_for approvals r) r.verdict) (asking ∷ quiet ∷ [])
resolved-allowed_example = resolved-allowed name_hash (asking ∷ quiet ∷ []) approvals

-- The approval of the question is what allows the action.
approved :
    (evaluate_layers name_hash (resolve_overrides (asking ∷ quiet ∷ []) approvals).0).allowed ≡ true
unfolding opened
approved = refl

swapped : Permᴰ both (denying ∷ asking ∷ [])
swapped = Permᴰ.swap refl refl

resolve_overrides-applied_example :
    ((is_applied 7 (ids_of (resolve_overrides both approvals).1) ≡ true) ↔ (
      (r : LayerResult) × (o : Override) × Memᴰ r both
      × (override_for approvals r ≡ some o)
      × (o.id ≡ 7)))
    × Distinct (resolve_overrides both approvals).1
resolve_overrides-applied_example = resolve_overrides-applied both approvals 7

used_once : ids_of (resolve_overrides (asking ∷ asking ∷ []) approvals).1 ≡ 7 ∷ []
unfolding opened
used_once = refl

abbrev decisions : List PolicyDecision
decisions = allow ("org_policy" ∷ []) ∷ ask "job_contract" "network access" ∷ []

abbrev backwards : List PolicyDecision
backwards = ask "job_contract" "network access" ∷ allow ("org_policy" ∷ []) ∷ []

decisions-IsCoherent : All IsCoherent decisions
unfolding opened
decisions-IsCoherent = (record { agrees = refl }, (record { agrees = refl }, tt))

abbrev twice_denied : PolicyDecision
twice_denied = combine name_hash (deny "org_policy" "a" ∷ deny "org_policy" "b" ∷ [])

same_members : (z : String) → contains z ("b" ∷ "a" ∷ "b" ∷ []) ≡ contains z ("a" ∷ "b" ∷ [])
unfolding contains
same_members z = ground arith
