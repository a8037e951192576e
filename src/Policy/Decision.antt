-- ===== src/Policy/Decision.antt =====
-- internal/policy/decision.go: the constructors of decisions, and `Combine`.
use governator.Prelude.{String, true, false, List, [], ◌∷◌, ◌++◌, if◌then◌else◌}
use governator.Policy.Sources.{unique_sorted}
use governator.Policy.Verdict.{Verdict, PolicyDecision, is_unset, raise}

unfoldable pub allow : List String → PolicyDecision
allow sources = record {
  allowed = true;
  reasons = [];
  sources = unique_sorted sources;
  verdict = Verdict.allow;
  consulted = unique_sorted sources;
  policy_hash = "";
}

unfoldable pub deny : String → String → PolicyDecision
deny source reason = record {
  allowed = false;
  reasons = reason ∷ [];
  sources = source ∷ [];
  verdict = Verdict.deny;
  consulted = source ∷ [];
  policy_hash = "";
}

unfoldable pub ask : String → String → PolicyDecision
ask source reason = record {
  allowed = false;
  reasons = reason ∷ [];
  sources = source ∷ [];
  verdict = Verdict.ask;
  consulted = source ∷ [];
  policy_hash = "";
}

unfoldable pub flag : String → String → PolicyDecision
flag source reason = record {
  allowed = true;
  reasons = reason ∷ [];
  sources = source ∷ [];
  verdict = Verdict.flag;
  consulted = source ∷ [];
  policy_hash = "";
}

-- The verdict that `Combine` ranks: a decision without one is read by its Boolean.
unfoldable pub effective : PolicyDecision → Verdict
effective d =
    if is_unset d.verdict then (if d.allowed then Verdict.allow else Verdict.deny) else d.verdict

abbrev pub or_sources : List String → List String → List String
or_sources [] sources = sources
or_sources (c ∷ cs) sources = c ∷ cs

-- The body of the loop of `Combine`.
unfoldable pub combine_step : PolicyDecision → PolicyDecision → PolicyDecision
combine_step out d = record {
  allowed = if d.allowed then out.allowed else false;
  reasons = out.reasons ++ d.reasons;
  sources = out.sources ++ d.sources;
  verdict = raise out.verdict (effective d);
  consulted = out.consulted ++ or_sources d.consulted d.sources;
  policy_hash = out.policy_hash;
}

unfoldable pub combine_from : PolicyDecision → List PolicyDecision → PolicyDecision
combine_from out [] = out
combine_from out (d ∷ ds) = combine_from (combine_step out d) ds

-- What `Combine` and `EvaluateLayers` start from.
abbrev pub permissive : PolicyDecision
permissive = record {
  allowed = true;
  reasons = [];
  sources = [];
  verdict = Verdict.allow;
  consulted = [];
  policy_hash = "";
}

-- The document whose JSON text is hashed: the evaluator's name, the decision's parts, the inputs.
pub record Document (A : Type 0) : Type 0 where
  pub evaluator : String
  pub verdict : Verdict
  pub sources : List String
  pub reasons : List String
  pub consulted : List String
  pub inputs : List A

-- `json.Marshal` and SHA-256 are a parameter.
module _ (hash : Document PolicyDecision → String) where
  unfoldable pub combine : List PolicyDecision → PolicyDecision
  combine decisions =
      let out = combine_from permissive decisions in
      let sources = unique_sorted out.sources in
      let consulted = unique_sorted out.consulted in
      record out {
        sources = sources;
        consulted = consulted;
        policy_hash = hash (record {
          evaluator = "combine-v2";
          verdict = out.verdict;
          sources = sources;
          reasons = out.reasons;
          consulted = consulted;
          inputs = decisions;
        });
      }
