-- ===== src/Policy/Layers.antt =====
-- internal/policy/verdict.go: the layers of a policy evaluation, `EvaluateLayers` and
-- `ResolveOverrides`.
use Prim.Native.String.{◌++◌ as append}
use governator.Prelude.{
  ℕ, String, Bool, not, ◌||◌, List, [], ◌∷◌, ◌++◌, Option, none, some, ltb, ◌==◌, str_eq, any,
  if◌then◌else◌,
}
use governator.Policy.Sources.{
  source_org_policy, source_project_doctrine, source_job_contract, source_session_override,
  unique_sorted,
}
use governator.Policy.Verdict.{Verdict, PolicyDecision, is_allow, is_flag, is_ask, is_unset, raise}
use governator.Policy.Decision.{Document, permissive}

pub record LayerResult : Type 0 where
  pub source : String
  pub verdict : Verdict
  pub reason : String
  pub rule_id : String
  pub override_target : String
  pub rule_hash : String

-- `precedenceRank`: the place in `layerPrecedence`; an unknown source comes last.
unfoldable pub precedence_rank : String → ℕ
precedence_rank source =
    if str_eq source_org_policy source
    then 0
    else if str_eq source_project_doctrine source
    then 1
    else if str_eq source_job_contract source
    then 2
    else if str_eq source_session_override source
    then 3
    else 4

-- `sort.SliceStable`, by insertion from the right: an element goes before those that are not less.
unfoldable pub insert_layer : LayerResult → List LayerResult → List LayerResult
insert_layer r [] = r ∷ []
insert_layer r (x ∷ xs) =
    if ltb (precedence_rank x.source) (precedence_rank r.source)
    then x ∷ insert_layer r xs
    else r ∷ x ∷ xs

unfoldable pub sort_layers : List LayerResult → List LayerResult
sort_layers [] = []
sort_layers (r ∷ rs) = insert_layer r (sort_layers rs)

-- `res.Verdict == "" || res.Verdict == VerdictAllow`.
abbrev pub has_no_objection : Verdict → Bool
has_no_objection v = is_unset v || is_allow v

-- The body of the loop of `EvaluateLayers`.
unfoldable pub layer_step : PolicyDecision → LayerResult → PolicyDecision
layer_step out res =
    let consulted =
      if str_eq res.source "" then out.consulted else out.consulted ++ res.source ∷ [] in
    if has_no_objection res.verdict then record out { consulted = consulted } else record out {
      reasons = out.reasons ++ res.reason ∷ [];
      sources = out.sources ++ res.source ∷ [];
      verdict = raise out.verdict res.verdict;
      consulted = consulted;
    }

unfoldable pub layers_from : PolicyDecision → List LayerResult → PolicyDecision
layers_from out [] = out
layers_from out (r ∷ rs) = layers_from (layer_step out r) rs

module _ (hash : Document LayerResult → String) where
  unfoldable pub evaluate_layers : List LayerResult → PolicyDecision
  evaluate_layers results =
      let sorted = sort_layers results in
      let out = layers_from permissive sorted in
      let sources = unique_sorted out.sources in
      let consulted = unique_sorted out.consulted in
      record out {
        allowed = is_allow out.verdict || is_flag out.verdict;
        sources = sources;
        consulted = consulted;
        policy_hash = hash (record {
          evaluator = "layers-v2";
          verdict = out.verdict;
          sources = sources;
          reasons = out.reasons;
          consulted = consulted;
          inputs = sorted;
        });
      }

pub record Override : Type 0 where
  pub id : ℕ
  pub rule_id : String
  pub verdict : Verdict
  pub one_shot : Bool

-- `byRule`: the first override of each rule.
unfoldable pub by_rule : List Override → String → Option Override
by_rule [] key = none
by_rule (o ∷ os) key = if str_eq o.rule_id key then some o else by_rule os key

-- The text of a verdict in a message.
unfoldable pub verdict_text : Verdict → String
verdict_text Verdict.allow = "ALLOW"
verdict_text Verdict.deny = "DENY"
verdict_text Verdict.ask = "ASK"
verdict_text Verdict.flag = "FLAG"
verdict_text Verdict.unset = ""
verdict_text (Verdict.other s) = s

abbrev pub override_key : LayerResult → String
override_key r = if str_eq r.override_target "" then r.rule_id else r.override_target

-- The override that applies to a result, if one does.
unfoldable pub override_for : List Override → LayerResult → Option Override
override_for overrides r =
    if not (is_ask r.verdict) || str_eq r.rule_id ""
    then none
    else by_rule overrides (override_key r)

unfoldable pub resolved : LayerResult → Override → LayerResult
resolved r o = record {
  source = source_session_override;
  verdict = o.verdict;
  reason =
      append r.rule_id
        (append ": resolved by session/operator override to " (verdict_text o.verdict));
  rule_id = r.rule_id;
  override_target = override_key r;
  rule_hash = r.rule_hash;
}

abbrev pub resolve_one : Option Override → LayerResult → LayerResult
resolve_one none r = r
resolve_one (some o) r = resolved r o

abbrev pub is_applied : ℕ → List ℕ → Bool
is_applied id ids = any (λ i. i == id) ids

-- `appliedIDs` after one result.
abbrev pub applied_after : Option Override → List ℕ → List ℕ
applied_after none ids = ids
applied_after (some o) ids = if is_applied o.id ids then ids else o.id ∷ ids

-- What one result adds to `applied`.
abbrev pub newly_applied : Option Override → List ℕ → List Override
newly_applied none ids = []
newly_applied (some o) ids = if is_applied o.id ids then [] else o ∷ []

-- The loop of `ResolveOverrides`.
unfoldable pub resolve_from :
    List Override → List ℕ → List LayerResult → List LayerResult × List Override
resolve_from overrides ids [] = ([], [])
resolve_from overrides ids (r ∷ rs) =
    let found = override_for overrides r in
    let (out, applied) = resolve_from overrides (applied_after found ids) rs in
    (resolve_one found r ∷ out, newly_applied found ids ++ applied)

unfoldable pub resolve_overrides :
    List LayerResult → List Override → List LayerResult × List Override
resolve_overrides results [] = (results, [])
resolve_overrides results (o ∷ os) = resolve_from (o ∷ os) [] results
