-- ===== src/Router/Qualified.antt =====
-- Which backends `Resolve` of internal/router may choose.
use governator.Prelude.{
  ◌≡◌, ◌≢◌, ◌∙◌, inl, inr, refl, sym, subst, String, Bool, true, false, none, if◌then◌else◌, Memᴰ,
  All, All-imp, All-map, All-unmap, All-tabulate, All-mem, Option-cases,
}
use governator.Router.{Floats, Requirements, Request, ScoredCandidate, WeightSet, Decision}
use governator.Router.Agents.{Backend, candidate_pool}
use governator.Router.Evidence.{Ledger}
use governator.Router.Score.{is_survivor, recompute_totals, finalize_costs}
use governator.Router.Resolve.{
  Router, health_of, Lineage, lineage_error, lineage_agent, lineage_agent_for, decided, exclusion,
  evaluate, evaluated, resolved_for, resolve,
}
use governator.Router.Excluded.{model_capability}
use governator.Router.Choice.{select_winner, selected_agent}
use governator.Router.Winner.{excluded-survivor, IsOrder, IsBest, select_winner-IsBest}
use governator.Router.Fit.{
  IsQualified, exclusion_of-IsQualified, IsQualified-exclusion_of, new_agent-named,
}

module _ {F : Type 0} (fl : Floats F) (policy_hash : WeightSet F → Requirements → String)
    (lower upper : String → String) (r : Router F) (backends : String → Backend)
    (db : Ledger F) where
  -- What the router asks of a backend.
  abbrev pub IsFit : Request → String → Type 0
  IsFit req =
      IsQualified req (model_capability r.model_capability backends) r.binary
        (λ n. (health_of fl r.health).breaker n)

  -- A candidate with its exclusion, not yet selected.
  record IsEvaluated (req : Request) (c : ScoredCandidate F) : Type 0 where
    unselected : c.selected ≡ false
    among : Memᴰ c.agent (candidate_pool req.candidates)
    excluded : c.exclusion ≡ exclusion fl policy_hash lower upper r backends db req c.agent

  evaluate-IsEvaluated :
      (req : Request) (w : WeightSet F) (lineage name : String)
      → Memᴰ name (candidate_pool req.candidates)
      → IsEvaluated req (evaluate fl policy_hash lower upper r backends db name req w lineage)
  unfolding evaluate
  evaluate-IsEvaluated req w lineage name m =
      elim (Option-cases (exclusion fl policy_hash lower upper r backends db req name)) [
        | inl e ↦ rw (e, evaluate) (record { unselected = refl; among = m; excluded = sym e })
        | inr (x, e) ↦ rw (e, evaluate) (record { unselected = refl; among = m; excluded = sym e })
      ]

  evaluated-IsEvaluated :
      (req : Request) (lineage : String)
      → All (IsEvaluated req) (evaluated fl policy_hash lower upper r backends db req lineage)
  unfolding evaluated recompute_totals finalize_costs
  evaluated-IsEvaluated req lineage =
      All-map (IsEvaluated req) (IsEvaluated req) _ _ (λ c h. kept c _ h (is_survivor c))
        (All-map (IsEvaluated req) (IsEvaluated req) _ _ (λ c h. costed c _ h (is_survivor c))
          (All-map (λ n. Memᴰ n (candidate_pool req.candidates)) (IsEvaluated req) _
            (candidate_pool req.candidates) (λ n m. evaluate-IsEvaluated req _ lineage n m)
            (All-tabulate _ (candidate_pool req.candidates) (λ n m. m))))
    where
      kept :
          (c : ScoredCandidate F) (t : F)
          → IsEvaluated req c
          → (b : Bool) → IsEvaluated req (if b then record c { total = t } else c)
      kept c t h true = record { unselected = h.unselected; among = h.among; excluded = h.excluded }
      kept c t h false = h

      costed :
          (c : ScoredCandidate F) (t : F)
          → IsEvaluated req c
          → (b : Bool) → IsEvaluated req (if b then record c { cost_score = t } else c)
      costed c t h true = record {
        unselected = h.unselected;
        among = h.among;
        excluded = h.excluded;
      }
      costed c t h false = h

  evaluate-survivor :
      (req : Request) (w : WeightSet F) (lineage name : String)
      → exclusion fl policy_hash lower upper r backends db req name ≡ none
      → is_survivor (evaluate fl policy_hash lower upper r backends db name req w lineage) ≡ true
  unfolding evaluate
  evaluate-survivor req w lineage name e = rw (e, evaluate) refl

  -- If every candidate is excluded at the end, no name of the pool was free of exclusions.
  evaluated-excluded :
      (req : Request) (lineage : String)
      → All
          (λ c. is_survivor c ≡ false)
          (evaluated fl policy_hash lower upper r backends db req lineage)
      → All
          (λ n. exclusion fl policy_hash lower upper r backends db req n ≢ none)
          (candidate_pool req.candidates)
  unfolding evaluated recompute_totals finalize_costs
  evaluated-excluded req lineage h =
      All-imp (candidate_pool req.candidates) (λ n k e. cc (k, evaluate-survivor req _ lineage n e))
        (All-unmap (λ (c : ScoredCandidate F). is_survivor c ≡ false)
          (λ n. evaluate fl policy_hash lower upper r backends db n req _ lineage)
          (candidate_pool req.candidates)
          (All-imp _ (λ c k. costed c _ (is_survivor c) k)
            (All-unmap (λ (c : ScoredCandidate F). is_survivor c ≡ false) _ _
              (All-imp _ (λ c k. kept c _ (is_survivor c) k)
                (All-unmap (λ (c : ScoredCandidate F). is_survivor c ≡ false) _ _ h)))))
    where
      kept :
          (c : ScoredCandidate F) (t : F) (b : Bool)
          → is_survivor (if b then record c { total = t } else c) ≡ false
          → is_survivor c ≡ false
      kept c t true h = h
      kept c t false h = h

      costed :
          (c : ScoredCandidate F) (t : F) (b : Bool)
          → is_survivor (if b then record c { cost_score = t } else c) ≡ false
          → is_survivor c ≡ false
      costed c t true h = h
      costed c t false h = h

  resolve-inverted :
      (req : Request) (d : Decision F)
      → resolve fl policy_hash lower upper r backends db req ≡ decided d
      → (a : String) × (d.selected
          ≡ selected_agent
              (select_winner fl (evaluated fl policy_hash lower upper r backends db req a)))
  unfolding resolve
  resolve-inverted req d h = go (lineage_agent_for db req.repair_lineage) h
    where
      go :
          (l : Lineage)
          → resolved_for fl policy_hash lower upper r backends db req l ≡ decided d
          → (a : String) × (d.selected
              ≡ selected_agent
                  (select_winner fl (evaluated fl policy_hash lower upper r backends db req a)))
      go (lineage_error e) h = cc h
      go (lineage_agent a) h = (a, cc h)

  module _ (ord : IsOrder fl) where
    -- An agent that is selected has no exclusion.
    selected-IsFit :
        (req : Request) (a : String) (c : ScoredCandidate F)
        → IsBest fl (evaluated fl policy_hash lower upper r backends db req a) c
        → Memᴰ c.agent (candidate_pool req.candidates) × IsFit req c.agent
    unfolding exclusion
    selected-IsFit req a c b =
        let v =
          All-mem (IsEvaluated req) (evaluated fl policy_hash lower upper r backends db req a)
            (evaluated-IsEvaluated req a) b.among in
        (v.among, exclusion_of-IsQualified req _ _ _ c.agent (sym v.excluded ∙ b.survives))

    unselected_all :
        (req : Request) (a : String)
        → All
            (λ (c : ScoredCandidate F). c.selected ≡ false)
            (evaluated fl policy_hash lower upper r backends db req a)
    unselected_all req a = All-imp _ (λ c h. h.unselected) (evaluated-IsEvaluated req a)

    -- If comparisons are an order, a backend that `Resolve` selects is in the pool of the request and is
    -- qualified: it is known and not named as excluded, has each required capability and the least
    -- numbers of tokens, its binary is there, and its breaker is not OPEN.
    pub resolve-IsQualified :
        (req : Request) (d : Decision F)
        → resolve fl policy_hash lower upper r backends db req ≡ decided d
        → d.selected ≢ ""
        → Memᴰ d.selected (candidate_pool req.candidates) × IsFit req d.selected
    resolve-IsQualified req d h n =
        let (a, e) = resolve-inverted req d h in
        elim (select_winner-IsBest fl ord (evaluated fl policy_hash lower upper r backends db req a)
          (unselected_all req a)) [
            | inl (x, nobody) ↦ absurd (n (e ∙ nobody))
            | inr (c, b, s) ↦
                subst (λ name. Memᴰ name (candidate_pool req.candidates) × IsFit req name)
                  (sym (e ∙ s)) (selected-IsFit req a c b)
          ]

    -- If comparisons are an order, the lineage of the request can be read and some backend of its pool is
    -- qualified, then `Resolve` decides and selects a backend.
    pub resolve-selects :
        (req : Request) (a name : String)
        → lineage_agent_for db req.repair_lineage ≡ lineage_agent a
        → Memᴰ name (candidate_pool req.candidates)
        → IsFit req name
        → (d : Decision F) × (resolve fl policy_hash lower upper r backends db req ≡ decided d)
          × (d.selected ≢ "")
    unfolding resolve exclusion
    resolve-selects req a name l m q =
        rw (l, resolve)
          (
            _,
            refl,
            elim (select_winner-IsBest fl ord
                (evaluated fl policy_hash lower upper r backends db req a) (unselected_all req a)) [
                  | inl (x, nobody) ↦ absurd (
                      All-mem _ (candidate_pool req.candidates)
                        (evaluated-excluded req a (All-imp _ excluded-survivor x)) m
                        (IsQualified-exclusion_of req _ _ _ name q))
                  | inr (c, b, s) ↦ (λ e.
                      let (x, f) = selected-IsFit req a c b in
                      new_agent-named f.agent c.agent f.known (sym s ∙ e))
                ],
          )
