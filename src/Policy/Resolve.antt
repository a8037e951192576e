-- ===== src/Policy/Resolve.antt =====
-- What `ResolveOverrides` of internal/policy/verdict.go can change, alone and before `EvaluateLayers`.
use governator.Prelude.{
  ℕ, String, ◌≡◌, refl, ap, ◌∙◌, Bool, true, false, not, ◌||◌, Option, none, some, List, [], ◌∷◌,
  map, arith, any, all,
}
use governator.Policy.Verdict.{Verdict, is_deny, is_ask, blocks, worst}
use governator.Policy.Decision.{Document}
use governator.Policy.Layers.{
  LayerResult, Override, override_for, by_rule, resolved, resolve_one, applied_after, resolve_from,
  resolve_overrides, evaluate_layers,
}
use governator.Policy.Evaluate.{evaluate_layers_lem}

override_for-nil : (r : LayerResult) → override_for [] r ≡ none
unfolding override_for by_rule
override_for-nil r = ground arith

resolve_from-map :
    (os : List Override) (ids : List ℕ) (rs : List LayerResult)
    → (resolve_from os ids rs).0 ≡ map (λ r. resolve_one (override_for os r) r) rs
unfolding resolve_from
resolve_from-map os ids [] = refl
resolve_from-map os ids (r ∷ rs) =
    ap (λ l. resolve_one (override_for os r) r ∷ l)
      (resolve_from-map os (applied_after (override_for os r) ids) rs)

map_none : (rs : List LayerResult) → rs ≡ map (λ r. resolve_one (override_for [] r) r) rs
map_none [] = refl
map_none (r ∷ rs) = rw (override_for-nil r) (ap (λ l. r ∷ l) (map_none rs))

-- Each result is resolved by itself, in place.
pub resolve_overrides-map :
    (rs : List LayerResult) (os : List Override)
    → (resolve_overrides rs os).0 ≡ map (λ r. resolve_one (override_for os r) r) rs
unfolding resolve_overrides
resolve_overrides-map rs [] = map_none rs
resolve_overrides-map rs (o ∷ os) = resolve_from-map (o ∷ os) [] rs

not_ask-stays :
    (os : List Override) (r : LayerResult) → is_ask r.verdict ≡ false → override_for os r ≡ none
unfolding override_for
not_ask-stays os r h = ground arith

deny_stays :
    (os : List Override) (rs : List LayerResult)
    → any (λ r. is_deny r.verdict) rs ≡ true
    → any is_deny (map (λ r. r.verdict) (map (λ r. resolve_one (override_for os r) r) rs)) ≡ true
deny_stays os [] h = h
deny_stays os (r ∷ rs) h = ground (arith, not_ask-stays os r, deny_stays os rs)

-- What a result lets through once the overrides are applied to it: an ASK needs an override that
-- neither denies nor asks, and a DENY has none.
abbrev pub lets_through : Option Override → Verdict → Bool
lets_through found Verdict.deny = false
lets_through none Verdict.ask = false
lets_through (some o) Verdict.ask = not (is_deny o.verdict || is_ask o.verdict)
lets_through found _ = true

lets_through-all :
    (os : List Override) (rs : List LayerResult)
    → let vs = map (λ r. r.verdict) (map (λ r. resolve_one (override_for os r) r) rs) in
      not (any is_deny vs || any is_ask vs)
      ≡ all (λ r. lets_through (override_for os r) r.verdict) rs
unfolding resolved
lets_through-all os [] = refl
lets_through-all os (r ∷ rs) = ground (arith, not_ask-stays os r, lets_through-all os rs)

worst-blocks :
    (vs : List Verdict)
    → not (is_deny (worst vs) || is_ask (worst vs)) ≡ not (any is_deny vs || any is_ask vs)
unfolding worst
worst-blocks vs = ground arith

worst-deny : (vs : List Verdict) → any is_deny vs ≡ true → worst vs ≡ Verdict.deny
unfolding worst
worst-deny vs h = ground arith

module _ (hash : Document LayerResult → String) where
  -- An operator's overrides, whatever they are, cannot loosen a denial: when some layer denies, the
  -- evaluation of the resolved results denies and is not allowed.
  pub deny_final :
      (rs : List LayerResult) (os : List Override)
      → any (λ r. is_deny r.verdict) rs ≡ true
      → ((evaluate_layers hash (resolve_overrides rs os).0).verdict ≡ Verdict.deny)
        × ((evaluate_layers hash (resolve_overrides rs os).0).allowed ≡ false)
  unfolding blocks
  deny_final rs os h =
      let (v, a, _) = evaluate_layers_lem hash (resolve_overrides rs os).0 in
      let d : (evaluate_layers hash (resolve_overrides rs os).0).verdict ≡ Verdict.deny =
        v
        ∙ (ap (λ l. worst (map (λ r. r.verdict) l)) (resolve_overrides-map rs os)
            ∙ worst-deny _ (deny_stays os rs h)) in
      (d, a ∙ ap (λ w. not (is_deny w || is_ask w)) d)

  -- Resolving and then evaluating allows the action exactly when every result lets it through: no
  -- layer denies, and each ASK has an override that neither denies nor asks.
  pub resolved-allowed :
      (rs : List LayerResult) (os : List Override)
      → (evaluate_layers hash (resolve_overrides rs os).0).allowed
        ≡ all (λ r. lets_through (override_for os r) r.verdict) rs
  unfolding blocks
  resolved-allowed rs os =
      let (v, a, _) = evaluate_layers_lem hash (resolve_overrides rs os).0 in
      a
      ∙ (ap (λ w. not (is_deny w || is_ask w)) v
          ∙ (ap (λ l. let w = worst (map (λ r. r.verdict) l) in not (is_deny w || is_ask w))
                (resolve_overrides-map rs os)
              ∙ (worst-blocks
                    (map (λ r. r.verdict) (map (λ r. resolve_one (override_for os r) r) rs))
                  ∙ lets_through-all os rs)))
