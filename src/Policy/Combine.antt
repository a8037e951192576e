-- ===== src/Policy/Combine.antt =====
-- What `Combine` of internal/policy/decision.go decides.
use mathlib.Core.List.{append-nil, append_assoc}
use governator.Prelude.{
  String, ◌≡◌, refl, sym, ap, ◌∙◌, false, not, ◌&&◌, ◌||◌, List, [], ◌∷◌, ◌++◌, map, arith, Permᴰ,
  any, all, flat_map, all-perm, map-perm, All, str_eq, eq_iff,
}
use governator.Policy.Sources.{unique_sorted, unique_sorted-perm}
use governator.Policy.Verdict.{
  Verdict, PolicyDecision, is_deny, is_ask, is_unset, blocks, raise, worst, worst-cons, worst-nil,
  worst-perm, raise-allow-worst,
}
use governator.Policy.Decision as Decision
use governator.Policy.Decision.{
  effective, combine_step, combine_from, permissive, or_sources, Document, combine,
}

-- What one decision says was consulted.
abbrev pub consulted_by : PolicyDecision → List String
consulted_by d = or_sources d.consulted d.sources

-- The loop from any state: the parts of the inputs, gathered.
record Gathered (out : PolicyDecision) (ds : List PolicyDecision) (end : PolicyDecision)
    : Type 0 where
  allowed : end.allowed ≡ (out.allowed && all (λ d. d.allowed) ds)
  reasons : end.reasons ≡ out.reasons ++ flat_map (λ d. d.reasons) ds
  sources : end.sources ≡ out.sources ++ flat_map (λ d. d.sources) ds
  consulted : end.consulted ≡ out.consulted ++ flat_map consulted_by ds
  verdict : end.verdict ≡ raise out.verdict (worst (map effective ds))

combine_from-Gathered :
    (out : PolicyDecision) (ds : List PolicyDecision) → Gathered out ds (combine_from out ds)
unfolding combine_from combine_step
combine_from-Gathered out [] = record {
  allowed = ground arith;
  reasons = sym (append-nil out.reasons);
  sources = sym (append-nil out.sources);
  consulted = sym (append-nil out.consulted);
  verdict = sym (worst-nil out.verdict);
}
combine_from-Gathered out (d ∷ ds) =
    let ih : Gathered (combine_step out d) ds (combine_from (combine_step out d) ds) =
      combine_from-Gathered (combine_step out d) ds in
    record {
      allowed = ground (arith, ih.allowed);
      reasons = ih.reasons ∙ append_assoc out.reasons d.reasons (flat_map (λ e. e.reasons) ds);
      sources = ih.sources ∙ append_assoc out.sources d.sources (flat_map (λ e. e.sources) ds);
      consulted =
          ih.consulted ∙ append_assoc out.consulted (consulted_by d) (flat_map consulted_by ds);
      verdict = ih.verdict ∙ sym (worst-cons out.verdict (effective d) (map effective ds));
    }

module _ (hash : Document PolicyDecision → String) where
  -- `Combine` is fail-closed and loses nothing: the result is allowed exactly when every input is,
  -- its verdict is the worst of the inputs' verdicts (where a decision without a verdict counts by
  -- its Boolean), and its reasons are all of the inputs' reasons, in their order.
  pub combine_lem :
      (ds : List PolicyDecision)
      → ((combine hash ds).allowed ≡ all (λ d. d.allowed) ds)
        × ((combine hash ds).verdict ≡ worst (map effective ds))
        × ((combine hash ds).reasons ≡ flat_map (λ d. d.reasons) ds)
  unfolding combine
  combine_lem ds =
      let g : Gathered permissive ds (combine_from permissive ds) =
        combine_from-Gathered permissive ds in
      (g.allowed, g.verdict ∙ raise-allow-worst (map effective ds), g.reasons)

  combine-sources :
      (ds : List PolicyDecision)
      → ((combine hash ds).sources ≡ unique_sorted (flat_map (λ d. d.sources) ds))
        × ((combine hash ds).consulted ≡ unique_sorted (flat_map consulted_by ds))
  unfolding combine
  combine-sources ds =
      let g : Gathered permissive ds (combine_from permissive ds) =
        combine_from-Gathered permissive ds in
      (ap unique_sorted g.sources, ap unique_sorted g.consulted)

  -- The order of the inputs matters to none of: whether it is allowed, the verdict, the sources, the
  -- layers consulted.
  combine-perm :
      {ds es : List PolicyDecision}
      → Permᴰ ds es
      → ((combine hash ds).allowed ≡ (combine hash es).allowed)
        × ((combine hash ds).verdict ≡ (combine hash es).verdict)
        × ((combine hash ds).sources ≡ (combine hash es).sources)
        × ((combine hash ds).consulted ≡ (combine hash es).consulted)
  combine-perm {ds} {es} p =
      let (a1, v1, _) = combine_lem ds in
      let (a2, v2, _) = combine_lem es in
      let (s1, c1) = combine-sources ds in
      let (s2, c2) = combine-sources es in
      (
        a1 ∙ (all-perm (λ d. d.allowed) p ∙ sym a2),
        v1 ∙ (worst-perm (map-perm effective p) ∙ sym v2),
        s1 ∙ (unique_sorted-perm (λ d. d.sources) p ∙ sym s2),
        c1 ∙ (unique_sorted-perm consulted_by p ∙ sym c2),
      )

-- A decision whose Boolean and whose verdict say the same.
pub record IsCoherent (d : PolicyDecision) : Type 0 where
  pub agrees : d.allowed ≡ not (is_deny (effective d) || is_ask (effective d))

allowed_unless_blocked :
    (ds : List PolicyDecision)
    → All IsCoherent ds
    → all (λ d. d.allowed) ds
      ≡ not (any is_deny (map effective ds) || any is_ask (map effective ds))
allowed_unless_blocked [] h = refl
allowed_unless_blocked (d ∷ ds) h = ground (arith, h.0.agrees, allowed_unless_blocked ds h.1)

worst-blocks :
    (vs : List Verdict)
    → (is_deny (worst vs) || is_ask (worst vs)) ≡ (any is_deny vs || any is_ask vs)
unfolding worst
worst-blocks vs = ground arith

worst-is_set : (vs : List Verdict) → is_unset (worst vs) ≡ false
unfolding worst
worst-is_set vs = ground arith

effective_set : (d : PolicyDecision) → is_unset d.verdict ≡ false → effective d ≡ d.verdict
unfolding effective
effective_set d h = ground arith

-- The decisions that the package makes agree with themselves, and `Combine` keeps this: its result
-- is allowed exactly when it does not block.
pub combine-IsCoherent :
    (hash : Document PolicyDecision → String) (ds : List PolicyDecision)
    → All IsCoherent ds
    → IsCoherent (combine hash ds) × ((combine hash ds).allowed ≡ not (blocks (combine hash ds)))
unfolding blocks
combine-IsCoherent hash ds h =
    let (a, v, _) = combine_lem hash ds in
    let vs = map effective ds in
    let e : effective (combine hash ds) ≡ worst vs =
      effective_set (combine hash ds) (ap is_unset v ∙ worst-is_set vs) ∙ v in
    let agreed : (combine hash ds).allowed ≡ not (is_deny (worst vs) || is_ask (worst vs)) =
      a ∙ (allowed_unless_blocked ds h ∙ ap not (sym (worst-blocks vs))) in
    (
      record { agrees = agreed ∙ ap (λ w. not (is_deny w || is_ask w)) (sym e) },
      agreed ∙ ap (λ w. not (is_deny w || is_ask w)) (sym v),
    )

pub constructors-IsCoherent :
    (sources : List String) (source reason : String)
    → IsCoherent (Decision.allow sources)
      × IsCoherent (Decision.deny source reason)
      × IsCoherent (Decision.ask source reason)
      × IsCoherent (Decision.flag source reason)
unfolding Decision.allow Decision.deny Decision.ask Decision.flag effective
constructors-IsCoherent sources source reason = (
  record { agrees = refl },
  record { agrees = refl },
  record { agrees = refl },
  record { agrees = refl },
)

-- Two denials by one layer keep both reasons and one source, so that the result's reasons and
-- sources cannot be paired by position.
pub combine_unpaired :
    (hash : Document PolicyDecision → String) (source first second : String)
    → str_eq source "" ≡ false
    → let d = combine hash (Decision.deny source first ∷ Decision.deny source second ∷ []) in
      (d.reasons ≡ first ∷ second ∷ []) × (d.sources ≡ source ∷ [])
unfolding combine combine_from combine_step Decision.deny unique_sorted
combine_unpaired hash source first second h = (refl, ground (arith, eq_iff source source))
