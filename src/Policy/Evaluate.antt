-- ===== src/Policy/Evaluate.antt =====
-- What `EvaluateLayers` of internal/policy/verdict.go decides.
use mathlib.Core.List.{append-nil, append_assoc}
use governator.Prelude.{
  String, ◌≡◌, refl, sym, ap, ◌∙◌, Bool, true, not, ◌&&◌, ◌||◌, List, [], ◌∷◌, ◌++◌, map, arith,
  Permᴰ, any, flat_map, any-imp, and→left, and→right, map-perm, str_eq, eq_iff, ltb, Bool-cases,
  inl, inr, perm_refl, if◌then◌else◌,
}
use governator.Policy.Sources.{
  contains, unique_sorted, unique_sorted-perm, contains-unique_sorted, contains-flat_map,
}
use governator.Policy.Verdict.{
  Verdict, PolicyDecision, is_deny, is_ask, is_flag, is_allow, blocks, raise, worst, worst-cons,
  worst-nil, worst-perm, raise-allow-worst,
}
use governator.Policy.Decision.{Document, permissive}
use governator.Policy.Precedence.{buckets, sort_layers_lem}
use governator.Policy.Layers.{
  LayerResult, precedence_rank, insert_layer, sort_layers, has_no_objection, layer_step,
  layers_from, evaluate_layers,
}

abbrev pub objects : LayerResult → Bool
objects r = not (has_no_objection r.verdict)

-- What one result adds to the reasons, the sources and the layers consulted.
abbrev pub reason_of : LayerResult → List String
reason_of r = if objects r then r.reason ∷ [] else []

abbrev pub source_of : LayerResult → List String
source_of r = if objects r then r.source ∷ [] else []

abbrev pub consulted_of : LayerResult → List String
consulted_of r = if str_eq r.source "" then [] else r.source ∷ []

abbrev verdicts : List LayerResult → List Verdict
verdicts = map (λ r. r.verdict)

record Layered (out : PolicyDecision) (rs : List LayerResult) (end : PolicyDecision) : Type 0 where
  reasons : end.reasons ≡ out.reasons ++ flat_map reason_of rs
  sources : end.sources ≡ out.sources ++ flat_map source_of rs
  consulted : end.consulted ≡ out.consulted ++ flat_map consulted_of rs
  verdict : end.verdict ≡ raise out.verdict (worst (verdicts rs))

record Stepped (out : PolicyDecision) (r : LayerResult) (end : PolicyDecision) : Type 0 where
  reasons : end.reasons ≡ out.reasons ++ reason_of r
  sources : end.sources ≡ out.sources ++ source_of r
  consulted : end.consulted ≡ out.consulted ++ consulted_of r
  verdict : end.verdict ≡ raise out.verdict r.verdict

layer_step-Stepped : (out : PolicyDecision) (r : LayerResult) → Stepped out r (layer_step out r)
unfolding layer_step
layer_step-Stepped out r = record {
  reasons = ground (arith, append-nil out.reasons);
  sources = ground (arith, append-nil out.sources);
  consulted = ground (arith, append-nil out.consulted);
  verdict = unfold raise in ground arith;
}

layers_from-Layered :
    (out : PolicyDecision) (rs : List LayerResult) → Layered out rs (layers_from out rs)
unfolding layers_from
layers_from-Layered out [] = record {
  reasons = sym (append-nil out.reasons);
  sources = sym (append-nil out.sources);
  consulted = sym (append-nil out.consulted);
  verdict = sym (worst-nil out.verdict);
}
layers_from-Layered out (r ∷ rs) =
    let s : Stepped out r (layer_step out r) = layer_step-Stepped out r in
    let ih : Layered (layer_step out r) rs (layers_from (layer_step out r) rs) =
      layers_from-Layered (layer_step out r) rs in
    record {
      reasons =
          ih.reasons
          ∙ (ap (λ l. l ++ flat_map reason_of rs) s.reasons
              ∙ append_assoc out.reasons (reason_of r) (flat_map reason_of rs));
      sources =
          ih.sources
          ∙ (ap (λ l. l ++ flat_map source_of rs) s.sources
              ∙ append_assoc out.sources (source_of r) (flat_map source_of rs));
      consulted =
          ih.consulted
          ∙ (ap (λ l. l ++ flat_map consulted_of rs) s.consulted
              ∙ append_assoc out.consulted (consulted_of r) (flat_map consulted_of rs));
      verdict =
          ih.verdict
          ∙ (ap (λ v. raise v (worst (verdicts rs))) s.verdict
              ∙ sym (worst-cons out.verdict r.verdict (verdicts rs)));
    }

insert_layer-perm : (r : LayerResult) (rs : List LayerResult) → Permᴰ (insert_layer r rs) (r ∷ rs)
unfolding insert_layer
insert_layer-perm r [] = Permᴰ.cons refl Permᴰ.nil
insert_layer-perm r (x ∷ xs) =
    elim (Bool-cases (ltb (precedence_rank x.source) (precedence_rank r.source))) [
      | inl e ↦ rw e (Permᴰ.trans (Permᴰ.cons refl (insert_layer-perm r xs)) (Permᴰ.swap refl refl))
      | inr e ↦ rw e (Permᴰ.cons refl (Permᴰ.cons refl (perm_refl xs)))
    ]

sort_layers-perm : (rs : List LayerResult) → Permᴰ (sort_layers rs) rs
unfolding sort_layers
sort_layers-perm [] = Permᴰ.nil
sort_layers-perm (r ∷ rs) =
    Permᴰ.trans (insert_layer-perm r (sort_layers rs)) (Permᴰ.cons refl (sort_layers-perm rs))

worst-allowed :
    (vs : List Verdict)
    → (is_allow (worst vs) || is_flag (worst vs)) ≡ not (is_deny (worst vs) || is_ask (worst vs))
unfolding worst
worst-allowed vs = ground arith

source_consulted :
    (z : String) (r : LayerResult)
    → not (str_eq z "") ≡ true
    → contains z (source_of r) ≡ true
    → contains z (consulted_of r) ≡ true
unfolding contains
source_consulted z r n h = ground (arith, eq_iff r.source z, eq_iff r.source "", eq_iff z "")

module _ (hash : Document LayerResult → String) where
  -- `EvaluateLayers` takes the worst verdict of all layers, is allowed exactly when it does not
  -- block, and gives the reasons of the objecting layers by rank: organization policy, project
  -- doctrine, job contract, session override, unknown sources; within a rank as they were given.
  pub evaluate_layers_lem :
      (rs : List LayerResult)
      → ((evaluate_layers hash rs).verdict ≡ worst (map (λ r. r.verdict) rs))
        × ((evaluate_layers hash rs).allowed ≡ not (blocks (evaluate_layers hash rs)))
        × ((evaluate_layers hash rs).reasons ≡ flat_map reason_of (buckets 5 0 rs))
  unfolding evaluate_layers blocks
  evaluate_layers_lem rs =
      let g : Layered permissive (sort_layers rs) (layers_from permissive (sort_layers rs)) =
        layers_from-Layered permissive (sort_layers rs) in
      let v : (layers_from permissive (sort_layers rs)).verdict ≡ worst (verdicts rs) =
        g.verdict
        ∙ (raise-allow-worst (verdicts (sort_layers rs))
            ∙ worst-perm (map-perm (λ r. r.verdict) (sort_layers-perm rs))) in
      (
        v,
        rw v (worst-allowed (verdicts rs)),
        g.reasons ∙ ap (flat_map reason_of) (sort_layers_lem rs),
      )

  evaluate_layers-sources :
      (rs : List LayerResult)
      → ((evaluate_layers hash rs).sources ≡ unique_sorted (flat_map source_of rs))
        × ((evaluate_layers hash rs).consulted ≡ unique_sorted (flat_map consulted_of rs))
  unfolding evaluate_layers
  evaluate_layers-sources rs =
      let g : Layered permissive (sort_layers rs) (layers_from permissive (sort_layers rs)) =
        layers_from-Layered permissive (sort_layers rs) in
      (
        ap unique_sorted g.sources ∙ unique_sorted-perm source_of (sort_layers-perm rs),
        ap unique_sorted g.consulted ∙ unique_sorted-perm consulted_of (sort_layers-perm rs),
      )

  -- Precedence never depends on the order of the call: the verdict, whether it is allowed, the
  -- objecting sources and the layers consulted are the same for every order of the results.
  evaluate_layers-perm :
      {rs ss : List LayerResult}
      → Permᴰ rs ss
      → ((evaluate_layers hash rs).verdict ≡ (evaluate_layers hash ss).verdict)
        × ((evaluate_layers hash rs).allowed ≡ (evaluate_layers hash ss).allowed)
        × ((evaluate_layers hash rs).sources ≡ (evaluate_layers hash ss).sources)
        × ((evaluate_layers hash rs).consulted ≡ (evaluate_layers hash ss).consulted)
  unfolding blocks
  evaluate_layers-perm {rs} {ss} p =
      let (v1, a1, _) = evaluate_layers_lem rs in
      let (v2, a2, _) = evaluate_layers_lem ss in
      let (s1, c1) = evaluate_layers-sources rs in
      let (s2, c2) = evaluate_layers-sources ss in
      let v = v1 ∙ (worst-perm (map-perm (λ r. r.verdict) p) ∙ sym v2) in
      (
        v,
        a1 ∙ (ap (λ w. not (is_deny w || is_ask w)) v ∙ sym a2),
        s1 ∙ (unique_sorted-perm source_of p ∙ sym s2),
        c1 ∙ (unique_sorted-perm consulted_of p ∙ sym c2),
      )

  -- Every layer that objects was consulted, if it has a name.
  pub sources-consulted :
      (rs : List LayerResult) (z : String)
      → contains z (evaluate_layers hash rs).sources ≡ true
      → contains z (evaluate_layers hash rs).consulted ≡ true
  sources-consulted rs z h =
      let (s, c) = evaluate_layers-sources rs in
      let found : (contains z (flat_map source_of rs) && not (str_eq z "")) ≡ true =
        sym (contains-unique_sorted z (flat_map source_of rs)) ∙ (ap (contains z) (sym s) ∙ h) in
      let named : not (str_eq z "") ≡ true =
        and→right (contains z (flat_map source_of rs)) (not (str_eq z "")) found in
      let asked : any (λ r. contains z (consulted_of r)) rs ≡ true =
        any-imp (λ r. contains z (source_of r)) (λ r. contains z (consulted_of r)) rs
          (λ r. source_consulted z r named)
          (sym (contains-flat_map z source_of rs)
            ∙ and→left (contains z (flat_map source_of rs)) (not (str_eq z "")) found) in
      ap (contains z) c
      ∙ (contains-unique_sorted z (flat_map consulted_of rs)
          ∙ rw (contains-flat_map z consulted_of rs, asked, named))
