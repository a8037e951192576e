-- ===== src/Plan/Tests.antt =====
-- `TopologicalLevels`, the envelope and `ResolveArtifactSources` of internal/contracts/plan.go on small plans.
use governator.Prelude.{
  is_positive, ◌≤◌, pos, Bool, refl, ◌≡◌, ◌≢◌, ◌+◌, ◌<◌, String, List, [], ◌∷◌, flat_map, length,
  Memᴰ, arith, All, true, false, some, none,
}
use governator.Policy.Sources.{sort_strings, insert_sorted}
use governator.Plan.{Contract}
use governator.Plan.Levels.{
  known, edges, count, keys, ok, cycle, out_of_fuel, level_ids, level_contracts, zero_contract,
  by_id, levels_from, follow_all, follow, follow_edge, start,
}
use governator.Plan.Envelope.{
  Pattern, dot_dot, stars, slash_stars, push_element, walk, clean, normalize_pattern, covers,
  envelope_pattern_covers, envelope_covers,
}
use governator.Plan.Artifacts.{
  cached, collect, plan_ancestors, source_of, job_sources, resolve_artifact_sources,
}
use governator.Plan.Resolved.{
  IsSource, resolve_artifact_sources-IsSource, resolve_artifact_sources-ne_none,
}
use governator.Plan.Check.{
  accepted, rejected, over_total, job_errors, jobs_errors, plan_error_lists, plan_errors,
  validate_plan,
}
use governator.Plan.Accepted.{IsBounded, validate_plan-IsBounded}
use governator.Plan.Segments.{segments}
use governator.Plan.Covered.{IsInside, BeginsWithName, envelope_covers-IsInside}
use governator.Plan.Topological.{IsStuck}
use governator.Plan.Order.{
  level_ids-ne_out_of_fuel, level_ids-partition, level_ids-dependencies_first, level_ids-IsStuck,
}

abbrev job : String → List String → Contract
job id deps = record zero_contract { job_id = id; depends_on = deps }

-- A diamond.
abbrev diamond : List Contract
diamond =
    job "join" ("left" ∷ "right" ∷ [])
    ∷ job "right" ("base" ∷ [])
    ∷ job "left" ("base" ∷ [])
    ∷ job "base" []
    ∷ []

abbrev looped : List Contract
looped = job "a" ("b" ∷ []) ∷ job "b" ("a" ∷ []) ∷ job "c" [] ∷ []

diamond_levels :
    level_ids diamond ≡ ok (("base" ∷ []) ∷ ("left" ∷ "right" ∷ []) ∷ ("join" ∷ []) ∷ [])
unfolding level_ids levels_from follow_all follow follow_edge start edges keys sort_strings
    insert_sorted
diamond_levels = refl

-- A dependency that is no job is passed over.
dangling_levels : level_ids (job "a" ("gone" ∷ []) ∷ []) ≡ ok (("a" ∷ []) ∷ [])
unfolding level_ids levels_from follow_all follow follow_edge start edges keys sort_strings
    insert_sorted
dangling_levels = refl

-- Two jobs of one id are one key, and the second never gets a level.
duplicate_levels : level_ids (job "a" [] ∷ job "a" [] ∷ []) ≡ cycle 1
unfolding level_ids levels_from follow_all follow follow_edge start edges keys sort_strings
    insert_sorted
duplicate_levels = refl

looped_cycle : level_ids looped ≡ cycle 2
unfolding level_ids levels_from follow_all follow follow_edge start edges keys sort_strings
    insert_sorted
looped_cycle = refl

diamond_contracts : level_contracts diamond (("base" ∷ []) ∷ []) ≡ ((job "base" [] ∷ []) ∷ [])
unfolding level_contracts by_id
diamond_contracts = refl

level_ids-ne_out_of_fuel_example : level_ids looped ≢ out_of_fuel
level_ids-ne_out_of_fuel_example = level_ids-ne_out_of_fuel looped

level_ids-partition_example :
    count "left" (
      flat_map
        (λ (ids : List String). ids)
        (("base" ∷ []) ∷ ("left" ∷ "right" ∷ []) ∷ ("join" ∷ []) ∷ []))
    ≡ 1
level_ids-partition_example = level_ids-partition diamond diamond_levels "left"

level_ids-dependencies_first_example :
    0 < count "base" (flat_map (λ (ids : List String). ids) (("base" ∷ []) ∷ []))
level_ids-dependencies_first_example =
    level_ids-dependencies_first diamond (("base" ∷ []) ∷ []) ("left" ∷ "right" ∷ [])
      (("join" ∷ []) ∷ []) (job "left" ("base" ∷ [])) "base" diamond_levels
      (Memᴰ.tail (Memᴰ.tail (Memᴰ.head refl))) (omega arith) (Memᴰ.head refl) refl

keys-looped : length (keys looped) ≡ length looped
unfolding keys
keys-looped = refl

level_ids-IsStuck_example :
    (done : List String) × IsStuck (known looped) (edges looped) done × (2 + length done ≡ 3)
level_ids-IsStuck_example = level_ids-IsStuck looped keys-looped looped_cycle

-- The patterns "src/**" and "src/../secrets/**", and "src/lib/*" with a redundant ".".
abbrev src_tree : Pattern
src_tree = b's' ∷ b'r' ∷ b'c' ∷ slash_stars

abbrev smuggled : Pattern
smuggled = b's' ∷ b'r' ∷ b'c' ∷ b'/' ∷ b'.' ∷ b'.' ∷ b'/' ∷ b'k' ∷ slash_stars

abbrev nested : Pattern
nested = b'.' ∷ b'/' ∷ b's' ∷ b'r' ∷ b'c' ∷ b'\\' ∷ b'a' ∷ b'/' ∷ b'*' ∷ []

smuggled_clean : normalize_pattern smuggled ≡ b'k' ∷ slash_stars
unfolding normalize_pattern clean walk push_element
smuggled_clean = refl

smuggled_uncovered : envelope_covers (src_tree ∷ []) smuggled ≡ false
unfolding envelope_covers envelope_pattern_covers covers normalize_pattern clean walk push_element
smuggled_uncovered = refl

nested_covered : envelope_covers (src_tree ∷ []) nested ≡ true
unfolding envelope_covers envelope_pattern_covers covers normalize_pattern clean walk push_element
nested_covered = refl

src_tree-BeginsWithName : BeginsWithName src_tree
unfolding normalize_pattern clean walk push_element
src_tree-BeginsWithName = (b's' ∷ b'r' ∷ b'c' ∷ [], stars ∷ [], refl, (λ e. cc e), (λ e. cc e))

envelope_covers-IsInside_example :
    (declared : Pattern) × Memᴰ declared (src_tree ∷ [])
    × IsInside (segments (normalize_pattern declared)) (segments (normalize_pattern nested))
    × All (λ e. e ≢ dot_dot) (segments (normalize_pattern nested))
envelope_covers-IsInside_example =
    envelope_covers-IsInside (src_tree ∷ []) nested (src_tree-BeginsWithName, tt) nested_covered

-- Above the envelope's root the directory does not hold a candidate: "../**" covers "../../k".
abbrev parent_tree : Pattern
parent_tree = b'.' ∷ b'.' ∷ slash_stars

abbrev grandparent : Pattern
grandparent = b'.' ∷ b'.' ∷ b'/' ∷ b'.' ∷ b'.' ∷ b'/' ∷ b'k' ∷ []

grandparent_covered : envelope_covers (parent_tree ∷ []) grandparent ≡ true
unfolding envelope_covers envelope_pattern_covers covers normalize_pattern clean walk push_element
grandparent_covered = refl

-- A chain in which `last` consumes what the first job produces.
abbrev first_job : Contract
first_job = record (job "first" []) { produces = "report" ∷ [] }

abbrev last_job : Contract
last_job = record (job "last" ("middle" ∷ [])) { consumes = "report" ∷ "notes" ∷ [] }

abbrev chain : List Contract
chain = last_job ∷ job "middle" ("first" ∷ []) ∷ first_job ∷ []

abbrev chain_resolved : List Contract
chain_resolved =
    record last_job { artifact_sources = ("report", "first") ∷ [] }
    ∷ job "middle" ("first" ∷ [])
    ∷ first_job
    ∷ []

chain_resolves :
    resolve_artifact_sources chain ≡ some (chain_resolved, ("notes" ∷ []) ∷ [] ∷ [] ∷ [])
unfolding resolve_artifact_sources plan_ancestors collect cached job_sources source_of by_id
    sort_strings insert_sorted
chain_resolves = refl

resolve_artifact_sources-IsSource_example :
    All (λ (r : Contract). All (IsSource chain r.job_id) r.artifact_sources) chain_resolved
resolve_artifact_sources-IsSource_example =
    resolve_artifact_sources-IsSource chain (refl, (refl, (refl, tt))) chain_resolves

resolve_artifact_sources-ne_none_example : resolve_artifact_sources looped ≢ none
resolve_artifact_sources-ne_none_example = resolve_artifact_sources-ne_none looped

abbrev bounded_job : Contract
bounded_job = record (job "a" []) {
  root = "/repo";
  risk_class = "low";
  max_tokens = pos 500;
  write = "src/**" ∷ [];
}

abbrev always : Contract → Bool
always _ = true

abbrev same_text : String → String
same_text s = s

abbrev src_codes : String → Pattern
src_codes _ = src_tree

plan_accepted :
    validate_plan always same_text src_codes (bounded_job ∷ []) "/repo" (src_tree ∷ []) (pos 900)
    ≡ accepted (("a" ∷ []) ∷ [])
unfolding validate_plan plan_errors plan_error_lists jobs_errors job_errors resolve_artifact_sources
    plan_ancestors collect cached job_sources source_of by_id envelope_covers
    envelope_pattern_covers covers normalize_pattern clean walk push_element level_ids levels_from
    follow_all follow follow_edge start edges keys sort_strings insert_sorted
plan_accepted = refl

plan_over_total :
    validate_plan always same_text src_codes (bounded_job ∷ []) "/repo" (src_tree ∷ []) (pos 400)
    ≡ rejected (over_total 500 ∷ [])
unfolding validate_plan plan_errors plan_error_lists jobs_errors job_errors resolve_artifact_sources
    plan_ancestors collect cached job_sources source_of by_id envelope_covers
    envelope_pattern_covers covers normalize_pattern clean walk push_element
plan_over_total = refl

validate_plan-IsBounded_example :
    (500 ≤ 900)
    × (is_positive (pos 900) ≡ true)
    × All (IsBounded always same_text src_codes "/repo" (src_tree ∷ [])) (bounded_job ∷ [])
    × (level_ids (bounded_job ∷ []) ≡ ok (("a" ∷ []) ∷ []))
validate_plan-IsBounded_example =
    validate_plan-IsBounded always same_text src_codes (bounded_job ∷ []) "/repo" (src_tree ∷ [])
      (pos 900) (omega arith) plan_accepted
