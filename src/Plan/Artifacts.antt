-- ===== src/Plan/Artifacts.antt =====
-- `planAncestors` and `ResolveArtifactSources` of internal/contracts/plan.go.
use governator.Prelude.{
  ℕ, suc, zero, String, Bool, true, false, not, ◌&&◌, List, [], ◌∷◌, ◌++◌, map, any, filter,
  flat_map, length, str_eq, if◌then◌else◌, Option, none, some, get_last?,
}
use governator.Policy.Sources.{sort_strings}
use governator.Plan.{Contract}
use governator.Plan.Levels.{zero_contract, by_id}

abbrev pub Memo : Type 0
Memo = List (String × List String)

unfoldable pub cached : Memo → String → Option (List String)
cached [] id = none
cached ((k, v) ∷ memo) id = if str_eq k id then some v else cached memo id

-- `direct[id]`.
abbrev pub direct : List Contract → String → List String
direct jobs id = (by_id zero_contract jobs id).depends_on

abbrev pub has_id : String → List String → Bool
has_id id ids = any (λ t. str_eq t id) ids

-- What `visit` leaves, once the loop over the dependencies of a fresh id has run.
abbrev pub visited : String → Option (List String × Memo) → Option (List String × Memo)
visited id none = none
visited id (some (out, memo)) = some (out, (id, out) ∷ memo)

abbrev pub joined : String → List String → Option (List String × Memo) → Option (List String × Memo)
joined dep found none = none
joined dep found (some (rest, memo)) = some (dep ∷ (found ++ rest), memo)

-- The loop over the dependencies of an id, with `visit` in it. The ids that are `visiting` are those of
-- the calls that stand open, so that they are an argument; each nested call takes one fuel.
unfoldable pub collect :
    (String → List String) → ℕ → List String → List String → Memo → Option (List String × Memo)
unfolding cached
collect above fuel visiting [] memo = some ([], memo)
collect above zero visiting (dep ∷ deps) memo = none
collect above (suc fuel) visiting (dep ∷ deps) memo = elim (cached memo dep) [
  | some found ↦ joined dep found (collect above (suc fuel) visiting deps memo)
  | none ↦ elim (has_id dep visiting) [
    | true ↦ joined dep [] (collect above (suc fuel) visiting deps memo)
    | false ↦ elim (visited dep (collect above fuel (dep ∷ visiting) (above dep) memo)) [
      | none ↦ none
      | some (found, memo') ↦ joined dep found (collect above (suc fuel) visiting deps memo')
    ]
  ]
]

abbrev pub memo_of : Option (List String × Memo) → Option Memo
memo_of none = none
memo_of (some (out, memo)) = some memo

-- `planAncestors`: the loop that visits each job is the same loop over the ids of the jobs.
unfoldable pub plan_ancestors : List Contract → Option Memo
unfolding collect
plan_ancestors jobs =
    memo_of (
      collect (direct jobs) (suc (suc (length jobs))) [] (map (λ (j : Contract). j.job_id) jobs) [])

abbrev pub found_or_empty : Option (List String) → List String
found_or_empty none = []
found_or_empty (some ids) = ids

-- `producersByName[name]`.
abbrev pub producers : List Contract → String → List String
producers jobs name =
    flat_map
      (λ (j : Contract).
        map (λ (n : String). j.job_id)
          (filter (λ n. not (str_eq n "") && str_eq n name) j.produces))
      jobs

-- The last of the sorted matches.
unfoldable pub source_of : List Contract → Memo → Contract → String → Option String
unfolding cached
source_of jobs memo j name = get_last? (
    sort_strings
      (filter (λ p. has_id p (found_or_empty (cached memo j.job_id))) (producers jobs name)))

-- The sources of a job, and the consumed names that have none.
abbrev pub add_source :
    String
    → Option String
    → List (String × String) × List String
    → List (String × String) × List String
add_source name none (sources, missing) = (sources, name ∷ missing)
add_source name (some s) (sources, missing) = ((name, s) ∷ sources, missing)

unfoldable pub job_sources :
    List Contract → Memo → Contract → List String → List (String × String) × List String
unfolding source_of
job_sources jobs memo j [] = ([], [])
job_sources jobs memo j (name ∷ names) =
    add_source name (source_of jobs memo j name) (job_sources jobs memo j names)

abbrev pub with_sources : Contract → List (String × String) → Contract
with_sources j [] = j
with_sources j (s ∷ ss) = record j { artifact_sources = s ∷ ss }

-- The jobs with their sources, and the names without a source, job by job.
unfoldable pub resolve_artifact_sources :
    List Contract → Option (List Contract × List (List String))
unfolding plan_ancestors job_sources
resolve_artifact_sources jobs = elim (plan_ancestors jobs) [
  | none ↦ none
  | some memo ↦ some (
    map (λ (j : Contract). with_sources j (job_sources jobs memo j j.consumes).0) jobs,
    map (λ (j : Contract). (job_sources jobs memo j j.consumes).1) jobs,
  )
]
