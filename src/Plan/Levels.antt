-- ===== src/Plan/Levels.antt =====
-- `TopologicalLevels` of internal/contracts/plan.go: Kahn's algorithm on the jobs of a plan. A map
-- from job ids is a function, and a set of ids a list with no id twice.
use governator.Prelude.{
  ℕ, suc, zero, ◌-◌, String, Bool, true, false, List, [], ◌∷◌, map, any, filter, flat_map, length,
  str_eq, ◌==◌, if◌then◌else◌, sum_of, pos,
}
use governator.Policy.Sources.{sort_strings}
use governator.Plan.{Contract}

-- A key of the map `byID`.
abbrev pub known : List Contract → String → Bool
known jobs id = any (λ (j : Contract). str_eq j.job_id id) jobs

-- The edges that the second loop follows: from each dependency that is a job to the job, with those
-- that dangle left out.
abbrev pub job_edges : List Contract → Contract → List (String × String)
job_edges jobs j = map (λ dep. (dep, j.job_id)) (filter (known jobs) j.depends_on)

unfoldable pub edges : List Contract → List (String × String)
edges jobs = flat_map (job_edges jobs) jobs

abbrev pub count : String → List String → ℕ
count x l = sum_of (λ t. if str_eq t x then 1 else 0) l

-- `dependents[id]`.
abbrev pub dependents : List (String × String) → String → List String
dependents es id =
    map (λ (e : String × String). e.1) (filter (λ (e : String × String). str_eq e.0 id) es)

-- `indegree[id]` after the second loop.
abbrev pub indegree : List (String × String) → String → ℕ
indegree es id = sum_of (λ (e : String × String). if str_eq e.1 id then 1 else 0) es

-- The keys of `indegree`.
abbrev pub add_key : String → List String → List String
add_key k l = if any (λ t. str_eq t k) l then l else k ∷ l

unfoldable pub keys : List Contract → List String
keys [] = []
keys (j ∷ js) = add_key j.job_id (keys js)

-- The first value of `current`.
unfoldable pub start : List Contract → List String
start jobs = filter (λ id. indegree (edges jobs) id == 0) (keys jobs)

-- The counts and the set `next` inside a round.
pub record Round : Type 0 where
  pub degree : String → ℕ
  pub next : List String

-- `indegree[dep]--`, and the test whether this has made it 0: it has if it was 1.
unfoldable pub follow_edge : String → Round → Round
follow_edge dep r = record {
  degree = λ id. if str_eq dep id then r.degree id - 1 else r.degree id;
  next = if r.degree dep == 1 then dep ∷ r.next else r.next;
}

unfoldable pub follow : List String → Round → Round
follow [] r = r
follow (dep ∷ deps) r = follow deps (follow_edge dep r)

unfoldable pub follow_all : List (String × String) → List String → Round → Round
unfolding follow
follow_all es [] r = r
follow_all es (id ∷ ids) r = follow_all es ids (follow (dependents es id) r)

pub data Result : Type 0 where
  ok : List (List String) → Result
  cycle : ℕ → Result
  out_of_fuel : Result

abbrev pub add_level : List String → Result → Result
add_level ids (ok levels) = ok (ids ∷ levels)
add_level ids (cycle n) = cycle n
add_level ids out_of_fuel = out_of_fuel

abbrev pub is_nil : List String → Bool
is_nil [] = true
is_nil (x ∷ xs) = false

-- The loop `for remaining > 0`; `remaining` may stop at 0 where it would be negative, which ends the
-- loop as well.
unfoldable pub levels_from : List (String × String) → ℕ → (String → ℕ) → List String → ℕ → Result
levels_from es zero degree current remaining = out_of_fuel
levels_from es (suc fuel) degree current remaining =
    let ids = sort_strings current in
    let round = follow_all es ids (record { degree = degree; next = [] }) in
    let rest = levels_from es fuel round.degree round.next (remaining - length ids) in
    if remaining == 0 then ok [] else if is_nil current then cycle remaining else add_level ids rest

-- `TopologicalLevels`, by the ids of each level. Each round takes at least one of the remaining jobs.
unfoldable pub level_ids : List Contract → Result
level_ids jobs =
    levels_from (edges jobs) (suc (length jobs)) (indegree (edges jobs)) (start jobs) (length jobs)

abbrev pub zero_contract : Contract
zero_contract = record {
  job_id = "";
  root = "";
  risk_class = "";
  max_tokens = pos 0;
  write = [];
  intended_writes = [];
  depends_on = [];
  produces = [];
  consumes = [];
  artifact_sources = [];
}

-- `byID[id]`: the last job of the id, or the zero value.
unfoldable pub by_id : Contract → List Contract → String → Contract
by_id found [] id = found
by_id found (j ∷ js) id = by_id (if str_eq j.job_id id then j else found) js id

-- The levels that `TopologicalLevels` returns.
unfoldable pub level_contracts : List Contract → List (List String) → List (List Contract)
unfolding by_id
level_contracts jobs levels = map (map (by_id zero_contract jobs)) levels
