-- ===== src/Plan/Ancestors.antt =====
-- What `planAncestors` and `ResolveArtifactSources` of internal/contracts/plan.go find.
use governator.Prelude.{
  ℕ, suc, zero, ◌≤◌, ◌<◌, String, true, false, List, [], ◌∷◌, ◌++◌, map, length, str_eq, eq_iff,
  if◌then◌else◌, Option, none, some, ◌≡◌, ◌≢◌, refl, sym, ap, subst, inl, inr, arith, Bool-cases,
  Option-cases, Memᴰ, All, All-append, All-imp, sum_of,
}
use governator.Plan.{Contract}
use governator.Plan.Levels.{zero_contract, by_id}
use governator.Plan.Artifacts.{
  Memo, cached, direct, has_id, visited, joined, collect, memo_of, plan_ancestors,
}

-- The keys that are not being visited.
abbrev unvisited : List String → List String → ℕ
unvisited ids visiting = sum_of (λ id. if has_id id visiting then 0 else 1) ids

unvisited-le :
    (ids visiting : List String) (d : String)
    → unvisited ids (d ∷ visiting) ≤ unvisited ids visiting
unvisited-le [] visiting d = omega arith
unvisited-le (x ∷ ids) visiting d = ground (arith, unvisited-le ids visiting d)

unvisited-lt :
    (ids visiting : List String) (d : String)
    → has_id d ids ≡ true
    → has_id d visiting ≡ false
    → unvisited ids (d ∷ visiting) < unvisited ids visiting
unvisited-lt [] visiting d h n = cc h
unvisited-lt (x ∷ ids) visiting d h n =
    ground (arith, unvisited-le ids visiting d, unvisited-lt ids visiting d, eq_iff x d, eq_iff d x)

joined-ne_none :
    (dep : String) (found : List String) (r : Option (List String × Memo))
    → r ≢ none
    → joined dep found r ≢ none
joined-ne_none dep found none h e = absurd (h refl)
joined-ne_none dep found (some (rest, memo)) h e = cc e

visited-ne_none : (d : String) (r : Option (List String × Memo)) → r ≢ none → visited d r ≢ none
visited-ne_none d none h e = absurd (h refl)
visited-ne_none d (some (out, memo)) h e = cc e

-- The loop over the dependencies ends if the fuel is more than the keys that are not being visited;
-- an id that is no key has no dependencies.
collect-ne_none :
    (above : String → List String) (ids : List String)
    → ((d : String) → has_id d ids ≡ false → above d ≡ [])
    → (fuel : ℕ) (visiting deps : List String) (memo : Memo) → unvisited ids visiting < fuel
    → collect above fuel visiting deps memo ≢ none
unfolding collect
collect-ne_none above ids leaf fuel visiting [] memo lt = λ h. cc h
collect-ne_none above ids leaf zero visiting (dep ∷ deps) memo lt = absurd (omega arith)
collect-ne_none above ids leaf (suc fuel) visiting (dep ∷ deps) memo lt =
    elim (Option-cases (cached memo dep)) [
      | inr (found, e) ↦
          rw (e, collect)
            (joined-ne_none dep found _
              (collect-ne_none above ids leaf (suc fuel) visiting deps memo lt))
      | inl new ↦ elim (Bool-cases (has_id dep visiting)) [
        | inl busy ↦
            rw (new, busy, collect)
              (joined-ne_none dep [] _
                (collect-ne_none above ids leaf (suc fuel) visiting deps memo lt))
        | inr fresh ↦
            let nested : collect above fuel (dep ∷ visiting) (above dep) memo ≢ none =
              elim (Bool-cases (has_id dep ids)) [
                | inl key ↦
                    collect-ne_none above ids leaf fuel (dep ∷ visiting) (above dep) memo
                      (omega (arith, unvisited-lt ids visiting dep key fresh))
                | inr no_key ↦ rw (leaf dep no_key) (λ h. cc h)
              ] in
            elim (Option-cases
              (visited dep (collect above fuel (dep ∷ visiting) (above dep) memo))) [
                | inl stopped ↦ absurd (visited-ne_none dep _ nested stopped)
                | inr ((found, memo'), e) ↦
                    rw (new, fresh, e, collect)
                      (joined-ne_none dep found _
                        (collect-ne_none above ids leaf (suc fuel) visiting deps memo' lt))
              ]
      ]
    ]

-- An id that the dependencies lead to.
pub data Above (above : String → List String) : String → String → Type 0 where
  next : {x e : String} → Memᴰ e (above x) → Above above x e
  higher : {x d e : String} → Memᴰ d (above x) → Above above d e → Above above x e

abbrev IsSound : (String → List String) → Memo → Type 0
IsSound above memo = All (λ (kv : String × List String). All (Above above kv.0) kv.1) memo

cached-IsSound :
    (above : String → List String) (memo : Memo) (d : String) {found : List String}
    → IsSound above memo
    → cached memo d ≡ some found
    → All (Above above d) found
unfolding cached
cached-IsSound above [] d h e = cc e
cached-IsSound above ((k, v) ∷ memo) d h e = elim (Bool-cases (str_eq k d)) [
  | inl same ↦
      subst (λ l. All (Above above d) l) (some_inj (rw same at e))
        (subst (λ x. All (Above above x) v) ((eq_iff k d).0 same) h.0)
  | inr other ↦ cached-IsSound above memo d h.1 (rw other at e)
]
  where
    some_inj : {a b : List String} → some a ≡ some b → a ≡ b
    some_inj e = cc e

joined-inverted :
    (dep : String) (found : List String) (r : Option (List String × Memo)) {out : List String}
    {memo : Memo}
    → joined dep found r ≡ some (out, memo)
    → (rest : List String) × (r ≡ some (rest, memo)) × (out ≡ dep ∷ (found ++ rest))
joined-inverted dep found none h = cc h
joined-inverted dep found (some (rest, memo)) h = (rest, cc h, cc h)

abbrev found_ids : Option (List String × Memo) → List String
found_ids none = []
found_ids (some (out, memo)) = out

abbrev memo_or_empty : Option (List String × Memo) → Memo
memo_or_empty none = []
memo_or_empty (some (out, memo)) = memo

visited-inverted :
    (d : String) (r : Option (List String × Memo)) {found : List String} {memo : Memo}
    → visited d r ≡ some (found, memo)
    → (m : Memo) × (r ≡ some (found, m)) × (memo ≡ (d, found) ∷ m)
visited-inverted d none h = cc h
visited-inverted d (some (out, m)) h = (m, cc h, cc h)

joined-IsSound :
    (above : String → List String) (P : String → Type 0) (dep : String) (found : List String)
    (r : Option (List String × Memo)) {out : List String} {memo : Memo}
    → P dep × ((e : String) → Above above dep e → P e)
    → All (Above above dep) found
    → ((rest : List String) → r ≡ some (rest, memo) → All P rest × IsSound above memo)
    → joined dep found r ≡ some (out, memo)
    → All P out × IsSound above memo
joined-IsSound above P dep found r top f rec h =
    let (rest, er, eo) = joined-inverted dep found r h in
    let (a, s) = rec rest er in
    (subst (All P) (sym eo) (top.0, All-append P found rest (All-imp found top.1 f) a), s)

-- The loop finds only what stands above the dependencies, and remembers such sets.
collect-IsSound :
    (above : String → List String) (P : String → Type 0) (fuel : ℕ) (visiting deps : List String)
    (memo : Memo) {out : List String} {memo' : Memo}
    → ((d : String) → Memᴰ d deps → P d × ((e : String) → Above above d e → P e))
    → IsSound above memo
    → collect above fuel visiting deps memo ≡ some (out, memo')
    → All P out × IsSound above memo'
unfolding collect
collect-IsSound above P fuel visiting [] memo {out} {memo'} tops sound h = (
  subst (All P) (ap (λ (o : Option (List String × Memo)). found_ids o) h) tt,
  subst (IsSound above) (ap (λ (o : Option (List String × Memo)). memo_or_empty o) h) sound,
)
collect-IsSound above P zero visiting (dep ∷ deps) memo tops sound h = cc h
collect-IsSound above P (suc fuel) visiting (dep ∷ deps) memo {out} {memo'} tops sound h =
    let top = tops dep (Memᴰ.head refl) in
    let more : (d : String) → Memᴰ d deps → P d × ((e : String) → Above above d e → P e) =
      λ d n. tops d (Memᴰ.tail n) in
    elim (Option-cases (cached memo dep)) [
      | inr (found, e) ↦
          joined-IsSound above P dep found _ top (cached-IsSound above memo dep sound e)
            (λ rest er. collect-IsSound above P (suc fuel) visiting deps memo more sound er)
            (rw (e, collect) at h)
      | inl new ↦ elim (Bool-cases (has_id dep visiting)) [
        | inl busy ↦
            joined-IsSound above P dep [] _ top tt
              (λ rest er. collect-IsSound above P (suc fuel) visiting deps memo more sound er)
              (rw (new, busy, collect) at h)
        | inr fresh ↦
            elim (Option-cases
              (visited dep (collect above fuel (dep ∷ visiting) (above dep) memo))) [
                | inl stopped ↦ cc (rw (new, fresh, stopped, collect) at h)
                | inr ((found, m), e) ↦
                    let (inner, r, eq) = visited-inverted dep _ e in
                    let (f, s) =
                      collect-IsSound above (Above above dep) fuel (dep ∷ visiting) (above dep) memo
                        (λ d n. (next n, λ x a. higher n a)) sound r in
                    joined-IsSound above P dep found _ top f
                      (λ rest er.
                        collect-IsSound above P (suc fuel) visiting deps m more
                          (subst (IsSound above) (sym eq) (f, s)) er)
                      (rw (new, fresh, e, collect) at h)
              ]
      ]
    ]

by_id-unknown :
    (found : Contract) (jobs : List Contract) (d : String)
    → has_id d (map (λ (j : Contract). j.job_id) jobs) ≡ false
    → by_id found jobs d ≡ found
unfolding by_id
by_id-unknown found [] d h = refl
by_id-unknown found (j ∷ js) d h = elim (Bool-cases (str_eq j.job_id d)) [
  | inl same ↦ absurd (ground (arith, same, h))
  | inr other ↦ rw other (by_id-unknown found js d (ground (arith, h)))
]

unvisited-ids :
    (jobs : List Contract) → unvisited (map (λ (j : Contract). j.job_id) jobs) [] ≤ length jobs
unvisited-ids [] = omega arith
unvisited-ids (j ∷ js) = omega (arith, unvisited-ids js)

memo_of-ne_none : (r : Option (List String × Memo)) → r ≢ none → memo_of r ≢ none
memo_of-ne_none none h e = absurd (h refl)
memo_of-ne_none (some (out, memo)) h e = cc e

memo_of-inverted :
    (r : Option (List String × Memo)) {memo : Memo}
    → memo_of r ≡ some memo
    → (out : List String) × (r ≡ some (out, memo))
memo_of-inverted none h = cc h
memo_of-inverted (some (out, m)) h = (out, cc h)

-- The ancestors of every list of jobs are computed, with cycles or without: the recursion is no deeper
-- than there are jobs.
pub plan_ancestors-ne_none : (jobs : List Contract) → plan_ancestors jobs ≢ none
unfolding plan_ancestors
plan_ancestors-ne_none jobs = memo_of-ne_none _ (
    collect-ne_none (direct jobs) (map (λ (j : Contract). j.job_id) jobs)
      (λ d h. ap (λ (c : Contract). c.depends_on) (by_id-unknown zero_contract jobs d h))
      (suc (suc (length jobs))) [] _ [] (omega (arith, unvisited-ids jobs)))

pub plan_ancestors-IsSound :
    (jobs : List Contract) (d : String) {memo : Memo} {found : List String}
    → plan_ancestors jobs ≡ some memo
    → cached memo d ≡ some found
    → All (Above (direct jobs) d) found
unfolding plan_ancestors
plan_ancestors-IsSound jobs d {memo} h e =
    let (out, r) = memo_of-inverted _ h in
    cached-IsSound (direct jobs) memo d
      (collect-IsSound (direct jobs) (λ _. Unit) (suc (suc (length jobs))) [] _ []
        (λ d n. (tt, λ x a. tt)) tt r).1
      e
