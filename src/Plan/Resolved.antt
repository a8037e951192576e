-- ===== src/Plan/Resolved.antt =====
-- The sources that `ResolveArtifactSources` of internal/contracts/plan.go gives to the jobs.
use governator.Prelude.{
  String, true, not, List, [], ◌∷◌, map, filter-mem, flat_map, str_eq, eq_iff, none, some,
  get_last?, ◌≡◌, ◌≢◌, refl, sym, ap, subst, ◌∙◌, inl, inr, Bool-cases, Option-cases, Memᴰ, All,
  All-mem, any→Memᴰ, mem-append_cases, and→left, and→right, str_lt,
}
use governator.Policy.Sources.{sort_strings, insert_sorted}
use governator.Plan.{Contract}
use governator.Plan.Artifacts.{
  Memo, cached, direct, has_id, plan_ancestors, found_or_empty, producers, source_of, job_sources,
  with_sources, resolve_artifact_sources,
}
use governator.Plan.Ancestors.{Above, plan_ancestors-ne_none, plan_ancestors-IsSound}

get_last?-mem : (xs : List String) {a : String} → get_last? xs ≡ some a → Memᴰ a xs
get_last?-mem [] h = cc h
get_last?-mem (x ∷ []) h = Memᴰ.head (cc h)
get_last?-mem (x ∷ y ∷ ys) h = Memᴰ.tail (get_last?-mem (y ∷ ys) h)

swapped :
    (v x : String) (xs rest : List String) {a : String}
    → (Memᴰ a rest → Memᴰ a (v ∷ xs))
    → Memᴰ a (x ∷ rest)
    → Memᴰ a (v ∷ x ∷ xs)
swapped v x xs rest f (Memᴰ.head e) = Memᴰ.tail (Memᴰ.head e)
swapped v x xs rest f (Memᴰ.tail m) = elim (f m) [
  | Memᴰ.head e ↦ Memᴰ.head e
  | Memᴰ.tail n ↦ Memᴰ.tail (Memᴰ.tail n)
]

mem-insert_sorted :
    (v : String) (xs : List String) {a : String} → Memᴰ a (insert_sorted v xs) → Memᴰ a (v ∷ xs)
unfolding insert_sorted
mem-insert_sorted v [] m = m
mem-insert_sorted v (x ∷ xs) m = elim (Bool-cases (str_lt x v)) [
  | inl before ↦ swapped v x xs (insert_sorted v xs) (mem-insert_sorted v xs) (rw before at m)
  | inr here ↦ rw here at m
]

mem-sort_strings : (xs : List String) {a : String} → Memᴰ a (sort_strings xs) → Memᴰ a xs
unfolding sort_strings
mem-sort_strings [] m = m
mem-sort_strings (x ∷ xs) m = elim (mem-insert_sorted x (sort_strings xs) m) [
  | Memᴰ.head e ↦ Memᴰ.head e
  | Memᴰ.tail n ↦ Memᴰ.tail (mem-sort_strings xs n)
]

mem-map :
    (f : String → String) (xs : List String) {a : String}
    → Memᴰ a (map f xs)
    → (x : String) × Memᴰ x xs × (f x ≡ a)
mem-map f [] m = elim m [ ]
mem-map f (x ∷ xs) (Memᴰ.head e) = (x, Memᴰ.head refl, sym e)
mem-map f (x ∷ xs) (Memᴰ.tail m) = (let (y, n, e) = mem-map f xs m in (y, Memᴰ.tail n, e))

mem-flat_map :
    (f : Contract → List String) (xs : List Contract) {a : String}
    → Memᴰ a (flat_map f xs)
    → (x : Contract) × Memᴰ x xs × Memᴰ a (f x)
mem-flat_map f [] m = elim m [ ]
mem-flat_map f (x ∷ xs) m = elim (mem-append_cases (f x) (flat_map f xs) m) [
  | inl h ↦ (x, Memᴰ.head refl, h)
  | inr t ↦ (let (y, n, h) = mem-flat_map f xs t in (y, Memᴰ.tail n, h))
]

-- A job of the plan of this id produces the artifact.
abbrev pub IsProduced : List Contract → String → String → Type 0
IsProduced jobs name id =
    (p : Contract) × Memᴰ p jobs × (p.job_id ≡ id) × Memᴰ name p.produces × (name ≢ "")

producers-IsProduced :
    (jobs : List Contract) (name id : String)
    → Memᴰ id (producers jobs name)
    → IsProduced jobs name id
producers-IsProduced jobs name id m =
    let (p, mp, h) = mem-flat_map _ jobs m in
    let (n, mn, e) = mem-map (λ _. p.job_id) _ h in
    let (made, test) = filter-mem _ p.produces mn in
    let named : not (str_eq n "") ≡ true = and→left (not (str_eq n "")) (str_eq n name) test in
    let same : n ≡ name = (eq_iff n name).0 (and→right (not (str_eq n "")) (str_eq n name) test) in
    (
      p,
      mp,
      e,
      subst (λ x. Memᴰ x p.produces) same made,
      (λ b. cc (named, (eq_iff n "").1 (same ∙ b))),
    )

-- A source of a job: an id that its dependencies lead to, of a job that produces the artifact.
abbrev pub IsSource : List Contract → String → String × String → Type 0
IsSource jobs id s = Above (direct jobs) id s.1 × IsProduced jobs s.0 s.1

found-Above :
    (jobs : List Contract) (id s : String) {memo : Memo}
    → plan_ancestors jobs ≡ some memo
    → has_id s (found_or_empty (cached memo id)) ≡ true
    → Above (direct jobs) id s
found-Above jobs id s {memo} h c = elim (Option-cases (cached memo id)) [
  | inl missing ↦ cc (rw missing at c)
  | inr (found, e) ↦
      let (t, m, q) = any→Memᴰ (λ t. str_eq t s) found (rw e at c) in
      subst (Above (direct jobs) id) ((eq_iff t s).0 q)
        (All-mem (Above (direct jobs) id) found (plan_ancestors-IsSound jobs id h e) m)
]

source_of-IsSource :
    (jobs : List Contract) (j : Contract) (name : String) {memo : Memo} {s : String}
    → plan_ancestors jobs ≡ some memo
    → source_of jobs memo j name ≡ some s
    → IsSource jobs j.job_id (name, s)
unfolding source_of
source_of-IsSource jobs j name {memo} {s} h e =
    let (m, c) = filter-mem _ (producers jobs name) (mem-sort_strings _ (get_last?-mem _ e)) in
    (found-Above jobs j.job_id s h c, producers-IsProduced jobs name s m)

job_sources-IsSource :
    (jobs : List Contract) (j : Contract) (names : List String) {memo : Memo}
    → plan_ancestors jobs ≡ some memo
    → All (IsSource jobs j.job_id) (job_sources jobs memo j names).0
unfolding job_sources
job_sources-IsSource jobs j [] h = tt
job_sources-IsSource jobs j (name ∷ names) {memo} h =
    elim (Option-cases (source_of jobs memo j name)) [
      | inl missing ↦ rw missing (job_sources-IsSource jobs j names h)
      | inr (s, e) ↦ rw e (source_of-IsSource jobs j name h e, job_sources-IsSource jobs j names h)
    ]

sourced :
    (jobs : List Contract) (j : Contract) (ss : List (String × String))
    → j.artifact_sources ≡ []
    → All (IsSource jobs j.job_id) ss
    → All (IsSource jobs (with_sources j ss).job_id) (with_sources j ss).artifact_sources
sourced jobs j [] z h = subst (All (IsSource jobs j.job_id)) (sym z) tt
sourced jobs j (s ∷ ss) z h = h

jobs_sourced :
    (jobs some_jobs : List Contract) {memo : Memo}
    → plan_ancestors jobs ≡ some memo
    → All (λ (j : Contract). j.artifact_sources ≡ []) some_jobs
    → All
        (λ (r : Contract). All (IsSource jobs r.job_id) r.artifact_sources)
        (map (λ (j : Contract). with_sources j (job_sources jobs memo j j.consumes).0) some_jobs)
jobs_sourced jobs [] h z = tt
jobs_sourced jobs (j ∷ js) h z =
    (sourced jobs j _ z.0 (job_sources-IsSource jobs j j.consumes h), jobs_sourced jobs js h z.1)

-- On every list of jobs, with cycles or without, `ResolveArtifactSources` ends: the recursion over the
-- ancestors is no deeper than there are jobs.
pub resolve_artifact_sources-ne_none : (jobs : List Contract) → resolve_artifact_sources jobs ≢ none
unfolding resolve_artifact_sources
resolve_artifact_sources-ne_none jobs = elim (Option-cases (plan_ancestors jobs)) [
  | inl stopped ↦ absurd (plan_ancestors-ne_none jobs stopped)
  | inr (memo, e) ↦ rw (e, resolve_artifact_sources) (λ h. cc h)
]

some_inj_first : (r s : List Contract × List (List String)) → some r ≡ some s → r.0 ≡ s.0
some_inj_first r s e =
    let same : r ≡ s = cc e in ap (λ (p : List Contract × List (List String)). p.0) same

-- If the jobs have no sources yet, each source of an artifact that `ResolveArtifactSources` gives to a job
-- is the id of a job that produces that artifact, whose name is not empty, and the dependencies of
-- the job lead to it.
pub resolve_artifact_sources-IsSource :
    (jobs : List Contract) {resolved : List Contract} {missing : List (List String)}
    → All (λ (j : Contract). j.artifact_sources ≡ []) jobs
    → resolve_artifact_sources jobs ≡ some (resolved, missing)
    → All (λ (r : Contract). All (IsSource jobs r.job_id) r.artifact_sources) resolved
unfolding resolve_artifact_sources
resolve_artifact_sources-IsSource jobs z h = elim (Option-cases (plan_ancestors jobs)) [
  | inl stopped ↦ cc (rw (stopped, resolve_artifact_sources) at h)
  | inr (memo, e) ↦
      subst (All (λ (r : Contract). All (IsSource jobs r.job_id) r.artifact_sources))
        (some_inj_first _ _ (rw (e, resolve_artifact_sources) at h)) (jobs_sourced jobs jobs e z)
]
