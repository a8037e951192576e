-- ===== src/Plan/Order.antt =====
-- `TopologicalLevels` of internal/contracts/plan.go: the jobs of a plan in an order that keeps their
-- dependencies, or a set of jobs that wait for one another.
use governator.Prelude.{
  inl, inr, ℕ, ◌+◌, ◌≤◌, ◌<◌, ◌≡◌, ◌≢◌, refl, sym, ap, ◌∙◌, subst, String, Bool, true, false, List,
  [], ◌∷◌, ◌++◌, map, any, filter, flat_map, length, str_eq, eq_iff, ◌==◌, ltb, if◌then◌else◌,
  sum_of-append, arith, Memᴰ, mem-append_left, mem-append_right, Bool-cases,
}
use governator.Plan.{Contract}
use governator.Plan.Levels.{
  known, job_edges, edges, count, indegree, add_key, keys, start, ok, cycle, out_of_fuel, level_ids,
}
use governator.Plan.Counts.{count-append, waiting}
use governator.Plan.Kahn.{push, count-push, IsRound}
use governator.Plan.Topological.{
  waiting-mem, IsOrdered, push_all, AreLevels, IsStuck, levels_from-ok, levels_from-fuel,
  levels_from-cycle,
}

count-add_key :
    (k x : String) (l : List String)
    → count x (add_key k l) ≡ (if any (λ t. str_eq t k) l then count x l else count x (k ∷ l))
count-add_key k x l = ground arith

any-count : (k : String) (l : List String) → any (λ t. str_eq t k) l ≡ ltb 0 (count k l)
any-count k [] = refl
any-count k (t ∷ l) = ground (arith, any-count k l)

count-keys :
    (jobs : List Contract) (x : String) → count x (keys jobs) ≡ (if known jobs x then 1 else 0)
unfolding keys
count-keys [] x = refl
count-keys (j ∷ js) x = ground (
  arith,
  any-count j.job_id (keys js),
  count-keys js x,
  count-keys js j.job_id,
  eq_iff j.job_id x,
)

length-keys : (jobs : List Contract) → length (keys jobs) ≤ length jobs
unfolding keys
length-keys [] = omega arith
length-keys (j ∷ js) = ground (arith, length-keys js)

count-filter :
    (degree : String → ℕ) (x : String) (l : List String)
    → count x (filter (λ id. degree id == 0) l) ≡ (if degree x == 0 then count x l else 0)
count-filter degree x [] = ground arith
count-filter degree x (t ∷ l) = ground (arith, count-filter degree x l, eq_iff t x)

indegree-append :
    (xs ys : List (String × String)) (x : String)
    → indegree (xs ++ ys) x ≡ indegree xs x + indegree ys x
indegree-append xs ys x =
    sum_of-append (λ (e : String × String). if str_eq e.1 x then 1 else 0) xs ys

indegree-map :
    (id x : String) (deps : List String)
    → str_eq id x ≡ false
    → indegree (map (λ dep. (dep, id)) deps) x ≡ 0
indegree-map id x [] h = refl
indegree-map id x (d ∷ deps) h = ground (arith, indegree-map id x deps)

targets-known :
    (all some : List Contract) (x : String)
    → 0 < indegree (flat_map (job_edges all) some) x
    → known some x ≡ true
targets-known all [] x h = absurd (omega arith)
targets-known all (j ∷ js) x h = elim (Bool-cases (str_eq j.job_id x)) [
  | inl same ↦ rw same refl
  | inr differs ↦ rw differs (
      targets-known all js x (
        omega (
          arith,
          indegree-append (job_edges all j) (flat_map (job_edges all) js) x,
          indegree-map j.job_id x (filter (known all) j.depends_on) differs,
        )))
]

waiting-start : (es : List (String × String)) (x : String) → indegree es x ≡ waiting es [] x
waiting-start [] x = refl
waiting-start (e ∷ es) x = ground (arith, waiting-start es x)

start-IsRound :
    (jobs : List Contract)
    → IsRound (known jobs) (edges jobs) (indegree (edges jobs)) (start jobs) []
unfolding start
start-IsRound jobs = record {
  waits = waiting-start (edges jobs);
  once = λ x. ground (arith, count-filter (indegree (edges jobs)) x (keys jobs), count-keys jobs x);
  ready = λ x h. ground (arith, count-filter (indegree (edges jobs)) x (keys jobs));
  complete = λ x k d.
      ground (arith, count-filter (indegree (edges jobs)) x (keys jobs), count-keys jobs x);
  jobs_only =
      λ x h. ground (arith, count-filter (indegree (edges jobs)) x (keys jobs), count-keys jobs x);
}

edges-known :
    (jobs : List Contract) (x : String) → 0 < indegree (edges jobs) x → known jobs x ≡ true
unfolding edges
edges-known jobs x h = targets-known jobs jobs x h

level_ids-AreLevels :
    (jobs : List Contract) {levels : List (List String)}
    → level_ids jobs ≡ ok levels
    → AreLevels (known jobs) (edges jobs) [] levels
unfolding level_ids
level_ids-AreLevels jobs h =
    levels_from-ok (known jobs) (edges jobs) (keys jobs) (length jobs) (edges-known jobs)
      (count-keys jobs) (length-keys jobs) _ _ _ _ _ (start-IsRound jobs) (omega arith) h

count-push_all :
    (x : String) (levels : List (List String)) (finished : List String)
    → count x (push_all levels finished) ≡ count x (flat_map (λ ids. ids) levels) + count x finished
count-push_all x [] finished = omega arith
count-push_all x (ids ∷ levels) finished = omega (
  arith,
  count-push_all x levels (push ids finished),
  count-push x ids finished,
  count-append x ids (flat_map (λ level. level) levels),
)

-- The level after some levels waits for none but these.
ordered-append :
    (es : List (String × String)) (finished : List String) (before : List (List String))
    (ids : List String) (after : List (List String)) (x : String)
    → IsOrdered es finished (before ++ ids ∷ after)
    → 0 < count x ids
    → waiting es (push_all before finished) x ≡ 0
ordered-append es finished [] ids after x h m = h.0 x m
ordered-append es finished (level ∷ before) ids after x h m =
    ordered-append es (push level finished) before ids after x h.1 m

mem-map : {A B : Type 0} (f : A → B) (xs : List A) (x : A) → Memᴰ x xs → Memᴰ (f x) (map f xs)
mem-map f [] x m = elim m [ ]
mem-map f (y ∷ ys) x (Memᴰ.head e) = Memᴰ.head (ap f e)
mem-map f (y ∷ ys) x (Memᴰ.tail m) = Memᴰ.tail (mem-map f ys x m)

mem-filter :
    {A : Type 0} (p : A → Bool) (xs : List A) (x : A)
    → Memᴰ x xs
    → p x ≡ true
    → Memᴰ x (filter p xs)
mem-filter p [] x m h = elim m [ ]
mem-filter p (y ∷ ys) x (Memᴰ.head e) h = rw (ap p (sym e) ∙ h) (Memᴰ.head e)
mem-filter p (y ∷ ys) x (Memᴰ.tail m) h = elim (Bool-cases (p y)) [
  | inl kept ↦ rw kept (Memᴰ.tail (mem-filter p ys x m h))
  | inr dropped ↦ rw dropped (mem-filter p ys x m h)
]

mem-flat_map :
    {A B : Type 0} (f : A → List B) (xs : List A) (x : A) (y : B)
    → Memᴰ x xs
    → Memᴰ y (f x)
    → Memᴰ y (flat_map f xs)
mem-flat_map f [] x y m h = elim m [ ]
mem-flat_map f (z ∷ zs) x y (Memᴰ.head e) h = mem-append_left _ _ (subst (λ w. Memᴰ y (f w)) e h)
mem-flat_map f (z ∷ zs) x y (Memᴰ.tail m) h = mem-append_right (f z) _ (mem-flat_map f zs x y m h)

mem-edges :
    (jobs : List Contract) (j : Contract) (dep : String)
    → Memᴰ j jobs
    → Memᴰ dep j.depends_on
    → known jobs dep ≡ true
    → Memᴰ (dep, j.job_id) (edges jobs)
unfolding edges
mem-edges jobs j dep mj md k =
    mem-flat_map (job_edges jobs) jobs j (dep, j.job_id) mj
      (mem-map (λ d. (d, j.job_id)) _ dep (mem-filter (known jobs) j.depends_on dep md k))

-- On every list of jobs the number of jobs bounds the rounds of `TopologicalLevels`: it returns
-- levels or an error, and never runs out of its fuel.
pub level_ids-ne_out_of_fuel : (jobs : List Contract) → level_ids jobs ≢ out_of_fuel
unfolding level_ids
level_ids-ne_out_of_fuel jobs =
    levels_from-fuel (known jobs) (edges jobs) (keys jobs) (length jobs) (edges-known jobs)
      (count-keys jobs) (length-keys jobs) _ _ _ [] _ (omega arith)

-- If `TopologicalLevels` returns levels, they contain the id of each job exactly once, and no other id.
pub level_ids-partition :
    (jobs : List Contract) {levels : List (List String)}
    → level_ids jobs ≡ ok levels
    → (x : String) → count x (flat_map (λ ids. ids) levels) ≡ (if known jobs x then 1 else 0)
level_ids-partition jobs {levels} h x =
    omega (arith, (level_ids-AreLevels jobs h).1 x, count-push_all x levels [])

-- If `TopologicalLevels` returns levels, and a job whose id stands in one of them depends on a job of
-- the plan, then that job stands in an earlier level.
pub level_ids-dependencies_first :
    (jobs : List Contract) (before : List (List String)) (ids : List String)
    (after : List (List String)) (j : Contract) (dep : String)
    → level_ids jobs ≡ ok (before ++ ids ∷ after)
    → Memᴰ j jobs
    → 0 < count j.job_id ids
    → Memᴰ dep j.depends_on
    → known jobs dep ≡ true
    → 0 < count dep (flat_map (λ level. level) before)
level_ids-dependencies_first jobs before ids after j dep h mj here md k = omega (
  arith,
  waiting-mem (edges jobs) (push_all before []) dep j.job_id
      (ordered-append (edges jobs) [] before ids after j.job_id (level_ids-AreLevels jobs h).0 here)
      (mem-edges jobs j dep mj md k),
  count-push_all dep before [],
)

-- If no two jobs have the same id and `TopologicalLevels` reports a cycle among n remaining jobs, then
-- all but n of the jobs are finished, each once and after all of its dependencies, there is a job
-- that is not finished, and each such job depends on one that is not, which may be itself.
pub level_ids-IsStuck :
    (jobs : List Contract) {n : ℕ}
    → length (keys jobs) ≡ length jobs
    → level_ids jobs ≡ cycle n
    → (done : List String) × IsStuck (known jobs) (edges jobs) done
      × (n + length done ≡ length jobs)
unfolding level_ids
level_ids-IsStuck jobs distinct h =
    levels_from-cycle (known jobs) (edges jobs) (keys jobs) (length jobs) (edges-known jobs)
      (count-keys jobs) (length-keys jobs) _ _ _ [] _ distinct (start-IsRound jobs) (omega arith) tt
      h
