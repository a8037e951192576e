-- ===== src/Plan/Kahn.antt =====
-- The invariant of the rounds of `TopologicalLevels` in internal/contracts/plan.go.
use governator.Prelude.{
  ◌⊎◌, ℕ, ◌+◌, ◌≤◌, ◌<◌, ◌≡◌, ap, ◌∙◌, String, Bool, true, ◌&&◌, List, [], ◌∷◌, flat_map, length,
  eq_iff, ◌==◌, ltb, if◌then◌else◌, arith,
}
use governator.Policy.Sources.{sort_strings}
use governator.Plan.Levels.{count, dependents, Round, follow_all, indegree}
use governator.Plan.Counts.{
  count-append, count-sort_strings, degree-follow, next-follow, follow_all-follow, waiting,
  count-dependents,
}

-- The finished ids with those of a level before them.
abbrev pub push : List String → List String → List String
push [] finished = finished
push (i ∷ ids) finished = push ids (i ∷ finished)

pub count-push :
    (x : String) (ids finished : List String)
    → count x (push ids finished) ≡ count x ids + count x finished
count-push x [] finished = omega arith
count-push x (i ∷ ids) finished = ground (arith, count-push x ids (i ∷ finished))

pub length-push :
    (ids finished : List String) → length (push ids finished) ≡ length ids + length finished
length-push [] finished = omega arith
length-push (i ∷ ids) finished = omega (arith, length-push ids (i ∷ finished))

waiting-push :
    (es : List (String × String)) (ids finished : List String) (x : String)
    → ((y : String) → count y ids ≤ 1)
    → ((y : String) → (count y ids ≡ 0) ⊎ (count y finished ≡ 0))
    → waiting es finished x
      ≡ waiting es (push ids finished) x + count x (flat_map (dependents es) ids)
waiting-push es [] finished x once fresh = omega arith
waiting-push es (i ∷ ids) finished x once fresh = ground (
  arith,
  count-dependents es finished i x (ground (arith, fresh i, eq_iff i i)),
  waiting-push es ids (i ∷ finished) x (λ y. ground (arith, once y))
      (λ y. ground (arith, once y, fresh y, eq_iff i y)),
  count-append x (dependents es i) (flat_map (dependents es) ids),
)

-- `finished` are the ids of the levels so far. A count is the number of edges from jobs that are not
-- finished; the ids of the current level are not finished, stand there once, and are those of
-- the other jobs that wait for nothing.
pub record IsRound (known : String → Bool) (es : List (String × String)) (degree : String → ℕ)
    (current finished : List String) : Type 0 where
  pub waits : (x : String) → degree x ≡ waiting es finished x
  pub once : (x : String) → count x current + count x finished ≤ 1
  pub ready : (x : String) → 0 < count x current + count x finished → degree x ≡ 0
  pub complete :
      (x : String) → known x ≡ true → degree x ≡ 0 → 0 < count x current + count x finished
  pub jobs_only : (x : String) → 0 < count x current + count x finished → known x ≡ true

module _ (known : String → Bool) (es : List (String × String))
    (targets : (x : String) → 0 < indegree es x → known x ≡ true) (degree : String → ℕ)
    (current finished : List String) (inv : IsRound known es degree current finished) where
  abbrev ids : List String
  ids = sort_strings current

  abbrev round : Round
  round = follow_all es ids (record { degree = degree; next = [] })

  split :
      (x : String)
      → waiting es finished x
        ≡ waiting es (push ids finished) x + count x (flat_map (dependents es) ids)
  split x =
      waiting-push es ids finished x (λ y. omega (arith, count-sort_strings y current, inv.once y))
        (λ y. ground (arith, count-sort_strings y current, inv.once y))

  round-degree : (x : String) → round.degree x ≡ waiting es (push ids finished) x
  round-degree x =
      ap (λ (r : Round). r.degree x)
        (follow_all-follow es ids (record { degree = degree; next = [] }))
      ∙ ground (
        arith,
        degree-follow (flat_map (dependents es) ids) (record { degree = degree; next = [] }) x,
        inv.waits x,
        split x,
      )

  round-next :
      (x : String) → count x round.next ≡ (if ltb 0 (degree x) && round.degree x == 0 then 1 else 0)
  round-next x =
      ap (λ (r : Round). count x r.next)
        (follow_all-follow es ids (record { degree = degree; next = [] }))
      ∙ ground (
        arith,
        next-follow (flat_map (dependents es) ids) (record { degree = degree; next = [] }) x,
        inv.waits x,
        split x,
        round-degree x,
      )

  waiting-indegree :
      (fs : List (String × String)) (x : String) (done : List String)
      → waiting fs done x ≤ indegree fs x
  waiting-indegree [] x done = omega arith
  waiting-indegree ((a, b) ∷ fs) x done = ground (arith, waiting-indegree fs x done)

  -- A round keeps the invariant.
  pub follow_all-IsRound : IsRound known es round.degree round.next (push ids finished)
  follow_all-IsRound = record {
    waits = round-degree;
    once = λ x. ground (
      arith,
      round-next x,
      count-push x ids finished,
      count-sort_strings x current,
      inv.once x,
      inv.ready x,
    );
    ready = λ x h. ground (
      arith,
      round-next x,
      count-push x ids finished,
      count-sort_strings x current,
      inv.ready x,
      inv.waits x,
      split x,
      round-degree x,
    );
    complete = λ x k d. ground (
      arith,
      round-next x,
      count-push x ids finished,
      count-sort_strings x current,
      inv.complete x,
    );
    jobs_only = λ x h. ground (
      arith,
      round-next x,
      count-push x ids finished,
      count-sort_strings x current,
      inv.jobs_only x,
      inv.waits x,
      waiting-indegree es x finished,
      targets x,
    );
  }
