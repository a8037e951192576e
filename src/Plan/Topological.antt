-- ===== src/Plan/Topological.antt =====
-- What the levels of `TopologicalLevels` in internal/contracts/plan.go are.
use governator.Prelude.{
  ℕ, suc, zero, ◌+◌, ◌-◌, ◌≤◌, ◌<◌, ◌≡◌, ◌≢◌, refl, sym, ap, subst, String, Bool, true, false, ◌&&◌,
  List, [], ◌∷◌, length, str_eq, eq_iff, ◌==◌, if◌then◌else◌, arith, Memᴰ, Bool-cases, inl, inr,
}
use governator.Policy.Sources.{sort_strings}
use governator.Plan.Levels.{
  count, indegree, Result, ok, cycle, out_of_fuel, add_level, is_nil, levels_from,
}
use governator.Plan.Counts.{count-sort_strings, length-sort_strings, waiting}
use governator.Plan.Kahn.{push, count-push, length-push, IsRound, follow_all-IsRound}
use governator.Plan.Pigeon.{length-le_of_count, missing_of_length}

pub waiting-mem :
    (es : List (String × String)) (finished : List String) (d x : String)
    → waiting es finished x ≡ 0
    → Memᴰ (d, x) es
    → 0 < count d finished
waiting-mem [] finished d x h m = elim m [ ]
waiting-mem ((a, b) ∷ es) finished d x h (Memᴰ.head e) =
    ground
      (arith, ap (λ (p : String × String). p.0) e, ap (λ (p : String × String). p.1) e, eq_iff b x)
waiting-mem ((a, b) ∷ es) finished d x h (Memᴰ.tail m) =
    waiting-mem es finished d x (ground arith) m

pub waiting-some :
    (es : List (String × String)) (finished : List String) (x : String)
    → waiting es finished x ≢ 0
    → (d : String) × Memᴰ (d, x) es × (count d finished ≡ 0)
waiting-some [] finished x h = absurd (h refl)
waiting-some ((a, b) ∷ es) finished x h = elim (Bool-cases (str_eq b x && count a finished == 0)) [
  | inl hit ↦ (a, Memᴰ.head (ap (λ y. (a, y)) (sym ((eq_iff b x).0 (ground arith)))), ground arith)
  | inr miss ↦ (let (d, m, z) = waiting-some es finished x (ground arith) in (d, Memᴰ.tail m, z))
]

add_level-ok :
    (ids : List String) (r : Result) {levels : List (List String)}
    → add_level ids r ≡ ok levels
    → (rest : List (List String)) × (r ≡ ok rest) × (levels ≡ ids ∷ rest)
add_level-ok ids (ok rest) h = (rest, refl, cc h)
add_level-ok ids (cycle n) h = cc h
add_level-ok ids out_of_fuel h = cc h

-- All dependencies of each level are finished before it.
abbrev pub IsOrdered : List (String × String) → List String → List (List String) → Type 0
IsOrdered es finished [] = Unit
IsOrdered es finished (ids ∷ levels) =
    ((x : String) → 0 < count x ids → waiting es finished x ≡ 0)
    × IsOrdered es (push ids finished) levels

-- The ids of a list of levels after those that are finished.
abbrev pub push_all : List (List String) → List String → List String
push_all [] finished = finished
push_all (ids ∷ levels) finished = push_all levels (push ids finished)

abbrev pub AreLevels :
    (String → Bool) → List (String × String) → List String → List (List String) → Type 0
AreLevels known es finished levels =
    IsOrdered es finished levels
    × ((x : String) → count x (push_all levels finished) ≡ (if known x then 1 else 0))

-- Each finished id, the latest first, after all that it depends on.
abbrev pub IsLaidOut : List (String × String) → List String → Type 0
IsLaidOut es [] = Unit
IsLaidOut es (x ∷ finished) =
    ((d : String) → Memᴰ (d, x) es → 0 < count d finished) × IsLaidOut es finished

-- Finished jobs, each once and after its dependencies, and others that each wait for one of the others,
-- which may be itself.
pub record IsStuck (known : String → Bool) (es : List (String × String)) (finished : List String)
    : Type 0 where
  pub jobs_once : (x : String) → count x finished ≤ (if known x then 1 else 0)
  pub laid_out : IsLaidOut es finished
  pub some_job : (x : String) × (known x ≡ true) × (count x finished ≡ 0)
  pub waits_for :
      (x : String)
      → known x ≡ true
      → count x finished ≡ 0
      → (d : String) × Memᴰ (d, x) es × (count d finished ≡ 0)

push-IsLaidOut :
    (es : List (String × String)) (ids finished : List String)
    → ((x : String) → 0 < count x ids → (d : String) → Memᴰ (d, x) es → 0 < count d finished)
    → IsLaidOut es finished
    → IsLaidOut es (push ids finished)
push-IsLaidOut es [] finished w l = l
push-IsLaidOut es (i ∷ ids) finished w l =
    push-IsLaidOut es ids (i ∷ finished) (λ x m d e. ground (arith, w x (ground (arith, m)) d e))
      (w i (ground (arith, eq_iff i i)), l)

module _ (known : String → Bool) (es : List (String × String)) (jobs : List String) (total : ℕ)
    (targets : (x : String) → 0 < indegree es x → known x ≡ true)
    (unique : (x : String) → count x jobs ≡ (if known x then 1 else 0))
    (enough : length jobs ≤ total) where
  finished-length :
      (degree : String → ℕ) (current finished : List String)
      → IsRound known es degree current finished
      → length current + length finished ≤ length jobs
  finished-length degree current finished inv = omega (
    arith,
    length-push current finished,
    length-le_of_count (push current finished) jobs
        (λ x. ground (arith, count-push x current finished, unique x, inv.once x, inv.jobs_only x)),
  )

  all-finished :
      (degree : String → ℕ) (current finished : List String)
      → IsRound known es degree current finished
      → length jobs ≤ length finished
      → (x : String) → count x finished ≡ (if known x then 1 else 0)
  all-finished degree current finished inv le x =
      elim (Bool-cases (known x && count x finished == 0)) [
        | inl missing ↦ absurd (
            omega (
              arith,
              length-le_of_count (x ∷ finished) jobs
                  (λ y. ground (arith, unique y, inv.once y, inv.jobs_only y, eq_iff x y)),
            ))
        | inr there ↦ ground (arith, inv.once x, inv.jobs_only x)
      ]

  round-remaining :
      (degree : String → ℕ) (current finished : List String) (remaining : ℕ)
      → IsRound known es degree current finished
      → remaining + length finished ≡ total
      → remaining - length (sort_strings current) + length (push (sort_strings current) finished)
        ≡ total
  round-remaining degree current finished remaining inv r = omega (
    arith,
    length-push (sort_strings current) finished,
    length-sort_strings current,
    finished-length degree current finished inv,
  )

  round-AreLevels :
      (degree : String → ℕ) (current finished : List String) (rest : List (List String))
      {levels : List (List String)}
      → IsRound known es degree current finished
      → levels ≡ sort_strings current ∷ rest
      → AreLevels known es (push (sort_strings current) finished) rest
      → AreLevels known es finished levels
  round-AreLevels degree current finished rest inv l h =
      subst (AreLevels known es finished) (sym l)
        ((λ x m. ground (arith, inv.waits x, inv.ready x, count-sort_strings x current), h.0), h.1)

  pub levels_from-ok :
      (fuel : ℕ) (degree : String → ℕ) (current finished : List String) (remaining : ℕ)
      {levels : List (List String)}
      → IsRound known es degree current finished
      → remaining + length finished ≡ total
      → levels_from es fuel degree current remaining ≡ ok levels
      → AreLevels known es finished levels
  unfolding levels_from
  levels_from-ok zero degree current finished remaining inv r h = cc h
  levels_from-ok (suc fuel) degree current finished remaining {levels} inv r h =
      elim (Bool-cases (remaining == 0)) [
        | inl zero_left ↦
            let e : levels ≡ [] = cc (rw zero_left at h) in
            subst (AreLevels known es finished) (sym e)
              (tt, all-finished degree current finished inv (ground arith))
        | inr some_left ↦ elim (Bool-cases (is_nil current)) [
          | inl none_ready ↦ cc (rw (some_left, none_ready) at h)
          | inr some_ready ↦
              let (rest, e, l) =
                add_level-ok (sort_strings current) _ (rw (some_left, some_ready) at h) in
              round-AreLevels degree current finished rest inv l (
                levels_from-ok fuel _ _ _ _
                  (follow_all-IsRound known es targets degree current finished inv)
                  (round-remaining degree current finished remaining inv r) e)
        ]
      ]

  length-is_nil : (current : List String) → is_nil current ≡ false → 0 < length current
  length-is_nil [] h = cc h
  length-is_nil (x ∷ xs) h = omega arith

  add_level-fuel :
      (ids : List String) (r : Result) → r ≢ out_of_fuel → add_level ids r ≢ out_of_fuel
  add_level-fuel ids (ok levels) h e = cc e
  add_level-fuel ids (cycle n) h e = cc e
  add_level-fuel ids out_of_fuel h e = h refl

  pub levels_from-fuel :
      (fuel : ℕ) (degree : String → ℕ) (current finished : List String) (remaining : ℕ)
      → remaining < fuel
      → levels_from es fuel degree current remaining ≢ out_of_fuel
  unfolding levels_from
  levels_from-fuel zero degree current finished remaining lt h = absurd (omega arith)
  levels_from-fuel (suc fuel) degree current finished remaining lt h =
      elim (Bool-cases (remaining == 0)) [
        | inl zero_left ↦ cc (rw zero_left at h)
        | inr some_left ↦ elim (Bool-cases (is_nil current)) [
          | inl none_ready ↦ cc (rw (some_left, none_ready) at h)
          | inr some_ready ↦
              add_level-fuel (sort_strings current) _
                (levels_from-fuel fuel _ _ finished _
                  (ground (arith, length-sort_strings current, length-is_nil current some_ready)))
                (rw (some_left, some_ready) at h)
        ]
      ]

  count-is_nil : (current : List String) (x : String) → is_nil current ≡ true → count x current ≡ 0
  count-is_nil [] x h = refl
  count-is_nil (y ∷ ys) x h = cc h

  stuck :
      (degree : String → ℕ) (current finished : List String)
      → IsRound known es degree current finished
      → is_nil current ≡ true
      → IsLaidOut es finished
      → length finished < length jobs
      → IsStuck known es finished
  stuck degree current finished inv none_ready laid short = record {
    jobs_once = λ x. ground (arith, inv.once x, inv.jobs_only x);
    laid_out = laid;
    some_job =
        (let (x, lt) = missing_of_length finished jobs short in
          (x, ground (arith, unique x), ground (arith, unique x)));
    waits_for = λ x k z. waiting-some es finished x (λ w.
        absurd (ground (arith, inv.waits x, inv.complete x, count-is_nil current x none_ready)));
  }

  round-IsLaidOut :
      (degree : String → ℕ) (current finished : List String)
      → IsRound known es degree current finished
      → IsLaidOut es finished
      → IsLaidOut es (push (sort_strings current) finished)
  round-IsLaidOut degree current finished inv laid =
      push-IsLaidOut es (sort_strings current) finished
        (λ x m d e.
          waiting-mem es finished d x
            (ground (arith, m, inv.waits x, inv.ready x, count-sort_strings x current)) e)
        laid

  add_level-cycle :
      (ids : List String) (r : Result) {n : ℕ} → add_level ids r ≡ cycle n → r ≡ cycle n
  add_level-cycle ids (ok levels) h = cc h
  add_level-cycle ids (cycle m) h = h
  add_level-cycle ids out_of_fuel h = cc h

  cycle-injective : {m n : ℕ} (k : ℕ) → cycle m ≡ cycle n → m + k ≡ total → n + k ≡ total
  cycle-injective k h r = cc (h, r)

  pub levels_from-cycle :
      (fuel : ℕ) (degree : String → ℕ) (current finished : List String) (remaining : ℕ) {n : ℕ}
      → length jobs ≡ total
      → IsRound known es degree current finished
      → remaining + length finished ≡ total
      → IsLaidOut es finished
      → levels_from es fuel degree current remaining ≡ cycle n
      → (done : List String) × IsStuck known es done × (n + length done ≡ total)
  unfolding levels_from
  levels_from-cycle zero degree current finished remaining t inv r laid h = cc h
  levels_from-cycle (suc fuel) degree current finished remaining t inv r laid h =
      elim (Bool-cases (remaining == 0)) [
        | inl zero_left ↦ cc (rw zero_left at h)
        | inr some_left ↦ elim (Bool-cases (is_nil current)) [
          | inl none_ready ↦ (
            finished,
            stuck degree current finished inv none_ready laid (ground arith),
            cycle-injective (length finished) (rw (some_left, none_ready) at h) r,
          )
          | inr some_ready ↦
              levels_from-cycle fuel _ _ (push (sort_strings current) finished) _ t
                (follow_all-IsRound known es targets degree current finished inv)
                (round-remaining degree current finished remaining inv r)
                (round-IsLaidOut degree current finished inv laid)
                (add_level-cycle (sort_strings current) _ (rw (some_left, some_ready) at h))
        ]
      ]
