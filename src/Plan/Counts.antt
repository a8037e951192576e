-- ===== src/Plan/Counts.antt =====
-- How often the rounds of internal/contracts/plan.go meet an id, and what this does to its count.
use governator.Prelude.{
  ℕ, suc, ◌+◌, ◌-◌, ◌≡◌, refl, sym, ◌∙◌, String, ◌&&◌, List, [], ◌∷◌, ◌++◌, flat_map, length,
  str_eq, eq_iff, ◌==◌, ltb, leb, if◌then◌else◌, sum_of, arith, sum_of-append,
}
use governator.Policy.Sources.{sort_strings, insert_sorted}
use governator.Plan.Levels.{count, dependents, Round, follow_edge, follow, follow_all}

pub count-append : (x : String) (xs ys : List String) → count x (xs ++ ys) ≡ count x xs + count x ys
count-append x xs ys = sum_of-append (λ t. if str_eq t x then 1 else 0) xs ys

count-insert_sorted :
    (x v : String) (xs : List String) → count x (insert_sorted v xs) ≡ count x (v ∷ xs)
unfolding insert_sorted
count-insert_sorted x v [] = refl
count-insert_sorted x v (y ∷ ys) = ground (arith, count-insert_sorted x v ys)

pub count-sort_strings : (x : String) (xs : List String) → count x (sort_strings xs) ≡ count x xs
unfolding sort_strings
count-sort_strings x [] = refl
count-sort_strings x (y ∷ ys) =
    ground (arith, count-insert_sorted x y (sort_strings ys), count-sort_strings x ys)

length-insert_sorted :
    (v : String) (xs : List String) → length (insert_sorted v xs) ≡ suc (length xs)
unfolding insert_sorted
length-insert_sorted v [] = refl
length-insert_sorted v (y ∷ ys) = ground (arith, length-insert_sorted v ys)

pub length-sort_strings : (xs : List String) → length (sort_strings xs) ≡ length xs
unfolding sort_strings
length-sort_strings [] = refl
length-sort_strings (y ∷ ys) =
    omega (arith, length-insert_sorted y (sort_strings ys), length-sort_strings ys)

-- Following edges lowers the count of an id by the number of edges to it.
pub degree-follow :
    (deps : List String) (r : Round) (x : String)
    → (follow deps r).degree x ≡ r.degree x - count x deps
unfolding follow follow_edge
degree-follow [] r x = omega arith
degree-follow (d ∷ deps) r x = ground (arith, degree-follow deps (follow_edge d r) x)

-- An id joins the next level once, when its count gets to 0.
pub next-follow :
    (deps : List String) (r : Round) (x : String)
    → count x (follow deps r).next
      ≡ count x r.next + (if ltb 0 (r.degree x) && leb (r.degree x) (count x deps) then 1 else 0)
unfolding follow follow_edge
next-follow [] r x = ground arith
next-follow (d ∷ deps) r x = ground (arith, next-follow deps (follow_edge d r) x, eq_iff d x)

pub follow-append :
    (xs ys : List String) (r : Round) → follow (xs ++ ys) r ≡ follow ys (follow xs r)
unfolding follow
follow-append [] ys r = refl
follow-append (x ∷ xs) ys r = follow-append xs ys (follow_edge x r)

pub follow_all-follow :
    (es : List (String × String)) (ids : List String) (r : Round)
    → follow_all es ids r ≡ follow (flat_map (dependents es) ids) r
unfolding follow_all
follow_all-follow es [] r = refl
follow_all-follow es (i ∷ ids) r =
    follow_all-follow es ids (follow (dependents es i) r)
    ∙ sym (follow-append (dependents es i) (flat_map (dependents es) ids) r)

-- The number of edges to an id from outside a set of ids.
abbrev pub waiting : List (String × String) → List String → String → ℕ
waiting es finished x =
    sum_of (λ (e : String × String). if str_eq e.1 x && count e.0 finished == 0 then 1 else 0) es

pub count-dependents :
    (es : List (String × String)) (finished : List String) (i x : String)
    → count i finished ≡ 0
    → waiting es finished x ≡ waiting es (i ∷ finished) x + count x (dependents es i)
count-dependents [] finished i x h = omega arith
count-dependents ((a, b) ∷ es) finished i x h =
    ground (arith, count-dependents es finished i x h, eq_iff a i, eq_iff i a)
