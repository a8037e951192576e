-- ===== src/Plan/Pigeon.antt =====
-- Lists of ids compared by how often each id stands in them.
use governator.Prelude.{
  suc, ◌-◌, ◌≤◌, ◌<◌, ◌≡◌, String, List, [], ◌∷◌, length, str_eq, eq_iff, ◌==◌, if◌then◌else◌,
  arith, Bool-cases, inl, inr,
}
use governator.Plan.Levels.{count}

remove : String → List String → List String
remove f [] = []
remove f (u ∷ us) = if str_eq u f then us else u ∷ remove f us

count-remove :
    (f x : String) (us : List String)
    → count x (remove f us) ≡ count x us - (if str_eq f x then 1 else 0)
unfolding remove
count-remove f x [] = omega arith
count-remove f x (u ∷ us) = ground (arith, count-remove f x us, eq_iff u f, eq_iff f x, eq_iff u x)

length-remove :
    (f : String) (us : List String) → 0 < count f us → length us ≡ suc (length (remove f us))
unfolding remove
length-remove f [] h = omega arith
length-remove f (u ∷ us) h = ground (arith, length-remove f us)

-- A list whose ids all stand in another one as often is no longer than it.
pub length-le_of_count :
    (fs us : List String) → ((x : String) → count x fs ≤ count x us) → length fs ≤ length us
length-le_of_count [] us h = omega arith
length-le_of_count (f ∷ fs) us h = ground (
  arith,
  h f,
  eq_iff f f,
  length-remove f us,
  length-le_of_count fs (remove f us) (λ x. ground (arith, h x, count-remove f x us)),
)

-- An id that a longer list has more often.
pub missing_of_length :
    (fs us : List String) → length fs < length us → (x : String) × (count x fs < count x us)
missing_of_length [] [] h = absurd (omega arith)
missing_of_length [] (u ∷ us) h = (u, ground (arith, eq_iff u u))
missing_of_length (f ∷ fs) us h = elim (Bool-cases (count f us == 0)) [
  | inl gone ↦
      (let (x, lt) = missing_of_length fs us (omega arith) in (x, ground (arith, eq_iff f x)))
  | inr there ↦
      (let (x, lt) = missing_of_length fs (remove f us) (ground (arith, length-remove f us)) in
        (x, ground (arith, count-remove f x us)))
]
