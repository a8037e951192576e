-- ===== src/Policy/Sources.antt =====
-- `uniqueSorted` of internal/policy/decision.go, and the names of the policy layers.
use governator.Prelude.{
  String, ◌≡◌, refl, sym, subst, ◌∙◌, inl, inr, Bool, true, false, not, ◌&&◌, ◌||◌, List, [], ◌∷◌,
  ◌++◌, arith, any, any-perm, Permᴰ, flat_map, str_eq, eq_iff, str_lt, str_lt_irrefl, str_lt_total,
  str_lt_trans, if◌then◌else◌, Bool-cases, All,
}

-- The `Source*` constants.
abbrev pub source_job_contract : String
source_job_contract = "job_contract"

abbrev pub source_project_doctrine : String
source_project_doctrine = "project_doctrine"

abbrev pub source_org_policy : String
source_org_policy = "org_policy"

abbrev pub source_session_override : String
source_session_override = "session_override"

-- The set `seen`, as the list of its keys.
unfoldable pub contains : String → List String → Bool
contains v [] = false
contains v (x ∷ xs) = str_eq x v || contains v xs

-- The loop of `uniqueSorted`.
unfoldable pub unique_from : List String → List String → List String
unique_from seen [] = []
unique_from seen (v ∷ vs) =
    let skip = unique_from seen vs in
    let keep = v ∷ unique_from (v ∷ seen) vs in
    if str_eq v "" || contains v seen then skip else keep

unfoldable pub insert_sorted : String → List String → List String
insert_sorted v [] = v ∷ []
insert_sorted v (x ∷ xs) = if str_lt x v then x ∷ insert_sorted v xs else v ∷ x ∷ xs

-- `sort.Strings`.
unfoldable pub sort_strings : List String → List String
unfolding insert_sorted
sort_strings [] = []
sort_strings (x ∷ xs) = insert_sorted x (sort_strings xs)

unfoldable pub unique_sorted : List String → List String
unfolding contains unique_from sort_strings
unique_sorted values = sort_strings (unique_from [] values)

contains-unique_from :
    (z : String) (seen vs : List String)
    → contains z (unique_from seen vs)
      ≡ (contains z vs && not (str_eq z "") && not (contains z seen))
unfolding contains unique_from
contains-unique_from z seen [] = refl
contains-unique_from z seen (v ∷ vs) = ground (
  arith,
  contains-unique_from z seen vs,
  contains-unique_from z (v ∷ seen) vs,
  eq_iff v z,
  eq_iff v "",
  eq_iff z "",
)

contains-insert_sorted :
    (z v : String) (xs : List String)
    → contains z (insert_sorted v xs) ≡ (str_eq v z || contains z xs)
unfolding contains insert_sorted
contains-insert_sorted z v [] = refl
contains-insert_sorted z v (x ∷ xs) = ground (arith, contains-insert_sorted z v xs)

contains-sort_strings :
    (z : String) (xs : List String) → contains z (sort_strings xs) ≡ contains z xs
unfolding contains sort_strings
contains-sort_strings z [] = refl
contains-sort_strings z (x ∷ xs) =
    ground (arith, contains-insert_sorted z x (sort_strings xs), contains-sort_strings z xs)

-- The result has the members of the argument, without the empty text.
pub contains-unique_sorted :
    (z : String) (values : List String)
    → contains z (unique_sorted values) ≡ (contains z values && not (str_eq z ""))
unfolding unique_sorted
contains-unique_sorted z values =
    ground
      (arith, contains-sort_strings z (unique_from [] values), contains-unique_from z [] values)

-- Strictly ascending, so without duplicates.
abbrev pub IsAscending : List String → Type 0
IsAscending [] = Unit
IsAscending (x ∷ xs) = All (λ y. str_lt x y ≡ true) xs × IsAscending xs

abbrev IsUnique : List String → Type 0
IsUnique [] = Unit
IsUnique (x ∷ xs) = (contains x xs ≡ false) × IsUnique xs

unique_from-fresh :
    (v : String) (seen vs : List String) → contains v (unique_from (v ∷ seen) vs) ≡ false
unfolding contains
unique_from-fresh v seen vs = ground (arith, contains-unique_from v (v ∷ seen) vs, eq_iff v v)

unique_from-IsUnique : (seen vs : List String) → IsUnique (unique_from seen vs)
unfolding unique_from
unique_from-IsUnique seen [] = tt
unique_from-IsUnique seen (v ∷ vs) = elim (Bool-cases (str_eq v "" || contains v seen)) [
  | inl e ↦ rw e (unique_from-IsUnique seen vs)
  | inr e ↦ rw e (unique_from-fresh v seen vs, unique_from-IsUnique (v ∷ seen) vs)
]

All-insert_sorted :
    (x v : String) (xs : List String)
    → str_lt x v ≡ true
    → All (λ y. str_lt x y ≡ true) xs
    → All (λ y. str_lt x y ≡ true) (insert_sorted v xs)
unfolding insert_sorted
All-insert_sorted x v [] h a = (h, tt)
All-insert_sorted x v (y ∷ ys) h a = elim (Bool-cases (str_lt y v)) [
  | inl e ↦ rw e (a.0, All-insert_sorted x v ys h a.1)
  | inr e ↦ rw e (h, a)
]

All-str_lt_trans :
    (v x : String) (xs : List String)
    → str_lt v x ≡ true
    → All (λ y. str_lt x y ≡ true) xs
    → All (λ y. str_lt v y ≡ true) xs
All-str_lt_trans v x [] h a = tt
All-str_lt_trans v x (y ∷ ys) h a = (str_lt_trans v x y h a.0, All-str_lt_trans v x ys h a.1)

first_greater :
    (v x : String) (xs : List String)
    → contains v (x ∷ xs) ≡ false
    → str_lt x v ≡ false
    → str_lt v x ≡ true
unfolding contains
first_greater v x xs h k = ground (arith, str_lt_total x v, eq_iff x v)

insert_sorted-IsAscending :
    (v : String) (xs : List String)
    → contains v xs ≡ false
    → IsAscending xs
    → IsAscending (insert_sorted v xs)
unfolding insert_sorted
insert_sorted-IsAscending v [] h a = (tt, tt)
insert_sorted-IsAscending v (x ∷ xs) h a = elim (Bool-cases (str_lt x v)) [
  | inl e ↦ rw e (
    All-insert_sorted x v xs e a.0,
    insert_sorted-IsAscending v xs (unfold contains in ground arith) a.1,
  )
  | inr e ↦
      (let k : str_lt v x ≡ true = first_greater v x xs h e in
        rw e ((k, All-str_lt_trans v x xs k a.0), a))
]

sort_strings-IsAscending : (xs : List String) → IsUnique xs → IsAscending (sort_strings xs)
unfolding sort_strings
sort_strings-IsAscending [] u = tt
sort_strings-IsAscending (x ∷ xs) u =
    insert_sorted-IsAscending x (sort_strings xs) (contains-sort_strings x xs ∙ u.0)
      (sort_strings-IsAscending xs u.1)

pub unique_sorted-IsAscending : (values : List String) → IsAscending (unique_sorted values)
unfolding unique_sorted
unique_sorted-IsAscending values =
    sort_strings-IsAscending (unique_from [] values) (unique_from-IsUnique [] values)

below-contains :
    (x : String) (xs : List String) → All (λ y. str_lt x y ≡ true) xs → contains x xs ≡ false
unfolding contains
below-contains x [] a = refl
below-contains x (y ∷ ys) a = ground (arith, below-contains x ys a.1, str_lt_irrefl x, eq_iff y x)

not_before :
    (x : String) (xs : List String) (y : String) (ys : List String)
    → IsAscending (y ∷ ys)
    → contains x (x ∷ xs) ≡ contains x (y ∷ ys)
    → str_lt x y ≡ false
not_before x xs y ys a h = elim (Bool-cases (str_lt x y)) [
  | inr e ↦ e
  | inl e ↦
      (let b : contains x (y ∷ ys) ≡ false =
          below-contains x (y ∷ ys) (e, All-str_lt_trans x y ys e a.0) in
        unfold contains in ground (arith, eq_iff x x))
]

same_tail :
    (x : String) (xs ys : List String)
    → IsAscending (x ∷ xs)
    → IsAscending (x ∷ ys)
    → ((z : String) → contains z (x ∷ xs) ≡ contains z (x ∷ ys))
    → (z : String) → contains z xs ≡ contains z ys
unfolding contains
same_tail x xs ys a b h z =
    ground (arith, h z, below-contains x xs a.0, below-contains x ys b.0, eq_iff x z)

-- Ascending lists with the same members are equal.
pub ascending_canonical :
    (xs ys : List String)
    → IsAscending xs
    → IsAscending ys
    → ((z : String) → contains z xs ≡ contains z ys)
    → xs ≡ ys
ascending_canonical [] [] a b h = refl
ascending_canonical [] (y ∷ ys) a b h = unfold contains in ground (arith, h y, eq_iff y y)
ascending_canonical (x ∷ xs) [] a b h = unfold contains in ground (arith, h x, eq_iff x x)
ascending_canonical (x ∷ xs) (y ∷ ys) a b h =
    let e : x ≡ y =
      str_lt_total x y (not_before x xs y ys b (h x)) (not_before y ys x xs a (sym (h y))) in
    let b' : IsAscending (x ∷ ys) = subst (λ v. IsAscending (v ∷ ys)) (sym e) b in
    let h' : (z : String) → contains z (x ∷ xs) ≡ contains z (x ∷ ys) =
      subst (λ v. (z : String) → contains z (x ∷ xs) ≡ contains z (v ∷ ys)) (sym e) h in
    cc (e, ascending_canonical xs ys a.1 b'.1 (same_tail x xs ys a b' h'))

-- The order and the repetitions of the argument do not matter.
pub unique_sorted-canonical :
    (xs ys : List String)
    → ((z : String) → contains z xs ≡ contains z ys)
    → unique_sorted xs ≡ unique_sorted ys
unique_sorted-canonical xs ys h =
    ascending_canonical (unique_sorted xs) (unique_sorted ys) (unique_sorted-IsAscending xs)
      (unique_sorted-IsAscending ys)
      λ z. ground (arith, h z, contains-unique_sorted z xs, contains-unique_sorted z ys)

pub contains-append :
    (z : String) (xs ys : List String) → contains z (xs ++ ys) ≡ (contains z xs || contains z ys)
unfolding contains
contains-append z [] ys = refl
contains-append z (x ∷ xs) ys = ground (arith, contains-append z xs ys)

pub contains-flat_map {ℓ} :
    {A : Type ℓ} (z : String) (f : A → List String) (xs : List A)
    → contains z (flat_map f xs) ≡ any (λ a. contains z (f a)) xs
contains-flat_map z f [] = unfold contains in refl
contains-flat_map z f (x ∷ xs) =
    ground (arith, contains-append z (f x) (flat_map f xs), contains-flat_map z f xs)

pub unique_sorted-perm {ℓ} :
    {A : Type ℓ} (f : A → List String) {xs ys : List A}
    → Permᴰ xs ys
    → unique_sorted (flat_map f xs) ≡ unique_sorted (flat_map f ys)
unique_sorted-perm f {xs} {ys} d = unique_sorted-canonical (flat_map f xs) (flat_map f ys) λ z.
    contains-flat_map z f xs ∙ (any-perm (λ a. contains z (f a)) d ∙ sym (contains-flat_map z f ys))
