-- ===== src/Plan/Segments.antt =====
-- The segments of a path, and what the tests on prefixes and suffixes of internal/contracts/plan.go say
-- of them.
use governator.Prelude.{
  ℕ, true, false, not, List, [], ◌∷◌, ◌++◌, filter, filter-append, ◌==◌, ◌≡◌, refl, ap, ◌∙◌, ◌⊎◌,
  inl, inr, arith, Bool-cases, All,
}
use governator.Plan.Envelope.{
  Pattern, same, is_empty, has_prefix, has_suffix, trim_suffix, prepend, split, join,
}

pub same→eq : (s t : Pattern) → same s t ≡ true → s ≡ t
same→eq [] [] h = refl
same→eq [] (b ∷ t) h = cc h
same→eq (a ∷ s) [] h = cc h
same→eq (a ∷ s) (b ∷ t) h = ground (arith, same→eq s t)

pub same_refl : (s : Pattern) → same s s ≡ true
same_refl [] = refl
same_refl (a ∷ s) = ground (arith, same_refl s)

pub has_prefix→append : (s t : Pattern) → has_prefix s t ≡ true → (u : Pattern) × (s ≡ t ++ u)
has_prefix→append s [] h = (s, refl)
has_prefix→append [] (b ∷ t) h = cc h
has_prefix→append (a ∷ s) (b ∷ t) h =
    let (u, e) = has_prefix→append s t (ground arith) in (u, ground (arith, e))

pub has_suffix→append :
    (s : Pattern) (c : ℕ) (t : Pattern)
    → has_suffix s (c ∷ t) ≡ true
    → s ≡ trim_suffix s (c ∷ t) ++ c ∷ t
has_suffix→append [] c t h = cc h
has_suffix→append (a ∷ s) c t h = elim (Bool-cases (same (a ∷ s) (c ∷ t))) [
  | inl whole ↦ rw whole (same→eq (a ∷ s) (c ∷ t) whole)
  | inr part ↦ rw part (ap (λ r. a ∷ r) (has_suffix→append s c t (rw part at h)))
]

pub trim_suffix-cases : (s t : Pattern) → (s ≡ trim_suffix s t ++ t) ⊎ (s ≡ trim_suffix s t)
trim_suffix-cases [] t = inr refl
trim_suffix-cases (a ∷ s) t = elim (Bool-cases (same (a ∷ s) t)) [
  | inl whole ↦ inl (rw whole (same→eq (a ∷ s) t whole))
  | inr part ↦ elim (trim_suffix-cases s t) [
    | inl e ↦ inl (rw part (ap (λ r. a ∷ r) e))
    | inr e ↦ inr (rw part (ap (λ r. a ∷ r) e))
  ]
]

-- There is a text before the first slash.
split-some : (s : Pattern) → (e : Pattern) × (es : List Pattern) × (split s ≡ e ∷ es)
split-some [] = ([], [], refl)
split-some (c ∷ s) = elim (Bool-cases (c == b'/')) [
  | inl slash ↦ ([], split s, rw slash refl)
  | inr other ↦ (let (e, es, h) = split-some s in (c ∷ e, es, rw (other, h) refl))
]

prepend-append :
    (c : ℕ) (xs ys : List Pattern) (e : Pattern) (es : List Pattern)
    → xs ≡ e ∷ es
    → prepend c (xs ++ ys) ≡ prepend c xs ++ ys
prepend-append c [] ys e es h = cc h
prepend-append c (x ∷ xs) ys e es h = refl

pub split-append : (s t : Pattern) → split (s ++ b'/' ∷ t) ≡ split s ++ split t
split-append [] t = refl
split-append (c ∷ s) t = elim (Bool-cases (c == b'/')) [
  | inl slash ↦ rw slash (ap (λ r. [] ∷ r) (split-append s t))
  | inr other ↦
      let (e, es, h) = split-some s in
      rw other (ap (prepend c) (split-append s t) ∙ prepend-append c (split s) (split t) e es h)
]

-- The elements of a path: the texts between the slashes that are not empty.
abbrev pub segments : Pattern → List Pattern
segments s = filter (λ e. not (is_empty e)) (split s)

pub segments-append : (s t : Pattern) → segments (s ++ b'/' ∷ t) ≡ segments s ++ segments t
segments-append s t =
    ap (filter (λ e. not (is_empty e))) (split-append s t)
    ∙ filter-append (λ e. not (is_empty e)) (split s) (split t)

abbrev pub NoSlash : Pattern → Type 0
NoSlash s = All (λ c. (c == b'/') ≡ false) s

prepend-NoSlash :
    (c : ℕ) (es : List Pattern) → (c == b'/') ≡ false → All NoSlash es → All NoSlash (prepend c es)
prepend-NoSlash c [] other h = ((other, tt), tt)
prepend-NoSlash c (e ∷ es) other h = ((other, h.0), h.1)

pub split-NoSlash : (s : Pattern) → All NoSlash (split s)
split-NoSlash [] = (tt, tt)
split-NoSlash (c ∷ s) = elim (Bool-cases (c == b'/')) [
  | inl slash ↦ rw slash (tt, split-NoSlash s)
  | inr other ↦ rw other (prepend-NoSlash c (split s) other (split-NoSlash s))
]

split-whole : (s : Pattern) → NoSlash s → split s ≡ s ∷ []
split-whole [] h = refl
split-whole (c ∷ s) h = rw (h.0, split-whole s h.1) refl

pub split-join :
    (e : Pattern) (es : List Pattern) → All NoSlash (e ∷ es) → split (join (e ∷ es)) ≡ e ∷ es
split-join e [] h = split-whole e h.0
split-join e (f ∷ es) h =
    split-append e (join (f ∷ es)) ∙ (rw (split-whole e h.0, split-join f es h.1) refl)
