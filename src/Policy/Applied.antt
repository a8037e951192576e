-- ===== src/Policy/Applied.antt =====
-- The overrides that `ResolveOverrides` of internal/policy/verdict.go reports as applied; its caller
-- consumes the one-shots among them.
use governator.Prelude.{
  ℕ, ◌≡◌, refl, sym, ap, ◌∙◌, inl, inr, true, false, ◌||◌, Option, none, some, List, [], ◌∷◌, ◌++◌,
  map, arith, Memᴰ, any, any-append, any-map, any→Memᴰ, ◌↔◌, ◌==◌, Bool-cases, mem-append_cases,
}
use governator.Policy.Layers.{
  LayerResult, Override, override_for, by_rule, is_applied, applied_after, newly_applied,
  resolve_from, resolve_overrides,
}

abbrev pub ids_of : List Override → List ℕ
ids_of = map (λ o. o.id)

-- No identity stands twice.
abbrev pub Distinct : List Override → Type 0
Distinct [] = Unit
Distinct (o ∷ os) = (is_applied o.id (ids_of os) ≡ false) × Distinct os

newly_applied-some :
    (found : Option Override) (ids : List ℕ) {o : Override}
    → Memᴰ o (newly_applied found ids)
    → found ≡ some o
newly_applied-some none ids m = elim m [ ]
newly_applied-some (some p) ids m = elim (Bool-cases (is_applied p.id ids)) [
  | inl e ↦ elim (rw e at m) [ ]
  | inr e ↦ elim (rw e at m) [ Memᴰ.head q ↦ ap some (sym q) | Memᴰ.tail n ↦ elim n [ ] ]
]

applied-used :
    (os : List Override) (ids : List ℕ) (rs : List LayerResult) {o : Override}
    → Memᴰ o (resolve_from os ids rs).1
    → (r : LayerResult) × Memᴰ r rs × (override_for os r ≡ some o)
unfolding resolve_from
applied-used os ids [] m = elim m [ ]
applied-used os ids (r ∷ rs) m =
    elim (mem-append_cases (newly_applied (override_for os r) ids)
      (resolve_from os (applied_after (override_for os r) ids) rs).1 m) [
        | inl n ↦ (r, Memᴰ.head refl, newly_applied-some (override_for os r) ids n)
        | inr n ↦
            (let (x, k, e) = applied-used os (applied_after (override_for os r) ids) rs n in
              (x, Memᴰ.tail k, e))
      ]

seen_grows :
    (found : Option Override) (ids : List ℕ) (x : ℕ)
    → is_applied x ids ≡ true
    → is_applied x (applied_after found ids) ≡ true
seen_grows none ids x h = h
seen_grows (some o) ids x h = ground arith

newly_fresh :
    (found : Option Override) (ids : List ℕ) (x : ℕ)
    → is_applied x ids ≡ true
    → is_applied x (ids_of (newly_applied found ids)) ≡ false
newly_fresh none ids x h = refl
newly_fresh (some o) ids x h = elim (Bool-cases (is_applied o.id ids)) [
  | inl e ↦ rw e
  | inr e ↦ elim (Bool-cases (o.id == x)) [
    | inl q ↦ (let same : o.id ≡ x = ground arith in cc (ap (λ k. is_applied k ids) same, h, e))
    | inr q ↦ rw (e, q)
  ]
]

ids_of-append : (xs ys : List Override) → ids_of (xs ++ ys) ≡ ids_of xs ++ ids_of ys
ids_of-append [] ys = refl
ids_of-append (x ∷ xs) ys = ap (λ l. x.id ∷ l) (ids_of-append xs ys)

applied-fresh :
    (os : List Override) (ids : List ℕ) (rs : List LayerResult) (x : ℕ)
    → is_applied x ids ≡ true
    → is_applied x (ids_of (resolve_from os ids rs).1) ≡ false
unfolding resolve_from
applied-fresh os ids [] x h = refl
applied-fresh os ids (r ∷ rs) x h =
    let found : Option Override = override_for os r in
    let rest : List Override = (resolve_from os (applied_after found ids) rs).1 in
    rw (
      ids_of-append (newly_applied found ids) rest,
      any-append (λ i. i == x) (ids_of (newly_applied found ids)) (ids_of rest),
      newly_fresh found ids x h,
      applied-fresh os (applied_after found ids) rs x (seen_grows found ids x h),
    )

newly-Distinct :
    (found : Option Override) (ids : List ℕ) (rest : List Override)
    → ((x : ℕ) → is_applied x (applied_after found ids) ≡ true → is_applied x (ids_of rest) ≡ false)
    → Distinct rest
    → Distinct (newly_applied found ids ++ rest)
newly-Distinct none ids rest f d = d
newly-Distinct (some o) ids rest f d = elim (Bool-cases (is_applied o.id ids)) [
  | inl e ↦ rw e d
  | inr e ↦ rw e (f o.id (rw e (ground arith)), d)
]

applied-Distinct :
    (os : List Override) (ids : List ℕ) (rs : List LayerResult)
    → Distinct (resolve_from os ids rs).1
unfolding resolve_from
applied-Distinct os ids [] = tt
applied-Distinct os ids (r ∷ rs) =
    newly-Distinct (override_for os r) ids
      (resolve_from os (applied_after (override_for os r) ids) rs).1
      (applied-fresh os (applied_after (override_for os r) ids) rs)
      (applied-Distinct os (applied_after (override_for os r) ids) rs)

applied_self : (o : Override) (ids : List ℕ) → is_applied o.id (applied_after (some o) ids) ≡ true
applied_self o ids = ground arith

seen_split :
    (found : Option Override) (ids : List ℕ) (rest : List Override) (x : ℕ)
    → (is_applied x (applied_after found ids) || is_applied x (ids_of rest)) ≡ true
    → (is_applied x ids || is_applied x (ids_of (newly_applied found ids ++ rest))) ≡ true
seen_split none ids rest x h = h
seen_split (some o) ids rest x h = elim (Bool-cases (is_applied o.id ids)) [
  | inl e ↦ rw e (rw e at h)
  | inr e ↦ rw e (
      let h' : (o.id == x || is_applied x ids || is_applied x (ids_of rest)) ≡ true = rw e at h in
      ground arith)
]

applied-reported :
    (os : List Override) (ids : List ℕ) (rs : List LayerResult) {r : LayerResult} {o : Override}
    → Memᴰ r rs
    → override_for os r ≡ some o
    → (is_applied o.id ids || is_applied o.id (ids_of (resolve_from os ids rs).1)) ≡ true
unfolding resolve_from
applied-reported os ids [] m e = elim m [ ]
applied-reported os ids (r ∷ rs) {o = o} (Memᴰ.head p) e =
    let found : override_for os r ≡ some o = ap (override_for os) (sym p) ∙ e in
    let rest : List Override = (resolve_from os (applied_after (override_for os r) ids) rs).1 in
    seen_split (override_for os r) ids rest o.id (rw (found, applied_self o ids))
applied-reported os ids (r ∷ rs) {o = o} (Memᴰ.tail m) e =
    seen_split (override_for os r) ids
      (resolve_from os (applied_after (override_for os r) ids) rs).1 o.id
      (applied-reported os (applied_after (override_for os r) ids) rs m e)

no_override : (r : LayerResult) → override_for [] r ≡ none
unfolding override_for by_rule
no_override r = ground arith

applied_iff :
    (os : List Override) (rs : List LayerResult) (x : ℕ)
    → (is_applied x (ids_of (resolve_from os [] rs).1) ≡ true)
      ↔ ((r : LayerResult) × (o : Override) × Memᴰ r rs × (override_for os r ≡ some o) × (o.id ≡ x))
applied_iff os rs x = (
  λ h.
      (let found : any (λ o. o.id == x) (resolve_from os [] rs).1 ≡ true =
          sym (any-map (λ i. i == x) (λ o. o.id) (resolve_from os [] rs).1) ∙ h in
        let (o, m, e) = any→Memᴰ (λ o. o.id == x) (resolve_from os [] rs).1 found in
        let (r, k, q) = applied-used os [] rs m in (r, o, k, q, ground arith)),
  λ (r, o, m, q, e).
      ap (λ i. is_applied i (ids_of (resolve_from os [] rs).1)) (sym e)
      ∙ applied-reported os [] rs m q,
)

-- What a call reports as applied is exactly what it used: an identity is reported if and only if an
-- override of that identity resolved some result, and none is reported twice, so that a one-shot
-- override is consumed once, when and only when it was used.
pub resolve_overrides-applied :
    (rs : List LayerResult) (os : List Override) (x : ℕ)
    → ((is_applied x (ids_of (resolve_overrides rs os).1) ≡ true) ↔ (
        (r : LayerResult) × (o : Override) × Memᴰ r rs × (override_for os r ≡ some o) × (o.id ≡ x)))
      × Distinct (resolve_overrides rs os).1
unfolding resolve_overrides
resolve_overrides-applied rs [] x = ((λ h. cc, λ (r, o, m, q, e). cc (no_override r, q)), tt)
resolve_overrides-applied rs (p ∷ os) x =
    (applied_iff (p ∷ os) rs x, applied-Distinct (p ∷ os) [] rs)
