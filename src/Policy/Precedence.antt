-- ===== src/Policy/Precedence.antt =====
-- The order of evaluation of internal/policy/verdict.go: the stable sort by `precedenceRank`.
use governator.Prelude.{
  ℕ, zero, suc, ◌+◌, ◌≤◌, ◌<◌, String, ◌≡◌, refl, ap, ◌∙◌, true, false, List, [], ◌∷◌, ◌++◌, arith,
  filter, All, All-imp, All-append, ltb, ◌==◌, Bool-cases, inl, inr,
}
use governator.Policy.Layers.{LayerResult, precedence_rank, insert_layer, sort_layers}

abbrev rank_of : LayerResult → ℕ
rank_of r = precedence_rank r.source

-- The results of one rank, in the order in which they were given.
abbrev pub bucket : ℕ → List LayerResult → List LayerResult
bucket k = filter (λ r. rank_of r == k)

-- The buckets of `n` ranks from `k` on, one after another.
abbrev pub buckets : ℕ → ℕ → List LayerResult → List LayerResult
buckets zero k rs = []
buckets (suc n) k rs = bucket k rs ++ buckets n (k + 1) rs

bucket-rank : (k : ℕ) (rs : List LayerResult) → All (λ r. rank_of r ≡ k) (bucket k rs)
bucket-rank k [] = tt
bucket-rank k (r ∷ rs) = elim (Bool-cases (rank_of r == k)) [
  | inl e ↦ rw e (ground arith, bucket-rank k rs)
  | inr e ↦ rw e (bucket-rank k rs)
]

buckets-rank : (n k : ℕ) (rs : List LayerResult) → All (λ r. k ≤ rank_of r) (buckets n k rs)
buckets-rank zero k rs = tt
buckets-rank (suc n) k rs =
    All-append (λ r. k ≤ rank_of r) (bucket k rs) (buckets n (k + 1) rs)
      (All-imp (bucket k rs) (λ r e. omega (arith, e)) (bucket-rank k rs))
      (All-imp (buckets n (k + 1) rs) (λ r h. omega (arith, h)) (buckets-rank n (k + 1) rs))

buckets_skip :
    (n k : ℕ) (r : LayerResult) (rs : List LayerResult)
    → rank_of r < k
    → buckets n k (r ∷ rs) ≡ buckets n k rs
buckets_skip zero k r rs h = refl
buckets_skip (suc n) k r rs h =
    let e : (rank_of r == k) ≡ false = ground arith in
    rw (e, buckets_skip n (k + 1) r rs (omega (arith, h)))

insert_front :
    (r : LayerResult) (m : List LayerResult)
    → All (λ x. rank_of r ≤ rank_of x) m
    → insert_layer r m ≡ r ∷ m
unfolding insert_layer
insert_front r [] a = refl
insert_front r (x ∷ xs) a =
    let e : ltb (rank_of x) (rank_of r) ≡ false = ground (arith, a.0) in rw e

insert_past :
    (r : LayerResult) (l m : List LayerResult)
    → All (λ x. rank_of x < rank_of r) l
    → insert_layer r (l ++ m) ≡ l ++ insert_layer r m
unfolding insert_layer
insert_past r [] m a = refl
insert_past r (x ∷ xs) m a =
    let e : ltb (rank_of x) (rank_of r) ≡ true = ground (arith, a.0) in
    rw (e, insert_past r xs m a.1)

insert_bucket :
    (n k : ℕ) (r : LayerResult) (rs : List LayerResult)
    → k ≤ rank_of r
    → rank_of r < k + n
    → insert_layer r (buckets n k rs) ≡ buckets n k (r ∷ rs)
insert_bucket zero k r rs h g = absurd (omega (arith, h, g))
insert_bucket (suc n) k r rs h g = elim (Bool-cases (rank_of r == k)) [
  | inl e ↦
      (let q : rank_of r ≡ k = ground arith in
        insert_front r (buckets (suc n) k rs)
          (All-imp (buckets (suc n) k rs) (λ x p. omega (arith, p, q)) (buckets-rank (suc n) k rs))
        ∙ rw (e, buckets_skip n (k + 1) r rs (omega (arith, q))))
  | inr e ↦
      (let q : k < rank_of r = ground arith in
        insert_past r (bucket k rs) (buckets n (k + 1) rs)
          (All-imp (bucket k rs) (λ x p. omega (arith, p, q)) (bucket-rank k rs))
        ∙ rw (e, insert_bucket n (k + 1) r rs (omega (arith, q)) (omega (arith, g))))
]

rank_bound : (source : String) → precedence_rank source < 5
unfolding precedence_rank
rank_bound source = ground arith

-- The results are evaluated rank by rank, organization policy first and unknown sources last, and
-- within a rank in the order in which they were given.
pub sort_layers_lem : (rs : List LayerResult) → sort_layers rs ≡ buckets 5 0 rs
unfolding sort_layers
sort_layers_lem [] = refl
sort_layers_lem (r ∷ rs) =
    ap (insert_layer r) (sort_layers_lem rs)
    ∙ insert_bucket 5 0 r rs (omega arith) (rank_bound r.source)
