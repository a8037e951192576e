-- ===== src/Spend/Batch.antt =====
-- The workers of a batch over one accountant of internal/spend/accountant.go.
use governator.Prelude.{
  ℕ, ◌+◌, ◌≤◌, max, ◌≡◌, ap, Bool, true, none, some, List, [], ◌∷◌, ◌++◌, arith, sum_of,
  sum_of-append, pos_part,
}
use governator.Spend.{Config, is_capped}
use governator.Spend.Accountant.{Accountant, Refusal, reserve, settle}

-- The accountant, and what each worker that runs has reserved.
pub record Batch : Type 0 where
  pub accountant : Accountant
  pub running : List ℕ

-- A worker reserves before it starts, and settles its reservation when it ends; the cost is at most
-- the estimate. The halt file may come and go.
pub data Step (cfg : Config) : Batch → Batch → Type 0 where
  refuse :
      {b : Batch} (present : Bool) (estimate : ℕ) {r : Refusal}
      → (reserve cfg present estimate b.accountant).1 ≡ some r
      → Step cfg b (record b { accountant = (reserve cfg present estimate b.accountant).0 })
  start :
      {b : Batch} (present : Bool) (estimate : ℕ)
      → (reserve cfg present estimate b.accountant).1 ≡ none
      → Step cfg b (record {
        accountant = (reserve cfg present estimate b.accountant).0;
        running = estimate ∷ b.running;
      })
  finish :
      {b : Batch} (before : List ℕ) (reserved : ℕ) (after : List ℕ) (actual : ℕ)
      → b.running ≡ before ++ reserved ∷ after
      → actual ≤ reserved
      → Step cfg b
          (record { accountant = settle reserved actual b.accountant; running = before ++ after })

pub data Reach (cfg : Config) (b : Batch) : Batch → Type 0 where
  here : Reach cfg b b
  next : {c d : Batch} → Reach cfg b c → Step cfg c d → Reach cfg b d

abbrev total : List ℕ → ℕ
total = sum_of (λ n. n)

-- The reserved total is that of the workers that run, and the money that is spent or reserved is
-- within the cap, or no more than what was spent before the batch.
pub record IsSound (cap baseline : ℕ) (b : Batch) : Type 0 where
  pub reserved : b.accountant.pending ≡ total b.running
  pub within : b.accountant.spent + b.accountant.pending ≤ max cap baseline

total-remove :
    (before : List ℕ) (n : ℕ) (after : List ℕ)
    → total (before ++ n ∷ after) ≡ n + total (before ++ after)
total-remove before n after = omega (
  arith,
  sum_of-append (λ (k : ℕ). k) before (n ∷ after),
  sum_of-append (λ (k : ℕ). k) before after,
)

Step-IsSound :
    {cfg : Config} {baseline : ℕ} {b c : Batch}
    → is_capped cfg ≡ true
    → Step cfg b c
    → IsSound (pos_part cfg.daily_cap_usd) baseline b
    → IsSound (pos_part cfg.daily_cap_usd) baseline c
unfolding reserve settle
Step-IsSound c (refuse present estimate h) s = ground arith
Step-IsSound c (start present estimate h) s = ground arith
Step-IsSound c (finish before reserved after actual e le) s =
    let removed = total-remove before reserved after in ground (arith, ap total e)

-- However the workers of a batch under a cap interleave, the accountant's reserved total is the sum
-- of the reservations of the workers that run, and settled and reserved money together stay
-- within the cap, or within what was spent before the batch where that is more, as long as no
-- run costs more than its estimate.
pub Reach-IsSound :
    {cfg : Config} {baseline : ℕ} {b : Batch}
    → is_capped cfg ≡ true
    → Reach cfg (record { accountant = record { spent = baseline; pending = 0 }; running = [] }) b
    → IsSound (pos_part cfg.daily_cap_usd) baseline b
Reach-IsSound c here = omega arith
Reach-IsSound c (next r st) = Step-IsSound c st (Reach-IsSound c r)
