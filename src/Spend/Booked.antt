-- ===== src/Spend/Booked.antt =====
-- What the statements of internal/spend/reservation.go do to the sum that a day has booked.
use governator.Prelude.{
  ℕ, ◌+◌, ◌≤◌, String, ◌≡◌, Bool, true, ◌&&◌, not, List, [], ◌∷◌, ◌++◌, arith, All, All-every,
  All-imp, sum_of, sum_of-append, sum_of-map_le, sum_of-add, sum_of_mono, any-append, ℤ, leb→le,
  Bool-cases, inl, inr, if◌then◌else◌, leb, str_eq, eq_iff,
}
use governator.Spend.{Run}
use governator.Spend.Rows.{
  Row, Ledger, run_term, pending_term, settled_term, committed, expire_row, expire_rows, new_row,
  insert_row, insert_within, is_open, settle_amount, settle_row, settle_rows, release_row,
  release_rows,
}

abbrev pub booked_term : String → Row → ℕ
booked_term day r = pending_term day r + settled_term day r

-- The second and the third term of the sum in `ReserveGlobal`: what is reserved and what is settled.
unfoldable pub booked : Ledger → String → ℕ
booked l day = sum_of (booked_term day) l.reservations

pub committed-booked :
    (l : Ledger) (day : String)
    → committed l day ≡ sum_of (run_term l.reservations day) l.runs + booked l day
unfolding committed booked
committed-booked l day =
    omega (arith, sum_of-add (pending_term day) (settled_term day) l.reservations)

pub booked-expire_rows :
    (now : ℕ) (l : Ledger) (day : String) → booked (expire_rows now l) day ≤ booked l day
unfolding booked expire_rows
booked-expire_rows now l day =
    sum_of-map_le (booked_term day) (booked_term day) (expire_row now) l.reservations
      (All-every l.reservations (λ r. ground arith))

pub booked-release_rows :
    (selects : Row → Bool) (now : ℕ) (l : Ledger) (day : String)
    → booked (release_rows selects now l) day ≤ booked l day
unfolding booked release_rows
booked-release_rows selects now l day =
    sum_of-map_le (booked_term day) (booked_term day) (release_row selects now) l.reservations
      (All-every l.reservations (λ r. ground arith))

-- Settling no row above its estimate.
abbrev pub IsWithinEstimate : ℕ → ℤ → Bool → Row → Type 0
IsWithinEstimate id actual available r =
    is_open id r ≡ true → settle_amount actual available r ≤ r.estimated_usd

pub booked-settle_rows :
    (id now : ℕ) (actual : ℤ) (available : Bool) (l : Ledger) (day : String)
    → All (IsWithinEstimate id actual available) l.reservations
    → booked (settle_rows id now actual available l) day ≤ booked l day
unfolding booked settle_rows
booked-settle_rows id now actual available l day h =
    sum_of-map_le (booked_term day) (booked_term day) (settle_row id now actual available)
      l.reservations (All-imp l.reservations (λ r w. one r w) h)
  where
    one :
        (r : Row)
        → IsWithinEstimate id actual available r
        → booked_term day (settle_row id now actual available r) ≤ booked_term day r
    one r w = ground (arith, w)

pub booked-insert_row :
    (run_id day : String) (estimate expires created : ℕ) (l : Ledger) (d : String)
    → booked (insert_row run_id day estimate expires created l) d
      ≡ booked l d + booked_term d (new_row l.next_id run_id day estimate expires created)
unfolding booked insert_row
booked-insert_row run_id day estimate expires created l d = omega (
  arith,
  sum_of-append (booked_term d) l.reservations
      (new_row l.next_id run_id day estimate expires created ∷ []),
)

run_term-insert :
    (rows : List Row) (row : Row) (day : String) (r : Run)
    → run_term (rows ++ row ∷ []) day r ≤ run_term rows day r
run_term-insert rows row day r = ground (
  arith,
  any-append (λ (x : Row). not (str_eq x.run_id "") && (str_eq x.day day && str_eq x.run_id r.id))
      rows (row ∷ []),
)

new_row-term :
    (id : ℕ) (run_id day : String) (estimate expires created : ℕ) (d : String)
    → booked_term d (new_row id run_id day estimate expires created)
      ≤ (if str_eq day d then estimate else 0)
new_row-term id run_id day estimate expires created d = ground arith

-- An insert adds at most its estimate to what a day has committed.
pub committed-insert_row :
    (run_id day : String) (estimate expires created : ℕ) (l : Ledger) (d : String)
    → committed (insert_row run_id day estimate expires created l) d ≤ committed l d + estimate
unfolding insert_row
committed-insert_row run_id day estimate expires created l d =
    let row = new_row l.next_id run_id day estimate expires created in
    let l' = insert_row run_id day estimate expires created l in
    ground (
      arith,
      committed-booked l d,
      committed-booked l' d,
      booked-insert_row run_id day estimate expires created l d,
      new_row-term l.next_id run_id day estimate expires created d,
      sum_of_mono (run_term (l.reservations ++ row ∷ []) d) (run_term l.reservations d) l.runs
          (λ r. run_term-insert l.reservations row d r),
    )

-- The conditional insert keeps what every day has booked under the cap.
pub booked-insert_within :
    (cap : ℕ) (run_id day : String) (estimate expires created : ℕ) (l : Ledger) (d : String)
    → booked l d ≤ cap
    → booked (insert_within cap run_id day estimate expires created l) d ≤ cap
unfolding insert_within
booked-insert_within cap run_id day estimate expires created l d h =
    elim (Bool-cases (leb (committed l day + estimate) cap)) [
      | inl fit ↦ rw fit (
          ground (
            arith,
            eq_iff day d,
            leb→le (committed l day + estimate) cap fit,
            committed-booked l day,
            booked-insert_row run_id day estimate expires created l d,
            new_row-term l.next_id run_id day estimate expires created d,
          ))
      | inr full ↦ rw full h
    ]
