-- ===== src/Spend/Uncounted.antt =====
-- What internal/spend/reservation.go makes of the cost of a run that outlasts its reservation.
use governator.Prelude.{
  ◌+◌, ◌≤◌, ◌∙◌, sym, subst, Memᴰ, Memᴰ→any, eq_iff, sum_of, if◌then◌else◌, ℕ, String, ◌≡◌, ◌≢◌,
  refl, Bool, true, none, some, List, [], ◌∷◌, ◌++◌, arith, ℤ, ◌==◌, Bool-cases, inl, inr, ap, map,
  sum_of-append,
}
use governator.Dbtime.{Time, to_unix_nano}
use governator.Spend.{Run}
use governator.Spend.Rows.{
  is_stale, expire_row, expire_rows, pending_term, settled_term, Row, Ledger, committed, run_term,
  has_reservation,
}
use governator.Spend.Reservation.{expire_stale_reservations, settle_global}
use governator.Spend.Settled.{no_faults, find_open-none, IsClosed}

-- A run whose reservation of the day is there costs its day nothing.
run_term-reserved :
    (rows : List Row) (day : String) (r : Run)
    → has_reservation rows day r.id ≡ true
    → run_term rows day r ≡ 0
run_term-reserved rows day r h = ground arith

committed-add_run :
    (l : Ledger) (day : String) (r : Run)
    → has_reservation l.reservations day r.id ≡ true
    → committed (record l { runs = l.runs ++ r ∷ [] }) day ≡ committed l day
unfolding committed
committed-add_run l day r h = omega (
  arith,
  sum_of-append (run_term l.reservations day) l.runs (r ∷ []),
  run_term-reserved l.reservations day r h,
)

expire_row-keeps :
    (n : ℕ) (r : Row)
    → ((expire_row n r).id ≡ r.id)
      × ((expire_row n r).run_id ≡ r.run_id)
      × ((expire_row n r).day ≡ r.day)
expire_row-keeps n r = elim (Bool-cases (is_stale n r)) [
  | inl stale ↦ rw stale (refl, refl, refl)
  | inr fresh ↦ rw fresh (refl, refl, refl)
]

has_reservation-expire :
    (n : ℕ) (day id : String) (rows : List Row)
    → has_reservation (map (expire_row n) rows) day id ≡ has_reservation rows day id
has_reservation-expire n day id [] = refl
has_reservation-expire n day id (r ∷ rows) =
    let (i, u, d) = expire_row-keeps n r in
    ground (arith, i, u, d, has_reservation-expire n day id rows)

has_reservation-mem :
    (rows : List Row) (x : Row)
    → Memᴰ x rows
    → x.run_id ≢ ""
    → has_reservation rows x.day x.run_id ≡ true
has_reservation-mem rows x m n =
    Memᴰ→any _ rows m
      (ground (arith, n, eq_iff x.run_id "", eq_iff x.day x.day, eq_iff x.run_id x.run_id))

run_term-expire :
    (n : ℕ) (day : String) (rows : List Row) (runs : List Run)
    → sum_of (run_term (map (expire_row n) rows) day) runs ≡ sum_of (run_term rows day) runs
run_term-expire n day rows [] = refl
run_term-expire n day rows (r ∷ runs) =
    ground (arith, has_reservation-expire n day r.id rows, run_term-expire n day rows runs)

settled_term-expire :
    (n : ℕ) (day : String) (rows : List Row)
    → sum_of (settled_term day) (map (expire_row n) rows) ≡ sum_of (settled_term day) rows
settled_term-expire n day [] = refl
settled_term-expire n day (r ∷ rows) = ground (arith, settled_term-expire n day rows)

pending_term-expire :
    (n : ℕ) (day : String) (rows : List Row)
    → sum_of (pending_term day) (map (expire_row n) rows) ≤ sum_of (pending_term day) rows
pending_term-expire n day [] = omega arith
pending_term-expire n day (r ∷ rows) = ground (arith, pending_term-expire n day rows)

-- The expiry takes the estimate of a stale row off what its day has pending.
pending_term-stale :
    (n : ℕ) (x : Row) (rows : List Row)
    → Memᴰ x rows
    → is_stale n x ≡ true
    → sum_of (pending_term x.day) (map (expire_row n) rows) + x.estimated_usd
      ≤ sum_of (pending_term x.day) rows
pending_term-stale n x [] m s = elim m [ ]
pending_term-stale n x (r ∷ rows) (Memᴰ.head e) s =
    subst
      (λ y.
        sum_of (pending_term x.day) (map (expire_row n) (y ∷ rows)) + x.estimated_usd
        ≤ sum_of (pending_term x.day) (y ∷ rows))
      e (ground (arith, s, eq_iff x.day x.day, pending_term-expire n x.day rows))
pending_term-stale n x (r ∷ rows) (Memᴰ.tail m) s = ground (arith, pending_term-stale n x rows m s)

expired-absent :
    (n id : ℕ) (rows : List Row)
    → sum_of (λ (y : Row). if y.id == id then 1 else 0) rows ≡ 0
    → IsClosed id (map (expire_row n) rows)
expired-absent n id [] u = tt
expired-absent n id (r ∷ rows) u = (ground arith, expired-absent n id rows (ground arith))

mem-absent :
    (x : Row) (rows : List Row)
    → Memᴰ x rows
    → sum_of (λ (y : Row). if y.id == x.id then 1 else 0) rows ≢ 0
mem-absent x [] m u = elim m [ ]
mem-absent x (r ∷ rows) (Memᴰ.head e) u = ground (arith, ap (λ (y : Row). y.id) e)
mem-absent x (r ∷ rows) (Memᴰ.tail m) u = mem-absent x rows m (ground arith)

-- After the expiry no row under the id of a stale one is pending.
expired-IsClosed :
    (n : ℕ) (x : Row) (rows : List Row)
    → Memᴰ x rows
    → sum_of (λ (y : Row). if y.id == x.id then 1 else 0) rows ≤ 1
    → is_stale n x ≡ true
    → IsClosed x.id (map (expire_row n) rows)
expired-IsClosed n x [] m u s = elim m [ ]
expired-IsClosed n x (r ∷ rows) (Memᴰ.head e) u s =
    let same : r.id ≡ x.id = ap (λ (y : Row). y.id) (sym e) in
    let stale : is_stale n r ≡ true = ap (is_stale n) (sym e) ∙ s in
    (rw stale (λ h. refl), expired-absent n x.id rows (ground (arith, same)))
expired-IsClosed n x (r ∷ rows) (Memᴰ.tail m) u s =
    (ground (arith, mem-absent x rows m), expired-IsClosed n x rows m (ground arith) s)

-- A run outlasts its reservation: the row of its reservation, whose id is its own and whose run is named,
-- is stale at the time of an expiry, which the database carries out. Then the day loses the
-- estimate; a settlement under the id of the row, without faults of the database and at a time in
-- range, answers with no error and changes nothing; and the finished run, whatever it has cost,
-- adds nothing to what the day has committed.
pub expired-uncounted :
    (l : Ledger) (x : Row) (r : Run) (at : Time) (n : ℕ) (actual : ℤ) (available : Bool)
    (now : Time)
    → Memᴰ x l.reservations
    → sum_of (λ (y : Row). if y.id == x.id then 1 else 0) l.reservations ≤ 1
    → x.run_id ≢ ""
    → r.id ≡ x.run_id
    → to_unix_nano at ≡ some n
    → is_stale n x ≡ true
    → to_unix_nano now ≢ none
    → let m = (expire_stale_reservations at none l).0 in
      (committed m x.day + x.estimated_usd ≤ committed l x.day)
      × (settle_global no_faults x.id actual available now m ≡ (m, none))
      × (committed (record m { runs = m.runs ++ r ∷ [] }) x.day ≡ committed m x.day)
unfolding expire_stale_reservations expire_rows settle_global committed
expired-uncounted l x r at n actual available now m u named same e s t = rw e (
  omega (
    arith,
    run_term-expire n x.day l.reservations l.runs,
    settled_term-expire n x.day l.reservations,
    pending_term-stale n x l.reservations m s,
  ),
  ground (
    arith,
    t,
    find_open-none x.id (map (expire_row n) l.reservations)
        (expired-IsClosed n x l.reservations m u s),
  ),
  committed-add_run (record l { reservations = map (expire_row n) l.reservations }) x.day r
      (ap (has_reservation (map (expire_row n) l.reservations) x.day) same
        ∙ (has_reservation-expire n x.day x.run_id l.reservations
            ∙ has_reservation-mem l.reservations x m named)),
)
