-- ===== src/Quota/Operations/Final.antt =====
-- A reservation of internal/quota/quota.go that is no longer open stays so.
use governator.Prelude.{
  ℕ, ◌<◌, ◌≡◌, ◌≢◌, refl, sym, ap, subst, String, Bool, true, false, Option, none, some, List, [],
  ◌∷◌, ◌++◌, map, eq_iff, ◌==◌, arith, Bool-cases, inl, inr, ℤ,
}
use governator.Dbtime.{Time}
use governator.Quota.{Window, Row, Db}
use governator.Quota.Rows.{
  Stamp, is_open, find_open, claim_row, claim_rows, close_windows, measure_rows, insert_row,
}
use governator.Quota.Operations.{
  Result, ok, TxFaults, release_claimed, release_tx, settled_usage, settle_claimed, settle,
  reserve_each, reserve_tx,
}
use governator.Quota.Operations.Kept.{
  continue-inverted, transaction-keeps, claim_reservation-inverted, release_claimed-inverted,
  settle_claimed-inverted,
}
use governator.Quota.Operations.Booked.{reserve_one-inverted, insert_reserved-inverted}
use governator.Quota.Operations.Reach.{Step, reserving, releasing, settling, Reach, here, next}

-- The id has been given out, and its row is not open.
abbrev pub IsClosed : ℕ → Db → Type 0
IsClosed id d = (id < d.next_id) × (find_open id d.reservations ≡ none)

find_open-map :
    (id : ℕ) (change : Row → Row) (rows : List Row)
    → ((r : Row) → is_open id r ≡ false → is_open id (change r) ≡ false)
    → find_open id rows ≡ none
    → find_open id (map change rows) ≡ none
unfolding find_open
find_open-map id change [] c h = refl
find_open-map id change (r ∷ rows) c h =
    let closed : is_open id r ≡ false = ground arith in
    rw (c r closed) (find_open-map id change rows c (ground (arith, closed)))

find_open-claimed :
    (id : ℕ) (at : Stamp) (expired : Bool) (rows : List Row)
    → at.text ≢ ""
    → find_open id (map (claim_row id at expired) rows) ≡ none
unfolding find_open
find_open-claimed id at expired [] t = refl
find_open-claimed id at expired (r ∷ rows) t =
    ground (arith, t, eq_iff at.text "", find_open-claimed id at expired rows t)

find_open-append :
    (id : ℕ) (rows : List Row) (r : Row)
    → is_open id r ≡ false
    → find_open id rows ≡ none
    → find_open id (rows ++ r ∷ []) ≡ none
unfolding find_open
find_open-append id [] r c h = rw c refl
find_open-append id (x ∷ rows) r c h = ground (arith, find_open-append id rows r c)

claim_rows-IsClosed :
    (id other : ℕ) (at : Stamp) (expired : Bool) (d : Db)
    → IsClosed id d
    → IsClosed id (claim_rows other at expired d)
unfolding claim_rows
claim_rows-IsClosed id other at expired d (b, c) =
    (b, find_open-map id (claim_row other at expired) d.reservations (λ r h. ground (arith, h)) c)

pub claim_rows-closes :
    (id : ℕ) (at : Stamp) (expired : Bool) (d : Db)
    → at.text ≢ ""
    → id < d.next_id
    → IsClosed id (claim_rows id at expired d)
unfolding claim_rows
claim_rows-closes id at expired d t b = (b, find_open-claimed id at expired d.reservations t)

close_windows-IsClosed :
    (id : ℕ) (backend account : String) (reserved measured : ℕ) (at : Stamp) (d : Db)
    → IsClosed id d
    → IsClosed id (close_windows backend account reserved measured at d)
unfolding close_windows
close_windows-IsClosed id backend account reserved measured at d h = h

measure_rows-IsClosed :
    (id other measured : ℕ) (d : Db) → IsClosed id d → IsClosed id (measure_rows other measured d)
unfolding measure_rows
measure_rows-IsClosed id other measured d (b, c) =
    (b, find_open-map id _ d.reservations (λ r h. ground (arith, h)) c)

insert_row-IsClosed :
    (id : ℕ) (run_id backend account : String) (usage expires created : ℕ) (d : Db)
    → IsClosed id d
    → IsClosed id (insert_row run_id backend account usage expires created d)
unfolding insert_row
insert_row-IsClosed id run_id backend account usage expires created d (b, c) =
    (omega arith, find_open-append id d.reservations _ (ground arith) c)

module _ (normalize : String → String) (month_start next_month : Time → Time)
    (format : Time → String) (parse : String → Option Time) where
  pub release_claimed-IsClosed :
      (id : ℕ) (f : TxFaults) (now : Time) (found : Option Row) (d e : Db) (u : Unit {0})
      → IsClosed id d
      → release_claimed normalize month_start next_month format parse f now found d ≡ (e, ok u)
      → IsClosed id e
  release_claimed-IsClosed id f now none d e u c h =
      subst (IsClosed id) (ap (λ (r : Db × Result (Unit {0})). r.0) h) c
  release_claimed-IsClosed id f now (some r) d e u c h =
      let (at, same) =
        release_claimed-inverted normalize month_start next_month format parse f now r d h in
      subst (IsClosed id) (sym same)
        (close_windows-IsClosed id r.backend r.account r.usage 0 at d c)

  pub settle_claimed-IsClosed :
      (id : ℕ) (f : TxFaults) (other : ℕ) (measured : ℤ) (now : Time) (found : Option Row)
      (d e : Db) (u : Unit {0})
      → IsClosed id d
      → settle_claimed normalize month_start next_month format parse f other measured now found d
        ≡ (e, ok u)
      → IsClosed id e
  settle_claimed-IsClosed id f other measured now none d e u c h =
      subst (IsClosed id) (ap (λ (r : Db × Result (Unit {0})). r.0) h) c
  settle_claimed-IsClosed id f other measured now (some r) d e u c h =
      let m : ℕ = settled_usage normalize month_start next_month format parse measured r in
      let (at, same) =
        settle_claimed-inverted normalize month_start next_month format parse f other measured now r
          d h in
      subst (IsClosed id) (sym same) (
        close_windows-IsClosed id r.backend r.account r.usage m at (measure_rows other m d)
          (measure_rows-IsClosed id other m d c))

  release_tx-IsClosed :
      (id : ℕ) (f : TxFaults) (other : ℕ) (now : Time) (d : Db)
      → IsClosed id d
      → IsClosed id (release_tx normalize month_start next_month format parse f other now d).0
  unfolding release_tx
  release_tx-IsClosed id f other now d c = transaction-keeps (IsClosed id) f.begin _ d c (λ e u h.
      let (d1, found, a, k) = continue-inverted _ _ h in
      let (n, o, w) =
        claim_reservation-inverted normalize month_start next_month format parse f other now true d
          a in
      release_claimed-IsClosed id f now found d1 e u
        (subst (IsClosed id) (sym w) (claim_rows-IsClosed id other _ true d c)) k)

  settle-IsClosed :
      (id : ℕ) (f : TxFaults) (other : ℕ) (measured : ℤ) (now : Time) (d : Db)
      → IsClosed id d
      → IsClosed id (settle normalize month_start next_month format parse f other measured now d).0
  unfolding settle
  settle-IsClosed id f other measured now d c = elim (Bool-cases (other == 0)) [
    | inl zero ↦ rw zero c
    | inr real ↦ rw real (
        transaction-keeps (IsClosed id) f.begin _ d c (λ e u h.
          let (d1, found, a, k) = continue-inverted _ _ h in
          let (n, o, w) =
            claim_reservation-inverted normalize month_start next_month format parse f other now
              false d a in
          settle_claimed-IsClosed id f other measured now found d1 e u
            (subst (IsClosed id) (sym w) (claim_rows-IsClosed id other _ false d c)) k))
  ]

  reserve_each-IsClosed :
      (id : ℕ) (f : String → Option String) (backend account : String) (usage : ℕ) (at : Stamp)
      (ws : List Window) (d : Db) {e : Db} {u : Unit {0}}
      → IsClosed id d
      → reserve_each normalize month_start next_month format parse f backend account usage at ws d
        ≡ (e, ok u)
      → IsClosed id e
  unfolding reserve_each
  reserve_each-IsClosed id f backend account usage at [] d c h =
      subst (IsClosed id) (ap (λ (r : Db × Result (Unit {0})). r.0) h) c
  reserve_each-IsClosed id f backend account usage at (v ∷ vs) d c h =
      let (d1, u, one, rest) = continue-inverted _ _ h in
      let (room, e1) =
        reserve_one-inverted normalize month_start next_month format parse backend account usage
          (f v.window_type) at v d one in
      reserve_each-IsClosed id f backend account usage at vs d1 (subst (IsClosed id) (sym e1) c)
        rest

  Step-IsClosed :
      (id : ℕ) {d e : Db}
      → Step normalize month_start next_month format parse d e
      → IsClosed id d
      → IsClosed id e
  unfolding reserve_tx
  Step-IsClosed id (reserving {d} f backend account run_id usage expires at ws r) c =
      transaction-keeps (IsClosed id) f.begin _ d c (λ e a h.
        let (d1, u, each, k) = continue-inverted _ _ h in
        let (n, same) =
          insert_reserved-inverted normalize month_start next_month format parse backend account
            usage f run_id expires at d1 k in
        subst (IsClosed id) (sym same) (
          insert_row-IsClosed id run_id backend account usage n at.nanos d1
            (reserve_each-IsClosed id f.update backend account usage at ws d c each)))
  Step-IsClosed id (releasing {d} f other now t) c = release_tx-IsClosed id f other now d c
  Step-IsClosed id (settling {d} f other measured now t b) c =
      settle-IsClosed id f other measured now d c

  pub Reach-IsClosed :
      (id : ℕ) {d e : Db}
      → Reach normalize month_start next_month format parse d e
      → IsClosed id d
      → IsClosed id e
  Reach-IsClosed id here c = c
  Reach-IsClosed id (next r t) c = Step-IsClosed id t (Reach-IsClosed id r c)
