-- ===== src/Spend/Settled.antt =====
-- What internal/spend/reservation.go makes of the cost of a finished run.
use governator.Prelude.{
  ℕ, String, ◌≡◌, ◌≢◌, refl, Bool, false, Option, none, some, List, [], ◌∷◌, arith, All, ℤ, ◌==◌,
  Bool-cases, Option-cases, inl, inr, ap, map,
}
use governator.Dbtime.{Time, to_unix_nano}
use governator.Spend.Rows.{Row, Ledger, is_pending, find_open, settle_row, settle_rows, release_row}
use governator.Spend.Reservation.{
  settle_global, settle_at, settle_found, release_at, tx_error, claim_error, release_global,
  TxFaults,
}

-- The two tables without the faults of a database.
abbrev pub no_faults : TxFaults
no_faults = record { begin = none; claim = none; amount = none; commit = none }

pub find_open-none :
    (id : ℕ) (rows : List Row)
    → All (λ (r : Row). r.id ≡ id → is_pending r.status ≡ false) rows
    → find_open id rows ≡ none
unfolding find_open
find_open-none id [] h = refl
find_open-none id (r ∷ rows) h = ground (arith, find_open-none id rows h.1, h.0)

-- No row under an id is pending.
abbrev pub IsClosed : ℕ → List Row → Type 0
IsClosed id rows = All (λ (x : Row). x.id ≡ id → is_pending x.status ≡ false) rows

settle_row-IsClosed :
    (id now : ℕ) (actual : ℤ) (available : Bool) (rows : List Row)
    → IsClosed id (map (settle_row id now actual available) rows)
settle_row-IsClosed id now actual available [] = tt
settle_row-IsClosed id now actual available (r ∷ rows) =
    (ground arith, settle_row-IsClosed id now actual available rows)

settle-closed :
    (f : TxFaults) (id : ℕ) (actual : ℤ) (available : Bool) (now : Time) (m : Ledger)
    → IsClosed id m.reservations
    → (settle_global f id actual available now m).0 ≡ m
unfolding settle_global
settle-closed f id actual available now m closed =
    ground (arith, find_open-none id m.reservations closed)

release_row-closed :
    (id now : ℕ) (rows : List Row)
    → IsClosed id rows
    → map (release_row (λ (r : Row). r.id == id) now) rows ≡ rows
release_row-closed id now [] h = refl
release_row-closed id now (r ∷ rows) h = ground (arith, release_row-closed id now rows h.1, h.0)

release-closed :
    (id : ℕ) (now : Time) (fault : Option String) (m : Ledger)
    → IsClosed id m.reservations
    → (release_global id now fault m).0 ≡ m
unfolding release_global
release-closed id now fault m closed = elim (Bool-cases (id == 0)) [
  | inl zero ↦ rw zero refl
  | inr other ↦ rw other (go (to_unix_nano now) fault)
]
  where
    go : (n : Option ℕ) (e : Option String) → (release_at (λ (r : Row). r.id == id) n e m).0 ≡ m
    go none e = refl
    go (some n) (some e) = refl
    go (some n) none =
        ap (λ rows. record m { reservations = rows })
          (release_row-closed id n m.reservations closed)

find_open-IsClosed : (id : ℕ) (rows : List Row) → find_open id rows ≡ none → IsClosed id rows
unfolding find_open
find_open-IsClosed id [] h = tt
find_open-IsClosed id (r ∷ rows) h = (ground arith, find_open-IsClosed id rows (ground arith))

absent-IsClosed :
    (f : TxFaults) (id : ℕ) (a : ℤ) (available : Bool) (n : ℕ) (l : Ledger)
    → IsClosed id l.reservations
    → IsClosed id (settle_found f id a available n none l).0.reservations
absent-IsClosed f id a available n l h = elim (Option-cases (claim_error f)) [
  | inl fine ↦ rw (fine, settle_found) h
  | inr (e, bad) ↦ rw (bad, settle_found) h
]

present-IsClosed :
    (f : TxFaults) (id : ℕ) (a : ℤ) (available : Bool) (n : ℕ) (r : Row) (l : Ledger)
    → (settle_found f id a available n (some r) l).1 ≡ none
    → IsClosed id (settle_found f id a available n (some r) l).0.reservations
unfolding settle_rows
present-IsClosed f id a available n r l h = elim (Option-cases (tx_error f)) [
  | inl fine ↦ rw (fine, settle_found) (settle_row-IsClosed id n a available l.reservations)
  | inr (e, bad) ↦ cc (rw (bad, settle_found) at h)
]

settle_at-IsClosed :
    (f : TxFaults) (id : ℕ) (a : ℤ) (available : Bool) (n : Option ℕ) (l : Ledger)
    → (settle_at f id a available n l).1 ≡ none
    → IsClosed id (settle_at f id a available n l).0.reservations
settle_at-IsClosed f id a available none l h = cc h
settle_at-IsClosed f id a available (some n) l h =
    elim (Option-cases (find_open id l.reservations)) [
      | inl missing ↦
          rw (missing, settle_at)
            (absent-IsClosed f id a available n l (find_open-IsClosed id l.reservations missing))
      | inr (r, found) ↦
          rw (found, settle_at)
            (present-IsClosed f id a available n r l (rw (found, settle_at) at h))
    ]

settle_global-IsClosed :
    (f : TxFaults) (id : ℕ) (a : ℤ) (available : Bool) (now : Time) (l : Ledger)
    → id ≢ 0
    → (settle_global f id a available now l).1 ≡ none
    → IsClosed id (settle_global f id a available now l).0.reservations
unfolding settle_global
settle_global-IsClosed f id a available now l nz h = elim (Bool-cases (id == 0)) [
  | inl zero ↦ absurd (ground arith)
  | inr other ↦ rw other (settle_at-IsClosed f id a available (to_unix_nano now) l (rw other at h))
]

-- A settlement that answers with no error is final: settling or releasing the same reservation
-- again, at any time and with any amount, leaves the ledger as it is.
pub settle_global-final :
    (l : Ledger) (id : ℕ) (f g : TxFaults) (a b : ℤ) (available known : Bool) (now later : Time)
    (fault : Option String)
    → id ≢ 0
    → (settle_global f id a available now l).1 ≡ none
    → let m = (settle_global f id a available now l).0 in
      ((settle_global g id b known later m).0 ≡ m) × ((release_global id later fault m).0 ≡ m)
settle_global-final l id f g a b available known now later fault nz h =
    let m = (settle_global f id a available now l).0 in
    let closed = settle_global-IsClosed f id a available now l nz h in
    (settle-closed g id b known later m closed, release-closed id later fault m closed)
