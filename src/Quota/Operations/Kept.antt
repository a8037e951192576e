-- ===== src/Quota/Operations/Kept.antt =====
-- The operations of internal/quota/quota.go keep the books.
use governator.Prelude.{
  ℕ, ◌≤◌, ◌≡◌, ◌≢◌, refl, sym, ap, ◌∙◌, subst, String, Bool, true, false, Option, none, some, List,
  [], ◌∷◌, map, ◌==◌, arith, Bool-cases, Option-cases, inl, inr, ℤ,
}
use governator.Dbtime.{Time, to_unix_nano, format_legacy}
use governator.Quota.{Row, Db}
use governator.Quota.Rows.{Stamp, find_open, claim_row, claim_rows, close_windows, measure_rows}
use governator.Quota.Operations.{
  Result, ok, err, M, continue, exec, rolled_back, transaction, TxFaults, stamp, claim_at,
  claim_reservation, release_claimed, release_tx, release, settled_usage, settle_claimed, settle,
}
use governator.Quota.Operations.Tracked.{IsBalanced, close, close-IsBalanced, measure-IsBalanced}

pub continue-inverted :
    {A B : Type 0} (r : Db × Result A) (k : A → M B) {d : Db} {b : B}
    → continue r k ≡ (d, ok b)
    → (e : Db) × (a : A) × (r ≡ (e, ok a)) × (k a e ≡ (d, ok b))
continue-inverted (e, ok a) k h = (e, a, refl, h)
continue-inverted (e, err x) k h = cc h

pub exec-inverted :
    (f : Option String) (write : Db → Db) (d : Db) {e : Db} {u : Unit {0}}
    → exec f write d ≡ (e, ok u)
    → e ≡ write d
exec-inverted none write d h = cc h
exec-inverted (some x) write d h = cc h

rolled_back-keeps :
    {A : Type 0} (P : Db → Type 0) (d : Db) (r : Db × Result A)
    → P d
    → ((e : Db) (a : A) → r ≡ (e, ok a) → P e)
    → P (rolled_back d r).0
rolled_back-keeps P d (e, ok a) h k = k e a refl
rolled_back-keeps P d (e, err x) h k = h

-- A transaction keeps what holds before it and after its statements.
pub transaction-keeps :
    {A : Type 0} (P : Db → Type 0) (f : Option String) (body : M A) (d : Db)
    → P d
    → ((e : Db) (a : A) → body d ≡ (e, ok a) → P e)
    → P (transaction f body d).0
transaction-keeps P (some x) body d h k = h
transaction-keeps P none body d h k = rolled_back-keeps P d (body d) h k

claim_row-absent :
    (id : ℕ) (at : Stamp) (expired : Bool) (rows : List Row)
    → find_open id rows ≡ none
    → map (claim_row id at expired) rows ≡ rows
unfolding find_open
claim_row-absent id at expired [] h = refl
claim_row-absent id at expired (r ∷ rows) h = ground (arith, claim_row-absent id at expired rows)

pub claim_rows-absent :
    (id : ℕ) (at : Stamp) (expired : Bool) (d : Db)
    → find_open id d.reservations ≡ none
    → claim_rows id at expired d ≡ d
unfolding claim_rows
claim_rows-absent id at expired d h =
    ap (λ rows. record d { reservations = rows }) (claim_row-absent id at expired d.reservations h)

measured_closed :
    (id : ℕ) (r : Row) (measured : ℕ) (claimed at : Stamp) (d : Db)
    → IsBalanced (close id r measured false claimed at d)
    → IsBalanced (
        close_windows r.backend r.account r.usage measured at
          (measure_rows id measured (claim_rows id claimed false d)))
unfolding close_windows measure_rows claim_rows
measured_closed id r measured claimed at d s =
    measure-IsBalanced id measured (close id r measured false claimed at d) s

module _ (normalize : String → String) (month_start next_month : Time → Time)
    (format : Time → String) (parse : String → Option Time) where
  abbrev pub stamped : Time → ℕ → Stamp
  stamped t n = record { text = format_legacy format parse t; nanos = n }

  pub stamp-inverted :
      (t : Time) (d : Db) {e : Db} {at : Stamp}
      → stamp normalize month_start next_month format parse t d ≡ (e, ok at)
      → (n : ℕ) × (at ≡ stamped t n) × (e ≡ d)
  stamp-inverted t d h = elim (Option-cases (to_unix_nano t)) [
    | inl none_such ↦ cc (rw none_such at h)
    | inr (n, e) ↦ (n, ground (arith, e), ground (arith, e))
  ]

  claim_at-inverted :
      (f : TxFaults) (id : ℕ) (expired : Bool) (at : Stamp) (d : Db) {e : Db} {found : Option Row}
      → claim_at normalize month_start next_month format parse f id expired at d ≡ (e, ok found)
      → (found ≡ find_open id d.reservations) × (e ≡ claim_rows id at expired d)
  claim_at-inverted f id expired at d h = (ground arith, ground arith)

  pub claim_reservation-inverted :
      (f : TxFaults) (id : ℕ) (now : Time) (expired : Bool) (d : Db) {e : Db} {found : Option Row}
      → claim_reservation normalize month_start next_month format parse f id now expired d
        ≡ (e, ok found)
      → (n : ℕ) × (found ≡ find_open id d.reservations)
        × (e ≡ claim_rows id (stamped now n) expired d)
  unfolding claim_reservation
  claim_reservation-inverted f id now expired d h = elim (Option-cases (to_unix_nano now)) [
    | inl none_such ↦ cc (rw none_such at h)
    | inr (n, e) ↦
        let (a, b) = claim_at-inverted f id expired (stamped now n) d (rw e at h) in (n, a, b)
  ]

  pub release_claimed-inverted :
      (f : TxFaults) (now : Time) (r : Row) (d : Db) {e : Db} {u : Unit {0}}
      → release_claimed normalize month_start next_month format parse f now (some r) d ≡ (e, ok u)
      → (at : Stamp) × (e ≡ close_windows r.backend r.account r.usage 0 at d)
  release_claimed-inverted f now r d h = elim (Option-cases (to_unix_nano now)) [
    | inl none_such ↦ cc (rw none_such at h)
    | inr (n, e) ↦ (stamped now n, ground (arith, e))
  ]

  pub settle_claimed-inverted :
      (f : TxFaults) (id : ℕ) (measured : ℤ) (now : Time) (r : Row) (d : Db) {e : Db} {u : Unit {0}}
      → settle_claimed normalize month_start next_month format parse f id measured now (some r) d
        ≡ (e, ok u)
      → (at : Stamp) × (e
          ≡ close_windows r.backend r.account r.usage
              (settled_usage normalize month_start next_month format parse measured r)
              at
              (measure_rows id
                (settled_usage normalize month_start next_month format parse measured r)
                d))
  settle_claimed-inverted f id measured now r d h = elim (Option-cases (to_unix_nano now)) [
    | inl none_such ↦ absurd (ground (arith, none_such))
    | inr (n, e) ↦ (stamped now n, ground (arith, e))
  ]

  released_by :
      (f : TxFaults) (id : ℕ) (now : Time) (n : ℕ) (d d1 e : Db) (u : Unit {0}) (found : Option Row)
      → format_legacy format parse now ≢ ""
      → IsBalanced d
      → found ≡ find_open id d.reservations
      → d1 ≡ claim_rows id (stamped now n) true d
      → release_claimed normalize month_start next_month format parse f now found d1 ≡ (e, ok u)
      → IsBalanced e
  released_by f id now n d d1 e u none text s o w h =
      subst IsBalanced
        (sym (claim_rows-absent id (stamped now n) true d (sym o))
          ∙ (sym w ∙ ap (λ (p : Db × Result (Unit {0})). p.0) h))
        s
  released_by f id now n d d1 e u (some r) text s o w h =
      let (at, c) = release_claimed-inverted f now r d1 h in
      subst IsBalanced (sym (c ∙ ap (close_windows r.backend r.account r.usage 0 at) w))
        (close-IsBalanced id r 0 true (stamped now n) at d text (sym o) (omega arith) s)

  -- The transaction of `Release` and `expireOne` keeps the books.
  pub release_tx-IsBalanced :
      (f : TxFaults) (id : ℕ) (now : Time) (d : Db)
      → format_legacy format parse now ≢ ""
      → IsBalanced d
      → IsBalanced (release_tx normalize month_start next_month format parse f id now d).0
  unfolding release_tx
  release_tx-IsBalanced f id now d text s = transaction-keeps IsBalanced f.begin _ d s (λ e u h.
      let (d1, found, c, k) = continue-inverted _ _ h in
      let (n, o, w) = claim_reservation-inverted f id now true d c in
      released_by f id now n d d1 e u found text s o w k)

  pub release-IsBalanced :
      (f : TxFaults) (id : ℕ) (now : Time) (d : Db)
      → format_legacy format parse now ≢ ""
      → IsBalanced d
      → IsBalanced (release normalize month_start next_month format parse f id now d).0
  unfolding release
  release-IsBalanced f id now d text s = elim (Bool-cases (id == 0)) [
    | inl zero ↦ rw zero s
    | inr real ↦ rw real (release_tx-IsBalanced f id now d text s)
  ]

  settled_by :
      (f : TxFaults) (id : ℕ) (measured : ℤ) (now : Time) (n : ℕ) (d d1 e : Db) (u : Unit {0})
      (found : Option Row)
      → format_legacy format parse now ≢ ""
      → ((r : Row)
          → find_open id d.reservations ≡ some r
          → settled_usage normalize month_start next_month format parse measured r ≤ r.usage)
      → IsBalanced d
      → found ≡ find_open id d.reservations
      → d1 ≡ claim_rows id (stamped now n) false d
      → settle_claimed normalize month_start next_month format parse f id measured now found d1
        ≡ (e, ok u)
      → IsBalanced e
  settled_by f id measured now n d d1 e u none text b s o w h =
      subst IsBalanced
        (sym (claim_rows-absent id (stamped now n) false d (sym o))
          ∙ (sym w ∙ ap (λ (p : Db × Result (Unit {0})). p.0) h))
        s
  settled_by f id measured now n d d1 e u (some r) text b s o w h =
      let m : ℕ = settled_usage normalize month_start next_month format parse measured r in
      let (at, c) = settle_claimed-inverted f id measured now r d1 h in
      subst IsBalanced
        (sym (c ∙ ap (λ x. close_windows r.backend r.account r.usage m at (measure_rows id m x)) w))
        (measured_closed id r m (stamped now n) at d
          (close-IsBalanced id r m false (stamped now n) at d text (sym o) (b r (sym o)) s))

  -- `Settle` keeps them if the settled usage is no more than the reserved one.
  pub settle-IsBalanced :
      (f : TxFaults) (id : ℕ) (measured : ℤ) (now : Time) (d : Db)
      → format_legacy format parse now ≢ ""
      → ((r : Row)
          → find_open id d.reservations ≡ some r
          → settled_usage normalize month_start next_month format parse measured r ≤ r.usage)
      → IsBalanced d
      → IsBalanced (settle normalize month_start next_month format parse f id measured now d).0
  unfolding settle
  settle-IsBalanced f id measured now d text b s = elim (Bool-cases (id == 0)) [
    | inl zero ↦ rw zero s
    | inr real ↦ rw real (
        transaction-keeps IsBalanced f.begin _ d s (λ e u h.
          let (d1, found, c, k) = continue-inverted _ _ h in
          let (n, o, w) = claim_reservation-inverted f id now false d c in
          settled_by f id measured now n d d1 e u found text b s o w k))
  ]
