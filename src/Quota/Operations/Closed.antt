-- ===== src/Quota/Operations/Closed.antt =====
-- A reservation of internal/quota/quota.go is closed once.
use governator.Prelude.{
  ℕ, ◌<◌, ◌≡◌, ◌≢◌, ◌∙◌, ◌⊎◌, inl, inr, refl, sym, ap, subst, String, true, false, Option, none,
  some, ◌==◌, ℤ, Bool-cases,
}
use governator.Dbtime.{Time, format_legacy}
use governator.Quota.{Db}
use governator.Quota.Rows.{find_open}
use governator.Quota.Operations.{
  Result, ok, err, M, rolled_back, transaction, TxFaults, claim_reservation, release_claimed,
  release_tx, release, settle_claimed, settle,
}
use governator.Quota.Operations.Kept.{
  continue-inverted, transaction-keeps, stamped, claim_rows-absent, claim_reservation-inverted,
}
use governator.Quota.Operations.Reach.{Reach}
use governator.Quota.Operations.Final.{
  IsClosed, claim_rows-closes, release_claimed-IsClosed, settle_claimed-IsClosed, Reach-IsClosed,
}

pub transaction-inverted :
    {A : Type 0} (f : Option String) (body : M A) (d : Db) {e : Db} {a : A}
    → transaction f body d ≡ (e, ok a)
    → body d ≡ (e, ok a)
transaction-inverted (some x) body d h = cc h
transaction-inverted none body d h = go d (body d) h
  where
    go :
        {A : Type 0} (d : Db) {e : Db} {a : A} (r : Db × Result A)
        → rolled_back d r ≡ (e, ok a)
        → r ≡ (e, ok a)
    go d (g, ok b) h = h
    go d (g, err x) h = cc h

module _ (normalize : String → String) (month_start next_month : Time → Time)
    (format : Time → String) (parse : String → Option Time) where
  release_tx-same :
      (id : ℕ) (f : TxFaults) (now : Time) (d : Db)
      → find_open id d.reservations ≡ none
      → (release_tx normalize month_start next_month format parse f id now d).0 ≡ d
  unfolding release_tx
  release_tx-same id f now d c =
      transaction-keeps (λ x. x ≡ d) f.begin _ d refl
        (λ e u h.
          let (d1, found, a, k) = continue-inverted _ _ h in
          let (n, o, w) =
            claim_reservation-inverted normalize month_start next_month format parse f id now true d
              a in
          ap (λ (r : Db × Result (Unit {0})). r.0)
            (sym k
              ∙ ap (λ x. release_claimed normalize month_start next_month format parse f now x d1)
                  (o ∙ c))
          ∙ (w
              ∙ claim_rows-absent id (stamped normalize month_start next_month format parse now n)
                  true d c))

  release-same :
      (id : ℕ) (f : TxFaults) (now : Time) (d : Db)
      → find_open id d.reservations ≡ none
      → (release normalize month_start next_month format parse f id now d).0 ≡ d
  unfolding release
  release-same id f now d c = elim (Bool-cases (id == 0)) [
    | inl zero ↦ rw zero refl
    | inr real ↦ rw real (release_tx-same id f now d c)
  ]

  settle-same :
      (id : ℕ) (f : TxFaults) (measured : ℤ) (now : Time) (d : Db)
      → find_open id d.reservations ≡ none
      → (settle normalize month_start next_month format parse f id measured now d).0 ≡ d
  unfolding settle
  settle-same id f measured now d c = elim (Bool-cases (id == 0)) [
    | inl zero ↦ rw zero refl
    | inr real ↦ rw real (
        transaction-keeps (λ x. x ≡ d) f.begin _ d refl
          (λ e u h.
            let (d1, found, a, k) = continue-inverted _ _ h in
            let (n, o, w) =
              claim_reservation-inverted normalize month_start next_month format parse f id now
                false d a in
            ap (λ (r : Db × Result (Unit {0})). r.0)
              (sym k
                ∙ ap
                    (λ x.
                      settle_claimed normalize month_start next_month format parse f id measured now
                        x d1)
                    (o ∙ c))
            ∙ (w
                ∙ claim_rows-absent id (stamped normalize month_start next_month format parse now n)
                    false d c)))
  ]

  release-closes :
      (id : ℕ) (f : TxFaults) (now : Time) (d : Db) {e : Db} {u : Unit {0}}
      → format_legacy format parse now ≢ ""
      → id == 0 ≡ false
      → id < d.next_id
      → release normalize month_start next_month format parse f id now d ≡ (e, ok u)
      → IsClosed id e
  unfolding release release_tx
  release-closes id f now d t z b h =
      let (d1, found, a, k) =
        continue-inverted
          (claim_reservation normalize month_start next_month format parse f id now true d)
          (release_claimed normalize month_start next_month format parse f now)
          (transaction-inverted f.begin _ d (rw z at h)) in
      let (n, o, w) =
        claim_reservation-inverted normalize month_start next_month format parse f id now true d
          a in
      release_claimed-IsClosed normalize month_start next_month format parse id f now found d1 _ _
        (subst (IsClosed id) (sym w) (
          claim_rows-closes id (stamped normalize month_start next_month format parse now n) true d
            t b))
        k

  settle-closes :
      (id : ℕ) (f : TxFaults) (measured : ℤ) (now : Time) (d : Db) {e : Db} {u : Unit {0}}
      → format_legacy format parse now ≢ ""
      → id == 0 ≡ false
      → id < d.next_id
      → settle normalize month_start next_month format parse f id measured now d ≡ (e, ok u)
      → IsClosed id e
  unfolding settle
  settle-closes id f measured now d t z b h =
      let (d1, found, a, k) =
        continue-inverted
          (claim_reservation normalize month_start next_month format parse f id now false d)
          (settle_claimed normalize month_start next_month format parse f id measured now)
          (transaction-inverted f.begin _ d (rw z at h)) in
      let (n, o, w) =
        claim_reservation-inverted normalize month_start next_month format parse f id now false d
          a in
      settle_claimed-IsClosed normalize month_start next_month format parse id f id measured now
        found d1 _ _
        (subst (IsClosed id) (sym w) (
          claim_rows-closes id (stamped normalize month_start next_month format parse now n) false d
            t b))
        k

  -- If a `Settle` or a `Release` of an id that has been given out and is not 0 returns no error, and the text
  -- of its time is not empty, then after any further transactions of `Step` a `Release` or a
  -- `Settle` of this id leaves the tables as they are.
  pub closed-final :
      (id : ℕ) (f : TxFaults) (measured : ℤ) (now : Time) (d : Db) {e g : Db}
      → format_legacy format parse now ≢ ""
      → id == 0 ≡ false
      → id < d.next_id
      → (settle normalize month_start next_month format parse f id measured now d ≡ (e, ok tt))
        ⊎ (release normalize month_start next_month format parse f id now d ≡ (e, ok tt))
      → Reach normalize month_start next_month format parse e g
      → (again : TxFaults) (usage : ℤ) (later : Time)
      → ((release normalize month_start next_month format parse again id later g).0 ≡ g)
        × ((settle normalize month_start next_month format parse again id usage later g).0 ≡ g)
  closed-final id f measured now d {e = e} t z b h r again usage later =
      let c : IsClosed id e = elim h [
        | inl settled ↦ settle-closes id f measured now d t z b settled
        | inr released ↦ release-closes id f now d t z b released
      ] in
      let none_open = (Reach-IsClosed normalize month_start next_month format parse id r c).1 in
      (release-same id again later _ none_open, settle-same id again usage later _ none_open)
