-- ===== src/Quota/Operations/Expired.antt =====
-- `ExpireStale` and `ReleaseForRun` of internal/quota/quota.go make only the transactions of
-- Quota/Operations/Reach.
use governator.Prelude.{
  All-map, ℕ, ◌≡◌, ◌≢◌, ◌∙◌, refl, sym, ap, subst, String, true, false, Option, none, some, List,
  [], ◌∷◌, All, str_eq, ◌==◌, arith, Bool-cases, Option-cases, inl, inr,
}
use governator.Dbtime.{Time, to_unix_nano, format_legacy}
use governator.Quota.{Window, Row, Db}
use governator.Quota.Rows.{
  Stamp, is_due, close_window, close_windows, claim_rows, stale_ids, run_ids,
}
use governator.Quota.Operations.{
  Result, ok, err, M, continue, query, TxFaults, release_claimed, release_tx, release, release_each,
  release_for_run, expire_each, expire_stale,
}
use governator.Quota.Operations.Kept.{
  continue-inverted, transaction-keeps, claim_reservation-inverted, release_claimed-inverted,
}
use governator.Quota.Operations.Reach.{releasing, Reach, here, next, Reach-trans}

-- What holds of the tables through the first of two actions, and after both.
pub continue-keeps :
    {A B : Type 0} (P : Db → Type 0) (r : Db × Result A) (k : A → M B)
    → P r.0
    → ((e : Db) (a : A) → r ≡ (e, ok a) → P (k a e).0)
    → P (continue r k).0
continue-keeps P (e, ok a) k p h = h e a refl
continue-keeps P (e, err x) k p h = p

-- No window is to be reset at a time.
abbrev pub IsCurrent : ℕ → Db → Type 0
IsCurrent n d = All (λ (w : Window). is_due n w ≡ false) d.windows

pub first_of : {A : Type 0} {r : Db × Result A} {e : Db} {a : A} → r ≡ (e, ok a) → r.0 ≡ e
first_of h = ap (λ p. p.0) h

module _ (normalize : String → String) (month_start next_month : Time → Time)
    (format : Time → String) (parse : String → Option Time) where
  abbrev pub Transactions : Db → Db → Type 0
  Transactions = Reach normalize month_start next_month format parse

  release_each-Reach :
      (f : ℕ → TxFaults) (now : Time) (ids : List ℕ) (d : Db)
      → format_legacy format parse now ≢ ""
      → Transactions d (release_each normalize month_start next_month format parse f now ids d).0
  unfolding release_each release
  release_each-Reach f now [] d t = here
  release_each-Reach f now (id ∷ ids) d t =
      let once : Transactions d
          (release normalize month_start next_month format parse (f id) id now d).0 =
        elim (Bool-cases (id == 0)) [
          | inl zero ↦ rw zero here
          | inr real ↦ rw real (next here (releasing (f id) id now t))
        ] in
      continue-keeps (Transactions d) _ _ once (λ e u h.
        Reach-trans normalize month_start next_month format parse
          (subst (Transactions d) (ap (λ (r : Db × Result (Unit {0})). r.0) h) once)
          (release_each-Reach f now ids e t))

  -- `ReleaseForRun` makes only such transactions, whatever fails.
  pub release_for_run-Reach :
      (select : Option String) (f : ℕ → TxFaults) (run_id : String) (now : Time) (d : Db)
      → format_legacy format parse now ≢ ""
      → Transactions d
          (release_for_run normalize month_start next_month format parse select f run_id now d).0
  unfolding release_for_run
  release_for_run-Reach select f run_id now d t = elim (Bool-cases (str_eq run_id "")) [
    | inl nobody ↦ rw nobody here
    | inr somebody ↦ rw somebody (go select)
  ]
    where
      go :
          (s : Option String)
          → Transactions d
              (continue
                (query s (λ d. run_ids run_id d.reservations) d)
                (λ ids. release_each normalize month_start next_month format parse f now ids)).0
      go (some x) = here
      go none = release_each-Reach f now (run_ids run_id d.reservations) d t

  expire_each-Reach :
      (f : ℕ → TxFaults) (now : Time) (ids : List ℕ) (d : Db)
      → format_legacy format parse now ≢ ""
      → Transactions d (expire_each normalize month_start next_month format parse f now ids d).0
  unfolding expire_each
  expire_each-Reach f now [] d t = here
  expire_each-Reach f now (id ∷ ids) d t =
      let once : Transactions d
          (release_tx normalize month_start next_month format parse (f id) id now d).0 =
        next here (releasing (f id) id now t) in
      continue-keeps (Transactions d) _ _ once (λ e u h.
        Reach-trans normalize month_start next_month format parse
          (subst (Transactions d) (ap (λ (r : Db × Result (Unit {0})). r.0) h) once)
          (expire_each-Reach f now ids e t))

  release_claimed-IsCurrent :
      (n : ℕ) (f : TxFaults) (id : ℕ) (now : Time) (at : Stamp) (d d1 e : Db) (u : Unit {0})
      (found : Option Row)
      → IsCurrent n d
      → d1 ≡ claim_rows id at true d
      → release_claimed normalize month_start next_month format parse f now found d1 ≡ (e, ok u)
      → IsCurrent n e
  unfolding claim_rows close_windows
  release_claimed-IsCurrent n f id now at d d1 e u none c w h =
      subst (IsCurrent n) (sym w ∙ ap (λ (p : Db × Result (Unit {0})). p.0) h) c
  release_claimed-IsCurrent n f id now at d d1 e u (some r) c w h =
      let (at', eq) =
        release_claimed-inverted normalize month_start next_month format parse f now r d1 h in
      subst (IsCurrent n) (sym (eq ∙ ap (close_windows r.backend r.account r.usage 0 at') w)) (
        All-map _ _ (close_window r.backend r.account r.usage 0 at') d.windows
          (λ w q. ground (arith, q)) c)

  -- The transaction of an expiry leaves the resets of the windows.
  release_tx-IsCurrent :
      (n : ℕ) (f : TxFaults) (id : ℕ) (now : Time) (d : Db)
      → IsCurrent n d
      → IsCurrent n (release_tx normalize month_start next_month format parse f id now d).0
  unfolding release_tx
  release_tx-IsCurrent n f id now d c = transaction-keeps (IsCurrent n) f.begin _ d c (λ e u h.
      let (d1, found, a, k) = continue-inverted _ _ h in
      let (m, o, w) =
        claim_reservation-inverted normalize month_start next_month format parse f id now true d
          a in
      release_claimed-IsCurrent n f id now _ d d1 e u found c w k)

  expire_each-IsCurrent :
      (n : ℕ) (f : ℕ → TxFaults) (now : Time) (ids : List ℕ) (d : Db)
      → IsCurrent n d
      → IsCurrent n (expire_each normalize month_start next_month format parse f now ids d).0
  unfolding expire_each
  expire_each-IsCurrent n f now [] d c = c
  expire_each-IsCurrent n f now (id ∷ ids) d c =
      let once : IsCurrent n
          (release_tx normalize month_start next_month format parse (f id) id now d).0 =
        release_tx-IsCurrent n (f id) id now d c in
      continue-keeps (IsCurrent n) _ _ once (λ e u h.
        expire_each-IsCurrent n f now ids e
          (subst (IsCurrent n) (ap (λ (r : Db × Result (Unit {0})). r.0) h) once))

  -- `ExpireStale` makes only such transactions, and leaves the resets of the windows.
  pub expire_stale-Reach :
      (n : ℕ) (select : Option String) (f : ℕ → TxFaults) (now : Time) (d : Db)
      → format_legacy format parse now ≢ ""
      → IsCurrent n d
      → Transactions d (expire_stale normalize month_start next_month format parse select f now d).0
        × IsCurrent n (expire_stale normalize month_start next_month format parse select f now d).0
  unfolding expire_stale
  expire_stale-Reach n select f now d t c = elim (Option-cases (to_unix_nano now)) [
    | inl none_such ↦ rw none_such (here, c)
    | inr (m, e) ↦ elim (Option-cases select) [
      | inr (x, failing) ↦ rw (e, failing) (here, c)
      | inl fine ↦
          rw (e, fine)
            (
              expire_each-Reach f now (stale_ids m d.reservations) d t,
              expire_each-IsCurrent n f now (stale_ids m d.reservations) d c,
            )
    ]
  ]
