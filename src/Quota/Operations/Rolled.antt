-- ===== src/Quota/Operations/Rolled.antt =====
-- What a reservation that is older than the last reset of a window does to the window when
-- internal/quota/quota.go closes it.
use governator.Prelude.{
  All-map, ℕ, ◌+◌, ◌≤◌, ◌≡◌, ◌≢◌, ◌∙◌, sym, ap, subst, String, true, false, Option, some, List, All,
  eq_iff, ◌==◌, if◌then◌else◌, sum_of, arith,
}
use governator.Dbtime.{Time, format_legacy}
use governator.Quota.{Window, Row, Db}
use governator.Quota.Rows.{Stamp, is_of, find_open, claim_rows, close_window, close_windows}
use governator.Quota.Operations.{
  ok, TxFaults, claim_reservation, release_claimed, release_tx, release,
}
use governator.Quota.Operations.Tracked.{open_usage, open_usage-claim}
use governator.Quota.Operations.Kept.{
  continue-inverted, stamped, claim_reservation-inverted, release_claimed-inverted,
}
use governator.Quota.Operations.Closed.{transaction-inverted}

-- The window holds less than what is open, by some usage.
abbrev pub IsShortBy : ℕ → List Row → Window → Type 0
IsShortBy usage rows w = w.reserved_usage + usage ≡ open_usage w.backend w.account rows

module _ (normalize : String → String) (month_start next_month : Time → Time)
    (format : Time → String) (parse : String → Option Time) where
  release-inverted :
      (id : ℕ) (f : TxFaults) (now : Time) (d : Db) (r : Row) {e : Db} {u : Unit {0}}
      → id == 0 ≡ false
      → find_open id d.reservations ≡ some r
      → release normalize month_start next_month format parse f id now d ≡ (e, ok u)
      → (n : ℕ) × (at : Stamp) × (e
          ≡ close_windows r.backend r.account r.usage 0 at
              (claim_rows id (stamped normalize month_start next_month format parse now n) true d))
  unfolding release release_tx
  release-inverted id f now d r {e = e} {u = u} z o h =
      let (d1, found, a, k) =
        continue-inverted
          (claim_reservation normalize month_start next_month format parse f id now true d)
          (release_claimed normalize month_start next_month format parse f now)
          (transaction-inverted f.begin _ d (rw z at h)) in
      let (n, same, w) =
        claim_reservation-inverted normalize month_start next_month format parse f id now true d
          a in
      let (at, c) =
        release_claimed-inverted normalize month_start next_month format parse f now r d1 (
          subst
            (λ x.
              release_claimed normalize month_start next_month format parse f now x d1 ≡ (e, ok u))
            (same ∙ o) k) in
      (n, at, c ∙ ap (close_windows r.backend r.account r.usage 0 at) w)

  -- A window that `rolloverExpired` has set to 0 and that newer reservations have filled again holds less
  -- than what is open by the usage of the older one. If this usage is no more than what it holds, then
  -- after a `Release` of the older one, whose text of time is not empty and whose id is not 0, each
  -- window of the account is still short by that usage, though only newer ones are open.
  pub release-IsShortBy :
      (id : ℕ) (f : TxFaults) (now : Time) (d : Db) (r : Row) {e : Db}
      → format_legacy format parse now ≢ ""
      → id == 0 ≡ false
      → sum_of (λ (x : Row). if x.id == id then 1 else 0) d.reservations ≤ 1
      → find_open id d.reservations ≡ some r
      → All
          (λ (w : Window).
            is_of r.backend r.account w ≡ true
            → IsShortBy r.usage d.reservations w × (r.usage ≤ w.reserved_usage))
          d.windows
      → release normalize month_start next_month format parse f id now d ≡ (e, ok tt)
      → All
          (λ (w : Window). is_of r.backend r.account w ≡ true → IsShortBy r.usage e.reservations w)
          e.windows
  unfolding claim_rows close_windows
  release-IsShortBy id f now d r t z u o s h =
      let (n, at, same) = release-inverted id f now d r z o h in
      let claimed = stamped normalize month_start next_month format parse now n in
      subst
        (λ (x : Db).
          All
            (λ (w : Window).
              is_of r.backend r.account w ≡ true → IsShortBy r.usage x.reservations w)
            x.windows)
        (sym same)
        (All-map _ _ (close_window r.backend r.account r.usage 0 at) d.windows
          (λ w q k. ground (
            arith,
            q,
            k,
            open_usage-claim w.backend w.account id claimed true d.reservations r t u o,
            eq_iff w.backend r.backend,
            eq_iff w.account r.account,
            eq_iff r.backend w.backend,
            eq_iff r.account w.account,
          ))
          s)
