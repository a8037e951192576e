-- ===== src/Spend/Reserving.antt =====
-- What `ReserveGlobal` of internal/spend/reservation.go makes of the ledger under a cap.
use governator.Prelude.{
  ℕ, ◌+◌, String, ◌≡◌, refl, Bool, true, Option, none, some, ℤ, pos_part, Bool-cases, inl, inr,
}
use governator.Dbtime.{Time, to_unix_nano}
use governator.Spend.{Config, is_capped, is_halted}
use governator.Spend.Rows.{Ledger, expire_rows, insert_within}
use governator.Spend.Reservation.{
  expire_at, Faults, expire_stale_reservations, reserve_global, reserve_capped, reserve_expired,
}
use governator.Spend.Cap.{Reach, here, next, expire, insert}

-- What a reservation for a run under a cap may make of the ledger: nothing, the expiry of the rows
-- that are stale at its time, or after this expiry the insert of one row that the cap guards.
pub data IsReserving (cap : ℕ) (run_id day : String) (estimate : ℕ) (now expiry : Time) (l : Ledger)
    : Ledger → Type 0 where
  untouched : IsReserving cap run_id day estimate now expiry l l
  expired :
      (n : ℕ)
      → to_unix_nano now ≡ some n
      → IsReserving cap run_id day estimate now expiry l (expire_rows n l)
  inserted :
      (n expires : ℕ)
      → to_unix_nano now ≡ some n
      → to_unix_nano expiry ≡ some expires
      → IsReserving cap run_id day estimate now expiry l
          (insert_within cap run_id day estimate expires n (expire_rows n l))

IsReserving-Reach :
    {cap : ℕ} {run_id day : String} {estimate : ℕ} {now expiry : Time} {l m : Ledger}
    → IsReserving cap run_id day estimate now expiry l m
    → Reach cap l m
IsReserving-Reach untouched = here
IsReserving-Reach (expired n e) = next here (expire n)
IsReserving-Reach {run_id = run_id} {day = day} {estimate = estimate} (inserted n expires e x) =
    next (next here (expire n)) (insert run_id day estimate expires n)

module _ (cfg : Config) (f : Faults) (run_id day : String) (estimate : ℕ) (now expiry : Time)
    (l : Ledger) (capped : is_capped cfg ≡ true) where
  -- The part of `ReserveGlobal` under the cap after the expiry of stale rows.
  capped-IsReserving :
      (n expires : ℕ)
      → to_unix_nano now ≡ some n
      → to_unix_nano expiry ≡ some expires
      → IsReserving
          (pos_part cfg.daily_cap_usd)
          run_id
          day
          estimate
          now
          expiry
          l
          (reserve_capped
            (pos_part cfg.daily_cap_usd)
            f
            run_id
            day
            estimate
            expires
            n
            (expire_rows n l)).0
  capped-IsReserving n expires e x = go f.write
    where
      go :
          (w : Option String)
          → IsReserving
              (pos_part cfg.daily_cap_usd)
              run_id
              day
              estimate
              now
              expiry
              l
              (reserve_capped
                (pos_part cfg.daily_cap_usd)
                (record f { write = w })
                run_id
                day
                estimate
                expires
                n
                (expire_rows n l)).0
      go (some error) = expired n e
      go none = inserted n expires e x

  after_expiry-IsReserving :
      (n : ℕ) (o : Option ℕ)
      → to_unix_nano now ≡ some n
      → to_unix_nano expiry ≡ o
      → IsReserving
          (pos_part cfg.daily_cap_usd)
          run_id
          day
          estimate
          now
          expiry
          l
          (reserve_expired cfg f run_id day estimate o (some n) (expire_rows n l, none)).0
  after_expiry-IsReserving n none e x = expired n e
  after_expiry-IsReserving n (some expires) e x = rw capped (capped-IsReserving n expires e x)

  expired-IsReserving :
      (o : Option ℕ)
      → to_unix_nano now ≡ o
      → IsReserving
          (pos_part cfg.daily_cap_usd)
          run_id
          day
          estimate
          now
          expiry
          l
          (reserve_expired cfg f run_id day estimate
            (to_unix_nano expiry)
            o
            (expire_at o f.expire l)).0
  expired-IsReserving none e = untouched
  expired-IsReserving (some n) e = go f.expire
    where
      go :
          (w : Option String)
          → IsReserving
              (pos_part cfg.daily_cap_usd)
              run_id
              day
              estimate
              now
              expiry
              l
              (reserve_expired cfg f run_id day estimate
                (to_unix_nano expiry)
                (some n)
                (expire_at (some n) w l)).0
      go (some error) = untouched
      go none = after_expiry-IsReserving n (to_unix_nano expiry) e refl

-- Whatever statements fail, `ReserveGlobal` under a cap leaves the ledger, or expires the rows that are
-- stale at its time, or does this and then makes the insert that the cap guards, of one row for
-- its run with its day, its estimate, clamped at 0, and its expiry: it takes only steps of `Reach`.
pub reserve_global-IsReserving :
    (day_of : Time → String) (cfg : Config) (present : Bool) (f : Faults) (run_id : String)
    (estimate : ℤ) (ttl : ℕ) (now : Time) (l : Ledger)
    → is_capped cfg ≡ true
    → let m = (reserve_global day_of cfg present f run_id estimate ttl now l).0 in
      IsReserving
        (pos_part cfg.daily_cap_usd)
        run_id
        (day_of now)
        (pos_part estimate)
        now
        (now + ttl)
        l
        m
      × Reach (pos_part cfg.daily_cap_usd) l m
unfolding reserve_global expire_stale_reservations
reserve_global-IsReserving day_of cfg present f run_id estimate ttl now l c =
    let step =
      elim (Bool-cases (is_halted cfg present))
        as (λ _.
          IsReserving (pos_part cfg.daily_cap_usd) run_id (day_of now) (pos_part estimate) now
            (now + ttl) l (reserve_global day_of cfg present f run_id estimate ttl now l).0) [
              | inl halted ↦ rw halted untouched
              | inr clear ↦ rw clear (
                  expired-IsReserving cfg f run_id (day_of now) (pos_part estimate) now (now + ttl)
                    l c (to_unix_nano now) refl)
            ] in
    (step, IsReserving-Reach step)
