-- ===== src/Spend/Cap.antt =====
-- The daily cap of internal/spend/reservation.go under any interleaving of the statements of any
-- number of processes, which SQLite takes one after another.
use governator.Prelude.{
  ℕ, ◌+◌, ◌≤◌, String, ◌≡◌, refl, Bool, true, Option, none, some, List, [], ◌∷◌, arith, All, Memᴰ,
  ℤ, pos_part, Bool-cases, inl, inr, ap, sym, subst, mem-append_right,
}
use governator.Dbtime.{Time, to_unix_nano}
use governator.Spend.{Config, is_capped, is_halted, Run}
use governator.Spend.Rows.{
  Row, Ledger, committed, expire_rows, insert_row, insert_within, fits, settle_rows, release_rows,
  new_row, pending,
}
use governator.Spend.Reservation.{
  Error, reserved, GlobalReservation, Faults, expire_stale_reservations, reserve_global,
  reserve_capped, reserve_expired,
}
use governator.Spend.Booked.{
  booked, booked-expire_rows, booked-release_rows, booked-settle_rows, booked-insert_within,
  IsWithinEstimate, committed-insert_row,
}

-- A statement of some process under one cap; the rows of `runs` change in any way. A settlement
-- books no more than the estimate of its row.
pub data Step (cap : ℕ) : Ledger → Ledger → Type 0 where
  expire : {l : Ledger} (now : ℕ) → Step cap l (expire_rows now l)
  insert :
      {l : Ledger} (run_id day : String) (estimate expires created : ℕ)
      → Step cap l (insert_within cap run_id day estimate expires created l)
  settle :
      {l : Ledger} (id now : ℕ) (actual : ℤ) (available : Bool)
      → All (IsWithinEstimate id actual available) l.reservations
      → Step cap l (settle_rows id now actual available l)
  release : {l : Ledger} (selects : Row → Bool) (now : ℕ) → Step cap l (release_rows selects now l)
  change_runs : {l : Ledger} (runs : List Run) → Step cap l (record l { runs = runs })

pub data Reach (cap : ℕ) (l : Ledger) : Ledger → Type 0 where
  here : Reach cap l l
  next : {m n : Ledger} → Reach cap l m → Step cap m n → Reach cap l n

Step-booked :
    {cap : ℕ} {l m : Ledger} (d : String) → Step cap l m → booked l d ≤ cap → booked m d ≤ cap
unfolding booked
Step-booked {l = l} d (expire now) h = omega (arith, booked-expire_rows now l d)
Step-booked {cap} {l = l} d (insert run_id day estimate expires created) h =
    booked-insert_within cap run_id day estimate expires created l d h
Step-booked {l = l} d (settle id now actual available w) h =
    omega (arith, booked-settle_rows id now actual available l d w)
Step-booked {l = l} d (release selects now) h = omega (arith, booked-release_rows selects now l d)
Step-booked {l = l} d (change_runs runs) h = h

-- However the statements of any processes interleave, what a day has reserved and settled together
-- never exceeds the cap, from a ledger where it does not, as long as no run settles above its
-- estimate.
pub Reach-booked :
    {cap : ℕ} {l m : Ledger} (d : String) → Reach cap l m → booked l d ≤ cap → booked m d ≤ cap
Reach-booked d here h = h
Reach-booked d (next r s) h = Step-booked d s (Reach-booked d r h)

capped-granted :
    (cap : ℕ) (f : Faults) (run_id day : String) (estimate expires created : ℕ) (l : Ledger)
    {m : Ledger} {g : GlobalReservation}
    → reserve_capped cap f run_id day estimate expires created l ≡ (m, reserved g)
    → (committed m day ≤ cap)
      × (g ≡ record { id = l.next_id; run_id = run_id; day = day; estimated_usd = estimate })
      × (m ≡ insert_row run_id day estimate expires created l)
unfolding insert_within fits
capped-granted cap f run_id day estimate expires created l h =
    ground (arith, committed-insert_row run_id day estimate expires created l day)

-- The row that a reservation stands for.
abbrev pub IsGranted : ℕ → String → String → ℕ → Ledger → GlobalReservation → Type 0
IsGranted cap run_id day estimate m g =
    (committed m day ≤ cap)
    × (row : Row) × Memᴰ row m.reservations
    × (row.id ≡ g.id)
    × (row.run_id ≡ run_id)
    × (row.day ≡ day)
    × (row.estimated_usd ≡ estimate)
    × (row.status ≡ pending)

capped-IsGranted :
    (cap : ℕ) (f : Faults) (run_id day : String) (estimate expires created : ℕ) (l : Ledger)
    {m : Ledger} {g : GlobalReservation}
    → reserve_capped cap f run_id day estimate expires created l ≡ (m, reserved g)
    → IsGranted cap run_id day estimate m g
unfolding insert_row
capped-IsGranted cap f run_id day estimate expires created l h =
    let (c, eg, em) = capped-granted cap f run_id day estimate expires created l h in
    let row = new_row l.next_id run_id day estimate expires created in
    (
      c,
      row,
      subst (Memᴰ row) (sym (ap (λ (x : Ledger). x.reservations) em))
          (mem-append_right l.reservations (row ∷ []) (Memᴰ.head refl)),
      sym (ap (λ (x : GlobalReservation). x.id) eg),
      refl,
      refl,
      refl,
      refl,
    )

expired-IsGranted :
    (cfg : Config) (f : Faults) (run_id day : String) (estimate : ℕ) (expires created : Option ℕ)
    (res : Ledger × Option Error) {m : Ledger} {g : GlobalReservation}
    → is_capped cfg ≡ true
    → reserve_expired cfg f run_id day estimate expires created res ≡ (m, reserved g)
    → IsGranted (pos_part cfg.daily_cap_usd) run_id day estimate m g
expired-IsGranted cfg f run_id day estimate expires created (l, some e) c h = cc h
expired-IsGranted cfg f run_id day estimate none created (l, none) c h = cc h
expired-IsGranted cfg f run_id day estimate (some x) none (l, none) c h = cc h
expired-IsGranted cfg f run_id day estimate (some x) (some n) (l, none) c h =
    capped-IsGranted (pos_part cfg.daily_cap_usd) f run_id day estimate x n l (rw c at h)

-- When `ReserveGlobal` under a cap answers with a reservation, the pending row that it stands for is
-- in the ledger with the clamped estimate, and the finished runs with no reservation, the pending
-- estimates and the settled amounts of its day, this row included, add up to no more than the cap.
pub reserve_global-IsGranted :
    (day_of : Time → String) (cfg : Config) (present : Bool) (f : Faults) (run_id : String)
    (estimate : ℤ) (ttl : ℕ) (now : Time) (l : Ledger) {m : Ledger} {g : GlobalReservation}
    → is_capped cfg ≡ true
    → reserve_global day_of cfg present f run_id estimate ttl now l ≡ (m, reserved g)
    → IsGranted (pos_part cfg.daily_cap_usd) run_id (day_of now) (pos_part estimate) m g
unfolding reserve_global
reserve_global-IsGranted day_of cfg present f run_id estimate ttl now l c h =
    elim (Bool-cases (is_halted cfg present)) [
      | inl halted ↦ cc (rw halted at h)
      | inr clear ↦
          expired-IsGranted cfg f run_id (day_of now) (pos_part estimate) (to_unix_nano (now + ttl))
            (to_unix_nano now) (expire_stale_reservations now f.expire l) c (rw clear at h)
    ]
