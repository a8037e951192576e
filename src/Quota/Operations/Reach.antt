-- ===== src/Quota/Operations/Reach.antt =====
-- The transactions of internal/quota/quota.go by any processes, in any order.
use governator.Prelude.{
  ℕ, ◌≤◌, ◌<◌, ◌≡◌, ◌≢◌, refl, String, true, Option, some, List, [], ◌∷◌, filter, All, All-imp,
  eq_iff, if◌then◌else◌, sum_of, arith, ℤ,
}
use governator.Dbtime.{Time, format_legacy}
use governator.Quota.{Window, Row, Db}
use governator.Quota.Rows.{Stamp, is_of, is_key, find_open, insert_by_type, sort_by_type}
use governator.Quota.Operations.{TxFaults, Faults, release_tx, settled_usage, settle, reserve_tx}
use governator.Quota.Operations.Tracked.{IsBalanced}
use governator.Quota.Operations.Kept.{release_tx-IsBalanced, settle-IsBalanced}
use governator.Quota.Operations.Booked.{types, reserve_tx-IsBalanced}

-- The windows that a reservation has read are those of the account, each once.
pub record IsRead (backend account : String) (ws : List Window) (d : Db) : Type 0 where
  pub once : (t : String) → types t ws ≤ 1
  pub covers :
      All (λ (w : Window). is_of backend account w ≡ true → 0 < types w.window_type ws) d.windows

types-insert_by_type :
    (t : String) (w : Window) (ws : List Window) → types t (insert_by_type w ws) ≡ types t (w ∷ ws)
unfolding insert_by_type
types-insert_by_type t w [] = refl
types-insert_by_type t w (v ∷ vs) = ground (arith, types-insert_by_type t w vs)

types-sort_by_type : (t : String) (ws : List Window) → types t (sort_by_type ws) ≡ types t ws
unfolding sort_by_type
types-sort_by_type t [] = refl
types-sort_by_type t (w ∷ ws) =
    omega (arith, types-insert_by_type t w (sort_by_type ws), types-sort_by_type t ws)

types-filter :
    (backend account t : String) (ws : List Window)
    → types t (filter (is_of backend account) ws)
      ≡ sum_of (λ w. if is_key backend account t w then 1 else 0) ws
types-filter backend account t [] = refl
types-filter backend account t (w ∷ ws) = ground (arith, types-filter backend account t ws)

own_key :
    (backend account : String) (ws : List Window)
    → All
        (λ (w : Window).
          is_of backend account w ≡ true
          → 0 < types w.window_type (filter (is_of backend account) ws))
        ws
own_key backend account [] = tt
own_key backend account (w ∷ ws) = (
  (λ h. ground (arith, h, eq_iff w.window_type w.window_type)),
  All-imp ws (λ v f h. ground (arith, f h)) (own_key backend account ws),
)

-- What the query of `windowsFor` reads from the same tables is so.
pub query-IsRead :
    (backend account : String) (d : Db)
    → IsBalanced d
    → IsRead backend account (sort_by_type (filter (is_of backend account) d.windows)) d
query-IsRead backend account d s =
    let read : List Window = filter (is_of backend account) d.windows in
    record {
      once = λ t. omega (
        arith,
        types-sort_by_type t read,
        types-filter backend account t d.windows,
        s.keyed backend account t,
      );
      covers =
          All-imp d.windows (λ w f h. omega (arith, types-sort_by_type w.window_type read, f h))
            (own_key backend account d.windows);
    }

module _ (normalize : String → String) (month_start next_month : Time → Time)
    (format : Time → String) (parse : String → Option Time) where
  -- A transaction of some process. The text of a time is not empty, and a settled usage is no more than
  -- the reserved one.
  pub data Step : Db → Db → Type 0 where
    reserving :
        {d : Db} (f : Faults) (backend account run_id : String) (usage : ℕ) (expires : Time)
        (at : Stamp) (ws : List Window)
        → IsRead backend account ws d
        → Step d
            (reserve_tx normalize month_start next_month format parse f backend account run_id usage
              expires at ws d).0
    releasing :
        {d : Db} (f : TxFaults) (id : ℕ) (now : Time)
        → format_legacy format parse now ≢ ""
        → Step d (release_tx normalize month_start next_month format parse f id now d).0
    settling :
        {d : Db} (f : TxFaults) (id : ℕ) (measured : ℤ) (now : Time)
        → format_legacy format parse now ≢ ""
        → ((r : Row)
            → find_open id d.reservations ≡ some r
            → settled_usage normalize month_start next_month format parse measured r ≤ r.usage)
        → Step d (settle normalize month_start next_month format parse f id measured now d).0

  pub data Reach (d : Db) : Db → Type 0 where
    here : Reach d d
    next : {e g : Db} → Reach d e → Step e g → Reach d g

  Step-IsBalanced : {d e : Db} → Step d e → IsBalanced d → IsBalanced e
  Step-IsBalanced (reserving {d} f backend account run_id usage expires at ws r) s =
      reserve_tx-IsBalanced normalize month_start next_month format parse backend account usage f
        run_id expires at ws d r.once r.covers s
  Step-IsBalanced (releasing {d} f id now t) s =
      release_tx-IsBalanced normalize month_start next_month format parse f id now d t s
  Step-IsBalanced (settling {d} f id measured now t b) s =
      settle-IsBalanced normalize month_start next_month format parse f id measured now d t b s

  -- However the transactions of any processes interleave, with failing statements or without, between two
  -- resets of the windows, where the text of a time is not empty and a settled usage is no more than
  -- the reserved one: if the keys and ids of both tables are unique, ids are below the next one,
  -- each window holds reserved what the open reservations of its account add up to, and no window
  -- exceeds its limit at the start, then so it is at the end.
  pub Reach-IsBalanced : {d e : Db} → Reach d e → IsBalanced d → IsBalanced e
  Reach-IsBalanced here s = s
  Reach-IsBalanced (next r t) s = Step-IsBalanced t (Reach-IsBalanced r s)

  pub Reach-trans : {d e g : Db} → Reach d e → Reach e g → Reach d g
  Reach-trans r here = r
  Reach-trans r (next q t) = next (Reach-trans r q) t
