-- ===== src/Quota/Operations/Booked.antt =====
-- The transaction of `Reserve` in internal/quota/quota.go keeps the books.
use governator.Prelude.{
  All-map, All-both, ℕ, ◌+◌, ◌≤◌, ◌<◌, ◌≡◌, ◌∙◌, refl, sym, ap, subst, String, true, false, ◌&&◌,
  Option, List, [], ◌∷◌, map, All, All-append, All-imp, str_eq, eq_iff, ◌==◌, ltb, if◌then◌else◌,
  sum_of, sum_of-append, arith, Bool-cases, Option-cases, inl, inr,
}
use governator.Dbtime.{Time, to_unix_nano}
use governator.Quota.{Window, Row, Db}
use governator.Quota.Rows.{
  Stamp, is_of, is_key, has_room, reserve_window, reserves, new_row, insert_row,
}
use governator.Quota.Operations.{
  Result, ok, Faults, Reservation, reserve_one, reserve_each, insert_reserved, reserve_tx,
}
use governator.Quota.Operations.Tracked.{
  IsBalanced, IsWithin, open_usage, open_usage-append, sum_of-map, sum_of-absent,
}
use governator.Quota.Operations.Kept.{continue-inverted, transaction-keeps}

-- How many of some windows are of a type.
abbrev pub types : String → List Window → ℕ
types t ws = sum_of (λ (v : Window). if str_eq v.window_type t then 1 else 0) ws

key-absent :
    (backend account t : String) (usage : ℕ) (ws : List Window)
    → sum_of (λ w. if is_key backend account t w then 1 else 0) ws ≡ 0
    → (reserves backend account t usage ws ≡ false)
      × All (λ w. is_key backend account t w ≡ true → has_room usage w ≡ true) ws
key-absent backend account t usage [] h = (refl, tt)
key-absent backend account t usage (w ∷ ws) h =
    let (a, b) = key-absent backend account t usage ws (ground arith) in
    (ground arith, ((λ k. absurd (ground arith)), b))

-- If a key stands once and a window of this key has room, then each window of the key has.
key-has_room :
    (backend account t : String) (usage : ℕ) (ws : List Window)
    → sum_of (λ w. if is_key backend account t w then 1 else 0) ws ≤ 1
    → reserves backend account t usage ws ≡ true
    → All (λ w. is_key backend account t w ≡ true → has_room usage w ≡ true) ws
key-has_room backend account t usage [] u h = tt
key-has_room backend account t usage (w ∷ ws) u h = elim (Bool-cases (is_key backend account t w)) [
  | inl here ↦
      let (a, b) = key-absent backend account t usage ws (ground arith) in ((λ k. ground arith), b)
  | inr there ↦
      ((λ k. cc (k, there)), key-has_room backend account t usage ws (ground arith) (ground arith))
]

module _ (backend account : String) (usage : ℕ) where
  -- The books inside the transaction, with some windows still to come.
  record IsPartial (ws : List Window) (d : Db) : Type 0 where
    keyed : (b a t : String) → sum_of (λ w. if is_key b a t w then 1 else 0) d.windows ≤ 1
    tracked :
        All
          (λ (w : Window).
            w.reserved_usage
              + (if is_of backend account w && ltb 0 (types w.window_type ws) then usage else 0)
            ≡ open_usage w.backend w.account d.reservations
              + (if is_of backend account w then usage else 0))
          d.windows
    within : All IsWithin d.windows

  reserve_window-IsPartial :
      (at : Stamp) (v : Window) (ws : List Window) (d : Db)
      → types v.window_type (v ∷ ws) ≤ 1
      → reserves backend account v.window_type usage d.windows ≡ true
      → IsPartial (v ∷ ws) d
      → IsPartial ws (record d {
        windows = map (reserve_window backend account v.window_type usage at) d.windows;
      })
  reserve_window-IsPartial at v ws d u h p =
      let room =
        key-has_room backend account v.window_type usage d.windows
          (p.keyed backend account v.window_type) h in
      record {
        keyed = λ b a t.
            subst (λ n. n ≤ 1)
              (sym (
                sum_of-map (λ w. if is_key b a t w then 1 else 0)
                  (reserve_window backend account v.window_type usage at)
                  (λ w. if is_key b a t w then 1 else 0) d.windows (λ w. ground arith)))
              (p.keyed b a t);
        tracked =
            All-map _ _ (reserve_window backend account v.window_type usage at) d.windows
              (λ w q. ground (
                arith,
                q.0,
                q.1,
                eq_iff v.window_type w.window_type,
                eq_iff w.window_type v.window_type,
              ))
              (All-both _ _ d.windows room p.tracked);
        within =
            All-map _ _ (reserve_window backend account v.window_type usage at) d.windows
              (λ w q. ground (arith, q)) p.within;
      }

  start-IsPartial :
      (ws : List Window) (d : Db)
      → All (λ (w : Window). is_of backend account w ≡ true → 0 < types w.window_type ws) d.windows
      → IsBalanced d
      → IsPartial ws d
  start-IsPartial ws d c s = record {
    keyed = s.keyed;
    tracked =
        All-imp d.windows (λ w q. ground (arith, q.0, q.1)) (All-both _ _ d.windows c s.tracked);
    within = s.within;
  }

  insert_row-IsBalanced :
      (run_id : String) (expires created : ℕ) (d0 d : Db)
      → IsBalanced d0
      → d.reservations ≡ d0.reservations
      → d.next_id ≡ d0.next_id
      → IsPartial [] d
      → IsBalanced (insert_row run_id backend account usage expires created d)
  unfolding insert_row open_usage
  insert_row-IsBalanced run_id expires created d0 d s rows next p =
      let row = new_row d.next_id run_id backend account usage expires created in
      let below : All (λ (r : Row). r.id < d.next_id) d.reservations =
        subst (λ l. All (λ (r : Row). r.id < d.next_id) l) (sym rows)
          (subst (λ n. All (λ (r : Row). r.id < n) d0.reservations) (sym next) s.below) in
      record {
        keyed = p.keyed;
        numbered = λ id. ground (
          arith,
          s.numbered id,
          ap (sum_of (λ (r : Row). if r.id == id then 1 else 0)) rows,
          sum_of-absent d.next_id d.reservations below,
          sum_of-append (λ (r : Row). if r.id == id then 1 else 0) d.reservations (row ∷ []),
        );
        below =
            All-append _ d.reservations _ (All-imp d.reservations (λ r h. omega arith) below)
              (omega arith, tt);
        tracked =
            All-imp d.windows
              (λ w h.
                ground (arith, h, open_usage-append w.backend w.account d.reservations (row ∷ [])))
              p.tracked;
        within = p.within;
      }

module _ (normalize : String → String) (month_start next_month : Time → Time)
    (format : Time → String) (parse : String → Option Time) (backend account : String)
    (usage : ℕ) where
  pub reserve_one-inverted :
      (f : Option String) (at : Stamp) (v : Window) (d : Db) {e : Db} {u : Unit {0}}
      → reserve_one normalize month_start next_month format parse f backend account usage at v d
        ≡ (e, ok u)
      → (reserves backend account v.window_type usage d.windows ≡ true)
        × (e ≡ record d {
          windows = map (reserve_window backend account v.window_type usage at) d.windows;
        })
  reserve_one-inverted f at v d h = (ground arith, ground arith)

  reserve_each-IsPartial :
      (f : String → Option String) (at : Stamp) (ws : List Window) (d : Db) {e : Db} {u : Unit {0}}
      → ((t : String) → types t ws ≤ 1)
      → IsPartial backend account usage ws d
      → reserve_each normalize month_start next_month format parse f backend account usage at ws d
        ≡ (e, ok u)
      → IsPartial backend account usage [] e
        × (e.reservations ≡ d.reservations)
        × (e.next_id ≡ d.next_id)
  unfolding reserve_each
  reserve_each-IsPartial f at [] d n p h =
      let same : d ≡ _ = ap (λ (r : Db × Result (Unit {0})). r.0) h in
      (
        subst (IsPartial backend account usage []) same p,
        ap (λ (x : Db). x.reservations) (sym same),
        ap (λ (x : Db). x.next_id) (sym same),
      )
  reserve_each-IsPartial f at (v ∷ vs) d n p h =
      let (d1, u, one, rest) = continue-inverted _ _ h in
      let (room, e1) = reserve_one-inverted (f v.window_type) at v d one in
      let p1 : IsPartial backend account usage vs d1 =
        subst (IsPartial backend account usage vs) (sym e1)
          (reserve_window-IsPartial backend account usage at v vs d (n v.window_type) room p) in
      let (q, r, s) = reserve_each-IsPartial f at vs d1 (λ t. ground (arith, n t)) p1 rest in
      (q, r ∙ ap (λ (x : Db). x.reservations) e1, s ∙ ap (λ (x : Db). x.next_id) e1)

  pub insert_reserved-inverted :
      (f : Faults) (run_id : String) (expires : Time) (at : Stamp) (d : Db) {e : Db}
      {r : Option Reservation}
      → insert_reserved normalize month_start next_month format parse f backend account run_id usage
          expires at d
        ≡ (e, ok r)
      → (n : ℕ) × (e ≡ insert_row run_id backend account usage n at.nanos d)
  insert_reserved-inverted f run_id expires at d h = elim (Option-cases (to_unix_nano expires)) [
    | inl none_such ↦ cc (rw none_such at h)
    | inr (n, e) ↦ (n, ground (arith, e))
  ]

  -- The transaction of `Reserve` keeps the books if the windows that it has read are those of the account,
  -- each once.
  pub reserve_tx-IsBalanced :
      (f : Faults) (run_id : String) (expires : Time) (at : Stamp) (ws : List Window) (d : Db)
      → ((t : String) → types t ws ≤ 1)
      → All (λ (w : Window). is_of backend account w ≡ true → 0 < types w.window_type ws) d.windows
      → IsBalanced d
      → IsBalanced
          (reserve_tx normalize month_start next_month format parse f backend account run_id usage
            expires at ws d).0
  unfolding reserve_tx
  reserve_tx-IsBalanced f run_id expires at ws d n c s =
      transaction-keeps IsBalanced f.begin _ d s (λ e a h.
        let (d1, u, each, k) = continue-inverted _ _ h in
        let (p, r, i) =
          reserve_each-IsPartial f.update at ws d n (start-IsPartial backend account usage ws d c s)
            each in
        let (expires, same) = insert_reserved-inverted f run_id expires at d1 k in
        subst IsBalanced (sym same)
          (insert_row-IsBalanced backend account usage run_id expires at.nanos d d1 s r i p))
