-- ===== src/Quota/Operations/Refined.antt =====
-- `Reserve` of internal/quota/quota.go makes only the transactions of Quota/Operations/Reach.
use governator.Prelude.{
  ℕ, ◌+◌, ◌≡◌, ◌≢◌, ◌∙◌, refl, sym, ap, subst, String, false, not, ◌||◌, Option, none, some, List,
  [], ◌∷◌, filter, All, str_eq, arith, Bool-cases, Option-cases, inl, inr, ℤ, pos_part, is_positive,
}
use governator.Dbtime.{Time, to_unix_nano, format_legacy}
use governator.Quota.{Window, Db}
use governator.Quota.Rows.{is_of, is_due, sort_by_type}
use governator.Quota.Operations.{
  ok, M, pure, continue, ◌>>=◌, ◌>>◌, query, Faults, expire_stale, roll_each, rollover_expired,
  scan_window, scan_each, windows_for, reserve_windows, reserve, normalize_account,
}
use governator.Quota.Operations.Tracked.{IsBalanced}
use governator.Quota.Operations.Kept.{stamped, continue-inverted}
use governator.Quota.Operations.Reach.{
  IsRead, query-IsRead, reserving, here, next, Reach-IsBalanced, Reach-trans,
}
use governator.Quota.Operations.Expired.{
  continue-keeps, first_of, IsCurrent, Transactions, expire_stale-Reach,
}

module _ (normalize : String → String) (month_start next_month : Time → Time)
    (format : Time → String) (parse : String → Option Time) where
  filter-current :
      (n : ℕ) (ws : List Window)
      → All (λ (w : Window). is_due n w ≡ false) ws
      → filter (is_due n) ws ≡ []
  filter-current n [] h = refl
  filter-current n (w ∷ ws) h = rw h.0 (filter-current n ws h.1)

  rollover_expired-same :
      (n : ℕ) (due : Option String) (roll : Window → Option String) (now : Time) (d : Db)
      → to_unix_nano now ≡ some n
      → IsCurrent n d
      → (rollover_expired normalize month_start next_month format parse due roll now d).0 ≡ d
  unfolding rollover_expired roll_each
  rollover_expired-same n (some x) roll now d e c = rw e refl
  rollover_expired-same n none roll now d e c = rw (e, filter-current n d.windows c) refl

  scan_each-same :
      (ws : List Window) (d : Db)
      → (scan_each normalize month_start next_month format parse ws d).0 ≡ d
  unfolding scan_each scan_window
  scan_each-same [] d = refl
  scan_each-same (w ∷ ws) d = ground (arith, scan_each-same ws d)

  -- What `windowsFor` does after its rollovers leaves the tables, and gives the windows of the account.
  scanned-same :
      (ws : List Window) (d : Db)
      → (continue (scan_each normalize month_start next_month format parse ws d) (λ u. pure ws)).0
        ≡ d
  scanned-same ws d =
      continue-keeps (λ x. x ≡ d) _ _ (scan_each-same ws d)
        (λ e u h. sym (first_of h) ∙ scan_each-same ws d)

  -- `windowsFor` after its rollovers.
  abbrev read_windows : Option String → String → String → M (List Window)
  read_windows select backend account = do
    ws ← query select (λ d. sort_by_type (filter (is_of backend account) d.windows))
    scan_each normalize month_start next_month format parse ws
    pure ws

  read_windows-same :
      (select : Option String) (backend account : String) (d : Db)
      → (read_windows select backend account d).0 ≡ d
  read_windows-same none backend account d =
      scanned-same (sort_by_type (filter (is_of backend account) d.windows)) d
  read_windows-same (some x) backend account d = refl

  read_windows-read :
      (select : Option String) (backend account : String) (d : Db) {e : Db} {ws : List Window}
      → read_windows select backend account d ≡ (e, ok ws)
      → ws ≡ sort_by_type (filter (is_of backend account) d.windows)
  read_windows-read none backend account d h =
      let (e, u, s, last) =
        continue-inverted
          (scan_each normalize month_start next_month format parse
            (sort_by_type (filter (is_of backend account) d.windows)) d)
          (λ u. pure (sort_by_type (filter (is_of backend account) d.windows))) h in
      cc last
  read_windows-read (some x) backend account d h = cc h

  windows_for-same :
      (n : ℕ) (f : Faults) (backend account : String) (now : Time) (d : Db)
      → to_unix_nano now ≡ some n
      → IsCurrent n d
      → (windows_for normalize month_start next_month format parse f backend account now d).0 ≡ d
  unfolding windows_for
  windows_for-same n f backend account now d m c =
      let rolled = rollover_expired-same n f.due f.roll now d m c in
      continue-keeps (λ x. x ≡ d)
        (rollover_expired normalize month_start next_month format parse f.due f.roll now d)
        (λ u. read_windows f.select backend account) rolled
        (λ g u h. read_windows-same f.select backend account g ∙ (sym (first_of h) ∙ rolled))

  windows_for-read :
      (n : ℕ) (f : Faults) (backend account : String) (now : Time) (d : Db) {e : Db}
      {ws : List Window}
      → to_unix_nano now ≡ some n
      → IsCurrent n d
      → windows_for normalize month_start next_month format parse f backend account now d
        ≡ (e, ok ws)
      → ws ≡ sort_by_type (filter (is_of backend account) d.windows)
  unfolding windows_for
  windows_for-read n f backend account now d m c h =
      let (g, u, rolled, k) =
        continue-inverted
          (rollover_expired normalize month_start next_month format parse f.due f.roll now d)
          (λ u. read_windows f.select backend account) h in
      read_windows-read f.select backend account g k
      ∙ ap (λ (x : Db). sort_by_type (filter (is_of backend account) x.windows))
          (sym (first_of rolled) ∙ rollover_expired-same n f.due f.roll now d m c)

  reserve_windows-Reach :
      (f : Faults) (backend account run_id : String) (usage ttl : ℕ) (now : Time) (ws : List Window)
      (d : Db)
      → IsRead backend account ws d
      → Transactions normalize month_start next_month format parse d
          (reserve_windows normalize month_start next_month format parse f backend account run_id
            usage ttl now ws d).0
  reserve_windows-Reach f backend account run_id usage ttl now [] d r = here
  reserve_windows-Reach f backend account run_id usage ttl now (w ∷ ws) d r =
      elim (Option-cases (to_unix_nano now)) [
        | inl none_such ↦ rw none_such here
        | inr (n, e) ↦ rw e (
            next here (
              reserving f backend account run_id usage (now + ttl)
                (stamped normalize month_start next_month format parse now n) (w ∷ ws) r))
      ]

  after_expiry :
      (n : ℕ) (f : Faults) (backend account run_id : String) (usage ttl : ℕ) (now : Time) (d : Db)
      → to_unix_nano now ≡ some n
      → IsCurrent n d
      → IsBalanced d
      → Transactions normalize month_start next_month format parse d
          (continue
            (windows_for normalize month_start next_month format parse f backend account now d)
            (reserve_windows normalize month_start next_month format parse f backend account run_id
              usage ttl now)).0
  after_expiry n f backend account run_id usage ttl now d m c s =
      let same = windows_for-same n f backend account now d m c in
      continue-keeps (Transactions normalize month_start next_month format parse d)
        (windows_for normalize month_start next_month format parse f backend account now d)
        (reserve_windows normalize month_start next_month format parse f backend account run_id
          usage ttl now)
        (subst (Transactions normalize month_start next_month format parse d) (sym same) here)
        (λ e ws h.
          let e_d : e ≡ d = sym (first_of h) ∙ same in
          subst
            (λ x.
              Transactions normalize month_start next_month format parse d
                (reserve_windows normalize month_start next_month format parse f backend account
                  run_id usage ttl now ws x).0)
            (sym e_d)
            (reserve_windows-Reach f backend account run_id usage ttl now ws d (
              subst (λ l. IsRead backend account l d)
                (sym (windows_for-read n f backend account now d m c h))
                (query-IsRead backend account d s))))

  -- If no window is to be reset at the time of a `Reserve`, the text of the time is not empty and the books
  -- are in order, then `Reserve` makes only transactions of `Step`, whatever fails and whatever
  -- it expires: its reads change nothing, and are what its own transaction needs.
  pub reserve-Reach :
      (n : ℕ) (f : Faults) (backend account run_id : String) (usage : ℤ) (ttl : ℕ) (now : Time)
      (d : Db)
      → format_legacy format parse now ≢ ""
      → to_unix_nano now ≡ some n
      → IsCurrent n d
      → IsBalanced d
      → Transactions normalize month_start next_month format parse d
          (reserve normalize month_start next_month format parse f backend account run_id usage ttl
            now d).0
  unfolding reserve
  reserve-Reach n f backend account run_id usage ttl now d t m c s =
      let b = normalize backend in
      let a = normalize_account normalize month_start next_month format parse account in
      let (expired, current) =
        expire_stale-Reach normalize month_start next_month format parse n f.stale f.expire now d t
          c in
      elim (Bool-cases (str_eq (normalize backend) "" || not (is_positive usage))) [
        | inl nothing ↦ rw nothing here
        | inr wanted ↦ rw wanted (
            continue-keeps (Transactions normalize month_start next_month format parse d)
              (expire_stale normalize month_start next_month format parse f.stale f.expire now d)
              (λ u.
                windows_for normalize month_start next_month format parse f b a now
                >>= reserve_windows normalize month_start next_month format parse f b a run_id
                    (pos_part usage) ttl now)
              expired
              (λ e u h.
                Reach-trans normalize month_start next_month format parse
                  (subst (Transactions normalize month_start next_month format parse d) (first_of h)
                    expired)
                  (after_expiry n f b a run_id (pos_part usage) ttl now e m
                    (subst (IsCurrent n) (first_of h) current)
                    (Reach-IsBalanced normalize month_start next_month format parse
                      (subst (Transactions normalize month_start next_month format parse d)
                        (first_of h) expired)
                      s))))
      ]
