-- ===== src/Quota/Operations/Tracked.antt =====
-- The books of internal/quota/quota.go: what the windows hold reserved is what the open reservations have
-- asked for.
use governator.Prelude.{
  All-map, All-both, ℕ, ◌∙◌, ◌+◌, ◌≤◌, ◌<◌, ◌≡◌, ◌≢◌, ◌⊎◌, refl, sym, subst, String, Bool, ◌&&◌,
  some, List, [], ◌∷◌, ◌++◌, map, All, All-imp, str_eq, eq_iff, ◌==◌, if◌then◌else◌, sum_of,
  sum_of-append, arith,
}
use governator.Quota.{Window, Row, Db}
use governator.Quota.Rows.{
  Stamp, is_key, is_unsettled, find_open, claim_row, claim_rows, close_window, close_windows,
  measure_rows,
}

abbrev pub open_term : String → String → Row → ℕ
open_term backend account r =
    if is_unsettled r && (str_eq backend r.backend && str_eq account r.account) then r.usage else 0

-- The usage of the open reservations of an account.
unfoldable pub open_usage : String → String → List Row → ℕ
open_usage backend account rows = sum_of (open_term backend account) rows

abbrev pub IsWithin : Window → Type 0
IsWithin w = (w.estimated_limit ≡ 0) ⊎ (w.measured_usage + w.reserved_usage ≤ w.estimated_limit)

-- The keys of both tables, the ids given out, and for each window: it holds what is open, and does
-- not exceed its limit.
pub record IsBalanced (d : Db) : Type 0 where
  pub keyed :
      (backend account window_type : String)
      → sum_of (λ w. if is_key backend account window_type w then 1 else 0) d.windows ≤ 1
  pub numbered : (id : ℕ) → sum_of (λ (r : Row). if r.id == id then 1 else 0) d.reservations ≤ 1
  pub below : All (λ (r : Row). r.id < d.next_id) d.reservations
  pub tracked :
      All
        (λ (w : Window). w.reserved_usage ≡ open_usage w.backend w.account d.reservations)
        d.windows
  pub within : All IsWithin d.windows

pub sum_of-map :
    {A B : Type 0} (g : B → ℕ) (f : A → B) (h : A → ℕ) (xs : List A)
    → ((x : A) → g (f x) ≡ h x)
    → sum_of g (map f xs) ≡ sum_of h xs
sum_of-map g f h [] e = refl
sum_of-map g f h (x ∷ xs) e = omega (arith, e x, sum_of-map g f h xs e)

-- No row of an id: claiming it changes nothing that is open.
open_usage-claim_absent :
    (backend account : String) (id : ℕ) (at : Stamp) (expired : Bool) (rows : List Row)
    → sum_of (λ (r : Row). if r.id == id then 1 else 0) rows ≡ 0
    → open_usage backend account (map (claim_row id at expired) rows)
      ≡ open_usage backend account rows
unfolding open_usage
open_usage-claim_absent backend account id at expired [] h = refl
open_usage-claim_absent backend account id at expired (r ∷ rows) h =
    ground (arith, open_usage-claim_absent backend account id at expired rows)

-- Claiming an open row takes its usage off what its account has open.
pub open_usage-claim :
    (backend account : String) (id : ℕ) (at : Stamp) (expired : Bool) (rows : List Row) (r : Row)
    → at.text ≢ ""
    → sum_of (λ (r : Row). if r.id == id then 1 else 0) rows ≤ 1
    → find_open id rows ≡ some r
    → open_usage backend account (map (claim_row id at expired) rows)
        + (if str_eq backend r.backend && str_eq account r.account then r.usage else 0)
      ≡ open_usage backend account rows
unfolding open_usage find_open
open_usage-claim backend account id at expired [] r n u h = cc h
open_usage-claim backend account id at expired (s ∷ rows) r n u h = ground (
  arith,
  eq_iff at.text "",
  open_usage-claim_absent backend account id at expired rows,
  open_usage-claim backend account id at expired rows r n,
)

abbrev pub close : ℕ → Row → ℕ → Bool → Stamp → Stamp → Db → Db
close id r measured expired claimed at d =
    close_windows r.backend r.account r.usage measured at (claim_rows id claimed expired d)

pub sum_of-absent :
    (id : ℕ) (rows : List Row)
    → All (λ (r : Row). r.id < id) rows
    → sum_of (λ (r : Row). if r.id == id then 1 else 0) rows ≡ 0
sum_of-absent id [] h = refl
sum_of-absent id (r ∷ rows) h = ground (arith, sum_of-absent id rows h.1)

pub open_usage-append :
    (backend account : String) (xs ys : List Row)
    → open_usage backend account (xs ++ ys)
      ≡ open_usage backend account xs + open_usage backend account ys
unfolding open_usage
open_usage-append backend account xs ys = sum_of-append (open_term backend account) xs ys

module _ (id : ℕ) (r : Row) (measured : ℕ) (expired : Bool) (claimed at : Stamp) (d : Db)
    (stamped : claimed.text ≢ "") (found : find_open id d.reservations ≡ some r)
    (bounded : measured ≤ r.usage) (s : IsBalanced d) where
  closed_usage :
      (backend account : String)
      → open_usage backend account (map (claim_row id claimed expired) d.reservations)
          + (if str_eq backend r.backend && str_eq account r.account then r.usage else 0)
        ≡ open_usage backend account d.reservations
  closed_usage backend account =
      open_usage-claim backend account id claimed expired d.reservations r stamped (s.numbered id)
        found

  -- Closing an open reservation takes it off the windows again, for a measured usage that is no greater.
  pub close-IsBalanced : IsBalanced (close id r measured expired claimed at d)
  unfolding close_windows claim_rows
  close-IsBalanced = record {
    keyed = λ b a t.
        subst (λ n. n ≤ 1)
          (sym (
            sum_of-map (λ w. if is_key b a t w then 1 else 0)
              (close_window r.backend r.account r.usage measured at)
              (λ w. if is_key b a t w then 1 else 0) d.windows (λ w. ground arith)))
          (s.keyed b a t);
    numbered = λ i.
        subst (λ n. n ≤ 1)
          (sym (
            sum_of-map (λ (x : Row). if x.id == i then 1 else 0) (claim_row id claimed expired)
              (λ x. if x.id == i then 1 else 0) d.reservations (λ x. ground arith)))
          (s.numbered i);
    below =
        All-map _ _ (claim_row id claimed expired) d.reservations (λ x h. ground (arith, h))
          s.below;
    tracked =
        All-map _ _ (close_window r.backend r.account r.usage measured at) d.windows
          (λ w h. ground (arith, h, closed_usage w.backend w.account)) s.tracked;
    within =
        All-map _ _ (close_window r.backend r.account r.usage measured at) d.windows
          (λ w h. ground (arith, h.0, h.1, closed_usage w.backend w.account))
          (All-both _ _ d.windows s.tracked s.within);
  }

pub measure-IsBalanced :
    (id measured : ℕ) (d : Db) → IsBalanced d → IsBalanced (measure_rows id measured d)
unfolding measure_rows open_usage
measure-IsBalanced id measured d s =
    let change : Row → Row =
      λ r. if r.id == id then record r { measured_usage = measured } else r in
    record {
      keyed = s.keyed;
      numbered = λ i.
          subst (λ n. n ≤ 1)
            (sym (
              sum_of-map (λ (x : Row). if x.id == i then 1 else 0) change
                (λ x. if x.id == i then 1 else 0) d.reservations (λ x. ground arith)))
            (s.numbered i);
      below = All-map _ _ change d.reservations (λ x h. ground (arith, h)) s.below;
      tracked =
          All-imp d.windows
            (λ w h.
              h
              ∙ sym (
                  sum_of-map (open_term w.backend w.account) change (open_term w.backend w.account)
                    d.reservations (λ x. ground arith)))
            s.tracked;
      within = s.within;
    }
