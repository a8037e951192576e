-- ===== src/Quota/Windows.antt =====
-- The headroom that internal/quota/quota.go reports, and the listing of its windows. A fraction is exact.
pub mod Least
use governator.Prelude.{
  ℕ, ◌*◌, String, Bool, true, false, not, ◌&&◌, ◌||◌, Option, none, some, List, [], ◌∷◌, filter,
  str_eq, str_lt, ltb, leb, ◌==◌, if◌then◌else◌, ℤ, pos, pos_part, is_positive,
}
use governator.Dbtime.{Time, to_unix_nano, from_unix_nano, int64_lt, format_legacy}
use governator.Quota.{Window, Row, Db, Error, reset_hint_out_of_range}
use governator.Quota.Calendar.{window_start, next_reset, infer_window_type}
use governator.Quota.Rows.{Stamp, upsert_window, reseed, hint, remaining}
use governator.Quota.Operations.{
  M, Result, ok, err, pure, fail, continue, ◌>>=◌, ◌>>◌, exec, query, Faults, is_nil,
  normalize_account, stamp, rollover_expired, scan_window, windows_for,
}

pub record Fraction : Type 0 where
  pub num : ℕ
  pub den : ℕ

abbrev pub one : Fraction
one = record { num = 1; den = 1 }

abbrev pub is_less : Fraction → Fraction → Bool
is_less p q = ltb (p.num * q.den) (q.num * p.den)

abbrev pub clamp : Fraction → Fraction
clamp p = if ltb p.den p.num then one else p

pub record Snapshot : Type 0 where
  pub available : Bool
  pub headroom_pct : Fraction
  pub remaining_usage : ℕ
  pub estimated_limit : ℕ
  pub reset_at : Time
  pub confidence : ℕ
  pub window_type : String
  pub measured_usage : ℕ
  pub reserved_usage : ℕ

abbrev pub unavailable : Snapshot
unavailable = record {
  available = false;
  headroom_pct = record { num = 0; den = 1 };
  remaining_usage = 0;
  estimated_limit = 0;
  reset_at = 0;
  confidence = 0;
  window_type = "";
  measured_usage = 0;
  reserved_usage = 0;
}

abbrev pub headroom_of : Window → Fraction
headroom_of w =
    if ltb 0 w.estimated_limit
    then clamp (record { num = remaining w; den = w.estimated_limit })
    else one

abbrev pub snapshot_of : Window → Snapshot
snapshot_of w = record {
  available = true;
  headroom_pct = headroom_of w;
  remaining_usage = remaining w;
  estimated_limit = w.estimated_limit;
  reset_at = from_unix_nano w.reset_unix_nano;
  confidence = w.confidence;
  window_type = w.window_type;
  measured_usage = w.measured_usage;
  reserved_usage = w.reserved_usage;
}

-- The loop of `Headroom`.
unfoldable pub least : Snapshot → List Window → Snapshot
least best [] = best
least best (w ∷ ws) =
    least
      (if is_less (headroom_of w) best.headroom_pct || str_eq best.window_type ""
        then snapshot_of w
        else best)
      ws

-- `math.MaxFloat64`, the remaining usage before the first window, is never returned.
abbrev pub full : Snapshot
full = record unavailable { available = true; headroom_pct = one }

-- `EstimateUsage`; the usage of a run without a limit is of internal/spend.
abbrev pub estimate_usage : ℕ → ℤ → ℕ
estimate_usage unbounded max_tokens =
    if is_positive max_tokens then pos_part max_tokens else unbounded

-- `ORDER BY backend,account,window_type`.
abbrev pub is_before : Window → Window → Bool
is_before v w =
    if str_eq v.backend w.backend
    then if str_eq v.account w.account
      then str_lt v.window_type w.window_type
      else str_lt v.account w.account
    else str_lt v.backend w.backend

unfoldable pub insert_by_key : Window → List Window → List Window
insert_by_key w [] = w ∷ []
insert_by_key w (v ∷ vs) = if is_before v w then v ∷ insert_by_key w vs else w ∷ v ∷ vs

unfoldable pub sort_by_key : List Window → List Window
unfolding insert_by_key
sort_by_key [] = []
sort_by_key (w ∷ ws) = insert_by_key w (sort_by_key ws)

abbrev pub is_ok : {A : Type 0} → Result A → Bool
is_ok (ok a) = true
is_ok (err e) = false

module _ (normalize trim_space : String → String) (month_start next_month : Time → Time)
    (format : Time → String) (parse : String → Option Time)
    (parse_layout : String → String → Option Time) where
  -- `Headroom`.
  unfoldable pub headroom : Faults → String → String → Time → M Snapshot
  unfolding windows_for least
  headroom f backend account now = if str_eq (normalize backend) "" then pure unavailable else do
    ws ←
        windows_for normalize month_start next_month format parse f (normalize backend)
          (normalize_account normalize month_start next_month format parse account) now
    pure (if is_nil ws then unavailable else least full ws)

  -- `Windows`: a row whose numbers and texts differ is left out.
  unfoldable pub windows :
      Option String → (Window → Option String) → Option String → Time → M (List Window)
  unfolding rollover_expired sort_by_key scan_window
  windows due roll select now = do
    rollover_expired normalize month_start next_month format parse due roll now
    rows ← query select (λ d. sort_by_key d.windows)
    pure (
        filter
          (λ w.
            is_ok
              (scan_window normalize month_start next_month format parse w
                (record { windows = []; reservations = []; next_id = 0 })).1)
          rows)
