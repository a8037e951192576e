-- ===== src/Quota/Sources.antt =====
-- Where the windows of internal/quota/quota.go come from, the configuration and the hints of a provider,
-- and the next reset that they tell.
use governator.Prelude.{
  ℕ, String, Bool, not, ◌&&◌, ◌||◌, Option, none, some, List, [], ◌∷◌, str_eq, ltb, leb, ◌==◌,
  if◌then◌else◌, ℤ, pos_part, is_positive,
}
use governator.Dbtime.{Time, to_unix_nano, int64_lt, format_legacy}
use governator.Quota.{Window, Db, reset_hint_out_of_range}
use governator.Quota.Calendar.{window_start, next_reset, infer_window_type}
use governator.Quota.Rows.{Stamp, upsert_window, reseed, hint}
use governator.Quota.Operations.{M, pure, fail, ◌>>=◌, ◌>>◌, exec, normalize_account, stamp}

-- A window of `cfg.Quotas`.
pub record QuotaConfig : Type 0 where
  pub backend : String
  pub account : String
  pub window_type : String
  pub window_started_at : String
  pub reset_at : String
  pub estimated_limit : ℤ
  pub confidence : ℤ

abbrev pub confidence_of : ℤ → ℕ
confidence_of c =
    if not (is_positive c) then 600000 else if ltb 1000000 (pos_part c) then 1000000 else pos_part c

-- The layouts of `parseTimeOrZero`, in their order.
abbrev pub layouts : List String
layouts =
    "2006-01-02T15:04:05.999999999Z07:00" ∷ "2006-01-02T15:04:05Z07:00" ∷ "2006-01-02 15:04:05"
    ∷ "2006-01-02" ∷ []

unfoldable pub parse_first : (String → String → Option Time) → List String → String → Time
parse_first parse_layout [] s = 0
parse_first parse_layout (l ∷ ls) s = elim (parse_layout l s) [
  | some t ↦ t
  | none ↦ parse_first parse_layout ls s
]

-- `parseTimeOrZero`.
abbrev pub parse_time_or_zero : (String → String) → (String → String → Option Time) → String → Time
unfolding parse_first
parse_time_or_zero trim_space parse_layout s =
    if str_eq (trim_space s) "" then 0 else parse_first parse_layout layouts (trim_space s)

-- The row with the least reset time of those that are reset after a time.
abbrev pub sooner : Window → Option Window → Option Window
sooner w none = some w
sooner w (some v) = if int64_lt v.reset_unix_nano w.reset_unix_nano then some v else some w

unfoldable pub next_window : String → ℕ → List Window → Option Window
next_window backend now [] = none
next_window backend now (w ∷ ws) =
    if str_eq w.backend backend && int64_lt now w.reset_unix_nano
    then sooner w (next_window backend now ws)
    else next_window backend now ws

module _ (normalize trim_space : String → String) (month_start next_month : Time → Time)
    (format : Time → String) (parse : String → Option Time)
    (parse_layout : String → String → Option Time) where
  abbrev pub or_text : String → String → String
  or_text s default = if str_eq s "" then default else s

  abbrev pub or_time : Bool → Time → Time → Time
  or_time missing t computed = if missing then computed else t

  -- The window that `SeedFromConfig` writes for an entry.
  abbrev pub seeded : QuotaConfig → String → Stamp → Stamp → Stamp → Window
  seeded q window_type start_at reset_at at = record {
    backend = normalize q.backend;
    account = normalize_account normalize month_start next_month format parse q.account;
    window_type = window_type;
    window_started_at = start_at.text;
    reset_at = reset_at.text;
    estimated_limit = pos_part q.estimated_limit;
    measured_usage = 0;
    reserved_usage = 0;
    confidence = confidence_of q.confidence;
    source = "config";
    updated_at = at.text;
    window_started_unix_nano = start_at.nanos;
    reset_unix_nano = reset_at.nanos;
    updated_unix_nano = at.nanos;
  }

  abbrev pub seed_times : Option String → QuotaConfig → String → Time → Time → Time → M (Unit {0})
  seed_times fault q window_type started reset now = do
    start_at ← stamp normalize month_start next_month format parse started
    reset_at ← stamp normalize month_start next_month format parse reset
    at ← stamp normalize month_start next_month format parse now
    exec fault (λ d. record d {
      windows =
          upsert_window (seeded q window_type start_at reset_at at)
            (reseed (seeded q window_type start_at reset_at at)) d.windows;
    })

  abbrev pub seed_one : Option String → QuotaConfig → Time → M (Unit {0})
  seed_one fault q now =
      if str_eq (normalize q.backend) "" || not (is_positive q.estimated_limit)
      then pure tt
      else let window_type : String = or_text (normalize q.window_type) "daily" in
        let started : Time = parse_time_or_zero trim_space parse_layout q.window_started_at in
        let reset : Time = parse_time_or_zero trim_space parse_layout q.reset_at in
        seed_times fault q window_type
          (or_time (started == 0) started
            (window_start normalize month_start next_month window_type now))
          (or_time (reset == 0 || leb reset now) reset
            (next_reset normalize month_start next_month window_type now))
          now

  -- `SeedFromConfig`.
  unfoldable pub seed_from_config :
      (QuotaConfig → Option String) → Time → List QuotaConfig → M (Unit {0})
  unfolding window_start next_reset upsert_window parse_first
  seed_from_config f now [] = pure tt
  seed_from_config f now (q ∷ qs) = do seed_one (f q) q now; seed_from_config f now qs

  abbrev pub hinted : String → String → Time → Time → Stamp → Stamp → Window
  hinted backend account reset now reset_at at = record {
    backend = backend;
    account = account;
    window_type = infer_window_type now reset;
    window_started_at = at.text;
    reset_at = reset_at.text;
    estimated_limit = 0;
    measured_usage = 0;
    reserved_usage = 0;
    confidence = 900000;
    source = "error_hint";
    updated_at = at.text;
    window_started_unix_nano = at.nanos;
    reset_unix_nano = reset_at.nanos;
    updated_unix_nano = at.nanos;
  }

  abbrev pub hint_at : Option String → String → String → Time → Time → Option ℕ → M (Unit {0})
  hint_at fault backend account reset now none = fail reset_hint_out_of_range
  hint_at fault backend account reset now (some n) = do
    at ← stamp normalize month_start next_month format parse now
    exec fault (λ d. record d {
      windows =
          upsert_window
            (hinted backend account reset now
              (record { text = format_legacy format parse reset; nanos = n }) at)
            (hint (
              hinted backend account reset now
                (record { text = format_legacy format parse reset; nanos = n }) at))
            d.windows;
    })

  -- `ApplyResetHint`.
  unfoldable pub apply_reset_hint : Option String → String → String → Time → Time → M (Unit {0})
  unfolding upsert_window infer_window_type
  apply_reset_hint fault backend account reset now =
      if str_eq (normalize backend) "" || (reset == 0 || leb reset now)
      then pure tt
      else hint_at fault (normalize backend)
          (normalize_account normalize month_start next_month format parse account) reset now
          (to_unix_nano reset)

  abbrev pub reset_of : Option Window → Time
  reset_of none = 0
  reset_of (some w) = parse_time_or_zero trim_space parse_layout w.reset_at

  abbrev pub next_reset_at : Option String → String → Option ℕ → Db → Time
  next_reset_at fault backend none d = 0
  next_reset_at (some e) backend (some now) d = 0
  next_reset_at none backend (some now) d = reset_of (next_window backend now d.windows)

  -- `NextReset`.
  unfoldable pub next_reset_time : Option String → String → Time → Db → Time
  unfolding next_window parse_first
  next_reset_time fault backend now d = next_reset_at fault (normalize backend) (to_unix_nano now) d
