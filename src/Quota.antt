-- ===== src/Quota.antt =====
-- internal/quota/quota.go: the windows of a provider's plan and the reservations against them. A usage is a
-- natural number of tokens, signed where the code compares it with zero, and a confidence one of
-- millionths. Times are those of internal/dbtime, in UTC.
pub mod Calendar
pub mod Rows
pub mod Actions
pub mod Operations
pub mod Windows
pub mod Sources
mod Tests
use governator.Prelude.{ℕ, String, Bool, List}

-- A row of `quota_windows`, the struct `Window`: the text columns of its times stand beside the
-- numeric ones.
pub record Window : Type 0 where
  pub backend : String
  pub account : String
  pub window_type : String
  pub window_started_at : String
  pub reset_at : String
  pub estimated_limit : ℕ
  pub measured_usage : ℕ
  pub reserved_usage : ℕ
  pub confidence : ℕ
  pub source : String
  pub updated_at : String
  pub window_started_unix_nano : ℕ
  pub reset_unix_nano : ℕ
  pub updated_unix_nano : ℕ

-- A row of `quota_reservations`. It is open as long as the text `settled_at` is empty.
pub record Row : Type 0 where
  pub id : ℕ
  pub run_id : String
  pub backend : String
  pub account : String
  pub usage : ℕ
  pub measured_usage : ℕ
  pub expired : Bool
  pub settled_at : String
  pub expires_unix_nano : ℕ
  pub created_unix_nano : ℕ
  pub settled_unix_nano : ℕ

-- The two tables, and the next value of AUTOINCREMENT.
pub record Db : Type 0 where
  pub windows : List Window
  pub reservations : List Row
  pub next_id : ℕ

pub data Error : Type 0 where
  database : String → Error
  time_out_of_range : Error
  corrupt_timestamp : String → Error
  no_headroom : String → ℕ → Error
  reset_hint_out_of_range : Error
