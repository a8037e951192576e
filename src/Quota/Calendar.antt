-- ===== src/Quota/Calendar.antt =====
-- `windowStart`, `nextReset` and `inferWindowType` of internal/quota/quota.go. The days and weeks of UTC are
-- counted from Go's zero time, the start of a Monday; the first instants of a month and of the
-- month after it, which the package `time` computes, are parameters.
use governator.Prelude.{
  ℕ, zero, suc, ◌+◌, ◌-◌, ◌*◌, ◌/◌, ◌≤◌, ◌<◌, String, str_eq, leb, if◌then◌else◌, arith, Bool-cases,
  inl, inr,
}
use governator.Dbtime.{Time}

abbrev pub hour : ℕ
hour = 3600 * 1000000000

abbrev pub day : ℕ
day = 24 * hour

-- `for !start.After(now)`, which adds five hours each time.
unfoldable pub advance : ℕ → Time → Time → Time
advance zero start now = start
advance (suc fuel) start now =
    let later = advance fuel (start + 5 * hour) now in if leb start now then later else start

-- Two rounds are enough for a start no more than ten hours ago.
advance-lt : (start now : Time) → start ≤ now → now < start + 10 * hour → now < advance 2 start now
unfolding advance
advance-lt start now h k = ground arith

module _ (normalize : String → String) (month_start next_month : Time → Time) where
  -- `windowStart`.
  unfoldable pub window_start : String → Time → Time
  window_start window_type now =
      if str_eq (normalize window_type) "monthly"
      then month_start now
      else if str_eq (normalize window_type) "weekly"
      then now / (7 * day) * (7 * day)
      else if str_eq (normalize window_type) "5h"
      then now / day * day + (now - now / day * day) / hour / 5 * 5 * hour
      else now / day * day

  -- `nextReset`; the loop of the case "5h" runs once.
  unfoldable pub next_reset : String → Time → Time
  unfolding window_start advance
  next_reset window_type now =
      if str_eq (normalize window_type) "monthly"
      then next_month (window_start window_type now)
      else if str_eq (normalize window_type) "weekly"
      then window_start window_type now + 7 * day
      else if str_eq (normalize window_type) "5h"
      then advance 2 (window_start window_type now) now
      else window_start window_type now + day

  -- If the month of a time starts no later than it, and the next one after it, then every window starts no
  -- later than now and is reset after now, whatever its type.
  pub window_bounds :
      (window_type : String) (now : Time)
      → (month_start now ≤ now) × (now < next_month (month_start now))
      → (window_start window_type now ≤ now) × (now < next_reset window_type now)
  unfolding next_reset
  window_bounds window_type now h = elim (Bool-cases (str_eq (normalize window_type) "monthly")) [
    | inl monthly ↦ rw monthly h
    | inr b ↦ elim (Bool-cases (str_eq (normalize window_type) "weekly")) [
      | inl weekly ↦ rw (b, weekly) (omega arith, omega arith)
      | inr c ↦ elim (Bool-cases (str_eq (normalize window_type) "5h")) [
        | inl hours ↦
            rw (b, c, hours)
              (
                omega arith,
                advance-lt (now / day * day + (now - now / day * day) / hour / 5 * 5 * hour) now
                    (omega arith) (omega arith),
              )
        | inr daily ↦ rw (b, c, daily) (omega arith, omega arith)
      ]
    ]
  ]

-- `inferWindowType`.
unfoldable pub infer_window_type : Time → Time → String
infer_window_type now reset =
    if leb (reset - now) (6 * hour)
    then "5h"
    else if leb (reset - now) (36 * hour)
    then "daily"
    else if leb (reset - now) (9 * 24 * hour)
    then "weekly"
    else "monthly"
