-- ===== src/Dbtime/Legacy.antt =====
-- The compatibility text of a timestamp (internal/dbtime/dbtime.go) against its numeric column.
use governator.Prelude.{
  ℕ, ◌≤◌, ◌<◌, ◌^◌, String, ◌≡◌, ◌≢◌, ◌↔◌, Option, none, some, arith, eq_iff, ap, ◌∙◌, inl, inr,
  str_eq, ◌==◌, Bool-cases, false,
}
use governator.Dbtime.{
  Time, max_supported_time, to_unix_nano, from_unix_nano, ok, convert_parsed, converted,
  format_legacy, parse_legacy, legacy_to_unix_nano, unix_nano_to_legacy, verify_legacy_round_trip,
}

-- `format` and `parse` stand for the `time` package at one layout: a text that it prints is not
-- empty and parses to the time that was printed.
module _ (format : Time → String) (parse : String → Option Time)
    (reads : (t : Time) → t ≤ max_supported_time → parse (format t) ≡ some t)
    (has_text : (t : Time) → format t ≢ "") where
  named : (t : Time) → str_eq (format t) "" ≡ false
  named t = elim (Bool-cases (str_eq (format t) "")) [
    | inl e ↦ absurd (has_text t ((eq_iff (format t) "").0 e))
    | inr e ↦ e
  ]

  parse_legacy-format_legacy :
      (t : Time)
      → t ≤ max_supported_time
      → parse_legacy format parse (format_legacy format parse t) ≡ some t
  unfolding parse_legacy format_legacy
  parse_legacy-format_legacy t h = elim (Bool-cases (t == 0)) [
    | inl zero ↦ rw zero (ground arith)
    | inr later ↦ rw (later, named t) (reads t h)
  ]

  -- The text of a time that has a number converts to that number, and the text of any other time
  -- up to the latest supported one does not convert.
  legacy_to_unix_nano-format_legacy :
      (t : Time)
      → t ≤ max_supported_time
      → legacy_to_unix_nano format parse (format_legacy format parse t) ≡ converted (to_unix_nano t)
  unfolding legacy_to_unix_nano
  legacy_to_unix_nano-format_legacy t h = ap convert_parsed (parse_legacy-format_legacy t h)

  -- A row whose text was printed from a time passes the check exactly when its number is the one
  -- that is stored for this time: any other number in the column is found.
  pub verify_legacy_round_trip_iff :
      (t : Time) (nanos : ℕ)
      → t ≤ max_supported_time
      → (verify_legacy_round_trip format parse (format_legacy format parse t) nanos ≡ none)
        ↔ (to_unix_nano t ≡ some nanos)
  unfolding verify_legacy_round_trip
  verify_legacy_round_trip_iff t nanos h = (
    λ v. ground (arith, legacy_to_unix_nano-format_legacy t h),
    λ e. ground (arith, legacy_to_unix_nano-format_legacy t h),
  )

  from_unix_nano-le : (n : ℕ) → n < 2 ^ 64 → from_unix_nano n ≤ max_supported_time
  unfolding from_unix_nano
  from_unix_nano-le n h = ground arith

  to_unix_nano-from_unix_nano : (n : ℕ) → n < 2 ^ 64 → to_unix_nano (from_unix_nano n) ≡ some n
  unfolding from_unix_nano to_unix_nano
  to_unix_nano-from_unix_nano n h = ground arith

  -- Every 64-bit value survives its conversion to text and back.
  pub legacy_to_unix_nano-unix_nano_to_legacy :
      (n : ℕ)
      → n < 2 ^ 64
      → legacy_to_unix_nano format parse (unix_nano_to_legacy format parse n) ≡ ok n
  unfolding unix_nano_to_legacy
  legacy_to_unix_nano-unix_nano_to_legacy n h =
      legacy_to_unix_nano-format_legacy (from_unix_nano n) (from_unix_nano-le n h)
      ∙ ap converted (to_unix_nano-from_unix_nano n h)
