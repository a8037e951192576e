-- ===== src/Dbtime.antt =====
-- internal/dbtime/dbtime.go: the timestamps of the ledger. A time is its nanoseconds from Go's zero
-- time on; a signed 64-bit integer is its bit pattern, a number below 2 ^ 64.
mod Order
mod Legacy
mod Tests
use governator.Prelude.{
  ℕ, ◌+◌, ◌-◌, ◌*◌, ◌%◌, ◌^◌, String, Bool, Option, none, some, str_eq, ◌==◌, ltb, if◌then◌else◌,
}

abbrev pub Time : Type 0
Time = ℕ

-- The Unix epoch, 62135596800 seconds after the zero time.
abbrev pub epoch : ℕ
epoch = 62135596800 * 1000000000

-- `math.MinInt64`.
abbrev pub unset_unix_nano : ℕ
unset_unix_nano = 2 ^ 63

-- `MinSupportedTime` and `MaxSupportedTime`: `time.Unix(0, math.MinInt64+1)` and
-- `time.Unix(0, math.MaxInt64)`.
abbrev pub min_supported_time : Time
min_supported_time = epoch - (2 ^ 63 - 1)

abbrev pub max_supported_time : Time
max_supported_time = epoch + (2 ^ 63 - 1)

-- `t.UnixNano()`, which wraps around.
unfoldable pub unix_nano : Time → ℕ
unix_nano t = (t + (4 * 2 ^ 64 - epoch)) % 2 ^ 64

-- `time.Unix(0, nanos)`.
unfoldable pub time_unix : ℕ → Time
time_unix nanos = if ltb nanos (2 ^ 63) then epoch + nanos else epoch + nanos - 2 ^ 64

-- `<` on the signed values of two patterns.
unfoldable pub int64_lt : ℕ → ℕ → Bool
int64_lt a b = ltb ((a + 2 ^ 63) % 2 ^ 64) ((b + 2 ^ 63) % 2 ^ 64)

-- `ToUnixNano`; `none` is its error.
unfoldable pub to_unix_nano : Time → Option ℕ
unfolding unix_nano time_unix
to_unix_nano t =
    if t == 0
    then some unset_unix_nano
    else if unix_nano t == unset_unix_nano
    then none
    else if time_unix (unix_nano t) == t
    then some (unix_nano t)
    else none

-- `FromUnixNano`.
unfoldable pub from_unix_nano : ℕ → Time
unfolding time_unix
from_unix_nano nanos = if nanos == unset_unix_nano then 0 else time_unix nanos

pub data Error : Type 0 where
  unparseable out_of_range corrupt : Error

pub data Result : Type 0 where
  ok : ℕ → Result
  err : Error → Result

abbrev pub converted : Option ℕ → Result
converted none = err out_of_range
converted (some n) = ok n

abbrev pub convert_parsed : Option Time → Result
convert_parsed none = err unparseable
convert_parsed (some t) = converted (to_unix_nano t)

abbrev pub compare_result : Result → ℕ → Option Error
compare_result (err e) nanos = some corrupt
compare_result (ok want) nanos = if want == nanos then none else some corrupt

-- `Time.Format` and `time.Parse` at the layout RFC3339Nano are parameters.
module _ (format : Time → String) (parse : String → Option Time) where
  -- `FormatLegacy`.
  unfoldable pub format_legacy : Time → String
  format_legacy t = if t == 0 then "" else format t

  -- `ParseLegacy`.
  unfoldable pub parse_legacy : String → Option Time
  parse_legacy value = if str_eq value "" then some 0 else parse value

  -- `LegacyToUnixNano`.
  unfoldable pub legacy_to_unix_nano : String → Result
  unfolding parse_legacy
  legacy_to_unix_nano value = convert_parsed (parse_legacy value)

  -- `UnixNanoToLegacy`.
  unfoldable pub unix_nano_to_legacy : ℕ → String
  unfolding format_legacy from_unix_nano
  unix_nano_to_legacy nanos = format_legacy (from_unix_nano nanos)

  -- `VerifyLegacyRoundTrip`.
  unfoldable pub verify_legacy_round_trip : String → ℕ → Option Error
  unfolding legacy_to_unix_nano
  verify_legacy_round_trip text nanos = compare_result (legacy_to_unix_nano text) nanos
