-- ===== src/Dbtime/Tests.antt =====
-- Tests of internal/dbtime/dbtime.go, and the theorems at concrete times and with a concrete
-- printer of times.
use Prim.Native.String as Text
use governator.Prelude.{
  ℕ, suc, zero, ◌+◌, ◌-◌, ◌^◌, ◌≤◌, String, ◌≡◌, ◌≢◌, refl, ap, Bool, true, false, Option, none,
  some, arith,
}
use governator.Dbtime.{
  Time, epoch, max_supported_time, to_unix_nano, from_unix_nano, ok, legacy_to_unix_nano,
  unix_nano_to_legacy,
}
use governator.Dbtime.Order.{from_unix_nano-to_unix_nano}
use governator.Dbtime.Legacy.{legacy_to_unix_nano-unix_nano_to_legacy}

-- A printer that writes a mark for each nanosecond, after one that makes the text not empty.
tally : ℕ → String
tally zero = Text.[]
tally (suc n) = Text.◌∷◌ "i" (tally n)

count : String → ℕ
count Text.[] = 0
count (Text.◌∷◌ c s) = suc (count s)

print : Time → String
print t = Text.◌∷◌ "t" (tally t)

read : String → Option Time
read Text.[] = none
read (Text.◌∷◌ c s) = some (count s)

count-tally : (n : ℕ) → count (tally n) ≡ n
unfolding count tally
count-tally zero = refl
count-tally (suc n) = ap suc (count-tally n)

read-print : (t : Time) → t ≤ max_supported_time → read (print t) ≡ some t
unfolding read print
read-print t h = ap some (count-tally t)

first_mark : String → Bool
first_mark Text.[] = false
first_mark (Text.◌∷◌ c s) = true

print-ne : (t : Time) → print t ≢ ""
unfolding print first_mark
print-ne t e = let f : true ≡ false = ap first_mark e in cc

after_epoch : to_unix_nano (epoch + 5) ≡ some 5
unfolding to_unix_nano
after_epoch = refl

before_epoch : to_unix_nano (epoch - 1) ≡ some (2 ^ 64 - 1)
unfolding to_unix_nano
before_epoch = refl

too_late : to_unix_nano (max_supported_time + 1) ≡ none
unfolding to_unix_nano
too_late = refl

from_unix_nano-to_unix_nano_example : from_unix_nano 5 ≡ epoch + 5
from_unix_nano-to_unix_nano_example = from_unix_nano-to_unix_nano (epoch + 5) after_epoch

legacy_to_unix_nano-unix_nano_to_legacy_example :
    legacy_to_unix_nano print read (unix_nano_to_legacy print read 7) ≡ ok 7
legacy_to_unix_nano-unix_nano_to_legacy_example =
    legacy_to_unix_nano-unix_nano_to_legacy print read read-print print-ne 7 (omega arith)
