-- ===== src/Dbtime/Order.antt =====
-- What the conversion of internal/dbtime/dbtime.go keeps: the instant and the order of instants.
use governator.Prelude.{ℕ, ◌≤◌, ◌<◌, ◌≡◌, ◌↔◌, ◌⊎◌, ◌≢◌, true, none, some, arith}
use governator.Dbtime.{
  Time, min_supported_time, max_supported_time, to_unix_nano, from_unix_nano, int64_lt,
}

-- Reading back the value that was stored for a time gives that time.
pub from_unix_nano-to_unix_nano :
    (t : Time) {n : ℕ} → to_unix_nano t ≡ some n → from_unix_nano n ≡ t
unfolding to_unix_nano from_unix_nano
from_unix_nano-to_unix_nano t h = ground arith

-- A time can be stored exactly when it is the zero time or lies in the supported range.
to_unix_nano-supported :
    (t : Time)
    → (to_unix_nano t ≢ none) ↔ ((t ≡ 0) ⊎ ((min_supported_time ≤ t) × (t ≤ max_supported_time)))
unfolding to_unix_nano
to_unix_nano-supported t = (λ h. ground arith, λ h. ground arith)

-- The stored values of two times stand in the order of the times, the zero time first.
int64_lt-to_unix_nano :
    (t u : Time) {n m : ℕ}
    → to_unix_nano t ≡ some n
    → to_unix_nano u ≡ some m
    → (int64_lt n m ≡ true) ↔ (t < u)
unfolding to_unix_nano int64_lt
int64_lt-to_unix_nano t u h k = (λ l. ground arith, λ l. ground arith)
