-- ===== src/Breaker/Cooldown.antt =====
-- The backoff of `RATE_LIMIT` in internal/breaker/breaker.go.
use native.Mathlib.Nat.{pow-suc}
use governator.Prelude.{ℕ, zero, suc, ◌-◌, ◌*◌, ◌^◌, ◌≤◌, ◌≡◌, refl, arith, false, min, leb}
use governator.Breaker.{rate_limit_base_cooldown, rate_limit_max_cooldown, rate_limit_cooldown}

pow_pos : (n : ℕ) → 1 ≤ 2 ^ n
pow_pos zero = omega arith
pow_pos (suc n) = rw pow-suc (omega (arith, pow_pos n))

-- From six doublings on, the cap is passed.
pow_six : (n : ℕ) → 64 ≤ 2 ^ suc (suc (suc (suc (suc (suc n)))))
pow_six n = simp pow-suc (omega (arith, pow_pos n))

-- The cooldown after `n` failures is the base doubled `n - 1` times, capped: no shift overflows.
pub rate_limit_cooldown_lem :
    (n : ℕ)
    → rate_limit_cooldown (suc n) ≡ min (rate_limit_base_cooldown * 2 ^ n) rate_limit_max_cooldown
unfolding rate_limit_cooldown
rate_limit_cooldown_lem zero = refl
rate_limit_cooldown_lem (suc zero) = refl
rate_limit_cooldown_lem (suc (suc zero)) = refl
rate_limit_cooldown_lem (suc (suc (suc zero))) = refl
rate_limit_cooldown_lem (suc (suc (suc (suc zero)))) = refl
rate_limit_cooldown_lem (suc (suc (suc (suc (suc zero))))) = refl
rate_limit_cooldown_lem (suc (suc (suc (suc (suc (suc n)))))) =
    let e : leb (suc (suc (suc (suc (suc (suc (suc n)))))) - 1) 5 ≡ false = ground arith in
    rw (e, rate_limit_cooldown) (omega (arith, pow_six n))

-- The cooldown stays between the base and the cap, and does not shrink as failures add up.
pub rate_limit_cooldown_bounds :
    (n : ℕ)
    → (rate_limit_base_cooldown ≤ rate_limit_cooldown (suc n))
      × (rate_limit_cooldown (suc n) ≤ rate_limit_max_cooldown)
      × (rate_limit_cooldown (suc n) ≤ rate_limit_cooldown (suc (suc n)))
rate_limit_cooldown_bounds n =
    let e = rate_limit_cooldown_lem n in
    let e' = rate_limit_cooldown_lem (suc n) in
    let d : 2 ^ suc n ≡ 2 ^ n * 2 = pow-suc _ _ in
    (omega (arith, e, pow_pos n), omega (arith, e), omega (arith, e, e', d))
