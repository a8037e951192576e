-- ===== src/Breaker/Transient.antt =====
-- TRANSIENT_UPSTREAM in `applyPolicy` of internal/breaker/breaker.go: the count, the window, and what
-- happens to an OPEN breaker.
use governator.Prelude.{
  ℕ, suc, ◌+◌, ◌≤◌, ◌<◌, ◌≡◌, ◌≢◌, ◌⊎◌, Bool, true, not, ◌&&◌, List, [], ◌∷◌, arith, length, ltb,
  leb, ◌-◌, ◌||◌, ◌==◌, ap, if◌then◌else◌,
}
use governator.Breaker.{
  Time, transient_upstream, is_unset, is_infra_failure, kind_eq, kind_eq_iff, closed, degraded,
  opened, Breaker, transient_window, effective_state, on_transient, on_kind, apply_policy,
}
use governator.Breaker.Invariant.{IsWell}

-- Transient failures at the given times, one after another.
unfoldable pub fail_transient : Breaker → List Time → Breaker
fail_transient b [] = b
fail_transient b (t ∷ ts) = fail_transient (apply_policy b transient_upstream 0 t) ts

-- Each time lies at most the window after the one before it.
abbrev pub IsClose : Time → List Time → Type 0
IsClose prev [] = Unit
IsClose prev (t ∷ ts) = (0 < t) × (t ≤ prev + transient_window) × IsClose t ts

record Counting (b : Breaker) (count : ℕ) (last : Time) : Type 0 where
  kind : b.failure_kind ≡ transient_upstream
  counted : b.consecutive_failures ≡ count
  at : b.updated_at ≡ last
  live : 0 < last
  positive : 0 < count
  state : b.persisted_state ≡ (if leb 3 count then opened else degraded)

next_strike :
    (b : Breaker) (count last now : ℕ)
    → Counting b count last
    → 0 < now
    → now ≤ last + transient_window
    → Counting (apply_policy b transient_upstream 0 now) (suc count) now
unfolding apply_policy on_kind on_transient
next_strike b count last now c h w = ground (arith, kind_eq_iff b.failure_kind transient_upstream)

first_strike :
    (b : Breaker) (now : Time)
    → IsWell b
    → b.persisted_state ≡ closed
    → 0 < now
    → Counting (apply_policy b transient_upstream 0 now) 1 now
unfolding apply_policy on_kind on_transient
first_strike b now w s h = ground (arith, w.idle s, s)

strikes :
    (b : Breaker) (count last : ℕ) (ts : List Time)
    → Counting b count last
    → IsClose last ts
    → ((fail_transient b ts).consecutive_failures ≡ count + length ts)
      × ((fail_transient b ts).persisted_state
          ≡ (if leb 3 (count + length ts) then opened else degraded))
unfolding fail_transient
strikes b count last [] c k = let e : count + 0 ≡ count = omega arith in rw e (c.counted, c.state)
strikes b count last (t ∷ ts) c k =
    let e : count + suc (length ts) ≡ suc count + length ts = omega arith in
    rw e (
      strikes (apply_policy b transient_upstream 0 t) (suc count) t ts
        (next_strike b count last t c k.0 k.1) k.2)

-- From a CLOSED breaker, transient failures each within the window of the one before are all
-- counted; the breaker is DEGRADED by the first two and OPEN from the third on.
pub transient-streak :
    (b : Breaker) (t : Time) (ts : List Time)
    → IsWell b
    → b.persisted_state ≡ closed
    → 0 < t
    → IsClose t ts
    → ((fail_transient b (t ∷ ts)).consecutive_failures ≡ length (t ∷ ts))
      × ((fail_transient b (t ∷ ts)).persisted_state
          ≡ (if leb 3 (length (t ∷ ts)) then opened else degraded))
unfolding fail_transient
transient-streak b t ts w s h k =
    let e : suc (length ts) ≡ 1 + length ts = omega arith in
    rw e (strikes (apply_policy b transient_upstream 0 t) 1 t ts (first_strike b t w s h) k)

abbrev one_strike : Breaker → Breaker
one_strike b = record b { consecutive_failures = 1; persisted_state = degraded; cooldown_until = 0 }

stale_count :
    (changed : Bool) (b : Breaker) (now : Time)
    → (changed || b.updated_at == 0 || ltb transient_window (now - b.updated_at)) ≡ true
    → on_transient changed b now ≡ one_strike b
unfolding on_transient
stale_count changed b now h = rw h

is_stale :
    (b : Breaker) (now : Time)
    → is_infra_failure b.failure_kind ≡ true
    → (b.failure_kind ≢ transient_upstream) ⊎ (b.updated_at + transient_window < now)
    → ((not (is_unset b.failure_kind) && not (kind_eq b.failure_kind transient_upstream))
        || b.updated_at == 0
        || ltb transient_window (now - b.updated_at))
      ≡ true
unfolding is_infra_failure
is_stale b now i d = ground (arith, kind_eq_iff b.failure_kind transient_upstream)

demoted :
    (b : Breaker) (reset_at now : Time)
    → is_infra_failure b.failure_kind ≡ true
    → (b.failure_kind ≢ transient_upstream) ⊎ (b.updated_at + transient_window < now)
    → apply_policy b transient_upstream reset_at now
      ≡ record (one_strike b) { failure_kind = transient_upstream; updated_at = now }
unfolding apply_policy on_kind
demoted b reset_at now i d =
    ap (λ (r : Breaker). record r { updated_at = now })
      (stale_count
        (not (is_unset b.failure_kind) && not (kind_eq b.failure_kind transient_upstream))
        (record b { failure_kind = transient_upstream }) now (is_stale b now i d))

-- A transient failure recorded for an OPEN breaker of another kind, or more than the window after
-- the row's last write, does not keep it OPEN: the breaker becomes DEGRADED with one failure, and
-- is DEGRADED for the router at every time. The former holds of the doctor-gated kinds too, the
-- latter of a HALF_OPEN probe that fails late.
pub transient-demotes :
    (b : Breaker) (reset_at now t : Time)
    → IsWell b
    → b.persisted_state ≡ opened
    → (b.failure_kind ≢ transient_upstream) ⊎ (b.updated_at + transient_window < now)
    → ((apply_policy b transient_upstream reset_at now).consecutive_failures ≡ 1)
      × (effective_state (apply_policy b transient_upstream reset_at now) t ≡ degraded)
unfolding effective_state
transient-demotes b reset_at now t w o d =
    let e = demoted b reset_at now (w.failing o).0 d in
    (ap (λ (r : Breaker). r.consecutive_failures) e, ap (λ r. effective_state r t) e)
