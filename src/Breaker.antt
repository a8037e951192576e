-- ===== src/Breaker.antt =====
-- internal/breaker/breaker.go: the circuit breaker of each backend, with the infrastructure failure
-- kinds of internal/observability/phase4.go.
pub mod Cooldown
pub mod Store
pub mod Invariant
pub mod Reachable
pub mod Transient
pub mod Audit
pub mod Unaudited
mod Tests
use governator.Prelude.{
  ℕ, ◌+◌, ◌-◌, ◌*◌, ◌%◌, ◌^◌, String, ◌≡◌, ◌↔◌, Bool, true, false, not, ◌&&◌, ◌||◌, Option, none,
  some, List, [], ◌∷◌, ◌++◌, ltb, leb, ◌==◌, str_eq, any, is_yes, is_yes_iff, String-discrete,
  if◌then◌else◌,
}

-- `time.Time`, in nanoseconds from Go's zero time, which is 0; `time.Duration`, in nanoseconds.
abbrev pub Time : Type 0
Time = ℕ

abbrev pub minute : ℕ
minute = 60_000_000_000

abbrev pub rate_limit_base_cooldown : ℕ
rate_limit_base_cooldown = 5 * minute

abbrev pub rate_limit_max_cooldown : ℕ
rate_limit_max_cooldown = 120 * minute

abbrev pub quota_cooldown : ℕ
quota_cooldown = 60 * minute

abbrev pub transient_threshold : ℕ
transient_threshold = 3

abbrev pub transient_window : ℕ
transient_window = 30 * minute

abbrev pub transient_cooldown : ℕ
transient_cooldown = 5 * minute

-- A failure taxonomy: an `Infra*` constant, the empty text (`unset`), or any other text.
pub data Kind : Type 0 where
  rate_limit quota_exhausted auth_expired binary_missing flag_drift transient_upstream unset : Kind
  other : String → Kind

pub Kind-discrete : Discrete Kind
Kind-discrete = hlevel String-discrete

unfoldable pub kind_eq : Kind → Kind → Bool
kind_eq a b = is_yes (Kind-discrete a b)

pub kind_eq_iff : (a b : Kind) → (kind_eq a b ≡ true) ↔ (a ≡ b)
unfolding kind_eq
kind_eq_iff a b = is_yes_iff (Kind-discrete a b)

abbrev pub is_unset : Kind → Bool
is_unset unset = true
is_unset _ = false

-- `observability.IsInfraFailure`.
unfoldable pub is_infra_failure : Kind → Bool
is_infra_failure unset = false
is_infra_failure (other s) = false
is_infra_failure _ = true

unfoldable pub doctor_gated : Kind → Bool
doctor_gated auth_expired = true
doctor_gated binary_missing = true
doctor_gated flag_drift = true
doctor_gated _ = false

pub data State : Type 0 where
  closed degraded opened half_open : State

abbrev pub is_closed : State → Bool
is_closed closed = true
is_closed _ = false

abbrev pub is_opened : State → Bool
is_opened opened = true
is_opened _ = false

abbrev pub is_half_open : State → Bool
is_half_open half_open = true
is_half_open _ = false

abbrev pub state_eq : State → State → Bool
state_eq closed closed = true
state_eq degraded degraded = true
state_eq opened opened = true
state_eq half_open half_open = true
state_eq _ _ = false

-- `Record`.
pub record Breaker : Type 0 where
  pub backend : String
  pub persisted_state : State
  pub effective_state : State
  pub failure_kind : Kind
  pub opened_at : Time
  pub cooldown_until : Time
  pub consecutive_failures : ℕ
  pub last_probe_at : Time
  pub updated_at : Time

unfoldable pub registered_backends : List String
registered_backends = "claude-code" ∷ "codex" ∷ "glm" ∷ "opencode" ∷ "pi" ∷ []

unfoldable pub is_valid_backend : String → Bool
is_valid_backend name = any (λ b. str_eq b name) registered_backends

-- `effectiveState`.
unfoldable pub effective_state : Breaker → Time → State
effective_state b now =
    if is_opened b.persisted_state && not (b.cooldown_until == 0) && not (ltb now b.cooldown_until)
    then half_open
    else b.persisted_state

-- The cooldown of `RATE_LIMIT` after `n` failures; the shift of an int64 wraps at 2^64.
unfoldable pub rate_limit_cooldown : ℕ → ℕ
rate_limit_cooldown n =
    let shifted = (rate_limit_base_cooldown * 2 ^ (n - 1)) % 2 ^ 64 in
    if leb (n - 1) 5
    then (if ltb rate_limit_max_cooldown shifted then rate_limit_max_cooldown else shifted)
    else rate_limit_max_cooldown

-- `if rec.OpenedAt.IsZero() { rec.OpenedAt = now }`.
abbrev pub first_opened : Time → Time → Time
first_opened opened_at now = if opened_at == 0 then now else opened_at

unfoldable pub on_transient : Bool → Breaker → Time → Breaker
on_transient kind_changed b now =
    let stale = kind_changed || b.updated_at == 0 || ltb transient_window (now - b.updated_at) in
    let count = (if stale then 0 else b.consecutive_failures) + 1 in
    if leb transient_threshold count
    then record b {
      consecutive_failures = count;
      persisted_state = opened;
      cooldown_until = now + transient_cooldown;
      opened_at = first_opened b.opened_at now;
    }
    else record b { consecutive_failures = count; persisted_state = degraded; cooldown_until = 0 }

unfoldable pub on_rate_limit : Bool → Breaker → Time → Breaker
on_rate_limit kind_changed b now =
    let count = (if kind_changed then 0 else b.consecutive_failures) + 1 in
    record b {
      consecutive_failures = count;
      persisted_state = opened;
      cooldown_until = now + rate_limit_cooldown count;
      opened_at = first_opened b.opened_at now;
    }

-- `reset` is what `quota.NextReset` answers, 0 for no window.
unfoldable pub on_quota_exhausted : Breaker → Time → Time → Breaker
on_quota_exhausted b reset now = record b {
  consecutive_failures = 0;
  persisted_state = opened;
  cooldown_until = if ltb now reset then reset else now + quota_cooldown;
  opened_at = first_opened b.opened_at now;
}

unfoldable pub on_doctor_gated : Breaker → Time → Breaker
on_doctor_gated b now = record b {
  consecutive_failures = 0;
  persisted_state = opened;
  cooldown_until = 0;
  opened_at = first_opened b.opened_at now;
}

-- The `switch` of `applyPolicy`.
unfoldable pub on_kind : Kind → Bool → Breaker → Time → Time → Breaker
on_kind transient_upstream changed b reset now = on_transient changed b now
on_kind rate_limit changed b reset now = on_rate_limit changed b now
on_kind quota_exhausted changed b reset now = on_quota_exhausted b reset now
on_kind auth_expired changed b reset now = on_doctor_gated b now
on_kind binary_missing changed b reset now = on_doctor_gated b now
on_kind flag_drift changed b reset now = on_doctor_gated b now
on_kind unset changed b reset now = b
on_kind (other s) changed b reset now = b

unfoldable pub apply_policy : Breaker → Kind → Time → Time → Breaker
apply_policy b kind reset now =
    let changed = not (is_unset b.failure_kind) && not (kind_eq b.failure_kind kind) in
    let after = on_kind kind changed (record b { failure_kind = kind }) reset now in
    record after { updated_at = now }
