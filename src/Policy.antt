-- ===== src/Policy.antt =====
-- internal/policy: verdicts, decisions, layers and overrides.
pub mod Sources
pub mod Verdict
pub mod Decision
pub mod Combine
pub mod Layers
pub mod Evaluate
pub mod Precedence
pub mod Resolve
pub mod Applied
pub mod Rules
pub mod Temporal
pub mod Coverage
pub mod Conditions
pub mod Firing
pub mod WellTyped
pub mod Disarmed
mod Tests
mod RuleTests
