-- ===== src/Plan.antt =====
-- internal/contracts/plan.go: the plan of a batch of jobs, its check and the levels in which it runs.
-- Of a contract (internal/contracts/schema.go) the fields stand here that a plan reads.
pub mod Levels
pub mod Counts
pub mod Pigeon
pub mod Kahn
pub mod Topological
pub mod Order
pub mod Envelope
pub mod Segments
pub mod Cleaned
pub mod Covered
pub mod Artifacts
pub mod Ancestors
pub mod Resolved
pub mod Check
pub mod Accepted
mod Tests
use governator.Prelude.{String, List, ℤ}

pub record Contract : Type 0 where
  pub job_id : String
  pub root : String
  pub risk_class : String
  pub max_tokens : ℤ
  pub write : List String
  pub intended_writes : List String
  pub depends_on : List String
  pub produces : List String
  pub consumes : List String
  pub artifact_sources : List (String × String)
