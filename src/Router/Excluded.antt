-- ===== src/Router/Excluded.antt =====
-- The hard exclusions of `evaluate` in internal/router.
use governator.Prelude.{
  String, Bool, true, false, not, ◌&&◌, Option, none, some, any, str_eq, ltb, if◌then◌else◌, ℤ,
  pos_part, is_positive,
}
use governator.Router.{
  Requirements, Request, BreakerState, opened, BreakerSnapshot, Reason, diversity_exclusion,
  unknown_backend, missing_binary, is_required, tokens_required, breaker_open,
}
use governator.Router.Agents.{new_agent, Capability, capabilities, Backend, with_configured_model}

-- `modelCapability`, with the backends of the configuration.
abbrev pub model_capability :
    Option (String → Capability → Capability)
    → (String → Backend)
    → String
    → Capability
    → Capability
model_capability none backends name base = with_configured_model base (backends name)
model_capability (some f) backends name base = f name base

abbrev pub is_opened : BreakerState → Bool
is_opened opened = true
is_opened _ = false

-- A minimum that a number of tokens falls short of.
abbrev pub is_short : ℤ → ℤ → Bool
is_short least tokens = is_positive least && ltb (pos_part tokens) (pos_part least)

-- The hard exclusions on a capability, in their order; `rest` stands for those after them.
abbrev pub missing : Requirements → Capability → Option Reason → Option Reason
missing r c rest =
    if r.native_sandbox && not c.native_sandbox
    then some (is_required "native_sandbox")
    else if r.network_control && not c.network_control
    then some (is_required "network_control")
    else if r.read_only_mode && not c.native_read_only
    then some (is_required "read_only_mode")
    else if r.vision && not c.vision
    then some (is_required "vision")
    else if r.tool_calling && not c.tool_calling
    then some (is_required "tool_calling")
    else if r.local_only && not c.local_only
    then some (is_required "local_only")
    else if is_short r.min_context_tokens c.context_tokens
    then some (tokens_required "min_context_tokens" r.min_context_tokens c.context_tokens)
    else if is_short r.min_output_tokens c.output_tokens
    then some (tokens_required "min_output_tokens" r.min_output_tokens c.output_tokens)
    else rest

abbrev pub unhealthy : Bool → BreakerSnapshot → Option Reason
unhealthy binary b =
    if not binary
    then some missing_binary
    else if is_opened b.state
    then some (breaker_open b.reason)
    else none

-- The exclusions of `evaluate`.
unfoldable pub exclusion_of :
    Request
    → (String → Capability → Capability)
    → (String → Bool)
    → (String → BreakerSnapshot)
    → String
    → Option Reason
unfolding new_agent
exclusion_of req model binary breaker name =
    if any (str_eq name) req.exclude_agents
    then some diversity_exclusion
    else elim (new_agent name) [
      | none ↦ some unknown_backend
      | some a ↦
          missing req.requirements (model name (capabilities a))
            (unhealthy (binary name) (breaker name))
    ]
