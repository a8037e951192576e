-- ===== src/Router/Agents.antt =====
-- `New` and the capabilities of internal/agents, and the pool of candidates of internal/router.
use governator.Prelude.{
  String, Bool, true, false, ◌||◌, Option, none, some, List, [], ◌∷◌, any, str_eq, str_lt,
  if◌then◌else◌, ℤ, pos,
}

-- The backends' types, by the names of their packages' files.
pub data Agent : Type 0 where
  claude codex glm open_code pi : Agent

-- `New`.
unfoldable pub new_agent : String → Option Agent
new_agent name =
    if str_eq name "claude-code" || str_eq name "claude"
    then some claude
    else if str_eq name "codex"
    then some codex
    else if str_eq name "glm"
    then some glm
    else if str_eq name "opencode"
    then some open_code
    else if str_eq name "pi"
    then some pi
    else none

abbrev pub agent_name : Agent → String
agent_name claude = "claude-code"
agent_name codex = "codex"
agent_name glm = "glm"
agent_name open_code = "opencode"
agent_name pi = "pi"

pub record Capability : Type 0 where
  pub native_sandbox : Bool
  pub native_read_only : Bool
  pub native_approval_policy : Bool
  pub network_control : Bool
  pub transcript_format : String
  pub vision : Bool
  pub tool_calling : Bool
  pub local_only : Bool
  pub context_tokens : ℤ
  pub output_tokens : ℤ

abbrev profile : Bool → Bool → Bool → Bool → String → Capability
profile sandbox read_only approval network transcript = record {
  native_sandbox = sandbox;
  native_read_only = read_only;
  native_approval_policy = approval;
  network_control = network;
  transcript_format = transcript;
  vision = false;
  tool_calling = false;
  local_only = false;
  context_tokens = pos 0;
  output_tokens = pos 0;
}

-- `Capabilities`.
abbrev pub capabilities : Agent → Capability
capabilities claude = profile true true true false "claude-stream-json"
capabilities codex = profile true true true true "codex-json"
capabilities glm = profile false false true false "glm-stream-json"
capabilities open_code = profile false false true false "opencode-json"
capabilities pi = profile false true false false "pi-json"

-- The facts on a model that `config.Backend` declares.
pub record Backend : Type 0 where
  pub vision : Bool
  pub tool_calling : Bool
  pub local_only : Bool
  pub context_tokens : ℤ
  pub output_tokens : ℤ

-- `WithConfiguredModel`.
abbrev pub with_configured_model : Capability → Backend → Capability
with_configured_model base cfg = record base {
  vision = cfg.vision;
  tool_calling = cfg.tool_calling;
  local_only = cfg.local_only;
  context_tokens = cfg.context_tokens;
  output_tokens = cfg.output_tokens;
}

unfoldable pub registered_agents : List String
registered_agents = "claude-code" ∷ "codex" ∷ "glm" ∷ "opencode" ∷ "pi" ∷ []

-- The loop of `candidatePool`, which leaves out unknown names and names that it has seen.
abbrev pub seen_or : Option Agent → List String → List String
seen_or none out = out
seen_or (some a) out = if any (str_eq (agent_name a)) out then out else agent_name a ∷ out

unfoldable pub canonical_names : List String → List String → List String
unfolding new_agent
canonical_names [] out = out
canonical_names (n ∷ ns) out = canonical_names ns (seen_or (new_agent n) out)

unfoldable pub insert_name : String → List String → List String
insert_name s [] = s ∷ []
insert_name s (t ∷ ts) = if str_lt t s then t ∷ insert_name s ts else s ∷ t ∷ ts

-- `sort.Strings`.
unfoldable pub sort_names : List String → List String
unfolding insert_name
sort_names [] = []
sort_names (s ∷ ss) = insert_name s (sort_names ss)

abbrev pub or_registered : List String → List String
unfolding registered_agents
or_registered [] = registered_agents
or_registered (n ∷ ns) = n ∷ ns

-- `candidatePool`.
unfoldable pub candidate_pool : List String → List String
unfolding canonical_names sort_names registered_agents
candidate_pool allowlist = sort_names (canonical_names (or_registered allowlist) [])
