-- ===== src/Router/Fit.antt =====
-- What `evaluate` of internal/router leaves unexcluded.
use governator.Prelude.{
  ◌≤◌, ◌≡◌, ◌≢◌, ◌∙◌, inl, inr, refl, sym, ap, String, Bool, true, false, none, some, any, str_eq,
  arith, Option-cases, pos_part, is_positive,
}
use governator.Router.{Request, BreakerState, opened, BreakerSnapshot}
use governator.Router.Agents.{Agent, new_agent, Capability, capabilities}
use governator.Router.Excluded.{is_opened, exclusion_of}

-- What a request asks of a backend: its capability, its binary and its breaker.
pub record IsQualified (req : Request) (model : String → Capability → Capability)
    (binary : String → Bool) (breaker : String → BreakerSnapshot) (name : String) : Type 0 where
  pub agent : Agent
  pub known : new_agent name ≡ some agent
  pub not_named : any (str_eq name) req.exclude_agents ≡ false
  pub sandbox :
      req.requirements.native_sandbox ≡ true
      → (model name (capabilities agent)).native_sandbox ≡ true
  pub network :
      req.requirements.network_control ≡ true
      → (model name (capabilities agent)).network_control ≡ true
  pub read_only :
      req.requirements.read_only_mode ≡ true
      → (model name (capabilities agent)).native_read_only ≡ true
  pub vision : req.requirements.vision ≡ true → (model name (capabilities agent)).vision ≡ true
  pub tool_calling :
      req.requirements.tool_calling ≡ true → (model name (capabilities agent)).tool_calling ≡ true
  pub local_only :
      req.requirements.local_only ≡ true → (model name (capabilities agent)).local_only ≡ true
  pub context :
      is_positive req.requirements.min_context_tokens ≡ true
      → pos_part req.requirements.min_context_tokens
        ≤ pos_part (model name (capabilities agent)).context_tokens
  pub output :
      is_positive req.requirements.min_output_tokens ≡ true
      → pos_part req.requirements.min_output_tokens
        ≤ pos_part (model name (capabilities agent)).output_tokens
  pub present : binary name ≡ true
  pub closed : (breaker name).state ≢ opened

not_opened : (s : BreakerState) → is_opened s ≡ false → s ≢ opened
not_opened s h e = cc (sym h ∙ ap is_opened e)

is_opened-none : (s : BreakerState) → s ≢ opened → is_opened s ≡ false
is_opened-none BreakerState.closed h = refl
is_opened-none BreakerState.degraded h = refl
is_opened-none opened h = absurd (h refl)

module _ (req : Request) (model : String → Capability → Capability) (binary : String → Bool)
    (breaker : String → BreakerSnapshot) (name : String) where
  pub exclusion_of-IsQualified :
      exclusion_of req model binary breaker name ≡ none → IsQualified req model binary breaker name
  unfolding exclusion_of
  exclusion_of-IsQualified h = elim (Option-cases (new_agent name)) [
    | inl unknown ↦ absurd (ground (arith, rw unknown at h))
    | inr (a, e) ↦
        (let k = rw e at h in
          record {
            agent = a;
            known = e;
            not_named = ground (arith, k);
            sandbox = λ r. ground (arith, k, r);
            network = λ r. ground (arith, k, r);
            read_only = λ r. ground (arith, k, r);
            vision = λ r. ground (arith, k, r);
            tool_calling = λ r. ground (arith, k, r);
            local_only = λ r. ground (arith, k, r);
            context = λ r. ground (arith, k, r);
            output = λ r. ground (arith, k, r);
            present = ground (arith, k);
            closed = not_opened (breaker name).state (ground (arith, k));
          })
  ]

  pub IsQualified-exclusion_of :
      IsQualified req model binary breaker name → exclusion_of req model binary breaker name ≡ none
  unfolding exclusion_of
  IsQualified-exclusion_of q =
      rw (q.known, q.not_named)
        (ground (
          arith,
          q.sandbox,
          q.network,
          q.read_only,
          q.vision,
          q.tool_calling,
          q.local_only,
          q.context,
          q.output,
          q.present,
          is_opened-none (breaker name).state q.closed,
        ))

pub new_agent-named : (a : Agent) (name : String) → new_agent name ≡ some a → name ≢ ""
unfolding new_agent
new_agent-named a name h e = cc (sym h ∙ ap new_agent e)
