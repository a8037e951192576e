-- ===== src/Policy/Rules.antt =====
-- internal/policy/rules.go, the temporal rules over a run's events, and the coverage tables of
-- internal/policy/events.go.
use governator.Prelude.{
  ℕ, String, Bool, true, false, not, ◌&&◌, Option, none, some, List, [], ◌∷◌, ◌++◌, str_eq, any,
  filter, if◌then◌else◌,
}

-- `EventKind`: a constant, or any other text.
pub data EventKind : Type 0 where
  read write exec network tool_output other : EventKind
  unknown : String → EventKind

pub record Event : Type 0 where
  pub sequence : ℕ
  pub kind : EventKind
  pub tool : String
  pub subject : String

pub data RuleVerdict : Type 0 where
  rule_deny rule_flag : RuleVerdict

-- The starter rules.
pub data Rule : Type 0 where
  secret_precedes_network out_of_scope_read_precedes_write injection_precedes_exec : Rule

-- `RuleViolation`; its `Detail` is printed from the rule and the two events, which are kept here
-- with the sequence numbers `CauseSeq` and `TriggerSeq` in them.
pub record RuleViolation : Type 0 where
  pub rule : Rule
  pub verdict : RuleVerdict
  pub cause : Event
  pub trigger : Event

-- The three variables of `EvaluateTemporalRules`.
pub record Watch : Type 0 where
  pub secret_read : Option Event
  pub out_of_scope_read : Option Event
  pub last_injection : Option Event

abbrev pub is_none {ℓ} : {A : Type ℓ} → Option A → Bool
is_none none = true
is_none (some a) = false

abbrev pub is_empty : List String → Bool
is_empty [] = true
is_empty (x ∷ xs) = false

-- Keeps the first event.
abbrev pub first : Option Event → Bool → Event → Option Event
first (some c) hit e = some c
first none true e = some e
first none false e = none

abbrev pub violation : Option Event → Rule → RuleVerdict → Event → List RuleViolation
violation none rule verdict e = []
violation (some c) rule verdict e =
    record { rule = rule; verdict = verdict; cause = c; trigger = e } ∷ []

-- `glob`, which compiles its pattern with `regexp`, is a parameter.
module _ (glob : String → String → Bool) where
  -- `MatchesAny`.
  unfoldable pub matches_any : List String → String → Bool
  matches_any patterns name = any (λ p. glob p name) patterns

  -- The conditions of the case `EventRead`.
  unfoldable pub is_secret : List String → Event → Bool
  is_secret secrets e = not (str_eq e.subject "") && matches_any secrets e.subject

  unfoldable pub is_out_of_scope : List String → Event → Bool
  is_out_of_scope scope e =
      not (is_empty scope) && not (str_eq e.subject "") && not (matches_any scope e.subject)

-- The regular expression of `LooksLikeInjection` is a parameter too.
module _ (glob : String → String → Bool) (looks_like_injection : String → Bool) where
  -- The body of the loop: by the kind of the event.
  unfoldable pub watch_event :
      List String → List String → EventKind → Watch → Event → Watch × List RuleViolation
  watch_event secrets scope read w e = (
    record w {
      secret_read = first w.secret_read (is_secret glob secrets e) e;
      out_of_scope_read = first w.out_of_scope_read (is_out_of_scope glob scope e) e;
    },
    [],
  )
  watch_event secrets scope network w e =
      (w, violation w.secret_read secret_precedes_network rule_deny e)
  watch_event secrets scope write w e =
      (w, violation w.out_of_scope_read out_of_scope_read_precedes_write rule_deny e)
  watch_event secrets scope tool_output w e =
      (if looks_like_injection e.subject then record w { last_injection = some e } else w, [])
  watch_event secrets scope exec w e = (
    record w { last_injection = none },
    violation w.last_injection injection_precedes_exec rule_flag e,
  )
  watch_event secrets scope other w e = (w, [])
  watch_event secrets scope (unknown s) w e = (w, [])

  unfoldable pub watch_from : List String → List String → Watch → List Event → List RuleViolation
  watch_from secrets scope w [] = []
  watch_from secrets scope w (e ∷ es) =
      let (next, found) = watch_event secrets scope e.kind w e in
      found ++ watch_from secrets scope next es

  abbrev pub unwatched : Watch
  unwatched = record { secret_read = none; out_of_scope_read = none; last_injection = none }

  -- `EvaluateTemporalRules`.
  unfoldable pub evaluate_temporal_rules :
      List Event → List String → List String → List RuleViolation
  evaluate_temporal_rules events secrets scope = watch_from secrets scope unwatched events

-- The transcript formats: a constant, or any other text.
pub data Format : Type 0 where
  format_claude format_codex format_glm format_open_code format_pi : Format
  unknown_format : String → Format

-- `SupportsEventKind`, on the table `formatEventCoverage`.
unfoldable pub supports_event_kind : Format → EventKind → Bool
supports_event_kind format_claude read = true
supports_event_kind format_claude write = true
supports_event_kind format_claude exec = true
supports_event_kind format_claude network = true
supports_event_kind format_claude tool_output = true
supports_event_kind format_glm read = true
supports_event_kind format_glm write = true
supports_event_kind format_glm exec = true
supports_event_kind format_glm network = true
supports_event_kind format_glm tool_output = true
supports_event_kind format_codex exec = true
supports_event_kind format_open_code read = true
supports_event_kind format_open_code write = true
supports_event_kind format_open_code exec = true
supports_event_kind format_open_code network = true
supports_event_kind format_pi read = true
supports_event_kind format_pi write = true
supports_event_kind format_pi exec = true
supports_event_kind format_pi network = true
supports_event_kind _ _ = false

-- `ruleRequiredKinds`.
unfoldable pub rule_required_kinds : Rule → List EventKind
rule_required_kinds secret_precedes_network = read ∷ network ∷ []
rule_required_kinds out_of_scope_read_precedes_write = read ∷ write ∷ []
rule_required_kinds injection_precedes_exec = tool_output ∷ exec ∷ []

unfoldable pub starter_rules : List Rule
starter_rules =
    secret_precedes_network ∷ out_of_scope_read_precedes_write ∷ injection_precedes_exec ∷ []

-- `UnenforceableRules`.
unfoldable pub unenforceable_rules : Format → List Rule
unenforceable_rules format =
    filter (λ r. any (λ k. not (supports_event_kind format k)) (rule_required_kinds r))
      starter_rules
