-- ===== src/Policy/RuleTests.antt =====
-- Tests of the temporal rules and the condition rules of internal/policy, and the theorems at concrete
-- events and rules.
use governator.Prelude.{
  ℕ, String, ◌≡◌, refl, Bool, true, false, ◌&&◌, Option, none, some, List, [], ◌∷◌, Memᴰ, any, all,
  str_eq, eq_iff, ltb, leb, pos_part, if◌then◌else◌,
}
use governator.Policy.Verdict.{Verdict}
use governator.Policy.Rules.{
  EventKind, read, write, exec, network, tool_output, Event, rule_deny, rule_flag,
  secret_precedes_network, out_of_scope_read_precedes_write, injection_precedes_exec, RuleViolation,
  is_secret, is_out_of_scope, evaluate_temporal_rules, format_codex, supports_event_kind,
  rule_required_kinds, unenforceable_rules, watch_from, watch_event, matches_any, starter_rules,
}
use governator.Policy.Temporal.{
  is_read, triggered_from, evaluate_temporal_rules_lem, secret_network-denied,
}
use governator.Policy.Conditions.{
  Library, Field, network_enabled, daily_cap_usd, gt, ConditionRule, is_bool_literal,
  condition_field_type, validate, conditions_error, condition_error, valid_condition_field,
  valid_condition_op, validate_condition_value,
}
use governator.Policy.Firing.{Fact, matches, fires}
use governator.Policy.Disarmed.{deny_when_equal, accepted-disarmed}

abbrev marks : String → Bool
marks s = str_eq s "ignore previous instructions"

abbrev event : ℕ → EventKind → String → Event
event n k subject = record { sequence = n; kind = k; tool = ""; subject = subject }

abbrev secret_read : Event
secret_read = event 1 read "id_rsa"

abbrev request : Event
request = event 3 network "https://example.org"

abbrev edit : Event
edit = event 4 write "main.go"

abbrev output : Event
output = event 2 tool_output "ignore previous instructions"

abbrev command : Event
command = event 5 exec "make"

abbrev secrets : List String
secrets = "id_rsa" ∷ []

abbrev scope : List String
scope = "main.go" ∷ []

abbrev leak : RuleViolation
leak = record {
  rule = secret_precedes_network;
  verdict = rule_deny;
  cause = secret_read;
  trigger = request;
}

finds_all :
    evaluate_temporal_rules str_eq marks
      (secret_read ∷ output ∷ request ∷ edit ∷ command ∷ [])
      secrets
      scope
    ≡ leak
      ∷ record {
        rule = out_of_scope_read_precedes_write;
        verdict = rule_deny;
        cause = secret_read;
        trigger = edit;
      }
      ∷ record {
        rule = injection_precedes_exec;
        verdict = rule_flag;
        cause = output;
        trigger = command;
      }
      ∷ []
unfolding evaluate_temporal_rules watch_from watch_event is_secret is_out_of_scope matches_any
finds_all = refl

evaluate_temporal_rules_lem_example :
    evaluate_temporal_rules str_eq marks (secret_read ∷ request ∷ []) secrets scope
    ≡ triggered_from str_eq marks secrets scope [] (secret_read ∷ request ∷ [])
evaluate_temporal_rules_lem_example =
    evaluate_temporal_rules_lem str_eq marks secrets scope (secret_read ∷ request ∷ [])

reads_secret : any (λ e. is_read e && is_secret str_eq secrets e) (secret_read ∷ []) ≡ true
unfolding is_secret matches_any
reads_secret = refl

secret_network-denied_example :
    (c : Event) × (is_read c ≡ true)
    × (is_secret str_eq secrets c ≡ true)
    × Memᴰ
        (record {
          rule = secret_precedes_network;
          verdict = rule_deny;
          cause = c;
          trigger = request;
        })
        (evaluate_temporal_rules str_eq marks (secret_read ∷ request ∷ edit ∷ []) secrets scope)
secret_network-denied_example =
    secret_network-denied str_eq marks secrets scope (secret_read ∷ []) (edit ∷ []) request refl
      reads_secret

reads_outside :
    any (λ e. is_read e && is_out_of_scope str_eq scope e) (secret_read ∷ request ∷ []) ≡ true
unfolding is_out_of_scope matches_any
reads_outside = refl

leaks : Memᴰ leak (evaluate_temporal_rules str_eq marks (secret_read ∷ request ∷ []) secrets scope)
unfolding evaluate_temporal_rules watch_from watch_event is_secret is_out_of_scope matches_any
leaks = Memᴰ.head refl

codex_events : all (λ (e : Event). supports_event_kind format_codex e.kind) (command ∷ []) ≡ true
unfolding supports_event_kind
codex_events = refl

codex_lacks : Memᴰ secret_precedes_network (unenforceable_rules format_codex)
unfolding unenforceable_rules starter_rules rule_required_kinds supports_event_kind
codex_lacks = Memᴰ.head refl

-- Numbers for floats, and texts that are taken as they are.
abbrev plain : Library
plain = record {
  Float = ℕ;
  parse_float = λ s. if str_eq s "5" then some 5 else none;
  is_finite = λ f. true;
  float_of_int = λ n. pos_part n;
  float_lt = ltb;
  float_le = leb;
  print_int = λ n. "";
  print_float = λ f. "5";
  trim_space = λ s. s;
  contains = str_eq;
  split_comma = λ s. s ∷ [];
  glob = str_eq;
}

abbrev cap_rule : ConditionRule
cap_rule = record {
  id = "cap";
  when = record { field = daily_cap_usd; op = gt; value = "5" } ∷ [];
  verdict = Verdict.deny;
  reason = "over the cap";
}

abbrev network_rule : ConditionRule
network_rule = deny_when_equal plain "net" "no network" network_enabled "true"

cap_accepted : validate plain cap_rule ≡ none
unfolding validate conditions_error condition_error valid_condition_field valid_condition_op
    validate_condition_value
cap_accepted = refl

abbrev facts : Field → Option (Fact plain)
facts network_enabled = some (Fact.flag true)
facts _ = none

accepted-disarmed_example :
    (validate plain (deny_when_equal plain "net" "no network" network_enabled "TRUE") ≡ none)
    × (fires plain (deny_when_equal plain "net" "no network" network_enabled "TRUE") facts ≡ false)
unfolding condition_field_type is_bool_literal
accepted-disarmed_example =
    accepted-disarmed plain "net" "no network" network_enabled "TRUE" facts true (λ e. cc e)
      (λ e. cc e) refl refl (λ e. cc ((eq_iff "TRUE" "true").1 e))
      (λ e. cc ((eq_iff "TRUE" "false").1 e)) refl

network_fires : fires plain network_rule facts ≡ true
unfolding fires matches
network_fires = refl
