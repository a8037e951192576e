-- ===== src/Policy/Firing.antt =====
-- internal/policy/conditions.go: the evaluation of condition rules against facts.
use Prim.Native.String.{◌++◌ as append}
use governator.Prelude.{
  String, Bool, true, false, not, Option, none, some, List, [], ◌∷◌, map, any, str_eq,
  if◌then◌else◌, ℤ,
}
use governator.Policy.Layers.{LayerResult}
use governator.Policy.Conditions.{
  Library, Field, Op, eq, ne, gt, gte, lt, lte, op_contains, matches_any, other_op, Condition,
  ConditionRule, to_float,
}

-- `strconv.FormatBool`.
abbrev pub print_bool : Bool → String
print_bool true = "true"
print_bool false = "false"

module _ (lib : Library) where
  open lib use {
    Float, float_of_int, float_lt, float_le, print_int, print_float, trim_space, contains,
    split_comma, glob,
  }

  -- A value of `map[string]any`, by the types that the code tells apart.
  pub data Fact : Type 0 where
    text : String → Fact
    flag : Bool → Fact
    int : ℤ → Fact
    float : Float → Fact
    strings : List String → Fact
    opaque : Fact

  -- `factString`.
  abbrev pub fact_string : Option Fact → Option String
  fact_string (some (text s)) = some s
  fact_string (some (flag b)) = some (print_bool b)
  fact_string (some (int n)) = some (print_int n)
  fact_string (some (float f)) = some (print_float f)
  fact_string _ = none

  -- `factFloat`.
  abbrev pub fact_float : Option Fact → Option Float
  fact_float (some (float f)) = some f
  fact_float (some (int n)) = some (float_of_int n)
  fact_float (some (text s)) = to_float lib s
  fact_float _ = none

  -- `factStringSlice`.
  abbrev pub fact_string_slice : Option Fact → Option (List String)
  fact_string_slice (some (strings l)) = some l
  fact_string_slice _ = none

  abbrev pub holds_text : (String → Bool) → Option String → Bool
  holds_text test none = false
  holds_text test (some got) = test got

  abbrev pub holds_number : (Float → Float → Bool) → Option Float → Option Float → Bool
  holds_number test none want = false
  holds_number test (some got) none = false
  holds_number test (some got) (some want) = test got want

  abbrev pub holds_list : List String → Option (List String) → Bool
  holds_list patterns none = false
  holds_list patterns (some got) = any (λ g. any (λ p. glob p g) patterns) got

  abbrev pub holds : Op → String → Option Fact → Bool
  holds eq value fact = holds_text (λ got. str_eq got value) (fact_string fact)
  holds ne value fact = holds_text (λ got. not (str_eq got value)) (fact_string fact)
  holds op_contains value fact = holds_text (λ got. contains got value) (fact_string fact)
  holds gt value fact =
      holds_number (λ got want. float_lt want got) (fact_float fact) (to_float lib value)
  holds gte value fact =
      holds_number (λ got want. float_le want got) (fact_float fact) (to_float lib value)
  holds lt value fact =
      holds_number (λ got want. float_lt got want) (fact_float fact) (to_float lib value)
  holds lte value fact =
      holds_number (λ got want. float_le got want) (fact_float fact) (to_float lib value)
  holds matches_any value fact =
      holds_list (map trim_space (split_comma value)) (fact_string_slice fact)
  holds (other_op name) value fact = false

  -- `matches`.
  unfoldable pub matches : (Field → Option Fact) → Condition → Bool
  unfolding to_float
  matches facts c = holds c.op c.value (facts c.field)

  -- `Fires`: the loop stops at the first condition that does not hold.
  unfoldable pub fires_on : (Field → Option Fact) → List Condition → Bool
  fires_on facts [] = true
  fires_on facts (c ∷ cs) = if not (matches facts c) then false else fires_on facts cs

  unfoldable pub fires : ConditionRule → (Field → Option Fact) → Bool
  unfolding fires_on
  fires r facts = fires_on facts r.when

  -- `RuleDefinitionHash` is a parameter, `encoding/json` and `crypto/sha256`.
  module _ (rule_definition_hash : ConditionRule → String) where
    -- `overrideTarget`.
    unfoldable pub override_target : String → ConditionRule → String
    override_target source r =
        append source (append ":" (append r.id (append ":" (rule_definition_hash r))))

    unfoldable pub result_of : String → ConditionRule → LayerResult
    unfolding override_target
    result_of source r = record {
      source = source;
      verdict = r.verdict;
      reason = append r.id (append ": " r.reason);
      rule_id = r.id;
      override_target = override_target source r;
      rule_hash = rule_definition_hash r;
    }

    -- `EvaluateConditionRules`.
    unfoldable pub evaluate_condition_rules :
        String → List ConditionRule → (Field → Option Fact) → List LayerResult
    unfolding result_of
    evaluate_condition_rules source [] facts = []
    evaluate_condition_rules source (r ∷ rs) facts =
        let rest = evaluate_condition_rules source rs facts in
        if fires r facts then result_of source r ∷ rest else rest
