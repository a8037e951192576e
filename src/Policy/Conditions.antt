-- ===== src/Policy/Conditions.antt =====
-- internal/policy/conditions.go: the declarative condition rules and their check at load time.
use governator.Prelude.{
  ℕ, ◌+◌, String, Bool, true, false, not, Option, none, some, List, [], ◌∷◌, any, str_eq,
  if◌then◌else◌, ℤ,
}
use governator.Policy.Verdict.{Verdict}

-- What the code uses of the packages `strings` and `strconv`, of floating-point numbers, and of
-- `MatchesAny`, whose patterns are regular expressions.
pub record Library : Type 1 where
  pub Float : Type 0
  -- `strconv.ParseFloat`; `none` is its error.
  pub parse_float : String → Option Float
  -- Neither NaN nor an infinity.
  pub is_finite : Float → Bool
  pub float_of_int : ℤ → Float
  pub float_lt : Float → Float → Bool
  pub float_le : Float → Float → Bool
  -- `strconv.Itoa` and `strconv.FormatFloat(f, 'g', -1, 64)`.
  pub print_int : ℤ → String
  pub print_float : Float → String
  pub trim_space : String → String
  pub contains : String → String → Bool
  pub split_comma : String → List String
  pub glob : String → String → Bool

-- A field name: a constant of facts.go, or any other text.
pub data Field : Type 0 where
  risk_class mode backend network_enabled write_out_of_scope estimated_cost_usd daily_cap_usd
        unusual_infra_retry infra_failure_kind :
      Field
  other_field : String → Field

pub data Op : Type 0 where
  eq ne gt gte lt lte op_contains matches_any : Op
  other_op : String → Op

pub record Condition : Type 0 where
  pub field : Field
  pub op : Op
  pub value : String

pub record ConditionRule : Type 0 where
  pub id : String
  pub when : List Condition
  pub verdict : Verdict
  pub reason : String

-- `conditionFieldTypes`; `untyped` is the empty text of a field that the table lacks.
pub data FieldType : Type 0 where
  string_type bool_type number_type list_type untyped : FieldType

unfoldable pub condition_field_type : Field → FieldType
condition_field_type risk_class = string_type
condition_field_type mode = string_type
condition_field_type backend = string_type
condition_field_type infra_failure_kind = string_type
condition_field_type network_enabled = bool_type
condition_field_type write_out_of_scope = bool_type
condition_field_type unusual_infra_retry = bool_type
condition_field_type estimated_cost_usd = number_type
condition_field_type daily_cap_usd = number_type
condition_field_type (other_field name) = untyped

-- `validConditionFields`.
unfoldable pub valid_condition_field : Field → Bool
valid_condition_field (other_field name) = false
valid_condition_field _ = true

-- `validConditionOps`.
unfoldable pub valid_condition_op : Op → Bool
valid_condition_op (other_op name) = false
valid_condition_op _ = true

pub data ValueError : Type 0 where
  needs_numeric_fact needs_string_fact needs_list_fact : FieldType → ValueError
  needs_numeric_literal needs_boolean_literal : String → ValueError
  needs_literal needs_pattern : ValueError

pub data RuleError : Type 0 where
  id_required when_required allow_not_permitted verdict_unknown reason_required : RuleError
  field_required field_unknown op_unknown : ℕ → RuleError
  value_wrong : ℕ → ValueError → RuleError

-- The texts that `strconv.ParseBool` takes.
unfoldable pub is_bool_literal : String → Bool
is_bool_literal s = any (str_eq s) (
    "1" ∷ "t" ∷ "T" ∷ "TRUE" ∷ "true" ∷ "True" ∷ "0" ∷ "f" ∷ "F" ∷ "FALSE" ∷ "false" ∷ "False" ∷ [])

module _ (lib : Library) where
  open lib use {
    Float, parse_float, is_finite, float_of_int, float_lt, float_le, print_int, print_float,
    trim_space, contains, split_comma, glob,
  }

  abbrev pub finite_only : Option Float → Option Float
  finite_only none = none
  finite_only (some f) = if is_finite f then some f else none

  -- `ToFloat`.
  unfoldable pub to_float : String → Option Float
  to_float s = finite_only (parse_float (trim_space s))

  abbrev pub is_number : Option Float → Bool
  is_number none = false
  is_number (some f) = true

  abbrev pub numeric_value : FieldType → String → Option ValueError
  numeric_value number_type value =
      if is_number (to_float value) then none else some (needs_numeric_literal value)
  numeric_value t value = some (needs_numeric_fact t)

  abbrev pub contains_value : FieldType → String → Option ValueError
  contains_value string_type value = if str_eq value "" then some needs_literal else none
  contains_value t value = some (needs_string_fact t)

  abbrev pub matches_value : FieldType → String → Option ValueError
  matches_value list_type value = if str_eq (trim_space value) "" then some needs_pattern else none
  matches_value t value = some (needs_list_fact t)

  abbrev pub equality_value : FieldType → String → Option ValueError
  equality_value bool_type value =
      if is_bool_literal (trim_space value) then none else some (needs_boolean_literal value)
  equality_value number_type value =
      if is_number (to_float value) then none else some (needs_numeric_literal value)
  equality_value t value = none

  abbrev pub value_error : Op → FieldType → String → Option ValueError
  value_error gt t value = numeric_value t value
  value_error gte t value = numeric_value t value
  value_error lt t value = numeric_value t value
  value_error lte t value = numeric_value t value
  value_error op_contains t value = contains_value t value
  value_error matches_any t value = matches_value t value
  value_error eq t value = equality_value t value
  value_error ne t value = equality_value t value
  value_error (other_op name) t value = none

  -- `validateConditionValue`.
  unfoldable pub validate_condition_value : Condition → Option ValueError
  unfolding to_float is_bool_literal condition_field_type
  validate_condition_value c = value_error c.op (condition_field_type c.field) c.value

  -- `strings.TrimSpace(c.Field) == ""`; the constants are not blank.
  abbrev pub is_blank_field : Field → Bool
  is_blank_field (other_field name) = str_eq (trim_space name) ""
  is_blank_field _ = false

  abbrev pub wrapped : ℕ → Option ValueError → Option RuleError
  wrapped i none = none
  wrapped i (some e) = some (value_wrong i e)

  -- The body of the loop of `Validate`.
  unfoldable pub condition_error : ℕ → Condition → Option RuleError
  condition_error i c =
      if is_blank_field c.field
      then some (field_required i)
      else if not (valid_condition_field c.field)
      then some (field_unknown i)
      else if not (valid_condition_op c.op)
      then some (op_unknown i)
      else wrapped i (validate_condition_value c)

  abbrev pub or_else : Option RuleError → Option RuleError → Option RuleError
  or_else none rest = rest
  or_else (some e) rest = some e

  unfoldable pub conditions_error : ℕ → List Condition → Option RuleError
  conditions_error i [] = none
  conditions_error i (c ∷ cs) = or_else (condition_error i c) (conditions_error (i + 1) cs)

  abbrev pub verdict_error : Verdict → Option RuleError
  verdict_error Verdict.deny = none
  verdict_error Verdict.ask = none
  verdict_error Verdict.flag = none
  verdict_error Verdict.allow = some allow_not_permitted
  verdict_error _ = some verdict_unknown

  abbrev pub is_empty : List Condition → Bool
  is_empty [] = true
  is_empty (c ∷ cs) = false

  -- `ConditionRule.Validate`; `none` is no error.
  unfoldable pub validate : ConditionRule → Option RuleError
  validate r =
      if str_eq (trim_space r.id) ""
      then some id_required
      else if is_empty r.when
      then some when_required
      else or_else (verdict_error r.verdict) (
          if str_eq (trim_space r.reason) ""
          then some reason_required
          else conditions_error 0 r.when)
