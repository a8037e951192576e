-- ===== src/Policy/WellTyped.antt =====
-- What a rule that internal/policy/conditions.go accepts at load time looks like.
use governator.Prelude.{
  ℕ, ◌+◌, String, ◌≡◌, ◌≢◌, ◌↔◌, ◌⊎◌, inl, inr, refl, true, false, none, List, [], ◌∷◌, arith, All,
  All-mem, str_eq, Bool-cases, eq_iff, Memᴰ,
}
use governator.Policy.Verdict.{Verdict}
use governator.Policy.Conditions.{
  Library, Field, Op, eq, ne, gt, gte, lt, lte, op_contains, matches_any, other_op, Condition,
  ConditionRule, FieldType, string_type, bool_type, number_type, list_type, untyped,
  condition_field_type, valid_condition_field, valid_condition_op, is_bool_literal, to_float,
  is_number, validate_condition_value, condition_error, conditions_error, validate, value_error,
  numeric_value, equality_value, contains_value, is_blank_field,
}

-- An order compares numbers.
abbrev pub IsOrder : Op → Type 0
IsOrder op = (op ≡ gt) ⊎ (op ≡ gte) ⊎ (op ≡ lt) ⊎ (op ≡ lte)

abbrev pub IsEquality : Op → Type 0
IsEquality op = (op ≡ eq) ⊎ (op ≡ ne)

module _ (lib : Library) where
  -- The conditions that make sense: an order or an equality of a numeric fact with a number, an
  -- equality of a Boolean fact with a Boolean, an equality of a text, and a search of a text that
  -- is not empty.
  pub data Sensible (op : Op) (t : FieldType) (value : String) : Type 0 where
    ordered :
        IsOrder op
        → t ≡ number_type
        → is_number lib (to_float lib value) ≡ true
        → Sensible op t value
    number_equality :
        IsEquality op
        → t ≡ number_type
        → is_number lib (to_float lib value) ≡ true
        → Sensible op t value
    bool_equality :
        IsEquality op
        → t ≡ bool_type
        → is_bool_literal (lib.trim_space value) ≡ true
        → Sensible op t value
    string_equality : IsEquality op → t ≡ string_type → Sensible op t value
    part : op ≡ op_contains → t ≡ string_type → value ≢ "" → Sensible op t value

  abbrev pub WellTyped : Condition → Type 0
  WellTyped c = Sensible c.op (condition_field_type c.field) c.value

  pub record IsAccepted (r : ConditionRule) : Type 0 where
    pub named : lib.trim_space r.id ≢ ""
    pub conditional : r.when ≢ []
    pub objects :
        (r.verdict ≡ Verdict.deny) ⊎ (r.verdict ≡ Verdict.ask) ⊎ (r.verdict ≡ Verdict.flag)
    pub explained : lib.trim_space r.reason ≢ ""
    pub typed : All WellTyped r.when

  numeric-Sensible :
      (op : Op) (t : FieldType) (v : String)
      → IsOrder op
      → numeric_value lib t v ≡ none
      → Sensible op t v
  numeric-Sensible op number_type v o h = ordered o refl (ground arith)
  numeric-Sensible op string_type v o h = cc h
  numeric-Sensible op bool_type v o h = cc h
  numeric-Sensible op list_type v o h = cc h
  numeric-Sensible op untyped v o h = cc h

  equality-Sensible :
      (op : Op) (t : FieldType) (v : String)
      → IsEquality op
      → t ≢ list_type
      → t ≢ untyped
      → equality_value lib t v ≡ none
      → Sensible op t v
  equality-Sensible op number_type v o nl nu h = number_equality o refl (ground arith)
  equality-Sensible op bool_type v o nl nu h = bool_equality o refl (ground arith)
  equality-Sensible op string_type v o nl nu h = string_equality o refl
  equality-Sensible op list_type v o nl nu h = absurd (nl refl)
  equality-Sensible op untyped v o nl nu h = absurd (nu refl)

  contains-Sensible :
      (t : FieldType) (v : String) → contains_value lib t v ≡ none → Sensible op_contains t v
  contains-Sensible string_type v h = elim (Bool-cases (str_eq v "")) [
    | inl e ↦ cc (rw e at h)
    | inr e ↦ part refl refl (λ p. cc ((eq_iff v "").1 p, e))
  ]
  contains-Sensible number_type v h = cc h
  contains-Sensible bool_type v h = cc h
  contains-Sensible list_type v h = cc h
  contains-Sensible untyped v h = cc h

  value_error-Sensible :
      (op : Op) (t : FieldType) (v : String)
      → valid_condition_op op ≡ true
      → t ≢ list_type
      → t ≢ untyped
      → value_error lib op t v ≡ none
      → Sensible op t v
  unfolding valid_condition_op
  value_error-Sensible eq t v ok nl nu h = equality-Sensible eq t v (inl refl) nl nu h
  value_error-Sensible ne t v ok nl nu h = equality-Sensible ne t v (inr refl) nl nu h
  value_error-Sensible gt t v ok nl nu h = numeric-Sensible gt t v (inl refl) h
  value_error-Sensible gte t v ok nl nu h = numeric-Sensible gte t v (inr (inl refl)) h
  value_error-Sensible lt t v ok nl nu h = numeric-Sensible lt t v (inr (inr (inl refl))) h
  value_error-Sensible lte t v ok nl nu h = numeric-Sensible lte t v (inr (inr (inr refl))) h
  value_error-Sensible op_contains t v ok nl nu h = contains-Sensible t v h
  value_error-Sensible matches_any list_type v ok nl nu h = absurd (nl refl)
  value_error-Sensible matches_any string_type v ok nl nu h = cc h
  value_error-Sensible matches_any bool_type v ok nl nu h = cc h
  value_error-Sensible matches_any number_type v ok nl nu h = cc h
  value_error-Sensible matches_any untyped v ok nl nu h = cc h
  value_error-Sensible (other_op name) t v ok nl nu h = cc ok

  Sensible-value_error :
      (op : Op) (t : FieldType) (v : String)
      → Sensible op t v
      → (valid_condition_op op ≡ true) × (t ≢ untyped) × (value_error lib op t v ≡ none)
  unfolding valid_condition_op
  Sensible-value_error op t v (ordered o e n) = ground arith
  Sensible-value_error op t v (number_equality o e n) = ground arith
  Sensible-value_error op t v (bool_equality o e n) = ground arith
  Sensible-value_error op t v (string_equality o e) = ground arith
  Sensible-value_error op t v (part o e n) = ground (arith, eq_iff v "")

  field_types :
      (f : Field)
      → valid_condition_field f ≡ true
      → (condition_field_type f ≢ list_type)
        × (condition_field_type f ≢ untyped)
        × (is_blank_field lib f ≡ false)
  unfolding valid_condition_field condition_field_type
  field_types f h = ground arith

  field_valid : (f : Field) → condition_field_type f ≢ untyped → valid_condition_field f ≡ true
  unfolding valid_condition_field condition_field_type
  field_valid f h = ground arith

  condition_error-parts :
      (i : ℕ) (c : Condition)
      → condition_error lib i c ≡ none
      → (valid_condition_field c.field ≡ true)
        × (valid_condition_op c.op ≡ true)
        × (value_error lib c.op (condition_field_type c.field) c.value ≡ none)
  unfolding condition_error validate_condition_value
  condition_error-parts i c h = ground arith

  condition_error-WellTyped : (i : ℕ) (c : Condition) → condition_error lib i c ≡ none → WellTyped c
  condition_error-WellTyped i c h =
      let (f, o, v) = condition_error-parts i c h in
      let (nl, nu, _) = field_types c.field f in
      value_error-Sensible c.op (condition_field_type c.field) c.value o nl nu v

  WellTyped-condition_error : (i : ℕ) (c : Condition) → WellTyped c → condition_error lib i c ≡ none
  unfolding condition_error validate_condition_value
  WellTyped-condition_error i c h =
      let (o, t, v) = Sensible-value_error c.op (condition_field_type c.field) c.value h in
      ground (arith, field_valid c.field t, field_types c.field)

  conditions_error-WellTyped :
      (i : ℕ) (cs : List Condition) → conditions_error lib i cs ≡ none → All WellTyped cs
  unfolding conditions_error
  conditions_error-WellTyped i [] h = tt
  conditions_error-WellTyped i (c ∷ cs) h = (
    condition_error-WellTyped i c (ground arith),
    conditions_error-WellTyped (i + 1) cs (ground arith),
  )

  WellTyped-conditions_error :
      (i : ℕ) (cs : List Condition) → All WellTyped cs → conditions_error lib i cs ≡ none
  unfolding conditions_error
  WellTyped-conditions_error i [] h = refl
  WellTyped-conditions_error i (c ∷ cs) h =
      ground (arith, WellTyped-condition_error i c h.0, WellTyped-conditions_error (i + 1) cs h.1)

  validate-IsAccepted : (r : ConditionRule) → validate lib r ≡ none → IsAccepted r
  unfolding validate
  validate-IsAccepted r h = record {
    named = ground (arith, eq_iff (lib.trim_space r.id) "");
    conditional = ground arith;
    objects = ground arith;
    explained = ground (arith, eq_iff (lib.trim_space r.reason) "");
    typed = conditions_error-WellTyped 0 r.when (ground arith);
  }

  IsAccepted-validate : (r : ConditionRule) → IsAccepted r → validate lib r ≡ none
  unfolding validate
  IsAccepted-validate r a = ground (
    arith,
    eq_iff (lib.trim_space r.id) "",
    eq_iff (lib.trim_space r.reason) "",
    WellTyped-conditions_error 0 r.when a.typed,
  )

  -- A rule passes the check at load time exactly when it has an id, a reason, a verdict that
  -- objects and at least one condition, and each of its conditions is sensible for the type of its
  -- field.
  pub validate_iff : (r : ConditionRule) → (validate lib r ≡ none) ↔ IsAccepted r
  validate_iff r = (validate-IsAccepted r, IsAccepted-validate r)

  Sensible-ne_matches : {op : Op} {t : FieldType} {v : String} → Sensible op t v → op ≢ matches_any
  Sensible-ne_matches (ordered o e n) = ground arith
  Sensible-ne_matches (number_equality o e n) = ground arith
  Sensible-ne_matches (bool_equality o e n) = ground arith
  Sensible-ne_matches (string_equality o e) = ground arith
  Sensible-ne_matches (part o e n) = ground arith

  -- No rule that passes the check has a condition with the operator `matches_any`, which the list
  -- of operators offers: it wants a list, and no field is one.
  validate-no_matches :
      (r : ConditionRule) (c : Condition)
      → validate lib r ≡ none
      → Memᴰ c r.when
      → c.op ≢ matches_any
  validate-no_matches r c h m =
      Sensible-ne_matches (All-mem WellTyped r.when (validate-IsAccepted r h).typed m)
