-- ===== src/Policy/Disarmed.antt =====
-- What the condition rules of internal/policy/conditions.go come to in a decision, and the rules that
-- pass the check at load time and never fire.
use governator.Prelude.{
  String, ◌≡◌, ◌≢◌, refl, ap, inl, Bool, true, false, Option, none, some, List, [], ◌∷◌, ◌++◌,
  arith, Memᴰ, any, any-append, str_eq, eq_iff,
}
use governator.Policy.Verdict.{Verdict, is_deny}
use governator.Policy.Decision.{Document}
use governator.Policy.Layers.{LayerResult, Override, evaluate_layers, resolve_overrides}
use governator.Policy.Resolve.{deny_final}
use governator.Policy.Conditions.{
  Library, Field, eq, ConditionRule, bool_type, condition_field_type, is_bool_literal, validate,
}
use governator.Policy.Firing.{Fact, print_bool, matches, fires, evaluate_condition_rules}
use governator.Policy.WellTyped.{bool_equality, validate_iff}

module _ (lib : Library) where
  -- A rule of one condition, that a Boolean fact equals a text, which denies.
  abbrev pub deny_when_equal : String → String → Field → String → ConditionRule
  deny_when_equal id reason f value = record {
    id = id;
    when = record { field = f; op = eq; value = value } ∷ [];
    verdict = Verdict.deny;
    reason = reason;
  }

  print_bool-ne :
      (b : Bool) (v : String) → v ≢ "true" → v ≢ "false" → str_eq (print_bool b) v ≡ false
  print_bool-ne true v t f = ground (arith, eq_iff "true" v)
  print_bool-ne false v t f = ground (arith, eq_iff "false" v)

  -- A rule that denies when a Boolean fact equals a Boolean literal other than the texts `true` and
  -- `false`, such as `TRUE` or `1`, passes the check at load time and never fires, whatever the
  -- fact is.
  pub accepted-disarmed :
      (id reason : String) (f : Field) (v : String) (facts : Field → Option (Fact lib)) (b : Bool)
      → lib.trim_space id ≢ ""
      → lib.trim_space reason ≢ ""
      → condition_field_type f ≡ bool_type
      → is_bool_literal (lib.trim_space v) ≡ true
      → v ≢ "true"
      → v ≢ "false"
      → facts f ≡ some (Fact.flag b)
      → (validate lib (deny_when_equal id reason f v) ≡ none)
        × (fires lib (deny_when_equal id reason f v) facts ≡ false)
  unfolding fires matches
  accepted-disarmed id reason f v facts b ni nr t l nt nf e = (
    (validate_iff lib (deny_when_equal id reason f v)).1 (record {
      named = ni;
      conditional = ground arith;
      objects = inl refl;
      explained = nr;
      typed = (bool_equality (inl refl) t l, tt);
    }),
    ground (arith, print_bool-ne b v nt nf),
  )

  module _ (hash : Document LayerResult → String) (rule_hash : ConditionRule → String) where
    denial-listed :
        (source : String) (rules : List ConditionRule) (facts : Field → Option (Fact lib))
        {r : ConditionRule}
        → Memᴰ r rules
        → r.verdict ≡ Verdict.deny
        → fires lib r facts ≡ true
        → any
            (λ (x : LayerResult). is_deny x.verdict)
            (evaluate_condition_rules lib rule_hash source rules facts)
          ≡ true
    unfolding evaluate_condition_rules
    denial-listed source [] facts m d h = elim m [ ]
    denial-listed source (x ∷ rules) facts (Memᴰ.head e) d h =
        ground (arith, ap (λ (y : ConditionRule). y.verdict) e, ap (λ y. fires lib y facts) e)
    denial-listed source (x ∷ rules) facts (Memᴰ.tail m) d h =
        ground (arith, denial-listed source rules facts m d h)

    -- Wherever a rule set with a firing rule that denies stands among the layers, the evaluation
    -- denies and does not allow, whatever the other layers say and whatever the operator overrides.
    pub firing-denies :
        (before after : List LayerResult) (os : List Override) (source : String)
        (rules : List ConditionRule) (facts : Field → Option (Fact lib)) {r : ConditionRule}
        → Memᴰ r rules
        → r.verdict ≡ Verdict.deny
        → fires lib r facts ≡ true
        → let results =
            before ++ (evaluate_condition_rules lib rule_hash source rules facts ++ after) in
          ((evaluate_layers hash (resolve_overrides results os).0).verdict ≡ Verdict.deny)
          × ((evaluate_layers hash (resolve_overrides results os).0).allowed ≡ false)
    firing-denies before after os source rules facts m d h =
        let own = evaluate_condition_rules lib rule_hash source rules facts in
        let denies : LayerResult → Bool = λ x. is_deny x.verdict in
        deny_final hash (before ++ (own ++ after)) os (
          ground (
            arith,
            any-append denies before (own ++ after),
            any-append denies own after,
            denial-listed source rules facts m d h,
          ))
