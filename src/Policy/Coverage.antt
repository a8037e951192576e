-- ===== src/Policy/Coverage.antt =====
-- What a violation of internal/policy/rules.go rests on, and the rules that
-- internal/policy/events.go reports as unenforceable for a transcript format.
use governator.Prelude.{
  String, ◌≡◌, refl, sym, ap, subst, ◌∙◌, ◌⊎◌, inl, inr, Bool, true, not, Option, none, some, List,
  [], ◌∷◌, ◌++◌, arith, Memᴰ, any, all, filter-mem, All-mem, all→All, mem-append_cases,
  mem-append_left, mem-append_right,
}
use governator.Policy.Rules.{
  EventKind, read, write, exec, network, tool_output, other, unknown, Event, RuleVerdict, Rule,
  secret_precedes_network, out_of_scope_read_precedes_write, injection_precedes_exec, RuleViolation,
  is_secret, is_out_of_scope, evaluate_temporal_rules, Format, supports_event_kind,
  rule_required_kinds, starter_rules, unenforceable_rules,
}
use governator.Policy.Temporal.{
  is_read, earliest, earliest-some, caused, pending_injection, triggered_kind, triggered,
  triggered_from, evaluate_temporal_rules_lem,
}

-- What a violation says of the events that it names.
record Grounded (v : RuleViolation) (back : List Event) (e : Event) : Type 0 where
  before : Memᴰ v.cause back
  triggers : v.trigger ≡ e
  kinds : rule_required_kinds v.rule ≡ v.cause.kind ∷ v.trigger.kind ∷ []

violation-parts :
    (o : Option Event) (r : Rule) (d : RuleVerdict) (e : Event) {v : RuleViolation}
    → Memᴰ v (caused o r d e)
    → (o ≡ some v.cause) × (v.trigger ≡ e) × (v.rule ≡ r)
violation-parts none r d e m = elim m [ ]
violation-parts (some c) r d e (Memᴰ.head q) = (
  ap some (sym (ap (λ (v : RuleViolation). v.cause) q)),
  ap (λ (v : RuleViolation). v.trigger) q,
  ap (λ (v : RuleViolation). v.rule) q,
)
violation-parts (some c) r d e (Memᴰ.tail m) = elim m [ ]

is_read→ : (e : Event) → is_read e ≡ true → e.kind ≡ read
is_read→ e h = ground arith

module _ (glob : String → String → Bool) (looks_like_injection : String → Bool)
    (secrets scope : List String) where
  pending-cases :
      (e : Event) (back : List Event) {c : Event}
      → pending_injection glob looks_like_injection secrets scope (e ∷ back) ≡ some c
      → (pending_injection glob looks_like_injection secrets scope back ≡ some c)
        ⊎ ((e ≡ c) × (e.kind ≡ tool_output))
  pending-cases e back h = ground arith

  pending_injection-some :
      (back : List Event) {c : Event}
      → pending_injection glob looks_like_injection secrets scope back ≡ some c
      → Memᴰ c back × (c.kind ≡ tool_output)
  pending_injection-some [] h = cc
  pending_injection-some (e ∷ back) h = elim (pending-cases e back h) [
    | inl p ↦ (let (m, k) = pending_injection-some back p in (Memᴰ.tail m, k))
    | inr (q, k) ↦ (Memᴰ.head (sym q), ap (λ (x : Event). x.kind) (sym q) ∙ k)
  ]

  triggered_kind-Grounded :
      (k : EventKind) (back : List Event) (e : Event) (v : RuleViolation)
      → e.kind ≡ k
      → Memᴰ v (triggered_kind glob looks_like_injection secrets scope k back e)
      → Grounded v back e
  unfolding rule_required_kinds
  triggered_kind-Grounded network back e v q m =
      let (o, t, r) =
        violation-parts (earliest (is_secret glob secrets) back) secret_precedes_network
          RuleVerdict.rule_deny e m in
      let (b, i, y) = earliest-some (is_secret glob secrets) back o in
      record { before = b; triggers = t; kinds = rw (r, is_read→ v.cause i, t, q) refl }
  triggered_kind-Grounded write back e v q m =
      let (o, t, r) =
        violation-parts (earliest (is_out_of_scope glob scope) back)
          out_of_scope_read_precedes_write RuleVerdict.rule_deny e m in
      let (b, i, y) = earliest-some (is_out_of_scope glob scope) back o in
      record { before = b; triggers = t; kinds = rw (r, is_read→ v.cause i, t, q) refl }
  triggered_kind-Grounded exec back e v q m =
      let (o, t, r) =
        violation-parts (pending_injection glob looks_like_injection secrets scope back)
          injection_precedes_exec RuleVerdict.rule_flag e m in
      let (b, i) = pending_injection-some back o in
      record { before = b; triggers = t; kinds = rw (r, i, t, q) refl }
  triggered_kind-Grounded read back e v q m = elim m [ ]
  triggered_kind-Grounded tool_output back e v q m = elim m [ ]
  triggered_kind-Grounded other back e v q m = elim m [ ]
  triggered_kind-Grounded (unknown s) back e v q m = elim m [ ]

  -- A violation among those of a list of events stands at a split of it.
  triggered_from-split :
      (back es : List Event) (v : RuleViolation)
      → Memᴰ v (triggered_from glob looks_like_injection secrets scope back es)
      → (pre : List Event) × (post : List Event) × (es ≡ pre ++ v.trigger ∷ post)
        × (Memᴰ v.cause back ⊎ Memᴰ v.cause pre)
        × (rule_required_kinds v.rule ≡ v.cause.kind ∷ v.trigger.kind ∷ [])
  triggered_from-split back [] v m = elim m [ ]
  triggered_from-split back (e ∷ es) v m =
      elim (mem-append_cases (triggered glob looks_like_injection secrets scope back e) _ m) [
        | inl here ↦
            (let g = triggered_kind-Grounded e.kind back e v refl here in
              ([], es, ap (λ x. x ∷ es) (sym g.triggers), inl g.before, g.kinds))
        | inr later ↦
            (let (pre, post, q, w, k) = triggered_from-split (e ∷ back) es v later in
              (e ∷ pre, post, ap (λ l. e ∷ l) q, shift pre w, k))
      ]
    where
      shift :
          (pre : List Event)
          → Memᴰ v.cause (e ∷ back) ⊎ Memᴰ v.cause pre
          → Memᴰ v.cause back ⊎ Memᴰ v.cause (e ∷ pre)
      shift pre (inl (Memᴰ.head q)) = inr (Memᴰ.head q)
      shift pre (inl (Memᴰ.tail m)) = inl m
      shift pre (inr m) = inr (Memᴰ.tail m)

  -- A violation names a cause that stands before its trigger in the events, and the two are of the
  -- kinds that the coverage table lists for the rule.
  pub violations-grounded :
      (events : List Event) (v : RuleViolation)
      → Memᴰ v (evaluate_temporal_rules glob looks_like_injection events secrets scope)
      → (pre : List Event) × (post : List Event) × (events ≡ pre ++ v.trigger ∷ post)
        × Memᴰ v.cause pre
        × (rule_required_kinds v.rule ≡ v.cause.kind ∷ v.trigger.kind ∷ [])
  violations-grounded events v m =
      let n =
        subst (Memᴰ v) (evaluate_temporal_rules_lem glob looks_like_injection secrets scope events)
          m in
      let (pre, post, q, w, k) = triggered_from-split [] events v n in (pre, post, q, only w, k)
    where
      only : {A : Type 0} {a : A} {l : List A} → Memᴰ a [] ⊎ Memᴰ a l → Memᴰ a l
      only (inl m) = elim m [ ]
      only (inr m) = m

  -- A rule that is reported as unenforceable for a format is not violated by any events of kinds
  -- that the format supports.
  unenforceable-silent :
      (f : Format) (events : List Event) (v : RuleViolation)
      → all (λ e. supports_event_kind f e.kind) events ≡ true
      → Memᴰ v.rule (unenforceable_rules f)
      → ¬ (Memᴰ v (evaluate_temporal_rules glob looks_like_injection events secrets scope))
  unfolding unenforceable_rules
  unenforceable-silent f events v s u m =
      let (pre, post, q, w, k) = violations-grounded events v m in
      let supported = all→All (λ e. supports_event_kind f e.kind) events s in
      let c : supports_event_kind f v.cause.kind ≡ true =
        All-mem _ events supported
          (subst (Memᴰ v.cause) (sym q) (mem-append_left pre (v.trigger ∷ post) w)) in
      let t : supports_event_kind f v.trigger.kind ≡ true = All-mem _ events supported (
        subst (Memᴰ v.trigger) (sym q)
          (mem-append_right pre (v.trigger ∷ post) (Memᴰ.head refl))) in
      let (_, lacks) =
        filter-mem (λ r. any (λ k. not (supports_event_kind f k)) (rule_required_kinds r))
          starter_rules u in
      let gap : any (λ k. not (supports_event_kind f k)) (v.cause.kind ∷ v.trigger.kind ∷ [])
          ≡ true =
        ap (λ l. any (λ k. not (supports_event_kind f k)) l) (sym k) ∙ lacks in
      ground arith
