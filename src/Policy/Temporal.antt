-- ===== src/Policy/Temporal.antt =====
-- When the temporal rules of internal/policy/rules.go fire: each violation of
-- `EvaluateTemporalRules` by the events before its trigger.
use governator.Prelude.{
  filter, filter-mem, get_last?, Bool-cases, Option-cases, and→left, and→right, subst, any, ◌||◌,
  String, ◌≡◌, refl, sym, ap, ◌∙◌, Bool, true, false, ◌&&◌, Option, none, some, List, [], ◌∷◌, ◌++◌,
  arith, if◌then◌else◌, Memᴰ, inl, inr, mem-append_left, mem-append_right,
}
use governator.Policy.Rules.{
  Rule, RuleVerdict, EventKind, write, exec, network, Event, rule_deny, rule_flag,
  secret_precedes_network, out_of_scope_read_precedes_write, injection_precedes_exec, RuleViolation,
  Watch, first, violation, is_secret, is_out_of_scope, watch_event, watch_from,
  evaluate_temporal_rules,
}

abbrev pub is_read : Event → Bool
is_read e = elim e.kind [ EventKind.read ↦ true | _ ↦ false ]

-- Of the events before some event, the latest first, the earliest read that passes a test.
abbrev pub earliest : (Event → Bool) → List Event → Option Event
earliest p back = get_last? (filter (λ e. is_read e && p e) back)

-- A violation with its cause, if there is one.
abbrev pub caused : Option Event → Rule → RuleVerdict → Event → List RuleViolation
caused o rule verdict e = elim o [
  | none ↦ []
  | some c ↦ record { rule = rule; verdict = verdict; cause = c; trigger = e } ∷ []
]

violation-caused :
    (o : Option Event) (rule : Rule) (verdict : RuleVerdict) (e : Event)
    → violation o rule verdict e ≡ caused o rule verdict e
violation-caused none rule verdict e = refl
violation-caused (some c) rule verdict e = refl

first-get_last? :
    (y : Event) (ys : List Event) (hit : Bool) (e : Event)
    → first (get_last? (y ∷ ys)) hit e ≡ get_last? (y ∷ ys)
first-get_last? y [] hit e = refl
first-get_last? y (z ∷ ys) hit e = first-get_last? z ys hit e

-- What `first` keeps of the earliest one and a later event is the earliest one again.
first-hit : (l : List Event) (e : Event) → first (get_last? l) true e ≡ get_last? (e ∷ l)
first-hit [] e = refl
first-hit (y ∷ ys) e = first-get_last? y ys true e

first-keeps : (o : Option Event) (e : Event) → first o false e ≡ o
first-keeps none e = refl
first-keeps (some c) e = refl

first-earliest :
    (p : Event → Bool) (back : List Event) (e : Event)
    → first (earliest p back) (is_read e && p e) e ≡ earliest p (e ∷ back)
first-earliest p back e = elim (Bool-cases (is_read e && p e)) [
  | inl hit ↦ rw hit (first-hit (filter (λ x. is_read x && p x) back) e)
  | inr miss ↦ rw miss (first-keeps (earliest p back) e)
]

get_last?-mem : (l : List Event) {c : Event} → get_last? l ≡ some c → Memᴰ c l
get_last?-mem [] h = cc h
get_last?-mem (x ∷ []) h = Memᴰ.head (sym (cc h))
get_last?-mem (x ∷ y ∷ ys) h = Memᴰ.tail (get_last?-mem (y ∷ ys) h)

get_last?-none : (l : List Event) → get_last? l ≡ none → l ≡ []
get_last?-none [] h = refl
get_last?-none (x ∷ []) h = cc h
get_last?-none (x ∷ y ∷ ys) h = cc (get_last?-none (y ∷ ys) h)

filter-none : (q : Event → Bool) (back : List Event) → filter q back ≡ [] → any q back ≡ false
filter-none q [] h = refl
filter-none q (e ∷ back) h = elim (Bool-cases (q e)) [
  | inl hit ↦ cc (rw hit at h)
  | inr miss ↦ rw miss (filter-none q back (rw miss at h))
]

earliest-none :
    (p : Event → Bool) (back : List Event)
    → earliest p back ≡ none
    → any (λ e. is_read e && p e) back ≡ false
earliest-none p back h = filter-none (λ e. is_read e && p e) back (get_last?-none _ h)

pub earliest-some :
    (p : Event → Bool) (back : List Event) {c : Event}
    → earliest p back ≡ some c
    → Memᴰ c back × (is_read c ≡ true) × (p c ≡ true)
earliest-some p back {c = c} h =
    let (m, q) = filter-mem (λ e. is_read e && p e) back (get_last?-mem _ h) in
    (m, and→left (is_read c) (p c) q, and→right (is_read c) (p c) q)

earliest-found :
    (p : Event → Bool) (back : List Event)
    → any (λ e. is_read e && p e) back ≡ true
    → (c : Event) × (earliest p back ≡ some c) × (is_read c ≡ true) × (p c ≡ true)
earliest-found p back h = elim (Option-cases (earliest p back)) [
  | inl n ↦ cc (earliest-none p back n, h)
  | inr (c, f) ↦ (let (m, r, y) = earliest-some p back f in (c, f, r, y))
]

module _ (glob : String → String → Bool) (looks_like_injection : String → Bool)
    (secrets scope : List String) where
  -- The marked tool output that is not yet answered by a command, from the latest event backwards.
  abbrev pub pending_injection : List Event → Option Event
  pending_injection [] = none
  pending_injection (e ∷ back) = elim e.kind [
    | EventKind.exec ↦ none
    | EventKind.tool_output ↦
        if looks_like_injection e.subject then some e else pending_injection back
    | _ ↦ pending_injection back
  ]

  -- The violations that an event of a kind triggers, by the events before it, the latest first.
  abbrev pub triggered_kind : EventKind → List Event → Event → List RuleViolation
  triggered_kind network back e =
      caused (earliest (is_secret glob secrets) back) secret_precedes_network rule_deny e
  triggered_kind write back e =
      caused (earliest (is_out_of_scope glob scope) back) out_of_scope_read_precedes_write rule_deny
        e
  triggered_kind exec back e = caused (pending_injection back) injection_precedes_exec rule_flag e
  triggered_kind _ back e = []

  abbrev pub triggered : List Event → Event → List RuleViolation
  triggered back e = triggered_kind e.kind back e

  abbrev pub triggered_from : List Event → List Event → List RuleViolation
  triggered_from back [] = []
  triggered_from back (e ∷ es) = triggered back e ++ triggered_from (e ∷ back) es

  abbrev watched : List Event → Watch
  watched back = record {
    secret_read = earliest (is_secret glob secrets) back;
    out_of_scope_read = earliest (is_out_of_scope glob scope) back;
    last_injection = pending_injection back;
  }

  watch-step :
      (back : List Event) (e : Event)
      → watch_event glob looks_like_injection secrets scope e.kind (watched back) e
        ≡ (watched (e ∷ back), triggered back e)
  unfolding watch_event
  watch-step back e = ground (
    arith,
    first-earliest (is_secret glob secrets) back e,
    first-earliest (is_out_of_scope glob scope) back e,
    violation-caused (earliest (is_secret glob secrets) back) secret_precedes_network rule_deny e,
    violation-caused (earliest (is_out_of_scope glob scope) back) out_of_scope_read_precedes_write
        rule_deny e,
    violation-caused (pending_injection back) injection_precedes_exec rule_flag e,
  )

  watch-triggered :
      (back es : List Event)
      → watch_from glob looks_like_injection secrets scope (watched back) es
        ≡ triggered_from back es
  unfolding watch_from
  watch-triggered back [] = refl
  watch-triggered back (e ∷ es) = rw (watch-step back e, watch-triggered (e ∷ back) es)

  -- One pass with three variables finds, event by event, what looking back over all earlier events
  -- finds: a network request after a read of a secret is denied with the earliest such read as its
  -- cause, a write after a read out of scope likewise, and a command after a marked tool output
  -- with no command between is flagged with the latest such output.
  pub evaluate_temporal_rules_lem :
      (events : List Event)
      → evaluate_temporal_rules glob looks_like_injection events secrets scope
        ≡ triggered_from [] events
  unfolding evaluate_temporal_rules
  evaluate_temporal_rules_lem events = watch-triggered [] events

  -- An event stands behind those before it, and triggers what it triggers there.
  trigger-place :
      (p : Event → Bool) (back pre post : List Event) (t : Event)
      → (before : List Event) × (any p before ≡ (any p back || any p pre))
        × ((v : RuleViolation)
            → Memᴰ v (triggered before t)
            → Memᴰ v (triggered_from back (pre ++ t ∷ post)))
  trigger-place p back [] post t = (
    back,
    ground arith,
    λ v m. mem-append_left (triggered back t) (triggered_from (t ∷ back) post) m,
  )
  trigger-place p back (e ∷ pre) post t =
      let (before, q, f) = trigger-place p (e ∷ back) pre post t in
      (
        before,
        ground arith,
        λ v m.
            mem-append_right (triggered back e) (triggered_from (e ∷ back) (pre ++ t ∷ post))
              (f v m),
      )

  network-triggers :
      (before : List Event) (t c : Event)
      → t.kind ≡ network
      → earliest (is_secret glob secrets) before ≡ some c
      → Memᴰ
          (record { rule = secret_precedes_network; verdict = rule_deny; cause = c; trigger = t })
          (triggered before t)
  network-triggers before t c k e =
      let one : triggered before t
          ≡ record { rule = secret_precedes_network; verdict = rule_deny; cause = c; trigger = t }
            ∷ [] =
        ap (λ (x : EventKind). triggered_kind x before t) k
        ∙ ap (λ o. caused o secret_precedes_network rule_deny t) e in
      subst (Memᴰ _) (sym one) (Memᴰ.head refl)

  -- A network request is denied whenever some earlier event is a read of a secret; the cause
  -- that is reported is such a read.
  pub secret_network-denied :
      (pre post : List Event) (t : Event)
      → t.kind ≡ network
      → any (λ e. is_read e && is_secret glob secrets e) pre ≡ true
      → (c : Event) × (is_read c ≡ true)
        × (is_secret glob secrets c ≡ true)
        × Memᴰ
            (record { rule = secret_precedes_network; verdict = rule_deny; cause = c; trigger = t })
            (evaluate_temporal_rules glob looks_like_injection (pre ++ t ∷ post) secrets scope)
  secret_network-denied pre post t k h =
      let q : Event → Bool = λ e. is_read e && is_secret glob secrets e in
      let (before, b, f) = trigger-place q [] pre post t in
      let (c, e, r, y) = earliest-found (is_secret glob secrets) before (b ∙ h) in
      (
        c,
        r,
        y,
        subst (Memᴰ _) (sym (evaluate_temporal_rules_lem (pre ++ t ∷ post)))
            (f _ (network-triggers before t c k e)),
      )
