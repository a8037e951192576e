-- ===== src/Lifecycle/Gate.antt =====
-- What must have happened before a stage of internal/lifecycle/lifecycle.go is reached.
use mathlib.Core.List.{reverse-append, reverse_aux-eq, append_assoc}
use governator.Prelude.{
  String, ◌≡◌, refl, sym, ap, subst, ◌⊎◌, inl, inr, ◌∙◌, Bool, true, false, not, ◌||◌, List, [],
  ◌∷◌, ◌++◌, Memᴰ, arith, all, all→All, All-mem, reverse,
}
use governator.Lifecycle.{
  Stage, parsed, descendants_terminated, validating, final_validation_barrier, merge_intent,
  merge_applied, root_committed, merged, ledger_finalizing, approved, assaying, audited, stage_eq,
  stage_eq_iff, transitions, recovery_targets, stage_history, Call, record_calls,
}
use governator.Lifecycle.Walk.{Walk, unstarted, started, step, Edge, follow, recover, mem-reverse}
use governator.Lifecycle.History.{record_calls_walks}

-- `gate` guards a region of stages: a run does not begin in it, a crash does not lead into it, and
-- the table leads into it from within or from `gate`.
record Guards (gate : Stage) (region : Stage → Bool) : Type 0 where
  outside : region parsed ≡ false
  crash : (next : Stage) → recovery_targets next ≡ true → region next ≡ false
  table :
      (latest : Stage)
      → all
          (λ next. not (region next) || region latest || stage_eq latest gate)
          (transitions latest)
        ≡ true

module _ {gate : Stage} {region : Stage → Bool} (g : Guards gate region) where
  enter :
      (latest next : Stage)
      → Edge latest next
      → region next ≡ true
      → (region latest ≡ true) ⊎ (latest ≡ gate)
  enter latest next (recover t r) h = cc (g.crash next r, h)
  enter latest next (follow m) h =
      let open_edge : (not (region next) || region latest || stage_eq latest gate) ≡ true =
        All-mem _ (transitions latest) (all→All _ (transitions latest) (g.table latest)) m in
      ground (arith, stage_eq_iff latest gate)

  gate_below :
      (older : List Stage) (s : Stage) → Walk (s ∷ older) → region s ≡ true → Memᴰ gate older
  gate_below [] s started h = cc (g.outside, h)
  gate_below (latest ∷ older) s (step edge fresh w) h = elim (enter latest s edge h) [
    | inl r ↦ Memᴰ.tail (gate_below older latest w r)
    | inr e ↦ Memᴰ.head (sym e)
  ]

Walk-tail : {s : Stage} {older : List Stage} → Walk (s ∷ older) → Walk older
Walk-tail started = unstarted
Walk-tail (step edge fresh w) = w

Walk-drop : (newer older : List Stage) → Walk (newer ++ older) → Walk older
Walk-drop [] older w = w
Walk-drop (n ∷ newer) older w = Walk-drop newer older (Walk-tail w)

-- Oldest first: what stands before a stage is what is older.
reverse-split :
    (before : List Stage) (s : Stage) (after : List Stage)
    → reverse (before ++ s ∷ after) ≡ reverse after ++ s ∷ reverse before
reverse-split before s after =
    reverse-append before (s ∷ after)
    ∙ (ap (λ l. l ++ reverse before) (reverse_aux-eq after (s ∷ []))
        ∙ append_assoc (reverse after) (s ∷ []) (reverse before))

before-Walk :
    (calls : List Call) (run : String) (before after : List Stage) (s : Stage)
    → stage_history (record_calls [] calls) run ≡ before ++ s ∷ after
    → Walk (s ∷ reverse before)
before-Walk calls run before after s e =
    Walk-drop (reverse after) (s ∷ reverse before)
      (subst Walk (ap reverse e ∙ reverse-split before s after) (record_calls_walks calls run))

guarded :
    {gate : Stage} {region : Stage → Bool}
    → Guards gate region
    → (calls : List Call) (run : String) (before after : List Stage) (s : Stage)
    → stage_history (record_calls [] calls) run ≡ before ++ s ∷ after
    → region s ≡ true
    → Memᴰ gate before
guarded g calls run before after s e h =
    mem-reverse before (gate_below g (reverse before) s (before-Walk calls run before after s e) h)

-- The stages at which a run's change is being merged or has been merged.
unfoldable pub is_landing : Stage → Bool
is_landing merge_intent = true
is_landing merge_applied = true
is_landing root_committed = true
is_landing merged = true
is_landing ledger_finalizing = true
is_landing approved = true
is_landing _ = false

past_validating : Stage → Bool
past_validating assaying = true
past_validating final_validation_barrier = true
past_validating s = is_landing s

past_descendants : Stage → Bool
past_descendants audited = true
past_descendants validating = true
past_descendants s = past_validating s

landing-crash : (next : Stage) → recovery_targets next ≡ true → is_landing next ≡ false
unfolding recovery_targets is_landing
landing-crash parsed h = refl
landing-crash _ h = ground arith

validating-crash : (next : Stage) → recovery_targets next ≡ true → past_validating next ≡ false
unfolding recovery_targets is_landing past_validating
validating-crash parsed h = refl
validating-crash _ h = ground arith

descendants-crash : (next : Stage) → recovery_targets next ≡ true → past_descendants next ≡ false
unfolding recovery_targets is_landing past_validating past_descendants
descendants-crash parsed h = refl
descendants-crash _ h = ground arith

enters_landing : Stage → Bool
enters_landing latest =
    all
      (λ next.
        not (is_landing next) || is_landing latest || stage_eq latest final_validation_barrier)
      (transitions latest)

landing-table : (latest : Stage) → enters_landing latest ≡ true
unfolding enters_landing is_landing transitions stage_eq
landing-table parsed = refl
landing-table _ = refl

enters_validated : Stage → Bool
enters_validated latest =
    all (λ next. not (past_validating next) || past_validating latest || stage_eq latest validating)
      (transitions latest)

validated-table : (latest : Stage) → enters_validated latest ≡ true
unfolding enters_validated past_validating is_landing transitions stage_eq
validated-table parsed = refl
validated-table _ = refl

enters_terminated : Stage → Bool
enters_terminated latest =
    all
      (λ next.
        not (past_descendants next)
        || past_descendants latest
        || stage_eq latest descendants_terminated)
      (transitions latest)

terminated-table : (latest : Stage) → enters_terminated latest ≡ true
unfolding enters_terminated past_descendants past_validating is_landing transitions stage_eq
terminated-table parsed = refl
terminated-table _ = refl

barrier-Guards : Guards final_validation_barrier is_landing
unfolding enters_landing is_landing
barrier-Guards = record { outside = refl; crash = landing-crash; table = landing-table }

validating-Guards : Guards validating past_validating
unfolding enters_validated past_validating is_landing
validating-Guards = record { outside = refl; crash = validating-crash; table = validated-table }

termination-Guards : Guards descendants_terminated past_descendants
unfolding enters_terminated past_descendants past_validating is_landing
termination-Guards = record { outside = refl; crash = descendants-crash; table = terminated-table }

landing-validated : (s : Stage) → is_landing s ≡ true → past_validating s ≡ true
unfolding past_validating
landing-validated assaying h = refl
landing-validated final_validation_barrier h = refl
landing-validated _ h = h

validated-terminated : (s : Stage) → past_validating s ≡ true → past_descendants s ≡ true
unfolding past_descendants
validated-terminated audited h = refl
validated-terminated validating h = refl
validated-terminated _ h = h

-- Whatever calls of `Record` the runtime makes for whatever runs, also with failing statements: when
-- a run's history shows its change being merged, merged or approved, then before that stage it
-- shows that the backend's descendants were terminated, that the result was validated, and that
-- the final validation barrier was passed.
pub landing-gated :
    (calls : List Call) (run : String) (before after : List Stage) (s : Stage)
    → stage_history (record_calls [] calls) run ≡ before ++ s ∷ after
    → is_landing s ≡ true
    → Memᴰ final_validation_barrier before
      × Memᴰ validating before
      × Memᴰ descendants_terminated before
landing-gated calls run before after s e h = (
  guarded barrier-Guards calls run before after s e h,
  guarded validating-Guards calls run before after s e (landing-validated s h),
  guarded termination-Guards calls run before after s e
      (validated-terminated s (landing-validated s h)),
)
