-- ===== src/Lifecycle/History.antt =====
-- What `Record` of internal/lifecycle/lifecycle.go does to the history of every run.
use mathlib.Core.List.{reverse-append, reverse-reverse, reverse_aux-eq}
use mathlib.Core.Bool.{or-true}
use governator.Prelude.{
  String, ◌≡◌, refl, sym, ap, subst, ◌∙◌, inl, inr, true, ◌&&◌, Option, none, some, List, [], ◌∷◌,
  ◌++◌, Memᴰ, arith, any, get_last?-append, Bool-cases, str_eq, eq_iff, if◌then◌else◌, reverse,
}
use governator.Lifecycle.{
  Stage, stage_eq, stage_eq_iff, check_edge, validate, Error, Row, stage_history, record_stage,
  Faults, record_checked, attempt, db_error, Call, record_calls,
}
use governator.Lifecycle.Walk.{
  Walk, unstarted, started, step, check_edge-none_iff, validate-none_first, mem-reverse,
}

abbrev pub new_row : String → Stage → String → String → Row
new_row run stage detail created = record {
  run_id = run;
  stage = stage;
  detail = detail;
  created = created;
}

pub stage_history-append :
    (rows : List Row) (r : Row) (run : String)
    → stage_history (rows ++ r ∷ []) run ≡ (
        if str_eq r.run_id run
        then stage_history rows run ++ r.stage ∷ []
        else stage_history rows run)
unfolding stage_history
stage_history-append [] r run = ground arith
stage_history-append (x ∷ xs) r run = ground (arith, stage_history-append xs r run)

-- A stage of the history stands in a row of the run.
pub history-recorded :
    (rows : List Row) (run : String) (stage : Stage)
    → Memᴰ stage (stage_history rows run)
    → any (λ r. str_eq r.run_id run && stage_eq r.stage stage) rows ≡ true
unfolding stage_history
history-recorded [] run stage m = elim m [ ]
history-recorded (x ∷ xs) run stage m = elim (Bool-cases (str_eq x.run_id run)) [
  | inl e ↦ elim (rw e at m) [
    | Memᴰ.head p ↦ rw (e, (stage_eq_iff x.stage stage).1 (sym p))
    | Memᴰ.tail r ↦ rw (e, history-recorded xs run stage r, or-true)
  ]
  | inr e ↦ rw e (history-recorded xs run stage (rw e at m))
]

-- Either a call leaves the table as it is, or it appends one row that `validate` accepted and that
-- the run did not have.
pub data Effect (rows : List Row) (run : String) (stage : Stage) (after : List Row) : Type 0 where
  unchanged : after ≡ rows → Effect rows run stage after
  appended :
      (detail created : String)
      → validate (stage_history rows run) stage ≡ none
      → ¬ Memᴰ stage (stage_history rows run)
      → after ≡ rows ++ new_row run stage detail created ∷ []
      → Effect rows run stage after

record_stage-Effect :
    (rows : List Row) (run : String) (stage : Stage) (detail created : String)
    → validate (stage_history rows run) stage ≡ none
    → Effect rows run stage (record_stage rows run stage detail created)
unfolding record_stage
record_stage-Effect rows run stage detail created v =
    elim (Bool-cases (any (λ r. str_eq r.run_id run && stage_eq r.stage stage) rows)) [
      | inl e ↦ unchanged (rw e)
      | inr e ↦ appended detail created v (λ m. cc (e, history-recorded rows run stage m)) (rw e)
    ]

attempt-Effect :
    (e : Option Error) (rows : List Row) (rest : List Row × Option Error) {run : String}
    {stage : Stage}
    → (e ≡ none → Effect rows run stage rest.0)
    → Effect rows run stage (attempt e rows rest).0
attempt-Effect (some e) rows rest h = unchanged refl
attempt-Effect none rows rest h = h refl

pub record_checked-Effect :
    (f : Faults) (rows : List Row) (run : String) (stage : Stage) (detail created : String)
    → Effect rows run stage (record_checked f rows run stage detail created).0
unfolding record_checked
record_checked-Effect f rows run stage detail created =
    attempt-Effect (db_error f.read) rows
      (attempt (validate (stage_history rows run) stage) rows
        (attempt (db_error f.write) rows done))
      λ _.
        attempt-Effect (validate (stage_history rows run) stage) rows
          (attempt (db_error f.write) rows done)
          λ accepted.
            attempt-Effect (db_error f.write) rows done
              λ _. record_stage-Effect rows run stage detail created accepted
  where
    done : List Row × Option Error
    done = (record_stage rows run stage detail created, none)

reverse-cons :
    (latest : Stage) (older : List Stage) → reverse (latest ∷ older) ≡ reverse older ++ latest ∷ []
reverse-cons latest older = reverse_aux-eq older (latest ∷ [])

validate-append :
    (h : List Stage) (latest next : Stage)
    → validate (h ++ latest ∷ []) next ≡ check_edge latest next
unfolding validate
validate-append h latest next = rw (get_last?-append h latest, validate)

Walk-extend :
    (newest_first : List Stage) (next : Stage)
    → Walk newest_first
    → validate (reverse newest_first) next ≡ none
    → ¬ Memᴰ next newest_first
    → Walk (next ∷ newest_first)
Walk-extend [] next w v fresh =
    subst (λ s. Walk (s ∷ [])) (sym ((validate-none_first next).0 v)) started
Walk-extend (latest ∷ older) next w v fresh =
    elim ((check_edge-none_iff latest next).0 (
      sym (validate-append (reverse older) latest next)
      ∙ (ap (λ h. validate h next) (sym (reverse-cons latest older)) ∙ v))) [
        | inl e ↦ absurd (fresh (Memᴰ.head e))
        | inr edge ↦ step edge fresh w
      ]

abbrev IsWalked : List Row → Type 0
IsWalked rows = (run : String) → Walk (reverse (stage_history rows run))

-- One appended row extends the history of its own run and no other.
append-Walk :
    (rows : List Row) (run : String) (stage : Stage) (detail created : String)
    → validate (stage_history rows run) stage ≡ none
    → ¬ Memᴰ stage (stage_history rows run)
    → IsWalked rows
    → IsWalked (rows ++ new_row run stage detail created ∷ [])
append-Walk rows run stage detail created v fresh w other_run =
    let h : List Stage = stage_history rows run in
    elim (Bool-cases (str_eq run other_run)) [
      | inl e ↦
          subst
            (λ r. Walk (reverse (stage_history (rows ++ new_row run stage detail created ∷ []) r)))
            ((eq_iff run other_run).0 e)
            (rw
              (
                stage_history-append rows (new_row run stage detail created) run,
                (eq_iff run run).1 refl,
                reverse-append h (stage ∷ []),
              )
              (Walk-extend (reverse h) stage (w run) (rw (reverse-reverse h) v)
                (λ m. fresh (mem-reverse h m))))
      | inr e ↦
          rw (stage_history-append rows (new_row run stage detail created) other_run, e)
            (w other_run)
    ]

Effect-Walk :
    (rows : List Row) (run : String) (stage : Stage) {after : List Row}
    → Effect rows run stage after
    → IsWalked rows
    → IsWalked after
Effect-Walk rows run stage (unchanged e) w = subst IsWalked (sym e) w
Effect-Walk rows run stage (appended detail created v fresh e) w =
    subst IsWalked (sym e) (append-Walk rows run stage detail created v fresh w)

pub record_calls-Walk :
    (rows : List Row) (calls : List Call) → IsWalked rows → IsWalked (record_calls rows calls)
unfolding record_calls
record_calls-Walk rows [] w = w
record_calls-Walk rows (c ∷ cs) w =
    record_calls-Walk (record_checked c.faults rows c.run_id c.stage c.detail c.created).0 cs (
      Effect-Walk rows c.run_id c.stage
        (record_checked-Effect c.faults rows c.run_id c.stage c.detail c.created) w)

-- Whatever is recorded for whatever runs, the history of each run starts with `PARSED`, has no
-- stage twice, and goes along edges.
pub record_calls_walks :
    (calls : List Call) (run : String) → Walk (reverse (stage_history (record_calls [] calls) run))
record_calls_walks calls run =
    record_calls-Walk [] calls (λ _. unfold stage_history in unstarted) run
