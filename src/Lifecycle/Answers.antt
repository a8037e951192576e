-- ===== src/Lifecycle/Answers.antt =====
-- What the answer of `Record` of internal/lifecycle/lifecycle.go says of the table.
use governator.Prelude.{
  String, ◌≡◌, refl, sym, ap, ◌∙◌, ◌⊎◌, inl, inr, true, ◌&&◌, Option, none, some, List, [], ◌∷◌,
  ◌++◌, Memᴰ, any, get_last?, get_last?-append, Bool-cases, str_eq, eq_iff,
}
use governator.Lifecycle.{
  Stage, stage_eq, stage_eq_iff, validate, Row, Error, stage_history, record_stage, Faults, attempt,
  db_error, record_checked,
}
use governator.Lifecycle.History.{new_row, stage_history-append, history-recorded}

attempt-none :
    (e : Option Error) (rows : List Row) (rest : List Row × Option Error)
    → (attempt e rows rest).1 ≡ none
    → (e ≡ none) × (attempt e rows rest ≡ rest)
attempt-none none rows rest h = (refl, refl)
attempt-none (some e) rows rest h = cc

attempt-some :
    (e : Option Error) (rows : List Row) (rest : List Row × Option Error) {x : Error}
    → ((rest.1 ≡ some x) → rest.0 ≡ rows)
    → (attempt e rows rest).1 ≡ some x
    → (attempt e rows rest).0 ≡ rows
attempt-some none rows rest f h = f h
attempt-some (some e) rows rest f h = refl

-- A call that returns an error, of `Validate` or of the database, leaves the table as it was.
pub record_checked-error :
    (f : Faults) (rows : List Row) (run : String) (stage : Stage) (detail created : String)
    {x : Error}
    → (record_checked f rows run stage detail created).1 ≡ some x
    → (record_checked f rows run stage detail created).0 ≡ rows
unfolding record_checked
record_checked-error f rows run stage detail created =
    attempt-some (db_error f.read) rows
      (attempt (validate (stage_history rows run) stage) rows
        (attempt (db_error f.write) rows done))
      (attempt-some (validate (stage_history rows run) stage) rows
        (attempt (db_error f.write) rows done)
        (attempt-some (db_error f.write) rows done (λ e. cc e)))
  where
    done : List Row × Option Error
    done = (record_stage rows run stage detail created, none)

accepted :
    (f : Faults) (rows : List Row) (run : String) (stage : Stage) (detail created : String)
    → (record_checked f rows run stage detail created).1 ≡ none
    → (validate (stage_history rows run) stage ≡ none)
      × ((record_checked f rows run stage detail created).0
          ≡ record_stage rows run stage detail created)
unfolding record_checked
accepted f rows run stage detail created h =
    let done : List Row × Option Error = (record_stage rows run stage detail created, none) in
    let written : List Row × Option Error = attempt (db_error f.write) rows done in
    let checked : List Row × Option Error =
      attempt (validate (stage_history rows run) stage) rows written in
    let (_, e1) = attempt-none (db_error f.read) rows checked h in
    let (v, e2) =
      attempt-none (validate (stage_history rows run) stage) rows written
        (sym (ap (λ p. p.1) e1) ∙ h) in
    let (_, e3) = attempt-none (db_error f.write) rows done (sym (ap (λ p. p.1) (e1 ∙ e2)) ∙ h) in
    (v, ap (λ p. p.0) (e1 ∙ (e2 ∙ e3)))

row_in_history :
    (rows : List Row) (run : String) (stage : Stage)
    → any (λ r. str_eq r.run_id run && stage_eq r.stage stage) rows ≡ true
    → Memᴰ stage (stage_history rows run)
unfolding stage_history
row_in_history [] run stage h = cc
row_in_history (x ∷ xs) run stage h = elim (Bool-cases (str_eq x.run_id run)) [
  | inr e ↦ rw e (row_in_history xs run stage (rw e at h))
  | inl e ↦ elim (Bool-cases (stage_eq x.stage stage)) [
    | inl q ↦ rw e (Memᴰ.head (sym ((stage_eq_iff x.stage stage).0 q)))
    | inr q ↦ rw e (Memᴰ.tail (row_in_history xs run stage (rw (e, q) at h)))
  ]
]

-- The history of the run after the insert: as before, or with the stage as its last.
insert_cases :
    (rows : List Row) (run : String) (stage : Stage) (detail created : String)
    → (Memᴰ stage (stage_history rows run) × (record_stage rows run stage detail created ≡ rows))
      ⊎ (¬ Memᴰ stage (stage_history rows run)
          × (stage_history (record_stage rows run stage detail created) run
              ≡ stage_history rows run ++ stage ∷ []))
unfolding record_stage
insert_cases rows run stage detail created =
    elim (Bool-cases (any (λ r. str_eq r.run_id run && stage_eq r.stage stage) rows)) [
      | inl e ↦ inl (row_in_history rows run stage e, rw e)
      | inr e ↦ inr (
        λ m. cc (e, history-recorded rows run stage m),
        rw (
          e,
          stage_history-append rows (new_row run stage detail created) run,
          (eq_iff run run).1 refl,
        ),
      )
    ]

-- A call that returns no error acknowledges the stage: `Validate` accepted it. If the run had it
-- already, the table is as before, so that its last stage need not be the acknowledged one;
-- otherwise the stage is now the run's last.
pub acknowledged :
    (f : Faults) (rows : List Row) (run : String) (stage : Stage) (detail created : String)
    → (record_checked f rows run stage detail created).1 ≡ none
    → let after = (record_checked f rows run stage detail created).0 in
      (validate (stage_history rows run) stage ≡ none)
      × ((Memᴰ stage (stage_history rows run) × (after ≡ rows))
          ⊎ (¬ Memᴰ stage (stage_history rows run)
              × (get_last? (stage_history after run) ≡ some stage)))
acknowledged f rows run stage detail created h =
    let (v, e) = accepted f rows run stage detail created h in
    (
      v,
      elim (insert_cases rows run stage detail created) [
        | inl (m, same) ↦ inl (m, e ∙ same)
        | inr (fresh, grew) ↦ inr (
          fresh,
          ap (λ r. get_last? (stage_history r run)) e
              ∙ (ap get_last? grew ∙ get_last?-append (stage_history rows run) stage),
        )
      ],
    )
