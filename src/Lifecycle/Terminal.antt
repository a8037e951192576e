-- ===== src/Lifecycle/Terminal.antt =====
-- Terminal stages of internal/lifecycle/lifecycle.go, and what an accepted or refused call leaves.
use governator.Prelude.{
  String, ◌≡◌, ◌≢◌, refl, sym, ap, subst, ◌∙◌, ◌⊎◌, inl, inr, true, none, some, List, [], ◌∷◌, ◌++◌,
  Memᴰ, arith, get_last?, get_last?-append, Bool-cases, str_eq, eq_iff, if◌then◌else◌,
}
use governator.Lifecycle.{
  Stage, complete, rolled_back, abandoned, merged_ledger_pending, terminal_stages, transitions,
  validate, Row, stage_history, record_checked, Call, record_calls,
}
use governator.Lifecycle.Walk.{follow, recover, check_edge-none_iff}
use governator.Lifecycle.History.{
  Effect, unchanged, appended, new_row, record_checked-Effect, stage_history-append,
}

-- From a terminal stage the table leads at most from `COMPLETE` to `ROLLED_BACK`.
terminal_next :
    (t next : Stage)
    → terminal_stages t ≡ true
    → Memᴰ next (transitions t)
    → (t ≡ complete) × (next ≡ rolled_back)
unfolding terminal_stages transitions
terminal_next complete next h (Memᴰ.head e) = (refl, e)
terminal_next complete next h (Memᴰ.tail m) = elim m [ ]
terminal_next rolled_back next h m = elim m [ ]
terminal_next abandoned next h m = elim m [ ]
terminal_next merged_ledger_pending next h m = elim m [ ]
terminal_next _ next h m = cc

mem-get_last? : (h : List Stage) {t : Stage} → get_last? h ≡ some t → Memᴰ t h
mem-get_last? [] e = cc
mem-get_last? (x ∷ []) e = Memᴰ.head (ground arith)
mem-get_last? (x ∷ y ∷ ys) e = Memᴰ.tail (mem-get_last? (y ∷ ys) e)

-- What may be appended after a terminal stage.
after_terminal :
    (h : List Stage) (t next : Stage)
    → get_last? h ≡ some t
    → terminal_stages t ≡ true
    → validate h next ≡ none
    → ¬ Memᴰ next h
    → (t ≡ complete) × (next ≡ rolled_back)
unfolding validate
after_terminal h t next l term v fresh =
    elim ((check_edge-none_iff t next).0 (rw (l, validate) at v)) [
      | inl e ↦ absurd (fresh (subst (λ s. Memᴰ s h) (sym e) (mem-get_last? h l)))
      | inr (follow m) ↦ terminal_next t next term m
      | inr (recover f r) ↦ cc
    ]

-- One call leaves a run's history alone, or appends an accepted stage to it.
pub data HistoryStep (rows : List Row) (run : String) (after : List Row) : Type 0 where
  kept : stage_history after run ≡ stage_history rows run → HistoryStep rows run after
  grown :
      (stage : Stage)
      → validate (stage_history rows run) stage ≡ none
      → ¬ Memᴰ stage (stage_history rows run)
      → stage_history after run ≡ stage_history rows run ++ stage ∷ []
      → HistoryStep rows run after

Effect-HistoryStep :
    (rows : List Row) (called : String) (stage : Stage) {after : List Row} (run : String)
    → Effect rows called stage after
    → HistoryStep rows run after
Effect-HistoryStep rows called stage run (unchanged e) = kept (ap (λ r. stage_history r run) e)
Effect-HistoryStep rows called stage {after} run (appended detail created v fresh e) =
    let row : Row = new_row called stage detail created in
    let law : stage_history after run ≡ (
        if str_eq called run
        then stage_history rows run ++ stage ∷ []
        else stage_history rows run) =
      ap (λ r. stage_history r run) e ∙ stage_history-append rows row run in
    elim (Bool-cases (str_eq called run)) [
      | inr q ↦ kept (law ∙ rw q)
      | inl q ↦
          (let same : called ≡ run = (eq_iff called run).0 q in
            grown stage (subst (λ r. validate (stage_history rows r) stage ≡ none) same v)
              (subst (λ r. ¬ Memᴰ stage (stage_history rows r)) same fresh) (law ∙ rw q))
    ]

pub call_step :
    (c : Call) (rows : List Row) (run : String)
    → HistoryStep rows run (record_checked c.faults rows c.run_id c.stage c.detail c.created).0
call_step c rows run =
    Effect-HistoryStep rows c.run_id c.stage run
      (record_checked-Effect c.faults rows c.run_id c.stage c.detail c.created)

-- The table after one call.
abbrev called : List Row → Call → List Row
called rows c = (record_checked c.faults rows c.run_id c.stage c.detail c.created).0

-- A terminal stage other than `COMPLETE` absorbs.
sealed_stays :
    (rows : List Row) (calls : List Call) (run : String) (t : Stage)
    → get_last? (stage_history rows run) ≡ some t
    → terminal_stages t ≡ true
    → t ≢ complete
    → stage_history (record_calls rows calls) run ≡ stage_history rows run
unfolding record_calls
sealed_stays rows [] run t l term ne = refl
sealed_stays rows (c ∷ cs) run t l term ne = elim (call_step c rows run) [
  | kept e ↦ sealed_stays (called rows c) cs run t (ap get_last? e ∙ l) term ne ∙ e
  | grown s v fresh e ↦ absurd (ne (after_terminal (stage_history rows run) t s l term v fresh).0)
]

-- Once a run's last stage is terminal, no calls of `Record` change its history, except that a
-- `COMPLETE` run may still be recorded `ROLLED_BACK`, once and as its last stage.
pub terminal-absorbs :
    (rows : List Row) (calls : List Call) (run : String) (t : Stage)
    → get_last? (stage_history rows run) ≡ some t
    → terminal_stages t ≡ true
    → (stage_history (record_calls rows calls) run ≡ stage_history rows run)
      ⊎ ((t ≡ complete)
          × (stage_history (record_calls rows calls) run
              ≡ stage_history rows run ++ rolled_back ∷ []))
unfolding record_calls
terminal-absorbs rows [] run t l term = inl refl
terminal-absorbs rows (c ∷ cs) run t l term = elim (call_step c rows run) [
  | kept e ↦ elim (terminal-absorbs (called rows c) cs run t (ap get_last? e ∙ l) term) [
    | inl same ↦ inl (same ∙ e)
    | inr (was, more) ↦ inr (was, more ∙ ap (λ h. h ++ rolled_back ∷ []) e)
  ]
  | grown s v fresh e ↦
      (let (was, is_back) = after_terminal (stage_history rows run) t s l term v fresh in
        let e' : stage_history (called rows c) run ≡ stage_history rows run ++ rolled_back ∷ [] =
          e ∙ ap (λ x. stage_history rows run ++ x ∷ []) is_back in
        inr (
          was,
          sealed_stays (called rows c) cs run rolled_back
                (ap get_last? e' ∙ get_last?-append (stage_history rows run) rolled_back)
                (unfold terminal_stages in refl) (λ q. cc q)
              ∙ e',
        ))
]
