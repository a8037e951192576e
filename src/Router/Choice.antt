-- ===== src/Router/Choice.antt =====
-- `selectWinner`, `selectedAgent` and `orderForDisplay` of internal/router.
use governator.Prelude.{
  ℕ, suc, ◌==◌, String, Bool, true, false, ◌&&◌, ◌||◌, Option, none, some, List, [], ◌∷◌, str_lt,
  if◌then◌else◌,
}
use governator.Router.{Floats, ScoredCandidate}
use governator.Router.Score.{is_survivor}

-- `candidate.Total > best.Total`, or an equal total and a smaller name.
abbrev pub beats : {F : Type 0} → Floats F → ScoredCandidate F → ScoredCandidate F → Bool
beats fl c best =
    fl.less best.total c.total || (fl.equal c.total best.total && str_lt c.agent best.agent)

-- The index and the value of the best of two.
abbrev pub better :
    {F : Type 0}
    → Floats F
    → ℕ
    → ScoredCandidate F
    → Option (ℕ × ScoredCandidate F)
    → Option (ℕ × ScoredCandidate F)
better fl i c none = if is_survivor c then some (i, c) else none
better fl i c (some (j, b)) = if is_survivor c && beats fl c b then some (i, c) else some (j, b)

-- The loop of `selectWinner`.
unfoldable pub best_from :
    {F : Type 0}
    → Floats F
    → ℕ
    → Option (ℕ × ScoredCandidate F)
    → List (ScoredCandidate F)
    → Option (ℕ × ScoredCandidate F)
best_from fl i best [] = best
best_from fl i best (c ∷ cs) = best_from fl (suc i) (better fl i c best) cs

unfoldable pub mark : {F : Type 0} → ℕ → ℕ → List (ScoredCandidate F) → List (ScoredCandidate F)
mark i at [] = []
mark i at (c ∷ cs) = (if i == at then record c { selected = true } else c) ∷ mark (suc i) at cs

abbrev pub mark_best :
    {F : Type 0}
    → Option (ℕ × ScoredCandidate F)
    → List (ScoredCandidate F)
    → List (ScoredCandidate F)
unfolding mark
mark_best none scored = scored
mark_best (some (at, c)) scored = mark 0 at scored

-- `selectWinner`.
unfoldable pub select_winner :
    {F : Type 0} → Floats F → List (ScoredCandidate F) → List (ScoredCandidate F)
unfolding best_from mark
select_winner fl scored = mark_best (best_from fl 0 none scored) scored

-- `selectedAgent`.
unfoldable pub selected_agent : {F : Type 0} → List (ScoredCandidate F) → String
selected_agent [] = ""
selected_agent (c ∷ cs) = if c.selected then c.agent else selected_agent cs

-- The order of `orderForDisplay`.
abbrev pub is_shown_before : {F : Type 0} → Floats F → ScoredCandidate F → ScoredCandidate F → Bool
is_shown_before fl c d =
    if is_survivor c
    then if is_survivor d
      then if fl.equal c.total d.total then str_lt c.agent d.agent else fl.less d.total c.total
      else true
    else if is_survivor d
    then false
    else str_lt c.agent d.agent

unfoldable pub insert_shown :
    {F : Type 0}
    → Floats F
    → ScoredCandidate F
    → List (ScoredCandidate F)
    → List (ScoredCandidate F)
insert_shown fl c [] = c ∷ []
insert_shown fl c (d ∷ ds) = if is_shown_before fl d c then d ∷ insert_shown fl c ds else c ∷ d ∷ ds

-- `orderForDisplay`.
unfoldable pub order_for_display :
    {F : Type 0} → Floats F → List (ScoredCandidate F) → List (ScoredCandidate F)
unfolding insert_shown
order_for_display fl [] = []
order_for_display fl (c ∷ cs) = insert_shown fl c (order_for_display fl cs)
