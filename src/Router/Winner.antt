-- ===== src/Router/Winner.antt =====
-- The choice of `selectWinner` of internal/router.
use governator.Prelude.{
  ℕ, suc, ◌≤◌, ◌≡◌, ◌≢◌, ◌∙◌, ◌⊎◌, inl, inr, refl, sym, ap, true, false, ◌&&◌, Option, none, some,
  List, [], ◌∷◌, arith, Memᴰ, All, All-imp, Bool-cases, Option-cases, and→left, str_lt,
  str_lt_irrefl, str_lt_trans,
}
use governator.Router.{Floats, ScoredCandidate}
use governator.Router.Score.{is_survivor}
use governator.Router.Choice.{beats, better, best_from, mark, select_winner, selected_agent}

-- What IEEE 754 has of comparisons, also with values that are not numbers.
pub record IsOrder {F : Type 0} (fl : Floats F) : Type 0 where
  pub less_irrefl : (a : F) → fl.less a a ≡ false
  pub less_trans : (a b c : F) → fl.less a b ≡ true → fl.less b c ≡ true → fl.less a c ≡ true
  pub equal_sym : (a b : F) → fl.equal a b ≡ true → fl.equal b a ≡ true
  pub equal_trans : (a b c : F) → fl.equal a b ≡ true → fl.equal b c ≡ true → fl.equal a c ≡ true
  pub less_equal : (a b c : F) → fl.less a b ≡ true → fl.equal b c ≡ true → fl.less a c ≡ true
  pub equal_less : (a b c : F) → fl.equal a b ≡ true → fl.less b c ≡ true → fl.less a c ≡ true

-- A candidate without an exclusion, such that no other one has a greater total, and none with an equal
-- total a smaller name.
pub record IsBest {F : Type 0} (fl : Floats F) (scored : List (ScoredCandidate F))
    (c : ScoredCandidate F) : Type 0 where
  pub among : Memᴰ c scored
  pub survives : c.exclusion ≡ none
  pub greatest :
      All (λ (v : ScoredCandidate F). v.exclusion ≡ none → fl.less c.total v.total ≡ false) scored
  pub first_by_name :
      All
        (λ (v : ScoredCandidate F).
          v.exclusion ≡ none → fl.equal v.total c.total ≡ true → str_lt v.agent c.agent ≡ false)
        scored

survivor-none : {F : Type 0} (c : ScoredCandidate F) → is_survivor c ≡ true → c.exclusion ≡ none
survivor-none c h = elim (Option-cases c.exclusion) [
  | inl e ↦ e
  | inr (r, e) ↦ absurd (ground (arith, rw e at h))
]

none-survivor : {F : Type 0} (c : ScoredCandidate F) → c.exclusion ≡ none → is_survivor c ≡ true
none-survivor c h = rw h refl

pub excluded-survivor :
    {F : Type 0} (c : ScoredCandidate F) → c.exclusion ≢ none → is_survivor c ≡ false
excluded-survivor c h = elim (Bool-cases (is_survivor c)) [
  | inl s ↦ absurd (h (survivor-none c s))
  | inr n ↦ n
]

module _ {F : Type 0} (fl : Floats F) where
  -- What the loop keeps of two is the one that it had, or the one that it meets.
  better-inverted :
      (i j : ℕ) (c b : ScoredCandidate F) (o : Option (ℕ × ScoredCandidate F))
      → better fl i c o ≡ some (j, b)
      → (o ≡ some (j, b)) ⊎ ((is_survivor c ≡ true) × (i ≡ j) × (c ≡ b))
  better-inverted i j c b none e = elim (Bool-cases (is_survivor c)) [
    | inl s ↦ (let p : some (i, c) ≡ some (j, b) = rw s at e in inr (s, cc p, cc p))
    | inr n ↦ (let p : none ≡ some (j, b) = rw n at e in cc p)
  ]
  better-inverted i j c b (some (k, d)) e = elim (Bool-cases (is_survivor c && beats fl c d)) [
    | inl s ↦
        (let p : some (i, c) ≡ some (j, b) = rw s at e in
          inr (and→left (is_survivor c) (beats fl c d) s, cc p, cc p))
    | inr n ↦ (let p : some (k, d) ≡ some (j, b) = rw n at e in inl p)
  ]

  marked_head :
      (i : ℕ) (c : ScoredCandidate F) (cs : List (ScoredCandidate F))
      → selected_agent (mark i i (c ∷ cs)) ≡ c.agent
  unfolding mark selected_agent
  marked_head i c cs = ground arith

  marked_tail :
      (i j : ℕ) (c : ScoredCandidate F) (cs : List (ScoredCandidate F))
      → c.selected ≡ false
      → suc i ≤ j
      → selected_agent (mark i j (c ∷ cs)) ≡ selected_agent (mark (suc i) j cs)
  unfolding mark selected_agent
  marked_tail i j c cs u l = ground (arith, u, l)

  -- What the loop ends with is what it starts with, or a survivor that the marking then selects.
  best_from-marked :
      (i j : ℕ) (best : Option (ℕ × ScoredCandidate F)) (b : ScoredCandidate F)
      (cs : List (ScoredCandidate F))
      → All (λ (c : ScoredCandidate F). c.selected ≡ false) cs
      → best_from fl i best cs ≡ some (j, b)
      → (best ≡ some (j, b))
        ⊎ (Memᴰ b cs × (is_survivor b ≡ true) × (i ≤ j) × (selected_agent (mark i j cs) ≡ b.agent))
  unfolding best_from
  best_from-marked i j best b [] u h = inl h
  best_from-marked i j best b (c ∷ cs) u h =
      elim (best_from-marked (suc i) j (better fl i c best) b cs u.1 h) [
        | inr (m, s, l, e) ↦ inr (Memᴰ.tail m, s, omega arith, marked_tail i j c cs u.0 l ∙ e)
        | inl e ↦ elim (better-inverted i j c b best e) [
          | inl same ↦ inl same
          | inr (s, i_j, c_b) ↦ inr (
            Memᴰ.head (sym c_b),
            ap is_survivor (sym c_b) ∙ s,
            omega arith,
            (ap (λ k. selected_agent (mark i k (c ∷ cs))) (sym i_j)
                ∙ (marked_head i c cs ∙ ap (λ (x : ScoredCandidate F). x.agent) c_b)),
          )
        ]
      ]

  module _ (ord : IsOrder fl) where
    beats_irrefl : (c : ScoredCandidate F) → beats fl c c ≡ false
    beats_irrefl c = ground (arith, ord.less_irrefl c.total, str_lt_irrefl c.agent)

    beats_trans :
        (u v b : ScoredCandidate F)
        → beats fl u v ≡ true
        → beats fl v b ≡ true
        → beats fl u b ≡ true
    beats_trans u v b h k = ground (
      arith,
      h,
      k,
      ord.less_trans b.total v.total u.total,
      ord.equal_sym v.total b.total,
      ord.equal_less b.total v.total u.total,
      ord.equal_sym u.total v.total,
      ord.less_equal b.total v.total u.total,
      ord.equal_trans u.total v.total b.total,
      str_lt_trans u.agent v.agent b.agent,
    )

    -- A candidate that the loop's best is not beaten by.
    abbrev IsHeld : ScoredCandidate F → Option (ℕ × ScoredCandidate F) → Type 0
    IsHeld v o = (j : ℕ) × (b : ScoredCandidate F) × (o ≡ some (j, b)) × (beats fl v b ≡ false)

    IsHeld-better :
        (i : ℕ) (c v : ScoredCandidate F) (o : Option (ℕ × ScoredCandidate F))
        → IsHeld v o
        → IsHeld v (better fl i c o)
    IsHeld-better i c v none (j, b, e, h) = cc e
    IsHeld-better i c v (some (k, d)) (j, b, e, h) =
        let d_b : d ≡ b = cc e in
        elim (Bool-cases (is_survivor c && beats fl c d)) [
          | inl s ↦ rw s (i, c, refl, ground (arith, s, beats_trans v c d, h, ap (beats fl v) d_b))
          | inr n ↦ rw n (k, d, refl, ap (beats fl v) d_b ∙ h)
        ]

    met-IsHeld :
        (i : ℕ) (c : ScoredCandidate F) (o : Option (ℕ × ScoredCandidate F))
        → is_survivor c ≡ true
        → IsHeld c (better fl i c o)
    met-IsHeld i c none s = rw s (i, c, refl, beats_irrefl c)
    met-IsHeld i c (some (k, d)) s = elim (Bool-cases (beats fl c d)) [
      | inl more ↦ rw (s, more) (i, c, refl, beats_irrefl c)
      | inr less ↦ rw (s, less) (k, d, refl, less)
    ]

    best_from-IsHeld :
        (i : ℕ) (v : ScoredCandidate F) (o : Option (ℕ × ScoredCandidate F))
        (cs : List (ScoredCandidate F))
        → IsHeld v o
        → IsHeld v (best_from fl i o cs)
    unfolding best_from
    best_from-IsHeld i v o [] h = h
    best_from-IsHeld i v o (c ∷ cs) h =
        best_from-IsHeld (suc i) v (better fl i c o) cs (IsHeld-better i c v o h)

    best_from-holds :
        (i : ℕ) (o : Option (ℕ × ScoredCandidate F)) (cs : List (ScoredCandidate F))
        → All (λ v. is_survivor v ≡ true → IsHeld v (best_from fl i o cs)) cs
    unfolding best_from
    best_from-holds i o [] = tt
    best_from-holds i o (c ∷ cs) = (
      (λ s. best_from-IsHeld (suc i) c (better fl i c o) cs (met-IsHeld i c o s)),
      best_from-holds (suc i) (better fl i c o) cs,
    )

    -- The text that `selectedAgent` gives when nothing is selected.
    selected_agent-none :
        (cs : List (ScoredCandidate F))
        → All (λ (c : ScoredCandidate F). c.selected ≡ false) cs
        → selected_agent cs ≡ ""
    unfolding selected_agent
    selected_agent-none [] u = refl
    selected_agent-none (c ∷ cs) u = rw u.0 (selected_agent-none cs u.1)

    -- If comparisons are an order and nothing is selected yet, then either every candidate is excluded, and
    -- no agent is selected, or the agent that is selected is that of a candidate without an exclusion, such
    -- that no candidate without one has a greater total, and none of those with an equal total
    -- a smaller name.
    pub select_winner-IsBest :
        (scored : List (ScoredCandidate F))
        → All (λ (c : ScoredCandidate F). c.selected ≡ false) scored
        → (All (λ (c : ScoredCandidate F). c.exclusion ≢ none) scored
            × (selected_agent (select_winner fl scored) ≡ ""))
          ⊎ ((c : ScoredCandidate F) × IsBest fl scored c
              × (selected_agent (select_winner fl scored) ≡ c.agent))
    unfolding select_winner
    select_winner-IsBest scored u = elim (Option-cases (best_from fl 0 none scored)) [
      | inl nobody ↦ inl (
        All-imp scored (λ v h. not_held v h nobody) (best_from-holds 0 none scored),
        rw nobody (selected_agent-none scored u),
      )
      | inr ((j, b), e) ↦ elim (best_from-marked 0 j none b scored u e) [
        | inl never ↦ cc never
        | inr (m, s, l, marked) ↦ inr (
          b,
          record {
            among = m;
            survives = survivor-none b s;
            greatest =
                All-imp scored (λ v h n. ground (arith, held v b j (h (none-survivor v n)) e))
                  (best_from-holds 0 none scored);
            first_by_name =
                All-imp scored
                  (λ v h n same. ground (arith, same, held v b j (h (none-survivor v n)) e))
                  (best_from-holds 0 none scored);
          },
          rw e marked,
        )
      ]
    ]
      where
        not_held :
            (v : ScoredCandidate F)
            → (is_survivor v ≡ true → IsHeld v (best_from fl 0 none scored))
            → best_from fl 0 none scored ≡ none
            → v.exclusion ≢ none
        not_held v h nobody n = let (j, b, e, k) = h (none-survivor v n) in cc (nobody, e)

        held :
            (v b : ScoredCandidate F) (j : ℕ)
            → IsHeld v (best_from fl 0 none scored)
            → best_from fl 0 none scored ≡ some (j, b)
            → beats fl v b ≡ false
        held v b j (k, d, e, n) same =
            let p : some (k, d) ≡ some (j, b) = sym e ∙ same in
            ap (beats fl v) (let q : b ≡ d = cc p in q) ∙ n
