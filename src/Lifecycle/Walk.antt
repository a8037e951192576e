-- ===== src/Lifecycle/Walk.antt =====
-- Histories of internal/lifecycle/lifecycle.go as walks along the edges that `Validate` accepts.
use governator.Prelude.{
  ◌≡◌, refl, subst, ◌⊎◌, ◌↔◌, inl, inr, Bool, true, false, none, List, [], ◌∷◌, Memᴰ, arith, any,
  any→Memᴰ, Memᴰ→any, reverse, reverse_aux,
}
use governator.Lifecycle.{
  Stage, parsed, stage_eq, stage_eq_iff, terminal_stages, transitions, recovery_targets, check_edge,
  validate,
}

-- A step between two different stages: the table of transitions, or a crash in a stage that is not
-- terminal.
pub data Edge (latest next : Stage) : Type 0 where
  follow : Memᴰ next (transitions latest) → Edge latest next
  recover : terminal_stages latest ≡ false → recovery_targets next ≡ true → Edge latest next

-- The stages of one run, newest first.
pub data Walk : List Stage → Type 0 where
  unstarted : Walk []
  started : Walk (parsed ∷ [])
  step :
      {latest next : Stage} {older : List Stage}
      → Edge latest next
      → ¬ Memᴰ next (latest ∷ older)
      → Walk (latest ∷ older)
      → Walk (next ∷ latest ∷ older)

in_table : Stage → Stage → Bool
in_table latest next = any (λ allowed. stage_eq allowed next) (transitions latest)

in_table_iff :
    (latest next : Stage) → (in_table latest next ≡ true) ↔ Memᴰ next (transitions latest)
unfolding in_table
in_table_iff latest next = (
  λ h.
      (let (a, m, e) = any→Memᴰ (λ allowed. stage_eq allowed next) (transitions latest) h in
        subst (λ t. Memᴰ t (transitions latest)) ((stage_eq_iff a next).0 e) m),
  λ m.
      Memᴰ→any (λ allowed. stage_eq allowed next) (transitions latest) m
        ((stage_eq_iff next next).1 refl),
)

accepted_by :
    (latest next : Stage)
    → check_edge latest next ≡ none
    → (stage_eq next latest ≡ true)
      ⊎ ((terminal_stages latest ≡ false) × (recovery_targets next ≡ true))
      ⊎ (in_table latest next ≡ true)
unfolding check_edge in_table
accepted_by latest next h = ground arith

check_edge-none_of :
    (latest next : Stage)
    → (stage_eq next latest ≡ true)
      ⊎ ((terminal_stages latest ≡ false) × (recovery_targets next ≡ true))
      ⊎ (in_table latest next ≡ true)
    → check_edge latest next ≡ none
unfolding check_edge in_table
check_edge-none_of latest next h = ground arith

-- `Validate` accepts a stage after `latest` exactly when it is `latest` again or an edge leads to it.
pub check_edge-none_iff :
    (latest next : Stage) → (check_edge latest next ≡ none) ↔ ((next ≡ latest) ⊎ Edge latest next)
check_edge-none_iff latest next = (
  λ h. elim (accepted_by latest next h) [
    | inl e ↦ inl ((stage_eq_iff next latest).0 e)
    | inr (inl (t, r)) ↦ inr (recover t r)
    | inr (inr m) ↦ inr (follow ((in_table_iff latest next).0 m))
  ],
  λ d. check_edge-none_of latest next (elim d [
    | inl e ↦ inl ((stage_eq_iff next latest).1 e)
    | inr (recover t r) ↦ inr (inl (t, r))
    | inr (follow m) ↦ inr (inr ((in_table_iff latest next).1 m))
  ]),
)

-- Every history that `Validate` accepts for a first stage is that of a run that begins.
pub validate-none_first : (next : Stage) → (validate [] next ≡ none) ↔ (next ≡ parsed)
unfolding validate
validate-none_first next = ground (arith, stage_eq_iff next parsed)

module _ {ℓ} {A : Type ℓ} where
  mem-reverse_aux : {a : A} (xs acc : List A) → Memᴰ a (reverse_aux xs acc) → Memᴰ a xs ⊎ Memᴰ a acc
  mem-reverse_aux [] acc m = inr m
  mem-reverse_aux (x ∷ xs) acc m = elim (mem-reverse_aux xs (x ∷ acc) m) [
    | inl l ↦ inl (Memᴰ.tail l)
    | inr (Memᴰ.head e) ↦ inl (Memᴰ.head e)
    | inr (Memᴰ.tail r) ↦ inr r
  ]

  pub mem-reverse : {a : A} (xs : List A) → Memᴰ a (reverse xs) → Memᴰ a xs
  mem-reverse xs m = elim (mem-reverse_aux xs [] m) [ inl l ↦ l | inr r ↦ elim r [ ] ]
