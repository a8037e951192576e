-- ===== src/Quota/Windows/Least.antt =====
-- What `Headroom` of internal/quota/quota.go reports.
use governator.Prelude.{
  ◌*◌, ◌≤◌, ◌<◌, ◌≡◌, ◌≢◌, refl, Bool, true, false, ◌||◌, List, [], ◌∷◌, str_eq, eq_iff,
  if◌then◌else◌, arith, Memᴰ, All, Bool-cases, inl, inr, ◌⊎◌, ◌∙◌,
}
use native.Mathlib.Nat.{le_of_mul-le-mul_right, mul-le-mul_right}
use governator.Quota.{Window}
use governator.Quota.Windows.{Fraction, one, is_less, headroom_of, snapshot_of, least, full}

-- p ≤ q.
abbrev pub IsAtMost : Fraction → Fraction → Type 0
IsAtMost p q = p.num * q.den ≤ q.num * p.den

headroom_of-den : (w : Window) → 0 < (headroom_of w).den
headroom_of-den w = ground arith

IsAtMost-trans : (p q r : Fraction) → 0 < q.den → IsAtMost p q → IsAtMost q r → IsAtMost p r
IsAtMost-trans p q r d h k =
    le_of_mul-le-mul_right {k = q.den}
      (omega (arith, mul-le-mul_right r.den h, mul-le-mul_right p.den k)) d

-- The least of a window and the windows after it.
abbrev IsLeast : Window → Window → List Window → Type 0
IsLeast w b ws =
    ((w ≡ b) ⊎ Memᴰ w ws)
    × (least (snapshot_of b) ws ≡ snapshot_of w)
    × IsAtMost (headroom_of w) (headroom_of b)
    × All (λ v. IsAtMost (headroom_of w) (headroom_of v)) ws

IsLeast-from :
    (b : Window) (ws : List Window)
    → b.window_type ≢ ""
    → All (λ (w : Window). w.window_type ≢ "") ws
    → (w : Window) × IsLeast w b ws
unfolding least
IsLeast-from b [] n h = (b, (inl refl, refl, omega arith, tt))
IsLeast-from b (v ∷ vs) n h = elim (Bool-cases (is_less (headroom_of v) (headroom_of b))) [
  | inl less ↦
      (let (w, (o, e, l, a)) = IsLeast-from v vs h.0 h.1 in
        (
          w,
          (
            member w b v vs o,
            rw less e,
            IsAtMost-trans (headroom_of w) (headroom_of v) (headroom_of b) (headroom_of-den v) l
                (ground (arith, less)),
            (l, a),
          ),
        ))
  | inr more ↦
      (let (w, (o, e, l, a)) = IsLeast-from b vs n h.1 in
        (
          w,
          (
            later w b v vs o,
            rw (more, named n) e,
            l,
            (
              IsAtMost-trans (headroom_of w) (headroom_of b) (headroom_of v) (headroom_of-den b) l
                  (ground (arith, more)),
              a,
            ),
          ),
        ))
]
  where
    named : b.window_type ≢ "" → str_eq b.window_type "" ≡ false
    named n = ground (arith, eq_iff b.window_type "")

    later : (w b v : Window) (vs : List Window) → (w ≡ b) ⊎ Memᴰ w vs → (w ≡ b) ⊎ Memᴰ w (v ∷ vs)
    later w b v vs (inl e) = inl e
    later w b v vs (inr m) = inr (Memᴰ.tail m)

    member : (w b v : Window) (vs : List Window) → (w ≡ v) ⊎ Memᴰ w vs → (w ≡ b) ⊎ Memᴰ w (v ∷ vs)
    member w b v vs (inl e) = inr (Memᴰ.head e)
    member w b v vs (inr m) = inr (Memᴰ.tail m)

-- If no window's type is empty, then of windows that are not none at all `Headroom` reports one whose
-- share of headroom is no greater than that of any of them.
pub least-IsAtMost :
    (b : Window) (ws : List Window)
    → All (λ (w : Window). w.window_type ≢ "") (b ∷ ws)
    → (w : Window) × Memᴰ w (b ∷ ws)
      × (least full (b ∷ ws) ≡ snapshot_of w)
      × All (λ v. IsAtMost (headroom_of w) (headroom_of v)) (b ∷ ws)
unfolding least
least-IsAtMost b ws h =
    let (w, (o, e, l, a)) = IsLeast-from b ws h.0 h.1 in
    (w, among w b ws o, first b (is_less (headroom_of b) one) ∙ e, (l, a))
  where
    among : (w b : Window) (ws : List Window) → (w ≡ b) ⊎ Memᴰ w ws → Memᴰ w (b ∷ ws)
    among w b ws (inl e) = Memᴰ.head e
    among w b ws (inr m) = Memᴰ.tail m

    first :
        (b : Window) (t : Bool)
        → least (if t || true then snapshot_of b else full) ws ≡ least (snapshot_of b) ws
    first b true = refl
    first b false = refl
