-- ===== src/Plan/Covered.antt =====
-- What the envelope of internal/contracts/plan.go lets a job write.
use governator.Prelude.{
  true, List, [], ◌∷◌, ◌++◌, ◌≡◌, ◌≢◌, refl, sym, ap, subst, ◌∙◌, ◌⊎◌, inl, inr, All, or→cases,
  and→left, and→right, Memᴰ, any→Memᴰ, All-mem,
}
use mathlib.Core.List.{append-nil, append_assoc}
use governator.Plan.Envelope.{
  Pattern, dot_dot, stars, slash_stars, same, has_prefix, has_suffix, trim_suffix,
  normalize_pattern, covers, envelope_pattern_covers, envelope_covers,
}
use governator.Plan.Segments.{
  same→eq, has_prefix→append, has_suffix→append, trim_suffix-cases, segments, segments-append,
}
use governator.Plan.Cleaned.{normalize_pattern-segments}

-- The elements of the candidate are those of the declared pattern, less a last "**", and any more.
abbrev pub IsInside : List Pattern → List Pattern → Type 0
IsInside declared candidate =
    (dir : List Pattern) × (rest : List Pattern) × ((declared ≡ dir)
      ⊎ (declared ≡ dir ++ stars ∷ []))
    × (candidate ≡ dir ++ rest)

segments-slash_stars : (s : Pattern) → segments (s ++ slash_stars) ≡ segments s ++ stars ∷ []
segments-slash_stars s = segments-append s stars

-- A candidate, with or without a last "/**", lies under what it lies under without.
untrimmed :
    (candidate : Pattern) (dir rest : List Pattern)
    → segments (trim_suffix candidate slash_stars) ≡ dir ++ rest
    → (more : List Pattern) × (segments candidate ≡ dir ++ more)
untrimmed candidate dir rest h = elim (trim_suffix-cases candidate slash_stars) [
  | inl e ↦ (
    rest ++ stars ∷ [],
    ap segments e
        ∙ (segments-slash_stars (trim_suffix candidate slash_stars)
            ∙ (ap (λ l. l ++ stars ∷ []) h ∙ append_assoc dir rest (stars ∷ []))),
  )
  | inr e ↦ (rest, ap segments e ∙ h)
]

under-IsInside :
    (declared candidate : Pattern) (rest : List Pattern)
    → has_suffix declared slash_stars ≡ true
    → segments (trim_suffix candidate slash_stars)
      ≡ segments (trim_suffix declared slash_stars) ++ rest
    → IsInside (segments declared) (segments candidate)
under-IsInside declared candidate rest s h =
    let base = trim_suffix declared slash_stars in
    let (more, e) = untrimmed candidate (segments base) rest h in
    (
      segments base,
      more,
      inr (ap segments (has_suffix→append declared b'/' stars s) ∙ segments-slash_stars base),
      e,
    )

prefix-segments :
    (base candidate : Pattern)
    → has_prefix candidate (base ++ b'/' ∷ []) ≡ true
    → (rest : List Pattern) × (segments candidate ≡ segments base ++ rest)
prefix-segments base candidate h =
    let (u, e) = has_prefix→append candidate (base ++ b'/' ∷ []) h in
    (segments u, ap segments (e ∙ append_assoc base (b'/' ∷ []) u) ∙ segments-append base u)

covers-IsInside :
    (declared candidate : Pattern)
    → covers declared candidate ≡ true
    → IsInside (segments declared) (segments candidate)
unfolding covers
covers-IsInside declared candidate h =
    let base = trim_suffix declared slash_stars in
    let bare = trim_suffix candidate slash_stars in
    elim (or→cases (same declared candidate) _ h) [
      | inl e ↦ (
        segments declared,
        [],
        inl refl,
        ap segments (sym (same→eq declared candidate e)) ∙ sym (append-nil (segments declared)),
      )
      | inr under ↦
          elim (or→cases (same bare base) _ (and→right (has_suffix declared slash_stars) _ under)) [
            | inl e ↦
                under-IsInside declared candidate [] (and→left _ _ under)
                  (ap segments (same→eq bare base e) ∙ sym (append-nil (segments base)))
            | inr p ↦
                let (rest, e) = prefix-segments base bare p in
                under-IsInside declared candidate rest (and→left _ _ under) e
          ]
    ]

-- A candidate whose first element is that of the declared pattern.
inside-first :
    (candidate : List Pattern) (first : Pattern) (more : List Pattern)
    → IsInside (first ∷ more) candidate
    → first ≢ stars
    → (rest : List Pattern) × (candidate ≡ first ∷ rest)
inside-first candidate first more (dir, rest, d, c) f = elim d [
  | inl e ↦ (more ++ rest, c ∙ ap (λ l. l ++ rest) (sym e))
  | inr e ↦ go dir e c
]
  where
    go :
        (dir : List Pattern)
        → first ∷ more ≡ dir ++ stars ∷ []
        → candidate ≡ dir ++ rest
        → (rest : List Pattern) × (candidate ≡ first ∷ rest)
    go [] e c = absurd (f (cc e))
    go (x ∷ dir) e c = (dir ++ rest, cc (e, c))

envelope_pattern_covers-IsInside :
    (declared candidate : Pattern) (first : Pattern) (more : List Pattern)
    → segments (normalize_pattern declared) ≡ first ∷ more
    → first ≢ dot_dot
    → first ≢ stars
    → envelope_pattern_covers declared candidate ≡ true
    → IsInside (first ∷ more) (segments (normalize_pattern candidate))
      × All (λ e. e ≢ dot_dot) (segments (normalize_pattern candidate))
unfolding envelope_pattern_covers
envelope_pattern_covers-IsInside declared candidate first more s d t h =
    let inside =
      subst (λ l. IsInside l (segments (normalize_pattern candidate))) s
        (covers-IsInside (normalize_pattern declared) (normalize_pattern candidate) h) in
    let (rest, e) = inside-first _ first more inside t in
    (inside, normalize_pattern-segments candidate first rest e d)

-- A pattern whose normal form begins with an element that is neither ".." nor "**".
abbrev pub BeginsWithName : Pattern → Type 0
BeginsWithName p =
    (first : Pattern) × (more : List Pattern) × (segments (normalize_pattern p) ≡ first ∷ more)
    × (first ≢ dot_dot)
    × (first ≢ stars)

-- If the normal form of each pattern of the envelope begins with an element that is neither ".." nor "**",
-- then for each candidate that the envelope covers there is a pattern of it with the following: the
-- elements of the candidate's normal form are those of the pattern's, less a last "**", and any more,
-- and none of them is "..".
pub envelope_covers-IsInside :
    (envelope : List Pattern) (candidate : Pattern)
    → All BeginsWithName envelope
    → envelope_covers envelope candidate ≡ true
    → (declared : Pattern) × Memᴰ declared envelope
      × IsInside (segments (normalize_pattern declared)) (segments (normalize_pattern candidate))
      × All (λ e. e ≢ dot_dot) (segments (normalize_pattern candidate))
unfolding envelope_covers
envelope_covers-IsInside envelope candidate h c =
    let (declared, m, k) = any→Memᴰ (λ e. envelope_pattern_covers e candidate) envelope c in
    let (first, more, s, d, t) = All-mem BeginsWithName envelope h m in
    let (inside, plain) = envelope_pattern_covers-IsInside declared candidate first more s d t k in
    (
      declared,
      m,
      subst (λ l. IsInside l (segments (normalize_pattern candidate))) (sym s) inside,
      plain,
    )
