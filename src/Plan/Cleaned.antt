-- ===== src/Plan/Cleaned.antt =====
-- What a pattern is once `normalizePattern` of internal/contracts/plan.go has cleaned it.
use governator.Prelude.{
  Bool, true, false, ◌||◌, not, List, [], ◌∷◌, ◌++◌, map, filter, reverse, ◌≡◌, ◌≢◌, refl, sym, ap,
  subst, ◌∙◌, ◌⊎◌, inl, inr, arith, Bool-cases, All, All-append,
}
use mathlib.Core.List.{reverse-append}
use governator.Plan.Envelope.{
  Pattern, dot, dot_dot, same, is_empty, split, join, is_rooted, backtrack, push_element, walk,
  finish, clean, replace_backslash, normalize_pattern,
}
use governator.Plan.Segments.{same→eq, same_refl, segments, NoSlash, split-NoSlash, split-join}

abbrev pub IsElement : Pattern → Type 0
IsElement e = NoSlash e × (is_empty e ≡ false)

-- The elements on the stack: names after elements ".." that nothing takes back.
pub record IsStack (es : List Pattern) : Type 0 where
  pub ups : List Pattern
  pub names : List Pattern
  pub parts : es ≡ names ++ ups
  pub up : All (λ e. e ≡ dot_dot) ups
  pub name : All (λ e. e ≢ dot_dot) names
  pub elements : All IsElement es

dot_dot-IsElement : IsElement dot_dot
dot_dot-IsElement = ((refl, (refl, tt)), refl)

backtrack-IsStack :
    (rooted : Bool) (names ups : List Pattern)
    → All (λ e. e ≡ dot_dot) ups
    → All (λ e. e ≢ dot_dot) names
    → All IsElement (names ++ ups)
    → IsStack (backtrack rooted (names ++ ups))
backtrack-IsStack true [] [] u n h = record {
  ups = [];
  names = [];
  parts = refl;
  up = tt;
  name = tt;
  elements = tt;
}
backtrack-IsStack false [] [] u n h = record {
  ups = dot_dot ∷ [];
  names = [];
  parts = refl;
  up = (refl, tt);
  name = tt;
  elements = (dot_dot-IsElement, tt);
}
backtrack-IsStack rooted [] (e ∷ es) u n h =
    rw (ap (λ d. same d dot_dot) u.0 ∙ same_refl dot_dot) (record {
      ups = dot_dot ∷ e ∷ es;
      names = [];
      parts = refl;
      up = (refl, u);
      name = tt;
      elements = (dot_dot-IsElement, h);
    })
backtrack-IsStack rooted (e ∷ es) ups u n h = elim (Bool-cases (same e dot_dot)) [
  | inl up ↦ absurd (n.0 (same→eq e dot_dot up))
  | inr plain ↦
      rw plain (record { ups = ups; names = es; parts = refl; up = u; name = n.1; elements = h.1 })
]

push_element-IsStack :
    (rooted : Bool) (e : Pattern) (es : List Pattern)
    → NoSlash e
    → IsStack es
    → IsStack (push_element rooted e es)
unfolding push_element
push_element-IsStack rooted e es c s = elim (Bool-cases (is_empty e || same e dot)) [
  | inl dropped ↦ rw dropped s
  | inr kept ↦ elim (Bool-cases (same e dot_dot)) [
    | inl up ↦
        rw (kept, up)
          (subst (λ l. IsStack (backtrack rooted l)) (sym s.parts)
            (backtrack-IsStack rooted s.names s.ups s.up s.name
              (subst (All IsElement) s.parts s.elements)))
    | inr plain ↦
        rw (kept, plain)
          (record {
            ups = s.ups;
            names = e ∷ s.names;
            parts = ap (λ l. e ∷ l) s.parts;
            up = s.up;
            name = ((λ eq. cc (plain, ap (λ d. same d dot_dot) eq, same_refl dot_dot)), s.name);
            elements = ((c, ground (arith, kept)), s.elements);
          })
  ]
]

walk-IsStack :
    (rooted : Bool) (more es : List Pattern)
    → All NoSlash more
    → IsStack es
    → IsStack (walk rooted more es)
unfolding walk
walk-IsStack rooted [] es h s = s
walk-IsStack rooted (e ∷ more) es h s =
    walk-IsStack rooted more (push_element rooted e es) h.1 (push_element-IsStack rooted e es h.0 s)

All-reverse : (P : Pattern → Type 0) (es : List Pattern) → All P es → All P (reverse es)
All-reverse P [] h = tt
All-reverse P (e ∷ es) h =
    subst (All P) (sym (reverse-append (e ∷ []) es))
      (All-append P (reverse es) (e ∷ []) (All-reverse P es h.1) (h.0, tt))

-- The elements of a cleaned path, the first one first.
pub record IsTidy (es : List Pattern) : Type 0 where
  pub climbs : List Pattern
  pub names : List Pattern
  pub parts : es ≡ climbs ++ names
  pub climb : All (λ e. e ≡ dot_dot) climbs
  pub name : All (λ e. e ≢ dot_dot) names
  pub elements : All IsElement es

reverse-IsTidy : (es : List Pattern) → IsStack es → IsTidy (reverse es)
reverse-IsTidy es s = record {
  climbs = reverse s.ups;
  names = reverse s.names;
  parts = ap reverse s.parts ∙ reverse-append s.names s.ups;
  climb = All-reverse _ s.ups s.up;
  name = All-reverse _ s.names s.name;
  elements = All-reverse _ es s.elements;
}

filter-elements : (es : List Pattern) → All IsElement es → filter (λ e. not (is_empty e)) es ≡ es
filter-elements [] h = refl
filter-elements (e ∷ es) h = rw (h.0.1, filter-elements es h.1) refl

elements-NoSlash : (es : List Pattern) → All IsElement es → All NoSlash es
elements-NoSlash [] h = tt
elements-NoSlash (e ∷ es) h = (h.0.0, elements-NoSlash es h.1)

segments-join : (es : List Pattern) → All IsElement es → segments (join es) ≡ es
segments-join [] h = refl
segments-join (e ∷ es) h =
    ap (filter (λ x. not (is_empty x))) (split-join e es (elements-NoSlash (e ∷ es) h))
    ∙ filter-elements (e ∷ es) h

-- The printed path has these elements, or is "." where there are none.
segments-finish :
    (rooted : Bool) (es : List Pattern)
    → All IsElement es
    → (segments (finish rooted es) ≡ es) ⊎ (segments (finish rooted es) ≡ dot ∷ [])
segments-finish true es h = inl (segments-join es h)
segments-finish false [] h = inr refl
segments-finish false (e ∷ es) h = inl (segments-join (e ∷ es) h)

tidy-name :
    (es : List Pattern) (t : IsTidy es) (first : Pattern) (more : List Pattern)
    → es ≡ first ∷ more
    → first ≢ dot_dot
    → All (λ e. e ≢ dot_dot) es
tidy-name es t first more h f = go t.climbs t.parts t.climb
  where
    go :
        (climbs : List Pattern)
        → es ≡ climbs ++ t.names
        → All (λ e. e ≡ dot_dot) climbs
        → All (λ e. e ≢ dot_dot) es
    go [] p c = subst (All (λ e. e ≢ dot_dot)) (sym p) t.name
    go (u ∷ us) p c = absurd (f (cc (h, p, c.0)))

finish-segments :
    (rooted : Bool) (es : List Pattern) (first : Pattern) (more : List Pattern)
    → IsTidy es
    → segments (finish rooted es) ≡ first ∷ more
    → first ≢ dot_dot
    → All (λ e. e ≢ dot_dot) (segments (finish rooted es))
finish-segments rooted es first more t h f = elim (segments-finish rooted es t.elements) [
  | inl e ↦ subst (All (λ x. x ≢ dot_dot)) (sym e) (tidy-name es t first more (sym e ∙ h) f)
  | inr e ↦ subst (All (λ x. x ≢ dot_dot)) (sym e) ((λ eq. cc eq), tt)
]

-- If the first element of a normalized pattern is not "..", then none is.
pub normalize_pattern-segments :
    (p : Pattern) (first : Pattern) (more : List Pattern)
    → segments (normalize_pattern p) ≡ first ∷ more
    → first ≢ dot_dot
    → All (λ e. e ≢ dot_dot) (segments (normalize_pattern p))
unfolding normalize_pattern clean
normalize_pattern-segments p first more h f =
    let q = map replace_backslash p in
    finish-segments (is_rooted q) _ first more
      (reverse-IsTidy _ (
        walk-IsStack (is_rooted q) (split q) [] (split-NoSlash q)
          (record { ups = []; names = []; parts = refl; up = tt; name = tt; elements = tt })))
      h f
