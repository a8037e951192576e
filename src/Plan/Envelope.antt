-- ===== src/Plan/Envelope.antt =====
-- `envelopeCovers`, `envelopePatternCovers` and `normalizePattern` of internal/contracts/plan.go. A
-- pattern is here the list of its characters' codes; `Clean` of the package `path` is written out.
use governator.Prelude.{
  ℕ, Bool, true, false, ◌&&◌, ◌||◌, List, [], ◌∷◌, ◌++◌, map, any, reverse, ◌==◌, if◌then◌else◌,
}

abbrev pub Pattern : Type 0
Pattern = List ℕ

abbrev pub dot : Pattern
dot = b'.' ∷ []

abbrev pub dot_dot : Pattern
dot_dot = b'.' ∷ b'.' ∷ []

abbrev pub stars : Pattern
stars = b'*' ∷ b'*' ∷ []

abbrev pub same : Pattern → Pattern → Bool
same [] [] = true
same [] (b ∷ t) = false
same (a ∷ s) [] = false
same (a ∷ s) (b ∷ t) = a == b && same s t

abbrev pub is_empty {ℓ} : {A : Type ℓ} → List A → Bool
is_empty [] = true
is_empty (x ∷ xs) = false

abbrev pub has_prefix : Pattern → Pattern → Bool
has_prefix s [] = true
has_prefix [] (b ∷ t) = false
has_prefix (a ∷ s) (b ∷ t) = a == b && has_prefix s t

abbrev pub has_suffix : Pattern → Pattern → Bool
has_suffix [] t = is_empty t
has_suffix (a ∷ s) t = same (a ∷ s) t || has_suffix s t

abbrev pub trim_suffix : Pattern → Pattern → Pattern
trim_suffix [] t = []
trim_suffix (a ∷ s) t = if same (a ∷ s) t then [] else a ∷ trim_suffix s t

-- The texts between the slashes.
abbrev pub prepend : ℕ → List Pattern → List Pattern
prepend c [] = (c ∷ []) ∷ []
prepend c (e ∷ es) = (c ∷ e) ∷ es

abbrev pub split : Pattern → List Pattern
split [] = [] ∷ []
split (c ∷ s) = if c == b'/' then [] ∷ split s else prepend c (split s)

abbrev pub join : List Pattern → Pattern
join [] = []
join (e ∷ []) = e
join (e ∷ f ∷ es) = e ++ b'/' ∷ join (f ∷ es)

abbrev pub is_rooted : Pattern → Bool
is_rooted [] = false
is_rooted (c ∷ s) = c == b'/'

-- `path.Clean` with the elements so far, the last one first: it drops empty elements and ".", and
-- takes the last element back for "..", which stays where there is none to take back.
abbrev pub backtrack : Bool → List Pattern → List Pattern
backtrack rooted [] = if rooted then [] else dot_dot ∷ []
backtrack rooted (e ∷ es) = if same e dot_dot then dot_dot ∷ e ∷ es else es

unfoldable pub push_element : Bool → Pattern → List Pattern → List Pattern
push_element rooted e es =
    if is_empty e || same e dot then es else if same e dot_dot then backtrack rooted es else e ∷ es

unfoldable pub walk : Bool → List Pattern → List Pattern → List Pattern
walk rooted [] es = es
walk rooted (e ∷ more) es = walk rooted more (push_element rooted e es)

abbrev pub finish : Bool → List Pattern → Pattern
finish rooted es = if rooted then b'/' ∷ join es else if is_empty es then dot else join es

unfoldable pub clean : Pattern → Pattern
unfolding walk
clean s = finish (is_rooted s) (reverse (walk (is_rooted s) (split s) []))

abbrev pub replace_backslash : ℕ → ℕ
replace_backslash c = if c == b'\\' then b'/' else c

unfoldable pub normalize_pattern : Pattern → Pattern
normalize_pattern p = clean (map replace_backslash p)

abbrev pub slash_stars : Pattern
slash_stars = b'/' ∷ stars

-- The comparison of two normalized patterns.
unfoldable pub covers : Pattern → Pattern → Bool
covers declared candidate =
    same declared candidate
    || has_suffix declared slash_stars
      && (same (trim_suffix candidate slash_stars) (trim_suffix declared slash_stars)
          || has_prefix (trim_suffix candidate slash_stars)
              (trim_suffix declared slash_stars ++ b'/' ∷ []))

unfoldable pub envelope_pattern_covers : Pattern → Pattern → Bool
unfolding covers normalize_pattern
envelope_pattern_covers declared candidate =
    covers (normalize_pattern declared) (normalize_pattern candidate)

unfoldable pub envelope_covers : List Pattern → Pattern → Bool
unfolding envelope_pattern_covers
envelope_covers envelope candidate = any (λ e. envelope_pattern_covers e candidate) envelope
