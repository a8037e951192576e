-- ===== src/Policy/Verdict.antt =====
-- `Verdict` of internal/policy/verdict.go and `PolicyDecision` of internal/policy/decision.go.
use governator.Prelude.{
  ℕ, String, ◌≡◌, Bool, true, false, ◌||◌, List, [], ◌∷◌, arith, ltb, any, any-perm, Permᴰ,
  if◌then◌else◌,
}

-- `Verdict` is a text: one of the constants, the empty text (`unset`), or any other.
pub data Verdict : Type 0 where
  allow deny ask flag unset : Verdict
  other : String → Verdict

-- `rank`: a text that `verdictRank` lacks ranks 0.
unfoldable pub rank : Verdict → ℕ
rank flag = 1
rank ask = 2
rank deny = 3
rank _ = 0

abbrev pub is_allow : Verdict → Bool
is_allow allow = true
is_allow _ = false

abbrev pub is_deny : Verdict → Bool
is_deny deny = true
is_deny _ = false

abbrev pub is_ask : Verdict → Bool
is_ask ask = true
is_ask _ = false

abbrev pub is_flag : Verdict → Bool
is_flag flag = true
is_flag _ = false

abbrev pub is_unset : Verdict → Bool
is_unset unset = true
is_unset _ = false

pub record PolicyDecision : Type 0 where
  pub allowed : Bool
  pub reasons : List String
  pub sources : List String
  pub verdict : Verdict
  pub consulted : List String
  pub policy_hash : String

-- `Blocks`.
unfoldable pub blocks : PolicyDecision → Bool
blocks d = is_deny d.verdict || is_ask d.verdict

-- `if v.rank() > out.rank() { out = v }`.
unfoldable pub raise : Verdict → Verdict → Verdict
unfolding rank
raise out v = if ltb (rank out) (rank v) then v else out

-- The most restrictive of the verdicts, by the priority that the package documents: DENY before ASK
-- before FLAG before ALLOW.
unfoldable pub worst : List Verdict → Verdict
worst vs =
    if any is_deny vs
    then deny
    else if any is_ask vs
    then ask
    else if any is_flag vs
    then flag
    else allow

-- Ranking one verdict after another comes to the worst of them.
pub worst-cons :
    (out v : Verdict) (vs : List Verdict)
    → raise out (worst (v ∷ vs)) ≡ raise (raise out v) (worst vs)
unfolding raise worst
worst-cons out v vs = ground arith

pub worst-nil : (out : Verdict) → raise out (worst []) ≡ out
unfolding raise worst
worst-nil out = ground arith

-- The worst verdict depends on which verdicts there are, not on their order.
pub worst-perm : {vs ws : List Verdict} → Permᴰ vs ws → worst vs ≡ worst ws
unfolding worst
worst-perm d = ground (arith, any-perm is_deny d, any-perm is_ask d, any-perm is_flag d)

-- The result of ranking from ALLOW upwards.
pub raise-allow-worst : (vs : List Verdict) → raise allow (worst vs) ≡ worst vs
unfolding raise worst
raise-allow-worst vs = ground arith
