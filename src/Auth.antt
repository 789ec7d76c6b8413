-- ===== src/Auth.antt =====
-- internal/middleware/auth.go: bearer-token authentication. The digest and `strings.TrimSpace` are
-- parameters, and so is the failure penalty, which acts on a state `W`.
pub mod Access
use Prim.Native.Char.{code}
use Prim.Native.String
use pihole_mcp.Prelude.{
  ℕ, ◌+◌, String, Bool, true, false, ◌&&◌, Option, none, some, List, [], ◌∷◌, ◌==◌, leb, str_eq,
  if◌then◌else◌,
}

-- `bearerScheme`, "bearer ", as the codes of its characters
abbrev pub bearer_scheme : List ℕ
bearer_scheme = 98 ∷ 101 ∷ 97 ∷ 114 ∷ 101 ∷ 114 ∷ 32 ∷ []

abbrev pub lower : ℕ → ℕ
lower n = if leb 65 n && leb n 90 then n + 32 else n

-- The rest of the text after a prefix that is matched without regard to case.
abbrev pub cut_prefix_fold : List ℕ → String → Option String
cut_prefix_fold [] s = some s
cut_prefix_fold (n ∷ ns) String.[] = none
cut_prefix_fold (n ∷ ns) (String.◌∷◌ c s) =
    let rest = cut_prefix_fold ns s in if lower (code c) == n then rest else none

pub record Crypto (D : Type 0) : Type 0 where
  pub sha256 : String → D
  -- `subtle.ConstantTimeCompare(x, y) == 1`
  pub same_digest : D → D → Bool
  pub trim_space : String → String

pub record BearerAuth (D W : Type 0) : Type 0 where
  pub want : D
  -- charges the sender, and says whether it is still under its limit
  pub penalise : Option (W → Bool × W)

pub data Outcome : Type 0 where
  served : Outcome
  throttled : Outcome
  unauthenticated : String → Outcome

-- The answer to a rejected request, once the penalty said whether its sender is under its limit.
abbrev pub rejection : Bool → String → Outcome
rejection true reason = unauthenticated reason
rejection false reason = throttled

abbrev pub reject_with : {W : Type 0} → Option (W → Bool × W) → W → String → Outcome × W
reject_with none w reason = (unauthenticated reason, w)
reject_with (some charge) w reason = let (under, w') = charge w in (rejection under reason, w')

unfoldable pub reject : {D W : Type 0} → BearerAuth D W → W → String → Outcome × W
reject a w reason = reject_with a.penalise w reason

module _ {D : Type 0} (crypto : Crypto D) where
  abbrev pub token_after : Option String → Option String
  token_after none = none
  token_after (some rest) =
      if str_eq (crypto.trim_space rest) "" then none else some (crypto.trim_space rest)

  -- `bearerToken`
  unfoldable pub bearer_token : String → Option String
  bearer_token header = token_after (cut_prefix_fold bearer_scheme header)

module _ {D W : Type 0} (crypto : Crypto D) where
  -- `NewBearerAuth`
  unfoldable pub new_bearer_auth : String → Option (W → Bool × W) → Option (BearerAuth D W)
  new_bearer_auth token charge =
      if str_eq token ""
      then none
      else some (record { want = crypto.sha256 token; penalise = charge })

  unfoldable pub matches : BearerAuth D W → String → Bool
  matches a presented = crypto.same_digest (crypto.sha256 presented) a.want

  abbrev pub check_token : BearerAuth D W → W → Option String → Outcome × W
  check_token a w none = reject a w "missing bearer token in the Authorization header"
  check_token a w (some presented) =
      let refused = reject a w "invalid bearer token" in
      if matches a presented then (served, w) else refused

  -- `Middleware`: `served` is the call of the next handler.
  unfoldable pub authenticate : Option (BearerAuth D W) → W → String → Outcome × W
  authenticate none w header = (served, w)
  authenticate (some a) w header = check_token a w (bearer_token crypto header)
