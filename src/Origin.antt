-- ===== src/Origin.antt =====
-- internal/middleware/origin.go: which Host and Origin headers a request may carry. `strings.ToLower`,
-- the host of `url.Parse` and `net.SplitHostPort` are parameters. The body of the 403 answer is not
-- here.
pub mod Configured
use Prim.Native.Char.{code}
use Prim.Native.String
use pihole_mcp.Prelude.{
  String, Bool, true, false, ◌&&◌, ◌||◌, not, Option, none, some, List, [], ◌∷◌, ◌==◌, str_eq,
  if◌then◌else◌, contains, trim_space,
}

pub record Urls : Type 0 where
  pub lower : String → String
  -- the host of an origin that parses
  pub origin_host : String → Option String
  -- the host of "host:port"
  pub split_host_port : String → Option String

pub record OriginValidator : Type 0 where
  pub allowed : List String
  pub wild_all : Bool

-- The loop of `NewOriginValidator`.
unfoldable pub add_hosts : Urls → List String → OriginValidator → OriginValidator
add_hosts u [] v = v
add_hosts u (raw ∷ entries) v =
    let entry = trim_space raw in
    let skipped = add_hosts u entries v in
    let added = add_hosts u entries (record v { allowed = u.lower entry ∷ v.allowed }) in
    if str_eq entry ""
    then skipped
    else if str_eq entry "*"
    then record v { wild_all = true }
    else added

unfoldable pub new_origin_validator : Urls → List String → OriginValidator
new_origin_validator u entries = add_hosts u entries (record { allowed = []; wild_all = false })

-- What stands before a closing bracket at the end.
unfoldable pub before_bracket : String → Option String
before_bracket String.[] = none
before_bracket (String.◌∷◌ c String.[]) = if code c == b']' then some "" else none
before_bracket (String.◌∷◌ c (String.◌∷◌ d s)) = elim (before_bracket (String.◌∷◌ d s)) [
  | none ↦ none
  | some r ↦ some (String.◌∷◌ c r)
]

-- `h[1:len(h)-1]` of a text in brackets.
unfoldable pub in_brackets : String → Option String
in_brackets String.[] = none
in_brackets (String.◌∷◌ c s) = if code c == b'[' then before_bracket s else none

abbrev pub bracketed : String → String
bracketed h = String.◌++◌ "[" (String.◌++◌ h "]")

abbrev pub other_spelling : List String → String → Option String → Bool
other_spelling allowed h (some inner) = contains allowed inner
other_spelling allowed h none = contains allowed (bracketed h)

-- `hostAllowed`
unfoldable pub host_allowed : Urls → OriginValidator → String → Bool
host_allowed u v host =
    let h = u.lower host in
    v.wild_all || contains v.allowed h || other_spelling v.allowed h (in_brackets h)

-- The text up to its last closing bracket.
unfoldable pub upto_bracket : String → Option String
upto_bracket String.[] = none
upto_bracket (String.◌∷◌ c s) = elim (upto_bracket s) [
  | some r ↦ some (String.◌∷◌ c r)
  | none ↦ if code c == b']' then some (String.◌∷◌ c "") else none
]

abbrev pub starts_bracketed : String → Bool
starts_bracketed String.[] = false
starts_bracketed (String.◌∷◌ c s) = code c == b'['

abbrev pub host_or : String → Option String → String
host_or host none = host
host_or host (some h) = h

abbrev pub literal_or : Urls → String → Option String → String
literal_or u host (some literal) = literal
literal_or u host none = host_or host (u.split_host_port host)

-- `stripPort`
unfoldable pub strip_port : Urls → String → String
strip_port u host =
    if starts_bracketed host
    then literal_or u host (upto_bracket host)
    else host_or host (u.split_host_port host)

pub data Checked : Type 0 where
  served : Checked
  invalid_origin : Checked
  invalid_host : Checked

-- `hostOfOrigin`: an origin with no host is refused.
abbrev pub origin_allowed : Urls → OriginValidator → Option String → Bool
origin_allowed u v none = false
origin_allowed u v (some host) = not (str_eq host "") && host_allowed u v (strip_port u host)

unfoldable pub check_host : Urls → OriginValidator → String → Checked
check_host u v host = if host_allowed u v (strip_port u host) then served else invalid_host

unfoldable pub check_headers : Urls → OriginValidator → String → String → Checked
unfolding check_host
check_headers u v origin host =
    if not (str_eq origin "") && not (origin_allowed u v (u.origin_host origin))
    then invalid_origin
    else check_host u v host

abbrev pub is_empty : List String → Bool
is_empty [] = true
is_empty (h ∷ hs) = false

-- `Middleware`, for a request's Origin and Host headers.
unfoldable pub validate_origin : Urls → Option OriginValidator → String → String → Checked
unfolding check_headers
validate_origin u none origin host = served
validate_origin u (some v) origin host =
    if is_empty v.allowed || v.wild_all then served else check_headers u v origin host
