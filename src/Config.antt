-- ===== src/Config.antt =====
-- internal/tools/config.go, config_risky.go and internal/pihole/restart.go, locks.go: paths of settings,
-- what may not be written or shown, and the tree of settings that FTL describes.
-- `strings.ToLower`, `strings.EqualFold` and `reflect.DeepEqual` are parameters. A Go map is a list
-- of members, so the first of several in the source is any of them.
pub mod Detailed
pub mod Expand
pub mod Handlers
pub mod Allowed
pub mod Guard
pub mod Withheld
pub mod Values
use Prim.Native.Char.{Char, code}
use Prim.Native.String
use package.text.Mathlib.Text.{starts_with}
use pihole_mcp.Prelude.{
  ℕ, String, Bool, true, false, ◌&&◌, ◌||◌, not, Option, none, some, List, [], ◌∷◌, ◌++◌, ltb, ◌==◌,
  str_eq, if◌then◌else◌, contains, keep, any, join, split_by, is_char, trim_space, Map, insert,
}
use pihole_mcp.Json.{
  Json, null, flag, number, text, array, object, Elements, no_elements, element, Members,
  no_members, member, find_member, drop_member, replace_member, members_of, get_member,
}
use pihole_mcp.Validate.{contains_any}

pub record Folding : Type 0 where
  pub lower : String → String
  pub equal_fold : String → String → Bool
  pub deep_equal : Json → Json → Bool

abbrev pub is_separator : Char → Bool
is_separator c = code c == b'.' || code c == b'/'

-- `NormaliseConfigPath`
unfoldable pub normalise_config_path : Folding → String → String
normalise_config_path f p =
    join "." (keep (λ w. not (str_eq w "")) (split_by is_separator (f.lower (trim_space p))))

abbrev pub credential_paths : List String
credential_paths = "webserver.api.pwhash" ∷ "webserver.api.app_pwhash" ∷ []

unfoldable pub is_credential_path : Folding → String → Bool
unfolding normalise_config_path
is_credential_path f p = contains credential_paths (normalise_config_path f p)

pub record RiskySetting : Type 0 where
  pub path : String
  pub is_host_only : Bool

abbrev pub risky_settings : List RiskySetting
risky_settings =
    record { path = "misc.dnsmasq_lines"; is_host_only = true }
    ∷ record { path = "misc.etc_dnsmasq_d"; is_host_only = false }
    ∷ record { path = "webserver.advancedopts"; is_host_only = true }
    ∷ record { path = "webserver.paths."; is_host_only = true }
    ∷ record { path = "webserver.serve_all"; is_host_only = false }
    ∷ record { path = "webserver.tls.cert"; is_host_only = false }
    ∷ record { path = "files."; is_host_only = false }
    ∷ []

-- `strings.HasSuffix(s, ".")`
abbrev pub ends_in_dot : String → Bool
ends_in_dot String.[] = false
ends_in_dot (String.◌∷◌ c String.[]) = code c == b'.'
ends_in_dot (String.◌∷◌ c (String.◌∷◌ d s)) = ends_in_dot (String.◌∷◌ d s)

unfoldable pub covers : String → String → Bool
covers path n =
    str_eq n path || (ends_in_dot path && (starts_with n path || str_eq (String.◌++◌ n ".") path))

unfoldable pub find_risky : String → List RiskySetting → Option RiskySetting
unfolding covers
find_risky n [] = none
find_risky n (r ∷ rs) = let rest = find_risky n rs in if covers r.path n then some r else rest

-- `riskySettingFor`
unfoldable pub risky_setting_for : Folding → String → Option RiskySetting
unfolding normalise_config_path
risky_setting_for f path = find_risky (normalise_config_path f path) risky_settings

unfoldable pub has_control : String → Bool
has_control String.[] = false
has_control (String.◌∷◌ c s) = (ltb (code c) 32 || code c == 127) || has_control s

abbrev mutual
  pub has_line_break : Json → Bool
  has_line_break (text s) = contains_any (13 ∷ 10 ∷ []) s
  has_line_break (array es) = any_line_break es
  has_line_break null = false
  has_line_break (flag b) = false
  has_line_break (number n) = false
  has_line_break (object m) = false

  pub any_line_break : Elements → Bool
  any_line_break no_elements = false
  any_line_break (element v es) = has_line_break v || any_line_break es

abbrev pub first_some : Option String → Option String → Option String
first_some none o = o
first_some (some s) o = some s

-- `credentialKeyIn`: its walk, at a value and at the members of an object.
abbrev mutual
  pub credential_in : Folding → String → Json → Option String
  credential_in f prefix (object m) = credential_key_in f prefix m
  credential_in f prefix null = none
  credential_in f prefix (flag b) = none
  credential_in f prefix (number n) = none
  credential_in f prefix (text s) = none
  credential_in f prefix (array es) = none

  pub credential_key_in : Folding → String → Members → Option String
  credential_key_in f prefix no_members = none
  credential_key_in f prefix (member k v m) =
      let rest = credential_key_in f prefix m in
      let path = normalise_config_path f (String.◌++◌ prefix (String.◌++◌ "." k)) in
      if is_credential_path f path then some path else first_some (credential_in f path v) rest

-- `delete` of one hash, at its parents from the top level on.
abbrev pub without_child : String → Members → Option Json → Members → Members
without_child seg inner none m = m
without_child seg inner (some (object child)) m = replace_member seg (object inner) m
without_child seg inner (some null) m = m
without_child seg inner (some (flag b)) m = m
without_child seg inner (some (number n)) m = m
without_child seg inner (some (text s)) m = m
without_child seg inner (some (array es)) m = m

unfoldable pub delete_path : List String → Members → Members
delete_path [] m = m
delete_path (k ∷ []) m = drop_member k m
delete_path (seg ∷ k ∷ path) m =
    let inner = delete_path (k ∷ path) (members_of (get_member seg m)) in
    without_child seg inner (find_member seg m) m

-- `withholdCredentials`: the tree that is left.
unfoldable pub withhold_credentials : Members → Members
withhold_credentials m =
    delete_path ("webserver" ∷ "api" ∷ "app_pwhash" ∷ [])
      (delete_path ("webserver" ∷ "api" ∷ "pwhash" ∷ []) m)

-- `configLeaves`, at a value under a path and at the members of an object.
abbrev pub child_path : String → String → String
child_path prefix k = if str_eq prefix "" then k else String.◌++◌ prefix (String.◌++◌ "." k)

abbrev pub put_leaf : String → Json → Map Json → Map Json
put_leaf prefix v out = if str_eq prefix "" then out else insert prefix v out

abbrev mutual
  pub config_leaves : String → Json → Map Json → Map Json
  config_leaves prefix (object no_members) out = put_leaf prefix (object no_members) out
  config_leaves prefix (object (member k v m)) out = member_leaves prefix (member k v m) out
  config_leaves prefix null out = put_leaf prefix null out
  config_leaves prefix (flag b) out = put_leaf prefix (flag b) out
  config_leaves prefix (number n) out = put_leaf prefix (number n) out
  config_leaves prefix (text s) out = put_leaf prefix (text s) out
  config_leaves prefix (array es) out = put_leaf prefix (array es) out

  pub member_leaves : String → Members → Map Json → Map Json
  member_leaves prefix no_members out = out
  member_leaves prefix (member k v m) out =
      member_leaves prefix m (config_leaves (child_path prefix k) v out)
