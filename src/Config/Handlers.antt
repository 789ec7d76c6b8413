-- ===== src/Config/Handlers.antt =====
-- internal/tools/config.go: `configSetHandler`, `configAddValueHandler` and `configRemoveValueHandler`,
-- over the calls that they make. The texts of the answers and the log message are not here.
use Prim.Native.String
use pihole_mcp.Prelude.{
  ◌⊎◌, inl, inr, ℕ, String, Bool, true, false, ◌&&◌, ◌||◌, Option, none, some, List, [], ◌∷◌, map,
  str_eq, if◌then◌else◌, join, split_by, is_char, Map, keys,
}
use pihole_mcp.Json.{Json, null, flag, number, text, array, object, Members, no_members, member}
use pihole_mcp.Sync.Readers.{Escaping, escape_path_segment}
use pihole_mcp.Validate.{Invalid, validate_max_length, contains_any}
use pihole_mcp.Config.{
  Folding, RiskySetting, is_credential_path, risky_setting_for, has_control, credential_key_in,
  config_leaves,
}
use pihole_mcp.Config.Detailed.{
  as_object, risky_change, newline_in, unknown_settings, ConfigWriteReport, compare_config_write,
}
use pihole_mcp.Config.Expand.{BadKey, expand_config_keys}

pub record ConfigCalls (W : Type 0) : Type 0 where
  pub lock : List String → W → W
  pub unlock : List String → W → W
  -- `GET /config?detailed=true`, whose reply may lack the configuration
  pub get_detailed : W → (String ⊎ Option Members) × W
  -- `PATCH /config` with the flag `restart`: what FTL returns after it
  pub patch : Bool → Members → W → (String ⊎ Members) × W
  pub put : String → W → Option String × W
  pub delete : String → W → Option String × W
  pub restarts_for : String → Bool → W → Bool × W
  pub clock : W → ℕ × W
  pub await_restart_note : ℕ → W → String × W

pub data ConfigAnswer : Type 0 where
  missing : String → ConfigAnswer
  bad_json : String → ConfigAnswer
  not_object : ConfigAnswer
  bad_key : BadKey → ConfigAnswer
  names_nothing : ConfigAnswer
  invalid : String → Invalid → ConfigAnswer
  control_in_element : ConfigAnswer
  credential_write : String → ConfigAnswer
  line_break : String → ConfigAnswer
  risky_setting : String → RiskySetting → ConfigAnswer
  unknown_keys : List String → ConfigAnswer
  call_failed : String → ConfigAnswer
  -- accepted, but the settings could not be read before
  accepted_unread : String → ConfigAnswer
  reported : ConfigWriteReport → String → ConfigAnswer
  changed_value : String → ConfigAnswer

-- The envelopes that a caller may have put around the settings.
abbrev mutual
  pub unwrap_envelope : Members → Members
  unwrap_envelope no_members = no_members
  unwrap_envelope (member k v no_members) =
      let inner = unwrap_value (member k v no_members) v in
      if str_eq k "config" then inner else member k v no_members
  unwrap_envelope (member k v (member j w m)) = member k v (member j w m)

  pub unwrap_value : Members → Json → Members
  unwrap_value payload (object m) = unwrap_envelope m
  unwrap_value payload null = payload
  unwrap_value payload (flag b) = payload
  unwrap_value payload (number n) = payload
  unwrap_value payload (text s) = payload
  unwrap_value payload (array es) = payload

-- `escapeConfigElement`
unfoldable pub escape_config_element : Escaping → String → String
escape_config_element esc element =
    join "/" (map (escape_path_segment esc) (split_by (is_char b'.') element))

abbrev pub max_config_path_len : ℕ
max_config_path_len = 256

abbrev pub max_comment_length : ℕ
max_comment_length = 1024

-- What a list element's tool does: a PUT adds, a DELETE removes.
pub data ValueVerb : Type 0 where
  add_value : ValueVerb
  remove_value : ValueVerb

module _ {W : Type 0} (f : Folding) (lower_number : Json → Json → Bool)
    (parse_json : String → String ⊎ Json) (esc : Escaping) (calls : ConfigCalls W) where
  -- A missing map reads as an empty one.
  abbrev pub members_or : Option Members → Members
  members_or none = no_members
  members_or (some m) = m

  abbrev pub before_of : String ⊎ Option Members → Option Members
  before_of (inl e) = none
  before_of (inr before) = before

  -- The wait for a restart that a write caused.
  abbrev pub note_if : Bool → ℕ → W → String × W
  note_if true sent w = calls.await_restart_note sent w
  note_if false sent w = ("", w)

  abbrev pub after_report : Bool → ℕ → ConfigWriteReport → W → ConfigAnswer × W
  after_report restart sent r w =
      let (note, w') = note_if (r.restarts_without_asking || (restart && r.restarts)) sent w in
      (reported r note, w')

  abbrev pub after_config_patch :
      Bool → ℕ → Map Json → String ⊎ Option Members → String ⊎ Members → W → ConfigAnswer × W
  after_config_patch restart sent leaves before (inl e) w = (call_failed e, w)
  after_config_patch restart sent leaves (inl unread) (inr after) w = (accepted_unread unread, w)
  after_config_patch restart sent leaves (inr before) (inr after) w =
      after_report restart sent
        (compare_config_write f lower_number (members_or before) after leaves) w

  unfoldable pub send_config :
      Bool → Members → Map Json → String ⊎ Option Members → W → ConfigAnswer × W
  send_config restart payload leaves before w =
      let (sent, w1) = calls.clock w in
      let (result, w2) = calls.patch restart payload w1 in
      after_config_patch restart sent leaves before result w2

  -- The guards that need what was read under the lock, in their order.
  abbrev pub unless_unknown :
      List String → Bool → Members → Map Json → String ⊎ Option Members → W → ConfigAnswer × W
  unless_unknown [] restart payload leaves before w = send_config restart payload leaves before w
  unless_unknown (k ∷ ks) restart payload leaves before w = (unknown_keys (k ∷ ks), w)

  abbrev pub unless_risky :
      Option (String × RiskySetting)
      → Bool
      → Members
      → Map Json
      → String ⊎ Option Members
      → W
      → ConfigAnswer × W
  unless_risky (some (key, r)) restart payload leaves before w = (risky_setting key r, w)
  unless_risky none restart payload leaves before w =
      unless_unknown (unknown_settings f (before_of before) leaves) restart payload leaves before w

  abbrev pub unless_newline :
      Option String → Bool → Members → Map Json → String ⊎ Option Members → W → ConfigAnswer × W
  unless_newline (some key) restart payload leaves before w = (line_break key, w)
  unless_newline none restart payload leaves before w =
      unless_risky (risky_change f (before_of before) leaves) restart payload leaves before w

  unfoldable pub write_locked : Bool → Members → Map Json → W → ConfigAnswer × W
  write_locked restart payload leaves w =
      let (before, w1) = calls.get_detailed (calls.lock (keys leaves) w) in
      let (answer, w2) = unless_newline (newline_in leaves) restart payload leaves before w1 in
      (answer, calls.unlock (keys leaves) w2)

  abbrev pub unless_empty : Bool → Members → Map Json → W → ConfigAnswer × W
  unless_empty restart payload [] w = (names_nothing, w)
  unless_empty restart payload (leaf ∷ leaves) w = write_locked restart payload (leaf ∷ leaves) w

  abbrev pub unless_credential : Option String → Bool → Members → W → ConfigAnswer × W
  unless_credential (some key) restart payload w = (credential_write key, w)
  unless_credential none restart payload w =
      unless_empty restart payload (config_leaves "" (object payload) []) w

  abbrev pub set_expanded : BadKey ⊎ Members → Bool → W → ConfigAnswer × W
  set_expanded (inl why) restart w = (bad_key why, w)
  set_expanded (inr payload) restart w =
      let inner = unwrap_envelope payload in
      unless_credential (credential_key_in f "" inner) restart inner w

  abbrev pub set_object : Option Members → Bool → W → ConfigAnswer × W
  set_object none restart w = (not_object, w)
  set_object (some m) restart w = set_expanded (expand_config_keys f m) restart w

  abbrev pub set_parsed : String ⊎ Json → Bool → W → ConfigAnswer × W
  set_parsed (inl e) restart w = (bad_json e, w)
  set_parsed (inr v) restart w = set_object (as_object v) restart w

  abbrev pub set_given : Option String → Bool → W → ConfigAnswer × W
  set_given none restart w = (missing "config", w)
  set_given (some config) restart w = set_parsed (parse_json config) restart w

  -- `configSetHandler`
  unfoldable pub config_set : Option String → Bool → W → ConfigAnswer × W
  config_set config restart w = set_given config restart w

  abbrev pub send_value : ValueVerb → String → W → Option String × W
  send_value add_value path w = calls.put path w
  send_value remove_value path w = calls.delete path w

  abbrev pub after_value : Bool → ℕ → Option String → W → ConfigAnswer × W
  after_value waits sent (some e) w = (call_failed e, w)
  after_value waits sent none w = let (note, w') = note_if waits sent w in (changed_value note, w')

  abbrev pub value_path : String → String → Bool → String
  value_path element value restart =
      let path = String.◌++◌ "/config/" (
        String.◌++◌ (escape_config_element esc element)
          (String.◌++◌ "/" (escape_path_segment esc value))) in
      if restart then path else String.◌++◌ path "?restart=false"

  unfoldable pub value_locked : ValueVerb → String → String → Bool → W → ConfigAnswer × W
  value_locked verb element value restart w =
      let (waits, w1) = calls.restarts_for element restart (calls.lock (element ∷ []) w) in
      let (sent, w2) = calls.clock w1 in
      let (err, w3) = send_value verb (value_path element value restart) w2 in
      let (answer, w4) = after_value waits sent err w3 in (answer, calls.unlock (element ∷ []) w4)

  -- The checks of an element and a value, `none` if they may be sent.
  abbrev pub check_risky : String → Option RiskySetting → String → Option ConfigAnswer
  check_risky element (some r) value = some (risky_setting element r)
  check_risky element none value =
      if contains_any (13 ∷ 10 ∷ []) value then some (line_break element) else none

  abbrev pub check_value : String → String → Option Invalid → Option ConfigAnswer
  check_value element value (some why) = some (invalid "value" why)
  check_value element value none =
      if is_credential_path f element
      then some (credential_write element)
      else check_risky element (risky_setting_for f element) value

  abbrev pub check_element : String → String → Option Invalid → Option ConfigAnswer
  check_element element value (some why) = some (invalid "element" why)
  check_element element value none =
      if has_control element
      then some control_in_element
      else check_value element value (validate_max_length value max_comment_length)

  unfoldable pub refuse_value : String → String → Option ConfigAnswer
  refuse_value element value =
      check_element element value (validate_max_length element max_config_path_len)

  abbrev pub unless_refused :
      Option ConfigAnswer → ValueVerb → String → String → Bool → W → ConfigAnswer × W
  unless_refused (some answer) verb element value restart w = (answer, w)
  unless_refused none verb element value restart w = value_locked verb element value restart w

  -- `configAddValueHandler` and `configRemoveValueHandler`
  unfoldable pub config_value :
      ValueVerb → Option String → Option String → Bool → W → ConfigAnswer × W
  config_value verb none value restart w = (missing "element", w)
  config_value verb (some element) none restart w = (missing "value", w)
  config_value verb (some element) (some value) restart w =
      unless_refused (refuse_value element value) verb element value restart w
