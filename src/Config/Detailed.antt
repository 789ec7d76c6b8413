-- ===== src/Config/Detailed.antt =====
-- internal/pihole/restart.go and internal/tools/config.go, config_risky.go: settings as FTL describes
-- them, and a write judged against them. `sort.Strings` on reported keys is `sort_keys` of the sync.
use pihole_mcp.Prelude.{
  String, Bool, true, false, ◌&&◌, ◌||◌, not, Option, none, some, List, [], ◌∷◌, str_eq,
  if◌then◌else◌, join, split_by, is_char, Map, keys, lookup,
}
use pihole_mcp.Json.{
  Json, null, flag, number, text, array, object, Members, no_members, member, find_member,
  members_of, get_member,
}
use pihole_mcp.Sync.{sort_keys}
use pihole_mcp.Config.{Folding, RiskySetting, risky_setting_for, has_line_break}

-- `ConfigChild`: the key as FTL spells it, and the value; an exact key goes before a folded one.
abbrev pub folded_child : Folding → String → Members → Option (String × Json)
folded_child f key no_members = none
folded_child f key (member k v m) =
    let rest = folded_child f key m in if f.equal_fold k key then some (k, v) else rest

abbrev pub exact_or : Option (String × Json) → String → Option Json → Option (String × Json)
exact_or folded key (some v) = some (key, v)
exact_or folded key none = folded

unfoldable pub config_child : Folding → String → Members → Option (String × Json)
config_child f key m = exact_or (folded_child f key m) key (find_member key m)

-- `v.(map[string]any)`
abbrev pub as_object : Json → Option Members
as_object (object m) = some m
as_object null = none
as_object (flag b) = none
as_object (number n) = none
as_object (text s) = none
as_object (array es) = none

-- The walk of `DetailedConfigItem` and `configValueAt`: the spelling of the parts, and the value.
abbrev pub under_part : String → Option (List String × Json) → Option (List String × Json)
under_part k none = none
under_part k (some (ks, v)) = some (k ∷ ks, v)

unfoldable pub walk_parts : Folding → List String → Json → Option (List String × Json)
unfolding config_child
walk_parts f [] node = some ([], node)
walk_parts f (part ∷ parts) node = elim (as_object node) [
  | none ↦ none
  | some m ↦ elim (config_child f part m) [
    | none ↦ none
    | some found ↦ under_part found.0 (walk_parts f parts found.1)
  ]
]

pub record DetailedItem : Type 0 where
  pub key : String
  pub value : Json
  pub restarts_ftl : Bool
  pub ends_sessions : Bool

-- `b, _ := v.(bool)`
abbrev pub is_true : Json → Bool
is_true (flag b) = b
is_true null = false
is_true (number n) = false
is_true (text s) = false
is_true (array es) = false
is_true (object m) = false

abbrev pub item_at : List String → Members → Option Json → Option DetailedItem
item_at parts leaf none = none
item_at parts leaf (some value) =
    let flags = members_of (get_member "flags" leaf) in
    some (record {
      key = join "." parts;
      value = value;
      restarts_ftl = is_true (get_member "restart_dnsmasq" flags);
      ends_sessions = is_true (get_member "session_reset" flags);
    })

abbrev pub item_of : List String → Option Members → Option DetailedItem
item_of parts none = none
item_of parts (some leaf) = item_at parts leaf (find_member "value" leaf)

abbrev pub item_found : Option (List String × Json) → Option DetailedItem
item_found none = none
item_found (some (parts, node)) = item_of parts (as_object node)

-- `DetailedConfigItem`
unfoldable pub detailed_config_item : Folding → Members → String → Option DetailedItem
unfolding walk_parts
detailed_config_item f cfg element =
    item_found (walk_parts f (split_by (is_char b'.') element) (object cfg))

-- `configValueAt`, `null` where there is no value.
abbrev pub value_found : Option (List String × Json) → Json
value_found none = null
value_found (some (parts, node)) = node

unfoldable pub config_value_at : Folding → Members → String → Json
unfolding walk_parts
config_value_at f cfg key = value_found (walk_parts f (split_by (is_char b'.') key) (object cfg))

-- Whether the configuration read before holds this value already.
abbrev pub item_has : Folding → Json → Option DetailedItem → Bool
item_has f value none = false
item_has f value (some item) = f.deep_equal item.value value

unfoldable pub already_set : Folding → Option Members → String → Json → Bool
unfolding detailed_config_item
already_set f none key value = false
already_set f (some before) key value = item_has f value (detailed_config_item f before key)

-- `riskyChange`, its key and setting.
abbrev pub risky_here :
    Bool
    → String
    → Option RiskySetting
    → Option (String × RiskySetting)
    → Option (String × RiskySetting)
risky_here held key none rest = rest
risky_here true key (some r) rest = rest
risky_here false key (some r) rest = some (key, r)

unfoldable pub risky_change : Folding → Option Members → Map Json → Option (String × RiskySetting)
risky_change f before [] = none
risky_change f before ((key, value) ∷ leaves) =
    risky_here (already_set f before key value) key (risky_setting_for f key)
      (risky_change f before leaves)

-- `newlineIn`, `none` for the empty key.
unfoldable pub newline_in : Map Json → Option String
newline_in [] = none
newline_in ((key, value) ∷ leaves) =
    let rest = newline_in leaves in if has_line_break value then some key else rest

abbrev pub is_known : Option DetailedItem → Bool
is_known none = false
is_known (some item) = true

abbrev pub unknown_in : Folding → Members → List String → List String
unknown_in f before [] = []
unknown_in f before (k ∷ ks) =
    let rest = unknown_in f before ks in
    if is_known (detailed_config_item f before k) then rest else k ∷ rest

-- `unknownSettings`
unfoldable pub unknown_settings : Folding → Option Members → Map Json → List String
unknown_settings f none leaves = []
unknown_settings f (some before) leaves = sort_keys (unknown_in f before (keys leaves))

pub record ConfigChange : Type 0 where
  pub key : String
  pub from : Json
  pub to : Json
  pub masked : Bool

pub record ConfigWriteReport : Type 0 where
  pub changed : List ConfigChange
  pub unchanged : List String
  pub unknown : List String
  pub restarts : Bool
  pub restarts_without_asking : Bool
  pub ends_sessions : Bool

abbrev pub masked_value : String
masked_value = "********"

abbrev pub is_mask : Json → Bool
is_mask (text s) = str_eq s masked_value
is_mask null = false
is_mask (flag b) = false
is_mask (number n) = false
is_mask (array es) = false
is_mask (object m) = false

module _ (f : Folding) (lower_number : Json → Json → Bool) where
  -- The report of one key, before those of the keys after it: `lower_number a b` says that `b` is a
  -- lower number than `a`, no number being 0.
  abbrev pub report_changed : DetailedItem → Json → Bool → ConfigWriteReport → ConfigWriteReport
  report_changed item now masked r = record r {
    changed = record { key = item.key; from = item.value; to = now; masked = masked } ∷ r.changed;
    restarts = item.restarts_ftl || r.restarts;
    ends_sessions = item.ends_sessions || r.ends_sessions;
    restarts_without_asking =
        (str_eq item.key "misc.privacylevel" && lower_number item.value now)
        || r.restarts_without_asking;
  }

  abbrev pub report_known : DetailedItem → Json → Json → ConfigWriteReport → ConfigWriteReport
  report_known item now asked r =
      let masked = is_mask item.value && is_mask now && not (is_mask asked) in
      if not masked && f.deep_equal item.value now
      then record r { unchanged = item.key ∷ r.unchanged }
      else report_changed item now masked r

  abbrev pub report_key :
      Members → String → Json → Option DetailedItem → ConfigWriteReport → ConfigWriteReport
  report_key after requested asked none r = record r { unknown = requested ∷ r.unknown }
  report_key after requested asked (some item) r =
      report_known item (config_value_at f after item.key) asked r

  abbrev pub asked_for : Option Json → Json
  asked_for none = null
  asked_for (some v) = v

  abbrev pub report_keys : Members → Members → Map Json → List String → ConfigWriteReport
  report_keys before after leaves [] = record {
    changed = [];
    unchanged = [];
    unknown = [];
    restarts = false;
    restarts_without_asking = false;
    ends_sessions = false;
  }
  report_keys before after leaves (k ∷ ks) =
      report_key after k (asked_for (lookup k leaves)) (detailed_config_item f before k)
        (report_keys before after leaves ks)

  -- `compareConfigWrite`
  unfoldable pub compare_config_write : Members → Members → Map Json → ConfigWriteReport
  compare_config_write before after leaves =
      report_keys before after leaves (sort_keys (keys leaves))
