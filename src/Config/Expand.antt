-- ===== src/Config/Expand.antt =====
-- internal/tools/config.go: `expandConfigKeys`, which nests dotted keys and merges keys that FTL takes
-- for one. The members of the payload are given in the sorted order of their keys at every level; a
-- tree is built by passing it on, where the source changes it in place.
use Prim.Native.String
use pihole_mcp.Prelude.{
  ◌⊎◌, inl, inr, String, Option, none, some, List, [], ◌∷◌, str_eq, if◌then◌else◌, split_by,
  is_char, trim_space,
}
use pihole_mcp.Json.{
  Json, null, flag, number, text, array, object, Members, no_members, member, add_member,
  replace_member,
}
use pihole_mcp.Config.{Folding, has_control}
use pihole_mcp.Config.Detailed.{config_child}

pub data BadKey : Type 0 where
  control_character : String → BadKey
  empty_segment : String → BadKey
  set_twice : String → BadKey
  value_and_section : String → BadKey

abbrev pub extend_path : String → String → String
extend_path path part = if str_eq path "" then part else String.◌++◌ path (String.◌++◌ "." part)

-- `addConfigSegment`
unfoldable pub add_config_segment : String → String → String → BadKey ⊎ String
add_config_segment path part key =
    if str_eq (trim_space part) "" then inl (empty_segment key) else inr (extend_path path part)

-- What is done in a section: it gets the section's path and members.
abbrev pub InSection : Type 0
InSection = String → Members → BadKey ⊎ Members

abbrev pub put_back : (Members → Members) → BadKey ⊎ Members → BadKey ⊎ Members
put_back place (inl why) = inl why
put_back place (inr section) = inr (place section)

-- The section to work in, from what `ConfigChild` finds under the part.
abbrev pub in_found :
    String → Option (String × Json) → InSection → String → Members → BadKey ⊎ Members
in_found part none act path node =
    put_back (λ s. add_member part (object s) node) (act path no_members)
in_found part (some (k, object m)) act path node =
    put_back (λ s. replace_member k (object s) node) (act path m)
in_found part (some (k, null)) act path node = inl (value_and_section path)
in_found part (some (k, flag b)) act path node = inl (value_and_section path)
in_found part (some (k, number n)) act path node = inl (value_and_section path)
in_found part (some (k, text s)) act path node = inl (value_and_section path)
in_found part (some (k, array es)) act path node = inl (value_and_section path)

abbrev pub with_path : BadKey ⊎ String → InSection → Members → BadKey ⊎ Members
with_path (inl why) act node = inl why
with_path (inr path) act node = act path node

module _ (f : Folding) where
  -- `configSection`, and what follows in the section.
  unfoldable pub config_section : String → String → InSection → InSection
  config_section key part act path node =
      with_path (add_config_segment path part key)
        (λ path' node'. in_found part (config_child f part node') act path' node') node

  abbrev pub unless_found : String → Json → Option (String × Json) → InSection
  unless_found last value none path node = inr (add_member last value node)
  unless_found last value (some found) path node = inl (set_twice path)

  -- The value at the last part of a key.
  unfoldable pub set_last : String → Json → String → InSection
  set_last key value last path node =
      with_path (add_config_segment path last key)
        (λ path' node'. unless_found last value (config_child f last node') path' node') node

  -- The parts of a key: sections, and at the last of them what is done there.
  unfoldable pub at_parts : String → (String → InSection) → String → List String → InSection
  unfolding config_section
  at_parts key last_act part [] = last_act part
  at_parts key last_act part (next ∷ parts) =
      config_section key part (at_parts key last_act next parts)

  abbrev pub at_key : String → (String → InSection) → List String → InSection
  at_key key last_act [] path node = inr node
  at_key key last_act (part ∷ parts) path node = at_parts key last_act part parts path node

  abbrev pub then_merge : BadKey ⊎ Members → (Members → BadKey ⊎ Members) → BadKey ⊎ Members
  then_merge (inl why) next = inl why
  then_merge (inr node) next = next node

  -- `mergeConfigKeys`, at the value of a key and at the members of an object.
  unfoldable mutual
    pub merge_value : String → Json → String → InSection
    merge_value key (object no_members) last = set_last key (object no_members) last
    merge_value key (object (member k v m)) last =
        config_section key last (λ path node. merge_config_keys (member k v m) path node)
    merge_value key null last = set_last key null last
    merge_value key (flag b) last = set_last key (flag b) last
    merge_value key (number n) last = set_last key (number n) last
    merge_value key (text s) last = set_last key (text s) last
    merge_value key (array es) last = set_last key (array es) last

    pub merge_config_keys : Members → InSection
    merge_config_keys no_members path node = inr node
    merge_config_keys (member k v m) path node =
        then_merge
          (if has_control k
            then inl (control_character k)
            else at_key k (merge_value k v) (split_by (is_char b'.') k) path node)
          (λ node'. merge_config_keys m path node')

  -- `expandConfigKeys`
  unfoldable pub expand_config_keys : Members → BadKey ⊎ Members
  expand_config_keys payload = merge_config_keys payload "" no_members
