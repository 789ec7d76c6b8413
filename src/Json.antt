-- ===== src/Json.antt =====
-- What encoding/json decodes into a Go `any`, and the type assertions that the code makes of it.
-- A number keeps the text it is printed as.
use pihole_mcp.Prelude.{String, Bool, Option, none, some, List, [], ◌∷◌, str_eq, if◌then◌else◌}

mutual
  pub data Json : Type 0 where
    null : Json
    flag : Bool → Json
    number : String → Json
    text : String → Json
    array : Elements → Json
    object : Members → Json

  pub data Elements : Type 0 where
    no_elements : Elements
    element : Json → Elements → Elements

  pub data Members : Type 0 where
    no_members : Members
    member : String → Json → Members → Members

-- `m[key]`, `null` on a missing key.
abbrev pub get_member : String → Members → Json
get_member k no_members = null
get_member k (member j v m) = let rest = get_member k m in if str_eq j k then v else rest

-- `m, _ := v.(map[string]any)`
abbrev pub members_of : Json → Members
members_of (object m) = m
members_of _ = no_members

-- `s, _ := v.([]any)`
abbrev pub elements_of : Json → Elements
elements_of (array es) = es
elements_of _ = no_elements

-- The texts among the elements.
abbrev pub texts_of : Elements → List String
texts_of no_elements = []
texts_of (element (text s) es) = s ∷ texts_of es
texts_of (element null es) = texts_of es
texts_of (element (flag b) es) = texts_of es
texts_of (element (number n) es) = texts_of es
texts_of (element (array xs) es) = texts_of es
texts_of (element (object m) es) = texts_of es

-- `v, ok := m[key]`
abbrev pub find_member : String → Members → Option Json
find_member k no_members = none
find_member k (member j v m) = let rest = find_member k m in if str_eq j k then some v else rest

-- `delete(m, key)`
abbrev pub drop_member : String → Members → Members
drop_member k no_members = no_members
drop_member k (member j v m) =
    let rest = drop_member k m in if str_eq j k then rest else member j v rest

-- `m[key] = v` for a key that is there.
abbrev pub replace_member : String → Json → Members → Members
replace_member k x no_members = no_members
replace_member k x (member j v m) =
    let rest = replace_member k x m in if str_eq j k then member j x m else member j v rest

-- `m[key] = v` for a key that is not there.
abbrev pub add_member : String → Json → Members → Members
add_member k x no_members = member k x no_members
add_member k x (member j v m) = member j v (add_member k x m)
