-- ===== src/Server.antt =====
-- internal/toolsets/toolsets.go and internal/server/{server,resultsize}.go: which tools a
-- deployment offers, and the cap on a tool's result. A tool is its name and its read-only
-- annotation; the names of `PIHOLE_TOOLSETS` come split. A result is its encoded size (`none` where
-- encoding/json fails) and whether it is the error that asks for less.
pub mod Scope
pub mod Cap
use Prim.Native.String
use Prim.Native.Char.{code}
use pihole_mcp.Prelude.{
  ℕ, ◌/◌, String, Bool, true, false, not, ◌&&◌, ◌||◌, Option, none, some, List, [], ◌∷◌, ◌==◌, leb,
  str_eq, if◌then◌else◌, keep, any, contains, Map, insert, lookup, length, map,
}

pub record Toolset : Type 0 where
  pub name : String
  pub tokens : List String

-- `table`, without the summaries
abbrev pub table : List Toolset
table =
    record { name = "dashboard"; tokens = "padd" ∷ [] }
    ∷ record { name = "dns"; tokens = "dns" ∷ "local" ∷ [] }
    ∷ record { name = "stats"; tokens = "stats" ∷ [] }
    ∷ record { name = "info"; tokens = "info" ∷ [] }
    ∷ record { name = "queries"; tokens = "queries" ∷ [] }
    ∷ record { name = "history"; tokens = "history" ∷ [] }
    ∷ record { name = "domains"; tokens = "domains" ∷ "search" ∷ [] }
    ∷ record { name = "groups"; tokens = "groups" ∷ [] }
    ∷ record { name = "clients"; tokens = "clients" ∷ [] }
    ∷ record { name = "lists"; tokens = "lists" ∷ [] }
    ∷ record { name = "config"; tokens = "config" ∷ [] }
    ∷ record { name = "actions"; tokens = "action" ∷ [] }
    ∷ record { name = "network"; tokens = "network" ∷ [] }
    ∷ record { name = "dhcp"; tokens = "dhcp" ∷ [] }
    ∷ record { name = "logs"; tokens = "logs" ∷ [] }
    ∷ record { name = "teleporter"; tokens = "teleporter" ∷ [] }
    ∷ record { name = "sessions"; tokens = "auth" ∷ [] }
    ∷ record { name = "instance"; tokens = "instance" ∷ [] }
    ∷ []

-- The inner and the outer loop of `byToken`.
abbrev pub index_tokens : String → List String → Map String → Map String
index_tokens name [] m = m
index_tokens name (token ∷ tokens) m = index_tokens name tokens (insert token name m)

abbrev pub index_table : List Toolset → Map String → Map String
index_table [] m = m
index_table (ts ∷ rest) m = index_table rest (index_tokens ts.name ts.tokens m)

abbrev pub by_token : Map String
by_token = index_table table []

-- The text before the first underscore, and the text after it if there is one.
unfoldable pub cut_underscore : String → String × Option String
cut_underscore String.[] = ("", none)
cut_underscore (String.◌∷◌ c s) =
    let (before, after) = cut_underscore s in
    if code c == b'_' then ("", some s) else (String.◌∷◌ c before, after)

abbrev pub second_part : Option String → String
second_part none = ""
second_part (some rest) = (cut_underscore rest).0

-- `Token`: the second of the parts that underscores separate.
unfoldable pub token_of : String → String
token_of tool_name = second_part (cut_underscore tool_name).1

-- `Of`
unfoldable pub toolset_of : String → Option String
toolset_of tool_name = lookup (token_of tool_name) by_token

-- `Validate`: the name that the error is about.
unfoldable pub validate : List String → Option String
validate [] = none
validate (n ∷ names) =
    let rest = validate names in
    if str_eq n "all" || any (λ ts. str_eq ts.name n) table then rest else some n

-- The loop of `Resolve`; `selected` is the set so far.
abbrev pub select : List String → List String → Option (List String)
select [] selected = some selected
select (n ∷ names) selected =
    let rest = select names (n ∷ selected) in if str_eq n "all" then none else rest

-- `Resolve`: the selected names, or none where the selection places no restriction.
unfoldable pub resolve_toolsets : List String → Option (List String)
resolve_toolsets [] = none
resolve_toolsets (n ∷ names) = select (n ∷ names) []

pub record Tool : Type 0 where
  pub name : String
  -- the ReadOnlyHint of its annotation
  pub read_only : Bool

pub record Options : Type 0 where
  pub read_only : Bool
  pub toolsets : List String

-- `readOnlyFilter`
unfoldable pub read_only_filter : List Tool → List Tool
read_only_filter candidates = keep (λ t. t.read_only) candidates

abbrev pub is_selected : List String → Option String → Bool
is_selected selected none = false
is_selected selected (some name) = contains selected name

-- `toolsetFilter`
unfoldable pub toolset_filter : List String → List Tool → List Tool
toolset_filter selected candidates = keep (λ t. is_selected selected (toolset_of t.name)) candidates

abbrev pub selection_filters : Option (List String) → List (List Tool → List Tool)
selection_filters none = []
selection_filters (some selected) = toolset_filter selected ∷ []

-- `filters`
unfoldable pub filters : Options → List (List Tool → List Tool)
filters o =
    if o.read_only
    then read_only_filter ∷ selection_filters (resolve_toolsets o.toolsets)
    else selection_filters (resolve_toolsets o.toolsets)

-- The loop that runs the chain.
abbrev pub run_filters : List (List Tool → List Tool) → List Tool → List Tool
run_filters [] candidates = candidates
run_filters (f ∷ fs) candidates = run_filters fs (f candidates)

-- `ExposedTools`
unfoldable pub exposed_tools : Options → List Tool → List Tool
exposed_tools o registered = run_filters (filters o) registered

abbrev pub get_tool : List Tool → String → Option Tool
get_tool [] name = none
get_tool (t ∷ ts) name = let rest = get_tool ts name in if str_eq t.name name then some t else rest

abbrev pub offers_found : Options → Option Tool → Bool
offers_found o none = false
offers_found o (some t) = length (run_filters (filters o) (t ∷ [])) == 1

-- `offers`
unfoldable pub offers : Options → List Tool → String → Bool
offers o registered name = offers_found o (get_tool registered name)

abbrev pub max_tool_result_bytes : ℕ
max_tool_result_bytes = 524288

pub data Result (R : Type 0) : Type 0 where
  sent : R → Result R
  failed : String → Result R
  -- the error that says how to ask for less, with the tool's name and both sizes in KiB
  too_large : String → ℕ → ℕ → Result R

abbrev pub cap_encoded : {R : Type 0} → ℕ → String → R → Option ℕ → Result R
cap_encoded max_bytes name res none = sent res
cap_encoded max_bytes name res (some size) =
    if leb size max_bytes then sent res else too_large name (size / 1024) (max_bytes / 1024)

-- What `resultSizeLimit` makes of one call's result.
unfoldable pub result_size_limit :
    {R : Type 0} → (R → Option ℕ) → ℕ → (String → Bool) → String → Result R → Result R
result_size_limit encode max_bytes read_only name (sent res) =
    if leb max_bytes 0 || not (read_only name)
    then sent res
    else cap_encoded max_bytes name res (encode res)
result_size_limit encode max_bytes read_only name res = res
