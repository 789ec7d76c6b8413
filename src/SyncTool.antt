-- ===== src/SyncTool.antt =====
-- internal/tools/sync.go: the tools that compare two Pi-holes and bring one towards the other, and
-- from internal/pihole/sync.go what they show of a plan and the token that confirms it.
-- The texts of the results, which repeat the structured output, the log message and the metadata of
-- the tools are not here.
pub mod Backup
pub mod Handler
pub mod Token
pub mod Kept
pub mod Confirmed
pub mod Saved
pub mod Steady
use Prim.Native.String
use pihole_mcp.Prelude.{
  ◌⊎◌, inl, inr, ℕ, ◌+◌, String, Bool, true, false, ◌&&◌, not, Option, none, some, List, [], ◌∷◌,
  ◌++◌, map, ltb, ◌==◌, leb, ◌||◌, str_eq, if◌then◌else◌, length, concat, split_by, is_char,
  trim_space, or_else,
}
use pihole_mcp.Registry.{Registry, get_client, default_client}
use pihole_mcp.Sync.{
  SyncCategory, groups, lists, domains, clients, local_dns, cname, category_name, category_label,
  apply_order, CategoryDiff, Diff, ReadError, ReadResult, entries, unread, DiffResult, computed,
  failed, with_category, category_diff, Totals, totals_of, in_sync, prune_wipes, Action, add,
  update, delete, PlannedOp, plan,
}
use pihole_mcp.Sync.Apply.{Target, OpResult, ApplyResult, apply_plan}

abbrev pub action_name : Action → String
action_name add = "add"
action_name update = "update"
action_name delete = "delete"

pub record PlanStep : Type 0 where
  pub category : String
  pub action : String
  pub item : String
  pub from : String
  pub to : String

abbrev pub step_of : PlannedOp → PlanStep
step_of op = record {
  category = category_name op.category;
  action = action_name op.action;
  item = op.label;
  from = op.from;
  to = op.to;
}

-- `Diff.Plan`
unfoldable pub shown_plan : Bool → Diff → List PlanStep
shown_plan prune d = map step_of (plan prune d)

pub record CategoryCount : Type 0 where
  pub category : String
  pub label : String
  pub added : ℕ
  pub changed : ℕ
  pub removed : ℕ

abbrev pub count_of : CategoryDiff → CategoryCount
count_of cd = record {
  category = category_name cd.category;
  label = category_label cd.category;
  added = length cd.added;
  changed = length cd.changed;
  removed = length cd.removed;
}

-- `Diff.Counts`
unfoldable pub counts : Diff → List CategoryCount
counts d = map count_of d.categories

-- What `Token` calls: `quote` is the verb %q, `digest` the first 16 hexadecimal digits of the SHA-256.
pub record TokenText : Type 0 where
  pub quote : String → String
  pub digest : String → String

abbrev pub bool_text : Bool → String
bool_text true = "true"
bool_text false = "false"

-- One line of the text that `Token` digests.
abbrev pub step_line : TokenText → PlanStep → List String
step_line t s =
    s.category
    ∷ "|"
    ∷ s.action
    ∷ "|"
    ∷ t.quote s.item
    ∷ "|"
    ∷ t.quote s.from
    ∷ "|"
    ∷ t.quote s.to
    ∷ "\n"
    ∷ []

unfoldable pub step_lines : TokenText → List PlanStep → List String
step_lines t [] = []
step_lines t (s ∷ ss) = step_line t s ++ step_lines t ss

unfoldable pub token_text : TokenText → Bool → Diff → String
token_text t prune d = concat (
    d.source
    ∷ "->"
    ∷ d.target
    ∷ ";prune="
    ∷ bool_text prune
    ∷ "\n"
    ∷ step_lines t (shown_plan prune d))

-- `Diff.Token`
unfoldable pub token : TokenText → Bool → Diff → String
token t prune d = t.digest (token_text t prune d)

-- `ParseSyncCategory`: the categories that have a reader, by name.
abbrev pub find_category : String → List SyncCategory → Option SyncCategory
find_category name [] = none
find_category name (c ∷ cs) =
    let rest = find_category name cs in if str_eq (category_name c) name then some c else rest

unfoldable pub parse_sync_category : String → Option SyncCategory
parse_sync_category name = find_category (trim_space name) apply_order

-- Why a request is answered with an error and no output.
pub data Refusal : Type 0 where
  unknown_instance : String → Refusal
  -- the registry is empty, which the source does not expect
  no_default : Refusal
  same_instance : String → Refusal
  unknown_category : String → Refusal
  no_categories : Refusal
  not_compared : SyncCategory → ReadError → Refusal
  prune_would_empty : List CategoryCount → Refusal
  no_token : Refusal
  stale_token : Refusal
  not_backed_up : String → Refusal

pub record SyncRequest : Type 0 where
  pub source : Option String
  pub target : Option String
  pub categories : Option String
  pub mode : Option String
  pub confirm_token : Option String
  pub prune : Option Bool
  pub snapshot : Option Bool

abbrev pub default_categories : List SyncCategory
default_categories = groups ∷ lists ∷ domains ∷ clients ∷ local_dns ∷ cname ∷ []

abbrev pub put_category :
    Option SyncCategory → String → Refusal ⊎ List SyncCategory → Refusal ⊎ List SyncCategory
put_category none part rest = inl (unknown_category part)
put_category (some c) part (inl why) = inl why
put_category (some c) part (inr cs) = inr (c ∷ cs)

-- The loop of `parseSyncCategories`. The first part that is no category ends it.
unfoldable pub parse_parts : List String → Refusal ⊎ List SyncCategory
parse_parts [] = inr []
parse_parts (p ∷ ps) =
    let rest = parse_parts ps in
    let part = trim_space p in
    if str_eq part "" then rest else put_category (parse_sync_category part) part rest

abbrev pub some_categories : Refusal ⊎ List SyncCategory → Refusal ⊎ List SyncCategory
some_categories (inl why) = inl why
some_categories (inr []) = inl no_categories
some_categories (inr (c ∷ cs)) = inr (c ∷ cs)

-- `parseSyncCategories`
unfoldable pub parse_sync_categories : Option String → Refusal ⊎ List SyncCategory
parse_sync_categories categories =
    let raw = trim_space (or_else "" categories) in
    if str_eq raw ""
    then inr default_categories
    else some_categories (parse_parts (split_by (is_char b',') raw))
