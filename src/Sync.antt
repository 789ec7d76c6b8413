-- ===== src/Sync.antt =====
-- internal/pihole/sync.go: what a sync between two Pi-holes compares and plans.
pub mod Readers
pub mod Keys
pub mod Agreement
pub mod InSync
pub mod Convergence
pub mod Order
pub mod Apply
pub mod Cnames
use Prim.Native.String.{compare}
use text.Mathlib.Text.{is_lt}
use mathlib.Core.List.{reverse}
use pihole_mcp.Prelude.{
  ℕ, ◌+◌, String, Bool, true, false, ◌&&◌, ◌||◌, not, Option, none, some, List, [], ◌∷◌, ◌++◌, map,
  ltb, ◌==◌, str_eq, if◌then◌else◌, length, keep, Map, keys, lookup,
}

pub data SyncCategory : Type 0 where
  groups lists domains clients local_dns cname : SyncCategory

-- The name in the source, which also tells categories apart.
abbrev pub category_name : SyncCategory → String
category_name groups = "groups"
category_name lists = "lists"
category_name domains = "domains"
category_name clients = "clients"
category_name local_dns = "local_dns"
category_name cname = "cname"

abbrev pub category_label : SyncCategory → String
category_label groups = "groups"
category_label lists = "lists"
category_label domains = "domains"
category_label clients = "clients"
category_label local_dns = "local DNS records"
category_label cname = "CNAME records"

abbrev pub apply_order : List SyncCategory
apply_order = groups ∷ lists ∷ domains ∷ clients ∷ local_dns ∷ cname ∷ []

unfoldable pub same_category : SyncCategory → SyncCategory → Bool
same_category c d = str_eq (category_name c) (category_name d)

-- A value of a request body.
pub data Field : Type 0 where
  str : String → Field
  flag : Bool → Field

-- One request to the target: what a `writeFunc` sends.
pub record Write : Type 0 where
  pub method : String
  pub path : String
  pub body : List (String × Field)

-- A `writeFunc`, by whether the write is to restart FTL.
abbrev pub WriteFunc : Type 0
WriteFunc = Bool → Write

pub record Item : Type 0 where
  pub key : String
  pub label : String
  pub compared : String
  pub before : String
  pub entry : String
  pub add : WriteFunc
  -- the DNS arrays have no update
  pub update : Option WriteFunc
  pub delete : WriteFunc

pub record CategoryDiff : Type 0 where
  pub category : SyncCategory
  pub source_count : ℕ
  pub added : List Item
  pub changed : List Item
  pub removed : List Item

pub record Diff : Type 0 where
  pub source : String
  pub target : String
  pub categories : List CategoryDiff

-- `sort.Strings`
unfoldable pub insert_key : String → List String → List String
insert_key k [] = k ∷ []
insert_key k (j ∷ ks) =
    let rest = insert_key k ks in if is_lt (compare j k) then j ∷ rest else k ∷ j ∷ ks

unfoldable pub sort_keys : List String → List String
unfolding insert_key
sort_keys [] = []
sort_keys (k ∷ ks) = insert_key k (sort_keys ks)

unfoldable pub sorted_keys : Map Item → List String
sorted_keys m = sort_keys (keys m)

-- What `ComputeDiff` puts into the three lists for one key, from the entries that the source and
-- the target have under it.
unfoldable pub pick_added : Option Item → Option Item → Option Item
pick_added (some s) none = some s
pick_added _ _ = none

abbrev pub differs : Item → Item → Bool
differs s t = not (str_eq s.compared "") && not (str_eq s.compared t.compared)

unfoldable pub pick_changed : Option Item → Option Item → Option Item
pick_changed (some s) (some t) =
    if differs s t then some (record s { before = t.compared }) else none
pick_changed _ _ = none

unfoldable pub pick_removed : Option Item → Option Item → Option Item
pick_removed none (some t) = some t
pick_removed _ _ = none

abbrev pub push : Option Item → List Item → List Item
push none items = items
push (some it) items = it ∷ items

-- A loop over sorted keys that appends what is picked.
unfoldable pub collect :
    (Option Item → Option Item → Option Item) → Map Item → Map Item → List String → List Item
collect pick src tgt [] = []
collect pick src tgt (k ∷ ks) = push (pick (lookup k src) (lookup k tgt)) (collect pick src tgt ks)

unfoldable pub category_diff : SyncCategory → Map Item → Map Item → CategoryDiff
category_diff cat src tgt = record {
  category = cat;
  source_count = length src;
  added = collect pick_added src tgt (sorted_keys src);
  changed = collect pick_changed src tgt (sorted_keys src);
  removed = collect pick_removed src tgt (sorted_keys tgt);
}

-- Why a category could not be read: the request failed, the reply lacks the list, or the list does
-- not decode.
pub data ReadError : Type 0 where
  get_failed : String → ReadError
  no_list : String → String → ReadError
  bad_list : String → String → String → ReadError

-- What a reader made of one category of one Pi-hole.
pub data ReadResult : Type 0 where
  entries : Map Item → ReadResult
  unread : ReadError → ReadResult

pub data DiffResult : Type 0 where
  computed : Diff → DiffResult
  failed : SyncCategory → ReadError → DiffResult

abbrev pub with_category : CategoryDiff → DiffResult → DiffResult
with_category cd (computed d) = computed (record d { categories = cd ∷ d.categories })
with_category cd (failed cat why) = failed cat why

abbrev pub add_category : SyncCategory → ReadResult → ReadResult → DiffResult → DiffResult
add_category cat (unread why) t rest = failed cat why
add_category cat (entries s) (unread why) rest = failed cat why
add_category cat (entries s) (entries t) rest = with_category (category_diff cat s t) rest

-- `ComputeDiff`, from what the readers answer for the source and the target. The first category
-- that cannot be read ends it.
unfoldable pub compute_diff :
    String
    → String
    → (SyncCategory → ReadResult)
    → (SyncCategory → ReadResult)
    → List SyncCategory
    → DiffResult
compute_diff source target src tgt [] =
    computed (record { source = source; target = target; categories = [] })
compute_diff source target src tgt (cat ∷ cats) =
    add_category cat (src cat) (tgt cat) (compute_diff source target src tgt cats)

pub record Totals : Type 0 where
  pub added : ℕ
  pub changed : ℕ
  pub removed : ℕ

unfoldable pub totals_of : List CategoryDiff → Totals
totals_of [] = record { added = 0; changed = 0; removed = 0 }
totals_of (cd ∷ cds) =
    let rest = totals_of cds in
    record {
      added = length cd.added + rest.added;
      changed = length cd.changed + rest.changed;
      removed = length cd.removed + rest.removed;
    }

unfoldable pub in_sync : Bool → Diff → Bool
unfolding totals_of
in_sync prune d =
    let t = totals_of d.categories in
    if prune then t.added + t.changed + t.removed == 0 else t.added + t.changed == 0

-- The categories that a pruning sync would empty.
unfoldable pub prune_wipes : Diff → List CategoryDiff
prune_wipes d = keep (λ c. c.source_count == 0 && ltb 0 (length c.removed)) d.categories

pub data Action : Type 0 where
  add update delete : Action

pub record PlannedOp : Type 0 where
  pub category : SyncCategory
  pub action : Action
  pub label : String
  pub from : String
  pub to : String
  pub entry : String
  pub run : Option WriteFunc

-- `byCat`: a later entry for a category overwrites an earlier one.
unfoldable pub by_cat : SyncCategory → List CategoryDiff → Option CategoryDiff
by_cat cat [] = none
by_cat cat (cd ∷ cds) = elim (by_cat cat cds) [
  | some later ↦ some later
  | none ↦ if same_category cd.category cat then some cd else none
]

abbrev pub add_op : SyncCategory → Item → PlannedOp
add_op cat it = record {
  category = cat;
  action = add;
  label = it.label;
  from = "";
  to = it.compared;
  entry = it.entry;
  run = some it.add;
}

abbrev pub update_op : SyncCategory → Item → PlannedOp
update_op cat it = record {
  category = cat;
  action = update;
  label = it.label;
  from = it.before;
  to = it.compared;
  entry = it.entry;
  run = it.update;
}

abbrev pub delete_op : SyncCategory → Item → PlannedOp
delete_op cat it = record {
  category = cat;
  action = delete;
  label = it.label;
  from = it.compared;
  to = "";
  entry = it.entry;
  run = some it.delete;
}

abbrev pub write_ops : SyncCategory → Option CategoryDiff → List PlannedOp
write_ops cat none = []
write_ops cat (some cd) = map (add_op cat) cd.added ++ map (update_op cat) cd.changed

abbrev pub delete_ops : SyncCategory → Option CategoryDiff → List PlannedOp
delete_ops cat none = []
delete_ops cat (some cd) = map (delete_op cat) cd.removed

unfoldable pub writes_in : List SyncCategory → Diff → List PlannedOp
writes_in [] d = []
writes_in (cat ∷ cats) d = write_ops cat (by_cat cat d.categories) ++ writes_in cats d

unfoldable pub deletes_in : List SyncCategory → Diff → List PlannedOp
deletes_in [] d = []
deletes_in (cat ∷ cats) d = delete_ops cat (by_cat cat d.categories) ++ deletes_in cats d

unfoldable pub plan : Bool → Diff → List PlannedOp
plan prune d = writes_in apply_order d ++ (if prune then deletes_in (reverse apply_order) d else [])
