-- ===== src/Groups.antt =====
-- internal/tools/groups_assign.go: the groups that an add or update puts an entry in. The IDs of
-- groups are not negative; `strings.EqualFold` and `strconv.Atoi` are parameters. What the tools show
-- of groups (`groupNamer`) and the texts of the errors are not here.
pub mod Assigned
use Prim.Native.Char.{code}
use Prim.Native.String
use pihole_mcp.Prelude.{
  ◌⊎◌, inl, inr, ℕ, String, Bool, true, false, ◌||◌, Option, none, some, List, [], ◌∷◌, ◌++◌, ◌==◌,
  str_eq, if◌then◌else◌, contains, split_by, is_char, trim_space, Map, lookup, insert, keys, keep,
}
use pihole_mcp.Sync.{sort_keys}

pub record Matching : Type 0 where
  pub equal_fold : String → String → Bool
  pub atoi : String → Option ℕ

abbrev pub has_id : List ℕ → ℕ → Bool
has_id [] id = false
has_id (i ∷ ids) id = i == id || has_id ids id

pub data GroupId : Type 0 where
  found_id : ℕ → GroupId
  no_group : GroupId
  several_groups : List String → GroupId

-- `strings.CutPrefix(name, "#")`
abbrev pub cut_hash : String → Option String
cut_hash String.[] = none
cut_hash (String.◌∷◌ c s) = if code c == b'#' then some s else none

abbrev pub ids_of : Map ℕ → List ℕ
ids_of [] = []
ids_of ((n, id) ∷ m) = id ∷ ids_of m

-- The ID that "#<id>" names, if a group has it.
abbrev pub held_id : Map ℕ → Option ℕ → Option ℕ
held_id by_name none = none
held_id by_name (some id) = if has_id (ids_of by_name) id then some id else none

abbrev pub digits_id : Matching → Map ℕ → Option String → Option ℕ
digits_id s by_name none = none
digits_id s by_name (some digits) = held_id by_name (s.atoi digits)

abbrev pub id_at : Option ℕ → GroupId
id_at none = no_group
id_at (some id) = found_id id

-- The names that differ from the one asked for in case only.
abbrev pub folded_id : Map ℕ → List String → GroupId
folded_id by_name [] = no_group
folded_id by_name (n ∷ []) = id_at (lookup n by_name)
folded_id by_name (n ∷ m ∷ ns) = several_groups (sort_keys (n ∷ m ∷ ns))

abbrev pub unless_id : Option ℕ → GroupId → GroupId
unless_id none rest = rest
unless_id (some id) rest = found_id id

-- `groupID`
unfoldable pub group_id : Matching → Map ℕ → String → GroupId
group_id s by_name name = unless_id (lookup name by_name) (
    unless_id (digits_id s by_name (cut_hash name))
      (folded_id by_name (keep (λ n. s.equal_fold n name) (keys by_name))))

-- The names in the argument, each once; `seen` are those before.
unfoldable pub group_names : List String → List String → List String
group_names seen [] = []
group_names seen (part ∷ parts) =
    let n = trim_space part in
    let skipped = group_names seen parts in
    let taken = n ∷ group_names (n ∷ seen) parts in
    if str_eq n "" || contains seen n then skipped else taken

pub record NamedGroup : Type 0 where
  pub id : ℕ
  pub name : String

-- `byName`: of two groups of a name the later counts.
unfoldable pub by_name : List NamedGroup → Map ℕ → Map ℕ
by_name [] m = m
by_name (g ∷ gs) m = by_name gs (insert g.name g.id m)

-- Why nothing is assigned.
pub data GroupsError : Type 0 where
  names_none : GroupsError
  not_read : String → GroupsError
  ambiguous : String → List String → GroupsError
  missing_groups : List String → GroupsError

abbrev pub add_id : ℕ → List ℕ → List ℕ
add_id id ids = if has_id ids id then ids else ids ++ id ∷ []

-- The loop over the names: the names of no group and the IDs so far.
abbrev pub next_ids : String → GroupId → List String → List ℕ → GroupsError ⊎ (List String × List ℕ)
next_ids n (found_id id) missing ids = inr (missing, add_id id ids)
next_ids n no_group missing ids = inr (missing ++ n ∷ [], ids)
next_ids n (several_groups ns) missing ids = inl (ambiguous n ns)

abbrev pub then_assign :
    GroupsError ⊎ (List String × List ℕ)
    → (List String → List ℕ → GroupsError ⊎ (List String × List ℕ))
    → GroupsError ⊎ (List String × List ℕ)
then_assign (inl why) next = inl why
then_assign (inr (missing, ids)) next = next missing ids

unfoldable pub assign_from :
    Matching → Map ℕ → List String → List String → List ℕ → GroupsError ⊎ (List String × List ℕ)
assign_from s m [] missing ids = inr (missing, ids)
assign_from s m (n ∷ ns) missing ids =
    then_assign (next_ids n (group_id s m n) missing ids) (assign_from s m ns)

abbrev pub all_found : GroupsError ⊎ (List String × List ℕ) → GroupsError ⊎ List ℕ
all_found (inl why) = inl why
all_found (inr ([], ids)) = inr ids
all_found (inr (n ∷ ns, ids)) = inl (missing_groups (n ∷ ns))

abbrev pub assign_read : Matching → List String → String ⊎ List NamedGroup → GroupsError ⊎ List ℕ
assign_read s names (inl e) = inl (not_read e)
assign_read s names (inr groups) = all_found (assign_from s (by_name groups []) names [] [])

-- `applyGroups` for the argument that was given: the IDs that go into the body, from the names and
-- what `GET /groups` answers in the world `W`.
module _ {W : Type 0} (get_groups : W → (String ⊎ List NamedGroup) × W) where
  abbrev pub assign_named : Matching → List String → W → (GroupsError ⊎ List ℕ) × W
  assign_named s [] w = (inl names_none, w)
  assign_named s (n ∷ ns) w = let (groups, w') = get_groups w in (assign_read s (n ∷ ns) groups, w')

  unfoldable pub apply_groups : Matching → String → W → (GroupsError ⊎ List ℕ) × W
  unfolding group_names
  apply_groups s raw w = assign_named s (group_names [] (split_by (is_char b',') raw)) w
