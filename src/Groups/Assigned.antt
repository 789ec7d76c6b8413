-- ===== src/Groups/Assigned.antt =====
-- internal/tools/groups_assign.go: the group IDs that `applyGroups` sends.
use pihole_mcp.Prelude.{
  ◌≡◌, ◌≢◌, refl, sym, ap, subst, ◌⊎◌, inl, inr, ℕ, String, Bool, true, false, ◌||◌, List, [], ◌∷◌,
  ◌++◌, All, Map, Bool-cases, ◌==◌, arith,
}
use pihole_mcp.Groups.{
  Matching, has_id, GroupId, found_id, no_group, several_groups, group_id, NamedGroup, by_name,
  GroupsError, add_id, assign_from, all_found, assign_read,
}

-- No ID stands twice.
abbrev pub OnlyOnce : List ℕ → Type 0
OnlyOnce [] = Unit
OnlyOnce (i ∷ ids) = (has_id ids i ≡ false) × OnlyOnce ids

has-snoc : (ids : List ℕ) (id j : ℕ) → has_id (ids ++ id ∷ []) j ≡ (has_id ids j || id == j)
has-snoc [] id j = ground arith
has-snoc (i ∷ ids) id j = ground (arith, has-snoc ids id j)

OnlyOnce-snoc :
    (ids : List ℕ) (id : ℕ) → OnlyOnce ids → has_id ids id ≡ false → OnlyOnce (ids ++ id ∷ [])
OnlyOnce-snoc [] id o h = (refl, tt)
OnlyOnce-snoc (i ∷ ids) id (fresh, o) h =
    (ground (arith, has-snoc ids id i), OnlyOnce-snoc ids id o (ground arith))

add_id-OnlyOnce : (id : ℕ) (ids : List ℕ) → OnlyOnce ids → OnlyOnce (add_id id ids)
add_id-OnlyOnce id ids o = elim (Bool-cases (has_id ids id)) [
  | inl e ↦ rw e o
  | inr e ↦ rw e (OnlyOnce-snoc ids id o e)
]

has-add_id : (id j : ℕ) (ids : List ℕ) → has_id (add_id id ids) j ≡ (has_id ids j || id == j)
has-add_id id j ids = elim (Bool-cases (has_id ids id)) [
  | inl e ↦ elim (Bool-cases (id == j)) [
    | inl s ↦ let same : id ≡ j = ground arith in rw e (ground (arith, same))
    | inr s ↦ rw e (ground arith)
  ]
  | inr e ↦ rw e (has-snoc ids id j)
]

-- Whether one of the names stands for the ID.
abbrev pub is_id : GroupId → ℕ → Bool
is_id (found_id id) j = id == j
is_id no_group j = false
is_id (several_groups ns) j = false

abbrev pub named_id : Matching → Map ℕ → List String → ℕ → Bool
named_id s m [] j = false
named_id s m (n ∷ ns) j = is_id (group_id s m n) j || named_id s m ns j

-- A name that stands for one group.
abbrev pub IsGroup : Matching → Map ℕ → String → Type 0
IsGroup s m n = (id : ℕ) × (group_id s m n ≡ found_id id)

group_id-cases :
    (g : GroupId)
    → ((id : ℕ) × (g ≡ found_id id))
      ⊎ ((g ≡ no_group) ⊎ ((ns : List String) × (g ≡ several_groups ns)))
group_id-cases (found_id id) = inl (id, refl)
group_id-cases no_group = inr (inl refl)
group_id-cases (several_groups ns) = inr (inr (ns, refl))

abbrev missing_of : GroupsError ⊎ (List String × List ℕ) → List String
missing_of (inl why) = []
missing_of (inr (missing, ids)) = missing

abbrev ids_in : GroupsError ⊎ (List String × List ℕ) → List ℕ
ids_in (inl why) = []
ids_in (inr (missing, ids)) = ids

abbrev is_stopped : GroupsError ⊎ (List String × List ℕ) → Bool
is_stopped (inl why) = true
is_stopped (inr found) = false

snoc-ne-nil : (n : String) (ns : List String) → ns ++ n ∷ [] ≢ []
snoc-ne-nil n [] h = cc
snoc-ne-nil n (m ∷ ns) h = cc

module _ (s : Matching) (m : Map ℕ) where
  -- What a loop that ends with nothing missing has done.
  abbrev pub Assigns : List String → List ℕ → List ℕ → Type 0
  Assigns names ids ids' =
      All (IsGroup s m) names
      × (OnlyOnce ids → OnlyOnce ids')
      × ((j : ℕ) → has_id ids' j ≡ (has_id ids j || named_id s m names j))

  assign_from-Assigns :
      (names missing : List String) (ids ids' : List ℕ)
      → assign_from s m names missing ids ≡ inr ([], ids')
      → (missing ≡ []) × Assigns names ids ids'
  unfolding assign_from
  assign_from-Assigns [] missing ids ids' h =
      let same : ids ≡ ids' = ap ids_in h in
      (ap missing_of h, (tt, (λ o. subst OnlyOnce same o), λ j. rw (sym same) (ground arith)))
  assign_from-Assigns (n ∷ ns) missing ids ids' h = elim (group_id-cases (group_id s m n)) [
    | inr (inr (found, e)) ↦
        let stopped = ap is_stopped (rw (e, assign_from) at h) in absurd (ground arith)
    | inr (inl e) ↦
        let (gone, rest) =
          assign_from-Assigns ns (missing ++ n ∷ []) ids ids' (rw (e, assign_from) at h) in
        absurd (snoc-ne-nil n missing gone)
    | inl (id, e) ↦
        let (gone, (groups, once, has)) =
          assign_from-Assigns ns missing (add_id id ids) ids' (rw (e, assign_from) at h) in
        (
          gone,
          (
            ((id, e), groups),
            (λ o. once (add_id-OnlyOnce id ids o)),
            λ j. rw e (ground (arith, has j, has-add_id id j ids)),
          ),
        )
  ]

found_all :
    (x : GroupsError ⊎ (List String × List ℕ)) (ids : List ℕ)
    → all_found x ≡ inr ids
    → x ≡ inr ([], ids)
found_all (inl why) ids h = cc
found_all (inr ([], found)) ids h = cc
found_all (inr (n ∷ ns, found)) ids h = cc

-- If IDs are assigned, then each of the names stands for one group of the Pi-hole, the IDs are exactly
-- the ones that the names stand for, and none is there twice: a name that is missing or ambiguous
-- assigns nothing.
pub assigned_exactly :
    (s : Matching) (names : List String) (groups : List NamedGroup) (ids : List ℕ)
    → assign_read s names (inr groups) ≡ inr ids
    → All (IsGroup s (by_name groups [])) names
      × OnlyOnce ids
      × ((j : ℕ) → has_id ids j ≡ named_id s (by_name groups []) names j)
assigned_exactly s names groups ids h =
    let (gone, (groups_named, once, has)) =
      assign_from-Assigns s (by_name groups []) names [] [] ids
        (found_all (assign_from s (by_name groups []) names [] []) ids h) in
    (groups_named, once tt, has)
