-- ===== src/Sync/Agreement.antt =====
-- When internal/pihole/sync.go calls two Pi-holes in sync.
use pihole_mcp.Prelude.{
  String, ◌≡◌, refl, ◌↔◌, ◌⊎◌, inl, inr, Bool, true, false, Option, none, some, arith, str-eq_iff,
  Bool-cases, length, contains, Map, lookup,
}
use pihole_mcp.Sync.{
  SyncCategory, Item, CategoryDiff, sorted_keys, pick_added, pick_changed, pick_removed, differs,
  category_diff,
}
use pihole_mcp.Sync.Keys.{picks, none_of_empty, empty_of_none, lookup_of_unvisited}

-- The target has the source's entry, with the same settings where the category compares them.
-- Without pruning, an entry that only the target has does no harm.
abbrev pub Matches : Bool → Option Item → Option Item → Type 0
Matches prune none none = Unit
Matches true none (some t) = ⊥
Matches false none (some t) = Unit
Matches prune (some s) none = ⊥
Matches prune (some s) (some t) = (s.compared ≡ "") ⊎ (s.compared ≡ t.compared)

abbrev pub MapsMatch : Bool → Map Item → Map Item → Type 0
MapsMatch prune src tgt = (k : String) → Matches prune (lookup k src) (lookup k tgt)

-- Nothing is picked for a key.
abbrev Unpicked : Bool → Option Item → Option Item → Type 0
Unpicked true o p = (pick_added o p ≡ none) × (pick_changed o p ≡ none) × (pick_removed o p ≡ none)
Unpicked false o p = (pick_added o p ≡ none) × (pick_changed o p ≡ none) × Unit {0}

differs_iff : (s t : Item) → (differs s t ≡ false) ↔ ((s.compared ≡ "") ⊎ (s.compared ≡ t.compared))
differs_iff s t = ground (arith, str-eq_iff s.compared "", str-eq_iff s.compared t.compared)

Unpicked-of_Matches : (prune : Bool) (o p : Option Item) → Matches prune o p → Unpicked prune o p
unfolding pick_added pick_changed pick_removed
Unpicked-of_Matches true none none h = (refl, refl, refl)
Unpicked-of_Matches true none (some t) h = absurd h
Unpicked-of_Matches true (some s) none h = absurd h
Unpicked-of_Matches true (some s) (some t) h = (refl, rw ((differs_iff s t).1 h), refl)
Unpicked-of_Matches false none none h = (refl, refl, tt)
Unpicked-of_Matches false none (some t) h = (refl, refl, tt)
Unpicked-of_Matches false (some s) none h = absurd h
Unpicked-of_Matches false (some s) (some t) h = (refl, rw ((differs_iff s t).1 h), tt)

same_settings :
    (prune : Bool) (s t : Item)
    → pick_changed (some s) (some t) ≡ none
    → Matches prune (some s) (some t)
unfolding pick_changed
same_settings prune s t h = (differs_iff s t).0 (ground arith)

Matches-of_Unpicked : (prune : Bool) (o p : Option Item) → Unpicked prune o p → Matches prune o p
unfolding pick_added pick_removed
Matches-of_Unpicked true none none h = tt
Matches-of_Unpicked true none (some t) (a, c, r) = cc
Matches-of_Unpicked true (some s) none (a, c, r) = cc
Matches-of_Unpicked true (some s) (some t) (a, c, r) = same_settings true s t c
Matches-of_Unpicked false none none h = tt
Matches-of_Unpicked false none (some t) h = tt
Matches-of_Unpicked false (some s) none (a, c, r) = cc
Matches-of_Unpicked false (some s) (some t) (a, c, r) = same_settings false s t c

-- No difference that a sync would remove.
abbrev pub IsEmpty : Bool → CategoryDiff → Type 0
IsEmpty true cd = (length cd.added ≡ 0) × (length cd.changed ≡ 0) × (length cd.removed ≡ 0)
IsEmpty false cd = (length cd.added ≡ 0) × (length cd.changed ≡ 0) × Unit {0}

added_of_none : (o : Option Item) → (pick_added none o ≡ none) × (pick_changed none o ≡ none)
unfolding pick_added pick_changed
added_of_none none = (refl, refl)
added_of_none (some t) = (refl, refl)

removed_of_none : (o : Option Item) → pick_removed o none ≡ none
unfolding pick_removed
removed_of_none none = refl
removed_of_none (some s) = refl

module _ (cat : SyncCategory) (src tgt : Map Item) where
  source_side :
      (k : String)
      → length (category_diff cat src tgt).added ≡ 0
      → length (category_diff cat src tgt).changed ≡ 0
      → (picks pick_added src tgt k ≡ none) × (picks pick_changed src tgt k ≡ none)
  unfolding category_diff
  source_side k a c = elim (Bool-cases (contains (sorted_keys src) k)) [
    | inl h ↦ (
      none_of_empty pick_added src tgt k (sorted_keys src) a h,
      none_of_empty pick_changed src tgt k (sorted_keys src) c h,
    )
    | inr h ↦ rw (lookup_of_unvisited k src h) (added_of_none (lookup k tgt))
  ]

  target_side :
      (k : String)
      → length (category_diff cat src tgt).removed ≡ 0
      → picks pick_removed src tgt k ≡ none
  unfolding category_diff
  target_side k r = elim (Bool-cases (contains (sorted_keys tgt) k)) [
    | inl h ↦ none_of_empty pick_removed src tgt k (sorted_keys tgt) r h
    | inr h ↦ rw (lookup_of_unvisited k tgt h) (removed_of_none (lookup k src))
  ]

  pub MapsMatch-of_IsEmpty :
      (prune : Bool) → IsEmpty prune (category_diff cat src tgt) → MapsMatch prune src tgt
  MapsMatch-of_IsEmpty true (a, c, r) k =
      let (pa, pc) = source_side k a c in
      Matches-of_Unpicked true (lookup k src) (lookup k tgt) (pa, pc, target_side k r)
  MapsMatch-of_IsEmpty false (a, c, r) k =
      let (pa, pc) = source_side k a c in
      Matches-of_Unpicked false (lookup k src) (lookup k tgt) (pa, pc, tt)

  pub IsEmpty-of_MapsMatch :
      (prune : Bool) → MapsMatch prune src tgt → IsEmpty prune (category_diff cat src tgt)
  unfolding category_diff
  IsEmpty-of_MapsMatch true h =
      let u = λ (k : String). Unpicked-of_Matches true (lookup k src) (lookup k tgt) (h k) in
      (
        empty_of_none pick_added src tgt (sorted_keys src) (λ k. (u k).0),
        empty_of_none pick_changed src tgt (sorted_keys src) (λ k. (u k).1),
        empty_of_none pick_removed src tgt (sorted_keys tgt) (λ k. (u k).2),
      )
  IsEmpty-of_MapsMatch false h =
      let u = λ (k : String). Unpicked-of_Matches false (lookup k src) (lookup k tgt) (h k) in
      (
        empty_of_none pick_added src tgt (sorted_keys src) (λ k. (u k).0),
        empty_of_none pick_changed src tgt (sorted_keys src) (λ k. (u k).1),
        tt,
      )
