-- ===== src/Sync/Keys.antt =====
-- The loops over sorted keys of internal/pihole/sync.go: which keys they visit and what they collect.
use Prim.Native.String.{compare}
use text.Mathlib.Text.{is_lt}
use pihole_mcp.Prelude.{
  ℕ, suc, String, ◌≡◌, refl, inl, inr, true, false, ◌||◌, Option, none, List, [], ◌∷◌, arith,
  str_eq, str-eq_iff, Bool-cases, Option-cases, length, contains, Map, keys, lookup,
}
use pihole_mcp.Sync.{Item, insert_key, sort_keys, sorted_keys, collect}

contains-insert_key :
    (j k : String) (ks : List String) → contains (insert_key j ks) k ≡ (str_eq j k || contains ks k)
unfolding insert_key
contains-insert_key j k [] = refl
contains-insert_key j k (i ∷ ks) = elim (Bool-cases (is_lt (compare i j))) [
  | inl e ↦ rw e (ground (arith, contains-insert_key j k ks))
  | inr e ↦ rw e
]

-- Sorting the keys loses none and adds none.
pub contains-sort_keys : (k : String) (ks : List String) → contains (sort_keys ks) k ≡ contains ks k
unfolding sort_keys
contains-sort_keys k [] = refl
contains-sort_keys k (j ∷ ks) =
    ground (arith, contains-insert_key j k (sort_keys ks), contains-sort_keys k ks)

lookup_of_not_contains :
    (k : String) (m : Map Item) → contains (keys m) k ≡ false → lookup k m ≡ none
unfolding lookup
lookup_of_not_contains k [] h = refl
lookup_of_not_contains k ((j, it) ∷ m) h = ground (arith, lookup_of_not_contains k m)

-- A key that is not visited is not in the map.
pub lookup_of_unvisited :
    (k : String) (m : Map Item) → contains (sorted_keys m) k ≡ false → lookup k m ≡ none
unfolding sorted_keys
lookup_of_unvisited k m h =
    lookup_of_not_contains k m (ground (arith, contains-sort_keys k (keys m)))

abbrev pub picks :
    (Option Item → Option Item → Option Item) → Map Item → Map Item → String → Option Item
picks pick src tgt k = pick (lookup k src) (lookup k tgt)

suc-ne-zero : {n : ℕ} → suc n ≡ 0 → ⊥
suc-ne-zero h = omega arith

module _ (pick : Option Item → Option Item → Option Item) (src tgt : Map Item) where
  pub none_of_empty :
      (k : String) (ks : List String)
      → length (collect pick src tgt ks) ≡ 0
      → contains ks k ≡ true
      → picks pick src tgt k ≡ none
  unfolding collect
  none_of_empty k [] e h = cc
  none_of_empty k (j ∷ ks) e h = elim (Option-cases (picks pick src tgt j)) [
    | inl p ↦ elim (Bool-cases (str_eq j k)) [
      | inl same ↦ rw (← (str-eq_iff j k).0 same) p
      | inr other ↦ none_of_empty k ks (rw (p, collect) at e) (rw other at h)
    ]
    | inr (it, p) ↦ absurd (suc-ne-zero (rw (p, collect) at e))
  ]

  pub empty_of_none :
      (ks : List String)
      → ((k : String) → picks pick src tgt k ≡ none)
      → length (collect pick src tgt ks) ≡ 0
  unfolding collect
  empty_of_none [] h = refl
  empty_of_none (k ∷ ks) h = rw (h k) (empty_of_none ks h)
