-- ===== src/Prelude/Maps.antt =====
-- Go's `map[string]V` as an association list. The order of the list is the order in which a
-- `range` over the map happens to visit the entries, so what holds of every list holds of every
-- order.
use Prim.Native.Nat.{suc, ◌≤◌}
use Prim.Native.String.{String}
use mathlib.Core.Path.{◌≡◌, refl, ap, subst}
use mathlib.Core.Bool.{true, false, ◌||◌}
use mathlib.Core.Option
use mathlib.Core.Option.{Option, none, some}
use mathlib.Core.List.{List, [], ◌∷◌}
use native.Mathlib.Omega.{arith}
use pihole_mcp.Prelude.Tests.{str_eq, str-eq_iff, str-eq_refl, if◌then◌else◌, Bool-cases}
use mathlib.Core.Logic.{inl, inr}
use pihole_mcp.Prelude.Lists.{length, contains, IsDistinct}

abbrev pub Map {ℓ} : Type ℓ → Type ℓ
Map V = List (String × V)

module _ {ℓ} {V : Type ℓ} where
  unfoldable pub lookup : String → Map V → Option V
  lookup k [] = none
  lookup k ((j, v) ∷ m) = if str_eq j k then some v else lookup k m

  -- `m[k] = v`: an entry that is there is replaced, a new one is added.
  unfoldable pub insert : String → V → Map V → Map V
  insert k v [] = (k, v) ∷ []
  insert k v ((j, w) ∷ m) = if str_eq j k then (j, v) ∷ m else (j, w) ∷ insert k v m

  -- `delete(m, k)`
  unfoldable pub delete : String → Map V → Map V
  delete k [] = []
  delete k ((j, w) ∷ m) = let rest = delete k m in if str_eq j k then rest else (j, w) ∷ rest

  abbrev pub keys : Map V → List String
  keys [] = []
  keys ((j, v) ∷ m) = j ∷ keys m

  pub lookup-insert :
      (k j : String) (v : V) (m : Map V)
      → lookup j (insert k v m) ≡ (if str_eq k j then some v else lookup j m)
  unfolding lookup insert
  lookup-insert k j v [] = refl
  lookup-insert k j v ((i, w) ∷ m) =
      ground (arith, str-eq_iff k j, str-eq_iff i k, str-eq_iff i j, lookup-insert k j v m)

  pub lookup-delete :
      (k j : String) (m : Map V) → lookup j (delete k m) ≡ (if str_eq k j then none else lookup j m)
  unfolding lookup delete
  lookup-delete k j [] = ground arith
  lookup-delete k j ((i, w) ∷ m) =
      ground (arith, str-eq_iff k j, str-eq_iff i k, str-eq_iff i j, lookup-delete k j m)

  -- A key that is not there makes the map one longer, one that is there leaves its size.
  pub length-insert_new :
      (k : String) (v : V) (m : Map V) → lookup k m ≡ none → length (insert k v m) ≡ suc (length m)
  unfolding lookup insert
  length-insert_new k v [] h = refl
  length-insert_new k v ((j, w) ∷ m) h = ground (arith, length-insert_new k v m)

  pub length-insert_old :
      (k : String) (v w : V) (m : Map V) → lookup k m ≡ some w → length (insert k v m) ≡ length m
  unfolding lookup insert
  length-insert_old k v w [] h = ground arith
  length-insert_old k v w ((j, x) ∷ m) h = ground (arith, length-insert_old k v w m)

  pub length-delete : (k : String) (m : Map V) → length (delete k m) ≤ length m
  unfolding delete
  length-delete k [] = omega arith
  length-delete k ((j, w) ∷ m) = ground (arith, length-delete k m)

  pub length-delete_old :
      (k : String) (w : V) (m : Map V) → lookup k m ≡ some w → suc (length (delete k m)) ≤ length m
  unfolding lookup delete
  length-delete_old k w [] h = ground arith
  length-delete_old k w ((j, x) ∷ m) h = ground (arith, length-delete_old k w m, length-delete k m)

  pub length-insert-le : (k : String) (v : V) (m : Map V) → length (insert k v m) ≤ suc (length m)
  unfolding insert
  length-insert-le k v [] = omega arith
  length-insert-le k v ((j, w) ∷ m) = ground (arith, length-insert-le k v m)

  pub lookup-insert_self : (k : String) (v : V) (m : Map V) → lookup k (insert k v m) ≡ some v
  lookup-insert_self k v m = rw (lookup-insert k k v m) (rw (str-eq_refl k))

  pub lookup_of_contains :
      (k : String) (m : Map V) → contains (keys m) k ≡ true → (v : V) × (lookup k m ≡ some v)
  unfolding lookup
  lookup_of_contains k [] h = cc
  lookup_of_contains k ((j, w) ∷ m) h = elim (Bool-cases (str_eq j k)) [
    | inl e ↦ (w, rw e)
    | inr e ↦ rw e (lookup_of_contains k m (rw e at h))
  ]

  contains-insert :
      (k j : String) (v : V) (m : Map V)
      → contains (keys (insert k v m)) j ≡ (str_eq k j || contains (keys m) j)
  unfolding insert
  contains-insert k j v [] = ground arith
  contains-insert k j v ((i, w) ∷ m) =
      ground (arith, str-eq_iff k j, str-eq_iff i k, str-eq_iff i j, contains-insert k j v m)

  contains-delete :
      (k j : String) (m : Map V)
      → contains (keys m) j ≡ false
      → contains (keys (delete k m)) j ≡ false
  unfolding delete
  contains-delete k j [] h = refl
  contains-delete k j ((i, w) ∷ m) h = ground (arith, contains-delete k j m)

  pub IsDistinct-insert :
      (k : String) (v : V) (m : Map V) → IsDistinct (keys m) → IsDistinct (keys (insert k v m))
  unfolding insert
  IsDistinct-insert k v [] h = (refl, tt)
  IsDistinct-insert k v ((j, w) ∷ m) (h, hs) = elim (Bool-cases (str_eq j k)) [
    | inl e ↦ rw e (h, hs)
    | inr e ↦ rw e (
      ground (arith, contains-insert k j v m, str-eq_iff j k, str-eq_iff k j),
      IsDistinct-insert k v m hs,
    )
  ]

  pub IsDistinct-delete :
      (k : String) (m : Map V) → IsDistinct (keys m) → IsDistinct (keys (delete k m))
  unfolding delete
  IsDistinct-delete k [] h = tt
  IsDistinct-delete k ((j, w) ∷ m) (h, hs) = elim (Bool-cases (str_eq j k)) [
    | inl e ↦ rw e (IsDistinct-delete k m hs)
    | inr e ↦ rw e (contains-delete k j m h, IsDistinct-delete k m hs)
  ]

-- What holds of every value of a map.
module _ {ℓ κ} {V : Type ℓ} (P : V → Type κ) where
  abbrev pub AllValues : Map V → Type κ
  AllValues [] = Unit
  AllValues ((k, v) ∷ m) = P v × AllValues m

  pub AllValues-insert :
      (k : String) (v : V) (m : Map V) → P v → AllValues m → AllValues (insert k v m)
  unfolding insert
  AllValues-insert k v [] p h = (p, tt)
  AllValues-insert k v ((j, w) ∷ m) p (q, h) = elim (Bool-cases (str_eq j k)) [
    | inl e ↦ rw e (p, h)
    | inr e ↦ rw e (q, AllValues-insert k v m p h)
  ]

  pub AllValues-delete : (k : String) (m : Map V) → AllValues m → AllValues (delete k m)
  unfolding delete
  AllValues-delete k [] h = tt
  AllValues-delete k ((j, w) ∷ m) (q, h) = elim (Bool-cases (str_eq j k)) [
    | inl e ↦ rw e (AllValues-delete k m h)
    | inr e ↦ rw e (q, AllValues-delete k m h)
  ]

  pub AllValues-lookup : (k : String) (v : V) (m : Map V) → AllValues m → lookup k m ≡ some v → P v
  unfolding lookup
  AllValues-lookup k v [] h e = cc
  AllValues-lookup k v ((j, w) ∷ m) (q, h) e = elim (Bool-cases (str_eq j k)) [
    | inl x ↦ subst P (ground arith) q
    | inr x ↦ AllValues-lookup k v m h (rw (x, lookup) at e)
  ]

module _ {ℓ} {V : Type ℓ} where
  -- Writing back the value that is there changes nothing; of two writes the second counts.
  pub insert_same : (k : String) (v : V) (m : Map V) → lookup k m ≡ some v → insert k v m ≡ m
  unfolding lookup insert
  insert_same k v [] h = cc
  insert_same k v ((j, w) ∷ m) h = ground (arith, insert_same k v m)

  pub insert-insert : (k : String) (v w : V) (m : Map V) → insert k v (insert k w m) ≡ insert k v m
  unfolding insert
  insert-insert k v w [] = ground (arith, str-eq_refl k)
  insert-insert k v w ((j, x) ∷ m) = ground (arith, insert-insert k v w m)

-- Maps under a function of the values.
module _ {ℓ κ} {V : Type ℓ} {X : Type κ} (f : V → X) where
  abbrev pub map_values : Map V → Map X
  map_values [] = []
  map_values ((k, v) ∷ m) = (k, f v) ∷ map_values m

  pub lookup-map_values :
      (k : String) (m : Map V) → lookup k (map_values m) ≡ Option.map f (lookup k m)
  unfolding lookup
  lookup-map_values k [] = refl
  lookup-map_values k ((j, w) ∷ m) = elim (Bool-cases (str_eq j k)) [
    | inl e ↦ rw (e, lookup)
    | inr e ↦ rw (e, lookup) (lookup-map_values k m)
  ]

  pub insert-map_values :
      (k : String) (v : V) (m : Map V) → map_values (insert k v m) ≡ insert k (f v) (map_values m)
  unfolding insert
  insert-map_values k v [] = refl
  insert-map_values k v ((j, w) ∷ m) = elim (Bool-cases (str_eq j k)) [
    | inl e ↦ rw (e, insert)
    | inr e ↦ rw (e, insert) (ap (λ r. (j, f w) ∷ r) (insert-map_values k v m))
  ]

  pub delete-map_values :
      (k : String) (m : Map V) → map_values (delete k m) ≡ delete k (map_values m)
  unfolding delete
  delete-map_values k [] = refl
  delete-map_values k ((j, w) ∷ m) = elim (Bool-cases (str_eq j k)) [
    | inl e ↦ rw (e, delete) (delete-map_values k m)
    | inr e ↦ rw (e, delete) (ap (λ r. (j, f w) ∷ r) (delete-map_values k m))
  ]

  pub length-map_values : (m : Map V) → length (map_values m) ≡ length m
  length-map_values [] = refl
  length-map_values (p ∷ m) = ap suc (length-map_values m)
