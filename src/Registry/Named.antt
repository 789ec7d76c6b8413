-- ===== src/Registry/Named.antt =====
-- internal/pihole/registry.go: which client each name of a new registry stands for.
use pihole_mcp.Prelude.{
  ◌≡◌, refl, sym, String, false, Option, none, some, List, [], ◌∷◌, ◌++◌, map, contains, IsDistinct,
  lookup, insert, lookup-insert, lookup-insert_self, arith,
}
use mathlib.Core.List.{append_assoc, append-nil}
use pihole_mcp.Registry.{
  InstanceConfig, Registry, add_instances, new_registry, all_clients, default_client, first,
  lookup_first,
}

abbrev pub names_of : List InstanceConfig → List String
names_of ics = map (λ ic. ic.name) ics

module _ {C : Type 0} (make : InstanceConfig → C) where
  abbrev pub made : List InstanceConfig → List (Option C)
  made ics = map (λ ic. some (make ic)) ics

  abbrev pub first_made : List InstanceConfig → Option C
  first_made [] = none
  first_made (ic ∷ ics) = some (make ic)

  abbrev grown : Registry C → InstanceConfig → Registry C
  grown r ic = record {
    clients = insert ic.name (make ic) r.clients;
    order = r.order ++ ic.name ∷ [];
  }

  add_instances-order :
      (ics : List InstanceConfig) (r : Registry C)
      → (add_instances make ics r).order ≡ r.order ++ names_of ics
  unfolding add_instances
  add_instances-order [] r = sym (append-nil r.order)
  add_instances-order (ic ∷ ics) r =
      rw (add_instances-order ics (grown r ic)) (append_assoc r.order (ic.name ∷ []) (names_of ics))

  -- A name that is not among the ones added keeps its client.
  add_instances-keep :
      (k : String) (ics : List InstanceConfig) (r : Registry C)
      → contains (names_of ics) k ≡ false
      → lookup k (add_instances make ics r).clients ≡ lookup k r.clients
  unfolding add_instances
  add_instances-keep k [] r h = refl
  add_instances-keep k (ic ∷ ics) r h =
      let kept = add_instances-keep k ics (grown r ic) in
      ground (arith, kept, lookup-insert ic.name k (make ic) r.clients)

  add_instances-made :
      (ics : List InstanceConfig) (r : Registry C)
      → IsDistinct (names_of ics)
      → map (λ name. lookup name (add_instances make ics r).clients) (names_of ics) ≡ made ics
  unfolding add_instances
  add_instances-made [] r d = refl
  add_instances-made (ic ∷ ics) r (fresh, d) =
      rw (add_instances-keep ic.name ics (grown r ic) fresh) (
        rw (lookup-insert_self ic.name (make ic) r.clients)
          (rw (add_instances-made ics (grown r ic) d) refl))

  abbrev empty : Registry C
  empty = record { clients = []; order = [] }

  default-made :
      (ics : List InstanceConfig)
      → IsDistinct (names_of ics)
      → lookup_first (add_instances make ics empty).clients (first (names_of ics)) ≡ first_made ics
  unfolding add_instances
  default-made [] d = refl
  default-made (ic ∷ ics) (fresh, d) =
      rw (add_instances-keep ic.name ics (grown empty ic) fresh)
        (lookup-insert_self ic.name (make ic) [])

  -- With distinct names a new registry keeps the declared order, lists each instance's own client in
  -- that order, and its default is the client of the first instance.
  pub new_registry-all :
      (ics : List InstanceConfig)
      → IsDistinct (names_of ics)
      → ((new_registry make ics).order ≡ names_of ics)
        × (all_clients (new_registry make ics) ≡ made ics)
        × (default_client (new_registry make ics) ≡ first_made ics)
  unfolding new_registry all_clients default_client
  new_registry-all ics d =
      let ordered = add_instances-order ics empty in
      (ordered, rw ordered (add_instances-made ics empty d), rw ordered (default-made ics d))
