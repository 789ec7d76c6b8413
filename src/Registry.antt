-- ===== src/Registry.antt =====
-- internal/pihole/registry.go: the configured Pi-holes by name. `C` is a client; `make` is the call
-- `New(ic.URL, ic.Password, WithName(ic.Name), opts...)`. The closing of every client is not here.
pub mod Named
use pihole_mcp.Prelude.{
  ℕ, String, Option, none, some, List, [], ◌∷◌, ◌++◌, map, length, Map, lookup, insert,
}

pub record InstanceConfig : Type 0 where
  pub name : String
  pub url : String
  pub password : String

pub record Registry (C : Type 0) : Type 0 where
  pub clients : Map C
  pub order : List String

abbrev pub first : List String → Option String
first [] = none
first (k ∷ ks) = some k

module _ {C : Type 0} where
  -- The loop of `NewRegistry`.
  unfoldable pub add_instances :
      (InstanceConfig → C) → List InstanceConfig → Registry C → Registry C
  add_instances make [] r = r
  add_instances make (ic ∷ ics) r =
      add_instances make ics
        (record { clients = insert ic.name (make ic) r.clients; order = r.order ++ ic.name ∷ [] })

  unfoldable pub new_registry : (InstanceConfig → C) → List InstanceConfig → Registry C
  new_registry make ics = add_instances make ics (record { clients = []; order = [] })

  abbrev pub lookup_first : Map C → Option String → Option C
  lookup_first m none = none
  lookup_first m (some k) = lookup k m

  -- `none` where the source panics: an empty registry.
  unfoldable pub default_client : Registry C → Option C
  default_client r = lookup_first r.clients (first r.order)

  -- `Get`, `none` for its error.
  unfoldable pub get_client : Registry C → String → Option C
  get_client r name = lookup name r.clients

  unfoldable pub all_clients : Registry C → List (Option C)
  all_clients r = map (λ name. lookup name r.clients) r.order

  unfoldable pub registry_len : Registry C → ℕ
  registry_len r = length r.order
