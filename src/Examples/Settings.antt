-- ===== src/Examples/Settings.antt =====
-- The configuration tools of internal/tools/config.go on a Pi-hole that knows one setting, and the
-- groups of internal/tools/groups_assign.go on one with two.
use pihole_mcp.Prelude.{
  ℕ, ◌+◌, ◌≡◌, refl, ◌⊎◌, inr, String, Bool, true, false, none, some, List, str_eq, [], ◌∷◌, All,
  if◌then◌else◌, lookup, insert,
}
use pihole_mcp.Groups.{Matching, NamedGroup, has_id, by_name, assign_read, assign_from, group_id}
use pihole_mcp.Groups.Assigned.{IsGroup, OnlyOnce, named_id, assigned_exactly}
use pihole_mcp.Json.{Json, object, member, no_members, flag, text, Members}
use pihole_mcp.Sync.Readers.{Escaping}
use pihole_mcp.Config.{Folding, withhold_credentials}
use pihole_mcp.Config.Handlers.{ConfigCalls, add_value, value_locked, config_set, config_value}
use pihole_mcp.Config.Guard.{SendsAllowed, config_set-SendsAllowed}
use pihole_mcp.Config.Values.{IsSendable, value_write_guarded}
use pihole_mcp.Config.Withheld.{withheld_exactly, find_path, apart, pwhash_path, app_pwhash_path}

abbrev exact : Folding
exact = record { lower = λ s. s; equal_fold = str_eq; deep_equal = λ a b. false }

abbrev plain : Escaping
plain = record { path_escape = λ s. s; query_escape = λ s. s }

abbrev blocking : Members
blocking =
    member "dns"
      (object (member "blocking" (object (member "value" (flag true) no_members)) no_members))
      no_members

-- The writes are counted.
abbrev config_calls : ConfigCalls ℕ
config_calls = record {
  lock = λ ks w. w;
  unlock = λ ks w. w;
  get_detailed = λ w. (inr (some blocking), w);
  patch = λ r m w. (inr blocking, w + 1);
  put = λ p w. (none, w + 1);
  delete = λ p w. (none, w + 1);
  restarts_for = λ e r w. (r, w);
  clock = λ w. (w, w);
  await_restart_note = λ sent w. ("", w);
}

abbrev parse : String → String ⊎ Json
parse s = inr (object (member "dns.blocking" (flag false) no_members))

abbrev never_lower : Json → Json → Bool
never_lower a b = false

config_set-SendsAllowed_example :
    ((config_set exact never_lower parse plain config_calls (some "{}") true 0).1 ≡ 0)
    ⊎ SendsAllowed exact never_lower parse plain config_calls
        (λ w. w ≡ 0)
        true
        0
        (config_set exact never_lower parse plain config_calls (some "{}") true 0)
config_set-SendsAllowed_example =
    config_set-SendsAllowed exact never_lower parse plain config_calls (λ w. w ≡ 0) (some "{}") true
      0 ((λ ks w p. p), (λ ks w p. p), (λ w p. p)) refl

value_write_guarded_example :
    ((config_value exact never_lower parse plain config_calls add_value
        (some "dns.upstreams")
        (some "9.9.9.9")
        true
        0).1
      ≡ 0)
    ⊎ ((e : String) × (v : String) × (some "dns.upstreams" ≡ some e)
        × (some "9.9.9.9" ≡ some v)
        × IsSendable exact never_lower parse plain config_calls e v
        × (config_value exact never_lower parse plain config_calls add_value
              (some "dns.upstreams")
              (some "9.9.9.9")
              true
              0
            ≡ value_locked exact never_lower parse plain config_calls add_value e v true 0))
value_write_guarded_example =
    value_write_guarded exact never_lower parse plain config_calls add_value (some "dns.upstreams")
      (some "9.9.9.9") true 0

abbrev with_hash : Members
with_hash =
    member "webserver"
      (object (
        member "api"
          (object (member "pwhash" (text "$BALLOON") (member "cli_pw" (flag true) no_members)))
          no_members))
      no_members

withheld_exactly_example :
    (find_path pwhash_path (withhold_credentials with_hash) ≡ none)
    × (find_path app_pwhash_path (withhold_credentials with_hash) ≡ none)
    × ((q : List String)
        → apart pwhash_path q ≡ true
        → apart app_pwhash_path q ≡ true
        → find_path q (withhold_credentials with_hash) ≡ find_path q with_hash)
withheld_exactly_example = withheld_exactly with_hash

abbrev matching : Matching
matching = record { equal_fold = str_eq; atoi = λ s. if str_eq s "3" then some 3 else none }

abbrev family : List NamedGroup
family = record { id = 0; name = "Default" } ∷ record { id = 3; name = "Kids" } ∷ []

kids_assigned :
    assign_read matching ("Kids" ∷ "#3" ∷ "Default" ∷ []) (inr family) ≡ inr (3 ∷ 0 ∷ [])
unfolding assign_from group_id lookup by_name insert
kids_assigned = refl

assigned_exactly_example :
    All (IsGroup matching (by_name family [])) ("Kids" ∷ "#3" ∷ "Default" ∷ [])
    × OnlyOnce (3 ∷ 0 ∷ [])
    × ((j : ℕ)
        → has_id (3 ∷ 0 ∷ []) j
          ≡ named_id matching (by_name family []) ("Kids" ∷ "#3" ∷ "Default" ∷ []) j)
assigned_exactly_example =
    assigned_exactly matching ("Kids" ∷ "#3" ∷ "Default" ∷ []) family (3 ∷ 0 ∷ []) kids_assigned
