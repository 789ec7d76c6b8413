-- ===== src/Examples/Serving.antt =====
-- The tools that a deployment offers, the tokens it accepts and the restart it waits for.
use pihole_mcp.Origin.{Urls, new_origin_validator, strip_port, validate_origin}
use pihole_mcp.Origin.Configured.{is_blank, is_named, origin_named, is_served, served_iff_named}
use pihole_mcp.Prelude.{
  ℕ, ◌+◌, ◌≡◌, ◌≢◌, refl, ◌↔◌, String, Bool, true, false, Option, none, some, List, [], ◌∷◌, arith,
  keep, any, str_eq, str-eq_iff, not, ◌&&◌, ◌||◌, trim_space, is_space,
}
use pihole_mcp.Server.{Tool, Options, exposed_tools, offers}
use pihole_mcp.Server.Scope.{allows, exposed_are_allowed, offers_iff_exposed}
use pihole_mcp.Auth.{Crypto, served, authenticate, new_bearer_auth, bearer_token}
use pihole_mcp.Auth.Access.{served_iff_token, IsDigestOf}
use pihole_mcp.Restart.{await_restart, await_probes, confirms}
use pihole_mcp.Restart.Confirmed.{
  Sighting, probes_of, has_restarted, confirmed_restart, restart_noticed, AllHonest,
}

abbrev registered : List Tool
registered =
    record { name = "pihole_dns_get_blocking"; read_only = true }
    ∷ record { name = "pihole_dns_set_blocking"; read_only = false }
    ∷ record { name = "pihole_stats_summary"; read_only = true }
    ∷ []

abbrev dns_reads : Options
dns_reads = record { read_only = true; toolsets = "dns" ∷ [] }

exposed_are_allowed_example :
    exposed_tools dns_reads registered ≡ keep (allows dns_reads) registered
exposed_are_allowed_example = exposed_are_allowed dns_reads registered

offers_iff_exposed_example :
    offers dns_reads registered "pihole_stats_summary"
    ≡ any (λ t. str_eq t.name "pihole_stats_summary") (exposed_tools dns_reads registered)
offers_iff_exposed_example =
    offers_iff_exposed dns_reads registered "pihole_stats_summary" (refl, (refl, (refl, tt)))

-- A digest that is the text itself.
abbrev identity : Crypto String
identity = record { sha256 = λ s. s; same_digest = str_eq; trim_space = λ s. s }

abbrev secret : String
secret = "0123456789abcdef"

-- A penalty that has no budget left.
abbrev throttle : ℕ → Bool × ℕ
throttle n = (false, n + 1)

identity-IsDigestOf : IsDigestOf identity secret
identity-IsDigestOf text = refl

differ : (x y : String) → str_eq x y ≡ false → x ≢ y
differ x y e = ground (arith, str-eq_iff x y)

token_not_empty : secret ≢ ""
token_not_empty = differ secret "" refl

served_iff_token_example :
    ((authenticate identity
        (new_bearer_auth identity secret (some throttle))
        0
        "Bearer 0123456789abcdef").0
      ≡ served)
    ↔ (bearer_token identity "Bearer 0123456789abcdef" ≡ some secret)
served_iff_token_example =
    served_iff_token identity secret (some throttle) 0 "Bearer 0123456789abcdef" identity-IsDigestOf
      token_not_empty

-- The old process answers once, a probe fails, and the new process answers.
abbrev sightings : List (Option Sighting)
sightings =
    some (record { probed = 1_010; measured = 1_020; arrived = 1_030; started = 10 })
    ∷ none
    ∷ some (record { probed = 9_000; measured = 9_010; arrived = 9_020; started = 5_000 })
    ∷ []

sightings-AllHonest : AllHonest 1_000 sightings
sightings-AllHonest = (
  (omega arith, omega arith, omega arith, omega arith),
  ((omega arith, omega arith, omega arith, omega arith), tt),
)

confirmed_restart_example : has_restarted 1_000 sightings ≡ true
unfolding await_restart await_probes confirms
confirmed_restart_example =
    confirmed_restart 1_000 sightings sightings-AllHonest ((λ later. omega arith, tt), (tt, tt))
      refl

restart_noticed_example : await_restart 1_000 (probes_of sightings) ≡ true
restart_noticed_example = restart_noticed 1_000 sightings sightings-AllHonest refl

abbrev no_ports : Urls
no_ports = record {
  lower = λ s. s;
  origin_host = λ s. some "evil.example";
  split_host_port = λ s. none;
}

entries_plain :
    (str_eq (trim_space "pi.home") "*" ≡ false)
    × (any (λ raw. not (is_blank raw)) ("pi.home" ∷ []) ≡ true)
unfolding trim_space is_space
entries_plain = (refl, refl)

served_iff_named_example :
    is_served (
      validate_origin no_ports
        (some (new_origin_validator no_ports ("pi.home" ∷ [])))
        "http://evil.example"
        "pi.home")
    ≡ (is_named no_ports ("pi.home" ∷ []) (strip_port no_ports "pi.home")
        && (str_eq "http://evil.example" ""
            || origin_named no_ports ("pi.home" ∷ []) (some "evil.example")))
served_iff_named_example =
    served_iff_named no_ports ("pi.home" ∷ []) "http://evil.example" "pi.home" (entries_plain.0, tt)
      entries_plain.1
