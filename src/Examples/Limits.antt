-- ===== src/Examples/Limits.antt =====
-- The limiter of internal/middleware/ratelimit.go with buckets that count tokens and never refill.
use pihole_mcp.Prelude.{
  ℕ, ◌-◌, ◌≤◌, ◌≡◌, refl, String, inr, true, false, none, some, List, [], ◌∷◌, map, arith, str_eq,
  ◌==◌, if◌then◌else◌,
}
use pihole_mcp.RateLimit.{
  Buckets, IpEntry, RateLimiter, Arrival, new_rate_limiter, admit, evict_idle,
}
use pihole_mcp.RateLimit.Table.{IsBounded}
use pihole_mcp.RateLimit.Bounds.{Reach, Reach-IsBounded, request, tick, here, next}
use pihole_mcp.RateLimit.Ceiling.{erase, sessionless, count_passed, session_ids_gain_nothing}
use pihole_mcp.RateLimit.ClientIp.{
  Addresses, HttpRequest, forwarded_chain, client_ip, host_only, is_trusted, left_of_hop_ignored,
}

abbrev tokens : Buckets ℕ
tokens = record {
  new_limiter = λ per_minute burst. burst;
  allow = λ at left. ((if left == 0 then false else true), left - 1);
}

abbrev arrival : String → ℕ → Arrival
arrival sid t = record { key = "10.0.0.1"; sid = sid; now = t; ip_at = t; session_at = t }

abbrev arrivals : List Arrival
arrivals = arrival "a" 1 ∷ arrival "b" 2 ∷ arrival "c" 3 ∷ []

abbrev limiter : RateLimiter ℕ
limiter = record { per_minute = 1; burst = 1; ips = [] }

session_ids_gain_nothing_example :
    count_passed tokens arrivals limiter
    ≤ count_passed tokens (map sessionless arrivals) (erase limiter)
session_ids_gain_nothing_example = session_ids_gain_nothing tokens arrivals limiter

abbrev started : RateLimiter ℕ
started = new_rate_limiter 120 30

two_events : Reach tokens started (evict_idle 9 (admit tokens (arrival "a" 1) started).1)
two_events = next (next here (request (arrival "a" 1) started)) (tick 9 _)

Reach-IsBounded_example : IsBounded (evict_idle 9 (admit tokens (arrival "a" 1) started).1)
Reach-IsBounded_example = Reach-IsBounded tokens 120 30 _ two_events

abbrev entry_at : ℕ → IpEntry ℕ
entry_at t = record { limiter = 3; last_seen = t; last_warn = 0; sessions = [] }

abbrev two_seen : RateLimiter ℕ
two_seen = record {
  per_minute = 120;
  burst = 30;
  ips = ("10.0.0.1", entry_at 5) ∷ ("10.0.0.2", entry_at 190_000_000_000) ∷ [];
}

two_seen-IsBounded : IsBounded two_seen
two_seen-IsBounded = record {
  few = omega arith;
  distinct = (refl, (refl, tt));
  small = (omega arith, (omega arith, tt));
}

-- Addresses are texts; the proxy is 10.0.0.9.
abbrev texts : Addresses String String
texts = record {
  parse_addr = λ s. some s;
  unmap = λ a. a;
  is4 = λ a. true;
  show_addr = λ a. a;
  show_prefix64 = λ a. a;
  contains = λ p a. str_eq p a;
  split_host_port = λ s. none;
  trim_brackets = λ s. s;
  split_comma = λ s. s ∷ [];
  trim_space = λ s. s;
}

abbrev from_peer : String → List String → HttpRequest
from_peer peer headers = record { remote_addr = peer; forwarded_for = headers }

left_of_hop_ignored_example :
    client_ip texts ("10.0.0.9" ∷ []) (from_peer "10.0.0.9" ("1.1.1.1" ∷ "2.2.2.2" ∷ []))
    ≡ client_ip texts ("10.0.0.9" ∷ []) (from_peer "10.0.0.9" ("3.3.3.3" ∷ "2.2.2.2" ∷ []))
unfolding forwarded_chain host_only is_trusted
left_of_hop_ignored_example =
    left_of_hop_ignored texts ("10.0.0.9" ∷ []) (from_peer "10.0.0.9" ("1.1.1.1" ∷ "2.2.2.2" ∷ []))
      (from_peer "10.0.0.9" ("3.3.3.3" ∷ "2.2.2.2" ∷ [])) "2.2.2.2" ("1.1.1.1" ∷ [])
      ("3.3.3.3" ∷ []) [] refl refl refl (inr ("2.2.2.2", refl, refl))
