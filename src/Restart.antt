-- ===== src/Restart.antt =====
-- internal/pihole/restart.go: the wait for FTL to come back. Instants and durations are numbers of
-- nanoseconds since one epoch; a comparison of `t.Add(-up)` is written with `up` on the other side.
-- The probes that are made before the context ends are a list: `none` is one that failed.
pub mod Confirmed
use pihole_mcp.Prelude.{
  ℕ, ◌+◌, Bool, true, false, ◌||◌, Option, none, some, List, [], ◌∷◌, ltb, if◌then◌else◌,
}

abbrev pub process_change_margin : ℕ
process_change_margin = 100000000

-- One answered probe: when it was sent, the uptime it brought, when it arrived.
pub record Probe : Type 0 where
  pub probed : ℕ
  pub up : ℕ
  pub arrived : ℕ

-- The second test: the start is after the latest possible start of a process seen before.
abbrev pub is_later_process : Option Probe → Probe → Bool
is_later_process none p = false
is_later_process (some q) p = ltb (q.arrived + process_change_margin + p.up) (p.probed + q.up)

unfoldable pub confirms : ℕ → Option Probe → Probe → Bool
confirms sent seen p = ltb (sent + p.up) p.probed || is_later_process seen p

-- `seenStartedBy`: the probe with the earliest latest-possible start.
abbrev pub remember : Option Probe → Probe → Option Probe
remember none p = some p
remember (some q) p = if ltb (p.arrived + q.up) (q.arrived + p.up) then some p else some q

-- The loop of `AwaitRestart`: true where it returns nil, false where the context ended first.
unfoldable pub await_probes : ℕ → Option Probe → List (Option Probe) → Bool
await_probes sent seen [] = false
await_probes sent seen (none ∷ probes) = await_probes sent seen probes
await_probes sent seen (some p ∷ probes) =
    let later = await_probes sent (remember seen p) probes in
    if confirms sent seen p then true else later

unfoldable pub await_restart : ℕ → List (Option Probe) → Bool
await_restart sent probes = await_probes sent none probes
