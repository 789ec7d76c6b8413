-- ===== src/Restart/Confirmed.antt =====
-- internal/pihole/restart.go: the wait against the processes that answered.
use pihole_mcp.Prelude.{
  ℕ, ◌+◌, ◌-◌, ◌≤◌, ◌<◌, ◌≡◌, refl, Bool, true, false, ◌||◌, Option, none, some, List, [], ◌∷◌, ltb,
  leb, if◌then◌else◌, arith, subst, Bool-cases, inl, inr,
}
use pihole_mcp.Restart.{Probe, confirms, remember, await_probes, await_restart}

-- A probe with what it cannot see: when FTL read its uptime, and when that process started.
pub record Sighting : Type 0 where
  pub probed : ℕ
  pub measured : ℕ
  pub arrived : ℕ
  pub started : ℕ

abbrev pub probe_of : Sighting → Probe
probe_of s = record { probed = s.probed; up = s.measured - s.started; arrived = s.arrived }

abbrev pub probes_of : List (Option Sighting) → List (Option Probe)
probes_of [] = []
probes_of (none ∷ ss) = none ∷ probes_of ss
probes_of (some s ∷ ss) = some (probe_of s) ∷ probes_of ss

-- The uptime was read while the probe was under way, by a process that had started, and the probe
-- was sent after the request.
abbrev pub IsHonest : ℕ → Sighting → Type 0
IsHonest sent s =
    (sent ≤ s.probed)
    × (s.probed ≤ s.measured)
    × (s.measured ≤ s.arrived)
    × (s.started ≤ s.measured)

abbrev pub AllHonest : ℕ → List (Option Sighting) → Type 0
AllHonest sent [] = Unit
AllHonest sent (none ∷ ss) = AllHonest sent ss
AllHonest sent (some s ∷ ss) = IsHonest sent s × AllHonest sent ss

-- A process that started later than the one that answered `s` started once that one had answered.
abbrev pub Succeeds : Sighting → List (Option Sighting) → Type 0
Succeeds s [] = Unit
Succeeds s (none ∷ ss) = Succeeds s ss
Succeeds s (some t ∷ ss) = (s.started < t.started → s.measured ≤ t.started) × Succeeds s ss

-- One FTL process runs at a time.
abbrev pub OneAtATime : List (Option Sighting) → Type 0
OneAtATime [] = Unit
OneAtATime (none ∷ ss) = OneAtATime ss
OneAtATime (some s ∷ ss) = Succeeds s ss × OneAtATime ss

-- Some process that answered started no earlier than `sent`.
abbrev pub has_restarted : ℕ → List (Option Sighting) → Bool
has_restarted sent [] = false
has_restarted sent (none ∷ ss) = has_restarted sent ss
has_restarted sent (some s ∷ ss) = leb sent s.started || has_restarted sent ss

abbrev seen_probe : Option Sighting → Option Probe
seen_probe none = none
seen_probe (some s) = some (probe_of s)

-- What holds of the remembered sighting before the rest of the probes.
abbrev Remembered : ℕ → Option Sighting → List (Option Sighting) → Type 0
Remembered sent none ss = Unit
Remembered sent (some q) ss = IsHonest sent q × Succeeds q ss

confirmed-started :
    (sent : ℕ) (seen : Option Sighting) (s : Sighting) (ss : List (Option Sighting))
    → IsHonest sent s
    → Remembered sent seen (some s ∷ ss)
    → confirms sent (seen_probe seen) (probe_of s) ≡ true
    → leb sent s.started ≡ true
unfolding confirms
confirmed-started sent none s ss (a, b, c, d) h e = ground arith
confirmed-started sent (some q) s ss (a, b, c, d) ((a', b', c', d'), (f, g)) e = ground arith

abbrev keep_seen : Option Sighting → Sighting → Option Sighting
keep_seen none s = some s
keep_seen (some q) s =
    if ltb (s.arrived + (q.measured - q.started)) (q.arrived + (s.measured - s.started))
    then some s
    else some q

seen_probe-keep :
    (seen : Option Sighting) (s : Sighting)
    → seen_probe (keep_seen seen s) ≡ remember (seen_probe seen) (probe_of s)
seen_probe-keep none s = refl
seen_probe-keep (some q) s = ground arith

Remembered-next :
    (sent : ℕ) (seen : Option Sighting) (s : Sighting) (ss : List (Option Sighting))
    → IsHonest sent s
    → Succeeds s ss
    → Remembered sent seen (some s ∷ ss)
    → Remembered sent (keep_seen seen s) ss
Remembered-next sent none s ss h f r = (h, f)
Remembered-next sent (some q) s ss h f (hq, (g, fq)) =
    elim (Bool-cases
      (ltb (s.arrived + (q.measured - q.started)) (q.arrived + (s.measured - s.started)))) [
        | inl e ↦ rw e (h, f)
        | inr e ↦ rw e (hq, fq)
      ]

wait_sound :
    (sent : ℕ) (seen : Option Sighting) (ss : List (Option Sighting))
    → AllHonest sent ss
    → OneAtATime ss
    → Remembered sent seen ss
    → await_probes sent (seen_probe seen) (probes_of ss) ≡ true
    → has_restarted sent ss ≡ true
unfolding await_probes
wait_sound sent seen [] h o r e = ground arith
wait_sound sent none (none ∷ ss) h o r e = wait_sound sent none ss h o r e
wait_sound sent (some q) (none ∷ ss) h o r e = wait_sound sent (some q) ss h o r e
wait_sound sent seen (some s ∷ ss) (hs, h) (f, o) r e =
    let here = confirmed-started sent seen s ss hs r in
    let rest = wait_sound sent (keep_seen seen s) ss h o (Remembered-next sent seen s ss hs f r) in
    elim (Bool-cases (confirms sent (seen_probe seen) (probe_of s))) [
      | inl c ↦ rw (here c) refl
      | inr c ↦
          go
            (subst (λ m. await_probes sent m (probes_of ss) ≡ true → has_restarted sent ss ≡ true)
              (seen_probe-keep seen s) rest)
            (rw c at e)
    ]
  where
    go :
        (await_probes sent (remember (seen_probe seen) (probe_of s)) (probes_of ss) ≡ true
          → has_restarted sent ss ≡ true)
        → await_probes sent (remember (seen_probe seen) (probe_of s)) (probes_of ss) ≡ true
        → has_restarted sent (some s ∷ ss) ≡ true
    go f x = ground (arith, f x)

-- If the wait for a restart succeeds, some process that answered it started no earlier than the
-- request, where uptimes are read while their probes are under way, every probe follows the
-- request, and one FTL process runs at a time.
pub confirmed_restart :
    (sent : ℕ) (ss : List (Option Sighting))
    → AllHonest sent ss
    → OneAtATime ss
    → await_restart sent (probes_of ss) ≡ true
    → has_restarted sent ss ≡ true
unfolding await_restart
confirmed_restart sent ss h o e = wait_sound sent none ss h o tt e

-- Some probe's answer comes from a process that started after the request by more than the time the
-- probe took to reach it.
abbrev pub is_met : ℕ → List (Option Sighting) → Bool
is_met sent [] = false
is_met sent (none ∷ ss) = is_met sent ss
is_met sent (some s ∷ ss) = ltb (sent + (s.measured - s.probed)) s.started || is_met sent ss

wait_complete :
    (sent : ℕ) (seen : Option Probe) (ss : List (Option Sighting))
    → AllHonest sent ss
    → is_met sent ss ≡ true
    → await_probes sent seen (probes_of ss) ≡ true
unfolding await_probes confirms
wait_complete sent seen [] h e = ground arith
wait_complete sent seen (none ∷ ss) h e = wait_complete sent seen ss h e
wait_complete sent seen (some s ∷ ss) ((a, b, c, d), h) e =
    let rest = wait_complete sent (remember seen (probe_of s)) ss h in ground arith

-- A probe that meets a process started after the request, by more than the probe's own delay, ends
-- the wait with success.
pub restart_noticed :
    (sent : ℕ) (ss : List (Option Sighting))
    → AllHonest sent ss
    → is_met sent ss ≡ true
    → await_restart sent (probes_of ss) ≡ true
unfolding await_restart
restart_noticed sent ss h e = wait_complete sent none ss h e
