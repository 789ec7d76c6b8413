-- ===== src/RateLimit/Bounds.antt =====
-- The memory bounds of internal/middleware/ratelimit.go over every sequence of events.
use pihole_mcp.Prelude.{
  ℕ, ◌≤◌, ◌<◌, String, ◌≡◌, refl, ◌∙◌, inl, inr, Option, none, some, arith, leb, ◌==◌, str_eq,
  Bool-cases, length, lookup, lookup-insert_self, length-insert_old, length-insert-le,
  length-delete, IsDistinct-delete, AllValues-delete, AllValues-lookup,
}
use pihole_mcp.RateLimit.{
  Buckets, Bucket, IpEntry, RateLimiter, Arrival, max_tracked_addresses, max_sessions_per_ip,
  oldest_from, evict_oldest, evict_idle, new_rate_limiter, new_entry, make_room, entry_or_new,
  entry_for, session_or_new, limiters_for, charge_session, admit, penalise,
}
use pihole_mcp.RateLimit.Table.{
  HasFewSessions, IsBounded, IsStored, IsStored-put, IsStored-new, length-evict_full, none-ne-some,
  evict_idle-IsBounded,
}

module _ {L : Type 0} (buckets : Buckets L) where
  length-make_room :
      (rl : RateLimiter L)
      → IsBounded rl
      → length (make_room buckets rl).ips < max_tracked_addresses
  length-make_room rl h = elim (Bool-cases (leb max_tracked_addresses (length rl.ips))) [
    | inl e ↦
        rw (e, make_room)
          (let full : max_tracked_addresses ≤ length rl.ips = ground arith in
            omega (arith, length-evict_full rl.ips full, h.few))
    | inr e ↦ rw (e, make_room) (ground arith)
  ]

  make_room-IsBounded : (rl : RateLimiter L) → IsBounded rl → IsBounded (make_room buckets rl)
  unfolding evict_oldest
  make_room-IsBounded rl h = elim (Bool-cases (leb max_tracked_addresses (length rl.ips))) [
    | inl e ↦
        rw (e, make_room)
          (record {
            few = omega (arith, length-delete (oldest_from "" 0 rl.ips) rl.ips, h.few);
            distinct = IsDistinct-delete _ rl.ips h.distinct;
            small = AllValues-delete HasFewSessions _ rl.ips h.small;
          })
    | inr e ↦ rw (e, make_room) h
  ]

  entry_for-IsStored :
      (key : String) (now : ℕ) (rl : RateLimiter L)
      → IsBounded rl
      → IsStored key (entry_for buckets key now rl).0 (entry_for buckets key now rl).1
  unfolding entry_for
  entry_for-IsStored key now rl h = go (lookup key rl.ips) refl
    where
      go :
          (o : Option (IpEntry L))
          → lookup key rl.ips ≡ o
          → IsStored key (entry_or_new buckets o key now rl).0 (entry_or_new buckets o key now rl).1
      go none e =
          IsStored-new key (new_entry buckets now rl) (make_room buckets rl)
            (make_room-IsBounded rl h) (length-make_room rl h) (omega arith)
      go (some x) e =
          let small = AllValues-lookup HasFewSessions key x rl.ips h.small e in
          IsStored-put key x (record x { last_seen = now }) rl
            (record { bounded = h; stored = e; small = small }) small

  session_or_new-HasFewSessions :
      (o : Option (Bucket L)) (sid : String) (now : ℕ) (rl : RateLimiter L) (e : IpEntry L)
      → lookup sid e.sessions ≡ o
      → HasFewSessions e
      → HasFewSessions (session_or_new buckets o sid now rl e).0
  session_or_new-HasFewSessions (some b) sid now rl e h small =
      omega (arith, length-insert_old sid (record b { last_seen = now }) b e.sessions h)
  session_or_new-HasFewSessions none sid now rl e h small =
      let b : Bucket L = record {
        limiter = buckets.new_limiter rl.per_minute rl.burst;
        last_seen = now;
      } in
      elim (Bool-cases (leb max_sessions_per_ip (length e.sessions))) [
        | inl full ↦ rw full small
        | inr room ↦ rw room (
            let few : length e.sessions < max_sessions_per_ip = ground arith in
            omega (arith, length-insert-le sid b e.sessions))
      ]

  limiters_for-IsStored :
      (key sid : String) (now : ℕ) (rl : RateLimiter L)
      → IsBounded rl
      → IsStored key (limiters_for buckets key sid now rl).0 (limiters_for buckets key sid now rl).2
  unfolding limiters_for
  limiters_for-IsStored key sid now rl h =
      let (entry, rl') = entry_for buckets key now rl in
      let stored = entry_for-IsStored key now rl h in
      elim (Bool-cases (str_eq sid "")) [
        | inl e ↦ rw e stored
        | inr e ↦ rw e (
            IsStored-put key entry
              (session_or_new buckets (lookup sid entry.sessions) sid now rl' entry).0 rl' stored
              (session_or_new-HasFewSessions (lookup sid entry.sessions) sid now rl' entry refl
                stored.small))
      ]

  session_or_new-stored :
      (o : Option (Bucket L)) (sid : String) (now : ℕ) (rl : RateLimiter L) (e : IpEntry L)
      (b : Bucket L)
      → (session_or_new buckets o sid now rl e).1 ≡ some b
      → lookup sid (session_or_new buckets o sid now rl e).0.sessions ≡ some b
  session_or_new-stored (some old) sid now rl e b h = lookup-insert_self sid _ e.sessions ∙ h
  session_or_new-stored none sid now rl e b h =
      elim (Bool-cases (leb max_sessions_per_ip (length e.sessions))) [
        | inl full ↦ absurd (none-ne-some b (rw full at h))
        | inr room ↦ rw room (lookup-insert_self sid _ e.sessions ∙ (rw room at h))
      ]

  limiters_for-session :
      (key sid : String) (now : ℕ) (rl : RateLimiter L) (b : Bucket L)
      → (limiters_for buckets key sid now rl).1 ≡ some b
      → lookup sid (limiters_for buckets key sid now rl).0.sessions ≡ some b
  unfolding limiters_for
  limiters_for-session key sid now rl b h =
      let (entry, rl') = entry_for buckets key now rl in
      elim (Bool-cases (str_eq sid "")) [
        | inl e ↦ absurd (none-ne-some b (rw (e, limiters_for) at h))
        | inr e ↦ rw e (
            session_or_new-stored (lookup sid entry.sessions) sid now rl' entry b
              (rw (e, limiters_for) at h))
      ]

  charge_session-HasFewSessions :
      (o : Option (Bucket L)) (sid : String) (at : ℕ) (e : IpEntry L)
      → ((b : Bucket L) → o ≡ some b → lookup sid e.sessions ≡ some b)
      → HasFewSessions e
      → HasFewSessions (charge_session buckets o sid at e).1
  charge_session-HasFewSessions none sid at e stored small = small
  charge_session-HasFewSessions (some b) sid at e stored small =
      omega (arith, length-insert_old sid _ b e.sessions (stored b refl))

  admit-IsBounded :
      (a : Arrival) (rl : RateLimiter L) → IsBounded rl → IsBounded (admit buckets a rl).1
  unfolding admit
  admit-IsBounded a rl h =
      let (entry, bucket, rl') = limiters_for buckets a.key a.sid a.now rl in
      let stored = limiters_for-IsStored a.key a.sid a.now rl h in
      let (ok, l) = buckets.allow a.ip_at entry.limiter in
      let charged : IpEntry L = record entry { limiter = l } in
      elim (Bool-cases (rl.per_minute == 0)) [
        | inl e ↦ rw e h
        | inr e ↦ rw e (elim (Bool-cases ok) [
          | inl o ↦
              rw o
                (IsStored-put a.key entry
                  (charge_session buckets bucket a.sid a.session_at charged).1 rl' stored
                  (charge_session-HasFewSessions bucket a.sid a.session_at charged
                    (λ b. limiters_for-session a.key a.sid a.now rl b) stored.small)).bounded
          | inr o ↦ rw o (IsStored-put a.key entry charged rl' stored stored.small).bounded
        ])
      ]

  penalise-IsBounded :
      (key : String) (now at : ℕ) (rl : RateLimiter L)
      → IsBounded rl
      → IsBounded (penalise buckets key now at rl).2
  unfolding penalise
  penalise-IsBounded key now at rl h =
      let (entry, rl') = entry_for buckets key now rl in
      let stored = entry_for-IsStored key now rl h in
      elim (Bool-cases (rl.per_minute == 0)) [
        | inl e ↦ rw e h
        | inr e ↦ rw e (IsStored-put key entry _ rl' stored stored.small).bounded
      ]

-- What can happen to a limiter: a request, a request refused earlier, a tick of the sweep. The
-- mutex makes each one step.
pub data Event {L : Type 0} (buckets : Buckets L) : RateLimiter L → RateLimiter L → Type 0 where
  request : (a : Arrival) (rl : RateLimiter L) → Event buckets rl (admit buckets a rl).1
  refusal :
      (key : String) (now at : ℕ) (rl : RateLimiter L)
      → Event buckets rl (penalise buckets key now at rl).2
  tick : (now : ℕ) (rl : RateLimiter L) → Event buckets rl (evict_idle now rl)

pub data Reach {L : Type 0} (buckets : Buckets L) (start : RateLimiter L)
    : RateLimiter L → Type 0 where
  here : Reach buckets start start
  next : {s t : RateLimiter L} → Reach buckets start s → Event buckets s t → Reach buckets start t

Event-IsBounded :
    {L : Type 0} {buckets : Buckets L} {s t : RateLimiter L}
    → Event buckets s t
    → IsBounded s
    → IsBounded t
Event-IsBounded {buckets} (request a rl) h = admit-IsBounded buckets a rl h
Event-IsBounded {buckets} (refusal key now at rl) h = penalise-IsBounded buckets key now at rl h
Event-IsBounded (tick now rl) h = evict_idle-IsBounded now rl h

Reach-IsBounded_from :
    {L : Type 0} {buckets : Buckets L} {s t : RateLimiter L}
    → IsBounded s
    → Reach buckets s t
    → IsBounded t
Reach-IsBounded_from h here = h
Reach-IsBounded_from h (next r e) = Event-IsBounded e (Reach-IsBounded_from h r)

-- Whatever requests arrive, in whatever order and at whatever times, a limiter that starts empty
-- never tracks more than 8192 addresses, nor one address twice, nor more than 64 sessions of one.
pub Reach-IsBounded :
    {L : Type 0} (buckets : Buckets L) (per_minute burst : ℕ) (rl : RateLimiter L)
    → Reach buckets (new_rate_limiter per_minute burst) rl
    → IsBounded rl
unfolding new_rate_limiter
Reach-IsBounded buckets per_minute burst rl r =
    Reach-IsBounded_from (record { few = omega arith; distinct = tt; small = tt }) r
