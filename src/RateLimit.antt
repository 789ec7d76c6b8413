-- ===== src/RateLimit.antt =====
-- internal/middleware/ratelimit.go: the two-level limiter. Times are nanoseconds since Go's zero
-- time. golang.org/x/time/rate is a parameter: `new_limiter` makes a full bucket from a rate per
-- minute and a burst, `allow` takes a token at a time if there is one. A pointer to a bucket that
-- `limitersFor` returns is the entry that `admit` writes back.
pub mod Table
pub mod Bounds
pub mod Ceiling
pub mod Eviction
pub mod ClientIp
use pihole_mcp.Prelude.{
  ℕ, ◌+◌, ◌-◌, ◌*◌, ◌/◌, String, Bool, true, false, ◌&&◌, ◌||◌, not, Option, none, some, List, [],
  ◌∷◌, ◌==◌, ltb, leb, str_eq, if◌then◌else◌, length, Map, lookup, insert, delete,
}

abbrev pub idle_session_ttl : ℕ
idle_session_ttl = 180_000_000_000

abbrev pub min_burst : ℕ
min_burst = 30

abbrev pub ip_ceiling_factor : ℕ
ip_ceiling_factor = 4

abbrev pub max_tracked_addresses : ℕ
max_tracked_addresses = 8192

abbrev pub failed_auth_per_minute : ℕ
failed_auth_per_minute = 15

abbrev pub failed_auth_burst : ℕ
failed_auth_burst = 5

abbrev pub auth_warn_interval : ℕ
auth_warn_interval = 60_000_000_000

abbrev pub max_sessions_per_ip : ℕ
max_sessions_per_ip = 64

pub record Buckets (L : Type 0) : Type 0 where
  pub new_limiter : ℕ → ℕ → L
  pub allow : ℕ → L → Bool × L

pub record Bucket (L : Type 0) : Type 0 where
  pub limiter : L
  pub last_seen : ℕ

pub record IpEntry (L : Type 0) : Type 0 where
  pub limiter : L
  pub last_seen : ℕ
  pub last_warn : ℕ
  pub sessions : Map (Bucket L)

pub record RateLimiter (L : Type 0) : Type 0 where
  pub per_minute : ℕ
  pub burst : ℕ
  pub ips : Map (IpEntry L)

-- A request as the limiter sees it: its key, the session id it claims, and the times at which the
-- table is read and the two buckets are charged.
pub record Arrival : Type 0 where
  pub key : String
  pub sid : String
  pub now : ℕ
  pub ip_at : ℕ
  pub session_at : ℕ

pub data Verdict : Type 0 where
  passed limited : Verdict

unfoldable pub compute_burst : ℕ → ℕ
compute_burst per_minute = let b = per_minute / 4 in if ltb b min_burst then min_burst else b

-- The loop of `evictOldestLocked` over the entries left, with the key and time found so far.
unfoldable pub oldest_from : {L : Type 0} → String → ℕ → Map (IpEntry L) → String
oldest_from k t [] = k
oldest_from k t ((key, e) ∷ m) =
    let older = str_eq k "" || ltb e.last_seen t in
    oldest_from (if older then key else k) (if older then e.last_seen else t) m

unfoldable pub evict_oldest : {L : Type 0} → Map (IpEntry L) → Map (IpEntry L)
unfolding oldest_from
evict_oldest ips = delete (oldest_from "" 0 ips) ips

unfoldable pub fresh_sessions : {L : Type 0} → ℕ → Map (Bucket L) → Map (Bucket L)
fresh_sessions now [] = []
fresh_sessions now ((sid, b) ∷ m) =
    let rest = fresh_sessions now m in
    if ltb idle_session_ttl (now - b.last_seen) then rest else (sid, b) ∷ rest

unfoldable pub fresh_ips : {L : Type 0} → ℕ → Map (IpEntry L) → Map (IpEntry L)
fresh_ips now [] = []
fresh_ips now ((ip, e) ∷ m) =
    let rest = fresh_ips now m in
    if ltb idle_session_ttl (now - e.last_seen)
    then rest
    else (ip, record e { sessions = fresh_sessions now e.sessions }) ∷ rest

unfoldable pub evict_idle : {L : Type 0} → ℕ → RateLimiter L → RateLimiter L
evict_idle now rl = record rl { ips = fresh_ips now rl.ips }

unfoldable pub new_rate_limiter : {L : Type 0} → ℕ → ℕ → RateLimiter L
new_rate_limiter per_minute burst = record { per_minute = per_minute; burst = burst; ips = [] }

unfoldable pub new_failure_limiter : {L : Type 0} → RateLimiter L
new_failure_limiter = new_rate_limiter failed_auth_per_minute failed_auth_burst

abbrev pub put_entry : {L : Type 0} → String → IpEntry L → RateLimiter L → RateLimiter L
put_entry key entry rl = record rl { ips = insert key entry rl.ips }

module _ {L : Type 0} (buckets : Buckets L) where
  abbrev pub new_entry : ℕ → RateLimiter L → IpEntry L
  new_entry now rl = record {
    limiter =
        buckets.new_limiter (rl.per_minute * ip_ceiling_factor) (rl.burst * ip_ceiling_factor);
    last_seen = now;
    last_warn = 0;
    sessions = [];
  }

  abbrev pub make_room : RateLimiter L → RateLimiter L
  make_room rl =
      if leb max_tracked_addresses (length rl.ips)
      then record rl { ips = evict_oldest rl.ips }
      else rl

  abbrev pub entry_or_new :
      Option (IpEntry L) → String → ℕ → RateLimiter L → IpEntry L × RateLimiter L
  entry_or_new (some e) key now rl =
      let seen : IpEntry L = record e { last_seen = now } in (seen, put_entry key seen rl)
  entry_or_new none key now rl = (new_entry now rl, put_entry key (new_entry now rl) (make_room rl))

  unfoldable pub entry_for : String → ℕ → RateLimiter L → IpEntry L × RateLimiter L
  entry_for key now rl = entry_or_new (lookup key rl.ips) key now rl

  abbrev pub session_or_new :
      Option (Bucket L) → String → ℕ → RateLimiter L → IpEntry L → IpEntry L × Option (Bucket L)
  session_or_new (some b) sid now rl e =
      let seen : Bucket L = record b { last_seen = now } in
      (record e { sessions = insert sid seen e.sessions }, some seen)
  session_or_new none sid now rl e =
      if leb max_sessions_per_ip (length e.sessions)
      then (e, none)
      else (let b : Bucket L = record {
        limiter = buckets.new_limiter rl.per_minute rl.burst;
        last_seen = now;
      } in
          (record e { sessions = insert sid b e.sessions }, some b))

  -- `limitersFor`: the entry, the session's bucket if one governs the request, and the table.
  unfoldable pub limiters_for :
      String → String → ℕ → RateLimiter L → IpEntry L × Option (Bucket L) × RateLimiter L
  limiters_for key sid now rl =
      let (entry, rl') = entry_for key now rl in
      if str_eq sid ""
      then (entry, none, rl')
      else (let (entry', bucket) = session_or_new (lookup sid entry.sessions) sid now rl' entry in
          (entry', bucket, put_entry key entry' rl'))

  abbrev pub charge_session : Option (Bucket L) → String → ℕ → IpEntry L → Verdict × IpEntry L
  charge_session none sid at e = (passed, e)
  charge_session (some b) sid at e =
      let (ok, l) = buckets.allow at b.limiter in
      (
        (if ok then passed else limited),
        record e { sessions = insert sid (record b { limiter = l }) e.sessions },
      )

  -- The handler of `Middleware`, up to the call of `next`.
  unfoldable pub admit : Arrival → RateLimiter L → Verdict × RateLimiter L
  admit a rl =
      if rl.per_minute == 0
      then (passed, rl)
      else (let (entry, bucket, rl') = limiters_for a.key a.sid a.now rl in
          let (ok, l) = buckets.allow a.ip_at entry.limiter in
          let charged : IpEntry L = record entry { limiter = l } in
          if not ok
          then (limited, put_entry a.key charged rl')
          else (let (verdict, entry') = charge_session bucket a.sid a.session_at charged in
              (verdict, put_entry a.key entry' rl')))

  -- `Penalise`: whether the ceiling allows the request, and whether a warning is logged.
  unfoldable pub penalise : String → ℕ → ℕ → RateLimiter L → Bool × Bool × RateLimiter L
  penalise key now at rl =
      if rl.per_minute == 0
      then (true, false, rl)
      else (let (entry, rl') = entry_for key now rl in
          let (allowed, l) = buckets.allow at entry.limiter in
          let warn = not allowed && ltb auth_warn_interval (now - entry.last_warn) in
          (
            allowed,
            warn,
            put_entry key
                (record entry { limiter = l; last_warn = if warn then now else entry.last_warn })
                rl',
          ))
