-- ===== src/RateLimit/Table.antt =====
-- What one write, an eviction and the sweep do to the size of the table of
-- internal/middleware/ratelimit.go.
use pihole_mcp.Prelude.{
  ℕ, suc, ◌-◌, ◌≤◌, ◌<◌, String, ◌≡◌, refl, ◌⊎◌, inl, inr, Bool, true, false, ◌||◌, none, some,
  List, [], ◌∷◌, arith, ltb, str_eq, str-eq_iff, if◌then◌else◌, Bool-cases, length, contains,
  IsDistinct, Map, keys, lookup, lookup-insert_self, lookup_of_contains, length-insert_old,
  length-insert-le, length-delete_old, IsDistinct-insert, AllValues, AllValues-insert,
}
use pihole_mcp.RateLimit.{
  Bucket, IpEntry, RateLimiter, max_tracked_addresses, max_sessions_per_ip, idle_session_ttl,
  oldest_from, evict_oldest, fresh_sessions, fresh_ips, evict_idle, put_entry,
}

abbrev pub HasFewSessions : {L : Type 0} → IpEntry L → Type 0
HasFewSessions e = length e.sessions ≤ max_sessions_per_ip

-- The table holds at most `maxTrackedAddresses` addresses, each once, and each of them at most
-- `maxSessionsPerIP` session buckets.
pub record IsBounded {L : Type 0} (rl : RateLimiter L) : Type 0 where
  pub few : length rl.ips ≤ max_tracked_addresses
  pub distinct : IsDistinct (keys rl.ips)
  pub small : AllValues HasFewSessions rl.ips

-- The entry is the one that the table has under the key.
pub record IsStored {L : Type 0} (key : String) (e : IpEntry L) (rl : RateLimiter L) : Type 0 where
  pub bounded : IsBounded rl
  pub stored : lookup key rl.ips ≡ some e
  pub small : HasFewSessions e

found_below :
    (older : Bool) (k key r : String) (rest : List String)
    → (r ≡ (if older then key else k)) ⊎ (contains rest r ≡ true)
    → (r ≡ k) ⊎ (contains (key ∷ rest) r ≡ true)
found_below older k key r rest h = ground (arith, str-eq_iff key r)

pub none-ne-some : {A : Type 0} (a : A) → none ≡ some a → ⊥
none-ne-some a h = cc

module _ {L : Type 0} where
  oldest_from-found :
      (k : String) (t : ℕ) (m : Map (IpEntry L))
      → (oldest_from k t m ≡ k) ⊎ (contains (keys m) (oldest_from k t m) ≡ true)
  unfolding oldest_from
  oldest_from-found k t [] = inl refl
  oldest_from-found k t ((key, e) ∷ m) =
      let older = str_eq k "" || ltb e.last_seen t in
      found_below older k key _ (keys m)
        (oldest_from-found (if older then key else k) (if older then e.last_seen else t) m)

  length-evict_oldest :
      (p : String × IpEntry L) (m : Map (IpEntry L))
      → suc (length (evict_oldest (p ∷ m))) ≤ length (p ∷ m)
  unfolding evict_oldest
  length-evict_oldest (key, e) m =
      let k = oldest_from key e.last_seen m in
      let here : contains (key ∷ keys m) k ≡ true =
        ground (arith, oldest_from-found key e.last_seen m, str-eq_iff key k) in
      let (v, found) = lookup_of_contains k ((key, e) ∷ m) here in
      length-delete_old k v ((key, e) ∷ m) found

  pub length-evict_full :
      (m : Map (IpEntry L))
      → max_tracked_addresses ≤ length m
      → suc (length (evict_oldest m)) ≤ length m
  length-evict_full [] h = absurd (omega arith)
  length-evict_full (p ∷ m) h = length-evict_oldest p m

  pub IsStored-put :
      (key : String) (e e' : IpEntry L) (rl : RateLimiter L)
      → IsStored key e rl
      → HasFewSessions e'
      → IsStored key e' (put_entry key e' rl)
  IsStored-put key e e' rl h small = record {
    bounded = record {
      few = omega (arith, length-insert_old key e' e rl.ips h.stored, h.bounded.few);
      distinct = IsDistinct-insert key e' rl.ips h.bounded.distinct;
      small = AllValues-insert HasFewSessions key e' rl.ips small h.bounded.small;
    };
    stored = lookup-insert_self key e' rl.ips;
    small = small;
  }

  pub IsStored-new :
      (key : String) (e : IpEntry L) (rl : RateLimiter L)
      → IsBounded rl
      → length rl.ips < max_tracked_addresses
      → HasFewSessions e
      → IsStored key e (put_entry key e rl)
  IsStored-new key e rl h room small = record {
    bounded = record {
      few = omega (arith, length-insert-le key e rl.ips);
      distinct = IsDistinct-insert key e rl.ips h.distinct;
      small = AllValues-insert HasFewSessions key e rl.ips small h.small;
    };
    stored = lookup-insert_self key e rl.ips;
    small = small;
  }

module _ {L : Type 0} where
  length-fresh_sessions : (now : ℕ) (m : Map (Bucket L)) → length (fresh_sessions now m) ≤ length m
  unfolding fresh_sessions
  length-fresh_sessions now [] = omega arith
  length-fresh_sessions now ((sid, b) ∷ m) = ground (arith, length-fresh_sessions now m)

  length-fresh_ips : (now : ℕ) (m : Map (IpEntry L)) → length (fresh_ips now m) ≤ length m
  unfolding fresh_ips
  length-fresh_ips now [] = omega arith
  length-fresh_ips now ((ip, e) ∷ m) = ground (arith, length-fresh_ips now m)

  contains-fresh_ips :
      (now : ℕ) (k : String) (m : Map (IpEntry L))
      → contains (keys m) k ≡ false
      → contains (keys (fresh_ips now m)) k ≡ false
  unfolding fresh_ips
  contains-fresh_ips now k [] h = refl
  contains-fresh_ips now k ((ip, e) ∷ m) h = ground (arith, contains-fresh_ips now k m)

  IsDistinct-fresh_ips :
      (now : ℕ) (m : Map (IpEntry L)) → IsDistinct (keys m) → IsDistinct (keys (fresh_ips now m))
  unfolding fresh_ips
  IsDistinct-fresh_ips now [] h = tt
  IsDistinct-fresh_ips now ((ip, e) ∷ m) (h, hs) =
      elim (Bool-cases (ltb idle_session_ttl (now - e.last_seen))) [
        | inl x ↦ rw x (IsDistinct-fresh_ips now m hs)
        | inr x ↦ rw x (contains-fresh_ips now ip m h, IsDistinct-fresh_ips now m hs)
      ]

  AllValues-fresh_ips :
      (now : ℕ) (m : Map (IpEntry L))
      → AllValues HasFewSessions m
      → AllValues HasFewSessions (fresh_ips now m)
  unfolding fresh_ips
  AllValues-fresh_ips now [] h = tt
  AllValues-fresh_ips now ((ip, e) ∷ m) (h, hs) =
      elim (Bool-cases (ltb idle_session_ttl (now - e.last_seen))) [
        | inl x ↦ rw x (AllValues-fresh_ips now m hs)
        | inr x ↦
            rw x (omega (arith, length-fresh_sessions now e.sessions), AllValues-fresh_ips now m hs)
      ]

  pub evict_idle-IsBounded :
      (now : ℕ) (rl : RateLimiter L) → IsBounded rl → IsBounded (evict_idle now rl)
  unfolding evict_idle
  evict_idle-IsBounded now rl h = record {
    few = omega (arith, length-fresh_ips now rl.ips, h.few);
    distinct = IsDistinct-fresh_ips now rl.ips h.distinct;
    small = AllValues-fresh_ips now rl.ips h.small;
  }
