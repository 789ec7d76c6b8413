-- ===== src/RateLimit/Eviction.antt =====
-- What internal/middleware/ratelimit.go drops from its table: when the table is full, and at a tick
-- of the sweep.
use pihole_mcp.Prelude.{
  ℕ, ◌-◌, ◌≤◌, String, ◌≡◌, ◌≢◌, refl, ◌⊎◌, inl, inr, false, Option, none, some, [], ◌∷◌, arith,
  ltb, str_eq, str-eq_iff, if◌then◌else◌, Bool-cases, Map, keys, lookup, contains, IsDistinct,
  AllValues, delete,
}
use pihole_mcp.RateLimit.{
  IpEntry, RateLimiter, oldest_from, evict_oldest, fresh_sessions, fresh_ips, evict_idle,
  idle_session_ttl,
}
use pihole_mcp.RateLimit.Table.{IsBounded}

-- The map has an entry under the key that was last seen at `t`.
abbrev pub HasSeen : {L : Type 0} → String → ℕ → Map (IpEntry L) → Type 0
HasSeen k t [] = ⊥
HasSeen k t ((key, e) ∷ m) = ((key ≡ k) × (e.last_seen ≡ t)) ⊎ HasSeen k t m

abbrev pub IsNoLater : {L : Type 0} → ℕ → Map (IpEntry L) → Type 0
IsNoLater t m = AllValues (λ e. t ≤ e.last_seen) m

-- The search keeps the earliest time met so far with its key.
record IsFound {L : Type 0} (k : String) (t : ℕ) (m : Map (IpEntry L)) (found : String)
    : Type 0 where
  at : ℕ
  seen : ((found ≡ k) × (at ≡ t)) ⊎ HasSeen found at m
  before : at ≤ t
  least : IsNoLater at m

oldest_from-IsFound :
    {L : Type 0} (k : String) (t : ℕ) (m : Map (IpEntry L))
    → k ≢ ""
    → contains (keys m) "" ≡ false
    → IsFound k t m (oldest_from k t m)
unfolding oldest_from
oldest_from-IsFound k t [] h n = record {
  at = t;
  seen = inl (refl, refl);
  before = omega arith;
  least = tt;
}
oldest_from-IsFound k t ((key, e) ∷ m) h n =
    let named : str_eq k "" ≡ false = ground (arith, str-eq_iff k "") in
    let key_named : key ≢ "" = λ p. ground (arith, str-eq_iff key "") in
    rw named (elim (Bool-cases (ltb e.last_seen t)) [
      | inl older ↦ rw older (
          let r = oldest_from-IsFound key e.last_seen m key_named (ground arith) in
          record {
            at = r.at;
            seen = inr (ground (arith, r.seen));
            before = ground (arith, r.before);
            least = (r.before, r.least);
          })
      | inr newer ↦ rw newer (
          let r = oldest_from-IsFound k t m h (ground arith) in
          record {
            at = r.at;
            seen = ground (arith, r.seen);
            before = r.before;
            least = (ground (arith, r.before), r.least);
          })
    ])

-- A full table loses an address that was seen no later than any other, provided that no address is
-- the empty text.
pub evicted-is_oldest :
    {L : Type 0} (key : String) (e : IpEntry L) (m : Map (IpEntry L))
    → contains (keys ((key, e) ∷ m)) "" ≡ false
    → (k : String) × (t : ℕ) × (evict_oldest ((key, e) ∷ m) ≡ delete k ((key, e) ∷ m))
      × HasSeen k t ((key, e) ∷ m)
      × IsNoLater t ((key, e) ∷ m)
unfolding evict_oldest
evicted-is_oldest key e m n =
    let key_named : key ≢ "" = λ p. ground (arith, str-eq_iff key "") in
    let r = oldest_from-IsFound key e.last_seen m key_named (ground arith) in
    (oldest_from key e.last_seen m, r.at, refl, ground (arith, r.seen), (r.before, r.least))

-- What the sweep leaves of an entry.
abbrev pub swept : {L : Type 0} → ℕ → Option (IpEntry L) → Option (IpEntry L)
swept now none = none
swept now (some e) =
    if ltb idle_session_ttl (now - e.last_seen)
    then none
    else some (record e { sessions = fresh_sessions now e.sessions })

lookup-fresh_ips_absent :
    {L : Type 0} (now : ℕ) (k : String) (m : Map (IpEntry L))
    → contains (keys m) k ≡ false
    → lookup k (fresh_ips now m) ≡ none
unfolding lookup fresh_ips
lookup-fresh_ips_absent now k [] h = refl
lookup-fresh_ips_absent now k ((ip, e) ∷ m) h = ground (arith, lookup-fresh_ips_absent now k m)

lookup-fresh_ips :
    {L : Type 0} (now : ℕ) (k : String) (m : Map (IpEntry L))
    → IsDistinct (keys m)
    → lookup k (fresh_ips now m) ≡ swept now (lookup k m)
unfolding lookup fresh_ips
lookup-fresh_ips now k [] h = refl
lookup-fresh_ips now k ((ip, e) ∷ m) (h, hs) =
    let ih = lookup-fresh_ips now k m hs in
    elim (Bool-cases (ltb idle_session_ttl (now - e.last_seen))) [
      | inl idle ↦ rw idle (elim (Bool-cases (str_eq ip k)) [
        | inl same ↦
            rw same (rw idle (lookup-fresh_ips_absent now k m (rw ((str-eq_iff ip k).0 same) at h)))
        | inr other ↦ rw other ih
      ])
      | inr live ↦ rw live (elim (Bool-cases (str_eq ip k)) [
        | inl same ↦ rw (same, lookup) (rw live)
        | inr other ↦ rw (other, lookup) ih
      ])
    ]

-- A tick of the sweep drops exactly the addresses idle for more than three minutes, and leaves each
-- other address its entry with the sessions that `fresh_sessions` keeps.
pub evict_idle_exact :
    {L : Type 0} (now : ℕ) (rl : RateLimiter L) (k : String)
    → IsBounded rl
    → lookup k (evict_idle now rl).ips ≡ swept now (lookup k rl.ips)
unfolding evict_idle
evict_idle_exact now rl k h = lookup-fresh_ips now k rl.ips h.distinct
