-- ===== src/RateLimit/Ceiling.antt =====
-- The per-address ceiling of internal/middleware/ratelimit.go and the session id, which the caller
-- chooses.
use mathlib.Core.Option
use mathlib.Core.Path.{ap₂}
use pihole_mcp.Prelude.{
  ℕ, ◌+◌, ◌≤◌, String, ◌≡◌, refl, sym, ap, ◌∙◌, inl, inr, true, false, ◌||◌, Option, none, some,
  List, [], ◌∷◌, map, arith, ltb, leb, ◌==◌, str_eq, if◌then◌else◌, Bool-cases, length, Map, lookup,
  delete, insert_same, lookup-insert_self, map_values, lookup-map_values, insert-map_values,
  delete-map_values, length-map_values,
}
use pihole_mcp.RateLimit.{
  Buckets, Bucket, IpEntry, RateLimiter, Arrival, Verdict, passed, limited, max_tracked_addresses,
  oldest_from, evict_oldest, put_entry, new_entry, make_room, entry_or_new, entry_for,
  session_or_new, limiters_for, charge_session, admit, max_sessions_per_ip,
}

abbrev erase_entry : {L : Type 0} → IpEntry L → IpEntry L
erase_entry e = record e { sessions = [] }

-- The table with the session buckets left out.
abbrev pub erase : {L : Type 0} → RateLimiter L → RateLimiter L
erase rl = record rl { ips = map_values erase_entry rl.ips }

-- The same request, naming no session.
abbrev pub sessionless : Arrival → Arrival
sessionless a = record a { sid = "" }

oldest_from-erase :
    {L : Type 0} (k : String) (t : ℕ) (m : Map (IpEntry L))
    → oldest_from k t (map_values erase_entry m) ≡ oldest_from k t m
unfolding oldest_from
oldest_from-erase k t [] = refl
oldest_from-erase k t ((key, e) ∷ m) =
    let older = str_eq k "" || ltb e.last_seen t in
    oldest_from-erase (if older then key else k) (if older then e.last_seen else t) m

evict_oldest-erase :
    {L : Type 0} (m : Map (IpEntry L))
    → evict_oldest (map_values erase_entry m) ≡ map_values erase_entry (evict_oldest m)
unfolding evict_oldest
evict_oldest-erase m =
    ap (λ k. delete k (map_values erase_entry m)) (oldest_from-erase "" 0 m)
    ∙ sym (delete-map_values erase_entry _ m)

limited-ne-passed : limited ≡ passed → ⊥
limited-ne-passed h = cc

module _ {L : Type 0} (buckets : Buckets L) where
  erase-put :
      (key : String) (e : IpEntry L) (rl : RateLimiter L)
      → erase (put_entry key e rl) ≡ put_entry key (erase_entry e) (erase rl)
  erase-put key e rl = ap (λ m. record rl { ips = m }) (insert-map_values erase_entry key e rl.ips)

  erase-make_room :
      (rl : RateLimiter L) → erase (make_room buckets rl) ≡ make_room buckets (erase rl)
  erase-make_room rl = elim (Bool-cases (leb max_tracked_addresses (length rl.ips))) [
    | inl e ↦
        rw (length-map_values erase_entry rl.ips)
          (rw (e, make_room) (ap (λ m. record rl { ips = m }) (sym (evict_oldest-erase rl.ips))))
    | inr e ↦ rw (length-map_values erase_entry rl.ips) (rw (e, make_room))
  ]

  entry_for-erase :
      (key : String) (now : ℕ) (rl : RateLimiter L)
      → entry_for buckets key now (erase rl)
        ≡ (erase_entry (entry_for buckets key now rl).0, erase (entry_for buckets key now rl).1)
  unfolding entry_for
  entry_for-erase key now rl =
      ap (λ o. entry_or_new buckets o key now (erase rl)) (lookup-map_values erase_entry key rl.ips)
      ∙ go (lookup key rl.ips)
    where
      go :
          (o : Option (IpEntry L))
          → entry_or_new buckets (Option.map erase_entry o) key now (erase rl) ≡ (
            erase_entry (entry_or_new buckets o key now rl).0,
            erase (entry_or_new buckets o key now rl).1,
          )
      go none =
          let e = new_entry buckets now rl in
          ap (λ r. (e, r))
            (ap (put_entry key e) (sym (erase-make_room rl))
              ∙ sym (erase-put key e (make_room buckets rl)))
      go (some e) =
          let seen : IpEntry L = record e { last_seen = now } in
          ap (λ r. (erase_entry seen, r)) (sym (erase-put key seen rl))

  entry_for-stored :
      (key : String) (now : ℕ) (rl : RateLimiter L)
      → lookup key (entry_for buckets key now rl).1.ips ≡ some (entry_for buckets key now rl).0
  unfolding entry_for
  entry_for-stored key now rl = go (lookup key rl.ips)
    where
      go :
          (o : Option (IpEntry L))
          → lookup key (entry_or_new buckets o key now rl).1.ips
            ≡ some (entry_or_new buckets o key now rl).0
      go none = lookup-insert_self key _ _
      go (some e) = lookup-insert_self key _ _

  erase_entry-session :
      (o : Option (Bucket L)) (sid : String) (now : ℕ) (rl : RateLimiter L) (e : IpEntry L)
      → erase_entry (session_or_new buckets o sid now rl e).0 ≡ erase_entry e
  erase_entry-session (some b) sid now rl e = refl
  erase_entry-session none sid now rl e =
      elim (Bool-cases (leb max_sessions_per_ip (length e.sessions))) [
        | inl full ↦ rw full
        | inr room ↦ rw room
      ]

  -- Whatever session is named, the entry and the table are the same but for session buckets.
  limiters_for-erase :
      (key sid : String) (now : ℕ) (rl : RateLimiter L)
      → (erase_entry (limiters_for buckets key sid now rl).0
          ≡ erase_entry (entry_for buckets key now rl).0)
        × (erase (limiters_for buckets key sid now rl).2 ≡ erase (entry_for buckets key now rl).1)
  unfolding limiters_for
  limiters_for-erase key sid now rl =
      let (entry, rl') = entry_for buckets key now rl in
      let (entry', bucket) = session_or_new buckets (lookup sid entry.sessions) sid now rl' entry in
      let same = erase_entry-session (lookup sid entry.sessions) sid now rl' entry in
      elim (Bool-cases (str_eq sid "")) [
        | inl e ↦ rw e (refl, refl)
        | inr e ↦ rw e (
          same,
          erase-put key entry' rl'
              ∙ ap (λ x. put_entry key x (erase rl')) same
              ∙ ap (λ m. record rl' { ips = m })
                  (insert_same key (erase_entry entry) (map_values erase_entry rl'.ips) (
                    lookup-map_values erase_entry key rl'.ips
                    ∙ ap (Option.map erase_entry) (entry_for-stored key now rl))),
        )
      ]

  erase_entry-charge :
      (o : Option (Bucket L)) (sid : String) (at : ℕ) (e : IpEntry L)
      → erase_entry (charge_session buckets o sid at e).1 ≡ erase_entry e
  erase_entry-charge none sid at e = refl
  erase_entry-charge (some b) sid at e = refl

  abbrev charge_ceiling : Arrival → IpEntry L → RateLimiter L → RateLimiter L
  charge_ceiling a e rl =
      put_entry a.key (record e { limiter = (buckets.allow a.ip_at e.limiter).1 }) rl

  erase-admit_entry :
      (a : Arrival) (rl : RateLimiter L)
      → (rl.per_minute == 0) ≡ false
      → erase (admit buckets a rl).1
        ≡ charge_ceiling a
            (erase_entry (limiters_for buckets a.key a.sid a.now rl).0)
            (erase (limiters_for buckets a.key a.sid a.now rl).2)
  unfolding admit
  erase-admit_entry a rl on =
      let (entry, bucket, rl') = limiters_for buckets a.key a.sid a.now rl in
      let (ok, l) = buckets.allow a.ip_at entry.limiter in
      let charged : IpEntry L = record entry { limiter = l } in
      rw on (elim (Bool-cases ok) [
        | inl o ↦ rw o (
            erase-put a.key (charge_session buckets bucket a.sid a.session_at charged).1 rl'
            ∙ ap (λ x. put_entry a.key x (erase rl'))
                (erase_entry-charge bucket a.sid a.session_at charged))
        | inr o ↦ rw o (erase-put a.key charged rl')
      ])

  admit-sessionless :
      (a : Arrival) (rl : RateLimiter L)
      → (rl.per_minute == 0) ≡ false
      → admit buckets (sessionless a) (erase rl) ≡ (
        (if (buckets.allow a.ip_at (entry_for buckets a.key a.now rl).0.limiter).0
            then passed
            else limited),
        charge_ceiling a
            (erase_entry (entry_for buckets a.key a.now rl).0)
            (erase (entry_for buckets a.key a.now rl).1),
      )
  unfolding admit limiters_for
  admit-sessionless a rl on = rw on (
      rw (entry_for-erase a.key a.now rl)
        (elim (Bool-cases (buckets.allow a.ip_at (entry_for buckets a.key a.now rl).0.limiter).0) [
          | inl o ↦ rw o
          | inr o ↦ rw o
        ]))

  -- One request: the ceilings after it are those after the same request without its session id.
  admit-erase :
      (a : Arrival) (rl : RateLimiter L)
      → erase (admit buckets a rl).1 ≡ (admit buckets (sessionless a) (erase rl)).1
  admit-erase a rl = elim (Bool-cases (rl.per_minute == 0)) [
    | inl off ↦ unfold admit in rw off
    | inr on ↦
        let (same, same_rl) = limiters_for-erase a.key a.sid a.now rl in
        erase-admit_entry a rl on
        ∙ ap₂ (charge_ceiling a) same same_rl
        ∙ sym (ap (λ r. r.1) (admit-sessionless a rl on))
  ]

  allowed_of_passed :
      (a : Arrival) (rl : RateLimiter L)
      → (rl.per_minute == 0) ≡ false
      → (admit buckets a rl).0 ≡ passed
      → (buckets.allow a.ip_at (limiters_for buckets a.key a.sid a.now rl).0.limiter).0 ≡ true
  unfolding admit
  allowed_of_passed a rl on h =
      elim (Bool-cases
        (buckets.allow a.ip_at (limiters_for buckets a.key a.sid a.now rl).0.limiter).0) [
          | inl o ↦ o
          | inr o ↦ absurd (limited-ne-passed (rw (on, o, admit) at h))
        ]

  passed-sessionless :
      (a : Arrival) (rl : RateLimiter L)
      → (admit buckets a rl).0 ≡ passed
      → (admit buckets (sessionless a) (erase rl)).0 ≡ passed
  passed-sessionless a rl h = elim (Bool-cases (rl.per_minute == 0)) [
    | inl off ↦ unfold admit in rw off
    | inr on ↦
        let same : (limiters_for buckets a.key a.sid a.now rl).0.limiter
            ≡ (entry_for buckets a.key a.now rl).0.limiter =
          ap (λ e. e.limiter) (limiters_for-erase a.key a.sid a.now rl).0 in
        let ok = rw same at (allowed_of_passed a rl on h) in
        ap (λ r. r.0) (admit-sessionless a rl on) ∙ ap (λ b. if b then passed else limited) ok
  ]

  -- How many requests of a sequence pass.
  pub count_passed : List Arrival → RateLimiter L → ℕ
  count_passed [] rl = 0
  count_passed (a ∷ rest) rl =
      let (verdict, rl') = admit buckets a rl in
      elim verdict [ passed ↦ 1 | limited ↦ 0 ] + count_passed rest rl'

  verdict_le :
      (v w : Verdict)
      → (v ≡ passed → w ≡ passed)
      → elim v [ passed ↦ 1 | limited ↦ 0 ] ≤ elim w [ passed ↦ 1 | limited ↦ 0 ]
  verdict_le passed w h = rw (h refl) (omega arith)
  verdict_le limited w h = omega arith

  count_passed-le :
      (arrivals : List Arrival) (rl : RateLimiter L)
      → count_passed arrivals rl ≤ count_passed (map sessionless arrivals) (erase rl)
  unfolding count_passed
  count_passed-le [] rl = omega arith
  count_passed-le (a ∷ rest) rl =
      let ih = rw (admit-erase a rl) at (count_passed-le rest (admit buckets a rl).1) in
      omega (
        arith,
        ih,
        verdict_le (admit buckets a rl).0 (admit buckets (sessionless a) (erase rl)).0
            (passed-sessionless a rl),
      )

-- Varying the session id gains nothing: of any sequence of requests, no more pass than would if
-- none of them named a session, from the same ceilings. The buckets of golang.org/x/time/rate may
-- answer in any way.
pub session_ids_gain_nothing :
    {L : Type 0} (buckets : Buckets L) (arrivals : List Arrival) (rl : RateLimiter L)
    → count_passed buckets arrivals rl ≤ count_passed buckets (map sessionless arrivals) (erase rl)
session_ids_gain_nothing buckets arrivals rl = count_passed-le buckets arrivals rl

-- A request changes the address ceilings as the same request without its session id would.
pub ceiling_ignores_session :
    {L : Type 0} (buckets : Buckets L) (a : Arrival) (rl : RateLimiter L)
    → erase (admit buckets a rl).1 ≡ (admit buckets (sessionless a) (erase rl)).1
ceiling_ignores_session buckets a rl = admit-erase buckets a rl
