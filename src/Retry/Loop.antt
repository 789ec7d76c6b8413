-- ===== src/Retry/Loop.antt =====
-- The loop `withRetry` of internal/pihole/retry.go: its end, and what it replays.
use pihole_mcp.Prelude.{
  ℕ, zero, suc, ◌+◌, ◌≤◌, ◌<◌, ◌≡◌, refl, ◌⊎◌, inl, inr, Bool, true, false, ◌||◌, not, Option, none,
  some, List, [], ◌∷◌, ◌++◌, arith, Bool-cases, leb, length, All, All-append, length-append, ap,
  sym, ◌∙◌,
}
use mathlib.Core.List.{append_assoc, append-nil}
use mathlib.Core.Path.{subst}
use pihole_mcp.Errors.{Err, leaf_of, is_login, is_rate_limit}
use pihole_mcp.Retry.{
  Calls, RetryPolicy, Round, stop, again, retryable, retry_round, with_retry_from, with_retry,
  sleep_backoff, after_wait, after_request,
}

Round-cases :
    {W : Type 0} (r : Round W)
    → ((res : Option Err) × (w : W) × (r ≡ stop res w)) ⊎ ((w : W) × (r ≡ again w))
Round-cases (stop res w) = inl (res, w, refl)
Round-cases (again w) = inr (w, refl)

-- Another round is made only below the limit and after a failure that may be tried again.
record IsReplayed (policy : RetryPolicy) (idempotent : Bool) (attempt : ℕ) (res : Option Err)
    : Type 0 where
  below : attempt < policy.max_retries
  err : Err
  failed : res ≡ some err
  may_retry : retryable err idempotent ≡ true

module _ {W : Type 0} (calls : Calls W) (policy : RetryPolicy) (idempotent : Bool) where
  retry_round-again :
      (attempt : ℕ) (w w' : W)
      → retry_round calls policy idempotent attempt w ≡ again w'
      → IsReplayed policy idempotent attempt (calls.request w).0
  unfolding retry_round
  retry_round-again attempt w w' h = go (calls.request w).0 refl
    where
      go :
          (res : Option Err)
          → (calls.request w).0 ≡ res
          → IsReplayed policy idempotent attempt (calls.request w).0
      go none e = ground arith
      go (some err) e = record {
        below = ground arith;
        err = err;
        failed = e;
        may_retry = ground arith;
      }

  with_retry_from-total :
      (fuel attempt : ℕ) (w : W)
      → policy.max_retries < fuel + attempt
      → 0 < fuel
      → (r : Option Err × W) × (with_retry_from calls fuel policy idempotent attempt w ≡ some r)
  unfolding with_retry_from
  with_retry_from-total zero attempt w h p = absurd (omega arith)
  with_retry_from-total (suc fuel) attempt w h p =
      elim (Round-cases (retry_round calls policy idempotent attempt w)) [
        | inl (res, w', e) ↦ ((res, w'), rw (e, with_retry_from))
        | inr (w', e) ↦
            rw (e, with_retry_from)
              (with_retry_from-total fuel (attempt + 1) w' (omega arith)
                (omega (arith, (retry_round-again attempt w w' e).below)))
      ]

-- The loop always ends: `MaxRetries + 1` rounds are enough, whatever the requests answer.
pub with_retry-total :
    {W : Type 0} (calls : Calls W) (policy : RetryPolicy) (idempotent : Bool) (w : W)
    → (r : Option Err × W) × (with_retry calls policy idempotent w ≡ some r)
unfolding with_retry
with_retry-total calls policy idempotent w =
    with_retry_from-total calls policy idempotent (suc policy.max_retries) 0 w (omega arith)
      (omega arith)

-- What a round has established, by its outcome.
abbrev AfterRound {ℓ} : {W : Type 0} (P Q : W → Type ℓ) → Round W → Type ℓ
AfterRound P Q (stop res w) = Q w
AfterRound P Q (again w) = P w

-- The rule for invariants of the loop: `P` holds before each round, `Q` at the end.
module _ {ℓ} {W : Type 0} (calls : Calls W) (policy : RetryPolicy) (idempotent : Bool)
    (P Q : W → Type ℓ)
    (sleep_keeps : (attempt : ℕ) (err : Err) (w : W)
      → P w
      → P (sleep_backoff calls attempt policy.max_delay err w).1)
    (sleep_keeps_end : (attempt : ℕ) (err : Err) (w : W)
      → Q w
      → Q (sleep_backoff calls attempt policy.max_delay err w).1)
    (request_ends : (w : W) → P w → Q (calls.request w).1)
    (request_keeps : (w : W) (err : Err)
      → P w
      → (calls.request w).0 ≡ some err
      → retryable err idempotent ≡ true
      → P (calls.request w).1) where
  AfterRound-wait :
      (err : Err) (fired : Bool) (w : W) → P w → Q w → AfterRound P Q (after_wait calls err fired w)
  AfterRound-wait err true w p q = p
  AfterRound-wait err false w p q = q

  AfterRound-request :
      (attempt : ℕ) (res : Option Err) (w : W)
      → ((err : Err) → res ≡ some err → retryable err idempotent ≡ true → P w)
      → Q w
      → AfterRound P Q (after_request calls policy idempotent attempt res w)
  AfterRound-request attempt none w p q = q
  AfterRound-request attempt (some err) w p q =
      elim (Bool-cases (leb policy.max_retries attempt || not (retryable err idempotent))) [
        | inl e ↦ rw e q
        | inr e ↦ rw e (
            AfterRound-wait err (sleep_backoff calls attempt policy.max_delay err w).0
              (sleep_backoff calls attempt policy.max_delay err w).1
              (sleep_keeps attempt err w (p err refl (ground arith)))
              (sleep_keeps_end attempt err w q))
      ]

  AfterRound-round :
      (attempt : ℕ) (w : W) → P w → AfterRound P Q (retry_round calls policy idempotent attempt w)
  unfolding retry_round
  AfterRound-round attempt w p =
      AfterRound-request attempt (calls.request w).0 (calls.request w).1
        (λ err e r. request_keeps w err p e r) (request_ends w p)

  pub with_retry_from-end :
      (fuel attempt : ℕ) (w w' : W) (res : Option Err)
      → P w
      → with_retry_from calls fuel policy idempotent attempt w ≡ some (res, w')
      → Q w'
  unfolding with_retry_from
  with_retry_from-end zero attempt w w' res p h = cc
  with_retry_from-end (suc fuel) attempt w w' res p h =
      elim (Round-cases (retry_round calls policy idempotent attempt w)) [
        | inl (r, w1, e) ↦
            let q : Q w1 = rw e at (AfterRound-round attempt w p) in subst Q (ground arith) q
        | inr (w1, e) ↦
            with_retry_from-end fuel (attempt + 1) w1 w' res
              (rw e at (AfterRound-round attempt w p)) (rw (e, with_retry_from) at h)
      ]

-- The same calls, with a log of what the requests answered, the latest first.
abbrev pub logged : {W : Type 0} → Calls W → Calls (List (Option Err) × W)
logged calls = record {
  request = λ s. ((calls.request s.1).0, ((calls.request s.1).0 ∷ s.0, (calls.request s.1).1));
  rand_int64 = λ n s. ((calls.rand_int64 n s.1).0, (s.0, (calls.rand_int64 n s.1).1));
  wait = λ d s. ((calls.wait d s.1).0, (s.0, (calls.wait d s.1).1));
}

-- A failure after which the request may be sent again.
abbrev pub MayReplay : Bool → Option Err → Type 0
MayReplay idempotent res = (err : Err) × (res ≡ some err) × (retryable err idempotent ≡ true)

-- What a run adds to the log: its answers, the latest first. The first is the result, and after
-- each other one a replay was allowed.
record IsHistory (policy : RetryPolicy) (idempotent : Bool) (attempt : ℕ)
    (log0 log : List (Option Err)) (res : Option Err) : Type 0 where
  earlier : List (Option Err)
  total : log ≡ res ∷ (earlier ++ log0)
  few : (length earlier ≡ 0) ⊎ (length earlier + attempt ≤ policy.max_retries)
  replayed : All (MayReplay idempotent) earlier

IsHistory-again :
    (policy : RetryPolicy) (idempotent : Bool) (attempt : ℕ) (log0 log : List (Option Err))
    (res first : Option Err)
    → IsReplayed policy idempotent attempt first
    → IsHistory policy idempotent (attempt + 1) (first ∷ log0) log res
    → IsHistory policy idempotent attempt log0 log res
IsHistory-again policy idempotent attempt log0 log res first r h = record {
  earlier = h.earlier ++ first ∷ [];
  total = h.total ∙ ap (λ l. res ∷ l) (sym (append_assoc h.earlier (first ∷ []) log0));
  few = inr (ground (arith, length-append h.earlier (first ∷ []), r.below, h.few));
  replayed =
      All-append (MayReplay idempotent) h.earlier (first ∷ []) h.replayed
        ((r.err, r.failed, r.may_retry), tt);
}

module _ {W : Type 0} (calls : Calls W) (policy : RetryPolicy) (idempotent : Bool) where
  retry_round-log :
      (attempt : ℕ) (log0 : List (Option Err)) (w : W) (s : List (Option Err) × W)
      → retry_round (logged calls) policy idempotent attempt (log0, w) ≡ again s
      → s.0 ≡ (calls.request w).0 ∷ log0
  unfolding retry_round sleep_backoff
  retry_round-log attempt log0 w s h = ground arith

  retry_round-stop :
      (attempt : ℕ) (log0 : List (Option Err)) (w : W) (s : List (Option Err) × W)
      (res : Option Err)
      → retry_round (logged calls) policy idempotent attempt (log0, w) ≡ stop res s
      → s.0 ≡ res ∷ log0
  unfolding retry_round sleep_backoff
  retry_round-stop attempt log0 w s res h = ground arith

  with_retry_from-log :
      (fuel attempt : ℕ) (log0 : List (Option Err)) (w : W) (res : Option Err)
      (s : List (Option Err) × W)
      → with_retry_from (logged calls) fuel policy idempotent attempt (log0, w) ≡ some (res, s)
      → IsHistory policy idempotent attempt log0 s.0 res
  unfolding with_retry_from
  with_retry_from-log zero attempt log0 w res s h = cc
  with_retry_from-log (suc fuel) attempt log0 w res s h =
      elim (Round-cases (retry_round (logged calls) policy idempotent attempt (log0, w))) [
        | inl (r, s', e) ↦ record {
          earlier = [];
          total = retry_round-stop attempt log0 w s res (ground arith);
          few = inl refl;
          replayed = tt;
        }
        | inr (s', e) ↦
            IsHistory-again policy idempotent attempt log0 s.0 res (calls.request w).0
              (retry_round-again (logged calls) policy idempotent attempt (log0, w) s' e)
              (rw (← retry_round-log attempt log0 w s' e) (
                with_retry_from-log fuel (attempt + 1) s'.0 s'.1 res s
                  (rw (e, with_retry_from) at h)))
      ]

-- However the requests answer: the result of `withRetry` is what its last request answered, every
-- request before it failed in a way that `retryable` allows to try again, and there are at most
-- `MaxRetries` such requests.
pub with_retry_history :
    {W : Type 0} (calls : Calls W) (policy : RetryPolicy) (idempotent : Bool) (w w' : W)
    (res : Option Err) (log : List (Option Err))
    → with_retry (logged calls) policy idempotent ([], w) ≡ some (res, (log, w'))
    → (earlier : List (Option Err)) × (log ≡ res ∷ earlier)
      × (length earlier ≤ policy.max_retries)
      × All (MayReplay idempotent) earlier
unfolding with_retry
with_retry_history calls policy idempotent w w' res log h =
    let r =
      with_retry_from-log calls policy idempotent (suc policy.max_retries) 0 [] w res (log, w') h in
    (
      r.earlier,
      r.total ∙ ap (λ l. res ∷ l) (append-nil r.earlier),
      ground (arith, r.few),
      r.replayed,
    )

-- A failure of a request that changes something is followed by a replay only if Pi-hole rejected
-- the request with its login limiter or the request was never sent because the login failed.
abbrev pub IsUnprocessed : Option Err → Type 0
IsUnprocessed res =
    (err : Err) × (res ≡ some err) × ((is_rate_limit (leaf_of err) ≡ true) ⊎ (is_login err ≡ true))

MayReplay-IsUnprocessed : (res : Option Err) → MayReplay false res → IsUnprocessed res
unfolding retryable
MayReplay-IsUnprocessed res (err, e, h) = (err, e, ground arith)

All-MayReplay-IsUnprocessed :
    (l : List (Option Err)) → All (MayReplay false) l → All IsUnprocessed l
All-MayReplay-IsUnprocessed [] _ = tt
All-MayReplay-IsUnprocessed (r ∷ l) (h, hs) =
    (MayReplay-IsUnprocessed r h, All-MayReplay-IsUnprocessed l hs)

-- A mutating request is never replayed after one that Pi-hole may have processed: each earlier
-- answer is the login limiter's rejection or a failed login.
pub mutating_replays_are_safe :
    {W : Type 0} (calls : Calls W) (policy : RetryPolicy) (w w' : W) (res : Option Err)
    (log : List (Option Err))
    → with_retry (logged calls) policy false ([], w) ≡ some (res, (log, w'))
    → (earlier : List (Option Err)) × (log ≡ res ∷ earlier) × All IsUnprocessed earlier
mutating_replays_are_safe calls policy w w' res log h =
    let (earlier, total, few, replayed) = with_retry_history calls policy false w w' res log h in
    (earlier, total, All-MayReplay-IsUnprocessed earlier replayed)
