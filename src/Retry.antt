-- ===== src/Retry.antt =====
-- internal/pihole/retry.go: which failures are tried again, how long to wait, and the loop.
-- Durations are nanoseconds.
pub mod Backoff
pub mod Loop
pub mod Uncertain
use pihole_mcp.Prelude.{
  ℕ, zero, suc, ◌+◌, ◌-◌, ◌*◌, ◌/◌, ◌%◌, ◌^◌, min, String, Bool, true, false, ◌&&◌, ◌||◌, Option,
  none, some, ltb, leb, ◌==◌, str_eq, not, if◌then◌else◌,
}
use pihole_mcp.Errors.{
  ApiError, Leaf, Err, leaf_of, is_timeout, is_login, is_context_end, is_session_limit,
  is_rate_limit, as_api_error, is_dropped, is_refused,
}

abbrev pub default_max_retries : ℕ
default_max_retries = 3

abbrev pub default_max_retry_delay : ℕ
default_max_retry_delay = 8_000_000_000

abbrev pub base_retry_delay : ℕ
base_retry_delay = 200_000_000

pub record RetryPolicy : Type 0 where
  pub max_retries : ℕ
  pub max_delay : ℕ

-- `errors.As(err, &apiErr)`, then the status
unfoldable pub server_unavailable : Err → Bool
server_unavailable err = elim (as_api_error (leaf_of err)) [
  | none ↦ false
  | some e ↦ leb 500 e.status_code
]

unfoldable pub transient_net_err : Err → Bool
transient_net_err err =
    if is_dropped (leaf_of err) || is_refused (leaf_of err) then true else is_timeout err

unfoldable pub retryable : Err → Bool → Bool
retryable err idempotent =
    if is_context_end (leaf_of err)
    then false
    else if is_session_limit (leaf_of err)
    then false
    else if is_rate_limit (leaf_of err)
    then true
    else if is_login err
    then server_unavailable err || transient_net_err err
    else if not idempotent
    then false
    else server_unavailable err || transient_net_err err

unfoldable pub idempotent_method : String → Bool
idempotent_method method = str_eq method "GET" || str_eq method "HEAD"

-- An int64 by its sign: `negative n` is -(n + 1).
pub data Int64 : Type 0 where
  nonneg : ℕ → Int64
  negative : ℕ → Int64

-- The int64 of a bit pattern below 2^64.
abbrev pub int64 : ℕ → Int64
int64 n = if ltb n (2 ^ 63) then nonneg n else negative (2 ^ 64 - n - 1)

-- `d <= 0`
abbrev pub not_positive : Int64 → Bool
not_positive (nonneg n) = n == 0
not_positive (negative n) = true

-- `d > m`
abbrev pub exceeds : Int64 → ℕ → Bool
exceeds (nonneg n) m = ltb m n
exceeds (negative n) m = false

-- The number that an int64 is, where it is not negative.
abbrev pub magnitude : Int64 → ℕ
magnitude (nonneg n) = n
magnitude (negative n) = 0

-- The interval `d` of `backoffDelay`: `baseRetryDelay << attempt` on an int64, whose bit pattern is
-- the product modulo 2^64, or the cap.
unfoldable pub backoff_interval : ℕ → ℕ → ℕ
backoff_interval attempt max_delay =
    let d = int64 (base_retry_delay * 2 ^ attempt % 2 ^ 64) in
    if not_positive d || exceeds d max_delay then max_delay else magnitude d

-- `jitter` is the answer of `rand.Int64N(half + 1)`.
unfoldable pub backoff_delay : ℕ → ℕ → ℕ → ℕ
unfolding backoff_interval
backoff_delay attempt max_delay jitter = backoff_interval attempt max_delay / 2 + jitter

-- The wait of `sleepBackoff`.
unfoldable pub sleep_duration : ℕ → ℕ → ℕ → Err → ℕ
unfolding backoff_delay
sleep_duration attempt max_delay jitter err = elim (as_api_error (leaf_of err)) [
  | none ↦ backoff_delay attempt max_delay jitter
  | some e ↦
      if ltb 0 e.retry_after
      then min e.retry_after max_delay
      else backoff_delay attempt max_delay jitter
]

-- What the loop calls: the request, the random source, and the timer against the context. Each
-- acts on the outside world `W`. `wait` answers true if the timer fired, false if the context
-- ended first.
pub record Calls (W : Type 0) : Type 0 where
  pub request : W → Option Err × W
  pub rand_int64 : ℕ → W → ℕ × W
  pub wait : ℕ → W → Bool × W

-- What a round of the loop comes to: a result, or another round.
pub data Round (W : Type 0) : Type 0 where
  stop : Option Err → W → Round W
  again : W → Round W

module _ {W : Type 0} (calls : Calls W) where
  unfoldable pub sleep_backoff : ℕ → ℕ → Err → W → Bool × W
  unfolding sleep_duration
  sleep_backoff attempt max_delay err w =
      let (jitter, w') = calls.rand_int64 (backoff_interval attempt max_delay / 2 + 1) w in
      calls.wait (sleep_duration attempt max_delay jitter err) w'

  abbrev pub after_wait : Err → Bool → W → Round W
  after_wait err true w = again w
  after_wait err false w = stop (some err) w

  abbrev pub after_request : RetryPolicy → Bool → ℕ → Option Err → W → Round W
  after_request policy idempotent attempt none w = stop none w
  after_request policy idempotent attempt (some err) w =
      if leb policy.max_retries attempt || not (retryable err idempotent)
      then stop (some err) w
      else (let (fired, w') = sleep_backoff attempt policy.max_delay err w in
          after_wait err fired w')

  -- One round of `withRetry`: the request, the two reasons to give up, and the wait.
  unfoldable pub retry_round : RetryPolicy → Bool → ℕ → W → Round W
  retry_round policy idempotent attempt w =
      let (res, w') = calls.request w in after_request policy idempotent attempt res w'

  -- The rounds from `attempt` on; `none` means that the fuel ran out.
  unfoldable pub with_retry_from : ℕ → RetryPolicy → Bool → ℕ → W → Option (Option Err × W)
  with_retry_from zero policy idempotent attempt w = none
  with_retry_from (suc fuel) policy idempotent attempt w =
      elim (retry_round policy idempotent attempt w) [
        | stop res w' ↦ some (res, w')
        | again w' ↦ with_retry_from fuel policy idempotent (attempt + 1) w'
      ]

  unfoldable pub with_retry : RetryPolicy → Bool → W → Option (Option Err × W)
  with_retry policy idempotent w = with_retry_from (suc policy.max_retries) policy idempotent 0 w
