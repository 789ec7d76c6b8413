-- ===== src/Examples/Retrying.antt =====
-- The retry loop of internal/pihole/retry.go against a Pi-hole whose login limiter rejects once.
use pihole_mcp.Prelude.{
  ℕ, min, ◌*◌, ◌^◌, ◌+◌, ◌≤◌, ◌≡◌, refl, ◌/◌, true, false, Option, none, some, List, [], ◌∷◌, arith,
  length, All, ◌==◌, if◌then◌else◌,
}
use pihole_mcp.Errors.{
  ApiError, Err, leaf, login_error, rate_limit_error, eof, classify_error, may_have_applied,
}
use pihole_mcp.Retry.{
  Calls, RetryPolicy, with_retry, with_retry_from, retry_round, sleep_backoff, retryable,
  backoff_interval, backoff_delay, sleep_duration,
}
use pihole_mcp.Retry.Loop.{
  logged, with_retry-total, with_retry_history, mutating_replays_are_safe, MayReplay, IsUnprocessed,
}
use pihole_mcp.Retry.Backoff.{backoff_delay_bounds, retry_after_ignored}
use pihole_mcp.Retry.Uncertain.{uncertain-not-retryable}

abbrev too_many : ApiError
too_many = record {
  status_code = 429;
  key = "rate_limiting";
  message = "Too many requests";
  hint = "";
  endpoint = "/api/auth";
  retry_after = 2_000_000_000;
}

abbrev busy : Err
busy = login_error (leaf (rate_limit_error too_many) none)

abbrev policy : RetryPolicy
policy = record { max_retries = 3; max_delay = 8_000_000_000 }

-- The world is the number of requests sent; the first is rejected.
abbrev one_rejection : Calls ℕ
one_rejection = record {
  request = λ n. ((if n == 0 then some busy else none), n + 1);
  rand_int64 = λ n w. (0, w);
  wait = λ d w. (true, w);
}

history :
    with_retry (logged one_rejection) policy false ([], 0) ≡ some (none, (none ∷ some busy ∷ [], 2))
unfolding with_retry with_retry_from retry_round retryable sleep_backoff
history = refl

with_retry-total_example : (r : Option Err × ℕ) × (with_retry one_rejection policy false 0 ≡ some r)
with_retry-total_example = with_retry-total one_rejection policy false 0

with_retry_history_example :
    (earlier : List (Option Err)) × (none ∷ some busy ∷ [] ≡ none ∷ earlier)
    × (length earlier ≤ 3)
    × All (MayReplay false) earlier
with_retry_history_example =
    with_retry_history one_rejection policy false 0 2 none (none ∷ some busy ∷ []) history

mutating_replays_are_safe_example :
    (earlier : List (Option Err)) × (none ∷ some busy ∷ [] ≡ none ∷ earlier)
    × All IsUnprocessed earlier
mutating_replays_are_safe_example =
    mutating_replays_are_safe one_rejection policy 0 2 none (none ∷ some busy ∷ []) history

uncertain-not-retryable_example : retryable (leaf eof none) false ≡ false
unfolding may_have_applied
uncertain-not-retryable_example = uncertain-not-retryable (leaf eof none) true refl refl

-- At attempt 36 the shift is negative as an int64, so the wait is drawn from the cap.
backoff_delay_bounds_example :
    (backoff_interval 36 8_000_000_000 ≡ min (200_000_000 * 2 ^ 36) 8_000_000_000)
    × (min (200_000_000 * 2 ^ 36) 8_000_000_000 / 2 ≤ backoff_delay 36 8_000_000_000 7)
    × (backoff_delay 36 8_000_000_000 7 ≤ min (200_000_000 * 2 ^ 36) 8_000_000_000)
unfolding backoff_interval
backoff_delay_bounds_example = backoff_delay_bounds 36 8_000_000_000 7 (omega arith) (omega arith)

retry_after_ignored_example :
    sleep_duration 0 8_000_000_000 5 busy ≡ backoff_delay 0 8_000_000_000 5
unfolding classify_error
retry_after_ignored_example = retry_after_ignored 0 8_000_000_000 5 busy too_many refl refl
