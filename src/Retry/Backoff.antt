-- ===== src/Retry/Backoff.antt =====
-- Bounds of the backoff wait of internal/pihole/retry.go.
use pihole_mcp.Prelude.{
  ℕ, zero, suc, ◌+◌, ◌-◌, ◌*◌, ◌/◌, ◌%◌, ◌^◌, min, ◌≤◌, ◌<◌, ◌≡◌, refl, ap, subst, ◌∙◌, ◌⊎◌, inl,
  inr, Bool, true, ◌&&◌, ◌||◌, leb, none, arith, if◌then◌else◌,
}
use native.Mathlib.Nat.{pow-le-pow_right, one-le-pow, pow-succ'}
use native.Mathlib.Decide.{dec_lt}
use pihole_mcp.Errors.{Err, leaf_of, ApiError, classify_error, as_api_error}
use pihole_mcp.Retry.{
  base_retry_delay, int64, not_positive, exceeds, magnitude, backoff_interval, backoff_delay,
  sleep_duration,
}

-- The interval for a bit pattern.
interval_of : ℕ → ℕ → ℕ
interval_of n m = if not_positive (int64 n) || exceeds (int64 n) m then m else magnitude (int64 n)

interval_of_small : (n m : ℕ) → 0 < n → n < 2 ^ 63 → interval_of n m ≡ min n m
unfolding interval_of
interval_of_small n m p h = ground arith

interval_of_large : (n m : ℕ) → m < 2 ^ 59 → (n ≡ 0) ⊎ (2 ^ 59 ≤ n) → interval_of n m ≡ m
unfolding interval_of
interval_of_large n m h c = ground arith

interval_of-le : (n m : ℕ) → interval_of n m ≤ m
unfolding interval_of
interval_of-le n m = ground arith

pow_pos : (attempt : ℕ) → 0 < 2 ^ attempt
pow_pos attempt = one-le-pow attempt 2 (omega arith)

pow_small : (attempt : ℕ) → attempt < 36 → 2 ^ attempt ≤ 34_359_738_368
pow_small attempt h = pow-le-pow_right {n = 2} (omega arith) {i = attempt} {j = 35} (omega arith)

pow_large : (attempt : ℕ) → 36 ≤ attempt → 68_719_476_736 ≤ 2 ^ attempt
pow_large attempt h = pow-le-pow_right {n = 2} (omega arith) {i = 36} {j = attempt} h

-- From attempt 55 on the shift leaves no bit.
shifted_out : (k : ℕ) → base_retry_delay * 2 ^ (55 + k) % 2 ^ 64 ≡ 0
shifted_out zero = refl
shifted_out (suc k) =
    let next : 55 + suc k ≡ suc (55 + k) = omega arith in
    let e : 2 ^ (55 + suc k) ≡ 2 * 2 ^ (55 + k) =
      ap (λ (n : ℕ). 2 ^ n) next ∙ pow-succ' 2 (55 + k) in
    omega (arith, e, shifted_out k)

leaves_much : ℕ → Bool
leaves_much zero = true
leaves_much (suc k) = leb (2 ^ 59) (base_retry_delay * 2 ^ (36 + k) % 2 ^ 64) && leaves_much k

leaves_much_sound :
    (n k : ℕ) → leaves_much n ≡ true → k < n → 2 ^ 59 ≤ base_retry_delay * 2 ^ (36 + k) % 2 ^ 64
unfolding leaves_much
leaves_much_sound zero k h l = absurd (omega arith)
leaves_much_sound (suc n) k h l = ground (arith, leaves_much_sound n k)

leaves_much_19 : leaves_much 19 ≡ true
unfolding leaves_much
leaves_much_19 = refl

large_shift :
    (attempt : ℕ)
    → 36 ≤ attempt
    → (base_retry_delay * 2 ^ attempt % 2 ^ 64 ≡ 0)
      ⊎ (2 ^ 59 ≤ base_retry_delay * 2 ^ attempt % 2 ^ 64)
large_shift attempt h = elim (dec_lt attempt 55) [
  | yes l ↦
      let e : 36 + (attempt - 36) ≡ attempt = omega arith in
      inr (
        subst (λ n. 2 ^ 59 ≤ base_retry_delay * 2 ^ n % 2 ^ 64) e
          (leaves_much_sound 19 (attempt - 36) leaves_much_19 (omega arith)))
  | no g ↦
      let e : 55 + (attempt - 55) ≡ attempt = omega arith in
      inl (subst (λ n. base_retry_delay * 2 ^ n % 2 ^ 64 ≡ 0) e (shifted_out (attempt - 55)))
]

-- The interval is the base delay doubled once for each attempt, until it meets the cap.
backoff_interval-eq-min :
    (attempt m : ℕ)
    → m < 2 ^ 59
    → backoff_interval attempt m ≡ min (base_retry_delay * 2 ^ attempt) m
unfolding backoff_interval interval_of
backoff_interval-eq-min attempt m h = elim (dec_lt attempt 36) [
  | yes l ↦
      let small = pow_small attempt l in
      let pos = pow_pos attempt in
      let whole : base_retry_delay * 2 ^ attempt % 2 ^ 64 ≡ base_retry_delay * 2 ^ attempt =
        omega arith in
      rw whole (interval_of_small (base_retry_delay * 2 ^ attempt) m (omega arith) (omega arith))
  | no g ↦
      let large = pow_large attempt (omega arith) in
      let capped : min (base_retry_delay * 2 ^ attempt) m ≡ m = omega arith in
      rw capped (
        interval_of_large (base_retry_delay * 2 ^ attempt % 2 ^ 64) m h
          (large_shift attempt (omega arith)))
]

backoff_delay-le :
    (attempt m jitter : ℕ)
    → jitter < backoff_interval attempt m / 2 + 1
    → backoff_delay attempt m jitter ≤ m
unfolding backoff_delay backoff_interval interval_of
backoff_delay-le attempt m jitter h =
    omega (arith, interval_of-le (base_retry_delay * 2 ^ attempt % 2 ^ 64) m)

-- For every attempt, also where the shift of the int64 overflows, a cap below 2^59 ns, which is 18
-- years, and a jitter in the range that is asked of the random source: the interval is the base
-- delay doubled once for each attempt and cut at the cap, and the wait lies between half of the
-- interval and the whole.
pub backoff_delay_bounds :
    (attempt m jitter : ℕ)
    → m < 2 ^ 59
    → jitter < backoff_interval attempt m / 2 + 1
    → (backoff_interval attempt m ≡ min (base_retry_delay * 2 ^ attempt) m)
      × (min (base_retry_delay * 2 ^ attempt) m / 2 ≤ backoff_delay attempt m jitter)
      × (backoff_delay attempt m jitter ≤ min (base_retry_delay * 2 ^ attempt) m)
unfolding backoff_delay
backoff_delay_bounds attempt m jitter b h = omega (arith, backoff_interval-eq-min attempt m b)

-- The wait before another attempt never passes the policy's cap, whether the backoff or a
-- Retry-After header decides it.
pub sleep_duration-le :
    (attempt m jitter : ℕ) (err : Err)
    → jitter < backoff_interval attempt m / 2 + 1
    → sleep_duration attempt m jitter err ≤ m
unfolding sleep_duration
sleep_duration-le attempt m jitter err h = ground (arith, backoff_delay-le attempt m jitter h)

as_api_error-classify_error :
    (e : ApiError) → e.status_code ≡ 429 → as_api_error (classify_error e) ≡ none
unfolding classify_error
as_api_error-classify_error e k = ground arith

-- A Retry-After header of a 429 has no effect on the wait: the error that `classifyError` makes of
-- it is no `*APIError` to `errors.As`, so the backoff decides alone.
pub retry_after_ignored :
    (attempt m jitter : ℕ) (err : Err) (e : ApiError)
    → leaf_of err ≡ classify_error e
    → e.status_code ≡ 429
    → sleep_duration attempt m jitter err ≡ backoff_delay attempt m jitter
unfolding sleep_duration
retry_after_ignored attempt m jitter err e h k =
    let p : as_api_error (leaf_of err) ≡ none = rw h (as_api_error-classify_error e k) in
    rw (p, sleep_duration)
