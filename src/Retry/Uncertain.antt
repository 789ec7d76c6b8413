-- ===== src/Retry/Uncertain.antt =====
-- `mayHaveApplied` of internal/pihole/errors.go against `retryable` of internal/pihole/retry.go.
use pihole_mcp.Prelude.{Bool, true, false, ◌≡◌, some, arith}
use pihole_mcp.Errors.{Err, leaf_of, is_rate_limit, may_have_applied}
use pihole_mcp.Retry.{retryable}

-- An outcome that is reported as uncertain is never tried again for a mutating request, unless it
-- is the login limiter's rejection.
pub uncertain-not-retryable :
    (err : Err) (live : Bool)
    → may_have_applied (some err) live ≡ true
    → is_rate_limit (leaf_of err) ≡ false
    → retryable err false ≡ false
unfolding may_have_applied retryable
uncertain-not-retryable err live h k = ground arith
