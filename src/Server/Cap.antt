-- ===== src/Server/Cap.antt =====
-- internal/server/resultsize.go: what the cap on a tool's result lets through.
use pihole_mcp.Prelude.{ℕ, String, ◌≡◌, refl, Bool, false, Option, arith}
use pihole_mcp.Server.{Result, sent, failed, too_large, result_size_limit}

-- The result of a tool that is not read-only is passed on whatever its size, and so is an error
-- of the call: what a write changed is never hidden.
pub writes_never_capped :
    {R : Type 0} (encode : R → Option ℕ) (max_bytes : ℕ) (read_only : String → Bool) (name : String)
    (res : Result R)
    → read_only name ≡ false
    → result_size_limit encode max_bytes read_only name res ≡ res
unfolding result_size_limit
writes_never_capped encode max_bytes read_only name (sent r) h = ground arith
writes_never_capped encode max_bytes read_only name (failed e) h = refl
writes_never_capped encode max_bytes read_only name (too_large t n m) h = refl
