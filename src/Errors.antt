-- ===== src/Errors.antt =====
-- internal/pihole/errors.go: the errors of the API client and their classification.
-- A Go error is the chain that `errors.Is` and `errors.As` walk by `Unwrap`: wrappers around one
-- leaf. `APIError` and the types that embed it have no `Unwrap`, so they are leaves, and a type
-- that embeds an `*APIError` is not itself an `*APIError` to `errors.As`. Which foreign leaf or
-- wrapper implements `net.Error`, and what its `Timeout` answers, is part of the value:
-- `some t` implements it and answers `t`.
use pihole_mcp.Prelude.{
  ℕ, String, Bool, true, false, ◌||◌, Option, none, some, ◌==◌, str_eq, if◌then◌else◌,
}

pub record ApiError : Type 0 where
  pub status_code : ℕ
  pub key : String
  pub message : String
  pub hint : String
  pub endpoint : String
  pub retry_after : ℕ

pub data Leaf : Type 0 where
  canceled deadline_exceeded : Leaf
  eof unexpected_eof econnreset econnaborted econnrefused epipe : Leaf
  api_error auth_error not_found_error validation_error forbidden_error : ApiError → Leaf
  rate_limit_error session_limit_error : ApiError → Leaf
  other : Leaf

pub data Err : Type 0 where
  leaf : Leaf → Option Bool → Err
  login_error : Err → Err
  uncertain_error : Err → Err
  wrapped : Option Bool → Err → Err

-- The end of the chain, which `errors.Is(err, X)` and `errors.As` compare last.
abbrev pub leaf_of : Err → Leaf
leaf_of (leaf l t) = l
leaf_of (login_error e) = leaf_of e
leaf_of (uncertain_error e) = leaf_of e
leaf_of (wrapped t e) = leaf_of e

-- `errors.As(err, &netErr) && netErr.Timeout()`: the outermost `net.Error` answers.
abbrev pub is_timeout : Err → Bool
is_timeout (leaf l none) = false
is_timeout (leaf l (some t)) = t
is_timeout (login_error e) = is_timeout e
is_timeout (uncertain_error e) = is_timeout e
is_timeout (wrapped none e) = is_timeout e
is_timeout (wrapped (some t) e) = t

-- `errors.As(err, &loginErr)`
abbrev pub is_login : Err → Bool
is_login (leaf l t) = false
is_login (login_error e) = true
is_login (uncertain_error e) = is_login e
is_login (wrapped t e) = is_login e

-- `errors.Is(err, context.Canceled) || errors.Is(err, context.DeadlineExceeded)`
abbrev pub is_context_end : Leaf → Bool
is_context_end canceled = true
is_context_end deadline_exceeded = true
is_context_end _ = false

abbrev pub is_session_limit : Leaf → Bool
is_session_limit (session_limit_error e) = true
is_session_limit _ = false

abbrev pub is_rate_limit : Leaf → Bool
is_rate_limit (rate_limit_error e) = true
is_rate_limit _ = false

abbrev pub is_auth : Leaf → Bool
is_auth (auth_error e) = true
is_auth _ = false

-- `errors.As(err, &apiErr)` for an `*APIError`
abbrev pub as_api_error : Leaf → Option ApiError
as_api_error (api_error e) = some e
as_api_error _ = none

-- The connection ended with the request on its way: EOF, ECONNRESET, ECONNABORTED or EPIPE.
abbrev pub is_dropped : Leaf → Bool
is_dropped eof = true
is_dropped unexpected_eof = true
is_dropped econnreset = true
is_dropped econnaborted = true
is_dropped epipe = true
is_dropped _ = false

abbrev pub is_refused : Leaf → Bool
is_refused econnrefused = true
is_refused _ = false

abbrev pub seats_exceeded_key : String
seats_exceeded_key = "api_seats_exceeded"

unfoldable pub classify_error : ApiError → Leaf
classify_error e =
    if e.status_code == 401
    then auth_error e
    else if e.status_code == 404
    then not_found_error e
    else if e.status_code == 400
    then validation_error e
    else if e.status_code == 403
    then forbidden_error e
    else if e.status_code == 429
    then (if str_eq e.key seats_exceeded_key then session_limit_error e else rate_limit_error e)
    else api_error e

-- Whether a failed request may have been processed. A nil error is `none`; `live` says that the
-- context had not ended when the request began.
unfoldable pub may_have_applied : Option Err → Bool → Bool
may_have_applied none live = false
may_have_applied (some err) live =
    if is_login err || is_refused (leaf_of err)
    then false
    else if is_context_end (leaf_of err)
    then live
    else if is_dropped (leaf_of err)
    then true
    else is_timeout err
