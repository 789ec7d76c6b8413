-- ===== src/Client.antt =====
-- internal/pihole/client.go and internal/pihole/auth.go: one API request with its session, over
-- the retry loop. The network is a parameter: `post_auth` and `exchange` stand for sending the
-- built request and getting the reply, and a `Response` holds what net/http and encoding/json make
-- of it. The mutex `c.mu` makes `ensureAuth` and `handleAuthRetry` atomic, so each is one function
-- on the session.
pub mod Delivery
pub mod Sessions
use Prim.Native.String.{◌++◌}
use mathlib.Core.Option
use pihole_mcp.Prelude.{
  ℕ, String, Bool, true, false, ◌&&◌, Option, none, some, ◌==◌, leb, str_eq, not, if◌then◌else◌,
}
use pihole_mcp.Errors.{
  ApiError, Leaf, Err, leaf, login_error, uncertain_error, wrapped, auth_error, leaf_of, is_auth,
  classify_error, may_have_applied,
}
use pihole_mcp.Retry.{Calls, RetryPolicy, with_retry, idempotent_method}

-- The error object of an error body, if it decodes.
pub record Envelope : Type 0 where
  pub key : String
  pub message : String
  pub hint : String

-- The session object of a login reply.
pub record SessionInfo : Type 0 where
  pub valid : Bool
  pub message : String
  pub sid : String

pub record Response : Type 0 where
  pub status : ℕ
  pub retry_after : ℕ
  -- why the body could not be read
  pub read_error : Option Err
  pub envelope : Option Envelope
  -- why a wanted result could not be decoded
  pub decode_error : Option Err
  -- the decoded session of a login, or why it could not be decoded
  pub session : Option SessionInfo
  pub session_error : Err

pub data Reply : Type 0 where
  build_failed : Err → Reply
  transport_failed : Err → Reply
  replied : Response → Reply

pub record Network (W : Type 0) : Type 0 where
  pub post_auth : W → Reply × W
  -- the method, the path and the session id
  pub exchange : String → String → String → W → Reply × W
  pub rand_int64 : ℕ → W → ℕ × W
  pub wait : ℕ → W → Bool × W
  -- what `fmt.Sprintf("HTTP %d", n)` prints
  pub http_text : ℕ → String

-- The session id of the client, "" before a login, and the world.
pub record State (W : Type 0) : Type 0 where
  pub sid : String
  pub world : W

pub data AuthResult : Type 0 where
  authed : String → AuthResult
  not_authed : Err → AuthResult

-- The error body's fields over those of a body that does not decode.
unfoldable pub with_envelope : ApiError → Option Envelope → ApiError
with_envelope e none = e
with_envelope e (some v) =
    if str_eq v.key "" then e else record e { key = v.key; message = v.message; hint = v.hint }

unfoldable pub parse_error : (ℕ → String) → ℕ → String → Response → Leaf
parse_error http_text status path r =
    let unknown : ApiError = record {
      status_code = status;
      key = "unknown";
      message = http_text status;
      hint = "";
      endpoint = path;
      retry_after = r.retry_after;
    } in
    classify_error (with_envelope unknown r.envelope)

-- `doRequest` from the reply on
unfoldable pub do_request : (ℕ → String) → String → Reply → Option Err
do_request http_text path (build_failed e) = some e
do_request http_text path (transport_failed e) = some (wrapped none e)
do_request http_text path (replied r) = if r.status == 204 then none else elim r.read_error [
  | some e ↦ some (wrapped none e)
  | none ↦
      if leb 400 r.status
      then some (leaf (parse_error http_text r.status path r) none)
      else Option.map (wrapped none) r.decode_error
]

-- The message of a refused login: that of the session object, if there is one.
abbrev pub refusal : ApiError → Option SessionInfo → ApiError
refusal e none = record e { message = "authentication failed: " ++ e.message }
refusal e (some s) = record e {
  message = "authentication failed: " ++ (if str_eq s.message "" then e.message else s.message);
}

abbrev pub login_refused : Leaf → Option SessionInfo → Err
login_refused (auth_error e) session = leaf (auth_error (refusal e session)) none
login_refused l session = login_error (leaf l none)

-- `login` from the reply on: the new session id, or the error.
unfoldable pub login_result : (ℕ → String) → Reply → AuthResult
login_result http_text (build_failed e) = not_authed (wrapped none e)
login_result http_text (transport_failed e) = not_authed (login_error (wrapped none e))
login_result http_text (replied r) = elim r.read_error [
  | some e ↦ not_authed (login_error (wrapped none e))
  | none ↦
      if not (r.status == 200)
      then not_authed (login_refused (parse_error http_text r.status "/api/auth" r) r.session)
      else elim r.session [
        | none ↦ not_authed (wrapped none r.session_error)
        | some s ↦
            if s.valid
            then authed s.sid
            else not_authed (
                leaf
                  (auth_error (record {
                    status_code = 401;
                    key = "unauthorized";
                    message = "authentication failed: " ++ s.message;
                    hint = "";
                    endpoint = "/api/auth";
                    retry_after = 0;
                  }))
                  none)
      ]
]

module _ {W : Type 0} (net : Network W) where
  abbrev pub store_login : String → AuthResult → W → AuthResult × State W
  store_login old (authed sid) w = (authed sid, record { sid = sid; world = w })
  store_login old (not_authed e) w = (not_authed e, record { sid = old; world = w })

  unfoldable pub login : State W → AuthResult × State W
  unfolding login_result
  login s =
      let (reply, w) = net.post_auth s.world in
      store_login s.sid (login_result net.http_text reply) w

  unfoldable pub ensure_auth : State W → AuthResult × State W
  ensure_auth s = if not (str_eq s.sid "") then (authed s.sid, s) else login s

  unfoldable pub handle_auth_retry : String → State W → AuthResult × State W
  handle_auth_retry old_sid s =
      if not (str_eq s.sid old_sid) then (authed s.sid, s) else login (record s { sid = "" })

  unfoldable pub send_request : String → String → String → State W → Option Err × State W
  unfolding do_request
  send_request method path sid s =
      let (reply, w) = net.exchange method path sid s.world in
      (do_request net.http_text path reply, record s { world = w })

  -- The function that `do` hands to the retry loop: log in if needed, send, and after a 401 log in
  -- again and send once more.
  abbrev pub resend : String → String → AuthResult × State W → Option Err × State W
  resend method path (authed sid, s) = send_request method path sid s
  resend method path (not_authed e, s) = (some e, s)

  abbrev pub after_send : String → String → String → Option Err × State W → Option Err × State W
  after_send method path sid (none, s) = (none, s)
  after_send method path sid (some e, s) =
      if is_auth (leaf_of e) then resend method path (handle_auth_retry sid s) else (some e, s)

  abbrev pub after_auth : String → String → AuthResult × State W → Option Err × State W
  after_auth method path (authed sid, s) =
      after_send method path sid (send_request method path sid s)
  after_auth method path (not_authed e, s) = (some e, s)

  unfoldable pub do_once : String → String → State W → Option Err × State W
  do_once method path s = after_auth method path (ensure_auth s)

  abbrev pub calls : String → String → Calls (State W)
  calls method path = record {
    request = do_once method path;
    rand_int64 =
        λ n s. ((net.rand_int64 n s.world).0, record s { world = (net.rand_int64 n s.world).1 });
    wait = λ d s. ((net.wait d s.world).0, record s { world = (net.wait d s.world).1 });
  }

  -- `do`
  unfoldable pub do_retried :
      RetryPolicy → String → String → State W → Option (Option Err × State W)
  do_retried policy method path s =
      with_retry (calls method path) policy (idempotent_method method) s

  abbrev pub report : String → Bool → Option Err → Option Err
  report method live none = none
  report method live (some e) =
      if not (idempotent_method method) && may_have_applied (some e) live
      then some (uncertain_error e)
      else some e

  -- `Do`; `live` is `ctx.Err() == nil` on entry.
  unfoldable pub do_api :
      RetryPolicy → Bool → String → String → State W → Option (Option Err × State W)
  do_api policy live method path s =
      Option.map (λ r. (report method live r.0, r.1)) (do_retried policy method path s)
