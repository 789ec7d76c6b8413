-- ===== src/Client/Delivery.antt =====
-- How often a request of internal/pihole/client.go reaches Pi-hole and is processed there.
use pihole_mcp.Prelude.{
  ℕ, suc, ◌≤◌, String, ◌≡◌, refl, ◌∙◌, ◌⊎◌, inl, inr, true, false, Option, none, some, arith,
  Bool-cases, ◌==◌, leb,
}
use pihole_mcp.Errors.{Err, leaf_of, is_login, is_auth, is_rate_limit, classify_error, ApiError}
use pihole_mcp.Retry.{RetryPolicy, retryable, with_retry, sleep_backoff, idempotent_method}
use pihole_mcp.Retry.Loop.{with_retry_from-end}
use pihole_mcp.Client.{
  Envelope, with_envelope, Response, Reply, build_failed, transport_failed, replied, Network, State,
  AuthResult, authed, not_authed, parse_error, do_request, login, ensure_auth, handle_auth_retry,
  send_request, resend, after_send, after_auth, do_once, calls, do_retried, store_login,
  login_result,
}

-- An error of net/http or encoding/json: it wraps none of this program's.
abbrev pub IsForeign : Err → Type 0
IsForeign e =
    (is_login e ≡ false) × (is_auth (leaf_of e) ≡ false) × (is_rate_limit (leaf_of e) ≡ false)

abbrev pub IsForeignReply : Reply → Type 0
IsForeignReply (build_failed e) = IsForeign e
IsForeignReply (transport_failed e) = IsForeign e
IsForeignReply (replied r) =
    ((e : Err) → r.read_error ≡ some e → IsForeign e)
    × ((e : Err) → r.decode_error ≡ some e → IsForeign e)

-- A reply by which Pi-hole rejects a request before it processes it.
abbrev pub IsRejection : Reply → Type 0
IsRejection (replied r) = (r.status ≡ 401) ⊎ (r.status ≡ 429)
IsRejection _ = ⊥

-- `applied` counts the requests that Pi-hole has processed: one at most for each exchange, none for
-- a rejected one, and none while logging in or waiting.
pub record CountsApplied {W : Type 0} (net : Network W) (applied : W → ℕ) : Type 0 where
  pub foreign :
      (method path sid : String) (w : W) → IsForeignReply (net.exchange method path sid w).0
  pub at_most_one :
      (method path sid : String) (w : W)
      → applied (net.exchange method path sid w).1 ≤ suc (applied w)
  pub rejected :
      (method path sid : String) (w : W)
      → IsRejection (net.exchange method path sid w).0
      → applied (net.exchange method path sid w).1 ≡ applied w
  pub auth_applies_nothing : (w : W) → applied (net.post_auth w).1 ≡ applied w
  pub rand_applies_nothing : (n : ℕ) (w : W) → applied (net.rand_int64 n w).1 ≡ applied w
  pub wait_applies_nothing : (d : ℕ) (w : W) → applied (net.wait d w).1 ≡ applied w

-- An error that a rejection alone can cause
abbrev IsRejected : Option Err → Type 0
IsRejected none = ⊥
IsRejected (some e) =
    (is_auth (leaf_of e) ≡ true) ⊎ (is_rate_limit (leaf_of e) ≡ true) ⊎ (is_login e ≡ true)

retryable-IsRejected : (err : Err) → retryable err false ≡ true → IsRejected (some err)
unfolding retryable
retryable-IsRejected err h = ground arith

status_of_auth :
    (e : ApiError)
    → (is_auth (classify_error e) ≡ true) ⊎ (is_rate_limit (classify_error e) ≡ true)
    → (e.status_code ≡ 401) ⊎ (e.status_code ≡ 429)
unfolding classify_error
status_of_auth e h = ground arith

status-with_envelope :
    (e : ApiError) (v : Option Envelope) → (with_envelope e v).status_code ≡ e.status_code
unfolding with_envelope
status-with_envelope e none = refl
status-with_envelope e (some v) = ground arith

status_of_parse_error :
    (http_text : ℕ → String) (status : ℕ) (path : String) (r : Response)
    → (is_auth (parse_error http_text status path r) ≡ true)
      ⊎ (is_rate_limit (parse_error http_text status path r) ≡ true)
    → (status ≡ 401) ⊎ (status ≡ 429)
unfolding parse_error
status_of_parse_error http_text status path r h =
    rw (status-with_envelope _ r.envelope) at (status_of_auth _ h)

do_request-IsRejection :
    (http_text : ℕ → String) (path : String) (reply : Reply)
    → IsForeignReply reply
    → IsRejected (do_request http_text path reply)
    → IsRejection reply
unfolding do_request
do_request-IsRejection http_text path (build_failed e) f h = ground arith
do_request-IsRejection http_text path (transport_failed e) f h = ground arith
do_request-IsRejection http_text path (replied r) f h =
    go r.read_error refl r.decode_error refl (Bool-cases (r.status == 204))
      (Bool-cases (leb 400 r.status))
  where
    go :
        (re : Option Err)
        → r.read_error ≡ re
        → (de : Option Err) → r.decode_error ≡ de
        → (r.status == 204 ≡ true) ⊎ (r.status == 204 ≡ false)
        → (leb 400 r.status ≡ true) ⊎ (leb 400 r.status ≡ false)
        → (r.status ≡ 401) ⊎ (r.status ≡ 429)
    go re e1 de e2 (inl a) b = ground arith
    go (some e) e1 de e2 (inr a) b = ground (arith, f.0 e e1)
    go none e1 de e2 (inr a) (inl b) =
        ground (arith, status_of_parse_error http_text r.status path r)
    go none e1 none e2 (inr a) (inr b) = ground arith
    go none e1 (some e) e2 (inr a) (inr b) = ground (arith, f.1 e e2)

module _ {W : Type 0} (net : Network W) (applied : W → ℕ) (counts : CountsApplied net applied) where
  -- What one step of the client does to the count.
  record Step (w : W) (r : Option Err × State W) : Type 0 where
    most : applied r.1.world ≤ suc (applied w)
    none_if_rejected : IsRejected r.0 → applied r.1.world ≡ applied w

  send_request-Step :
      (method path sid : String) (s : State W) → Step s.world (send_request net method path sid s)
  unfolding send_request
  send_request-Step method path sid s = record {
    most = counts.at_most_one method path sid s.world;
    none_if_rejected = λ h.
        counts.rejected method path sid s.world
          (do_request-IsRejection net.http_text path _ (counts.foreign method path sid s.world) h);
  }

  applied-login : (s : State W) → applied (login net s).1.world ≡ applied s.world
  unfolding login
  applied-login s = go (login_result net.http_text (net.post_auth s.world).0)
    where
      go :
          (a : AuthResult)
          → applied (store_login net s.sid a (net.post_auth s.world).1).1.world ≡ applied s.world
      go (authed sid) = counts.auth_applies_nothing s.world
      go (not_authed e) = counts.auth_applies_nothing s.world

  applied-ensure_auth : (s : State W) → applied (ensure_auth net s).1.world ≡ applied s.world
  unfolding ensure_auth
  applied-ensure_auth s = ground (arith, applied-login s)

  applied-handle_auth_retry :
      (old : String) (s : State W) → applied (handle_auth_retry net old s).1.world ≡ applied s.world
  unfolding handle_auth_retry
  applied-handle_auth_retry old s = ground (arith, applied-login (record s { sid = "" }))

  resend-Step :
      (method path : String) (w : W) (a : AuthResult × State W)
      → applied a.1.world ≡ applied w
      → Step w (resend net method path a)
  resend-Step method path w (authed sid, s) h =
      let r = send_request-Step method path sid s in
      record { most = omega (arith, r.most); none_if_rejected = λ k. r.none_if_rejected k ∙ h }
  resend-Step method path w (not_authed e, s) h = record {
    most = omega arith;
    none_if_rejected = λ k. h;
  }

  after_send-Step :
      (method path sid : String) (w : W) (r : Option Err × State W)
      → Step w r
      → Step w (after_send net method path sid r)
  after_send-Step method path sid w (none, s) h = h
  after_send-Step method path sid w (some e, s) h = elim (Bool-cases (is_auth (leaf_of e))) [
    | inl a ↦ rw a (
        resend-Step method path w (handle_auth_retry net sid s)
          (applied-handle_auth_retry sid s ∙ h.none_if_rejected (inl a)))
    | inr a ↦ rw a h
  ]

  after_auth-Step :
      (method path : String) (w : W) (a : AuthResult × State W)
      → applied a.1.world ≡ applied w
      → Step w (after_auth net method path a)
  after_auth-Step method path w (authed sid, s) h =
      let r = send_request-Step method path sid s in
      after_send-Step method path sid w (send_request net method path sid s)
        (record { most = omega (arith, r.most); none_if_rejected = λ k. r.none_if_rejected k ∙ h })
  after_auth-Step method path w (not_authed e, s) h = record {
    most = omega arith;
    none_if_rejected = λ k. h;
  }

  do_once-Step : (method path : String) (s : State W) → Step s.world (do_once net method path s)
  unfolding do_once
  do_once-Step method path s =
      after_auth-Step method path s.world (ensure_auth net s) (applied-ensure_auth s)

  applied-sleep :
      (method path : String) (attempt max_delay : ℕ) (err : Err) (s : State W)
      → applied (sleep_backoff (calls net method path) attempt max_delay err s).1.world
        ≡ applied s.world
  unfolding sleep_backoff
  applied-sleep method path attempt max_delay err s =
      counts.wait_applies_nothing _ _ ∙ counts.rand_applies_nothing _ _

-- A request that changes something is processed by Pi-hole at most once, however often the client
-- logs in again, retries and resends it, if Pi-hole processes nothing that it answers with 401 or
-- 429 and processes each other exchange at most once.
pub applied_at_most_once :
    {W : Type 0} (net : Network W) (applied : W → ℕ) (policy : RetryPolicy) (method path : String)
    (s s' : State W) (res : Option Err)
    → CountsApplied net applied
    → idempotent_method method ≡ false
    → do_retried net policy method path s ≡ some (res, s')
    → applied s'.world ≤ suc (applied s.world)
unfolding do_retried with_retry
applied_at_most_once net applied policy method path s s' res counts m h =
    with_retry_from-end (calls net method path) policy false
      (λ t. applied t.world ≡ applied s.world) (λ t. applied t.world ≤ suc (applied s.world))
      (λ a err t p. applied-sleep net applied counts method path a policy.max_delay err t ∙ p)
      (λ a err t q.
        omega (arith, applied-sleep net applied counts method path a policy.max_delay err t))
      (λ t p. omega (arith, (do_once-Step net applied counts method path t).most))
      (λ t err p e r.
        (do_once-Step net applied counts method path t).none_if_rejected
          (rw e (retryable-IsRejected err r))
        ∙ p)
      (suc policy.max_retries) 0 s s' res refl (rw (← m) h)
