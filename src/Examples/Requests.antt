-- ===== src/Examples/Requests.antt =====
-- The client of internal/pihole/client.go against a Pi-hole that has dropped its session.
use pihole_mcp.Prelude.{
  ℕ, suc, ◌+◌, ◌≤◌, ◌≡◌, ◌≢◌, refl, String, inl, inr, Bool, true, false, none, some, [], ◌∷◌, arith,
  str_eq, str-eq_iff,
}
use pihole_mcp.Errors.{leaf, wrapped, other, classify_error}
use pihole_mcp.Retry.{RetryPolicy, with_retry, with_retry_from, retry_round, idempotent_method}
use pihole_mcp.Client.{
  Response, Reply, replied, build_failed, Network, State, authed, not_authed, handle_auth_retry,
  ensure_auth, login, do_retried, do_once, send_request, parse_error, with_envelope,
}
use pihole_mcp.Client.Delivery.{CountsApplied, applied_at_most_once, IsRejection, IsForeignReply}
use pihole_mcp.Client.Sessions.{refresh_all, refresh_once}

abbrev answer : ℕ → Response
answer status = record {
  status = status;
  retry_after = 0;
  read_error = none;
  envelope = none;
  decode_error = none;
  session = some (record { valid = true; message = ""; sid = "good" });
  session_error = leaf other none;
}

abbrev policy : RetryPolicy
policy = record { max_retries = 3; max_delay = 8_000_000_000 }

abbrev session_checked : Bool → ℕ → Reply × ℕ
session_checked true w = (replied (answer 204), w + 1)
session_checked false w = (replied (answer 401), w)

-- The world counts the requests that were processed; only the session "good" is known.
abbrev pi_hole : Network ℕ
pi_hole = record {
  post_auth = λ w. (replied (answer 200), w);
  exchange = λ method path sid w. session_checked (str_eq sid "good") w;
  rand_int64 = λ n w. (0, w);
  wait = λ d w. (true, w);
  http_text = λ n. "HTTP";
}

foreign_checked : (b : Bool) (w : ℕ) → IsForeignReply (session_checked b w).0
foreign_checked true w = (λ e h. ground arith, λ e h. ground arith)
foreign_checked false w = (λ e h. ground arith, λ e h. ground arith)

one_checked : (b : Bool) (w : ℕ) → (session_checked b w).1 ≤ suc w
one_checked true w = omega arith
one_checked false w = omega arith

rejected_checked :
    (b : Bool) (w : ℕ) → IsRejection (session_checked b w).0 → (session_checked b w).1 ≡ w
rejected_checked true w (inl h) = ground arith
rejected_checked true w (inr h) = ground arith
rejected_checked false w h = refl

pi_hole-CountsApplied : CountsApplied pi_hole (λ w. w)
pi_hole-CountsApplied = record {
  foreign = λ method path sid w. foreign_checked (str_eq sid "good") w;
  at_most_one = λ method path sid w. one_checked (str_eq sid "good") w;
  rejected = λ method path sid w h. rejected_checked (str_eq sid "good") w h;
  auth_applies_nothing = λ w. refl;
  rand_applies_nothing = λ n w. refl;
  wait_applies_nothing = λ d w. refl;
}

abbrev stale : State ℕ
stale = record { sid = "stale"; world = 0 }

abbrev no_session : State ℕ
no_session = record { sid = ""; world = 0 }

abbrev fresh : State ℕ
fresh = record { sid = "good"; world = 0 }

differ : (x y : String) → str_eq x y ≡ false → x ≢ y
differ x y e = ground (arith, str-eq_iff x y)

posted_mutates : idempotent_method "POST" ≡ false
unfolding idempotent_method
posted_mutates = refl

first_login : ensure_auth pi_hole no_session ≡ (authed "good", fresh)
unfolding ensure_auth login
first_login = refl

-- A network whose requests cannot be built.
abbrev down : Network ℕ
down = record pi_hole { post_auth = λ w. (build_failed (leaf other none), w) }

refused_login :
    handle_auth_retry down "stale" stale ≡ (not_authed (wrapped none (leaf other none)), no_session)
unfolding handle_auth_retry login
refused_login = refl

posted :
    do_retried pi_hole policy "POST" "/groups" stale
    ≡ some (none, record { sid = "good"; world = 1 })
unfolding do_retried with_retry with_retry_from retry_round do_once ensure_auth send_request
    parse_error classify_error with_envelope handle_auth_retry login
posted = refl

applied_at_most_once_example : 1 ≤ suc 0
applied_at_most_once_example =
    applied_at_most_once pi_hole (λ w. w) policy "POST" "/groups" stale
      (record { sid = "good"; world = 1 }) none pi_hole-CountsApplied (posted_mutates) posted

refreshed : handle_auth_retry pi_hole "stale" stale ≡ (authed "good", fresh)
unfolding handle_auth_retry login
refreshed = refl

refresh_once_example :
    (refresh_all pi_hole ("" ∷ "stale" ∷ []) "stale" fresh ≡ fresh)
    × (handle_auth_retry pi_hole "stale" fresh ≡ (authed "good", fresh))
refresh_once_example =
    refresh_once pi_hole ("" ∷ "stale" ∷ []) "stale" "good" stale fresh refreshed
      (differ "good" "stale" refl)
