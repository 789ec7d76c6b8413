-- ===== src/Client/Sessions.antt =====
-- The session of internal/pihole/auth.go: logging in once, and again after a 401.
use pihole_mcp.Prelude.{String, ◌≡◌, ◌≢◌, refl, ◌∙◌, ap, sym, arith, str-eq_iff, List, [], ◌∷◌}
use pihole_mcp.Errors.{Err}
use pihole_mcp.Client.{
  Network, State, AuthResult, authed, not_authed, login, login_result, store_login, ensure_auth,
  handle_auth_retry,
}

module _ {W : Type 0} (net : Network W) where
  login-sid : (s : State W) (k : String) → (login net s).0 ≡ authed k → (login net s).1.sid ≡ k
  unfolding login
  login-sid s k h = go (login_result net.http_text (net.post_auth s.world).0) h
    where
      go :
          (a : AuthResult)
          → (store_login net s.sid a (net.post_auth s.world).1).0 ≡ authed k
          → (store_login net s.sid a (net.post_auth s.world).1).1.sid ≡ k
      go (authed sid) e = cc
      go (not_authed err) e = cc

  login-sid_failed :
      (s : State W) (e : Err) → (login net s).0 ≡ not_authed e → (login net s).1.sid ≡ s.sid
  unfolding login
  login-sid_failed s e h = go (login_result net.http_text (net.post_auth s.world).0) h
    where
      go :
          (a : AuthResult)
          → (store_login net s.sid a (net.post_auth s.world).1).0 ≡ not_authed e
          → (store_login net s.sid a (net.post_auth s.world).1).1.sid ≡ s.sid
      go (authed sid) e = cc
      go (not_authed err) e = refl

  handle_auth_retry-sid :
      (old : String) (s : State W) (k : String)
      → (handle_auth_retry net old s).0 ≡ authed k
      → (handle_auth_retry net old s).1.sid ≡ k
  unfolding handle_auth_retry
  handle_auth_retry-sid old s k h = ground (arith, login-sid (record s { sid = "" }) k)

  -- Callers that all hold the stale session id `old`, one after the other, as the mutex lets them.
  abbrev pub refresh_all : List String → String → State W → State W
  refresh_all [] old s = s
  refresh_all (caller ∷ callers) old s = refresh_all callers old (handle_auth_retry net old s).1

  handle_auth_retry_fresh :
      (old : String) (s : State W) → s.sid ≢ old → handle_auth_retry net old s ≡ (authed s.sid, s)
  unfolding handle_auth_retry
  handle_auth_retry_fresh old s h = ground (arith, str-eq_iff s.sid old)

  refresh_all_fresh :
      (callers : List String) (old : String) (s : State W)
      → s.sid ≢ old
      → refresh_all callers old s ≡ s
  refresh_all_fresh [] old s h = refl
  refresh_all_fresh (c ∷ callers) old s h =
      rw (handle_auth_retry_fresh old s h) (refresh_all_fresh callers old s h)

  ensure_auth-sid :
      (s : State W) (k : String) → (ensure_auth net s).0 ≡ authed k → (ensure_auth net s).1.sid ≡ k
  unfolding ensure_auth
  ensure_auth-sid s k h = ground (arith, login-sid s k)

-- Of any number of requests that were answered 401 under the same session id, only the first logs
-- in again: once it has a new id, every later caller is given that id, and nothing else changes.
pub refresh_once :
    {W : Type 0} (net : Network W) (callers : List String) (old k : String) (s s' : State W)
    → handle_auth_retry net old s ≡ (authed k, s')
    → k ≢ old
    → (refresh_all net callers old s' ≡ s') × (handle_auth_retry net old s' ≡ (authed k, s'))
refresh_once net callers old k s s' h ne =
    let e : s'.sid ≡ k =
      ap (λ r. r.1.sid) (sym h) ∙ handle_auth_retry-sid net old s k (ap (λ r. r.0) h) in
    let fresh : s'.sid ≢ old = rw e ne in
    (
      refresh_all_fresh net callers old s' fresh,
      handle_auth_retry_fresh net old s' fresh ∙ ap (λ x. (authed x, s')) e,
    )

ensure_auth_fresh :
    {W : Type 0} (net : Network W) (s : State W)
    → s.sid ≢ ""
    → ensure_auth net s ≡ (authed s.sid, s)
unfolding ensure_auth
ensure_auth_fresh net s h = ground (arith, str-eq_iff s.sid "")

-- A session, once established, is used by the next request with no other login.
pub session_reuse :
    {W : Type 0} (net : Network W) (s s' : State W) (k : String)
    → ensure_auth net s ≡ (authed k, s')
    → k ≢ ""
    → ensure_auth net s' ≡ (authed k, s')
session_reuse net s s' k h ne =
    let e : s'.sid ≡ k = ap (λ r. r.1.sid) (sym h) ∙ ensure_auth-sid net s k (ap (λ r. r.0) h) in
    ensure_auth_fresh net s' (rw e ne) ∙ ap (λ x. (authed x, s')) e

-- A refresh that fails leaves no session, so that the next request logs in again.
pub failed_refresh_clears :
    {W : Type 0} (net : Network W) (old : String) (s s' : State W) (e : Err)
    → handle_auth_retry net old s ≡ (not_authed e, s')
    → (s'.sid ≡ "") × (ensure_auth net s' ≡ login net s')
unfolding ensure_auth handle_auth_retry
failed_refresh_clears net old s s' e h =
    let cleared : s'.sid ≡ "" = ground (arith, login-sid_failed net (record s { sid = "" }) e) in
    (cleared, rw cleared)
