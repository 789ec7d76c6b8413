-- ===== src/Auth/Access.antt =====
-- internal/middleware/auth.go: who is served.
use pihole_mcp.Prelude.{
  String, ◌≡◌, ◌≢◌, refl, Bool, true, false, Option, none, some, ◌↔◌, inl, inr, str_eq, str-eq_iff,
  arith, Bool-cases,
}
use pihole_mcp.Auth.{
  Crypto, served, bearer_token, new_bearer_auth, matches, rejection, reject_with, reject,
  check_token, authenticate,
}

-- Equal digests compare as equal, and no other text has the token's digest.
abbrev pub IsDigestOf : {D : Type 0} → Crypto D → String → Type 0
IsDigestOf crypto token =
    (text : String)
    → crypto.same_digest (crypto.sha256 text) (crypto.sha256 token) ≡ str_eq text token

rejection-unserved : (under : Bool) (reason : String) → rejection under reason ≢ served
rejection-unserved true reason = ground arith
rejection-unserved false reason = ground arith

rejected :
    {W : Type 0} (charge : Option (W → Bool × W)) (w : W) (reason : String)
    → (reject_with charge w reason).0 ≢ served
rejected none w reason = ground arith
rejected (some charge) w reason = rejection-unserved (charge w).0 reason

not_empty : (token : String) → token ≢ "" → str_eq token "" ≡ false
not_empty token ne = ground (arith, str-eq_iff token "")

module _ {D W : Type 0} (crypto : Crypto D) where
  checked :
      (token : String) (charge : Option (W → Bool × W)) (w : W) (presented : Option String)
      → IsDigestOf crypto token
      → ((check_token crypto
            (record { want = crypto.sha256 token; penalise = charge })
            w
            presented).0
          ≡ served)
        ↔ (presented ≡ some token)
  unfolding matches reject
  checked token charge w none h =
      let no = rejected charge w "missing bearer token in the Authorization header" in
      (λ e. ground arith, λ e. ground arith)
  checked token charge w (some t) h = elim (Bool-cases (str_eq t token)) [
    | inl e ↦ rw (h t, e) (λ x. rw ((str-eq_iff t token).0 e) refl, λ x. refl)
    | inr e ↦
        let no = rejected charge w "invalid bearer token" in
        rw (h t, e) (λ x. ground arith, λ x. ground (arith, str-eq_iff t token))
  ]

  -- With a token configured whose digest no other text has, a request is served exactly if its
  -- Authorization header bears that token, whatever the penalty has counted.
  pub served_iff_token :
      (token : String) (charge : Option (W → Bool × W)) (w : W) (header : String)
      → IsDigestOf crypto token
      → token ≢ ""
      → ((authenticate crypto (new_bearer_auth crypto token charge) w header).0 ≡ served)
        ↔ (bearer_token crypto header ≡ some token)
  unfolding authenticate new_bearer_auth
  served_iff_token token charge w header h ne =
      rw (not_empty token ne) (checked token charge w (bearer_token crypto header) h)
