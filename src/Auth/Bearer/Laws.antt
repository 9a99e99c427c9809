-- ===== src/Auth/Bearer/Laws.antt =====
-- What a bearer token has shown when it is granted a role.
use cheshmhayash.Common.{
  ℕ, ◌≡◌, ◌≢◌, ◌↔◌, ◌⊎◌, inl, inr, true, String, List, [], ◌∷◌, some, arith, eq_iff, Option-cases,
  Some, any_iff,
}
use cheshmhayash.Common.Text.{mem}
use cheshmhayash.Http.{Request}
use cheshmhayash.Auth.{SessionData, Role, IdToken, Authenticator, Result, ok}
use cheshmhayash.Auth.Access.{authorize}
use cheshmhayash.Auth.Session.Laws.{Result-cases}
use cheshmhayash.Auth.Claims.{session_from_id_token, TokenText, decode_unverified_jwt}
use cheshmhayash.Auth.Bearer.{
  granted, audience_matches, accept_bearer, verify_bearer, accept_mcp_token, verify_mcp_token,
  mcp_jwt_session, bearer_token, bearer_from_request,
}

-- The two lists have a text in common.
abbrev pub Shares : List String → List String → Type 0
Shares have want = Some (λ h. Some (λ x. x ≡ h) want) have

mem_iff : (want : List String) (h : String) → (mem want h ≡ true) ↔ Some (λ x. x ≡ h) want
unfolding mem
mem_iff [] h = ground arith
mem_iff (x ∷ xs) h = ground (arith, eq_iff x h, mem_iff xs h)

pub audience_matches_iff :
    (have want : List String) → (audience_matches have want ≡ true) ↔ Shares have want
unfolding audience_matches
audience_matches_iff have want =
    any_iff (λ h. mem want h) (λ h. Some (λ x. x ≡ h) want) (mem_iff want) have

-- The verified token's session is on the allowlist at this role.
pub record IsGranted (a : Authenticator) (now : ℕ) (verify : String → Result IdToken) (raw : String)
    (s : SessionData) (role : Role) : Type 0 where
  pub token : IdToken
  pub verified : verify raw ≡ ok token
  pub session : session_from_id_token a now token ≡ ok s
  pub allowed : authorize a.cfg.access s ≡ some role

module _ (a : Authenticator) (now : ℕ) (raw : String) (s : SessionData) (role : Role) where
  accept_bearer-granted :
      (tok : IdToken)
      → accept_bearer a now tok ≡ granted s role
      → ((a.jwt_audiences ≡ []) ⊎ Shares tok.audience a.jwt_audiences)
        × (session_from_id_token a now tok ≡ ok s)
        × (authorize a.cfg.access s ≡ some role)
  unfolding accept_bearer
  accept_bearer-granted tok h = (
    ground (arith, audience_matches_iff tok.audience a.jwt_audiences),
    ground arith,
    ground arith,
  )

  -- In jwt mode a token is granted a role only when the provider has verified it, its audience is
  -- accepted if audiences are configured, and its session is on the allowlist at that role.
  pub verify_bearer_sound :
      verify_bearer a now raw ≡ granted s role
      → (verify : String → Result IdToken) × (a.jwt_verifier ≡ some verify)
        × (g : IsGranted a now verify raw s role) × ((a.jwt_audiences ≡ [])
            ⊎ Shares g.token.audience a.jwt_audiences)
  unfolding verify_bearer
  verify_bearer_sound h = elim (Option-cases a.jwt_verifier) [
    | inl e ↦ ground arith
    | inr (verify, e) ↦ elim (Result-cases (verify raw)) [
      | inl (m, e') ↦ ground arith
      | inr (tok, e') ↦
          let accepted : accept_bearer a now tok ≡ granted s role = ground arith in
          let (audience, session, allowed) = accept_bearer-granted tok accepted in
          (
            verify,
            e,
            record { token = tok; verified = e'; session = session; allowed = allowed },
            audience,
          )
    ]
  ]

  accept_mcp_token-granted :
      (tok : IdToken)
      → accept_mcp_token a now tok ≡ granted s role
      → ((a.cfg.mcp_oauth.skip_audience_check ≡ true) ⊎ Shares tok.audience a.mcp_audiences)
        × (session_from_id_token a now tok ≡ ok s)
        × (authorize a.cfg.access s ≡ some role)
  unfolding accept_mcp_token
  accept_mcp_token-granted tok h = (
    ground (arith, audience_matches_iff tok.audience a.mcp_audiences),
    ground arith,
    ground arith,
  )

  -- At /mcp a token is granted a role only when the provider has verified it, its audience is
  -- accepted or the operator has waived that check, and its session is on the allowlist.
  pub verify_mcp_token_sound :
      verify_mcp_token a now raw ≡ granted s role
      → (verify : String → Result IdToken) × (a.mcp_verifier ≡ some verify)
        × (g : IsGranted a now verify raw s role) × ((a.cfg.mcp_oauth.skip_audience_check ≡ true)
            ⊎ Shares g.token.audience a.mcp_audiences)
  unfolding verify_mcp_token
  verify_mcp_token_sound h = elim (Option-cases a.mcp_verifier) [
    | inl e ↦ ground arith
    | inr (verify, e) ↦ elim (Result-cases (verify raw)) [
      | inl (m, e') ↦ ground arith
      | inr (tok, e') ↦
          let accepted : accept_mcp_token a now tok ≡ granted s role = ground arith in
          let (audience, session, allowed) = accept_mcp_token-granted tok accepted in
          (
            verify,
            e,
            record { token = tok; verified = e'; session = session; allowed = allowed },
            audience,
          )
    ]
  ]

  pub mcp_jwt_session_sound :
      (t : TokenText)
      → mcp_jwt_session t a raw ≡ granted s role
      → (decode_unverified_jwt t a raw ≡ ok s) × (authorize a.cfg.access s ≡ some role)
  unfolding mcp_jwt_session
  mcp_jwt_session_sound t h = (ground arith, ground arith)

-- A request's bearer token is granted a role only when the header is `Bearer` and a nonempty
-- token that `verify_bearer` grants it to.
pub bearer_from_request-granted :
    (a : Authenticator) (now : ℕ) (r : Request) (s : SessionData) (role : Role)
    → bearer_from_request a now r ≡ granted s role
    → (bearer_token r.authorization ≢ "")
      × (verify_bearer a now (bearer_token r.authorization) ≡ granted s role)
unfolding bearer_from_request
bearer_from_request-granted a now r s role h =
    (ground (arith, eq_iff (bearer_token r.authorization) ""), ground arith)
