-- ===== src/Auth/Middleware/Mcp.antt =====
-- The gate of /mcp: static keys, verified tokens, and tokens whose claims nobody has verified.
use mathlib.Core.Path.{subst}
use cheshmhayash.Common.{
  ℕ, ◌≡◌, refl, sym, ◌∙◌, ◌≢◌, ◌↔◌, ◌⊎◌, inl, inr, Bool, true, false, not, ◌&&◌, String, List, [],
  ◌∷◌, Option, none, some, arith, eq_iff, Bool-cases, is_empty, ◌==◌, Some,
}
use cheshmhayash.Http.{Request, Response}
use cheshmhayash.Auth.{SessionData, Role, Authenticator, mcp_oauth_enabled, mcp_jwt_enabled}
use cheshmhayash.Auth.Claims.{TokenText}
use cheshmhayash.Auth.Bearer.{
  Outcome, granted, forbidden, rejected, panicked, bearer_token, verify_mcp_token, mcp_jwt_session,
}
use cheshmhayash.Auth.Middleware.{
  Handler, Context, key_matches, KeyMatcher, mcp_middleware, try_oauth, try_jwt, unauthorized_mcp,
}
use cheshmhayash.Auth.Middleware.Laws.{IsRefusal}

abbrev pub IsOpen : List KeyMatcher → Option Authenticator → Type 0
IsOpen keys a = (keys ≡ []) × (mcp_oauth_enabled a ≡ false) × (mcp_jwt_enabled a ≡ false)

-- A token that /mcp lets through, and the session that the handler then sees: a static key and no
-- session, a verified token's session, or the session of a token that nobody has verified.
pub data Passes (t : TokenText) (a : Option Authenticator) (now : ℕ) (keys : List KeyMatcher)
    (token : String) (ctx : Context) : Context → Type 0 where
  key : Some (λ k. token ≡ k.value) keys → Passes t a now keys token ctx ctx
  oauth :
      (b : Authenticator) (s : SessionData) (role : Role)
      → a ≡ some b
      → mcp_oauth_enabled a ≡ true
      → verify_mcp_token b now token ≡ granted s role
      → Passes t a now keys token ctx (some (s, role))
  unverified :
      (b : Authenticator) (s : SessionData) (role : Role)
      → a ≡ some b
      → mcp_jwt_enabled a ≡ true
      → mcp_jwt_session t b token ≡ granted s role
      → Passes t a now keys token ctx (some (s, role))

key_matches_iff :
    (keys : List KeyMatcher) (token : String)
    → (key_matches keys token ≡ true) ↔ Some (λ k. token ≡ k.value) keys
unfolding key_matches
key_matches_iff [] token = ground arith
key_matches_iff (k ∷ ks) token = ground (arith, eq_iff token k.value, key_matches_iff ks token)

unauthorized-IsRefusal :
    (a : Option Authenticator) (url : String) → IsRefusal (unauthorized_mcp a url)
unfolding unauthorized_mcp
unauthorized-IsRefusal a url = ground arith

module _ (t : TokenText) (url : String) (now : ℕ) (keys : List KeyMatcher) (next : Handler)
    (ctx : Context) (r : Request) where
  abbrev pub Reaches : Option Authenticator → Response → Type 0
  Reaches a resp =
      ((c : Context) × Passes t a now keys (bearer_token r.authorization) ctx c × (resp ≡ next c r))
      ⊎ IsRefusal resp

  try_jwt-Reaches :
      (a : Option Authenticator) → Reaches a (try_jwt t a url (bearer_token r.authorization) next r)
  unfolding try_jwt
  try_jwt-Reaches none = inr (ground arith)
  try_jwt-Reaches (some a) = elim (Bool-cases (mcp_jwt_enabled (some a))) [
    | inl on ↦ go on (mcp_jwt_session t a (bearer_token r.authorization)) refl
    | inr off ↦ inr (ground arith)
  ]
    where
      go :
          mcp_jwt_enabled (some a) ≡ true
          → (o : Outcome) → mcp_jwt_session t a (bearer_token r.authorization) ≡ o
          → Reaches (some a) (try_jwt t (some a) url (bearer_token r.authorization) next r)
      go on (granted s role) e =
          inl (some (s, role), Passes.unverified a s role refl on e, ground arith)
      go on forbidden e = inr (ground arith)
      go on (rejected why) e = inr (ground arith)
      go on panicked e = inr (ground arith)

  try_oauth-Reaches :
      (a : Option Authenticator)
      → Reaches a (try_oauth t a url now (bearer_token r.authorization) next r)
  unfolding try_oauth
  try_oauth-Reaches none = inr (ground arith)
  try_oauth-Reaches (some a) = elim (Bool-cases (mcp_oauth_enabled (some a))) [
    | inl on ↦ go on (verify_mcp_token a now (bearer_token r.authorization)) refl
    | inr off ↦ fall (ground arith)
  ]
    where
      fall :
          try_oauth t (some a) url now (bearer_token r.authorization) next r
            ≡ try_jwt t (some a) url (bearer_token r.authorization) next r
          → Reaches (some a) (try_oauth t (some a) url now (bearer_token r.authorization) next r)
      fall e = subst (Reaches (some a)) (sym e) (try_jwt-Reaches (some a))

      go :
          mcp_oauth_enabled (some a) ≡ true
          → (o : Outcome) → verify_mcp_token a now (bearer_token r.authorization) ≡ o
          → Reaches (some a) (try_oauth t (some a) url now (bearer_token r.authorization) next r)
      go on (granted s role) e = inl (some (s, role), Passes.oauth a s role refl on e, ground arith)
      go on forbidden e = fall (ground arith)
      go on (rejected why) e = fall (ground arith)
      go on panicked e = inr (ground arith)

abbrev is_open : List KeyMatcher → Option Authenticator → Bool
is_open keys a = is_empty keys && not (mcp_oauth_enabled a) && not (mcp_jwt_enabled a)

is_open_iff :
    (keys : List KeyMatcher) (a : Option Authenticator) → (is_open keys a ≡ true) ↔ IsOpen keys a
is_open_iff [] a = ground arith
is_open_iff (k ∷ ks) a = ground arith

-- /mcp is open to everybody exactly when no key is configured and both token paths are off.
-- Otherwise a request reaches the handler only with a nonempty header that is not its own token,
-- and whose token passes: as a static key, as a verified token of an allowed session, or as an
-- unverified one of an allowed session when the operator trusts a gateway. Every other request is
-- refused with nothing asked of NATS.
pub mcp_middleware-Reaches :
    (t : TokenText) (a : Option Authenticator) (url : String) (now : ℕ) (keys : List KeyMatcher)
    (next : Handler) (ctx : Context) (r : Request)
    → (IsOpen keys a × (mcp_middleware t a url now keys next ctx r ≡ next ctx r))
      ⊎ (¬ IsOpen keys a
          × (r.authorization ≢ "")
          × (bearer_token r.authorization ≢ r.authorization)
          × Reaches t url now keys next ctx r a (mcp_middleware t a url now keys next ctx r))
      ⊎ (¬ IsOpen keys a × IsRefusal (mcp_middleware t a url now keys next ctx r))
unfolding mcp_middleware
mcp_middleware-Reaches t a url now keys next ctx r = elim (Bool-cases (is_open keys a)) [
  | inl o ↦ inl ((is_open_iff keys a).0 o, ground arith)
  | inr c ↦ elim (Bool-cases (hdr == "")) [
    | inl bare ↦ inr (inr (shut c, refused (ground arith)))
    | inr full ↦ elim (Bool-cases (token == hdr)) [
      | inl plain ↦ inr (inr (shut c, refused (ground arith)))
      | inr scheme ↦ inr (
          inl (
            shut c,
            ground (arith, eq_iff hdr ""),
            ground (arith, eq_iff token hdr),
            elim (Bool-cases (key_matches keys token)) [
              | inl k ↦ inl (ctx, Passes.key ((key_matches_iff keys token).0 k), ground arith)
              | inr other ↦
                  subst (Reaches t url now keys next ctx r a) (sym (ground arith))
                    (try_oauth-Reaches t url now keys next ctx r a)
            ],
          ))
    ]
  ]
]
  where
    hdr : String
    hdr = r.authorization

    token : String
    token = bearer_token hdr

    shut : is_open keys a ≡ false → ¬ IsOpen keys a
    shut c o = cc (sym c ∙ (is_open_iff keys a).1 o)

    refused :
        mcp_middleware t a url now keys next ctx r ≡ unauthorized_mcp a url
        → IsRefusal (mcp_middleware t a url now keys next ctx r)
    refused e = subst IsRefusal (sym e) (unauthorized-IsRefusal a url)
