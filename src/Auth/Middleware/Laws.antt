-- ===== src/Auth/Middleware/Laws.antt =====
-- Nobody reaches a gated handler without proof of who they are, and nobody writes unless an admin.
use mathlib.Core.Path.{subst}
use cheshmhayash.Common.{
  ℕ, ◌≡◌, refl, sym, ◌⊎◌, inl, inr, true, false, String, [], some, arith, Option-cases, Bool-cases,
}
use cheshmhayash.Http.{Request, Response, url_path}
use cheshmhayash.Auth.{
  SessionData, Role, read_only, admin, IdToken, Authenticator, Result, ok, jwt_mode,
}
use cheshmhayash.Auth.Access.{authorize}
use cheshmhayash.Auth.Session.{Wire, read_session}
use cheshmhayash.Auth.Session.Laws.{Result-cases}
use cheshmhayash.Auth.Claims.{session_from_id_token}
use cheshmhayash.Auth.Bearer.Laws.{bearer_from_request-granted, verify_bearer_sound}
use cheshmhayash.Auth.Bearer.{
  Outcome, granted, forbidden, rejected, panicked, bearer_token, bearer_from_request,
}
use cheshmhayash.Auth.Middleware.{
  Handler, Context, is_write_method, is_public, admit, jwt_gate, cookie_gate, middleware,
  write_bearer_error,
}

-- A refusal: 401, 403 or an aborted connection, and nothing asked of NATS.
abbrev pub IsRefusal : Response → Type 0
IsRefusal resp = ((resp.status ≡ 401) ⊎ (resp.status ≡ 403) ⊎ (resp.status ≡ 0)) × (resp.calls ≡ [])

-- The role lets the method through.
abbrev pub MayUse : Role → String → Type 0
MayUse role method = (role ≡ admin) ⊎ (is_write_method method ≡ false)

-- The request's bearer token is one that the provider verified, and holds the session.
abbrev pub HasToken : Authenticator → ℕ → Request → SessionData → Type 0
HasToken a now r s =
    (verify : String → Result IdToken) × (token : IdToken) × (a.jwt_verifier ≡ some verify)
    × (verify (bearer_token r.authorization) ≡ ok token)
    × (session_from_id_token a now token ≡ ok s)

-- The request's cookie reads as the session.
abbrev pub HasCookie : Wire → Authenticator → ℕ → Request → SessionData → Type 0
HasCookie w a now r s =
    (value : String) × (r.cookie a.cfg.session.cookie_name ≡ some value)
    × (read_session w (w.utf8 a.cfg.session.secret) now value ≡ ok s)

-- What proves a session in each mode, and its place on the allowlist.
abbrev pub Proves : Wire → Authenticator → ℕ → Request → SessionData → Role → Type 0
Proves w a now r s role =
    (((jwt_mode a ≡ true) × HasToken a now r s) ⊎ ((jwt_mode a ≡ false) × HasCookie w a now r s))
    × (authorize a.cfg.access s ≡ some role)

admit_cases :
    (next : Handler) (s : SessionData) (role : Role) (r : Request)
    → ((admit next s role r ≡ next (some (s, role)) r) × MayUse role r.method)
      ⊎ IsRefusal (admit next s role r)
unfolding admit
admit_cases next s admin r = inl (refl, inl refl)
admit_cases next s read_only r = ground arith

-- A gated request reaches the handler with a proved session whose role may use the method, or is
-- refused before the handler runs.
abbrev pub Gated : Wire → Authenticator → ℕ → Handler → Request → Response → Type 0
Gated w a now next r resp =
    ((s : SessionData) × (role : Role) × (resp ≡ next (some (s, role)) r)
      × Proves w a now r s role
      × MayUse role r.method)
    ⊎ IsRefusal resp

pub write_bearer_error-IsRefusal : (o : Outcome) → IsRefusal (write_bearer_error o)
unfolding write_bearer_error
write_bearer_error-IsRefusal (granted s role) = ground arith
write_bearer_error-IsRefusal forbidden = ground arith
write_bearer_error-IsRefusal (rejected e) = ground arith
write_bearer_error-IsRefusal panicked = ground arith

module _ (w : Wire) (a : Authenticator) (now : ℕ) (next : Handler) (r : Request) where
  bearer-Proves :
      jwt_mode a ≡ true
      → (s : SessionData) (role : Role) → bearer_from_request a now r ≡ granted s role
      → Proves w a now r s role
  bearer-Proves m s role e =
      let (_, verified) = bearer_from_request-granted a now r s role e in
      let (verify, present, g, _) =
        verify_bearer_sound a now (bearer_token r.authorization) s role verified in
      (inl (m, (verify, g.token, present, g.verified, g.session)), g.allowed)

  jwt_gate-Gated :
      jwt_mode a ≡ true
      → (o : Outcome) → bearer_from_request a now r ≡ o
      → Gated w a now next r (jwt_gate o next r)
  unfolding jwt_gate
  jwt_gate-Gated m (granted s role) e = elim (admit_cases next s role r) [
    | inl (same, may) ↦ inl (s, role, same, bearer-Proves m s role e, may)
    | inr refused ↦ inr refused
  ]
  jwt_gate-Gated m forbidden e = inr (write_bearer_error-IsRefusal forbidden)
  jwt_gate-Gated m (rejected why) e = inr (write_bearer_error-IsRefusal (rejected why))
  jwt_gate-Gated m panicked e = inr (write_bearer_error-IsRefusal panicked)

  cookie_gate-Gated : jwt_mode a ≡ false → Gated w a now next r (cookie_gate w a now next r)
  unfolding cookie_gate
  cookie_gate-Gated m = elim (Option-cases (r.cookie a.cfg.session.cookie_name)) [
    | inl e ↦ inr (ground arith)
    | inr (value, e) ↦
        elim (Result-cases (read_session w (w.utf8 a.cfg.session.secret) now value)) [
          | inl (why, e') ↦ inr (ground arith)
          | inr (s, e') ↦ elim (Option-cases (authorize a.cfg.access s)) [
            | inl e'' ↦ inr (ground arith)
            | inr (role, e'') ↦
                let reached : cookie_gate w a now next r ≡ admit next s role r = ground arith in
                rw reached (elim (admit_cases next s role r) [
                  | inl (same, may) ↦ inl (s, role, same, (inr (m, (value, e, e')), e''), may)
                  | inr refused ↦ inr refused
                ])
          ]
        ]
  ]

-- Behind an enabled authenticator, a request to a path that is not public reaches the handler only
-- with a session that the request proves, on the allowlist, whose role may use the method: an admin,
-- or a method that does not write. Any other such request gets 401, 403 or no answer, and nothing is
-- asked of NATS.
pub middleware-Gated :
    (w : Wire) (a : Authenticator) (now : ℕ) (next : Handler) (ctx : Context) (r : Request)
    → a.cfg.enabled ≡ true
    → is_public (url_path r.segments) ≡ false
    → Gated w a now next r (middleware w (some a) now next ctx r)
unfolding middleware
middleware-Gated w a now next ctx r on private = elim (Bool-cases (jwt_mode a)) [
  | inl m ↦
      let gate : middleware w (some a) now next ctx r
          ≡ jwt_gate (bearer_from_request a now r) next r =
        ground arith in
      subst (Gated w a now next r) (sym gate)
        (jwt_gate-Gated w a now next r m (bearer_from_request a now r) refl)
  | inr m ↦
      let gate : middleware w (some a) now next ctx r ≡ cookie_gate w a now next r = ground arith in
      subst (Gated w a now next r) (sym gate) (cookie_gate-Gated w a now next r m)
]
