-- ===== src/Auth/Login/Laws.antt =====
-- The login flow: no step of it asks NATS anything, and only a login that the identity provider has
-- confirmed sets a session cookie.
use mathlib.Core.Path.{subst}
use cheshmhayash.Common.{
  ℕ, ◌≡◌, refl, ap, sym, ◌∙◌, ◌⊎◌, inl, inr, ◌||◌, String, [], Option, none, some, All, arith,
  eq_iff, Bool-cases, Option-cases, ◌==◌,
}
use cheshmhayash.Http.{Request, Response, with_cookie, write_json, http_error, write_status}
use cheshmhayash.Auth.{SessionData, Role, IdToken, Authenticator, ok}
use cheshmhayash.Auth.Access.{authorize}
use cheshmhayash.Auth.Session.{Wire, FlowData, read_flow}
use cheshmhayash.Auth.Session.Laws.{Result-cases}
use cheshmhayash.Auth.Claims.{session_from_id_token}
use cheshmhayash.Auth.Login.{
  Oauth, ParseHost, Fresh, handle_login, callback_error, finish_login, redeem, resume,
  handle_callback, handle_logout, handle_me, handle_me_jwt, session_cookie, redirect, clear_flow,
  flow_cookie_name,
}

module _ (w : Wire) (a : Authenticator) (now : ℕ) where
  pub handle_login-calls :
      (o : Oauth) (p : ParseHost) (f : Fresh) (r : Request)
      → (handle_login w a now o p f r).calls ≡ []
  unfolding handle_login write_status
  handle_login-calls o p f r = refl

  finish_login-calls :
      (flow : FlowData) (tok : IdToken) → (finish_login w a now flow tok).calls ≡ []
  unfolding finish_login callback_error http_error write_status
  finish_login-calls flow tok = ground arith

  redeem-calls :
      (o : Oauth) (flow : FlowData) (code : String) → (redeem w a now o flow code).calls ≡ []
  unfolding redeem callback_error http_error
  redeem-calls o flow code = elim (Result-cases (o.exchange code flow.verifier)) [
    | inl (m, e) ↦ ground arith
    | inr (none, e) ↦ ground arith
    | inr (some raw, e) ↦ elim (Result-cases (a.verifier raw)) [
      | inl (m, e') ↦ ground arith
      | inr (tok, e') ↦ ground (arith, finish_login-calls flow tok)
    ]
  ]

  resume-calls :
      (o : Oauth) (code state : String) (c : Option String)
      → (resume w a now o code state c).calls ≡ []
  unfolding resume callback_error http_error
  resume-calls o code state none = refl
  resume-calls o code state (some value) =
      elim (Result-cases (read_flow w (w.utf8 a.cfg.session.secret) now value)) [
        | inl (m, e) ↦ ground arith
        | inr (flow, e) ↦ ground (arith, redeem-calls o flow code)
      ]

  pub handle_callback-calls : (o : Oauth) (r : Request) → (handle_callback w a now o r).calls ≡ []
  unfolding handle_callback callback_error http_error
  handle_callback-calls o r =
      ground (arith, resume-calls o (r.query "code") (r.query "state") (r.cookie flow_cookie_name))

  pub handle_logout-calls : (handle_logout w a now).calls ≡ []
  unfolding handle_logout write_json
  handle_logout-calls = refl

  pub handle_me-calls : (r : Request) → (handle_me w a now r).calls ≡ []
  unfolding handle_me write_json
  handle_me-calls r = ground arith

  pub handle_me_jwt-calls : (r : Request) → (handle_me_jwt w a now r).calls ≡ []
  unfolding handle_me_jwt write_json
  handle_me_jwt-calls r = ground arith

-- What stands behind a login: a flow that this server signed, whose state the callback repeats, a
-- code that the provider exchanged, and a verified ID token with the flow's nonce, for a person on
-- the allowlist.
pub record IsLogin (w : Wire) (a : Authenticator) (now : ℕ) (o : Oauth) (r : Request)
    (flow : FlowData) (session : SessionData) : Type 0 where
  pub value : String
  pub cookie : r.cookie flow_cookie_name ≡ some value
  pub signed : read_flow w (w.utf8 a.cfg.session.secret) now value ≡ ok flow
  pub state : flow.state ≡ r.query "state"
  pub raw : String
  pub exchanged : o.exchange (r.query "code") flow.verifier ≡ ok (some raw)
  pub token : IdToken
  pub verified : a.verifier raw ≡ ok token
  pub nonce : token.nonce ≡ flow.nonce
  pub claims : session_from_id_token a now token ≡ ok session
  pub role : Role
  pub allowed : authorize a.cfg.access session ≡ some role

-- A refused login: 400 or 403, and no cookie but emptied ones.
abbrev pub IsTurnedAway : Response → Type 0
IsTurnedAway resp =
    ((resp.status ≡ 400) ⊎ (resp.status ≡ 403)) × All (λ c. c.value ≡ "") resp.cookies

module _ (w : Wire) (a : Authenticator) (now : ℕ) where
  abbrev LoggedIn : FlowData → SessionData → Response
  LoggedIn flow s = with_cookie (session_cookie w a now s) (redirect flow.return_to)

  finish_login-cases :
      (flow : FlowData) (tok : IdToken)
      → ((s : SessionData) × (role : Role) × (tok.nonce ≡ flow.nonce)
          × (session_from_id_token a now tok ≡ ok s)
          × (authorize a.cfg.access s ≡ some role)
          × (finish_login w a now flow tok ≡ LoggedIn flow s))
        ⊎ IsTurnedAway (finish_login w a now flow tok)
  unfolding finish_login callback_error http_error write_status
  finish_login-cases flow tok = elim (Bool-cases (tok.nonce == flow.nonce)) [
    | inr e ↦ inr (ground arith)
    | inl e ↦ elim (Result-cases (session_from_id_token a now tok)) [
      | inl (m, e') ↦ inr (ground arith)
      | inr (s, e') ↦ elim (Option-cases (authorize a.cfg.access s)) [
        | inl e'' ↦ inr (ground arith)
        | inr (role, e'') ↦ inl (s, role, (eq_iff _ _).0 e, e', e'', ground arith)
      ]
    ]
  ]

  redeem-cases :
      (o : Oauth) (flow : FlowData) (code : String)
      → ((raw : String) × (tok : IdToken) × (o.exchange code flow.verifier ≡ ok (some raw))
          × (a.verifier raw ≡ ok tok)
          × (redeem w a now o flow code ≡ finish_login w a now flow tok))
        ⊎ IsTurnedAway (redeem w a now o flow code)
  unfolding redeem callback_error http_error
  redeem-cases o flow code = elim (Result-cases (o.exchange code flow.verifier)) [
    | inl (m, e) ↦ inr (ground arith)
    | inr (none, e) ↦ inr (ground arith)
    | inr (some raw, e) ↦ elim (Bool-cases (raw == "")) [
      | inl blank ↦ inr (ground arith)
      | inr filled ↦ elim (Result-cases (a.verifier raw)) [
        | inl (m, e') ↦ inr (ground arith)
        | inr (tok, e') ↦ inl (raw, tok, e, e', ground arith)
      ]
    ]
  ]

  IsTurnedAway-clear_flow :
      (resp : Response) → IsTurnedAway resp → IsTurnedAway (clear_flow w a now resp)
  IsTurnedAway-clear_flow resp (h, k) = (h, (refl, k))

  abbrev Answers : Oauth → Request → Response → Type 0
  Answers o r resp =
      ((flow : FlowData) × (s : SessionData) × IsLogin w a now o r flow s
        × (resp ≡ clear_flow w a now (LoggedIn flow s)))
      ⊎ IsTurnedAway resp

  -- A flow that the cookie holds and whose state matches, redeemed.
  matched-Answers :
      (o : Oauth) (r : Request) (value : String) (flow : FlowData)
      → r.cookie flow_cookie_name ≡ some value
      → read_flow w (w.utf8 a.cfg.session.secret) now value ≡ ok flow
      → flow.state ≡ r.query "state"
      → Answers o r (clear_flow w a now (redeem w a now o flow (r.query "code")))
  matched-Answers o r value flow c f st = elim (redeem-cases o flow (r.query "code")) [
    | inr away ↦ inr (IsTurnedAway-clear_flow (redeem w a now o flow (r.query "code")) away)
    | inl (raw, tok, ex, v, e) ↦ elim (finish_login-cases flow tok) [
      | inr away ↦ inr (rw e (IsTurnedAway-clear_flow (finish_login w a now flow tok) away))
      | inl (s, role, n, cl, al, e') ↦ inl (
        flow,
        s,
        record {
          value = value;
          cookie = c;
          signed = f;
          state = st;
          raw = raw;
          exchanged = ex;
          token = tok;
          verified = v;
          nonce = n;
          claims = cl;
          role = role;
          allowed = al;
        },
        ap (clear_flow w a now) (e ∙ e'),
      )
    ]
  ]

  resume-Answers :
      (o : Oauth) (r : Request) (c : Option String)
      → r.cookie flow_cookie_name ≡ c
      → Answers o r (resume w a now o (r.query "code") (r.query "state") c)
  unfolding resume callback_error http_error
  resume-Answers o r none e = inr (ground arith)
  resume-Answers o r (some value) e =
      elim (Result-cases (read_flow w (w.utf8 a.cfg.session.secret) now value)) [
        | inl (m, f) ↦ inr (ground arith)
        | inr (flow, f) ↦ elim (Bool-cases (flow.state == r.query "state")) [
          | inr differs ↦ inr (ground arith)
          | inl same ↦
              let reached : resume w a now o (r.query "code") (r.query "state") (some value)
                  ≡ clear_flow w a now (redeem w a now o flow (r.query "code")) =
                ground arith in
              subst (Answers o r) (sym reached)
                (matched-Answers o r value flow e f ((eq_iff _ _).0 same))
        ]
      ]

  -- The callback logs a person in only when the request carries a flow that this server signed and
  -- that has not expired, repeats its state, its code was exchanged for an ID token that the
  -- provider verified and that has the flow's nonce, and the session of the token is on the
  -- allowlist: the answer is then the redirect to the flow's return_to with the session's cookie,
  -- and the flow's cookie cleared. Any other callback gets 400 or 403, and no cookie but empty ones.
  pub handle_callback_sound :
      (o : Oauth) (r : Request)
      → ((flow : FlowData) × (s : SessionData) × IsLogin w a now o r flow s
          × (handle_callback w a now o r
              ≡ clear_flow w a now
                  (with_cookie (session_cookie w a now s) (redirect flow.return_to))))
        ⊎ IsTurnedAway (handle_callback w a now o r)
  unfolding handle_callback callback_error http_error
  handle_callback_sound o r = elim (Bool-cases (r.query "error" == "")) [
    | inr failed ↦ inr (ground arith)
    | inl fine ↦ elim (Bool-cases (r.query "code" == "" || r.query "state" == "")) [
      | inl missing ↦ inr (ground arith)
      | inr there ↦
          let reached : handle_callback w a now o r
              ≡ resume w a now o (r.query "code") (r.query "state") (r.cookie flow_cookie_name) =
            ground arith in
          subst (Answers o r) (sym reached) (resume-Answers o r (r.cookie flow_cookie_name) refl)
    ]
  ]
