-- ===== src/Tests/Witnesses.antt =====
-- Each theorem at a concrete input.
use cheshmhayash.Common.{
  ℕ, wrap64, pos, ◌≡◌, refl, ◌≢◌, ◌↔◌, ◌⊎◌, inl, inr, true, false, String, List, [], ◌∷◌, Option,
  none, some, ◌==◌, if◌then◌else◌,
}
use cheshmhayash.Json.{Fields, end, field, str, lookup}
use cheshmhayash.Http.{Request, url_path, with_cookie}
use cheshmhayash.Config.{rule_is_empty, ttl}
use cheshmhayash.Config.Validate.{validate}
use cheshmhayash.Config.Validate.Laws.{IsValid, validate-eq-none_iff}
use cheshmhayash.Natsx.{is_server_endpoint}
use cheshmhayash.Auth.{SessionData, admin, read_only, Result, ok, err, IdToken, Authenticator}
use cheshmhayash.Auth.Access.{authorize}
use cheshmhayash.Auth.Access.Laws.{Satisfies, admin_rule, base_rule, NoRule, authorize_iff}
use cheshmhayash.Auth.Session.{FlowData, sign_session, read_session}
use cheshmhayash.Auth.Session.Laws.{IsSigned, IsLive, read_session-sign_session, read_session_sound}
use cheshmhayash.Auth.Claims.{claim_name, extract_groups, groups_from_claims, session_from_id_token}
use cheshmhayash.Auth.Claims.Laws.{extract_groups-groups_from_claims}
use cheshmhayash.Auth.Bearer.{granted, verify_bearer, verify_mcp_token, bearer_token}
use cheshmhayash.Auth.Bearer.Laws.{IsGranted, Shares, verify_bearer_sound, verify_mcp_token_sound}
use cheshmhayash.Auth.Middleware.{Handler, is_public, middleware, mcp_middleware}
use cheshmhayash.Auth.Middleware.Laws.{Gated, IsRefusal, middleware-Gated}
use cheshmhayash.Auth.Middleware.Mcp.{IsOpen, Reaches, mcp_middleware-Reaches}
use cheshmhayash.Auth.Login.{
  sanitize_return_to, handle_callback, session_cookie, redirect, clear_flow,
}
use cheshmhayash.Auth.Login.Laws.{IsLogin, IsTurnedAway, handle_callback_sound}
use cheshmhayash.Auth.Login.Redirect.{IsLocal, sanitize_return_to-IsLocal}
use cheshmhayash.Gateway.Laws.{Asks}
use cheshmhayash.Gateway.Mux.{serve_mux, mux}
use cheshmhayash.Common.{Some, inl, inr}
use cheshmhayash.Gateway.Mux
use cheshmhayash.Gateway.Mux.{Route, on, lit, var, match, select, routes}
use cheshmhayash.Gateway.Mux.Unique.{select_complete}
use cheshmhayash.Gateway.Mux.Safety.{IsSafe, mux-IsSafe}
use cheshmhayash.Gateway.Mux.Confirm.{Spares, mux-Spares}
use cheshmhayash.Tests.Coding.{wire, wire-IsWire}
use cheshmhayash.Tests.Server.{
  settings, authenticator, oauth, world, request, stream_path, boss, text_of_tokens, keys,
  parse_host,
}

abbrev delete_request : Request
delete_request = request "DELETE" stream_path

mux-IsSafe_example :
    IsSafe wire
      (authenticator "jwt")
      5_000_000_000
      delete_request
      (mux world (some (authenticator "jwt")) delete_request).calls
mux-IsSafe_example = mux-IsSafe world (authenticator "jwt") delete_request refl

mux-Spares_example : Asks Spares (mux world (some (authenticator "jwt")) delete_request)
mux-Spares_example = mux-Spares world (some (authenticator "jwt")) delete_request refl

stream_path-private : is_public (url_path stream_path) ≡ false
unfolding is_public url_path
stream_path-private = refl

middleware-Gated_example :
    Gated wire
      (authenticator "jwt")
      5_000_000_000
      (serve_mux world (some (authenticator "jwt")))
      delete_request
      (middleware wire
        (some (authenticator "jwt"))
        5_000_000_000
        (serve_mux world (some (authenticator "jwt")))
        none
        delete_request)
middleware-Gated_example =
    middleware-Gated wire (authenticator "jwt") 5_000_000_000
      (serve_mux world (some (authenticator "jwt"))) none delete_request refl stream_path-private

authorize_iff_example :
    ((authorize (authenticator "oidc").cfg.access boss ≡ some admin) ↔ (
      Satisfies boss (admin_rule (authenticator "oidc").cfg.access)
      ⊎ (NoRule (authenticator "oidc").cfg.access.admin
          × Satisfies boss (base_rule (authenticator "oidc").cfg.access))))
    × ((authorize (authenticator "oidc").cfg.access boss ≡ some read_only) ↔ (
        Satisfies boss (base_rule (authenticator "oidc").cfg.access)
        × ¬ Satisfies boss (admin_rule (authenticator "oidc").cfg.access)
        × ¬ NoRule (authenticator "oidc").cfg.access.admin))
    × ((authorize (authenticator "oidc").cfg.access boss ≡ none) ↔ (
        ¬ Satisfies boss (base_rule (authenticator "oidc").cfg.access)
        × ¬ Satisfies boss (admin_rule (authenticator "oidc").cfg.access)))
authorize_iff_example = authorize_iff (authenticator "oidc").cfg.access boss

abbrev callback_request : Request
callback_request = record (request "GET" ("api" ∷ "auth" ∷ "callback" ∷ [])) {
  query = λ key. if key == "error" then "" else "s";
}

handle_callback_sound_example :
    ((flow : FlowData) × (s : SessionData) × IsLogin wire
        (authenticator "oidc")
        5
        oauth
        callback_request
        flow
        s
      × (handle_callback wire (authenticator "oidc") 5 oauth callback_request
          ≡ clear_flow wire (authenticator "oidc") 5 (
              with_cookie
                (session_cookie wire (authenticator "oidc") 5 s)
                (redirect flow.return_to))))
    ⊎ IsTurnedAway (handle_callback wire (authenticator "oidc") 5 oauth callback_request)
handle_callback_sound_example =
    handle_callback_sound wire (authenticator "oidc") 5 oauth callback_request

abbrev key : List ℕ
key = 1 ∷ 2 ∷ []

abbrev lasting : SessionData
lasting = record boss { exp = pos 0 }

read_session-sign_session_example :
    (IsLive 5 lasting.exp × (read_session wire key 5 (sign_session wire key lasting) ≡ ok lasting))
    ⊎ ((¬ IsLive 5 lasting.exp)
        × (read_session wire key 5 (sign_session wire key lasting) ≡ err "session expired"))
read_session-sign_session_example = read_session-sign_session wire wire-IsWire key 5 lasting

lasting_read : read_session wire key 5 (sign_session wire key lasting) ≡ ok lasting
lasting_read = elim (read_session-sign_session wire wire-IsWire key 5 lasting) [
  | inl (_, e) ↦ e
  | inr (over, _) ↦ absurd (over (inl refl))
]

abbrev late_flow : FlowData
late_flow = record { state = "s"; nonce = "n"; verifier = "v"; return_to = "/"; exp = pos 2 }

read_session_sound_example :
    (payload : List ℕ) × IsSigned wire key (sign_session wire key lasting) payload
    × (wire.unmarshal_session payload ≡ some lasting)
    × IsLive 5 lasting.exp
read_session_sound_example =
    read_session_sound wire key 5 (sign_session wire key lasting) lasting lasting_read

boss_granted : verify_bearer (authenticator "jwt") 5_000_000_000 "good" ≡ granted boss admin
unfolding verify_bearer authorize session_from_id_token rule_is_empty ttl wrap64
boss_granted = refl

verify_bearer_sound_example :
    (v : String → Result IdToken) × ((authenticator "jwt").jwt_verifier ≡ some v)
    × (g : IsGranted (authenticator "jwt") 5_000_000_000 v "good" boss admin) × (((authenticator
            "jwt").jwt_audiences
          ≡ [])
        ⊎ Shares g.token.audience (authenticator "jwt").jwt_audiences)
verify_bearer_sound_example =
    verify_bearer_sound (authenticator "jwt") 5_000_000_000 "good" boss admin boss_granted

boss_granted_mcp : verify_mcp_token (authenticator "oidc") 5_000_000_000 "good" ≡ granted boss admin
unfolding verify_mcp_token authorize session_from_id_token rule_is_empty ttl wrap64
boss_granted_mcp = refl

verify_mcp_token_sound_example :
    (v : String → Result IdToken) × ((authenticator "oidc").mcp_verifier ≡ some v)
    × (g : IsGranted (authenticator "oidc") 5_000_000_000 v "good" boss admin) × (((authenticator
            "oidc").cfg.mcp_oauth.skip_audience_check
          ≡ true)
        ⊎ Shares g.token.audience (authenticator "oidc").mcp_audiences)
verify_mcp_token_sound_example =
    verify_mcp_token_sound (authenticator "oidc") 5_000_000_000 "good" boss admin boss_granted_mcp

abbrev a_server : Option Authenticator
a_server = some (authenticator "oidc")

abbrev mcp_url : String
mcp_url = "https://nats.example.org/.well-known/oauth-protected-resource/mcp"

abbrev mcp_request : Request
mcp_request = request "POST" ("mcp" ∷ [])

abbrev behind : Handler
behind = serve_mux world a_server

mcp_middleware-Reaches_example :
    (IsOpen keys a_server
      × (mcp_middleware text_of_tokens a_server mcp_url 5 keys behind none mcp_request
          ≡ behind none mcp_request))
    ⊎ (¬ IsOpen keys a_server
        × (mcp_request.authorization ≢ "")
        × (bearer_token mcp_request.authorization ≢ mcp_request.authorization)
        × Reaches text_of_tokens mcp_url 5 keys behind none mcp_request a_server
            (mcp_middleware text_of_tokens a_server mcp_url 5 keys behind none mcp_request))
    ⊎ (¬ IsOpen keys a_server
        × IsRefusal (mcp_middleware text_of_tokens a_server mcp_url 5 keys behind none mcp_request))
mcp_middleware-Reaches_example =
    mcp_middleware-Reaches text_of_tokens a_server mcp_url 5 keys behind none mcp_request

validate-eq-none_iff_example : (validate settings ≡ none) ↔ IsValid settings
validate-eq-none_iff_example = validate-eq-none_iff settings

connz_is_endpoint : is_server_endpoint "connz" ≡ true
unfolding is_server_endpoint
connz_is_endpoint = refl

sanitize_return_to-IsLocal_example :
    IsLocal (sanitize_return_to parse_host "/streams")
    × ((sanitize_return_to parse_host "/streams" ≡ "/")
        ⊎ ((sanitize_return_to parse_host "/streams" ≡ "/streams")
            × (parse_host "/streams" ≡ some "")))
sanitize_return_to-IsLocal_example = sanitize_return_to-IsLocal parse_host "/streams"

abbrev blank_groups : Fields
blank_groups = field "groups" (str "") end

extract_groups-groups_from_claims_example :
    (lookup (claim_name "") blank_groups ≢ some (str "")
      → extract_groups blank_groups "" ≡ groups_from_claims blank_groups "")
    × (lookup (claim_name "") blank_groups ≡ some (str "")
        → (extract_groups blank_groups "" ≡ "" ∷ []) × (groups_from_claims blank_groups "" ≡ []))
extract_groups-groups_from_claims_example = extract_groups-groups_from_claims blank_groups ""

abbrev delete_route : Route
delete_route =
    on "DELETE" (lit "api" ∷ lit "jsm" ∷ lit "clusters" ∷ var ∷ lit "streams" ∷ var ∷ [])
      Mux.delete_stream

delete_route-listed : Some (λ t. t ≡ delete_route) (routes none)
unfolding routes
delete_route-listed =
    inr (inr (inr (inr (inr (inr (inr (inr (inr (inr (inr (inr (inr (inl refl)))))))))))))

delete_route-matches : match delete_route.pattern stream_path ≡ some ("main" ∷ "orders" ∷ [])
unfolding match
delete_route-matches = refl

select_complete_example :
    select (routes none) "DELETE" stream_path ≡ some (Mux.delete_stream, "main" ∷ "orders" ∷ [])
select_complete_example =
    select_complete none delete_route "DELETE" stream_path ("main" ∷ "orders" ∷ [])
      delete_route-listed refl delete_route-matches
