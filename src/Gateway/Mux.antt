-- ===== src/Gateway/Mux.antt =====
-- internal/handler/handler.go: the route table of the dashboard, as http.ServeMux reads it, and the
-- wrappers around it.
pub mod Routes
pub mod Safety
pub mod Confirm
pub mod Unique
pub mod Log
use cheshmhayash.Common.{
  ℕ, Bool, true, false, not, ◌&&◌, ◌||◌, String, List, [], ◌∷◌, ◌++◌, Option, none, some, is_some,
  ◌==◌, if◌then◌else◌,
}
use cheshmhayash.Common.Text.{◌<>◌}
use cheshmhayash.Json.{str, object}
use cheshmhayash.Http.{
  Request, Response, Body, write_json, http_error, write_status, with_header, url_path,
}
use cheshmhayash.Auth.{Authenticator, enabled, jwt_mode}
use cheshmhayash.Auth.Session.{Wire}
use cheshmhayash.Auth.Login
use cheshmhayash.Auth.Login.{Oauth, ParseHost, Fresh}
use cheshmhayash.Auth.Middleware.{Handler, Context, aborted, middleware}
use cheshmhayash.Gateway.{Manager, Coding}
use cheshmhayash.Gateway.Admin
use cheshmhayash.Gateway.Jsm
use cheshmhayash.Gateway.Jsm.{CacheView}

pub data Action : Type 0 where
  list_clusters ping ping_endpoint server_endpoint account_endpoint : Action
  reload lame_duck kick : Action
  overview overview_stream list_streams stream_info update_stream delete_stream purge_stream :
      Action
  list_consumers consumer_info delete_consumer : Action
  meta_stepdown stream_stepdown consumer_stepdown : Action
  healthz version : Action
  login callback logout me me_jwt : Action

pub data Segment : Type 0 where
  lit : String → Segment
  var : Segment

pub record Route : Type 0 where
  pub method : String
  pub pattern : List Segment
  pub action : Action

abbrev pub on : String → List Segment → Action → Route
on method pattern action = record { method = method; pattern = pattern; action = action }

abbrev cluster_path : String → List Segment → List Segment
cluster_path area rest = lit "api" ∷ lit area ∷ lit "clusters" ∷ var ∷ rest

-- admin.register
abbrev pub admin_routes : List Route
admin_routes =
    on "GET" (lit "api" ∷ lit "admin" ∷ lit "clusters" ∷ []) list_clusters
    ∷ on "GET" (cluster_path "admin" (lit "servers" ∷ [])) ping
    ∷ on "GET" (cluster_path "admin" (lit "servers" ∷ var ∷ [])) ping_endpoint
    ∷ on "GET" (cluster_path "admin" (lit "servers" ∷ var ∷ var ∷ [])) server_endpoint
    ∷ on "GET" (cluster_path "admin" (lit "accounts" ∷ var ∷ var ∷ [])) account_endpoint
    ∷ on "POST" (cluster_path "admin" (lit "servers" ∷ var ∷ lit "actions" ∷ lit "reload" ∷ []))
        reload
    ∷ on "POST" (cluster_path "admin" (lit "servers" ∷ var ∷ lit "actions" ∷ lit "lame-duck" ∷ []))
        lame_duck
    ∷ on "POST" (cluster_path "admin" (lit "servers" ∷ var ∷ lit "actions" ∷ lit "kick" ∷ [])) kick
    ∷ []

abbrev stream_path : List Segment → List Segment
stream_path rest = cluster_path "jsm" (lit "streams" ∷ var ∷ rest)

-- jsm.register
abbrev pub jsm_routes : List Route
jsm_routes =
    on "GET" (cluster_path "jsm" (lit "overview" ∷ [])) overview
    ∷ on "GET" (cluster_path "jsm" (lit "overview" ∷ lit "stream" ∷ [])) overview_stream
    ∷ on "GET" (cluster_path "jsm" (lit "streams" ∷ [])) list_streams
    ∷ on "GET" (stream_path []) stream_info
    ∷ on "PUT" (stream_path []) update_stream
    ∷ on "DELETE" (stream_path []) delete_stream
    ∷ on "POST" (stream_path (lit "purge" ∷ [])) purge_stream
    ∷ on "GET" (stream_path (lit "consumers" ∷ [])) list_consumers
    ∷ on "GET" (stream_path (lit "consumers" ∷ var ∷ [])) consumer_info
    ∷ on "DELETE" (stream_path (lit "consumers" ∷ var ∷ [])) delete_consumer
    ∷ on "POST" (cluster_path "jsm" (lit "actions" ∷ lit "meta-stepdown" ∷ [])) meta_stepdown
    ∷ on "POST" (stream_path (lit "actions" ∷ lit "stepdown" ∷ [])) stream_stepdown
    ∷ on "POST" (stream_path (lit "consumers" ∷ var ∷ lit "actions" ∷ lit "stepdown" ∷ []))
        consumer_stepdown
    ∷ []

abbrev auth_path : String → List Segment
auth_path name = lit "api" ∷ lit "auth" ∷ lit name ∷ []

abbrev pub jwt_routes : List Route
jwt_routes = on "GET" (auth_path "me") me_jwt ∷ []

abbrev pub oidc_routes : List Route
oidc_routes =
    on "GET" (auth_path "login") login
    ∷ on "GET" (auth_path "callback") callback
    ∷ on "POST" (auth_path "logout") logout
    ∷ on "GET" (auth_path "me") me
    ∷ []

-- Authenticator.Register
unfoldable pub auth_routes : Option Authenticator → List Route
auth_routes none = []
auth_routes (some a) =
    if a.cfg.enabled then (if jwt_mode a then jwt_routes else oidc_routes) else []

abbrev pub public_routes : List Route
public_routes =
    on "GET" (lit "healthz" ∷ []) healthz ∷ on "GET" (lit "api" ∷ lit "version" ∷ []) version ∷ []

unfoldable pub routes : Option Authenticator → List Route
routes authn = admin_routes ++ (jsm_routes ++ (public_routes ++ auth_routes authn))

-- http.ServeMux: a variable takes one segment that is not empty, and GET serves HEAD too.
unfoldable pub match : List Segment → List String → Option (List String)
match [] [] = some []
match [] (s ∷ ss) = none
match (p ∷ ps) [] = none
match (lit t ∷ ps) (s ∷ ss) = if t == s then match ps ss else none
match (var ∷ ps) (s ∷ ss) =
    if s == "" then none else elim (match ps ss) [ none ↦ none | some values ↦ some (s ∷ values) ]

abbrev pub serves : String → String → Bool
serves route method = route == method || (route == "GET" && method == "HEAD")

unfoldable pub select : List Route → String → List String → Option (Action × List String)
unfolding match
select [] method path = none
select (t ∷ ts) method path =
    let later = select ts method path in
    if serves t.method method
    then elim (match t.pattern path) [ some values ↦ some (t.action, values) | none ↦ later ]
    else later

-- What the handlers reach beside the request: the clusters, the cache, the clock, the coders, the
-- parts of the login flow, the build's version and the files of the SPA.
pub record World : Type 0 where
  pub clusters : Manager
  pub cache : CacheView
  pub now : ℕ
  pub coding : Coding
  pub wire : Wire
  pub oauth : Oauth
  pub parse_host : ParseHost
  pub fresh : Fresh
  pub version : String
  pub file : List String → Body

-- The answers of the login flow: the routes exist only behind an enabled authenticator.
unfoldable pub perform_auth : World → Option Authenticator → Action → Request → Response
perform_auth w none act r = aborted
perform_auth w (some a) login r = Login.handle_login w.wire a w.now w.oauth w.parse_host w.fresh r
perform_auth w (some a) callback r = Login.handle_callback w.wire a w.now w.oauth r
perform_auth w (some a) logout r = Login.handle_logout w.wire a w.now
perform_auth w (some a) me r = Login.handle_me w.wire a w.now r
perform_auth w (some a) me_jwt r = Login.handle_me_jwt w.wire a w.now r
perform_auth w (some a) _ r = aborted

-- The handler of a route, on the path's values in order.
unfoldable pub perform : World → Option Authenticator → Action → List String → Request → Response
unfolding perform_auth
perform w authn list_clusters [] r = Admin.list_clusters w.clusters
perform w authn ping (c ∷ []) r = Admin.ping w.clusters c
perform w authn ping_endpoint (c ∷ ep ∷ []) r = Admin.ping_endpoint w.clusters c ep
perform w authn server_endpoint (c ∷ id ∷ ep ∷ []) r = Admin.server_endpoint w.clusters c id ep
perform w authn account_endpoint (c ∷ acc ∷ ep ∷ []) r = Admin.account_endpoint w.clusters c acc ep
perform w authn reload (c ∷ id ∷ []) r = Admin.reload w.clusters c id
perform w authn lame_duck (c ∷ id ∷ []) r = Admin.lame_duck w.clusters c id
perform w authn kick (c ∷ id ∷ []) r = Admin.kick w.clusters w.coding c id r.body
perform w authn overview (c ∷ []) r = Jsm.overview w.clusters w.cache w.now r c
perform w authn overview_stream (c ∷ []) r = Jsm.overview_stream w.clusters w.cache c
perform w authn list_streams (c ∷ []) r = Jsm.list_streams w.clusters r c
perform w authn stream_info (c ∷ s ∷ []) r = Jsm.stream_info w.clusters c s
perform w authn update_stream (c ∷ s ∷ []) r = Jsm.update_stream w.clusters w.coding r c s
perform w authn delete_stream (c ∷ s ∷ []) r = Jsm.delete_stream w.clusters r c s
perform w authn purge_stream (c ∷ s ∷ []) r = Jsm.purge_stream w.clusters r c s
perform w authn list_consumers (c ∷ s ∷ []) r = Jsm.list_consumers w.clusters r c s
perform w authn consumer_info (c ∷ s ∷ k ∷ []) r = Jsm.consumer_info w.clusters c s k
perform w authn delete_consumer (c ∷ s ∷ k ∷ []) r = Jsm.delete_consumer w.clusters r c s k
perform w authn meta_stepdown (c ∷ []) r = Jsm.meta_stepdown w.clusters r c
perform w authn stream_stepdown (c ∷ s ∷ []) r = Jsm.stream_stepdown w.clusters r c s
perform w authn consumer_stepdown (c ∷ s ∷ k ∷ []) r = Jsm.consumer_stepdown w.clusters r c s k
perform w authn healthz [] r = write_status 204
perform w authn version [] r = write_json 200 (object (("version", str w.version) ∷ []))
perform w authn login [] r = perform_auth w authn login r
perform w authn callback [] r = perform_auth w authn callback r
perform w authn logout [] r = perform_auth w authn logout r
perform w authn me [] r = perform_auth w authn me r
perform w authn me_jwt [] r = perform_auth w authn me_jwt r
perform w authn _ _ r = aborted

-- spa: every other path is a file, or index.html.
unfoldable pub spa : World → Request → Response
spa w r =
    if r.method == "GET" || r.method == "HEAD"
    then record { status = 200; headers = []; cookies = []; body = w.file r.segments; calls = [] }
    else http_error 405 "method not allowed"

unfoldable pub serve_mux : World → Option Authenticator → Handler
unfolding select perform spa
serve_mux w authn ctx r = elim (select (routes authn) r.method r.segments) [
  | some (act, values) ↦ perform w authn act values r
  | none ↦ spa w r
]

-- cors answers OPTIONS itself.
unfoldable pub cors : Handler → Handler
unfolding write_status
cors next ctx r = with_header "Access-Control-Allow-Origin" "*" (
    with_header "Access-Control-Allow-Methods" "GET, POST, PUT, DELETE, OPTIONS" (
      with_header "Access-Control-Allow-Headers" "*"
        (if r.method == "OPTIONS" then write_status 204 else next ctx r)))

-- Mux: the gate stands in front when the authenticator is enabled.
unfoldable pub mux : World → Option Authenticator → Request → Response
unfolding serve_mux cors middleware
mux w authn r =
    cors
      (if enabled authn
        then middleware w.wire authn w.now (serve_mux w authn)
        else serve_mux w authn)
      none r
