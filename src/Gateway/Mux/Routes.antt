-- ===== src/Gateway/Mux/Routes.antt =====
-- What is known of the route that the mux selects: its method, its place in the table, and what
-- its action may ask.
use Prim.Native.String.{[], ◌∷◌}
use cheshmhayash.Common.{
  ◌≡◌, refl, ap, ◌⊎◌, inl, inr, Bool, true, false, not, ◌&&◌, ◌||◌, String, List, [], ◌∷◌, Option,
  none, some, All, arith, eq_iff, Bool-cases, Option-cases, ◌==◌,
}
use cheshmhayash.Common.Text.{◌<>◌, has_prefix}
use cheshmhayash.Http.{url_path}
use cheshmhayash.Auth.{Authenticator}
use cheshmhayash.Auth.Middleware.{is_write_method, is_public}
use cheshmhayash.Gateway.Mux
use cheshmhayash.Gateway.Mux.{
  Action, Segment, lit, var, Route, match, serves, select, routes, auth_routes,
}

-- The actions that change a server or a stream.
unfoldable pub writes : Action → Bool
writes Mux.reload = true
writes Mux.lame_duck = true
writes Mux.kick = true
writes Mux.update_stream = true
writes Mux.delete_stream = true
writes Mux.purge_stream = true
writes Mux.delete_consumer = true
writes Mux.meta_stepdown = true
writes Mux.stream_stepdown = true
writes Mux.consumer_stepdown = true
writes _ = false

-- The actions that never ask NATS.
unfoldable pub silent : Action → Bool
silent Mux.healthz = true
silent Mux.version = true
silent Mux.login = true
silent Mux.callback = true
silent Mux.logout = true
silent Mux.me = true
silent Mux.me_jwt = true
silent _ = false

-- A pattern below /api/admin or /api/jsm.
unfoldable pub gated : List Segment → Bool
gated (lit a ∷ lit b ∷ rest) = a == "api" && (b == "admin" || b == "jsm")
gated _ = false

-- A route that asks NATS is below one of the two, and one that changes anything has a writing method.
unfoldable pub sound : Route → Bool
unfolding writes silent gated is_write_method
sound t =
    (silent t.action || gated t.pattern) && (not (writes t.action) || is_write_method t.method)

abbrev pub IsSound : Route → Type 0
IsSound t = sound t ≡ true

pub routes-IsSound : (authn : Option Authenticator) → All IsSound (routes authn)
unfolding routes sound auth_routes
routes-IsSound none = ground arith
routes-IsSound (some a) = ground arith

-- What stands behind such a pattern is not public.
apart : (p s t : String) → has_prefix s p ≡ true → has_prefix t p ≡ false → (s == t) ≡ false
apart p s t h k = ground (arith, eq_iff s t, λ (e : s ≡ t). ap (λ x. has_prefix x p) e)

admin_path-private : (rest : String) → is_public ("/api/admin" <> rest) ≡ false
unfolding is_public has_prefix
admin_path-private rest = ground (
  arith,
  apart "/api/ad" ("/api/admin" <> rest) "/healthz" refl refl,
  apart "/api/ad" ("/api/admin" <> rest) "/api/version" refl refl,
)

jsm_path-private : (rest : String) → is_public ("/api/jsm" <> rest) ≡ false
unfolding is_public has_prefix
jsm_path-private rest = ground (
  arith,
  apart "/api/j" ("/api/jsm" <> rest) "/healthz" refl refl,
  apart "/api/j" ("/api/jsm" <> rest) "/api/version" refl refl,
)

private_path :
    (a b : String) (path : List String)
    → a ≡ "api"
    → (b ≡ "admin") ⊎ (b ≡ "jsm")
    → is_public (url_path (a ∷ b ∷ path)) ≡ false
unfolding url_path
private_path a b path e (inl f) = rw (e, f) (admin_path-private (url_path path))
private_path a b path e (inr f) = rw (e, f) (jsm_path-private (url_path path))

pub gated-private :
    (ps : List Segment) (path : List String) (vs : List String)
    → gated ps ≡ true
    → match ps path ≡ some vs
    → is_public (url_path path) ≡ false
unfolding gated match
gated-private (lit a ∷ lit b ∷ ps) (s ∷ u ∷ path) vs g m =
    private_path s u path (ground (arith, eq_iff a "api", eq_iff a s))
      (ground (arith, eq_iff b "admin", eq_iff b "jsm", eq_iff b u))
gated-private (lit a ∷ lit b ∷ ps) (s ∷ []) vs g m = ground arith
gated-private ps path vs g m = ground arith

-- A route with a writing method serves writing methods only.
pub served-writes :
    (route method : String)
    → is_write_method route ≡ true
    → serves route method ≡ true
    → is_write_method method ≡ true
unfolding is_write_method
served-writes route method h s =
    ground
      (arith, eq_iff route method, eq_iff route "GET", λ (e : route ≡ "GET"). ap is_write_method e)

-- A route that the table holds has been taken, for its method and by its pattern.
pub record Taken (P : Route → Type 0) (method : String) (path : List String) (act : Action)
    (values : List String) : Type 0 where
  pub route : Route
  pub holds : P route
  pub served : serves route.method method ≡ true
  pub matched : match route.pattern path ≡ some values
  pub action : route.action ≡ act

module _ (P : Route → Type 0) (method : String) (path : List String) where
  pub select-Taken :
      (ts : List Route) (act : Action) (values : List String)
      → All P ts
      → select ts method path ≡ some (act, values)
      → Taken P method path act values
  unfolding select
  select-Taken [] act values h e = ground arith
  select-Taken (t ∷ ts) act values (p, h) e = elim (Bool-cases (serves t.method method)) [
    | inr unserved ↦ select-Taken ts act values h (ground arith)
    | inl served_by ↦ elim (Option-cases (match t.pattern path)) [
      | inl unmatched ↦ select-Taken ts act values h (ground arith)
      | inr (vs, m) ↦ record {
        route = t;
        holds = p;
        served = served_by;
        matched = ground arith;
        action = ground arith;
      }
    ]
  ]

pub IsSound-gated :
    (t : Route) (act : Action)
    → IsSound t
    → t.action ≡ act
    → silent act ≡ false
    → gated t.pattern ≡ true
unfolding sound
IsSound-gated t act h e asking = ground (arith, ap silent e)

pub IsSound-is_write_method :
    (t : Route) (act : Action)
    → IsSound t
    → t.action ≡ act
    → writes act ≡ true
    → is_write_method t.method ≡ true
unfolding sound
IsSound-is_write_method t act h e writing = ground (arith, ap writes e)
