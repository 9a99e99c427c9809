-- ===== src/Start/McpRun/Laws.antt =====
-- With what the MCP server is started, and what its start leaves behind.
use mathlib.Core.Path.{subst}
use cheshmhayash.Common.{
  ◌≡◌, ◌≢◌, refl, sym, ap, ◌∙◌, inl, inr, ◌⊎◌, Bool, true, false, String, List, [], ◌∷◌, Option,
  none, some, is_some, ◌==◌, ℕ, All, Bool-cases, arith,
}
use cheshmhayash.Http.{Request}
use cheshmhayash.Natsx.Subjects.{IsRead}
use cheshmhayash.Config.{Settings, McpKey}
use cheshmhayash.Config.Load.{Loaded, loaded, refused, crashed, Koanf, load, load-loaded_iff}
use cheshmhayash.Config.Validate.Laws.{IsValid}
use cheshmhayash.Config
use cheshmhayash.Auth.{Authenticator, ok}
use cheshmhayash.Auth.Session.Laws.{Result-cases}
use cheshmhayash.Auth.Middleware.{key_matches}
use cheshmhayash.Mcp.{Runtime}
use cheshmhayash.Mcp.Table.{build_tools, read_tools, write_tools}
use cheshmhayash.Mcp.Rpc.{new_server, find_tool}
use cheshmhayash.Mcp.Gate.{Listener, mcp_mux}
use cheshmhayash.Mcp.Gate.Laws.{mcp_mux-reads}
use cheshmhayash.Start.{Cluster, new_manager, close, mcp_key_matchers, write_enabled}
use cheshmhayash.Start.Laws.{Distinct, drained, new_manager-drained, keys_refuse}
use cheshmhayash.Start.Run.{Outside, authenticate}
use cheshmhayash.Start.Run.Laws.{Dialled-cases, expected, clusters_of}
use cheshmhayash.Start.McpRun.{Web, Service, Exit, listener_of, listen, serve_from, run_http}

-- The tools that change something, by their names.
abbrev pub mutating : List String
mutating =
    "server_reload" ∷ "server_lame_duck" ∷ "server_kick" ∷ "stream_update" ∷ "stream_purge"
    ∷ "stream_delete" ∷ "consumer_delete" ∷ "meta_stepdown" ∷ "stream_stepdown"
    ∷ "consumer_stepdown" ∷ []

abbrev pub writes_asked : Outside → Bool
writes_asked o = o.env "CHESHMHAYASH_MCP_WRITE" == "1"

abbrev pub auth_asked : Loaded → Bool
auth_asked (loaded s) = s.auth.enabled
auth_asked _ = false

-- The listener has an authenticator exactly if one is asked for, no key of it matches an empty token, each mutating tool can be called exactly
-- if the environment asks for them, and if it does not, no request makes a NATS request that is not
-- read-only.
abbrev pub IsGuarded : Outside → Bool → Listener → Type 0
IsGuarded o auth l =
    (is_some l.authn ≡ auth)
    × (key_matches l.keys "" ≡ false)
    × All (λ name. is_some (find_tool l.server.tools name) ≡ writes_asked o) mutating
    × ((writes_asked o ≡ true) ⊎ ((r : Request) → All IsRead (mcp_mux l r).calls))

-- The connections are drained, and what is served is guarded.
abbrev pub Leaves : Outside → Bool → List ℕ → Exit → Type 0
Leaves o auth conns exit =
    (exit.drained ≡ conns)
    × ((exit.served ≡ none)
        ⊎ ((service : Service) × (exit.served ≡ some service)
            × ((now : ℕ) → IsGuarded o auth (service.listener now))))

registered :
    (rt : Runtime) (write : Bool)
    → All (λ name. is_some (find_tool (new_server rt write).tools name) ≡ write) mutating
unfolding new_server build_tools read_tools write_tools find_tool
registered rt true =
    (refl, (refl, (refl, (refl, (refl, (refl, (refl, (refl, (refl, (refl, tt))))))))))
registered rt false =
    (refl, (refl, (refl, (refl, (refl, (refl, (refl, (refl, (refl, (refl, tt))))))))))

listener_of-IsGuarded :
    (o : Outside) (w : Web) (rt : Runtime) (authn : Option Authenticator) (cfgs : List McpKey)
    (auth : Bool)
    → All (λ (k : McpKey). k.value ≢ "") cfgs
    → is_some authn ≡ auth
    → (now : ℕ)
    → IsGuarded o auth
        (listener_of w (new_server rt (write_enabled o.env)) authn (mcp_key_matchers cfgs) now)
unfolding listener_of write_enabled
listener_of-IsGuarded o w rt authn cfgs auth v made now = (
  made,
  keys_refuse cfgs v,
  registered rt (writes_asked o),
  elim (Bool-cases (writes_asked o)) [
    | inl on ↦ inl on
    | inr off ↦ inr (λ r. mcp_mux-reads _ rt r (ap (new_server rt) off))
  ],
)

authenticate-is_some :
    (o : Outside) (auth : Config.Auth) (authn : Option Authenticator)
    → authenticate o auth ≡ ok authn
    → is_some authn ≡ auth.enabled
unfolding authenticate
authenticate-is_some o auth authn h = ground (arith, h)

listen-Leaves :
    (o : Outside) (w : Web) (flag : String) (s : Settings) (clusters : List Cluster)
    → IsValid s
    → Leaves o s.auth.enabled (close clusters) (listen o w flag s clusters)
unfolding listen
listen-Leaves o w flag s clusters v = elim (Result-cases (authenticate o s.auth)) [
  | inl (e, bad) ↦ rw (bad, listen) (refl, inl refl)
  | inr (authn, good) ↦
      rw (good, listen)
        (
          refl,
          inr (
            _,
            refl,
            listener_of-IsGuarded o w (w.runtime clusters) authn s.auth.mcp_keys s.auth.enabled
                v.keys (authenticate-is_some o s.auth authn good),
          ),
        )
]

serve_from-Leaves :
    (o : Outside) (w : Web) (flag : String) (l : Loaded)
    → ((s : Settings) → l ≡ loaded s → IsValid s)
    → Distinct (clusters_of l)
    → Leaves o (auth_asked l) (expected o.dial l) (serve_from o w flag l)
unfolding serve_from
serve_from-Leaves o w flag (refused e) v d = (refl, inl refl)
serve_from-Leaves o w flag crashed v d = (refl, inl refl)
serve_from-Leaves o w flag (loaded s) v d = elim (Dialled-cases (new_manager o.dial s.nats)) [
  | inl (clusters, f) ↦
      rw (f, serve_from)
        (subst (λ conns. Leaves o s.auth.enabled conns (listen o w flag s clusters))
          (sym (ap drained f) ∙ new_manager-drained o.dial s.nats d)
          (listen-Leaves o w flag s clusters (v s refl)))
  | inr (why, conns, f) ↦
      rw (f, serve_from) (sym (ap drained f) ∙ new_manager-drained o.dial s.nats d, inl refl)
]

-- However runHTTP ends over settings that Load has given, for clusters with distinct names: it has
-- drained the connections that it opened, each once. If its listener has run, then at any time it had
-- an authenticator exactly when authentication is enabled, no static key matched an empty bearer
-- token, each of the mutating tools was registered exactly when CHESHMHAYASH_MCP_WRITE was 1, and
-- unless it was, no request to the listener made a NATS request but those of the read-only
-- operations.
pub run_http-Leaves :
    (o : Outside) (w : Web) (flag : String) (k : Koanf) (env : List String)
    → o.settings ≡ load k env
    → Distinct (clusters_of o.settings)
    → Leaves o (auth_asked o.settings) (expected o.dial o.settings) (run_http o w flag)
unfolding run_http
run_http-Leaves o w flag k env from d =
    serve_from-Leaves o w flag o.settings
      (λ s e. let (_, _, _, _, _, v) = (load-loaded_iff k env s).0 (sym from ∙ e) in v) d
