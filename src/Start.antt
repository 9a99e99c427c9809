-- ===== src/Start.antt =====
-- cmd/cheshmhayash, cmd/cheshmhayash-mcp, internal/version and the dialling of internal/natsx/cluster:
-- what the programs set up from their settings and their environment.
pub mod Laws
pub mod Lookup
pub mod Run
pub mod McpRun
pub mod StdioRun
pub mod Main
use cheshmhayash.Common.{
  ℕ, ℤ, pos, Bool, true, false, String, List, [], ◌∷◌, ◌++◌, map, Option, none, some, is_unset,
  ◌==◌, ◌||◌, ◌&&◌, not, if◌then◌else◌,
}
use cheshmhayash.Common.Text.{◌<>◌, mem}
use cheshmhayash.Config
use cheshmhayash.Config.{Nats, McpKey, request_timeout, discovery_timeout}
use cheshmhayash.Auth.{Result, ok, err}
use cheshmhayash.Auth.Middleware.{KeyMatcher}
use cheshmhayash.Notify.{ProviderConfig}

-- An environment variable; "" when it is not set.
abbrev pub Env : Type 0
Env = String → String

abbrev pub default_overview_period : ℤ
default_overview_period = pos 10_000_000_000

-- overviewPeriod, in nanoseconds; time.ParseDuration is an argument.
unfoldable pub overview_period : (String → Option ℤ) → Env → ℤ
overview_period parse_duration env =
    let v = env "CHESHMHAYASH_OVERVIEW_PERIOD" in
    if v == "" then default_overview_period else elim (parse_duration v) [
      | none ↦ default_overview_period
      | some d ↦ if is_unset d then default_overview_period else d
    ]

-- notifyConfigs
unfoldable pub notify_configs : List Config.Notify → List ProviderConfig
notify_configs [] = []
notify_configs (n ∷ ns) =
    record { provider = n.provider; url = n.url; channel = n.channel; username = n.username }
    ∷ notify_configs ns

-- mcpKeyMatchers
unfoldable pub mcp_key_matchers : List McpKey → List KeyMatcher
mcp_key_matchers [] = []
mcp_key_matchers (k ∷ ks) = record { name = k.name; value = k.value } ∷ mcp_key_matchers ks

unfoldable pub write_enabled : Env → Bool
write_enabled env = env "CHESHMHAYASH_MCP_WRITE" == "1"

-- version.String: the link-time value, and the module's version if the build has one.
unfoldable pub version_string : String → Option String → String
version_string linked built =
    if not (linked == "")
    then linked
    else elim built [ none ↦ "dev" | some v ↦ if v == "" || v == "(devel)" then "dev" else v ]

-- The options of a connection that its settings decide.
pub record Options : Type 0 where
  pub name : String
  pub timeout : ℤ
  pub credentials : Option String
  pub user_info : Option (String × String)

unfoldable pub options : Nats → Options
unfolding request_timeout
options cfg = record {
  name = "cheshmhayash/" <> cfg.name;
  timeout = request_timeout cfg;
  credentials = if cfg.creds_file == "" then none else some cfg.creds_file;
  user_info =
      if not (cfg.user == "") && not (cfg.password == "")
      then some (cfg.user, cfg.password)
      else none;
}

-- nats.Connect gives a connection, which is a number here, or an error.
abbrev pub Dial : Type 0
Dial = String → Options → Result ℕ

pub record Cluster : Type 0 where
  pub name : String
  pub conn : ℕ
  pub request_timeout : ℤ
  pub discovery_timeout : ℤ

unfoldable pub connect : Dial → Nats → Result Cluster
unfolding options discovery_timeout
connect dial cfg = elim (dial cfg.url (options cfg)) [
  | err e ↦ err ("connect " <> (cfg.url <> (": " <> e)))
  | ok conn ↦ ok (record {
    name = cfg.name;
    conn = conn;
    request_timeout = request_timeout cfg;
    discovery_timeout = discovery_timeout cfg;
  })
]

-- The map of a Manager: an equal name is replaced.
unfoldable pub put : Cluster → List Cluster → List Cluster
put c [] = c ∷ []
put c (d ∷ ds) = let rest = put c ds in if d.name == c.name then c ∷ ds else d ∷ rest

-- Manager.Get
unfoldable pub get : List Cluster → String → Option Cluster
get [] name = none
get (c ∷ cs) name = let rest = get cs name in if c.name == name then some c else rest

-- Manager.Close: the connections that are drained, concurrently; here they stand in the order in
-- which their names were first connected.
unfoldable pub close : List Cluster → List ℕ
close clusters = map (λ (c : Cluster). c.conn) clusters

-- NewManager, over the clusters so far: the manager, or the error and what was drained.
pub data Dialled : Type 0 where
  connected : List Cluster → Dialled
  failed : String → List ℕ → Dialled

unfoldable pub add_clusters : Dial → List Nats → List Cluster → Dialled
unfolding connect put close
add_clusters dial [] clusters = connected clusters
add_clusters dial (cfg ∷ cfgs) clusters = elim (connect dial cfg) [
  | err e ↦ failed ("cluster " <> (cfg.name <> (": " <> e))) (close clusters)
  | ok c ↦ add_clusters dial cfgs (put c clusters)
]

unfoldable pub new_manager : Dial → List Nats → Dialled
unfolding add_clusters
new_manager dial cfgs = add_clusters dial cfgs []
