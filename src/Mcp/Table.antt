-- ===== src/Mcp/Table.antt =====
-- internal/mcp/tools.go: the registry of tools with their schemas.
use cheshmhayash.Common.{
  ◌≡◌, refl, Bool, true, false, String, List, [], ◌∷◌, ◌++◌, Option, length, if◌then◌else◌,
}
use cheshmhayash.Common.Text.{◌<>◌, join}
use cheshmhayash.Json.{Json}
use cheshmhayash.Natsx.{server_endpoints, account_endpoints}
use cheshmhayash.Mcp.{Runtime, Outcome}
use cheshmhayash.Mcp.Tools
use cheshmhayash.Mcp.Writes
use cheshmhayash.Mcp.Schema.{schema, string_prop, int_prop, object_prop, enum_prop, confirm_prop}

pub record Tool : Type 0 where
  pub name : String
  pub description : String
  pub input_schema : Json
  pub handler : Runtime → Option Json → Outcome

abbrev tool : String → String → Json → (Runtime → Option Json → Outcome) → Tool
tool name description input_schema handler = record {
  name = name;
  description = description;
  input_schema = input_schema;
  handler = handler;
}

unfoldable pub read_tools : List Tool
unfolding join
read_tools =
    tool "cluster_list" "List the configured NATS cluster names this server can reach."
      (schema [] []) Tools.cluster_list
    ∷ tool "server_ping"
        "Fan-out $SYS.REQ.SERVER.PING and return every server's reply. Use this to enumerate servers in a cluster."
        (schema (("cluster", string_prop "Configured cluster name. See cluster_list.") ∷ [])
          ("cluster" ∷ []))
        Tools.server_ping
    ∷ tool "server_ping_endpoint"
        ("Fan-out $SYS.REQ.SERVER.PING.<endpoint>. Endpoint is one of "
          <> ((join server_endpoints ", ")
              <> " (case-insensitive). VARZ for config/uptime, CONNZ for clients, JSZ for JetStream, HEALTHZ for liveness."))
        (schema
          (("cluster", string_prop "Configured cluster name.")
            ∷ ("endpoint", enum_prop "Monitoring endpoint suffix." server_endpoints)
            ∷ [])
          ("cluster" ∷ "endpoint" ∷ []))
        Tools.server_ping_endpoint
    ∷ tool "server_endpoint"
        "Targeted $SYS.REQ.SERVER.<id>.<endpoint>. Returns one reply from the named server (typically the server_id from server_ping)."
        (schema
          (("cluster", string_prop "Configured cluster name.")
            ∷ ("server_id", string_prop "NATS server_id (UUID-ish; see server_ping).")
            ∷ ("endpoint", enum_prop "Monitoring endpoint suffix." server_endpoints)
            ∷ [])
          ("cluster" ∷ "server_id" ∷ "endpoint" ∷ []))
        Tools.server_endpoint
    ∷ tool "account_endpoint"
        ("Fan-out $SYS.REQ.ACCOUNT.<account>.<endpoint>. Endpoint is one of "
          <> ((join account_endpoints ", ") <> ". Requires a system-account connection."))
        (schema
          (("cluster", string_prop "Configured cluster name.")
            ∷ ("account", string_prop "Account name (e.g. $G, $SYS, your tenant).")
            ∷ ("endpoint", enum_prop "Account endpoint suffix." account_endpoints)
            ∷ [])
          ("cluster" ∷ "account" ∷ "endpoint" ∷ []))
        Tools.account_endpoint
    ∷ tool "jsm_overview"
        "Cluster-wide JetStream overview — fans out $SYS.REQ.SERVER.PING.JSZ with accounts/streams/consumer/config/raft=true. One reply per server. Heavy payload on busy clusters."
        (schema (("cluster", string_prop "Configured cluster name.") ∷ []) ("cluster" ∷ []))
        Tools.jsm_overview
    ∷ tool "stream_list"
        "Paginated $JS.API.STREAM.LIST for the account the cluster's credentials are bound to."
        (schema
          (("cluster", string_prop "Configured cluster name.")
            ∷ ("offset", int_prop "Pagination offset; defaults to 0.")
            ∷ [])
          ("cluster" ∷ []))
        Tools.stream_list
    ∷ tool "stream_info"
        "$JS.API.STREAM.INFO.<stream> — full stream state including replicas, consumers, and storage."
        (schema
          (("cluster", string_prop "Configured cluster name.")
            ∷ ("stream", string_prop "Stream name.")
            ∷ [])
          ("cluster" ∷ "stream" ∷ []))
        Tools.stream_info
    ∷ tool "consumer_list" "Paginated $JS.API.CONSUMER.LIST.<stream>."
        (schema
          (("cluster", string_prop "Configured cluster name.")
            ∷ ("stream", string_prop "Stream name.")
            ∷ ("offset", int_prop "Pagination offset; defaults to 0.")
            ∷ [])
          ("cluster" ∷ "stream" ∷ []))
        Tools.consumer_list
    ∷ tool "consumer_info"
        "$JS.API.CONSUMER.INFO.<stream>.<consumer> — durable name, ack pending, redeliveries."
        (schema
          (("cluster", string_prop "Configured cluster name.")
            ∷ ("stream", string_prop "Stream name.")
            ∷ ("consumer", string_prop "Consumer name.")
            ∷ [])
          ("cluster" ∷ "stream" ∷ "consumer" ∷ []))
        Tools.consumer_info
    ∷ []

unfoldable pub write_tools : List Tool
write_tools =
    tool "server_reload" "Trigger a config reload on a single server ($SYS.REQ.SERVER.<id>.RELOAD)."
      (schema
        (("cluster", string_prop "Configured cluster name.")
          ∷ ("server_id", string_prop "Target server_id.")
          ∷ [])
        ("cluster" ∷ "server_id" ∷ []))
      Writes.server_reload
    ∷ tool "server_lame_duck"
        "Place a server into lame-duck mode (graceful drain). Connections move off to peers; new ones are refused."
        (schema
          (("cluster", string_prop "Configured cluster name.")
            ∷ ("server_id", string_prop "Target server_id.")
            ∷ ("confirm", confirm_prop)
            ∷ [])
          ("cluster" ∷ "server_id" ∷ "confirm" ∷ []))
        Writes.server_lame_duck
    ∷ tool "server_kick" "Forcibly disconnect one client by CID ($SYS.REQ.SERVER.<id>.KICK)."
        (schema
          (("cluster", string_prop "Configured cluster name.")
            ∷ ("server_id", string_prop "Target server_id.")
            ∷ ("cid", int_prop "Client connection id from CONNZ.")
            ∷ ("confirm", confirm_prop)
            ∷ [])
          ("cluster" ∷ "server_id" ∷ "cid" ∷ "confirm" ∷ []))
        Writes.server_kick
    ∷ tool "stream_update"
        "PUT a full StreamConfig to $JS.API.STREAM.UPDATE.<stream>. NATS rejects partial updates — pass the entire config. Some fields (storage, retention) cannot be changed without recreate."
        (schema
          (("cluster", string_prop "Configured cluster name.")
            ∷ ("stream", string_prop "Stream name (must match config.name if present).")
            ∷ ("config", object_prop "Full StreamConfig JSON object.")
            ∷ [])
          ("cluster" ∷ "stream" ∷ "config" ∷ []))
        Writes.stream_update
    ∷ tool "stream_purge"
        "Drop every message from a stream ($JS.API.STREAM.PURGE). Config and consumers stay."
        (schema
          (("cluster", string_prop "Configured cluster name.")
            ∷ ("stream", string_prop "Stream name.")
            ∷ ("confirm", confirm_prop)
            ∷ [])
          ("cluster" ∷ "stream" ∷ "confirm" ∷ []))
        Writes.stream_purge
    ∷ tool "stream_delete" "Delete a stream entirely ($JS.API.STREAM.DELETE). Irreversible."
        (schema
          (("cluster", string_prop "Configured cluster name.")
            ∷ ("stream", string_prop "Stream name.")
            ∷ ("confirm", confirm_prop)
            ∷ [])
          ("cluster" ∷ "stream" ∷ "confirm" ∷ []))
        Writes.stream_delete
    ∷ tool "consumer_delete" "Delete a consumer ($JS.API.CONSUMER.DELETE)."
        (schema
          (("cluster", string_prop "Configured cluster name.")
            ∷ ("stream", string_prop "Stream name.")
            ∷ ("consumer", string_prop "Consumer name.")
            ∷ ("confirm", confirm_prop)
            ∷ [])
          ("cluster" ∷ "stream" ∷ "consumer" ∷ "confirm" ∷ []))
        Writes.consumer_delete
    ∷ tool "meta_stepdown"
        "Force the JetStream meta-cluster leader to step down ($JS.API.META.LEADER.STEPDOWN). Triggers a re-election. Useful before draining the current meta-leader node."
        (schema
          (("cluster", string_prop "Configured cluster name.") ∷ ("confirm", confirm_prop) ∷ [])
          ("cluster" ∷ "confirm" ∷ []))
        Writes.meta_stepdown
    ∷ tool "stream_stepdown"
        "Force a stream's raft leader to step down ($JS.API.STREAM.LEADER.STEPDOWN.<stream>). Only meaningful on R3+ streams."
        (schema
          (("cluster", string_prop "Configured cluster name.")
            ∷ ("stream", string_prop "Stream name.")
            ∷ ("confirm", confirm_prop)
            ∷ [])
          ("cluster" ∷ "stream" ∷ "confirm" ∷ []))
        Writes.stream_stepdown
    ∷ tool "consumer_stepdown"
        "Force a consumer's raft leader to step down ($JS.API.CONSUMER.LEADER.STEPDOWN.<stream>.<consumer>). Only meaningful on replicated/durable consumers."
        (schema
          (("cluster", string_prop "Configured cluster name.")
            ∷ ("stream", string_prop "Stream name.")
            ∷ ("consumer", string_prop "Consumer name.")
            ∷ ("confirm", confirm_prop)
            ∷ [])
          ("cluster" ∷ "stream" ∷ "consumer" ∷ "confirm" ∷ []))
        Writes.consumer_stepdown
    ∷ []

-- buildTools
unfoldable pub build_tools : Bool → List Tool
unfolding read_tools write_tools
build_tools write = if write then read_tools ++ write_tools else read_tools

table_test : (length (build_tools false) ≡ 10) × (length (build_tools true) ≡ 20)
unfolding build_tools
table_test = (refl, refl)
