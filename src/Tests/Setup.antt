-- ===== src/Tests/Setup.antt =====
-- A start with two clusters and one webhook, and the theorems on the set-up and the notifier.
use cheshmhayash.Common.{
  ltb, ℕ, pos, ◌≡◌, ◌↔◌, refl, ◌⊎◌, true, String, List, [], ◌∷◌, ◌++◌, map, none, is_some, All,
  arith, eq_iff, ◌==◌, if◌then◌else◌, ◌^◌,
}
use cheshmhayash.Common.Text.{◌<>◌, join, to_lower}
use cheshmhayash.Http.{Request}
use cheshmhayash.Config.{Settings, Nats, mode_or_default}
use cheshmhayash.Config.Validate.{validate}
use cheshmhayash.Auth.{ok, err}
use cheshmhayash.Natsx.Decimal.{decimal}
use cheshmhayash.Gateway.Jsm.{parse_offset}
use cheshmhayash.Gateway.Jsm.Offset.{parse_offset-decimal}
use cheshmhayash.Notify.{ProviderConfig}
use cheshmhayash.Notify.Classify.{classify, local_prefix, account_prefix, account_infix}
use cheshmhayash.Notify.Classify.Laws.{IsReported, classify_iff, classify-account}
use cheshmhayash.Notify.Webhook.{new_webhook}
use cheshmhayash.Notify.Manager.{Manager, new, subscribe, close}
use cheshmhayash.Notify.Manager.Laws.{IsEntry, new_cases}
use cheshmhayash.Notify.Manager.Sessions.{Run, begin, subscribing, opens, Run-subs}
use cheshmhayash.Start.{Dial, Cluster, connected, get, new_manager}
use cheshmhayash.Start.Laws.{Distinct, drained, dialled}
use cheshmhayash.Start.Lookup.{last_named, Linked, new_manager-Linked}
use cheshmhayash.Config.{default_settings}
use cheshmhayash.Config.Load.{Koanf, present, loaded, load, Readable, load-loaded_iff}
use cheshmhayash.Config.Env.Overlay.{Overlaid}
use cheshmhayash.Config.Validate.Laws.{IsValid}
use cheshmhayash.Start.Run.{Outside, run}
use cheshmhayash.Start.Run.Laws.{CleansUp, expected, run-CleansUp}
use cheshmhayash.Start.McpRun.{Web, run_http}
use cheshmhayash.Start.McpRun.Laws.{Leaves, run_http-Leaves}
use cheshmhayash.Mcp.{Runtime}
use cheshmhayash.Mcp.Stdio.{line, cancelled}
use cheshmhayash.Start.StdioRun.{Terminal, run_stdio}
use cheshmhayash.Start.StdioRun.Laws.{Leaves as StdioLeaves, run_stdio-Leaves}
use cheshmhayash.Tests.Server.{settings, request, text_of_tokens, world}

abbrev nats : String → Nats
nats name = record {
  name = name;
  url = "nats://" <> name;
  creds_file = "";
  user = "";
  password = "";
  request_timeout_ms = pos 0;
  discovery_timeout_ms = pos 0;
}

abbrev two : List Nats
two = nats "main" ∷ nats "edge" ∷ []

-- The second cluster cannot be reached.
abbrev flaky : Dial
flaky url opts = if url == "nats://main" then ok 4 else err "no servers"

abbrev steady : Dial
steady url opts = if url == "nats://main" then ok 4 else ok 5

two-Distinct : Distinct two
two-Distinct = ((ground (arith, eq_iff "edge" "main"), tt), (tt, tt))

-- Two clusters of one name: the connection that is replaced is never drained.
leak_test :
    (drained (new_manager steady (nats "main" ∷ record (nats "edge") { name = "main" } ∷ []))
      ≡ 5 ∷ [])
    × (dialled steady (nats "main" ∷ record (nats "edge") { name = "main" } ∷ []) ≡ 4 ∷ 5 ∷ [])
unfolding new_manager dialled close
leak_test = (refl, refl)

abbrev cluster : String → ℕ → Cluster
cluster name conn = record {
  name = name;
  conn = conn;
  request_timeout = pos 2_000_000_000;
  discovery_timeout = pos 500_000_000;
}

steady_start : new_manager steady two ≡ connected (cluster "main" 4 ∷ cluster "edge" 5 ∷ [])
unfolding new_manager
steady_start = refl

new_manager-Linked_example :
    Linked steady none
      (last_named two "edge")
      (get (cluster "main" 4 ∷ cluster "edge" 5 ∷ []) "edge")
new_manager-Linked_example = new_manager-Linked steady two _ "edge" steady_start

-- One static key.
abbrev keyed : Settings
keyed = record settings {
  auth = record settings.auth { mcp_keys = record { name = "ci"; value = "k1" } ∷ [] };
}

-- An offset that is one too large.
abbrev paged : Request
paged = record (request "GET" []) { query = λ key. decimal 18446744073709551616 }

parse_offset-decimal_example :
    parse_offset paged ≡ (if ltb 18446744073709551616 (2 ^ 64) then 18446744073709551616 else 0)
parse_offset-decimal_example = parse_offset-decimal paged 18446744073709551616 (omega arith) refl

abbrev tokens : List String
tokens = "CREATED" ∷ "orders" ∷ []

classify_iff_example :
    (is_some (classify (λ raw. none) (local_prefix <> join ("STREAM" ∷ tokens) ".") "") ≡ true)
    ↔ IsReported ("STREAM" ∷ tokens)
classify_iff_example = classify_iff (λ raw. none) "" "STREAM" tokens (ground arith)

classify-account_example :
    classify
      (λ raw. none)
      (account_prefix <> ("ops" <> (account_infix <> "STREAM.CREATED.orders")))
      ""
    ≡ classify (λ raw. none) (local_prefix <> "STREAM.CREATED.orders") ""
classify-account_example =
    classify-account (λ raw. none) "" "ops" "STREAM.CREATED.orders" (ground arith)

abbrev slack : ProviderConfig
slack = record {
  provider = "slack";
  url = "https://hooks.example.org/1";
  channel = "#ops";
  username = "";
}

new_cases_example :
    (All IsEntry (slack ∷ [])
      × (new (λ s. s) (slack ∷ [])
          ≡ ok (record { providers = map new_webhook (slack ∷ []); subs = [] })))
    ⊎ ((¬ All IsEntry (slack ∷ [])) × (why : String) × (new (λ s. s) (slack ∷ []) ≡ err why))
new_cases_example = new_cases (λ s. s) (slack ∷ [])

abbrev fresh : Manager
fresh = record { providers = new_webhook slack ∷ []; subs = [] }

abbrev watching : Manager
watching = subscribe (λ s. true) "main" fresh

watched : Run fresh watching ([] ++ opens (λ s. true) "main" fresh) []
watched = subscribing (λ s. true) "main" fresh [] [] begin

Run-subs_example :
    (opens (λ s. true) "main" fresh ≡ watching.subs)
    × ((close watching).1.subs ≡ [])
    × ((close (close watching).1).0 ≡ [])
Run-subs_example = Run-subs fresh watching _ [] watched

abbrev koanf : Koanf
koanf = record { defaults_error = none; file = present none; unmarshal = λ d. ok keyed }

load-loaded_iff_example : (load koanf ("HOME=/root" ∷ []) ≡ loaded keyed) ↔ (
    (koanf.defaults_error ≡ none)
    × Readable koanf.file
    × (t : Settings) × (koanf.unmarshal default_settings ≡ ok t)
    × Overlaid t ("HOME=/root" ∷ []) keyed
    × IsValid keyed)
load-loaded_iff_example = load-loaded_iff koanf ("HOME=/root" ∷ []) keyed

-- A start that fails at the identity provider.
abbrev outside : Outside
outside = record {
  settings = loaded (record settings { nats = two });
  dial = steady;
  accepts = λ name subject. true;
  discover = λ issuer. err "no issuer";
  env = λ name. "";
  parse_duration = λ s. none;
  quote = λ s. s;
}

run-CleansUp_example : CleansUp (expected steady outside.settings) (run outside)
run-CleansUp_example = run-CleansUp outside two-Distinct

-- The settings of one key, which Load accepts.
abbrev mcp_outside : Outside
mcp_outside = record outside { settings = loaded keyed }

keyed_loaded : mcp_outside.settings ≡ load koanf []
unfolding load validate mode_or_default to_lower
keyed_loaded = refl

abbrev runtime : List Cluster → Runtime
runtime clusters = record {
  clusters = [];
  coding = world.coding;
  unmarshal = λ frame. none;
  marshal_strings = λ names. "[]";
  quote = λ s. s;
  range_order = λ names. names;
  decode_error = λ fields value. "bad value";
  encode_error = λ fields. "bad value";
  version = "dev";
}

abbrev web : Web
web = record {
  runtime = runtime;
  token_text = text_of_tokens;
  parse_url = λ url. none;
  read_body = λ limit r. ok "info";
  unserved = λ r. (404, "404 page not found");
}

run_http-Leaves_example :
    Leaves mcp_outside true (expected steady mcp_outside.settings) (run_http mcp_outside web "")
run_http-Leaves_example = run_http-Leaves mcp_outside web "" koanf [] keyed_loaded (tt, tt)

-- Standard input with one frame, until a signal comes.
abbrev terminal : Terminal
terminal = record { runtime = runtime; events = line "{" ∷ cancelled "context canceled" ∷ [] }

run_stdio-Leaves_example :
    StdioLeaves outside (expected steady outside.settings) (run_stdio outside terminal)
run_stdio-Leaves_example = run_stdio-Leaves outside terminal two-Distinct
