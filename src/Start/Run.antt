-- ===== src/Start/Run.antt =====
-- cmd/cheshmhayash/main.go: run, from the settings to the server, with the clean-up of every exit.
pub mod Laws
use cheshmhayash.Common.{ℤ, ℕ, Bool, String, List, [], ◌∷◌, ◌++◌, Option, none, some, if◌then◌else◌}
use cheshmhayash.Common.Text.{◌<>◌}
use cheshmhayash.Config
use cheshmhayash.Config.{Settings, Nats}
use cheshmhayash.Config.Load.{Loaded, loaded, refused, crashed, LoadError}
use cheshmhayash.Auth
use cheshmhayash.Auth.{Result, ok, err, Authenticator, Provider}
use cheshmhayash.Notify
use cheshmhayash.Notify.Manager.{Manager, Subscription, new, enabled, subscribe}
use cheshmhayash.Notify.Manager.Sessions.{opens}
use cheshmhayash.Start.{
  Env, Dial, Cluster, connected, failed, new_manager, get, close, notify_configs, overview_period,
}

-- What run finds outside: the settings, NATS, which subscriptions a cluster accepts, the discovery of
-- an OIDC provider, the environment, the reading of durations and `%q`.
pub record Outside : Type 0 where
  pub settings : Loaded
  pub dial : Dial
  pub accepts : String → String → Bool
  pub discover : String → Result Provider
  pub env : Env
  pub parse_duration : String → Option ℤ
  pub quote : String → String

-- The settings, a later step of the start, or the loop of the MCP server; a panic does not return.
pub data Failure : Type 0 where
  settings : LoadError → Failure
  start serve : String → Failure
  panic : Failure

-- What the server runs with, until it is told to stop.
pub record Service : Type 0 where
  pub authn : Option Authenticator
  pub period : ℤ

-- How run ends: what it returns, the connections drained, the subscriptions opened and ended, and
-- the server that ran in between.
pub record Exit : Type 0 where
  pub error : Option Failure
  pub drained : List ℕ
  pub subscribed : List Subscription
  pub unsubscribed : List Subscription
  pub served : Option Service

unfoldable pub stop : Failure → List ℕ → Exit
stop why conns = record {
  error = some why;
  drained = conns;
  subscribed = [];
  unsubscribed = [];
  served = none;
}

-- The loop over the clusters, with what was opened so far.
unfoldable pub subscribe_all :
    (String → String → Bool)
    → List Cluster
    → List Nats
    → Manager
    → List Subscription
    → Manager × List Subscription
unfolding get subscribe opens
subscribe_all accepts clusters [] m opened = (m, opened)
subscribe_all accepts clusters (n ∷ ns) m opened = elim (get clusters n.name) [
  | none ↦ subscribe_all accepts clusters ns m opened
  | some c ↦
      subscribe_all accepts clusters ns (subscribe (accepts c.name) c.name m)
        (opened ++ opens (accepts c.name) c.name m)
]

unfoldable pub watch : Outside → List Cluster → List Nats → Manager → Manager × List Subscription
unfolding subscribe_all enabled
watch o clusters cfgs m = if enabled m then subscribe_all o.accepts clusters cfgs m [] else (m, [])

unfoldable pub authenticate : Outside → Config.Auth → Result (Option Authenticator)
authenticate o auth =
    if auth.enabled
    then elim (Auth.new o.discover auth) [ err e ↦ err e | ok a ↦ ok (some a) ]
    else ok none

-- The end of run, behind the deferred calls of both Close.
unfoldable pub finish :
    Outside → List Cluster → Manager × List Subscription → Result (Option Authenticator) → Exit
unfolding close overview_period Notify.Manager.close
finish o clusters (m, opened) (err e) = record {
  error = some (start ("auth init: " <> e));
  drained = close clusters;
  subscribed = opened;
  unsubscribed = (Notify.Manager.close m).0;
  served = none;
}
finish o clusters (m, opened) (ok authn) = record {
  error = none;
  drained = close clusters;
  subscribed = opened;
  unsubscribed = (Notify.Manager.close m).0;
  served = some (record { authn = authn; period = overview_period o.parse_duration o.env });
}

unfoldable pub with_clusters : Outside → Settings → List Cluster → Exit
unfolding new notify_configs watch authenticate finish stop
with_clusters o s clusters = elim (new o.quote (notify_configs s.notify)) [
  | err e ↦ stop (start ("notify init: " <> e)) (close clusters)
  | ok m ↦ finish o clusters (watch o clusters s.nats m) (authenticate o s.auth)
]

unfoldable pub run_from : Outside → Loaded → Exit
unfolding new_manager with_clusters stop
run_from o (refused e) = stop (settings e) []
run_from o crashed = stop panic []
run_from o (loaded s) = elim (new_manager o.dial s.nats) [
  | failed why conns ↦ stop (start why) conns
  | connected clusters ↦ with_clusters o s clusters
]

unfoldable pub run : Outside → Exit
unfolding run_from
run o = run_from o o.settings
