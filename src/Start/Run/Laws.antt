-- ===== src/Start/Run/Laws.antt =====
-- Every exit of run cleans up what it has set up.
use mathlib.Core.Path.{subst}
use cheshmhayash.Common.{
  ℕ, ◌≡◌, refl, sym, ap, ◌∙◌, inl, inr, ◌⊎◌, Bool, false, String, List, [], ◌∷◌, map, Option, none,
  some, is_unset, Bool-cases, Option-cases,
}
use cheshmhayash.Config.{Settings, Nats}
use cheshmhayash.Config.Load.{Loaded, loaded, refused, crashed}
use cheshmhayash.Auth.{Result, ok, err, Authenticator}
use cheshmhayash.Notify
use cheshmhayash.Notify.Webhook.{new_webhook}
use cheshmhayash.Notify.Manager.{Manager, Subscription, new, enabled, subscribe}
use cheshmhayash.Notify.Manager.Laws.{new_cases}
use cheshmhayash.Notify.Manager.Sessions.{Run, begin, subscribing, Run-subs}
use cheshmhayash.Start.{
  Dial, Cluster, Dialled, connected, failed, new_manager, get, close, notify_configs,
}
use cheshmhayash.Start.Laws.{
  Distinct, dialled, drained, new_manager-drained, overview_period-positive,
}
use cheshmhayash.Start.Run.{
  Service, Outside, Exit, stop, subscribe_all, watch, authenticate, finish, with_clusters, run_from,
  run,
}

-- What is opened is ended, and a server only runs without an error and refreshes now and then.
abbrev pub CleansUp : List ℕ → Exit → Type 0
CleansUp conns exit =
    (exit.drained ≡ conns)
    × (exit.unsubscribed ≡ exit.subscribed)
    × ((exit.served ≡ none)
        ⊎ ((exit.error ≡ none)
            × (service : Service) × (exit.served ≡ some service)
            × (is_unset service.period ≡ false)))

subscribe_all-Run :
    (accepts : String → String → Bool) (clusters : List Cluster) (cfgs : List Nats)
    (begun m : Manager) (opened : List Subscription)
    → Run begun m opened []
    → Run begun
        (subscribe_all accepts clusters cfgs m opened).0
        (subscribe_all accepts clusters cfgs m opened).1
        []
unfolding subscribe_all
subscribe_all-Run accepts clusters [] begun m opened r = r
subscribe_all-Run accepts clusters (n ∷ ns) begun m opened r =
    elim (Option-cases (get clusters n.name)) [
      | inl lost ↦ rw (lost, subscribe_all) (subscribe_all-Run accepts clusters ns begun m opened r)
      | inr (c, found) ↦
          rw (found, subscribe_all)
            (subscribe_all-Run accepts clusters ns begun _ _
              (subscribing (accepts c.name) c.name m opened [] r))
    ]

watch-subs :
    (o : Outside) (clusters : List Cluster) (cfgs : List Nats) (m : Manager)
    → m.subs ≡ []
    → (watch o clusters cfgs m).1 ≡ (watch o clusters cfgs m).0.subs
unfolding watch
watch-subs o clusters cfgs m h = elim (Bool-cases (enabled m)) [
  | inr off ↦ rw (off, watch) (sym h)
  | inl on ↦
      rw (on, watch)
        (Run-subs m _ _ [] (
          subscribe_all-Run o.accepts clusters cfgs m m [] (subst (λ ss. Run m m ss []) h begin))).0
]

finish-CleansUp :
    (o : Outside) (clusters : List Cluster) (m : Manager) (opened : List Subscription)
    (r : Result (Option Authenticator))
    → opened ≡ m.subs
    → CleansUp (close clusters) (finish o clusters (m, opened) r)
unfolding finish Notify.Manager.close
finish-CleansUp o clusters m opened (err e) h = (refl, sym h, inl refl)
finish-CleansUp o clusters m opened (ok authn) h =
    (refl, sym h, inr (refl, _, refl, overview_period-positive o.parse_duration o.env))

-- The notifier of accepted settings, before it subscribes.
abbrev fresh : Settings → Manager
fresh s = record { providers = map new_webhook (notify_configs s.notify); subs = [] }

with_clusters-CleansUp :
    (o : Outside) (s : Settings) (clusters : List Cluster)
    → CleansUp (close clusters) (with_clusters o s clusters)
unfolding with_clusters stop
with_clusters-CleansUp o s clusters = elim (new_cases o.quote (notify_configs s.notify)) [
  | inl (_, e) ↦
      rw (e, with_clusters)
        (finish-CleansUp o clusters (watch o clusters s.nats (fresh s)).0
          (watch o clusters s.nats (fresh s)).1 (authenticate o s.auth)
          (watch-subs o clusters s.nats (fresh s) refl))
  | inr (_, why, e) ↦ rw (e, with_clusters) (refl, refl, inl refl)
]

pub Dialled-cases :
    (d : Dialled)
    → ((cs : List Cluster) × (d ≡ connected cs))
      ⊎ ((why : String) × (conns : List ℕ) × (d ≡ failed why conns))
Dialled-cases (connected cs) = inl (cs, refl)
Dialled-cases (failed why conns) = inr (why, conns, refl)

-- The connections that the settings lead to, up to the first that fails.
abbrev pub expected : Dial → Loaded → List ℕ
expected dial (loaded s) = dialled dial s.nats
expected dial _ = []

abbrev pub clusters_of : Loaded → List Nats
clusters_of (loaded s) = s.nats
clusters_of _ = []

run_from-CleansUp :
    (o : Outside) (l : Loaded)
    → Distinct (clusters_of l)
    → CleansUp (expected o.dial l) (run_from o l)
unfolding run_from stop
run_from-CleansUp o (refused e) d = (refl, refl, inl refl)
run_from-CleansUp o crashed d = (refl, refl, inl refl)
run_from-CleansUp o (loaded s) d = elim (Dialled-cases (new_manager o.dial s.nats)) [
  | inl (clusters, f) ↦
      rw (f, run_from)
        (subst (λ conns. CleansUp conns (with_clusters o s clusters))
          (sym (ap drained f) ∙ new_manager-drained o.dial s.nats d)
          (with_clusters-CleansUp o s clusters))
  | inr (why, conns, f) ↦
      rw (f, run_from) (sym (ap drained f) ∙ new_manager-drained o.dial s.nats d, refl, inl refl)
]

-- However run ends, for clusters with distinct names: the connections that it has drained are those
-- that it has opened, each once, and it has ended each subscription that it had opened. If the
-- server has run, run returns no error, and the refresh period of the server was positive.
pub run-CleansUp :
    (o : Outside)
    → Distinct (clusters_of o.settings)
    → CleansUp (expected o.dial o.settings) (run o)
unfolding run
run-CleansUp o d = run_from-CleansUp o o.settings d
