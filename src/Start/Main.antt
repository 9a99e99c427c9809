-- ===== src/Start/Main.antt =====
-- The two main functions, from what they start to the status of the process. The flags are already
-- read.
use cheshmhayash.Common.{
  ℕ, Bool, true, false, ◌≡◌, ◌↔◌, refl, ap, inl, inr, String, List, Option, none, some, is_some,
  arith, if◌then◌else◌,
}
use mathlib.Core.Option.{some_inj}
use cheshmhayash.Common.Text.{◌<>◌}
use cheshmhayash.Config.{Settings}
use cheshmhayash.Config.Load.{Loaded, loaded, refused, crashed}
use cheshmhayash.Auth.{Result, ok, err, Authenticator}
use cheshmhayash.Auth.Session.Laws.{Result-cases}
use cheshmhayash.Notify.Manager.{Manager, Subscription, new}
use cheshmhayash.Start.{Cluster, new_manager, notify_configs}
use cheshmhayash.Start.Run.Laws.{Dialled-cases}
use cheshmhayash.Start.Run
use cheshmhayash.Start.Run.{Outside, Failure, settings, start, serve, panic, authenticate}
use cheshmhayash.Start.McpRun.{Web, run_http, listen, serve_from}
use cheshmhayash.Start.StdioRun.{Terminal, StdioRun, run_stdio}

-- os.Exit(1) on an error; the runtime ends a program that panics with 2.
unfoldable pub exit_status : Option Failure → ℕ
exit_status none = 0
exit_status (some (settings e)) = 1
exit_status (some (start e)) = 1
exit_status (some (serve e)) = 1
exit_status (some panic) = 2

-- main of cheshmhayash.
unfoldable pub main : Outside → ℕ
unfolding exit_status Run.run
main o = exit_status (Run.run o).error

unfoldable pub stdio_status : StdioRun → Option ℕ
unfolding exit_status
stdio_status r = if r.ended then some (exit_status r.error) else none

-- main of cheshmhayash-mcp, with the flags -http and -addr: none while standard input is served.
unfoldable pub main_mcp : Bool → String → Outside → Web → Terminal → Option ℕ
unfolding stdio_status run_http run_stdio
main_mcp http addr o w t =
    if http then some (exit_status (run_http o w addr).error) else stdio_status (run_stdio o t)

abbrev Told : Option Failure → Bool → Type 0
Told why served = (exit_status why ≡ 0) ↔ (served ≡ true)

stopped-Told : (why : Failure) → Told (some why) false
unfolding exit_status
stopped-Told (settings e) = ((λ h. absurd (omega (arith, h))), (λ h. cc))
stopped-Told (start e) = ((λ h. absurd (omega (arith, h))), (λ h. cc))
stopped-Told (serve e) = ((λ h. absurd (omega (arith, h))), (λ h. cc))
stopped-Told panic = ((λ h. absurd (omega (arith, h))), (λ h. cc))

served-Told : Told none true
unfolding exit_status
served-Told = ((λ h. refl), (λ h. refl))

listen-Told :
    (o : Outside) (w : Web) (flag : String) (s : Settings) (clusters : List Cluster)
    → Told (listen o w flag s clusters).error (is_some (listen o w flag s clusters).served)
unfolding listen exit_status
listen-Told o w flag s clusters = elim (Result-cases (authenticate o s.auth)) [
  | inl (e, bad) ↦ rw (bad, listen) (stopped-Told (start e))
  | inr (authn, good) ↦ rw (good, listen) served-Told
]

serve_from-Told :
    (o : Outside) (w : Web) (flag : String) (l : Loaded)
    → Told (serve_from o w flag l).error (is_some (serve_from o w flag l).served)
unfolding serve_from exit_status
serve_from-Told o w flag (refused e) = stopped-Told (settings e)
serve_from-Told o w flag crashed = stopped-Told panic
serve_from-Told o w flag (loaded s) = elim (Dialled-cases (new_manager o.dial s.nats)) [
  | inl (clusters, f) ↦ rw (f, serve_from) (listen-Told o w flag s clusters)
  | inr (why, conns, f) ↦ rw (f, serve_from) (stopped-Told (start why))
]

-- With -http, the status of the MCP program is 0 exactly when its start has reached the listener;
-- whether the listener could then serve makes no difference.
pub main_mcp-http :
    (o : Outside) (w : Web) (t : Terminal) (addr : String)
    → (main_mcp true addr o w t ≡ some 0) ↔ (is_some (run_http o w addr).served ≡ true)
unfolding main_mcp run_http
main_mcp-http o w t addr =
    let told = serve_from-Told o w addr o.settings in
    (λ h. told.0 (some_inj.0 h), λ h. ap some (told.1 h))

finish-Told :
    (o : Outside) (clusters : List Cluster) (watched : Manager × List Subscription)
    (r : Result (Option Authenticator))
    → Told
        (Run.finish o clusters watched r).error
        (is_some (Run.finish o clusters watched r).served)
unfolding Run.finish exit_status
finish-Told o clusters (m, opened) (err e) = stopped-Told (start ("auth init: " <> e))
finish-Told o clusters (m, opened) (ok authn) = served-Told

with_clusters-Told :
    (o : Outside) (s : Settings) (clusters : List Cluster)
    → Told (Run.with_clusters o s clusters).error (is_some (Run.with_clusters o s clusters).served)
unfolding Run.with_clusters Run.stop exit_status
with_clusters-Told o s clusters = elim (Result-cases (new o.quote (notify_configs s.notify))) [
  | inl (e, bad) ↦ rw (bad, Run.with_clusters) (stopped-Told (start ("notify init: " <> e)))
  | inr (m, good) ↦
      rw (good, Run.with_clusters)
        (finish-Told o clusters (Run.watch o clusters s.nats m) (authenticate o s.auth))
]

run_from-Told :
    (o : Outside) (l : Loaded) → Told (Run.run_from o l).error (is_some (Run.run_from o l).served)
unfolding Run.run_from Run.stop exit_status
run_from-Told o (refused e) = stopped-Told (settings e)
run_from-Told o crashed = stopped-Told panic
run_from-Told o (loaded s) = elim (Dialled-cases (new_manager o.dial s.nats)) [
  | inl (clusters, f) ↦ rw (f, Run.run_from) (with_clusters-Told o s clusters)
  | inr (why, conns, f) ↦ rw (f, Run.run_from) (stopped-Told (start why))
]

-- So too the status of the dashboard.
pub main-served : (o : Outside) → (main o ≡ 0) ↔ (is_some (Run.run o).served ≡ true)
unfolding main Run.run
main-served o = run_from-Told o o.settings
