-- ===== src/Start/StdioRun.antt =====
-- cmd/cheshmhayash-mcp/main.go: runStdio, from the settings to the end of the loop over standard
-- input.
pub mod Laws
use cheshmhayash.Common.{ℕ, Bool, true, false, List, [], Option, none, some}
use cheshmhayash.Config.{Settings}
use cheshmhayash.Config.Load.{Loaded, loaded, refused, crashed}
use cheshmhayash.Mcp.{Runtime}
use cheshmhayash.Mcp.Rpc.{new_server}
use cheshmhayash.Mcp.Stdio
use cheshmhayash.Mcp.Stdio.{Session, done, error, interrupted}
use cheshmhayash.Start.{Cluster, connected, failed, new_manager, close, write_enabled}
use cheshmhayash.Start.Run.{Outside, Failure, settings, start, serve, panic}

-- What the MCP server reaches over the clusters, and what reaches its loop.
pub record Terminal : Type 0 where
  pub runtime : List Cluster → Runtime
  pub events : List Stdio.Event

-- How far runStdio has come: what it returns and the connections drained once it has ended, and what
-- the server has written and asked.
pub record StdioRun : Type 0 where
  pub ended : Bool
  pub error : Option Failure
  pub drained : List ℕ
  pub session : Session

abbrev pub stop : Option Failure → List ℕ → Session → StdioRun
stop why conns session = record { ended = true; error = why; drained = conns; session = session }

-- An end by a signal, context.Canceled, is no error.
unfoldable pub leave : List Cluster → Session × Option Stdio.Exit → StdioRun
unfolding close
leave clusters (session, none) = record {
  ended = false;
  error = none;
  drained = [];
  session = session;
}
leave clusters (session, some done) = stop none (close clusters) session
leave clusters (session, some (error why)) = stop (some (serve why)) (close clusters) session
leave clusters (session, some (interrupted why)) = stop none (close clusters) session

unfoldable pub run_loaded : Outside → Terminal → Loaded → StdioRun
unfolding new_manager new_server write_enabled Stdio.serve leave
run_loaded o t (refused e) = stop (some (settings e)) [] Stdio.start
run_loaded o t crashed = stop (some panic) [] Stdio.start
run_loaded o t (loaded s) = elim (new_manager o.dial s.nats) [
  | failed why conns ↦ stop (some (start why)) conns Stdio.start
  | connected clusters ↦
      leave clusters
        (Stdio.serve (new_server (t.runtime clusters) (write_enabled o.env)) t.events Stdio.start)
]

unfoldable pub run_stdio : Outside → Terminal → StdioRun
unfolding run_loaded
run_stdio o t = run_loaded o t o.settings
