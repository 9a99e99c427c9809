-- ===== src/Start/StdioRun/Laws.antt =====
-- What runStdio leaves behind, and what it asks of NATS.
use mathlib.Core.Path.{subst}
use cheshmhayash.Common.{
  ℕ, ◌≡◌, refl, sym, ap, ◌∙◌, inl, inr, ◌⊎◌, true, false, String, List, [], ◌∷◌, Option, none, some,
  ◌==◌, All, All-append, Bool-cases,
}
use cheshmhayash.Http.{Call}
use cheshmhayash.Natsx.Subjects.{IsRead}
use cheshmhayash.Config.Load.{Loaded, loaded, refused, crashed}
use cheshmhayash.Mcp.{Runtime}
use cheshmhayash.Mcp.Rpc.{Server, new_server, dispatch}
use cheshmhayash.Mcp.Safety.{dispatch-reads}
use cheshmhayash.Mcp.Stdio
use cheshmhayash.Mcp.Stdio.{
  Event, Session, line, closed, broken, cancelled, done, error, interrupted, handle_line,
}
use cheshmhayash.Start.{Cluster, new_manager, close, write_enabled}
use cheshmhayash.Start.Laws.{Distinct, drained, new_manager-drained}
use cheshmhayash.Start.Run.{Outside}
use cheshmhayash.Start.Run.Laws.{Dialled-cases, expected, clusters_of}
use cheshmhayash.Start.StdioRun.{Terminal, StdioRun, leave, run_loaded, run_stdio}

-- What every frame asks, the loop asks.
serve-All :
    (P : Call → Type 0) (s : Server)
    → ((frame : String) → All P (dispatch s frame).calls)
    → (events : List Event) (session : Session) → All P session.calls
    → All P (Stdio.serve s events session).0.calls
unfolding Stdio.serve handle_line
serve-All P s h [] session c = c
serve-All P s h (line frame ∷ events) session c =
    serve-All P s h events (handle_line s frame session)
      (All-append P session.calls (dispatch s frame).calls c (h frame))
serve-All P s h (closed ∷ events) session c = c
serve-All P s h (broken why ∷ events) session c = c
serve-All P s h (cancelled why ∷ events) session c = c

-- Once it has ended, the connections are drained; and what was asked is read-only, unless the
-- environment enables the mutating tools.
abbrev pub Leaves : Outside → List ℕ → StdioRun → Type 0
Leaves o conns r =
    ((r.ended ≡ false) ⊎ (r.drained ≡ conns))
    × (((o.env "CHESHMHAYASH_MCP_WRITE" == "1") ≡ true) ⊎ All IsRead r.session.calls)

leave-Leaves :
    (o : Outside) (clusters : List Cluster) (session : Session) (exit : Option Stdio.Exit)
    → ((o.env "CHESHMHAYASH_MCP_WRITE" == "1") ≡ true) ⊎ All IsRead session.calls
    → Leaves o (close clusters) (leave clusters (session, exit))
unfolding leave
leave-Leaves o clusters session none h = (inl refl, h)
leave-Leaves o clusters session (some done) h = (inr refl, h)
leave-Leaves o clusters session (some (error why)) h = (inr refl, h)
leave-Leaves o clusters session (some (interrupted why)) h = (inr refl, h)

serve-reads :
    (o : Outside) (rt : Runtime) (events : List Event)
    → ((o.env "CHESHMHAYASH_MCP_WRITE" == "1") ≡ true)
      ⊎ All IsRead (Stdio.serve (new_server rt (write_enabled o.env)) events Stdio.start).0.calls
unfolding write_enabled
serve-reads o rt events = elim (Bool-cases (o.env "CHESHMHAYASH_MCP_WRITE" == "1")) [
  | inl on ↦ inl on
  | inr off ↦
      inr
        (rw off (serve-All IsRead (new_server rt false) (dispatch-reads rt) events Stdio.start tt))
]

run_loaded-Leaves :
    (o : Outside) (t : Terminal) (l : Loaded)
    → Distinct (clusters_of l)
    → Leaves o (expected o.dial l) (run_loaded o t l)
unfolding run_loaded
run_loaded-Leaves o t (refused e) d = (inr refl, inr tt)
run_loaded-Leaves o t crashed d = (inr refl, inr tt)
run_loaded-Leaves o t (loaded s) d = elim (Dialled-cases (new_manager o.dial s.nats)) [
  | inl (clusters, f) ↦
      rw (f, run_loaded)
        (subst
          (λ conns. Leaves o conns (
            leave clusters (
              Stdio.serve (new_server (t.runtime clusters) (write_enabled o.env)) t.events
                Stdio.start)))
          (sym (ap drained f) ∙ new_manager-drained o.dial s.nats d)
          (leave-Leaves o clusters _ _ (serve-reads o (t.runtime clusters) t.events)))
  | inr (why, conns, f) ↦
      rw (f, run_loaded) (inr (sym (ap drained f) ∙ new_manager-drained o.dial s.nats d), inr tt)
]

-- Whatever stands on standard input and whenever a signal comes, for clusters with distinct names:
-- runStdio has drained, when it ends, the connections that it opened, each once; and unless
-- CHESHMHAYASH_MCP_WRITE is 1, it has made no request but those of the read-only operations.
pub run_stdio-Leaves :
    (o : Outside) (t : Terminal)
    → Distinct (clusters_of o.settings)
    → Leaves o (expected o.dial o.settings) (run_stdio o t)
unfolding run_stdio
run_stdio-Leaves o t d = run_loaded-Leaves o t o.settings d
