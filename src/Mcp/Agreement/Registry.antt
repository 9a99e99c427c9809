-- ===== src/Mcp/Agreement/Registry.antt =====
-- The registry of tools against the routes of the HTTP API.
use mathlib.Core.Path.{subst}
use cheshmhayash.Common.{
  ◌≡◌, map, sym, eq_iff, refl, true, String, List, [], ◌∷◌, ◌++◌, Option, none, some, All, arith,
  Bool-cases, inl, inr, ◌==◌, if◌then◌else◌, All-append,
}
use cheshmhayash.Auth.{Authenticator}
use cheshmhayash.Gateway.Mux.{World, perform}
use cheshmhayash.Mcp.{Runtime, text}
use cheshmhayash.Mcp.Args.{Args, decode_args}
use cheshmhayash.Mcp.Frame.{Raw}
use cheshmhayash.Mcp.Table.{Tool, build_tools, read_tools, write_tools}
use cheshmhayash.Mcp.Rpc.{find_tool}
use cheshmhayash.Mcp.Agreement.{
  Twin, Serves, Same, Agrees, read_twins, write_twins, over, request_of,
}
use cheshmhayash.Mcp.Agreement.Reads
use cheshmhayash.Mcp.Agreement.Writes

abbrev ServesTool : Twin → Option Tool → Type 0
ServesTool tw none = Unit
ServesTool tw (some t) = Serves tw t.handler

-- The tool that the registry holds under a twin's name serves the twin.
abbrev Found : Twin → Type 0
Found tw = ServesTool tw (find_tool (build_tools true) tw.name)

read_twins-Found : All Found read_twins
unfolding find_tool build_tools read_tools write_tools
read_twins-Found = (
  Reads.server_ping-Serves,
  (
    Reads.server_ping_endpoint-Serves,
    (
      Reads.server_endpoint-Serves,
      (
        Reads.account_endpoint-Serves,
        (
          Reads.jsm_overview-Serves,
          (
            Reads.stream_list-Serves,
            (
              Reads.stream_info-Serves,
              (Reads.consumer_list-Serves, (Reads.consumer_info-Serves, tt)),
            ),
          ),
        ),
      ),
    ),
  ),
)

write_twins-Found : All Found write_twins
unfolding find_tool build_tools read_tools write_tools
write_twins-Found = (
  Writes.server_reload-Serves,
  (
    Writes.server_lame_duck-Serves,
    (
      Writes.server_kick-Serves,
      (
        Writes.stream_update-Serves,
        (
          Writes.stream_purge-Serves,
          (
            Writes.stream_delete-Serves,
            (
              Writes.consumer_delete-Serves,
              (
                Writes.meta_stepdown-Serves,
                (Writes.stream_stepdown-Serves, (Writes.consumer_stepdown-Serves, tt)),
              ),
            ),
          ),
        ),
      ),
    ),
  ),
)

abbrev pub twins : List Twin
twins = read_twins ++ write_twins

-- Every tool but the first, cluster_list, has a counterpart.
twins_test :
    map (λ (t : Tool). t.name) (build_tools true)
    ≡ "cluster_list" ∷ map (λ (tw : Twin). tw.name) twins
unfolding build_tools read_tools write_tools
twins_test = refl

unfoldable pub find_twin : List Twin → String → Option Twin
find_twin [] name = none
find_twin (t ∷ ts) name = let later = find_twin ts name in if t.name == name then some t else later

find_twin-Found :
    (ts : List Twin) (name : String) (tw : Twin)
    → All Found ts
    → find_twin ts name ≡ some tw
    → Found tw × (tw.name ≡ name)
unfolding find_twin
find_twin-Found [] name tw h e = ground arith
find_twin-Found (u ∷ us) name tw (p, h) e = elim (Bool-cases (u.name == name)) [
  | inl same ↦
      let hit : some u ≡ some tw = ground (arith, e, same) in
      subst (λ (o : Option Twin). Held name o) hit (p, (eq_iff u.name name).0 same)
  | inr other ↦ find_twin-Found us name tw h (ground (arith, e, other))
]
  where
    Held : String → Option Twin → Type 0
    Held n none = Unit
    Held n (some t) = Found t × (t.name ≡ n)

-- When a tool that has a counterpart in the HTTP API answers with a text, the API, asked for the same
-- thing with `confirm=true` and `live=true` over the same clusters, answers 200 with that text, and
-- both have asked NATS the same.
pub tool-Same :
    (w : World) (authn : Option Authenticator) (rt : Runtime) (name : String) (tw : Twin) (t : Tool)
    (args : Raw) (a : Args) (body answer : String)
    → find_twin twins name ≡ some tw
    → find_tool (build_tools true) name ≡ some t
    → decode_args tw.fields args ≡ some a
    → w.coding.parse body ≡ some (tw.body a)
    → (t.handler (over w rt) args).answer ≡ text answer
    → Same answer
        (t.handler (over w rt) args)
        (perform w authn tw.action (tw.values a) (request_of a body))
unfolding Agrees
tool-Same w authn rt name tw t args a body answer f g d k e =
    let found =
      find_twin-Found twins name tw
        (All-append Found read_twins write_twins read_twins-Found write_twins-Found) f in
    let held : find_tool (build_tools true) tw.name ≡ some t =
      subst (λ n. find_tool (build_tools true) n ≡ some t) (sym found.1) g in
    subst (ServesTool tw) held found.0 w authn rt args a body d k answer e
