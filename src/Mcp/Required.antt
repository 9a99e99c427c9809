-- ===== src/Mcp/Required.antt =====
-- The arguments that a schema requires are those that its tool cannot do without.
mod Steps
mod Reads
mod Writes
use cheshmhayash.Common.{
  ◌≡◌, refl, sym, ap, ◌∙◌, inl, inr, ◌⊎◌, not, ◌||◌, Bool, true, false, String, List, [], ◌∷◌,
  Option, none, some, All, All-append, arith, Bool-cases, Option-cases, ◌==◌, eq_iff, eqb,
  if◌then◌else◌,
}
use mathlib.Core.Path.{subst}
use cheshmhayash.Common.Text.{mem}
use cheshmhayash.Json.{Json, Items, Fields, str, arr, obj, nil, cons, lookup}
use cheshmhayash.Natsx.{Conn, is_server_endpoint, is_account_endpoint}
use cheshmhayash.Mcp.{Runtime, Outcome, failed, refuse, resolve_cluster}
use cheshmhayash.Mcp.Args.{
  Field, Args, tag, decode_args, decoded, cluster, server_id, endpoint, account, stream, consumer,
  offset, cid, confirm, config,
}
use cheshmhayash.Mcp.Args.Zero.{missing, Zero, decode_args-Zero}
use cheshmhayash.Mcp.Frame.{Raw}
use cheshmhayash.Mcp.Table.{Tool, read_tools, write_tools, build_tools}
use cheshmhayash.Mcp.Rpc.{find_tool}
use cheshmhayash.Mcp.Laws.{find_tool-All}
use cheshmhayash.Mcp.Strict.{Refuses}
use Reads
use Writes

-- The names that a schema requires.
unfoldable pub required : Json → List String
unfolding lookup
required (obj fs) = elim (lookup "required" fs) [ none ↦ [] | some v ↦ listed v ]
  where
    texts : Items → List String
    texts nil = []
    texts (cons (str s) rest) = s ∷ texts rest
    texts (cons _ rest) = texts rest

    listed : Json → List String
    listed (arr items) = texts items
    listed _ = []
required _ = []

-- The tool refuses arguments that lack the name.
abbrev Requires : Tool → String → Type 0
Requires t name =
    (rt : Runtime) (args : Raw) → missing name args ≡ true → Refuses (t.handler rt args)

abbrev Enforces : Tool → Type 0
Enforces t = All (Requires t) (required t.input_schema)

read_tools-Enforces : All Enforces read_tools
unfolding read_tools required tag
read_tools-Enforces = (
  tt,
  (
    Reads.server_ping-Needs,
    (
      Reads.server_ping_endpoint-Needs,
      (
        Reads.server_endpoint-Needs,
        (
          Reads.account_endpoint-Needs,
          (
            Reads.jsm_overview-Needs,
            (
              Reads.stream_list-Needs,
              (
                Reads.stream_info-Needs,
                (Reads.consumer_list-Needs, (Reads.consumer_info-Needs, tt)),
              ),
            ),
          ),
        ),
      ),
    ),
  ),
)

write_tools-Enforces : All Enforces write_tools
unfolding write_tools required tag
write_tools-Enforces = (
  Writes.server_reload-Needs,
  (
    Writes.server_lame_duck-Needs,
    (
      Writes.server_kick-Needs,
      (
        Writes.stream_update-Needs,
        (
          Writes.stream_purge-Needs,
          (
            Writes.stream_delete-Needs,
            (
              Writes.consumer_delete-Needs,
              (
                Writes.meta_stepdown-Needs,
                (Writes.stream_stepdown-Needs, (Writes.consumer_stepdown-Needs, tt)),
              ),
            ),
          ),
        ),
      ),
    ),
  ),
)

build_tools-Enforces : (write : Bool) → All Enforces (build_tools write)
unfolding build_tools
build_tools-Enforces true =
    All-append Enforces read_tools write_tools read_tools-Enforces write_tools-Enforces
build_tools-Enforces false = read_tools-Enforces

named :
    (P : String → Type 0) (names : List String) (name : String)
    → All P names
    → mem names name ≡ true
    → P name
unfolding mem
named P [] name h m = absurd (cc m)
named P (x ∷ xs) name (p, h) m = elim (Bool-cases (x == name)) [
  | inl same ↦ subst P ((eq_iff x name).0 same) p
  | inr other ↦ named P xs name h (ground arith)
]

-- Every argument that the schema of a tool requires is one: called with arguments in which no key
-- reads as it, whatever the case of letters, the tool answers with an error and asks NATS nothing.
pub find_tool-Required :
    (rt : Runtime) (write : Bool) (tool : String) (t : Tool) (name : String) (args : Raw)
    → find_tool (build_tools write) tool ≡ some t
    → mem (required t.input_schema) name ≡ true
    → missing name args ≡ true
    → Refuses (t.handler rt args)
find_tool-Required rt write tool t name args f listed lost =
    named (Requires t) (required t.input_schema) name
      (find_tool-All Enforces (build_tools write) tool t (build_tools-Enforces write) f) listed rt
      args lost
