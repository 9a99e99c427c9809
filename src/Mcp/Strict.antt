-- ===== src/Mcp/Strict.antt =====
-- The tools do not decode what their schemas rule out by the names and the types of the properties.
use cheshmhayash.Common.{
  ◌≡◌, ◌≢◌, refl, Bool, true, false, String, List, [], ◌∷◌, Option, none, some, All, All-append,
  arith,
}
use cheshmhayash.Json.{Json, Fields, str, obj, end, field, lookup}
use cheshmhayash.Mcp.{Runtime, Outcome, failed, refuse}
use cheshmhayash.Mcp.Args.{
  Field, Args, tag, decode_args, no_args, decoded, account_endpoint_arg, cluster_arg,
  cluster_confirm_arg, consumer_arg, consumer_confirm_arg, consumer_list_arg, kick_arg,
  ping_endpoint_arg, server_endpoint_arg, server_id_arg, server_id_confirm_arg, stream_arg,
  stream_confirm_arg, stream_list_arg, stream_update_arg,
}
use cheshmhayash.Mcp.Args.Fits.{misfit, kind, struct, decode_fields-misfit}
use cheshmhayash.Mcp.Frame.{Raw}
use cheshmhayash.Mcp.Tools
use cheshmhayash.Mcp.Writes
use cheshmhayash.Mcp.Table.{Tool, read_tools, write_tools, build_tools}
use cheshmhayash.Mcp.Rpc.{find_tool}
use cheshmhayash.Mcp.Laws.{find_tool-All}

-- A property's name, and the type that the schema gives it.
abbrev typed : String → Option Json → String × String
typed name (some (str t)) = (name, t)
typed name _ = (name, "")

abbrev property : String → Json → String × String
unfolding lookup
property name (obj fs) = typed name (lookup "type" fs)
property name _ = (name, "")

abbrev listed : Fields → List (String × String)
listed end = []
listed (field k v fs) = property k v ∷ listed fs

unfoldable pub properties : Json → List (String × String)
unfolding lookup property
properties (obj fs) = elim (lookup "properties" fs) [ none ↦ [] | some v ↦ inner v ]
  where
    inner : Json → List (String × String)
    inner (obj gs) = listed gs
    inner _ = []
properties _ = []

-- The tool has asked nothing and has answered with an error.
abbrev pub Refuses : Outcome → Type 0
Refuses out = ((why : String) × (out.answer ≡ failed why)) × (out.calls ≡ [])

decoded-Refuses :
    (rt : Runtime) (fs : List Field) (args : Raw) (k : Args → Outcome)
    → decode_args fs args ≡ none
    → Refuses (decoded rt fs args k)
unfolding decoded refuse
decoded-Refuses rt fs args k e = rw (e, decoded) ((_, refl), refl)

-- The tool refuses an object that does not fit its schema.
abbrev StrictFor : Tool → Type 0
StrictFor t =
    (rt : Runtime) (values : Fields)
    → misfit (properties t.input_schema) values ≡ true
    → Refuses (t.handler rt (some (obj values)))

abbrev Strict : Tool → Type 0
Strict t = t.name ≢ "cluster_list" → StrictFor t

strict :
    (fs : List Field) (handler : Runtime → Raw → Outcome)
    → ((rt : Runtime) (args : Raw) → decode_args fs args ≡ none → Refuses (handler rt args))
    → (rt : Runtime) (values : Fields) → misfit (struct fs) values ≡ true
    → Refuses (handler rt (some (obj values)))
unfolding decode_args
strict fs handler h rt values u =
    h rt (some (obj values)) (decode_fields-misfit fs no_args values u)

read_tools-Strict : All Strict read_tools
unfolding read_tools tag kind properties Tools.server_ping Tools.server_ping_endpoint
    Tools.server_endpoint Tools.account_endpoint Tools.jsm_overview Tools.stream_list
    Tools.stream_info Tools.consumer_list Tools.consumer_info
read_tools-Strict = (
  ground arith,
  (
    λ _. strict cluster_arg Tools.server_ping λ rt args. decoded-Refuses rt cluster_arg args _,
    (
      λ _.
          strict ping_endpoint_arg Tools.server_ping_endpoint
            λ rt args. decoded-Refuses rt ping_endpoint_arg args _,
      (
        λ _.
            strict server_endpoint_arg Tools.server_endpoint
              λ rt args. decoded-Refuses rt server_endpoint_arg args _,
        (
          λ _.
              strict account_endpoint_arg Tools.account_endpoint
                λ rt args. decoded-Refuses rt account_endpoint_arg args _,
          (
            λ _.
                strict cluster_arg Tools.jsm_overview
                  λ rt args. decoded-Refuses rt cluster_arg args _,
            (
              λ _.
                  strict stream_list_arg Tools.stream_list
                    λ rt args. decoded-Refuses rt stream_list_arg args _,
              (
                λ _.
                    strict stream_arg Tools.stream_info
                      λ rt args. decoded-Refuses rt stream_arg args _,
                (
                  λ _.
                      strict consumer_list_arg Tools.consumer_list
                        λ rt args. decoded-Refuses rt consumer_list_arg args _,
                  (
                    λ _.
                        strict consumer_arg Tools.consumer_info
                          λ rt args. decoded-Refuses rt consumer_arg args _,
                    tt,
                  ),
                ),
              ),
            ),
          ),
        ),
      ),
    ),
  ),
)

write_tools-Strict : All Strict write_tools
unfolding write_tools tag kind properties Writes.server_reload Writes.server_lame_duck
    Writes.server_kick Writes.stream_update Writes.stream_purge Writes.stream_delete
    Writes.consumer_delete Writes.meta_stepdown Writes.stream_stepdown Writes.consumer_stepdown
write_tools-Strict = (
  λ _. strict server_id_arg Writes.server_reload λ rt args. decoded-Refuses rt server_id_arg args _,
  (
    λ _.
        strict server_id_confirm_arg Writes.server_lame_duck
          λ rt args. decoded-Refuses rt server_id_confirm_arg args _,
    (
      λ _. strict kick_arg Writes.server_kick λ rt args. decoded-Refuses rt kick_arg args _,
      (
        λ _.
            strict stream_update_arg Writes.stream_update
              λ rt args. decoded-Refuses rt stream_update_arg args _,
        (
          λ _.
              strict stream_confirm_arg Writes.stream_purge
                λ rt args. decoded-Refuses rt stream_confirm_arg args _,
          (
            λ _.
                strict stream_confirm_arg Writes.stream_delete
                  λ rt args. decoded-Refuses rt stream_confirm_arg args _,
            (
              λ _.
                  strict consumer_confirm_arg Writes.consumer_delete
                    λ rt args. decoded-Refuses rt consumer_confirm_arg args _,
              (
                λ _.
                    strict cluster_confirm_arg Writes.meta_stepdown
                      λ rt args. decoded-Refuses rt cluster_confirm_arg args _,
                (
                  λ _.
                      strict stream_confirm_arg Writes.stream_stepdown
                        λ rt args. decoded-Refuses rt stream_confirm_arg args _,
                  (
                    λ _.
                        strict consumer_confirm_arg Writes.consumer_stepdown
                          λ rt args. decoded-Refuses rt consumer_confirm_arg args _,
                    tt,
                  ),
                ),
              ),
            ),
          ),
        ),
      ),
    ),
  ),
)

build_tools-Strict : (write : Bool) → All Strict (build_tools write)
unfolding build_tools
build_tools-Strict true =
    All-append Strict read_tools write_tools read_tools-Strict write_tools-Strict
build_tools-Strict false = read_tools-Strict

-- A tool other than cluster_list refuses arguments that do not fit its schema's properties: called with
-- an object in which some key is none of them, with any case of letters, or has a value of another
-- type than its property's, null aside, it answers with an error and asks NATS nothing.
pub find_tool-Strict :
    (rt : Runtime) (write : Bool) (name : String) (t : Tool) (values : Fields)
    → find_tool (build_tools write) name ≡ some t
    → t.name ≢ "cluster_list"
    → misfit (properties t.input_schema) values ≡ true
    → Refuses (t.handler rt (some (obj values)))
find_tool-Strict rt write name t values f other u =
    find_tool-All Strict (build_tools write) name t (build_tools-Strict write) f other rt values u
