-- ===== src/Notify/Classify.antt =====
-- internal/notify/classify.go: which advisories are reported, and how. json.Unmarshal into a map is an
-- argument: the value of a payload, none where it is not JSON.
pub mod Laws
use cheshmhayash.Common.{
  ◌≡◌, refl, Bool, true, false, String, List, [], ◌∷◌, ◌++◌, Option, none, some, is_empty, ◌==◌,
  if◌then◌else◌,
}
use cheshmhayash.Common.Text.{◌<>◌, cut_prefix, cut, split, join}
use cheshmhayash.Json.{Json, Items, Fields, str, arr, obj, nil, cons, end, lookup}
use cheshmhayash.Notify.{Event}

abbrev pub local_prefix : String
local_prefix = "$JS.EVENT.ADVISORY."

abbrev pub account_prefix : String
account_prefix = "$SYS.ACCOUNT."

abbrev pub account_infix : String
account_infix = ".JETSTREAM.EVENT.ADVISORY."

-- jsAdvisorySuffix
unfoldable pub js_advisory_suffix : String → String
unfolding cut_prefix cut
js_advisory_suffix subj = elim (cut_prefix subj local_prefix) [
  | some rest ↦ rest
  | none ↦ elim (cut_prefix subj account_prefix) [
    | none ↦ ""
    | some s ↦ elim (cut s account_infix) [ none ↦ "" | some (account, rest) ↦ rest ]
  ]
]

-- str and strSlice; a nil map is one without entries.
abbrev pub text_of : Option Json → String
text_of (some (str s)) = s
text_of _ = ""

unfoldable pub str_field : Fields → String → String
unfolding lookup
str_field m key = text_of (lookup key m)

abbrev pub named : Json → List String
unfolding lookup
named (str s) = s ∷ []
named (obj fs) = elim (lookup "name" fs) [ some (str name) ↦ name ∷ [] | _ ↦ [] ]
named _ = []

unfoldable pub names_of : Items → List String
names_of nil = []
names_of (cons v vs) = named v ++ names_of vs

abbrev pub slice_of : Option Json → List String
unfolding names_of
slice_of (some (arr vs)) = names_of vs
slice_of _ = []

unfoldable pub str_slice : Fields → String → List String
unfolding lookup
str_slice m key = slice_of (lookup key m)

unfoldable pub replica_tail : List String → String
unfolding join
replica_tail replicas = if is_empty replicas then "" else " · replicas: " <> join replicas ", "

abbrev pub account_tag : String → String
account_tag account = if account == "" then "" else " (account " <> (account <> ")")

abbrev pub event : String → String → Option Event
event title body = some (record { title = title; body = body })

abbrev pub tick : String → String
tick s = "`" <> (s <> "`")

-- streamEvent
unfoldable pub stream_event : String → String → String → String → List String → Option Event
unfolding replica_tail
stream_event action account stream leader replicas =
    if action == "CREATED"
    then event ("Stream " <> (tick stream <> " created"))
        ("New stream " <> (tick stream <> (account_tag account <> ".")))
    else if action == "UPDATED"
    then event ("Stream " <> (tick stream <> " updated"))
        ("Stream config changed for " <> (tick stream <> (account_tag account <> ".")))
    else if action == "DELETED"
    then event ("Stream " <> (tick stream <> " deleted"))
        ("Stream " <> (tick stream <> (account_tag account <> " was removed.")))
    else if action == "LEADER_ELECTED"
    then event ("Stream " <> (tick stream <> " leader elected"))
        ("New leader: " <> (tick leader <> (account_tag account <> (replica_tail replicas <> "."))))
    else if action == "QUORUM_LOST"
    then event ("⚠ Stream " <> (tick stream <> " lost quorum")) (
        "Stream "
        <> (tick stream
            <> (account_tag account
                <> " lost quorum and is unavailable for writes until a new leader is elected.")))
    else none

-- consumerEvent
unfoldable pub consumer_event :
    String → String → String → String → String → List String → Option Event
unfolding replica_tail
consumer_event action account stream consumer leader replicas =
    let pair = tick (stream <> ("/" <> consumer)) in
    let both = tick consumer <> (" on stream " <> (tick stream <> account_tag account)) in
    if action == "CREATED"
    then event ("Consumer " <> (pair <> " created")) ("New consumer " <> (both <> "."))
    else if action == "DELETED"
    then event ("Consumer " <> (pair <> " deleted")) ("Consumer " <> (both <> " was removed."))
    else if action == "LEADER_ELECTED"
    then event ("Consumer " <> (pair <> " leader elected"))
        ("New leader: " <> (tick leader <> (account_tag account <> (replica_tail replicas <> "."))))
    else if action == "QUORUM_LOST"
    then event ("⚠ Consumer " <> (pair <> " lost quorum"))
        ("Consumer " <> (both <> " lost quorum."))
    else none

abbrev pub payload_of : Option Json → Fields
payload_of (some (obj fs)) = fs
payload_of _ = end

-- The kinds of advisory, by the tokens after the prefix.
unfoldable pub classify_parts : List String → Fields → Option Event
unfolding stream_event consumer_event str_field str_slice
classify_parts (kind ∷ action ∷ rest) m =
    if kind == "STREAM"
    then on_stream action rest
    else if kind == "CONSUMER"
    then on_consumer action rest
    else none
  where
    on_stream : String → List String → Option Event
    on_stream action [] = none
    on_stream action (stream ∷ more) =
        stream_event action (str_field m "account") stream (str_field m "leader")
          (str_slice m "replicas")

    on_consumer : String → List String → Option Event
    on_consumer action (stream ∷ consumer ∷ more) =
        consumer_event action (str_field m "account") stream consumer (str_field m "leader")
          (str_slice m "replicas")
    on_consumer action _ = none
classify_parts _ m = none

-- classify
unfoldable pub classify : (String → Option Json) → String → String → Option Event
unfolding js_advisory_suffix split classify_parts
classify unmarshal subject raw =
    let suffix = js_advisory_suffix subject in
    if suffix == "" then none else classify_parts (split suffix ".") (payload_of (unmarshal raw))

advisory_test :
    classify (λ raw. none) "$SYS.ACCOUNT.ops.JETSTREAM.EVENT.ADVISORY.STREAM.DELETED.orders" ""
    ≡ event "Stream `orders` deleted" "Stream `orders` was removed."
unfolding classify
advisory_test = refl
