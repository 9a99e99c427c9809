-- ===== src/Natsx.antt =====
-- internal/natsx: the subjects that the gateway publishes to, and one request or one discovery over
-- a connection. The NATS client is the record `Conn`.
pub mod Subjects
pub mod Decimal
pub mod Discovery
pub mod Cache
use cheshmhayash.Common.{
  ℕ, Bool, true, false, String, List, [], ◌∷◌, Option, none, some, ◌==◌, if◌then◌else◌,
}
use cheshmhayash.Common.Text.{◌<>◌, to_upper, mem}
use cheshmhayash.Http.{Call}
use Decimal.{decimal}

-- Why a request failed; `no_responders` and `timeout` are nats.ErrNoResponders and nats.ErrTimeout.
pub data Fault : Type 0 where
  no_responders timeout other : String → Fault

pub data Reply {ℓ} (A : Type ℓ) : Type ℓ where
  ok : A → Reply A
  err : Fault → Reply A

-- A live connection. `request` is nc.Request; `collect` is the messages that reach the inbox within
-- the window, or the error of subscribing, publishing or flushing, as `discover` words it; `valid` is json.Valid.
pub record Conn : Type 0 where
  pub request : Call → Reply String
  pub collect : Call → Reply (List String)
  pub valid : String → Bool

abbrev pub wrap : String → Fault → Fault
wrap prefix (no_responders e) = no_responders (prefix <> e)
wrap prefix (timeout e) = timeout (prefix <> e)
wrap prefix (other e) = other (prefix <> e)

-- requestJSON
unfoldable pub request_json : Conn → Call → Reply String
request_json c call =
    let prefix = "request " <> (call.subject <> ": ") in
    elim (c.request call) [
      | err e ↦ err (wrap prefix e)
      | ok body ↦ if c.valid body then ok body else err (other (prefix <> "reply not valid JSON"))
    ]

-- The loop of `discover` over the messages: what is not JSON is dropped.
unfoldable pub keep_valid : Conn → List String → List String
keep_valid c [] = []
keep_valid c (m ∷ ms) = let rest = keep_valid c ms in if c.valid m then m ∷ rest else rest

unfoldable pub discover : Conn → Call → Reply (List String)
unfolding keep_valid
discover c call = elim (c.collect call) [ err e ↦ err e | ok messages ↦ ok (keep_valid c messages) ]

-- marshalArray, rawArray and the writes of writeRawArray.
unfoldable pub array_tail : List String → String
array_tail [] = "]"
array_tail (m ∷ ms) = "," <> (m <> array_tail ms)

unfoldable pub marshal_array : List String → String
unfolding array_tail
marshal_array [] = "[]"
marshal_array (m ∷ ms) = "[" <> (m <> array_tail ms)

abbrev pub server_endpoints : List String
server_endpoints =
    "VARZ" ∷ "CONNZ" ∷ "ROUTEZ" ∷ "GATEWAYZ" ∷ "LEAFZ" ∷ "SUBSZ" ∷ "JSZ" ∷ "ACCOUNTZ" ∷ "HEALTHZ"
    ∷ "STATSZ" ∷ []

abbrev pub account_endpoints : List String
account_endpoints = "CONNZ" ∷ "LEAFZ" ∷ "SUBSZ" ∷ "JSZ" ∷ "INFO" ∷ []

unfoldable pub is_server_endpoint : String → Bool
unfolding to_upper mem
is_server_endpoint ep = mem server_endpoints (to_upper ep)

unfoldable pub is_account_endpoint : String → Bool
unfolding to_upper mem
is_account_endpoint ep = mem account_endpoints (to_upper ep)

abbrev bare : String → Call
bare subject = record { subject = subject; payload = "" }

abbrev offset_payload : ℕ → String
offset_payload n = "{\"offset\":" <> (decimal n <> "}")

-- admin.go
unfoldable pub ping : Call
ping = bare "$SYS.REQ.SERVER.PING"

unfoldable pub ping_endpoint : String → Call
ping_endpoint ep = bare ("$SYS.REQ.SERVER.PING." <> to_upper ep)

unfoldable pub server_endpoint : String → String → Call
server_endpoint id ep = bare ("$SYS.REQ.SERVER." <> (id <> ("." <> to_upper ep)))

unfoldable pub account_endpoint : String → String → Call
account_endpoint account ep = bare ("$SYS.REQ.ACCOUNT." <> (account <> ("." <> to_upper ep)))

unfoldable pub reload : String → Call
reload id = bare ("$SYS.REQ.SERVER." <> (id <> ".RELOAD"))

unfoldable pub lame_duck : String → Call
lame_duck id = bare ("$SYS.REQ.SERVER." <> (id <> ".LDM"))

unfoldable pub kick : String → ℕ → Call
kick id cid = record {
  subject = "$SYS.REQ.SERVER." <> (id <> ".KICK");
  payload = "{\"cid\":" <> (decimal cid <> "}");
}

-- jsm.go
unfoldable pub list_streams : ℕ → Call
list_streams offset = record { subject = "$JS.API.STREAM.LIST"; payload = offset_payload offset }

unfoldable pub stream_info : String → Call
stream_info name = bare ("$JS.API.STREAM.INFO." <> name)

unfoldable pub update_stream : String → String → Call
update_stream name config = record { subject = "$JS.API.STREAM.UPDATE." <> name; payload = config }

unfoldable pub purge_stream : String → Call
purge_stream name = bare ("$JS.API.STREAM.PURGE." <> name)

unfoldable pub delete_stream : String → Call
delete_stream name = bare ("$JS.API.STREAM.DELETE." <> name)

unfoldable pub list_consumers : String → ℕ → Call
list_consumers stream offset = record {
  subject = "$JS.API.CONSUMER.LIST." <> stream;
  payload = offset_payload offset;
}

unfoldable pub consumer_info : String → String → Call
consumer_info stream consumer = bare ("$JS.API.CONSUMER.INFO." <> (stream <> ("." <> consumer)))

unfoldable pub delete_consumer : String → String → Call
delete_consumer stream consumer = bare ("$JS.API.CONSUMER.DELETE." <> (stream <> ("." <> consumer)))

unfoldable pub meta_leader_stepdown : Call
meta_leader_stepdown = bare "$JS.API.META.LEADER.STEPDOWN"

unfoldable pub stream_leader_stepdown : String → Call
stream_leader_stepdown name = bare ("$JS.API.STREAM.LEADER.STEPDOWN." <> name)

unfoldable pub consumer_leader_stepdown : String → String → Call
consumer_leader_stepdown stream consumer =
    bare ("$JS.API.CONSUMER.LEADER.STEPDOWN." <> (stream <> ("." <> consumer)))

unfoldable pub jsm_overview : Call
jsm_overview = record {
  subject = "$SYS.REQ.SERVER.PING.JSZ";
  payload = "{\"accounts\":true,\"config\":true,\"consumer\":true,\"raft\":true,\"streams\":true}";
}
