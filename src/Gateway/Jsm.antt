-- ===== src/Gateway/Jsm.antt =====
-- internal/handler/jsm.go
use cheshmhayash.Common.{ℕ, ◌+◌, ◌-◌, ◌/◌, ◌%◌, String, Option, none, some, ◌==◌, if◌then◌else◌}
pub mod Offset
pub mod Stream
use cheshmhayash.Common.Text.{◌<>◌}
use cheshmhayash.Json.{Json, Fields, null, obj, field, lookup, decode_string}
use cheshmhayash.Http.{
  Request, Response, write_json, http_error, write_status, message, with_header,
}
use cheshmhayash.Natsx.{Conn}
use cheshmhayash.Natsx
use cheshmhayash.Natsx.Decimal.{decimal, parse_uint}
use cheshmhayash.Auth.Middleware.{aborted}
use cheshmhayash.Natsx.Cache.{Snapshot}
use cheshmhayash.Gateway.{Manager, resolve, single, many, write_raw, Coding}

-- The cache as a handler reads it: none when it is switched off.
abbrev pub CacheView : Type 0
CacheView = Option (String → Option Snapshot)

-- A missing, malformed or overlong offset is 0.
unfoldable pub parse_offset : Request → ℕ
unfolding parse_uint
parse_offset r = elim (parse_uint (r.query "offset")) [ some n ↦ n | none ↦ 0 ]

unfoldable pub require_confirm : Request → Response → Response
unfolding write_json
require_confirm r rest =
    if r.query "confirm" == "true"
    then rest
    else write_json 428 (message "destructive action requires ?confirm=true")

-- Seconds with one decimal, from nanoseconds.
unfoldable pub format_age : ℕ → String
unfolding decimal
format_age age =
    let tenths = (age + 50_000_000) / 100_000_000 in
    decimal (tenths / 10) <> ("." <> decimal (tenths % 10))

unfoldable pub serve_snapshot : ℕ → Snapshot → Response
unfolding format_age write_raw write_json
serve_snapshot now snap =
    if snap.err == ""
    then with_header "X-Overview-Age-Seconds" (format_age (now - snap.updated))
        (write_raw snap.payload)
    else write_json 502 (message snap.err)

-- The configuration of an update: the name is added when it is missing, and must be the stream's.
pub data Config : Type 0 where
  accepted : String → Config
  refused : Response → Config

unfoldable pub named_config : Coding → String → Fields → Config
unfolding lookup decode_string write_json
named_config k stream body = elim (lookup "name" body) [
  | some raw ↦ elim (decode_string "" raw) [
    | none ↦ refused (write_json 400 (message "config.name must be a string"))
    | some n ↦
        if n == stream
        then accepted (k.encode body)
        else refused (
            write_json 400 (
              message
                ("config name '" <> (n <> ("' does not match URL stream '" <> (stream <> "'"))))))
  ]
  | none ↦ elim (k.quoted stream) [
    | none ↦ refused (write_json 500 (message "re-encode config"))
    | some quoted ↦ accepted (k.encode (field "name" quoted body))
  ]
]

-- A body of null leaves the map nil, and the assignment of the missing name panics.
unfoldable pub read_config : Coding → String → Option Json → Config
unfolding named_config
read_config k stream (some (obj body)) = named_config k stream body
read_config k stream (some null) = refused aborted
read_config k stream _ =
    refused (write_json 400 (message "body must be a StreamConfig JSON object"))

module _ (m : Manager) where
  unfoldable pub overview : CacheView → ℕ → Request → String → Response
  overview cache now r cluster = resolve m cluster λ c. elim cache [
    | none ↦ many c Natsx.jsm_overview
    | some read ↦
        if r.query "live" == "true" then many c Natsx.jsm_overview else elim (read cluster) [
          | some snap ↦ serve_snapshot now snap
          | none ↦ many c Natsx.jsm_overview
        ]
  ]

  -- The response's start; the events that follow are the cache's.
  unfoldable pub overview_stream : CacheView → String → Response
  unfolding http_error write_status
  overview_stream cache cluster = resolve m cluster λ c. elim cache [
    | none ↦ http_error 503 "overview cache disabled"
    | some read ↦ with_header "Content-Type" "text/event-stream" (
        with_header "Cache-Control" "no-cache, no-store" (
          with_header "Connection" "keep-alive"
            (with_header "X-Accel-Buffering" "no" (write_status 200))))
  ]

  unfoldable pub list_streams : Request → String → Response
  list_streams r cluster = resolve m cluster λ c. single c (Natsx.list_streams (parse_offset r))

  unfoldable pub stream_info : String → String → Response
  stream_info cluster stream = resolve m cluster λ c. single c (Natsx.stream_info stream)

  unfoldable pub update_stream : Coding → Request → String → String → Response
  update_stream k r cluster stream = resolve m cluster λ c.
      elim (read_config k stream (k.parse r.body)) [
        | accepted payload ↦ single c (Natsx.update_stream stream payload)
        | refused resp ↦ resp
      ]

  unfoldable pub purge_stream : Request → String → String → Response
  purge_stream r cluster stream =
      require_confirm r (resolve m cluster λ c. single c (Natsx.purge_stream stream))

  unfoldable pub delete_stream : Request → String → String → Response
  delete_stream r cluster stream =
      require_confirm r (resolve m cluster λ c. single c (Natsx.delete_stream stream))

  unfoldable pub list_consumers : Request → String → String → Response
  list_consumers r cluster stream =
      resolve m cluster λ c. single c (Natsx.list_consumers stream (parse_offset r))

  unfoldable pub consumer_info : String → String → String → Response
  consumer_info cluster stream consumer =
      resolve m cluster λ c. single c (Natsx.consumer_info stream consumer)

  unfoldable pub meta_stepdown : Request → String → Response
  meta_stepdown r cluster =
      require_confirm r (resolve m cluster λ c. single c Natsx.meta_leader_stepdown)

  unfoldable pub stream_stepdown : Request → String → String → Response
  stream_stepdown r cluster stream =
      require_confirm r (resolve m cluster λ c. single c (Natsx.stream_leader_stepdown stream))

  unfoldable pub consumer_stepdown : Request → String → String → String → Response
  consumer_stepdown r cluster stream consumer =
      require_confirm r
        (resolve m cluster λ c. single c (Natsx.consumer_leader_stepdown stream consumer))

  unfoldable pub delete_consumer : Request → String → String → String → Response
  delete_consumer r cluster stream consumer =
      require_confirm r (resolve m cluster λ c. single c (Natsx.delete_consumer stream consumer))
