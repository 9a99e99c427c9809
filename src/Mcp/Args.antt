-- ===== src/Mcp/Args.antt =====
-- internal/mcp/tools.go: the structs of arguments. A struct is the list of its fields, and its value
-- holds the zero of every field that it lacks.
pub mod Confirm
pub mod Bounds
pub mod Zero
pub mod Fits
use cheshmhayash.Common.{
  ℕ, ◌≡◌, refl, Bool, true, false, String, List, [], ◌∷◌, Option, none, some, map, if◌then◌else◌,
}
use cheshmhayash.Common.Text.{◌<>◌, equal_fold}
use cheshmhayash.Json.{Json, Fields, null, bool, number, obj, end, field, decode_string}
use cheshmhayash.Natsx.Decimal.{parse_uint}
use cheshmhayash.Mcp.{Runtime, Outcome, refuse}

pub data Field : Type 0 where
  cluster server_id endpoint account stream consumer : Field
  offset cid : Field
  confirm config : Field

unfoldable pub tag : Field → String
tag cluster = "cluster"
tag server_id = "server_id"
tag endpoint = "endpoint"
tag account = "account"
tag stream = "stream"
tag consumer = "consumer"
tag offset = "offset"
tag cid = "cid"
tag confirm = "confirm"
tag config = "config"

pub record Args : Type 0 where
  pub cluster : String
  pub server_id : String
  pub endpoint : String
  pub account : String
  pub stream : String
  pub consumer : String
  pub offset : ℕ
  pub cid : ℕ
  pub confirm : Bool
  pub config : Option Fields

abbrev pub no_args : Args
no_args = record {
  cluster = "";
  server_id = "";
  endpoint = "";
  account = "";
  stream = "";
  consumer = "";
  offset = 0;
  cid = 0;
  confirm = false;
  config = none;
}

-- A value decoded into a `uint64` or a `bool` that holds `old`.
unfoldable pub decode_uint : ℕ → Json → Option ℕ
unfolding parse_uint
decode_uint old (number literal) = parse_uint literal
decode_uint old null = some old
decode_uint old _ = none

unfoldable pub decode_bool : Bool → Json → Option Bool
decode_bool old (bool b) = some b
decode_bool old null = some old
decode_bool old _ = none

abbrev append_fields : Fields → Fields → Fields
append_fields end gs = gs
append_fields (field k v fs) gs = field k v (append_fields fs gs)

-- A value decoded into a map: an object adds its entries, null makes it nil.
unfoldable pub decode_map : Option Fields → Json → Option (Option Fields)
decode_map none (obj fs) = some (some fs)
decode_map (some old) (obj fs) = some (some (append_fields old fs))
decode_map old null = some none
decode_map old _ = none

abbrev pub set {ℓ} : {A : Type ℓ} → (A → Args) → Option A → Option Args
set f none = none
set f (some v) = some (f v)

unfoldable pub assign : Field → Json → Args → Option Args
unfolding decode_string decode_uint decode_bool decode_map
assign cluster v a = set (λ s. record a { cluster = s }) (decode_string a.cluster v)
assign server_id v a = set (λ s. record a { server_id = s }) (decode_string a.server_id v)
assign endpoint v a = set (λ s. record a { endpoint = s }) (decode_string a.endpoint v)
assign account v a = set (λ s. record a { account = s }) (decode_string a.account v)
assign stream v a = set (λ s. record a { stream = s }) (decode_string a.stream v)
assign consumer v a = set (λ s. record a { consumer = s }) (decode_string a.consumer v)
assign offset v a = set (λ n. record a { offset = n }) (decode_uint a.offset v)
assign cid v a = set (λ n. record a { cid = n }) (decode_uint a.cid v)
assign confirm v a = set (λ b. record a { confirm = b }) (decode_bool a.confirm v)
assign config v a = set (λ m. record a { config = m }) (decode_map a.config v)

-- The field that a key names, without regard to case.
unfoldable pub match_field : List Field → String → Option Field
unfolding equal_fold tag
match_field [] key = none
match_field (f ∷ fs) key =
    let later = match_field fs key in if equal_fold key (tag f) then some f else later

-- A key that names no field is an error: DisallowUnknownFields.
unfoldable pub decode_fields : List Field → Args → Fields → Option Args
unfolding match_field assign
decode_fields fs a end = some a
decode_fields fs a (field key v rest) = elim (match_field fs key) [
  | none ↦ none
  | some f ↦ elim (assign f v a) [ none ↦ none | some b ↦ decode_fields fs b rest ]
]

-- decodeArgs; `none` is no bytes at all.
unfoldable pub decode_args : List Field → Option Json → Option Args
unfolding decode_fields
decode_args fs none = some no_args
decode_args fs (some null) = some no_args
decode_args fs (some (obj values)) = decode_fields fs no_args values
decode_args fs (some _) = none

-- The start of every tool, with its rest.
unfoldable pub decoded : Runtime → List Field → Option Json → (Args → Outcome) → Outcome
unfolding decode_args tag refuse
decoded rt fs args k = elim (decode_args fs args) [
  | none ↦ refuse ("decode arguments: " <> rt.decode_error (map tag fs) args)
  | some a ↦ k a
]

abbrev pub cluster_arg : List Field
cluster_arg = cluster ∷ []

abbrev pub ping_endpoint_arg : List Field
ping_endpoint_arg = cluster ∷ endpoint ∷ []

abbrev pub server_endpoint_arg : List Field
server_endpoint_arg = cluster ∷ server_id ∷ endpoint ∷ []

abbrev pub account_endpoint_arg : List Field
account_endpoint_arg = cluster ∷ account ∷ endpoint ∷ []

abbrev pub stream_list_arg : List Field
stream_list_arg = cluster ∷ offset ∷ []

abbrev pub stream_arg : List Field
stream_arg = cluster ∷ stream ∷ []

abbrev pub consumer_list_arg : List Field
consumer_list_arg = cluster ∷ stream ∷ offset ∷ []

abbrev pub consumer_arg : List Field
consumer_arg = cluster ∷ stream ∷ consumer ∷ []

abbrev pub server_id_arg : List Field
server_id_arg = cluster ∷ server_id ∷ []

abbrev pub server_id_confirm_arg : List Field
server_id_confirm_arg = cluster ∷ server_id ∷ confirm ∷ []

abbrev pub kick_arg : List Field
kick_arg = cluster ∷ server_id ∷ cid ∷ confirm ∷ []

abbrev pub stream_update_arg : List Field
stream_update_arg = cluster ∷ stream ∷ config ∷ []

abbrev pub stream_confirm_arg : List Field
stream_confirm_arg = cluster ∷ stream ∷ confirm ∷ []

abbrev pub consumer_confirm_arg : List Field
consumer_confirm_arg = cluster ∷ stream ∷ consumer ∷ confirm ∷ []

abbrev pub cluster_confirm_arg : List Field
cluster_confirm_arg = cluster ∷ confirm ∷ []

args_test :
    decode_args stream_list_arg
      (some (obj (field "CLUSTER" (Json.str "main") (field "offset" (number "40") end))))
    ≡ some (record no_args { cluster = "main"; offset = 40 })
unfolding decode_args
args_test = refl

unknown_test : decode_args cluster_arg (some (obj (field "confirm" (bool true) end))) ≡ none
unfolding decode_args
unknown_test = refl
