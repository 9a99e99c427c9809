-- ===== src/Gateway/Admin.antt =====
-- internal/handler/admin.go
use Prim.Native.String.{[], ◌∷◌}
use cheshmhayash.Common.{
  ℕ, true, false, String, List, [], ◌∷◌, Option, none, some, if◌then◌else◌, eqb,
}
use cheshmhayash.Common.Text.{equal_fold, mem}
use cheshmhayash.Json.{Json, Fields, null, obj, number, end, field, strings, arr}
use cheshmhayash.Http.{Response, write_json, message}
use cheshmhayash.Natsx.{
  Conn, server_endpoints, account_endpoints, is_server_endpoint, is_account_endpoint,
}
use cheshmhayash.Natsx
use cheshmhayash.Natsx.Decimal.{parse_uint}
use cheshmhayash.Gateway.{Manager, resolve, single, many, unknown_endpoint, Coding}
use text.Mathlib.Text.{is_le}
use Prim.Native.String.{compare}

-- Manager.Names, and sort.Strings on it, by the bytes of the texts.
unfoldable pub insert_name : String → List String → List String
insert_name s [] = s ∷ []
insert_name s (t ∷ ts) = if is_le (compare s t) then s ∷ t ∷ ts else t ∷ insert_name s ts

unfoldable pub sort_names : List String → List String
unfolding insert_name
sort_names [] = []
sort_names (s ∷ ss) = insert_name s (sort_names ss)

-- The keys of the map: an entry that a later one replaces is not listed.
unfoldable pub names : Manager → List String
unfolding mem
names [] = []
names ((n, c) ∷ rest) = let later = names rest in if mem later n then later else n ∷ later

-- The body of a kick: `{"cid": N}`.
unfoldable pub decode_cid : ℕ → Fields → Option ℕ
unfolding equal_fold parse_uint
decode_cid cid end = some cid
decode_cid cid (field k v fs) = elim (equal_fold k "cid") [
  | false ↦ decode_cid cid fs
  | true ↦ elim v [
    | number literal ↦ elim (parse_uint literal) [ some n ↦ decode_cid n fs | none ↦ none ]
    | null ↦ decode_cid cid fs
    | _ ↦ none
  ]
]

abbrev pub decode_body : Option Json → Option ℕ
decode_body (some (obj fs)) = decode_cid 0 fs
decode_body (some null) = some 0
decode_body _ = none

-- The handlers, over the path's values.
module _ (m : Manager) where
  unfoldable pub list_clusters : Response
  unfolding sort_names names write_json
  list_clusters = write_json 200 (arr (strings (sort_names (names m))))

  unfoldable pub ping : String → Response
  ping cluster = resolve m cluster λ c. many c Natsx.ping

  unfoldable pub ping_endpoint : String → String → Response
  ping_endpoint cluster ep = resolve m cluster λ c.
      if is_server_endpoint ep
      then many c (Natsx.ping_endpoint ep)
      else unknown_endpoint ep server_endpoints

  unfoldable pub server_endpoint : String → String → String → Response
  server_endpoint cluster id ep = resolve m cluster λ c.
      if is_server_endpoint ep
      then single c (Natsx.server_endpoint id ep)
      else unknown_endpoint ep server_endpoints

  unfoldable pub account_endpoint : String → String → String → Response
  account_endpoint cluster account ep = resolve m cluster λ c.
      if is_account_endpoint ep
      then many c (Natsx.account_endpoint account ep)
      else unknown_endpoint ep account_endpoints

  unfoldable pub reload : String → String → Response
  reload cluster id = resolve m cluster λ c. single c (Natsx.reload id)

  unfoldable pub lame_duck : String → String → Response
  lame_duck cluster id = resolve m cluster λ c. single c (Natsx.lame_duck id)

  unfoldable pub kick : Coding → String → String → String → Response
  unfolding decode_cid
  kick k cluster id body = resolve m cluster λ c. elim (decode_body (k.parse body)) [
    | none ↦ write_json 400 (message "decode body")
    | some cid ↦
        if eqb cid 0
        then write_json 400 (message "cid is required")
        else single c (Natsx.kick id cid)
  ]
