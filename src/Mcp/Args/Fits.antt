-- ===== src/Mcp/Args/Fits.antt =====
-- internal/mcp/tools.go: objects that the decoding of the arguments refuses, by their keys and the types
-- of their values.
use cheshmhayash.Common.{
  ℕ, ◌≡◌, refl, inl, inr, ◌⊎◌, ◌&&◌, ◌||◌, ◌==◌, is_some, not, any, map, Bool, true, false, String,
  List, [], ◌∷◌, Option, none, some, arith, Bool-cases, Option-cases,
}
use cheshmhayash.Common.Text.{equal_fold}
use cheshmhayash.Json.{Json, Fields, null, bool, number, str, arr, obj, end, field, decode_string}
use cheshmhayash.Natsx.Decimal.{parse_uint}
use cheshmhayash.Mcp.Args.{
  Field, cluster, server_id, endpoint, account, stream, consumer, offset, cid, confirm, config,
  Args, tag, decode_uint, decode_bool, decode_map, assign, match_field, decode_fields,
}

-- Whether a value has a type of the schema. Here null has every type, and an integer is one from 0 on
-- that fits into 64 bits.
unfoldable pub of_type : String → Json → Bool
unfolding parse_uint
of_type t null = true
of_type t (bool b) = t == "boolean"
of_type t (number literal) = t == "integer" && is_some (parse_uint literal)
of_type t (str s) = t == "string"
of_type t (arr vs) = false
of_type t (obj fs) = t == "object"

abbrev pub fits : String → Json → String × String → Bool
fits k v p = equal_fold k p.0 && of_type p.1 v

-- Some key is not one of the names, whatever their case, or its value is not of the type that stands
-- there for the name.
unfoldable pub misfit : List (String × String) → Fields → Bool
unfolding equal_fold of_type
misfit ps end = false
misfit ps (field k v fs) = not (any (fits k v) ps) || misfit ps fs

-- The types of the structs' fields.
unfoldable pub kind : Field → String
kind cluster = "string"
kind server_id = "string"
kind endpoint = "string"
kind account = "string"
kind stream = "string"
kind consumer = "string"
kind offset = "integer"
kind cid = "integer"
kind confirm = "boolean"
kind config = "object"

abbrev pub struct : List Field → List (String × String)
struct fs = map (λ f. (tag f, kind f)) fs

decode_string-misfit :
    (old : String) (v : Json) → of_type "string" v ≡ false → decode_string old v ≡ none
unfolding of_type decode_string
decode_string-misfit old null h = ground arith
decode_string-misfit old (str s) h = ground arith
decode_string-misfit old _ h = refl

decode_uint-misfit : (old : ℕ) (v : Json) → of_type "integer" v ≡ false → decode_uint old v ≡ none
unfolding of_type decode_uint
decode_uint-misfit old null h = ground arith
decode_uint-misfit old (number literal) h = elim (Option-cases (parse_uint literal)) [
  | inl e ↦ e
  | inr (n, e) ↦ ground (arith, h, e)
]
decode_uint-misfit old _ h = refl

decode_bool-misfit :
    (old : Bool) (v : Json) → of_type "boolean" v ≡ false → decode_bool old v ≡ none
unfolding of_type decode_bool
decode_bool-misfit old null h = ground arith
decode_bool-misfit old (bool b) h = ground arith
decode_bool-misfit old _ h = refl

decode_map-misfit :
    (old : Option Fields) (v : Json) → of_type "object" v ≡ false → decode_map old v ≡ none
unfolding of_type decode_map
decode_map-misfit none null h = ground arith
decode_map-misfit none (obj fs) h = ground arith
decode_map-misfit none _ h = refl
decode_map-misfit (some old) null h = ground arith
decode_map-misfit (some old) (obj fs) h = ground arith
decode_map-misfit (some old) _ h = refl

assign-misfit : (f : Field) (v : Json) (a : Args) → of_type (kind f) v ≡ false → assign f v a ≡ none
unfolding assign kind
assign-misfit cluster v a h = rw (decode_string-misfit a.cluster v h, assign)
assign-misfit server_id v a h = rw (decode_string-misfit a.server_id v h, assign)
assign-misfit endpoint v a h = rw (decode_string-misfit a.endpoint v h, assign)
assign-misfit account v a h = rw (decode_string-misfit a.account v h, assign)
assign-misfit stream v a h = rw (decode_string-misfit a.stream v h, assign)
assign-misfit consumer v a h = rw (decode_string-misfit a.consumer v h, assign)
assign-misfit offset v a h = rw (decode_uint-misfit a.offset v h, assign)
assign-misfit cid v a h = rw (decode_uint-misfit a.cid v h, assign)
assign-misfit confirm v a h = rw (decode_bool-misfit a.confirm v h, assign)
assign-misfit config v a h = rw (decode_map-misfit a.config v h, assign)

match_field-misfit :
    (fs : List Field) (key : String) (v : Json)
    → any (fits key v) (struct fs) ≡ false
    → (match_field fs key ≡ none)
      ⊎ ((f : Field) × (match_field fs key ≡ some f) × (of_type (kind f) v ≡ false))
unfolding match_field
match_field-misfit [] key v h = inl refl
match_field-misfit (f ∷ fs) key v h = elim (Bool-cases (equal_fold key (tag f))) [
  | inl hit ↦ inr (f, rw (hit, match_field), ground (arith, h, hit))
  | inr miss ↦ rw (miss, match_field) (match_field-misfit fs key v (ground (arith, h, miss)))
]

pub decode_fields-misfit :
    (fs : List Field) (a : Args) (values : Fields)
    → misfit (struct fs) values ≡ true
    → decode_fields fs a values ≡ none
unfolding decode_fields misfit
decode_fields-misfit fs a end h = ground arith
decode_fields-misfit fs a (field key v rest) h = elim (Bool-cases (any (fits key v) (struct fs))) [
  | inr strange ↦ elim (match_field-misfit fs key v strange) [
    | inl lost ↦ rw (lost, decode_fields) refl
    | inr (f, found, bad) ↦ rw (found, assign-misfit f v a bad, decode_fields) refl
  ]
  | inl known ↦ elim (Option-cases (match_field fs key)) [
    | inl lost ↦ rw (lost, decode_fields) refl
    | inr (f, found) ↦ elim (Option-cases (assign f v a)) [
      | inl bad ↦ rw (found, bad, decode_fields) refl
      | inr (b, done) ↦
          rw (found, done, decode_fields)
            (decode_fields-misfit fs b rest (ground (arith, h, known)))
    ]
  ]
]
