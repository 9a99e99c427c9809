-- ===== src/Json.antt =====
-- JSON values as encoding/json decodes them into `any` and `json.RawMessage`, and the decoding of
-- one value into a `string` or a `[]string`. A number keeps its literal.
use cheshmhayash.Common.{
  ◌≡◌, refl, Bool, true, false, String, List, [], ◌∷◌, Option, none, some, ◌==◌, if◌then◌else◌,
}
use cheshmhayash.Common.Text.{equal_fold}

mutual
  pub data Json : Type 0 where
    null : Json
    bool : Bool → Json
    number : String → Json
    str : String → Json
    arr : Items → Json
    obj : Fields → Json

  pub data Items : Type 0 where
    nil : Items
    cons : Json → Items → Items

  pub data Fields : Type 0 where
    end : Fields
    field : String → Json → Fields → Fields

-- An entry of a `map[string]json.RawMessage`: the last of equal keys wins.
unfoldable pub lookup : String → Fields → Option Json
lookup key end = none
lookup key (field k v fs) = elim (lookup key fs) [
  | some later ↦ some later
  | none ↦ if k == key then some v else none
]

-- A value decoded into a Go `string` that holds `old`: null leaves it, any other type is an error.
unfoldable pub decode_string : String → Json → Option String
decode_string old (str s) = some s
decode_string old null = some old
decode_string old _ = none

-- A value decoded into a `[]string`.
unfoldable pub decode_items : Items → Option (List String)
unfolding decode_string
decode_items nil = some []
decode_items (cons v vs) = elim (decode_string "" v) [
  | none ↦ none
  | some s ↦ elim (decode_items vs) [ none ↦ none | some rest ↦ some (s ∷ rest) ]
]

unfoldable pub decode_strings : Json → Option (List String)
unfolding decode_items
decode_strings null = some []
decode_strings (arr vs) = decode_items vs
decode_strings _ = none

-- A struct's string field: every key that matches its name, without regard to case, is decoded.
unfoldable pub decode_field : String → String → Fields → Option String
unfolding decode_string equal_fold
decode_field name old end = some old
decode_field name old (field k v fs) = elim (equal_fold k name) [
  | false ↦ decode_field name old fs
  | true ↦ elim (decode_string old v) [ none ↦ none | some new ↦ decode_field name new fs ]
]

abbrev pub strings : List String → Items
strings [] = nil
strings (s ∷ ss) = cons (str s) (strings ss)

-- `map[string]any` with the given entries.
abbrev pub object : List (String × Json) → Json
object entries = obj (fields entries)
  where
    fields : List (String × Json) → Fields
    fields [] = end
    fields ((k, v) ∷ rest) = field k v (fields rest)

pub decode_items-strings : (ss : List String) → decode_items (strings ss) ≡ some ss
unfolding decode_items
decode_items-strings [] = refl
decode_items-strings (s ∷ ss) = rw (decode_items-strings ss)
