-- ===== src/Mcp/Schema.antt =====
-- internal/mcp/tools.go: the JSON schemas of the arguments.
use cheshmhayash.Common.{true, false, String, List, [], ◌∷◌, is_empty, if◌then◌else◌}
use cheshmhayash.Json.{Json, bool, number, str, arr, object, strings}

abbrev pub schema : List (String × Json) → List String → Json
schema properties required = object (
    ("type", str "object")
    ∷ ("properties", object properties)
    ∷ ("additionalProperties", bool false)
    ∷ (if is_empty required then [] else ("required", arr (strings required)) ∷ []))

abbrev pub string_prop : String → Json
string_prop desc = object (("type", str "string") ∷ ("description", str desc) ∷ [])

abbrev pub int_prop : String → Json
int_prop desc =
    object (("type", str "integer") ∷ ("minimum", number "0") ∷ ("description", str desc) ∷ [])

abbrev pub object_prop : String → Json
object_prop desc =
    object (
      ("type", str "object") ∷ ("description", str desc) ∷ ("additionalProperties", bool true) ∷ [])

abbrev pub enum_prop : String → List String → Json
enum_prop desc values =
    object
      (("type", str "string") ∷ ("description", str desc) ∷ ("enum", arr (strings values)) ∷ [])

abbrev pub confirm_prop : Json
confirm_prop = object (
    ("type", str "boolean")
    ∷ ("const", bool true)
    ∷ (
      "description",
      str
          "Must be true to actually run the destructive action. Acts as the same safety gate as ?confirm=true on the HTTP API.",
    )
    ∷ [])
