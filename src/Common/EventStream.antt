-- ===== src/Common/EventStream.antt =====
-- What a browser's EventSource reads from a text/event-stream, after the HTML standard: lines end in
-- LF, CR or CRLF, an empty line dispatches the data before it, and a line that begins with a colon is
-- a comment.
use Prim.Native.Char.{code}
use Prim.Native.String.{String, [], ◌∷◌}
use mathlib.Core.Path.{◌≡◌, refl}
use mathlib.Core.Bool.{Bool, true, false}
use mathlib.Core.Option.{Option, none, some}
use mathlib.Core.List.{List, [], ◌∷◌}
use text.Mathlib.Text.{◌==◌}
use cheshmhayash.Common.Tests.{eqb, if◌then◌else◌}
use cheshmhayash.Common.Text.{◌<>◌, one_char, cut, trim_prefix}

-- The complete lines; `after` tells that a CR has just ended one. What follows the last end of a line
-- is dropped.
unfoldable pub lines : Bool → String → String → List String
lines after line [] = []
lines after line (c ∷ s) =
    let longer = lines false (line <> one_char c) s in
    let at_lf : List String = line ∷ lines false "" s in
    let at_cr : List String = line ∷ lines true "" s in
    let skipped = lines false line s in
    if eqb (code c) 10
    then (if after then skipped else at_lf)
    else if eqb (code c) 13
    then at_cr
    else longer

-- An event that has been dispatched.
pub record Message : Type 0 where
  pub kind : String
  pub payload : String

-- A line's field and value.
unfoldable pub field_of : String → String × String
unfolding cut trim_prefix
field_of line = elim (cut line ":") [
  | none ↦ (line, "")
  | some (name, value) ↦ (name, trim_prefix value " ")
]

abbrev add_line : Option String → String → Option String
add_line none value = some value
add_line (some before) value = some (before <> ("\n" <> value))

-- The messages of the lines, with the type and the data of the event in the making.
unfoldable pub messages_of : String → Option String → List String → List Message
unfolding field_of
messages_of kind before [] = []
messages_of kind before (l ∷ ls) =
    let (name, value) = field_of l in
    let dispatched : List Message = elim before [
      | none ↦ messages_of "" none ls
      | some text ↦
          record { kind = if kind == "" then "message" else kind; payload = text }
          ∷ messages_of "" none ls
    ] in
    let typed = messages_of value before ls in
    let extended = messages_of kind (add_line before value) ls in
    let ignored = messages_of kind before ls in
    if l == ""
    then dispatched
    else if name == "event"
    then typed
    else if name == "data"
    then extended
    else ignored

unfoldable pub read_stream : String → List Message
unfolding lines messages_of
read_stream s = messages_of "" none (lines false "" s)

read_test :
    read_stream ": hello\n\ndata: a\ndata:b\r\n\r\nevent: x\ndata\n\nid: 7\n\ndata: lost"
    ≡ record { kind = "message"; payload = "a\nb" } ∷ record { kind = "x"; payload = "" } ∷ []
unfolding read_stream
read_test = refl
