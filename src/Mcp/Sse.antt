-- ===== src/Mcp/Sse.antt =====
-- internal/mcp/http.go: the loop of serveSSE after its headers.
use cheshmhayash.Common.{◌≡◌, refl, Bool, true, false, String, List, [], ◌∷◌, if◌then◌else◌}
use cheshmhayash.Common.Text.{◌<>◌}
use cheshmhayash.Common.EventStream.{lines, messages_of, read_stream}

-- What the `select` takes: the end of the request, or the ticker; the Boolean tells whether the write
-- that follows succeeds.
pub data Pulse : Type 0 where
  left : Pulse
  keep : Bool → Pulse

-- What was sent, and whether the loop has returned.
pub record Stream : Type 0 where
  pub sent : String
  pub ended : Bool

abbrev over : Stream
over = record { sent = ""; ended = true }

abbrev pub after : Bool → String → Stream → Stream
after fine text rest = if fine then record rest { sent = text <> rest.sent } else over

unfoldable pub keep_alive : List Pulse → Stream
keep_alive [] = record { sent = ""; ended = false }
keep_alive (left ∷ ps) = over
keep_alive (keep fine ∷ ps) = after fine ": keep-alive\n\n" (keep_alive ps)

unfoldable pub sse_stream : Bool → List Pulse → Stream
unfolding keep_alive
sse_stream fine ps = after fine ": mcp ready\n\n" (keep_alive ps)

keep_alive-silent : (ps : List Pulse) → read_stream (keep_alive ps).sent ≡ []
unfolding keep_alive read_stream lines messages_of
keep_alive-silent [] = refl
keep_alive-silent (left ∷ ps) = refl
keep_alive-silent (keep true ∷ ps) = keep_alive-silent ps
keep_alive-silent (keep false ∷ ps) = refl

-- A reader of the stream at /mcp sees no message, whatever happens to the stream.
pub sse_stream-silent : (fine : Bool) (ps : List Pulse) → read_stream (sse_stream fine ps).sent ≡ []
unfolding sse_stream read_stream lines messages_of
sse_stream-silent true ps = keep_alive-silent ps
sse_stream-silent false ps = refl
