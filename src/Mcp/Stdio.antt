-- ===== src/Mcp/Stdio.antt =====
-- internal/mcp/server.go: the loop over standard input. What reaches the loop is a list of events in
-- the order in which its `select` takes them.
use cheshmhayash.Common.{
  inl, inr, Bool-cases, ◌≡◌, refl, sym, ◌∙◌, String, List, [], ◌∷◌, ◌++◌, Option, none, some, ◌==◌,
  if◌then◌else◌,
}
use mathlib.Core.List.{append-nil, append_assoc}
use cheshmhayash.Json.{Json}
use cheshmhayash.Http.{Call}
use cheshmhayash.Mcp.Frame.{RpcResponse, response_json}
use cheshmhayash.Mcp.Rpc.{Server, dispatch}

-- A line of the scanner, the end of the lines, the scanner's error, and the context's end. Serve
-- returns the error of either; that of the context is context.Canceled, here `interrupted`.
pub data Event : Type 0 where
  line : String → Event
  closed : Event
  broken cancelled : String → Event

-- The messages written, each with a newline, and the NATS requests made.
pub record Session : Type 0 where
  pub written : List Json
  pub calls : List Call

pub data Exit : Type 0 where
  done : Exit
  error interrupted : String → Exit

-- The reader drops empty lines.
unfoldable pub scan : List String → List Event
scan [] = []
scan (l ∷ ls) = let rest = scan ls in if l == "" then rest else line l ∷ rest

abbrev pub message_of : Option RpcResponse → List Json
unfolding response_json
message_of none = []
message_of (some resp) = response_json resp ∷ []

-- handleLine and writeMessage
unfoldable pub handle_line : Server → String → Session → Session
unfolding dispatch message_of
handle_line s frame session =
    let out = dispatch s frame in
    record {
      written = session.written ++ message_of out.response;
      calls = session.calls ++ out.calls;
    }

-- Serve: the session so far, and how the loop has ended, if it has.
unfoldable pub serve : Server → List Event → Session → Session × Option Exit
unfolding handle_line
serve s [] session = (session, none)
serve s (line frame ∷ events) session = serve s events (handle_line s frame session)
serve s (closed ∷ events) session = (session, some done)
serve s (broken why ∷ events) session = (session, some (error why))
serve s (cancelled why ∷ events) session = (session, some (interrupted why))

abbrev pub start : Session
start = record { written = []; calls = [] }

-- The messages that frames are answered with, each frame on its own.
unfoldable pub replies : Server → List String → List Json
unfolding dispatch message_of
replies s [] = []
replies s (l ∷ ls) =
    let rest = replies s ls in if l == "" then rest else message_of (dispatch s l).response ++ rest

-- The loop over lines that end appends the reply to each to what was written, and ends without an
-- error.
serve_after :
    (s : Server) (lines : List String) (session : Session)
    → ((serve s (scan lines ++ (closed ∷ [])) session).0.written
        ≡ session.written ++ replies s lines)
      × ((serve s (scan lines ++ (closed ∷ [])) session).1 ≡ some done)
unfolding serve scan replies
serve_after s [] session = (sym (append-nil session.written), refl)
serve_after s (l ∷ ls) session = elim (Bool-cases (l == "")) [
  | inl empty ↦ rw empty (serve_after s ls session)
  | inr full ↦ rw full (
    (serve_after s ls (handle_line s l session)).0
        ∙ (unfold handle_line in
            append_assoc session.written (message_of (dispatch s l).response) (replies s ls)),
    (serve_after s ls (handle_line s l session)).1,
  )
]

-- Over standard input that ends, the server writes exactly the replies to its lines, each as if it
-- were the only one, in the order of the lines and none for an empty line, and then ends without an
-- error.
pub serve-scan :
    (s : Server) (lines : List String)
    → ((serve s (scan lines ++ (closed ∷ [])) start).0.written ≡ replies s lines)
      × ((serve s (scan lines ++ (closed ∷ [])) start).1 ≡ some done)
serve-scan s lines = serve_after s lines start
