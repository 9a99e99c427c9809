-- ===== src/Gateway/Jsm/Stream.antt =====
-- internal/handler/jsm.go: the loop of overviewStream, which follows a channel of the overview cache.
-- What happens is a list of events in their order.
pub mod Frames
pub mod Laws
pub mod Ending
pub mod Lossless
use cheshmhayash.Common.{
  Bool, true, false, ◌&&◌, not, String, List, [], ◌∷◌, ◌++◌, length, ltb, ◌==◌, if◌then◌else◌,
}
use cheshmhayash.Common.Text.{◌<>◌}
use cheshmhayash.Natsx.Cache.{Snapshot, Channel}

-- `arrive` and `shut` are the refresher's: it sends a snapshot, or closes the channel. The rest is
-- what the `select` of the loop takes: the end of the request, the heartbeat, or a read of the channel;
-- the Boolean tells whether the write that follows succeeds.
pub data Event : Type 0 where
  arrive : Snapshot → Event
  shut left : Event
  beat take : Bool → Event

-- What was written, what is left of the channel, and whether the loop has returned.
pub record Followed : Type 0 where
  pub sent : String
  pub channel : Channel
  pub ended : Bool

-- A send of the refresher, as `deliver` does it; it drops a snapshot that finds four waiting.
unfoldable pub accept : Snapshot → Channel → Channel
accept snap ch =
    if not ch.closed && ltb (length ch.buffer) 4
    then record ch { buffer = ch.buffer ++ (snap ∷ []) }
    else ch

abbrev pub over : Channel → Followed
over ch = record { sent = ""; channel = ch; ended = true }

abbrev pub after : String → Followed → Followed
after text r = record r { sent = text <> r.sent }

-- A successful write is followed by the rest of the loop; the loop returns on a failed one, of which
-- nothing counts as sent.
abbrev pub write : Bool → String → Channel → Followed → Followed
write true text ch rest = after text rest
write false text ch rest = over ch

abbrev pub heartbeat : String
heartbeat = ": heartbeat\n\n"

-- `%q` is the argument.
unfoldable pub frame : (String → String) → Snapshot → String
frame quote snap =
    if not (snap.err == "")
    then "event: error\ndata: " <> (quote snap.err <> "\n\n")
    else "data: " <> (snap.payload <> "\n\n")

-- A read blocks while the channel is empty and open: the `select` does not take it then.
unfoldable pub follow : (String → String) → List Event → Channel → Followed
unfolding accept frame
follow quote [] ch = record { sent = ""; channel = ch; ended = false }
follow quote (arrive snap ∷ es) ch = follow quote es (accept snap ch)
follow quote (shut ∷ es) ch = follow quote es (record ch { closed = true })
follow quote (left ∷ es) ch = over ch
follow quote (beat fine ∷ es) ch = let rest = follow quote es ch in write fine heartbeat ch rest
follow quote (take fine ∷ es) ch = elim ch.buffer [
  | [] ↦ if ch.closed then over ch else follow quote es ch
  | snap ∷ waiting ↦
      write fine (frame quote snap) (record ch { buffer = waiting })
        (follow quote es (record ch { buffer = waiting }))
]
