-- ===== src/Natsx/Cache.antt =====
-- internal/natsx/cache.go: the latest overview of each cluster, and the channels of those who follow
-- it. A Go channel is an id, its buffer and whether it is closed; `none` is a panic.
pub mod Laws
pub mod Closing
pub mod Races
pub mod Refresh
use cheshmhayash.Common.{
  ℕ, suc, ◌+◌, Bool, true, false, ◌&&◌, String, List, [], ◌∷◌, ◌++◌, Option, none, some, length,
  ltb, eqb, ◌==◌, if◌then◌else◌,
}
use cheshmhayash.Natsx.{Reply, Fault, ok, err, no_responders, timeout, other, marshal_array}

-- OverviewSnapshot; a failed refresh leaves `err` and no data.
pub record Snapshot : Type 0 where
  pub payload : String
  pub updated : ℕ
  pub err : String

pub record Channel : Type 0 where
  pub buffer : List Snapshot
  pub closed : Bool

-- `subs` lists every subscription in order: those of a name are the source's `subs[name]`. Channels
-- from `next` on have not been made.
pub record Cache : Type 0 where
  pub entries : String → Option Snapshot
  pub subs : List (String × ℕ)
  pub channels : ℕ → Channel
  pub next : ℕ

abbrev pub open_channel : Channel
open_channel = record { buffer = []; closed = false }

-- NewOverviewCache
unfoldable pub new_cache : Cache
new_cache = record { entries = λ name. none; subs = []; channels = λ id. open_channel; next = 0 }

abbrev pub fault_text : Fault → String
fault_text (no_responders e) = e
fault_text (timeout e) = e
fault_text (other e) = e

-- The snapshot that `tick` makes of a discovery.
unfoldable pub snapshot_of : ℕ → Reply (List String) → Snapshot
unfolding marshal_array
snapshot_of now (ok replies) = record { payload = marshal_array replies; updated = now; err = "" }
snapshot_of now (err e) = record { payload = ""; updated = now; err = fault_text e }

unfoldable pub store : String → Snapshot → Cache → Cache
store name snap s = record s { entries = λ n. if n == name then some snap else s.entries n }

abbrev pub get : String → Cache → Option Snapshot
get name s = s.entries name

abbrev pub put : ℕ → Channel → (ℕ → Channel) → ℕ → Channel
put id ch channels i = if eqb i id then ch else channels i

-- `make` and the locked part of Subscribe.
unfoldable pub register : String → Cache → Cache
register name s = record s {
  subs = s.subs ++ ((name, s.next) ∷ []);
  channels = put s.next open_channel s.channels;
  next = suc s.next;
}

-- A `select` that sends or drops: four snapshots fit, and a send on a closed channel panics.
unfoldable pub deliver : ℕ → Snapshot → Cache → Option Cache
deliver id snap s =
    let ch = s.channels id in
    if ch.closed
    then none
    else if ltb (length ch.buffer) 4
    then some (record s {
      channels = put id (record ch { buffer = ch.buffer ++ (snap ∷ []) }) s.channels;
    })
    else some s

-- Subscribe with nothing in between: the current snapshot is delivered at once.
unfoldable pub subscribe : String → Cache → Option Cache
unfolding register deliver
subscribe name s = elim (s.entries name) [
  | none ↦ some (register name s)
  | some snap ↦ deliver s.next snap (register name s)
]

-- A read by the subscriber: the oldest snapshot that waits.
unfoldable pub receive : ℕ → Cache → Cache
receive id s = elim (s.channels id).buffer [
  | [] ↦ s
  | snap ∷ rest ↦ record s {
    channels = put id (record (s.channels id) { buffer = rest }) s.channels;
  }
]

abbrev pub shut : ℕ → (ℕ → Channel) → ℕ → Channel
shut id channels = put id (record (channels id) { closed = true }) channels

abbrev pub is_entry : String → ℕ → String × ℕ → Bool
is_entry name id (n, i) = n == name && eqb i id

unfoldable pub has : String → ℕ → List (String × ℕ) → Bool
has name id [] = false
has name id (p ∷ ps) = let rest = has name id ps in if is_entry name id p then true else rest

unfoldable pub remove : String → ℕ → List (String × ℕ) → List (String × ℕ)
remove name id [] = []
remove name id (p ∷ ps) =
    let rest = remove name id ps in if is_entry name id p then ps else p ∷ rest

-- Unsubscribe: a closed channel cannot be closed again.
unfoldable pub unsubscribe : String → ℕ → Cache → Option Cache
unfolding has remove
unsubscribe name id s =
    if has name id s.subs
    then (if (s.channels id).closed
        then none
        else some (record s { subs = remove name id s.subs; channels = shut id s.channels }))
    else some s

-- The ids of a name, in order.
unfoldable pub ids_of : String → List (String × ℕ) → List ℕ
ids_of name [] = []
ids_of name ((n, i) ∷ ps) = let rest = ids_of name ps in if n == name then i ∷ rest else rest

-- The loop of broadcast over the copied list.
unfoldable pub deliver_all : List ℕ → Snapshot → Cache → Option Cache
unfolding deliver
deliver_all [] snap s = some s
deliver_all (id ∷ ids) snap s = elim (deliver id snap s) [
  | none ↦ none
  | some t ↦ deliver_all ids snap t
]

unfoldable pub broadcast : String → Snapshot → Cache → Option Cache
unfolding deliver_all ids_of
broadcast name snap s = deliver_all (ids_of name s.subs) snap s

-- The loop of closeSubs over the subscriptions of the name.
unfoldable pub close_named : String → List (String × ℕ) → (ℕ → Channel) → Option (ℕ → Channel)
close_named name [] channels = some channels
close_named name ((n, i) ∷ ps) channels =
    let skipped = close_named name ps channels in
    let closed = close_named name ps (shut i channels) in
    if n == name then (if (channels i).closed then none else closed) else skipped

unfoldable pub others : String → List (String × ℕ) → List (String × ℕ)
others name [] = []
others name ((n, i) ∷ ps) = let rest = others name ps in if n == name then rest else (n, i) ∷ rest

unfoldable pub close_subs : String → Cache → Option Cache
unfolding close_named others
close_subs name s = elim (close_named name s.subs s.channels) [
  | none ↦ none
  | some channels ↦ some (record s { subs = others name s.subs; channels = channels })
]

-- One tick of a refresher with nothing in between.
unfoldable pub tick : ℕ → Reply (List String) → String → Cache → Option Cache
unfolding snapshot_of store broadcast
tick now replies name s =
    let snap = snapshot_of now replies in broadcast name snap (store name snap s)
