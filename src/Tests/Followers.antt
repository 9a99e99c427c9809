-- ===== src/Tests/Followers.antt =====
-- The cache with one follower, and the theorems on it.
use Prim.Native.Char.{code}
use Prim.Native.String.{[], ◌∷◌}
use cheshmhayash.Common.{
  ◌≡◌, refl, ◌≢◌, true, String, List, [], ◌∷◌, none, some, inr, map, eqb, arith, if◌then◌else◌,
}
use cheshmhayash.Common.Text.{◌<>◌}
use cheshmhayash.Common.EventStream.{read_stream}
use cheshmhayash.Natsx
use cheshmhayash.Natsx.Cache.{
  Snapshot, Cache, new_cache, register, has, remove, shut, unsubscribe, deliver, close_subs,
  snapshot_of, open_channel, close_named, others,
}
use cheshmhayash.Natsx.Cache.Laws.{Step, Reachable, start, next_step, IsConsistent}
use cheshmhayash.Natsx.Cache.Refresh.{Wake, ticked, stopped, refresh}
use cheshmhayash.Natsx.Cache.Refresh.Laws.{Leaves, last_snapshot, is_stopped, refresh-Leaves}
use cheshmhayash.Gateway.Jsm.Stream.{Event, arrive, beat, take, follow, frame}
use cheshmhayash.Gateway.Jsm.Stream.Frames.{OneLine, message_of}
use cheshmhayash.Gateway.Jsm.Stream.Laws.{Picks, received, arrivals, follow-Shows}
use cheshmhayash.Gateway.Jsm.Stream.Ending.{takes, follow-close_subs}
use cheshmhayash.Natsx.Cache.Races.{Reachable-IsConsistent, deliver-unsubscribe}

abbrev followed : Cache
followed = register "main" new_cache

abbrev left : Cache
left = record followed { subs = remove "main" 0 followed.subs; channels = shut 0 followed.channels }

abbrev snap : Snapshot
snap = record { payload = "[]"; updated = 5; err = "" }

abbrev failed : Snapshot
failed = record { payload = ""; updated = 6; err = "no\nservers" }

abbrev wakes : List Wake
wakes = ticked 9 (Natsx.ok []) ∷ stopped ∷ []

-- Quoting as far as a line is concerned: both ends of a line are escaped.
abbrev escape : String → String
escape [] = []
escape (c ∷ s) =
    if eqb (code c) 10
    then "\\n" <> escape s
    else if eqb (code c) 13
    then "\\r" <> escape s
    else c ∷ escape s

escape-OneLine : (s : String) → OneLine (escape s)
escape-OneLine [] = omega arith
escape-OneLine (c ∷ s) = let (f, g) = escape-OneLine s in ground arith

followed-Reachable : Reachable followed
followed-Reachable = next_step new_cache followed start (Step.registered "main" new_cache)

Reachable-IsConsistent_example : IsConsistent followed
Reachable-IsConsistent_example = Reachable-IsConsistent followed followed-Reachable

followed_has : has "main" 0 followed.subs ≡ true
unfolding has register new_cache
followed_has = refl

followed-left : unsubscribe "main" 0 followed ≡ some left
unfolding unsubscribe has register new_cache
followed-left = refl

deliver-unsubscribe_example : (deliver 0 snap followed ≢ none) × (deliver 0 snap left ≡ none)
deliver-unsubscribe_example =
    deliver-unsubscribe followed "main" 0 snap left followed-Reachable followed_has followed-left

refresh-Leaves_example :
    Leaves "main"
      (last_snapshot (some (snapshot_of 7 (Natsx.ok ("{}" ∷ [])))) wakes)
      true
      (refresh true "main" 7 (Natsx.ok ("{}" ∷ [])) wakes followed)
unfolding is_stopped
refresh-Leaves_example =
    refresh-Leaves "main" 7 (Natsx.ok ("{}" ∷ [])) wakes followed followed-Reachable

-- The refresher of the cluster has ended.
abbrev ended : Cache
ended = record followed { subs = []; channels = shut 0 followed.channels }

followed-ended : close_subs "main" followed ≡ some ended
unfolding close_subs close_named others register new_cache
followed-ended = refl

abbrev reads : List Event
reads = beat true ∷ take true ∷ take true ∷ take true ∷ take true ∷ take true ∷ []

follow-close_subs_example :
    ((follow escape reads (ended.channels 0)).ended ≡ true)
    × (unsubscribe "main" 0 ended ≡ some ended)
unfolding takes
follow-close_subs_example =
    follow-close_subs escape followed ended "main" 0 reads (ended.channels 0) followed-Reachable
      followed_has followed-ended (inr (refl, omega arith))

abbrev events : List Event
events = beat true ∷ arrive snap ∷ arrive failed ∷ take true ∷ take true ∷ Event.left ∷ []

follow-Shows_example :
    Picks (received events open_channel) (snap ∷ failed ∷ [])
    × (read_stream (follow escape events open_channel).sent
        ≡ map (message_of escape) (received events open_channel))
unfolding arrivals
follow-Shows_example = follow-Shows escape escape-OneLine events open_channel tt (omega arith)

-- A reply with an end of a line breaks the frame: the reader gets the overview's first line alone.
broken_frame_test :
    read_stream (frame escape (snapshot_of 7 (Natsx.ok ("{\n}" ∷ []))))
    ≡ record { kind = "message"; payload = "[{" } ∷ []
unfolding read_stream frame snapshot_of
broken_frame_test = refl
