-- ===== src/Gateway/Jsm/Stream/Laws.antt =====
-- What the reader of an overview stream sees.
use Prim.Native.String.{[], ◌∷◌}
use mathlib.Core.Path.{subst}
use mathlib.Core.List.{append_assoc}
use cheshmhayash.Common.{
  ◌≡◌, refl, sym, ap, ◌∙◌, inl, inr, true, false, Bool, not, ◌&&◌, String, List, [], ◌∷◌, ◌++◌, map,
  All, All-append, length, ltb, Bool-cases, List-cases, arith, if◌then◌else◌,
}
use cheshmhayash.Common.Text.{◌<>◌}
use cheshmhayash.Common.EventStream.{lines, messages_of, read_stream}
use cheshmhayash.Natsx.Cache.{Snapshot, Channel}
use cheshmhayash.Gateway.Jsm.Stream.{
  Event, arrive, shut, left, beat, take, Followed, accept, over, write, heartbeat, frame, follow,
}
use cheshmhayash.Gateway.Jsm.Stream.Frames.{
  IsPlain, OneLine, message_of, read_on, read-heartbeat, read-frame,
}

-- Some of the snapshots, each at most once and in their order.
pub data Picks : List Snapshot → List Snapshot → Type 0 where
  done : (all : List Snapshot) → Picks [] all
  pick :
      (s : Snapshot) (some_of all : List Snapshot)
      → Picks some_of all
      → Picks (s ∷ some_of) (s ∷ all)
  pass : (s : Snapshot) (some_of all : List Snapshot) → Picks some_of all → Picks some_of (s ∷ all)

pass-between :
    (xs : List Snapshot) (snap : Snapshot) (read later : List Snapshot)
    → Picks read (xs ++ later)
    → Picks read (xs ++ (snap ∷ later))
pass-between [] snap read later h = Picks.pass snap read later h
pass-between (x ∷ xs) snap read later (Picks.done _) = Picks.done _
pass-between (x ∷ xs) snap read later (Picks.pick s some_of all h) =
    Picks.pick x some_of (xs ++ (snap ∷ later)) (pass-between xs snap some_of later h)
pass-between (x ∷ xs) snap read later (Picks.pass s some_of all h) =
    Picks.pass x read (xs ++ (snap ∷ later)) (pass-between xs snap read later h)

-- The snapshots that the refresher sends.
unfoldable pub arrivals : List Event → List Snapshot
arrivals [] = []
arrivals (arrive snap ∷ es) = snap ∷ arrivals es
arrivals (_ ∷ es) = arrivals es

-- The snapshots that the loop reads and writes successfully.
unfoldable pub received : List Event → Channel → List Snapshot
received [] ch = []
received (arrive snap ∷ es) ch = received es (accept snap ch)
received (shut ∷ es) ch = received es (record ch { closed = true })
received (left ∷ es) ch = []
received (beat fine ∷ es) ch = let rest = received es ch in if fine then rest else []
received (take fine ∷ es) ch = elim ch.buffer [
  | [] ↦ if ch.closed then [] else received es ch
  | snap ∷ waiting ↦ if fine then snap ∷ received es (record ch { buffer = waiting }) else []
]

module _ (quote : String → String) where
  -- What both the loop and the list of what it reads do on a read.
  pub take-idle :
      (fine : Bool) (es : List Event) (ch : Channel)
      → ch.buffer ≡ []
      → ◌≡◌ {A = List Snapshot × Followed}
          (received (take fine ∷ es) ch, follow quote (take fine ∷ es) ch)
          (
            if ch.closed then [] else received es ch,
            if ch.closed then over ch else follow quote es ch,
          )
  unfolding follow received
  take-idle fine es ch e = ground arith

  pub take-waiting :
      (fine : Bool) (es : List Event) (ch : Channel) (snap : Snapshot) (waiting : List Snapshot)
      → ch.buffer ≡ snap ∷ waiting
      → ◌≡◌ {A = List Snapshot × Followed}
          (received (take fine ∷ es) ch, follow quote (take fine ∷ es) ch)
          (
            if fine then snap ∷ received es (record ch { buffer = waiting }) else [],
            write fine
                (frame quote snap)
                (record ch { buffer = waiting })
                (follow quote es (record ch { buffer = waiting })),
          )
  unfolding follow received
  take-waiting fine es ch snap waiting e = rw (e, follow, received) refl

module _ (quote : String → String) (quoted : (s : String) → OneLine (quote s)) where
  -- The reader of the text sees the snapshots `read`, which are some of all.
  abbrev pub Shows : List Snapshot → List Snapshot → String → Type 0
  Shows all read sent = Picks read all × (read_on sent ≡ map (message_of quote) read)

  -- What a run of the loop has sent, beside what it has read.
  abbrev Run : List Snapshot → List Snapshot × Followed → Type 0
  Run all (read, r) = Shows all read r.sent

  nothing : (all : List Snapshot) → Shows all [] ""
  unfolding lines messages_of
  nothing all = (Picks.done all, refl)

  Run-accept :
      (snap : Snapshot) (ch : Channel) (later : List Snapshot) (r : List Snapshot × Followed)
      → Run ((accept snap ch).buffer ++ later) r
      → Run (ch.buffer ++ (snap ∷ later)) r
  unfolding accept
  Run-accept snap ch later (read, r) h =
      elim (Bool-cases (not ch.closed && ltb (length ch.buffer) 4)) [
        | inl room ↦
            subst (λ all. Shows all read r.sent)
              (rw room (append_assoc ch.buffer (snap ∷ []) later)) h
        | inr full ↦
            let same : (accept snap ch).buffer ≡ ch.buffer = rw full refl in
            let (picks, e) = subst (λ front. Shows (front ++ later) read r.sent) same h in
            (pass-between ch.buffer snap read later picks, e)
      ]

  All-accept :
      (snap : Snapshot) (ch : Channel)
      → IsPlain snap
      → All IsPlain ch.buffer
      → All IsPlain (accept snap ch).buffer
  unfolding accept
  All-accept snap ch p h = elim (Bool-cases (not ch.closed && ltb (length ch.buffer) 4)) [
    | inl room ↦ rw room (All-append IsPlain ch.buffer (snap ∷ []) h (p, tt))
    | inr full ↦ rw full h
  ]

  Run-write :
      (fine : Bool) (text : String) (ch : Channel) (read : List Snapshot) (rest : Followed)
      (all : List Snapshot)
      → Shows all read (text <> rest.sent)
      → Run all (if fine then read else [], write fine text ch rest)
  Run-write true text ch read rest all h = h
  Run-write false text ch read rest all h = nothing all

  Run-idle :
      (all : List Snapshot) (closed : Bool) (ch : Channel) (read : List Snapshot) (rest : Followed)
      → Shows all read rest.sent
      → Run all (if closed then [] else read, if closed then over ch else rest)
  Run-idle all true ch read rest h = nothing all
  Run-idle all false ch read rest h = h

  Run-taken :
      (fine : Bool) (ch : Channel) (snap : Snapshot) (later read : List Snapshot) (rest : Followed)
      → IsPlain snap
      → Shows later read rest.sent
      → Run (snap ∷ later) (if fine then snap ∷ read else [], write fine (frame quote snap) ch rest)
  Run-taken fine ch snap later read rest p (picks, e) =
      Run-write fine (frame quote snap) ch (snap ∷ read) rest (snap ∷ later) (
        Picks.pick snap read later picks,
        read-frame quote snap rest.sent quoted p ∙ ap (λ ms. message_of quote snap ∷ ms) e,
      )

  Run-follow :
      (es : List Event) (ch : Channel)
      → All IsPlain ch.buffer
      → All IsPlain (arrivals es)
      → Run (ch.buffer ++ arrivals es) (received es ch, follow quote es ch)
  unfolding follow arrivals received
  Run-follow [] ch b h = nothing _
  Run-follow (arrive snap ∷ es) ch b (p, h) =
      Run-accept snap ch (arrivals es)
        (received es (accept snap ch), follow quote es (accept snap ch))
        (Run-follow es (accept snap ch) (All-accept snap ch p b) h)
  Run-follow (shut ∷ es) ch b h = Run-follow es (record ch { closed = true }) b h
  Run-follow (left ∷ es) ch b h = nothing _
  Run-follow (beat fine ∷ es) ch b h =
      let (picks, e) = Run-follow es ch b h in
      Run-write fine heartbeat ch (received es ch) (follow quote es ch) _
        (picks, read-heartbeat (follow quote es ch).sent ∙ e)
  Run-follow (take fine ∷ es) ch b h = elim (List-cases ch.buffer) [
    | inl idle ↦
        subst (Run (ch.buffer ++ arrivals es)) (sym (take-idle quote fine es ch idle))
          (Run-idle _ ch.closed ch (received es ch) (follow quote es ch) (Run-follow es ch b h))
    | inr (snap, waiting, e) ↦
        let plain : All IsPlain (snap ∷ waiting) = subst (All IsPlain) e b in
        let later = record ch { buffer = waiting } in
        subst (Run (ch.buffer ++ arrivals es)) (sym (take-waiting quote fine es ch snap waiting e))
          (subst
            (λ front. Run (front ++ arrivals es) (
              if fine then snap ∷ received es later else [],
              write fine (frame quote snap) later (follow quote es later),
            ))
            (sym e)
            (Run-taken fine later snap (waiting ++ arrivals es) (received es later)
              (follow quote es later) plain.0 (Run-follow es later plain.1 h)))
  ]

  -- Where no overview and no quoted text holds the end of a line, the reader of an overview stream
  -- sees exactly the snapshots that the loop read from its channel and wrote, each as one message
  -- of type `message` with the overview, or of type `error` with the quoted error, in their order
  -- and without the heartbeats. They are some of the snapshots that waited and that the refresher
  -- sent, none twice and in the order in which they were sent.
  pub follow-Shows :
      (es : List Event) (ch : Channel)
      → All IsPlain ch.buffer
      → All IsPlain (arrivals es)
      → Picks (received es ch) (ch.buffer ++ arrivals es)
        × (read_stream (follow quote es ch).sent ≡ map (message_of quote) (received es ch))
  unfolding read_stream
  follow-Shows es ch b h = Run-follow es ch b h
