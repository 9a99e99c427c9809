-- ===== src/Gateway/Jsm/Stream/Lossless.antt =====
-- An overview stream loses no snapshot while its channel has room.
use mathlib.Core.Path.{subst}
use mathlib.Core.List.{append-nil, append_assoc}
use cheshmhayash.Common.{
  ◌+◌, ◌≤◌, ◌<◌, ◌≡◌, refl, sym, ap, ◌∙◌, ◌⊎◌, inl, inr, true, false, Bool, String, List, [], ◌∷◌,
  ◌++◌, length, length-append, Bool-cases, List-cases, arith, if◌then◌else◌,
}
use cheshmhayash.Natsx.Cache.{Snapshot, Channel}
use cheshmhayash.Gateway.Jsm.Stream.{
  Event, arrive, left, beat, take, Followed, accept, over, write, heartbeat, frame, follow,
}
use cheshmhayash.Gateway.Jsm.Stream.Laws.{arrivals, received, take-idle, take-waiting}

-- Of a run that has not ended, over a channel that is still open: what was read and what waits make
-- up all.
abbrev Keeps : List Snapshot → List Snapshot × Followed → Type 0
Keeps all (read, r) =
    (r.channel.closed ≡ true) ⊎ (r.ended ≡ true) ⊎ (read ++ r.channel.buffer ≡ all)

accept-room :
    (snap : Snapshot) (ch : Channel)
    → ch.closed ≡ false
    → length ch.buffer < 4
    → (accept snap ch).buffer ≡ ch.buffer ++ (snap ∷ [])
unfolding accept
accept-room snap ch h room = ground arith

accept-closed : (snap : Snapshot) (ch : Channel) → ch.closed ≡ true → (accept snap ch).closed ≡ true
unfolding accept
accept-closed snap ch h = ground arith

Keeps-write :
    (fine : Bool) (text : String) (ch : Channel) (read : List Snapshot) (rest : Followed)
    (all : List Snapshot)
    → Keeps all (read, rest)
    → Keeps all (if fine then read else [], write fine text ch rest)
Keeps-write true text ch read rest all h = h
Keeps-write false text ch read rest all h = inr (inl refl)

Keeps-idle :
    (closed : Bool) (ch : Channel) (read : List Snapshot) (rest : Followed) (all : List Snapshot)
    → Keeps all (read, rest)
    → Keeps all (if closed then [] else read, if closed then over ch else rest)
Keeps-idle true ch read rest all h = inr (inl refl)
Keeps-idle false ch read rest all h = h

Keeps-next :
    (snap : Snapshot) (read : List Snapshot) (rest : Followed) (all : List Snapshot)
    → Keeps all (read, rest)
    → Keeps (snap ∷ all) (snap ∷ read, rest)
Keeps-next snap read rest all (inl h) = inl h
Keeps-next snap read rest all (inr (inl h)) = inr (inl h)
Keeps-next snap read rest all (inr (inr e)) = inr (inr (ap (λ xs. snap ∷ xs) e))

abbrev IsShut : Followed → Type 0
IsShut r = r.channel.closed ≡ true

write-IsShut :
    (fine : Bool) (text : String) (ch : Channel) (rest : Followed)
    → ch.closed ≡ true
    → IsShut rest
    → IsShut (write fine text ch rest)
write-IsShut true text ch rest h k = k
write-IsShut false text ch rest h k = h

module _ (quote : String → String) where
  follow-IsShut : (es : List Event) (ch : Channel) → ch.closed ≡ true → IsShut (follow quote es ch)
  unfolding follow
  follow-IsShut [] ch h = h
  follow-IsShut (arrive snap ∷ es) ch h =
      follow-IsShut es (accept snap ch) (accept-closed snap ch h)
  follow-IsShut (Event.shut ∷ es) ch h = follow-IsShut es (record ch { closed = true }) refl
  follow-IsShut (left ∷ es) ch h = h
  follow-IsShut (beat fine ∷ es) ch h =
      write-IsShut fine heartbeat ch (follow quote es ch) h (follow-IsShut es ch h)
  follow-IsShut (take fine ∷ es) ch h = elim (List-cases ch.buffer) [
    | inl idle ↦ subst IsShut (sym (ap (λ p. p.1) (take-idle quote fine es ch idle))) (rw h refl)
    | inr (snap, waiting, e) ↦
        let later = record ch { buffer = waiting } in
        subst IsShut (sym (ap (λ p. p.1) (take-waiting quote fine es ch snap waiting e))) (
          write-IsShut fine (frame quote snap) later (follow quote es later) h
            (follow-IsShut es later h))
  ]

  -- While no more than four snapshots wait and arrive, none is lost: when the stream has neither
  -- returned nor been shut, those that it has read and those that wait are all, in their order.
  pub follow-Keeps :
      (es : List Event) (ch : Channel)
      → length ch.buffer + length (arrivals es) ≤ 4
      → Keeps (ch.buffer ++ arrivals es) (received es ch, follow quote es ch)
  unfolding follow arrivals received
  follow-Keeps [] ch few = inr (inr (sym (append-nil ch.buffer)))
  follow-Keeps (arrive snap ∷ es) ch few = elim (Bool-cases ch.closed) [
    | inl gone ↦ inl (follow-IsShut es (accept snap ch) (accept-closed snap ch gone))
    | inr there ↦
        let e = accept-room snap ch there (omega arith) in
        subst (λ all. Keeps all (received es (accept snap ch), follow quote es (accept snap ch)))
          (ap (λ front. front ++ arrivals es) e ∙ append_assoc ch.buffer (snap ∷ []) (arrivals es))
          (follow-Keeps es (accept snap ch)
            (omega (arith, ap length e, length-append {0} ch.buffer (snap ∷ []))))
  ]
  follow-Keeps (Event.shut ∷ es) ch few = inl (follow-IsShut es (record ch { closed = true }) refl)
  follow-Keeps (left ∷ es) ch few = inr (inl refl)
  follow-Keeps (beat fine ∷ es) ch few =
      Keeps-write fine heartbeat ch (received es ch) (follow quote es ch) _ (follow-Keeps es ch few)
  follow-Keeps (take fine ∷ es) ch few = elim (List-cases ch.buffer) [
    | inl idle ↦
        subst (Keeps (ch.buffer ++ arrivals es)) (sym (take-idle quote fine es ch idle))
          (Keeps-idle ch.closed ch (received es ch) (follow quote es ch) _ (follow-Keeps es ch few))
    | inr (snap, waiting, e) ↦
        let later = record ch { buffer = waiting } in
        subst (Keeps (ch.buffer ++ arrivals es))
          (sym (take-waiting quote fine es ch snap waiting e))
          (subst
            (λ front. Keeps (front ++ arrivals es) (
              if fine then snap ∷ received es later else [],
              write fine (frame quote snap) later (follow quote es later),
            ))
            (sym e)
            (Keeps-write fine (frame quote snap) later (snap ∷ received es later)
              (follow quote es later) _
              (Keeps-next snap (received es later) (follow quote es later) (waiting ++ arrivals es)
                (follow-Keeps es later (omega (arith, ap length e))))))
  ]
