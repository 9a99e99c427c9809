-- ===== src/Gateway/Jsm/Stream/Ending.antt =====
-- An overview stream ends with its request, and with the refresher that it follows.
use mathlib.Core.Path.{subst}
use mathlib.Core.Option.{some_inj}
use cheshmhayash.Common.{
  ℕ, suc, ◌≤◌, ◌<◌, ◌≡◌, refl, sym, ap, ◌∙◌, ◌⊎◌, inl, inr, true, false, Bool, String, List, [],
  ◌∷◌, some, length, eqb, eqb_iff, Bool-cases, List-cases, ◌==◌, arith, if◌then◌else◌,
}
use cheshmhayash.Natsx.Cache.{
  Snapshot, Channel, Cache, shut, has, close_named, close_subs, others, unsubscribe,
}
use cheshmhayash.Natsx.Cache.Laws.{Reachable, put-same}
use cheshmhayash.Natsx.Cache.Closing.{close_named-Closes}
use cheshmhayash.Natsx.Cache.Races.{Reachable-IsConsistent}
use cheshmhayash.Gateway.Jsm.Stream.{
  Event, arrive, left, beat, take, Followed, accept, over, write, heartbeat, frame, follow,
}
use cheshmhayash.Gateway.Jsm.Stream.Laws.{take-idle, take-waiting}

-- How often the `select` takes the channel, and whether it takes the end of the request.
unfoldable pub takes : List Event → ℕ
takes [] = 0
takes (take fine ∷ es) = suc (takes es)
takes (_ ∷ es) = takes es

unfoldable pub is_left : List Event → Bool
is_left [] = false
is_left (left ∷ es) = true
is_left (_ ∷ es) = is_left es

write-ended :
    (fine : Bool) (text : String) (ch : Channel) (rest : Followed)
    → rest.ended ≡ true
    → (write fine text ch rest).ended ≡ true
write-ended true text ch rest h = h
write-ended false text ch rest h = refl

accept-closed : (snap : Snapshot) (ch : Channel) → ch.closed ≡ true → accept snap ch ≡ ch
unfolding accept
accept-closed snap ch h = rw h refl

-- Why a loop that follows `ch` must end: its request does, or it reads a closed channel to its end.
abbrev Ends : List Event → Channel → Type 0
Ends es ch = (is_left es ≡ true) ⊎ ((ch.closed ≡ true) × (length ch.buffer < takes es))

abbrev IsOver : Followed → Type 0
IsOver r = r.ended ≡ true

Ends-either :
    (es : List Event) (ch closing : Channel)
    → (5 ≤ takes es → Ends es closing)
    → (is_left es ≡ true) ⊎ ((ch ≡ closing) × (5 ≤ takes es))
    → Ends es ch
Ends-either es ch closing h (inl gone) = inl gone
Ends-either es ch closing h (inr (same, many)) = subst (Ends es) (sym same) (h many)

idle-ended :
    (closed : Bool) (ch : Channel) (rest : Followed)
    → (closed ≡ false → IsOver rest)
    → IsOver (if closed then over ch else rest)
idle-ended true ch rest h = refl
idle-ended false ch rest h = h refl

Ends-open :
    (es : List Event) (ch : Channel) (fine : Bool)
    → ch.closed ≡ false
    → Ends (take fine ∷ es) ch
    → is_left es ≡ true
unfolding is_left
Ends-open es ch fine h (inl gone) = gone
Ends-open es ch fine h (inr (closed, few)) = cc

Ends-take :
    (es : List Event) (ch : Channel) (fine : Bool) (snap : Snapshot) (waiting : List Snapshot)
    → ch.buffer ≡ snap ∷ waiting
    → Ends (take fine ∷ es) ch
    → Ends es (record ch { buffer = waiting })
unfolding is_left takes
Ends-take es ch fine snap waiting e (inl gone) = inl gone
Ends-take es ch fine snap waiting e (inr (closed, few)) = inr (closed, omega (arith, ap length e))

follow-ended :
    (quote : String → String) (es : List Event) (ch : Channel)
    → Ends es ch
    → (follow quote es ch).ended ≡ true
unfolding follow is_left takes
follow-ended quote [] ch (inl h) = cc
follow-ended quote [] ch (inr (h, few)) = absurd (omega arith)
follow-ended quote (arrive snap ∷ es) ch (inl h) = follow-ended quote es (accept snap ch) (inl h)
follow-ended quote (arrive snap ∷ es) ch (inr (h, few)) =
    subst (λ c. (follow quote es c).ended ≡ true) (sym (accept-closed snap ch h))
      (follow-ended quote es ch (inr (h, few)))
follow-ended quote (Event.shut ∷ es) ch (inl h) =
    follow-ended quote es (record ch { closed = true }) (inl h)
follow-ended quote (Event.shut ∷ es) ch (inr (h, few)) =
    follow-ended quote es (record ch { closed = true }) (inr (refl, few))
follow-ended quote (left ∷ es) ch h = refl
follow-ended quote (beat fine ∷ es) ch h =
    write-ended fine heartbeat ch (follow quote es ch) (follow-ended quote es ch h)
follow-ended quote (take fine ∷ es) ch h = elim (List-cases ch.buffer) [
  | inl idle ↦ subst IsOver (sym (ap (λ p. p.1) (take-idle quote fine es ch idle))) (
      idle-ended ch.closed ch (follow quote es ch)
        (λ open_yet. follow-ended quote es ch (inl (Ends-open es ch fine open_yet h))))
  | inr (snap, waiting, e) ↦
      subst IsOver (sym (ap (λ p. p.1) (take-waiting quote fine es ch snap waiting e))) (
        write-ended fine (frame quote snap) (record ch { buffer = waiting })
          (follow quote es (record ch { buffer = waiting }))
          (follow-ended quote es (record ch { buffer = waiting })
            (Ends-take es ch fine snap waiting e h)))
]

shut-closed :
    (i : ℕ) (c : ℕ → Channel) (id : ℕ) → (c id).closed ≡ true → (shut i c id).closed ≡ true
shut-closed i c id h = elim (Bool-cases (eqb id i)) [
  | inl same ↦ rw same refl
  | inr other ↦ rw other h
]

close_named-closed :
    (name : String) (ps : List (String × ℕ)) (c d : ℕ → Channel) (id : ℕ)
    → close_named name ps c ≡ some d
    → (c id).closed ≡ true
    → (d id).closed ≡ true
unfolding close_named
close_named-closed name [] c d id e h = ap (λ f. (f id).closed) (sym (some_inj.0 e)) ∙ h
close_named-closed name ((n, i) ∷ ps) c d id e h = elim (Bool-cases (n == name)) [
  | inr other ↦ close_named-closed name ps c d id (ground arith) h
  | inl mine ↦ close_named-closed name ps (shut i c) d id (ground arith) (shut-closed i c id h)
]

has-closed :
    (name : String) (ps : List (String × ℕ)) (c d : ℕ → Channel) (id : ℕ)
    → has name id ps ≡ true
    → close_named name ps c ≡ some d
    → (d id).closed ≡ true
unfolding close_named has
has-closed name [] c d id h e = cc
has-closed name ((n, i) ∷ ps) c d id h e = elim (Bool-cases (n == name)) [
  | inr other ↦ has-closed name ps c d id (ground arith) (ground arith)
  | inl mine ↦ elim (Bool-cases (eqb i id)) [
    | inl here ↦ close_named-closed name ps (shut i c) d id (ground arith) (
        subst (λ j. (shut i c j).closed ≡ true) ((eqb_iff i id).0 here)
          (ap (λ x. x.closed) (put-same i (record (c i) { closed = true }) c)))
    | inr later ↦ has-closed name ps (shut i c) d id (ground arith) (ground arith)
  ]
]

has-others :
    (name : String) (id : ℕ) (ps : List (String × ℕ)) → has name id (others name ps) ≡ false
unfolding has others
has-others name id [] = refl
has-others name id ((n, i) ∷ ps) = elim (Bool-cases (n == name)) [
  | inl mine ↦ rw mine (has-others name id ps)
  | inr other ↦ rw (other, has-others name id ps, has) (ground arith)
]

-- A stream returns once its request ends. From the time when the refresher of its cluster has ended,
-- in any reachable state, it returns within five reads of its channel, however they mix with
-- heartbeats; and the Unsubscribe that the handler has deferred then changes nothing.
pub follow-close_subs :
    (quote : String → String) (s t : Cache) (name : String) (id : ℕ) (es : List Event)
    (ch : Channel)
    → Reachable s
    → has name id s.subs ≡ true
    → close_subs name s ≡ some t
    → (is_left es ≡ true) ⊎ ((ch ≡ t.channels id) × (5 ≤ takes es))
    → ((follow quote es ch).ended ≡ true) × (unsubscribe name id t ≡ some t)
unfolding close_subs unsubscribe
follow-close_subs quote s t name id es ch h present e why =
    let inv = Reachable-IsConsistent s h in
    let r = close_named-Closes name s.subs 0 s.next s.channels inv.chain inv.all_open in
    let same : record s { subs = others name s.subs; channels = r.result } ≡ t =
      some_inj.0 (sym (rw (r.done, close_subs) refl) ∙ e) in
    let shut_now : (r.result id).closed ≡ true =
      has-closed name s.subs s.channels r.result id present r.done in
    let ends : (5 ≤ takes es) → Ends es (t.channels id) = λ many.
      subst (λ u. Ends es (u.channels id)) same
        (inr (shut_now, omega (arith, ap length (r.buffers id), inv.short id))) in
    (
      follow-ended quote es ch (Ends-either es ch (t.channels id) ends why),
      subst (λ u. unsubscribe name id u ≡ some u) same
          (rw (has-others name id s.subs, unsubscribe) refl),
    )
