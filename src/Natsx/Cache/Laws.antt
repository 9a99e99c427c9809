-- ===== src/Natsx/Cache/Laws.antt =====
-- The cache under any interleaving of refreshers and subscribers: what every reachable state keeps.
use mathlib.Core.Path.{subst}
use cheshmhayash.Common.{
  All-append, ℕ, suc, ◌<◌, ◌≤◌, ◌≡◌, refl, sym, ap, ◌∙◌, ◌≢◌, inl, inr, false, String, List, [],
  ◌∷◌, ◌++◌, some, All, arith, length, length-append, List-cases, ltb, ltb→lt, eqb, eqb_iff,
  Bool-cases,
}
use cheshmhayash.Natsx.Cache.{
  Snapshot, Channel, Cache, open_channel, new_cache, store, put, register, deliver, receive,
  unsubscribe, close_subs,
}

-- One atomic action. A snapshot may reach any channel that has been handed out, at any time: a
-- broadcast sends over a list that it copied earlier, and a new subscriber gets what it read earlier.
pub data Step : Cache → Cache → Type 0 where
  stored : (name : String) (snap : Snapshot) (s : Cache) → Step s (store name snap s)
  registered : (name : String) (s : Cache) → Step s (register name s)
  received : (id : ℕ) (s : Cache) → Step s (receive id s)
  delivered :
      (id : ℕ) (snap : Snapshot) (s t : Cache) → id < s.next → deliver id snap s ≡ some t → Step s t
  unsubscribed : (name : String) (id : ℕ) (s t : Cache) → unsubscribe name id s ≡ some t → Step s t
  ended : (name : String) (s t : Cache) → close_subs name s ≡ some t → Step s t

pub data Reachable : Cache → Type 0 where
  start : Reachable new_cache
  next_step : (s t : Cache) → Reachable s → Step s t → Reachable t

-- The ids go up, from a bound to a bound.
abbrev pub IsChain : ℕ → List (String × ℕ) → ℕ → Type 0
IsChain low [] next = low ≤ next
IsChain low ((n, i) ∷ ps) next = (low ≤ i) × IsChain (suc i) ps next

abbrev pub AllOpen : List (String × ℕ) → (ℕ → Channel) → Type 0
AllOpen ps channels = All (λ p. (channels p.1).closed ≡ false) ps

-- Every subscription is of a channel of its own, which is open, and no buffer holds more than four.
pub record IsConsistent (s : Cache) : Type 0 where
  pub chain : IsChain 0 s.subs s.next
  pub all_open : AllOpen s.subs s.channels
  pub short : (id : ℕ) → length (s.channels id).buffer ≤ 4

pub IsChain-le : (low : ℕ) (ps : List (String × ℕ)) (next : ℕ) → IsChain low ps next → low ≤ next
IsChain-le low [] next h = h
IsChain-le low ((n, i) ∷ ps) next (l, h) = omega (arith, IsChain-le (suc i) ps next h)

pub IsChain-lower :
    (low lower : ℕ) (ps : List (String × ℕ)) (next : ℕ)
    → lower ≤ low
    → IsChain low ps next
    → IsChain lower ps next
IsChain-lower low lower [] next e h = omega arith
IsChain-lower low lower ((n, i) ∷ ps) next e (l, h) = (omega arith, h)

IsChain-register :
    (low : ℕ) (ps : List (String × ℕ)) (name : String) (next : ℕ)
    → IsChain low ps next
    → IsChain low (ps ++ ((name, next) ∷ [])) (suc next)
IsChain-register low [] name next h = (h, omega arith)
IsChain-register low ((n, i) ∷ ps) name next (l, h) = (l, IsChain-register (suc i) ps name next h)

-- A change that closes no channel of the chain leaves them open.
pub AllOpen-kept :
    (ps : List (String × ℕ)) (low next : ℕ) (c d : ℕ → Channel)
    → IsChain low ps next
    → ((j : ℕ) → low ≤ j → j < next → (d j).closed ≡ (c j).closed)
    → AllOpen ps c
    → AllOpen ps d
AllOpen-kept [] low next c d ch h o = tt
AllOpen-kept ((n, i) ∷ ps) low next c d (l, ch) h (o, os) = (
  h i l (omega (arith, IsChain-le (suc i) ps next ch)) ∙ o,
  AllOpen-kept ps (suc i) next c d ch (λ j k m. h j (omega arith) m) os,
)

pub put-other : (id : ℕ) (ch : Channel) (c : ℕ → Channel) (j : ℕ) → j ≢ id → put id ch c j ≡ c j
put-other id ch c j ne = ground (arith, eqb_iff j id)

pub put-same : (id : ℕ) (ch : Channel) (c : ℕ → Channel) → put id ch c id ≡ ch
put-same id ch c = ground (arith, eqb_iff id id)

-- A channel replaced by one that is as open and holds at most four.
pub put-closed :
    (id : ℕ) (ch : Channel) (c : ℕ → Channel) (j : ℕ)
    → ch.closed ≡ (c id).closed
    → (put id ch c j).closed ≡ (c j).closed
put-closed id ch c j e = elim (Bool-cases (eqb j id)) [
  | inl same ↦ rw same (e ∙ ap (λ x. (c x).closed) (sym ((eqb_iff j id).0 same)))
  | inr other ↦ rw other refl
]

pub put-short :
    (id : ℕ) (ch : Channel) (c : ℕ → Channel)
    → length ch.buffer ≤ 4
    → ((j : ℕ) → length (c j).buffer ≤ 4)
    → (j : ℕ) → length (put id ch c j).buffer ≤ 4
put-short id ch c h k j = elim (Bool-cases (eqb j id)) [
  | inl same ↦ rw same h
  | inr other ↦ rw other (k j)
]

replaced :
    (s : Cache) (id : ℕ) (ch : Channel)
    → IsConsistent s
    → ch.closed ≡ (s.channels id).closed
    → length ch.buffer ≤ 4
    → IsConsistent (record s { channels = put id ch s.channels })
replaced s id ch inv e h = record {
  chain = inv.chain;
  all_open =
      AllOpen-kept s.subs 0 s.next s.channels (put id ch s.channels) inv.chain
        (λ j _ _. put-closed id ch s.channels j e) inv.all_open;
  short = put-short id ch s.channels h inv.short;
}

pub register-IsConsistent :
    (name : String) (s : Cache) → IsConsistent s → IsConsistent (register name s)
unfolding register
register-IsConsistent name s inv = record {
  chain = IsChain-register 0 s.subs name s.next inv.chain;
  all_open =
      All-append (λ p. (put s.next open_channel s.channels p.1).closed ≡ false) s.subs
        ((name, s.next) ∷ [])
        (AllOpen-kept s.subs 0 s.next s.channels (put s.next open_channel s.channels) inv.chain
          (λ j _ m. ap (λ x. x.closed) (put-other s.next open_channel s.channels j (ground arith)))
          inv.all_open)
        (ap (λ x. x.closed) (put-same s.next open_channel s.channels), tt);
  short = put-short s.next open_channel s.channels (omega arith) inv.short;
}

pub deliver-IsConsistent :
    (id : ℕ) (snap : Snapshot) (s t : Cache)
    → IsConsistent s
    → deliver id snap s ≡ some t
    → IsConsistent t
unfolding deliver
deliver-IsConsistent id snap s t inv e = elim (Bool-cases (s.channels id).closed) [
  | inl shut_already ↦ ground arith
  | inr live ↦ elim (Bool-cases (ltb (length (s.channels id).buffer) 4)) [
    | inr full ↦ subst IsConsistent (ground arith) inv
    | inl room ↦ subst IsConsistent (ground arith) (
        replaced s id (record (s.channels id) { buffer = (s.channels id).buffer ++ (snap ∷ []) })
          inv refl
          (omega (
            arith,
            length-append (s.channels id).buffer (snap ∷ []),
            ltb→lt (length (s.channels id).buffer) 4 room,
          )))
  ]
]

pub receive-IsConsistent : (id : ℕ) (s : Cache) → IsConsistent s → IsConsistent (receive id s)
unfolding receive
receive-IsConsistent id s inv = elim (List-cases (s.channels id).buffer) [
  | inl e ↦ subst IsConsistent (ground arith) inv
  | inr (snap, rest, e) ↦ subst IsConsistent (ground arith) (
      replaced s id (record (s.channels id) { buffer = rest }) inv refl
        (omega (arith, ap length e, inv.short id)))
]
