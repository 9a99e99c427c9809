-- ===== src/Natsx/Cache/Races.antt =====
-- What no interleaving can do to the cache, and the one that makes a send panic.
use mathlib.Core.Path.{subst}
use mathlib.Core.Option.{some_inj}
use cheshmhayash.Common.{
  ℕ, suc, ◌≡◌, refl, sym, ap, ◌∙◌, ◌≢◌, inl, inr, true, false, String, List, [], ◌∷◌, ◌++◌, Option,
  none, some, All, arith, eq_iff, length, ltb, Bool-cases, ◌==◌,
}
use cheshmhayash.Natsx.Cache.{
  Snapshot, Channel, Cache, new_cache, store, put, deliver, shut, has, remove, unsubscribe, others,
  close_subs, deliver_all, broadcast, ids_of, tick, snapshot_of,
}
use cheshmhayash.Natsx.Cache.Laws.{
  Step, Reachable, start, next_step, IsChain, AllOpen, IsConsistent, IsChain-lower, put-same,
  put-short, put-closed, register-IsConsistent, deliver-IsConsistent, receive-IsConsistent,
}
use cheshmhayash.Natsx.{Reply}
use cheshmhayash.Natsx.Cache.Closing.{has-open, remove-IsChain, remove-AllOpen, close_named-Closes}

others-IsChain :
    (name : String) (ps : List (String × ℕ)) (low next : ℕ)
    → IsChain low ps next
    → IsChain low (others name ps) next
unfolding others
others-IsChain name [] low next ch = ch
others-IsChain name ((n, i) ∷ ps) low next (l, ch) = elim (Bool-cases (n == name)) [
  | inl mine ↦ rw mine (
      IsChain-lower (suc i) low (others name ps) next (omega arith)
        (others-IsChain name ps (suc i) next ch))
  | inr another ↦ rw another (l, others-IsChain name ps (suc i) next ch)
]

module _ (s : Cache) (inv : IsConsistent s) where
  abbrev pub Done : Option Cache → Type 0
  Done r = (t : Cache) × (r ≡ some t) × IsConsistent t

  unsubscribe-Done : (name : String) (id : ℕ) → Done (unsubscribe name id s)
  unfolding unsubscribe
  unsubscribe-Done name id = elim (Bool-cases (has name id s.subs)) [
    | inr absent ↦ (s, rw absent refl, inv)
    | inl present ↦ (
      record s { subs = remove name id s.subs; channels = shut id s.channels },
      ground (arith, has-open name id s.subs s.channels inv.all_open present),
      record {
        chain = remove-IsChain name id s.subs 0 s.next inv.chain;
        all_open = remove-AllOpen name id s.subs 0 s.next s.channels inv.chain present inv.all_open;
        short = put-short id _ s.channels (inv.short id) inv.short;
      },
    )
  ]

  pub close_subs-Done : (name : String) → Done (close_subs name s)
  unfolding close_subs
  close_subs-Done name =
      let r = close_named-Closes name s.subs 0 s.next s.channels inv.chain inv.all_open in
      (
        record s { subs = others name s.subs; channels = r.result },
        rw (r.done, close_subs) refl,
        record {
          chain = others-IsChain name s.subs 0 s.next inv.chain;
          all_open = r.rest;
          short = λ j. omega (arith, ap length (r.buffers j), inv.short j);
        },
      )

Step-IsConsistent : (s t : Cache) → Step s t → IsConsistent s → IsConsistent t
Step-IsConsistent s t (Step.stored name snap _) inv =
    unfold store in record { chain = inv.chain; all_open = inv.all_open; short = inv.short }
Step-IsConsistent s t (Step.registered name _) inv = register-IsConsistent name s inv
Step-IsConsistent s t (Step.received id _) inv = receive-IsConsistent id s inv
Step-IsConsistent s t (Step.delivered id snap _ _ m e) inv = deliver-IsConsistent id snap s t inv e
Step-IsConsistent s t (Step.unsubscribed name id _ _ e) inv =
    let (u, f, c) = unsubscribe-Done s inv name id in subst IsConsistent (some_inj.0 (sym f ∙ e)) c
Step-IsConsistent s t (Step.ended name _ _ e) inv =
    let (u, f, c) = close_subs-Done s inv name in subst IsConsistent (some_inj.0 (sym f ∙ e)) c

new_cache-IsConsistent : IsConsistent new_cache
unfolding new_cache
new_cache-IsConsistent = record { chain = omega arith; all_open = tt; short = λ id. omega arith }

-- In every state that some interleaving of refreshers and subscribers leads to, each subscription has
-- a channel of its own, made before and still open, and no channel holds more than four snapshots.
pub Reachable-IsConsistent : (s : Cache) → Reachable s → IsConsistent s
Reachable-IsConsistent s start = new_cache-IsConsistent
Reachable-IsConsistent s (next_step r _ h e) = Step-IsConsistent r s e (Reachable-IsConsistent r h)

-- In every reachable state a subscriber may leave and a refresher may end: neither closes a channel
-- twice, so neither panics.
pub closing-ne-none :
    (s : Cache)
    → Reachable s
    → ((name : String) (id : ℕ) → unsubscribe name id s ≢ none)
      × ((name : String) → close_subs name s ≢ none)
closing-ne-none s h =
    let inv = Reachable-IsConsistent s h in
    (
      λ name id e. (let (t, f, _) = unsubscribe-Done s inv name id in ground arith),
      λ name e. (let (t, f, _) = close_subs-Done s inv name in ground arith),
    )

-- In every reachable state a send to a subscribed channel succeeds; but once its subscriber has
-- left, the same send panics: so does a broadcast that copied the list before.
pub deliver-unsubscribe :
    (s : Cache) (name : String) (id : ℕ) (snap : Snapshot) (t : Cache)
    → Reachable s
    → has name id s.subs ≡ true
    → unsubscribe name id s ≡ some t
    → (deliver id snap s ≢ none) × (deliver id snap t ≡ none)
unfolding deliver unsubscribe
deliver-unsubscribe s name id snap t h present e =
    let inv = Reachable-IsConsistent s h in
    let live = has-open name id s.subs s.channels inv.all_open present in
    let gone : record s { subs = remove name id s.subs; channels = shut id s.channels } ≡ t =
      some_inj.0 (ground arith) in
    (
      ground arith,
      subst (λ u. deliver id snap u ≡ none) gone
          (rw
            (ap (λ x. x.closed) (put-same id (record (s.channels id) { closed = true }) s.channels))
            refl),
    )

-- What a send to an open channel leaves.
record Sent (id : ℕ) (snap : Snapshot) (s : Cache) : Type 0 where
  result : Cache
  done : deliver id snap s ≡ some result
  same_entries : result.entries ≡ s.entries
  same_closed : (j : ℕ) → (result.channels j).closed ≡ (s.channels j).closed

deliver-Sent :
    (id : ℕ) (snap : Snapshot) (s : Cache) → (s.channels id).closed ≡ false → Sent id snap s
unfolding deliver
deliver-Sent id snap s live = elim (Bool-cases (ltb (length (s.channels id).buffer) 4)) [
  | inr full ↦ record {
    result = s;
    done = ground arith;
    same_entries = refl;
    same_closed = λ j. refl;
  }
  | inl room ↦
      let ch : Channel = record (s.channels id) {
        buffer = (s.channels id).buffer ++ (snap ∷ []);
      } in
      record {
        result = record s { channels = put id ch s.channels };
        done = ground arith;
        same_entries = refl;
        same_closed = λ j. put-closed id ch s.channels j refl;
      }
]

abbrev Live : (ℕ → Channel) → ℕ → Type 0
Live c id = (c id).closed ≡ false

All-Live :
    (ids : List ℕ) (c d : ℕ → Channel)
    → ((j : ℕ) → (d j).closed ≡ (c j).closed)
    → All (Live c) ids
    → All (Live d) ids
All-Live [] c d e h = tt
All-Live (i ∷ is) c d e (l, h) = (e i ∙ l, All-Live is c d e h)

deliver_all-total :
    (ids : List ℕ) (snap : Snapshot) (s : Cache)
    → All (Live s.channels) ids
    → (t : Cache) × (deliver_all ids snap s ≡ some t) × (t.entries ≡ s.entries)
unfolding deliver_all
deliver_all-total [] snap s h = (s, refl, refl)
deliver_all-total (i ∷ is) snap s (l, h) =
    let r = deliver-Sent i snap s l in
    let (t, e, same) =
      deliver_all-total is snap r.result
        (All-Live is s.channels r.result.channels r.same_closed h) in
    (t, rw (r.done, deliver_all) e, same ∙ r.same_entries)

ids_of-Live :
    (name : String) (ps : List (String × ℕ)) (c : ℕ → Channel)
    → AllOpen ps c
    → All (Live c) (ids_of name ps)
unfolding ids_of
ids_of-Live name [] c o = tt
ids_of-Live name ((n, i) ∷ ps) c (o, os) = elim (Bool-cases (n == name)) [
  | inl mine ↦ rw mine (o, ids_of-Live name ps c os)
  | inr another ↦ rw another (ids_of-Live name ps c os)
]

-- In every reachable state a tick that nothing interrupts comes to an end without a panic, and the
-- cache then holds the tick's own snapshot for the cluster, and for every other what it held.
pub tick-total :
    (now : ℕ) (replies : Reply (List String)) (name : String) (s : Cache)
    → Reachable s
    → (t : Cache) × (tick now replies name s ≡ some t)
      × (t.entries name ≡ some (snapshot_of now replies))
      × ((other : String) → other ≢ name → t.entries other ≡ s.entries other)
unfolding tick broadcast store
tick-total now replies name s h =
    let inv = Reachable-IsConsistent s h in
    let snap = snapshot_of now replies in
    let (t, e, same) =
      deliver_all-total (ids_of name s.subs) snap (store name snap s)
        (ids_of-Live name s.subs s.channels inv.all_open) in
    (
      t,
      e,
      ap (λ f. f name) same ∙ (ground (arith, eq_iff name name)),
      λ o ne. ap (λ f. f o) same ∙ (ground (arith, eq_iff o name)),
    )
