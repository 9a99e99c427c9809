-- ===== src/Natsx/Cache/Refresh/Laws.antt =====
-- A refresher that nothing interrupts never panics, and leaves the cache as its last tick says.
use mathlib.Core.Path.{subst}
use mathlib.Core.Option.{some_inj}
use cheshmhayash.Common.{
  ℕ, suc, ◌<◌, ◌≡◌, refl, sym, ap, ◌∙◌, ◌⊎◌, inl, inr, true, false, Bool, String, List, [], ◌∷◌,
  Option, some, All, arith, Bool-cases, Option-cases, ◌==◌,
}
use cheshmhayash.Natsx.{Reply}
use cheshmhayash.Natsx.Cache.{
  Snapshot, Cache, store, deliver, deliver_all, broadcast, ids_of, others, close_subs, close_named,
  tick, snapshot_of,
}
use cheshmhayash.Natsx.Cache.Laws.{Step, Reachable, next_step, IsChain, IsChain-le}
use cheshmhayash.Natsx.Cache.Races.{Reachable-IsConsistent, close_subs-Done, tick-total}
use cheshmhayash.Natsx.Cache.Refresh.{Wake, ticked, stopped, refresh_loop, refresh}

deliver-next :
    (id : ℕ) (snap : Snapshot) (s t : Cache) → deliver id snap s ≡ some t → t.next ≡ s.next
unfolding deliver
deliver-next id snap s t e = ground arith

deliver_all-Reachable :
    (ids : List ℕ) (snap : Snapshot) (s t : Cache)
    → Reachable s
    → All (λ i. i < s.next) ids
    → deliver_all ids snap s ≡ some t
    → Reachable t
unfolding deliver_all
deliver_all-Reachable [] snap s t h b e = subst Reachable (some_inj.0 e) h
deliver_all-Reachable (i ∷ is) snap s t h (b, bs) e = elim (Option-cases (deliver i snap s)) [
  | inl stuck ↦ absurd (ground arith)
  | inr (u, sent) ↦
      deliver_all-Reachable is snap u t (next_step s u h (Step.delivered i snap s u b sent))
        (subst (λ n. All (λ j. j < n) is) (sym (deliver-next i snap s u sent)) bs) (ground arith)
]

ids_of-below :
    (name : String) (ps : List (String × ℕ)) (low next : ℕ)
    → IsChain low ps next
    → All (λ i. i < next) (ids_of name ps)
unfolding ids_of
ids_of-below name [] low next ch = tt
ids_of-below name ((n, i) ∷ ps) low next (l, ch) = elim (Bool-cases (n == name)) [
  | inl mine ↦
      rw mine (omega (arith, IsChain-le (suc i) ps next ch), ids_of-below name ps (suc i) next ch)
  | inr other ↦ rw other (ids_of-below name ps (suc i) next ch)
]

-- A tick is steps that others could take as well.
tick-Reachable :
    (now : ℕ) (replies : Reply (List String)) (name : String) (s t : Cache)
    → Reachable s
    → tick now replies name s ≡ some t
    → Reachable t
unfolding tick broadcast store
tick-Reachable now replies name s t h e =
    let snap = snapshot_of now replies in
    deliver_all-Reachable (ids_of name s.subs) snap (store name snap s) t
      (next_step s (store name snap s) h (Step.stored name snap s))
      (ids_of-below name s.subs 0 s.next (Reachable-IsConsistent s h).chain) e

ids_of-others : (name : String) (ps : List (String × ℕ)) → ids_of name (others name ps) ≡ []
unfolding ids_of others
ids_of-others name [] = refl
ids_of-others name ((n, i) ∷ ps) = elim (Bool-cases (n == name)) [
  | inl mine ↦ rw mine (ids_of-others name ps)
  | inr other ↦ rw (other, ids_of-others name ps, ids_of) (ground arith)
]

-- The snapshot that the ticks before the end leave, and whether there is an end.
unfoldable pub last_snapshot : Option Snapshot → List Wake → Option Snapshot
last_snapshot held [] = held
last_snapshot held (stopped ∷ ws) = held
last_snapshot held (ticked now replies ∷ ws) = last_snapshot (some (snapshot_of now replies)) ws

unfoldable pub is_stopped : List Wake → Bool
is_stopped [] = false
is_stopped (stopped ∷ ws) = true
is_stopped (ticked now replies ∷ ws) = is_stopped ws

-- The run succeeds with a state that has the snapshot, and no subscription of the name after an end.
abbrev pub Leaves : String → Option Snapshot → Bool → Option Cache → Type 0
Leaves name held over r =
    (t : Cache) × (r ≡ some t)
    × Reachable t
    × (t.entries name ≡ held)
    × ((over ≡ false) ⊎ (ids_of name t.subs ≡ []))

close_subs-keeps :
    (name : String) (s t : Cache)
    → close_subs name s ≡ some t
    → (t.entries ≡ s.entries) × (ids_of name t.subs ≡ [])
unfolding close_subs
close_subs-keeps name s t e = elim (Option-cases (close_named name s.subs s.channels)) [
  | inl stuck ↦ absurd (ground arith)
  | inr (channels, f) ↦
      let same : record s { subs = others name s.subs; channels = channels } ≡ t =
        some_inj.0 (sym (rw (f, close_subs) refl) ∙ e) in
      (
        ap (λ u. u.entries) (sym same),
        ap (λ u. ids_of name u.subs) (sym same) ∙ ids_of-others name s.subs,
      )
]

stop-Leaves :
    (name : String) (s : Cache)
    → Reachable s
    → Leaves name (s.entries name) true (close_subs name s)
stop-Leaves name s h =
    let (t, e, inv) = close_subs-Done s (Reachable-IsConsistent s h) name in
    let (same, gone) = close_subs-keeps name s t e in
    (t, e, next_step s t h (Step.ended name s t e), ap (λ f. f name) same, inr gone)

refresh_loop-Leaves :
    (name : String) (ws : List Wake) (s : Cache)
    → Reachable s
    → Leaves name (last_snapshot (s.entries name) ws) (is_stopped ws) (refresh_loop name ws s)
unfolding refresh_loop last_snapshot is_stopped
refresh_loop-Leaves name [] s h = (s, refl, h, refl, inl refl)
refresh_loop-Leaves name (stopped ∷ ws) s h = stop-Leaves name s h
refresh_loop-Leaves name (ticked now replies ∷ ws) s h =
    let (u, e, held, _) = tick-total now replies name s h in
    let (t, f, r, g, over) =
      refresh_loop-Leaves name ws u (tick-Reachable now replies name s u h e) in
    (t, rw (e, refresh_loop) f, r, g ∙ ap (λ x. last_snapshot x ws) held, over)

-- From every reachable state, a refresher of a known cluster that runs alone never panics. The cache
-- then holds the snapshot of its last tick before its context ended, the first of which comes at
-- once; and once the context has ended, the cluster has no subscriber left.
pub refresh-Leaves :
    (name : String) (now : ℕ) (replies : Reply (List String)) (ws : List Wake) (s : Cache)
    → Reachable s
    → Leaves name
        (last_snapshot (some (snapshot_of now replies)) ws)
        (is_stopped ws)
        (refresh true name now replies ws s)
unfolding refresh last_snapshot is_stopped
refresh-Leaves name now replies ws s h = refresh_loop-Leaves name (ticked now replies ∷ ws) s h
