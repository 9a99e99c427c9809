-- ===== src/Natsx/Cache/Closing.antt =====
-- The two ways in which a channel is closed: by its subscriber, and by the end of its refresher.
use mathlib.Core.Path.{subst}
use cheshmhayash.Common.{
  ℕ, suc, ◌<◌, ◌≤◌, ◌≡◌, refl, sym, ap, ◌∙◌, ◌≢◌, inl, inr, true, false, String, List, [], ◌∷◌,
  some, arith, eqb, eqb_iff, Bool-cases, ◌==◌,
}
use cheshmhayash.Natsx.Cache.{Channel, shut, is_entry, has, remove, close_named, others}
use cheshmhayash.Natsx.Cache.Laws.{IsChain, AllOpen, IsChain-lower, AllOpen-kept, put-other}

shut-other : (id : ℕ) (c : ℕ → Channel) (j : ℕ) → j ≢ id → (shut id c j).closed ≡ (c j).closed
shut-other id c j ne = ap (λ x. x.closed) (put-other id _ c j ne)

has-low :
    (name : String) (id : ℕ) (ps : List (String × ℕ)) (low next : ℕ)
    → IsChain low ps next
    → has name id ps ≡ true
    → low ≤ id
unfolding has
has-low name id [] low next ch h = ground arith
has-low name id ((n, i) ∷ ps) low next (l, ch) h = elim (Bool-cases (is_entry name id (n, i))) [
  | inl here ↦ ground (arith, eqb_iff i id)
  | inr later ↦ omega (arith, has-low name id ps (suc i) next ch (ground arith))
]

pub has-open :
    (name : String) (id : ℕ) (ps : List (String × ℕ)) (c : ℕ → Channel)
    → AllOpen ps c
    → has name id ps ≡ true
    → (c id).closed ≡ false
unfolding has
has-open name id [] c o h = ground arith
has-open name id ((n, i) ∷ ps) c (o, os) h = elim (Bool-cases (is_entry name id (n, i))) [
  | inl here ↦ subst (λ k. (c k).closed ≡ false) ((eqb_iff i id).0 (ground arith)) o
  | inr later ↦ has-open name id ps c os (ground arith)
]

pub remove-IsChain :
    (name : String) (id : ℕ) (ps : List (String × ℕ)) (low next : ℕ)
    → IsChain low ps next
    → IsChain low (remove name id ps) next
unfolding remove
remove-IsChain name id [] low next ch = ch
remove-IsChain name id ((n, i) ∷ ps) low next (l, ch) =
    elim (Bool-cases (is_entry name id (n, i))) [
      | inl here ↦ rw here (IsChain-lower (suc i) low ps next (omega arith) ch)
      | inr later ↦ rw later (l, remove-IsChain name id ps (suc i) next ch)
    ]

-- The others stay open when the channel of an entry is closed and the entry removed.
pub remove-AllOpen :
    (name : String) (id : ℕ) (ps : List (String × ℕ)) (low next : ℕ) (c : ℕ → Channel)
    → IsChain low ps next
    → has name id ps ≡ true
    → AllOpen ps c
    → AllOpen (remove name id ps) (shut id c)
unfolding remove has
remove-AllOpen name id [] low next c ch h o = tt
remove-AllOpen name id ((n, i) ∷ ps) low next c (l, ch) h (o, os) =
    elim (Bool-cases (is_entry name id (n, i))) [
      | inl here ↦ rw here (
          AllOpen-kept ps (suc i) next c (shut id c) ch
            (λ j m _. shut-other id c j (ground (arith, eqb_iff i id))) os)
      | inr later ↦
          let more : has name id ps ≡ true = ground arith in
          let above = has-low name id ps (suc i) next ch more in
          rw later (
            shut-other id c i (ground arith) ∙ o,
            remove-AllOpen name id ps (suc i) next c ch more os,
          )
    ]

-- Closing the channels of a name succeeds, and touches neither those below the chain nor, as far as
-- the buffers go, any.
pub record Closes (name : String) (ps : List (String × ℕ)) (low : ℕ) (c : ℕ → Channel)
    : Type 0 where
  pub result : ℕ → Channel
  pub done : close_named name ps c ≡ some result
  pub rest : AllOpen (others name ps) result
  pub below : (j : ℕ) → j < low → (result j).closed ≡ (c j).closed
  pub buffers : (j : ℕ) → (result j).buffer ≡ (c j).buffer

pub put-buffer : (id : ℕ) (c : ℕ → Channel) (j : ℕ) → (shut id c j).buffer ≡ (c j).buffer
put-buffer id c j = elim (Bool-cases (eqb j id)) [
  | inl same ↦ rw same (ap (λ x. (c x).buffer) (sym ((eqb_iff j id).0 same)))
  | inr other ↦ rw other refl
]

pub close_named-Closes :
    (name : String) (ps : List (String × ℕ)) (low next : ℕ) (c : ℕ → Channel)
    → IsChain low ps next
    → AllOpen ps c
    → Closes name ps low c
unfolding close_named others
close_named-Closes name [] low next c ch o = record {
  result = c;
  done = refl;
  rest = tt;
  below = λ j m. refl;
  buffers = λ j. refl;
}
close_named-Closes name ((n, i) ∷ ps) low next c (l, ch) (o, os) = elim (Bool-cases (n == name)) [
  | inl mine ↦
      let r = close_named-Closes name ps (suc i) next (shut i c) ch (
        AllOpen-kept ps (suc i) next c (shut i c) ch (λ j m _. shut-other i c j (ground arith))
          os) in
      record {
        result = r.result;
        done = rw (mine, o) r.done;
        rest = rw mine r.rest;
        below = λ j m. r.below j (omega arith) ∙ shut-other i c j (ground arith);
        buffers = λ j. r.buffers j ∙ put-buffer i c j;
      }
  | inr another ↦
      let r = close_named-Closes name ps (suc i) next c ch os in
      record {
        result = r.result;
        done = rw another r.done;
        rest = rw another (r.below i (omega arith) ∙ o, r.rest);
        below = λ j m. r.below j (omega arith);
        buffers = r.buffers;
      }
]
