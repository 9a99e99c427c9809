-- ===== src/Common/Text/Laws.antt =====
-- What the text functions promise: prefixes, the split at a last separator, case folding.
use Prim.Native.Nat.{ℕ}
use Prim.Native.Char.{Char, code}
use Prim.Native.String.{String, [], ◌∷◌}
use mathlib.Core.Path.{◌≡◌, refl, ap, sym, ◌∙◌}
use mathlib.Core.Logic.{◌≢◌, ◌↔◌, inl, inr}
use mathlib.Core.Bool.{true}
use mathlib.Core.Option.{Option, none, some}
use mathlib.Core.List.{List, [], ◌∷◌}
use native.Mathlib.Omega.{arith}
use cheshmhayash.Common.Tests.{eqb, eqb_iff, Bool-cases, if◌then◌else◌}
use cheshmhayash.Common.Text.{◌<>◌, has_prefix, cut_last, fold, equal_fold}

pub <>-nil : (s : String) → s <> "" ≡ s
<>-nil [] = refl
<>-nil (c ∷ s) = ap (λ t. c ∷ t) (<>-nil s)

pub <>_assoc : (s t u : String) → (s <> t) <> u ≡ s <> (t <> u)
<>_assoc [] t u = refl
<>_assoc (c ∷ s) t u = ap (λ v. c ∷ v) (<>_assoc s t u)

-- The character does not occur.
abbrev pub Free : ℕ → String → Type 0
Free k [] = Unit
Free k (c ∷ s) = (code c ≢ k) × Free k s

pub Free-<> : (k : ℕ) (s t : String) → Free k s → Free k t → Free k (s <> t)
Free-<> k [] t h g = g
Free-<> k (c ∷ s) t (p, h) g = (p, Free-<> k s t h g)

pub cut_last-Free : (k : ℕ) (s : String) → Free k s → cut_last k s ≡ none
unfolding cut_last
cut_last-Free k [] h = refl
cut_last-Free k (c ∷ s) (p, h) = ground (arith, cut_last-Free k s h, eqb_iff (code c) k)

pub cut_last-join :
    (k : ℕ) (a : String) (c : Char) (b : String)
    → code c ≡ k
    → Free k b
    → cut_last k (a <> (c ∷ b)) ≡ some (a, b)
unfolding cut_last
cut_last-join k [] c b e h = ground (arith, cut_last-Free k b h, eqb_iff (code c) k)
cut_last-join k (d ∷ a) c b e h = rw (cut_last-join k a c b e h)

abbrev pub Cuts : ℕ → String → Option (String × String) → Type 0
Cuts k s none = Free k s
Cuts k s (some (a, b)) = (c : Char) × (code c ≡ k) × (s ≡ a <> (c ∷ b)) × Free k b

-- One more character in front, over what the rest has given.
extend : ℕ → Char → String → Option (String × String) → Option (String × String)
extend k c s (some (a, b)) = some (c ∷ a, b)
extend k c s none = if eqb (code c) k then some ("", s) else none

extend-Cuts :
    (k : ℕ) (c : Char) (s : String) (r : Option (String × String))
    → Cuts k s r
    → Cuts k (c ∷ s) (extend k c s r)
unfolding extend
extend-Cuts k c s (some (a, b)) (d, e, q, f) = (d, e, ap (λ t. c ∷ t) q, f)
extend-Cuts k c s none f = elim (Bool-cases (eqb (code c) k)) [
  | inl e ↦ rw e (c, (eqb_iff _ _).0 e, refl, f)
  | inr e ↦ rw e ((λ same. cc (sym e ∙ (eqb_iff (code c) k).1 same)), f)
]

cut_last-cons : (k : ℕ) (c : Char) (s : String) → cut_last k (c ∷ s) ≡ extend k c s (cut_last k s)
unfolding cut_last extend
cut_last-cons k c s = ground arith

-- The split is at the last occurrence, and fails when there is none.
pub cut_last-Cuts : (k : ℕ) (s : String) → Cuts k s (cut_last k s)
cut_last-Cuts k [] = unfold cut_last in tt
cut_last-Cuts k (c ∷ s) =
    rw (cut_last-cons k c s) (extend-Cuts k c s (cut_last k s) (cut_last-Cuts k s))

pub has_prefix-<> : (p s : String) → has_prefix (p <> s) p ≡ true
unfolding has_prefix
has_prefix-<> [] s = refl
has_prefix-<> (c ∷ p) s = ground (arith, has_prefix-<> p s, eqb_iff (code c) (code c))

-- The case classes of a text's characters.
pub folded : String → List ℕ
folded [] = []
folded (c ∷ s) = fold (code c) ∷ folded s

pub equal_fold_iff : (s t : String) → (equal_fold s t ≡ true) ↔ (folded s ≡ folded t)
unfolding equal_fold folded
equal_fold_iff [] [] = (λ _. refl, λ _. refl)
equal_fold_iff [] (d ∷ t) = ground arith
equal_fold_iff (c ∷ s) [] = ground arith
equal_fold_iff (c ∷ s) (d ∷ t) =
    ground (arith, equal_fold_iff s t, eqb_iff (fold (code c)) (fold (code d)))
