-- ===== src/Common/Text/Parts.antt =====
-- What a cut at a character and a test for a prefix have found.
use Prim.Native.Nat.{ℕ}
use Prim.Native.Char.{Char, code}
use Prim.Native.String.{String, [], ◌∷◌}
use mathlib.Core.Path.{◌≡◌, refl, ap, sym, ◌∙◌}
use mathlib.Core.Logic.{inl, inr}
use mathlib.Core.Bool.{true}
use mathlib.Core.Option.{Option, none, some}
use native.Mathlib.Omega.{arith}
use text.Mathlib.TextEquality.{Char-path}
use cheshmhayash.Common.Tests.{eqb, eqb_iff, Bool-cases, if◌then◌else◌}
use cheshmhayash.Common.Text.{◌<>◌, has_prefix, trim_prefix, cut}
use cheshmhayash.Common.Text.Laws.{Free}
use cheshmhayash.Common.Text.Split.{cut_prefix-<>}

-- The parts before and after the first such character; without one the text is free of it.
abbrev pub FirstCut : Char → String → Option (String × String) → Type 0
FirstCut c s none = Free (code c) s
FirstCut c s (some (a, b)) = (s ≡ a <> (c ∷ b)) × Free (code c) a

-- One more character in front, over what the rest has given.
in_front : Char → Char → String → Option (String × String) → Option (String × String)
in_front c d s r =
    if eqb (code d) (code c)
    then some ("", s)
    else elim r [ none ↦ none | some (a, b) ↦ some (d ∷ a, b) ]

in_front-FirstCut :
    (c d : Char) (s : String) (r : Option (String × String))
    → FirstCut c s r
    → FirstCut c (d ∷ s) (in_front c d s r)
unfolding in_front
in_front-FirstCut c d s none f = elim (Bool-cases (eqb (code d) (code c))) [
  | inl e ↦ rw e (ap (λ (x : Char). x ∷ s) (Char-path d c ((eqb_iff _ _).0 e)), tt)
  | inr e ↦ rw e ((λ same. cc (sym e ∙ (eqb_iff (code d) (code c)).1 same)), f)
]
in_front-FirstCut c d s (some (a, b)) (q, f) = elim (Bool-cases (eqb (code d) (code c))) [
  | inl e ↦ rw e (ap (λ (x : Char). x ∷ s) (Char-path d c ((eqb_iff _ _).0 e)), tt)
  | inr e ↦ rw e (ap (λ t. d ∷ t) q, ((λ same. cc (sym e ∙ (eqb_iff (code d) (code c)).1 same)), f))
]

cut-cons : (c d : Char) (s : String) → cut (d ∷ s) (c ∷ []) ≡ in_front c d s (cut s (c ∷ []))
unfolding cut in_front
cut-cons c d s = ground arith

-- strings.Cut at a character is at its first occurrence, and fails when there is none.
pub cut-FirstCut : (c : Char) (s : String) → FirstCut c s (cut s (c ∷ []))
unfolding cut
cut-FirstCut c [] = tt
cut-FirstCut c (d ∷ s) = rw (cut-cons c d s) (in_front-FirstCut c d s _ (cut-FirstCut c s))

-- A text with a prefix is the prefix, and what is left without it.
pub has_prefix-eq_true : (s p : String) → has_prefix s p ≡ true → (r : String) × (s ≡ p <> r)
unfolding has_prefix
has_prefix-eq_true s [] h = (s, refl)
has_prefix-eq_true [] (c ∷ p) h = ground arith
has_prefix-eq_true (d ∷ s) (c ∷ p) h =
    let (r, e) = has_prefix-eq_true s p (ground (arith, h)) in
    (
      r,
      ap (λ (x : Char). x ∷ s) (Char-path d c (ground (arith, h, eqb_iff (code d) (code c))))
          ∙ ap (λ t. c ∷ t) e,
    )

pub trim_prefix-<> : (p s : String) → trim_prefix (p <> s) p ≡ s
unfolding trim_prefix
trim_prefix-<> p s = rw (cut_prefix-<> p s)

pub Free-<>_back : (k : ℕ) (s t : String) → Free k (s <> t) → Free k t
Free-<>_back k [] t h = h
Free-<>_back k (c ∷ s) t (_, h) = Free-<>_back k s t h
