-- ===== src/Common/Text/Split.antt =====
-- Cutting and splitting undo the joining of texts in which the separator does not occur.
use Prim.Native.Char.{Char, code}
use Prim.Native.String.{String, [], ◌∷◌}
use mathlib.Core.Path.{◌≡◌, refl, ap, sym, ◌∙◌}
use mathlib.Core.Logic.{◌≢◌}
use mathlib.Core.Bool.{false}
use mathlib.Core.Option.{none, some}
use mathlib.Core.List.{List, [], ◌∷◌}
use native.Mathlib.Omega.{arith}
use cheshmhayash.Common.Tests.{eqb, eqb_iff}
use cheshmhayash.Common.Lists.{All}
use cheshmhayash.Common.Text.{◌<>◌, one_char, has_prefix, cut_prefix, cut, split_from, split, join}
use cheshmhayash.Common.Text.Laws.{Free, <>-nil, <>_assoc}

pub cut_prefix-<> : (p s : String) → cut_prefix (p <> s) p ≡ some s
unfolding cut_prefix
cut_prefix-<> [] s = refl
cut_prefix-<> (c ∷ p) s = ground (arith, cut_prefix-<> p s, eqb_iff (code c) (code c))

differ : (c d : Char) (p s : String) → code d ≢ code c → cut_prefix (d ∷ s) (c ∷ p) ≡ none
unfolding cut_prefix
differ c d p s h = ground (arith, h, eqb_iff (code d) (code c))

-- A separator that begins with a character that the front lacks.
pub cut-<> :
    (front : String) (c : Char) (p rest : String)
    → Free (code c) front
    → cut (front <> ((c ∷ p) <> rest)) (c ∷ p) ≡ some (front, rest)
unfolding cut
cut-<> [] c p rest h =
    let here : cut_prefix (c ∷ (p <> rest)) (c ∷ p) ≡ some rest = cut_prefix-<> (c ∷ p) rest in
    rw (here, cut) refl
cut-<> (d ∷ front) c p rest (h, k) =
    ground (arith, differ c d p (front <> (c ∷ (p <> rest))) h, cut-<> front c p rest k)

-- The splits at dots.
no_dot : (c : Char) → code c ≢ b'.' → eqb (code c) b'.' ≡ false
no_dot c h = ground (arith, h)

split_from-Free : (cur s : String) → Free b'.' s → split_from "." 0 cur s ≡ (cur <> s) ∷ []
unfolding split_from has_prefix
split_from-Free cur [] h = ap (λ t. t ∷ []) (sym (<>-nil cur))
split_from-Free cur (c ∷ s) (h, k) =
    rw (no_dot c h)
      (split_from-Free (cur <> one_char c) s k ∙ ap (λ t. t ∷ []) (<>_assoc cur (one_char c) s))

split_from-<> :
    (cur s t : String)
    → Free b'.' s
    → split_from "." 0 cur (s <> ("." <> t)) ≡ (cur <> s) ∷ split_from "." 0 "" t
unfolding split_from has_prefix
split_from-<> cur [] t h = ap (λ u. u ∷ split_from "." 0 "" t) (sym (<>-nil cur))
split_from-<> cur (c ∷ s) t (h, k) = rw (no_dot c h) (
    split_from-<> (cur <> one_char c) s t k
    ∙ ap (λ u. u ∷ split_from "." 0 "" t) (<>_assoc cur (one_char c) s))

-- Tokens are read back from a subject.
pub split-join :
    (part : String) (parts : List String)
    → All (Free b'.') (part ∷ parts)
    → split (join (part ∷ parts) ".") "." ≡ part ∷ parts
unfolding split join
split-join part [] (h, _) = split_from-Free "" part h
split-join part (next ∷ parts) (h, k) =
    split_from-<> "" part (join (next ∷ parts) ".") h
    ∙ ap (λ ts. part ∷ ts) (split-join next parts k)
