-- ===== src/Common/Text.antt =====
-- Go's `strings` functions that the program calls, over texts as sequences of code points, which
-- stand for Go strings that are valid UTF-8. Case mapping covers ASCII, and the few other letters
-- that Go's tables map into ASCII; every other letter maps to itself.
use Prim.Native.Nat.{ℕ, zero, suc, ◌+◌, ◌-◌}
pub mod Laws
pub mod Split
pub mod Parts
use Prim.Native.Char.{Char, code}
use Prim.Native.String.{String, [], ◌∷◌, char_at, count}
use mathlib.Core.Path.{◌≡◌, refl}
use mathlib.Core.Bool.{Bool, true, false, ◌&&◌, ◌||◌}
use mathlib.Core.Option
use mathlib.Core.Option.{Option, none, some}
use mathlib.Core.List.{List, [], ◌∷◌}
use text.Mathlib.Text.{◌==◌}
use cheshmhayash.Common.Tests.{leb, eqb, if◌then◌else◌}

infixr 65 ◌<>◌
abbrev pub ◌<>◌ : String → String → String
[] <> t = t
(c ∷ s) <> t = c ∷ (s <> t)

abbrev pub one_char : Char → String
one_char c = c ∷ []

-- strings.HasPrefix
unfoldable pub has_prefix : String → String → Bool
has_prefix s [] = true
has_prefix [] (c ∷ p) = false
has_prefix (d ∷ s) (c ∷ p) = eqb (code d) (code c) && has_prefix s p

-- strings.CutPrefix: what follows the prefix.
unfoldable pub cut_prefix : String → String → Option String
cut_prefix s [] = some s
cut_prefix [] (c ∷ p) = none
cut_prefix (d ∷ s) (c ∷ p) =
    let rest = cut_prefix s p in if eqb (code d) (code c) then rest else none

-- strings.TrimPrefix
unfoldable pub trim_prefix : String → String → String
unfolding cut_prefix
trim_prefix s p = Option.get_or (cut_prefix s p) s

-- strings.Contains
unfoldable pub contains : String → String → Bool
unfolding has_prefix
contains [] sub = has_prefix [] sub
contains (c ∷ s) sub = has_prefix (c ∷ s) sub || contains s sub

-- strings.Cut at the first occurrence of `sep`.
unfoldable pub cut : String → String → Option (String × String)
unfolding cut_prefix
cut [] sep = Option.map (λ rest. ("", rest)) (cut_prefix [] sep)
cut (c ∷ s) sep =
    let later = Option.map (λ (p : String × String). (c ∷ p.0, p.1)) (cut s sep) in
    elim (cut_prefix (c ∷ s) sep) [ some rest ↦ some ("", rest) | none ↦ later ]

-- strings.LastIndexByte: what stands before and after the last `sep`.
unfoldable pub cut_last : ℕ → String → Option (String × String)
cut_last sep [] = none
cut_last sep (c ∷ s) = elim (cut_last sep s) [
  | some (before, after) ↦ some (c ∷ before, after)
  | none ↦ if eqb (code c) sep then some ("", s) else none
]

-- strings.Split at a separator that is not empty; `skip` counts what is left of a separator.
unfoldable pub split_from : String → ℕ → String → String → List String
unfolding has_prefix
split_from sep skip cur [] = cur ∷ []
split_from sep (suc skip) cur (c ∷ s) = split_from sep skip cur s
split_from sep zero cur (c ∷ s) =
    let closed : List String = cur ∷ split_from sep (count sep - 1) "" s in
    let longer = split_from sep 0 (cur <> one_char c) s in
    if has_prefix (c ∷ s) sep then closed else longer

unfoldable pub split : String → String → List String
unfolding split_from
split s sep = split_from sep 0 "" s

-- strings.Join
unfoldable pub join : List String → String → String
join [] sep = ""
join (x ∷ []) sep = x
join (x ∷ y ∷ xs) sep = x <> (sep <> join (y ∷ xs) sep)

-- unicode.IsSpace
unfoldable pub is_space : ℕ → Bool
is_space c =
    (leb 9 c && leb c 13)
    || eqb c 32
    || eqb c 0x85
    || eqb c 0xA0
    || eqb c 0x1680
    || (leb 0x2000 c && leb c 0x200A)
    || eqb c 0x2028
    || eqb c 0x2029
    || eqb c 0x202F
    || eqb c 0x205F
    || eqb c 0x3000

unfoldable pub trim_left : String → String
unfolding is_space
trim_left [] = []
trim_left (c ∷ s) = let rest = trim_left s in if is_space (code c) then rest else c ∷ s

unfoldable pub trim_right : String → String
unfolding is_space
trim_right [] = []
trim_right (c ∷ s) = drop_space c (trim_right s)
  where
    drop_space : Char → String → String
    drop_space d [] = if is_space (code d) then [] else d ∷ []
    drop_space d (e ∷ t) = d ∷ e ∷ t

-- strings.TrimSpace
unfoldable pub trim_space : String → String
unfolding trim_left trim_right
trim_space s = trim_right (trim_left s)

-- unicode.ToUpper, as far as it reaches ASCII: the dotless i and the long s have ASCII capitals.
unfoldable pub upper_char : Char → Char
upper_char c =
    if leb b'a' (code c) && leb (code c) b'z'
    then char_at "ABCDEFGHIJKLMNOPQRSTUVWXYZ" (code c - b'a')
    else if eqb (code c) 0x131
    then "I"
    else if eqb (code c) 0x17F
    then "S"
    else c

-- unicode.ToLower likewise: the dotted I and the kelvin sign.
unfoldable pub lower_char : Char → Char
lower_char c =
    if leb b'A' (code c) && leb (code c) b'Z'
    then char_at "abcdefghijklmnopqrstuvwxyz" (code c - b'A')
    else if eqb (code c) 0x130
    then "i"
    else if eqb (code c) 0x212A
    then "k"
    else c

-- strings.ToUpper, strings.ToLower
unfoldable pub to_upper : String → String
unfolding upper_char
to_upper [] = []
to_upper (c ∷ s) = upper_char c ∷ to_upper s

unfoldable pub to_lower : String → String
unfolding lower_char
to_lower [] = []
to_lower (c ∷ s) = lower_char c ∷ to_lower s

-- The representative of a letter's case class.
unfoldable pub fold : ℕ → ℕ
fold c =
    if leb b'A' c && leb c b'Z'
    then c + 32
    else if eqb c 0x17F
    then b's'
    else if eqb c 0x212A
    then b'k'
    else c

-- strings.EqualFold
unfoldable pub equal_fold : String → String → Bool
unfolding fold
equal_fold [] [] = true
equal_fold [] (d ∷ t) = false
equal_fold (c ∷ s) [] = false
equal_fold (c ∷ s) (d ∷ t) = eqb (fold (code c)) (fold (code d)) && equal_fold s t

-- slices.Contains
unfoldable pub mem : List String → String → Bool
mem [] s = false
mem (x ∷ xs) s = x == s || mem xs s

text_tests : Unit {0}
unfolding has_prefix cut_prefix trim_prefix contains cut cut_last split join trim_space to_upper
    to_lower equal_fold mem
text_tests = tt

split_test : split "a__b____c" "__" ≡ "a" ∷ "b" ∷ "" ∷ "c" ∷ []
unfolding text_tests
split_test = refl

cut_test : cut "acct.JETSTREAM.x.JETSTREAM.y" ".JETSTREAM." ≡ some ("acct", "x.JETSTREAM.y")
unfolding text_tests
cut_test = refl

trim_test : trim_space "\t a b \n" ≡ "a b"
unfolding text_tests
trim_test = refl

fold_test : equal_fold "Ops@Example.COM" "oPS@example.com" ≡ true
unfolding text_tests
fold_test = refl

case_test : (to_upper "connz-1" ≡ "CONNZ-1") × (to_lower "NATS" ≡ "nats")
unfolding text_tests
case_test = (refl, refl)
