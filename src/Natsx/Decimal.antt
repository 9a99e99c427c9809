-- ===== src/Natsx/Decimal.antt =====
-- Decimal numerals of `uint64`: encoding/json's printing of one, and strconv.ParseUint.
pub mod Laws
use Prim.Native.Nat.{zero, suc}
use Prim.Native.Char.{Char, code}
use Prim.Native.String.{String, [], ◌∷◌, char_at}
use cheshmhayash.Common.{
  ℕ, ◌+◌, ◌-◌, ◌*◌, ◌/◌, ◌%◌, ◌^◌, ◌≡◌, refl, ◌&&◌, Option, none, some, ltb, leb, if◌then◌else◌,
}
use cheshmhayash.Common.Text.{◌<>◌, one_char}

abbrev pub digit : ℕ → Char
digit n = char_at "0123456789" n

-- The digits of `n`, at most `fuel` of them.
unfoldable pub digits : ℕ → ℕ → String
digits zero n = ""
digits (suc fuel) n =
    let front = digits fuel (n / 10) in
    if ltb n 10 then one_char (digit n) else front <> one_char (digit (n % 10))

-- Twenty digits hold every `uint64`.
unfoldable pub decimal : ℕ → String
unfolding digits
decimal n = digits 20 n

unfoldable pub parse_digits : ℕ → String → Option ℕ
parse_digits acc [] = some acc
parse_digits acc (c ∷ s) =
    let rest = parse_digits (acc * 10 + (code c - b'0')) s in
    if leb b'0' (code c) && leb (code c) b'9' then rest else none

abbrev pub in_range : Option ℕ → Option ℕ
in_range none = none
in_range (some n) = if ltb n (2 ^ 64) then some n else none

-- strconv.ParseUint(s, 10, 64); `none` is its error.
unfoldable pub parse_uint : String → Option ℕ
unfolding parse_digits
parse_uint [] = none
parse_uint (c ∷ s) = in_range (parse_digits 0 (c ∷ s))

decimal_test : decimal 18446744073709551615 ≡ "18446744073709551615"
unfolding decimal
decimal_test = refl

parse_test : parse_uint "0042" ≡ some 42
unfolding parse_uint
parse_test = refl
