-- ===== src/Natsx/Decimal/Laws.antt =====
-- What is printed as a decimal numeral is read back.
use Prim.Native.Nat.{zero, suc}
use Prim.Native.Char.{Char, code}
use Prim.Native.String.{String, [], ◌∷◌}
use cheshmhayash.Common.{
  ℕ, ◌+◌, ◌-◌, ◌*◌, ◌/◌, ◌%◌, ◌^◌, ◌<◌, ◌≡◌, ap, ◌∙◌, refl, inl, inr, true, false, Bool-cases, Bool,
  ◌&&◌, some, ltb, leb, arith, ltb→lt,
}
use cheshmhayash.Common.Text.{◌<>◌, one_char}
use cheshmhayash.Natsx.Decimal.{digit, digits, decimal, parse_digits, parse_uint, in_range}

digit-code : (n : ℕ) → n < 10 → code (digit n) ≡ b'0' + n
digit-code zero h = refl
digit-code (suc zero) h = refl
digit-code (suc (suc zero)) h = refl
digit-code (suc (suc (suc zero))) h = refl
digit-code (suc (suc (suc (suc zero)))) h = refl
digit-code (suc (suc (suc (suc (suc zero))))) h = refl
digit-code (suc (suc (suc (suc (suc (suc zero)))))) h = refl
digit-code (suc (suc (suc (suc (suc (suc (suc zero))))))) h = refl
digit-code (suc (suc (suc (suc (suc (suc (suc (suc zero)))))))) h = refl
digit-code (suc (suc (suc (suc (suc (suc (suc (suc (suc zero))))))))) h = refl
digit-code (suc (suc (suc (suc (suc (suc (suc (suc (suc (suc n)))))))))) h = omega (arith, h)

parse_digits-digit :
    (acc n : ℕ) → n < 10 → parse_digits acc (one_char (digit n)) ≡ some (acc * 10 + n)
unfolding parse_digits
parse_digits-digit acc n h = ground (arith, digit-code n h)

parse_digits-<> :
    (acc mid : ℕ) (s t : String)
    → parse_digits acc s ≡ some mid
    → parse_digits acc (s <> t) ≡ parse_digits mid t
unfolding parse_digits
parse_digits-<> acc mid [] t h = ground arith
parse_digits-<> acc mid (c ∷ s) t h = elim (Bool-cases (leb b'0' (code c) && leb (code c) b'9')) [
  | inl ok ↦ rw ok (parse_digits-<> (acc * 10 + (code c - b'0')) mid s t (ground (arith, h, ok)))
  | inr bad ↦ ground (arith, h, bad)
]

first_digit : (n : ℕ) → n < 10 → parse_digits 0 (one_char (digit n)) ≡ some n
first_digit n h = ground (arith, parse_digits-digit 0 n h)

ltb-true : (n : ℕ) → n < 10 → ltb n 10 ≡ true
ltb-true n h = ground (arith, h)

last_digit :
    (n : ℕ) (front : String)
    → parse_digits 0 front ≡ some (n / 10)
    → parse_digits 0 (front <> one_char (digit (n % 10))) ≡ some n
last_digit n front h =
    parse_digits-<> 0 (n / 10) front _ h
    ∙ parse_digits-digit (n / 10) (n % 10) (omega arith)
    ∙ ap some (omega arith)

parse_digits-digits :
    (fuel n : ℕ) → n < 10 ^ suc fuel → parse_digits 0 (digits (suc fuel) n) ≡ some n
unfolding digits
parse_digits-digits zero n h = rw (ltb-true n h) (first_digit n h)
parse_digits-digits (suc fuel) n h = elim (Bool-cases (ltb n 10)) [
  | inl small ↦ rw small (first_digit n (ltb→lt n 10 small))
  | inr large ↦ rw large (
      last_digit n (digits (suc fuel) (n / 10))
        (parse_digits-digits fuel (n / 10) (omega (arith, h))))
]

-- A numeral is not empty.
abbrev filled : String → Bool
filled [] = false
filled (c ∷ s) = true

filled-<> : (s : String) (c : Char) → filled (s <> one_char c) ≡ true
filled-<> [] c = refl
filled-<> (d ∷ s) c = refl

digits-filled : (fuel n : ℕ) → filled (digits (suc fuel) n) ≡ true
unfolding digits
digits-filled fuel n = elim (Bool-cases (ltb n 10)) [
  | inl small ↦ rw small refl
  | inr large ↦ rw large (filled-<> (digits fuel (n / 10)) (digit (n % 10)))
]

parse_uint-filled :
    (s : String) (n : ℕ)
    → filled s ≡ true
    → parse_digits 0 s ≡ some n
    → parse_uint s ≡ in_range (some n)
unfolding parse_uint
parse_uint-filled [] n h e = ground arith
parse_uint-filled (c ∷ s) n h e = ap in_range e

-- A number of twenty digits is read back from its numeral, if it is a `uint64`.
pub parse_uint-in_range : (n : ℕ) → n < 10 ^ 20 → parse_uint (decimal n) ≡ in_range (some n)
unfolding decimal
parse_uint-in_range n h =
    parse_uint-filled (digits 20 n) n (digits-filled 19 n) (parse_digits-digits 19 n h)

-- Every 64-bit number is read back from its decimal numeral.
pub parse_uint-decimal : (n : ℕ) → n < 2 ^ 64 → parse_uint (decimal n) ≡ some n
parse_uint-decimal n h = parse_uint-in_range n (omega (arith, h)) ∙ ground (arith, h)

pub parse_uint-Fits : (s : String) (n : ℕ) → parse_uint s ≡ some n → n < 2 ^ 64
unfolding parse_uint
parse_uint-Fits [] n e = ground arith
parse_uint-Fits (c ∷ s) n e = ground (arith, e)
