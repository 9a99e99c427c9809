-- ===== src/Tests/Codec.antt =====
-- A plain coding of sessions and flows as bits, to stand for the JSON of a cookie's payload.
use Prim.Native.Nat.{Ordering, compare, lt, eq, gt}
use Prim.Native.Char.{Char, char, code}
use Prim.Native.String.{[], ◌∷◌}
use cheshmhayash.Common.{
  ℕ, ℤ, pos, negsuc, zero, suc, ◌<◌, ◌≡◌, refl, ◌≢◌, List, [], ◌∷◌, String, Option, none, some, All,
  arith, length,
}

abbrev pub Bits : Type 0
Bits = List ℕ

-- Each `put_` writes a value in front of the rest, and each `get_` reads it off again.
put_ℕ : ℕ → Bits → Bits
put_ℕ zero rest = 1 ∷ rest
put_ℕ (suc n) rest = 0 ∷ put_ℕ n rest

get_ℕ : Bits → Option (ℕ × Bits)
get_ℕ [] = none
get_ℕ (zero ∷ bs) = elim (get_ℕ bs) [ none ↦ none | some (n, rest) ↦ some (suc n, rest) ]
get_ℕ (suc b ∷ bs) = some (0, bs)

get_ℕ-put_ℕ : (n : ℕ) (rest : Bits) → get_ℕ (put_ℕ n rest) ≡ some (n, rest)
unfolding get_ℕ put_ℕ
get_ℕ-put_ℕ zero rest = refl
get_ℕ-put_ℕ (suc n) rest = rw (get_ℕ-put_ℕ n rest) refl

unfoldable pub put_ℤ : ℤ → Bits → Bits
unfolding put_ℕ
put_ℤ (pos n) rest = 0 ∷ put_ℕ n rest
put_ℤ (negsuc n) rest = 1 ∷ put_ℕ n rest

unfoldable pub get_ℤ : Bits → Option (ℤ × Bits)
unfolding get_ℕ
get_ℤ [] = none
get_ℤ (zero ∷ bs) = elim (get_ℕ bs) [ none ↦ none | some (n, rest) ↦ some (pos n, rest) ]
get_ℤ (suc b ∷ bs) = elim (get_ℕ bs) [ none ↦ none | some (n, rest) ↦ some (negsuc n, rest) ]

pub get_ℤ-put_ℤ : (z : ℤ) (rest : Bits) → get_ℤ (put_ℤ z rest) ≡ some (z, rest)
unfolding get_ℤ put_ℤ
get_ℤ-put_ℤ (pos n) rest = ground (arith, get_ℕ-put_ℕ n rest)
get_ℤ-put_ℤ (negsuc n) rest = ground (arith, get_ℕ-put_ℕ n rest)

-- Whether three comparisons show that a number is a character's code.
abbrev Both : Ordering → Ordering → Type 0
Both lt lt = Unit
Both lt eq = ⊥
Both lt gt = ⊥
Both eq _ = ⊥
Both gt _ = ⊥

abbrev Fits : Ordering → Ordering → Ordering → Type 0
Fits lt _ _ = Unit
Fits eq o p = Both o p
Fits gt o p = Both o p

both : (o p : Ordering) → Option (Both o p)
both lt lt = some tt
both lt eq = none
both lt gt = none
both eq p = none
both gt p = none

fit : (n o p : Ordering) → Option (Fits n o p)
unfolding both
fit lt o p = some tt
fit eq o p = both o p
fit gt o p = both o p

both-some : (o p : Ordering) (h : Both o p) → both o p ≡ some h
unfolding both
both-some lt lt tt = refl
both-some lt eq h = elim h [ ]
both-some lt gt h = elim h [ ]
both-some eq p h = elim h [ ]
both-some gt p h = elim h [ ]

fit-some : (n o p : Ordering) (h : Fits n o p) → fit n o p ≡ some h
unfolding fit
fit-some lt o p tt = refl
fit-some eq o p h = both-some o p h
fit-some gt o p h = both-some o p h

to_char : ℕ → Option Char
to_char n = elim (fit (compare n 55296) (compare 57343 n) (compare n 1114112)) [
  | none ↦ none
  | some h ↦ some (char n h)
]

to_char-code : (c : Char) → to_char (code c) ≡ some c
unfolding to_char
to_char-code (char n h) =
    rw (fit-some (compare n 55296) (compare 57343 n) (compare n 1114112) h, to_char) refl

-- A text's characters, behind their number.
count : String → ℕ
count [] = zero
count (c ∷ s) = suc (count s)

put_chars : String → Bits → Bits
unfolding put_ℕ
put_chars [] rest = rest
put_chars (c ∷ s) rest = put_ℕ (code c) (put_chars s rest)

get_chars : ℕ → Bits → Option (String × Bits)
unfolding get_ℕ to_char
get_chars zero bs = some ("", bs)
get_chars (suc n) bs = elim (get_ℕ bs) [
  | none ↦ none
  | some (k, more) ↦ elim (to_char k) [
    | none ↦ none
    | some c ↦ elim (get_chars n more) [ none ↦ none | some (s, rest) ↦ some (c ∷ s, rest) ]
  ]
]

get_chars-put_chars :
    (s : String) (rest : Bits) → get_chars (count s) (put_chars s rest) ≡ some (s, rest)
unfolding get_chars put_chars count
get_chars-put_chars [] rest = refl
get_chars-put_chars (c ∷ s) rest =
    ground
      (arith, get_ℕ-put_ℕ (code c) (put_chars s rest), to_char-code c, get_chars-put_chars s rest)

unfoldable pub put_string : String → Bits → Bits
unfolding put_ℕ count put_chars
put_string s rest = put_ℕ (count s) (put_chars s rest)

unfoldable pub get_string : Bits → Option (String × Bits)
unfolding get_ℕ get_chars to_char fit both
get_string bs = elim (get_ℕ bs) [ none ↦ none | some (n, more) ↦ get_chars n more ]

pub get_string-put_string :
    (s : String) (rest : Bits) → get_string (put_string s rest) ≡ some (s, rest)
unfolding get_string put_string
get_string-put_string s rest =
    ground (arith, get_ℕ-put_ℕ (count s) (put_chars s rest), get_chars-put_chars s rest)

-- Texts, behind their number.
put_items : List String → Bits → Bits
unfolding put_string
put_items [] rest = rest
put_items (s ∷ ss) rest = put_string s (put_items ss rest)

get_items : ℕ → Bits → Option (List String × Bits)
unfolding get_string
get_items zero bs = some ([], bs)
get_items (suc n) bs = elim (get_string bs) [
  | none ↦ none
  | some (s, more) ↦ elim (get_items n more) [ none ↦ none | some (ss, rest) ↦ some (s ∷ ss, rest) ]
]

get_items-put_items :
    (ss : List String) (rest : Bits) → get_items (length ss) (put_items ss rest) ≡ some (ss, rest)
unfolding get_items put_items
get_items-put_items [] rest = refl
get_items-put_items (s ∷ ss) rest =
    ground (arith, get_string-put_string s (put_items ss rest), get_items-put_items ss rest)

unfoldable pub put_strings : List String → Bits → Bits
unfolding put_ℕ put_items
put_strings ss rest = put_ℕ (length ss) (put_items ss rest)

unfoldable pub get_strings : Bits → Option (List String × Bits)
unfolding get_ℕ get_items to_char fit both
get_strings bs = elim (get_ℕ bs) [ none ↦ none | some (n, more) ↦ get_items n more ]

pub get_strings-put_strings :
    (ss : List String) (rest : Bits) → get_strings (put_strings ss rest) ≡ some (ss, rest)
unfolding get_strings put_strings
get_strings-put_strings ss rest =
    ground (arith, get_ℕ-put_ℕ (length ss) (put_items ss rest), get_items-put_items ss rest)

-- Everything written is a byte.
abbrev Bytewise : Bits → Type 0
Bytewise bs = All (λ b. b < 256) bs

put_ℕ-Bytewise : (n : ℕ) (rest : Bits) → Bytewise rest → Bytewise (put_ℕ n rest)
unfolding put_ℕ
put_ℕ-Bytewise zero rest h = (omega arith, h)
put_ℕ-Bytewise (suc n) rest h = (omega arith, put_ℕ-Bytewise n rest h)

pub put_ℤ-Bytewise : (z : ℤ) (rest : Bits) → Bytewise rest → Bytewise (put_ℤ z rest)
unfolding put_ℤ
put_ℤ-Bytewise (pos n) rest h = (omega arith, put_ℕ-Bytewise n rest h)
put_ℤ-Bytewise (negsuc n) rest h = (omega arith, put_ℕ-Bytewise n rest h)

put_chars-Bytewise : (s : String) (rest : Bits) → Bytewise rest → Bytewise (put_chars s rest)
unfolding put_chars
put_chars-Bytewise [] rest h = h
put_chars-Bytewise (c ∷ s) rest h =
    put_ℕ-Bytewise (code c) (put_chars s rest) (put_chars-Bytewise s rest h)

pub put_string-Bytewise : (s : String) (rest : Bits) → Bytewise rest → Bytewise (put_string s rest)
unfolding put_string
put_string-Bytewise s rest h =
    put_ℕ-Bytewise (count s) (put_chars s rest) (put_chars-Bytewise s rest h)

put_items-Bytewise : (ss : List String) (rest : Bits) → Bytewise rest → Bytewise (put_items ss rest)
unfolding put_items
put_items-Bytewise [] rest h = h
put_items-Bytewise (s ∷ ss) rest h =
    put_string-Bytewise s (put_items ss rest) (put_items-Bytewise ss rest h)

pub put_strings-Bytewise :
    (ss : List String) (rest : Bits) → Bytewise rest → Bytewise (put_strings ss rest)
unfolding put_strings
put_strings-Bytewise ss rest h =
    put_ℕ-Bytewise (length ss) (put_items ss rest) (put_items-Bytewise ss rest h)

put_ℕ-ne-nil : (n : ℕ) (rest : Bits) → put_ℕ n rest ≢ []
unfolding put_ℕ
put_ℕ-ne-nil zero rest = ground arith
put_ℕ-ne-nil (suc n) rest = ground arith

pub put_string-ne-nil : (s : String) (rest : Bits) → put_string s rest ≢ []
unfolding put_string
put_string-ne-nil s rest = put_ℕ-ne-nil (count s) (put_chars s rest)
