-- ===== src/Config/Env.antt =====
-- internal/config/config.go: the overlay of environment variables on the settings.
pub mod Paths
pub mod Entries
pub mod Overlay
pub mod Laws
use Prim.Native.String.{[], ◌∷◌}
use Prim.Native.Char.{Char, code}
use cheshmhayash.Common.{
  ℕ, ℤ, pos, negsuc, zero, suc, ◌+◌, ◌-◌, ◌^◌, Bool, true, false, not, ◌||◌, String, List, [], ◌∷◌,
  Option, none, some, length, ltb, eqb, ◌==◌, if◌then◌else◌,
}
use cheshmhayash.Common.Text.{has_prefix, trim_prefix, cut, split, trim_space, to_lower, mem}
use cheshmhayash.Natsx.Decimal.{parse_digits}
use cheshmhayash.Config.{
  Settings, Server, Nats, Notify, Auth, AuthJwt, AuthMcpOauth, AuthAccess, AccessRule, McpKey,
}

-- What an assignment leaves: a new value, an error, or a panic on a slice index.
pub data Outcome {ℓ} (A : Type ℓ) : Type ℓ where
  assigned : A → Outcome A
  failed : String → Outcome A
  panicked : Outcome A

abbrev pub and_then {ℓ κ} : {A : Type ℓ} {B : Type κ} → Outcome A → (A → Outcome B) → Outcome B
and_then (assigned a) k = k a
and_then (failed e) k = failed e
and_then panicked k = panicked

-- strconv.Atoi, for a 64-bit int.
abbrev signed : Bool → Option ℕ → Option ℤ
signed neg none = none
signed false (some n) = if ltb n (2 ^ 63) then some (pos n) else none
signed true (some zero) = some (pos 0)
signed true (some (suc n)) = if ltb n (2 ^ 63) then some (negsuc n) else none

abbrev digits_of : String → Option ℕ
digits_of [] = none
digits_of (c ∷ s) = parse_digits 0 (c ∷ s)

unfoldable pub atoi : String → Option ℤ
unfolding parse_digits
atoi [] = none
atoi (c ∷ s) =
    if eqb (code c) b'-'
    then signed true (digits_of s)
    else if eqb (code c) b'+'
    then signed false (digits_of s)
    else signed false (digits_of (c ∷ s))

-- strconv.ParseBool
unfoldable pub parse_bool : String → Option Bool
unfolding mem
parse_bool s =
    if mem ("1" ∷ "t" ∷ "T" ∷ "TRUE" ∷ "true" ∷ "True" ∷ []) s
    then some true
    else if mem ("0" ∷ "f" ∷ "F" ∷ "FALSE" ∷ "false" ∷ "False" ∷ []) s
    then some false
    else none

abbrev pub with_int {ℓ} : {A : Type ℓ} → String → (ℤ → A) → Outcome A
with_int val k = elim (atoi val) [ none ↦ failed "invalid integer" | some n ↦ assigned (k n) ]

abbrev pub with_bool {ℓ} : {A : Type ℓ} → String → (Bool → A) → Outcome A
with_bool val k = elim (parse_bool val) [
  | none ↦ failed "invalid boolean"
  | some b ↦ assigned (k b)
]

-- splitCSV
unfoldable pub keep_filled : List String → List String
unfolding trim_space
keep_filled [] = []
keep_filled (p ∷ ps) =
    let rest = keep_filled ps in if trim_space p == "" then rest else trim_space p ∷ rest

unfoldable pub split_csv : String → List String
unfolding keep_filled split
split_csv v = keep_filled (split v ",")

-- The loop that appends blanks until the index is in range, and the assignment behind it.
unfoldable pub update_at {ℓ} : {A : Type ℓ} → A → ℕ → (A → Outcome A) → List A → Outcome (List A)
update_at blank zero f [] = and_then (f blank) λ y. assigned (y ∷ [])
update_at blank zero f (x ∷ xs) = and_then (f x) λ y. assigned (y ∷ xs)
update_at blank (suc i) f [] = and_then (update_at blank i f []) λ ys. assigned (blank ∷ ys)
update_at blank (suc i) f (x ∷ xs) = and_then (update_at blank i f xs) λ ys. assigned (x ∷ ys)

-- An index as the path gives it; a negative one is below every slice.
unfoldable pub at_index {ℓ} :
    {A : Type ℓ} → String → A → String → (A → Outcome A) → List A → Outcome (List A)
unfolding atoi update_at
at_index message blank part f xs = elim (atoi part) [
  | none ↦ failed message
  | some (pos i) ↦ update_at blank i f xs
  | some (negsuc i) ↦ panicked
]

abbrev pub blank_nats : Nats
blank_nats = record {
  name = "";
  url = "";
  creds_file = "";
  user = "";
  password = "";
  request_timeout_ms = pos 0;
  discovery_timeout_ms = pos 0;
}

abbrev pub blank_notify : Notify
blank_notify = record { provider = ""; url = ""; channel = ""; username = "" }

abbrev pub blank_key : McpKey
blank_key = record { name = ""; value = "" }

-- The fields by their `koanf` tags.
unfoldable pub set_nats_field : String → String → Nats → Outcome Nats
unfolding atoi
set_nats_field key val n =
    if key == "name"
    then assigned (record n { name = val })
    else if key == "url"
    then assigned (record n { url = val })
    else if key == "creds_file"
    then assigned (record n { creds_file = val })
    else if key == "user"
    then assigned (record n { user = val })
    else if key == "password"
    then assigned (record n { password = val })
    else if key == "request_timeout_ms"
    then with_int val (λ i. record n { request_timeout_ms = i })
    else if key == "discovery_timeout_ms"
    then with_int val (λ i. record n { discovery_timeout_ms = i })
    else failed "unknown nats field"

unfoldable pub set_notify_field : String → String → Notify → Outcome Notify
set_notify_field key val n =
    if key == "provider"
    then assigned (record n { provider = val })
    else if key == "url"
    then assigned (record n { url = val })
    else if key == "channel"
    then assigned (record n { channel = val })
    else if key == "username"
    then assigned (record n { username = val })
    else failed "unknown notify field"
