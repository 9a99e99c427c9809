-- ===== src/Config/Env/Entries.antt =====
-- internal/config/config.go: the fields of a cluster's settings under their `koanf` tags, and the one
-- that setNATSField assigns.
use mathlib.Core.Path.{subst}
use cheshmhayash.Common.{
  ℤ, ◌≡◌, refl, sym, ap, inl, inr, false, String, List, [], ◌∷◌, Option, none, some, arith, eq_iff,
  Option-cases, Bool-cases, ◌==◌, if◌then◌else◌,
}
use cheshmhayash.Config.{Nats}
use cheshmhayash.Config.Env.{Outcome, assigned, with_int, atoi, set_nats_field}

-- A field of kind String or of kind Int.
pub data Value : Type 0 where
  word : String → Value
  integer : ℤ → Value

abbrev pub Entries : Type 0
Entries = List (String × Value)

-- The struct as reflection sees it.
abbrev pub entries : Nats → Entries
entries n =
    ("name", word n.name)
    ∷ ("url", word n.url)
    ∷ ("creds_file", word n.creds_file)
    ∷ ("user", word n.user)
    ∷ ("password", word n.password)
    ∷ ("request_timeout_ms", integer n.request_timeout_ms)
    ∷ ("discovery_timeout_ms", integer n.discovery_timeout_ms)
    ∷ []

abbrev pub tagged : String → Entries → Option Value
tagged key [] = none
tagged key ((j, v) ∷ m) = if j == key then some v else tagged key m

-- The entries with one value replaced.
abbrev pub replaced : String → Value → Entries → Entries
replaced key v [] = []
replaced key v ((j, w) ∷ m) = (j, if j == key then v else w) ∷ replaced key v m

-- A text read as a value of the kind of an old one.
abbrev pub read_as : Value → String → Option Value
read_as (word old) val = some (word val)
read_as (integer old) val = elim (atoi val) [ none ↦ none | some i ↦ some (integer i) ]

-- The field with that tag has the value that the text stands for, and every other one is as before.
abbrev pub Sets : String → String → Nats → Nats → Type 0
Sets key val n m =
    (old : Value) × (tagged key (entries n) ≡ some old)
    × (v : Value) × (read_as old val ≡ some v)
    × (entries m ≡ replaced key v (entries n))

made : Nats → Outcome Nats → Nats
made n (assigned m) = m
made n _ = n

-- A number that is assigned has been read from the text.
with_int-assigned :
    (val : String) (k : ℤ → Nats) (n m : Nats)
    → with_int val k ≡ assigned m
    → (i : ℤ) × (atoi val ≡ some i) × (m ≡ k i)
unfolding made
with_int-assigned val k n m h = elim (Option-cases (atoi val)) [
  | inl e ↦ ground (arith, h, e)
  | inr (i, e) ↦ (i, e, sym (ap (made n) (rw (e, with_int) at h)))
]

module _ (val : String) (n m : Nats) where
  abbrev Assigns : String → Type 0
  Assigns key = set_nats_field key val n ≡ assigned m → Sets key val n m

  name-Assigns : Assigns "name"
  unfolding set_nats_field made
  name-Assigns h = (_, refl, word val, refl, ap (λ o. entries (made n o)) (sym h))

  url-Assigns : Assigns "url"
  unfolding set_nats_field made
  url-Assigns h = (_, refl, word val, refl, ap (λ o. entries (made n o)) (sym h))

  creds_file-Assigns : Assigns "creds_file"
  unfolding set_nats_field made
  creds_file-Assigns h = (_, refl, word val, refl, ap (λ o. entries (made n o)) (sym h))

  user-Assigns : Assigns "user"
  unfolding set_nats_field made
  user-Assigns h = (_, refl, word val, refl, ap (λ o. entries (made n o)) (sym h))

  password-Assigns : Assigns "password"
  unfolding set_nats_field made
  password-Assigns h = (_, refl, word val, refl, ap (λ o. entries (made n o)) (sym h))

  request_timeout-Assigns : Assigns "request_timeout_ms"
  unfolding set_nats_field
  request_timeout-Assigns h =
      let (i, e, same) = with_int-assigned val (λ i. record n { request_timeout_ms = i }) n m h in
      (_, refl, integer i, rw (e, read_as) refl, ap entries same)

  discovery_timeout-Assigns : Assigns "discovery_timeout_ms"
  unfolding set_nats_field
  discovery_timeout-Assigns h =
      let (i, e, same) = with_int-assigned val (λ i. record n { discovery_timeout_ms = i }) n m h in
      (_, refl, integer i, rw (e, read_as) refl, ap entries same)

  -- A test of the ladder passes, or the others decide.
  at_tag : (tag key : String) → Assigns tag → ((key == tag) ≡ false → Assigns key) → Assigns key
  at_tag tag key h other = elim (Bool-cases (key == tag)) [
    | inl e ↦ subst Assigns (sym ((eq_iff key tag).0 e)) h
    | inr e ↦ other e
  ]

  -- setNATSField assigns the field with that tag, and no other.
  pub set_nats_field-Sets : (key : String) → Assigns key
  unfolding set_nats_field
  set_nats_field-Sets key = at_tag "name" key name-Assigns λ e1. at_tag "url" key url-Assigns λ e2.
      at_tag "creds_file" key creds_file-Assigns λ e3. at_tag "user" key user-Assigns λ e4.
        at_tag "password" key password-Assigns λ e5.
          at_tag "request_timeout_ms" key request_timeout-Assigns λ e6.
            at_tag "discovery_timeout_ms" key discovery_timeout-Assigns
              λ e7 h. ground (arith, h, e1, e2, e3, e4, e5, e6, e7)
