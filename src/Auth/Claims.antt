-- ===== src/Auth/Claims.antt =====
-- internal/auth/handlers.go and mcp_jwt.go: from a token's claims to a session.
pub mod Laws
use cheshmhayash.Common.{
  ℕ, ℤ, pos, negsuc, pos_part, neg_part, sub_ℕ, ◌+◌, ◌/◌, Bool, true, false, String, List, [], ◌∷◌,
  Option, none, some, ◌==◌, if◌then◌else◌, length, eqb,
}
use cheshmhayash.Common.Text.{split}
use cheshmhayash.Json.{Json, Fields, lookup, decode_string, decode_strings, decode_field}
use cheshmhayash.Config
use cheshmhayash.Auth.{SessionData, IdToken, Authenticator, Result, ok, err}
use cheshmhayash.Auth.Session.{Bytes}

-- `time.Now().Add(d).Unix()`, at `now` nanoseconds.
abbrev pub floor_seconds : ℤ → ℤ
floor_seconds (pos n) = pos (n / 1_000_000_000)
floor_seconds (negsuc n) = negsuc (n / 1_000_000_000)

unfoldable pub unix_after : ℕ → ℤ → ℤ
unix_after now d = floor_seconds (sub_ℕ (now + pos_part d) (neg_part d))

abbrev pub claim_name : String → String
claim_name claim = if claim == "" then "groups" else claim

-- extractGroups: a string claim is a single group, also when it is empty.
unfoldable pub extract_groups : Fields → String → List String
unfolding lookup decode_strings decode_string
extract_groups all claim = elim (lookup (claim_name claim) all) [
  | none ↦ []
  | some raw ↦ elim (decode_strings raw) [
    | some groups ↦ groups
    | none ↦ elim (decode_string "" raw) [ some single ↦ single ∷ [] | none ↦ [] ]
  ]
]

-- groupsFromClaims: an empty string is no group.
unfoldable pub groups_from_claims : Fields → String → List String
unfolding lookup decode_strings decode_string
groups_from_claims all claim = elim (lookup (claim_name claim) all) [
  | none ↦ []
  | some raw ↦ elim (decode_strings raw) [
    | some groups ↦ groups
    | none ↦ elim (decode_string "" raw) [
      | some single ↦ if single == "" then [] else single ∷ []
      | none ↦ []
    ]
  ]
]

infixl 5 ◌>>=◌
abbrev ◌>>=◌ {ℓ} : {A : Type 0} {B : Type ℓ} → Option A → (A → Result B) → Result B
none >>= k = err "decode id_token claims"
some a >>= k = k a

-- sessionFromIDToken
unfoldable pub session_from_id_token : Authenticator → ℕ → IdToken → Result SessionData
unfolding decode_field extract_groups unix_after
session_from_id_token a now t = do
  email ← decode_field "email" "" t.claims
  name ← decode_field "name" "" t.claims
  given ← decode_field "given_name" "" t.claims
  family ← decode_field "family_name" "" t.claims
  ok (record {
    sub = t.subject;
    email = email;
    name = name;
    given_name = given;
    family_name = family;
    groups = extract_groups t.claims a.cfg.access.groups_claim;
    exp = unix_after now (Config.ttl a.cfg.session);
  })

-- base64.RawURLEncoding.DecodeString and json.Unmarshal into a map; null decodes to no entries.
pub record TokenText : Type 0 where
  pub decode : String → Option Bytes
  pub parse_object : Bytes → Option Fields

-- The `str` of decodeUnverifiedJWT: anything but a string is "".
abbrev claim_string : String → Fields → String
claim_string key all = elim (lookup key all) [
  | none ↦ ""
  | some v ↦ elim (decode_string "" v) [ none ↦ "" | some s ↦ s ]
]

unfoldable pub session_of_claims : Authenticator → Fields → SessionData
unfolding lookup decode_string groups_from_claims
session_of_claims a all = record {
  sub = claim_string "sub" all;
  email = claim_string "email" all;
  name = claim_string "name" all;
  given_name = claim_string "given_name" all;
  family_name = claim_string "family_name" all;
  groups = groups_from_claims all a.cfg.access.groups_claim;
  exp = pos 0;
}

-- decodeUnverifiedJWT, from the parts that the dots separate.
unfoldable pub decode_parts : TokenText → Authenticator → List String → Result SessionData
unfolding session_of_claims
decode_parts t a (header ∷ payload ∷ signature ∷ []) = elim (t.decode payload) [
  | none ↦ err "malformed JWT payload encoding"
  | some bytes ↦ elim (t.parse_object bytes) [
    | none ↦ err "JWT payload is not a JSON object"
    | some all ↦ ok (session_of_claims a all)
  ]
]
decode_parts t a _ = err "token is not a JWT"

unfoldable pub decode_unverified_jwt : TokenText → Authenticator → String → Result SessionData
unfolding decode_parts split
decode_unverified_jwt t a raw = decode_parts t a (split raw ".")
