-- ===== src/Auth/Claims/Laws.antt =====
-- The two readings of the groups claim: of a verified ID token and of the MCP's JWT.
use cheshmhayash.Common.{
  ◌≡◌, refl, ap, ◌∙◌, ◌≢◌, inl, inr, String, List, [], ◌∷◌, none, some, arith, eq_iff, Option-cases,
  ◌==◌, if◌then◌else◌,
}
use cheshmhayash.Json.{Json, Fields, str, lookup, decode_string, decode_strings}
use cheshmhayash.Auth.Claims.{claim_name, extract_groups, groups_from_claims}

decode_string-nil : (v : Json) → decode_strings v ≡ none → decode_string "" v ≡ some "" → v ≡ str ""
unfolding decode_string decode_strings
decode_string-nil v h e = ground arith

-- The two readings of a claim that is there.
abbrev read_verified : Json → List String
read_verified v = elim (decode_strings v) [
  | some groups ↦ groups
  | none ↦ elim (decode_string "" v) [ some single ↦ single ∷ [] | none ↦ [] ]
]

abbrev read_raw : Json → List String
read_raw v = elim (decode_strings v) [
  | some groups ↦ groups
  | none ↦ elim (decode_string "" v) [
    | some single ↦ if single == "" then [] else single ∷ []
    | none ↦ []
  ]
]

readings_agree : (v : Json) → v ≢ str "" → read_verified v ≡ read_raw v
readings_agree v h = elim (Option-cases (decode_strings v)) [
  | inr (groups, e) ↦ ground arith
  | inl e ↦ elim (Option-cases (decode_string "" v)) [
    | inl e' ↦ ground arith
    | inr (single, e') ↦ ground (arith, eq_iff single "", decode_string-nil v e)
  ]
]

-- Both readings give the same groups, unless the claim is the empty string: there the ID token's
-- reading gives the one group "" and the JWT's gives none.
pub extract_groups-groups_from_claims :
    (all : Fields) (claim : String)
    → (lookup (claim_name claim) all ≢ some (str "")
        → extract_groups all claim ≡ groups_from_claims all claim)
      × (lookup (claim_name claim) all ≡ some (str "")
          → (extract_groups all claim ≡ "" ∷ []) × (groups_from_claims all claim ≡ []))
unfolding extract_groups groups_from_claims
extract_groups-groups_from_claims all claim = elim (Option-cases (lookup (claim_name claim) all)) [
  | inl e ↦ ((λ h. ground arith), (λ h. ground arith))
  | inr (v, e) ↦ (
    (λ h.
        rw (e, extract_groups, groups_from_claims)
          (readings_agree v λ same. h (cc (e ∙ ap some same)))),
    (λ h.
        rw (h, extract_groups, groups_from_claims)
          (unfold decode_strings decode_string in (refl, refl))),
  )
]
