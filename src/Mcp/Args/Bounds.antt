-- ===== src/Mcp/Args/Bounds.antt =====
-- The numbers in a tool's arguments fit into 64 bits.
use mathlib.Core.Path.{subst}
use cheshmhayash.Common.{
  ℕ, ◌≡◌, refl, ◌^◌, ◌<◌, inl, inr, List, Option, none, some, arith, Option-cases,
}
use cheshmhayash.Json.{Json, Fields, number, obj, end, field}
use cheshmhayash.Natsx.Decimal.Laws.{parse_uint-Fits}
use cheshmhayash.Mcp.Args.{
  Field, Args, assign, match_field, decode_fields, decode_args, decode_uint, no_args, set,
}

-- Both numbers of the arguments are `uint64`.
abbrev pub Fits : Args → Type 0
Fits a = (a.offset < 2 ^ 64) × (a.cid < 2 ^ 64)

abbrev AllFit : Option Args → Type 0
AllFit none = Unit
AllFit (some a) = Fits a

set-Fits {ℓ} :
    {A : Type ℓ} (f : A → Args) (o : Option A)
    → ((v : A) → o ≡ some v → Fits (f v))
    → AllFit (set f o)
set-Fits f none h = tt
set-Fits f (some v) h = h v refl

decode_uint-Fits : (old n : ℕ) (v : Json) → old < 2 ^ 64 → decode_uint old v ≡ some n → n < 2 ^ 64
unfolding decode_uint
decode_uint-Fits old n (number literal) h e = parse_uint-Fits literal n e
decode_uint-Fits old n v h e = ground arith

assign-Fits : (f : Field) (v : Json) (a : Args) → Fits a → AllFit (assign f v a)
unfolding assign
assign-Fits Field.offset v a (o, c) =
    set-Fits _ (decode_uint a.offset v) λ n e. (decode_uint-Fits a.offset n v o e, c)
assign-Fits Field.cid v a (o, c) =
    set-Fits _ (decode_uint a.cid v) λ n e. (o, decode_uint-Fits a.cid n v c e)
assign-Fits f v a h = set-Fits _ _ λ _ _. h

decode_fields-Fits :
    (fs : List Field) (a : Args) (values : Fields) → Fits a → AllFit (decode_fields fs a values)
unfolding decode_fields
decode_fields-Fits fs a end h = h
decode_fields-Fits fs a (field key v rest) h = elim (Option-cases (match_field fs key)) [
  | inl lost ↦ rw (lost, decode_fields) tt
  | inr (f, found) ↦ elim (Option-cases (assign f v a)) [
    | inl bad ↦ rw (found, bad, decode_fields) tt
    | inr (b, done) ↦
        rw (found, done, decode_fields)
          (decode_fields-Fits fs b rest (subst AllFit done (assign-Fits f v a h)))
  ]
]

decode_args-AllFit : (fs : List Field) (args : Option Json) → AllFit (decode_args fs args)
unfolding decode_args
decode_args-AllFit fs (some (obj values)) =
    decode_fields-Fits fs no_args values (omega arith, omega arith)
decode_args-AllFit fs v = ground arith

pub decode_args-Fits :
    (fs : List Field) (args : Option Json) (a : Args) → decode_args fs args ≡ some a → Fits a
decode_args-Fits fs args a e = subst AllFit e (decode_args-AllFit fs args)
