-- ===== src/Mcp/Args/Confirm.antt =====
-- The field `confirm` of a tool's arguments: where its value comes from.
use mathlib.Core.Path.{subst}
use cheshmhayash.Common.{
  ap, ◌≡◌, refl, ◌∙◌, inl, inr, ◌⊎◌, Bool, true, false, ◌||◌, ◌&&◌, String, List, [], ◌∷◌, Option,
  none, some, arith, Bool-cases, Option-cases,
}
use cheshmhayash.Common.Text.{equal_fold}
use cheshmhayash.Json.{Json, Fields, null, bool, obj, end, field}
use cheshmhayash.Mcp.Args.{
  Field, Args, tag, assign, match_field, decode_fields, decode_args, no_args, set, decode_bool,
}
use cheshmhayash.Mcp.Frame.{Raw}

-- Some key of the arguments that reads as `confirm` holds true.
abbrev is_true : Json → Bool
is_true (bool b) = b
is_true _ = false

unfoldable pub holds_confirm : Fields → Bool
unfolding equal_fold
holds_confirm end = false
holds_confirm (field k v fs) = (equal_fold k "confirm" && is_true v) || holds_confirm fs

unfoldable pub confirms : Raw → Bool
unfolding holds_confirm
confirms (some (obj fs)) = holds_confirm fs
confirms _ = false

-- The value `true` reaches the field only from such a key.
match_field-confirm :
    (fs : List Field) (key : String)
    → match_field fs key ≡ some Field.confirm
    → equal_fold key "confirm" ≡ true
unfolding match_field tag
match_field-confirm [] key e = ground arith
match_field-confirm (f ∷ fs) key e = elim (Bool-cases (equal_fold key (tag f))) [
  | inl hit ↦ subst (λ g. equal_fold key (tag g) ≡ true) (named f (ground (arith, e, hit))) hit
  | inr miss ↦ match_field-confirm fs key (ground (arith, e, miss))
]
  where
    named : (g : Field) → some g ≡ some Field.confirm → g ≡ Field.confirm
    named g h = ground arith

set-confirm {ℓ} :
    {A : Type ℓ} (f : A → Args) (o : Option A) (b : Args)
    → set f o ≡ some b
    → ((v : A) → (f v).confirm ≡ false)
    → b.confirm ≡ false
set-confirm f none b e h = ground arith
set-confirm f (some v) b e h = subst (λ (c : Option Args). confirm_of c ≡ false) e (h v)
  where
    confirm_of : Option Args → Bool
    confirm_of none = false
    confirm_of (some c) = c.confirm

-- An assignment that raises the field is one of `true` to it.
assign-confirm :
    (f : Field) (v : Json) (a b : Args)
    → assign f v a ≡ some b
    → a.confirm ≡ false
    → (b.confirm ≡ false) ⊎ ((f ≡ Field.confirm) × (is_true v ≡ true))
unfolding assign decode_bool
assign-confirm Field.cluster v a b e h = inl (set-confirm _ _ b e λ s. h)
assign-confirm Field.server_id v a b e h = inl (set-confirm _ _ b e λ s. h)
assign-confirm Field.endpoint v a b e h = inl (set-confirm _ _ b e λ s. h)
assign-confirm Field.account v a b e h = inl (set-confirm _ _ b e λ s. h)
assign-confirm Field.stream v a b e h = inl (set-confirm _ _ b e λ s. h)
assign-confirm Field.consumer v a b e h = inl (set-confirm _ _ b e λ s. h)
assign-confirm Field.offset v a b e h = inl (set-confirm _ _ b e λ s. h)
assign-confirm Field.cid v a b e h = inl (set-confirm _ _ b e λ s. h)
assign-confirm Field.config v a b e h = inl (set-confirm _ _ b e λ s. h)
assign-confirm Field.confirm (bool true) a b e h = inr (refl, refl)
assign-confirm Field.confirm (bool false) a b e h =
    inl (set-confirm (λ c. record a { confirm = false }) (some false) b e λ s. refl)
assign-confirm Field.confirm null a b e h =
    inl (set-confirm (λ c. record a { confirm = a.confirm }) (some a.confirm) b e λ s. h)
assign-confirm Field.confirm v a b e h = ground arith

decode_fields-confirm :
    (fs : List Field) (a b : Args) (values : Fields)
    → decode_fields fs a values ≡ some b
    → a.confirm ≡ false
    → holds_confirm values ≡ false
    → b.confirm ≡ false
unfolding decode_fields holds_confirm
decode_fields-confirm fs a b end e h k = ground arith
decode_fields-confirm fs a b (field key v rest) e h k = elim (Option-cases (match_field fs key)) [
  | inl lost ↦ ground arith
  | inr (f, found) ↦ elim (Option-cases (assign f v a)) [
    | inl bad ↦ ground arith
    | inr (c, done) ↦ elim (assign-confirm f v a c done h) [
      | inl low ↦
          decode_fields-confirm fs c b rest (ground (arith, e, found, done)) low (ground (arith, k))
      | inr (same, up) ↦ ground (arith, match_field-confirm fs key (found ∙ ap some same), up, k)
    ]
  ]
]

pub decode_args-confirm :
    (fs : List Field) (args : Raw) (b : Args)
    → decode_args fs args ≡ some b
    → confirms args ≡ false
    → b.confirm ≡ false
unfolding decode_args confirms
decode_args-confirm fs none b e k = ground arith
decode_args-confirm fs (some null) b e k = ground arith
decode_args-confirm fs (some (obj values)) b e k =
    decode_fields-confirm fs no_args b values e refl k
decode_args-confirm fs (some v) b e k = ground arith
