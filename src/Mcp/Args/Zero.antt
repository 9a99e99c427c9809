-- ===== src/Mcp/Args/Zero.antt =====
-- A field of a tool's arguments that no key names keeps its zero.
use mathlib.Core.Path.{subst}
use cheshmhayash.Common.{
  ℕ, ◌≡◌, ◌≢◌, refl, sym, ◌∙◌, inl, inr, Bool, true, false, not, ◌&&◌, String, List, [], ◌∷◌,
  Option, none, some, arith, Bool-cases, Option-cases,
}
use cheshmhayash.Common.Text.{equal_fold}
use cheshmhayash.Json.{Json, Fields, null, obj, end, field}
use cheshmhayash.Mcp.Args.{
  Field, Args, tag, assign, match_field, decode_fields, decode_args, no_args, set, cluster,
  server_id, endpoint, account, stream, consumer, offset, cid, confirm, config,
}
use cheshmhayash.Mcp.Frame.{Raw}

-- No key of the arguments reads as the name.
unfoldable pub lacks : String → Fields → Bool
unfolding equal_fold
lacks name end = true
lacks name (field k v fs) = not (equal_fold k name) && lacks name fs

unfoldable pub missing : String → Raw → Bool
unfolding lacks
missing name (some (obj fs)) = lacks name fs
missing name _ = true

abbrev pub Zero : Field → Args → Type 0
Zero cluster a = a.cluster ≡ ""
Zero server_id a = a.server_id ≡ ""
Zero endpoint a = a.endpoint ≡ ""
Zero account a = a.account ≡ ""
Zero stream a = a.stream ≡ ""
Zero consumer a = a.consumer ≡ ""
Zero offset a = a.offset ≡ 0
Zero cid a = a.cid ≡ 0
Zero confirm a = a.confirm ≡ false
Zero config a = a.config ≡ none

set-keeps {ℓ} :
    {A : Type ℓ} (P : Args → Type 0) (f : A → Args) (o : Option A) (b : Args)
    → set f o ≡ some b
    → ((v : A) → P (f v))
    → P b
set-keeps P f none b e h = absurd (ground arith)
set-keeps P f (some v) b e h = subst P (ground arith) (h v)

-- To assign one field leaves every other at its zero.
module _ (a : Args) where
  Zero-cluster :
      (f : Field) (s : String) → f ≢ cluster → Zero f a → Zero f (record a { cluster = s })
  Zero-cluster cluster s ne h = absurd (ne refl)
  Zero-cluster server_id s ne h = h
  Zero-cluster f s ne h = h

  Zero-server_id :
      (f : Field) (s : String) → f ≢ server_id → Zero f a → Zero f (record a { server_id = s })
  Zero-server_id server_id s ne h = absurd (ne refl)
  Zero-server_id cluster s ne h = h
  Zero-server_id f s ne h = h

  Zero-endpoint :
      (f : Field) (s : String) → f ≢ endpoint → Zero f a → Zero f (record a { endpoint = s })
  Zero-endpoint endpoint s ne h = absurd (ne refl)
  Zero-endpoint cluster s ne h = h
  Zero-endpoint f s ne h = h

  Zero-account :
      (f : Field) (s : String) → f ≢ account → Zero f a → Zero f (record a { account = s })
  Zero-account account s ne h = absurd (ne refl)
  Zero-account cluster s ne h = h
  Zero-account f s ne h = h

  Zero-stream : (f : Field) (s : String) → f ≢ stream → Zero f a → Zero f (record a { stream = s })
  Zero-stream stream s ne h = absurd (ne refl)
  Zero-stream cluster s ne h = h
  Zero-stream f s ne h = h

  Zero-consumer :
      (f : Field) (s : String) → f ≢ consumer → Zero f a → Zero f (record a { consumer = s })
  Zero-consumer consumer s ne h = absurd (ne refl)
  Zero-consumer cluster s ne h = h
  Zero-consumer f s ne h = h

  Zero-offset : (f : Field) (n : ℕ) → f ≢ offset → Zero f a → Zero f (record a { offset = n })
  Zero-offset offset n ne h = absurd (ne refl)
  Zero-offset cluster n ne h = h
  Zero-offset f n ne h = h

  Zero-cid : (f : Field) (n : ℕ) → f ≢ cid → Zero f a → Zero f (record a { cid = n })
  Zero-cid cid n ne h = absurd (ne refl)
  Zero-cid cluster n ne h = h
  Zero-cid f n ne h = h

  Zero-confirm : (f : Field) (t : Bool) → f ≢ confirm → Zero f a → Zero f (record a { confirm = t })
  Zero-confirm confirm t ne h = absurd (ne refl)
  Zero-confirm cluster t ne h = h
  Zero-confirm f t ne h = h

  Zero-config :
      (f : Field) (m : Option Fields) → f ≢ config → Zero f a → Zero f (record a { config = m })
  Zero-config config m ne h = absurd (ne refl)
  Zero-config cluster m ne h = h
  Zero-config f m ne h = h

assign-keeps :
    (f g : Field) (v : Json) (a b : Args) → assign g v a ≡ some b → f ≢ g → Zero f a → Zero f b
unfolding assign
assign-keeps f cluster v a b e ne h = set-keeps (Zero f) _ _ b e λ x. Zero-cluster a f x ne h
assign-keeps f server_id v a b e ne h = set-keeps (Zero f) _ _ b e λ x. Zero-server_id a f x ne h
assign-keeps f endpoint v a b e ne h = set-keeps (Zero f) _ _ b e λ x. Zero-endpoint a f x ne h
assign-keeps f account v a b e ne h = set-keeps (Zero f) _ _ b e λ x. Zero-account a f x ne h
assign-keeps f stream v a b e ne h = set-keeps (Zero f) _ _ b e λ x. Zero-stream a f x ne h
assign-keeps f consumer v a b e ne h = set-keeps (Zero f) _ _ b e λ x. Zero-consumer a f x ne h
assign-keeps f offset v a b e ne h = set-keeps (Zero f) _ _ b e λ x. Zero-offset a f x ne h
assign-keeps f cid v a b e ne h = set-keeps (Zero f) _ _ b e λ x. Zero-cid a f x ne h
assign-keeps f confirm v a b e ne h = set-keeps (Zero f) _ _ b e λ x. Zero-confirm a f x ne h
assign-keeps f config v a b e ne h = set-keeps (Zero f) _ _ b e λ x. Zero-config a f x ne h

match_field-tag :
    (fs : List Field) (key : String) (g : Field)
    → match_field fs key ≡ some g
    → equal_fold key (tag g) ≡ true
unfolding match_field
match_field-tag [] key g e = absurd (ground arith)
match_field-tag (f ∷ fs) key g e = elim (Bool-cases (equal_fold key (tag f))) [
  | inl hit ↦ subst (λ h. equal_fold key (tag h) ≡ true) (ground (arith, e, hit)) hit
  | inr miss ↦ match_field-tag fs key g (ground (arith, e, miss))
]

other_field :
    (fs : List Field) (key : String) (f g : Field)
    → equal_fold key (tag f) ≡ false
    → match_field fs key ≡ some g
    → f ≢ g
other_field fs key f g unlike found same =
    let hit : equal_fold key (tag f) ≡ true =
      subst (λ h. equal_fold key (tag h) ≡ true) (sym same) (match_field-tag fs key g found) in
    cc (sym unlike ∙ hit)

decode_fields-Zero :
    (fs : List Field) (f : Field) (a b : Args) (values : Fields)
    → decode_fields fs a values ≡ some b
    → lacks (tag f) values ≡ true
    → Zero f a
    → Zero f b
unfolding decode_fields lacks
decode_fields-Zero fs f a b end e l h = subst (Zero f) (ground arith) h
decode_fields-Zero fs f a b (field key v rest) e l h = elim (Option-cases (match_field fs key)) [
  | inl lost ↦ absurd (ground arith)
  | inr (g, found) ↦ elim (Option-cases (assign g v a)) [
    | inl bad ↦ absurd (ground arith)
    | inr (c, done) ↦
        decode_fields-Zero fs f c b rest (ground arith) (ground (arith, l))
          (assign-keeps f g v a c done (other_field fs key f g (ground (arith, l)) found) h)
  ]
]

no_args-Zero : (f : Field) → Zero f no_args
no_args-Zero cluster = refl
no_args-Zero server_id = refl
no_args-Zero endpoint = refl
no_args-Zero account = refl
no_args-Zero stream = refl
no_args-Zero consumer = refl
no_args-Zero offset = refl
no_args-Zero cid = refl
no_args-Zero confirm = refl
no_args-Zero config = refl

pub decode_args-Zero :
    (fs : List Field) (f : Field) (args : Raw) (b : Args)
    → decode_args fs args ≡ some b
    → missing (tag f) args ≡ true
    → Zero f b
unfolding decode_args missing
decode_args-Zero fs f none b e m = subst (Zero f) (ground arith) (no_args-Zero f)
decode_args-Zero fs f (some null) b e m = subst (Zero f) (ground arith) (no_args-Zero f)
decode_args-Zero fs f (some (obj values)) b e m =
    decode_fields-Zero fs f no_args b values e m (no_args-Zero f)
decode_args-Zero fs f (some v) b e m = absurd (ground arith)
