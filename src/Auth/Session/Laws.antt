-- ===== src/Auth/Session/Laws.antt =====
-- Signed cookies: what is signed reads back, and only what carries the key's MAC is accepted.
use Prim.Native.String.{[], ◌∷◌}
use text.Mathlib.TextEquality.{Char-path}
use cheshmhayash.Common.{
  inl, inr, if◌then◌else◌, ℕ, ℤ, pos, negsuc, ◌+◌, ◌*◌, ◌<◌, ◌∙◌, sym, Bool-cases, ◌≡◌, refl, ap,
  ◌≢◌, ◌↔◌, ◌⊎◌, true, false, String, [], ◌∷◌, Option, none, some, All, arith, eq_iff, eqb_iff,
  Option-cases,
}
use cheshmhayash.Common.Text.{◌<>◌, cut_last}
use cheshmhayash.Common.Text.Laws.{Free, cut_last-join, cut_last-Cuts, Cuts}
use cheshmhayash.Auth.{SessionData, Result, ok, err}
use cheshmhayash.Auth.Session.{
  Bytes, FlowData, Wire, bytes_eq, expired, sign, verify_parts, verify, sign_session, read_session,
  sign_flow, read_flow,
}

abbrev pub IsBytes : Bytes → Type 0
IsBytes bs = All (λ b. b < 256) bs

-- What the encoders promise: base64 reads back what it wrote, writes no dot, and writes something
-- for something; a MAC is a nonempty list of bytes; JSON reads back what it wrote.
pub record IsWire (w : Wire) : Type 0 where
  pub decode-encode : (bs : Bytes) → IsBytes bs → w.decode (w.encode bs) ≡ some bs
  pub encode_no_dot : (bs : Bytes) → Free b'.' (w.encode bs)
  pub encode-ne-nil : (bs : Bytes) → bs ≢ [] → w.encode bs ≢ ""
  pub mac-IsBytes : (key : Bytes) (text : String) → IsBytes (w.mac key text)
  pub mac-ne-nil : (key : Bytes) (text : String) → w.mac key text ≢ []
  pub session_back : (d : SessionData) → w.unmarshal_session (w.marshal_session d) ≡ some d
  pub session-IsBytes : (d : SessionData) → IsBytes (w.marshal_session d)
  pub session-ne-nil : (d : SessionData) → w.marshal_session d ≢ []
  pub flow_back : (d : FlowData) → w.unmarshal_flow (w.marshal_flow d) ≡ some d
  pub flow-IsBytes : (d : FlowData) → IsBytes (w.marshal_flow d)
  pub flow-ne-nil : (d : FlowData) → w.marshal_flow d ≢ []

pub Result-cases {ℓ} :
    {A : Type ℓ} (r : Result A) → ((m : String) × (r ≡ err m)) ⊎ ((a : A) × (r ≡ ok a))
Result-cases (err m) = inl (m, refl)
Result-cases (ok a) = inr (a, refl)

pub bytes_eq_iff : (xs ys : Bytes) → (bytes_eq xs ys ≡ true) ↔ (xs ≡ ys)
unfolding bytes_eq
bytes_eq_iff [] [] = ground arith
bytes_eq_iff [] (y ∷ ys) = ground arith
bytes_eq_iff (x ∷ xs) [] = ground arith
bytes_eq_iff (x ∷ xs) (y ∷ ys) = ground (arith, eqb_iff x y, bytes_eq_iff xs ys)

-- The expiry, in seconds, is 0 or its last nanosecond is not over.
abbrev pub IsLive : ℕ → ℤ → Type 0
IsLive now (pos exp) = (exp ≡ 0) ⊎ (now < (exp + 1) * 1_000_000_000)
IsLive now (negsuc n) = ⊥

expired-eq-false_iff : (now : ℕ) (exp : ℤ) → (expired now exp ≡ false) ↔ IsLive now exp
expired-eq-false_iff now (pos exp) = ground arith
expired-eq-false_iff now (negsuc n) = ground arith

module _ (w : Wire) (laws : IsWire w) (key : Bytes) where
  verify_parts-sign :
      (payload : Bytes)
      → IsBytes payload
      → verify_parts w key (w.encode payload) (w.encode (w.mac key (w.encode payload))) ≡ ok payload
  unfolding verify_parts
  verify_parts-sign payload h =
      let b64 = w.encode payload in
      ground (
        arith,
        laws.decode-encode payload h,
        laws.decode-encode (w.mac key b64) (laws.mac-IsBytes key b64),
        bytes_eq_iff (w.mac key b64) (w.mac key b64),
      )

  pub verify-sign :
      (payload : Bytes)
      → IsBytes payload
      → payload ≢ []
      → verify w key (sign w key payload) ≡ ok payload
  unfolding verify sign
  verify-sign payload h ne =
      let b64 = w.encode payload in
      let tag = w.encode (w.mac key b64) in
      ground (
        arith,
        cut_last-join b'.' b64 "." tag refl (laws.encode_no_dot (w.mac key b64)),
        eq_iff b64 "",
        eq_iff tag "",
        laws.encode-ne-nil payload ne,
        laws.encode-ne-nil (w.mac key b64) (laws.mac-ne-nil key b64),
        verify_parts-sign payload h,
      )

  read_session-signed :
      (now : ℕ) (d : SessionData)
      → read_session w key now (sign_session w key d)
        ≡ (if expired now d.exp then err "session expired" else ok d)
  unfolding read_session sign_session
  read_session-signed now d = ground (
    arith,
    verify-sign (w.marshal_session d) (laws.session-IsBytes d) (laws.session-ne-nil d),
    laws.session_back d,
  )

  -- A cookie that the key has signed reads back as the session until its last second is over, and
  -- as an error from then on; a session whose expiry is 0 never expires.
  pub read_session-sign_session :
      (now : ℕ) (d : SessionData)
      → (IsLive now d.exp × (read_session w key now (sign_session w key d) ≡ ok d))
        ⊎ ((¬ IsLive now d.exp)
            × (read_session w key now (sign_session w key d) ≡ err "session expired"))
  read_session-sign_session now d = elim (Bool-cases (expired now d.exp)) [
    | inr live ↦
        inl ((expired-eq-false_iff now d.exp).0 live, rw live at (read_session-signed now d))
    | inl over ↦ inr (
      λ live. cc (sym over ∙ (expired-eq-false_iff now d.exp).1 live),
      rw over at (read_session-signed now d),
    )
  ]

  -- A flow cookie that the key has signed reads back as the flow until its last second is over, and
  -- as an error from then on; a flow whose expiry is 0 never expires.
  pub read_flow-sign_flow :
      (now : ℕ) (d : FlowData)
      → read_flow w key now (sign_flow w key d)
        ≡ (if expired now d.exp then err "flow state expired" else ok d)
  unfolding read_flow sign_flow
  read_flow-sign_flow now d = ground (
    arith,
    verify-sign (w.marshal_flow d) (laws.flow-IsBytes d) (laws.flow-ne-nil d),
    laws.flow_back d,
  )

-- A token whose two parts carry the key's MAC.
pub record IsSigned (w : Wire) (key : Bytes) (token : String) (payload : Bytes) : Type 0 where
  pub b64 : String
  pub tag : String
  pub parts : token ≡ b64 <> ("." <> tag)
  pub authentic : w.decode tag ≡ some (w.mac key b64)
  pub decoded : w.decode b64 ≡ some payload

module _ (w : Wire) (key : Bytes) where
  verify_parts-ok :
      (b64 tag : String) (payload : Bytes)
      → verify_parts w key b64 tag ≡ ok payload
      → (w.decode tag ≡ some (w.mac key b64)) × (w.decode b64 ≡ some payload)
  unfolding verify_parts
  verify_parts-ok b64 tag payload h = elim (Option-cases (w.decode tag)) [
    | inl e ↦ ground arith
    | inr (want, e) ↦ ground (arith, bytes_eq_iff want (w.mac key b64))
  ]

  cut_sound :
      (token : String) (r : Option (String × String)) (b64 tag : String)
      → Cuts b'.' token r
      → r ≡ some (b64, tag)
      → token ≡ b64 <> ("." <> tag)
  cut_sound token none b64 tag c e = cc
  cut_sound token (some (a, b)) b64 tag (dot, same, parts, _) e =
      cc (ap (λ x. a <> (x ∷ b)) (Char-path dot "." same))

  pub verify_sound :
      (token : String) (payload : Bytes)
      → verify w key token ≡ ok payload
      → IsSigned w key token payload
  unfolding verify
  verify_sound token payload h = elim (Option-cases (cut_last b'.' token)) [
    | inl e ↦ ground arith
    | inr ((b64, tag), e) ↦
        let checked : verify_parts w key b64 tag ≡ ok payload = ground arith in
        record {
          b64 = b64;
          tag = tag;
          parts = cut_sound token (cut_last b'.' token) b64 tag (cut_last-Cuts b'.' token) e;
          authentic = (verify_parts-ok b64 tag payload checked).0;
          decoded = (verify_parts-ok b64 tag payload checked).1;
        }
  ]

  -- A cookie is read as a session only when it carries the key's MAC over its first part, that part
  -- decodes to the session's encoding, and the session has not expired.
  pub read_session_sound :
      (now : ℕ) (token : String) (d : SessionData)
      → read_session w key now token ≡ ok d
      → (payload : Bytes) × IsSigned w key token payload
        × (w.unmarshal_session payload ≡ some d)
        × IsLive now d.exp
  unfolding read_session
  read_session_sound now token d h = elim (Result-cases (verify w key token)) [
    | inl (m, e) ↦ ground arith
    | inr (payload, e) ↦ (
      payload,
      verify_sound token payload e,
      ground arith,
      (expired-eq-false_iff now d.exp).0 (ground arith),
    )
  ]
