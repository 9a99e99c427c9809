-- ===== src/Auth/Session.antt =====
-- internal/auth/session.go: signed cookies. base64.RawURLEncoding, HMAC-SHA256 and the JSON coding
-- of the two payloads are parameters; a key and a payload are lists of bytes.
pub mod Laws
use Prim.Native.String.{[], ◌∷◌}
use cheshmhayash.Common.{
  ℕ, ℤ, pos, negsuc, ltb_ℤ, is_zero_ℤ, ◌/◌, eqb, Bool, true, false, not, ◌&&◌, String, List, [],
  ◌∷◌, Option, none, some, ◌==◌, if◌then◌else◌,
}
use cheshmhayash.Common.Text.{◌<>◌, cut_last}
use cheshmhayash.Auth.{SessionData, Result, ok, err}

abbrev pub Bytes : Type 0
Bytes = List ℕ

pub record FlowData : Type 0 where
  pub state : String
  pub nonce : String
  pub verifier : String
  pub return_to : String
  pub exp : ℤ

-- `utf8` is the conversion of a Go string to its bytes.
pub record Wire : Type 0 where
  pub utf8 : String → Bytes
  pub encode : Bytes → String
  pub decode : String → Option Bytes
  pub mac : Bytes → String → Bytes
  pub marshal_session : SessionData → Bytes
  pub unmarshal_session : Bytes → Option SessionData
  pub marshal_flow : FlowData → Bytes
  pub unmarshal_flow : Bytes → Option FlowData

-- hmac.Equal
unfoldable pub bytes_eq : Bytes → Bytes → Bool
bytes_eq [] [] = true
bytes_eq [] (y ∷ ys) = false
bytes_eq (x ∷ xs) [] = false
bytes_eq (x ∷ xs) (y ∷ ys) = eqb x y && bytes_eq xs ys

-- The second that a time in nanoseconds falls into.
abbrev pub unix : ℕ → ℤ
unix now = pos (now / 1_000_000_000)

abbrev pub expired : ℕ → ℤ → Bool
expired now exp = not (is_zero_ℤ exp) && ltb_ℤ exp (unix now)

module _ (w : Wire) (key : Bytes) where
  unfoldable pub sign : Bytes → String
  sign payload = let b64 = w.encode payload in b64 <> ("." <> w.encode (w.mac key b64))

  -- The two parts of a token, checked.
  unfoldable pub verify_parts : String → String → Result Bytes
  unfolding bytes_eq
  verify_parts b64 tag = elim (w.decode tag) [
    | none ↦ err "malformed signature"
    | some want ↦
        if bytes_eq want (w.mac key b64)
        then elim (w.decode b64) [ none ↦ err "malformed payload" | some payload ↦ ok payload ]
        else err "bad signature"
  ]

  unfoldable pub verify : String → Result Bytes
  unfolding verify_parts cut_last
  verify token = elim (cut_last b'.' token) [
    | none ↦ err "malformed signed token"
    | some (b64, tag) ↦
        if b64 == ""
        then err "malformed signed token"
        else if tag == ""
        then err "malformed signed token"
        else verify_parts b64 tag
  ]

  unfoldable pub sign_session : SessionData → String
  unfolding sign
  sign_session d = sign (w.marshal_session d)

  unfoldable pub read_session : ℕ → String → Result SessionData
  unfolding verify
  read_session now token = elim (verify token) [
    | err e ↦ err e
    | ok payload ↦ elim (w.unmarshal_session payload) [
      | none ↦ err "unmarshal session"
      | some d ↦ if expired now d.exp then err "session expired" else ok d
    ]
  ]

  unfoldable pub sign_flow : FlowData → String
  unfolding sign
  sign_flow d = sign (w.marshal_flow d)

  unfoldable pub read_flow : ℕ → String → Result FlowData
  unfolding verify
  read_flow now token = elim (verify token) [
    | err e ↦ err e
    | ok payload ↦ elim (w.unmarshal_flow payload) [
      | none ↦ err "unmarshal flow"
      | some d ↦ if expired now d.exp then err "flow state expired" else ok d
    ]
  ]
