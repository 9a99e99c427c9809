-- ===== src/Tests/Coding.antt =====
-- A coding of cookies that keeps the promises of `IsWire`: bits for JSON, one letter each for
-- base64, and a checksum for the MAC.
use Prim.Native.Char.{code}
use Prim.Native.String.{[], ◌∷◌}
use cheshmhayash.Common.Text.{◌<>◌}
use cheshmhayash.Common.{
  eqb, ◌*◌, true, false, ℕ, zero, suc, ◌+◌, ◌%◌, ◌≡◌, refl, ◌≢◌, [], ◌∷◌, String, Option, none,
  some, arith,
}
use cheshmhayash.Common.Text.Laws.{Free}
use cheshmhayash.Auth.{SessionData}
use cheshmhayash.Auth.Session.{Bytes, FlowData, Wire}
use cheshmhayash.Auth.Session.Laws.{IsWire}
use text.Mathlib.TextLemmas.{cons≢nil}
use cheshmhayash.Tests.Codec.{
  put_string, get_string, get_string-put_string, put_strings, get_strings, get_strings-put_strings,
  put_ℤ, get_ℤ, get_ℤ-put_ℤ, put_ℤ-Bytewise, put_string-Bytewise, put_string-ne-nil,
  put_strings-Bytewise,
}

-- A byte as so many letters `A`, and a `B`.
write_byte : ℕ → String → String
write_byte zero rest = "B" <> rest
write_byte (suc n) rest = "A" <> write_byte n rest

write_bytes : Bytes → String
unfolding write_byte
write_bytes [] = ""
write_bytes (b ∷ bs) = write_byte b (write_bytes bs)

-- `k` letters `A` have been read.
read_bytes : ℕ → String → Option Bytes
read_bytes k [] = some []
read_bytes k (c ∷ s) =
    let more = read_bytes (suc k) s in
    elim (eqb (code c) b'A') [
      | true ↦ more
      | false ↦ elim (read_bytes 0 s) [ none ↦ none | some bs ↦ some (k ∷ bs) ]
    ]

read_bytes-write_byte :
    (n k : ℕ) (rest : String)
    → read_bytes k (write_byte n rest)
      ≡ elim (read_bytes 0 rest) [ none ↦ none | some bs ↦ some ((k + n) ∷ bs) ]
unfolding read_bytes write_byte
read_bytes-write_byte zero k rest = ground arith
read_bytes-write_byte (suc n) k rest = ground (arith, read_bytes-write_byte n (suc k) rest)

read_bytes-write_bytes : (bs : Bytes) → read_bytes 0 (write_bytes bs) ≡ some bs
unfolding write_bytes read_bytes
read_bytes-write_bytes [] = refl
read_bytes-write_bytes (b ∷ bs) =
    ground (arith, read_bytes-write_byte b 0 (write_bytes bs), read_bytes-write_bytes bs)

write_byte-Free : (n : ℕ) (rest : String) → Free b'.' rest → Free b'.' (write_byte n rest)
unfolding write_byte
write_byte-Free zero rest h = (ground arith, h)
write_byte-Free (suc n) rest h = (ground arith, write_byte-Free n rest h)

write_bytes-Free : (bs : Bytes) → Free b'.' (write_bytes bs)
unfolding write_bytes
write_bytes-Free [] = tt
write_bytes-Free (b ∷ bs) = write_byte-Free b (write_bytes bs) (write_bytes-Free bs)

checksum : String → ℕ
checksum [] = 7
checksum (c ∷ s) = code c + 3 * checksum s

put_session : SessionData → Bytes
unfolding put_string put_strings put_ℤ
put_session d = put_string d.sub (
    put_string d.email (
      put_string d.name (
        put_string d.given_name
          (put_string d.family_name (put_strings d.groups (put_ℤ d.exp []))))))

infixl 5 ◌>>=◌
abbrev ◌>>=◌ : {A B : Type 0} → Option A → (A → Option B) → Option B
none >>= k = none
some a >>= k = k a

get_session : Bytes → Option SessionData
unfolding get_string get_strings get_ℤ
get_session bs = do
  (sub, bs) ← get_string bs
  (email, bs) ← get_string bs
  (name, bs) ← get_string bs
  (given, bs) ← get_string bs
  (family, bs) ← get_string bs
  (groups, bs) ← get_strings bs
  (exp, bs) ← get_ℤ bs
  some (record {
    sub = sub;
    email = email;
    name = name;
    given_name = given;
    family_name = family;
    groups = groups;
    exp = exp;
  })

get_session-put_session : (d : SessionData) → get_session (put_session d) ≡ some d
unfolding get_session put_session
get_session-put_session d = simp (get_string-put_string, get_strings-put_strings, get_ℤ-put_ℤ) refl

put_flow : FlowData → Bytes
unfolding put_string put_ℤ
put_flow d =
    put_string d.state
      (put_string d.nonce (put_string d.verifier (put_string d.return_to (put_ℤ d.exp []))))

get_flow : Bytes → Option FlowData
unfolding get_string get_ℤ
get_flow bs = do
  (state, bs) ← get_string bs
  (nonce, bs) ← get_string bs
  (verifier, bs) ← get_string bs
  (return_to, bs) ← get_string bs
  (exp, bs) ← get_ℤ bs
  some (record {
    state = state;
    nonce = nonce;
    verifier = verifier;
    return_to = return_to;
    exp = exp;
  })

get_flow-put_flow : (d : FlowData) → get_flow (put_flow d) ≡ some d
unfolding get_flow put_flow
get_flow-put_flow d = simp (get_string-put_string, get_ℤ-put_ℤ) refl

unfoldable pub wire : Wire
unfolding write_bytes read_bytes checksum put_session get_session put_flow get_flow
wire = record {
  utf8 = λ s. checksum s % 256 ∷ [];
  encode = write_bytes;
  decode = read_bytes 0;
  mac = λ key text. checksum text % 256 ∷ [];
  marshal_session = put_session;
  unmarshal_session = get_session;
  marshal_flow = put_flow;
  unmarshal_flow = get_flow;
}

write_byte-ne-nil : (n : ℕ) (rest : String) → write_byte n rest ≢ ""
unfolding write_byte
write_byte-ne-nil zero rest = cons≢nil
write_byte-ne-nil (suc n) rest = cons≢nil

write_bytes-ne-nil : (bs : Bytes) → bs ≢ [] → write_bytes bs ≢ ""
unfolding write_bytes
write_bytes-ne-nil [] h = λ _. h refl
write_bytes-ne-nil (b ∷ bs) h = write_byte-ne-nil b (write_bytes bs)

pub wire-IsWire : IsWire wire
unfolding wire
wire-IsWire = record {
  decode-encode = λ bs h. read_bytes-write_bytes bs;
  encode_no_dot = write_bytes-Free;
  encode-ne-nil = write_bytes-ne-nil;
  mac-IsBytes = λ key text. (omega arith, tt);
  mac-ne-nil = λ key text. ground arith;
  session_back = get_session-put_session;
  session-IsBytes = λ d. put_string-Bytewise d.sub _ (
      put_string-Bytewise d.email _ (
        put_string-Bytewise d.name _ (
          put_string-Bytewise d.given_name _ (
            put_string-Bytewise d.family_name _
              (put_strings-Bytewise d.groups _ (put_ℤ-Bytewise d.exp [] tt))))));
  session-ne-nil = λ d. put_string-ne-nil d.sub _;
  flow_back = get_flow-put_flow;
  flow-IsBytes = λ d. put_string-Bytewise d.state _ (
      put_string-Bytewise d.nonce _ (
        put_string-Bytewise d.verifier _
          (put_string-Bytewise d.return_to _ (put_ℤ-Bytewise d.exp [] tt))));
  flow-ne-nil = λ d. put_string-ne-nil d.state _;
}
