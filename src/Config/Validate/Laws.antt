-- ===== src/Config/Validate/Laws.antt =====
-- What `validate` accepts, against a description of the settings that does not follow its checks.
use Prim.Native.String.{len}
use cheshmhayash.Common.{
  ℕ, ◌+◌, ◌≤◌, ◌≡◌, ap, ◌≢◌, ◌↔◌, ◌⊎◌, true, false, String, List, [], ◌∷◌, none, All, arith, eq_iff,
}
use cheshmhayash.Config.{Settings, Auth, AuthAccess, Nats, McpKey, mode_or_default}
use cheshmhayash.Config.Validate.{
  validate_nats, validate_mcp_keys, validate_auth_oidc, validate_mode, validate_auth,
  validate_enabled, validate,
}

abbrev pub IsNamed : Nats → Type 0
IsNamed n = (n.name ≢ "") × (n.url ≢ "")

abbrev pub HasValue : McpKey → Type 0
HasValue k = k.value ≢ ""

abbrev pub HasAllowlist : AuthAccess → Type 0
HasAllowlist a = (a.allowed_emails ≢ []) ⊎ (a.allowed_domains ≢ []) ⊎ (a.allowed_groups ≢ [])

pub record HasLoginFlow (a : Auth) : Type 0 where
  pub client_id : a.oidc.client_id ≢ ""
  pub redirect_url : a.oidc.redirect_url ≢ ""
  pub secret : 16 ≤ len a.session.secret

pub record IsUsable (a : Auth) : Type 0 where
  pub issuer : a.oidc.issuer ≢ ""
  pub allowlist : HasAllowlist a.access
  pub mode : ((mode_or_default a ≡ "oidc") × HasLoginFlow a) ⊎ (mode_or_default a ≡ "jwt")
  pub resource : (a.mcp_oauth.enabled ≡ false) ⊎ (a.mcp_oauth.resource ≢ "")

pub record IsValid (s : Settings) : Type 0 where
  pub clusters : s.nats ≢ []
  pub named : All IsNamed s.nats
  pub auth :
      ((s.auth.enabled ≡ true) × IsUsable s.auth)
      ⊎ ((s.auth.enabled ≡ false)
          × (s.auth.mcp_oauth.enabled ≡ false)
          × (s.auth.mcp_jwt.enabled ≡ false))
  pub keys : All HasValue s.auth.mcp_keys

validate_nats-eq-none_iff : (i : ℕ) (ns : List Nats) → (validate_nats i ns ≡ none) ↔ All IsNamed ns
unfolding validate_nats
validate_nats-eq-none_iff i [] = ground arith
validate_nats-eq-none_iff i (n ∷ ns) =
    ground (arith, eq_iff n.name "", eq_iff n.url "", validate_nats-eq-none_iff (i + 1) ns)

validate_mcp_keys-eq-none_iff :
    (i : ℕ) (ks : List McpKey) → (validate_mcp_keys i ks ≡ none) ↔ All HasValue ks
unfolding validate_mcp_keys
validate_mcp_keys-eq-none_iff i [] = ground arith
validate_mcp_keys-eq-none_iff i (k ∷ ks) =
    ground (arith, eq_iff k.value "", validate_mcp_keys-eq-none_iff (i + 1) ks)

ne-nil_of_len : (t : String) → 16 ≤ len t → t ≢ ""
ne-nil_of_len t h e = absurd (omega (arith, ap len e))

validate_auth_oidc-eq-none_iff : (a : Auth) → (validate_auth_oidc a ≡ none) ↔ HasLoginFlow a
unfolding validate_auth_oidc
validate_auth_oidc-eq-none_iff a = (
  (λ h. record {
    client_id = ground (arith, eq_iff a.oidc.client_id "");
    redirect_url = ground (arith, eq_iff a.oidc.redirect_url "");
    secret = ground arith;
  }),
  (λ h. ground (
    arith,
    eq_iff a.oidc.client_id "",
    eq_iff a.oidc.redirect_url "",
    eq_iff a.session.secret "",
    ne-nil_of_len a.session.secret h.secret,
  )),
)

modes_differ : ◌≢◌ {A = String} "oidc" "jwt"
modes_differ = ground (arith, eq_iff "oidc" "jwt")

validate_auth-eq-none_iff : (a : Auth) → (validate_auth a ≡ none) ↔ IsUsable a
unfolding validate_auth validate_mode
validate_auth-eq-none_iff a = (
  (λ h. record {
    issuer = ground (arith, eq_iff a.oidc.issuer "");
    allowlist = ground arith;
    mode = ground (
      arith,
      eq_iff (mode_or_default a) "oidc",
      eq_iff (mode_or_default a) "jwt",
      validate_auth_oidc-eq-none_iff a,
    );
    resource = ground (arith, eq_iff a.mcp_oauth.resource "");
  }),
  (λ h. ground (
    arith,
    eq_iff a.oidc.issuer "",
    eq_iff (mode_or_default a) "oidc",
    eq_iff (mode_or_default a) "jwt",
    validate_auth_oidc-eq-none_iff a,
    eq_iff a.mcp_oauth.resource "",
    modes_differ,
  )),
)

-- The settings pass exactly when there is a cluster, each has a name and a URL, each MCP key has a
-- value, and either authentication is off together with both token paths of /mcp, or it is on with
-- an issuer, an allowlist, a resource if the OAuth path is on, and a mode: `jwt`, or `oidc` with a
-- client id, a redirect URL and a session secret of sixteen bytes.
pub validate-eq-none_iff : (s : Settings) → (validate s ≡ none) ↔ IsValid s
unfolding validate validate_enabled
validate-eq-none_iff s = (
  (λ h. record {
    clusters = ground arith;
    named = ground (arith, validate_nats-eq-none_iff 0 s.nats);
    auth = ground (arith, validate_auth-eq-none_iff s.auth);
    keys = ground (arith, validate_mcp_keys-eq-none_iff 0 s.auth.mcp_keys);
  }),
  (λ h. ground (
    arith,
    validate_nats-eq-none_iff 0 s.nats,
    validate_auth-eq-none_iff s.auth,
    validate_mcp_keys-eq-none_iff 0 s.auth.mcp_keys,
  )),
)
