-- ===== src/Auth/Metadata.antt =====
-- internal/auth/mcp_oauth.go: the Protected Resource Metadata of /mcp. url.Parse is an argument.
use Prim.Native.Char.{code}
use Prim.Native.String.{[], ◌∷◌}
use cheshmhayash.Common.{
  eqb, ◌≡◌, refl, ◌||◌, String, List, [], ◌∷◌, Option, none, some, is_empty, ◌==◌, if◌then◌else◌,
}
use cheshmhayash.Common.Text.{◌<>◌}
use cheshmhayash.Json.{str, arr, strings, object}
use cheshmhayash.Http.{Response, write_json}
use cheshmhayash.Auth.{Authenticator}

pub record Url : Type 0 where
  pub scheme : String
  pub host : String
  pub path : String

abbrev pub ParseUrl : Type 0
ParseUrl = String → Option Url

abbrev pub well_known_path : String
well_known_path = "/.well-known/oauth-protected-resource"

unfoldable pub authorization_servers : Authenticator → List String
authorization_servers a =
    if is_empty a.cfg.mcp_oauth.authorization_servers
    then a.cfg.oidc.issuer ∷ []
    else a.cfg.mcp_oauth.authorization_servers

-- strings.TrimSuffix of one slash.
unfoldable pub trim_slash : String → String
trim_slash [] = []
trim_slash (c ∷ []) = if eqb (code c) b'/' then [] else c ∷ []
trim_slash (c ∷ d ∷ s) = c ∷ trim_slash (d ∷ s)

-- The fallback is a path alone.
unfoldable pub resource_metadata_url : ParseUrl → Authenticator → String
unfolding trim_slash
resource_metadata_url parse a = elim (parse a.cfg.mcp_oauth.resource) [
  | none ↦ well_known_path
  | some u ↦
      if u.scheme == "" || u.host == ""
      then well_known_path
      else u.scheme <> ("://" <> (u.host <> (well_known_path <> trim_slash u.path)))
]

unfoldable pub handle_resource_metadata : Authenticator → Response
unfolding authorization_servers write_json
handle_resource_metadata a = write_json 200 (
    object (
      ("resource", str a.cfg.mcp_oauth.resource)
      ∷ ("authorization_servers", arr (strings (authorization_servers a)))
      ∷ ("scopes_supported", arr (strings ("openid" ∷ "profile" ∷ "email" ∷ [])))
      ∷ ("bearer_methods_supported", arr (strings ("header" ∷ [])))
      ∷ []))

trim_test : (trim_slash "/mcp/" ≡ "/mcp") × (trim_slash "/" ≡ "")
unfolding trim_slash
trim_test = (refl, refl)
