-- ===== src/Auth/Access.antt =====
-- internal/auth/auth.go: `matchIdentity`, `domainOf` and `authorize`.
pub mod Laws
use Prim.Native.String.{[], ◌∷◌}
use cheshmhayash.Common.{
  ℕ, Bool, true, false, ◌||◌, String, List, [], ◌∷◌, Option, none, some, any, ◌==◌, if◌then◌else◌,
}
use cheshmhayash.Common.Text.{equal_fold, cut_last}
use cheshmhayash.Config.{AuthAccess, AccessRule, rule_is_empty}
use cheshmhayash.Auth.{Role, read_only, admin, SessionData}

-- What follows the last `@`; "" when there is none, and when nothing follows it.
unfoldable pub domain_of : String → String
unfolding cut_last
domain_of email = elim (cut_last b'@' email) [ none ↦ "" | some (user, domain) ↦ domain ]

abbrev pub match_domain : String → List String → Bool
match_domain domain domains = if domain == "" then false else any (λ d. equal_fold d domain) domains

abbrev pub match_groups : List String → List String → Bool
match_groups groups have = any (λ want. any (λ h. equal_fold want h) have) groups

unfoldable pub match_identity : SessionData → List String → List String → List String → Bool
unfolding domain_of equal_fold
match_identity s emails domains groups =
    any (λ e. equal_fold e s.email) emails
    || match_domain (domain_of s.email) domains
    || match_groups groups s.groups

-- `none` is the refusal `("", false)`.
unfoldable pub authorize : AuthAccess → SessionData → Option Role
unfolding match_identity rule_is_empty
authorize acc s =
    let base = match_identity s acc.allowed_emails acc.allowed_domains acc.allowed_groups in
    let is_admin =
      match_identity s acc.admin.allowed_emails acc.admin.allowed_domains
        acc.admin.allowed_groups in
    if rule_is_empty acc.admin
    then (if base then some admin else none)
    else if is_admin
    then some admin
    else if base
    then some read_only
    else none
