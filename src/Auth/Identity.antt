-- ===== src/Auth/Identity.antt =====
-- internal/auth/auth.go: the identity that a handler behind the middleware finds in its request.
use cheshmhayash.Common.{
  ◌≡◌, refl, ◌⊎◌, inl, inr, not, ◌&&◌, String, List, Option, none, some, Bool-cases,
}
use cheshmhayash.Http.{Request}
use cheshmhayash.Auth.{Role, SessionData}
use cheshmhayash.Auth.Middleware.{Context, Handler, is_write_method, is_admin, write_denied, admit}

pub record Identity : Type 0 where
  pub sub : String
  pub email : String
  pub name : String
  pub given_name : String
  pub family_name : String
  pub groups : List String
  pub role : Role

-- withSession: the value shadows one that is there.
unfoldable pub with_session : SessionData → Role → Context → Context
with_session s role ctx = some (s, role)

-- FromContext
unfoldable pub from_context : Context → Option Identity
from_context none = none
from_context (some (s, role)) = some (record {
  sub = s.sub;
  email = s.email;
  name = s.name;
  given_name = s.given_name;
  family_name = s.family_name;
  groups = s.groups;
  role = role;
})

-- The handler runs in a context in which FromContext finds the session's identity with the resolved
-- role, or the role may not use the method.
pub admit-from_context :
    (next : Handler) (s : SessionData) (role : Role) (r : Request)
    → (admit next s role r ≡ write_denied role)
      ⊎ ((ctx : Context) × (ctx ≡ with_session s role none)
          × ((id : Identity) × (from_context ctx ≡ some id)
              × (id.role ≡ role)
              × (id.sub ≡ s.sub)
              × (id.email ≡ s.email))
          × (admit next s role r ≡ next ctx r))
unfolding admit with_session from_context
admit-from_context next s role r =
    elim (Bool-cases (not (is_admin role) && is_write_method r.method)) [
      | inl refused ↦ inl (rw refused refl)
      | inr allowed ↦ inr (_, refl, (_, refl, refl, refl, refl), rw allowed refl)
    ]
