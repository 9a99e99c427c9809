-- ===== src/Auth/Access/Laws.antt =====
-- Who is let in, and at which tier, against a reading of the allowlists that does not follow the
-- code: a text is on a list when some entry differs from it in case at most.
use Prim.Native.String.{String, [], ◌∷◌}
use mathlib.Core.Path.{ap₂, subst}
use text.Mathlib.TextEquality.{Char-path}
use cheshmhayash.Common.{
  Some, any_iff, ◌≡◌, refl, sym, ◌∙◌, ap, ◌≢◌, ◌↔◌, ◌⊎◌, inl, inr, true, List, [], ◌∷◌, Option,
  none, some, any, arith, eq_iff, is_empty,
}
use cheshmhayash.Common.Text.{equal_fold, ◌<>◌, cut_last}
use cheshmhayash.Common.Text.Laws.{folded, equal_fold_iff, Free, cut_last-join, cut_last-Cuts, Cuts}
use cheshmhayash.Config.{AuthAccess, AccessRule, rule_is_empty}
use cheshmhayash.Auth.{read_only, admin, SessionData}
use cheshmhayash.Auth.Access.{domain_of, match_domain, match_groups, match_identity, authorize}

abbrev pub Listed : String → List String → Type 0
Listed s = Some (λ x. folded x ≡ folded s)

-- The text after the last `@`.
abbrev pub IsDomain : String → String → Type 0
IsDomain domain email =
    (user : String) × (email ≡ user <> ("@" <> domain)) × Free b'@' domain × (domain ≢ "")

pub record Rule : Type 0 where
  pub emails : List String
  pub domains : List String
  pub groups : List String

abbrev pub base_rule : AuthAccess → Rule
base_rule a = record {
  emails = a.allowed_emails;
  domains = a.allowed_domains;
  groups = a.allowed_groups;
}

abbrev pub admin_rule : AuthAccess → Rule
admin_rule a = record {
  emails = a.admin.allowed_emails;
  domains = a.admin.allowed_domains;
  groups = a.admin.allowed_groups;
}

abbrev pub Satisfies : SessionData → Rule → Type 0
Satisfies s r =
    Listed s.email r.emails
    ⊎ ((domain : String) × IsDomain domain s.email × Listed domain r.domains)
    ⊎ Some (λ want. Listed want s.groups) r.groups

Listed-iff : (s : String) (xs : List String) → (any (λ e. equal_fold e s) xs ≡ true) ↔ Listed s xs
Listed-iff s = any_iff (λ e. equal_fold e s) (λ x. folded x ≡ folded s) (λ x. equal_fold_iff x s)

-- `domain_of`, from what the split has given.
after_at : Option (String × String) → String
after_at none = ""
after_at (some (user, domain)) = domain

domain_of-after_at : (email : String) → domain_of email ≡ after_at (cut_last b'@' email)
unfolding domain_of after_at
domain_of-after_at email = ground arith

after_at-IsDomain :
    (d email : String) (r : Option (String × String))
    → d ≢ ""
    → Cuts b'@' email r
    → after_at r ≡ d
    → IsDomain d email
unfolding after_at
after_at-IsDomain d email none h c e = absurd (h (sym e))
after_at-IsDomain d email (some (u, a)) h (at, same, parts, free) e =
    (u, parts ∙ ap₂ (λ x y. u <> (x ∷ y)) (Char-path at "@" same) e, subst (Free b'@') e free, h)

IsDomain-iff : (d email : String) → d ≢ "" → (domain_of email ≡ d) ↔ IsDomain d email
unfolding after_at
IsDomain-iff d email h = (
  (λ e.
      after_at-IsDomain d email (cut_last b'@' email) h (cut_last-Cuts b'@' email)
        (sym (domain_of-after_at email) ∙ e)),
  (λ (u, parts, free, _).
      domain_of-after_at email
      ∙ ap after_at (ap (cut_last b'@') parts ∙ cut_last-join b'@' u "@" d refl free)),
)

match_domain_of :
    (d email : String) (ds : List String)
    → IsDomain d email
    → Listed d ds
    → match_domain (domain_of email) ds ≡ true
match_domain_of d email ds dom l =
    rw ((IsDomain-iff d email dom.3).1 dom) (ground (arith, eq_iff d "", Listed-iff d ds, dom.3))

match_domain_iff :
    (email : String) (ds : List String)
    → (match_domain (domain_of email) ds ≡ true) ↔ ((d : String) × IsDomain d email × Listed d ds)
match_domain_iff email ds = (
  (λ e. (
    domain_of email,
    (IsDomain-iff (domain_of email) email (ground (arith, eq_iff (domain_of email) ""))).0 refl,
    ground (arith, Listed-iff (domain_of email) ds),
  )),
  (λ (d, dom, l). match_domain_of d email ds dom l),
)

match_groups_iff :
    (want have : List String) → (match_groups want have ≡ true) ↔ Some (λ g. Listed g have) want
match_groups_iff want have =
    any_iff (λ w. any (λ h. equal_fold w h) have) (λ g. Listed g have)
      (λ w.
        any_iff (λ h. equal_fold w h) (λ x. folded x ≡ folded w)
          (λ x. ((λ e. sym ((equal_fold_iff w x).0 e)), (λ e. (equal_fold_iff w x).1 (sym e))))
          have)
      want

match_identity_iff :
    (s : SessionData) (r : Rule)
    → (match_identity s r.emails r.domains r.groups ≡ true) ↔ Satisfies s r
unfolding match_identity
match_identity_iff s r = ground (
  arith,
  Listed-iff s.email r.emails,
  match_domain_iff s.email r.domains,
  match_groups_iff r.groups s.groups,
)

abbrev pub NoRule : AccessRule → Type 0
NoRule r = (r.allowed_emails ≡ []) × (r.allowed_domains ≡ []) × (r.allowed_groups ≡ [])

is_empty_iff : (xs : List String) → (is_empty xs ≡ true) ↔ (xs ≡ [])
is_empty_iff [] = ground arith
is_empty_iff (x ∷ xs) = ground arith

rule_is_empty_iff : (r : AccessRule) → (rule_is_empty r ≡ true) ↔ NoRule r
unfolding rule_is_empty
rule_is_empty_iff r = ground (
  arith,
  is_empty_iff r.allowed_emails,
  is_empty_iff r.allowed_domains,
  is_empty_iff r.allowed_groups,
)

Some-nil : (P : String → Type 0) (xs : List String) → xs ≡ [] → Some P xs → ⊥
Some-nil P xs e h = subst (Some P) e h

not-Satisfies_of_NoRule :
    (acc : AuthAccess) (s : SessionData) → NoRule acc.admin → ¬ Satisfies s (admin_rule acc)
not-Satisfies_of_NoRule acc s (e, d, g) (inl l) = Some-nil _ _ e l
not-Satisfies_of_NoRule acc s (e, d, g) (inr (inl (_, _, l))) = Some-nil _ _ d l
not-Satisfies_of_NoRule acc s (e, d, g) (inr (inr l)) = Some-nil _ _ g l

-- The whole decision. Somebody is an admin exactly when the admin rule covers them, or there is no
-- admin rule and the sign-in rule covers them; read-only exactly when the sign-in rule covers them
-- and there is an admin rule that does not; and refused exactly when neither rule covers them.
pub authorize_iff :
    (acc : AuthAccess) (s : SessionData)
    → ((authorize acc s ≡ some admin)
        ↔ (Satisfies s (admin_rule acc) ⊎ (NoRule acc.admin × Satisfies s (base_rule acc))))
      × ((authorize acc s ≡ some read_only)
          ↔ (Satisfies s (base_rule acc) × ¬ Satisfies s (admin_rule acc) × ¬ NoRule acc.admin))
      × ((authorize acc s ≡ none)
          ↔ (¬ Satisfies s (base_rule acc) × ¬ Satisfies s (admin_rule acc)))
unfolding authorize
authorize_iff acc s =
    let base = match_identity_iff s (base_rule acc) in
    let over = match_identity_iff s (admin_rule acc) in
    let empty = rule_is_empty_iff acc.admin in
    let nobody = not-Satisfies_of_NoRule acc s in (ground arith, ground arith, ground arith)
