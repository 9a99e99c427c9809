-- ===== src/Gateway/Mux/Unique.antt =====
-- The route table has no two routes for one request, so the order of the registrations is immaterial.
use mathlib.Core.Path.{subst}
use cheshmhayash.Common.{
  ◌≡◌, refl, sym, inl, inr, Bool, true, false, not, ◌&&◌, ◌||◌, String, List, [], ◌∷◌, Option, none,
  some, All, Some, arith, eq_iff, Bool-cases, Option-cases, ◌==◌,
}
use cheshmhayash.Auth.{Authenticator}
use cheshmhayash.Gateway.Mux.{Segment, lit, var, Route, match, serves, select, routes, auth_routes}

-- No path has both patterns.
clash : List Segment → List Segment → Bool
clash [] [] = false
clash [] (q ∷ qs) = true
clash (p ∷ ps) [] = true
clash (lit a ∷ ps) (lit b ∷ qs) = not (a == b) || clash ps qs
clash (lit a ∷ ps) (var ∷ qs) = clash ps qs
clash (var ∷ ps) (q ∷ qs) = clash ps qs

clash-match :
    (ps qs : List Segment) (path vs : List String)
    → clash ps qs ≡ true
    → match qs path ≡ some vs
    → match ps path ≡ none
unfolding clash match
clash-match [] [] path vs c m = ground arith
clash-match [] (q ∷ qs) [] vs c m = ground arith
clash-match [] (q ∷ qs) (s ∷ path) vs c m = refl
clash-match (p ∷ ps) [] [] vs c m = refl
clash-match (p ∷ ps) [] (s ∷ path) vs c m = ground arith
clash-match (p ∷ ps) (q ∷ qs) [] vs c m = refl
clash-match (lit a ∷ ps) (lit b ∷ qs) (s ∷ path) vs c m =
    ground (arith, eq_iff a s, eq_iff b s, eq_iff a b, clash-match ps qs path vs)
clash-match (lit a ∷ ps) (var ∷ qs) (s ∷ path) vs c m = elim (Option-cases (match qs path)) [
  | inl e ↦ ground arith
  | inr (ws, e) ↦ ground (arith, clash-match ps qs path ws c e)
]
clash-match (var ∷ ps) (lit b ∷ qs) (s ∷ path) vs c m = ground (arith, clash-match ps qs path vs c)
clash-match (var ∷ ps) (var ∷ qs) (s ∷ path) vs c m = elim (Option-cases (match qs path)) [
  | inl e ↦ ground arith
  | inr (ws, e) ↦ ground (arith, clash-match ps qs path ws c e)
]

-- No request has both routes.
apart : Route → Route → Bool
unfolding clash
apart t u =
    clash t.pattern u.pattern
    || (not (t.method == u.method) && not (t.method == "HEAD") && not (u.method == "HEAD"))

methods_apart :
    (t u m : String)
    → (t == u) ≡ false
    → (t == "HEAD") ≡ false
    → (u == "HEAD") ≡ false
    → serves u m ≡ true
    → serves t m ≡ false
methods_apart t u m d ht hu s = ground (
  arith,
  eq_iff t m,
  eq_iff u m,
  eq_iff t u,
  eq_iff t "GET",
  eq_iff u "GET",
  eq_iff m "HEAD",
  eq_iff t "HEAD",
  eq_iff u "HEAD",
)

abbrev AllApart : List Route → Type 0
AllApart [] = Unit
AllApart (t ∷ ts) = All (λ u. apart t u ≡ true) ts × AllApart ts

Some-All :
    (P : Route → Type 0) (u : Route) (ts : List Route) → Some (λ x. x ≡ u) ts → All P ts → P u
Some-All P u [] k h = elim k [ ]
Some-All P u (t ∷ ts) (inl e) (p, h) = subst P e p
Some-All P u (t ∷ ts) (inr k) (p, h) = Some-All P u ts k h

select-apart :
    (ts : List Route) (u : Route) (m : String) (path vs : List String)
    → AllApart ts
    → Some (λ x. x ≡ u) ts
    → serves u.method m ≡ true
    → match u.pattern path ≡ some vs
    → select ts m path ≡ some (u.action, vs)
unfolding select apart
select-apart [] u m path vs a k s h = elim k [ ]
select-apart (t ∷ ts) u m path vs (a, pairs) (inl e) s h =
    subst (λ x. select (x ∷ ts) m path ≡ some (u.action, vs)) (sym e) (rw (s, h) refl)
select-apart (t ∷ ts) u m path vs (a, pairs) (inr k) s h =
    let later = select-apart ts u m path vs pairs k s h in
    let d = Some-All (λ x. apart t x ≡ true) u ts k a in
    elim (Bool-cases (clash t.pattern u.pattern)) [
      | inl c ↦ ground (arith, clash-match t.pattern u.pattern path vs c h)
      | inr w ↦
          let off : serves t.method m ≡ false =
            methods_apart t.method u.method m (ground arith) (ground arith) (ground arith) s in
          ground arith
    ]

routes-apart : (authn : Option Authenticator) → AllApart (routes authn)
unfolding routes auth_routes apart
routes-apart none = ground arith
routes-apart (some a) = ground arith

-- Every route of the table is taken for every request that its method serves and its pattern
-- matches, whatever stands before it in the table.
pub select_complete :
    (authn : Option Authenticator) (u : Route) (m : String) (path vs : List String)
    → Some (λ t. t ≡ u) (routes authn)
    → serves u.method m ≡ true
    → match u.pattern path ≡ some vs
    → select (routes authn) m path ≡ some (u.action, vs)
select_complete authn u m path vs k s h =
    select-apart (routes authn) u m path vs (routes-apart authn) k s h
