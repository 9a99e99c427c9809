-- ===== src/Auth/Login/Redirect.antt =====
-- Where a login may send the browser back to.
use cheshmhayash.Common.{
  ◌≡◌, refl, ◌⊎◌, inl, inr, true, false, String, some, arith, eq_iff, Option-cases,
}
use cheshmhayash.Common.Text.{has_prefix, contains}
use cheshmhayash.Auth.Login.{ParseHost, sanitize_return_to}

-- A path of this server: a rooted one that is no network path and holds no scheme.
abbrev pub IsLocal : String → Type 0
IsLocal s = (has_prefix s "/" ≡ true) × (has_prefix s "//" ≡ false) × (contains s "://" ≡ false)

sanitize_cases :
    (p : ParseHost) (s : String)
    → (sanitize_return_to p s ≡ "/") ⊎ ((sanitize_return_to p s ≡ s) × IsLocal s × (p s ≡ some ""))
unfolding sanitize_return_to
sanitize_cases p s = elim (Option-cases (p s)) [
  | inl e ↦ inl (ground arith)
  | inr (host, e) ↦ ground (arith, eq_iff host "")
]

-- The path that a login returns to starts with one slash, not two, and holds no `://`; and a path
-- that is not changed to `/` is one in which url.Parse finds no host.
pub sanitize_return_to-IsLocal :
    (p : ParseHost) (s : String)
    → IsLocal (sanitize_return_to p s)
      × ((sanitize_return_to p s ≡ "/") ⊎ ((sanitize_return_to p s ≡ s) × (p s ≡ some "")))
sanitize_return_to-IsLocal p s = elim (sanitize_cases p s) [
  | inl e ↦ (rw e (unfold has_prefix contains in (refl, refl, refl)), inl e)
  | inr (e, local, host) ↦ (rw e local, inr (e, host))
]
