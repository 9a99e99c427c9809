-- ===== src/Config/Env/Overlay.antt =====
-- What the environment makes of the settings: its variables with the prefix, one after the other.
use cheshmhayash.Common.{
  ◌≡◌, refl, sym, ap, ◌∙◌, ◌⊎◌, inl, inr, ◌↔◌, true, String, List, [], ◌∷◌, Option, none, some,
  arith, Bool-cases, Option-cases,
}
use mathlib.Core.Path.{subst}
use cheshmhayash.Common.Text.{◌<>◌, cut, split, has_prefix}
use cheshmhayash.Common.Text.Laws.{Free, Free-<>, has_prefix-<>}
use cheshmhayash.Common.Text.Split.{cut-<>}
use cheshmhayash.Common.Text.Parts.{
  FirstCut, cut-FirstCut, has_prefix-eq_true, trim_prefix-<>, Free-<>_back,
}
use cheshmhayash.Config.{Settings}
use cheshmhayash.Config.Env.{Outcome, assigned, failed, panicked}
use cheshmhayash.Config.Env.Paths.{apply_env_path, env_prefix, overlay_env}

-- A variable of the program, with the rest of its name and its value.
abbrev pub IsVariable : String → String → String → Type 0
IsVariable path val kv = (kv ≡ env_prefix <> (path <> ("=" <> val))) × Free b'=' path

abbrev pub IsOurs : String → Type 0
IsOurs kv = (path : String) × (val : String) × IsVariable path val kv

-- Each variable of the program is applied in its turn to what the ones before it have left, and every
-- other one is passed over.
abbrev pub Overlaid : Settings → List String → Settings → Type 0
Overlaid s [] t = s ≡ t
Overlaid s (kv ∷ env) t =
    ((¬ IsOurs kv) × Overlaid s env t)
    ⊎ ((path : String) × (val : String) × IsVariable path val kv
        × (u : Settings) × (apply_env_path s (split path "__") val ≡ assigned u)
        × Overlaid u env t)

prefix-Free : Free b'=' env_prefix
prefix-Free = omega arith

cut-variable :
    (path val kv : String) → IsVariable path val kv → cut kv "=" ≡ some (env_prefix <> path, val)
cut-variable path val kv (e, f) =
    ap (λ (x : String). cut x "=") e
    ∙ cut-<> (env_prefix <> path) "=" "" val (Free-<> b'=' env_prefix path prefix-Free f)

-- A name with the prefix in front of the first `=`.
ours :
    (kv key val : String)
    → cut kv "=" ≡ some (key, val)
    → has_prefix key env_prefix ≡ true
    → IsOurs kv
ours kv key val e good =
    let (path, q) = has_prefix-eq_true key env_prefix good in
    let (eq, free) = subst (FirstCut "=" kv) e (cut-FirstCut "=" kv) in
    (
      path,
      val,
      (
        eq ∙ ap (λ (k : String). k <> ("=" <> val)) q,
        Free-<>_back b'=' env_prefix path (subst (Free b'=') q free),
      ),
    )

at_front :
    (key path val w : String)
    → ◌≡◌ {A = Option (String × String)} (some (key, val)) (some (env_prefix <> path, w))
    → has_prefix key env_prefix ≡ true
at_front key path val w e =
    ap (λ (k : String). has_prefix k env_prefix) (ap front e) ∙ has_prefix-<> env_prefix path
  where
    front : Option (String × String) → String
    front (some (a, b)) = a
    front none = key

last : Settings → Outcome Settings → Settings
last d (assigned u) = u
last d _ = d

-- What the loop does with the next variable.
then_rest : List String → Outcome Settings → Outcome Settings
then_rest env (failed e) = failed e
then_rest env panicked = panicked
then_rest env (assigned t) = overlay_env t env

module _ (s : Settings) (env : List String) (kv : String) where
  overlay_env-variable :
      (path val : String)
      → IsVariable path val kv
      → overlay_env s (kv ∷ env) ≡ then_rest env (apply_env_path s (split path "__") val)
  unfolding overlay_env then_rest
  overlay_env-variable path val v = ground (
    arith,
    cut-variable path val kv v,
    has_prefix-<> env_prefix path,
    trim_prefix-<> env_prefix path,
  )

  overlay_env-other : ¬ IsOurs kv → overlay_env s (kv ∷ env) ≡ overlay_env s env
  unfolding overlay_env
  overlay_env-other h = elim (Option-cases (cut kv "=")) [
    | inl e ↦ rw (e, overlay_env)
    | inr ((key, val), e) ↦ elim (Bool-cases (has_prefix key env_prefix)) [
      | inr bad ↦ rw (e, bad, overlay_env)
      | inl good ↦ absurd (h (ours kv key val e good))
    ]
  ]

kv-cases : (kv : String) → IsOurs kv ⊎ (¬ IsOurs kv)
kv-cases kv = elim (Option-cases (cut kv "=")) [
  | inl e ↦ inr (λ (path, val, v). cc (sym e ∙ cut-variable path val kv v))
  | inr ((key, val), e) ↦ elim (Bool-cases (has_prefix key env_prefix)) [
    | inl good ↦ inl (ours kv key val e good)
    | inr bad ↦
        inr (λ (path, w, v). cc (bad, at_front key path val w (sym e ∙ cut-variable path w kv v)))
  ]
]

then_rest-assigned :
    (env : List String) (o : Outcome Settings) (t : Settings)
    → then_rest env o ≡ assigned t
    → (u : Settings) × (o ≡ assigned u) × (overlay_env u env ≡ assigned t)
unfolding then_rest
then_rest-assigned env (failed e) t h = ground arith
then_rest-assigned env panicked t h = ground arith
then_rest-assigned env (assigned u) t h = (u, refl, h)

overlay_env-Overlaid :
    (env : List String) (s t : Settings) → overlay_env s env ≡ assigned t → Overlaid s env t
unfolding overlay_env last
overlay_env-Overlaid [] s t h = ap (last s) h
overlay_env-Overlaid (kv ∷ env) s t h = elim (kv-cases kv) [
  | inr other ↦
      inl (other, overlay_env-Overlaid env s t (sym (overlay_env-other s env kv other) ∙ h))
  | inl (path, val, v) ↦
      let (u, made, rest) =
        then_rest-assigned env (apply_env_path s (split path "__") val) t
          (sym (overlay_env-variable s env kv path val v) ∙ h) in
      inr (path, val, v, u, made, overlay_env-Overlaid env u t rest)
]

Overlaid-overlay_env :
    (env : List String) (s t : Settings) → Overlaid s env t → overlay_env s env ≡ assigned t
unfolding overlay_env then_rest
Overlaid-overlay_env [] s t h = ap assigned h
Overlaid-overlay_env (kv ∷ env) s t (inl (other, h)) =
    overlay_env-other s env kv other ∙ Overlaid-overlay_env env s t h
Overlaid-overlay_env (kv ∷ env) s t (inr (path, val, v, u, made, h)) =
    overlay_env-variable s env kv path val v
    ∙ ap (then_rest env) made
    ∙ Overlaid-overlay_env env u t h

-- The overlay succeeds with the settings that the description gives, and with no others.
pub overlay_env-assigned_iff :
    (s : Settings) (env : List String) (t : Settings)
    → (overlay_env s env ≡ assigned t) ↔ Overlaid s env t
overlay_env-assigned_iff s env t = (overlay_env-Overlaid env s t, Overlaid-overlay_env env s t)
