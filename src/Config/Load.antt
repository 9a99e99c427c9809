-- ===== src/Config/Load.antt =====
-- internal/config/config.go: Load. koanf is an argument: what it makes of the defaults and of the
-- settings file.
use cheshmhayash.Common.{
  ◌≡◌, ◌↔◌, refl, sym, ap, ◌∙◌, inl, inr, String, List, Option, none, some, Option-cases, arith,
}
use cheshmhayash.Config.{Settings, default_settings}
use cheshmhayash.Config.Validate.{ConfigError, validate}
use cheshmhayash.Config.Validate.Laws.{IsValid, validate-eq-none_iff}
use cheshmhayash.Config.Env.{Outcome, assigned, failed, panicked}
use cheshmhayash.Config.Env.Paths.{overlay_env}
use cheshmhayash.Config.Env.Overlay.{Overlaid, overlay_env-assigned_iff}
use cheshmhayash.Common.Text.{◌<>◌}
use mathlib.Core.Path.{subst}
use cheshmhayash.Auth.{Result, ok, err}
use cheshmhayash.Auth.Session.Laws.{Result-cases}

-- The settings file: not there, not to be looked at, or there, with the error of reading it.
pub data File : Type 0 where
  missing : File
  unstatable : String → File
  present : Option String → File

pub record Koanf : Type 0 where
  pub defaults_error : Option String
  pub file : File
  pub unmarshal : Settings → Result Settings

pub data LoadError : Type 0 where
  unread : String → LoadError
  invalid : ConfigError → LoadError

pub data Loaded : Type 0 where
  loaded : Settings → Loaded
  refused : LoadError → Loaded
  crashed : Loaded

-- The error of the first two layers.
unfoldable pub layers_error : Koanf → Option String
layers_error k = elim k.defaults_error [
  | some e ↦ some ("load defaults: " <> e)
  | none ↦ elim k.file [
    | missing ↦ none
    | unstatable e ↦ some ("stat settings.toml: " <> e)
    | present problem ↦ elim problem [ none ↦ none | some e ↦ some ("load settings.toml: " <> e) ]
  ]
]

abbrev pub validated : Settings → Option ConfigError → Loaded
validated s none = loaded s
validated s (some e) = refused (invalid e)

unfoldable pub checked : Outcome Settings → Loaded
unfolding validate
checked (failed e) = refused (unread ("env overlay: " <> e))
checked panicked = crashed
checked (assigned s) = validated s (validate s)

unfoldable pub load : Koanf → List String → Loaded
unfolding layers_error overlay_env checked default_settings
load k env = elim (layers_error k) [
  | some e ↦ refused (unread e)
  | none ↦ elim (k.unmarshal default_settings) [
    | err e ↦ refused (unread ("unmarshal settings: " <> e))
    | ok s ↦ checked (overlay_env s env)
  ]
]

checked_iff :
    (o : Outcome Settings) (s : Settings) → (checked o ≡ loaded s) ↔ ((o ≡ assigned s) × IsValid s)
unfolding checked
checked_iff (failed e) s = ground arith
checked_iff panicked s = ground arith
checked_iff (assigned t) s = elim (Option-cases (validate t)) [
  | inr (e, bad) ↦ ground (arith, bad, (validate-eq-none_iff s).1)
  | inl fine ↦
      rw (fine, checked)
        (
          (λ e.
              let same : t ≡ s = ap (settings_of t) e in
              (ap assigned same, subst IsValid same ((validate-eq-none_iff t).0 fine))),
          (λ (e, v). ap loaded (ap (assigned_of t) e)),
        )
]
  where
    settings_of : Settings → Loaded → Settings
    settings_of d (loaded u) = u
    settings_of d _ = d

    assigned_of : Settings → Outcome Settings → Settings
    assigned_of d (assigned u) = u
    assigned_of d _ = d

ok_injective : {t u : Settings} → ok t ≡ ok u → t ≡ u
ok_injective {t} e = ap value e
  where
    value : Result Settings → Settings
    value (ok v) = v
    value (err m) = t

-- A settings file that is no obstacle: there is none, or it was read.
abbrev pub Readable : File → Type 0
Readable missing = Unit
Readable (unstatable e) = ⊥
Readable (present problem) = problem ≡ none

layers-none_iff :
    (d : Option String) (f : File) (u : Settings → Result Settings)
    → (layers_error (record { defaults_error = d; file = f; unmarshal = u }) ≡ none)
      ↔ ((d ≡ none) × Readable f)
unfolding layers_error
layers-none_iff (some e) f u = ground arith
layers-none_iff none missing u = (λ _. (refl, tt), λ _. refl)
layers-none_iff none (unstatable e) u = ground arith
layers-none_iff none (present none) u = (λ _. (refl, refl), λ _. refl)
layers-none_iff none (present (some e)) u = ground arith

layers_error-none_iff :
    (k : Koanf) → (layers_error k ≡ none) ↔ ((k.defaults_error ≡ none) × Readable k.file)
layers_error-none_iff k = layers-none_iff k.defaults_error k.file k.unmarshal

-- Load succeeds with given settings exactly when the defaults could be set, the settings file is
-- missing or could be read, both decode, the variables of the environment that have the program's
-- prefix, applied one after the other and past the others, turn the result into the settings, and
-- these are valid.
pub load-loaded_iff :
    (k : Koanf) (env : List String) (s : Settings)
    → (load k env ≡ loaded s) ↔ (
        (k.defaults_error ≡ none)
        × Readable k.file
        × (t : Settings) × (k.unmarshal default_settings ≡ ok t)
        × Overlaid t env s
        × IsValid s)
unfolding load
load-loaded_iff k env s = elim (Option-cases (layers_error k)) [
  | inr (e, bad) ↦ (
    λ h. ground (arith, bad, h),
    λ (d, f, _, _, _, _). cc (sym bad ∙ (layers_error-none_iff k).1 (d, f)),
  )
  | inl fine ↦ elim (Result-cases (k.unmarshal default_settings)) [
    | inl (e, bad) ↦ ground (arith, fine, bad)
    | inr (t, read) ↦ (
      λ h.
          let (o, v) = (checked_iff (overlay_env t env) s).0 (rw (fine, read, load) at h) in
          let (d, f) = (layers_error-none_iff k).0 fine in
          (d, f, t, read, (overlay_env-assigned_iff t env s).0 o, v),
      λ (_, _, u, same, o, v).
          rw (fine, read, load)
            ((checked_iff (overlay_env t env) s).1 (
              (overlay_env-assigned_iff t env s).1
                  (subst (λ (x : Settings). Overlaid x env s) (ok_injective (sym same ∙ read)) o),
              v,
            )),
    )
  ]
]
