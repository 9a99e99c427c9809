-- ===== src/Start/Laws.antt =====
-- What the set-up promises to the parts that it starts.
use mathlib.Core.Path.{subst}
use mathlib.Core.List.{append-nil, append_assoc}
use cheshmhayash.Common.{
  ℕ, ℤ, ◌≡◌, ◌≢◌, refl, sym, ap, ◌∙◌, inl, inr, false, String, List, [], ◌∷◌, ◌++◌, Option, All,
  All-append, is_unset, arith, eq_iff, ◌==◌,
}
use cheshmhayash.Config.{Nats, McpKey}
use cheshmhayash.Config.Validate.Laws.{HasValue}
use cheshmhayash.Auth.{ok, err}
use cheshmhayash.Auth.Session.Laws.{Result-cases}
use cheshmhayash.Auth.Middleware.{key_matches}
use cheshmhayash.Start.{
  Env, Dial, Cluster, Dialled, connected, failed, overview_period, mcp_key_matchers, connect, put,
  close, add_clusters, new_manager, options,
}

-- The period of the overview cache is positive, whatever the environment holds and however its
-- durations are read.
pub overview_period-positive :
    (parse_duration : String → Option ℤ) (env : Env)
    → is_unset (overview_period parse_duration env) ≡ false
unfolding overview_period
overview_period-positive parse_duration env = ground arith

pub keys_refuse :
    (ks : List McpKey) → All HasValue ks → key_matches (mcp_key_matchers ks) "" ≡ false
unfolding key_matches mcp_key_matchers
keys_refuse [] h = refl
keys_refuse (k ∷ ks) (v, h) = ground (arith, v, eq_iff "" k.value, keys_refuse ks h)

-- The connections that the dialling of a list of clusters opens, up to the first failure.
unfoldable pub dialled : Dial → List Nats → List ℕ
unfolding connect
dialled dial [] = []
dialled dial (cfg ∷ cfgs) = elim (connect dial cfg) [
  | err e ↦ []
  | ok c ↦ c.conn ∷ dialled dial cfgs
]

-- The connections that are drained: at once after a failure, else by Manager.Close.
abbrev pub drained : Dialled → List ℕ
unfolding close
drained (connected clusters) = close clusters
drained (failed why conns) = conns

abbrev Apart : List Nats → String → Type 0
Apart cfgs name = All (λ (d : Nats). d.name ≢ name) cfgs

abbrev pub Distinct : List Nats → Type 0
Distinct [] = Unit
Distinct (c ∷ cs) = Apart cs c.name × Distinct cs

-- A new name goes to the end.
put-new :
    (c : Cluster) (clusters : List Cluster)
    → All (λ (d : Cluster). d.name ≢ c.name) clusters
    → put c clusters ≡ clusters ++ (c ∷ [])
unfolding put
put-new c [] h = refl
put-new c (d ∷ ds) (n, h) =
    let other : (d.name == c.name) ≡ false = ground (arith, n, eq_iff d.name c.name) in
    rw (other, put) (ap (λ cs. d ∷ cs) (put-new c ds h))

pub connect-name :
    (dial : Dial) (cfg : Nats) (c : Cluster) → connect dial cfg ≡ ok c → c.name ≡ cfg.name
unfolding connect
connect-name dial cfg c e = elim (Result-cases (dial cfg.url (options cfg))) [
  | inl (why, bad) ↦ ground (arith, e, bad)
  | inr (conn, good) ↦ ground (arith, e, good)
]

close-append : (cs ds : List Cluster) → close (cs ++ ds) ≡ close cs ++ close ds
unfolding close
close-append [] ds = refl
close-append (c ∷ cs) ds = ap (λ rest. c.conn ∷ rest) (close-append cs ds)

-- No cluster so far has the name of one to come.
abbrev Fresh : List Cluster → List Nats → Type 0
Fresh clusters cfgs = All (λ (cfg : Nats). All (λ (d : Cluster). d.name ≢ cfg.name) clusters) cfgs

Fresh-append :
    (clusters : List Cluster) (c : Cluster) (name : String) (cfgs : List Nats)
    → c.name ≡ name
    → Fresh clusters cfgs
    → Apart cfgs name
    → Fresh (clusters ++ (c ∷ [])) cfgs
Fresh-append clusters c name [] e h k = tt
Fresh-append clusters c name (cfg ∷ cfgs) e (p, h) (n, k) = (
  All-append (λ (d : Cluster). d.name ≢ cfg.name) clusters (c ∷ []) p
      ((λ same. n (sym same ∙ e)), tt),
  Fresh-append clusters c name cfgs e h k,
)

add_clusters-drained :
    (dial : Dial) (cfgs : List Nats) (clusters : List Cluster)
    → Distinct cfgs
    → Fresh clusters cfgs
    → drained (add_clusters dial cfgs clusters) ≡ close clusters ++ dialled dial cfgs
unfolding add_clusters dialled
add_clusters-drained dial [] clusters d f = sym (append-nil (close clusters))
add_clusters-drained dial (cfg ∷ cfgs) clusters (a, d) (p, f) =
    elim (Result-cases (connect dial cfg)) [
      | inl (why, e) ↦ rw (e, add_clusters, dialled) (sym (append-nil (close clusters)))
      | inr (c, e) ↦
          let name = connect-name dial cfg c e in
          let new_name = subst (λ n. All (λ (d : Cluster). d.name ≢ n) clusters) (sym name) p in
          rw (e, add_clusters, dialled, put-new c clusters new_name)
            (add_clusters-drained dial cfgs (clusters ++ (c ∷ [])) d
                (Fresh-append clusters c cfg.name cfgs name f a)
              ∙ ap (λ conns. conns ++ dialled dial cfgs) (close-append clusters (c ∷ []))
              ∙ append_assoc (close clusters) (c.conn ∷ []) (dialled dial cfgs))
    ]

none_yet : (cfgs : List Nats) → Fresh [] cfgs
none_yet [] = tt
none_yet (cfg ∷ cfgs) = (tt, none_yet cfgs)

-- For clusters with distinct names, the connections that are drained are those that the start has
-- opened, each once: by NewManager when one of the later ones fails, else by Close on the manager.
pub new_manager-drained :
    (dial : Dial) (cfgs : List Nats)
    → Distinct cfgs
    → drained (new_manager dial cfgs) ≡ dialled dial cfgs
unfolding new_manager close
new_manager-drained dial cfgs d = add_clusters-drained dial cfgs [] d (none_yet cfgs)
