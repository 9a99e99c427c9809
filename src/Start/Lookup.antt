-- ===== src/Start/Lookup.antt =====
-- The map of clusters against the list of their settings.
use cheshmhayash.Common.{
  ap, ◌≡◌, refl, inl, inr, String, List, [], ◌∷◌, Option, none, some, arith, eq_iff, Bool-cases,
  ◌==◌, if◌then◌else◌,
}
use cheshmhayash.Config.{Nats}
use cheshmhayash.Auth.{ok}
use cheshmhayash.Auth.Session.Laws.{Result-cases}
use cheshmhayash.Start.{Dial, Cluster, connected, connect, put, get, add_clusters, new_manager}
use cheshmhayash.Start.Laws.{connect-name}

get-put :
    (c : Cluster) (cs : List Cluster) (name : String)
    → get (put c cs) name ≡ (if c.name == name then some c else get cs name)
unfolding get put
get-put c [] name = refl
get-put c (d ∷ ds) name = elim (Bool-cases (d.name == c.name)) [
  | inl same ↦ ground (arith, same, eq_iff d.name c.name, eq_iff d.name name, eq_iff c.name name)
  | inr other ↦ ground (
    arith,
    other,
    get-put c ds name,
    eq_iff d.name c.name,
    eq_iff d.name name,
    eq_iff c.name name,
  )
]

-- The settings that a name stands for: those of its last entry.
unfoldable pub last_named : List Nats → String → Option Nats
last_named [] name = none
last_named (cfg ∷ cfgs) name = elim (last_named cfgs name) [
  | some later ↦ some later
  | none ↦ if cfg.name == name then some cfg else none
]

-- The cluster is the connection that dialling the settings gave; without settings, the one before.
abbrev pub Linked : Dial → Option Cluster → Option Nats → Option Cluster → Type 0
Linked dial before none o = o ≡ before
Linked dial before (some cfg) o = (c : Cluster) × (connect dial cfg ≡ ok c) × (o ≡ some c)

-- One more entry in front of those whose clusters are known.
Linked-put :
    (dial : Dial) (cfg : Nats) (c : Cluster) (clusters : List Cluster) (name : String)
    (later : Option Nats) (o : Option Cluster)
    → connect dial cfg ≡ ok c
    → Linked dial (get (put c clusters) name) later o
    → Linked dial
        (get clusters name)
        (elim later [ some l ↦ some l | none ↦ if cfg.name == name then some cfg else none ])
        o
Linked-put dial cfg c clusters name (some l) o good h = h
Linked-put dial cfg c clusters name none o good h = elim (Bool-cases (cfg.name == name)) [
  | inl same ↦ rw same (c, good, ground (arith, h, get-put c clusters name, names, same))
  | inr other ↦ rw other (ground (arith, h, get-put c clusters name, names, other))
]
  where
    names : (c.name == name) ≡ (cfg.name == name)
    names = ap (λ n. n == name) (connect-name dial cfg c good)

add_clusters-Linked :
    (dial : Dial) (cfgs : List Nats) (clusters cs : List Cluster) (name : String)
    → add_clusters dial cfgs clusters ≡ connected cs
    → Linked dial (get clusters name) (last_named cfgs name) (get cs name)
unfolding add_clusters last_named
add_clusters-Linked dial [] clusters cs name e = ground (arith, e)
add_clusters-Linked dial (cfg ∷ cfgs) clusters cs name e = elim (Result-cases (connect dial cfg)) [
  | inl (why, bad) ↦ ground (arith, e, bad)
  | inr (c, good) ↦
      Linked-put dial cfg c clusters name (last_named cfgs name) (get cs name) good
        (add_clusters-Linked dial cfgs (put c clusters) cs name (ground (arith, e, good)))
]

-- Once NewManager has succeeded, Get answers for each name with the connection that dialling the
-- last settings of that name gave, and with none for a name that no settings have.
pub new_manager-Linked :
    (dial : Dial) (cfgs : List Nats) (cs : List Cluster) (name : String)
    → new_manager dial cfgs ≡ connected cs
    → Linked dial none (last_named cfgs name) (get cs name)
unfolding new_manager get
new_manager-Linked dial cfgs cs name e = add_clusters-Linked dial cfgs [] cs name e
