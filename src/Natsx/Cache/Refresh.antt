-- ===== src/Natsx/Cache/Refresh.antt =====
-- internal/natsx/cache.go: `refresh`, the goroutine that keeps the overview of one cluster.
pub mod Laws
use cheshmhayash.Common.{
  ℕ, Bool, true, false, String, List, [], ◌∷◌, Option, none, some, if◌then◌else◌,
}
use cheshmhayash.Natsx.{Reply}
use cheshmhayash.Natsx.Cache.{Cache, tick, close_subs}

-- What the `select` of its loop takes: the ticker, with the time and the replies of the discovery that
-- follows, or the end of the context.
pub data Wake : Type 0 where
  ticked : ℕ → Reply (List String) → Wake
  stopped : Wake

unfoldable pub refresh_loop : String → List Wake → Cache → Option Cache
unfolding tick close_subs
refresh_loop name [] s = some s
refresh_loop name (stopped ∷ ws) s = close_subs name s
refresh_loop name (ticked now replies ∷ ws) s = elim (tick now replies name s) [
  | none ↦ none
  | some t ↦ refresh_loop name ws t
]

-- `known` tells whether the manager has the cluster; the first tick comes at once.
unfoldable pub refresh : Bool → String → ℕ → Reply (List String) → List Wake → Cache → Option Cache
unfolding refresh_loop
refresh known name now replies ws s =
    if known then refresh_loop name (ticked now replies ∷ ws) s else some s
