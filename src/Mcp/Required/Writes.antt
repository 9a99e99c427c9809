-- ===== src/Mcp/Required/Writes.antt =====
-- What each mutating tool needs.
use cheshmhayash.Common.{
  ◌≡◌, refl, inl, inr, ◌⊎◌, ◌||◌, String, [], ◌∷◌, Option, none, some, arith, ◌==◌, eqb,
}
use cheshmhayash.Json.{Fields}
use cheshmhayash.Mcp.{Runtime}
use cheshmhayash.Mcp.Args.{Args, cluster, server_id, stream, consumer, cid, confirm, config}
use cheshmhayash.Mcp.Writes
use cheshmhayash.Mcp.Strict.{Refuses}
use cheshmhayash.Mcp.Required.Steps.{
  refuse-Refuses, Needs, stop-Refuses, pass-Refuses, confirm-Refuses, cluster-Refuses,
  decoded-Refuses, empty, keyed, paired,
}

Config-cases :
    (r : Writes.Config)
    → ((why : String) × (r ≡ Writes.refused why)) ⊎ ((s : String) × (r ≡ Writes.accepted s))
Config-cases (Writes.refused why) = inl (why, refl)
Config-cases (Writes.accepted s) = inr (s, refl)

update-Refuses :
    (rt : Runtime) (a : Args) (o : Option Fields)
    → (a.cluster ≡ "") ⊎ (o ≡ none)
    → Refuses (Writes.update rt a o)
unfolding Writes.update
update-Refuses rt a none h = refuse-Refuses _
update-Refuses rt a (some given) (inr e) = absurd (cc e)
update-Refuses rt a (some given) (inl e) = elim (Config-cases (Writes.encode_config rt a given)) [
  | inl (why, r) ↦ rw (r, Writes.update) (refuse-Refuses why)
  | inr (payload, r) ↦ rw (r, Writes.update) (cluster-Refuses rt a.cluster _ e)
]

pub server_reload-Needs : Needs Writes.server_reload (cluster ∷ server_id ∷ [])
unfolding Writes.server_reload
server_reload-Needs = (
  λ rt. decoded-Refuses rt _ cluster _ (λ a z. keyed rt a.cluster _ a.server_id _ (inr z)),
  (λ rt. decoded-Refuses rt _ server_id _ (λ a z. keyed rt a.cluster _ a.server_id _ (inl z)), tt),
)

pub server_lame_duck-Needs : Needs Writes.server_lame_duck (cluster ∷ server_id ∷ confirm ∷ [])
unfolding Writes.server_lame_duck
server_lame_duck-Needs = (
  λ rt.
      decoded-Refuses rt _ cluster _
        (λ a z. confirm-Refuses a.confirm _ _ (inr (keyed rt a.cluster _ a.server_id _ (inr z)))),
  (
    λ rt.
        decoded-Refuses rt _ server_id _
          (λ a z. confirm-Refuses a.confirm _ _ (inr (keyed rt a.cluster _ a.server_id _ (inl z)))),
    (λ rt. decoded-Refuses rt _ confirm _ (λ a z. confirm-Refuses a.confirm _ _ (inl z)), tt),
  ),
)

pub server_kick-Needs : Needs Writes.server_kick (cluster ∷ server_id ∷ cid ∷ confirm ∷ [])
unfolding Writes.server_kick
server_kick-Needs = (
  λ rt. decoded-Refuses rt _ cluster _ (λ a z. confirm-Refuses a.confirm _ _ (
      inr
        (pass-Refuses (a.server_id == "" || eqb a.cid 0) _ _ (cluster-Refuses rt a.cluster _ z)))),
  (
    λ rt. decoded-Refuses rt _ server_id _ (λ a z. confirm-Refuses a.confirm _ _ (
        inr (
          stop-Refuses (a.server_id == "" || eqb a.cid 0) _ _
            (ground (arith, empty a.server_id z))))),
    (
      λ rt. decoded-Refuses rt _ cid _ (λ a z.
          confirm-Refuses a.confirm _ _
            (inr (stop-Refuses (a.server_id == "" || eqb a.cid 0) _ _ (ground arith)))),
      (λ rt. decoded-Refuses rt _ confirm _ (λ a z. confirm-Refuses a.confirm _ _ (inl z)), tt),
    ),
  ),
)

pub stream_update-Needs : Needs Writes.stream_update (cluster ∷ stream ∷ config ∷ [])
unfolding Writes.stream_update
stream_update-Needs = (
  λ rt.
      decoded-Refuses rt _ cluster _
        (λ a z. pass-Refuses (a.stream == "") _ _ (update-Refuses rt a a.config (inl z))),
  (
    λ rt.
        decoded-Refuses rt _ stream _ (λ a z. stop-Refuses (a.stream == "") _ _ (empty a.stream z)),
    (
      λ rt.
          decoded-Refuses rt _ config _
            (λ a z. pass-Refuses (a.stream == "") _ _ (update-Refuses rt a a.config (inr z))),
      tt,
    ),
  ),
)

pub stream_purge-Needs : Needs Writes.stream_purge (cluster ∷ stream ∷ confirm ∷ [])
unfolding Writes.stream_purge
stream_purge-Needs = (
  λ rt.
      decoded-Refuses rt _ cluster _
        (λ a z. confirm-Refuses a.confirm _ _ (inr (keyed rt a.cluster _ a.stream _ (inr z)))),
  (
    λ rt.
        decoded-Refuses rt _ stream _
          (λ a z. confirm-Refuses a.confirm _ _ (inr (keyed rt a.cluster _ a.stream _ (inl z)))),
    (λ rt. decoded-Refuses rt _ confirm _ (λ a z. confirm-Refuses a.confirm _ _ (inl z)), tt),
  ),
)

pub stream_delete-Needs : Needs Writes.stream_delete (cluster ∷ stream ∷ confirm ∷ [])
unfolding Writes.stream_delete
stream_delete-Needs = (
  λ rt.
      decoded-Refuses rt _ cluster _
        (λ a z. confirm-Refuses a.confirm _ _ (inr (keyed rt a.cluster _ a.stream _ (inr z)))),
  (
    λ rt.
        decoded-Refuses rt _ stream _
          (λ a z. confirm-Refuses a.confirm _ _ (inr (keyed rt a.cluster _ a.stream _ (inl z)))),
    (λ rt. decoded-Refuses rt _ confirm _ (λ a z. confirm-Refuses a.confirm _ _ (inl z)), tt),
  ),
)

pub consumer_delete-Needs :
    Needs Writes.consumer_delete (cluster ∷ stream ∷ consumer ∷ confirm ∷ [])
unfolding Writes.consumer_delete
consumer_delete-Needs = (
  λ rt. decoded-Refuses rt _ cluster _ (λ a z.
      confirm-Refuses a.confirm _ _
        (inr (paired rt a.cluster _ a.stream a.consumer _ (inr (inr z))))),
  (
    λ rt. decoded-Refuses rt _ stream _ (λ a z.
        confirm-Refuses a.confirm _ _ (inr (paired rt a.cluster _ a.stream a.consumer _ (inl z)))),
    (
      λ rt. decoded-Refuses rt _ consumer _ (λ a z.
          confirm-Refuses a.confirm _ _
            (inr (paired rt a.cluster _ a.stream a.consumer _ (inr (inl z))))),
      (λ rt. decoded-Refuses rt _ confirm _ (λ a z. confirm-Refuses a.confirm _ _ (inl z)), tt),
    ),
  ),
)

pub meta_stepdown-Needs : Needs Writes.meta_stepdown (cluster ∷ confirm ∷ [])
unfolding Writes.meta_stepdown
meta_stepdown-Needs = (
  λ rt.
      decoded-Refuses rt _ cluster _
        (λ a z. confirm-Refuses a.confirm _ _ (inr (cluster-Refuses rt a.cluster _ z))),
  (λ rt. decoded-Refuses rt _ confirm _ (λ a z. confirm-Refuses a.confirm _ _ (inl z)), tt),
)

pub stream_stepdown-Needs : Needs Writes.stream_stepdown (cluster ∷ stream ∷ confirm ∷ [])
unfolding Writes.stream_stepdown
stream_stepdown-Needs = (
  λ rt.
      decoded-Refuses rt _ cluster _
        (λ a z. confirm-Refuses a.confirm _ _ (inr (keyed rt a.cluster _ a.stream _ (inr z)))),
  (
    λ rt.
        decoded-Refuses rt _ stream _
          (λ a z. confirm-Refuses a.confirm _ _ (inr (keyed rt a.cluster _ a.stream _ (inl z)))),
    (λ rt. decoded-Refuses rt _ confirm _ (λ a z. confirm-Refuses a.confirm _ _ (inl z)), tt),
  ),
)

pub consumer_stepdown-Needs :
    Needs Writes.consumer_stepdown (cluster ∷ stream ∷ consumer ∷ confirm ∷ [])
unfolding Writes.consumer_stepdown
consumer_stepdown-Needs = (
  λ rt. decoded-Refuses rt _ cluster _ (λ a z.
      confirm-Refuses a.confirm _ _
        (inr (paired rt a.cluster _ a.stream a.consumer _ (inr (inr z))))),
  (
    λ rt. decoded-Refuses rt _ stream _ (λ a z.
        confirm-Refuses a.confirm _ _ (inr (paired rt a.cluster _ a.stream a.consumer _ (inl z)))),
    (
      λ rt. decoded-Refuses rt _ consumer _ (λ a z.
          confirm-Refuses a.confirm _ _
            (inr (paired rt a.cluster _ a.stream a.consumer _ (inr (inl z))))),
      (λ rt. decoded-Refuses rt _ confirm _ (λ a z. confirm-Refuses a.confirm _ _ (inl z)), tt),
    ),
  ),
)
