-- ===== src/Tests/Environment.antt =====
-- The overlay of environment variables at concrete ones.
use cheshmhayash.Common.{ℕ, pos, negsuc, ◌≡◌, refl, ◌↔◌, List, [], ◌∷◌, ◌++◌, some}
use cheshmhayash.Config.{Nats}
use cheshmhayash.Config.Env.{assigned, panicked, atoi, blank_nats, split_csv}
use cheshmhayash.Config.Env.Paths.{apply_nats, overlay_env}
use cheshmhayash.Config.Env.Entries.{Sets}
use cheshmhayash.Config.Env.Laws.{IsUpdate, apply_nats-IsUpdate, apply_nats-panicked_iff}
use cheshmhayash.Common.Text.{to_lower}
use cheshmhayash.Tests.Server.{settings}

abbrev two_clusters : List Nats
two_clusters = settings.nats ++ (record blank_nats { url = "nats://b:4222" } ∷ [])

second_url : apply_nats ("1" ∷ "URL" ∷ []) "nats://b:4222" settings.nats ≡ assigned two_clusters
unfolding apply_nats
second_url = refl

one_is_index : atoi "1" ≡ some (pos 1)
unfolding atoi
one_is_index = refl

apply_nats-IsUpdate_example :
    IsUpdate blank_nats (Sets (to_lower "URL") "nats://b:4222") 1 settings.nats two_clusters
apply_nats-IsUpdate_example =
    apply_nats-IsUpdate "1" "URL" "nats://b:4222" [] settings.nats two_clusters 1 one_is_index
      second_url

apply_nats-panicked_iff_example :
    (apply_nats ("-1" ∷ "URL" ∷ []) "x" settings.nats ≡ panicked)
    ↔ ((n : ℕ) × (atoi "-1" ≡ some (negsuc n)))
apply_nats-panicked_iff_example = apply_nats-panicked_iff "-1" "URL" "x" [] settings.nats

overlay_test :
    overlay_env settings ("HOME=/root" ∷ "CHESHMHAYASH__SERVER__PORT=+80" ∷ [])
    ≡ assigned (record settings { server = record { host = "0.0.0.0"; port = pos 80 } })
unfolding overlay_env
overlay_test = refl

panic_test : overlay_env settings ("CHESHMHAYASH__NATS__-1__NAME=x" ∷ []) ≡ panicked
unfolding overlay_env
panic_test = refl

csv_test : split_csv " a, ,b," ≡ "a" ∷ "b" ∷ []
unfolding split_csv
csv_test = refl
