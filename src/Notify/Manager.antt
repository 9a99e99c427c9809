-- ===== src/Notify/Manager.antt =====
-- internal/notify/notify.go: the providers, the subscriptions, and the way from a message to its
-- webhooks.
pub mod Laws
pub mod Sessions
use cheshmhayash.Common.{
  ℕ, suc, ◌+◌, Bool, not, String, List, [], ◌∷◌, ◌++◌, map, Option, none, some, is_empty, ◌==◌, eqb,
  if◌then◌else◌,
}
use cheshmhayash.Common.Text.{◌<>◌, mem}
use cheshmhayash.Json.{Json}
use cheshmhayash.Natsx.Decimal.{decimal}
use cheshmhayash.Auth.{Result, ok, err}
use cheshmhayash.Notify.{Event, Notification, ProviderConfig}
use cheshmhayash.Notify.Classify.{classify}
use cheshmhayash.Notify.Webhook.{Webhook, new_webhook, Client, Sent, send}

pub record Subscription : Type 0 where
  pub cluster : String
  pub subject : String

pub record Manager : Type 0 where
  pub providers : List Webhook
  pub subs : List Subscription

abbrev pub provider_names : List String
provider_names = "slack" ∷ "mattermost" ∷ "matrix" ∷ []

abbrev at_entry : ℕ → String → String
unfolding decimal
at_entry i why = "notify[" <> (decimal i <> ("]: " <> why))

-- The loop of New from entry `i`, over the providers so far; `quote` is `%q`.
unfoldable pub add_providers :
    (String → String) → ℕ → List ProviderConfig → List Webhook → Result (List Webhook)
unfolding new_webhook mem at_entry
add_providers quote i [] providers = ok providers
add_providers quote i (c ∷ cs) providers =
    let rest = add_providers quote (i + 1) cs (providers ++ (new_webhook c ∷ [])) in
    if c.url == ""
    then err (at_entry i "url is required")
    else if mem provider_names c.provider
    then rest
    else if c.provider == ""
    then err (at_entry i "provider is required (slack|mattermost|matrix)")
    else err (at_entry i ("unknown provider " <> quote c.provider))

-- New
unfoldable pub new : (String → String) → List ProviderConfig → Result Manager
unfolding add_providers
new quote cfgs = elim (add_providers quote 0 cfgs []) [
  | err e ↦ err e
  | ok providers ↦ ok (record { providers = providers; subs = [] })
]

unfoldable pub enabled : Manager → Bool
enabled m = not (is_empty m.providers)

abbrev pub advisory_subjects : List String
advisory_subjects = "$JS.EVENT.ADVISORY.>" ∷ "$SYS.ACCOUNT.*.JETSTREAM.EVENT.ADVISORY.>" ∷ []

-- The subjects that the connection of a cluster accepts; a failed one is skipped.
unfoldable pub opened : (String → Bool) → String → List String → List Subscription
opened accepts cluster [] = []
opened accepts cluster (s ∷ ss) =
    let rest = opened accepts cluster ss in
    if accepts s then record { cluster = cluster; subject = s } ∷ rest else rest

-- Subscribe
unfoldable pub subscribe : (String → Bool) → String → Manager → Manager
unfolding enabled opened
subscribe accepts cluster m =
    if not (enabled m)
    then m
    else record m { subs = m.subs ++ opened accepts cluster advisory_subjects }

-- Close: the subscriptions that are ended, and the manager afterwards.
unfoldable pub close : Manager → List Subscription × Manager
close m = (m.subs, record m { subs = [] })

-- handlerFor: what each provider is asked to send.
unfoldable pub notification :
    (String → Option Json) → String → String → String → Option Notification
unfolding classify
notification unmarshal cluster subject raw = elim (classify unmarshal subject raw) [
  | none ↦ none
  | some ev ↦
      some (record { cluster = cluster; title = ev.title; body = ev.body; subject = subject })
]

-- The sends run concurrently; here they stand in the order of the providers.
unfoldable pub handle :
    Client → (String → Option Json) → String → Manager → String → String → List Sent
unfolding notification send
handle client unmarshal cluster m subject raw = elim (notification unmarshal cluster subject raw) [
  | none ↦ []
  | some n ↦ map (λ (w : Webhook). send client w n) m.providers
]
