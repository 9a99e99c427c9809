-- ===== src/Notify/Webhook.antt =====
-- internal/notify/webhook.go: one notification posted to one provider.
use cheshmhayash.Common.{
  ℕ, ◌/◌, String, List, [], ◌∷◌, ◌++◌, Option, none, some, ◌==◌, eqb, not, if◌then◌else◌,
}
use cheshmhayash.Common.Text.{◌<>◌}
use cheshmhayash.Json.{Json, str, object}
use cheshmhayash.Natsx.Decimal.{decimal}
use cheshmhayash.Auth.{Result, ok, err}
use cheshmhayash.Notify.{ProviderConfig, Notification}

pub record Webhook : Type 0 where
  pub name : String
  pub url : String
  pub channel : String
  pub username : String

unfoldable pub new_webhook : ProviderConfig → Webhook
new_webhook c = record {
  name = c.provider;
  url = c.url;
  channel = c.channel;
  username = c.username;
}

pub record Post : Type 0 where
  pub url : String
  pub headers : List (String × String)
  pub body : Json

-- net/http: the error of building a request to a URL, and the status of the answer to one.
pub record Client : Type 0 where
  pub refusal : String → Option String
  pub post : Post → Result ℕ

abbrev optional : String → String → List (String × Json)
optional key value = if value == "" then [] else (key, str value) ∷ []

unfoldable pub payload : Webhook → Notification → Json
payload w n = object (
    ("text", str ("*[" <> (n.cluster <> ("]* " <> (n.title <> ("\n" <> n.body))))))
    ∷ (optional "channel" w.channel ++ optional "username" w.username))

-- What was posted, and the error that Send returns.
pub record Sent : Type 0 where
  pub posts : List Post
  pub error : Option String

abbrev judge : Webhook → Result ℕ → Option String
unfolding decimal
judge w (err e) = some ("post: " <> e)
judge w (ok status) =
    if not (eqb (status / 100) 2)
    then some ("status " <> (decimal status <> (" from " <> w.name)))
    else none

unfoldable pub send : Client → Webhook → Notification → Sent
unfolding payload judge
send client w n = elim (client.refusal w.url) [
  | some e ↦ record { posts = []; error = some ("build request: " <> e) }
  | none ↦
      let post : Post = record {
        url = w.url;
        headers = ("Content-Type", "application/json") ∷ ("Accept", "application/json") ∷ [];
        body = payload w n;
      } in
      record { posts = post ∷ []; error = judge w (client.post post) }
]
