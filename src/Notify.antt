-- ===== src/Notify.antt =====
-- internal/notify: JetStream advisories turned into notifications for chat webhooks.
pub mod Classify
pub mod Webhook
pub mod Manager
use cheshmhayash.Common.{String}

-- The rendered form of an advisory.
pub record Event : Type 0 where
  pub title : String
  pub body : String

-- What the providers are handed.
pub record Notification : Type 0 where
  pub cluster : String
  pub title : String
  pub body : String
  pub subject : String

-- One [[notify]] entry.
pub record ProviderConfig : Type 0 where
  pub provider : String
  pub url : String
  pub channel : String
  pub username : String
