-- ===== src/Events.antt =====
-- internal/event/usecases/process_event_usecase.go, RecordEvent: what is written of an event, and
-- what follows from it for the stored message, the webhooks and the suppression list.
--
-- The store, the table of providers, the parser of ids and the patterns of the classifier are
-- fields of Deps. The clock is read once, and a value of the metadata is its text.
pub mod Complete
pub mod Record
pub mod Suppress
pub mod Named
pub mod Lookup
mod Examples
use panmail.Base.{Bool, List, Option, String, ℕ}
use panmail.Base.Dict.{Dict}
use panmail.Base.Text.{Text}
use panmail.Bounce.{EventType, Patterns}

pub record EmailEvent : Type 0 where
  pub id : String
  pub tenant_id : String
  pub provider_id : String
  pub provider_name : String
  pub message_id : String
  pub event_type : EventType
  pub recipient : Text
  pub subject : Text
  pub timestamp : ℕ
  pub metadata : Dict Text
  pub error_message : Text

pub record EmailMessage : Type 0 where
  pub id : String
  pub tenant_id : String
  pub provider_id : String
  pub from : Text
  pub to : List Text
  pub cc : List Text
  pub bcc : List Text
  pub subject : Text

-- A read that fails and one that finds nothing are the same to the caller.
pub record EventRepository (S : Type 0) : Type 0 where
  pub get_message : S → String → String → Option EmailMessage
  pub get_latest_message_for_recipient : S → String → Text → Option EmailMessage
  -- With whether the write succeeded.
  pub write : EmailEvent → S → S × Bool
  pub write_message : EmailMessage → S → S
  -- Where the store is a `MessageProviderBackfiller`.
  pub backfill_message_provider : Option (String → String → String → S → S)

pub data WebhookTriggerEvent : Type 0 where
  unspecified mail_sent mail_delivered mail_opened mail_clicked : WebhookTriggerEvent
  mail_bounced mail_rejected mail_inbound mail_held mail_released : WebhookTriggerEvent
  mail_quarantine_rejected mail_expired : WebhookTriggerEvent

pub record AddSuppressionRequest : Type 0 where
  pub tenant_id : String
  pub email : Text
  pub reason : Text

pub record Deps (S : Type 0) : Type 0 where
  pub repo : EventRepository S
  -- The name of a stored provider.
  pub provider_repo : String → String → Option String
  pub has_webhook_trigger : Bool
  pub has_suppressions : Bool
  pub parses : String → Bool
  pub patterns : Patterns
  pub new_id : String
  pub now : ℕ

-- The calls of the webhook worker and of the suppression list are logs.
pub record World (S : Type 0) : Type 0 where
  pub store : S
  pub provider_names : Dict String
  pub sent_counter : ℕ
  pub enqueued : List (String × WebhookTriggerEvent × EmailEvent)
  pub suppressed : List AddSuppressionRequest

-- The arguments of `RecordEvent`, which it also changes in place.
pub record Report : Type 0 where
  pub tenant_id : String
  pub provider_id : String
  pub message_id : String
  pub event_type : EventType
  pub recipient : Text
  pub subject : Text
  pub error_message : Text
  pub metadata : Dict Text
