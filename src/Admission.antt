-- ===== src/Admission.antt =====
-- internal/email/usecases/send_email_usecase.go, SendEmail as a client calls it: what is checked,
-- charged and written before a message is accepted. The worker's pass is Delivery.
--
-- The stores, the parsers and the renderer are the gateway's fields: what they answer to this one
-- send. The clock is read once. An attachment is not nil, and an error keeps its kind.
pub mod Checks
pub mod Rate
pub mod Charged
pub mod Content
pub mod Send
pub mod Written
pub mod Filtered
pub mod Passed
pub mod Outcome
mod Examples
use panmail.Base.{Bool, List, Option, String, ℕ}
use panmail.Base.Text.{Text}
use panmail.Cache.{TtlCache}
use panmail.Delivery.{EmailProvider, Event}
use panmail.EmailFilter.Rule.{Action, Rule}
use panmail.EmailFilter.{Message}
use panmail.Idempotency.{InvalidKey, KeyTable}
use panmail.Outbox.{Row}
use panmail.RateLimit.{Limit, Limiter}

pub record Attachment : Type 0 where
  pub filename : Text
  pub content_type : Text
  pub content_id : Text
  pub content : Text

pub record SendEmailRequest : Type 0 where
  pub from : Text
  pub to : List Text
  pub cc : List Text
  pub bcc : List Text
  pub provider_id : String
  pub idempotency_key : String
  pub subject : Text
  pub body : Text
  pub is_html : Bool
  pub body_html : Text
  pub body_text : Text
  pub template_id : String
  pub attachments : List Attachment
  pub reply_to : Text
  pub disposition_notification_to : Text
  pub in_reply_to : Text
  pub references : List Text
  pub save_sent_copy : Bool

-- A provider with its own ceiling.
pub record Provider : Type 0 where
  pub account : EmailProvider
  pub send_rate : Limit

pub record Template : Type 0 where
  pub subject : Text
  pub body_html : Text
  pub body_text : Text

pub record Rendered : Type 0 where
  pub subject : Text
  pub body_html : Text
  pub body_text : Text

pub data Refusal : Type 0 where
  no_tenant invalid_tenant no_from no_provider invalid_provider no_recipient : Refusal
  bad_idempotency_key : InvalidKey → Refusal
  bad_from bad_recipient bad_attachments bad_reply_header : Refusal
  provider_unreadable unknown_provider : Refusal
  not_hashed key_unreadable key_conflict key_in_flight : Refusal
  no_sender sender_refused : Refusal
  backlog_full : ℕ → ℕ → Refusal
  rate_limited : ℕ → Refusal
  suppressions_unreadable : Refusal
  suppressed_recipient : Text → Text → Refusal
  not_rendered rules_unreadable refused_by_rule not_marshalled not_enqueued : Refusal

-- A decision of the filter that `Record` was called with.
pub record Recorded : Type 0 where
  pub action : Action
  pub message_id : String
  pub payload_ref : String

pub record Gateway (Pattern : Type 0) : Type 0 where
  pub is_uuid : String → Bool
  pub parse : Text → Option (Option Text)
  -- The tenant's cached providers and the stored one, none where the read fails.
  pub listed : Option (List Provider)
  pub stored : Option (Option Provider)
  pub hash : SendEmailRequest → Option String
  pub keys_readable : Bool
  pub window : ℕ
  -- What other sends do to the table of keys between this one's lookup and its write.
  pub others : KeyTable → KeyTable
  -- Whether there is a limiter with the tenants' limits, and the tenant's as it is stored.
  pub has_limits : Bool
  pub tenant_limit : Option (Option Limit)
  pub counted : Option ℕ
  pub suppressions : List Text → Option (Text → Option Text)
  pub template : Option (Option Template)
  pub render : Text → Bool → Option Text
  -- The tenant's rules, where there is a screener.
  pub rules : Option (Option (List (Rule Pattern)))
  pub search : Pattern → Text → Bool
  pub read_attachment_text : Message → Message
  pub marshal : SendEmailRequest → Option Text
  pub creates : Bool
  pub has_sent_copies : Bool
  pub has_worker : Bool
  pub new_id : String

-- What a send reads and writes. The events, the decisions, the copies and the messages are the
-- calls made, of which a failure is only logged.
pub record World : Type 0 where
  pub limiter : Limiter
  pub limits : TtlCache Limit
  pub backlog_counts : TtlCache ℕ
  pub keys : KeyTable
  pub rows : List Row
  pub events : List Event
  pub decisions : List Recorded
  pub sent_copies : List String
  pub messages : List String
  pub wakes : ℕ

pub data Response : Type 0 where
  refused : Refusal → Response
  replayed : String → Response
  accepted : String → Response
