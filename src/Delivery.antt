-- ===== src/Delivery.antt =====
-- internal/email/usecases/send_email_usecase.go (doSend, finishedFrom), send_recipient_failures.go
-- and send_suppression_delivery.go: one pass of delivery over the recipients of a message.
--
-- The history of a message is the list of the events written for it, oldest first. The events of a
-- pass are its calls of RecordEvent, in order: it goes on whether one is written or not, which is
-- for Queue.History to say. What a pass asks of others is in a record, `Surroundings`: the lookups,
-- the pace, the context and what a provider answers.
pub mod Providers
pub mod Attempts
pub mod Send
pub mod Finished
pub mod Counts
pub mod Once
use panmail.Recipients.{suppression_key_of, unique_recipients}
use panmail.Webhook.{deferred}
use panmail.Senders.{Match, by_address, match_address, allowed, by_domain, unrestricted}
use panmail.Bounce.{
  EventType, Classification, classify_error, deferred, delivered, hard_bounce, Patterns, sent,
  spam_report, complained, unsubscribed, rejected, dropped,
}
use panmail.Base.{
  [], false, if◌then◌else◌, none, some, true, ◌∷◌, inl, inr, Bool, List, Option, String, any,
  filter, ℕ, ◌++◌, ◌||◌, ◌⊎◌, not, ◌&&◌, ◌+◌, all, length,
}
use panmail.Base.Text.{◌==◌, Text, codes}
use text.Mathlib.Text.{◌==◌ as string_eq}

pub record Event : Type 0 where
  pub tenant_id : String
  pub provider_id : String
  pub message_id : String
  pub event_type : EventType
  pub recipient : Text
  pub subject : Text
  pub error : Text

pub record RecipientFailure : Type 0 where
  pub recipient : Text
  pub error : Text
  pub class : Classification

pub record RecipientFailures : Type 0 where
  pub failures : List RecipientFailure
  pub delivered_count : ℕ

unfoldable pub retryable_failures : RecipientFailures → List RecipientFailure
retryable_failures rf = filter (λ f. f.class.retryable) rf.failures

unfoldable pub permanent_failures : RecipientFailures → List RecipientFailure
permanent_failures rf = filter (λ f. not f.class.retryable) rf.failures

-- `Error` of the failures: one line for each.
unfoldable pub failures_text : List RecipientFailure → Text
failures_text [] = []
failures_text (f ∷ fs) =
    let line = codes "failed to deliver to " ++ f.recipient ++ codes ": " ++ f.error in
    let rest = failures_text fs in elim fs [ [] ↦ line | g ∷ gs ↦ line ++ 10 ∷ rest ]

-- `settledEvents`
unfoldable pub settles : EventType → Bool
settles hard_bounce = true
settles spam_report = true
settles complained = true
settles unsubscribed = true
settles rejected = true
settles dropped = true
settles _ = false

unfoldable pub is_delivered : EventType → Bool
is_delivered delivered = true
is_delivered _ = false

-- The three maps of `finishedFrom`, at a recipient.
unfoldable pub delivered_in : List Event → Text → Bool
delivered_in events r = any (λ e. is_delivered e.event_type && e.recipient == r) events

unfoldable pub settled_in : List Event → Text → Bool
settled_in events r = any (λ e. settles e.event_type && e.recipient == r) events

unfoldable pub finished_in : List Event → Text → Bool
finished_in events r = delivered_in events r || settled_in events r

-- An error of `SendEmail`: its text, and what `errors.As` finds in its chain.
pub record SendError : Type 0 where
  pub message : Text
  pub paced : Option ℕ
  pub per_recipient : Option RecipientFailures
  pub permanent : Bool

-- A refusal of the whole message, for good or not.
pub record Refusal : Type 0 where
  pub message : Text
  pub permanent : Bool

abbrev pub temporary : Text → Refusal
temporary t = record { message = t; permanent = false }

abbrev pub for_good : Text → Refusal
for_good t = record { message = t; permanent = true }

abbrev pub refusal : Refusal → SendError
refusal r = record {
  message = r.message;
  paced = none;
  per_recipient = none;
  permanent = r.permanent;
}

abbrev pub failed : Text → SendError
failed t = record { message = t; paced = none; per_recipient = none; permanent = false }

abbrev pub paced_until : Text → ℕ → SendError
paced_until t after = record {
  message = t;
  paced = some after;
  per_recipient = none;
  permanent = false;
}

pub data ProviderType : Type 0 where
  provider_unspecified smtp imap pop3 : ProviderType
  sendgrid ses postmark mailgun : ProviderType

pub record EmailProvider : Type 0 where
  pub id : String
  pub name : Text
  pub provider_type : ProviderType
  pub allowed_senders : List Text

unfoldable pub is_receiver : EmailProvider → Bool
is_receiver p = elim p.provider_type [ imap ↦ true | pop3 ↦ true | sending ↦ false ]

-- What an attempt at one provider comes to.
pub data Answer : Type 0 where
  no_sender : Text → Answer
  unsent : Text → Answer
  accepted : Answer

pub record Request : Type 0 where
  pub provider_id : String
  pub from : Text
  pub to : List Text
  pub cc : List Text
  pub bcc : List Text
  pub subject : Text

pub record Surroundings : Type 0 where
  -- The checks of `SendEmail` before it hands over to `doSend`.
  pub refused_early : Option Refusal
  pub sender : Text ⊎ Text
  pub listed : Text ⊎ List EmailProvider
  pub stored : Option EmailProvider
  pub rendered : Refusal ⊎ Text
  pub history : Text ⊎ List Event
  pub parse : Text → Option (Option Text)
  pub suppressions : Text ⊎ (Text → Option Text)
  pub pace : Option EmailProvider → ℕ → Option ℕ
  pub interrupted : Text → Option Text
  pub answer : EmailProvider → Text → Answer
  pub patterns : Patterns
