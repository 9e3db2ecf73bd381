-- ===== src/Events/Record.antt =====
-- The second half of RecordEvent with the functions that it calls, in the order of the code.
use Prim.Native.String.{◌++◌ as string_append}
use panmail.Base.Dict.{lookup, put}
use panmail.Base.Text.{Text, codes, ◌==◌ as text_eq}
use panmail.Base.{
  Bool, List, Option, String, [], false, if◌then◌else◌, none, not, some, true, ◌&&◌, ◌+◌, ◌++◌, ◌∷◌,
  ◌||◌,
}
use panmail.Bounce.{
  EventType, bounced, clicked, delivered, dropped, hard_bounce, opened, rejected, sent, soft_bounce,
  spam_report,
}
use panmail.Events.{
  AddSuppressionRequest, Deps, EmailEvent, EmailMessage, Report, WebhookTriggerEvent, World,
  mail_bounced, mail_clicked, mail_delivered, mail_opened, mail_rejected, mail_sent, unspecified,
}
use text.Mathlib.Text.{◌==◌}
use panmail.Events.Complete.{Recovered, normalise, recover}

unfoldable pub is_delivered : EventType → Bool
is_delivered delivered = true
is_delivered _ = false

unfoldable pub is_sent : EventType → Bool
is_sent sent = true
is_sent _ = false

unfoldable pub map_to_webhook_trigger : EventType → WebhookTriggerEvent
map_to_webhook_trigger sent = mail_sent
map_to_webhook_trigger delivered = mail_delivered
map_to_webhook_trigger opened = mail_opened
map_to_webhook_trigger clicked = mail_clicked
map_to_webhook_trigger bounced = mail_bounced
map_to_webhook_trigger hard_bounce = mail_bounced
map_to_webhook_trigger soft_bounce = mail_bounced
map_to_webhook_trigger rejected = mail_rejected
map_to_webhook_trigger dropped = mail_rejected
map_to_webhook_trigger _ = unspecified

unfoldable pub is_unspecified : WebhookTriggerEvent → Bool
is_unspecified unspecified = true
is_unspecified _ = false

unfoldable pub terminal_reason : EventType → Option Text
terminal_reason hard_bounce = some (codes "Automatic suppression after a hard bounce")
terminal_reason spam_report = some (codes "Automatic suppression after a spam complaint")
terminal_reason _ = none

unfoldable pub with_error : Text → Text → Text
with_error reason error_message =
    if text_eq error_message [] then reason else reason ++ codes ": " ++ error_message

unfoldable pub names_provider : Option EmailMessage → Bool
names_provider none = false
names_provider (some m) = not (m.provider_id == "")

unfoldable pub is_absent : Option EmailMessage → Bool
is_absent none = true
is_absent (some m) = false

module _ {S : Type 0} (d : Deps S) where
  unfoldable pub count_sent : EventType → World S → World S
  count_sent t w = record {
    store = w.store;
    provider_names = w.provider_names;
    sent_counter = if is_sent t then w.sent_counter + 1 else w.sent_counter;
    enqueued = w.enqueued;
    suppressed = w.suppressed;
  }

  -- The name, and the names known with it.
  unfoldable pub get_provider_name : String → String → World S → World S × String
  get_provider_name tenant_id provider_id w =
      let key = string_append tenant_id (string_append ":" provider_id) in
      if provider_id == "" then (w, "") else elim (lookup key w.provider_names) [
        | some name ↦ (w, name)
        | none ↦ elim (d.provider_repo tenant_id provider_id) [
          | none ↦ (w, "")
          | some name ↦ (
            record {
              store = w.store;
              provider_names = put key name w.provider_names;
              sent_counter = w.sent_counter;
              enqueued = w.enqueued;
              suppressed = w.suppressed;
            },
            name,
          )
        ]
      ]

  unfoldable pub event_of : Report → String → EmailEvent
  event_of r provider_name = record {
    id = d.new_id;
    tenant_id = r.tenant_id;
    provider_id = r.provider_id;
    provider_name = provider_name;
    message_id = r.message_id;
    event_type = r.event_type;
    recipient = r.recipient;
    subject = r.subject;
    timestamp = d.now;
    metadata = r.metadata;
    error_message = r.error_message;
  }

  abbrev pub with_store : S → World S → World S
  with_store s w = record {
    store = s;
    provider_names = w.provider_names;
    sent_counter = w.sent_counter;
    enqueued = w.enqueued;
    suppressed = w.suppressed;
  }

  abbrev pub named : String → EmailMessage → EmailMessage
  named provider_id m = record {
    id = m.id;
    tenant_id = m.tenant_id;
    provider_id = provider_id;
    from = m.from;
    to = m.to;
    cc = m.cc;
    bcc = m.bcc;
    subject = m.subject;
  }

  unfoldable pub reread_and_write : Report → S → S
  reread_and_write r s = elim (d.repo.get_message s r.tenant_id r.message_id) [
    | none ↦ s
    | some m ↦ if m.provider_id == "" then d.repo.write_message (named r.provider_id m) s else s
  ]

  unfoldable pub set_provider : Report → Option EmailMessage → S → S
  set_provider r msg s = elim d.repo.backfill_message_provider [
    | some backfill ↦ backfill r.tenant_id r.message_id r.provider_id s
    | none ↦ elim msg [
      | some m ↦ d.repo.write_message (named r.provider_id m) s
      | none ↦ reread_and_write r s
    ]
  ]

  unfoldable pub backfill_provider : Recovered → S → S
  backfill_provider f s =
      if names_provider f.msg
      then s
      else if f.looked && is_absent f.msg
      then s
      else set_provider f.report f.msg s

  unfoldable pub backfill_delivered : Recovered → S → S
  backfill_delivered f s =
      if is_delivered f.report.event_type
        && not (f.report.provider_id == "")
        && not (f.report.message_id == "")
      then backfill_provider f s
      else s

  unfoldable pub enqueue_webhook :
      Report → EmailEvent → List (String × WebhookTriggerEvent × EmailEvent)
  enqueue_webhook r e =
      let trigger = map_to_webhook_trigger r.event_type in
      if d.has_webhook_trigger && not (is_unspecified trigger)
      then (r.tenant_id, trigger, e) ∷ []
      else []

  unfoldable pub suppress_for_event : Report → List AddSuppressionRequest
  suppress_for_event r =
      if not d.has_suppressions || text_eq r.recipient [] || r.tenant_id == ""
      then []
      else elim (terminal_reason r.event_type) [
        | none ↦ []
        | some reason ↦
            record {
              tenant_id = r.tenant_id;
              email = r.recipient;
              reason = with_error reason r.error_message;
            }
            ∷ []
      ]

  -- What follows a write: all of it, or nothing.
  unfoldable pub after_write : Recovered → EmailEvent → World S → S × Bool → World S × Bool
  after_write f e w (s, false) = (with_store s w, false)
  after_write f e w (s, true) = (
    record {
      store = backfill_delivered f s;
      provider_names = w.provider_names;
      sent_counter = w.sent_counter;
      enqueued = w.enqueued ++ enqueue_webhook f.report e;
      suppressed = w.suppressed ++ suppress_for_event f.report;
    },
    true,
  )

  unfoldable pub write_event : Recovered → World S × String → World S × Bool
  write_event f (w, provider_name) =
      let e = event_of f.report provider_name in after_write f e w (d.repo.write e w.store)

  -- From the name of the provider on.
  unfoldable pub record_recovered : Recovered → World S → World S × Bool
  record_recovered f w = write_event f (get_provider_name f.report.tenant_id f.report.provider_id w)

  unfoldable pub record_event : Report → World S → World S × Bool
  record_event r w =
      let r' = normalise d r in record_recovered (recover d w.store r') (count_sent r'.event_type w)
