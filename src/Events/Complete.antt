-- ===== src/Events/Complete.antt =====
-- The first half of RecordEvent: the report in its normal form, and completed from the stored
-- message.
use panmail.Base.Text.{Text, to_lower, trim_space, ◌==◌ as text_eq}
use panmail.Base.{
  Bool, List, Option, String, [], false, if◌then◌else◌, length, none, not, some, true, ◌&&◌, ◌+◌,
  ◌==◌ as nat_eq, ◌∷◌, ◌||◌,
}
use panmail.Bounce.{
  EventType, bounced, classify_error, clicked, delivered, dropped, hard_bounce, opened, rejected,
  sent, soft_bounce, spam_report,
}
use panmail.Bounce
use panmail.Events.{Deps, EmailMessage, Report}
use text.Mathlib.Text.{◌==◌}

unfoldable pub is_bounced : EventType → Bool
is_bounced bounced = true
is_bounced _ = false

-- What the text of an error makes of a bounce.
unfoldable pub classified : EventType → EventType
classified Bounce.unspecified = bounced
classified t = t

-- The address of a list of one.
unfoldable pub the_one : List Text → Option Text
the_one [] = none
the_one (a ∷ []) = some a
the_one (a ∷ b ∷ rest) = none

-- The address of three lists that have one between them, or none.
unfoldable pub only_of : List Text → List Text → List Text → Text
only_of to cc bcc =
    if nat_eq (length to + length cc + length bcc) 1
    then elim (the_one to) [
      | some a ↦ a
      | none ↦ elim (the_one cc) [
        | some a ↦ a
        | none ↦ elim (the_one bcc) [ some a ↦ a | none ↦ [] ]
      ]
    ]
    else []

unfoldable pub only_recipient : EmailMessage → Text
only_recipient m = only_of m.to m.cc m.bcc

unfoldable pub fill_missing : EmailMessage → Report → Report
fill_missing m r = record {
  tenant_id = r.tenant_id;
  provider_id = if r.provider_id == "" then m.provider_id else r.provider_id;
  message_id = r.message_id;
  event_type = r.event_type;
  recipient = if text_eq r.recipient [] then only_recipient m else r.recipient;
  subject = if text_eq r.subject [] then m.subject else r.subject;
  error_message = r.error_message;
  metadata = r.metadata;
}

abbrev pub with_message_id : String → Report → Report
with_message_id id r = record {
  tenant_id = r.tenant_id;
  provider_id = r.provider_id;
  message_id = id;
  event_type = r.event_type;
  recipient = r.recipient;
  subject = r.subject;
  error_message = r.error_message;
  metadata = r.metadata;
}

-- The report with what a lookup filled in, `msg` and `looked`.
pub record Recovered : Type 0 where
  pub report : Report
  pub msg : Option EmailMessage
  pub looked : Bool

module _ {S : Type 0} (d : Deps S) where
  unfoldable pub is_internal_id : String → Bool
  is_internal_id message_id = d.parses message_id

  unfoldable pub event_type_of : Report → EventType
  event_type_of r =
      if is_bounced r.event_type && not (text_eq r.error_message [])
      then classified (classify_error d.patterns r.error_message).event_type
      else r.event_type

  -- The first lines: the recipient in its normal form, and the bounce classified.
  unfoldable pub normalise : Report → Report
  normalise r = record {
    tenant_id = r.tenant_id;
    provider_id = r.provider_id;
    message_id = r.message_id;
    event_type = event_type_of r;
    recipient = to_lower (trim_space r.recipient);
    subject = r.subject;
    error_message = r.error_message;
    metadata = r.metadata;
  }

  unfoldable pub is_missing : Report → Bool
  is_missing r =
      r.provider_id == ""
      || text_eq r.recipient []
      || text_eq r.subject []
      || not (is_internal_id r.message_id)

  -- The message of the recipient, for an id that is not the gateway's own.
  unfoldable pub look_up_latest : S → Report → Recovered
  look_up_latest s r =
      if not (text_eq r.recipient []) && not (is_internal_id r.message_id)
      then elim (d.repo.get_latest_message_for_recipient s r.tenant_id r.recipient) [
        | some m ↦ record {
          report = fill_missing m (with_message_id m.id r);
          msg = some m;
          looked = true;
        }
        | none ↦ record { report = r; msg = none; looked = true }
      ]
      else record { report = r; msg = none; looked = true }

  unfoldable pub look_up : S → Report → Recovered
  look_up s r = elim (d.repo.get_message s r.tenant_id r.message_id) [
    | some m ↦ record { report = fill_missing m r; msg = some m; looked = true }
    | none ↦ look_up_latest s r
  ]

  unfoldable pub recover : S → Report → Recovered
  recover s r =
      let found = look_up s r in
      if not (r.message_id == "") && is_missing r
      then found
      else record { report = r; msg = none; looked = false }
