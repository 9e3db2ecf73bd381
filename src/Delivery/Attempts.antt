-- ===== src/Delivery/Attempts.antt =====
-- The loops of `doSend` over the recipients and, for each, over the providers; and the drops before
-- them.
use panmail.Webhook.{deferred, delivered}
use panmail.Recipients.{suppression_key_of}
use panmail.Bounce.{EventType, classify_error, dropped, deferred, sent, delivered}
use panmail.Base.Text.{Text}
use panmail.Delivery.{
  Surroundings, Event, EmailProvider, RecipientFailure, is_receiver, no_sender, unsent, accepted,
  Answer,
}
use panmail.Base.{
  [], false, if◌then◌else◌, none, some, true, ◌∷◌, List, String, Bool, Option, ◌++◌, ℕ, ◌+◌,
}

-- What the loop over the providers leaves: `sent` and `recipientErr`.
pub record Tried : Type 0 where
  pub events : List Event
  pub sent : Bool
  pub recipient_error : Option Text

-- What the loop over the recipients leaves.
pub record Pass : Type 0 where
  pub events : List Event
  pub failures : List RecipientFailure
  pub delivered_count : ℕ

module _ (s : Surroundings) (tenant_id message_id : String) (subject : Text) where
  unfoldable pub event : String → EventType → Text → Text → Event
  event provider_id event_type recipient error = record {
    tenant_id = tenant_id;
    provider_id = provider_id;
    message_id = message_id;
    event_type = event_type;
    recipient = recipient;
    subject = subject;
    error = error;
  }

  -- One provider's round: what it answered, with the events to be recorded, whose errors the code
  -- ignores, and the rounds after it.
  unfoldable pub after_answer : Text → EmailProvider → Option Text → (Text → Tried) → Answer → Tried
  after_answer r p err go_on (no_sender e) = go_on e
  after_answer r p err go_on (unsent e) = record (go_on e) {
    events = event p.id deferred r e ∷ (go_on e).events;
  }
  after_answer r p err go_on accepted = record {
    events = event p.id sent r [] ∷ event p.id delivered r [] ∷ [];
    sent = true;
    recipient_error = err;
  }

  unfoldable pub try_providers : Text → Option Text → List EmailProvider → Tried
  try_providers r err [] = record { events = []; sent = false; recipient_error = err }
  try_providers r err (p ∷ ps) =
      let skipped = try_providers r err ps in
      let go_on = λ (e : Text). try_providers r (some e) ps in
      if is_receiver p then skipped else after_answer r p err go_on (s.answer p r)

  unfoldable pub failure : Text → Text → RecipientFailure
  failure r e = record { recipient = r; error = e; class = classify_error s.patterns e }

  unfoldable pub outcome_of : Text → Tried → Pass
  outcome_of r t =
      if t.sent then record { events = t.events; failures = []; delivered_count = 1 } else record {
        events = t.events;
        failures = elim t.recipient_error [ some e ↦ failure r e ∷ [] | none ↦ [] ];
        delivered_count = 0;
      }

  unfoldable pub attempt_one : List EmailProvider → Text → Pass
  attempt_one ps r = elim (s.interrupted r) [
    | some e ↦ record { events = []; failures = failure r e ∷ []; delivered_count = 0 }
    | none ↦ outcome_of r (try_providers r none ps)
  ]

  unfoldable pub join : Pass → Pass → Pass
  join p q = record {
    events = p.events ++ q.events;
    failures = p.failures ++ q.failures;
    delivered_count = p.delivered_count + q.delivered_count;
  }

  -- The loop over the recipients, but those to be skipped.
  unfoldable pub attempt_each : List EmailProvider → (Text → Bool) → List Text → Pass
  attempt_each ps skip [] = record { events = []; failures = []; delivered_count = 0 }
  attempt_each ps skip (r ∷ rs) =
      let after = attempt_each ps skip rs in if skip r then after else join (attempt_one ps r) after

  -- The records of `dropSuppressedAtDelivery`. Go walks a map of the recipients, in any order; here
  -- it is theirs.
  unfoldable pub drop_each : (Text → Option Text) → List Text → List Event
  drop_each reason_for [] = []
  drop_each reason_for (r ∷ rs) =
      let rest = drop_each reason_for rs in
      elim (reason_for r) [ some reason ↦ event "" dropped r reason ∷ rest | none ↦ rest ]

-- A recipient suppressed since admission: not finished with, and listed under its key.
unfoldable pub drop_reason :
    Surroundings → (Text → Option Text) → (Text → Bool) → Text → Option Text
drop_reason s reasons finished r =
    if finished r then none else reasons (suppression_key_of s.parse r)
