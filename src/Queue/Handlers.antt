-- ===== src/Queue/Handlers.antt =====
-- handleFailure, handleRecipientFailures and reschedulePaced: what becomes of a message whose pass
-- failed.
use panmail.Recipients.{unique_recipients}
use panmail.Cache.{TtlCache}
use panmail.Base.Text.{Text}
use panmail.Bounce.{Classification, EventType, classify_error, rejected, unsubscribed}
use panmail.Delivery.{
  Request, SendError, Event, RecipientFailure, RecipientFailures, finished_in, permanent_failures,
  retryable_failures, failures_text,
}
use panmail.Base.Int.{ℤ, pos, ◌+ℤ◌}
use panmail.Queue.{
  Collaborators, OutboxEmail, deferred, failed, Note, recorded, suppressed, Settled,
  next_retry_delay, update, get_retry_pattern, remove,
}
use panmail.Base.{
  [], false, if◌then◌else◌, none, some, true, ◌∷◌, Option, ℕ, List, ◌+◌, ◌==◌, Bool, filter, map,
  ◌++◌, String, not, max,
}
use panmail.Bounce.{deferred as deferred_event}

-- Only recipients that the message is not finished with, or all where the history was not read.
unfoldable pub unfinished_recipients : Option (List Event) → List Text → List Text
unfinished_recipients none recipients = recipients
unfinished_recipients (some history) recipients =
    filter (λ r. not (finished_in history r)) recipients

unfoldable pub reschedule_paced : ℕ → ℕ → OutboxEmail → OutboxEmail
reschedule_paced now after e = record e {
  status = deferred;
  next_retry_at = pos (now + after);
  updated_at = now;
}

-- The verdict on an error, which a permanent refusal overrides.
unfoldable pub classify : Collaborators → SendError → Classification
classify c err =
    let class = classify_error c.patterns err.message in
    if err.permanent
    then record { event_type = rejected; recipient_at_fault = false; retryable = false }
    else class

-- A row put back for another attempt, and one given up.
unfoldable pub defer_until : ℤ → OutboxEmail → OutboxEmail
defer_until at e = record e { status = deferred; next_retry_at = at }

unfoldable pub give_up : OutboxEmail → OutboxEmail
give_up e = record e { status = failed }

abbrev pub is_unsubscribed : EventType → Bool
is_unsubscribed unsubscribed = true
is_unsubscribed _ = false

abbrev pub count_pass : ℕ → OutboxEmail → OutboxEmail
count_pass delivered_count e =
    if delivered_count == 0 then record e { retry_count = e.retry_count + 1 } else e

module _ (c : Collaborators) (now : ℕ) (req : Request) where
  unfoldable pub note_event : OutboxEmail → EventType → Text → Text → Note
  note_event e event_type recipient error = recorded (record {
    tenant_id = e.tenant_id;
    provider_id = req.provider_id;
    message_id = e.id;
    event_type = event_type;
    recipient = recipient;
    subject = req.subject;
    error = error;
  })

  unfoldable pub record_for_each : OutboxEmail → List Text → EventType → List Note
  record_for_each e recipients event_type =
      map (λ r. note_event e event_type r e.last_error) recipients

  unfoldable pub suppress : OutboxEmail → List Text → EventType → List Note
  suppress e recipients event_type =
      map (λ r. suppressed e.tenant_id r event_type e.last_error) recipients

  -- The final verdict of a message-level failure.
  unfoldable pub verdict_notes : OutboxEmail → List Text → EventType → List Note
  verdict_notes e recipients event_type =
      record_for_each e recipients event_type
      ++ (if is_unsubscribed event_type then suppress e recipients event_type else [])

  unfoldable pub settle_message :
      Classification → List Text → TtlCache (List String) × List String → OutboxEmail → Settled
  settle_message class recipients (cache, pattern) e =
      elim (next_retry_delay c class e.retry_count pattern) [
        | some delay ↦ record {
          patterns = cache;
          notes = record_for_each e recipients deferred_event;
          write = update (defer_until (pos now +ℤ delay) e);
        }
        | none ↦ record {
          patterns = cache;
          notes = verdict_notes (give_up e) recipients class.event_type;
          write = update (give_up e);
        }
      ]

  unfoldable pub count_failure : SendError → OutboxEmail → OutboxEmail
  count_failure err e = record e {
    retry_count = e.retry_count + 1;
    updated_at = now;
    last_error = err.message;
  }

  -- `handleFailure` past its two early returns.
  unfoldable pub handle_message_failure :
      Option (List Event) → SendError → TtlCache (List String) → OutboxEmail → Settled
  handle_message_failure history err cache e =
      settle_message (classify c err)
        (unfinished_recipients history (unique_recipients req.to req.cc req.bcc))
        (get_retry_pattern c now e.tenant_id cache) (count_failure err e)

  unfoldable pub record_recipient_failure : OutboxEmail → RecipientFailure → Note
  record_recipient_failure e f = note_event e f.class.event_type f.recipient f.error

  -- One round of the loop over the permanent failures.
  unfoldable pub settle_permanent : OutboxEmail → RecipientFailure → List Note
  settle_permanent e f =
      record_recipient_failure e f
      ∷ (if is_unsubscribed f.class.event_type
          then suppressed e.tenant_id f.recipient f.class.event_type f.error ∷ []
          else [])

  unfoldable pub settle_permanents : OutboxEmail → List RecipientFailure → List Note
  settle_permanents e [] = []
  settle_permanents e (f ∷ fs) = settle_permanent e f ++ settle_permanents e fs

  -- Some recipients are worth another attempt, the first of them `f`.
  unfoldable pub settle_retryable :
      List Note
      → RecipientFailure
      → List RecipientFailure
      → TtlCache (List String) × List String
      → OutboxEmail
      → Settled
  settle_retryable notes f fs (cache, pattern) e =
      elim (next_retry_delay c f.class (max e.retry_count 1) pattern) [
        | some delay ↦ record {
          patterns = cache;
          notes = notes;
          write = update (defer_until (pos now +ℤ delay) e);
        }
        | none ↦ record {
          patterns = cache;
          notes = notes ++ map (record_recipient_failure e) (f ∷ fs);
          write = update (give_up e);
        }
      ]

  unfoldable pub settle_failures :
      RecipientFailures → List RecipientFailure → TtlCache (List String) → OutboxEmail → Settled
  settle_failures rf [] cache e = record {
    patterns = cache;
    notes = settle_permanents e (permanent_failures rf);
    write = if rf.delivered_count == 0 then update (give_up e) else remove e.id;
  }
  settle_failures rf (f ∷ fs) cache e =
      settle_retryable (settle_permanents e (permanent_failures rf)) f fs
        (get_retry_pattern c now e.tenant_id cache) (count_pass rf.delivered_count e)

  unfoldable pub handle_recipient_failures :
      RecipientFailures → TtlCache (List String) → OutboxEmail → Settled
  handle_recipient_failures rf cache e =
      settle_failures rf (retryable_failures rf) cache
        (record e { updated_at = now; last_error = failures_text rf.failures })

  unfoldable pub handle_failure :
      Option (List Event) → SendError → TtlCache (List String) → OutboxEmail → Settled
  handle_failure history err cache e = elim err.paced [
    | some after ↦ record {
      patterns = cache;
      notes = [];
      write = update (reschedule_paced now after e);
    }
    | none ↦ elim err.per_recipient [
      | some rf ↦ handle_recipient_failures rf cache e
      | none ↦ handle_message_failure history err cache e
    ]
  ]
