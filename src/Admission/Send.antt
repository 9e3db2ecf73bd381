-- ===== src/Admission/Send.antt =====
-- SendEmail as a client calls it, from the replay of its key to the answer.
use panmail.Admission.Checks.{check_request}
use panmail.Admission.Content.{render_template, screen, screened_message}
use panmail.Admission.Rate.{check_send_rate, recipient_count}
use panmail.Admission.{
  Gateway, Provider, Refusal, Rendered, Response, SendEmailRequest, World, accepted, key_conflict,
  key_in_flight, key_unreadable, no_sender, not_enqueued, not_hashed, not_marshalled, not_rendered,
  refused, refused_by_rule, replayed, rules_unreadable, sender_refused, suppressed_recipient,
  suppressions_unreadable,
}
use panmail.Base.Int.{pos}
use panmail.Base.Text.{Text, codes}
use panmail.Base.{
  Bool, List, Option, String, [], false, true, if◌then◌else◌, inl, inr, map, none, some, ℕ, ◌+◌,
  ◌++◌, ◌∷◌, ◌&&◌,
}
use panmail.Bounce.{EventType, dropped, pending, rejected}
use panmail.Delivery.{Event}
use panmail.EmailFilter.Rule.{Action, Decision, Rule, hold, reject, tag}
use panmail.Idempotency.{
  Answer, Store, conflict, enqueue, in_flight, not_used, queued_as, replay, unreadable,
}
use panmail.Idempotency
use panmail.Outbox.{create}
use panmail.Queue.{OutboxEmail, OutboxStatus}
use panmail.Queue
use panmail.Recipients.{ResolvedRecipients}
use panmail.Senders.{address, allowed, match_address}
use text.Mathlib.Text.{◌==◌}

-- The first suppressed recipient, with the reason. The two lists go in step.
unfoldable pub first_suppressed :
    (Text → Option Text) → List Text → List Text → Option (Text × Text)
first_suppressed reasons [] keys = none
first_suppressed reasons (a ∷ addresses) [] = none
first_suppressed reasons (a ∷ addresses) (k ∷ keys) =
    let rest = first_suppressed reasons addresses keys in
    elim (reasons k) [ some reason ↦ some (a, reason) | none ↦ rest ]

-- What a row for the key says, which is one that this request did not write.
unfoldable pub answer : Answer → Response
answer not_used = refused key_in_flight
answer (Idempotency.replayed id) = replayed id
answer (conflict id) = refused key_conflict
answer in_flight = refused key_in_flight
answer (queued_as id) = replayed id
answer unreadable = refused key_unreadable

module _ {Pattern : Type 0} (g : Gateway Pattern) (now : ℕ) (tenant_id : String)
    (r : SendEmailRequest) where
  unfoldable pub event : EventType → String → Text → Text → Event
  event kind provider_id error recipient = record {
    tenant_id = tenant_id;
    provider_id = provider_id;
    message_id = g.new_id;
    event_type = kind;
    recipient = recipient;
    subject = [];
    error = error;
  }

  unfoldable pub record_all : EventType → Text → List Text → World → World
  record_all kind error addresses w = record w {
    events = w.events ++ map (event kind r.provider_id error) addresses;
  }

  unfoldable pub decide : Action → String → World → World
  decide action payload_ref w = record w {
    decisions =
        w.decisions
        ++ record { action = action; message_id = g.new_id; payload_ref = payload_ref } ∷ [];
  }

  unfoldable pub queued_email : OutboxStatus → Text → OutboxEmail
  queued_email status bytes = record {
    id = g.new_id;
    tenant_id = tenant_id;
    request = bytes;
    status = status;
    retry_count = 0;
    next_retry_at = pos now;
    last_error = [];
    created_at = now;
    updated_at = now;
    claim_token = "";
  }

  -- `queueSentCopy`, up to its Enqueue.
  unfoldable pub queue_sent_copy : World → World
  queue_sent_copy w = record w {
    sent_copies =
        if g.has_sent_copies && r.save_sent_copy
        then w.sent_copies ++ g.new_id ∷ []
        else w.sent_copies;
  }

  unfoldable pub save_message : World → World
  save_message w = record w { messages = w.messages ++ g.new_id ∷ [] }

  unfoldable pub wake : World → World
  wake w = record w { wakes = if g.has_worker then w.wakes + 1 else w.wakes }

  -- After the message is durably queued; a held one waits for its review.
  unfoldable pub after_enqueue : Bool → ResolvedRecipients → World → World × Response
  after_enqueue is_held rs w =
      let saved = record_all pending [] rs.addresses (save_message (queue_sent_copy w)) in
      (if is_held then decide hold g.new_id saved else wake saved, accepted g.new_id)

  abbrev pub status_of : Bool → OutboxStatus
  status_of is_held = if is_held then Queue.held else Queue.pending

  -- What the write of a key came to: the row is written with it, or neither is.
  unfoldable pub after_key :
      Bool → ResolvedRecipients → Text → World → Store × Answer → World × Response
  after_key is_held rs bytes w (s, queued_as id) =
      after_enqueue is_held rs
        (record w { keys = s.keys; rows = create (queued_email (status_of is_held) bytes) w.rows })
  after_key is_held rs bytes w (s, a) = (record w { keys = s.keys }, answer a)

  -- The write to the outbox, and whether it can be made. The table of keys is Idempotency's, and
  -- so is the race for one.
  unfoldable pub write_outbox :
      Bool → Bool → ResolvedRecipients → String → Text → World → World × Response
  write_outbox false is_held rs hash bytes w = (w, refused not_enqueued)
  write_outbox true is_held rs hash bytes w =
      if r.idempotency_key == ""
      then after_enqueue is_held rs
          (record w { rows = create (queued_email (status_of is_held) bytes) w.rows })
      else after_key is_held rs bytes w (
          enqueue g.keys_readable g.window now tenant_id r.idempotency_key hash g.new_id
            (record { keys = g.others w.keys; queued = [] }))

  unfoldable pub marshal_and_write : Bool → ResolvedRecipients → String → World → World × Response
  marshal_and_write is_held rs hash w = elim (g.marshal r) [
    | none ↦ (w, refused not_marshalled)
    | some bytes ↦ write_outbox g.creates is_held rs hash bytes w
  ]

  abbrev pub name_of : Option (Rule Pattern) → Text
  name_of rule = elim rule [ some found ↦ found.name | none ↦ [] ]

  -- `switch decision.Action`
  unfoldable pub act :
      Decision Pattern → Action → ResolvedRecipients → String → World → World × Response
  act d action rs hash w = elim action [
    | reject ↦ (
      record_all rejected (codes "filter rule: " ++ name_of d.rule) rs.addresses
          (decide reject "" w),
      refused refused_by_rule,
    )
    | hold ↦ marshal_and_write true rs hash w
    | tag ↦ marshal_and_write false rs hash (decide tag "" w)
    | other ↦ marshal_and_write false rs hash w
  ]

  unfoldable pub act_on :
      Decision Pattern → Option Action → ResolvedRecipients → String → World → World × Response
  act_on d none rs hash w = marshal_and_write false rs hash w
  act_on d (some action) rs hash w = act d action rs hash w

  unfoldable pub screen_and_act : ResolvedRecipients → String → Rendered → World → World × Response
  screen_and_act rs hash content w = elim (screen g (screened_message r content)) [
    | none ↦ (w, refused rules_unreadable)
    | some d ↦ act_on d d.action rs hash w
  ]

  unfoldable pub render_and_screen : ResolvedRecipients → String → World → World × Response
  render_and_screen rs hash w = elim (render_template g r) [
    | none ↦ (w, refused not_rendered)
    | some content ↦ screen_and_act rs hash content w
  ]

  unfoldable pub refuse_suppressed : Text → Text → World → World × Response
  refuse_suppressed recipient reason w = (
    record w { events = w.events ++ event dropped "" reason recipient ∷ [] },
    refused (suppressed_recipient recipient reason),
  )

  unfoldable pub check_suppressions : ResolvedRecipients → String → World → World × Response
  check_suppressions rs hash w = elim (g.suppressions rs.normalised) [
    | none ↦ (w, refused suppressions_unreadable)
    | some reasons ↦ elim (first_suppressed reasons rs.addresses rs.normalised) [
      | some (recipient, reason) ↦ refuse_suppressed recipient reason w
      | none ↦ render_and_screen rs hash w
    ]
  ]

  unfoldable pub after_rate :
      ResolvedRecipients → String → World × Option Refusal → World × Response
  after_rate rs hash (w, some fault) = (w, refused fault)
  after_rate rs hash (w, none) = check_suppressions rs hash w

  abbrev pub parse_sender : Text → Option Text
  parse_sender t = elim (g.parse t) [ none ↦ none | some parsed ↦ parsed ]

  unfoldable pub check_sender : ResolvedRecipients → Provider → String → World → World × Response
  check_sender rs p hash w = elim (address parse_sender r.from) [
    | none ↦ (w, refused no_sender)
    | some sender ↦
        if allowed (match_address p.account.allowed_senders sender)
        then after_rate rs hash
            (check_send_rate g now tenant_id p (recipient_count r.to r.cc r.bcc) w)
        else (w, refused sender_refused)
  ]

  unfoldable pub after_replay :
      ResolvedRecipients → Provider → String → World → Answer → World × Response
  after_replay rs p hash w not_used = check_sender rs p hash w
  after_replay rs p hash w a = (w, answer a)

  -- A key is looked up before anything else is decided.
  unfoldable pub admit : ResolvedRecipients → Provider → World → World × Response
  admit rs p w = if r.idempotency_key == "" then check_sender rs p "" w else elim (g.hash r) [
    | none ↦ (w, refused not_hashed)
    | some hash ↦
        after_replay rs p hash w
          (replay g.keys_readable g.window now tenant_id r.idempotency_key hash w.keys)
  ]

  unfoldable pub send_email : World → World × Response
  send_email w = elim (check_request g tenant_id r) [
    | inl fault ↦ (w, refused fault)
    | inr (rs, p) ↦ admit rs p w
  ]
