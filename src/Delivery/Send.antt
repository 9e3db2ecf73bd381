-- ===== src/Delivery/Send.antt =====
-- `doSend` from its lookups to its answer.
use panmail.Delivery.Providers.{choose_providers, first_sender}
use panmail.Recipients.{unique_recipients}
use panmail.Delivery.Attempts.{Pass, drop_reason, drop_each, attempt_each}
use panmail.Base.Text.{Text, codes}
use panmail.Delivery.{
  SendError, Surroundings, Event, EmailProvider, Request, failed, failures_text, finished_in,
  paced_until, refusal,
}
use panmail.Base.{
  [], false, if◌then◌else◌, inl, inr, none, some, true, ◌∷◌, List, Option, Bool, String, ◌⊎◌, all,
  ◌++◌, ◌||◌, length, filter, not,
}

pub record Sent : Type 0 where
  pub events : List Event
  pub error : Option SendError

abbrev pub stop : SendError → Sent
stop err = record { events = []; error = some err }

abbrev pub is_some {ℓ} : {A : Type ℓ} → Option A → Bool
is_some none = false
is_some (some a) = true

-- The reasons by key, with no lookup where every recipient is finished.
unfoldable pub read_suppressions :
    Surroundings → (Text → Bool) → List Text → Text ⊎ (Text → Option Text)
read_suppressions s finished recipients =
    if all finished recipients then inr (λ k. none) else s.suppressions

unfoldable pub conclude : List Event → Pass → Sent
conclude drops p = elim p.failures [
  | [] ↦ record { events = drops ++ p.events; error = none }
  | f ∷ fs ↦ record {
    events = drops ++ p.events;
    error = some (record {
      message = failures_text p.failures;
      paced = none;
      per_recipient = some (record { failures = p.failures; delivered_count = p.delivered_count });
      permanent = false;
    });
  }
]

module _ (s : Surroundings) (tenant_id message_id : String) where
  -- From the drops on.
  unfoldable pub send_to :
      List EmailProvider → Text → List Event → (Text → Option Text) → List Text → Sent
  send_to ps subject history reasons recipients =
      let reason_for = drop_reason s reasons (finished_in history) in
      let drops = drop_each s tenant_id message_id subject reason_for recipients in
      let skip = λ (r : Text). finished_in history r || is_some (reason_for r) in
      let pending_count = length (filter (λ r. not (skip r)) recipients) in
      elim (s.pace (first_sender ps) pending_count) [
        | some after ↦ record {
          events = drops;
          error = some (paced_until (codes "delivery paced") after);
        }
        | none ↦ conclude drops (attempt_each s tenant_id message_id subject ps skip recipients)
      ]

  unfoldable pub deliver : Request → List EmailProvider → Text → List Event → Sent
  deliver req ps subject history =
      let recipients = unique_recipients req.to req.cc req.bcc in
      elim (read_suppressions s (finished_in history) recipients) [
        | inl e ↦ stop (failed e)
        | inr reasons ↦ send_to ps subject history reasons recipients
      ]

  unfoldable pub read_history : Request → List EmailProvider → Text → Sent
  read_history req ps subject = elim s.history [
    | inl e ↦ stop (failed (codes "failed to read delivery history: " ++ e))
    | inr history ↦ deliver req ps subject history
  ]

  unfoldable pub render : Request → List EmailProvider → Sent
  render req ps = elim s.rendered [
    | inl r ↦ stop (refusal r)
    | inr subject ↦ read_history req ps subject
  ]

  unfoldable pub choose : Request → Text → Sent
  choose req from = elim (choose_providers s from req.provider_id) [
    | inl r ↦ stop (refusal r)
    | inr ps ↦ render req ps
  ]

  unfoldable pub do_send : Request → Sent
  do_send req = elim s.sender [ inl e ↦ stop (failed e) | inr from ↦ choose req from ]

  -- `SendEmail` as the worker calls it.
  unfoldable pub send_email : Request → Sent
  send_email req = elim s.refused_early [ some r ↦ stop (refusal r) | none ↦ do_send req ]
