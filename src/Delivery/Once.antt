-- ===== src/Delivery/Once.antt =====
-- A pass sends to each recipient at most once, and to none that the history is finished with.
use panmail.Recipients.{unique_recipients}
use panmail.Delivery.Providers.{first_sender, choose_providers}
use panmail.Recipients.Distinct.{occurrences, unique_recipients-distinct}
use panmail.Delivery.Counts.{failures_of, attempt_each-counts, attempt_each-delivered}
use panmail.Delivery.Attempts.{drop_each, event, drop_reason, attempt_each}
use panmail.Delivery.Send.{
  Sent, conclude, stop, is_some, send_to, deliver, do_send, read_history, choose, render,
  read_suppressions, send_email,
}
use panmail.Delivery.{
  Surroundings, Event, SendError, finished_in, RecipientFailure, EmailProvider, Request, failed,
  refusal,
}
use panmail.Delivery.Finished.{finishings, finishes, finishings-append}
use panmail.Base.{
  [], false, if◌then◌else◌, inl, inr, none, some, true, ◌∷◌, List, Option, String, ℕ, ◌≡◌, ◌+◌,
  arith, ◌≤◌, ◌<◌, Option-cases, refl, ◌++◌, ◌||◌, length, filter, not, Bool, ◌⊎◌, Sum-cases,
}
use panmail.Base.Text.{Text, holds, eq_of_==, codes}

-- A recipient's failures in an error, and the deliveries that it tells of.
abbrev pub failed_of : Text → Option SendError → ℕ
failed_of q none = 0
failed_of q (some err) = elim err.per_recipient [ none ↦ 0 | some rf ↦ failures_of q rf.failures ]

abbrev pub delivered_of : Option SendError → ℕ
delivered_of none = 0
delivered_of (some err) = elim err.per_recipient [ none ↦ 0 | some rf ↦ rf.delivered_count ]

-- What a pass does to a history and a list of recipients.
pub record IsSound (history : List Event) (rs : List Text) (t : Sent) : Type 0 where
  pub once :
      (q : Text)
      → finishings q t.events + failed_of q t.error ≤ (if finished_in history q then 0 else 1)
  pub progress :
      0 < delivered_of t.error
      → (q : Text) × ((holds rs q ≡ true)
          × (finished_in history q ≡ false)
          × (0 < finishings q t.events))

stop-IsSound :
    (history : List Event) (rs : List Text) (err : SendError)
    → err.per_recipient ≡ none
    → IsSound history rs (stop err)
unfolding finishings
stop-IsSound history rs err h = record {
  once = λ q. rw h (ground arith);
  progress = λ d. absurd (ground arith);
}

module _ (s : Surroundings) (tenant_id message_id : String) where
  drop_each-counts :
      (subject : Text) (reason_for : Text → Option Text) (rs : List Text) (q : Text)
      → finishings q (drop_each s tenant_id message_id subject reason_for rs)
        ≤ (if is_some (reason_for q) then occurrences q rs else 0)
  unfolding drop_each finishings occurrences event finishes
  drop_each-counts subject reason_for [] q = ground arith
  drop_each-counts subject reason_for (r ∷ rs) q = elim (Option-cases (reason_for r)) [
    | inl e ↦
        rw (drop_each, e) (ground (arith, drop_each-counts subject reason_for rs q, eq_of_== r q))
    | inr (d, e) ↦
        rw (drop_each, e) (ground (arith, drop_each-counts subject reason_for rs q, eq_of_== r q))
  ]

  -- What `conclude` makes of a loop's outcome.
  conclude-events :
      (drops es : List Event) (fs : List RecipientFailure) (n : ℕ)
      → (conclude drops (record { events = es; failures = fs; delivered_count = n })).events
        ≡ drops ++ es
  unfolding conclude
  conclude-events drops es [] n = refl
  conclude-events drops es (f ∷ fs) n = refl

  conclude-failed_of :
      (drops es : List Event) (fs : List RecipientFailure) (n : ℕ) (q : Text)
      → failed_of q
          (conclude drops (record { events = es; failures = fs; delivered_count = n })).error
        ≡ failures_of q fs
  unfolding conclude failures_of
  conclude-failed_of drops es [] n q = refl
  conclude-failed_of drops es (f ∷ fs) n q = refl

  conclude-delivered_of :
      (drops es : List Event) (fs : List RecipientFailure) (n : ℕ)
      → delivered_of
          (conclude drops (record { events = es; failures = fs; delivered_count = n })).error
        ≤ n
  unfolding conclude
  conclude-delivered_of drops es [] n = omega arith
  conclude-delivered_of drops es (f ∷ fs) n = omega arith

  drop_reason-finished :
      (reasons : Text → Option Text) (finished : Text → Bool) (q : Text)
      → finished q ≡ true
      → is_some (drop_reason s reasons finished q) ≡ false
  unfolding drop_reason
  drop_reason-finished reasons finished q h = rw h refl

  send_to-IsSound :
      (ps : List EmailProvider) (subject : Text) (history : List Event)
      (reasons : Text → Option Text) (rs : List Text)
      → ((q : Text) → occurrences q rs ≤ 1)
      → IsSound history rs (send_to s tenant_id message_id ps subject history reasons rs)
  unfolding send_to
  send_to-IsSound ps subject history reasons rs distinct =
      let reason_for = drop_reason s reasons (finished_in history) in
      let drops = drop_each s tenant_id message_id subject reason_for rs in
      let skip = λ (r : Text). finished_in history r || is_some (reason_for r) in
      let p = attempt_each s tenant_id message_id subject ps skip rs in
      elim (Option-cases (s.pace (first_sender ps) (length (filter (λ r. not (skip r)) rs)))) [
        | inl e ↦
            rw (send_to, e)
              record {
                once = λ q. ground (
                  arith,
                  conclude-events drops p.events p.failures p.delivered_count,
                  conclude-failed_of drops p.events p.failures p.delivered_count q,
                  finishings-append q drops p.events,
                  drop_each-counts subject reason_for rs q,
                  drop_reason-finished reasons (finished_in history) q,
                  attempt_each-counts s tenant_id message_id subject ps skip rs q,
                  distinct q,
                );
                progress = λ d.
                    let few = conclude-delivered_of drops p.events p.failures p.delivered_count in
                    let (q, (m, k, f)) =
                      attempt_each-delivered s tenant_id message_id subject ps skip rs
                        (omega (arith, d, few)) in
                    (
                      q,
                      (
                        m,
                        ground arith,
                        ground (
                          arith,
                          conclude-events drops p.events p.failures p.delivered_count,
                          finishings-append q drops p.events,
                        ),
                      ),
                    );
              }
        | inr (after, e) ↦
            rw (send_to, e)
              record {
                once = λ q. ground (
                  arith,
                  drop_each-counts subject reason_for rs q,
                  drop_reason-finished reasons (finished_in history) q,
                  distinct q,
                );
                progress = λ d. absurd (omega arith);
              }
      ]

  -- The chain of lookups of `doSend`: each either stops the pass or leads on.
  deliver-IsSound :
      (req : Request) (ps : List EmailProvider) (subject : Text) (history : List Event)
      → IsSound history
          (unique_recipients req.to req.cc req.bcc)
          (deliver s tenant_id message_id req ps subject history)
  unfolding deliver
  deliver-IsSound req ps subject history =
      let rs = unique_recipients req.to req.cc req.bcc in
      elim (Sum-cases (read_suppressions s (finished_in history) rs)) [
        | inl (e, q) ↦ rw (deliver, q) (stop-IsSound history rs (failed e) refl)
        | inr (reasons, q) ↦
            rw (deliver, q)
              (send_to-IsSound ps subject history reasons rs
                (unique_recipients-distinct req.to req.cc req.bcc))
      ]

-- The history that a pass reads: the message's own, or none where it cannot be read.
abbrev pub Reads : Surroundings → List Event → Type 0
Reads s history = (s.history ≡ inr history) ⊎ ((e : Text) × (s.history ≡ inl e))

module _ (s : Surroundings) (tenant_id message_id : String) where
  read_history-IsSound :
      (req : Request) (ps : List EmailProvider) (subject : Text) (history : List Event)
      → Reads s history
      → IsSound history
          (unique_recipients req.to req.cc req.bcc)
          (read_history s tenant_id message_id req ps subject)
  unfolding read_history
  read_history-IsSound req ps subject history (inl h) =
      rw (read_history, h) (deliver-IsSound s tenant_id message_id req ps subject history)
  read_history-IsSound req ps subject history (inr (e, h)) =
      rw (read_history, h)
        (stop-IsSound history (unique_recipients req.to req.cc req.bcc)
          (failed (codes "failed to read delivery history: " ++ e)) refl)

  do_send-IsSound :
      (req : Request) (history : List Event)
      → Reads s history
      → IsSound history
          (unique_recipients req.to req.cc req.bcc)
          (do_send s tenant_id message_id req)
  unfolding do_send choose render
  do_send-IsSound req history reads =
      let rs = unique_recipients req.to req.cc req.bcc in
      elim (Sum-cases s.sender) [
        | inl (e, q) ↦ rw (do_send, q) (stop-IsSound history rs (failed e) refl)
        | inr (from, q) ↦ elim (Sum-cases (choose_providers s from req.provider_id)) [
          | inl (r, c) ↦ rw (do_send, q, choose, c) (stop-IsSound history rs (refusal r) refl)
          | inr (ps, c) ↦ elim (Sum-cases s.rendered) [
            | inl (r, t) ↦
                rw (do_send, q, choose, c, render, t) (stop-IsSound history rs (refusal r) refl)
            | inr (subject, t) ↦
                rw (do_send, q, choose, c, render, t)
                  (read_history-IsSound req ps subject history reads)
          ]
        ]
      ]

  pub send_email-IsSound :
      (req : Request) (history : List Event)
      → Reads s history
      → IsSound history
          (unique_recipients req.to req.cc req.bcc)
          (send_email s tenant_id message_id req)
  unfolding send_email
  send_email-IsSound req history reads = elim (Option-cases s.refused_early) [
    | inl e ↦ rw (send_email, e) (do_send-IsSound req history reads)
    | inr (r, e) ↦
        rw (send_email, e)
          (stop-IsSound history (unique_recipients req.to req.cc req.bcc) (refusal r) refl)
  ]
