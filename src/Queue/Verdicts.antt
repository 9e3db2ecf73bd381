-- ===== src/Queue/Verdicts.antt =====
-- Whom the verdicts of a failed pass are recorded for.
use panmail.Delivery.Send.{is_some}
use panmail.Delivery.Once.{failed_of}
use panmail.Recipients.{unique_recipients}
use panmail.Cache.{TtlCache}
use panmail.Bounce.{Classification, EventType}
use panmail.Queue.Handlers.{
  record_for_each, record_recipient_failure, settle_message, settle_permanents, suppress,
  verdict_notes, note_event, settle_permanent, is_unsubscribed, give_up, handle_failure,
  settle_failures, settle_retryable, handle_recipient_failures, handle_message_failure,
  unfinished_recipients, classify, count_failure, count_pass,
}
use panmail.Delivery.Finished.{finishings, finishings-append}
use panmail.Delivery.{
  RecipientFailure, Request, RecipientFailures, permanent_failures, Event, SendError, finished_in,
  retryable_failures, failures_text,
}
use panmail.Delivery.Counts.{failures_of}
use panmail.Recipients.Distinct.{occurrences, unique_recipients-distinct}
use panmail.Queue.{
  Collaborators, Note, OutboxEmail, recorded, suppressed, next_retry_delay, get_retry_pattern,
}
use panmail.Queue.Worker.{recorded_events}
use panmail.Base.{
  [], if◌then◌else◌, inl, inr, refl, ◌∷◌, filter, List, ℕ, Bool, ◌++◌, ◌+◌, ◌≤◌, arith, not, ◌≡◌,
  map, Bool-cases, String, ap, Option-cases, none, some, max, ◌||◌,
}
use panmail.Bounce.{deferred as deferred_event}
use panmail.Base.Text.{Text, eq_of_==}

pub recorded_events-append :
    (xs ys : List Note) → recorded_events (xs ++ ys) ≡ recorded_events xs ++ recorded_events ys
unfolding recorded_events
recorded_events-append [] ys = refl
recorded_events-append (recorded e ∷ xs) ys = ap (λ t. e ∷ t) (recorded_events-append xs ys)
recorded_events-append (suppressed t r ty err ∷ xs) ys = recorded_events-append xs ys

-- How many notes are verdicts on a recipient.
abbrev pub verdicts : Text → List Note → ℕ
verdicts q notes = finishings q (recorded_events notes)

verdicts-append :
    (q : Text) (xs ys : List Note) → verdicts q (xs ++ ys) ≡ verdicts q xs + verdicts q ys
verdicts-append q xs ys =
    rw (recorded_events-append xs ys)
      (finishings-append q (recorded_events xs) (recorded_events ys))

occurrences-filter :
    (p : Text → Bool) (rs : List Text) (q : Text)
    → occurrences q (filter p rs) ≤ (if p q then occurrences q rs else 0)
unfolding filter occurrences
occurrences-filter p [] q = ground arith
occurrences-filter p (r ∷ rs) q = ground (arith, occurrences-filter p rs q, eq_of_== r q)

failures_of-filter :
    (p : RecipientFailure → Bool) (fs : List RecipientFailure) (q : Text)
    → failures_of q (filter p fs) + failures_of q (filter (λ f. not (p f)) fs) ≡ failures_of q fs
unfolding filter failures_of
failures_of-filter p [] q = omega arith
failures_of-filter p (f ∷ fs) q = ground (arith, failures_of-filter p fs q)

module _ (c : Collaborators) (now : ℕ) (req : Request) (q : Text) where
  record_for_each-verdicts :
      (e : OutboxEmail) (rs : List Text) (ty : EventType)
      → verdicts q (record_for_each c now req e rs ty) ≤ occurrences q rs
  unfolding record_for_each note_event recorded_events finishings occurrences
  record_for_each-verdicts e [] ty = ground arith
  record_for_each-verdicts e (r ∷ rs) ty = ground (arith, record_for_each-verdicts e rs ty)

  suppress-verdicts :
      (e : OutboxEmail) (rs : List Text) (ty : EventType)
      → verdicts q (suppress c now req e rs ty) ≡ 0
  unfolding suppress recorded_events finishings
  suppress-verdicts e [] ty = refl
  suppress-verdicts e (r ∷ rs) ty = suppress-verdicts e rs ty

  verdict_notes-verdicts :
      (e : OutboxEmail) (rs : List Text) (ty : EventType)
      → verdicts q (verdict_notes c now req e rs ty) ≤ occurrences q rs
  unfolding verdict_notes recorded_events finishings
  verdict_notes-verdicts e rs ty =
      let known = record_for_each c now req e rs ty in
      elim (Bool-cases (is_unsubscribed ty)) [
        | inl u ↦ rw u (
            ground (
              arith,
              verdicts-append q known (suppress c now req e rs ty),
              record_for_each-verdicts e rs ty,
              suppress-verdicts e rs ty,
            ))
        | inr u ↦
            rw u (ground (arith, verdicts-append q known [], record_for_each-verdicts e rs ty))
      ]

  settle_message-verdicts :
      (class : Classification) (rs : List Text) (cp : TtlCache (List String) × List String)
      (e : OutboxEmail)
      → verdicts q (settle_message c now req class rs cp e).notes ≤ occurrences q rs
  unfolding settle_message
  settle_message-verdicts class rs (cache, pattern) e =
      elim (Option-cases (next_retry_delay c class e.retry_count pattern)) [
        | inl n ↦ rw (settle_message, n) (verdict_notes-verdicts (give_up e) rs class.event_type)
        | inr (d, n) ↦ rw (settle_message, n) (record_for_each-verdicts e rs deferred_event)
      ]

  settle_permanents-verdicts :
      (e : OutboxEmail) (fs : List RecipientFailure)
      → verdicts q (settle_permanents c now req e fs) ≤ failures_of q fs
  unfolding settle_permanents settle_permanent record_recipient_failure note_event recorded_events
      finishings failures_of
  settle_permanents-verdicts e [] = ground arith
  settle_permanents-verdicts e (f ∷ fs) = elim (Bool-cases (is_unsubscribed f.class.event_type)) [
    | inl u ↦ rw u (ground (arith, settle_permanents-verdicts e fs))
    | inr u ↦ rw u (ground (arith, settle_permanents-verdicts e fs))
  ]

  exhausted-verdicts :
      (e : OutboxEmail) (fs : List RecipientFailure)
      → verdicts q (map (record_recipient_failure c now req e) fs) ≤ failures_of q fs
  unfolding record_recipient_failure note_event recorded_events finishings failures_of
  exhausted-verdicts e [] = ground arith
  exhausted-verdicts e (f ∷ fs) = ground (arith, exhausted-verdicts e fs)

  settle_retryable-verdicts :
      (notes : List Note) (f : RecipientFailure) (fs : List RecipientFailure)
      (cp : TtlCache (List String) × List String) (e : OutboxEmail)
      → verdicts q (settle_retryable c now req notes f fs cp e).notes
        ≤ verdicts q notes + failures_of q (f ∷ fs)
  unfolding settle_retryable
  settle_retryable-verdicts notes f fs (cache, pattern) e =
      elim (Option-cases (next_retry_delay c f.class (max e.retry_count 1) pattern)) [
        | inl n ↦
            rw (settle_retryable, n)
              (ground (
                arith,
                verdicts-append q notes (map (record_recipient_failure c now req e) (f ∷ fs)),
                exhausted-verdicts e (f ∷ fs),
              ))
        | inr (d, n) ↦ rw (settle_retryable, n) (omega arith)
      ]

  settle_failures-verdicts :
      (rf : RecipientFailures) (fs : List RecipientFailure) (cache : TtlCache (List String))
      (e : OutboxEmail)
      → verdicts q (settle_failures c now req rf fs cache e).notes
        ≤ failures_of q (permanent_failures rf) + failures_of q fs
  unfolding settle_failures
  settle_failures-verdicts rf [] cache e =
      ground (arith, settle_permanents-verdicts e (permanent_failures rf))
  settle_failures-verdicts rf (f ∷ fs) cache e = omega (
    arith,
    settle_permanents-verdicts e (permanent_failures rf),
    settle_retryable-verdicts (settle_permanents c now req e (permanent_failures rf)) f fs
        (get_retry_pattern c now e.tenant_id cache) (count_pass rf.delivered_count e),
  )

  handle_recipient_failures-verdicts :
      (rf : RecipientFailures) (cache : TtlCache (List String)) (e : OutboxEmail)
      → verdicts q (handle_recipient_failures c now req rf cache e).notes
        ≤ failures_of q rf.failures
  unfolding handle_recipient_failures retryable_failures permanent_failures
  handle_recipient_failures-verdicts rf cache e = omega (
    arith,
    settle_failures-verdicts rf (retryable_failures rf) cache
        (record e { updated_at = now; last_error = failures_text rf.failures }),
    failures_of-filter (λ f. f.class.retryable) rf.failures q,
  )

  handle_message_failure-verdicts :
      (history : List Event) (err : SendError) (cache : TtlCache (List String)) (e : OutboxEmail)
      → verdicts q (handle_message_failure c now req (some history) err cache e).notes
        ≤ (if finished_in history q then 0 else 1)
  unfolding handle_message_failure unfinished_recipients
  handle_message_failure-verdicts history err cache e =
      let all_of = unique_recipients req.to req.cc req.bcc in
      let open_to = λ (r : Text). not (finished_in history r) in
      ground (
        arith,
        settle_message-verdicts (classify c err) (filter open_to all_of)
            (get_retry_pattern c now e.tenant_id cache) (count_failure c now req err e),
        occurrences-filter open_to all_of q,
        unique_recipients-distinct req.to req.cc req.bcc q,
      )

  -- Where the history is not read, every recipient may be given one verdict more.
  pub handle_failure-unread :
      (err : SendError) (cache : TtlCache (List String)) (e : OutboxEmail)
      → verdicts q (handle_failure c now req none err cache e).notes ≤ failed_of q (some err) + 1
  unfolding handle_failure handle_message_failure unfinished_recipients recorded_events finishings
  handle_failure-unread err cache e = elim (Option-cases err.paced) [
    | inr (after, p) ↦ rw (handle_failure, p) (omega arith)
    | inl p ↦ elim (Option-cases err.per_recipient) [
      | inl r ↦
          rw (handle_failure, p, r)
            (omega (
              arith,
              settle_message-verdicts (classify c err) (unique_recipients req.to req.cc req.bcc)
                  (get_retry_pattern c now e.tenant_id cache) (count_failure c now req err e),
              unique_recipients-distinct req.to req.cc req.bcc q,
            ))
      | inr (rf, r) ↦
          rw (handle_failure, p, r) (omega (arith, handle_recipient_failures-verdicts rf cache e))
    ]
  ]

  -- A failed pass finishes with a recipient at most as often as it failed for them; a failure of
  -- the whole message only with those that the history, once read, is not finished with.
  pub handle_failure-verdicts :
      (history : List Event) (err : SendError) (cache : TtlCache (List String)) (e : OutboxEmail)
      → verdicts q (handle_failure c now req (some history) err cache e).notes
        ≤ failed_of q (some err)
          + (if is_some err.per_recipient || finished_in history q then 0 else 1)
  unfolding handle_failure recorded_events finishings
  handle_failure-verdicts history err cache e = elim (Option-cases err.paced) [
    | inr (after, p) ↦ rw (handle_failure, p) (omega arith)
    | inl p ↦ elim (Option-cases err.per_recipient) [
      | inl r ↦
          rw (handle_failure, p, r)
            (ground (arith, handle_message_failure-verdicts history err cache e))
      | inr (rf, r) ↦
          rw (handle_failure, p, r) (omega (arith, handle_recipient_failures-verdicts rf cache e))
    ]
  ]
