-- ===== src/Queue/Outcome.antt =====
-- What a failed pass does with the row.
use panmail.Recipients.{unique_recipients}
use panmail.Cache.{TtlCache}
use panmail.Base.Text.{Text}
use panmail.Delivery.Once.{delivered_of}
use panmail.Queue.Handlers.{
  settle_message, count_failure, give_up, defer_until, handle_recipient_failures, settle_retryable,
  count_pass, settle_failures, handle_failure, handle_message_failure, settle_permanents,
  reschedule_paced, classify, unfinished_recipients,
}
use panmail.Base.Int.{ℤ, pos, ◌+ℤ◌}
use panmail.Queue.History.{is_attempt}
use panmail.Bounce.{Classification}
use panmail.Delivery.{
  SendError, Request, RecipientFailures, RecipientFailure, failures_text, retryable_failures,
  permanent_failures, Event,
}
use panmail.Base.{
  if◌then◌else◌, inl, inr, none, refl, some, true, List, Bool, String, ℕ, ◌≡◌, ◌+◌, length, max,
  ◌&&◌, ◌≤◌, arith, ◌⊎◌, ◌==◌, ◌<◌, Option-cases, [], ◌∷◌, Bool-cases, Option, subst, sym,
}
use panmail.Queue.{
  deferred, failed, Collaborators, OutboxEmail, next_retry_delay, Write, update, remove, Note,
  get_retry_pattern,
}

-- An attempt that delivered to no one counts against the schedule.
abbrev pub counts : SendError → Bool
counts err = is_attempt (some err) && delivered_of (some err) == 0

-- The row keeps what it says of the message.
abbrev pub IsSameMessage : OutboxEmail → OutboxEmail → Type 0
IsSameMessage e after =
    (after.id ≡ e.id)
    × (after.tenant_id ≡ e.tenant_id)
    × (after.request ≡ e.request)
    × (after.created_at ≡ e.created_at)

-- The row is put back, within the schedule if the pass was an attempt.
pub record IsDeferred (pattern : List String) (err : SendError) (e after : OutboxEmail)
    : Type 0 where
  pub message : IsSameMessage e after
  pub status : after.status ≡ deferred
  pub counted : after.retry_count ≡ e.retry_count + (if counts err then 1 else 0)
  pub within : is_attempt (some err) ≡ true → max after.retry_count 1 ≤ length pattern

-- The row is given up, after an attempt.
pub record IsGivenUp (err : SendError) (e after : OutboxEmail) : Type 0 where
  pub message : IsSameMessage e after
  pub status : after.status ≡ failed
  pub attempt : is_attempt (some err) ≡ true

abbrev pub Outcome : List String → SendError → OutboxEmail → Write → Type 0
Outcome pattern err e w =
    ((after : OutboxEmail) × ((w ≡ update after) × IsDeferred pattern err e after))
    ⊎ ((after : OutboxEmail) × ((w ≡ update after) × IsGivenUp err e after))
    ⊎ ((w ≡ remove e.id) × (is_attempt (some err) ≡ true) × (0 < delivered_of (some err)))

next_retry_delay-within :
    (c : Collaborators) (class : Classification) (n : ℕ) (pattern : List String) {d : ℤ}
    → next_retry_delay c class n pattern ≡ some d
    → n ≤ length pattern
unfolding next_retry_delay
next_retry_delay-within c class n pattern h = ground arith

count_pass-IsSameMessage : (n : ℕ) (e : OutboxEmail) → IsSameMessage e (count_pass n e)
count_pass-IsSameMessage n e = (ground arith, ground arith, ground arith, ground arith)

count_pass-counts :
    (n : ℕ) (e : OutboxEmail)
    → (count_pass n e).retry_count ≡ e.retry_count + (if n == 0 then 1 else 0)
count_pass-counts n e = ground arith

-- The row as `handleRecipientFailures` notes the failure on it.
abbrev noted : ℕ → Text → OutboxEmail → OutboxEmail
noted now text e = record e { updated_at = now; last_error = text }

module _ (c : Collaborators) (now : ℕ) (req : Request) (err : SendError) where
  settle_message-Outcome :
      (class : Classification) (rs : List Text) (cp : TtlCache (List String) × List String)
      (e : OutboxEmail)
      → err.paced ≡ none
      → err.per_recipient ≡ none
      → Outcome cp.1 err e
          (settle_message c now req class rs cp (count_failure c now req err e)).write
  unfolding settle_message count_failure is_attempt give_up defer_until
  settle_message-Outcome class rs (cache, pattern) e p r =
      elim (Option-cases (next_retry_delay c class (e.retry_count + 1) pattern)) [
        | inl n ↦ inr (
            inl (
              give_up (count_failure c now req err e),
              (
                rw (settle_message, n) refl,
                record { message = (refl, refl, refl, refl); status = refl; attempt = rw p refl },
              ),
            ))
        | inr (d, n) ↦ inl (
          defer_until (pos now +ℤ d) (count_failure c now req err e),
          (
            rw (settle_message, n) refl,
            record {
              message = (refl, refl, refl, refl);
              status = refl;
              counted = rw (p, r) refl;
              within =
                  λ a. omega (arith, next_retry_delay-within c class (e.retry_count + 1) pattern n);
            },
          ),
        )
      ]

  module _ (rf : RecipientFailures) (p : err.paced ≡ none) (r : err.per_recipient ≡ some rf) where
    settle_retryable-Outcome :
        (notes : List Note) (f : RecipientFailure) (fs : List RecipientFailure)
        (cp : TtlCache (List String) × List String) (text : Text) (e : OutboxEmail)
        → Outcome cp.1 err e
            (settle_retryable c now req notes f fs cp
              (count_pass rf.delivered_count (noted now text e))).write
    unfolding settle_retryable is_attempt give_up defer_until
    settle_retryable-Outcome notes f fs (cache, pattern) text e =
        let after = count_pass rf.delivered_count (noted now text e) in
        let same = count_pass-IsSameMessage rf.delivered_count (noted now text e) in
        elim (Option-cases (next_retry_delay c f.class (max after.retry_count 1) pattern)) [
          | inl n ↦ inr (
              inl (
                give_up after,
                (
                  rw (settle_retryable, n) refl,
                  record { message = same; status = refl; attempt = rw p refl },
                ),
              ))
          | inr (d, n) ↦ inl (
            defer_until (pos now +ℤ d) after,
            (
              rw (settle_retryable, n) refl,
              record {
                message = same;
                status = refl;
                counted = rw (p, r) (count_pass-counts rf.delivered_count (noted now text e));
                within = λ a. next_retry_delay-within c f.class (max after.retry_count 1) pattern n;
              },
            ),
          )
        ]

    settle_failures-Outcome :
        (fs : List RecipientFailure) (cache : TtlCache (List String)) (text : Text)
        (e : OutboxEmail)
        → Outcome
            (get_retry_pattern c now e.tenant_id cache).1
            err
            e
            (settle_failures c now req rf fs cache (noted now text e)).write
    unfolding settle_failures is_attempt give_up
    settle_failures-Outcome [] cache text e = elim (Bool-cases (rf.delivered_count == 0)) [
      | inl z ↦ rw z (
          inr (
            inl (
              give_up (noted now text e),
              (
                refl,
                record { message = (refl, refl, refl, refl); status = refl; attempt = rw p refl },
              ),
            )))
      | inr z ↦ rw z (inr (inr (refl, rw p refl, rw r (ground arith))))
    ]
    settle_failures-Outcome (f ∷ fs) cache text e =
        settle_retryable-Outcome
          (settle_permanents c now req (noted now text e) (permanent_failures rf)) f fs
          (get_retry_pattern c now e.tenant_id cache) text e

  abbrev write_of : Option (List Event) → TtlCache (List String) → OutboxEmail → Write
  write_of history cache e = (handle_failure c now req history err cache e).write

  -- A failed pass has one of three outcomes for the row, which stays the same message. It is put
  -- back, with one more attempt counted unless the pass was put off by a ceiling or delivered to
  -- someone, and within the schedule unless it was put off; or it is given up as failed, never for
  -- being put off; or it is removed, only after a pass that delivered to someone.
  pub handle_failure-Outcome :
      (history : Option (List Event)) (cache : TtlCache (List String)) (e : OutboxEmail)
      → Outcome
          (get_retry_pattern c now e.tenant_id cache).1
          err
          e
          (handle_failure c now req history err cache e).write
  unfolding handle_failure handle_message_failure handle_recipient_failures reschedule_paced
      is_attempt
  handle_failure-Outcome history cache e = elim (Option-cases err.paced) [
    | inr (after, p) ↦ inl (
      reschedule_paced now after e,
      (
        rw (handle_failure, p) refl,
        record {
          message = (refl, refl, refl, refl);
          status = refl;
          counted = rw p (omega arith);
          within = λ a. absurd (ground (arith, p));
        },
      ),
    )
    | inl p ↦ elim (Option-cases err.per_recipient) [
      | inl r ↦
          let known : write_of history cache e
              ≡ (handle_message_failure c now req history err cache e).write =
            rw (handle_failure, p, r) refl in
          subst (Outcome (get_retry_pattern c now e.tenant_id cache).1 err e) (sym known) (
            settle_message-Outcome (classify c err)
              (unfinished_recipients history (unique_recipients req.to req.cc req.bcc))
              (get_retry_pattern c now e.tenant_id cache) e p r)
      | inr (rf, r) ↦
          let known : write_of history cache e
              ≡ (handle_recipient_failures c now req rf cache e).write =
            rw (handle_failure, p, r) refl in
          subst (Outcome (get_retry_pattern c now e.tenant_id cache).1 err e) (sym known) (
            settle_failures-Outcome rf p r (retryable_failures rf) cache (failures_text rf.failures)
              e)
    ]
  ]
