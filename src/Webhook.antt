-- ===== src/Webhook.antt =====
-- internal/webhook/worker/delivery.go and durable_worker.go, with the delivery of
-- internal/webhook/repositories/entities: how the webhook worker delivers a batch of notifications.
--
-- Instants and durations are in seconds. What the worker asks of others is an argument: the
-- subscription as it was read, the answer to a POST, the clock, and whether the worker has been
-- asked to stop. Saves are recorded in the order in which they are made.
pub mod Batch
pub mod Retries
mod Examples
use panmail.Base.{
  [], false, if◌then◌else◌, none, some, true, ◌∷◌, List, String, ℕ, ◌==◌, Bool, Option, map, ◌+◌,
  leb, ltb, ◌||◌, length, ◌&&◌, get_elem?, ◌-◌,
}

pub data Status : Type 0 where
  pending deferred delivered failed sending : Status

-- `LastError`, with the texts that the worker formats as constructors.
pub data Reason : Type 0 where
  no_reason subscription_gone subscription_disabled : Reason
  subscription_unreadable : String → Reason
  transport : String → Reason
  returned : ℕ → Reason

pub record Delivery : Type 0 where
  pub id : String
  pub tenant_id : String
  pub webhook_id : String
  pub event : String
  pub payload : String
  pub status : Status
  pub attempt_count : ℕ
  pub claim_token : String
  pub next_attempt_at : ℕ
  pub last_error : Reason

abbrev pub retry_schedule : List ℕ
retry_schedule = 10 ∷ 30 ∷ 120 ∷ 600 ∷ 1800 ∷ 7200 ∷ 21600 ∷ []

-- `nextAttempt`; `none` is "not at all".
unfoldable pub next_attempt : ℕ → Option ℕ
next_attempt attempt =
    if ltb attempt 1 || ltb (length retry_schedule) attempt
    then none
    else get_elem? retry_schedule (attempt - 1)

unfoldable pub retryable : ℕ → Bool
retryable status = if status == 408 || status == 429 then true else leb 500 status

-- What `GetSubscription` answers.
pub data Lookup : Type 0 where
  gone : Lookup
  unreadable : String → Lookup
  subscription : Bool → Lookup

-- What `post` answers.
pub data Posted : Type 0 where
  disallowed : String → Posted
  unanswered : String → Posted
  answered : ℕ → Posted

unfoldable pub finish : Status → Reason → Delivery → Delivery
finish status reason d = record d { status = status; last_error = reason }

unfoldable pub reschedule : ℕ → Reason → Delivery → Delivery
reschedule now reason d = elim (next_attempt d.attempt_count) [
  | none ↦ finish failed reason d
  | some delay ↦ record d { status = deferred; next_attempt_at = now + delay; last_error = reason }
]

abbrev pub is_success : ℕ → Bool
is_success status = leb 200 status && ltb status 300

-- The second `switch` of `attempt`: the row saved, and whether the endpoint was unreachable.
unfoldable pub settle_answer : ℕ → ℕ → Delivery → Delivery × Bool
settle_answer now status d =
    if is_success status
    then (finish delivered no_reason d, false)
    else if retryable status
    then (reschedule now (returned status) d, false)
    else (finish failed (returned status) d, false)

unfoldable pub settle_post : ℕ → Posted → Delivery → Delivery × Bool
settle_post now (disallowed reason) d = (finish failed (transport reason) d, false)
settle_post now (unanswered reason) d = (reschedule now (transport reason) d, true)
settle_post now (answered status) d = settle_answer now status d

-- The first `switch` of `attempt`, on a row already counted.
unfoldable pub settle : ℕ → Lookup → Posted → Delivery → Delivery × Bool
settle now gone posted d = (finish failed subscription_gone d, false)
settle now (unreadable reason) posted d = (reschedule now (subscription_unreadable reason) d, false)
settle now (subscription false) posted d = (finish failed subscription_disabled d, false)
settle now (subscription true) posted d = settle_post now posted d

-- What an attempt makes of a row, to be saved if its claim still holds.
unfoldable pub attempt : ℕ → Lookup → Posted → Delivery → Delivery × Bool
attempt now found posted d =
    settle now found posted (record d { attempt_count = d.attempt_count + 1 })

-- `release` of one row.
unfoldable pub release_one : Delivery → Delivery
release_one d = record d { status = if d.attempt_count == 0 then pending else deferred }

unfoldable pub release : List Delivery → List Delivery
release rest = map release_one rest
