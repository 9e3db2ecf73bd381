-- ===== src/Queue.antt =====
-- internal/email/usecases/queue_worker.go and repositories/entities/outbox.go: the worker that
-- sends
-- the queued messages and decides about their retries.
--
-- Instants and delays are in nanoseconds. An instant of the clock is a number; the instant of the
-- next retry is an integer, since a configured delay may be negative. A handler reads the clock
-- once. Its events and suppressions are in `notes`, in order, with the one write of the row that
-- follows them beside it. `time.ParseDuration` is an argument.
pub mod Handlers
pub mod Worker
pub mod Verdicts
pub mod Outcome
pub mod History
pub mod Passes
mod Examples
use panmail.Base.Int.{ℤ, pos}
use panmail.Base.Text.{Text}
use panmail.Bounce.{Classification, EventType, Patterns}
use panmail.Cache.{TtlCache, get, put_value}
use panmail.Delivery.{Event}
use panmail.Base.{
  [], if◌then◌else◌, none, some, ◌∷◌, List, String, ℕ, Option, not, ◌*◌, ◌||◌, ltb, length,
  get_elem?, ◌-◌,
}

pub data OutboxStatus : Type 0 where
  pending deferred failed sending held : OutboxStatus

pub record OutboxEmail : Type 0 where
  pub id : String
  pub tenant_id : String
  pub request : Text
  pub status : OutboxStatus
  pub retry_count : ℕ
  pub next_retry_at : ℤ
  pub last_error : Text
  pub created_at : ℕ
  pub updated_at : ℕ
  pub claim_token : String

abbrev pub default_retry_pattern : List String
default_retry_pattern = "5m" ∷ "15m" ∷ "30m" ∷ "1h" ∷ "3h" ∷ "6h" ∷ "12h" ∷ "24h" ∷ []

-- `time.Minute`
unfoldable pub minute : ℕ
minute = 60000000000

unfoldable pub retry_pattern_ttl : ℕ
retry_pattern_ttl = minute

-- What the worker asks of others.
pub record Collaborators : Type 0 where
  pub parse_duration : String → Option ℤ
  pub patterns : Patterns
  -- The deployment's schedule, if a source of it is installed.
  pub retry_pattern_source : Option (List String)
  -- A tenant's own schedule, if the tenant could be read.
  pub tenant_retry_pattern : String → Option (List String)

pub data Note : Type 0 where
  recorded : Event → Note
  suppressed : String → Text → EventType → Text → Note

pub data Write : Type 0 where
  update : OutboxEmail → Write
  remove : String → Write

-- What a handler does, beside the cache of schedules that it leaves.
pub record Settled : Type 0 where
  pub patterns : TtlCache (List String)
  pub notes : List Note
  pub write : Write

-- The schedule's entry, or a quadratic backoff where it is not a duration.
unfoldable pub delay_of : Collaborators → ℕ → String → ℤ
delay_of c retry_count entry = elim (c.parse_duration entry) [
  | some d ↦ d
  | none ↦ pos (retry_count * retry_count * minute)
]

-- Every caller passes a retry count of at least one.
unfoldable pub next_retry_delay : Collaborators → Classification → ℕ → List String → Option ℤ
next_retry_delay c class retry_count pattern =
    if not class.retryable || ltb (length pattern) retry_count
    then none
    else elim (get_elem? pattern (retry_count - 1)) [
      | some entry ↦ some (delay_of c retry_count entry)
      | none ↦ none
    ]

unfoldable pub global_pattern : Collaborators → List String
global_pattern c = elim c.retry_pattern_source [
  | some (p ∷ ps) ↦ p ∷ ps
  | _ ↦ default_retry_pattern
]

unfoldable pub read_pattern : Collaborators → String → List String
read_pattern c tenant_id = elim (c.tenant_retry_pattern tenant_id) [
  | some (p ∷ ps) ↦ p ∷ ps
  | _ ↦ global_pattern c
]

unfoldable pub get_retry_pattern :
    Collaborators → ℕ → String → TtlCache (List String) → TtlCache (List String) × List String
get_retry_pattern c now tenant_id cache =
    let (read, found) = get now tenant_id cache in
    elim found [
      | some pattern ↦ (read, pattern)
      | none ↦
          let pattern = read_pattern c tenant_id in (put_value now tenant_id pattern read, pattern)
    ]
