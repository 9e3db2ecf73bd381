-- ===== src/Idempotency.antt =====
-- internal/email/usecases/send_idempotency.go, with the statements on send_idempotency_keys of
-- internal/email/repositories/stores/postgres: a retried send is answered with the message that its
-- key was first accepted for.
--
-- The table's primary key is a tenant and a key, so it is a function of them. `now - window` is
-- written as a sum on the other side. The queue itself is the list of the messages put into it.
pub mod Window
mod Examples
use panmail.Base.{
  [], if◌then◌else◌, none, some, ◌∷◌, Bool, List, Option, String, ℕ, leb, ltb, ◌&&◌, ◌++◌, length,
  ◌+◌, all,
}
use text.Mathlib.Text.{◌==◌}
use panmail.Base.Text.{Text}

abbrev pub max_idempotency_key_length : ℕ
max_idempotency_key_length = 255

pub data InvalidKey : Type 0 where
  too_long : ℕ → InvalidKey
  not_printable : InvalidKey

abbrev pub is_printable : ℕ → Bool
is_printable c = leb 32 c && leb c 126

-- `none` is a key that may be used, or no key.
unfoldable pub validate_idempotency_key : Text → Option InvalidKey
validate_idempotency_key key =
    if ltb max_idempotency_key_length (length key)
    then some (too_long (length key))
    else if all is_printable key
    then none
    else some not_printable

pub record IdempotencyKey : Type 0 where
  pub request_hash : String
  pub message_id : String
  pub created_at : ℕ

abbrev pub KeyTable : Type 0
KeyTable = String → String → Option IdempotencyKey

-- `created_at < now - window`
unfoldable pub has_expired : ℕ → ℕ → IdempotencyKey → Bool
has_expired window now k = ltb (k.created_at + window) now

unfoldable pub unless_expired : ℕ → ℕ → Option IdempotencyKey → Option IdempotencyKey
unless_expired window now none = none
unless_expired window now (some k) = if has_expired window now k then none else some k

-- `get_send_idempotency_key.sql`
unfoldable pub get_idempotency_key : ℕ → ℕ → String → String → KeyTable → Option IdempotencyKey
get_idempotency_key window now tenant_id key table = unless_expired window now (table tenant_id key)

-- `prune_send_idempotency_keys.sql`
unfoldable pub prune_idempotency_keys : ℕ → ℕ → KeyTable → KeyTable
prune_idempotency_keys window now table t k = unless_expired window now (table t k)

unfoldable pub write_key : String → String → Option IdempotencyKey → KeyTable → KeyTable
write_key tenant_id key row table t k = if t == tenant_id && k == key then row else table t k

pub record Store : Type 0 where
  pub keys : KeyTable
  pub queued : List String

-- `CreateWithIdempotencyKey`; `none` is `ErrIdempotencyKeyTaken`, which rolls back.
unfoldable pub create_with_idempotency_key :
    ℕ → ℕ → String → String → String → String → Store → Option Store
create_with_idempotency_key window now tenant_id key hash message_id s =
    elim (unless_expired window now (s.keys tenant_id key)) [
      | some k ↦ none
      | none ↦
          let row : IdempotencyKey = record {
            request_hash = hash;
            message_id = message_id;
            created_at = now;
          } in
          some (record {
            keys = write_key tenant_id key (some row) s.keys;
            queued = s.queued ++ message_id ∷ [];
          })
    ]

pub data Answer : Type 0 where
  not_used : Answer
  replayed : String → Answer
  conflict : String → Answer
  in_flight : Answer
  queued_as : String → Answer
  unreadable : Answer

-- What a row read for a key means for a request.
unfoldable pub answer_of : String → Option IdempotencyKey → Answer
answer_of hash none = not_used
answer_of hash (some k) =
    if k.request_hash == hash then replayed k.message_id else conflict k.message_id

-- `replay`, with whether the table could be read.
unfoldable pub replay : Bool → ℕ → ℕ → String → String → String → KeyTable → Answer
replay readable window now tenant_id key hash table =
    if readable
    then answer_of hash (get_idempotency_key window now tenant_id key table)
    else unreadable

-- A key that was taken and cannot be found is still in flight.
unfoldable pub race_answer : Answer → Answer
race_answer not_used = in_flight
race_answer a = a

unfoldable pub lost_key_race : Bool → ℕ → ℕ → String → String → String → KeyTable → Answer
lost_key_race readable window now tenant_id key hash table =
    race_answer (replay readable window now tenant_id key hash table)

-- The write at the end of `SendEmail`: queued, or answered with the winner of the race.
unfoldable pub enqueue : Bool → ℕ → ℕ → String → String → String → String → Store → Store × Answer
enqueue readable window now tenant_id key hash message_id s =
    elim (create_with_idempotency_key window now tenant_id key hash message_id s) [
      | none ↦ (s, lost_key_race readable window now tenant_id key hash s.keys)
      | some after ↦ (after, queued_as message_id)
    ]
