-- ===== src/Queue/Worker.antt =====
-- processEmail, bookkeep and the lease: one message from its claim to the write that settles it.
use panmail.Queue.Handlers.{handle_failure}
use panmail.Delivery.Send.{send_email}
use panmail.Delivery.Send.{Sent}
use panmail.Base.Text.{Text}
use panmail.Delivery.{Event, Request, Surroundings}
use panmail.Queue.{Collaborators, Note, OutboxEmail, Settled, Write, recorded, remove, suppressed}
use panmail.Cache.{TtlCache}
use panmail.Base.{
  [], false, if◌then◌else◌, none, some, suc, zero, ◌∷◌, List, Option, ℕ, Bool, String, ◌+◌, ◌++◌,
  filter,
}

abbrev pub bookkeeping_attempts : ℕ
bookkeeping_attempts = 3

-- `bookkeep` from an attempt on, with the attempts that are left: a write that failed is tried
-- again, and `fails` says which attempts do.
unfoldable pub bookkeep_from {ℓ} : {S : Type ℓ} → ℕ → ℕ → (ℕ → Bool) → (S → S) → S → S
bookkeep_from zero attempt fails write s = s
bookkeep_from (suc left) attempt fails write s =
    let again = bookkeep_from left (attempt + 1) fails write s in
    if fails attempt then again else write s

unfoldable pub bookkeep {ℓ} : {S : Type ℓ} → (ℕ → Bool) → (S → S) → S → S
bookkeep fails write s = bookkeep_from bookkeeping_attempts 0 fails write s

-- What a message's pass meets.
pub record Circumstances : Type 0 where
  pub now : ℕ
  -- What the renewal at the start answers: whether the claim is this worker's, or an error.
  pub renewed : Option Bool
  pub unmarshal : Text → Option Request
  pub surroundings : Surroundings
  -- Whether the claim was found lost while the message was being sent.
  pub lost : Bool
  -- Whether the history can be read for a verdict on the whole message.
  pub readable : Bool
  -- Whether the write of an event succeeds. Whoever records one goes on in any case.
  pub stores : Event → Bool

-- What a pass leaves: the cache, the events that sending recorded, the notes of the handler, and
-- the write of the row, if there is one.
pub record Processed : Type 0 where
  pub patterns : TtlCache (List String)
  pub events : List Event
  pub notes : List Note
  pub write : Option Write

unfoldable pub hold_lease : Option Bool → Bool
hold_lease none = false
hold_lease (some ok) = ok

-- The events among the notes.
unfoldable pub recorded_events : List Note → List Event
recorded_events [] = []
recorded_events (recorded e ∷ notes) = e ∷ recorded_events notes
recorded_events (suppressed t r ty err ∷ notes) = recorded_events notes

module _ (c : Collaborators) where
  abbrev pub untouched : TtlCache (List String) → Processed
  untouched cache = record { patterns = cache; events = []; notes = []; write = none }

  abbrev pub settle : List Event → Settled → Processed
  settle events s = record {
    patterns = s.patterns;
    events = events;
    notes = s.notes;
    write = some s.write;
  }

  -- After the send. A send without an error has a result.
  unfoldable pub settle_sent :
      Circumstances → List Event → TtlCache (List String) → OutboxEmail → Request → Sent → Processed
  settle_sent k history cache e req s =
      if k.lost
      then record { patterns = cache; events = s.events; notes = []; write = none }
      else elim s.error [
        | none ↦ record {
          patterns = cache;
          events = s.events;
          notes = [];
          write = some (remove e.id);
        }
        | some err ↦ settle s.events (
            handle_failure c k.now req
              (if k.readable then some (history ++ filter k.stores s.events) else none) err cache e)
      ]

  unfoldable pub process_email :
      Circumstances → List Event → TtlCache (List String) → OutboxEmail → Processed
  process_email k history cache e =
      if hold_lease k.renewed
      then elim (k.unmarshal e.request) [
        | none ↦ record { patterns = cache; events = []; notes = []; write = some (remove e.id) }
        | some req ↦
            settle_sent k history cache e req (send_email k.surroundings e.tenant_id e.id req)
      ]
      else untouched cache
