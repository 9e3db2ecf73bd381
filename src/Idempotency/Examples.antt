-- ===== src/Idempotency/Examples.antt =====
-- A send, a repeat of it, and the key's next use once its window is over.
use panmail.RateLimit.Steps.{next}
use panmail.Idempotency.{
  IdempotencyKey, enqueue, create_with_idempotency_key, unless_expired, has_expired, write_key,
  replay, replayed, conflict,
}
use panmail.Idempotency.Window.{
  AreSpaced, Step, World, take_step, Reach, sent, next, Reach-one_message, empty,
}
use panmail.Base.{[], if◌then◌else◌, none, refl, true, ◌∷◌, List, ℕ, String, arith, ◌≡◌, ◌≤◌, ◌+◌}
use text.Mathlib.Text.{◌==◌}

abbrev nothing_sent : World
nothing_sent = record {
  store = record { keys = λ t k. none; queued = [] };
  clock = 0;
  accepted = [];
  answered = [];
}

abbrev first : Step
first = sent true 10 "acme" "k" "h" "m1"

abbrev repeated : Step
repeated = sent true 20 "acme" "k" "h" "m2"

abbrev after_both : World
after_both = take_step 24 "acme" "k" repeated (take_step 24 "acme" "k" first nothing_sent)

queued_once : after_both.store.queued ≡ "m1" ∷ []
unfolding take_step enqueue create_with_idempotency_key unless_expired has_expired write_key
queued_once = refl

next_window :
    (take_step 24 "acme" "k" (sent true 35 "acme" "k" "h" "m3") after_both).store.queued
    ≡ "m1" ∷ "m3" ∷ []
unfolding take_step enqueue create_with_idempotency_key unless_expired has_expired write_key
next_window = refl

history : Reach 24 "acme" "k" after_both
unfolding take_step
history = next repeated (next first empty (omega arith)) (omega arith)

Reach-one_message_example :
    (after_both.store.queued ≡ after_both.answered)
    × AreSpaced 24 "acme" "k" after_both.accepted
    × ((k : IdempotencyKey) (log : List IdempotencyKey) (now : ℕ) (hash : String)
        → after_both.accepted ≡ k ∷ log
        → after_both.clock ≤ now
        → now ≤ k.created_at + 24
        → replay true 24 now "acme" "k" hash after_both.store.keys
          ≡ (if k.request_hash == hash then replayed k.message_id else conflict k.message_id))
Reach-one_message_example = Reach-one_message 24 "acme" "k" history
