-- ===== src/Webhook/Examples.antt =====
-- Deliveries to two endpoints, one of which does not answer.
use panmail.Base.Int.{◌-ℤ◌, ◌+ℤ◌, min_ℤ, pos, ◌≤ℤ◌}
use panmail.Base.Dict.{lookup, put}
use panmail.Base.{[], refl, some, true, ◌∷◌, List, String, ℕ, ◌≡◌, Bool, ◌+◌, ◌<◌, arith, length}
use panmail.Webhook.{
  Delivery, attempt, subscription, answered, unanswered, Lookup, Posted, pending, no_reason, settle,
  settle_post, reschedule, next_attempt,
}
use panmail.Webhook.Retries.{attempt-Attempted, Attempted}
use panmail.Webhook.Batch.{
  run_group, saved, by_subscription, group_from, stop, back_off, back_off_delay, start_window,
}
use panmail.Webhook.Batch.Rows.{saved-run_group, attempts_within_lease, ids, attempts_of, in_window}
use panmail.Webhook.Batch.Streak.{attempts_of-streak}
use panmail.Webhook.Batch.Grouping.{by_subscription-Grouped, Grouped}

abbrev row : String → String → Delivery
row id webhook = record {
  id = id;
  tenant_id = "acme";
  webhook_id = webhook;
  event = "bounced";
  payload = "{}";
  status = pending;
  attempt_count = 0;
  claim_token = "t";
  next_attempt_at = 0;
  last_error = no_reason;
}

abbrev due : List Delivery
due = row "1" "a" ∷ row "2" "b" ∷ row "3" "a" ∷ row "4" "a" ∷ []

abbrev always : ℕ → Bool
always i = true

abbrev clock : ℕ → ℕ
clock i = 100 + i

abbrev active : Delivery → Lookup
active d = subscription true

abbrev silent : ℕ → Delivery → Posted
silent i d = unanswered "timeout"

two_groups :
    by_subscription due ≡ (row "1" "a" ∷ row "3" "a" ∷ row "4" "a" ∷ []) ∷ (row "2" "b" ∷ []) ∷ []
unfolding by_subscription group_from lookup put
two_groups = refl

-- Two attempts are made, and the third row is handed back.
backs_off :
    (run_group 2 always clock active silent 0
      (0, 0)
      (row "1" "a" ∷ row "3" "a" ∷ row "4" "a" ∷ [])).deferral
    ≡ some 112
unfolding run_group stop back_off back_off_delay attempt settle settle_post reschedule next_attempt
backs_off = refl

attempt-Attempted_example :
    Attempted 100
      (subscription true)
      (answered 503)
      (row "1" "a")
      (attempt 100 (subscription true) (answered 503) (row "1" "a")).0
      (attempt 100 (subscription true) (answered 503) (row "1" "a")).1
attempt-Attempted_example = attempt-Attempted 100 (subscription true) (answered 503) (row "1" "a")

by_subscription-Grouped_example : Grouped due (group_from [] [] due).0 (by_subscription due)
by_subscription-Grouped_example = by_subscription-Grouped due

saved-run_group_example :
    ids (saved (run_group 2 always clock active silent 0 (0, 0) due)) ≡ ids due
saved-run_group_example = saved-run_group 2 always clock active silent 0 (0, 0) due

attempts_within_lease_example : pos 1 +ℤ (pos (clock 0) +ℤ pos 15 +ℤ pos 10) ≤ℤ pos 100 +ℤ pos 120
unfolding run_group stop back_off start_window ◌-ℤ◌ ◌+ℤ◌ min_ℤ
attempts_within_lease_example =
    attempts_within_lease 2 always clock active silent 100 (pos 120) (pos 15) (pos 10) (pos 60) due
      0 (omega arith) made
  where
    made :
        0
        < length (
            attempts_of 2
              (in_window always clock 100 (start_window (pos 120) (pos 15) (pos 10) (pos 60)))
              clock
              active
              silent
              0
              (0, 0)
              due)
    made = omega arith

attempts_of-streak_example : 1 < 2
unfolding run_group stop back_off attempt settle settle_post reschedule next_attempt
attempts_of-streak_example =
    attempts_of-streak 2 always clock active silent (row "1" "a" ∷ row "3" "a" ∷ []) []
      ((attempt 100 (active (row "1" "a")) (silent 0 (row "1" "a")) (row "1" "a")) ∷ []) []
      (attempt 101 (active (row "3" "a")) (silent 1 (row "3" "a")) (row "3" "a")) (omega arith) refl
      (refl, tt)
