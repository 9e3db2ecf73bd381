-- ===== src/Webhook/Batch.antt =====
-- `processDue`: a claimed batch is split by subscription, and each group is delivered to in order.
--
-- The groups run side by side; they share no row, and each is one sequence of steps. For the round
-- on the row at an index the clock, the answers and the test of whether to start it are given by
-- functions of the row and that index.
pub mod Grouping
pub mod Rows
pub mod Streak
use panmail.Base.{
  [], if◌then◌else◌, none, some, suc, zero, ◌∷◌, Bool, List, ℕ, Option, length, map, ◌&&◌, ◌++◌,
  ◌+◌, max, not, ltb, leb,
}
use panmail.Webhook.{Delivery, attempt, next_attempt, release, retry_schedule, Lookup, Posted}
use panmail.Base.Dict.{Dict, lookup, put}
use panmail.Base.Int.{ℤ, pos, ◌-ℤ◌, min_ℤ, leb_ℤ}

abbrev pub append_at : ℕ → Delivery → List (List Delivery) → List (List Delivery)
append_at i d [] = []
append_at zero d (g ∷ groups) = (g ++ d ∷ []) ∷ groups
append_at (suc i) d (g ∷ groups) = g ∷ append_at i d groups

-- The loop of `bySubscription` with its index and groups.
unfoldable pub group_from :
    Dict ℕ → List (List Delivery) → List Delivery → Dict ℕ × List (List Delivery)
group_from index groups [] = (index, groups)
group_from index groups (d ∷ due) = elim (lookup d.webhook_id index) [
  | some i ↦ group_from index (append_at i d groups) due
  | none ↦
      let i = length groups in
      group_from (put d.webhook_id i index) (append_at i d (groups ++ [] ∷ [])) due
]

unfoldable pub by_subscription : List Delivery → List (List Delivery)
by_subscription due = (group_from [] [] due).1

-- `startWindow`
unfoldable pub start_window : ℤ → ℤ → ℤ → ℤ → ℤ
start_window lease timeout save_reserve batch_budget = min_ℤ batch_budget (
    if leb_ℤ (pos 0) timeout && leb_ℤ timeout (pos 0)
    then lease -ℤ save_reserve
    else lease -ℤ timeout -ℤ save_reserve)

-- What a group does: the rows it saves, in order, those it attempted among them, and the instant to
-- which it defers the rest of the subscription.
pub record Outcome : Type 0 where
  pub attempts : List (Delivery × Bool)
  pub handed_back : List Delivery
  pub deferral : Option ℕ

-- The rows that are saved, in order.
abbrev pub saved : Outcome → List Delivery
saved o = map (λ a. a.0) o.attempts ++ o.handed_back

abbrev pub last_delay : ℕ
last_delay = 21600

-- The delay of `backOff`.
unfoldable pub back_off_delay : ℕ → ℕ
back_off_delay attempts = elim (next_attempt attempts) [ none ↦ last_delay | some delay ↦ delay ]

abbrev pub delay_until : ℕ → Delivery → Delivery
delay_until until d = record d { next_attempt_at = until }

unfoldable pub back_off : ℕ → ℕ → List Delivery → Outcome
back_off now worst rest =
    let until = now + back_off_delay worst in
    record {
      attempts = [];
      handed_back = release (map (delay_until until) rest);
      deferral = some until;
    }

unfoldable pub stop : List Delivery → Outcome
stop rest = record { attempts = []; handed_back = release rest; deferral = none }

abbrev pub after : Delivery × Bool → Outcome → Outcome
after a o = record o { attempts = a ∷ o.attempts }

-- `streak` and `worst` after an attempt.
abbrev pub tally : ℕ → ℕ → Delivery × Bool → ℕ × ℕ
tally streak worst a = if a.1 then (streak + 1, max worst a.0.attempt_count) else (0, worst)

module _ (failure_streak : ℕ) (may_start : ℕ → Bool) (now : ℕ → ℕ) (found : Delivery → Lookup)
    (posted : ℕ → Delivery → Posted) where
  -- The goroutine of one group, from the row at index `i` on.
  unfoldable pub run_group : ℕ → ℕ × ℕ → List Delivery → Outcome
  run_group i counts [] = stop []
  run_group i counts (d ∷ rest) =
      let a = attempt (now i) (found d) (posted i d) d in
      let more = run_group (i + 1) (tally counts.0 counts.1 a) rest in
      if not (may_start i)
      then stop (d ∷ rest)
      else if ltb 0 failure_streak && leb failure_streak counts.0
      then back_off (now i) counts.1 (d ∷ rest)
      else after a more
