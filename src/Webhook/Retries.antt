-- ===== src/Webhook/Retries.antt =====
-- How often, and until when, a notification is attempted.
use panmail.Base.{
  false, none, some, true, if◌then◌else◌, inl, inr, refl, ℕ, Bool, ◌≤◌, ◌≡◌, ◌&&◌, ◌+◌, ◌<◌, arith,
  ltb, ◌⊎◌, not, suc, zero,
}
use panmail.Webhook.{
  Delivery, attempt, next_attempt, retryable, settle, Lookup, Status, settle_post, Posted,
  settle_answer, delivered, reschedule, failed, finish, deferred, pending, release_one,
  subscription, unreadable, answered, disallowed, unanswered, is_success, gone,
}

-- The status is not one that a worker goes on with.
abbrev pub is_final : Status → Bool
is_final delivered = true
is_final failed = true
is_final _ = false

-- The answers after which a notification is put back.
abbrev pub is_transient : Lookup → Posted → Bool
is_transient gone p = false
is_transient (unreadable reason) p = true
is_transient (subscription false) p = false
is_transient (subscription true) (disallowed reason) = false
is_transient (subscription true) (unanswered reason) = true
is_transient (subscription true) (answered status) = not (is_success status) && retryable status

abbrev pub is_accepted : Lookup → Posted → Bool
is_accepted (subscription true) (answered status) = is_success status
is_accepted _ _ = false

abbrev pub reached : Lookup → Posted → Bool
reached (subscription true) (unanswered reason) = false
reached _ _ = true

-- Where a row goes after an attempt.
abbrev pub outcome : ℕ → Lookup → Posted → Status
outcome made found posted =
    if is_accepted found posted
    then delivered
    else if is_transient found posted && ltb made 8
    then deferred
    else failed

next_attempt_cases :
    (n : ℕ)
    → 1 ≤ n
    → ((delay : ℕ) × ((next_attempt n ≡ some delay) × (10 ≤ delay) × (n < 8)))
      ⊎ ((next_attempt n ≡ none) × (8 ≤ n))
unfolding next_attempt
next_attempt_cases zero h = absurd (omega arith)
next_attempt_cases (suc zero) h = inl (10, (refl, omega arith, omega arith))
next_attempt_cases (suc (suc zero)) h = inl (30, (refl, omega arith, omega arith))
next_attempt_cases (suc (suc (suc zero))) h = inl (120, (refl, omega arith, omega arith))
next_attempt_cases (suc (suc (suc (suc zero)))) h = inl (600, (refl, omega arith, omega arith))
next_attempt_cases (suc (suc (suc (suc (suc zero))))) h =
    inl (1800, (refl, omega arith, omega arith))
next_attempt_cases (suc (suc (suc (suc (suc (suc zero)))))) h =
    inl (7200, (refl, omega arith, omega arith))
next_attempt_cases (suc (suc (suc (suc (suc (suc (suc zero))))))) h =
    inl (21600, (refl, omega arith, omega arith))
next_attempt_cases (suc (suc (suc (suc (suc (suc (suc (suc n)))))))) h =
    inr (ground arith, omega arith)

-- What an attempt leaves of a row.
pub record Attempted (now : ℕ) (found : Lookup) (posted : Posted) (d after : Delivery)
    (unreached : Bool) : Type 0 where
  pub counted : after.attempt_count ≡ d.attempt_count + 1
  pub same_row : after.id ≡ d.id
  pub same_target : after.webhook_id ≡ d.webhook_id
  pub same_payload : after.payload ≡ d.payload
  pub ends : after.status ≡ outcome (d.attempt_count + 1) found posted
  pub waits : after.status ≡ deferred → now + 10 ≤ after.next_attempt_at
  pub told : unreached ≡ not (reached found posted)

-- An attempt counts once and keeps the row's identity and payload; the row is delivered exactly on
-- an answer of 200 to 299 from an active subscription, deferred by at least ten seconds exactly
-- when the cause is one worth waiting for and fewer than eight attempts were made, and failed
-- otherwise.
pub attempt-Attempted :
    (now : ℕ) (found : Lookup) (posted : Posted) (d : Delivery)
    → Attempted now found posted d (attempt now found posted d).0 (attempt now found posted d).1
unfolding attempt settle settle_post settle_answer reschedule finish
attempt-Attempted now found posted d = record {
  counted = ground arith;
  same_row = ground arith;
  same_target = ground arith;
  same_payload = ground arith;
  ends = ground (arith, next_attempt_cases (d.attempt_count + 1));
  waits = ground (arith, next_attempt_cases (d.attempt_count + 1));
  told = ground arith;
}

-- The life of a row with the attempts made and how many of them were not saved: it is enqueued,
-- and claimed and attempted while its status is not final, or handed back unattempted. An attempt
-- whose save failed, whose claim was lost or whose worker died leaves the row as it was stored.
pub data Life : ℕ → ℕ → Delivery → Type 0 where
  enqueued : (d : Delivery) → d.attempt_count ≡ 0 → d.status ≡ pending → Life 0 0 d
  attempted :
      {made unsaved : ℕ} {d : Delivery} (now : ℕ) (found : Lookup) (posted : Posted)
      → Life made unsaved d
      → is_final d.status ≡ false
      → Life (made + 1) unsaved (attempt now found posted d).0
  abandoned :
      {made unsaved : ℕ} {d : Delivery}
      → Life made unsaved d
      → is_final d.status ≡ false
      → Life (made + 1) (unsaved + 1) d
  handed_back :
      {made unsaved : ℕ} {d : Delivery}
      → Life made unsaved d
      → is_final d.status ≡ false
      → Life made unsaved (release_one d)
