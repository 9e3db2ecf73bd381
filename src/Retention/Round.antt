-- ===== src/Retention/Round.antt =====
-- Retention policies: their range, and storing and reading one back.
use panmail.Base.{
  none, some, Option, arith, ◌≡◌, true, ◌↔◌, false, inl, inr, refl, Bool-cases, ap, ◌*◌, ◌∙◌, ◌<◌,
  ◌≤◌,
}
use panmail.Retention.{
  Policy, Settings, clamp_days, resolve, apply, max_days, days_or, default_event_days,
  default_webhook_days, cutoff, duration, day,
}
use panmail.Base.Int.{ℤ, pos, ◌≤ℤ◌, leb_ℤ, ◌-ℤ◌, ◌+ℤ◌, int_laws, pos_part}

abbrev pub IsInRange : ℤ → Type 0
IsInRange days = (pos 0 ≤ℤ days) × (days ≤ℤ max_days)

-- Every field of a policy lies in range.
pub record IsBounded (p : Policy) : Type 0 where
  pub event : IsInRange p.event_days
  pub message : IsInRange p.message_days
  pub outbox : IsInRange p.outbox_days
  pub webhook : IsInRange p.webhook_days
  pub app_log : IsInRange p.app_log_days
  pub inbound : IsInRange p.inbound_days
  pub archive : IsInRange p.archive_days
  pub quarantine : IsInRange p.quarantine_days
  pub analytics : IsInRange p.analytics_days

clamp_days-IsInRange : (d : ℤ) → IsInRange (clamp_days d)
unfolding clamp_days
clamp_days-IsInRange d = ground arith

clamp_days_id : (d : ℤ) → IsInRange d → clamp_days d ≡ d
unfolding clamp_days
clamp_days_id d h = ground arith

clamp_days_part : (d : ℤ) → pos_part (clamp_days d) ≤ 3650
unfolding clamp_days
clamp_days_part d = ground arith

clamp_days_positive : (d : ℤ) → pos 1 ≤ℤ d → pos 1 ≤ℤ clamp_days d
unfolding clamp_days
clamp_days_positive d h = ground arith

clamp_twice : (d : ℤ) → IsInRange d → clamp_days (clamp_days d) ≡ d
clamp_twice d h = ap clamp_days (clamp_days_id d h) ∙ clamp_days_id d h

days_or-IsInRange : (def : ℤ) (d : Option ℤ) → IsInRange def → IsInRange (days_or def d)
days_or-IsInRange def none h = h
days_or-IsInRange def (some d) h = clamp_days-IsInRange d

-- Whatever is stored, and also when nothing is, the effective policy lies within zero and the
-- maximum in each of its fields.
pub resolve-IsBounded : (s : Option Settings) → IsBounded (resolve s)
unfolding resolve
resolve-IsBounded none = record {
  event = omega arith;
  message = omega arith;
  outbox = omega arith;
  webhook = omega arith;
  app_log = omega arith;
  inbound = omega arith;
  archive = omega arith;
  quarantine = omega arith;
  analytics = omega arith;
}
resolve-IsBounded (some s) = record {
  event = days_or-IsInRange default_event_days s.log_retention_days (omega arith, omega arith);
  message = clamp_days-IsInRange s.message_retention_days;
  outbox = clamp_days-IsInRange s.outbox_retention_days;
  webhook =
      days_or-IsInRange default_webhook_days s.webhook_retention_days (omega arith, omega arith);
  app_log = clamp_days-IsInRange s.app_log_retention_days;
  inbound = clamp_days-IsInRange s.inbound_retention_days;
  archive = clamp_days-IsInRange s.archive_retention_days;
  quarantine = clamp_days-IsInRange s.quarantine_retention_days;
  analytics = clamp_days-IsInRange s.analytics_retention_days;
}

-- A policy in range that is stored over any settings is read back unchanged, also where a field
-- with a default was set to keep forever.
pub resolve-apply : (p : Policy) (s : Settings) → IsBounded p → resolve (some (apply p s)) ≡ p
unfolding resolve apply
resolve-apply p s h = λ i. record {
  event_days = clamp_twice p.event_days h.event i;
  message_days = clamp_twice p.message_days h.message i;
  outbox_days = clamp_twice p.outbox_days h.outbox i;
  webhook_days = clamp_twice p.webhook_days h.webhook i;
  app_log_days = clamp_twice p.app_log_days h.app_log i;
  inbound_days = clamp_twice p.inbound_days h.inbound i;
  archive_days = clamp_twice p.archive_days h.archive i;
  quarantine_days = clamp_twice p.quarantine_days h.quarantine i;
  analytics_days = clamp_twice p.analytics_days h.analytics i;
}

-- With a calendar in which going back by at most 3650 days never leads to a later instant, and
-- which may overflow for more: pruning is disabled for a retention of zero or less, and for a
-- positive one, however large, it is enabled with a cutoff that is not after the present.
pub cutoff_past :
    {Time : Type 0} (add_days : Time → ℤ → Time) (zero_time : Time)
    (IsBefore : Time → Time → Type 0)
    → ((t : Time) (n : ℤ) → pos 0 ≤ℤ pos 3650 +ℤ n → n ≤ℤ pos 0 → IsBefore (add_days t n) t)
    → (days : ℤ) (now : Time)
    → (days ≤ℤ pos 0 → (cutoff add_days zero_time days now).1 ≡ false)
      × (pos 1 ≤ℤ days
          → ((cutoff add_days zero_time days now).1 ≡ true)
            × IsBefore (cutoff add_days zero_time days now).0 now)
unfolding cutoff
cutoff_past add_days zero_time IsBefore h days now = elim (Bool-cases (leb_ℤ days (pos 0))) [
  | inl e ↦ rw e ((λ _. refl), λ le. absurd (ground arith))
  | inr e ↦ rw e (
    (λ le. absurd (ground arith)),
    λ le. (
      refl,
      h now (pos 0 -ℤ clamp_days days) (omega (int_laws, clamp_days-IsInRange days))
          (omega (int_laws, clamp_days-IsInRange days)),
    ),
  )
]

-- The duration handed to the workers is positive exactly where the retention is, and never above
-- the maximum in days, which in nanoseconds is below 2 ^ 63.
pub duration_bound :
    (days : ℤ)
    → ((duration days ≡ pos 0) ↔ (days ≤ℤ pos 0))
      × (duration days ≤ℤ pos (3650 * day))
      × (3650 * day < 9223372036854775808)
unfolding duration
duration_bound days = elim (Bool-cases (leb_ℤ days (pos 0))) [
  | inl e ↦ rw e (((λ _. ground arith), λ _. refl), omega arith, omega arith)
  | inr e ↦ rw e (
    (
      (λ q. absurd (omega (arith, ap pos_part q, clamp_days_positive days (ground arith)))),
      λ q. absurd (ground arith),
    ),
    omega (arith, clamp_days_part days),
    omega arith,
  )
]
