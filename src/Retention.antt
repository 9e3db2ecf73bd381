-- ===== src/Retention.antt =====
-- internal/retention/policy.go: how long each class of data is kept, in whole days.
--
-- `Settings` holds the retention fields of system_settings/entities.Settings; a pointer is an
-- option. Go's `int` and `time.Duration` are integers here: `duration` is bounded far below 2 ^ 63.
mod Examples
pub mod Round
pub mod Worker
use panmail.Base.{String, false, if◌then◌else◌, none, some, true, Bool, Option, ℕ, ◌*◌}
use panmail.Base.Int.{ℤ, pos, negsuc, ltb_ℤ, leb_ℤ, pos_part, ◌-ℤ◌}

abbrev pub default_event_days : ℤ
default_event_days = pos 14

abbrev pub default_webhook_days : ℤ
default_webhook_days = pos 7

abbrev pub max_days : ℤ
max_days = pos 3650

pub record Policy : Type 0 where
  pub event_days : ℤ
  pub message_days : ℤ
  pub outbox_days : ℤ
  pub webhook_days : ℤ
  pub app_log_days : ℤ
  pub inbound_days : ℤ
  pub archive_days : ℤ
  pub quarantine_days : ℤ
  pub analytics_days : ℤ

pub record Settings : Type 0 where
  pub log_retention_days : Option ℤ
  pub webhook_retention_days : Option ℤ
  pub message_retention_days : ℤ
  pub outbox_retention_days : ℤ
  pub app_log_retention_days : ℤ
  pub inbound_retention_days : ℤ
  pub archive_retention_days : ℤ
  pub quarantine_retention_days : ℤ
  pub analytics_retention_days : ℤ

unfoldable pub clamp_days : ℤ → ℤ
clamp_days days =
    if ltb_ℤ days (pos 0) then pos 0 else if ltb_ℤ max_days days then max_days else days

-- `p.EventDays = clampDays(*s.LogRetentionDays)` under its test for nil.
abbrev pub days_or : ℤ → Option ℤ → ℤ
days_or default_days none = default_days
days_or default_days (some days) = clamp_days days

abbrev pub default_policy : Policy
default_policy = record {
  event_days = default_event_days;
  message_days = pos 0;
  outbox_days = pos 0;
  webhook_days = default_webhook_days;
  app_log_days = pos 0;
  inbound_days = pos 0;
  archive_days = pos 0;
  quarantine_days = pos 0;
  analytics_days = pos 0;
}

unfoldable pub resolve : Option Settings → Policy
resolve none = default_policy
resolve (some s) = record {
  event_days = days_or default_event_days s.log_retention_days;
  message_days = clamp_days s.message_retention_days;
  outbox_days = clamp_days s.outbox_retention_days;
  webhook_days = days_or default_webhook_days s.webhook_retention_days;
  app_log_days = clamp_days s.app_log_retention_days;
  inbound_days = clamp_days s.inbound_retention_days;
  archive_days = clamp_days s.archive_retention_days;
  quarantine_days = clamp_days s.quarantine_retention_days;
  analytics_days = clamp_days s.analytics_retention_days;
}

-- `Policy.Apply` on settings that are there; on nil it does nothing.
unfoldable pub apply : Policy → Settings → Settings
apply p s = record s {
  log_retention_days = some (clamp_days p.event_days);
  webhook_retention_days = some (clamp_days p.webhook_days);
  message_retention_days = clamp_days p.message_days;
  outbox_retention_days = clamp_days p.outbox_days;
  app_log_retention_days = clamp_days p.app_log_days;
  inbound_retention_days = clamp_days p.inbound_days;
  archive_retention_days = clamp_days p.archive_days;
  quarantine_retention_days = clamp_days p.quarantine_days;
  analytics_retention_days = clamp_days p.analytics_days;
}

-- A day in nanoseconds.
abbrev pub day : ℕ
day = 24 * 3600000000000

unfoldable pub duration : ℤ → ℤ
duration days = if leb_ℤ days (pos 0) then pos 0 else pos (pos_part (clamp_days days) * day)

module _ {ℓ} {Time : Type ℓ} (add_days : Time → ℤ → Time) (zero_time : Time) where
  -- `Cutoff`, with `now.AddDate(0, 0, n)` as `add_days now n`.
  unfoldable pub cutoff : ℤ → Time → Time × Bool
  cutoff days now =
      if leb_ℤ days (pos 0)
      then (zero_time, false)
      else (add_days now (pos 0 -ℤ clamp_days days), true)
