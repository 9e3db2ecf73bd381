-- ===== src/Retention/Examples.antt =====
-- A policy stored and read back, and cutoffs on a calendar that counts days.
use panmail.Base.{false, none, refl, some, true, ◌≡◌, arith}
use panmail.Retention.{Policy, Settings, resolve, apply, cutoff, clamp_days}
use panmail.Retention.Round.{resolve-apply, resolve-IsBounded, cutoff_past, IsBounded}
use panmail.Base.Int.{ℤ, pos, negsuc, ◌≤ℤ◌, ◌+ℤ◌, int_laws}

abbrev chosen : Policy
chosen = record {
  event_days = pos 0;
  message_days = pos 30;
  outbox_days = pos 3650;
  webhook_days = pos 7;
  app_log_days = pos 1;
  inbound_days = pos 2;
  archive_days = pos 3;
  quarantine_days = pos 4;
  analytics_days = pos 5;
}

abbrev stored : Settings
stored = record {
  log_retention_days = none;
  webhook_retention_days = some (pos 9);
  message_retention_days = negsuc 0;
  outbox_retention_days = pos 1;
  app_log_retention_days = pos 1;
  inbound_retention_days = pos 5000;
  archive_retention_days = pos 1;
  quarantine_retention_days = pos 1;
  analytics_retention_days = pos 1;
}

reads_default : (resolve (some stored)).event_days ≡ pos 14
unfolding resolve
reads_default = refl

reads_clamped : (resolve (some stored)).inbound_days ≡ pos 3650
unfolding resolve clamp_days
reads_clamped = refl

resolve-apply_example : resolve (some (apply chosen stored)) ≡ chosen
resolve-apply_example = resolve-apply chosen stored fits
  where
    fits : IsBounded chosen
    fits = record {
      event = (omega arith, omega arith);
      message = (omega arith, omega arith);
      outbox = (omega arith, omega arith);
      webhook = (omega arith, omega arith);
      app_log = (omega arith, omega arith);
      inbound = (omega arith, omega arith);
      archive = (omega arith, omega arith);
      quarantine = (omega arith, omega arith);
      analytics = (omega arith, omega arith);
    }

resolve-IsBounded_example : IsBounded (resolve (some stored))
resolve-IsBounded_example = resolve-IsBounded (some stored)

-- Days since an epoch, and a calendar on them.
cutoff_past_example :
    (pos 14 ≤ℤ pos 0 → (cutoff ◌+ℤ◌ (pos 0) (pos 14) (pos 100)).1 ≡ false)
    × (pos 1 ≤ℤ pos 14
        → ((cutoff ◌+ℤ◌ (pos 0) (pos 14) (pos 100)).1 ≡ true)
          × ((cutoff ◌+ℤ◌ (pos 0) (pos 14) (pos 100)).0 ≤ℤ pos 100))
cutoff_past_example = cutoff_past ◌+ℤ◌ (pos 0) ◌≤ℤ◌ back (pos 14) (pos 100)
  where
    back : (t n : ℤ) → pos 0 ≤ℤ pos 3650 +ℤ n → n ≤ℤ pos 0 → (t +ℤ n) ≤ℤ t
    back t n far h = omega int_laws
