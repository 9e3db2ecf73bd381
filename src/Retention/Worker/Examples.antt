-- ===== src/Retention/Worker/Examples.antt =====
-- A pass in which one class cannot be pruned. Days stand for instants.
use panmail.Retention.{resolve, cutoff, clamp_days}
use panmail.Retention.Worker.Complete.{IsAfter, classes, due_prunes, kept_days, run_once-IsAfter}
use panmail.Retention.Worker.{
  Deps, Pass, Totals, run_once, run_jobs, run, jobs, run_before, event_jobs, resolve, events,
  inbound_receipts,
}
use panmail.Base.Int.{ℤ, pos, ◌+ℤ◌, ◌-ℤ◌}
use panmail.Base.{[], false, none, refl, some, true, ◌∷◌, ◌≡◌}

abbrev add_days : ℤ → ℤ → ℤ
add_days now days = now +ℤ days

abbrev pass : Pass add_days (pos 0)
pass = record {
  clock = λ c. pos 100;
  stopped = λ c. false;
  prune = λ c before. elim c [
    | events ↦ record { removed = 3; failed = true }
    | _ ↦ record { removed = 5; failed = false }
  ];
}

abbrev deps : Deps
deps = record {
  has_events = true;
  has_telemetry = false;
  has_analytics = false;
  has_logs = false;
  has_inbound = false;
  has_receipts = true;
  has_quarantine = true;
  has_reviews = true;
}

abbrev fresh : Totals add_days (pos 0)
fresh = record {
  removed = 0;
  failures = 0;
  prunes = [];
  pushed = none;
  expired = false;
  completed = false;
}

-- The events fail, and the receipts are pruned all the same; the rest is kept forever.
goes_on :
    (run_once add_days (pos 0) pass deps (some none) fresh).prunes
    ≡ (events, pos 86) ∷ (inbound_receipts, pos 93) ∷ []
unfolding run_once run_jobs run run_before jobs event_jobs cutoff clamp_days resolve ◌+ℤ◌ ◌-ℤ◌
goes_on = refl

run_once-IsAfter_example :
    IsAfter add_days
      (pos 0)
      pass
      (due_prunes add_days (pos 0) pass.clock (kept_days deps (resolve none)) classes)
      fresh
      (run_once add_days (pos 0) pass deps (some none) fresh)
    × (run_once add_days (pos 0) pass deps none fresh ≡ fresh)
run_once-IsAfter_example = run_once-IsAfter add_days (pos 0) pass deps none fresh (λ c. refl)
