-- ===== src/Retention/Worker.antt =====
-- internal/retention/worker.go: one pass over the classes of data, each pruned by its own store.
--
-- The stores, the clock and the end of the pass's context are arguments, each asked once for a
-- class; the workers that prune for themselves are all there. The totals that the worker keeps are
-- with the prunes that it made, in order.
pub mod Complete
mod Examples
use panmail.Retention.{Policy, cutoff, duration, Settings, resolve}
use panmail.Base.Int.{ℤ, ltb_ℤ, pos}
use panmail.Base.{[], if◌then◌else◌, none, some, true, ◌∷◌, Bool, ℕ, List, Option, ◌+◌, ◌&&◌, ◌++◌}

pub data Class : Type 0 where
  events messages archives app_logs inbound : Class
  inbound_receipts quarantine minute_series analytics_series resource_history : Class

-- Which of the stores the worker was given.
pub record Deps : Type 0 where
  pub has_events : Bool
  pub has_telemetry : Bool
  pub has_analytics : Bool
  pub has_logs : Bool
  pub has_inbound : Bool
  pub has_receipts : Bool
  pub has_quarantine : Bool
  -- The review queue whose held messages expire.
  pub has_reviews : Bool

pub record Job : Type 0 where
  pub class : Class
  pub days : ℤ

abbrev pub minute_series_limit : ℤ
minute_series_limit = pos 30

abbrev pub resource_history_days : ℤ
resource_history_days = pos 7

abbrev pub inbound_receipt_days : ℤ
inbound_receipt_days = pos 7

unfoldable pub minute_series_days : Policy → ℤ
minute_series_days p =
    if ltb_ℤ (pos 0) p.analytics_days && ltb_ℤ p.analytics_days minute_series_limit
    then p.analytics_days
    else minute_series_limit

abbrev pub job : Class → ℤ → Job
job class days = record { class = class; days = days }

abbrev pub if_given {ℓ} : {A : Type ℓ} → Bool → List A → List A
if_given b xs = if b then xs else []

unfoldable pub event_jobs : Deps → Policy → List Job
event_jobs d p =
    job events p.event_days
      ∷ job messages p.message_days
      ∷ job archives p.archive_days
      ∷ if_given d.has_telemetry (
          job minute_series (minute_series_days p)
          ∷ job resource_history resource_history_days
          ∷ [])
    ++ if_given d.has_analytics (job analytics_series p.analytics_days ∷ [])

unfoldable pub jobs : Deps → Policy → List Job
jobs d p =
    if_given d.has_events (event_jobs d p)
    ++ if_given d.has_logs (job app_logs p.app_log_days ∷ [])
    ++ if_given d.has_inbound (job inbound p.inbound_days ∷ [])
    ++ if_given d.has_receipts (job inbound_receipts inbound_receipt_days ∷ [])
    ++ if_given d.has_quarantine (job quarantine p.quarantine_days ∷ [])

-- What a prune answers: how much it removed, and whether it failed, maybe half-way.
pub record Pruned : Type 0 where
  pub removed : ℕ
  pub failed : Bool

-- The retentions pushed to the workers that prune for themselves.
pub record Pushed : Type 0 where
  pub outbox : ℤ
  pub webhooks : ℤ
  pub quarantined : ℤ

unfoldable pub push_to_workers : Policy → Pushed
push_to_workers p = record {
  outbox = duration p.outbox_days;
  webhooks = duration p.webhook_days;
  quarantined = duration p.quarantine_days;
}

module _ {ℓ} {Time : Type ℓ} (add_days : Time → ℤ → Time) (zero_time : Time) where
  pub record Totals : Type ℓ where
    pub removed : ℕ
    pub failures : ℕ
    pub prunes : List (Class × Time)
    pub pushed : Option Pushed
    pub expired : Bool
    pub completed : Bool

  -- What the worker meets in a pass.
  pub record Pass : Type ℓ where
    pub clock : Class → Time
    pub stopped : Class → Bool
    pub prune : Class → Time → Pruned

  unfoldable pub run_before : Pass → Job → Time → Totals → Totals
  run_before k j before t = record t {
    removed = t.removed + (k.prune j.class before).removed;
    failures = t.failures + (if (k.prune j.class before).failed then 1 else 0);
    prunes = t.prunes ++ (j.class, before) ∷ [];
  }

  unfoldable pub run : Pass → Job → Totals → Totals
  run k j t =
      let (before, due) = cutoff add_days zero_time j.days (k.clock j.class) in
      if due then run_before k j before t else t

  -- The loop over the jobs, which the end of the context cuts short.
  unfoldable pub run_jobs : Pass → List Job → Totals → Totals
  run_jobs k [] t = record t { completed = true }
  run_jobs k (j ∷ js) t =
      let after = run_jobs k js (run k j t) in if k.stopped j.class then t else after

  -- `RunOnce` on the settings as they were read, if they could be.
  unfoldable pub run_once : Pass → Deps → Option (Option Settings) → Totals → Totals
  run_once k d none t = t
  run_once k d (some settings) t =
      let p = resolve settings in
      run_jobs k (jobs d p)
        (record t { pushed = some (push_to_workers p); expired = d.has_reviews })
