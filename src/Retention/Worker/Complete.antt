-- ===== src/Retention/Worker/Complete.antt =====
-- A pass prunes every class that is due, whatever becomes of the others.
use panmail.Retention.{Policy, cutoff, Settings, clamp_days, resolve}
use panmail.Retention.Worker.{
  Class, Pass, run_jobs, Pruned, run, Job, Totals, run_before, cutoff, run_once, Deps, jobs,
  event_jobs, minute_series_days, events, messages, archives, minute_series, resource_history,
  analytics_series, app_logs, inbound, inbound_receipts, quarantine, push_to_workers,
}
use panmail.Base.Int.{ℤ, leb_ℤ, pos, ◌-ℤ◌, min_ℤ}
use panmail.Base.{
  [], false, if◌then◌else◌, refl, true, ◌∷◌, List, ℕ, ◌+◌, ◌≡◌, sym, ◌++◌, inl, inr, none, some,
  arith, Bool-cases, Option, ◌∙◌, ap, subst, Option-cases, ◌&&◌,
}
use mathlib.Core.List.{append-nil, append_assoc}

-- Every class, each once.
abbrev pub classes : List Class
classes =
    events ∷ messages ∷ archives ∷ minute_series ∷ resource_history ∷ analytics_series ∷ app_logs
    ∷ inbound ∷ inbound_receipts ∷ quarantine ∷ []

-- The minutes are kept as long as the analytics are, and no longer than a month.
unfoldable pub minute_days : Policy → ℤ
minute_days p = if leb_ℤ p.analytics_days (pos 0) then pos 30 else min_ℤ p.analytics_days (pos 30)

-- How long the data of a class is kept, where the deployment has it: the telemetry hangs on the
-- store of the events.
abbrev pub kept_days : Deps → Policy → Class → Option ℤ
kept_days d p events = if d.has_events then some p.event_days else none
kept_days d p messages = if d.has_events then some p.message_days else none
kept_days d p archives = if d.has_events then some p.archive_days else none
kept_days d p minute_series = if d.has_events && d.has_telemetry then some (minute_days p) else none
kept_days d p resource_history = if d.has_events && d.has_telemetry then some (pos 7) else none
kept_days d p analytics_series =
    if d.has_events && d.has_analytics then some p.analytics_days else none
kept_days d p app_logs = if d.has_logs then some p.app_log_days else none
kept_days d p inbound = if d.has_inbound then some p.inbound_days else none
kept_days d p inbound_receipts = if d.has_receipts then some (pos 7) else none
kept_days d p quarantine = if d.has_quarantine then some p.quarantine_days else none

unfoldable pub owed_jobs : (Class → Option ℤ) → List Class → List Job
owed_jobs days_of [] = []
owed_jobs days_of (c ∷ cs) =
    let rest = owed_jobs days_of cs in
    elim (days_of c) [ none ↦ rest | some days ↦ record { class = c; days = days } ∷ rest ]

clamp_days-min : (days : ℤ) → leb_ℤ days (pos 0) ≡ false → clamp_days days ≡ min_ℤ days (pos 3650)
unfolding clamp_days min_ℤ
clamp_days-min days h = ground arith

minute_series_days-min : (p : Policy) → minute_series_days p ≡ minute_days p
unfolding minute_series_days minute_days min_ℤ
minute_series_days-min p = ground arith

jobs-owed : (d : Deps) (p : Policy) → jobs d p ≡ owed_jobs (kept_days d p) classes
unfolding jobs owed_jobs event_jobs
jobs-owed d p = ground (arith, minute_series_days-min p)

module _ {ℓ} {Time : Type ℓ} (add_days : Time → ℤ → Time) (zero_time : Time) where
  -- The prunes of the jobs that a pass runs.
  unfoldable job_prunes : (Class → Time) → List Job → List (Class × Time)
  job_prunes clock [] = []
  job_prunes clock (j ∷ js) =
      let (before, due) = cutoff add_days zero_time j.days (clock j.class) in
      let rest = job_prunes clock js in if due then (j.class, before) ∷ rest else rest

  -- The prunes of a table of retentions: of each class that has one above zero, of what is older
  -- than so many days, or than ten years.
  unfoldable pub due_prunes : (Class → Time) → (Class → Option ℤ) → List Class → List (Class × Time)
  due_prunes clock days_of [] = []
  due_prunes clock days_of (c ∷ cs) =
      let rest = due_prunes clock days_of cs in
      elim (days_of c) [
        | none ↦ rest
        | some days ↦
            if leb_ℤ days (pos 0)
            then rest
            else (c, add_days (clock c) (pos 0 -ℤ min_ℤ days (pos 3650))) ∷ rest
      ]

  days_prunes :
      (clock : Class → Time) (c : Class) (days : ℤ) (rest jobs : List (Class × Time))
      → jobs ≡ rest
      → (let (before, due) = cutoff add_days zero_time days (clock c) in
          if due then (c, before) ∷ jobs else jobs)
        ≡ (if leb_ℤ days (pos 0)
            then rest
            else (c, add_days (clock c) (pos 0 -ℤ min_ℤ days (pos 3650))) ∷ rest)
  unfolding cutoff
  days_prunes clock c days rest jobs same = elim (Bool-cases (leb_ℤ days (pos 0))) [
    | inl e ↦ rw (e, same) refl
    | inr e ↦ rw (e, same, clamp_days-min days e) refl
  ]

  job_prunes-owed :
      (clock : Class → Time) (days_of : Class → Option ℤ) (cs : List Class)
      → job_prunes clock (owed_jobs days_of cs) ≡ due_prunes clock days_of cs
  unfolding job_prunes due_prunes owed_jobs
  job_prunes-owed clock days_of [] = refl
  job_prunes-owed clock days_of (c ∷ cs) = elim (Option-cases (days_of c)) [
    | inl e ↦ rw (e, owed_jobs, due_prunes) (job_prunes-owed clock days_of cs)
    | inr (days, e) ↦
        rw (e, owed_jobs, due_prunes)
          (days_prunes clock c days (due_prunes clock days_of cs)
            (job_prunes clock (owed_jobs days_of cs)) (job_prunes-owed clock days_of cs))
  ]

  unfoldable pub all_removed : (Class → Time → Pruned) → List (Class × Time) → ℕ
  all_removed prune [] = 0
  all_removed prune ((c, before) ∷ rest) = (prune c before).removed + all_removed prune rest

  unfoldable pub all_failed : (Class → Time → Pruned) → List (Class × Time) → ℕ
  all_failed prune [] = 0
  all_failed prune ((c, before) ∷ rest) =
      (if (prune c before).failed then 1 else 0) + all_failed prune rest

  -- What the totals say after some prunes.
  pub record IsAfter (k : Pass add_days zero_time) (done : List (Class × Time))
      (t after : Totals add_days zero_time) : Type ℓ where
    pub prunes : after.prunes ≡ t.prunes ++ done
    pub removed : after.removed ≡ t.removed + all_removed k.prune done
    pub failures : after.failures ≡ t.failures + all_failed k.prune done
    pub completed : after.completed ≡ true

  run_jobs-IsAfter :
      (k : Pass add_days zero_time) (js : List Job) (t : Totals add_days zero_time)
      → ((c : Class) → k.stopped c ≡ false)
      → IsAfter k (job_prunes k.clock js) t (run_jobs add_days zero_time k js t)
  unfolding cutoff run_jobs run run_before job_prunes all_removed all_failed
  run_jobs-IsAfter k [] t free = record {
    prunes = sym (append-nil t.prunes);
    removed = omega arith;
    failures = omega arith;
    completed = refl;
  }
  run_jobs-IsAfter k (j ∷ js) t free = elim (Bool-cases (leb_ℤ j.days (pos 0))) [
    | inl e ↦ let after = run_jobs-IsAfter k js t free in rw (free j.class, e) after
    | inr e ↦
        let before = add_days (k.clock j.class) (pos 0 -ℤ clamp_days j.days) in
        let after = run_jobs-IsAfter k js (run_before add_days zero_time k j before t) free in
        rw (free j.class, e)
          (record {
            prunes =
                after.prunes
                ∙ append_assoc t.prunes ((j.class, before) ∷ []) (job_prunes k.clock js);
            removed = omega (arith, after.removed);
            failures = omega (arith, after.failures);
            completed = after.completed;
          })
  ]

  -- A pass that is not cut short prunes every class that the deployment has and that its policy
  -- does not keep forever, once each, of what is older than its own retention in days, or than 3650
  -- days; whichever of the prunes fail; what the failed ones
  -- removed before failing is counted too, and each failure. It prunes nothing if the settings
  -- cannot be read.
  pub run_once-IsAfter :
      (k : Pass add_days zero_time) (d : Deps) (settings : Option Settings)
      (t : Totals add_days zero_time)
      → ((c : Class) → k.stopped c ≡ false)
      → IsAfter k
          (due_prunes k.clock (kept_days d (resolve settings)) classes)
          t
          (run_once add_days zero_time k d (some settings) t)
        × (run_once add_days zero_time k d none t ≡ t)
  unfolding run_once
  run_once-IsAfter k d settings t free =
      let p = resolve settings in
      let started = record t { pushed = some (push_to_workers p); expired = d.has_reviews } in
      let same =
        ap (job_prunes k.clock) (jobs-owed d p) ∙ job_prunes-owed k.clock (kept_days d p) classes in
      let after =
        subst (λ ps. IsAfter k ps started (run_jobs add_days zero_time k (jobs d p) started)) same
          (run_jobs-IsAfter k (jobs d p) started free) in
      (
        record {
          prunes = after.prunes;
          removed = after.removed;
          failures = after.failures;
          completed = after.completed;
        },
        refl,
      )
