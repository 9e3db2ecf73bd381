-- ===== src/AttemptLimiter/Window.antt =====
-- How many attempts on one subject a block period can hold.
use panmail.AttemptLimiter.Begins.{begin_other, begin-IsWatched_first, begin-IsWatched_self}
use panmail.AttemptLimiter.Counted.{IsCounted, IsCounted-pruned}
use panmail.AttemptLimiter.Endings.{after, ends_open, ends_settled}
use panmail.AttemptLimiter.Pruned.{maybe_sweep-IsPruned}
use panmail.AttemptLimiter.Settled.{IsCounted-take_step, end_attempt-open, end_attempt-settled}
use panmail.AttemptLimiter.Tries.{
  IsGuarded, IsSafe, Reach, count_try-le, is_calm, is_failed_try, is_open_try, is_success, is_try,
  new, next, none_open, note_other, note_self, open-le-runs,
}
use panmail.AttemptLimiter.Watch.{IsWatched-le, IsWatched-maybe_sweep}
use panmail.AttemptLimiter.World.{
  Ending, Operation, Ticket, World, abandonment, begins, count, ends, failure, note, success,
  take_step, time_of,
}
use panmail.AttemptLimiter.{Config, Limiter, begin, maybe_sweep}
use panmail.Base.Dict.{lookup}
use panmail.Base.{
  Bool-cases, Option-cases, String, arith, false, filter, get_elem?, inl, inr, leb, length, refl,
  some, subst, true, ℕ, ◌&&◌, ◌+◌, ◌<◌, ◌≡◌, ◌≤◌,
}
use text.Mathlib.Text.{◌==◌}
use text.Mathlib.TextEquality.{eq_iff}

module _ (c : Config) (start : ℕ) (s : String) (positive : 0 < c.max) (w : World)
    (h : IsCounted w.limiter w.tickets) where
  module _ (now : ℕ) (k : String) (later : w.clock ≤ now) (within : now < start + c.block_for)
      (room : start ≤ now → length w.limiter.records < c.capacity) where
    swept : Limiter
    swept = maybe_sweep c w.limiter now

    swept-IsCounted : IsCounted swept w.tickets
    unfolding swept
    swept-IsCounted = IsCounted-pruned (maybe_sweep-IsPruned c w.limiter now) h

    swept_room : start ≤ now → length swept.records < c.capacity
    unfolding swept
    swept_room since = omega (arith, room since, (maybe_sweep-IsPruned c w.limiter now).fewer)

    -- A begin that is no try of the period.
    begins_other :
        (k == s && leb start now) ≡ false
        → IsSafe c start s w
        → IsSafe c start s (take_step c (begins now k) w)
    unfolding take_step begin swept
    begins_other e (inl z) =
        let (opens, fails, all) =
          note_other c start s k now (begin c w.limiter k now).1 w.tickets e in
        inl (omega (arith, opens, fails, z))
    begins_other e (inr g) =
        let (opens, fails, all) =
          note_other c start s k now (begin c w.limiter k now).1 w.tickets e in
        let ne : (k == s) ≡ false = ground (arith, e, g.begun, later) in
        inr record {
          record_ref = g.record_ref;
          watched = rw fails (
              begin_other c start s now within (count (is_failed_try s start) w.tickets)
                g.record_ref k swept ne (swept_room (omega (arith, g.begun, later))) swept-IsCounted
                (IsWatched-maybe_sweep c start s now within _ g.record_ref w.limiter g.watched));
          shared = all g.record_ref g.shared;
          budget = omega (arith, opens, fails, g.budget);
          begun = omega (arith, g.begun, later);
        }

  -- A try of the period.
  module _ (now : ℕ) (later : w.clock ≤ now) (since : start ≤ now)
      (within : now < start + c.block_for) where
    begins_first :
        (count (is_open_try s start) w.tickets + count (is_failed_try s start) w.tickets ≡ 0)
        → IsSafe c start s (take_step c (begins now s) w)
    unfolding take_step begin
    begins_first z =
        elim (begin-IsWatched_first c start s now within (maybe_sweep c w.limiter now) since) [
          | inl (d, e) ↦ inl (unfold note in rw e z)
          | inr (p, e, watched) ↦
              let (opens, fails, all) = note_self c start s now p w.tickets since in
              inr (
                rw e record {
                  record_ref = p;
                  watched = IsWatched-le c start s _ 0 p _ (omega (arith, fails, z)) watched;
                  shared = all (none_open c start s p w.tickets (omega (arith, z)));
                  budget = omega (arith, opens, fails, z, positive);
                  begun = since;
                })
        ]

    begins_again :
        IsGuarded c start s w.clock w.limiter w.tickets
        → IsSafe c start s (take_step c (begins now s) w)
    unfolding take_step begin
    begins_again g =
        let p = g.record_ref in
        let pruned = maybe_sweep-IsPruned c w.limiter now in
        let (watched, outcome) =
          begin-IsWatched_self c start s now within (count (is_failed_try s start) w.tickets) p
            (maybe_sweep c w.limiter now) since
            (IsWatched-maybe_sweep c start s now within _ p w.limiter g.watched) in
        elim outcome [
          | inl (d, e) ↦ inr (
              unfold note in
              rw e record {
                record_ref = p;
                watched = watched;
                shared = g.shared;
                budget = g.budget;
                begun = since;
              })
          | inr (e, room) ↦
              let (opens, fails, all) = note_self c start s now p w.tickets since in
              let room' : (w.limiter.heap p).failures + (w.limiter.heap p).in_flight < c.max =
                rw (← pruned.heap) room in
              inr (
                rw e record {
                  record_ref = p;
                  watched = rw fails watched;
                  shared = all g.shared;
                  budget = omega (
                    arith,
                    opens,
                    fails,
                    room',
                    g.watched.fresh.failures,
                    h.counted p ((h.keyed s p g.watched.tracked).0),
                    open-le-runs c start s p w.tickets g.shared,
                  );
                  begun = since;
                })
        ]

  tried :
      (now : ℕ)
      → w.clock ≤ now
      → start ≤ now
      → now < start + c.block_for
      → IsSafe c start s w
      → IsSafe c start s (take_step c (begins now s) w)
  tried now later since within (inl z) = begins_first now later since within z
  tried now later since within (inr g) = begins_again now later since within g

  later-IsSafe :
      (now : ℕ) → w.clock ≤ now → IsSafe c start s w → IsSafe c start s (record w { clock = now })
  later-IsSafe now later (inl z) = inl z
  later-IsSafe now later (inr g) = inr record {
    record_ref = g.record_ref;
    watched = g.watched;
    shared = g.shared;
    budget = g.budget;
    begun = omega (arith, g.begun, later);
  }

  calm_success :
      (now i : ℕ) (e : Ending) (t : Ticket)
      → get_elem? w.tickets i ≡ some t
      → is_calm s c (ends now i e) w ≡ true
      → e ≡ success
      → (t.subject == s) ≡ false
  unfolding is_calm is_success
  calm_success now i success t f calm ok = ground (arith, calm, f)
  calm_success now i failure t f calm ok = absurd (ground (arith, ok))
  calm_success now i abandonment t f calm ok = absurd (ground (arith, ok))

  calm_room : (o : Operation) → is_calm s c o w ≡ true → length w.limiter.records < c.capacity
  unfolding is_calm
  calm_room o calm = ground (arith, calm)

  begins-IsSafe :
      (now : ℕ) (k : String)
      → w.clock ≤ now
      → now < start + c.block_for
      → (start ≤ now → length w.limiter.records < c.capacity)
      → IsSafe c start s w
      → IsSafe c start s (take_step c (begins now k) w)
  begins-IsSafe now k later within room safe = elim (Bool-cases (k == s && leb start now)) [
    | inr e ↦ begins_other now k later within room e safe
    | inl e ↦
        let same : s ≡ k = ground (arith, e, eq_iff k s) in
        let since : start ≤ now = ground (arith, e) in
        subst (λ x. IsSafe c start s (take_step c (begins now x) w)) same
          (tried now later since within safe)
  ]

  ends-IsSafe :
      (now i : ℕ) (e : Ending)
      → w.clock ≤ now
      → (start ≤ now → is_calm s c (ends now i e) w ≡ true)
      → IsSafe c start s w
      → IsSafe c start s (take_step c (ends now i e) w)
  unfolding take_step
  ends-IsSafe now i e later calm safe = elim (Option-cases (get_elem? w.tickets i)) [
    | inl n ↦ rw (n, take_step) (later-IsSafe now later safe)
    | inr (t, f) ↦ elim (Bool-cases t.attempt.settled) [
      | inl q ↦
          rw (f, take_step)
            (rw (end_attempt-settled c now e w.limiter t.attempt q) (
              unfold after in
              ends_settled c start s now i e t w h later
                (λ since. calm_room (ends now i e) (calm since))
                (λ since. calm_success now i e t f (calm since)) f q safe))
      | inr q ↦
          rw (f, take_step)
            (rw (end_attempt-open c now e w.limiter t.attempt q) (
              unfold after in
              ends_open c start s now i e t w h later
                (λ since. calm_room (ends now i e) (calm since))
                (λ since. calm_success now i e t f (calm since)) f q safe))
    ]
  ]

step-IsSafe :
    (c : Config) (start : ℕ) (s : String) (w : World) (o : Operation)
    → 0 < c.max
    → IsCounted w.limiter w.tickets
    → w.clock ≤ time_of o
    → time_of o < start + c.block_for
    → (start ≤ time_of o → is_calm s c o w ≡ true)
    → IsSafe c start s w
    → IsSafe c start s (take_step c o w)
step-IsSafe c start s w (begins now k) positive h later within calm safe =
    begins-IsSafe c start s positive w h now k later within
      (λ since. calm_room c start s positive w h (begins now k) (calm since)) safe
step-IsSafe c start s w (ends now i e) positive h later within calm safe =
    ends-IsSafe c start s positive w h now i e later calm safe

Reach-IsCounted :
    (c : Config) (start : ℕ) (s : String) {w : World}
    → Reach c start s w
    → IsCounted w.limiter w.tickets
unfolding filter lookup
Reach-IsCounted c start s new = record {
  counted = λ p lt. absurd (omega (arith, lt));
  known = tt;
  keyed = λ k p e. absurd (ground (arith, e));
}
Reach-IsCounted c start s (next {w} o r later within calm) =
    IsCounted-take_step c o w (Reach-IsCounted c start s r)

Reach-IsSafe :
    (c : Config) (start : ℕ) (s : String) {w : World}
    → 0 < c.max
    → Reach c start s w
    → IsSafe c start s w
unfolding filter
Reach-IsSafe c start s positive new = inl refl
Reach-IsSafe c start s positive (next {w} o r later within calm) =
    step-IsSafe c start s w o positive (Reach-IsCounted c start s r) later within calm
      (Reach-IsSafe c start s positive r)

-- Guessing is bounded. Take any period no longer than a lockout, and any history of sign-ins before
-- and in it, under way at the same time as they may be, under a clock that does not go back. If in
-- the period no attempt on the subject succeeds and the map has room for another record whenever an
-- operation begins, then no more attempts on the subject that began in it are running or have
-- failed
-- than the limit allows; the limit is not zero.
pub Reach-tries :
    (c : Config) (start : ℕ) (s : String) {w : World}
    → 0 < c.max
    → Reach c start s w
    → count (is_try s start) w.tickets ≤ c.max
Reach-tries c start s {w} positive r = elim (Reach-IsSafe c start s positive r) [
  | inl z ↦ omega (arith, z, count_try-le c start s w.tickets)
  | inr g ↦ omega (arith, g.budget, count_try-le c start s w.tickets)
]
