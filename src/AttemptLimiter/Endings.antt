-- ===== src/AttemptLimiter/Endings.antt =====
-- What the end of an attempt does to the tries of a block period.
use panmail.AttemptLimiter.Counted.{IsCounted}
use panmail.AttemptLimiter.Settled.{All-set, count-set, effect, get_elem?-All, over}
use panmail.AttemptLimiter.Tries.{IsSafe, is_failed_try, is_open_try, is_recent}
use panmail.AttemptLimiter.Watch.{
  IsWatched, IsWatched-count_failure, IsWatched-le, IsWatched-release, IsWatched-remove,
}
use panmail.AttemptLimiter.World.{
  Ending, Ticket, World, abandonment, count, ended, failure, is_failure, set, success,
}
use panmail.AttemptLimiter.{Config, Limiter, release, write}
use panmail.Base.{
  ◌==◌ as nat_eq, All, Bool-cases, List, String, arith, false, filter, get_elem?, inl, inr, length,
  refl, some, true, ℕ, ◌&&◌, ◌+◌, ◌<◌, ◌≡◌, ◌≤◌, if◌then◌else◌, ◌≢◌, sym,
}
use text.Mathlib.Text.{◌==◌}
use text.Mathlib.TextEquality.{eq_iff}

module _ (c : Config) (start : ℕ) (s : String) (now i : ℕ) (e : Ending) (t : Ticket)
    (ts : List Ticket) (found : get_elem? ts i ≡ some t) where
  unfoldable pub after : List Ticket
  after = set ts i (ended e (over t.attempt) t)

  after-shared :
      (p : ℕ)
      → All (λ u. is_open_try s start u ≡ true → u.attempt.rec ≡ p) ts
      → All (λ u. is_open_try s start u ≡ true → u.attempt.rec ≡ p) after
  unfolding after ended over is_open_try
  after-shared p h = All-set _ ts i _ h (λ q. absurd (ground (arith, q)))

  settled_counts :
      t.attempt.settled ≡ true
      → (count (is_open_try s start) after ≡ count (is_open_try s start) ts)
        × (count (is_failed_try s start) after ≡ count (is_failed_try s start) ts)
  unfolding after ended over is_open_try is_failed_try filter
  settled_counts q = (
    ground (arith, q, count-set (is_open_try s start) ts i t (ended e (over t.attempt) t) found),
    ground (arith, q, count-set (is_failed_try s start) ts i t (ended e (over t.attempt) t) found),
  )

  -- An end moves at most the ended try from the open ones to the failed ones.
  open_counts :
      t.attempt.settled ≡ false
      → (count (is_open_try s start) after + count (is_failed_try s start) after
          ≤ count (is_open_try s start) ts + count (is_failed_try s start) ts)
        × (count (is_failed_try s start) after ≤ (
            if is_failure e && is_recent s start t
            then count (is_failed_try s start) ts + 1
            else count (is_failed_try s start) ts))
  unfolding after ended over is_open_try is_failed_try filter is_recent
  open_counts q = (
    ground (
      arith,
      q,
      count-set (is_open_try s start) ts i t (ended e (over t.attempt) t) found,
      count-set (is_failed_try s start) ts i t (ended e (over t.attempt) t) found,
    ),
    ground (arith, q, count-set (is_failed_try s start) ts i t (ended e (over t.attempt) t) found),
  )

  IsWatched-effect :
      (n p : ℕ) (l : Limiter)
      → start ≤ now
      → length l.records < c.capacity
      → (e ≡ success → t.attempt.rec ≢ p)
      → IsWatched c start s n p l
      → IsWatched c start s
          (if is_failure e && nat_eq p t.attempt.rec then n + 1 else n)
          p
          (effect c now e l t.attempt.rec)
  unfolding effect is_failure
  IsWatched-effect n p l since room ne w = by_ending e ne
    where
      by_ending :
          (e : Ending)
          → (e ≡ success → t.attempt.rec ≢ p)
          → IsWatched c start s
              (if is_failure e && nat_eq p t.attempt.rec then n + 1 else n)
              p
              (effect c now e l t.attempt.rec)
      by_ending success ne = IsWatched-remove c start s n p t.attempt.rec l (ne refl) w
      by_ending failure ne = IsWatched-count_failure c start s now since n p t.attempt.rec l room w
      by_ending abandonment ne = w

module _ (c : Config) (start : ℕ) (s : String) (now i : ℕ) (e : Ending) (t : Ticket) (w : World)
    (h : IsCounted w.limiter w.tickets) (later : w.clock ≤ now)
    (room : start ≤ now → length w.limiter.records < c.capacity)
    (no_success : start ≤ now → e ≡ success → (t.subject == s) ≡ false)
    (found : get_elem? w.tickets i ≡ some t) where
  pub ends_settled :
      t.attempt.settled ≡ true
      → IsSafe c start s w
      → IsSafe c start s (record {
        limiter = w.limiter;
        clock = now;
        tickets = after c start s now i e t w.tickets found;
      })
  ends_settled q (inl z) =
      let (opens, fails) = settled_counts c start s now i e t w.tickets found q in
      inl (omega (arith, opens, fails, z))
  ends_settled q (inr g) =
      let (opens, fails) = settled_counts c start s now i e t w.tickets found q in
      inr record {
        record_ref = g.record_ref;
        watched = rw fails g.watched;
        shared = after-shared c start s now i e t w.tickets found g.record_ref g.shared;
        budget = omega (arith, opens, fails, g.budget);
        begun = omega (arith, g.begun, later);
      }

  pub ends_open :
      t.attempt.settled ≡ false
      → IsSafe c start s w
      → IsSafe c start s (record {
        limiter = effect c now e (release t.attempt.rec w.limiter) t.attempt.rec;
        clock = now;
        tickets = after c start s now i e t w.tickets found;
      })
  ends_open q (inl z) =
      let (sum, fails) = open_counts c start s now i e t w.tickets found q in
      inl (omega (arith, sum, z))
  ends_open q (inr g) =
      let (sum, fails) = open_counts c start s now i e t w.tickets found q in
      let p = g.record_ref in
      let since : start ≤ now = omega (arith, g.begun, later) in
      let known = get_elem?-All _ w.tickets i t h.known found in
      let apart : e ≡ success → t.attempt.rec ≢ p = λ ok same. ground (
        arith,
        no_success since ok,
        known,
        same,
        h.keyed s p g.watched.tracked,
        eq_iff t.subject s,
      ) in
      let shares : is_recent s start t ≡ true → p ≡ t.attempt.rec = λ r.
        let same = get_elem?-All _ w.tickets i t g.shared found in
        sym (same (unfold is_open_try is_recent in ground (arith, q, r))) in
      let bound : count (is_failed_try s start) (after c start s now i e t w.tickets found) ≤ (
          if is_failure e && nat_eq p t.attempt.rec
          then count (is_failed_try s start) w.tickets + 1
          else count (is_failed_try s start) w.tickets) =
        elim (Bool-cases (is_recent s start t)) [
          | inl r ↦ ground (arith, fails, r, shares r)
          | inr r ↦ ground (arith, fails, r)
        ] in
      inr record {
        record_ref = p;
        watched = IsWatched-le c start s _ _ p _ bound (
            IsWatched-effect c start s now i e t w.tickets found
              (count (is_failed_try s start) w.tickets) p (release t.attempt.rec w.limiter) since
              (unfold release write in room since) apart
              (IsWatched-release c start s _ p t.attempt.rec w.limiter g.watched));
        shared = after-shared c start s now i e t w.tickets found p g.shared;
        budget = omega (arith, sum, g.budget);
        begun = since;
      }
