-- ===== src/AttemptLimiter/Watch.antt =====
-- The record of one subject while it has an attempt of the last block period on it.
use panmail.AttemptLimiter.Pruned.{make_room-lt}
use panmail.AttemptLimiter.{
  AttemptRecord, Config, Limiter, add_failures, count_failure, is_stale, is_tracked, maybe_sweep,
  release, remove, restore, sweep, track, write,
}
use panmail.Base.Dict.{Dict, lookup, lookup-delete, lookup-put}
use panmail.Base.{
  if◌then◌else◌, ◌==◌ as nat_eq, Bool-cases, Option-cases, String, [], arith, false, inl, inr,
  length, some, subst, true, ℕ, ◌+◌, ◌-◌, ◌<◌, ◌≡◌, ◌≤◌, ◌∷◌, ◌⊎◌, ltb, ==_iff, ◌≢◌,
}
use text.Mathlib.Text.{◌==◌}
use text.Mathlib.TextEquality.{eq_iff}

module _ (c : Config) (start : ℕ) (s : String) where
  -- It has these failures, no lockout that ends within the period, and an attempt since its start.
  pub record IsFresh (n : ℕ) (r : AttemptRecord) : Type 0 where
    pub failures : n ≤ r.failures
    pub lock : (r.blocked_until ≡ 0) ⊎ (start + c.block_for ≤ r.blocked_until)
    pub recent : start ≤ r.last_try

  pub record IsWatched (n p : ℕ) (l : Limiter) : Type 0 where
    pub tracked : lookup s l.records ≡ some p
    pub fresh : IsFresh n (l.heap p)

  pub IsWatched-le : (m n p : ℕ) (l : Limiter) → m ≤ n → IsWatched n p l → IsWatched m p l
  IsWatched-le m n p l le h = record {
    tracked = h.tracked;
    fresh = record {
      failures = omega (arith, le, h.fresh.failures);
      lock = h.fresh.lock;
      recent = h.fresh.recent;
    };
  }

  pub IsWatched-remove :
      (n p q : ℕ) (l : Limiter) → q ≢ p → IsWatched n p l → IsWatched n p (remove l q)
  unfolding remove is_tracked
  IsWatched-remove n p q l ne h = record {
    tracked = ground (
      arith,
      h.tracked,
      lookup-delete (l.heap q).subject s l.records,
      ne,
      eq_iff (l.heap q).subject s,
      ==_iff p q,
    );
    fresh = h.fresh;
  }

  pub write_other :
      (n p q : ℕ) (r : AttemptRecord) (l : Limiter)
      → nat_eq p q ≡ false
      → IsWatched n p l
      → IsWatched n p (write q r l)
  unfolding write
  write_other n p q r l ne h = record { tracked = h.tracked; fresh = rw ne h.fresh }

  pub write_self :
      (n p q : ℕ) (r : AttemptRecord) (l : Limiter)
      → nat_eq p q ≡ true
      → lookup s l.records ≡ some p
      → IsFresh n r
      → IsWatched n p (write q r l)
  unfolding write
  write_self n p q r l same t h = record { tracked = t; fresh = rw same h }

  -- A write that keeps what is watched, wherever it goes.
  write_any :
      (n p q : ℕ) (f : AttemptRecord → AttemptRecord) (l : Limiter)
      → ((r : AttemptRecord) → IsFresh n r → IsFresh n (f r))
      → IsWatched n p l
      → IsWatched n p (write q (f (l.heap q)) l)
  write_any n p q f l keep h = elim (Bool-cases (nat_eq p q)) [
    | inr ne ↦ write_other n p q (f (l.heap q)) l ne h
    | inl e ↦
        let same : p ≡ q = ground (arith, e) in
        write_self n p q (f (l.heap q)) l e h.tracked
          (keep (l.heap q) (subst (λ x. IsFresh n (l.heap x)) same h.fresh))
  ]

  pub IsWatched-track :
      (n p q : ℕ) (k : String) (l : Limiter)
      → (k == s) ≡ false
      → IsWatched n p l
      → IsWatched n p (track k q l)
  unfolding track
  IsWatched-track n p q k l ne h = record {
    tracked = ground (arith, lookup-put k s q l.records, ne, h.tracked);
    fresh = h.fresh;
  }

  pub IsWatched-release : (n p q : ℕ) (l : Limiter) → IsWatched n p l → IsWatched n p (release q l)
  unfolding release
  IsWatched-release n p q l h =
      write_any n p q (λ r. record r { in_flight = r.in_flight - 1 }) l
        (λ r f. record { failures = f.failures; lock = f.lock; recent = f.recent }) h

  module _ (now : ℕ) (within : now < start + c.block_for) where
    IsFresh-is_stale : (n : ℕ) (r : AttemptRecord) → IsFresh n r → is_stale c now r ≡ false
    unfolding is_stale
    IsFresh-is_stale n r h = ground (arith, h.recent)

    IsWatched-sweep :
        (n p : ℕ) (entries : Dict ℕ) (l : Limiter)
        → IsWatched n p l
        → IsWatched n p (sweep c now entries l)
    unfolding sweep
    IsWatched-sweep n p [] l h = h
    IsWatched-sweep n p ((k, q) ∷ rest) l h = elim (Bool-cases (is_stale c now (l.heap q))) [
      | inl e ↦
          let ne : q ≢ p = λ same.
            let f = IsFresh-is_stale n (l.heap p) h.fresh in
            let e' = subst (λ x. is_stale c now (l.heap x) ≡ true) same e in cc in
          rw e (IsWatched-sweep n p rest (remove l q) (IsWatched-remove n p q l ne h))
      | inr e ↦ rw e (IsWatched-sweep n p rest l h)
    ]

    pub IsWatched-maybe_sweep :
        (n p : ℕ) (l : Limiter) → IsWatched n p l → IsWatched n p (maybe_sweep c l now)
    unfolding maybe_sweep
    IsWatched-maybe_sweep n p l h = elim (Bool-cases (ltb (now - l.last_sweep) 60000000000)) [
      | inl e ↦ rw e h
      | inr e ↦ rw e (
          IsWatched-sweep n p l.records (record l { last_sweep = now })
            record { tracked = h.tracked; fresh = h.fresh })
    ]

  module _ (now : ℕ) (since : start ≤ now) where
    -- The failures that are added to the watched record itself count.
    IsWatched-add_failures :
        (n p m q : ℕ) (l : Limiter)
        → IsWatched n p l
        → IsWatched (if nat_eq p q then n + m else n) p (add_failures c m now q l)
    unfolding add_failures
    IsWatched-add_failures n p m q l h = elim (Bool-cases (nat_eq p q)) [
      | inr ne ↦ rw ne (write_other n p q _ l ne h)
      | inl e ↦
          let same : p ≡ q = ground (arith, e) in
          let f = subst (λ x. IsFresh n (l.heap x)) same h.fresh in
          rw e (
            write_self (n + m) p q _ l e h.tracked record {
              failures = omega (arith, f.failures);
              lock = ground (arith, f.lock, since);
              recent = f.recent;
            })
    ]

    IsWatched-restore :
        (n p q : ℕ) (l : Limiter)
        → length l.records < c.capacity
        → IsWatched n p l
        → IsWatched n p (restore c now l q)
    unfolding restore
    IsWatched-restore n p q l room h = elim (Option-cases (lookup (l.heap q).subject l.records)) [
      | inr (j, e) ↦
          rw (e, restore)
            (IsWatched-le n (if nat_eq p j then n + (l.heap q).failures else n) p
              (add_failures c (l.heap q).failures now j l) (ground arith)
              (IsWatched-add_failures n p (l.heap q).failures j l h))
      | inl e ↦
          let ne : ((l.heap q).subject == s) ≡ false =
            ground (arith, e, h.tracked, eq_iff (l.heap q).subject s) in
          rw (e, restore, make_room-lt c l now room)
            (IsWatched-track n p q (l.heap q).subject l ne h)
    ]

    pub IsWatched-count_failure :
        (n p q : ℕ) (l : Limiter)
        → length l.records < c.capacity
        → IsWatched n p l
        → IsWatched (if nat_eq p q then n + 1 else n) p (count_failure c now l q)
    unfolding count_failure
    IsWatched-count_failure n p q l room h =
        let counted = IsWatched-add_failures n p 1 q l h in
        elim (Bool-cases (is_tracked (add_failures c 1 now q l) q)) [
          | inl e ↦ rw e counted
          | inr e ↦ rw e (
              IsWatched-restore (if nat_eq p q then n + 1 else n) p q (add_failures c 1 now q l)
                (unfold add_failures write in room) counted)
        ]
