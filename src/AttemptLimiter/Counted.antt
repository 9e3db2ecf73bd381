-- ===== src/AttemptLimiter/Counted.antt =====
-- The attempts under way on a record are those that it counts as in flight.
use panmail.AttemptLimiter.Pruned.{IsPruned, make_room-IsPruned, maybe_sweep-IsPruned}
use panmail.AttemptLimiter.World.{Ticket, count, note, runs}
use panmail.AttemptLimiter.{
  AttemptRecord, Config, Limiter, admit, admitted, allocate, begin, begin_swept, blocked, expire,
  forget_old, insert, lift_block, make_room, maybe_sweep, track, try_record, write,
}
use panmail.Base.Dict.{lookup, lookup-put}
use panmail.Base.{
  ◌==◌ as nat_eq, All, Bool-cases, List, Option-cases, String, [], arith, filter, inl, inr, refl,
  some, subst, ℕ, ◌+◌, ◌<◌, ◌≡◌, ◌∷◌, sym, leb, ==_iff,
}
use text.Mathlib.TextEquality.{eq_iff}

pub record IsCounted (l : Limiter) (ts : List Ticket) : Type 0 where
  pub counted : (p : ℕ) → p < l.next_ref → (l.heap p).in_flight ≡ count (runs p) ts
  pub known :
      All (λ t. (t.attempt.rec < l.next_ref) × ((l.heap t.attempt.rec).subject ≡ t.subject)) ts
  pub keyed :
      (k : String) (p : ℕ)
      → lookup k l.records ≡ some p
      → (p < l.next_ref) × ((l.heap p).subject ≡ k)

pub IsCounted-pruned :
    {l l' : Limiter} {ts : List Ticket} → IsPruned l l' → IsCounted l ts → IsCounted l' ts
IsCounted-pruned e h = record {
  counted = rw (e.heap, e.next) h.counted;
  known = rw (e.heap, e.next) h.known;
  keyed = λ k p q. rw (e.heap, e.next) (h.keyed k p (e.less k p q));
}

-- A change of a record that is not of its subject or of its attempts.
All-write :
    (l : Limiter) (p : ℕ) (r : AttemptRecord) (ts : List Ticket)
    → r.subject ≡ (l.heap p).subject
    → All (λ t. (t.attempt.rec < l.next_ref) × ((l.heap t.attempt.rec).subject ≡ t.subject)) ts
    → All
        (λ t.
          (t.attempt.rec < l.next_ref) × (((write p r l).heap t.attempt.rec).subject ≡ t.subject))
        ts
unfolding write
All-write l p r [] s h = tt
All-write l p r (t ∷ ts) s h =
    ((h.0.0, ground (arith, h.0.1, s, ==_iff t.attempt.rec p)), All-write l p r ts s h.1)

pub IsCounted-write :
    (l : Limiter) (p : ℕ) (r : AttemptRecord) (ts : List Ticket)
    → r.subject ≡ (l.heap p).subject
    → r.in_flight ≡ (l.heap p).in_flight
    → IsCounted l ts
    → IsCounted (write p r l) ts
unfolding write
IsCounted-write l p r ts s n h = record {
  counted = λ q lt. ground (arith, h.counted q lt, n, ==_iff q p);
  known = All-write l p r ts s h.known;
  keyed = λ k q e. ((h.keyed k q e).0, ground (arith, h.keyed k q e, s, ==_iff q p));
}

pub IsCounted-track :
    (l : Limiter) (p : ℕ) (s : String) (ts : List Ticket)
    → p < l.next_ref
    → (l.heap p).subject ≡ s
    → IsCounted l ts
    → IsCounted (track s p l) ts
unfolding track
IsCounted-track l p s ts lt same h = record {
  counted = h.counted;
  known = h.known;
  keyed = λ k q e. ground (arith, lt, e, same, h.keyed k q, lookup-put s k p l.records, eq_iff s k);
}

runs_nothing :
    (l : Limiter) (ts : List Ticket)
    → All (λ t. (t.attempt.rec < l.next_ref) × ((l.heap t.attempt.rec).subject ≡ t.subject)) ts
    → count (runs l.next_ref) ts ≡ 0
unfolding filter runs
runs_nothing l [] h = refl
runs_nothing l (t ∷ ts) h = ground (arith, runs_nothing l ts h.1, h.0.0)

All-allocate :
    (l : Limiter) (s : String) (ts : List Ticket)
    → All (λ t. (t.attempt.rec < l.next_ref) × ((l.heap t.attempt.rec).subject ≡ t.subject)) ts
    → All
        (λ t.
          (t.attempt.rec < l.next_ref + 1)
          × (((allocate s l).heap t.attempt.rec).subject ≡ t.subject))
        ts
unfolding allocate write
All-allocate l s [] h = tt
All-allocate l s (t ∷ ts) h =
    ((omega (arith, h.0.0), ground (arith, h.0.0, h.0.1)), All-allocate l s ts h.1)

IsCounted-allocate :
    (l : Limiter) (s : String) (ts : List Ticket) → IsCounted l ts → IsCounted (allocate s l) ts
unfolding allocate write
IsCounted-allocate l s ts h = record {
  counted = λ q lt. elim (Bool-cases (nat_eq q l.next_ref)) [
    | inl e ↦
        let same : q ≡ l.next_ref = ground (arith, e) in
        rw (e, same) (sym (runs_nothing l ts h.known))
    | inr e ↦ rw e (h.counted q (ground (arith, e, lt)))
  ];
  known = All-allocate l s ts h.known;
  keyed = λ k q e. (ground (arith, h.keyed k q e), ground (arith, h.keyed k q e));
}

IsCounted-admit :
    (l : Limiter) (p now : ℕ) (ts : List Ticket)
    → p < l.next_ref
    → IsCounted l ts
    → IsCounted (admit l p now) (note (l.heap p).subject now (admitted p) ts)
unfolding admit note write filter runs
IsCounted-admit l p now ts lt h = record {
  counted = λ q le. ground (arith, h.counted q le, ==_iff q p);
  known = (
    (lt, ground arith),
    All-write l p (record (l.heap p) { in_flight = (l.heap p).in_flight + 1; last_try = now }) ts
        refl h.known,
  );
  keyed = λ k q e. ((h.keyed k q e).0, ground (arith, h.keyed k q e, ==_iff q p));
}

module _ (c : Config) (now : ℕ) where
  expire-same :
      (r : AttemptRecord)
      → ((expire c r now).subject ≡ r.subject) × ((expire c r now).in_flight ≡ r.in_flight)
  unfolding expire forget_old lift_block
  expire-same r = ground arith

  IsCounted-try_record :
      (l : Limiter) (p : ℕ) (s : String) (ts : List Ticket)
      → p < l.next_ref
      → (l.heap p).subject ≡ s
      → IsCounted l ts
      → IsCounted (try_record c l p now).0 (note s now (try_record c l p now).1 ts)
  unfolding try_record note
  IsCounted-try_record l p s ts lt same h = elim (Bool-cases (blocked (l.heap p) now)) [
    | inl e ↦ rw (e, try_record) h
    | inr e ↦ elim (Bool-cases (leb c.max ((l.heap p).failures + (l.heap p).in_flight))) [
      | inl f ↦ rw (e, try_record) (rw (f, try_record) h)
      | inr f ↦
          let done =
            subst (λ x. IsCounted (admit l p now) (note x now (admitted p) ts)) same
              (IsCounted-admit l p now ts lt h) in
          rw (e, try_record) (rw (f, try_record) done)
    ]
  ]

  IsCounted-insert :
      (l : Limiter) (s : String) (ts : List Ticket)
      → IsCounted l ts
      → IsCounted (insert c l s now).0 ts
        × ((insert c l s now).1 < (insert c l s now).0.next_ref)
        × (((insert c l s now).0.heap (insert c l s now).1).subject ≡ s)
  unfolding insert allocate write track
  IsCounted-insert l s ts h =
      let r =
        IsCounted-allocate (make_room c l now) s ts
          (IsCounted-pruned (make_room-IsPruned c l now) h) in
      let same : ((allocate s (make_room c l now)).heap (make_room c l now).next_ref).subject ≡ s =
        ground arith in
      (
        IsCounted-track (allocate s (make_room c l now)) (make_room c l now).next_ref s ts
            (omega arith) same r,
        omega arith,
        same,
      )

  IsCounted-begin_swept :
      (l : Limiter) (s : String) (ts : List Ticket)
      → IsCounted l ts
      → IsCounted (begin_swept c l s now).0 (note s now (begin_swept c l s now).1 ts)
  unfolding begin_swept write
  IsCounted-begin_swept l s ts h = elim (Option-cases (lookup s l.records)) [
    | inr (p, e) ↦
        let x = expire-same (l.heap p) in
        let (lt, same) = h.keyed s p e in
        let now_same : ((write p (expire c (l.heap p) now) l).heap p).subject ≡ s =
          unfold write in ground (arith, x, same) in
        rw (e, begin_swept)
          (IsCounted-try_record (write p (expire c (l.heap p) now) l) p s ts lt now_same
            (IsCounted-write l p (expire c (l.heap p) now) ts x.0 x.1 h))
    | inl e ↦
        let (counted, lt, same) = IsCounted-insert l s ts h in
        rw (e, begin_swept)
          (subst
            (λ x.
              IsCounted (admit (insert c l s now).0 (insert c l s now).1 now)
                (note x now (admitted (insert c l s now).1) ts))
            same (IsCounted-admit (insert c l s now).0 (insert c l s now).1 now ts lt counted))
  ]

  pub IsCounted-begin :
      (l : Limiter) (s : String) (ts : List Ticket)
      → IsCounted l ts
      → IsCounted (begin c l s now).0 (note s now (begin c l s now).1 ts)
  unfolding begin
  IsCounted-begin l s ts h =
      IsCounted-begin_swept (maybe_sweep c l now) s ts
        (IsCounted-pruned (maybe_sweep-IsPruned c l now) h)
