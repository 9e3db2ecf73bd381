-- ===== src/AttemptLimiter/Begins.antt =====
-- What the begin of an attempt does to a watched record, its own or another's.
use panmail.AttemptLimiter.Counted.{IsCounted}
use panmail.AttemptLimiter.Pruned.{make_room-lt}
use panmail.AttemptLimiter.Watch.{IsFresh, IsWatched, IsWatched-track, write_other, write_self}
use panmail.AttemptLimiter.World.{Ticket}
use panmail.AttemptLimiter.{
  AttemptRecord, Config, Limiter, admit, admitted, allocate, begin_swept, blocked, expire,
  forget_old, insert, lift_block, locked_out, make_room, new_record, track, try_record, write,
}
use panmail.Base.Dict.{lookup, lookup-put}
use text.Mathlib.TextPositions.{eq_refl}
use panmail.Base.{
  ◌==◌ as nat_eq, Bool-cases, List, Option-cases, String, arith, false, inl, inr, length, refl,
  some, true, ℕ, ◌+◌, ◌-◌, ◌<◌, ◌≡◌, ◌≤◌, ◌⊎◌, leb, ==_iff,
}
use text.Mathlib.Text.{◌==◌}
use text.Mathlib.TextEquality.{eq_iff}

module _ (c : Config) (start : ℕ) (s : String) (now : ℕ) (within : now < start + c.block_for) where
  expire-IsFresh : (n : ℕ) (r : AttemptRecord) → IsFresh c start s n r → expire c r now ≡ r
  unfolding expire forget_old lift_block blocked
  expire-IsFresh n r h = ground (arith, h.lock, h.recent, within)

  record_cases :
      (l : Limiter) (p : ℕ)
      → ((d : ℕ) × (try_record c l p now ≡ (l, locked_out d)))
        ⊎ ((try_record c l p now ≡ (admit l p now, admitted p))
            × (blocked (l.heap p) now ≡ false)
            × ((l.heap p).failures + (l.heap p).in_flight < c.max))
  unfolding try_record
  record_cases l p = elim (Bool-cases (blocked (l.heap p) now)) [
    | inl e ↦ inl ((l.heap p).blocked_until - now, ground (arith, e))
    | inr e ↦ elim (Bool-cases (leb c.max ((l.heap p).failures + (l.heap p).in_flight))) [
      | inl f ↦ inl (0, ground (arith, e, f))
      | inr f ↦ inr (ground (arith, e, f), e, ground (arith, f))
    ]
  ]

  admit_other :
      (n p q : ℕ) (l : Limiter)
      → nat_eq p q ≡ false
      → IsWatched c start s n p l
      → IsWatched c start s n p (admit l q now)
  unfolding admit write
  admit_other n p q l ne h = record { tracked = h.tracked; fresh = rw ne h.fresh }

  admit_self :
      (n p : ℕ) (l : Limiter)
      → start ≤ now
      → lookup s l.records ≡ some p
      → n ≤ (l.heap p).failures
      → ((l.heap p).blocked_until ≡ 0) ⊎ (start + c.block_for ≤ (l.heap p).blocked_until)
      → IsWatched c start s n p (admit l p now)
  unfolding admit write
  admit_self n p l since t f k =
      let same : nat_eq p p ≡ true = ground arith in
      record { tracked = t; fresh = rw same record { failures = f; lock = k; recent = since } }

  -- An attempt of another subject is on another record.
  try_other :
      (n p q : ℕ) (l : Limiter)
      → nat_eq p q ≡ false
      → IsWatched c start s n p l
      → IsWatched c start s n p (try_record c l q now).0
  try_other n p q l ne h = elim (record_cases l q) [
    | inl (d, e) ↦ rw e h
    | inr (e, free, room) ↦ rw e (admit_other n p q l ne h)
  ]

  insert_other :
      (n p : ℕ) (k : String) (l : Limiter)
      → p < l.next_ref
      → (k == s) ≡ false
      → length l.records < c.capacity
      → IsWatched c start s n p l
      → IsWatched c start s n p (admit (insert c l k now).0 (insert c l k now).1 now)
  unfolding insert
  insert_other n p k l lt ne room h =
      let far : nat_eq p l.next_ref ≡ false = ground (arith, lt) in
      let w : IsWatched c start s n p (allocate k l) =
        unfold allocate in
        record {
          tracked = (write_other c start s n p l.next_ref (new_record k) l far h).tracked;
          fresh = (write_other c start s n p l.next_ref (new_record k) l far h).fresh;
        } in
      rw (make_room-lt c l now room) (
        admit_other n p l.next_ref (track k l.next_ref (allocate k l)) far
          (IsWatched-track c start s n p l.next_ref k (allocate k l) ne w))

  insert_self :
      (l : Limiter)
      → start ≤ now
      → IsWatched c start s 0
          (insert c l s now).1
          (admit (insert c l s now).0 (insert c l s now).1 now)
  unfolding insert
  insert_self l since =
      let r = make_room c l now in
      let here : nat_eq r.next_ref r.next_ref ≡ true = ground arith in
      admit_self 0 r.next_ref (track s r.next_ref (allocate s r)) since
        (unfold track allocate write in rw (lookup-put s s r.next_ref r.records, eq_refl s) refl)
        (omega arith) (inl (unfold track allocate write in rw here refl))

  pub begin_other :
      (n p : ℕ) (k : String) (l : Limiter) {ts : List Ticket}
      → (k == s) ≡ false
      → length l.records < c.capacity
      → IsCounted l ts
      → IsWatched c start s n p l
      → IsWatched c start s n p (begin_swept c l k now).0
  unfolding begin_swept
  begin_other n p k l ne room h w = elim (Option-cases (lookup k l.records)) [
    | inl e ↦ rw (e, begin_swept) (insert_other n p k l (h.keyed s p w.tracked).0 ne room w)
    | inr (q, e) ↦
        let far : nat_eq p q ≡ false =
          ground (arith, h.keyed s p w.tracked, h.keyed k q e, ne, eq_iff k s, ==_iff p q) in
        rw (e, begin_swept)
          (try_other n p q (write q (expire c (l.heap q) now) l) far
            (write_other c start s n p q (expire c (l.heap q) now) l far w))
  ]

  expire-lock :
      (r : AttemptRecord)
      → ((expire c r now).blocked_until ≡ 0) ⊎ (blocked (expire c r now) now ≡ true)
  unfolding expire forget_old lift_block blocked
  expire-lock r = elim (Bool-cases (blocked r now)) [
    | inl e ↦ inr (ground (arith, e))
    | inr e ↦ inl (ground (arith, e))
  ]

  -- Where the subject's record is watched, an admission has room for it in the budget.
  pub begin-IsWatched_self :
      (n p : ℕ) (l : Limiter)
      → start ≤ now
      → IsWatched c start s n p l
      → IsWatched c start s n p (begin_swept c l s now).0
        × (((d : ℕ) × ((begin_swept c l s now).1 ≡ locked_out d))
            ⊎ (((begin_swept c l s now).1 ≡ admitted p)
                × ((l.heap p).failures + (l.heap p).in_flight < c.max)))
  unfolding begin_swept
  begin-IsWatched_self n p l since w =
      let r = write p (expire c (l.heap p) now) l in
      let here : nat_eq p p ≡ true = ground arith in
      let x = expire-IsFresh n (l.heap p) w.fresh in
      let same : r.heap p ≡ l.heap p = unfold write in rw here x in
      let w' : IsWatched c start s n p r =
        write_self c start s n p p (expire c (l.heap p) now) l here w.tracked (rw x w.fresh) in
      elim (record_cases r p) [
        | inl (d, e) ↦ rw (w.tracked, begin_swept) (rw e (w', inl (d, refl)))
        | inr (e, free, room) ↦
            rw (w.tracked, begin_swept)
              (rw e (
                admit_self n p r since w'.tracked w'.fresh.failures w'.fresh.lock,
                inr (refl, rw (← same) room),
              ))
      ]

  -- Where it was not, an admission makes it so.
  pub begin-IsWatched_first :
      (l : Limiter)
      → start ≤ now
      → ((d : ℕ) × ((begin_swept c l s now).1 ≡ locked_out d))
        ⊎ ((p : ℕ) × ((begin_swept c l s now).1 ≡ admitted p)
            × IsWatched c start s 0 p (begin_swept c l s now).0)
  unfolding begin_swept
  begin-IsWatched_first l since = elim (Option-cases (lookup s l.records)) [
    | inl e ↦ rw (e, begin_swept) (inr ((insert c l s now).1, refl, insert_self l since))
    | inr (p, e) ↦
        let r = write p (expire c (l.heap p) now) l in
        let here : nat_eq p p ≡ true = ground arith in
        let same : r.heap p ≡ expire c (l.heap p) now = unfold write in rw here refl in
        elim (record_cases r p) [
          | inl (d, f) ↦ rw (e, begin_swept) (rw f (inl (d, refl)))
          | inr (f, free, room) ↦
              let lock : ((r.heap p).blocked_until ≡ 0)
                  ⊎ (start + c.block_for ≤ (r.heap p).blocked_until) =
                rw same (ground (arith, expire-lock (l.heap p), same, free)) in
              rw (e, begin_swept)
                (rw f
                  (inr (p, refl, admit_self 0 p r since (unfold write in e) (omega arith) lock)))
        ]
  ]
