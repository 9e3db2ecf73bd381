-- ===== src/AttemptLimiter/Tries.antt =====
-- The attempts on one subject in a block period, and the histories in which they are counted.
use panmail.AttemptLimiter.Watch.{IsWatched}
use panmail.AttemptLimiter.World.{
  Operation, Ticket, World, abandonment, begins, count, ends, failure, note, runs, success,
  take_step, time_of,
}
use panmail.AttemptLimiter.{Begun, Config, Limiter, admitted, locked_out, new_limiter}
use panmail.Base.{
  All, Bool, List, String, [], arith, false, filter, get_elem?, leb, length, ltb, none, not, refl,
  some, suc, true, ℕ, ◌&&◌, ◌+◌, ◌<◌, ◌≡◌, ◌≤◌, ◌∷◌, ◌||◌, ◌⊎◌, ==_iff,
}
use text.Mathlib.Text.{◌==◌}
use text.Mathlib.TextPositions.{eq_refl}

module _ (s : String) where
  -- The end of an attempt that succeeded, for this subject.
  unfoldable pub is_success : Operation → World → Bool
  is_success (begins now k) w = false
  is_success (ends now i e) w = elim e [
    | success ↦ elim (get_elem? w.tickets i) [ some t ↦ t.subject == s | none ↦ false ]
    | failure ↦ false
    | abandonment ↦ false
  ]

  -- It is no success of the subject's, and the map has room for another record.
  unfoldable pub is_calm : Config → Operation → World → Bool
  is_calm c o w = ltb (length w.limiter.records) c.capacity && not (is_success o w)

  -- The attempts on the subject that began in the period and were not abandoned.
  unfoldable pub is_recent : ℕ → Ticket → Bool
  is_recent start t = t.subject == s && leb start t.started

  unfoldable pub is_try : ℕ → Ticket → Bool
  unfolding is_recent
  is_try start t = is_recent start t && (not t.attempt.settled || t.has_failed)

  unfoldable pub is_open_try : ℕ → Ticket → Bool
  unfolding is_recent
  is_open_try start t = is_recent start t && not t.attempt.settled

  unfoldable pub is_failed_try : ℕ → Ticket → Bool
  unfolding is_recent
  is_failed_try start t = is_recent start t && t.has_failed

-- Any operations from a new limiter, under a clock that does not go back, up to a moment of the
-- period that begins at `start`; those since its start are calm.
pub data Reach (c : Config) (start : ℕ) (s : String) : World → Type 0 where
  new : Reach c start s (record { limiter = new_limiter; clock = 0; tickets = [] })
  next :
      {w : World} (o : Operation)
      → Reach c start s w
      → w.clock ≤ time_of o
      → time_of o < start + c.block_for
      → (start ≤ time_of o → is_calm s c o w ≡ true)
      → Reach c start s (take_step c o w)

module _ (c : Config) (start : ℕ) (s : String) where
  -- Where some attempt of the period counts, the subject's record is watched.
  pub record IsGuarded (clock : ℕ) (l : Limiter) (ts : List Ticket) : Type 0 where
    pub record_ref : ℕ
    pub watched : IsWatched c start s (count (is_failed_try s start) ts) record_ref l
    pub shared : All (λ t. is_open_try s start t ≡ true → t.attempt.rec ≡ record_ref) ts
    pub budget : count (is_open_try s start) ts + count (is_failed_try s start) ts ≤ c.max
    pub begun : start ≤ clock

  abbrev pub IsSafe : World → Type 0
  IsSafe w =
      (count (is_open_try s start) w.tickets + count (is_failed_try s start) w.tickets ≡ 0)
      ⊎ IsGuarded w.clock w.limiter w.tickets

  pub count_try-le :
      (ts : List Ticket)
      → count (is_try s start) ts
        ≤ count (is_open_try s start) ts + count (is_failed_try s start) ts
  unfolding filter is_try is_open_try is_failed_try
  count_try-le [] = omega arith
  count_try-le (t ∷ ts) = ground (arith, count_try-le ts)

  -- An attempt that shares the record is one of those that it counts.
  pub open-le-runs :
      (p : ℕ) (ts : List Ticket)
      → All (λ t. is_open_try s start t ≡ true → t.attempt.rec ≡ p) ts
      → count (is_open_try s start) ts ≤ count (runs p) ts
  unfolding filter runs is_open_try
  open-le-runs p [] h = omega arith
  open-le-runs p (t ∷ ts) h = ground (arith, open-le-runs p ts h.1, h.0, ==_iff t.attempt.rec p)

  pub none_open :
      (p : ℕ) (ts : List Ticket)
      → count (is_open_try s start) ts ≡ 0
      → All (λ t. is_open_try s start t ≡ true → t.attempt.rec ≡ p) ts
  unfolding filter
  none_open p [] h = tt
  none_open p (t ∷ ts) h =
      let f : is_open_try s start t ≡ false = ground (arith, h) in
      ((λ e. absurd (ground (arith, e, f))), none_open p ts (ground (arith, h, f)))

  pub note_other :
      (k : String) (now : ℕ) (b : Begun) (ts : List Ticket)
      → (k == s && leb start now) ≡ false
      → (count (is_open_try s start) (note k now b ts) ≡ count (is_open_try s start) ts)
        × (count (is_failed_try s start) (note k now b ts) ≡ count (is_failed_try s start) ts)
        × ((p : ℕ)
            → All (λ t. is_open_try s start t ≡ true → t.attempt.rec ≡ p) ts
            → All (λ t. is_open_try s start t ≡ true → t.attempt.rec ≡ p) (note k now b ts))
  unfolding note filter is_open_try is_failed_try
  note_other k now (locked_out d) ts h = (refl, refl, λ p a. a)
  note_other k now (admitted q) ts h =
      (rw h refl, rw h refl, λ p a. ((λ e. absurd (ground (arith, e, h))), a))

  pub note_self :
      (now p : ℕ) (ts : List Ticket)
      → start ≤ now
      → (count (is_open_try s start) (note s now (admitted p) ts)
          ≡ suc (count (is_open_try s start) ts))
        × (count (is_failed_try s start) (note s now (admitted p) ts)
            ≡ count (is_failed_try s start) ts)
        × (All (λ t. is_open_try s start t ≡ true → t.attempt.rec ≡ p) ts
            → All
                (λ t. is_open_try s start t ≡ true → t.attempt.rec ≡ p)
                (note s now (admitted p) ts))
  unfolding note filter is_open_try is_failed_try
  note_self now p ts since =
      let in_period : leb start now ≡ true = ground arith in
      (rw (eq_refl s, in_period) refl, rw (eq_refl s, in_period) refl, λ a. ((λ e. refl), a))
