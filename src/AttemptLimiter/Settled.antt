-- ===== src/AttemptLimiter/Settled.antt =====
-- An attempt that ends leaves the count of those under way right, and so does every step.
use panmail.AttemptLimiter.Counted.{
  IsCounted, IsCounted-begin, IsCounted-pruned, IsCounted-track, IsCounted-write,
}
use panmail.AttemptLimiter.Pruned.{make_room-IsPruned, remove-IsPruned}
use panmail.AttemptLimiter.World.{
  Ending, Ticket, World, abandonment, begins, count, end_attempt, ended, ends, failure, runs, set,
  success, take_step, Operation,
}
use panmail.AttemptLimiter.{
  Attempt, Config, Limiter, abandon, add_failures, count_failure, failed, is_tracked, make_room,
  release, remove, restore, settle, succeeded, write,
}
use panmail.Base.Dict.{lookup}
use panmail.Base.{
  All, Bool, Bool-cases, List, Option-cases, [], arith, false, filter, get_elem?, inl, inr, length,
  refl, some, subst, suc, true, zero, ℕ, ◌+◌, ◌<◌, ◌≡◌, ◌∷◌, ==_iff,
}

pub count-set :
    (P : Ticket → Bool) (ts : List Ticket) (i : ℕ) (t v : Ticket)
    → get_elem? ts i ≡ some t
    → count P (set ts i v) + length (filter P (t ∷ [])) ≡ count P ts + length (filter P (v ∷ []))
unfolding filter
count-set P [] i t v h = absurd (ground (arith, h))
count-set P (x ∷ ts) zero t v h = ground (arith, h)
count-set P (x ∷ ts) (suc i) t v h = ground (arith, count-set P ts i t v h)

pub get_elem?-All {κ} :
    (P : Ticket → Type κ) (ts : List Ticket) (i : ℕ) (t : Ticket)
    → All P ts
    → get_elem? ts i ≡ some t
    → P t
get_elem?-All P [] i t h e = absurd (ground (arith, e))
get_elem?-All P (x ∷ ts) zero t h e = subst P (ground (arith, e)) h.0
get_elem?-All P (x ∷ ts) (suc i) t h e = get_elem?-All P ts i t h.1 e

pub All-set {κ} :
    (P : Ticket → Type κ) (ts : List Ticket) (i : ℕ) (v : Ticket)
    → All P ts
    → P v
    → All P (set ts i v)
All-set P [] i v h p = tt
All-set P (x ∷ ts) zero v h p = (p, h.1)
All-set P (x ∷ ts) (suc i) v h p = (h.0, All-set P ts i v h.1 p)

All-release :
    (l : Limiter) (p : ℕ) (ts : List Ticket)
    → All (λ t. (t.attempt.rec < l.next_ref) × ((l.heap t.attempt.rec).subject ≡ t.subject)) ts
    → All
        (λ t.
          (t.attempt.rec < l.next_ref) × (((release p l).heap t.attempt.rec).subject ≡ t.subject))
        ts
unfolding release write
All-release l p [] h = tt
All-release l p (t ∷ ts) h =
    ((h.0.0, ground (arith, h.0.1, ==_iff t.attempt.rec p)), All-release l p ts h.1)

module _ (ts : List Ticket) (i : ℕ) (t v : Ticket) (found : get_elem? ts i ≡ some t)
    (rec : v.attempt.rec ≡ t.attempt.rec) (subject : v.subject ≡ t.subject)
    (over : v.attempt.settled ≡ true) where
  IsCounted-release :
      (l : Limiter)
      → t.attempt.settled ≡ false
      → IsCounted l ts
      → IsCounted (release t.attempt.rec l) (set ts i v)
  unfolding release write runs filter
  IsCounted-release l open_ h =
      let k = get_elem?-All _ ts i t (All-release l t.attempt.rec ts h.known) found in
      record {
        counted = λ q lt. ground (
          arith,
          h.counted q lt,
          count-set (runs q) ts i t v found,
          rec,
          over,
          open_,
          ==_iff q t.attempt.rec,
          ==_iff t.attempt.rec q,
        );
        known = All-set _ ts i v (All-release l t.attempt.rec ts h.known) (rw (rec, subject) k);
        keyed = λ k q e. ((h.keyed k q e).0, ground (arith, h.keyed k q e, ==_iff q t.attempt.rec));
      }

  IsCounted-settled :
      (l : Limiter) → t.attempt.settled ≡ true → IsCounted l ts → IsCounted l (set ts i v)
  unfolding runs filter
  IsCounted-settled l closed h =
      let k = get_elem?-All _ ts i t h.known found in
      record {
        counted = λ q lt.
            ground (arith, h.counted q lt, count-set (runs q) ts i t v found, rec, over, closed);
        known = All-set _ ts i v h.known (rw (rec, subject) k);
        keyed = h.keyed;
      }

module _ (c : Config) (now : ℕ) (ts : List Ticket) where
  IsCounted-add_failures :
      (n p : ℕ) (l : Limiter) → IsCounted l ts → IsCounted (add_failures c n now p l) ts
  unfolding add_failures
  IsCounted-add_failures n p l h = IsCounted-write l p _ ts refl refl h

  IsCounted-restore :
      (p : ℕ) (l : Limiter) → p < l.next_ref → IsCounted l ts → IsCounted (restore c now l p) ts
  unfolding restore
  IsCounted-restore p l lt h = elim (Option-cases (lookup (l.heap p).subject l.records)) [
    | inr (q, e) ↦ rw (e, restore) (IsCounted-add_failures (l.heap p).failures q l h)
    | inl e ↦
        let r = make_room-IsPruned c l now in
        rw (e, restore)
          (IsCounted-track (make_room c l now) p (l.heap p).subject ts (rw r.next lt)
            (rw r.heap refl) (IsCounted-pruned r h))
  ]

  IsCounted-count_failure :
      (p : ℕ) (l : Limiter)
      → p < l.next_ref
      → IsCounted l ts
      → IsCounted (count_failure c now l p) ts
  unfolding count_failure
  IsCounted-count_failure p l lt h =
      let counted = IsCounted-add_failures 1 p l h in
      let lt' : p < (add_failures c 1 now p l).next_ref = unfold add_failures write in lt in
      elim (Bool-cases (is_tracked (add_failures c 1 now p l) p)) [
        | inl e ↦ rw e counted
        | inr e ↦ rw e (IsCounted-restore p (add_failures c 1 now p l) lt' counted)
      ]

-- What settling leaves of an attempt.
unfoldable pub over : Attempt → Attempt
over a = record a { settled = true }

settle-settled :
    (f : Limiter → ℕ → Limiter) (l : Limiter) (a : Attempt)
    → a.settled ≡ true
    → settle f l a ≡ (l, over a)
unfolding settle over
settle-settled f l a h = ground arith

settle-open :
    (f : Limiter → ℕ → Limiter) (l : Limiter) (a : Attempt)
    → a.settled ≡ false
    → settle f l a ≡ (f (release a.rec l) a.rec, over a)
unfolding settle over
settle-open f l a h = ground arith

-- What the ending does to the limiter once the attempt is taken out of flight.
unfoldable pub effect : Config → ℕ → Ending → Limiter → ℕ → Limiter
effect c now success l p = remove l p
effect c now failure l p = count_failure c now l p
effect c now abandonment l p = l

pub end_attempt-settled :
    (c : Config) (now : ℕ) (e : Ending) (l : Limiter) (a : Attempt)
    → a.settled ≡ true
    → end_attempt c now e l a ≡ (l, over a)
unfolding end_attempt succeeded failed abandon
end_attempt-settled c now success l a h = settle-settled _ l a h
end_attempt-settled c now failure l a h = settle-settled _ l a h
end_attempt-settled c now abandonment l a h = settle-settled _ l a h

pub end_attempt-open :
    (c : Config) (now : ℕ) (e : Ending) (l : Limiter) (a : Attempt)
    → a.settled ≡ false
    → end_attempt c now e l a ≡ (effect c now e (release a.rec l) a.rec, over a)
unfolding end_attempt succeeded failed abandon effect
end_attempt-open c now success l a h = settle-open _ l a h
end_attempt-open c now failure l a h = settle-open _ l a h
end_attempt-open c now abandonment l a h = settle-open _ l a h

IsCounted-effect :
    (c : Config) (now : ℕ) (e : Ending) (l : Limiter) (p : ℕ) (ts : List Ticket)
    → p < l.next_ref
    → IsCounted l ts
    → IsCounted (effect c now e l p) ts
unfolding effect
IsCounted-effect c now success l p ts lt h = IsCounted-pruned (remove-IsPruned l p) h
IsCounted-effect c now failure l p ts lt h = IsCounted-count_failure c now ts p l lt h
IsCounted-effect c now abandonment l p ts lt h = h

IsCounted-end_attempt :
    (c : Config) (now : ℕ) (e : Ending) (l : Limiter) (ts : List Ticket) (i : ℕ) (t : Ticket)
    → get_elem? ts i ≡ some t
    → IsCounted l ts
    → IsCounted
        (end_attempt c now e l t.attempt).0
        (set ts i (ended e (end_attempt c now e l t.attempt).1 t))
unfolding ended over
IsCounted-end_attempt c now e l ts i t found h = elim (Bool-cases t.attempt.settled) [
  | inl closed ↦
      rw (end_attempt-settled c now e l t.attempt closed)
        (IsCounted-settled ts i t (ended e (over t.attempt) t) found refl refl refl l closed h)
  | inr open_ ↦
      let lt : t.attempt.rec < (release t.attempt.rec l).next_ref =
        unfold release write in (get_elem?-All _ ts i t h.known found).0 in
      rw (end_attempt-open c now e l t.attempt open_) (
        IsCounted-effect c now e (release t.attempt.rec l) t.attempt.rec
          (set ts i (ended e (over t.attempt) t)) lt
          (IsCounted-release ts i t (ended e (over t.attempt) t) found refl refl refl l open_ h))
]

pub IsCounted-take_step :
    (c : Config) (o : Operation) (w : World)
    → IsCounted w.limiter w.tickets
    → IsCounted (take_step c o w).limiter (take_step c o w).tickets
unfolding take_step
IsCounted-take_step c (begins now s) w h = IsCounted-begin c now w.limiter s w.tickets h
IsCounted-take_step c (ends now i e) w h = elim (Option-cases (get_elem? w.tickets i)) [
  | inl n ↦ rw (n, take_step) h
  | inr (t, f) ↦ rw (f, take_step) (IsCounted-end_attempt c now e w.limiter w.tickets i t f h)
]
