-- ===== src/AttemptLimiter/Pruned.antt =====
-- The steps that only drop records from the map: the sweep and the eviction.
use panmail.AttemptLimiter.{
  Config, Limiter, evict_oldest, find_evictable, is_stale, make_room, maybe_sweep, remove, sweep,
}
use panmail.Base.Dict.{Dict, length-delete-le, lookup, lookup-delete}
use panmail.Base.{
  List, String, [], ℕ, ◌-◌, ◌<◌, ◌≡◌, ◌≤◌, ◌∙◌, ◌∷◌, Bool-cases, Option-cases, arith, inl, inr,
  length, ltb, refl, some,
}
use text.Mathlib.TextEquality.{eq_iff}

-- The heap is untouched, and the map has no entry that it had not.
pub record IsPruned (l l' : Limiter) : Type 0 where
  pub heap : l'.heap ≡ l.heap
  pub next : l'.next_ref ≡ l.next_ref
  pub less : (k : String) (p : ℕ) → lookup k l'.records ≡ some p → lookup k l.records ≡ some p
  pub fewer : length l'.records ≤ length l.records

pub IsPruned-refl : (l : Limiter) → IsPruned l l
IsPruned-refl l = record { heap = refl; next = refl; less = λ k p h. h; fewer = omega arith }

IsPruned-trans : {l m n : Limiter} → IsPruned l m → IsPruned m n → IsPruned l n
IsPruned-trans a b = record {
  heap = b.heap ∙ a.heap;
  next = b.next ∙ a.next;
  less = λ k p h. a.less k p (b.less k p h);
  fewer = omega (arith, a.fewer, b.fewer);
}

pub remove-IsPruned : (l : Limiter) (p : ℕ) → IsPruned l (remove l p)
unfolding remove
remove-IsPruned l p = record {
  heap = refl;
  next = refl;
  less = λ k q h.
      ground (arith, h, lookup-delete (l.heap p).subject k l.records, eq_iff (l.heap p).subject k);
  fewer = ground (arith, length-delete-le (l.heap p).subject l.records);
}

sweep-IsPruned :
    (c : Config) (now : ℕ) (entries : Dict ℕ) (l : Limiter) → IsPruned l (sweep c now entries l)
unfolding sweep
sweep-IsPruned c now [] l = IsPruned-refl l
sweep-IsPruned c now ((k, p) ∷ rest) l = elim (Bool-cases (is_stale c now (l.heap p))) [
  | inl e ↦ rw e (IsPruned-trans (remove-IsPruned l p) (sweep-IsPruned c now rest (remove l p)))
  | inr e ↦ rw e (sweep-IsPruned c now rest l)
]

pub maybe_sweep-IsPruned : (c : Config) (l : Limiter) (now : ℕ) → IsPruned l (maybe_sweep c l now)
unfolding maybe_sweep
maybe_sweep-IsPruned c l now = elim (Bool-cases (ltb (now - l.last_sweep) 60000000000)) [
  | inl e ↦ rw e (IsPruned-refl l)
  | inr e ↦
      let s = sweep-IsPruned c now l.records (record l { last_sweep = now }) in
      rw e record { heap = s.heap; next = s.next; less = s.less; fewer = s.fewer }
]

pub make_room-IsPruned : (c : Config) (l : Limiter) (now : ℕ) → IsPruned l (make_room c l now)
unfolding make_room evict_oldest
make_room-IsPruned c l now = elim (Bool-cases (ltb (length l.records) c.capacity)) [
  | inl e ↦ rw e (IsPruned-refl l)
  | inr e ↦ elim (Option-cases (find_evictable l.heap now 64 l.recency)) [
    | inr (p, f) ↦ rw (e, f) (remove-IsPruned l p)
    | inl f ↦ rw (e, f) (oldest l l.recency)
  ]
]
  where
    oldest : (l : Limiter) (ps : List ℕ) → IsPruned l (evict_oldest l ps)
    oldest l [] = IsPruned-refl l
    oldest l (p ∷ ps) = remove-IsPruned l p

-- With room, nothing is dropped.
pub make_room-lt :
    (c : Config) (l : Limiter) (now : ℕ) → length l.records < c.capacity → make_room c l now ≡ l
unfolding make_room
make_room-lt c l now h = ground arith
