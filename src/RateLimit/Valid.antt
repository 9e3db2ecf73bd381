-- ===== src/RateLimit/Valid.antt =====
-- What holds of a limiter between operations: no bucket holds more than its capacity, and the map
-- is no larger than its bound.

use panmail.RateLimit.Bounds.{refill-IsFull, refill_fields}
use text.Mathlib.TextPositions.{eq_refl}
use panmail.RateLimit.{
  Bucket, Limiter, rerate, Limit, capacity, evict_if_needed, oldest_from, drop_idle, bucket_for,
  new_bucket, store, refill,
}
use panmail.Base.{
  [], String, length, ℕ, arith, ◌≤◌, ◌<◌, ◌≡◌, inl, inr, some, ◌∷◌, ◌⊎◌, Bool-cases, ◌||◌, ltb,
  refl, Option-cases, leb, ◌-◌,
}
use text.Mathlib.Text.{◌==◌}
use panmail.Base.Int.{pos, ◌≤ℤ◌, min_ℤ-le_right}
use panmail.Base.Dict.{
  Values, Values-put, Dict, lookup, delete, length-delete-lt, Values-keep, length-keep-le,
  Values-delete, put, length-put-le, length-put_old, lookup-put, Values-lookup,
}

abbrev pub IsFull : Bucket → Type 0
IsFull b = b.tokens ≤ℤ pos b.capacity

pub record IsValid (l : Limiter) : Type 0 where
  pub full : Values IsFull l.buckets
  pub bounded : length l.buckets ≤ l.max_buckets
  pub room : 0 < l.max_buckets

rerate-IsFull : (limit : Limit) (b : Bucket) → IsFull b → IsFull (rerate limit b)
unfolding rerate
rerate-IsFull limit b h = ground (arith, min_ℤ-le_right b.tokens (pos (capacity limit)))

Tracked : String → Dict Bucket → Type 0
Tracked k m = (b : Bucket) × (lookup k m ≡ some b)

Tracked-cons :
    (k id : String) (b : Bucket) (m : Dict Bucket)
    → (k ≡ id) ⊎ Tracked k m
    → Tracked k ((id, b) ∷ m)
unfolding Tracked lookup
Tracked-cons k id b m (inl e) = (b, rw e (rw (eq_refl id)))
Tracked-cons k id b m (inr (c, e)) = elim (Bool-cases (id == k)) [
  | inl q ↦ (b, rw q)
  | inr q ↦ (c, rw q e)
]

-- The scan names a bucket of the map, or what it began with.
oldest_from-Tracked :
    (o : String) (seen : ℕ) (m : Dict Bucket)
    → (oldest_from o seen m ≡ o) ⊎ Tracked (oldest_from o seen m) m
unfolding oldest_from
oldest_from-Tracked o seen [] = inl refl
oldest_from-Tracked o seen ((id, b) ∷ m) = elim (Bool-cases (o == "" || ltb b.seen seen)) [
  | inl e ↦ rw e (inr (Tracked-cons _ id b m (oldest_from-Tracked id b.seen m)))
  | inr e ↦ rw e (elim (oldest_from-Tracked o seen m) [
    | inl q ↦ inl q
    | inr q ↦ inr (Tracked-cons _ id b m (inr q))
  ])
]

-- Dropping the bucket that the scan of a map names makes the map smaller.
delete_oldest-lt :
    (m : Dict Bucket) → 0 < length m → length (delete (oldest_from "" 0 m) m) < length m
unfolding oldest_from Tracked
delete_oldest-lt [] h = absurd (omega arith)
delete_oldest-lt ((id, b) ∷ m) h =
    let (c, e) = Tracked-cons (oldest_from id b.seen m) id b m (oldest_from-Tracked id b.seen m) in
    length-delete-lt (oldest_from id b.seen m) {v = c} ((id, b) ∷ m) e

-- The limiter with its idle buckets dropped, as `evict_if_needed` compares it with the bound.
kept-lt : (l : Limiter) (now : ℕ) → length (drop_idle l now).buckets ≤ length l.buckets
unfolding drop_idle
kept-lt l now = length-keep-le (λ b. leb (now - b.seen) l.idle_ttl) l.buckets

drop_idle_bound : (l : Limiter) (now : ℕ) → (drop_idle l now).max_buckets ≡ l.max_buckets
unfolding drop_idle
drop_idle_bound l now = refl

evict_if_needed-room :
    (l : Limiter) (now : ℕ)
    → IsValid l
    → length (evict_if_needed l now).buckets < (evict_if_needed l now).max_buckets
unfolding evict_if_needed
evict_if_needed-room l now v =
    ground (arith, kept-lt l now, drop_idle_bound l now, delete_oldest-lt (drop_idle l now).buckets)

evict_if_needed-IsFull :
    (l : Limiter) (now : ℕ)
    → Values IsFull l.buckets
    → Values IsFull (evict_if_needed l now).buckets
unfolding evict_if_needed drop_idle
evict_if_needed-IsFull l now v =
    let kept = Values-keep IsFull (λ b. leb (now - b.seen) l.idle_ttl) l.buckets v in
    elim (Bool-cases (ltb (length l.buckets) l.max_buckets)) [
      | inl e ↦ rw e v
      | inr e ↦ rw e (elim (Bool-cases (ltb (length (drop_idle l now).buckets) l.max_buckets)) [
        | inl q ↦ rw q kept
        | inr q ↦ rw q (Values-delete IsFull _ _ kept)
      ])
    ]

new_bucket-IsFull : (r : ℕ) (limit : Limit) (now : ℕ) → IsFull (new_bucket r limit now)
unfolding new_bucket
new_bucket-IsFull r limit now = omega arith

-- What a lookup finds after a write.
put-Tracked : (k : String) (b : Bucket) (m : Dict Bucket) → lookup k (put k b m) ≡ some b
put-Tracked k b m = simp (lookup-put, eq_refl)

-- A bucket in the map, valid, and the limiter around it.
pub record Holds (key : String) (l : Limiter) (b : Bucket) : Type 0 where
  pub valid : IsValid l
  pub full : IsFull b
  pub there : lookup key l.buckets ≡ some b

pub store-Holds :
    (l : Limiter) (key : String) (b b' : Bucket)
    → Holds key l b
    → IsFull b'
    → Holds key (store l key b') b'
store-Holds l key b b' h f = record {
  valid = record {
    full = Values-put IsFull key b' l.buckets h.valid.full f;
    bounded = omega (arith, length-put_old key b' {w = b} l.buckets h.there, h.valid.bounded);
    room = h.valid.room;
  };
  full = f;
  there = put-Tracked key b' l.buckets;
}

pub bucket_for-Holds :
    (l : Limiter) (key : String) (limit : Limit) (now : ℕ)
    → IsValid l
    → Holds key (bucket_for l key limit now).0 (bucket_for l key limit now).1
unfolding bucket_for
bucket_for-Holds l key limit now v = elim (Option-cases (lookup key l.buckets)) [
  | inl e ↦
      rw (e, bucket_for)
        (let l' = evict_if_needed l now in
          let b = new_bucket l'.next_ref limit now in
          record {
            valid = record {
              full =
                  Values-put IsFull key b l'.buckets (evict_if_needed-IsFull l now v.full)
                    (new_bucket-IsFull l'.next_ref limit now);
              bounded = omega (arith, evict_if_needed-room l now v, length-put-le key b l'.buckets);
              room = omega (arith, evict_if_needed-room l now v);
            };
            full = new_bucket-IsFull l'.next_ref limit now;
            there = put-Tracked key b l'.buckets;
          })
  | inr (b, e) ↦
      rw (e, bucket_for)
        (store-Holds l key b (rerate limit b)
          (record { valid = v; full = Values-lookup IsFull key l.buckets v.full e; there = e })
          (rerate-IsFull limit b (Values-lookup IsFull key l.buckets v.full e)))
]

pub refilled-IsFull : (b : Bucket) (now : ℕ) → IsFull b → IsFull (refill b now)
refilled-IsFull b now h = let (_, c, _, _, _) = refill_fields b now in rw c (refill-IsFull b now h)
