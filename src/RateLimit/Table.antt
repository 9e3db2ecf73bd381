-- ===== src/RateLimit/Table.antt =====
-- What `bucketFor` and `Allow` do to the map of buckets while it has room.
use text.Mathlib.TextPositions.{eq_refl}
use panmail.Base.Int.{ℤ}
use panmail.RateLimit.{
  Bucket, Limiter, bucket_for, Limit, apply, assess, rerate, evict_if_needed, new_bucket, unlimited,
  allow, charged, decide, drop_idle, refill, unit,
}
use panmail.Base.{
  false, if◌then◌else◌, inl, inr, none, some, String, ℕ, length, ◌<◌, ◌≡◌, arith, ◌+◌, Option-cases,
  true, ◌≤◌, ◌*◌, suc, Bool-cases,
}
use panmail.Base.Dict.{lookup, put, Dict, lookup-put, length-put-le, length-put_old}
use text.Mathlib.Text.{◌==◌}

put_twice :
    (k j : String) (v w : Bucket) (m : Dict Bucket)
    → lookup j (put k v (put k w m)) ≡ (if k == j then some v else lookup j m)
put_twice k j v w m = ground (arith, lookup-put k j v (put k w m), lookup-put k j w m)

length-put_twice :
    (k : String) (v w : Bucket) (m : Dict Bucket) → length (put k v (put k w m)) ≤ length m + 1
length-put_twice k v w m = omega (
  arith,
  length-put-le k w m,
  length-put_old k v {w = w} (put k w m) (simp (lookup-put, eq_refl)),
)

module _ (l : Limiter) (now : ℕ) (room : length l.buckets < l.max_buckets) where
  evict_room : evict_if_needed l now ≡ l
  unfolding evict_if_needed
  evict_room = ground arith

  pub bucket_for_new :
      (key : String) (limit : Limit)
      → lookup key l.buckets ≡ none
      → bucket_for l key limit now ≡ (
        record l {
          buckets = put key (new_bucket l.next_ref limit now) l.buckets;
          next_ref = l.next_ref + 1;
        },
        new_bucket l.next_ref limit now,
      )
  unfolding bucket_for
  bucket_for_new key limit h = rw (h, bucket_for) (rw evict_room)

pub bucket_for_old :
    (l : Limiter) (key : String) (limit : Limit) (now : ℕ) {b : Bucket}
    → lookup key l.buckets ≡ some b
    → bucket_for l key limit now
      ≡ (record l { buckets = put key (rerate limit b) l.buckets }, rerate limit b)
unfolding bucket_for
bucket_for_old l key limit now h = rw (h, bucket_for)

-- What `Allow` leaves in the map under `key`, from the bucket that it found or made.
unfoldable pub settled : Bucket → ℕ → ℕ → Bucket
settled b cost now = apply (assess b cost now).1 (assess b cost now).0

-- The bucket that `Allow` works on.
unfoldable pub found : Limiter → String → Limit → ℕ → Bucket
found l key limit now = elim (lookup key l.buckets) [
  | some b ↦ rerate limit b
  | none ↦ new_bucket l.next_ref limit now
]

module _ (l : Limiter) (key : String) (limit : Limit) (cost : ℤ) (now : ℕ)
    (room : length l.buckets < l.max_buckets) (capped : unlimited limit ≡ false) where
  pub lookup-allow :
      (j : String)
      → lookup j (allow l key limit cost now).0.buckets ≡ (
          if key == j
          then some (settled (found l key limit now) (charged cost) now)
          else lookup j l.buckets)
  unfolding allow found settled
  lookup-allow j = elim (Option-cases (lookup key l.buckets)) [
    | inl e ↦
        rw capped (
          rw (bucket_for_new l now room key limit e)
            (rw (e, found) (put_twice key j _ _ l.buckets)))
    | inr (b, e) ↦
        rw capped
          (rw (bucket_for_old l key limit now e) (rw (e, found) (put_twice key j _ _ l.buckets)))
  ]

  pub length-allow-le : length (allow l key limit cost now).0.buckets ≤ length l.buckets + 1
  unfolding allow
  length-allow-le = elim (Option-cases (lookup key l.buckets)) [
    | inl e ↦
        rw capped (rw (bucket_for_new l now room key limit e) (length-put_twice key _ _ l.buckets))
    | inr (b, e) ↦
        rw capped (rw (bucket_for_old l key limit now e) (length-put_twice key _ _ l.buckets))
  ]

pub allow-unlimited :
    (l : Limiter) (key : String) (limit : Limit) (cost : ℤ) (now : ℕ)
    → unlimited limit ≡ true
    → (allow l key limit cost now).0 ≡ l
unfolding allow
allow-unlimited l key limit cost now h = rw h

max_buckets-evict_if_needed :
    (l : Limiter) (now : ℕ) → (evict_if_needed l now).max_buckets ≡ l.max_buckets
unfolding evict_if_needed drop_idle
max_buckets-evict_if_needed l now = ground arith

pub max_buckets-bucket_for :
    (l : Limiter) (key : String) (limit : Limit) (now : ℕ)
    → (bucket_for l key limit now).0.max_buckets ≡ l.max_buckets
unfolding bucket_for
max_buckets-bucket_for l key limit now = ground (arith, max_buckets-evict_if_needed l now)

pub max_buckets-allow :
    (l : Limiter) (key : String) (limit : Limit) (cost : ℤ) (now : ℕ)
    → (allow l key limit cost now).0.max_buckets ≡ l.max_buckets
unfolding allow
max_buckets-allow l key limit cost now = ground (arith, max_buckets-bucket_for l key limit now)

pub verdict-allow :
    (l : Limiter) (key : String) (limit : Limit) (cost : ℤ) (now : ℕ)
    → length l.buckets < l.max_buckets
    → unlimited limit ≡ false
    → let d = decide (refill (found l key limit now) now) (charged cost * unit) in
      (allow l key limit cost now).1 ≡ record { allowed = d.allowed; retry_after = d.retry_after }
unfolding allow assess found
verdict-allow l key limit cost now room capped = elim (Option-cases (lookup key l.buckets)) [
  | inl e ↦ rw capped (rw (bucket_for_new l now room key limit e) (rw (e, found)))
  | inr (b, e) ↦ rw capped (rw (bucket_for_old l key limit now e) (rw (e, found)))
]

-- A call adds one bucket at most, so that a map with room for two has room for the next call.
pub room-allow :
    (l : Limiter) (key : String) (limit : Limit) (cost : ℤ) (now n : ℕ)
    → length l.buckets + suc n ≤ l.max_buckets
    → length (allow l key limit cost now).0.buckets + n ≤ (allow l key limit cost now).0.max_buckets
room-allow l key limit cost now n room = elim (Bool-cases (unlimited limit)) [
  | inl e ↦ rw (allow-unlimited l key limit cost now e) (omega arith)
  | inr e ↦ omega (
    arith,
    max_buckets-allow l key limit cost now,
    length-allow-le l key limit cost now (omega arith) e,
  )
]

module _ (l : Limiter) (key : String) (limit : Limit) (now : ℕ)
    (room : length l.buckets < l.max_buckets) where
  pub bucket_for-found : (bucket_for l key limit now).1 ≡ found l key limit now
  unfolding found
  bucket_for-found = elim (Option-cases (lookup key l.buckets)) [
    | inl e ↦ rw (bucket_for_new l now room key limit e, e, found)
    | inr (b, e) ↦ rw (bucket_for_old l key limit now e, e, found)
  ]

  pub lookup-bucket_for :
      (j : String)
      → lookup j (bucket_for l key limit now).0.buckets
        ≡ (if key == j then some (found l key limit now) else lookup j l.buckets)
  unfolding found
  lookup-bucket_for j = elim (Option-cases (lookup key l.buckets)) [
    | inl e ↦ rw (bucket_for_new l now room key limit e, e, found) (lookup-put key j _ l.buckets)
    | inr (b, e) ↦ rw (bucket_for_old l key limit now e, e, found) (lookup-put key j _ l.buckets)
  ]
