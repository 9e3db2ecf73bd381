-- ===== src/RateLimit/Undo.antt =====
-- A reservation and its cancel, on one bucket.
use panmail.RateLimit.Valid.{refilled-IsFull}
use text.Mathlib.TextPositions.{eq_refl}
use panmail.RateLimit.Table.{found, bucket_for-found, lookup-bucket_for}
use panmail.RateLimit.{Limiter, Bucket, refill, charged, unit, bucket_for}
use panmail.Base.{
  [], false, some, ◌∷◌, ℕ, ◌≡◌, length, ◌<◌, arith, ◌*◌, if◌then◌else◌, String, ◌≤◌, ltb, true,
  lt→ltb,
}
use panmail.Base.Int.{ℤ, pos, min_ℤ, ◌+ℤ◌, ◌-ℤ◌, ◌≤ℤ◌, ltb_ℤ, max_ℤ}
use panmail.Base.Dict.{lookup, Dict, put, lookup-put}
use panmail.RateLimit.Batch.{Request, skipped}
use panmail.RateLimit.Reserve.{reserve_all, reserve_from, reserve, cancel, restore, restore_all}
use text.Mathlib.Text.{◌==◌}

restored :
    (b : Bucket) (want : ℕ)
    → b.tokens ≤ℤ pos b.capacity
    → min_ℤ (pos b.capacity) ((b.tokens -ℤ pos want) +ℤ pos want) ≡ b.tokens
unfolding min_ℤ ◌+ℤ◌ ◌-ℤ◌
restored b want h = ground arith

le→ltb : (a b : ℕ) → b ≤ a → ltb a b ≡ false
le→ltb a b h = ground arith

zero_restored :
    (b : Bucket)
    → ltb_ℤ b.tokens (pos 0) ≡ true
    → min_ℤ (pos b.capacity) (pos 0 +ℤ max_ℤ b.tokens (pos 0)) ≡ pos 0
unfolding min_ℤ max_ℤ ◌+ℤ◌
zero_restored b h = ground arith

lookup-put-put :
    (k j : String) (v w : Bucket) (m : Dict Bucket)
    → lookup j (put k v (put k w m)) ≡ (if k == j then some v else lookup j m)
lookup-put-put k j v w m = ground (arith, lookup-put k j v (put k w m), lookup-put k j w m)

-- What a cancel leaves of the one bucket that the reservation holds.
restored_bucket : Bucket → ℤ → Bucket
restored_bucket b amount = record b { tokens = min_ℤ (pos b.capacity) (b.tokens +ℤ amount) }

lookup-restore :
    (m : Dict Bucket) (k j : String) (b : Bucket) (amount : ℤ)
    → lookup j (restore (put k b m) (record { key = k; restore = amount }))
      ≡ (if k == j then some (restored_bucket b amount) else lookup j m)
unfolding restore restored_bucket
lookup-restore m k j b amount =
    let there : lookup k (put k b m) ≡ some b = simp (lookup-put, eq_refl) in
    rw (there, restore)
      (lookup-put-put k j (record b { tokens = min_ℤ (pos b.capacity) (b.tokens +ℤ amount) }) b m)

module _ (l : Limiter) (r : Request) (cost : ℤ) (now : ℕ) (asked : skipped r ≡ false)
    (room : length l.buckets < l.max_buckets) where
  -- The bucket that the reservation draws on, refilled.
  abbrev drawn : Bucket
  drawn = refill (found l r.key r.limit now) now

  abbrev after_cancel : Limiter
  after_cancel = let (l', res) = reserve_all l (r ∷ []) cost now in (cancel l' res).0

  ordinary :
      (j : String)
      → charged cost * unit ≤ drawn.capacity
      → lookup j after_cancel.buckets ≡ (
          if r.key == j
          then some (
              restored_bucket
                (record drawn { tokens = drawn.tokens -ℤ pos (charged cost * unit) })
                (pos (charged cost * unit)))
          else lookup j l.buckets)
  unfolding reserve_all reserve_from reserve cancel restore_all
  ordinary j fits =
      let (l', _) = bucket_for l r.key r.limit now in
      let over = le→ltb drawn.capacity (charged cost * unit) fits in
      rw asked (
        rw (bucket_for-found l r.key r.limit now room) (
          rw over (
            rw (lookup-restore l'.buckets r.key j _ _, lookup-bucket_for l r.key r.limit now room j)
              (ground arith))))

  oversized :
      (j : String)
      → drawn.capacity < charged cost * unit
      → lookup j after_cancel.buckets ≡ (
          if r.key == j
          then some (restored_bucket (record drawn { tokens = pos 0 }) (max_ℤ drawn.tokens (pos 0)))
          else lookup j l.buckets)
  unfolding reserve_all reserve_from reserve cancel restore_all
  oversized j over =
      let (l', _) = bucket_for l r.key r.limit now in
      rw asked (
        rw (bucket_for-found l r.key r.limit now room) (
          rw (lt→ltb _ _ over) (
            rw (lookup-restore l'.buckets r.key j _ _, lookup-bucket_for l r.key r.limit now room j)
              (ground arith))))

  -- A reservation of one bucket and its cancel leave every bucket as if the one had only been
  -- found and refilled, while the map has room, the bucket holds no more than its capacity, and
  -- the cost fits in it.
  pub cancel-reserve_all :
      (j : String)
      → (found l r.key r.limit now).tokens ≤ℤ pos (found l r.key r.limit now).capacity
      → charged cost * unit ≤ drawn.capacity
      → lookup j after_cancel.buckets ≡ (if r.key == j then some drawn else lookup j l.buckets)
  unfolding restored_bucket
  cancel-reserve_all j full fits =
      rw (ordinary j fits) (rw (restored drawn (charged cost * unit) (refilled-IsFull _ now full)))

  -- An oversized reservation of a bucket in debt, once cancelled, leaves the bucket out of debt:
  -- its balance is zero, where it was below zero before the reservation.
  pub cancel_forgives_debt :
      ltb_ℤ drawn.tokens (pos 0) ≡ true
      → drawn.capacity < charged cost * unit
      → lookup r.key after_cancel.buckets ≡ some (record drawn { tokens = pos 0 })
  unfolding restored_bucket
  cancel_forgives_debt debt over =
      rw (oversized r.key over) (rw (eq_refl r.key, zero_restored drawn debt))
