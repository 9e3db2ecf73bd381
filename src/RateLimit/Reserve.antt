-- ===== src/RateLimit/Reserve.antt =====
-- `ReserveAll`, `Reservation.Cancel` and `Forget`.
use panmail.RateLimit.Batch.{Request, skipped}
use panmail.RateLimit.{Bucket, Limiter, charged, unit, bucket_for, refill, store}
use panmail.Base.{
  [], if◌then◌else◌, none, some, ◌∷◌, String, ℕ, List, length, ◌*◌, ltb, ◌++◌, ◌/◌, ◌&&◌,
}
use panmail.Base.Int.{ℤ, pos, min_ℤ, ◌+ℤ◌, max_ℤ, ◌-ℤ◌, neg_part, ltb_ℤ}
use panmail.Base.Dict.{Dict, delete, lookup, put}

pub record Held : Type 0 where
  pub key : String
  pub restore : ℤ

pub record Reservation : Type 0 where
  pub delay : ℕ
  pub held : List Held

-- One round of the loop of `ReserveAll`.
unfoldable pub reserve : ℕ → ℕ → Limiter × Reservation → Request → Limiter × Reservation
reserve cost now (l, res) r =
    let want = cost * unit in
    let (l', found) = bucket_for l r.key r.limit now in
    let b = refill found now in
    if skipped r
    then (l, res)
    else if ltb b.capacity want
    then (
      store l' r.key (record b { tokens = pos 0 }),
      record res {
        held = res.held ++ record { key = r.key; restore = max_ℤ b.tokens (pos 0) } ∷ [];
      },
    )
    else let after = b.tokens -ℤ pos want in
      let wait = neg_part after / b.rate in
      (
        store l' r.key (record b { tokens = after }),
        record {
          held = res.held ++ record { key = r.key; restore = pos want } ∷ [];
          delay = if ltb_ℤ after (pos 0) && ltb res.delay wait then wait else res.delay;
        },
      )

unfoldable pub reserve_from : ℕ → ℕ → Limiter × Reservation → List Request → Limiter × Reservation
reserve_from cost now s [] = s
reserve_from cost now s (r ∷ rs) = reserve_from cost now (reserve cost now s r) rs

unfoldable pub reserve_all : Limiter → List Request → ℤ → ℕ → Limiter × Reservation
reserve_all l reqs cost now =
    reserve_from (charged cost) now (l, record { delay = 0; held = [] }) reqs

-- One round of the loop of `Cancel`: a bucket evicted since is not made again.
unfoldable pub restore : Dict Bucket → Held → Dict Bucket
restore m h = elim (lookup h.key m) [
  | none ↦ m
  | some b ↦ put h.key (record b { tokens = min_ℤ (pos b.capacity) (b.tokens +ℤ h.restore) }) m
]

unfoldable pub restore_all : Dict Bucket → List Held → Dict Bucket
restore_all m [] = m
restore_all m (h ∷ hs) = restore_all (restore m h) hs

-- A reservation is emptied by its first cancel, so that a second one restores nothing.
unfoldable pub cancel : Limiter → Reservation → Limiter × Reservation
cancel l r = (record l { buckets = restore_all l.buckets r.held }, record r { held = [] })

unfoldable pub forget : Limiter → String → Limiter
forget l key = record l { buckets = delete key l.buckets }

unfoldable pub tracked : Limiter → ℕ
tracked l = length l.buckets
