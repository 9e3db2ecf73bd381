-- ===== src/RateLimit/Examples.antt =====
-- Runs of the limiter, and its theorems at concrete inputs.
use text.Mathlib.TextEquality.{eq_iff}
use panmail.RateLimit.Undo.{cancel-reserve_all, cancel_forgives_debt}
use panmail.Base.Dict.{lookup, put}
use panmail.RateLimit.Atomic.{all_allow, touch_all, longest_wait, allow_all_atomic}
use panmail.RateLimit.Retry.{retry_after_exact}
use panmail.RateLimit.Steps.{Reach-new-IsValid, next, here, allow_step, allow_all_step}
use panmail.RateLimit.Reserve.{reserve_all, cancel, reserve_from, reserve}
use panmail.RateLimit.Table.{found}
use panmail.RateLimit.Batch.{Request, gathered, allow_all}
use panmail.RateLimit.Valid.{IsValid}
use panmail.RateLimit.Rate.{granted, Call, Fits, granted-le}
use panmail.RateLimit.{
  Bucket, Limit, Limiter, assess, new, allow, capacity, decide, bucket_for, charged, new_bucket,
  refill, unit, evict_if_needed, unlimited, rate, apply, rerate,
}
use panmail.Base.{
  [], false, refl, some, true, ◌∷◌, List, ℕ, ◌+◌, ◌*◌, ◌<◌, ◌≡◌, arith, ◌≤◌, ◌-◌, All,
}
use panmail.Base.Int.{pos, min_ℤ, ◌-ℤ◌, ◌+ℤ◌}

-- Sixty messages a minute, three at once.
abbrev slow : Limit
slow = record { per_minute = pos 60; burst = pos 3 }

abbrev second : ℕ
second = 1000000000

abbrev calls : List Call
calls =
    record { tenant = "a"; limit = slow; cost = pos 2; now = 0 }
    ∷ record { tenant = "b"; limit = slow; cost = pos 9; now = 1 }
    ∷ record { tenant = "a"; limit = slow; cost = pos 2; now = 0 }
    ∷ record { tenant = "a"; limit = slow; cost = pos 2; now = second }
    ∷ []

granted_run : granted "a" new calls ≡ 4
unfolding granted allow new bucket_for evict_if_needed new_bucket lookup put unlimited charged
    capacity rate assess decide refill apply rerate min_ℤ ◌-ℤ◌ ◌+ℤ◌
granted_run = refl

granted-le_example : granted "a" new calls * unit ≤ capacity slow + (second - 0) * rate slow
unfolding new capacity charged unlimited lookup
granted-le_example =
    granted-le slow 0 second "a" new calls refl (omega arith) refl (omega arith) fits
  where
    fits : All (Fits slow 0 second "a") calls
    fits = ground (arith, eq_iff "b" "a")

abbrev tight : Bucket
tight = record { ref = 0; tokens = pos 0; capacity = 3 * unit; rate = 60; refilled = 5; seen = 5 }

refused_now : (assess tight 1 5).1.allowed ≡ false
unfolding assess decide refill
refused_now = refl

retry_after_exact_example :
    (5 + (assess tight 1 5).1.retry_after < 2000000000
      → (assess (assess tight 1 5).0 1 2000000000).1.allowed ≡ true)
    × (2000000000 < 5 + (assess tight 1 5).1.retry_after
        → (assess (assess tight 1 5).0 1 2000000000).1.allowed ≡ false)
retry_after_exact_example =
    retry_after_exact tight 1 5 2000000000 (omega arith) (omega arith) refused_now

abbrev reqs : List Request
reqs = record { key = "a"; limit = slow } ∷ record { key = "b"; limit = slow } ∷ []

Reach-new-IsValid_example : IsValid (allow_all (allow new "a" slow (pos 2) 0).0 reqs (pos 2) 7).0
Reach-new-IsValid_example =
    Reach-new-IsValid
      (next (next here (allow_step "a" slow (pos 2) 0)) (allow_all_step reqs (pos 2) 7))

allow_all_atomic_example :
    let asked = (gathered new reqs (pos 2) 0).decisions in
    let (l', v) = allow_all new reqs (pos 2) 0 in
    (v.allowed ≡ all_allow asked)
    × (v.allowed ≡ false → (l' ≡ touch_all new reqs 0) × (v.retry_after ≡ longest_wait asked))
allow_all_atomic_example = allow_all_atomic new reqs (pos 2) 0

abbrev one : Request
one = record { key = "a"; limit = slow }

cancel-reserve_all_example :
    let (l', res) = reserve_all new (one ∷ []) (pos 2) 0 in
    lookup "a" (cancel l' res).0.buckets ≡ some (refill (found new "a" slow 0) 0)
unfolding new found new_bucket lookup capacity unlimited charged refill
cancel-reserve_all_example =
    cancel-reserve_all new one (pos 2) 0 refl (omega arith) "a" (omega arith) (omega arith)

-- Two messages over the burst of three leave a debt of one; the oversized reservation pays it off.
abbrev indebted : Limiter
indebted =
    (reserve_all new (record { key = "a"; limit = slow } ∷ record { key = "a"; limit = slow } ∷ [])
      (pos 2) 0).0

cancel_forgives_debt_example :
    let (l', res) = reserve_all indebted (one ∷ []) (pos 4) 0 in
    lookup "a" (cancel l' res).0.buckets
    ≡ some (record (refill (found indebted "a" slow 0) 0) { tokens = pos 0 })
unfolding new found new_bucket lookup capacity unlimited charged reserve_all reserve_from reserve
    bucket_for evict_if_needed put rerate rate refill ◌-ℤ◌
cancel_forgives_debt_example =
    cancel_forgives_debt indebted one (pos 4) 0 refl (omega arith) refl (omega arith)
