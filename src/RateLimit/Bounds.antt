-- ===== src/RateLimit/Bounds.antt =====
-- How one decision moves the balance of a bucket (`assess` and `apply`).
use panmail.Base.{false, inl, inr, true, ℕ, ◌*◌, ◌≡◌, ◌≤◌, Bool-cases, arith, max, ◌-◌, ltb, ◌+◌}
use panmail.RateLimit.{Bucket, refill, decide, apply, Decision}
use panmail.Base.Int.{pos, ◌+ℤ◌, min_ℤ, ◌-ℤ◌, ◌≤ℤ◌, int_laws}

pub mul-sub_split : (a b r : ℕ) → a ≤ b → (b - a) * r + a * r ≡ b * r
mul-sub_split a b r h = grind arith

-- The potential of a bucket, `tokens - refilled * rate`, does not grow by a refill.
pub refill_potential :
    (b : Bucket) (now : ℕ)
    → (refill b now).tokens +ℤ pos (b.refilled * b.rate)
      ≤ℤ b.tokens +ℤ pos ((refill b now).refilled * b.rate)
unfolding refill
refill_potential b now = elim (Bool-cases (ltb b.refilled now)) [
  | inl e ↦ rw e (omega (int_laws, mul-sub_split b.refilled now b.rate (ground arith)))
  | inr e ↦ rw e (omega int_laws)
]

pub refill-IsFull :
    (b : Bucket) (now : ℕ) → b.tokens ≤ℤ pos b.capacity → (refill b now).tokens ≤ℤ pos b.capacity
unfolding refill
refill-IsFull b now h = elim (Bool-cases (ltb b.refilled now)) [
  | inl e ↦ rw e (omega int_laws)
  | inr e ↦ rw e h
]

pub refill_fields :
    (b : Bucket) (now : ℕ)
    → ((refill b now).rate ≡ b.rate)
      × ((refill b now).capacity ≡ b.capacity)
      × ((refill b now).ref ≡ b.ref)
      × ((refill b now).refilled ≡ max b.refilled now)
      × (b.tokens ≤ℤ pos b.capacity → b.tokens ≤ℤ (refill b now).tokens)
unfolding refill min_ℤ ◌+ℤ◌
refill_fields b now = ground arith

-- After an ordinary charge the balance has paid for it, and is not negative.
pub decide_charge :
    (b : Bucket) (want : ℕ)
    → want ≤ b.capacity
    → (decide b want).allowed ≡ true
    → ((apply (decide b want) b).tokens +ℤ pos want ≡ b.tokens)
      × (pos 0 ≤ℤ (apply (decide b want) b).tokens)
unfolding decide apply ◌+ℤ◌ ◌-ℤ◌
decide_charge b want fits h = ground arith

pub decide_refused :
    (b : Bucket) (want : ℕ) → (decide b want).allowed ≡ false → apply (decide b want) b ≡ b
unfolding decide apply
decide_refused b want h = ground arith

pub apply_fields :
    (d : Decision) (b : Bucket)
    → ((apply d b).rate ≡ b.rate)
      × ((apply d b).capacity ≡ b.capacity)
      × ((apply d b).refilled ≡ b.refilled)
unfolding apply
apply_fields d b = ground arith
