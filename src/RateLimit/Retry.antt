-- ===== src/RateLimit/Retry.antt =====
-- The `retryAfter` of a refusal (`assess`).
use panmail.RateLimit.Bounds.{refill_fields, refill_potential, mul-sub_split}
use panmail.RateLimit.{Bucket, decide, refill, assess, unit}
use panmail.Base.{
  false, true, ℕ, ◌<◌, ◌≡◌, ◌≤◌, arith, ◌/◌, ◌*◌, ◌-◌, lt→ltb, inl, inr, ◌+◌, ap, ◌⊎◌,
}
use native.Mathlib.Nat.{div-add-mod, mod-lt}
use panmail.Base.Int.{pos, ◌≤ℤ◌, min_ℤ, ◌+ℤ◌, ◌-ℤ◌, pos_part, min_ℤ-cases, int_laws, neg_part}

reach : (s r k : ℕ) → 0 < r → s / r < k → s ≤ k * r
reach s r k h q = grind (arith, div-add-mod s r, mod-lt s h)

short : (s r k : ℕ) → 0 < r → k < s / r → k * r < s
short s r k h q = grind (arith, div-add-mod s r)

still_short : (s r k : ℕ) → 0 < r → 0 < s → k < s / r ⊎ k ≡ 0 → k * r < s
still_short s r k h p (inl q) = short s r k h q
still_short s r k h p (inr q) = rw q (omega arith)

module _ (b : Bucket) (want : ℕ) (refused : (decide b want).allowed ≡ false) where
  refused_short :
      (want ≤ b.capacity)
      × (b.tokens +ℤ pos (pos_part (pos want -ℤ b.tokens)) ≡ pos want)
      × ((decide b want).retry_after ≡ pos_part (pos want -ℤ b.tokens) / b.rate)
      × (0 < pos_part (pos want -ℤ b.tokens))
  unfolding decide ◌+ℤ◌ ◌-ℤ◌
  refused_short = ground arith

allowed_with : (b : Bucket) (want : ℕ) → pos want ≤ℤ b.tokens → (decide b want).allowed ≡ true
unfolding decide
allowed_with b want h = ground arith

refused_with :
    (b : Bucket) (want : ℕ)
    → want ≤ b.capacity
    → ¬ (pos want ≤ℤ b.tokens)
    → (decide b want).allowed ≡ false
unfolding decide
refused_with b want f h = ground arith

refill_later :
    (b : Bucket) (now : ℕ)
    → b.refilled < now
    → (refill b now).tokens ≡ min_ℤ (pos b.capacity) (b.tokens +ℤ pos ((now - b.refilled) * b.rate))
unfolding refill
refill_later b now h = rw (lt→ltb _ _ h)

-- The same at a bucket that was refilled at `b.refilled`, and asked again `later`.
module _ (b : Bucket) (want later : ℕ) (rated : 0 < b.rate)
    (refused : (decide b want).allowed ≡ false) where
  retry_enough :
      b.refilled + (decide b want).retry_after < later
      → (decide (refill b later) want).allowed ≡ true
  retry_enough wait =
      let (fits, short_by, after, _) = refused_short b want refused in
      let k = later - b.refilled in
      let paid = reach (pos_part (pos want -ℤ b.tokens)) b.rate k rated (omega (arith, after)) in
      allowed_with (refill b later) want (
        rw (refill_later b later (omega arith))
          (elim (min_ℤ-cases (pos b.capacity) (b.tokens +ℤ pos (k * b.rate))) [
            | inl e ↦ rw e (omega arith)
            | inr e ↦ rw e (omega (int_laws, paid, ap pos_part short_by, ap neg_part short_by))
          ]))

  retry_short :
      later < b.refilled + (decide b want).retry_after
      → (decide (refill b later) want).allowed ≡ false
  retry_short soon =
      let (fits, short_by, after, some_short) = refused_short b want refused in
      let (_, c, _, f, _) = refill_fields b later in
      let next = (refill b later).refilled in
      let unpaid =
        still_short (pos_part (pos want -ℤ b.tokens)) b.rate (next - b.refilled) rated some_short
          (omega (arith, f, after)) in
      refused_with (refill b later) want (rw c fits) (λ enough. omega (
        int_laws,
        enough,
        refill_potential b later,
        some_short,
        mul-sub_split b.refilled next b.rate (omega (arith, f)),
        unpaid,
        ap pos_part short_by,
        ap neg_part short_by,
      ))

-- A refused call is granted again as soon as more than `retryAfter` has passed, and refused while
-- less has; at exactly `retryAfter` either may happen, since the wait is cut to whole nanoseconds.
-- The bucket is one whose last refill is not in the clock's future.
pub retry_after_exact :
    (b : Bucket) (cost now later : ℕ)
    → 0 < b.rate
    → b.refilled ≤ now
    → (assess b cost now).1.allowed ≡ false
    → (now + (assess b cost now).1.retry_after < later
        → (assess (assess b cost now).0 cost later).1.allowed ≡ true)
      × (later < now + (assess b cost now).1.retry_after
          → (assess (assess b cost now).0 cost later).1.allowed ≡ false)
unfolding assess
retry_after_exact b cost now later rated behind refused =
    let (r, _, _, f, _) = refill_fields b now in
    let rated' : 0 < (refill b now).rate = omega (arith, r) in
    let at_now : (refill b now).refilled ≡ now = omega (arith, f) in
    (
      λ h. retry_enough (refill b now) (cost * unit) later rated' refused (omega (arith, at_now)),
      λ h. retry_short (refill b now) (cost * unit) later rated' refused (omega (arith, at_now)),
    )
