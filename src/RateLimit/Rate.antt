-- ===== src/RateLimit/Rate.antt =====
-- The rate that the limiter enforces: what `Allow` grants one key over any run of calls.
use text.Mathlib.TextEquality.{eq_iff}
use text.Mathlib.TextPositions.{eq_refl}
use panmail.Base.Dict.{lookup}
use panmail.RateLimit.Table.{
  found, settled, verdict-allow, allow-unlimited, lookup-allow, room-allow,
}
use panmail.RateLimit.Bounds.{
  refill_fields, decide_charge, apply_fields, refill-IsFull, refill_potential, mul-sub_split,
  decide_refused,
}
use panmail.RateLimit.{
  Limit, Limiter, rerate, Bucket, Verdict, allow, charged, rate, capacity, unit, decide, refill,
  apply, new_bucket, assess, unlimited,
}
use panmail.Base.{
  [], if◌then◌else◌, none, some, true, ◌∷◌, String, List, ℕ, Option, ◌&&◌, ◌+◌, ◌≡◌, ◌≤◌, ◌*◌,
  arith, ◌∙◌, subst, ap, inl, inr, Option-cases, false, Bool, length, ◌<◌, Bool-cases, All, ◌-◌,
}
use panmail.Base.Int.{ℤ, pos, ◌+ℤ◌, ◌≤ℤ◌, int_laws, pos_part, neg_part}
use text.Mathlib.Text.{◌==◌}
use native.Mathlib.Nat.{add-zero, zero-add, add_assoc}
use panmail.Base.{refl}

pub record Call : Type 0 where
  pub tenant : String
  pub limit : Limit
  pub cost : ℤ
  pub now : ℕ

abbrev pub answer : Limiter → Call → Limiter × Verdict
answer l c = allow l c.tenant c.limit c.cost c.now

-- The messages that one call was granted to `key`.
abbrev pub grant : String → Call → Verdict → ℕ
grant key c v = if c.tenant == key && v.allowed then charged c.cost else 0

-- The messages granted to `key` by a run of calls.
unfoldable pub granted : String → Limiter → List Call → ℕ
granted key l [] = 0
granted key l (c ∷ cs) = grant key c (answer l c).1 + granted key (answer l c).0 cs

-- A bucket that has paid for `spent` messages since `start`.
record IsPaid (limit : Limit) (start stop spent : ℕ) (b : Bucket) : Type 0 where
  rated : b.rate ≡ rate limit
  sized : b.capacity ≡ capacity limit
  full : b.tokens ≤ℤ pos (capacity limit)
  credit : pos 0 ≤ℤ b.tokens
  stopped : b.refilled ≤ stop
  paid :
      b.tokens +ℤ pos (spent * unit + start * rate limit)
      ≤ℤ pos (capacity limit + b.refilled * rate limit)

abbrev IsPaid? : Limit → ℕ → ℕ → ℕ → Option Bucket → Type 0
IsPaid? limit start stop spent none = spent ≡ 0
IsPaid? limit start stop spent (some b) = IsPaid limit start stop spent b

rerate_same :
    (limit : Limit) (b : Bucket)
    → b.rate ≡ rate limit
    → b.capacity ≡ capacity limit
    → rerate limit b ≡ b
unfolding rerate
rerate_same limit b h k = ground arith

module _ (limit : Limit) (start stop spent cost : ℕ) (b : Bucket) (now : ℕ) (early : start ≤ now)
    (late : now ≤ stop) (fits : cost * unit ≤ capacity limit) where
  refill-IsPaid : IsPaid limit start stop spent b → IsPaid limit start stop spent (refill b now)
  refill-IsPaid h =
      let (r, c, _, f, g) = refill_fields b now in
      record {
        rated = r ∙ h.rated;
        sized = c ∙ h.sized;
        full =
            subst (λ k. (refill b now).tokens ≤ℤ pos k) h.sized
              (refill-IsFull b now (rw h.sized h.full));
        credit = omega (int_laws, g (rw h.sized h.full), h.credit);
        stopped = omega (arith, f, h.stopped);
        paid = omega (
          int_laws,
          h.paid,
          subst
              (λ k.
                (refill b now).tokens +ℤ pos (b.refilled * k)
                ≤ℤ b.tokens +ℤ pos ((refill b now).refilled * k))
              h.rated (refill_potential b now),
        );
      }

  charge-IsPaid :
      IsPaid limit start stop spent b
      → (decide b (cost * unit)).allowed ≡ true
      → IsPaid limit start stop (spent + cost) (apply (decide b (cost * unit)) b)
  charge-IsPaid h e =
      let (paid, credit) = decide_charge b (cost * unit) (rw h.sized fits) e in
      let (r, c, f) = apply_fields (decide b (cost * unit)) b in
      record {
        rated = r ∙ h.rated;
        sized = c ∙ h.sized;
        full = omega (int_laws, h.full, ap pos_part paid, ap neg_part paid);
        credit = credit;
        stopped = omega (arith, f, h.stopped);
        paid = rw f (omega (int_laws, h.paid, ap pos_part paid, ap neg_part paid));
      }

  -- One call of `Allow`, on its own key or another, keeps the account of `key`.
  decided-IsPaid :
      (v : Bool)
      → (decide b (cost * unit)).allowed ≡ v
      → IsPaid limit start stop spent b
      → IsPaid limit start stop (spent + (if v then cost else 0)) (apply (decide b (cost * unit)) b)
  decided-IsPaid true e h = charge-IsPaid h e
  decided-IsPaid false e h = rw (add-zero, decide_refused b (cost * unit) e) h

settled-IsPaid :
    (limit : Limit) (start stop spent cost : ℕ) (b : Bucket) (now : ℕ)
    → start ≤ now
    → now ≤ stop
    → cost * unit ≤ capacity limit
    → IsPaid limit start stop spent b
    → IsPaid limit start stop
        (spent + (if (decide (refill b now) (cost * unit)).allowed then cost else 0))
        (settled b cost now)
unfolding settled assess
settled-IsPaid limit start stop spent cost b now early late fits h =
    decided-IsPaid limit start stop spent cost (refill b now) now early late fits _ refl
      (refill-IsPaid limit start stop spent cost b now early late fits h)

fresh :
    (limit : Limit) (start stop r spent now : ℕ)
    → start ≤ now
    → now ≤ stop
    → spent ≡ 0
    → IsPaid limit start stop spent (new_bucket r limit now)
unfolding new_bucket
fresh limit start stop r spent now early late none_yet = record {
  rated = refl;
  sized = refl;
  full = omega arith;
  credit = omega arith;
  stopped = late;
  paid = rw none_yet (omega (int_laws, mul-sub_split start now (rate limit) early));
}

module _ (limit : Limit) (start stop : ℕ) (key : String) where
  found-IsPaid :
      (l : Limiter) (spent now : ℕ)
      → start ≤ now
      → now ≤ stop
      → IsPaid? limit start stop spent (lookup key l.buckets)
      → IsPaid limit start stop spent (found l key limit now)
  unfolding found
  found-IsPaid l spent now early late h = elim (Option-cases (lookup key l.buckets)) [
    | inl e ↦ rw (e, found) (fresh limit start stop l.next_ref spent now early late (rw e at h))
    | inr (b, e) ↦ rw (e, found) (let p = rw e at h in rw (rerate_same limit b p.rated p.sized) p)
  ]

  -- The calls on `key` use its limit, lie in the window, and cost no more than a full bucket.
  pub record Fits (c : Call) : Type 0 where
    pub own_limit : c.tenant ≡ key → c.limit ≡ limit
    pub early : c.tenant ≡ key → start ≤ c.now
    pub late : c.tenant ≡ key → c.now ≤ stop
    pub fits : c.tenant ≡ key → charged c.cost * unit ≤ capacity limit

  module _ (capped : unlimited limit ≡ false) (l : Limiter) (spent : ℕ)
      (room : length l.buckets < l.max_buckets) where
    own-IsPaid :
        (cost : ℤ) (now : ℕ)
        → start ≤ now
        → now ≤ stop
        → charged cost * unit ≤ capacity limit
        → IsPaid? limit start stop spent (lookup key l.buckets)
        → IsPaid? limit start stop
            (spent + (if (allow l key limit cost now).1.allowed then charged cost else 0))
            (lookup key (allow l key limit cost now).0.buckets)
    own-IsPaid cost now early late fits h =
        rw
          (
            verdict-allow l key limit cost now room capped,
            lookup-allow l key limit cost now room capped key,
            eq_refl,
          )
          (settled-IsPaid limit start stop spent (charged cost) (found l key limit now) now early
            late fits (found-IsPaid l spent now early late h))

    other-IsPaid :
        (c : Call)
        → (c.tenant == key) ≡ false
        → IsPaid? limit start stop spent (lookup key l.buckets)
        → IsPaid? limit start stop spent (lookup key (answer l c).0.buckets)
    other-IsPaid c ne h = elim (Bool-cases (unlimited c.limit)) [
      | inl e ↦ rw (allow-unlimited l c.tenant c.limit c.cost c.now e) h
      | inr e ↦ rw (lookup-allow l c.tenant c.limit c.cost c.now room e key, ne) h
    ]

    answer-IsPaid :
        (c : Call)
        → Fits c
        → IsPaid? limit start stop spent (lookup key l.buckets)
        → IsPaid? limit start stop
            (spent + grant key c (answer l c).1)
            (lookup key (answer l c).0.buckets)
    answer-IsPaid c f h = elim (Bool-cases (c.tenant == key)) [
      | inl e ↦
          let own = (eq_iff c.tenant key).0 e in
          rw e (
            rw (own, f.own_limit own)
              (own-IsPaid c.cost c.now (f.early own) (f.late own) (f.fits own) h))
      | inr e ↦ rw (e, add-zero) (other-IsPaid c e h)
    ]

  spent_bound :
      (spent : ℕ) (o : Option Bucket)
      → start ≤ stop
      → IsPaid? limit start stop spent o
      → spent * unit ≤ capacity limit + (stop - start) * rate limit
  spent_bound spent none w h = rw h (omega arith)
  spent_bound spent (some b) w h = omega (
    int_laws,
    h.paid,
    h.credit,
    h.stopped,
    mul-sub_split start stop (rate limit) w,
    mul-sub_split b.refilled stop (rate limit) h.stopped,
  )

  granted_bound :
      (capped : unlimited limit ≡ false) (w : start ≤ stop) (spent : ℕ) (l : Limiter)
      (calls : List Call)
      → length l.buckets + length calls ≤ l.max_buckets
      → All Fits calls
      → IsPaid? limit start stop spent (lookup key l.buckets)
      → (spent + granted key l calls) * unit ≤ capacity limit + (stop - start) * rate limit
  unfolding granted
  granted_bound capped w spent l [] room f h = rw add-zero (spent_bound spent _ w h)
  granted_bound capped w spent l (c ∷ cs) room f h = rw (← add_assoc) (
      granted_bound capped w (spent + grant key c (answer l c).1) (answer l c).0 cs
        (room-allow l c.tenant c.limit c.cost c.now (length cs) room) f.1
        (answer-IsPaid capped l spent (omega arith) c f.0 h))

  -- Whatever the other keys do: a key with no bucket is granted at most one full bucket and what
  -- its limit refills in the window, in messages times `unit`, while the map has room for every
  -- call and each of its calls has the limit, falls in the window and fits in the bucket.
  pub granted-le :
      (l : Limiter) (calls : List Call)
      → unlimited limit ≡ false
      → start ≤ stop
      → lookup key l.buckets ≡ none
      → length l.buckets + length calls ≤ l.max_buckets
      → All Fits calls
      → granted key l calls * unit ≤ capacity limit + (stop - start) * rate limit
  granted-le l calls capped w new room f =
      rw zero-add at (granted_bound capped w 0 l calls room f (rw new refl))
