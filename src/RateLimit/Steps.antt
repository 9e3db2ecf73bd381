-- ===== src/RateLimit/Steps.antt =====
-- Every operation of the limiter keeps it valid.
use panmail.Base.Dict.{
  Dict, Values, Values-delete, length-delete-le, lookup, Values-put, length-put_old,
}
use panmail.RateLimit.Reserve.{
  reserve_all, restore, restore_all, cancel, reserve, reserve_from, Reservation, forget, Held,
}
use panmail.RateLimit.Batch.{
  allow_all, apply_at, consider, gather, settle, Gathered, Pending, Request, gathered, skipped,
}
use panmail.RateLimit.{
  Limiter, allow, apply, new, assess, Bucket, Decision, Limit, bucket_for, charged, refill,
  unlimited, decide, unit,
}
use panmail.Base.{
  ◌==◌ as nat_eq, [], inl, inr, refl, suc, true, ◌∷◌, ℕ, List, String, arith, Bool-cases, length,
  ◌≡◌, Option-cases, ap, ◌∙◌, ltb, ◌*◌,
}
use panmail.Base.Int.{ℤ, pos, ◌-ℤ◌, min_ℤ-le_left, int_laws, ◌+ℤ◌}
use panmail.RateLimit.Valid.{IsValid, IsFull, bucket_for-Holds, refilled-IsFull, store-Holds}

apply-IsFull : (d : Decision) (b : Bucket) → IsFull b → IsFull (apply d b)
unfolding apply ◌-ℤ◌
apply-IsFull d b h = ground arith

allow-IsValid :
    (l : Limiter) (key : String) (limit : Limit) (cost : ℤ) (now : ℕ)
    → IsValid l
    → IsValid (allow l key limit cost now).0
unfolding allow assess
allow-IsValid l key limit cost now v = elim (Bool-cases (unlimited limit)) [
  | inl e ↦ rw e v
  | inr e ↦ rw e (
      let (l', b) = bucket_for l key limit now in
      let h = bucket_for-Holds l key limit now v in
      (let b' = refill b now in
        let d = decide b' (charged cost * unit) in
        (store-Holds l' key b (apply d b') h
          (apply-IsFull d b' (refilled-IsFull b now h.full))).valid))
]

consider-IsValid :
    (cost now : ℕ) (g : Gathered) (r : Request)
    → IsValid g.limiter
    → IsValid (consider cost now g r).limiter
unfolding consider assess
consider-IsValid cost now g r v = elim (Bool-cases (skipped r)) [
  | inl e ↦ rw e v
  | inr e ↦ rw e (
      let (l', b) = bucket_for g.limiter r.key r.limit now in
      let h = bucket_for-Holds g.limiter r.key r.limit now v in
      (store-Holds l' r.key b (refill b now) h (refilled-IsFull b now h.full)).valid)
]

gather-IsValid :
    (cost now : ℕ) (g : Gathered) (rs : List Request)
    → IsValid g.limiter
    → IsValid (gather cost now g rs).limiter
unfolding gather
gather-IsValid cost now g [] v = v
gather-IsValid cost now g (r ∷ rs) v =
    gather-IsValid cost now (consider cost now g r) rs (consider-IsValid cost now g r v)

apply_at-IsFull : (p : Pending) (m : Dict Bucket) → Values IsFull m → Values IsFull (apply_at p m)
unfolding apply_at
apply_at-IsFull p [] h = tt
apply_at-IsFull p ((k, b) ∷ m) h = elim (Bool-cases (nat_eq b.ref p.at)) [
  | inl e ↦ rw e (apply-IsFull p.decision b h.0, apply_at-IsFull p m h.1)
  | inr e ↦ rw e (h.0, apply_at-IsFull p m h.1)
]

length-apply_at : (p : Pending) (m : Dict Bucket) → length (apply_at p m) ≡ length m
unfolding apply_at
length-apply_at p [] = refl
length-apply_at p ((k, b) ∷ m) = ap suc (length-apply_at p m)

settle-IsFull :
    (ps : List Pending) (m : Dict Bucket) → Values IsFull m → Values IsFull (settle ps m)
unfolding settle
settle-IsFull [] m h = h
settle-IsFull (p ∷ ps) m h = settle-IsFull ps (apply_at p m) (apply_at-IsFull p m h)

length-settle : (ps : List Pending) (m : Dict Bucket) → length (settle ps m) ≡ length m
unfolding settle
length-settle [] m = refl
length-settle (p ∷ ps) m = length-settle ps (apply_at p m) ∙ length-apply_at p m

allow_all-IsValid :
    (l : Limiter) (reqs : List Request) (cost : ℤ) (now : ℕ)
    → IsValid l
    → IsValid (allow_all l reqs cost now).0
unfolding allow_all
allow_all-IsValid l reqs cost now v =
    let g = gathered l reqs cost now in
    let h =
      gather-IsValid (charged cost) now
        (record { limiter = l; decisions = []; allowed = true; retry_after = 0 }) reqs v in
    elim (Bool-cases g.allowed) [
      | inl e ↦ rw e (record {
        full = settle-IsFull g.decisions g.limiter.buckets h.full;
        bounded = omega (arith, h.bounded, length-settle g.decisions g.limiter.buckets);
        room = h.room;
      })
      | inr e ↦ rw e h
    ]

module _ (cost now : ℕ) where
  reserve-IsValid :
      (s : Limiter × Reservation) (r : Request) → IsValid s.0 → IsValid (reserve cost now s r).0
  unfolding reserve
  reserve-IsValid (l, res) r v =
      let (l', found) = bucket_for l r.key r.limit now in
      let b = refill found now in
      let h = bucket_for-Holds l r.key r.limit now v in
      let f = refilled-IsFull found now h.full in
      elim (Bool-cases (skipped r)) [
        | inl e ↦ rw e v
        | inr e ↦ rw e (elim (Bool-cases (ltb b.capacity (cost * unit))) [
          | inl q ↦
              rw q (store-Holds l' r.key found (record b { tokens = pos 0 }) h (omega arith)).valid
          | inr q ↦
              rw q
                (store-Holds l' r.key found (record b { tokens = b.tokens -ℤ pos (cost * unit) }) h
                  (omega (int_laws, f))).valid
        ])
      ]

  reserve_from-IsValid :
      (s : Limiter × Reservation) (rs : List Request)
      → IsValid s.0
      → IsValid (reserve_from cost now s rs).0
  unfolding reserve_from
  reserve_from-IsValid s [] v = v
  reserve_from-IsValid s (r ∷ rs) v =
      reserve_from-IsValid (reserve cost now s r) rs (reserve-IsValid s r v)

-- A map in which no bucket is over its capacity.
restore-IsFull :
    (m : Dict Bucket) (h : Held)
    → Values IsFull m
    → Values IsFull (restore m h) × (length (restore m h) ≡ length m)
unfolding restore
restore-IsFull m h v = elim (Option-cases (lookup h.key m)) [
  | inl e ↦ rw (e, restore) (v, refl)
  | inr (b, e) ↦
      rw (e, restore)
        (
          Values-put IsFull h.key _ m v (min_ℤ-le_left (pos b.capacity) (b.tokens +ℤ h.restore)),
          length-put_old h.key _ {w = b} m e,
        )
]

restore_all-IsFull :
    (m : Dict Bucket) (hs : List Held)
    → Values IsFull m
    → Values IsFull (restore_all m hs) × (length (restore_all m hs) ≡ length m)
unfolding restore_all
restore_all-IsFull m [] v = (v, refl)
restore_all-IsFull m (h ∷ hs) v =
    let (f, e) = restore-IsFull m h v in
    let (g, q) = restore_all-IsFull (restore m h) hs f in (g, q ∙ e)

-- The operations of a limiter, a cancel of any reservation among them.
pub data Step (l : Limiter) : Limiter → Type 0 where
  allow_step :
      (key : String) (limit : Limit) (cost : ℤ) (now : ℕ) → Step l (allow l key limit cost now).0
  allow_all_step : (reqs : List Request) (cost : ℤ) (now : ℕ) → Step l (allow_all l reqs cost now).0
  reserve_step : (reqs : List Request) (cost : ℤ) (now : ℕ) → Step l (reserve_all l reqs cost now).0
  cancel_step : (r : Reservation) → Step l (cancel l r).0
  forget_step : (key : String) → Step l (forget l key)

pub data Reach (l : Limiter) : Limiter → Type 0 where
  here : Reach l l
  next : {m n : Limiter} → Reach l m → Step m n → Reach l n

Step-IsValid : {l m : Limiter} → Step l m → IsValid l → IsValid m
unfolding reserve_all cancel forget
Step-IsValid {l} (allow_step key limit cost now) v = allow-IsValid l key limit cost now v
Step-IsValid {l} (allow_all_step reqs cost now) v = allow_all-IsValid l reqs cost now v
Step-IsValid {l} (reserve_step reqs cost now) v =
    reserve_from-IsValid (charged cost) now (l, record { delay = 0; held = [] }) reqs v
Step-IsValid {l} (cancel_step r) v =
    let (f, e) = restore_all-IsFull l.buckets r.held v.full in
    record { full = f; bounded = omega (arith, e, v.bounded); room = v.room }
Step-IsValid {l} (forget_step key) v = record {
  full = Values-delete IsFull key l.buckets v.full;
  bounded = omega (arith, length-delete-le key l.buckets, v.bounded);
  room = v.room;
}

new-IsValid : IsValid new
unfolding new
new-IsValid = omega arith

Reach-IsValid : {l m : Limiter} → IsValid l → Reach l m → IsValid m
Reach-IsValid v here = v
Reach-IsValid v (next r s) = Step-IsValid s (Reach-IsValid v r)

-- After any operations on a new limiter, with any clock readings, no bucket holds more than its
-- capacity and the map has no more buckets than its bound.
pub Reach-new-IsValid : {l : Limiter} → Reach new l → IsValid l
Reach-new-IsValid r = Reach-IsValid new-IsValid r
