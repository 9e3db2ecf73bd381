-- ===== src/RateLimit/Atomic.antt =====
-- `AllowAll` as one decision.
use panmail.RateLimit.{Limiter, assess, bucket_for, store, refill, charged}
use panmail.Base.Int.{ℤ}
use panmail.Base.{
  [], false, if◌then◌else◌, inl, inr, refl, true, ◌∷◌, ℕ, List, ◌≡◌, Bool-cases, ◌&&◌, Bool, arith,
  max, ◌++◌, sym, ◌∙◌,
}
use panmail.RateLimit.Batch.{
  Gathered, consider, gather, Request, skipped, Pending, allow_all, gathered,
}

-- The first loop of `AllowAll` with nothing asked: the buckets found or made, and refilled.
unfoldable pub touch_all : Limiter → List Request → ℕ → Limiter
touch_all l [] now = l
touch_all l (r ∷ rs) now =
    touch_all
      (if skipped r
        then l
        else let (l', b) = bucket_for l r.key r.limit now in store l' r.key (refill b now))
      rs now

-- Every bucket grants.
unfoldable pub all_allow : List Pending → Bool
all_allow [] = true
all_allow (p ∷ ps) = p.decision.allowed && all_allow ps

-- The longest wait of the buckets that refuse.
unfoldable pub longest_wait : List Pending → ℕ
longest_wait [] = 0
longest_wait (p ∷ ps) =
    let rest = longest_wait ps in
    if p.decision.allowed then rest else max p.decision.retry_after rest

all_allow-snoc :
    (ps : List Pending) (p : Pending)
    → all_allow (ps ++ p ∷ []) ≡ (all_allow ps && p.decision.allowed)
unfolding all_allow
all_allow-snoc [] p = ground arith
all_allow-snoc (q ∷ ps) p = ground (arith, all_allow-snoc ps p)

longest_wait-snoc :
    (ps : List Pending) (p : Pending)
    → longest_wait (ps ++ p ∷ []) ≡ (
        if p.decision.allowed
        then longest_wait ps
        else max (longest_wait ps) p.decision.retry_after)
unfolding longest_wait
longest_wait-snoc [] p = ground arith
longest_wait-snoc (q ∷ ps) p = ground (arith, longest_wait-snoc ps p)

module _ (cost now : ℕ) where
  limiter-consider :
      (g : Gathered) (r : Request)
      → (consider cost now g r).limiter ≡ (
          if skipped r
          then g.limiter
          else let (l', b) = bucket_for g.limiter r.key r.limit now in
            store l' r.key (refill b now))
  unfolding consider assess
  limiter-consider g r = elim (Bool-cases (skipped r)) [ inl e ↦ rw e | inr e ↦ rw e ]

  limiter-gather :
      (g : Gathered) (rs : List Request)
      → (gather cost now g rs).limiter ≡ touch_all g.limiter rs now
  unfolding gather touch_all
  limiter-gather g [] = refl
  limiter-gather g (r ∷ rs) = rw (limiter-gather (consider cost now g r) rs, limiter-consider g r)

  -- What the loop has decided so far.
  abbrev Agrees : Gathered → Type 0
  Agrees g = (g.allowed ≡ all_allow g.decisions) × (g.retry_after ≡ longest_wait g.decisions)

  consider-Agrees : (g : Gathered) (r : Request) → Agrees g → Agrees (consider cost now g r)
  unfolding consider
  consider-Agrees g r h = elim (Bool-cases (skipped r)) [
    | inl e ↦ rw e h
    | inr e ↦ rw e (
        let (l, b) = bucket_for g.limiter r.key r.limit now in
        let (b', d) = assess b cost now in
        let p : Pending = record { at = b'.ref; decision = d } in
        ground (arith, all_allow-snoc g.decisions p, longest_wait-snoc g.decisions p, h))
  ]

  gather-Agrees : (g : Gathered) (rs : List Request) → Agrees g → Agrees (gather cost now g rs)
  unfolding gather
  gather-Agrees g [] h = h
  gather-Agrees g (r ∷ rs) h = gather-Agrees (consider cost now g r) rs (consider-Agrees g r h)

abbrev pub start : Limiter → Gathered
start l = record { limiter = l; decisions = []; allowed = true; retry_after = 0 }

-- `AllowAll` grants exactly when every bucket that it asks does. A refusal charges none of them:
-- the limiter is as if the buckets had only been found and refilled. It reports the longest wait
-- among the buckets that refuse.
pub allow_all_atomic :
    (l : Limiter) (reqs : List Request) (cost : ℤ) (now : ℕ)
    → let asked = (gathered l reqs cost now).decisions in
      let (l', v) = allow_all l reqs cost now in
      (v.allowed ≡ all_allow asked)
      × (v.allowed ≡ false → (l' ≡ touch_all l reqs now) × (v.retry_after ≡ longest_wait asked))
unfolding allow_all all_allow longest_wait
allow_all_atomic l reqs cost now =
    let (a, w) = gather-Agrees (charged cost) now (start l) reqs (refl, refl) in
    let t = limiter-gather (charged cost) now (start l) reqs in
    elim (Bool-cases (gathered l reqs cost now).allowed) [
      | inl e ↦ rw e (sym e ∙ a, λ h. absurd (ground arith))
      | inr e ↦ rw e (sym e ∙ a, λ h. (t, w))
    ]
