-- ===== src/RateLimit/Batch.antt =====
-- `AllowAll`: several buckets charged as one decision.
use panmail.RateLimit.{
  Bucket, Limiter, Decision, Limit, Verdict, apply, bucket_for, charged, unlimited, assess, store,
}
use panmail.Base.Int.{ℤ}
use panmail.Base.Dict.{Dict}
use text.Mathlib.Text.{◌==◌}
use panmail.Base.{
  ◌==◌ as nat_eq, [], false, if◌then◌else◌, true, ◌∷◌, Bool, List, String, ℕ, not, ◌||◌, ◌++◌, ◌&&◌,
  ltb,
}

pub record Request : Type 0 where
  pub key : String
  pub limit : Limit

-- A bucket by its address, with what it would do.
pub record Pending : Type 0 where
  pub at : ℕ
  pub decision : Decision

-- The state of the first loop.
pub record Gathered : Type 0 where
  pub limiter : Limiter
  pub decisions : List Pending
  pub allowed : Bool
  pub retry_after : ℕ

abbrev pub skipped : Request → Bool
skipped r = unlimited r.limit || r.key == ""

-- One round of the loop: the bucket is found or made, refilled, and asked.
unfoldable pub consider : ℕ → ℕ → Gathered → Request → Gathered
consider cost now g r =
    if skipped r
    then g
    else let (l, b) = bucket_for g.limiter r.key r.limit now in
      let (b', d) = assess b cost now in
      record {
        limiter = store l r.key b';
        decisions = g.decisions ++ record { at = b'.ref; decision = d } ∷ [];
        allowed = g.allowed && d.allowed;
        retry_after =
            if d.allowed
            then g.retry_after
            else if ltb g.retry_after d.retry_after
            then d.retry_after
            else g.retry_after;
      }

unfoldable pub gather : ℕ → ℕ → Gathered → List Request → Gathered
gather cost now g [] = g
gather cost now g (r ∷ rs) = gather cost now (consider cost now g r) rs

-- A write through a pointer: to the bucket at that address, if the map still holds it.
unfoldable pub apply_at : Pending → Dict Bucket → Dict Bucket
apply_at p [] = []
apply_at p ((k, b) ∷ m) = (k, (if nat_eq b.ref p.at then apply p.decision b else b)) ∷ apply_at p m

unfoldable pub settle : List Pending → Dict Bucket → Dict Bucket
settle [] m = m
settle (p ∷ ps) m = settle ps (apply_at p m)

abbrev pub gathered : Limiter → List Request → ℤ → ℕ → Gathered
gathered l reqs cost now =
    gather (charged cost) now
      (record { limiter = l; decisions = []; allowed = true; retry_after = 0 }) reqs

unfoldable pub allow_all : Limiter → List Request → ℤ → ℕ → Limiter × Verdict
allow_all l reqs cost now =
    let g = gathered l reqs cost now in
    if not g.allowed
    then (g.limiter, record { allowed = false; retry_after = g.retry_after })
    else (
      record g.limiter { buckets = settle g.decisions g.limiter.buckets },
      record { allowed = true; retry_after = 0 },
    )
