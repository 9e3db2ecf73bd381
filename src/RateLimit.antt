-- ===== src/RateLimit.antt =====
-- internal/ratelimit/limiter.go: the per-tenant token buckets, and the reservations on them.
--
-- Go keeps tokens as float64. Here a balance is a whole number of units, with `unit` of them to a
-- token, one 60-billionth of a token: a minute has 60 * 10^9 nanoseconds, so a limit of n per
-- minute refills n units in each nanosecond, and every sum of the source is exact. Float rounding
-- is not modelled. Instants and durations are nanoseconds; each operation takes the clock's reading
-- as `now`. The mutex makes each operation one step. A `*bucket` is told apart by its `ref`, since
-- AllowAll holds pointers to buckets that a later eviction may have dropped from the map.
pub mod Bounds
pub mod Rate
pub mod Retry
pub mod Batch
pub mod Reserve
pub mod Atomic
pub mod Undo
mod Examples
pub mod Valid
pub mod Steps
mod Table
use panmail.Base.Dict.{Dict, keep, lookup, put, delete}
use panmail.Base.{
  ◌==◌ as nat_eq, Bool, String, [], ℕ, ◌*◌, leb, ◌-◌, false, if◌then◌else◌, none, some, true, ◌∷◌,
  ltb, not, ◌+◌, ◌||◌, length, ◌/◌,
}
use text.Mathlib.Text.{◌==◌}
use panmail.Base.Int.{ℤ, pos, negsuc, leb_ℤ, pos_part, ltb_ℤ, ◌-ℤ◌, min_ℤ, ◌+ℤ◌}

-- Units in a token.
abbrev pub unit : ℕ
unit = 60000000000

pub record Limit : Type 0 where
  pub per_minute : ℤ
  pub burst : ℤ

unfoldable pub unlimited : Limit → Bool
unlimited l = leb_ℤ l.per_minute (pos 0)

-- Units refilled in a nanosecond: `PerMinute / 60` tokens a second. It is read only of a limit that
-- is not unlimited, where the integer is its positive part.
unfoldable pub rate : Limit → ℕ
rate l = pos_part l.per_minute

unfoldable pub capacity : Limit → ℕ
capacity l = unit * (if ltb_ℤ (pos 0) l.burst then pos_part l.burst else pos_part l.per_minute)

pub record Bucket : Type 0 where
  pub ref : ℕ
  pub tokens : ℤ
  pub capacity : ℕ
  pub rate : ℕ
  pub refilled : ℕ
  pub seen : ℕ

pub record Limiter : Type 0 where
  pub buckets : Dict Bucket
  pub next_ref : ℕ
  pub max_buckets : ℕ
  pub idle_ttl : ℕ

abbrev pub default_max_buckets : ℕ
default_max_buckets = 10000

abbrev pub default_idle_ttl : ℕ
default_idle_ttl = 15 * 60 * 1000000000

unfoldable pub new : Limiter
new = record {
  buckets = [];
  next_ref = 0;
  max_buckets = default_max_buckets;
  idle_ttl = default_idle_ttl;
}

-- What a bucket would do about a cost, before it does it.
pub record Decision : Type 0 where
  pub allowed : Bool
  pub retry_after : ℕ
  pub spend : ℕ
  pub empty : Bool

unfoldable pub apply : Decision → Bucket → Bucket
apply d b =
    if d.allowed
    then (if d.empty
        then record b { tokens = pos 0 }
        else record b { tokens = b.tokens -ℤ pos d.spend })
    else b

-- The refill that `assess` and `ReserveAll` begin with.
unfoldable pub refill : Bucket → ℕ → Bucket
refill b now =
    if ltb b.refilled now
    then record b {
      tokens = min_ℤ (pos b.capacity) (b.tokens +ℤ pos ((now - b.refilled) * b.rate));
      refilled = now;
      seen = now;
    }
    else record b { seen = now }

-- The verdict on a refilled bucket; `want` is in units. `shortfall / perSec` seconds, cut to whole
-- nanoseconds, are `shortfall / rate` in units.
unfoldable pub decide : Bucket → ℕ → Decision
decide b want =
    if ltb b.capacity want
    then record { allowed = true; retry_after = 0; spend = 0; empty = true }
    else if leb_ℤ (pos want) b.tokens
    then record { allowed = true; retry_after = 0; spend = want; empty = false }
    else record {
      allowed = false;
      retry_after = pos_part (pos want -ℤ b.tokens) / b.rate;
      spend = 0;
      empty = false;
    }

unfoldable pub assess : Bucket → ℕ → ℕ → Bucket × Decision
assess b cost now = let b' = refill b now in (b', decide b' (cost * unit))

-- The least recently seen bucket: the loop over the map, from `oldest == ""`.
unfoldable pub oldest_from : String → ℕ → Dict Bucket → String
oldest_from oldest seen [] = oldest
oldest_from oldest seen ((id, b) ∷ m) =
    let newer = oldest == "" || ltb b.seen seen in
    oldest_from (if newer then id else oldest) (if newer then b.seen else seen) m

unfoldable pub drop_idle : Limiter → ℕ → Limiter
drop_idle l now = record l { buckets = keep (λ b. leb (now - b.seen) l.idle_ttl) l.buckets }

unfoldable pub evict_if_needed : Limiter → ℕ → Limiter
evict_if_needed l now =
    if ltb (length l.buckets) l.max_buckets
    then l
    else let l' = drop_idle l now in
      if ltb (length l'.buckets) l'.max_buckets
      then l'
      else record l' { buckets = delete (oldest_from "" 0 l'.buckets) l'.buckets }

-- A limit changed while running takes effect at once.
unfoldable pub rerate : Limit → Bucket → Bucket
rerate limit b =
    if not (nat_eq b.rate (rate limit)) || not (nat_eq b.capacity (capacity limit))
    then record b {
      rate = rate limit;
      capacity = capacity limit;
      tokens = min_ℤ b.tokens (pos (capacity limit));
    }
    else b

unfoldable pub new_bucket : ℕ → Limit → ℕ → Bucket
new_bucket r limit now = record {
  ref = r;
  tokens = pos (capacity limit);
  capacity = capacity limit;
  rate = rate limit;
  refilled = now;
  seen = now;
}

-- The limiter with the bucket in its map, and the bucket.
unfoldable pub bucket_for : Limiter → String → Limit → ℕ → Limiter × Bucket
bucket_for l key limit now = elim (lookup key l.buckets) [
  | some b ↦ let b' = rerate limit b in (record l { buckets = put key b' l.buckets }, b')
  | none ↦
      let l' = evict_if_needed l now in
      let b = new_bucket l'.next_ref limit now in
      (record l' { buckets = put key b l'.buckets; next_ref = l'.next_ref + 1 }, b)
]

-- `if cost <= 0 { cost = 1 }`
unfoldable pub charged : ℤ → ℕ
charged cost = if leb_ℤ cost (pos 0) then 1 else pos_part cost

pub record Verdict : Type 0 where
  pub allowed : Bool
  pub retry_after : ℕ

-- The limiter with the bucket of `key`, as an operation has just left it.
abbrev pub store : Limiter → String → Bucket → Limiter
store l key b = record l { buckets = put key b l.buckets }

unfoldable pub allow : Limiter → String → Limit → ℤ → ℕ → Limiter × Verdict
allow l tenant limit cost now =
    if unlimited limit
    then (l, record { allowed = true; retry_after = 0 })
    else let (l', b) = bucket_for l tenant limit now in
      let (b', d) = assess b (charged cost) now in
      (store l' tenant (apply d b'), record { allowed = d.allowed; retry_after = d.retry_after })
