-- ===== src/Admission/Rate.antt =====
-- internal/email/usecases/send_rate_limit.go at admission: the tenant's ceiling, the depth of its
-- queue, and the charge to its bucket and the provider's.
use panmail.Admission.{Gateway, Provider, Refusal, World, backlog_full, rate_limited}
use panmail.Base.Int.{pos, pos_part}
use panmail.Base.Text.{Text}
use panmail.Base.{
  List, Option, String, [], if◌then◌else◌, leb, length, none, some, suc, zero, ℕ, ◌*◌, ◌+◌, ◌∷◌,
  ◌&&◌,
}
use panmail.Cache.{TtlCache, get, put_value}
use panmail.RateLimit.Batch.{Request, allow_all}
use panmail.RateLimit.{Limit, Verdict, unlimited}
use Prim.Native.String.{◌++◌ as string_append}

abbrev pub at_least_one : ℕ → ℕ
at_least_one zero = 1
at_least_one (suc n) = suc n

unfoldable pub recipient_count : List Text → List Text → List Text → ℕ
recipient_count to copies blind = at_least_one (length to + length copies + length blind)

abbrev pub no_limit : Limit
no_limit = record { per_minute = pos 0; burst = pos 0 }

abbrev pub backlog_minutes : ℕ
backlog_minutes = 60

unfoldable pub provider_bucket_key : String → String → String
provider_bucket_key tenant_id provider_id =
    string_append tenant_id (string_append "|provider|" provider_id)

-- `SendLimitFor`: the limit in force with the cache that the read leaves, or none where the tenant
-- could not be read.
unfoldable pub fetch_limit :
    ℕ → String → Option (Option Limit) → TtlCache Limit → TtlCache Limit × Option Limit
fetch_limit now tenant_id none c = (c, none)
fetch_limit now tenant_id (some none) c = (c, some no_limit)
fetch_limit now tenant_id (some (some limit)) c = (put_value now tenant_id limit c, some limit)

unfoldable pub send_limit_for :
    ℕ → String → Option (Option Limit) → TtlCache Limit → TtlCache Limit × Option Limit
send_limit_for now tenant_id stored c =
    let (c', cached) = get now tenant_id c in
    elim cached [ some limit ↦ (c', some limit) | none ↦ fetch_limit now tenant_id stored c' ]

-- The number pending with the cache that the read leaves, or none where it could not be counted.
unfoldable pub fetch_count : ℕ → String → Option ℕ → TtlCache ℕ → TtlCache ℕ × Option ℕ
fetch_count now tenant_id none c = (c, none)
fetch_count now tenant_id (some counted) c = (put_value now tenant_id counted c, some counted)

unfoldable pub pending_for : ℕ → String → Option ℕ → TtlCache ℕ → TtlCache ℕ × Option ℕ
pending_for now tenant_id counted c =
    let (c', cached) = get now tenant_id c in
    elim cached [ some pending ↦ (c', some pending) | none ↦ fetch_count now tenant_id counted c' ]

unfoldable pub ceiling : Limit → ℕ
ceiling limit = pos_part limit.per_minute * backlog_minutes

unfoldable pub check_depth : Limit → Option ℕ → Option Refusal
check_depth limit none = none
check_depth limit (some pending) =
    if leb (ceiling limit) pending then some (backlog_full pending (ceiling limit)) else none

unfoldable pub check_backlog :
    ℕ → String → Option ℕ → Limit → TtlCache ℕ → TtlCache ℕ × Option Refusal
check_backlog now tenant_id counted limit c =
    if unlimited limit
    then (c, none)
    else let (c', pending) = pending_for now tenant_id counted c in (c', check_depth limit pending)

unfoldable pub requests : String → Provider → Limit → List Request
requests tenant_id provider limit =
    record { key = tenant_id; limit = limit }
    ∷ (if unlimited provider.send_rate
        then []
        else record {
          key = provider_bucket_key tenant_id provider.account.id;
          limit = provider.send_rate;
        }
          ∷ [])

unfoldable pub verdict_of : Verdict → Option Refusal
verdict_of v = if v.allowed then none else some (rate_limited v.retry_after)

unfoldable pub charge : ℕ → String → Provider → Limit → ℕ → World → World × Option Refusal
charge now tenant_id provider limit cost w =
    let (l, v) = allow_all w.limiter (requests tenant_id provider limit) (pos cost) now in
    (record w { limiter = l }, verdict_of v)

unfoldable pub charge_unless :
    ℕ → String → Provider → Limit → ℕ → World × Option Refusal → World × Option Refusal
charge_unless now tenant_id provider limit cost (w, some fault) = (w, some fault)
charge_unless now tenant_id provider limit cost (w, none) =
    charge now tenant_id provider limit cost w

module _ {Pattern : Type 0} (g : Gateway Pattern) (now : ℕ) (tenant_id : String) where
  unfoldable pub check_limits : Provider → Limit → ℕ → World → World × Option Refusal
  check_limits provider limit cost w =
      if unlimited limit && unlimited provider.send_rate
      then (w, none)
      else let (counts, fault) = check_backlog now tenant_id g.counted limit w.backlog_counts in
        charge_unless now tenant_id provider limit cost
          (record w { backlog_counts = counts }, fault)

  -- With the tenant's limit, where it could be read.
  unfoldable pub with_limit :
      Provider → ℕ → World → TtlCache Limit × Option Limit → World × Option Refusal
  with_limit provider cost w (limits, none) = (record w { limits = limits }, none)
  with_limit provider cost w (limits, some limit) =
      check_limits provider limit cost (record w { limits = limits })

  -- `checkSendRate` of a provider that was found.
  unfoldable pub check_send_rate : Provider → ℕ → World → World × Option Refusal
  check_send_rate provider cost w =
      if g.has_limits
      then with_limit provider cost w (send_limit_for now tenant_id g.tenant_limit w.limits)
      else (w, none)
