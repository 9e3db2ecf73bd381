-- ===== src/Admission/Charged.antt =====
-- What a send is charged, told by the ceilings in force.
use panmail.Admission.Rate.{
  at_least_one, charge, charge_unless, check_backlog, check_limits, check_send_rate, fetch_limit,
  no_limit, provider_bucket_key, recipient_count, requests, send_limit_for, verdict_of, with_limit,
}
use panmail.Admission.{Gateway, Provider, Refusal, World}
use panmail.Base.Int.{pos}
use panmail.Base.Text.{Text}
use panmail.Base.{
  Bool-cases, List, Option, Option-cases, String, [], arith, false, if◌then◌else◌, inl, inr, length,
  max, none, refl, some, subst, suc, sym, true, zero, ap, ◌∙◌, ℕ, ◌&&◌, ◌+◌, ◌∷◌, ◌≡◌, ◌⊎◌,
}
use panmail.Cache.{TtlCache, get}
use panmail.RateLimit.Batch.{Request, allow_all}
use panmail.RateLimit.{Limit, Limiter, unlimited}
use mathlib.Core.Option.{some_inj}
use Prim.Native.String.{◌++◌ as string_append}

-- What is asked of the limiter: the tenant's ceiling, and the provider's where it has one.
abbrev pub bills : String → Provider → Limit → List Request
bills tenant_id p limit =
    record { key = tenant_id; limit = limit }
    ∷ (if unlimited p.send_rate
        then []
        else record {
          key = string_append tenant_id (string_append "|provider|" p.account.id);
          limit = p.send_rate;
        }
          ∷ [])

module _ {Pattern : Type 0} (g : Gateway Pattern) (now : ℕ) (tenant_id : String) where
  -- The tenant's limit in force: the cached one, or else the stored one, or none at all.
  abbrev pub IsInForce : TtlCache Limit → Limit → Type 0
  IsInForce limits limit =
      ((get now tenant_id limits).1 ≡ some limit)
      ⊎ (((get now tenant_id limits).1 ≡ none) × (g.tenant_limit ≡ some (some limit)))
      ⊎ (((get now tenant_id limits).1 ≡ none) × (g.tenant_limit ≡ some none) × (limit ≡ no_limit))

  -- There is nothing to charge: no limiter, a limit that cannot be read, or no ceiling at all.
  abbrev pub IsFree : Provider → TtlCache Limit → Type 0
  IsFree p limits =
      (g.has_limits ≡ false)
      ⊎ (((get now tenant_id limits).1 ≡ none) × (g.tenant_limit ≡ none))
      ⊎ ((limit : Limit) × IsInForce limits limit
          × (unlimited limit ≡ true)
          × (unlimited p.send_rate ≡ true))

  -- The limiter is as it was and there was nothing to charge; or it granted and was charged one
  -- for each recipient, by the ceilings in force.
  abbrev pub IsCharged : Provider → ℕ → World → Limiter → Type 0
  IsCharged p count w after =
      ((after ≡ w.limiter) × IsFree p w.limits)
      ⊎ ((limit : Limit) × (g.has_limits ≡ true)
          × IsInForce w.limits limit
          × ((unlimited limit && unlimited p.send_rate) ≡ false)
          × ((allow_all w.limiter (bills tenant_id p limit) (pos (max 1 count)) now).1.allowed
              ≡ true)
          × (after ≡ (allow_all w.limiter (bills tenant_id p limit) (pos (max 1 count)) now).0))

  charge-granted :
      (p : Provider) (limit : Limit) (cost : ℕ) (w : World) (fault : Option Refusal)
      → (charge_unless now tenant_id p limit cost (w, fault)).1 ≡ none
      → ((allow_all w.limiter (bills tenant_id p limit) (pos cost) now).1.allowed ≡ true)
        × ((charge_unless now tenant_id p limit cost (w, fault)).0.limiter
            ≡ (allow_all w.limiter (bills tenant_id p limit) (pos cost) now).0)
  unfolding charge_unless charge verdict_of requests provider_bucket_key
  charge-granted p limit cost w (some fault) h = absurd (ground (arith, h))
  charge-granted p limit cost w none h =
      elim (Bool-cases (allow_all w.limiter (bills tenant_id p limit) (pos cost) now).1.allowed) [
        | inl e ↦ (e, refl)
        | inr e ↦ absurd (ground (arith, h, e))
      ]

  check_limits_value :
      (p : Provider) (limit : Limit) (cost : ℕ) (w : World)
      → (unlimited limit && unlimited p.send_rate) ≡ false
      → check_limits g now tenant_id p limit cost w ≡ (
          let x = check_backlog now tenant_id g.counted limit w.backlog_counts in
          charge_unless now tenant_id p limit cost (record w { backlog_counts = x.0 }, x.1))
  unfolding check_limits
  check_limits_value p limit cost w e = rw (e, check_limits) refl

  check_limits-IsCharged :
      (p : Provider) (count : ℕ) (w w' : World) (limit : Limit)
      → w'.limiter ≡ w.limiter
      → g.has_limits ≡ true
      → IsInForce w.limits limit
      → (check_limits g now tenant_id p limit (max 1 count) w').1 ≡ none
      → IsCharged p count w (check_limits g now tenant_id p limit (max 1 count) w').0.limiter
  unfolding check_limits
  check_limits-IsCharged p count w w' limit same has force h =
      elim (Bool-cases (unlimited limit && unlimited p.send_rate)) [
        | inl e ↦
            rw (e, check_limits)
              (inl (same, inr (inr (limit, force, ground (arith, e), ground (arith, e)))))
        | inr e ↦
            let value = check_limits_value p limit (max 1 count) w' e in
            let x = check_backlog now tenant_id g.counted limit w'.backlog_counts in
            let granted =
              charge-granted p limit (max 1 count) (record w' { backlog_counts = x.0 }) x.1
                (subst (λ (y : World × Option Refusal). y.1 ≡ none) value h) in
            let asked =
              λ (l : Limiter). allow_all l (bills tenant_id p limit) (pos (max 1 count)) now in
            inr (
              limit,
              has,
              force,
              e,
              ap (λ l. (asked l).1.allowed) (sym same) ∙ granted.0,
              ap (λ (y : World × Option Refusal). y.0.limiter) value
                  ∙ granted.1
                  ∙ ap (λ l. (asked l).0) same,
            )
      ]

  -- The limit in force, or that there is none to read.
  send_limit_for-IsInForce :
      (limits : TtlCache Limit)
      → (((send_limit_for now tenant_id g.tenant_limit limits).1 ≡ none)
          × ((get now tenant_id limits).1 ≡ none)
          × (g.tenant_limit ≡ none))
        ⊎ ((limit : Limit) × ((send_limit_for now tenant_id g.tenant_limit limits).1 ≡ some limit)
            × IsInForce limits limit)
  unfolding send_limit_for fetch_limit
  send_limit_for-IsInForce limits = elim (Option-cases (get now tenant_id limits).1) [
    | inr (limit, e) ↦ inr (limit, ground (arith, e), inl e)
    | inl e ↦ elim (Option-cases g.tenant_limit) [
      | inl f ↦ inl (ground (arith, e, f), e, f)
      | inr (stored, f) ↦ elim (Option-cases stored) [
        | inl k ↦ inr (no_limit, ground (arith, e, f, k), inr (inr (e, (f ∙ ap some k), refl)))
        | inr (limit, k) ↦ inr (limit, ground (arith, e, f, k), inr (inl (e, f ∙ ap some k)))
      ]
    ]
  ]

  with_limit-IsCharged :
      (p : Provider) (count : ℕ) (w : World) (l : TtlCache Limit × Option Limit)
      → g.has_limits ≡ true
      → ((l.1 ≡ none) × ((get now tenant_id w.limits).1 ≡ none) × (g.tenant_limit ≡ none))
        ⊎ ((limit : Limit) × (l.1 ≡ some limit) × IsInForce w.limits limit)
      → (with_limit g now tenant_id p (max 1 count) w l).1 ≡ none
      → IsCharged p count w (with_limit g now tenant_id p (max 1 count) w l).0.limiter
  unfolding with_limit
  with_limit-IsCharged p count w (limits, none) has (inl (_, e, f)) h = inl (refl, inr (inl (e, f)))
  with_limit-IsCharged p count w (limits, none) has (inr (limit, e, f)) h =
      absurd (ground (arith, e))
  with_limit-IsCharged p count w (limits, some limit) has (inl (e, _, _)) h =
      absurd (ground (arith, e))
  with_limit-IsCharged p count w (limits, some limit) has (inr (same, e, force)) h =
      check_limits-IsCharged p count w (record w { limits = limits }) limit refl has
        (subst (IsInForce w.limits) (sym (some_inj.0 e)) force) h

  check_send_rate-IsCharged :
      (p : Provider) (count : ℕ) (w : World)
      → (check_send_rate g now tenant_id p (max 1 count) w).1 ≡ none
      → IsCharged p count w (check_send_rate g now tenant_id p (max 1 count) w).0.limiter
  unfolding check_send_rate
  check_send_rate-IsCharged p count w h = elim (Bool-cases g.has_limits) [
    | inr e ↦
        let value : check_send_rate g now tenant_id p (max 1 count) w ≡ (w, none) =
          rw (e, check_send_rate) refl in
        subst (λ (y : World × Option Refusal). IsCharged p count w y.0.limiter) (sym value)
          (inl (refl, inl e))
    | inl e ↦
        let l = send_limit_for now tenant_id g.tenant_limit w.limits in
        let value : check_send_rate g now tenant_id p (max 1 count) w
            ≡ with_limit g now tenant_id p (max 1 count) w l =
          rw (e, check_send_rate) refl in
        subst (λ (y : World × Option Refusal). IsCharged p count w y.0.limiter) (sym value)
          (with_limit-IsCharged p count w l e (send_limit_for-IsInForce w.limits)
            (subst (λ (y : World × Option Refusal). y.1 ≡ none) value h))
  ]

  recipient_count-max :
      (to copies blind : List Text)
      → recipient_count to copies blind ≡ max 1 (length to + length copies + length blind)
  unfolding recipient_count
  recipient_count-max to copies blind = at_least (length to + length copies + length blind)
    where
      at_least : (n : ℕ) → at_least_one n ≡ max 1 n
      at_least zero = refl
      at_least (suc n) = omega arith

  -- A send that its rate admitted was charged for each of its recipients.
  pub recipients-IsCharged :
      (p : Provider) (to copies blind : List Text) (w : World)
      → (check_send_rate g now tenant_id p (recipient_count to copies blind) w).1 ≡ none
      → IsCharged p
          (length to + length copies + length blind)
          w
          (check_send_rate g now tenant_id p (recipient_count to copies blind) w).0.limiter
  recipients-IsCharged p to copies blind w h =
      let n = length to + length copies + length blind in
      let same = recipient_count-max to copies blind in
      subst (λ c. IsCharged p n w (check_send_rate g now tenant_id p c w).0.limiter) (sym same)
        (check_send_rate-IsCharged p n w
          (subst (λ c. (check_send_rate g now tenant_id p c w).1 ≡ none) same h))
