-- ===== src/Admission/Passed.antt =====
-- What the checks before the write leave alone, and what they say of the recipients.
use panmail.Admission.Checks.{check_provider, check_request}
use panmail.Admission.Filtered.{IsLike}
use panmail.Admission.Rate.{
  charge, charge_unless, check_backlog, check_limits, check_send_rate, send_limit_for, with_limit,
}
use panmail.Cache.{TtlCache}
use panmail.Admission.Send.{first_suppressed}
use panmail.Admission.{Gateway, Provider, Refusal, SendEmailRequest, World}
use panmail.Base.Text.{Text, holds, ◌==◌ as text_eq}
use panmail.Base.{
  All, Bool, Bool-cases, List, Option, Option-cases, String, [], arith, false, if◌then◌else◌, inl,
  inr, none, refl, length, length-append, some, true, ℕ, ◌&&◌, ◌++◌, ◌∷◌, ◌≡◌,
}
use panmail.RateLimit.{Limit, unlimited}
use panmail.Recipients.{
  ResolvedRecipients, add, check_address, key_from_parsed, lowered, resolve_from,
  resolve_recipients, resolved,
}

pub same : (w : World) → IsLike w w
same w = record {
  rows = refl;
  keys = refl;
  messages = refl;
  sent_copies = refl;
  wakes = refl;
  events = refl;
}

charge_unless-IsLike :
    (now : ℕ) (tenant_id : String) (p : Provider) (limit : Limit) (cost : ℕ) (w : World)
    (fault : Option Refusal)
    → IsLike w (charge_unless now tenant_id p limit cost (w, fault)).0
unfolding charge_unless charge
charge_unless-IsLike now tenant_id p limit cost w none = record {
  rows = refl;
  keys = refl;
  messages = refl;
  sent_copies = refl;
  wakes = refl;
  events = refl;
}
charge_unless-IsLike now tenant_id p limit cost w (some fault) = same w

lengths-add :
    (known : Bool) (key : Text) (parsed : Option Text) (before : ResolvedRecipients)
    → length before.addresses ≡ length before.normalised
    → length (if known then before else add key parsed before).addresses
      ≡ length (if known then before else add key parsed before).normalised
unfolding add
lengths-add true key parsed before h = h
lengths-add false key parsed before h = omega (
  arith,
  h,
  length-append before.addresses (key ∷ []),
  length-append before.normalised (key_from_parsed key parsed ∷ []),
)

-- The addresses and the keys that they are looked up under stay in step.
resolve_from-lengths :
    (parse : Text → Option (Option Text)) (seen addresses : List Text) (before : ResolvedRecipients)
    {rs : ResolvedRecipients}
    → length before.addresses ≡ length before.normalised
    → resolve_from parse seen before addresses ≡ resolved rs
    → length rs.addresses ≡ length rs.normalised
unfolding resolve_from check_address
resolve_from-lengths parse seen [] before h e = ground (arith, h, e)
resolve_from-lengths parse seen (a ∷ addresses) before {rs} h e =
    elim (Bool-cases (text_eq (lowered a) [])) [
      | inl blank ↦ absurd (ground (arith, e, blank))
      | inr named ↦ elim (Option-cases (parse a)) [
        | inl bad ↦ absurd (ground (arith, e, named, bad))
        | inr (parsed, good) ↦
            let key = lowered a in
            let known = holds seen key in
            resolve_from-lengths parse (if known then seen else key ∷ seen) addresses
              (if known then before else add key parsed before)
              (lengths-add known key parsed before h) (ground (arith, e, named, good))
      ]
    ]

pub none_suppressed :
    (reasons : Text → Option Text) (addresses keys : List Text)
    → length addresses ≡ length keys
    → first_suppressed reasons addresses keys ≡ none
    → All (λ key. reasons key ≡ none) keys
unfolding first_suppressed
none_suppressed reasons [] [] h e = tt
none_suppressed reasons [] (k ∷ keys) h e = absurd (ground (arith, h))
none_suppressed reasons (a ∷ addresses) [] h e = absurd (ground (arith, h))
none_suppressed reasons (a ∷ addresses) (k ∷ keys) h e = elim (Option-cases (reasons k)) [
  | inl f ↦ (f, none_suppressed reasons addresses keys (ground (arith, h)) (ground (arith, e, f)))
  | inr (reason, f) ↦ absurd (ground (arith, e, f))
]

module _ {Pattern : Type 0} (g : Gateway Pattern) (now : ℕ) (tenant_id : String) where
  pub check_request-lengths :
      (r : SendEmailRequest) {rs : ResolvedRecipients} {p : Provider}
      → check_request g tenant_id r ≡ inr (rs, p)
      → length rs.addresses ≡ length rs.normalised
  unfolding check_request check_provider
  check_request-lengths r {rs} {p} h =
      let found : resolve_recipients g.parse r.to r.cc r.bcc ≡ resolved rs = ground (arith, h) in
      resolve_from-lengths g.parse [] (r.to ++ r.cc ++ r.bcc)
        (record { addresses = []; normalised = [] }) refl (unfold resolve_recipients in found)

  check_limits-IsLike :
      (p : Provider) (limit : Limit) (cost : ℕ) (w : World)
      → IsLike w (check_limits g now tenant_id p limit cost w).0
  unfolding check_limits
  check_limits-IsLike p limit cost w =
      elim (Bool-cases (unlimited limit && unlimited p.send_rate)) [
        | inl e ↦ rw (e, check_limits) (same w)
        | inr e ↦
            let (counts, fault) = check_backlog now tenant_id g.counted limit w.backlog_counts in
            let k =
              charge_unless-IsLike now tenant_id p limit cost (record w { backlog_counts = counts })
                fault in
            rw (e, check_limits)
              record {
                rows = k.rows;
                keys = k.keys;
                messages = k.messages;
                sent_copies = k.sent_copies;
                wakes = k.wakes;
                events = k.events;
              }
      ]

  with_limit-IsLike :
      (p : Provider) (cost : ℕ) (w : World) (l : TtlCache Limit × Option Limit)
      → IsLike w (with_limit g now tenant_id p cost w l).0
  unfolding with_limit
  with_limit-IsLike p cost w (limits, none) = record {
    rows = refl;
    keys = refl;
    messages = refl;
    sent_copies = refl;
    wakes = refl;
    events = refl;
  }
  with_limit-IsLike p cost w (limits, some limit) =
      let k = check_limits-IsLike p limit cost (record w { limits = limits }) in
      record {
        rows = k.rows;
        keys = k.keys;
        messages = k.messages;
        sent_copies = k.sent_copies;
        wakes = k.wakes;
        events = k.events;
      }

  pub check_send_rate-IsLike :
      (p : Provider) (cost : ℕ) (w : World) → IsLike w (check_send_rate g now tenant_id p cost w).0
  unfolding check_send_rate
  check_send_rate-IsLike p cost w =
      let limited =
        with_limit g now tenant_id p cost w
          (send_limit_for now tenant_id g.tenant_limit w.limits) in
      elim g.has_limits as (λ b. IsLike w (if b then limited else (w, none)).0) [
        | true ↦ with_limit-IsLike p cost w (send_limit_for now tenant_id g.tenant_limit w.limits)
        | false ↦ same w
      ]
