-- ===== src/Queue/Passes.antt =====
-- How many passes a message can take.
use panmail.Queue.Handlers.{handle_failure}
use panmail.Cache.{TtlCache}
use panmail.Delivery.Once.{
  delivered_of, send_email-IsSound, IsSound, delivered_of, send_email-IsSound,
}
use panmail.Queue.Outcome.{IsDeferred, Outcome, handle_failure-Outcome}
use panmail.Recipients.{unique_recipients}
use panmail.Queue.Worker.{Circumstances, process_email, settle_sent, recorded_events, hold_lease}
use panmail.Queue.{OutboxEmail, Collaborators, Write, get_retry_pattern}
use panmail.Queue.History.{
  Message, claimable, is_attempt, after_pass, row_after, error_of, Meets, Life, after_death, queued,
  passed, died, unstored,
}
use panmail.Delivery.{Request, SendError, Event}
use panmail.Delivery.Finished.{
  all_finishings, all_finishings-append, finishings, finishings-filter, finishings-le, remaining,
  remaining-append-le, remaining-append-lt,
}
use panmail.Base.{
  ◌==◌, [], if◌then◌else◌, inl, inr, none, some, true, ◌∷◌, List, ℕ, Option, ◌≤◌, length, arith,
  ◌+◌, ◌≡◌, String, ◌++◌, Bool-cases, subst, Option-cases, false, take, sym, filter, ltb,
}
use panmail.Base.Text.{Text}
use panmail.Delivery.Send.{send_email}

-- A row that is still worked on has used no more passes than recipients were finished with and
-- failures counted, and has counted no more than the schedule is long.
abbrev pub RowBound : ℕ → ℕ → ℕ → ℕ → Option OutboxEmail → Type 0
RowBound n limit passes left none = Unit
RowBound n limit passes left (some e) =
    claimable e.status ≡ true → (passes + left ≤ n + e.retry_count) × (e.retry_count ≤ limit)

abbrev pub IsBounded : List Text → ℕ → Message → Type 0
IsBounded rs limit m =
    (m.passes ≤ length rs + all_finishings m.lost + limit + 1)
    × RowBound (length rs + all_finishings m.lost) limit m.passes (remaining m.history rs) m.row

remaining-le : (rs : List Text) → remaining [] rs ≤ length rs
unfolding remaining
remaining-le [] = omega arith
remaining-le (r ∷ rs) = ground (arith, remaining-le rs)

module _ (req : Request) (limit : ℕ) (m : Message) (e : OutboxEmail) (k : Circumstances) where
  abbrev recipients : List Text
  recipients = unique_recipients req.to req.cc req.bcc

  abbrev allowance : ℕ
  allowance = length recipients + all_finishings m.lost

  -- The allowance, after a pass.
  abbrev allowance_after : List Event → List Event → ℕ
  allowance_after es notes =
      length recipients + all_finishings (m.lost ++ unstored k es ++ unstored k notes)

  allowance-le :
      (es notes : List Event)
      → allowance + all_finishings (unstored k es) ≤ allowance_after es notes
  allowance-le es notes = omega (
    arith,
    all_finishings-append m.lost (unstored k es),
    all_finishings-append (m.lost ++ unstored k es) (unstored k notes),
  )

  -- A failed pass that puts the row back.
  deferred_bound :
      (pattern : List String) (err : SendError) (after : OutboxEmail) (es notes : List Event)
      → IsDeferred pattern err e after
      → length pattern ≤ limit
      → IsSound m.history recipients (record { events = es; error = some err })
      → m.passes + remaining m.history recipients ≤ allowance + e.retry_count
      → e.retry_count ≤ limit
      → (m.passes
            + (if is_attempt (some err) then 1 else 0)
            + remaining (m.history ++ filter k.stores es ++ filter k.stores notes) recipients
          ≤ allowance_after es notes + after.retry_count)
        × (after.retry_count ≤ limit)
  unfolding is_attempt
  deferred_bound pattern err after es notes d short sound few low =
      let kept = filter k.stores es in
      let shrinks = remaining-append-le m.history kept recipients in
      let still = remaining-append-le (m.history ++ kept) (filter k.stores notes) recipients in
      let more = allowance-le es notes in
      elim (Bool-cases (is_attempt (some err))) [
        | inr a ↦ ground (arith, a, d.counted, shrinks, still, few, low, more)
        | inl a ↦ elim (Bool-cases (delivered_of (some err) == 0)) [
          | inl z ↦
              ground (arith, a, z, d.counted, d.within a, short, shrinks, still, few, low, more)
          | inr z ↦
              let (q, (mem, left, f)) = sound.progress (ground arith) in
              let parts = finishings-filter q k.stores es in
              elim (Bool-cases (ltb 0 (finishings q kept))) [
                | inl g ↦
                    let less =
                      remaining-append-lt m.history kept q recipients mem left (ground arith) in
                    ground (arith, a, z, d.counted, less, still, few, low, more)
                | inr g ↦
                    let gone : 1 ≤ all_finishings (unstored k es) =
                      (let most = finishings-le q (unstored k es) in
                        ground (arith, parts, f, g, most)) in
                    ground (arith, a, z, d.counted, shrinks, still, few, low, more, gone)
              ]
        ]
      ]

  -- A failed pass, whatever it does with the row.
  failed_bound :
      (pattern : List String) (err : SendError) (w : Write) (es notes : List Event)
      → Outcome pattern err e w
      → length pattern ≤ limit
      → IsSound m.history recipients (record { events = es; error = some err })
      → m.passes + remaining m.history recipients ≤ allowance + e.retry_count
      → e.retry_count ≤ limit
      → let passes = m.passes + (if is_attempt (some err) then 1 else 0) in
        (passes ≤ allowance_after es notes + limit + 1)
        × RowBound
            (allowance_after es notes)
            limit
            passes
            (remaining (m.history ++ filter k.stores es ++ filter k.stores notes) recipients)
            (row_after e (some w))
  unfolding row_after is_attempt claimable
  failed_bound pattern err w es notes (inl (after, (q, d))) short sound few low =
      let bound = deferred_bound pattern err after es notes d short sound few low in
      (ground (arith, few, low, allowance-le es notes), rw (row_after, q) (λ due. bound))
  failed_bound pattern err w es notes (inr (inl (after, (q, g)))) short sound few low = (
    ground (arith, few, low, allowance-le es notes),
    rw (row_after, q) (λ due. absurd (ground (arith, g.status))),
  )
  failed_bound pattern err w es notes (inr (inr (q, a, d))) short sound few low =
      (ground (arith, few, low, allowance-le es notes), rw (row_after, q) tt)

  -- A pass that leaves the row as it is.
  quiet_bound :
      (es : List Event)
      → m.passes ≤ allowance + limit + 1
      → m.passes + remaining m.history recipients ≤ allowance + e.retry_count
      → e.retry_count ≤ limit
      → (m.passes + 0 ≤ allowance_after es [] + limit + 1)
        × RowBound
            (allowance_after es [])
            limit
            (m.passes + 0)
            (remaining (m.history ++ filter k.stores es ++ []) recipients)
            (some e)
  quiet_bound es total few low = (
    omega (arith, total, allowance-le es []),
    λ due. (
      omega (
        arith,
        remaining-append-le m.history (filter k.stores es) recipients,
        remaining-append-le (m.history ++ filter k.stores es) [] recipients,
        few,
        allowance-le es [],
      ),
      low,
    ),
  )

  -- A pass of any kind.
  process_email-IsBounded :
      (c : Collaborators) (cache : TtlCache (List String))
      → Meets c req limit m e k cache
      → IsBounded recipients limit m
      → IsBounded recipients limit (after_pass e req m k (process_email c k m.history cache e))
  unfolding process_email settle_sent after_pass row_after error_of recorded_events is_attempt
      filter
  process_email-IsBounded c cache h (total, row) =
      let s = send_email k.surroundings e.tenant_id e.id req in
      let sound = send_email-IsSound k.surroundings e.tenant_id e.id req m.history h.reads in
      let bound =
        subst (RowBound allowance limit m.passes (remaining m.history recipients)) h.row row
          h.due in
      elim (Bool-cases (hold_lease k.renewed)) [
        | inr l ↦ rw (process_email, l) (quiet_bound [] total bound.0 bound.1)
        | inl l ↦ elim (Bool-cases k.lost) [
          | inl t ↦ rw (process_email, l, h.request, t) (quiet_bound s.events total bound.0 bound.1)
          | inr t ↦ elim (Option-cases s.error) [
            | inl n ↦
                rw (process_email, l, h.request, t, settle_sent, n)
                  (omega (arith, total, allowance-le s.events []), tt)
            | inr (err, n) ↦
                let read =
                  if k.readable then some (m.history ++ filter k.stores s.events) else none in
                let settled = handle_failure c k.now req read err cache e in
                let known : IsSound m.history recipients
                    (record { events = s.events; error = some err }) =
                  subst
                    (λ x. IsSound m.history recipients (record { events = s.events; error = x })) n
                    sound in
                rw (process_email, l, h.request, t, settle_sent, n)
                  (failed_bound (get_retry_pattern c k.now e.tenant_id cache).1 err settled.write
                    s.events (recorded_events settled.notes)
                    (handle_failure-Outcome c k.now req err read cache e) h.short known bound.0
                    bound.1)
          ]
        ]
      ]

Life-IsBounded :
    {req : Request} {limit : ℕ} {m : Message}
    → Life req limit m
    → IsBounded (unique_recipients req.to req.cc req.bcc) limit m
unfolding after_death all_finishings
Life-IsBounded {req} {limit} (queued e z) =
    let fresh = remaining-le (unique_recipients req.to req.cc req.bcc) in
    (omega arith, λ due. (omega (arith, z, fresh), omega (arith, z)))
Life-IsBounded {req} {limit} (passed {m = m} c e k cache life h) =
    process_email-IsBounded req limit m e k c cache h (Life-IsBounded life)
Life-IsBounded {req} {limit} (died {m = m} c e k cache n life h) =
    let rs = unique_recipients req.to req.cc req.bcc in
    let (total, row) = Life-IsBounded life in
    let p = process_email c k m.history cache e in
    let es = take n (p.events ++ recorded_events p.notes) in
    let kept = filter k.stores es in
    let more = all_finishings-append m.lost (unstored k es) in
    let most = length rs + all_finishings m.lost in
    let most' = length rs + all_finishings (m.lost ++ unstored k es) in
    let bound = subst (RowBound most limit m.passes (remaining m.history rs)) h.row row h.due in
    (
      omega (arith, total, more),
      subst (RowBound most' limit m.passes (remaining (m.history ++ kept) rs)) (sym h.row)
          (λ due. (omega (arith, bound, remaining-append-le m.history kept rs, more), bound.1)),
    )

-- With schedules of at most `limit` entries, a message is attempted at most once for each of its
-- recipients, `limit` times and once more, and once for each delivery or final verdict that could
-- not be written into its history; and a message attempted so often has no row that a worker would
-- claim. Passes put off by a ceiling, and those cut short, are not attempts.
pub Life-ends :
    {req : Request} {limit : ℕ} {m : Message}
    → Life req limit m
    → let most =
        length (unique_recipients req.to req.cc req.bcc) + all_finishings m.lost + limit + 1 in
      (m.passes ≤ most)
      × ((e : OutboxEmail) → m.row ≡ some e → m.passes ≡ most → claimable e.status ≡ false)
Life-ends {req} {limit} {m} life =
    let rs = unique_recipients req.to req.cc req.bcc in
    let (total, row) = Life-IsBounded life in
    (
      total,
      λ e r full. elim (Bool-cases (claimable e.status)) [
        | inr u ↦ u
        | inl u ↦
            let bound =
              subst
                (RowBound (length rs + all_finishings m.lost) limit m.passes
                  (remaining m.history rs))
                r row u in
            absurd (omega (arith, bound, full))
      ],
    )
