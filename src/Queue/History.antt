-- ===== src/Queue/History.antt =====
-- The life of a message in the queue, one pass after another.
use panmail.Queue.Verdicts.{handle_failure-unread, handle_failure-verdicts}
use panmail.Queue.Handlers.{handle_failure}
use panmail.Cache.{TtlCache}
use panmail.Delivery.Once.{Reads, send_email-IsSound, failed_of}
use panmail.Delivery.Send.{is_some, send_email}
use panmail.Delivery.{Request, SendError, Event, finished_in}
use panmail.Delivery.Finished.{
  finishings, finishings-filter, finished_in-finishings, finished_in-append,
}
use panmail.Queue.Worker.{
  Circumstances, process_email, settle_sent, Processed, hold_lease, recorded_events,
}
use panmail.Base.{
  [], false, if◌then◌else◌, none, some, true, Option, Bool, List, not, ℕ, ◌≡◌, ◌≤◌, arith, take,
  ◌&&◌, ◌++◌, String, ◌+◌, inl, inr, Bool-cases, Option-cases, subst, length, filter,
}
use panmail.Base.Text.{Text}
use panmail.Queue.{
  pending, deferred, sending, Collaborators, OutboxEmail, OutboxStatus, Write, update, remove,
  get_retry_pattern,
}

-- A message: its row while there is one; the events of its history, oldest first; those that were
-- to be recorded and were not written, a delivery among them whose worker died before it said so;
-- both together; how many of its passes were attempts that failed, those put off by a ceiling not
-- among them; and in how many the history could not be read for a verdict.
pub record Message : Type 0 where
  pub row : Option OutboxEmail
  pub history : List Event
  pub lost : List Event
  pub recorded : List Event
  pub passes : ℕ
  pub unread : ℕ

-- The statuses that the worker claims.
unfoldable pub claimable : OutboxStatus → Bool
claimable pending = true
claimable deferred = true
claimable sending = true
claimable _ = false

unfoldable pub row_after : OutboxEmail → Option Write → Option OutboxEmail
row_after e none = some e
row_after e (some (update after)) = some after
row_after e (some (remove id)) = none

-- The error that a pass settles, if it settles one.
unfoldable pub error_of : Circumstances → OutboxEmail → Request → Option SendError
error_of k e req =
    if hold_lease k.renewed && not k.lost
    then (send_email k.surroundings e.tenant_id e.id req).error
    else none

-- Whether a pass is an attempt that failed.
unfoldable pub is_attempt : Option SendError → Bool
is_attempt none = false
is_attempt (some err) = not (is_some err.paced)

abbrev pub unstored : Circumstances → List Event → List Event
unstored k es = filter (λ e. not (k.stores e)) es

unfoldable pub after_pass : OutboxEmail → Request → Message → Circumstances → Processed → Message
after_pass e req m k p = record {
  row = row_after e p.write;
  history = m.history ++ filter k.stores p.events ++ filter k.stores (recorded_events p.notes);
  lost = m.lost ++ unstored k p.events ++ unstored k (recorded_events p.notes);
  recorded = m.recorded ++ p.events ++ recorded_events p.notes;
  unread = m.unread + (if k.readable then 0 else 1);
  passes = m.passes + (if is_attempt (error_of k e req) then 1 else 0);
}

-- A worker that dies in a pass, after so many of its events.
unfoldable pub after_death : Message → Circumstances → ℕ → Processed → Message
after_death m k n p =
    let es = take n (p.events ++ recorded_events p.notes) in
    record m {
      history = m.history ++ filter k.stores es;
      lost = m.lost ++ unstored k es;
      recorded = m.recorded ++ es;
      unread = m.unread + (if k.readable then 0 else 1);
    }

-- A pass reads the message's own request and, where it can be read, its own history; the schedule
-- that it goes by has at most `limit` entries.
pub record Meets (c : Collaborators) (req : Request) (limit : ℕ) (m : Message) (e : OutboxEmail)
    (k : Circumstances) (cache : TtlCache (List String)) : Type 0 where
  pub row : m.row ≡ some e
  pub due : claimable e.status ≡ true
  pub request : k.unmarshal e.request ≡ some req
  pub reads : Reads k.surroundings m.history
  pub short : length (get_retry_pattern c k.now e.tenant_id cache).1 ≤ limit

-- A message is queued, and passed over by one worker after another while its status is one that
-- they claim. Any event may fail to be written, and any history to be read. A worker that dies
-- leaves the row, and the events written until then.
pub data Life (req : Request) (limit : ℕ) : Message → Type 0 where
  queued :
      (e : OutboxEmail)
      → e.retry_count ≡ 0
      → Life req limit
          (record { row = some e; history = []; lost = []; recorded = []; passes = 0; unread = 0 })
  passed :
      {m : Message} (c : Collaborators) (e : OutboxEmail) (k : Circumstances)
      (cache : TtlCache (List String))
      → Life req limit m
      → Meets c req limit m e k cache
      → Life req limit (after_pass e req m k (process_email c k m.history cache e))
  died :
      {m : Message} (c : Collaborators) (e : OutboxEmail) (k : Circumstances)
      (cache : TtlCache (List String)) (n : ℕ)
      → Life req limit m
      → Meets c req limit m e k cache
      → Life req limit (after_death m k n (process_email c k m.history cache e))

-- What a pass writes finishes with a recipient at most once, and only if the history is not
-- finished with them; or once more where the history could not be read.
pub process_email-once :
    (c : Collaborators) (req : Request) (limit : ℕ) (m : Message) (e : OutboxEmail)
    (k : Circumstances) (cache : TtlCache (List String)) (q : Text)
    → Meets c req limit m e k cache
    → let p = process_email c k m.history cache e in
      finishings q (filter k.stores p.events)
        + finishings q (filter k.stores (recorded_events p.notes))
      ≤ (if finished_in m.history q then 0 else 1) + (if k.readable then 0 else 1)
unfolding process_email settle_sent recorded_events finishings filter
process_email-once c req limit m e k cache q h =
    let s = send_email k.surroundings e.tenant_id e.id req in
    let sound = send_email-IsSound k.surroundings e.tenant_id e.id req m.history h.reads in
    let few = finishings-filter q k.stores s.events in
    elim (Bool-cases (hold_lease k.renewed)) [
      | inr l ↦ rw (process_email, l) (omega arith)
      | inl l ↦ elim (Bool-cases k.lost) [
        | inl t ↦ rw (process_email, l, h.request, t) (ground (arith, sound.once q, few))
        | inr t ↦ elim (Option-cases s.error) [
          | inl n ↦
              rw (process_email, l, h.request, t, settle_sent, n)
                (ground (arith, sound.once q, few))
          | inr (err, n) ↦
              let once =
                subst
                  (λ x.
                    finishings q s.events + failed_of q x
                    ≤ (if finished_in m.history q then 0 else 1))
                  n (sound.once q) in
              elim (Bool-cases k.readable) [
                | inl b ↦
                    let before = m.history ++ filter k.stores s.events in
                    let notes = (handle_failure c k.now req (some before) err cache e).notes in
                    rw (process_email, l, h.request, t, settle_sent, n, b)
                      (ground (
                        arith,
                        once,
                        few,
                        finishings-filter q k.stores (recorded_events notes),
                        handle_failure-verdicts c k.now req q before err cache e,
                        finished_in-append q m.history (filter k.stores s.events),
                        finished_in-finishings q (filter k.stores s.events),
                      ))
                | inr b ↦
                    let notes = (handle_failure c k.now req none err cache e).notes in
                    rw (process_email, l, h.request, t, settle_sent, n, b)
                      (ground (
                        arith,
                        once,
                        few,
                        finishings-filter q k.stores (recorded_events notes),
                        handle_failure-unread c k.now req q err cache e,
                      ))
              ]
        ]
      ]
    ]
