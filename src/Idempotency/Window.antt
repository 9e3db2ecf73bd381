-- ===== src/Idempotency/Window.antt =====
-- One message for each key in its window.
use panmail.Idempotency.{
  Store, Answer, IdempotencyKey, enqueue, prune_idempotency_keys, queued_as,
  create_with_idempotency_key, lost_key_race, unless_expired, has_expired, replay, write_key,
  answer_of, get_idempotency_key, race_answer, replayed, unreadable, conflict,
}
use panmail.Base.{
  [], if◌then◌else◌, none, some, ◌∷◌, Bool, ℕ, List, String, ◌≤◌, ◌+◌, ◌&&◌, ◌<◌, ◌≡◌, inl, inr,
  Option, Bool-cases, arith, Option-cases, leb, false, refl, true, subst, ◌++◌, ap, sym, ◌∙◌,
}
use text.Mathlib.Text.{◌==◌}
use text.Mathlib.TextEquality.{eq_iff}

-- One statement on the table, with the clock's reading: the write of a send, or the prune.
pub data Step : Type 0 where
  sent : Bool → ℕ → String → String → String → String → Step
  pruned : ℕ → Step

abbrev pub time_of : Step → ℕ
time_of (sent readable now tenant_id key hash message_id) = now
time_of (pruned now) = now

-- The system as one key of one tenant sees it: the store, the clock's last reading, and what the
-- key was accepted for, the latest first; and the messages that sends under any key were told are
-- queued, oldest first.
pub record World : Type 0 where
  pub store : Store
  pub clock : ℕ
  pub accepted : List IdempotencyKey
  pub answered : List String

module _ (window : ℕ) (tenant_id key : String) where
  unfoldable pub note :
      ℕ → String → String → String → String → Answer → List IdempotencyKey → List IdempotencyKey
  note now t k hash message_id (queued_as m) log =
      if tenant_id == t && key == k
      then record { request_hash = hash; message_id = m; created_at = now } ∷ log
      else log
  note now t k hash message_id _ log = log

  unfoldable pub note_queued : Answer → List String → List String
  note_queued (queued_as m) log = log ++ m ∷ []
  note_queued _ log = log

  unfoldable pub take_step : Step → World → World
  take_step (sent readable now t k hash message_id) w =
      let (after, answer) = enqueue readable window now t k hash message_id w.store in
      record {
        store = after;
        clock = now;
        accepted = note now t k hash message_id answer w.accepted;
        answered = note_queued answer w.answered;
      }
  take_step (pruned now) w = record w {
    store = record w.store { keys = prune_idempotency_keys window now w.store.keys };
    clock = now;
  }

  -- What a clock that does not go back leads to from an empty table.
  pub data Reach : World → Type 0 where
    empty : Reach (record {
      store = record { keys = λ t k. none; queued = [] };
      clock = 0;
      accepted = [];
      answered = [];
    })
    next : {w : World} (s : Step) → Reach w → w.clock ≤ time_of s → Reach (take_step s w)

  -- Two acceptances in a row lie more than a window apart.
  abbrev pub AreSpaced : List IdempotencyKey → Type 0
  AreSpaced [] = Unit
  AreSpaced (k ∷ []) = Unit
  AreSpaced (k ∷ j ∷ log) = (j.created_at + window < k.created_at) × AreSpaced (j ∷ log)

  -- While its window runs, the last acceptance is the key's row.
  abbrev pub IsKept : ℕ → Option IdempotencyKey → List IdempotencyKey → Type 0
  IsKept clock row [] = Unit
  IsKept clock row (k ∷ log) =
      (k.created_at ≤ clock) × (clock ≤ k.created_at + window → row ≡ some k)

  IsKept-later :
      (clock now : ℕ) (row : Option IdempotencyKey) (log : List IdempotencyKey)
      → clock ≤ now
      → IsKept clock row log
      → IsKept now row log
  IsKept-later clock now row [] le h = tt
  IsKept-later clock now row (k ∷ log) le h =
      (omega (arith, h.0, le), λ e. h.1 (omega (arith, e, le)))

  unless_expired-live :
      (now : ℕ) (k : IdempotencyKey)
      → now ≤ k.created_at + window
      → unless_expired window now (some k) ≡ some k
  unfolding unless_expired has_expired
  unless_expired-live now k e = ground arith

  IsKept-unless_expired :
      (now : ℕ) (row : Option IdempotencyKey) (log : List IdempotencyKey)
      → IsKept now row log
      → IsKept now (unless_expired window now row) log
  IsKept-unless_expired now row [] h = tt
  IsKept-unless_expired now row (k ∷ log) h = (h.0, λ e. rw (h.1 e) (unless_expired-live now k e))

  -- With no live row, the next acceptance lies past the window.
  AreSpaced-next :
      (now : ℕ) (row : Option IdempotencyKey) (log : List IdempotencyKey) (new : IdempotencyKey)
      → new.created_at ≡ now
      → IsKept now row log
      → unless_expired window now row ≡ none
      → AreSpaced log
      → AreSpaced (new ∷ log)
  AreSpaced-next now row [] new n h e s = tt
  AreSpaced-next now row (k ∷ log) new n h e s = (
    elim (Bool-cases (leb now (k.created_at + window))) [
      | inl b ↦
          let live : unless_expired window now row ≡ some k =
            (let known = h.1 (ground arith) in
              rw known (unless_expired-live now k (ground arith))) in
          absurd (ground (arith, e, live))
      | inr b ↦ ground (arith, n)
    ],
    s,
  )

  note-race_answer :
      (readable : Bool) (now : ℕ) (t k hash message_id : String) (o : Option IdempotencyKey)
      (log : List IdempotencyKey)
      → note now t k hash message_id
          (race_answer (if readable then answer_of hash o else unreadable))
          log
        ≡ log
  unfolding note race_answer answer_of
  note-race_answer false now t k hash message_id o log = refl
  note-race_answer true now t k hash message_id none log = refl
  note-race_answer true now t k hash message_id (some row) log =
      elim (Bool-cases (row.request_hash == hash)) [ inl e ↦ rw e refl | inr e ↦ rw e refl ]

  note_queued-race_answer :
      (readable : Bool) (hash : String) (o : Option IdempotencyKey) (log : List String)
      → note_queued (race_answer (if readable then answer_of hash o else unreadable)) log ≡ log
  unfolding note_queued race_answer answer_of
  note_queued-race_answer false hash o log = refl
  note_queued-race_answer true hash none log = refl
  note_queued-race_answer true hash (some row) log = elim (Bool-cases (row.request_hash == hash)) [
    | inl e ↦ rw e refl
    | inr e ↦ rw e refl
  ]

  -- The queue has what the senders were told it has.
  Reach-queued : {w : World} → Reach w → w.store.queued ≡ w.answered
  unfolding take_step enqueue create_with_idempotency_key note_queued lost_key_race replay
  Reach-queued empty = refl
  Reach-queued (next {w = w} (pruned now) r le) = Reach-queued r
  Reach-queued (next {w = w} (sent readable now t k hash message_id) r le) =
      elim (Option-cases (unless_expired window now (w.store.keys t k))) [
        | inl e ↦
            rw (take_step, enqueue, create_with_idempotency_key, e)
              (ap (λ q. q ++ message_id ∷ []) (Reach-queued r))
        | inr (row, e) ↦
            rw (take_step, enqueue, create_with_idempotency_key, e)
              (Reach-queued r
                ∙ sym (
                    note_queued-race_answer readable hash
                      (get_idempotency_key window now t k w.store.keys) w.answered))
      ]

  same_tenant : (t k : String) → (tenant_id == t && key == k) ≡ true → t ≡ tenant_id
  same_tenant t k b = ground (arith, eq_iff tenant_id t)

  same_key : (t k : String) → (tenant_id == t && key == k) ≡ true → k ≡ key
  same_key t k b = ground (arith, eq_iff key k)

  abbrev pub Kept : World → Type 0
  Kept w = AreSpaced w.accepted × IsKept w.clock (w.store.keys tenant_id key) w.accepted

  Reach-Kept : {w : World} → Reach w → Kept w
  unfolding take_step enqueue create_with_idempotency_key prune_idempotency_keys write_key note
      lost_key_race replay
  Reach-Kept empty = (tt, tt)
  Reach-Kept (next {w = w} (pruned now) r le) =
      let (spaced, kept) = Reach-Kept r in
      (
        spaced,
        IsKept-unless_expired now (w.store.keys tenant_id key) w.accepted
            (IsKept-later w.clock now (w.store.keys tenant_id key) w.accepted le kept),
      )
  Reach-Kept (next {w = w} (sent readable now t k hash message_id) r le) =
      let (spaced, kept) = Reach-Kept r in
      let later = IsKept-later w.clock now (w.store.keys tenant_id key) w.accepted le kept in
      elim (Option-cases (unless_expired window now (w.store.keys t k))) [
        | inl e ↦
            rw (take_step, enqueue, create_with_idempotency_key, e)
              (elim (Bool-cases (tenant_id == t && key == k)) [
                | inr b ↦ rw (write_key, b) (spaced, later)
                | inl b ↦
                    let mine : unless_expired window now (w.store.keys tenant_id key) ≡ none =
                      subst (λ x. unless_expired window now (w.store.keys x key) ≡ none)
                        (same_tenant t k b)
                        (subst (λ x. unless_expired window now (w.store.keys t x) ≡ none)
                          (same_key t k b) e) in
                    let new : IdempotencyKey = record {
                      request_hash = hash;
                      message_id = message_id;
                      created_at = now;
                    } in
                    rw (write_key, b)
                      (
                        AreSpaced-next now (w.store.keys tenant_id key) w.accepted new refl later
                            mine spaced,
                        (omega arith, λ c. refl),
                      )
              ])
        | inr (row, e) ↦
            rw (take_step, enqueue, create_with_idempotency_key, e)
              (rw
                (note-race_answer readable now t k hash message_id
                  (get_idempotency_key window now t k w.store.keys) w.accepted)
                (spaced, later))
      ]

  -- Whatever is sent under whatever keys, by however many gateways, and whenever the table is
  -- pruned, while the clock does not go back: the queue holds exactly the messages that a send was
  -- told are queued, in order and once for each such answer; and two such answers for one key lie
  -- more than a window apart. While the window of the last one runs, a repeat of the request is
  -- answered with its
  -- message, and another request under the key is told of the conflict.
  pub Reach-one_message :
      {w : World}
      → Reach w
      → (w.store.queued ≡ w.answered)
        × AreSpaced w.accepted
        × ((k : IdempotencyKey) (log : List IdempotencyKey) (now : ℕ) (hash : String)
            → w.accepted ≡ k ∷ log
            → w.clock ≤ now
            → now ≤ k.created_at + window
            → replay true window now tenant_id key hash w.store.keys
              ≡ (if k.request_hash == hash then replayed k.message_id else conflict k.message_id))
  unfolding replay get_idempotency_key answer_of
  Reach-one_message {w} r =
      let (spaced, kept) = Reach-Kept r in
      (
        Reach-queued r,
        spaced,
        λ k log now hash last later live.
            let row =
              (subst (IsKept w.clock (w.store.keys tenant_id key)) last kept).1
                (omega (arith, later, live)) in
            rw (row, unless_expired-live now k live) refl,
      )
