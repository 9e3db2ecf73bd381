-- ===== src/Admission/Written.antt =====
-- What the write to the outbox leaves of a send, and how a send may end.
use panmail.Admission.Checks.{check_request}
use panmail.Admission.Charged.{IsCharged}
use panmail.Admission.Send.{
  after_enqueue, after_key, answer, decide, event, parse_sender, queue_sent_copy, queued_email,
  record_all, save_message, status_of, wake, write_outbox,
}
use panmail.Admission.{
  Gateway, Provider, Response, SendEmailRequest, World, accepted, refused, replayed,
}
use mathlib.Core.List.{append-nil}
use panmail.Base.Text.{Text}
use panmail.Base.{
  All, Bool, Bool-cases, List, Option, Option-cases, String, [], false, if◌then◌else◌, inl, inr,
  length, map, none, not, refl, some, true, ℕ, ◌&&◌, ◌+◌, ◌++◌, ◌∷◌, ◌≡◌, ◌⊎◌, sym,
}
use panmail.Bounce.{EventType, pending}
use panmail.Delivery.{Event}
use panmail.Idempotency.{
  answer_of, create_with_idempotency_key, get_idempotency_key, lost_key_race, race_answer,
  unless_expired, write_key, Answer, IdempotencyKey, Store, conflict, enqueue, in_flight, not_used,
  queued_as, replay, unreadable,
}
use panmail.Idempotency
use panmail.Idempotency.{KeyTable}
use panmail.Outbox.{create}
use panmail.RateLimit.{Limiter}
use text.Mathlib.TextPositions.{eq_refl}
use panmail.Recipients.{ResolvedRecipients}
use panmail.Senders.{address, allowed, match_address}
use text.Mathlib.Text.{◌==◌}

unfoldable pub is_pending : EventType → Bool
is_pending pending = true
is_pending _ = false

module _ {Pattern : Type 0} (g : Gateway Pattern) (now : ℕ) (tenant_id : String)
    (r : SendEmailRequest) where
  -- Nothing of this send is queued, nobody is woken for it, and no history begins.
  pub record IsUnsent (w w' : World) : Type 0 where
    pub rows : w'.rows ≡ w.rows
    pub keys : (w'.keys ≡ w.keys) ⊎ (w'.keys ≡ g.others w.keys)
    pub messages : w'.messages ≡ w.messages
    pub sent_copies : w'.sent_copies ≡ w.sent_copies
    pub wakes : w'.wakes ≡ w.wakes
    pub noted : List Event
    pub events : w'.events ≡ w.events ++ noted
    pub history : All (λ e. is_pending e.event_type ≡ false) noted

  -- What was checked and charged of an accepted send.
  pub record IsCleared (w w' : World) (rs : ResolvedRecipients) (p : Provider) : Type 0 where
    pub checked : check_request g tenant_id r ≡ inr (rs, p)
    pub sender : Text
    pub from : address (parse_sender g now tenant_id r) r.from ≡ some sender
    pub admitted : allowed (match_address p.account.allowed_senders sender) ≡ true
    pub charged :
        IsCharged g now tenant_id p (length r.to + length r.cc + length r.bcc) w w'.limiter
    pub reasons : Text → Option Text
    pub looked_up : g.suppressions rs.normalised ≡ some reasons
    pub unsuppressed : All (λ key. reasons key ≡ none) rs.normalised

  -- Without a key the table is as it was, and otherwise the key is the new message's.
  abbrev pub IsKeyed : KeyTable → KeyTable → Type 0
  IsKeyed before keys =
      (((r.idempotency_key == "") ≡ true) × (keys ≡ before))
      ⊎ ((k : IdempotencyKey) × (keys tenant_id r.idempotency_key ≡ some k)
          × (k.message_id ≡ g.new_id))

  -- What was written for it: one row, which waits for its review where a rule holds it.
  pub record IsQueued (w w' : World) (rs : ResolvedRecipients) : Type 0 where
    pub is_held : Bool
    pub bytes : Text
    pub marshalled : g.marshal r ≡ some bytes
    pub row :
        w'.rows
        ≡ create (queued_email g now tenant_id r (status_of g now tenant_id r is_held) bytes) w.rows
    pub key : IsKeyed w.keys w'.keys
    pub events :
        w'.events ≡ w.events ++ map (event g now tenant_id r pending r.provider_id []) rs.addresses
    pub message : w'.messages ≡ w.messages ++ g.new_id ∷ []
    pub wakes : w'.wakes ≡ (if not is_held && g.has_worker then w.wakes + 1 else w.wakes)

  -- How a stage may end, of a send that found this world, with the buckets as they are after it.
  abbrev pub Ends : World → Limiter → ResolvedRecipients → World × Response → Type 0
  Ends w l rs (w', refused fault) = IsUnsent w w'
  Ends w l rs (w', replayed id) = IsUnsent w w'
  Ends w l rs (w', accepted id) = (id ≡ g.new_id) × IsQueued w w' rs × (w'.limiter ≡ l)

  pub untouched :
      (w : World) (keys : KeyTable)
      → (keys ≡ w.keys) ⊎ (keys ≡ g.others w.keys)
      → IsUnsent w (record w { keys = keys })
  untouched w keys k = record {
    rows = refl;
    keys = k;
    messages = refl;
    sent_copies = refl;
    wakes = refl;
    noted = [];
    events = sym (append-nil w.events);
    history = tt;
  }

  pub unchanged : (w : World) → IsUnsent w w
  unchanged w = untouched w w.keys (inl refl)

  -- Events of another kind begin no history.
  pub other_history :
      (kind : EventType) (error : Text) (addresses : List Text)
      → is_pending kind ≡ false
      → All
          (λ e. is_pending e.event_type ≡ false)
          (map (event g now tenant_id r kind r.provider_id error) addresses)
  unfolding event
  other_history kind error [] h = tt
  other_history kind error (a ∷ addresses) h = (h, other_history kind error addresses h)

  module _ (rs : ResolvedRecipients) where
    Ends-answer : (w w' : World) (a : Answer) → IsUnsent w w' → Ends w w.limiter rs (w', answer a)
    unfolding answer
    Ends-answer w w' not_used h = h
    Ends-answer w w' (Idempotency.replayed id) h = h
    Ends-answer w w' (conflict id) h = h
    Ends-answer w w' in_flight h = h
    Ends-answer w w' (queued_as id) h = h
    Ends-answer w w' unreadable h = h

    pub Ends-after_enqueue :
        (is_held : Bool) (bytes : Text) (w : World) (keys : Idempotency.KeyTable)
        → g.marshal r ≡ some bytes
        → IsKeyed w.keys keys
        → Ends w w.limiter rs (
            after_enqueue g now tenant_id r is_held rs (record w {
              keys = keys;
              rows =
                  create
                    (queued_email g now tenant_id r (status_of g now tenant_id r is_held) bytes)
                    w.rows;
            }))
    unfolding after_enqueue record_all save_message queue_sent_copy decide wake
    Ends-after_enqueue true bytes w keys m k = (
      refl,
      record {
        is_held = true;
        bytes = bytes;
        marshalled = m;
        row = refl;
        key = k;
        events = refl;
        message = refl;
        wakes = refl;
      },
      refl,
    )
    Ends-after_enqueue false bytes w keys m k = (
      refl,
      record {
        is_held = false;
        bytes = bytes;
        marshalled = m;
        row = refl;
        key = k;
        events = refl;
        message = refl;
        wakes = refl;
      },
      refl,
    )

    -- A lost race answers with the winner's row, and queues nothing.
    after_lost_race :
        (readable is_held : Bool) (hash : String) (bytes : Text) (w : World) (s : Store)
        → let race = lost_key_race readable g.window now tenant_id r.idempotency_key hash s.keys in
          after_key g now tenant_id r is_held rs bytes w (s, race)
          ≡ (record w { keys = s.keys }, answer race)
    unfolding lost_key_race replay after_key race_answer answer_of
    after_lost_race false is_held hash bytes w s = refl
    after_lost_race true is_held hash bytes w s =
        answered (get_idempotency_key g.window now tenant_id r.idempotency_key s.keys)
      where
        answered :
            (o : Option IdempotencyKey)
            → after_key g now tenant_id r is_held rs bytes w (s, race_answer (answer_of hash o))
              ≡ (record w { keys = s.keys }, answer (race_answer (answer_of hash o)))
        answered none = refl
        answered (some k) = elim (Bool-cases (k.request_hash == hash)) [
          | inl e ↦ rw (answer_of, e) refl
          | inr e ↦ rw (answer_of, e) refl
        ]

    -- The key's row is the one written, or the answer is another's.
    Ends-after_key :
        (is_held : Bool) (hash : String) (bytes : Text) (w : World)
        → g.marshal r ≡ some bytes
        → Ends w w.limiter rs (
            after_key g now tenant_id r is_held rs bytes w (
              enqueue g.keys_readable g.window now tenant_id r.idempotency_key hash g.new_id
                (record { keys = g.others w.keys; queued = [] })))
    unfolding enqueue create_with_idempotency_key
    Ends-after_key is_held hash bytes w m =
        elim (Option-cases
          (unless_expired g.window now (g.others w.keys tenant_id r.idempotency_key))) [
            | inr (k, e) ↦
                rw (enqueue, create_with_idempotency_key, e)
                  (rw
                    (after_lost_race g.keys_readable is_held hash bytes w
                      (record { keys = g.others w.keys; queued = [] }))
                    (Ends-answer w (record w { keys = g.others w.keys }) _
                      (untouched w (g.others w.keys) (inr refl))))
            | inl e ↦
                let row : IdempotencyKey = record {
                  request_hash = hash;
                  message_id = g.new_id;
                  created_at = now;
                } in
                let keys = write_key tenant_id r.idempotency_key (some row) (g.others w.keys) in
                let written : keys tenant_id r.idempotency_key ≡ some row =
                  unfold write_key in rw (eq_refl tenant_id, eq_refl r.idempotency_key) refl in
                rw (enqueue, create_with_idempotency_key, e)
                  (unfold after_key in
                    Ends-after_enqueue is_held bytes w keys m (inr (row, written, refl)))
          ]

    pub Ends-write_outbox :
        (creates is_held : Bool) (hash : String) (bytes : Text) (w : World)
        → g.marshal r ≡ some bytes
        → Ends w w.limiter rs (write_outbox g now tenant_id r creates is_held rs hash bytes w)
    unfolding write_outbox
    Ends-write_outbox false is_held hash bytes w m = unchanged w
    Ends-write_outbox true is_held hash bytes w m = elim (Bool-cases (r.idempotency_key == "")) [
      | inl f ↦ rw (f, write_outbox) (Ends-after_enqueue is_held bytes w w.keys m (inl (f, refl)))
      | inr f ↦ rw (f, write_outbox) (Ends-after_key is_held hash bytes w m)
    ]
