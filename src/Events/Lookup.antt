-- ===== src/Events/Lookup.antt =====
-- That the stored message is read only where something is missing changes nothing.
use panmail.Base.Text.{to_lower, trim_space, ◌==◌ as text_eq}
use panmail.Base.{
  [], Bool, Bool-cases, Option-cases, String, arith, false, if◌then◌else◌, inl, inr, none, refl,
  some, subst, true, ◌≡◌, ◌∙◌,
}
use panmail.Events.Complete.{
  Recovered, fill_missing, is_missing, is_internal_id, look_up, look_up_latest, normalise, recover,
}
use panmail.Events.Record.{
  after_write, backfill_delivered, backfill_provider, count_sent, event_of, get_provider_name,
  is_absent, names_provider, record_event, record_recovered, reread_and_write, set_provider,
  write_event,
}
use panmail.Events.{Deps, EmailEvent, EmailMessage, Report, World}
use text.Mathlib.Text.{◌==◌}

-- What a store promises: an event written leaves the messages as they are, a message is found
-- under its id, and a backfill changes nothing but a message that is there and names no provider.
pub record IsLawful {S : Type 0} (d : Deps S) : Type 0 where
  pub kept :
      (e : EmailEvent) (s : S) (tenant_id id : String)
      → d.repo.get_message (d.repo.write e s).0 tenant_id id ≡ d.repo.get_message s tenant_id id
  pub only_absent :
      (backfill : String → String → String → S → S)
      → d.repo.backfill_message_provider ≡ some backfill
      → (tenant_id id provider_id : String) (s : S) → d.repo.get_message s tenant_id id ≡ none
      → backfill tenant_id id provider_id s ≡ s
  pub only_unnamed :
      (backfill : String → String → String → S → S)
      → d.repo.backfill_message_provider ≡ some backfill
      → (tenant_id id provider_id : String) (s : S) (m : EmailMessage)
      → d.repo.get_message s tenant_id id ≡ some m
      → (m.provider_id == "") ≡ false
      → backfill tenant_id id provider_id s ≡ s

module _ {S : Type 0} (d : Deps S) where
  -- With the lookup for every report that names a message.
  unfoldable pub recover_always : S → Report → Recovered
  recover_always s r =
      let found = look_up d s r in
      if r.message_id == "" then record { report = r; msg = none; looked = false } else found

  unfoldable pub record_event_always : Report → World S → World S × Bool
  record_event_always r w =
      let r' = normalise d r in
      record_recovered d (recover_always w.store r') (count_sent d r'.event_type w)

  get_provider_name-store :
      (tenant_id provider_id : String) (w : World S)
      → (get_provider_name d tenant_id provider_id w).0.store ≡ w.store
  unfolding get_provider_name
  get_provider_name-store tenant_id provider_id w = ground arith

  -- Nothing is missing of a report.
  abbrev pub IsWhole : Report → Type 0
  IsWhole r = is_missing d r ≡ false

  fill_missing_same : (m : EmailMessage) (r : Report) → IsWhole r → fill_missing m r ≡ r
  unfolding is_missing fill_missing
  fill_missing_same m r h = ground arith

  look_up-IsWhole :
      (s : S) (r : Report)
      → IsWhole r
      → look_up d s r
        ≡ record { report = r; msg = d.repo.get_message s r.tenant_id r.message_id; looked = true }
  unfolding look_up look_up_latest is_missing
  look_up-IsWhole s r h = elim (Option-cases (d.repo.get_message s r.tenant_id r.message_id)) [
    | inl e ↦ rw (e, look_up) (ground arith)
    | inr (m, e) ↦ rw (e, look_up) (rw (fill_missing_same m r h) refl)
  ]

  -- The two ways of a report that lacks nothing set the same provider.
  module _ (lawful : IsLawful d) (r : Report) where
    set_absent :
        (s : S) → d.repo.get_message s r.tenant_id r.message_id ≡ none → set_provider d r none s ≡ s
    unfolding set_provider reread_and_write
    set_absent s h = elim (Option-cases d.repo.backfill_message_provider) [
      | inl e ↦ rw (e, set_provider) (rw (h, reread_and_write) refl)
      | inr (backfill, e) ↦
          rw (e, set_provider)
            (lawful.only_absent backfill e r.tenant_id r.message_id r.provider_id s h)
    ]

    set_named :
        (s : S) (m : EmailMessage)
        → d.repo.get_message s r.tenant_id r.message_id ≡ some m
        → (m.provider_id == "") ≡ false
        → set_provider d r none s ≡ s
    unfolding set_provider reread_and_write
    set_named s m h n = elim (Option-cases d.repo.backfill_message_provider) [
      | inl e ↦ rw (e, set_provider) (rw (h, reread_and_write) (rw n refl))
      | inr (backfill, e) ↦
          rw (e, set_provider)
            (lawful.only_unnamed backfill e r.tenant_id r.message_id r.provider_id s m h n)
    ]

    set_unnamed :
        (s : S) (m : EmailMessage)
        → d.repo.get_message s r.tenant_id r.message_id ≡ some m
        → (m.provider_id == "") ≡ true
        → set_provider d r none s ≡ set_provider d r (some m) s
    unfolding set_provider reread_and_write
    set_unnamed s m h n = elim (Option-cases d.repo.backfill_message_provider) [
      | inl e ↦ rw (e, set_provider) (rw (h, reread_and_write) (rw n refl))
      | inr (backfill, e) ↦ rw (e, set_provider) refl
    ]

    -- What the lookup finds of a report that lacks nothing.
    abbrev pub found : S → Recovered
    found s = record {
      report = r;
      msg = d.repo.get_message s r.tenant_id r.message_id;
      looked = true;
    }

    abbrev pub unread : Recovered
    unread = record { report = r; msg = none; looked = false }

    same_backfill :
        (e : EmailEvent) (s : S)
        → backfill_provider d unread (d.repo.write e s).0
          ≡ backfill_provider d (found s) (d.repo.write e s).0
    unfolding backfill_provider names_provider is_absent
    same_backfill e s =
        let s' = (d.repo.write e s).0 in
        let same = lawful.kept e s r.tenant_id r.message_id in
        elim (Option-cases (d.repo.get_message s r.tenant_id r.message_id)) [
          | inl h ↦ rw h (set_absent s' (same ∙ h))
          | inr (m, h) ↦ elim (Bool-cases (m.provider_id == "")) [
            | inl n ↦ rw h (rw n (set_unnamed s' m (same ∙ h) n))
            | inr n ↦ rw h (rw n (set_named s' m (same ∙ h) n))
          ]
        ]

    same_after_write :
        (e : EmailEvent) (w : World S) (before : S) (y : S × Bool)
        → backfill_provider d unread y.0 ≡ backfill_provider d (found before) y.0
        → after_write d unread e w y ≡ after_write d (found before) e w y
    unfolding after_write backfill_delivered
    same_after_write e w before (s, true) h = rw h refl
    same_after_write e w before (s, false) h = refl

    same_record : (w : World S) → record_recovered d unread w ≡ record_recovered d (found w.store) w
    unfolding record_recovered write_event
    same_record w =
        let named = get_provider_name d r.tenant_id r.provider_id w in
        let e = event_of d r named.1 in
        same_after_write e named.0 w.store (d.repo.write e named.0.store) (
          subst
            (λ s.
              backfill_provider d unread (d.repo.write e named.0.store).0
              ≡ backfill_provider d (found s) (d.repo.write e named.0.store).0)
            (get_provider_name-store r.tenant_id r.provider_id w) (same_backfill e named.0.store))

  not_looked :
      (s : S) (r : Report)
      → (r.provider_id == "") ≡ false
      → text_eq (to_lower (trim_space r.recipient)) [] ≡ false
      → text_eq r.subject [] ≡ false
      → d.parses r.message_id ≡ true
      → (recover d s (normalise d r)).looked ≡ false
  unfolding recover is_missing is_internal_id normalise
  not_looked s r a b c e = ground arith

  same_as_always :
      IsLawful d → (r : Report) (w : World S) → record_event d r w ≡ record_event_always r w
  unfolding record_event record_event_always recover recover_always count_sent
  same_as_always lawful r w =
      let r' = normalise d r in
      elim (Bool-cases (r'.message_id == "")) [
        | inl e ↦ rw e refl
        | inr e ↦ elim (Bool-cases (is_missing d r')) [
          | inl h ↦ rw e (rw h refl)
          | inr h ↦ rw e (
              rw h (
                rw (look_up-IsWhole w.store r' h)
                  (same_record lawful r' (count_sent d r'.event_type w))))
        ]
      ]

  -- An event with a provider, a recipient, a subject and an id of the gateway's own is recorded
  -- without a lookup of its message to complete it. With a store that keeps its messages when it
  -- writes an event and whose backfill touches only a stored message without a provider, every
  -- event leaves the same world and gives the same answer as under the reference that looks up the
  -- message of each event that names one.
  pub record_event_always_lem :
      IsLawful d
      → (r : Report) (w : World S)
      → ((r.provider_id == "") ≡ false
          → text_eq (to_lower (trim_space r.recipient)) [] ≡ false
          → text_eq r.subject [] ≡ false
          → d.parses r.message_id ≡ true
          → (recover d w.store (normalise d r)).looked ≡ false)
        × (record_event d r w ≡ record_event_always r w)
  record_event_always_lem lawful r w = (not_looked w.store r, same_as_always lawful r w)
