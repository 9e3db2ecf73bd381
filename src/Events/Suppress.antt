-- ===== src/Events/Suppress.antt =====
-- When an event suppresses its recipient.
use panmail.Base.Text.{Text, to_lower, ◌==◌ as text_eq}
use panmail.Base.{
  Bool, List, String, [], arith, false, inl, inr, refl, sym, true, ◌++◌, ◌∷◌, ◌≡◌, ◌⊎◌, ◌↔◌, ◌∙◌,
  ap,
}
use panmail.Bounce.{
  EventType, Patterns, classify_error, classify_reply, classify_text, complaint_patterns,
  contains_any, content_rejection_patterns, hard_bounce, is_hard_bounce, reply_of, spam_report,
  unsubscribe_patterns,
}
use panmail.Bounce.Fault.{IsFinal}
use panmail.Events.Complete.{
  classified, event_type_of, fill_missing, is_bounced, Recovered, look_up, look_up_latest,
  normalise, recover,
}
use panmail.Events.Record.{
  after_write, count_sent, event_of, get_provider_name, record_event, record_recovered,
  suppress_for_event, terminal_reason, with_error, write_event,
}
use panmail.Events.{AddSuppressionRequest, Deps, EmailEvent, Report, World}
use mathlib.Core.List.{append-nil}
use mathlib.Core.Bool.{true≢false}
use text.Mathlib.Text.{◌==◌}

unfoldable pub is_terminal : EventType → Bool
is_terminal hard_bounce = true
is_terminal spam_report = true
is_terminal _ = false

-- The reply tells of a complaint, or of a hard bounce and not of rejected content; and not of an
-- unsubscription.
abbrev pub Condemns : Patterns → Text → Type 0
Condemns p reply =
    (contains_any reply unsubscribe_patterns ≡ false)
    × ((contains_any reply complaint_patterns ≡ true)
        ⊎ ((contains_any reply complaint_patterns ≡ false)
            × (contains_any reply content_rejection_patterns ≡ false)
            × (is_hard_bounce p reply ≡ true)))

-- The event is reported as a hard bounce or a complaint, or as a bounce with an error that is final
-- and condemns the address.
abbrev pub IsTerminal : Patterns → Report → Type 0
IsTerminal p r =
    (is_terminal r.event_type ≡ true)
    ⊎ ((is_bounced r.event_type ≡ true)
        × IsFinal p r.error_message
        × Condemns p (reply_of p (p.without_addresses (to_lower r.error_message))).0)

classified_terminal :
    (p : Patterns) (err : Text)
    → (is_terminal (classified (classify_error p err).event_type) ≡ true)
      ↔ (IsFinal p err × Condemns p (reply_of p (p.without_addresses (to_lower err))).0)
unfolding classify_error classify_text classify_reply is_terminal classified
classified_terminal p err = ((λ h. ground arith), λ (f, b). ground arith)

bounced_not_terminal : (t : EventType) → is_bounced t ≡ true → is_terminal t ≡ false
unfolding is_bounced is_terminal
bounced_not_terminal t h = ground arith

-- The request for an address.
abbrev pub request : Report → Text → AddSuppressionRequest
request q reason = record {
  tenant_id = q.tenant_id;
  email = q.recipient;
  reason = with_error reason q.error_message;
}

module _ {S : Type 0} (d : Deps S) where
  event_type_of-IsTerminal :
      (r : Report) → (is_terminal (event_type_of d r) ≡ true) ↔ IsTerminal d.patterns r
  unfolding event_type_of
  event_type_of-IsTerminal r =
      let (to, from) = classified_terminal d.patterns r.error_message in
      (
        λ h. ground (arith, to, bounced_not_terminal r.event_type),
        λ h. ground (arith, from, bounced_not_terminal r.event_type),
      )

  -- A lookup fills in what is missing and leaves the rest.
  pub record IsSame (r q : Report) : Type 0 where
    pub tenant_id : q.tenant_id ≡ r.tenant_id
    pub event_type : q.event_type ≡ r.event_type
    pub error_message : q.error_message ≡ r.error_message

  pub recover-IsSame : (s : S) (r : Report) → IsSame r (recover d s r).report
  unfolding recover look_up look_up_latest fill_missing
  recover-IsSame s r = record {
    tenant_id = ground arith;
    event_type = ground arith;
    error_message = ground arith;
  }

  -- There is a list to add to, and a tenant and an address to add.
  abbrev pub CanSuppress : Report → Type 0
  CanSuppress q =
      (d.has_suppressions ≡ true) × (text_eq q.recipient [] ≡ false) × ((q.tenant_id == "") ≡ false)

  suppress_cases :
      (q : Report)
      → ((suppress_for_event d q ≡ []) × ¬ (CanSuppress q × (is_terminal q.event_type ≡ true)))
        ⊎ ((reason : Text) × (suppress_for_event d q ≡ request q reason ∷ [])
            × CanSuppress q
            × (is_terminal q.event_type ≡ true))
  unfolding suppress_for_event is_terminal terminal_reason
  suppress_cases q = ground arith

  get_provider_name-suppressed :
      (tenant_id provider_id : String) (w : World S)
      → (get_provider_name d tenant_id provider_id w).0.suppressed ≡ w.suppressed
  unfolding get_provider_name
  get_provider_name-suppressed tenant_id provider_id w = ground arith

  -- A write succeeded and asked for what the event is worth, or it failed and asked for nothing.
  abbrev pub Asks : Recovered → List AddSuppressionRequest → World S × Bool → Type 0
  Asks f before (w', ok) =
      ((ok ≡ true) × (w'.suppressed ≡ before ++ suppress_for_event d f.report))
      ⊎ ((ok ≡ false) × (w'.suppressed ≡ before))

  Asks-after_write :
      (f : Recovered) (e : EmailEvent) (w : World S) (before : List AddSuppressionRequest)
      → w.suppressed ≡ before
      → (y : S × Bool) → Asks f before (after_write d f e w y)
  unfolding after_write
  Asks-after_write f e w before same (s, true) =
      inl (refl, ap (λ asked. asked ++ suppress_for_event d f.report) same)
  Asks-after_write f e w before same (s, false) = inr (refl, same)

  Asks-record_recovered :
      (f : Recovered) (w : World S) → Asks f w.suppressed (record_recovered d f w)
  unfolding record_recovered write_event
  Asks-record_recovered f w =
      let found = get_provider_name d f.report.tenant_id f.report.provider_id w in
      let e = event_of d f.report found.1 in
      Asks-after_write f e found.0 w.suppressed
        (get_provider_name-suppressed f.report.tenant_id f.report.provider_id w)
        (d.repo.write e found.0.store)

  -- An event was written, with a recipient after its completion, and is terminal.
  abbrev pub IsDue : Report → World S → Type 0
  IsDue r w =
      ((record_event d r w).1 ≡ true)
      × CanSuppress (recover d w.store (normalise d r)).report
      × IsTerminal d.patterns r

  -- Recording an event asks for one suppression, of its recipient after its completion, exactly if
  -- it is due.
  pub record_event-IsDue :
      (r : Report) (w : World S)
      → (((record_event d r w).0.suppressed ≡ w.suppressed) × ¬ (IsDue r w))
        ⊎ ((reason : Text) × ((record_event d r w).0.suppressed
              ≡ w.suppressed ++ request (recover d w.store (normalise d r)).report reason ∷ [])
            × IsDue r w)
  unfolding record_event count_sent normalise
  record_event-IsDue r w =
      let r' = normalise d r in
      let f = recover d w.store r' in
      let same = recover-IsSame w.store r' in
      let (to, from) = event_type_of-IsTerminal r in
      let terminal = ap is_terminal same.event_type in
      elim (Asks-record_recovered f (count_sent d r'.event_type w)) [
        | inr (failed, kept) ↦ inl (kept, λ (ok, _, _). true≢false (sym ok ∙ failed))
        | inl (ok, e) ↦ elim (suppress_cases f.report) [
          | inl (none_asked, not_due) ↦ inl (
            e ∙ ap (λ x. w.suppressed ++ x) none_asked ∙ append-nil w.suppressed,
            λ (_, can, due). not_due (can, terminal ∙ from due),
          )
          | inr (reason, asked, can, due) ↦
              inr (reason, rw (← asked) e, (ok, can, to (sym terminal ∙ due)))
        ]
      ]
