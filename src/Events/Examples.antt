-- ===== src/Events/Examples.antt =====
-- A store of one message, and the events of its delivery.
use panmail.Base.Text.{
  Text, codes, has_prefix, has_substring, to_lower, trim_left, trim_right, trim_space, trim,
  ◌==◌ as text_eq,
}
use panmail.Base.{
  Bool-cases, List, Option, String, [], ap, arith, false, if◌then◌else◌, inl, inr, none, refl, some,
  subst, true, ◌∙◌, ◌++◌, ◌∷◌, ◌≡◌, ◌⊎◌, map,
}
use panmail.Bounce.{
  Patterns, bounced, classify_error, classify_reply, classify_text, contains_any, delivered,
  is_hard_bounce, is_infrastructure, is_transient, reply_of,
}
use panmail.Events.Lookup.{IsLawful, record_event_always, record_event_always_lem}
use panmail.Events.Complete.{
  only_of, classified, event_type_of, fill_missing, is_bounced, is_internal_id, is_missing, look_up,
  normalise, only_recipient, recover, the_one,
}
use panmail.Events.Record.{
  after_write, backfill_delivered, backfill_provider, count_sent, event_of, get_provider_name,
  is_absent, is_delivered, named, names_provider, record_event, record_recovered, set_provider,
  suppress_for_event, terminal_reason, with_error, write_event,
}
use panmail.Base.Dict.{lookup}
use panmail.Events.Named.{Deserves, record_event-suppressed}
use panmail.Events.{Deps, EmailEvent, EmailMessage, Report, World}
use text.Mathlib.Text.{◌==◌}

abbrev Store : Type 0
Store = List EmailEvent × Option EmailMessage

-- The stored message, under its id.
abbrev find : Option EmailMessage → String → Option EmailMessage
find none id = none
find (some m) id = if m.id == id then some m else none

abbrev fill : String → EmailMessage → EmailMessage
fill provider_id m = record {
  id = m.id;
  tenant_id = m.tenant_id;
  provider_id = if m.provider_id == "" then provider_id else m.provider_id;
  from = m.from;
  to = m.to;
  cc = m.cc;
  bcc = m.bcc;
  subject = m.subject;
}

abbrev set : String → String → Option EmailMessage → Option EmailMessage
set id provider_id none = none
set id provider_id (some m) =
    if m.id == id
    then (if m.provider_id == "" then some (fill provider_id m) else some m)
    else some m

abbrev set_in : String → String → String → Store → Store
set_in tenant_id id provider_id (es, o) = (es, set id provider_id o)

abbrev plain : Patterns
plain = record {
  has_code = λ cs t. contains_any t cs;
  has_transient_code = λ t. false;
  without_addresses = λ t. t;
  reply_code = λ t. none;
}

abbrev deps : Deps Store
deps = record {
  repo = record {
    get_message = λ s tenant_id id. find s.1 id;
    get_latest_message_for_recipient = λ s tenant_id recipient. s.1;
    write = λ e s. ((e ∷ s.0, s.1), true);
    write_message = λ m s. (s.0, some m);
    backfill_message_provider = some set_in;
  };
  provider_repo = λ tenant_id provider_id. some "relay";
  has_webhook_trigger = true;
  has_suppressions = true;
  parses = λ id. has_prefix (codes id) (codes "m-");
  patterns = plain;
  new_id = "e-1";
  now = 0;
}

abbrev message : EmailMessage
message = record {
  id = "m-1";
  tenant_id = "acme";
  provider_id = "";
  from = codes "news@acme.org";
  to = codes "ann@x.org" ∷ [];
  cc = [];
  bcc = [];
  subject = codes "hello";
}

abbrev world : World Store
world = record {
  store = ([], some message);
  provider_names = [];
  sent_counter = 0;
  enqueued = [];
  suppressed = [];
}

-- A bounce without its recipient, as a provider reports it.
abbrev bounce : Report
bounce = record {
  tenant_id = "acme";
  provider_id = "p-1";
  message_id = "m-1";
  event_type = bounced;
  recipient = [];
  subject = [];
  error_message = codes "550 5.1.1 User unknown";
  metadata = [];
}

abbrev delivery : Report
delivery = record {
  tenant_id = "acme";
  provider_id = "p-1";
  message_id = "m-1";
  event_type = delivered;
  recipient = codes "Ann@x.org ";
  subject = codes "hello";
  error_message = [];
  metadata = [];
}

absent_same :
    (id provider_id : String) (o : Option EmailMessage)
    → find o id ≡ none
    → set id provider_id o ≡ o
absent_same id provider_id none h = refl
absent_same id provider_id (some m) h = ground arith

named_same :
    (id provider_id : String) (o : Option EmailMessage) (m : EmailMessage)
    → find o id ≡ some m
    → (m.provider_id == "") ≡ false
    → set id provider_id o ≡ o
named_same id provider_id none m h n = refl
named_same id provider_id (some k) m h n = elim (Bool-cases (k.id == id)) [
  | inr e ↦ rw e refl
  | inl e ↦
      let same = subst (λ b. (if b then some k else none) ≡ some m) e h in
      let at = ap (λ o. elim o [ some x ↦ x.provider_id == "" | none ↦ false ]) same in
      rw e (rw (at ∙ n) refl)
]

deps-IsLawful : IsLawful deps
deps-IsLawful = record {
  kept = λ e s tenant_id id. refl;
  only_absent = λ backfill h tenant_id id provider_id s a.
      subst (λ b. b tenant_id id provider_id s ≡ s)
        (ap (λ o. elim o [ some b ↦ b | none ↦ set_in ]) h)
        (ap (λ o. (s.0, o)) (absent_same id provider_id s.1 a));
  only_unnamed = λ backfill h tenant_id id provider_id s m a n.
      subst (λ b. b tenant_id id provider_id s ≡ s)
        (ap (λ o. elim o [ some b ↦ b | none ↦ set_in ]) h)
        (ap (λ o. (s.0, o)) (named_same id provider_id s.1 m a n));
}

record_event_always_lem_example :
    (("p-1" == "") ≡ false
      → text_eq (to_lower (trim_space (codes "Ann@x.org "))) [] ≡ false
      → text_eq (codes "hello") [] ≡ false
      → deps.parses "m-1" ≡ true
      → (recover deps world.store (normalise deps delivery)).looked ≡ false)
    × (record_event deps delivery world ≡ record_event_always deps delivery world)
record_event_always_lem_example = record_event_always_lem deps deps-IsLawful delivery world

record_event-suppressed_example :
    (((record_event deps bounce world).0.suppressed ≡ [])
      × ¬ ((address : Text) × Deserves deps bounce world address))
    ⊎ ((address : Text) × (reason : Text) × ((record_event deps bounce world).0.suppressed
          ≡ [] ++ record { tenant_id = "acme"; email = address; reason = reason } ∷ [])
        × Deserves deps bounce world address)
record_event-suppressed_example = record_event-suppressed deps bounce world

-- The stored message has the address.
bounce_suppresses :
    map (λ q. q.email) (record_event deps bounce world).0.suppressed ≡ codes "ann@x.org" ∷ []
unfolding record_event record_recovered write_event after_write suppress_for_event terminal_reason
    recover look_up fill_missing only_recipient only_of the_one is_missing is_internal_id normalise
    event_type_of classified is_bounced get_provider_name event_of count_sent with_error
    classify_error classify_text classify_reply is_infrastructure is_transient is_hard_bounce
    reply_of contains_any has_substring has_prefix to_lower trim_space trim trim_left trim_right
    text_eq lookup
bounce_suppresses = refl

delivery_names_provider :
    find (record_event deps delivery world).0.store.1 "m-1" ≡ some (named deps "p-1" message)
unfolding record_event record_recovered write_event after_write backfill_delivered backfill_provider
    set_provider names_provider is_absent is_delivered recover look_up is_missing is_internal_id
    normalise event_type_of is_bounced get_provider_name event_of count_sent has_prefix to_lower
    trim_space trim trim_left trim_right text_eq lookup
delivery_names_provider = refl
