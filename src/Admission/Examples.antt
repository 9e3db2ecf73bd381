-- ===== src/Admission/Examples.antt =====
-- One message to two people, of a tenant that may send ten a minute.
use panmail.Admission.Rate.{recipient_count}
use panmail.Admission.Checks.{
  after_first, but_last, ends_with, has_two_sides, starts_with, tail, check_request, early_fault,
  first_fault, is_message_id,
}
use panmail.Admission.Outcome.{Outcome}
use panmail.Admission.Send.{send_email}
use panmail.Admission.{Gateway, Provider, SendEmailRequest, World, no_recipient, refused}
use panmail.Base.Int.{pos}
use panmail.Base.Text.{codes, ◌==◌}
use panmail.Base.{String, [], false, none, map, refl, some, true, ℕ, ◌∷◌, ◌≡◌}
use panmail.Cache.{new_with_limit}
use panmail.Delivery.{smtp}
use panmail.RateLimit.{Limit, new}

abbrev tenant : String
tenant = "2c6c3a0e-58f5-4f4e-9d3b-0d5a1c1f7a11"

abbrev provider : Provider
provider = record {
  account = record {
    id = "9a1f6c1e-2b77-4b8e-8d58-61c0b3a1d0f2";
    name = codes "relay";
    provider_type = smtp;
    allowed_senders = codes "*@acme.org" ∷ [];
  };
  send_rate = record { per_minute = pos 0; burst = pos 0 };
}

abbrev request : SendEmailRequest
request = record {
  from = codes "news@acme.org";
  to = codes "ann@x.org" ∷ codes "bob@x.org" ∷ [];
  cc = [];
  bcc = [];
  provider_id = "9a1f6c1e-2b77-4b8e-8d58-61c0b3a1d0f2";
  idempotency_key = "order-1";
  subject = codes "hello";
  body = [];
  is_html = false;
  body_html = [];
  body_text = codes "hi";
  template_id = "";
  attachments = [];
  reply_to = [];
  disposition_notification_to = [];
  in_reply_to = [];
  references = [];
  save_sent_copy = true;
}

abbrev gateway : Gateway ℕ
gateway = record {
  is_uuid = λ s. true;
  parse = λ t. some (some t);
  listed = some (provider ∷ []);
  stored = none;
  hash = λ r. some "h";
  keys_readable = true;
  window = 100;
  others = λ keys. keys;
  has_limits = true;
  tenant_limit = some (some (record { per_minute = pos 10; burst = pos 10 }));
  counted = some 3;
  suppressions = λ keys. some (λ key. none);
  template = none;
  render = λ t html. some t;
  rules = none;
  search = λ p t. false;
  read_attachment_text = λ m. m;
  marshal = λ r. some (codes "{}");
  creates = true;
  has_sent_copies = false;
  has_worker = true;
  new_id = "m1";
}

abbrev world : World
world = record {
  limiter = new;
  limits = new_with_limit Limit 1 (pos 5);
  backlog_counts = new_with_limit ℕ 1 (pos 5);
  keys = λ t k. none;
  rows = [];
  events = [];
  decisions = [];
  sent_copies = [];
  messages = [];
  wakes = 0;
}

-- A Message-ID is one token in angle brackets, with something on both sides of its first "@".
message_ids :
    map is_message_id (codes "<a@b>" ∷ codes "<ab@>" ∷ codes "a@b.c" ∷ codes "<a b@c>" ∷ [])
    ≡ true ∷ false ∷ false ∷ false ∷ []
unfolding is_message_id starts_with ends_with but_last tail has_two_sides after_first ◌==◌
message_ids = refl

-- A send with no recipient is refused before anything is read.
nobody : (send_email gateway 7 tenant (record request { to = [] }) world).1 ≡ refused no_recipient
unfolding send_email check_request early_fault first_fault ◌==◌
nobody = refl

charged_for_all : recipient_count request.to request.cc request.bcc ≡ 2
unfolding recipient_count
charged_for_all = refl
