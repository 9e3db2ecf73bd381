-- ===== src/Admission/Content.antt =====
-- What is sent and what the filter makes of it: renderTemplate of
-- internal/email/usecases/send_email_usecase.go, filter_projection.go beside it, and Screen of
-- internal/emailfilter/screen.go.
use panmail.Admission.{Attachment, Gateway, Rendered, SendEmailRequest, Template}
use panmail.Base.Text.{Text, codes, ◌==◌ as text_eq}
use panmail.Base.{
  Bool, List, Option, [], any, false, if◌then◌else◌, length, none, some, true, ℕ, ◌*◌, ◌+◌, ◌/◌,
  ◌∷◌, ◌||◌, ◌&&◌,
}
use panmail.EmailFilter.Condition.{Condition, attachment_text}
use panmail.EmailFilter.Rule.{Decision, Rule, evaluate}
use panmail.EmailFilter.{Message, outbound}
use panmail.EmailFilter
use text.Mathlib.Text.{◌==◌}

unfoldable pub filter_attachments : List Attachment → List EmailFilter.Attachment
filter_attachments [] = []
filter_attachments (a ∷ rest) =
    record {
      filename = a.filename;
      content_type = a.content_type;
      size = length a.content;
      data_bytes = a.content;
      text = [];
    }
    ∷ filter_attachments rest

unfoldable pub size_from : ℕ → List Attachment → ℕ
size_from size [] = size
size_from size (a ∷ rest) = size_from (size + length a.content * 4 / 3 + length a.filename) rest

unfoldable pub approximate_size : Text → Text → Text → List Attachment → ℕ
approximate_size subject html text attachments =
    size_from (length subject + length html + length text) attachments

-- The message as `SendEmail` shows it to the filter.
unfoldable pub screened_message : SendEmailRequest → Rendered → Message
screened_message r content = record {
  from = r.from;
  to = r.to;
  cc = r.cc;
  bcc = r.bcc;
  subject = content.subject;
  html = content.body_html;
  text = content.body_text;
  headers = [];
  attachments = filter_attachments r.attachments;
  size = approximate_size content.subject content.body_html content.body_text r.attachments;
  provider_id = codes r.provider_id;
  spf = [];
  dkim = [];
  dmarc = [];
}

unfoldable pub asks_text : {Pattern : Type 0} → Condition Pattern → Bool
asks_text c = elim c.field [ attachment_text ↦ true | _ ↦ false ]

unfoldable pub needs_attachment_text : {Pattern : Type 0} → List (Rule Pattern) → Bool
needs_attachment_text rules =
    any (λ r. any asks_text r.conditions || any asks_text r.exceptions) rules

module _ {Pattern : Type 0} (g : Gateway Pattern) where
  unfoldable pub render_with : Template → Option Rendered
  render_with t = elim (g.render t.subject false) [
    | none ↦ none
    | some subject ↦ elim (g.render t.body_html true) [
      | none ↦ none
      | some html ↦ elim (g.render t.body_text false) [
        | none ↦ none
        | some text ↦ some (record { subject = subject; body_html = html; body_text = text })
      ]
    ]
  ]

  unfoldable pub plain_content : SendEmailRequest → Rendered
  plain_content r =
      if text_eq r.body_html [] && text_eq r.body_text []
      then record {
        subject = r.subject;
        body_html = if r.is_html then r.body else [];
        body_text = if r.is_html then [] else r.body;
      }
      else record { subject = r.subject; body_html = r.body_html; body_text = r.body_text }

  -- `renderTemplate`; none is any of its errors.
  unfoldable pub render_template : SendEmailRequest → Option Rendered
  render_template r = if r.template_id == "" then some (plain_content r) else elim g.template [
    | none ↦ none
    | some found ↦ elim found [ none ↦ none | some t ↦ render_with t ]
  ]

  unfoldable pub screen_rules : List (Rule Pattern) → Message → Decision Pattern
  screen_rules [] m = record { action = none; rule = none; matched = [] }
  screen_rules (r ∷ rules) m =
      evaluate g.search (r ∷ rules) outbound
        (if needs_attachment_text (r ∷ rules) then g.read_attachment_text m else m)

  -- `Screen` for outbound mail; without a screener nothing is decided. None is its error.
  unfoldable pub screen : Message → Option (Decision Pattern)
  screen m = elim g.rules [
    | none ↦ some (record { action = none; rule = none; matched = [] })
    | some read ↦ elim read [ none ↦ none | some rules ↦ some (screen_rules rules m) ]
  ]
