-- ===== src/Admission/Outcome.antt =====
-- The three answers to a send, and what each leaves behind.
use panmail.Admission.Checks.{check_request}
use panmail.Admission.Rate.{recipient_count}
use panmail.Admission.Written.{IsCleared, IsQueued, IsUnsent}
use panmail.Admission.{
  Gateway, Provider, Response, SendEmailRequest, World, accepted, refused, replayed,
}
use panmail.Base.Text.{Text}
use panmail.Base.{String, inr, ℕ, ◌≡◌}
use panmail.Idempotency.{replay}
use panmail.Idempotency
use panmail.Recipients.{ResolvedRecipients}

module _ {Pattern : Type 0} (g : Gateway Pattern) (now : ℕ) (tenant_id : String) where
  module _ (r : SendEmailRequest) where
    -- The whole of it: refused or replayed and unsent, or accepted, cleared and queued.
    abbrev pub Outcome : World → World × Response → Type 0
    Outcome w (w', refused fault) = IsUnsent g now tenant_id r w w'
    Outcome w (w', replayed id) = IsUnsent g now tenant_id r w w'
    Outcome w (w', accepted id) =
        (id ≡ g.new_id)
        × (rs : ResolvedRecipients) × (p : Provider) × IsCleared g now tenant_id r w w' rs p
        × IsQueued g now tenant_id r w w' rs

    module _ (rs : ResolvedRecipients) (p : Provider)
        (checked : check_request g tenant_id r ≡ inr (rs, p)) where
      cost : ℕ
      cost = recipient_count r.to r.cc r.bcc
