-- ===== src/Bounce/Fault.antt =====
-- When a recipient is blamed.
use panmail.Base.{[], false, true, ◌≡◌, ◌↔◌, ◌⊎◌, arith}
use panmail.Bounce.{
  Patterns, classify_error, classify_text, classify_reply, is_infrastructure, is_transient,
  is_hard_bounce, reply_of, contains_any, unsubscribe_patterns, complaint_patterns,
  content_rejection_patterns,
}
use panmail.Base.Text.{Text, to_lower, ◌==◌}

-- The reply blames the recipient: it tells of an unsubscription or a complaint, or of a hard
-- bounce and not of rejected content.
abbrev pub Blames : Patterns → Text → Type 0
Blames p reply =
    (contains_any reply unsubscribe_patterns ≡ true)
    ⊎ (contains_any reply complaint_patterns ≡ true)
    ⊎ ((contains_any reply content_rejection_patterns ≡ false) × (is_hard_bounce p reply ≡ true))

-- A text that is neither empty, nor about the gateway's own infrastructure, nor transient.
abbrev pub IsFinal : Patterns → Text → Type 0
IsFinal p err =
    let text = p.without_addresses (to_lower err) in
    ((err == []) ≡ false)
    × (is_infrastructure p text ≡ false)
    × (is_transient p (reply_of p text) ≡ false)

-- The recipient is at fault exactly for an error that is not empty, not one of the gateway's own
-- infrastructure and not transient, and whose reply tells of an unsubscription, a complaint, or a
-- hard bounce without rejected content; and an error at the recipient's fault is never retried.
pub classify_error_fault :
    (p : Patterns) (err : Text)
    → (((classify_error p err).recipient_at_fault ≡ true)
        ↔ (IsFinal p err × Blames p (reply_of p (p.without_addresses (to_lower err))).0))
      × ((classify_error p err).recipient_at_fault ≡ true
          → (classify_error p err).retryable ≡ false)
unfolding classify_error classify_text classify_reply
classify_error_fault p err = (((λ h. ground arith), λ (f, b). ground arith), λ h. ground arith)

-- The reply says nothing that is final.
abbrev pub IsOpen : Patterns → Text → Type 0
IsOpen p reply =
    (contains_any reply unsubscribe_patterns ≡ false)
    × (contains_any reply complaint_patterns ≡ false)
    × (contains_any reply content_rejection_patterns ≡ false)
    × (is_hard_bounce p reply ≡ false)

-- An error is retried exactly if it is not empty and is about the gateway's own infrastructure, or
-- is transient, or has a reply with none of the four final causes.
pub classify_error_retry :
    (p : Patterns) (err : Text)
    → ((classify_error p err).retryable ≡ true) ↔ (
        ((err == []) ≡ false)
        × ((is_infrastructure p (p.without_addresses (to_lower err)) ≡ true)
            ⊎ (is_transient p (reply_of p (p.without_addresses (to_lower err))) ≡ true)
            ⊎ IsOpen p (reply_of p (p.without_addresses (to_lower err))).0))
unfolding classify_error classify_text classify_reply
classify_error_retry p err = ((λ h. ground arith), λ h. ground arith)
