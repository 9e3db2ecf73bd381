-- ===== src/Bounce/Examples.antt =====
-- Replies of mail servers, with patterns that look for plain substrings.
use panmail.Base.{[], false, none, refl, true, ◌≡◌, ◌↔◌, ◌⊎◌}
use panmail.Bounce.{
  Patterns, classify_error, contains_any, hard_bounce, classify_text, classify_reply,
  is_infrastructure, reply_of, is_transient, is_hard_bounce, rejected,
}
use panmail.Bounce.Fault.{classify_error_fault, classify_error_retry, Blames, IsFinal, IsOpen}
use panmail.Base.Text.{Text, codes, ◌==◌, to_lower, has_substring, has_prefix}

abbrev plain : Patterns
plain = record {
  has_code = λ cs t. contains_any t cs;
  has_transient_code = λ t. false;
  without_addresses = λ t. t;
  reply_code = λ t. none;
}

abbrev unknown_user : Text
unknown_user = codes "550 5.1.1 User unknown"

unknown_user_bounces : (classify_error plain unknown_user).event_type ≡ hard_bounce
unfolding classify_error classify_text classify_reply is_infrastructure is_transient is_hard_bounce
    reply_of contains_any has_substring has_prefix to_lower ◌==◌
unknown_user_bounces = refl

classify_error_fault_example :
    (((classify_error plain unknown_user).recipient_at_fault ≡ true) ↔ (
      IsFinal plain unknown_user
      × Blames plain (reply_of plain (plain.without_addresses (to_lower unknown_user))).0))
    × ((classify_error plain unknown_user).recipient_at_fault ≡ true
        → (classify_error plain unknown_user).retryable ≡ false)
classify_error_fault_example = classify_error_fault plain unknown_user

classify_error_retry_example : ((classify_error plain unknown_user).retryable ≡ true) ↔ (
    ((unknown_user == []) ≡ false)
    × ((is_infrastructure plain (plain.without_addresses (to_lower unknown_user)) ≡ true)
        ⊎ (is_transient plain (reply_of plain (plain.without_addresses (to_lower unknown_user)))
            ≡ true)
        ⊎ IsOpen plain (reply_of plain (plain.without_addresses (to_lower unknown_user))).0))
classify_error_retry_example = classify_error_retry plain unknown_user

-- A host name in the reply is read as a fault of the gateway.
host_name_decides :
    (classify_error plain (codes "550 5.1.1 User unknown at mx.dnshost.net")).event_type ≡ rejected
unfolding classify_error classify_text classify_reply is_infrastructure is_transient is_hard_bounce
    reply_of contains_any has_substring has_prefix to_lower ◌==◌
host_name_decides = refl
