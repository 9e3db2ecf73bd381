-- ===== src/Bounce.antt =====
-- pkg/emailutil/bounce.go: what the text of a delivery error says about the recipient.
--
-- The four regular expressions of the file are an argument: whether a text holds one of a list of
-- enhanced status codes, whether it holds a transient one, what is left of a text without its
-- addresses, and the reply code of a text with what stands from it on.
pub mod Fault
mod Examples
use panmail.Base.{
  [], false, if◌then◌else◌, none, some, true, ◌∷◌, Bool, List, String, ◌||◌, Option, any,
}
use panmail.Base.Text.{Text, codes, to_lower, has_substring, has_prefix, ◌==◌}

pub data EventType : Type 0 where
  unspecified sent delivered opened clicked bounced hard_bounce soft_bounce : EventType
  spam_report unsubscribed dropped rejected pending deferred complained : EventType

pub record Classification : Type 0 where
  pub event_type : EventType
  pub recipient_at_fault : Bool
  pub retryable : Bool

pub record Patterns : Type 0 where
  pub has_code : List String → Text → Bool
  pub has_transient_code : Text → Bool
  pub without_addresses : Text → Text
  pub reply_code : Text → Option (Text × Text)

abbrev pub recipient_hard_bounce_codes : List String
recipient_hard_bounce_codes = "5.1.1" ∷ "5.1.2" ∷ "5.1.3" ∷ "5.1.6" ∷ "5.1.10" ∷ []

abbrev pub recipient_hard_bounce_patterns : List String
recipient_hard_bounce_patterns =
    "user unknown" ∷ "no such user" ∷ "no such recipient" ∷ "mailbox not found"
    ∷ "mailbox unavailable" ∷ "invalid recipient" ∷ "recipient address rejected"
    ∷ "address rejected" ∷ "account disabled" ∷ "user doesn't exist" ∷ "user does not exist"
    ∷ "unknown recipient" ∷ "recipient not found" ∷ "does not exist" ∷ []

abbrev pub complaint_patterns : List String
complaint_patterns =
    "feedback loop" ∷ "spam complaint" ∷ "abuse complaint" ∷ "complained" ∷ "marked as spam"
    ∷ "reported as spam" ∷ []

abbrev pub content_rejection_patterns : List String
content_rejection_patterns =
    "spam" ∷ "unacceptable content" ∷ "policy violation" ∷ "content rejected" ∷ "message rejected"
    ∷ "virus" ∷ "malware" ∷ "phishing" ∷ []

abbrev pub unsubscribe_patterns : List String
unsubscribe_patterns = "unsubscribed" ∷ "opted out" ∷ []

abbrev pub transient_patterns : List String
transient_patterns =
    "mailbox full" ∷ "quota exceeded" ∷ "storage full" ∷ "over quota" ∷ "connection timed out"
    ∷ "connection refused" ∷ "connection reset" ∷ "i/o timeout" ∷ "no route to host"
    ∷ "network is unreachable" ∷ "server busy" ∷ "try again later" ∷ "greylist" ∷ "greylisted"
    ∷ "rate limit" ∷ "too many messages" ∷ "too many connections" ∷ "temporary failure"
    ∷ "temporarily deferred" ∷ "deferred" ∷ "context deadline exceeded" ∷ "eof" ∷ []

abbrev pub infrastructure_codes : List String
infrastructure_codes = "5.7.0" ∷ "5.7.8" ∷ "5.7.9" ∷ []

abbrev pub infrastructure_patterns : List String
infrastructure_patterns =
    "authentication failed" ∷ "authentication credentials" ∷ "auth failed" ∷ "invalid credentials"
    ∷ "username and password not accepted" ∷ "relay access denied" ∷ "relaying denied"
    ∷ "relay denied" ∷ "not authorized to send" ∷ "sender address rejected" ∷ "blacklisted"
    ∷ "blocklisted" ∷ "certificate" ∷ "x509" ∷ "tls" ∷ "ssl" ∷ "unable to look up host"
    ∷ "no such host" ∷ "dns" ∷ "connection closed by remote host" ∷ []

unfoldable pub contains_any : Text → List String → Bool
contains_any s patterns = any (λ p. has_substring s (codes p)) patterns

unfoldable pub is_infrastructure : Patterns → Text → Bool
is_infrastructure p text =
    contains_any text infrastructure_patterns || p.has_code infrastructure_codes text

-- `reply, code` of `ClassifyError`.
unfoldable pub reply_of : Patterns → Text → Text × Text
reply_of p text = elim (p.reply_code text) [
  | none ↦ (text, [])
  | some (code, reply) ↦ (reply, code)
]

unfoldable pub is_transient : Patterns → Text × Text → Bool
is_transient p (reply, code) =
    has_prefix code (codes "4")
    || p.has_transient_code reply
    || contains_any reply transient_patterns

unfoldable pub is_hard_bounce : Patterns → Text → Bool
is_hard_bounce p reply =
    p.has_code recipient_hard_bounce_codes reply
    || contains_any reply recipient_hard_bounce_patterns

abbrev pub verdict : EventType → Bool → Bool → Classification
verdict event_type at_fault retryable = record {
  event_type = event_type;
  recipient_at_fault = at_fault;
  retryable = retryable;
}

-- The tests from the unsubscription on.
unfoldable pub classify_reply : Patterns → Text → Classification
classify_reply p reply =
    if contains_any reply unsubscribe_patterns
    then verdict unsubscribed true false
    else if contains_any reply complaint_patterns
    then verdict spam_report true false
    else if contains_any reply content_rejection_patterns
    then verdict rejected false false
    else if is_hard_bounce p reply
    then verdict hard_bounce true false
    else verdict bounced false true

unfoldable pub classify_text : Patterns → Text → Classification
classify_text p text =
    if is_infrastructure p text
    then verdict rejected false true
    else if is_transient p (reply_of p text)
    then verdict soft_bounce false true
    else classify_reply p (reply_of p text).0

unfoldable pub classify_error : Patterns → Text → Classification
classify_error p err =
    if err == []
    then verdict unspecified false false
    else classify_text p (p.without_addresses (to_lower err))
