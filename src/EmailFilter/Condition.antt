-- ===== src/EmailFilter/Condition.antt =====
-- internal/emailfilter/condition.go: one test of a message.
--
-- The regular expressions of Go's `regexp` are an argument: a type of compiled patterns, `compile`
-- and `search`.
pub mod Domain
pub mod Valid
use panmail.Base.{
  ◌==◌ as nat_eq, [], false, if◌then◌else◌, none, some, true, ◌∷◌, Bool, List, Option, ℕ, any,
  length, map, ◌||◌, ltb,
}
use panmail.EmailFilter.{
  Message, recipients, extension, largest_attachment, total_attachment_size, is_executable, header,
}
use panmail.Base.Text.{
  Text, to_lower, trim, trim_space, ◌==◌, has_substring, has_suffix, after_last,
}
use panmail.Base.Int.{ℤ, leb_ℤ, pos}

pub data Field : Type 0 where
  from to cc bcc any_recipient : Field
  subject body subject_or_body header_field : Field
  attachment_name attachment_extension attachment_text : Field
  attachment_count attachment_size total_attachment message_size recipient_count : Field
  has_attachment has_executable_attachment provider spf dkim dmarc : Field
  other_field : Text → Field

pub data Operator : Type 0 where
  contains matches_pattern equals domain_is is_in at_least is_true exists : Operator
  other_operator : Text → Operator

pub data FieldKind : Type 0 where
  address_kind text_kind header_kind number_kind bool_kind enum_kind : FieldKind

-- `fieldKinds`
unfoldable pub field_kind : Field → Option FieldKind
field_kind from = some address_kind
field_kind to = some address_kind
field_kind cc = some address_kind
field_kind bcc = some address_kind
field_kind any_recipient = some address_kind
field_kind subject = some text_kind
field_kind body = some text_kind
field_kind subject_or_body = some text_kind
field_kind attachment_name = some text_kind
field_kind attachment_extension = some text_kind
field_kind attachment_text = some text_kind
field_kind header_field = some header_kind
field_kind attachment_count = some number_kind
field_kind attachment_size = some number_kind
field_kind total_attachment = some number_kind
field_kind message_size = some number_kind
field_kind recipient_count = some number_kind
field_kind has_attachment = some bool_kind
field_kind has_executable_attachment = some bool_kind
field_kind provider = some enum_kind
field_kind spf = some enum_kind
field_kind dkim = some enum_kind
field_kind dmarc = some enum_kind
field_kind (other_field t) = none

-- `allowedOperators`
unfoldable pub is_allowed : FieldKind → Operator → Bool
is_allowed address_kind contains = true
is_allowed address_kind matches_pattern = true
is_allowed address_kind equals = true
is_allowed address_kind domain_is = true
is_allowed text_kind contains = true
is_allowed text_kind matches_pattern = true
is_allowed text_kind equals = true
is_allowed text_kind is_in = true
is_allowed header_kind contains = true
is_allowed header_kind matches_pattern = true
is_allowed header_kind equals = true
is_allowed header_kind exists = true
is_allowed number_kind at_least = true
is_allowed bool_kind is_true = true
is_allowed enum_kind equals = true
is_allowed enum_kind is_in = true
is_allowed _ _ = false

unfoldable pub is_inbound_only : Field → Bool
is_inbound_only spf = true
is_inbound_only dkim = true
is_inbound_only dmarc = true
is_inbound_only _ = false

unfoldable pub is_outbound_only : Field → Bool
is_outbound_only provider = true
is_outbound_only _ = false

pub record Condition (Pattern : Type 0) : Type 0 where
  pub field : Field
  pub operator : Operator
  pub values : List Text
  pub header_name : Text
  pub number : ℤ
  pub compiled : List Pattern

abbrev pub is_domain_char : ℕ → Bool
is_domain_char c = nat_eq c 62 || nat_eq c 32

unfoldable pub domain_matches : Text → Text → Bool
domain_matches address domain = elim (after_last 64 address) [
  | none ↦ false
  | some rest ↦
      let host = trim is_domain_char rest in host == domain || has_suffix host (46 ∷ domain)
]

-- The `switch` of `anyValueMatches` on one value that is not blank.
unfoldable pub compare_value : Operator → Text → Text → Bool
compare_value contains lowered wanted = has_substring lowered wanted
compare_value equals lowered wanted = lowered == wanted
compare_value is_in lowered wanted = lowered == wanted
compare_value domain_is lowered wanted = domain_matches lowered wanted
compare_value _ lowered wanted = false

unfoldable pub value_matches : Operator → Text → Text → Bool
value_matches op lowered value =
    let wanted = to_lower (trim_space value) in
    if wanted == [] then false else compare_value op lowered wanted

unfoldable pub is_pattern : Operator → Bool
is_pattern matches_pattern = true
is_pattern _ = false

abbrev pub is_exists : Operator → Bool
is_exists exists = true
is_exists _ = false

module _ {Pattern : Type 0} (search : Pattern → Text → Bool) where
  unfoldable pub subject_matches : Condition Pattern → Text → Bool
  subject_matches c tested =
      if tested == []
      then false
      else if is_pattern c.operator
      then any (λ p. search p tested) c.compiled
      else any (value_matches c.operator (to_lower tested)) c.values

  unfoldable pub any_value_matches : Condition Pattern → List Text → Bool
  any_value_matches c subjects = any (subject_matches c) subjects

unfoldable pub number_of : Field → Message → ℕ
number_of attachment_count m = length m.attachments
number_of attachment_size m = largest_attachment m
number_of total_attachment m = total_attachment_size m.attachments
number_of message_size m = m.size
number_of recipient_count m = length (recipients m)
number_of _ m = 0

unfoldable pub subjects_of : Field → Message → List Text
subjects_of from m = m.from ∷ []
subjects_of to m = m.to
subjects_of cc m = m.cc
subjects_of bcc m = m.bcc
subjects_of any_recipient m = recipients m
subjects_of subject m = m.subject ∷ []
subjects_of body m = m.html ∷ m.text ∷ []
subjects_of subject_or_body m = m.subject ∷ m.html ∷ m.text ∷ []
subjects_of attachment_name m = map (λ a. a.filename) m.attachments
subjects_of attachment_extension m = map extension m.attachments
subjects_of attachment_text m = map (λ a. a.text) m.attachments
subjects_of provider m = m.provider_id ∷ []
subjects_of spf m = m.spf ∷ []
subjects_of dkim m = m.dkim ∷ []
subjects_of dmarc m = m.dmarc ∷ []
subjects_of _ m = []

-- The part of `Matches` that depends on the kind of the field.
module _ {Pattern : Type 0} (search : Pattern → Text → Bool) where
  unfoldable pub kind_matches : Option FieldKind → Condition Pattern → Message → Bool
  kind_matches (some number_kind) c m = leb_ℤ c.number (pos (number_of c.field m))
  kind_matches (some header_kind) c m =
      let values = header m c.header_name in
      if is_exists c.operator then ltb 0 (length values) else any_value_matches search c values
  kind_matches _ c m = any_value_matches search c (subjects_of c.field m)

  unfoldable pub matches : Condition Pattern → Message → Bool
  matches c m = elim c.field [
    | has_attachment ↦ ltb 0 (length m.attachments)
    | has_executable_attachment ↦ any is_executable m.attachments
    | _ ↦ kind_matches (field_kind c.field) c m
  ]
