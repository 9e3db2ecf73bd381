-- ===== src/Admission/Checks.antt =====
-- The checks of a request that need nothing but the request, with attachments.go and
-- reply_headers.go of internal/email/usecases.
use panmail.Admission.{
  Attachment, Gateway, Provider, Refusal, SendEmailRequest, bad_attachments, bad_from,
  bad_idempotency_key, bad_recipient, bad_reply_header, invalid_provider, invalid_tenant, no_from,
  no_provider, no_recipient, no_tenant, provider_unreadable, unknown_provider,
}
use panmail.Base.Text.{Text, codes, ◌==◌ as text_eq}
use panmail.Base.{
  ◌==◌ as nat_eq, Bool, List, Option, String, [], all, false, if◌then◌else◌, inl, inr, leb, length,
  ltb, none, not, some, true, ℕ, ◌&&◌, ◌+◌, ◌∷◌, ◌||◌, ◌⊎◌,
}
use panmail.Idempotency.{validate_idempotency_key}
use panmail.Recipients.{
  ResolvedRecipients, empty_recipient, invalid_recipient, resolve_recipients, resolved,
}
use text.Mathlib.Text.{◌==◌}

abbrev pub max_attachment_bytes : ℕ
max_attachment_bytes = 26214400

abbrev pub max_attachments : ℕ
max_attachments = 100

abbrev pub max_message_id_length : ℕ
max_message_id_length = 255

abbrev pub max_references : ℕ
max_references = 100

-- Printable, and no space or angle bracket.
abbrev pub is_token_byte : ℕ → Bool
is_token_byte c = ltb 32 c && leb c 126 && not (nat_eq c 60) && not (nat_eq c 62)

-- `contentIDProblem` finds none.
unfoldable pub is_content_id : Text → Bool
is_content_id id =
    if text_eq id [] then true else leb (length id) max_message_id_length && all is_token_byte id

-- The loop of `validateAttachments` with its `total`.
unfoldable pub attachments_fit : ℕ → List Attachment → Bool
attachments_fit total [] = true
attachments_fit total (a ∷ rest) =
    let after = attachments_fit (total + length a.content) rest in
    if not (is_content_id a.content_id)
    then false
    else if ltb max_attachment_bytes (total + length a.content)
    then false
    else after

unfoldable pub validate_attachments : List Attachment → Bool
validate_attachments attachments =
    leb (length attachments) max_attachments && attachments_fit 0 attachments

-- All but the first byte, and all but the last.
unfoldable pub tail : Text → Text
tail [] = []
tail (c ∷ s) = s

unfoldable pub but_last : Text → Text
but_last [] = []
but_last (c ∷ []) = []
but_last (c ∷ d ∷ s) = c ∷ but_last (d ∷ s)

unfoldable pub starts_with : ℕ → Text → Bool
starts_with c [] = false
starts_with c (d ∷ s) = nat_eq d c

unfoldable pub ends_with : ℕ → Text → Bool
ends_with c [] = false
ends_with c (d ∷ []) = nat_eq d c
ends_with c (d ∷ e ∷ s) = ends_with c (e ∷ s)

-- What follows the first such byte.
unfoldable pub after_first : ℕ → Text → Option Text
after_first c [] = none
after_first c (d ∷ s) = let rest = after_first c s in if nat_eq d c then some s else rest

-- `strings.IndexByte(inner, '@')` is above zero and below the last index.
unfoldable pub has_two_sides : Text → Bool
has_two_sides inner = elim (after_first 64 inner) [
  | none ↦ false
  | some rest ↦ not (starts_with 64 inner) && not (text_eq rest [])
]

-- `messageIDProblem` finds none.
unfoldable pub is_message_id : Text → Bool
is_message_id id =
    leb (length id) max_message_id_length
    && leb 5 (length id)
    && starts_with 60 id
    && ends_with 62 id
    && all is_token_byte (but_last (tail id))
    && has_two_sides (but_last (tail id))

module _ (parse : Text → Option (Option Text)) where
  unfoldable pub parses : Text → Bool
  parses address = elim (parse address) [ none ↦ false | some parsed ↦ true ]

  unfoldable pub validate_reply_headers : SendEmailRequest → Bool
  validate_reply_headers r =
      (text_eq r.reply_to [] || parses r.reply_to)
      && (text_eq r.disposition_notification_to [] || parses r.disposition_notification_to)
      && (text_eq r.in_reply_to [] || is_message_id r.in_reply_to)
      && leb (length r.references) max_references
      && all is_message_id r.references

-- The first of the checks that does not hold.
unfoldable pub first_fault : List (Bool × Refusal) → Option Refusal
first_fault [] = none
first_fault ((holds, fault) ∷ rest) =
    let after = first_fault rest in if holds then after else some fault

abbrev pub nil_uuid : String
nil_uuid = "00000000-0000-0000-0000-000000000000"

unfoldable pub find_provider : String → List Provider → Option Provider
find_provider id [] = none
find_provider id (p ∷ ps) =
    let rest = find_provider id ps in if p.account.id == id then some p else rest

module _ {Pattern : Type 0} (g : Gateway Pattern) (tenant_id : String) (r : SendEmailRequest) where
  unfoldable pub key_fault : Option Refusal
  key_fault = elim (validate_idempotency_key (codes r.idempotency_key)) [
    | some fault ↦ some (bad_idempotency_key fault)
    | none ↦ if parses g.parse r.from then none else some bad_from
  ]

  unfoldable pub early_fault : Option Refusal
  early_fault =
      elim (first_fault (
        (not (tenant_id == ""), no_tenant)
        ∷ (g.is_uuid tenant_id, invalid_tenant)
        ∷ (not (tenant_id == nil_uuid), invalid_tenant)
        ∷ (not (text_eq r.from []), no_from)
        ∷ (not (r.provider_id == ""), no_provider)
        ∷ (g.is_uuid r.provider_id, invalid_provider)
        ∷ (not (r.provider_id == nil_uuid), invalid_provider)
        ∷ (ltb 0 (length r.to), no_recipient)
        ∷ [])) [ some fault ↦ some fault | none ↦ key_fault ]

  unfoldable pub late_fault : Option Refusal
  late_fault = first_fault (
      (validate_attachments r.attachments, bad_attachments)
      ∷ (validate_reply_headers g.parse r, bad_reply_header)
      ∷ [])

  -- `getProvider`: in the cached list, or as it is stored.
  unfoldable pub get_provider : Option (Option Provider)
  get_provider = elim (find_provider r.provider_id (elim g.listed [ none ↦ [] | some ps ↦ ps ])) [
    | some p ↦ some (some p)
    | none ↦ g.stored
  ]

  unfoldable pub check_provider : ResolvedRecipients → Refusal ⊎ (ResolvedRecipients × Provider)
  check_provider rs = elim get_provider [
    | none ↦ inl provider_unreadable
    | some found ↦ elim found [ none ↦ inl unknown_provider | some p ↦ inr (rs, p) ]
  ]

  -- `SendEmail` up to the provider.
  unfoldable pub check_request : Refusal ⊎ (ResolvedRecipients × Provider)
  check_request = elim early_fault [
    | some fault ↦ inl fault
    | none ↦ elim (resolve_recipients g.parse r.to r.cc r.bcc) [
      | empty_recipient ↦ inl bad_recipient
      | invalid_recipient address ↦ inl bad_recipient
      | resolved rs ↦ elim late_fault [ some fault ↦ inl fault | none ↦ check_provider rs ]
    ]
  ]
