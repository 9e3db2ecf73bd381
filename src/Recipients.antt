-- ===== src/Recipients.antt =====
-- internal/email/usecases/recipients.go: the addresses of a message, once each.
--
-- Go's `map[string]struct{}` of the addresses seen is a list of them. The address parser of the
-- gsmail library is an argument: the addr-spec of an address, or none where it does not parse.
pub mod Distinct
pub mod Agree
mod Examples
use panmail.Base.{[], none, some, ◌∷◌, Option, List, if◌then◌else◌, ◌++◌, ◌||◌, inl, inr, ◌⊎◌}
use panmail.Base.Text.{Text, to_lower, trim_space, ◌==◌, holds}

-- The lower-cased form under which an address is seen.
abbrev pub lowered : Text → Text
lowered address = to_lower (trim_space address)

-- The loops of `uniqueRecipients`, the three lists one after another, with `seen` and `out`.
unfoldable pub unique_from : List Text → List Text → List Text → List Text
unique_from seen out [] = out
unique_from seen out (address ∷ rest) =
    let key = lowered address in
    let skip = key == [] || holds seen key in
    unique_from (if skip then seen else key ∷ seen) (if skip then out else out ++ key ∷ []) rest

unfoldable pub unique_recipients : List Text → List Text → List Text → List Text
unique_recipients to cc bcc = unique_from [] [] (to ++ cc ++ bcc)

-- `parsed` is the address that the parser returned, which may be nil.
unfoldable pub key_from_parsed : Text → Option Text → Text
key_from_parsed key none = key
key_from_parsed key (some address) = lowered address

pub record ResolvedRecipients : Type 0 where
  pub addresses : List Text
  pub normalised : List Text

pub data Resolved : Type 0 where
  empty_recipient : Resolved
  invalid_recipient : Text → Resolved
  resolved : ResolvedRecipients → Resolved

-- A recipient not seen before.
unfoldable pub add : Text → Option Text → ResolvedRecipients → ResolvedRecipients
add key parsed r = record {
  addresses = r.addresses ++ key ∷ [];
  normalised = r.normalised ++ key_from_parsed key parsed ∷ [];
}

module _ (parse : Text → Option (Option Text)) where
  -- What `parse` makes of an address that is not blank.
  unfoldable pub check_address : Text → Resolved ⊎ Option Text
  check_address address =
      if lowered address == [] then inl empty_recipient else elim (parse address) [
        | none ↦ inl (invalid_recipient address)
        | some parsed ↦ inr parsed
      ]

  -- The loops of `resolveRecipients`.
  unfoldable pub resolve_from : List Text → ResolvedRecipients → List Text → Resolved
  resolve_from seen r [] = resolved r
  resolve_from seen r (address ∷ rest) = elim (check_address address) [
    | inl refusal ↦ refusal
    | inr parsed ↦
        let key = lowered address in
        let known = holds seen key in
        resolve_from (if known then seen else key ∷ seen) (if known then r else add key parsed r)
          rest
  ]

  unfoldable pub resolve_recipients : List Text → List Text → List Text → Resolved
  resolve_recipients to cc bcc =
      resolve_from [] (record { addresses = []; normalised = [] }) (to ++ cc ++ bcc)

  unfoldable pub suppression_key_of : Text → Text
  suppression_key_of address = elim (parse address) [
    | none ↦ key_from_parsed (lowered address) none
    | some parsed ↦ key_from_parsed (lowered address) parsed
  ]
