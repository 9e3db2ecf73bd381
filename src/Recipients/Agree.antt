-- ===== src/Recipients/Agree.antt =====
-- Admission and delivery agree on whom a message is for, and on the keys of its suppressions.
use mathlib.Core.List.{map-append}
use panmail.Recipients.{
  check_address, resolve_from, suppression_key_of, key_from_parsed, unique_from, lowered,
  ResolvedRecipients, resolved, add, resolve_recipients, unique_recipients,
}
use panmail.Base.Text.{◌==◌, Text, holds}
use panmail.Base.{
  [], inl, inr, none, some, ◌∷◌, Option, ◌≢◌, ◌≡◌, List, arith, map, Bool-cases, Option-cases, refl,
  ◌++◌, subst,
}

-- The parser returns no nil address without an error, and it takes the lower-cased form of an
-- address that it accepts too, with the same addr-spec up to case.
pub record IsCaseBlind (parse : Text → Option (Option Text)) : Type 0 where
  pub never_nil : (a : Text) → parse a ≢ some none
  pub same_key :
      (a p : Text)
      → parse a ≡ some (some p)
      → (q : Text) × ((parse (lowered a) ≡ some (some q)) × (lowered q ≡ lowered p))

module _ (parse : Text → Option (Option Text)) (blind : IsCaseBlind parse) where
  same_suppression_key :
      (a : Text) (parsed : Option Text)
      → parse a ≡ some parsed
      → suppression_key_of parse (lowered a) ≡ key_from_parsed (lowered a) parsed
  unfolding suppression_key_of key_from_parsed
  same_suppression_key a none h = absurd (blind.never_nil a h)
  same_suppression_key a (some p) h =
      let (q, (e, k)) = blind.same_key a p h in rw (suppression_key_of, e) k

  keys-add :
      (a : Text) (parsed : Option Text) (r : ResolvedRecipients)
      → parse a ≡ some parsed
      → r.normalised ≡ map (suppression_key_of parse) r.addresses
      → (add (lowered a) parsed r).normalised
        ≡ map (suppression_key_of parse) (add (lowered a) parsed r).addresses
  unfolding add
  keys-add a parsed r q k = ground (
    arith,
    map-append (suppression_key_of parse) r.addresses (lowered a ∷ []),
    same_suppression_key a parsed q,
  )

  agrees_from :
      (seen : List Text) (r found : ResolvedRecipients) (rest : List Text)
      → r.normalised ≡ map (suppression_key_of parse) r.addresses
      → resolve_from parse seen r rest ≡ resolved found
      → (found.addresses ≡ unique_from seen r.addresses rest)
        × (found.normalised ≡ map (suppression_key_of parse) found.addresses)
  unfolding resolve_from unique_from check_address add
  agrees_from seen r found [] k h = ground arith
  agrees_from seen r found (a ∷ rest) k h = elim (Bool-cases (lowered a == [])) [
    | inl e ↦ absurd (ground arith)
    | inr e ↦ elim (Option-cases (parse a)) [
      | inl q ↦ absurd (ground arith)
      | inr (parsed, q) ↦ elim (Bool-cases (holds seen (lowered a))) [
        | inl s ↦ ground (arith, agrees_from seen r found rest k)
        | inr s ↦ ground (
          arith,
          agrees_from (lowered a ∷ seen) (add (lowered a) parsed r) found rest
              (keys-add a parsed r q k),
        )
      ]
    ]
  ]

-- What admission resolves is the list that delivery works from: whenever it accepts a message's
-- addresses they are the unique recipients, and it looks each of them up on the suppression list
-- under the key that delivery uses, if the parser ignores case and surrounding space.
pub resolve_recipients-agrees :
    (parse : Text → Option (Option Text)) (to cc bcc : List Text) (found : ResolvedRecipients)
    → IsCaseBlind parse
    → resolve_recipients parse to cc bcc ≡ resolved found
    → (found.addresses ≡ unique_recipients to cc bcc)
      × (found.normalised ≡ map (suppression_key_of parse) (unique_recipients to cc bcc))
unfolding resolve_recipients unique_recipients
resolve_recipients-agrees parse to cc bcc found blind h =
    let (same, keys) =
      agrees_from parse blind [] (record { addresses = []; normalised = [] }) found
        (to ++ cc ++ bcc) refl h in
    (same, subst (λ t. found.normalised ≡ map (suppression_key_of parse) t) same keys)
