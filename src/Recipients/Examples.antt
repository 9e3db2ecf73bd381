-- ===== src/Recipients/Examples.antt =====
-- One recipient written in two ways.
use panmail.Recipients.{
  ResolvedRecipients, resolve_recipients, lowered, resolve_from, unique_recipients, check_address,
  add, suppression_key_of, key_from_parsed, empty_recipient, resolved,
}
use panmail.Recipients.Agree.{IsCaseBlind, resolve_recipients-agrees}
use panmail.Base.{
  [], if◌then◌else◌, inl, inr, none, refl, some, ◌∷◌, ◌≡◌, Option, arith, Bool-cases, map, subst,
  sym, ap,
}
use panmail.Base.Text.{
  ◌==◌, Text, to_lower, codes, trim_space, trim, eq_of_==, trim_left, trim_right,
}

abbrev bob : Text
bob = codes "bob@x.org"

-- A parser that knows one address.
unfoldable parse_bob : Text → Option (Option Text)
parse_bob a = if lowered a == bob then some (some bob) else none

parse_bob-cases : (a p : Text) → parse_bob a ≡ some (some p) → (lowered a ≡ bob) × (p ≡ bob)
unfolding parse_bob
parse_bob-cases a p h = elim (Bool-cases (lowered a == bob)) [
  | inl e ↦ (eq_of_== (lowered a) bob e, ground arith)
  | inr e ↦ absurd (ground arith)
]

parse_bob-bob : parse_bob bob ≡ some (some bob)
unfolding parse_bob to_lower trim_space trim trim_left trim_right ◌==◌
parse_bob-bob = refl

parse_bob-IsCaseBlind : IsCaseBlind parse_bob
unfolding parse_bob
parse_bob-IsCaseBlind = record {
  never_nil = λ a e. ground arith;
  same_key = λ a p h.
      let (same, is_bob) = parse_bob-cases a p h in
      (
        bob,
        (
          subst (λ t. parse_bob t ≡ some (some bob)) (sym same) parse_bob-bob,
          ap lowered (sym is_bob),
        ),
      );
}

abbrev found : ResolvedRecipients
found = record { addresses = bob ∷ []; normalised = bob ∷ [] }

written_twice :
    resolve_recipients parse_bob (codes " Bob@X.org" ∷ []) (codes "bob@x.org " ∷ []) []
    ≡ resolved found
unfolding resolve_recipients resolve_from check_address add key_from_parsed parse_bob to_lower
    trim_space trim trim_left trim_right ◌==◌
written_twice = refl

blank_refused : resolve_recipients parse_bob (bob ∷ codes " " ∷ []) [] [] ≡ empty_recipient
unfolding resolve_recipients resolve_from check_address add key_from_parsed parse_bob to_lower
    trim_space trim trim_left trim_right ◌==◌
blank_refused = refl

resolve_recipients-agrees_example :
    (found.addresses ≡ unique_recipients (codes " Bob@X.org" ∷ []) (codes "bob@x.org " ∷ []) [])
    × (found.normalised
        ≡ map
            (suppression_key_of parse_bob)
            (unique_recipients (codes " Bob@X.org" ∷ []) (codes "bob@x.org " ∷ []) []))
resolve_recipients-agrees_example =
    resolve_recipients-agrees parse_bob (codes " Bob@X.org" ∷ []) (codes "bob@x.org " ∷ []) [] found
      parse_bob-IsCaseBlind written_twice
