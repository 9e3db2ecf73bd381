-- ===== src/Delivery/Providers.antt =====
-- Which providers a message goes to.
use panmail.Base.Text.{Text, codes}
use panmail.Delivery.{Surroundings, EmailProvider, is_receiver, Refusal, for_good, temporary}
use panmail.Base.{
  [], false, if◌then◌else◌, inl, inr, none, some, true, ◌∷◌, List, String, Bool, Option, filter,
  ◌⊎◌, not, ◌&&◌, ◌++◌,
}
use panmail.Senders.{refused, Match, by_address, allowed, by_domain, match_address, unrestricted}
use text.Mathlib.Text.{◌==◌ as string_eq}

-- The provider of a request: in the cached list, or else as it is stored.
unfoldable pub find_provider : String → List EmailProvider → Option EmailProvider
find_provider id [] = none
find_provider id (p ∷ ps) = if string_eq p.id id then some p else find_provider id ps

unfoldable pub named_provider : Surroundings → String → Option EmailProvider
named_provider s id =
    if string_eq id ""
    then none
    else elim (find_provider id (elim s.listed [ inl e ↦ [] | inr ps ↦ ps ])) [
      | some p ↦ some p
      | none ↦ s.stored
    ]

abbrev pub same_match : Match → Match → Bool
same_match by_address by_address = true
same_match by_domain by_domain = true
same_match unrestricted unrestricted = true
same_match refused refused = true
same_match _ _ = false

-- The senders among the providers that match in one way.
unfoldable pub matching : Match → Text → List EmailProvider → List EmailProvider
matching m from ps =
    filter (λ p. not (is_receiver p) && same_match m (match_address p.allowed_senders from)) ps

unfoldable pub most_specific : Text → List EmailProvider → List EmailProvider
most_specific from ps = elim (matching by_address from ps) [
  | p ∷ rest ↦ p ∷ rest
  | [] ↦ elim (matching by_domain from ps) [
    | p ∷ rest ↦ p ∷ rest
    | [] ↦ matching unrestricted from ps
  ]
]

abbrev pub some_providers : List EmailProvider → Refusal ⊎ List EmailProvider
some_providers [] = inl (temporary (codes "no email providers available for tenant"))
some_providers (p ∷ ps) = inr (p ∷ ps)

unfoldable pub choose_providers : Surroundings → Text → String → Refusal ⊎ List EmailProvider
choose_providers s from id = elim (named_provider s id) [
  | some p ↦
      if allowed (match_address p.allowed_senders from)
      then inr (p ∷ [])
      else inl (for_good (codes "provider is not authorized to send"))
  | none ↦ elim s.listed [
    | inl e ↦ inl (temporary (codes "failed to list providers: " ++ e))
    | inr ps ↦ some_providers (most_specific from ps)
  ]
]

unfoldable pub first_sender : List EmailProvider → Option EmailProvider
first_sender [] = none
first_sender (p ∷ ps) = let rest = first_sender ps in if is_receiver p then rest else some p
