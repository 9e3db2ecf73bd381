-- ===== src/EmailFilter/Condition/Domain.antt =====
-- Conditions on the domain of an address.
use panmail.Base.{inl, inr, some, true, ◌∷◌, ◌≡◌, ◌↔◌, ◌⊎◌, Option-cases, ◌++◌, arith, Bool-cases}
use panmail.EmailFilter.Condition.{domain_matches, is_domain_char}
use panmail.Base.Text.{
  Text, ◌==◌, trim, after_last, eq_of_==, ==_refl, has_suffix_sound, has_suffix-append,
}

-- The host of an address lies in a domain: it is the domain, or ends in a dot and the domain.
abbrev pub IsWithin : Text → Text → Type 0
IsWithin host domain = (host ≡ domain) ⊎ ((r : Text) × (host ≡ r ++ 46 ∷ domain))

-- An address matches a domain exactly if it has an at sign and what follows the last one, without
-- surrounding spaces and closing brackets, is the domain or a subdomain of it after a dot.
pub domain_matches_iff :
    (address domain : Text)
    → (domain_matches address domain ≡ true) ↔ (
        (rest : Text) × (after_last 64 address ≡ some rest)
        × IsWithin (trim is_domain_char rest) domain)
unfolding domain_matches
domain_matches_iff address domain = (there, back)
  where
    there :
        domain_matches address domain ≡ true
        → (rest : Text) × (after_last 64 address ≡ some rest)
          × IsWithin (trim is_domain_char rest) domain
    there h = elim (Option-cases (after_last 64 address)) [
      | inl e ↦ absurd (ground arith)
      | inr (rest, e) ↦
          let host = trim is_domain_char rest in
          elim (Bool-cases (host == domain)) [
            | inl q ↦ (rest, e, inl (eq_of_== host domain q))
            | inr q ↦ (rest, e, inr (has_suffix_sound host (46 ∷ domain) (ground arith)))
          ]
    ]

    back :
        ((rest : Text) × (after_last 64 address ≡ some rest)
          × IsWithin (trim is_domain_char rest) domain)
        → domain_matches address domain ≡ true
    back (rest, e, inl q) = ground (arith, ==_refl domain)
    back (rest, e, inr (r, q)) = ground (arith, has_suffix-append r (46 ∷ domain))
