-- ===== src/Senders/Examples.antt =====
-- A provider for one domain.
use panmail.Senders.Precedence.{match_address-exact}
use panmail.Senders.{
  match_address, normalize, match_from, normalize_from, canonical, normalize_entry, canonical_from,
  expand_entry, canonical_entry, check_entry, by_address, check_parts, domain, local_part,
  addr_spec, by_domain, refused,
}
use panmail.Base.{[], if◌then◌else◌, inr, none, refl, true, ◌∷◌, List, Bool, Option, ◌≡◌, map, ◌++◌}
use panmail.Base.Text.{
  ◌==◌, Text, to_lower, codes, holds, trim_space, trim, trim_left, trim_right, has_prefix,
  has_substring, after_last,
}

abbrev acme : List Text
acme = codes " Acme.org " ∷ codes "ceo@acme.org" ∷ []

-- A parser that takes no display names.
abbrev plain : Text → Option Text
plain a = none

abbrev always : Text → Bool
always t = true

normalised :
    normalize plain always always acme ≡ inr (codes "*@acme.org" ∷ codes "ceo@acme.org" ∷ [])
unfolding normalize normalize_from normalize_entry expand_entry check_entry check_parts local_part
    domain addr_spec to_lower trim_space trim trim_left trim_right ◌==◌ has_prefix has_substring
    after_last
normalised = refl

admits_domain : match_address acme (codes "Bob@acme.org") ≡ by_domain
unfolding match_address match_from canonical canonical_from canonical_entry domain to_lower
    trim_space trim trim_left trim_right ◌==◌ has_prefix has_substring after_last
admits_domain = refl

match_address-exact_example : match_address acme (codes "ceo@acme.org") ≡ (
    if holds (map canonical_entry acme) (to_lower (codes "ceo@acme.org"))
    then by_address
    else if holds
        (map canonical_entry acme)
        (codes "*@" ++ domain (to_lower (codes "ceo@acme.org")))
    then by_domain
    else refused)
unfolding ◌==◌ to_lower
match_address-exact_example =
    match_address-exact (codes " Acme.org ") (codes "ceo@acme.org" ∷ []) (codes "ceo@acme.org") refl
