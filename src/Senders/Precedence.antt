-- ===== src/Senders/Precedence.antt =====
-- Which entry decides about a sender.
use panmail.Senders.{
  canonical_from, match_address, match_from, Match, canonical, canonical_entry, by_address,
  by_domain, domain, refused,
}
use panmail.Base.{
  [], if◌then◌else◌, refl, ◌∷◌, List, ◌≡◌, ◌||◌, map, not, arith, ◌&&◌, ◌++◌, false, inl, inr,
  Bool-cases,
}
use panmail.Base.Text.{==_iff, ◌==◌, Text, holds, to_lower, codes, holds-append}

match_from-holds :
    (found : Match) (a d : Text) (es : List Text)
    → match_from found a d es
      ≡ (if holds es a then by_address else if holds es d then by_domain else found)
unfolding match_from
match_from-holds found a d [] = refl
match_from-holds found a d (e ∷ es) =
    ground (arith, match_from-holds (if e == d then by_domain else found) a d es)

canonical_from-holds :
    (seen out es : List Text) (t : Text)
    → ((s : Text) → holds seen s ≡ holds out s)
    → holds (canonical_from seen out es) t
      ≡ (holds out t || (not (t == []) && holds (map canonical_entry es) t))
unfolding canonical_from
canonical_from-holds seen out [] t same = ground arith
canonical_from-holds seen out (e ∷ es) t same =
    let c = canonical_entry e in
    elim (Bool-cases (c == [] || holds seen c)) [
      | inl q ↦ rw q (
          ground (
            arith,
            canonical_from-holds seen out es t same,
            same c,
            ==_iff c t,
            ==_iff c [],
            ==_iff t [],
          ))
      | inr q ↦ rw q (
          ground (
            arith,
            canonical_from-holds (c ∷ seen) (out ++ c ∷ []) es t
                (λ s. ground (arith, same s, holds-append out (c ∷ []) s)),
            holds-append out (c ∷ []) t,
            ==_iff c t,
            ==_iff c [],
            ==_iff t [],
          ))
    ]

-- The entry that admits a sender of a provider with entries: one of the address itself goes before
-- one of its domain, and with neither the sender is refused. Entries are compared in canonical
-- form and the sender, which is not empty, in lower case; the order of the entries does not matter.
pub match_address-exact :
    (e : Text) (entries : List Text) (sender : Text)
    → (to_lower sender == []) ≡ false
    → match_address (e ∷ entries) sender ≡ (
        if holds (map canonical_entry (e ∷ entries)) (to_lower sender)
        then by_address
        else if holds (map canonical_entry (e ∷ entries)) (codes "*@" ++ domain (to_lower sender))
        then by_domain
        else refused)
unfolding match_address canonical ◌==◌
match_address-exact e entries sender filled =
    let a = to_lower sender in
    let d = codes "*@" ++ domain a in
    rw
      (
        match_from-holds refused a d (canonical_from [] [] (e ∷ entries)),
        canonical_from-holds [] [] (e ∷ entries) a (λ s. refl),
        canonical_from-holds [] [] (e ∷ entries) d (λ s. refl),
        filled,
      )
      refl
