-- ===== src/Senders.antt =====
-- internal/email_provider/senders/senders.go: the senders that a provider may be used by.
--
-- An entry is `name@domain`, or `*@domain` for a whole domain. The address parser of the gsmail
-- library and the two regular expressions are arguments: the addr-spec of an address, or none
-- where it does not parse or the parser returns nil.
pub mod Precedence
mod Examples
use panmail.Base.Text.{
  ◌==◌, Text, after_last, has_substring, holds, to_lower, codes, trim_space, has_prefix, trim,
}
use panmail.Base.{
  ◌==◌ as nat_eq, [], false, if◌then◌else◌, inl, inr, none, some, true, ◌∷◌, Bool, List, ℕ, Option,
  ◌||◌, not, ◌++◌, ◌⊎◌, ◌&&◌,
}

pub data Match : Type 0 where
  refused unrestricted by_domain by_address : Match

unfoldable pub allowed : Match → Bool
allowed refused = false
allowed unrestricted = true
allowed by_domain = true
allowed by_address = true

-- The byte of "@", and that of the wildcard.
abbrev pub at_sign : ℕ
at_sign = 64

abbrev pub star : ℕ
star = 42

-- What follows the last "@", or the whole text.
unfoldable pub domain : Text → Text
domain address = elim (after_last at_sign address) [ some rest ↦ rest | none ↦ address ]

-- One round of the loop of `Canonical`, before it looks at `seen`.
unfoldable pub canonical_entry : Text → Text
canonical_entry raw =
    let s = to_lower (trim_space raw) in
    if s == [] || has_substring s (codes "@") then s else codes "*@" ++ trim (λ c. nat_eq c 46) s

unfoldable pub canonical_from : List Text → List Text → List Text → List Text
canonical_from seen out [] = out
canonical_from seen out (raw ∷ rest) =
    let s = canonical_entry raw in
    let skip = s == [] || holds seen s in
    canonical_from (if skip then seen else s ∷ seen) (if skip then out else out ++ s ∷ []) rest

unfoldable pub canonical : List Text → List Text
canonical stored = canonical_from [] [] stored

-- The loop of `MatchAddress` with its `match`.
unfoldable pub match_from : Match → Text → Text → List Text → Match
match_from found address domain_entry [] = found
match_from found address domain_entry (e ∷ rest) =
    let after =
      match_from (if e == domain_entry then by_domain else found) address domain_entry rest in
    if e == address then by_address else after

unfoldable pub match_address : List Text → Text → Match
match_address [] address = unrestricted
match_address (e ∷ entries) address =
    let lowered = to_lower address in
    match_from refused lowered (codes "*@" ++ domain lowered) (canonical (e ∷ entries))

-- `Domains`
unfoldable pub domains_from : List Text → List Text → List Text → List Text
domains_from seen out [] = out
domains_from seen out (e ∷ rest) =
    let d = domain e in
    let known = holds seen d in
    domains_from (if known then seen else d ∷ seen) (if known then out else out ++ d ∷ []) rest

unfoldable pub domains : List Text → List Text
domains entries = domains_from [] [] (canonical entries)

pub data Invalid : Type 0 where
  lone_wildcard misplaced_wildcard incomplete bad_domain bad_address : Invalid

-- What stands before the last "@".
unfoldable pub local_part : Text → Text
local_part [] = []
local_part (c ∷ s) = let rest = local_part s in if has_substring s (codes "@") then c ∷ rest else []

module _ (parse : Text → Option Text) where
  unfoldable pub addr_spec : Text → Text
  addr_spec s = elim (parse s) [ none ↦ s | some address ↦ address ]

  -- `Address`; `none` is its error.
  unfoldable pub address : Text → Option Text
  address from =
      let addr = addr_spec (trim_space from) in
      elim (after_last at_sign addr) [
        | none ↦ none
        | some d ↦ if local_part addr == [] || d == [] then none else some (to_lower addr)
      ]

  module _ (is_domain is_local : Text → Bool) where
    -- The first rewriting of an entry, with the wildcard written out, as the `switch` leaves it.
    unfoldable pub expand_entry : Text → Invalid ⊎ Text
    expand_entry s =
        if s == codes "*" || s == codes "*@" || s == codes "*@*"
        then inl lone_wildcard
        else if has_prefix s (codes "@")
        then inr (codes "*" ++ s)
        else if has_substring s (codes "@")
        then inr s
        else if has_substring s (codes "*")
        then inl misplaced_wildcard
        else inr (codes "*@" ++ s)

    unfoldable pub check_parts : Text → Text → Option Invalid
    check_parts name d =
        if name == [] || d == []
        then some incomplete
        else if (not (name == codes "*") && has_substring name (codes "*"))
            || has_substring d (codes "*")
        then some misplaced_wildcard
        else if not (is_domain d)
        then some bad_domain
        else if not (name == codes "*") && not (is_local name)
        then some bad_address
        else none

    unfoldable pub check_entry : Text → Invalid ⊎ Text
    check_entry s = elim (check_parts (local_part s) (domain s)) [
      | some fault ↦ inl fault
      | none ↦ inr (local_part s ++ codes "@" ++ domain s)
    ]

    unfoldable pub normalize_entry : Text → Invalid ⊎ Text
    normalize_entry raw =
        let s = to_lower (trim_space raw) in
        let bare = if has_substring s (codes "<") then to_lower (addr_spec s) else s in
        if s == []
        then inr []
        else elim (expand_entry bare) [ inl fault ↦ inl fault | inr entry ↦ check_entry entry ]

    unfoldable pub normalize_from : List Text → List Text → List Text → Invalid ⊎ List Text
    normalize_from seen out [] = inr out
    normalize_from seen out (raw ∷ rest) = elim (normalize_entry raw) [
      | inl fault ↦ inl fault
      | inr entry ↦
          let skip = entry == [] || holds seen entry in
          normalize_from (if skip then seen else entry ∷ seen)
            (if skip then out else out ++ entry ∷ []) rest
    ]

    unfoldable pub normalize : List Text → Invalid ⊎ List Text
    normalize entries = normalize_from [] [] entries
