-- ===== src/Recipients/Distinct.antt =====
-- The unique recipients of a message are distinct.
use panmail.Recipients.{unique_from, unique_recipients, lowered}
use panmail.Base.{
  [], if◌then◌else◌, inl, inr, ◌∷◌, List, ℕ, ◌++◌, ◌≤◌, arith, ◌+◌, ◌≡◌, Bool-cases, ◌||◌,
}
use panmail.Base.Text.{◌==◌, Text, holds, eq_of_==}

-- How often a recipient stands in a list.
unfoldable pub occurrences : Text → List Text → ℕ
occurrences r [] = 0
occurrences r (x ∷ xs) = (if x == r then 1 else 0) + occurrences r xs

occurrences-append :
    (q : Text) (xs ys : List Text) → occurrences q (xs ++ ys) ≡ occurrences q xs + occurrences q ys
unfolding occurrences
occurrences-append q [] ys = omega arith
occurrences-append q (x ∷ xs) ys = omega (arith, occurrences-append q xs ys)

unique_from-distinct :
    (seen out rest : List Text)
    → ((q : Text) → occurrences q out ≤ (if holds seen q then 1 else 0))
    → (q : Text) → occurrences q (unique_from seen out rest) ≤ 1
unfolding unique_from occurrences
unique_from-distinct seen out [] h q = ground (arith, h q)
unique_from-distinct seen out (a ∷ rest) h q =
    let key = lowered a in
    elim (Bool-cases (key == [] || holds seen key)) [
      | inl e ↦ rw e (unique_from-distinct seen out rest h q)
      | inr e ↦ rw e (
          unique_from-distinct (key ∷ seen) (out ++ key ∷ []) rest
            (λ t. ground (arith, h t, h key, occurrences-append t out (key ∷ []), eq_of_== key t))
            q)
    ]

pub unique_recipients-distinct :
    (to cc bcc : List Text) (q : Text) → occurrences q (unique_recipients to cc bcc) ≤ 1
unfolding unique_recipients occurrences
unique_recipients-distinct to cc bcc q =
    unique_from-distinct [] [] (to ++ cc ++ bcc) (λ t. ground arith) q
