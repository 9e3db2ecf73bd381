-- ===== src/Base/Text.antt =====
-- Text as a list of bytes. The program's texts are ASCII here: `to_lower` and `trim_space` are
-- those of Go's `strings` on ASCII bytes.
use Prim.Native.Char.{code}
use panmail.Base.{
  ℕ, ◌≡◌, refl, ◌↔◌, Bool, true, false, ◌&&◌, List, [], ◌∷◌, String, arith, ◌==◌ as nat_eq,
  if◌then◌else◌, inl, inr, none, some, Option, leb, map, ◌++◌, ◌||◌, sym, ◌+◌, Bool-cases, ap, any,
}

abbrev pub Text : Type 0
Text = List ℕ

-- The code points of a literal.
abbrev pub codes : String → Text
codes String.[] = []
codes (String.◌∷◌ c s) = code c ∷ codes s

infix 50 ◌==◌
unfoldable pub ◌==◌ : Text → Text → Bool
[] == [] = true
[] == (c ∷ s) = false
(b ∷ r) == [] = false
(b ∷ r) == (c ∷ s) = nat_eq b c && r == s

pub eq_of_== : (s t : Text) → (s == t) ≡ true → s ≡ t
unfolding ◌==◌
eq_of_== [] [] h = refl
eq_of_== [] (c ∷ t) h = ground arith
eq_of_== (b ∷ s) [] h = ground arith
eq_of_== (b ∷ s) (c ∷ t) h = ground (arith, eq_of_== s t)

pub ==_refl : (s : Text) → (s == s) ≡ true
unfolding ◌==◌
==_refl [] = refl
==_refl (b ∷ s) = ground (arith, ==_refl s)

pub ==_iff : (s t : Text) → ((s == t) ≡ true) ↔ (s ≡ t)
==_iff s t = (eq_of_== s t, λ e. rw e (==_refl t))

abbrev pub holds : List Text → Text → Bool
holds xs t = any (λ x. x == t) xs

-- `strings.ToLower` on one byte and on a text.
abbrev pub lower_byte : ℕ → ℕ
lower_byte c = if leb 65 c && leb c 90 then c + 32 else c

unfoldable pub to_lower : Text → Text
to_lower s = map lower_byte s

-- A tab, newline, vertical tab, form feed, carriage return or space.
abbrev pub is_space : ℕ → Bool
is_space c = leb 9 c && leb c 13 || nat_eq c 32

-- Without the bytes at the front, or at the end, that pass the test.
unfoldable pub trim_left : (ℕ → Bool) → Text → Text
trim_left p [] = []
trim_left p (c ∷ s) = let rest = trim_left p s in if p c then rest else c ∷ s

unfoldable pub trim_right : (ℕ → Bool) → Text → Text
trim_right p [] = []
trim_right p (c ∷ s) = let rest = trim_right p s in if rest == [] && p c then [] else c ∷ rest

unfoldable pub trim : (ℕ → Bool) → Text → Text
trim p s = trim_right p (trim_left p s)

unfoldable pub trim_space : Text → Text
trim_space s = trim is_space s

unfoldable pub has_prefix : Text → Text → Bool
has_prefix s [] = true
has_prefix [] (c ∷ p) = false
has_prefix (b ∷ s) (c ∷ p) = nat_eq b c && has_prefix s p

unfoldable pub has_substring : Text → Text → Bool
has_substring [] t = t == []
has_substring (c ∷ s) t = has_prefix (c ∷ s) t || has_substring s t

unfoldable pub has_suffix : Text → Text → Bool
has_suffix [] t = t == []
has_suffix (c ∷ s) t = (c ∷ s) == t || has_suffix s t

-- What follows the last occurrence of a byte.
unfoldable pub after_last : ℕ → Text → Option Text
after_last b [] = none
after_last b (c ∷ s) = elim (after_last b s) [
  | some rest ↦ some rest
  | none ↦ if nat_eq c b then some s else none
]

pub has_suffix_sound : (s t : Text) → has_suffix s t ≡ true → (r : Text) × (s ≡ r ++ t)
unfolding has_suffix
has_suffix_sound [] t h = ([], sym (eq_of_== t [] h))
has_suffix_sound (c ∷ s) t h = elim (Bool-cases ((c ∷ s) == t)) [
  | inl e ↦ ([], eq_of_== (c ∷ s) t e)
  | inr e ↦ let (r, q) = has_suffix_sound s t (ground arith) in (c ∷ r, ap (λ u. c ∷ u) q)
]

pub has_suffix-append : (r t : Text) → has_suffix (r ++ t) t ≡ true
unfolding has_suffix
has_suffix-append [] [] = ==_refl []
has_suffix-append [] (c ∷ t) = ground (arith, ==_refl (c ∷ t))
has_suffix-append (c ∷ r) t = ground (arith, has_suffix-append r t)

pub holds-append : (xs ys : List Text) (t : Text) → holds (xs ++ ys) t ≡ (holds xs t || holds ys t)
holds-append [] ys t = refl
holds-append (x ∷ xs) ys t = ground (arith, holds-append xs ys t)
