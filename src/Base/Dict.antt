-- ===== src/Base/Dict.antt =====
-- Go's `map[string]V` as an association list: a lookup finds the first entry of a key, a write
-- replaces it or adds one at the end, a delete removes every entry of the key. Go's iteration order
-- is unspecified; here it is the list's.
use text.Mathlib.Text.{◌==◌}
use text.Mathlib.TextEquality.{eq_iff}
use text.Mathlib.TextPositions.{eq_refl}
use panmail.Base.{
  ◌+◌, ◌≤◌, ◌<◌, String, ◌≡◌, refl, Bool, Option, none, some, List, [], ◌∷◌, arith, if◌then◌else◌,
  length, All, Bool-cases, inl, inr, subst,
}

abbrev pub Dict {ℓ} : Type ℓ → Type ℓ
Dict V = List (String × V)

module _ {ℓ} {V : Type ℓ} where
  unfoldable pub lookup : String → Dict V → Option V
  lookup k [] = none
  lookup k ((j, v) ∷ m) = if j == k then some v else lookup k m

  unfoldable pub put : String → V → Dict V → Dict V
  put k v [] = (k, v) ∷ []
  put k v ((j, w) ∷ m) = if j == k then (k, v) ∷ m else (j, w) ∷ put k v m

  unfoldable pub delete : String → Dict V → Dict V
  delete k [] = []
  delete k ((j, v) ∷ m) = let rest = delete k m in if j == k then rest else (j, v) ∷ rest

  -- The entries whose value passes the test.
  unfoldable pub keep : (V → Bool) → Dict V → Dict V
  keep p [] = []
  keep p ((j, v) ∷ m) = let rest = keep p m in if p v then (j, v) ∷ rest else rest

  pub lookup-put :
      (k j : String) (v : V) (m : Dict V)
      → lookup j (put k v m) ≡ (if k == j then some v else lookup j m)
  unfolding lookup put
  lookup-put k j v [] = refl
  lookup-put k j v ((i, w) ∷ m) =
      ground (arith, eq_iff k j, eq_iff i k, eq_iff i j, lookup-put k j v m)

  pub lookup-delete :
      (k j : String) (m : Dict V) → lookup j (delete k m) ≡ (if k == j then none else lookup j m)
  unfolding lookup delete
  lookup-delete k j [] = ground arith
  lookup-delete k j ((i, w) ∷ m) =
      ground (arith, eq_iff k j, eq_iff i k, eq_iff i j, lookup-delete k j m)

  pub length-put-le : (k : String) (v : V) (m : Dict V) → length (put k v m) ≤ length m + 1
  unfolding put
  length-put-le k v [] = omega arith
  length-put-le k v ((j, w) ∷ m) = ground (arith, length-put-le k v m)

  pub length-put_old :
      (k : String) (v : V) {w : V} (m : Dict V)
      → lookup k m ≡ some w
      → length (put k v m) ≡ length m
  unfolding put lookup
  length-put_old k v {w} [] h = ground arith
  length-put_old k v {w} ((j, u) ∷ m) h = ground (arith, length-put_old k v {w = w} m)

  pub length-delete-le : (k : String) (m : Dict V) → length (delete k m) ≤ length m
  unfolding delete
  length-delete-le k [] = omega arith
  length-delete-le k ((j, v) ∷ m) = ground (arith, length-delete-le k m)

  pub length-delete-lt :
      (k : String) {v : V} (m : Dict V) → lookup k m ≡ some v → length (delete k m) < length m
  unfolding delete lookup
  length-delete-lt k {v} [] h = ground arith
  length-delete-lt k {v} ((j, w) ∷ m) h =
      ground (arith, length-delete-lt k {v = v} m, length-delete-le k m)

  pub length-keep-le : (p : V → Bool) (m : Dict V) → length (keep p m) ≤ length m
  unfolding keep
  length-keep-le p [] = omega arith
  length-keep-le p ((j, v) ∷ m) = ground (arith, length-keep-le p m)

-- A predicate of every value.
abbrev pub Values {ℓ κ} : {V : Type ℓ} → (V → Type κ) → Dict V → Type κ
Values P m = All (λ e. P e.1) m

module _ {ℓ κ} {V : Type ℓ} (P : V → Type κ) where
  pub Values-put : (k : String) (v : V) (m : Dict V) → Values P m → P v → Values P (put k v m)
  unfolding put
  Values-put k v [] h p = (p, tt)
  Values-put k v ((j, w) ∷ m) h p = elim (Bool-cases (j == k)) [
    | inl e ↦ rw e (p, h.1)
    | inr e ↦ rw e (h.0, Values-put k v m h.1 p)
  ]

  pub Values-delete : (k : String) (m : Dict V) → Values P m → Values P (delete k m)
  unfolding delete
  Values-delete k [] h = tt
  Values-delete k ((j, w) ∷ m) h = elim (Bool-cases (j == k)) [
    | inl e ↦ rw e (Values-delete k m h.1)
    | inr e ↦ rw e (h.0, Values-delete k m h.1)
  ]

  pub Values-keep : (p : V → Bool) (m : Dict V) → Values P m → Values P (keep p m)
  unfolding keep
  Values-keep p [] h = tt
  Values-keep p ((j, w) ∷ m) h = elim (Bool-cases (p w)) [
    | inl e ↦ rw e (h.0, Values-keep p m h.1)
    | inr e ↦ rw e (Values-keep p m h.1)
  ]

  pub Values-lookup : (k : String) {v : V} (m : Dict V) → Values P m → lookup k m ≡ some v → P v
  unfolding lookup
  Values-lookup k [] h e = absurd (ground arith)
  Values-lookup k {v} ((j, w) ∷ m) h e = elim (Bool-cases (j == k)) [
    | inl q ↦ subst P (ground arith) h.0
    | inr q ↦ Values-lookup k m h.1 (ground arith)
  ]

pub ruleset dict_laws = (lookup-put, lookup-delete, eq_refl)
