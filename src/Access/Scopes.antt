-- ===== src/Access/Scopes.antt =====
-- What `NormalizeScopes` grants.
use panmail.Access.{
  normalize_from, Scope, contains, is_valid_scope, normalize_scopes, or_default, email_send,
}
use panmail.Base.{
  [], false, if◌then◌else◌, inl, inr, refl, ◌∷◌, List, Bool-cases, ◌++◌, ◌≡◌, arith, ◌&&◌, ◌||◌,
  not, true, Bool, any,
}
use text.Mathlib.Text.{◌==◌}
use text.Mathlib.TextEquality.{eq_iff}

-- No scope stands twice.
abbrev pub IsDistinct : List Scope → Type 0
IsDistinct [] = Unit
IsDistinct (s ∷ rest) = (contains rest s ≡ false) × IsDistinct rest

contains-append :
    (xs ys : List Scope) (s : Scope) → contains (xs ++ ys) s ≡ (contains xs s || contains ys s)
contains-append [] ys s = refl
contains-append (x ∷ xs) ys s = ground (arith, contains-append xs ys s)

IsDistinct-snoc :
    (xs : List Scope) (s : Scope)
    → IsDistinct xs
    → contains xs s ≡ false
    → IsDistinct (xs ++ s ∷ [])
IsDistinct-snoc [] s d h = (refl, tt)
IsDistinct-snoc (x ∷ xs) s d h = (
  ground (arith, contains-append xs (s ∷ []) x, eq_iff s x, eq_iff x s, d.0),
  IsDistinct-snoc xs s d.1 (ground arith),
)

-- The round of the loop for one scope.
abbrev added : List Scope → Scope → List Scope
added out s = if is_valid_scope s && not (contains out s) then out ++ s ∷ [] else out

contains-added :
    (out : List Scope) (s t : Scope)
    → contains (added out s) t ≡ (contains out t || (is_valid_scope t && s == t))
contains-added out s t = elim (Bool-cases (is_valid_scope s && not (contains out s))) [
  | inl e ↦ rw e (ground (arith, contains-append out (s ∷ []) t, eq_iff s t))
  | inr e ↦ rw e (ground (arith, eq_iff s t))
]

IsDistinct-added : (out : List Scope) (s : Scope) → IsDistinct out → IsDistinct (added out s)
IsDistinct-added out s d = elim (Bool-cases (is_valid_scope s && not (contains out s))) [
  | inl e ↦ rw e (IsDistinct-snoc out s d (ground arith))
  | inr e ↦ rw e d
]

IsDistinct-normalize_from :
    (out requested : List Scope) → IsDistinct out → IsDistinct (normalize_from out requested)
unfolding normalize_from
IsDistinct-normalize_from out [] d = d
IsDistinct-normalize_from out (s ∷ rest) d =
    IsDistinct-normalize_from (added out s) rest (IsDistinct-added out s d)

contains-normalize_from :
    (out requested : List Scope) (t : Scope)
    → contains (normalize_from out requested) t
      ≡ (contains out t || (is_valid_scope t && contains requested t))
unfolding normalize_from
contains-normalize_from out [] t = ground arith
contains-normalize_from out (s ∷ rest) t =
    rw (contains-normalize_from (added out s) rest t, contains-added out s t) (ground arith)

abbrev pub is_empty : List Scope → Bool
is_empty [] = true
is_empty (s ∷ rest) = false

is_empty-snoc : (xs : List Scope) (s : Scope) → is_empty (xs ++ s ∷ []) ≡ false
is_empty-snoc [] s = refl
is_empty-snoc (x ∷ xs) s = refl

is_empty-added :
    (out : List Scope) (s : Scope)
    → is_empty (added out s) ≡ (is_empty out && not (is_valid_scope s))
is_empty-added [] s = ground arith
is_empty-added (x ∷ xs) s = ground (arith, is_empty-snoc (x ∷ xs) s)

is_empty-normalize_from :
    (out requested : List Scope)
    → is_empty (normalize_from out requested) ≡ (is_empty out && not (any is_valid_scope requested))
unfolding normalize_from
is_empty-normalize_from out [] = ground arith
is_empty-normalize_from out (s ∷ rest) =
    rw (is_empty-normalize_from (added out s) rest, is_empty-added out s) (ground arith)

contains-or_default :
    (xs : List Scope) (t : Scope)
    → contains (or_default xs) t ≡ (if is_empty xs then email_send == t else contains xs t)
contains-or_default [] t = ground arith
contains-or_default (x ∷ xs) t = refl

IsDistinct-or_default : (xs : List Scope) → IsDistinct xs → IsDistinct (or_default xs)
IsDistinct-or_default [] d = (refl, tt)
IsDistinct-or_default (x ∷ xs) d = d

-- A key is granted no scope twice; and if any requested scope is known it holds exactly the known
-- scopes among those requested, otherwise only the scope for sending mail.
pub normalize_scopes_granted :
    (requested : List Scope)
    → IsDistinct (normalize_scopes requested)
      × ((t : Scope)
          → contains (normalize_scopes requested) t ≡ (
              if any is_valid_scope requested
              then is_valid_scope t && contains requested t
              else email_send == t))
unfolding normalize_scopes
normalize_scopes_granted requested = (
  IsDistinct-or_default (normalize_from [] requested) (IsDistinct-normalize_from [] requested tt),
  λ t.
      rw
        (
          contains-or_default (normalize_from [] requested) t,
          is_empty-normalize_from [] requested,
          contains-normalize_from [] requested t,
        )
        (ground arith),
)
