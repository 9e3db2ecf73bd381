-- ===== src/EmailFilter/Condition/Valid.antt =====
-- `Condition.Validate` and `Rule.Validate`, and what a rule that passes can do.
--
-- A validated condition is returned with its compiled patterns; the condition that an error leaves
-- behind is used by no caller.
use panmail.Base.{
  [], false, if◌then◌else◌, inl, inr, none, some, true, ◌∷◌, Bool, List, Option, ◌≡◌, ◌⊎◌,
  Option-cases, ◌&&◌, arith, not, Bool-cases,
}
use panmail.EmailFilter.Condition.{
  Condition, Field, Operator, FieldKind, field_kind, is_allowed, is_inbound_only, is_outbound_only,
  is_pattern, at_least, header_field, is_true, exists,
}
use panmail.EmailFilter.{Direction, inbound, outbound}
use panmail.Base.Text.{Text, trim_space, ◌==◌}
use panmail.Base.Int.{pos, ltb_ℤ}

pub data Invalid : Type 0 where
  unknown_field inbound_only outbound_only wrong_operator no_header : Invalid
  no_values negative_threshold bad_pattern : Invalid

unfoldable pub is_outbound : Direction → Bool
is_outbound outbound = true
is_outbound _ = false

unfoldable pub is_inbound : Direction → Bool
is_inbound inbound = true
is_inbound _ = false

unfoldable pub is_header : Field → Bool
is_header header_field = true
is_header _ = false

unfoldable pub needs_values : Operator → Bool
needs_values is_true = false
needs_values exists = false
needs_values at_least = false
needs_values _ = true

unfoldable pub is_at_least : Operator → Bool
is_at_least at_least = true
is_at_least _ = false

unfoldable pub is_blank : List Text → Bool
is_blank [] = true
is_blank (v ∷ rest) = false

module _ {Pattern : Type 0} (compile : Text → Option Pattern) where
  -- The loop over the values of a pattern condition; `none` is a value that does not compile.
  unfoldable pub compile_all : List Text → Option (List Pattern)
  compile_all [] = some []
  compile_all (v ∷ rest) =
      let more = compile_all rest in
      elim (compile v) [
        | none ↦ none
        | some p ↦ elim more [ none ↦ none | some ps ↦ some (p ∷ ps) ]
      ]

  unfoldable pub compiled_condition : Condition Pattern → Invalid ⊎ Condition Pattern
  compiled_condition c =
      if is_pattern c.operator
      then elim (compile_all c.values) [
        | none ↦ inl bad_pattern
        | some ps ↦ inr (record c { compiled = ps })
      ]
      else inr (record c { compiled = [] })

  unfoldable pub validate_kind :
      FieldKind → Direction → Condition Pattern → Invalid ⊎ Condition Pattern
  validate_kind kind direction c =
      if is_inbound_only c.field && not (is_inbound direction)
      then inl inbound_only
      else if is_outbound_only c.field && not (is_outbound direction)
      then inl outbound_only
      else if not (is_allowed kind c.operator)
      then inl wrong_operator
      else if is_header c.field && trim_space c.header_name == []
      then inl no_header
      else if needs_values c.operator && is_blank c.values
      then inl no_values
      else if is_at_least c.operator && ltb_ℤ c.number (pos 0)
      then inl negative_threshold
      else compiled_condition c

  unfoldable pub validate : Direction → Condition Pattern → Invalid ⊎ Condition Pattern
  validate direction c = elim (field_kind c.field) [
    | none ↦ inl unknown_field
    | some kind ↦ validate_kind kind direction c
  ]

  -- The guards, all passed.
  validate_kind_passed :
      (kind : FieldKind) (direction : Direction) (c valid : Condition Pattern)
      → validate_kind kind direction c ≡ inr valid
      → ((is_inbound_only c.field && not (is_inbound direction)) ≡ false)
        × ((is_outbound_only c.field && not (is_outbound direction)) ≡ false)
        × (is_allowed kind c.operator ≡ true)
        × ((needs_values c.operator && is_blank c.values) ≡ false)
        × (compiled_condition c ≡ inr valid)
  unfolding validate_kind
  validate_kind_passed kind direction c valid h = ground arith

  compiled_condition_passed :
      (c valid : Condition Pattern)
      → compiled_condition c ≡ inr valid
      → (valid.field ≡ c.field)
        × (valid.operator ≡ c.operator)
        × (valid.values ≡ c.values)
        × (valid.number ≡ c.number)
        × (is_pattern c.operator ≡ true → compile_all c.values ≡ some valid.compiled)
  unfolding compiled_condition
  compiled_condition_passed c valid h = elim (Bool-cases (is_pattern c.operator)) [
    | inl e ↦ elim (Option-cases (compile_all c.values)) [
      | inl q ↦ absurd (ground arith)
      | inr (ps, q) ↦ ground arith
    ]
    | inr e ↦ ground arith
  ]

  -- What a condition that passes is.
  pub record IsValid (direction : Direction) (c valid : Condition Pattern) : Type 0 where
    pub known :
        (kind : FieldKind) × (field_kind c.field ≡ some kind) × (is_allowed kind c.operator ≡ true)
    pub fits_inbound : is_inbound_only c.field ≡ true → is_inbound direction ≡ true
    pub fits_outbound : is_outbound_only c.field ≡ true → is_outbound direction ≡ true
    pub has_values : needs_values c.operator ≡ true → is_blank c.values ≡ false
    pub same_test :
        (valid.field ≡ c.field)
        × (valid.operator ≡ c.operator)
        × (valid.values ≡ c.values)
        × (valid.number ≡ c.number)
    pub compiles : is_pattern c.operator ≡ true → compile_all c.values ≡ some valid.compiled

  -- A condition that passes validation has a known field, an operator for its kind, a direction
  -- that its field is available in and a value where its operator wants one; it is the same test,
  -- and the patterns of a pattern condition are those of all its values.
  pub validate-IsValid :
      (direction : Direction) (c valid : Condition Pattern)
      → validate direction c ≡ inr valid
      → IsValid direction c valid
  unfolding validate
  validate-IsValid direction c valid h = elim (Option-cases (field_kind c.field)) [
    | inl e ↦ absurd (ground arith)
    | inr (kind, e) ↦
        let (i, o, a, v, r) = validate_kind_passed kind direction c valid (ground arith) in
        let (f, p, w, n, k) = compiled_condition_passed c valid r in
        record {
          known = (kind, e, a);
          fits_inbound = ground arith;
          fits_outbound = ground arith;
          has_values = ground arith;
          same_test = (f, p, w, n);
          compiles = k;
        }
  ]
