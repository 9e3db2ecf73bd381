-- ===== src/Access/Decisions.antt =====
-- What `authorize` decides, for every caller and procedure.
use panmail.Access.{
  authorize, authorize_api_key, authorize_rule, authorize_user, Principal, authorize_kind,
  has_scope, role_satisfies, Access, Procedure, Role, Scope, api_key, user, Kind, contains, policy,
  role_level, is_super_admin, super_admin, level_or_zero,
}
use panmail.Base.{
  inl, inr, none, refl, some, true, Option, ◌≡◌, arith, ℕ, ◌↔◌, Bool-cases, Option-cases, ◌≤◌,
}
use panmail.Access.{other_kind}

-- The caller may invoke the procedure: it is public, or a key holds its scope, or a user is a super
-- admin or has its role at least.
pub data MayCall : Option Principal → Access → Type 0 where
  anyone : {c : Option Principal} {rule : Access} → rule.public ≡ true → MayCall c rule
  by_key :
      {p : Principal} {rule : Access} {s : Scope}
      → p.kind ≡ api_key
      → rule.scope ≡ some s
      → contains p.scopes s ≡ true
      → MayCall (some p) rule
  by_super_admin :
      {p : Principal} {rule : Access} → p.kind ≡ user → p.role ≡ super_admin → MayCall (some p) rule
  by_role :
      {p : Principal} {rule : Access} {r : Role} {have : ℕ}
      → p.kind ≡ user
      → rule.min_role ≡ some r
      → role_level p.role ≡ some have
      → level_or_zero (role_level r) ≤ have
      → MayCall (some p) rule

authorize_api_key_sound :
    (p : Principal) (rule : Access)
    → p.kind ≡ api_key
    → authorize_api_key p rule ≡ none
    → MayCall (some p) rule
unfolding authorize_api_key has_scope
authorize_api_key_sound p rule k h = elim (Option-cases rule.scope) [
  | inl e ↦ absurd (ground arith)
  | inr (s, e) ↦ by_key k e (ground arith)
]

authorize_user_sound :
    (p : Principal) (rule : Access)
    → p.kind ≡ user
    → authorize_user p rule ≡ none
    → MayCall (some p) rule
unfolding authorize_user role_satisfies
authorize_user_sound p rule k h = elim (Bool-cases (is_super_admin p.role)) [
  | inl e ↦ by_super_admin k (ground arith)
  | inr e ↦ elim (Option-cases rule.min_role) [
    | inl q ↦ absurd (ground arith)
    | inr (r, q) ↦ elim (Option-cases (role_level p.role)) [
      | inl z ↦ absurd (ground arith)
      | inr (n, z) ↦ by_role k q z (ground arith)
    ]
  ]
]

authorize_rule_sound :
    (caller : Option Principal) (rule : Access)
    → authorize_rule caller rule ≡ none
    → MayCall caller rule
unfolding authorize_rule authorize_kind
authorize_rule_sound none rule h = anyone (ground arith)
authorize_rule_sound (some p) rule h = elim (Bool-cases rule.public) [
  | inl e ↦ anyone e
  | inr e ↦ kinds p.kind refl (ground arith)
]
  where
    kinds : (k : Kind) → p.kind ≡ k → authorize_kind k p rule ≡ none → MayCall (some p) rule
    kinds user e q = authorize_user_sound p rule e q
    kinds api_key e q = authorize_api_key_sound p rule e q
    kinds (other_kind n) e q = absurd (ground arith)

authorize_rule_complete :
    (caller : Option Principal) (rule : Access)
    → MayCall caller rule
    → authorize_rule caller rule ≡ none
unfolding authorize_rule authorize_kind authorize_api_key authorize_user has_scope role_satisfies
authorize_rule_complete caller rule (anyone h) = ground arith
authorize_rule_complete caller rule (by_key k s h) = ground arith
authorize_rule_complete caller rule (by_super_admin k h) = ground arith
authorize_rule_complete caller rule (by_role k r l h) = ground arith

-- A caller is let through exactly when the procedure has a rule that admits them: it is public, or
-- an API key holds its scope, or a user is a super admin or has its minimum role at least. A
-- procedure with no rule admits nobody.
pub authorize_iff :
    (caller : Option Principal) (procedure : Procedure)
    → (authorize caller procedure ≡ none)
      ↔ ((rule : Access) × (policy procedure ≡ some rule) × MayCall caller rule)
unfolding authorize
authorize_iff caller procedure = (
  (λ h. elim (Option-cases (policy procedure)) [
    | inl e ↦ absurd (ground arith)
    | inr (rule, e) ↦ (rule, e, authorize_rule_sound caller rule (ground arith))
  ]),
  (λ (rule, e, m). rw (e, authorize) (authorize_rule_complete caller rule m)),
)

top_role : (role : Role) (n : ℕ) → role_level role ≡ some n → 4 ≤ n → role ≡ super_admin
unfolding role_level
top_role role n h le = ground arith

MayCall-mono :
    (p : Principal) (role : Role) {have more : ℕ} {rule : Access}
    → p.kind ≡ user
    → role_level p.role ≡ some have
    → role_level role ≡ some more
    → have ≤ more
    → MayCall (some p) rule
    → MayCall (some (record p { role = role })) rule
unfolding role_level
MayCall-mono p role k h m le (anyone open_rule) = anyone open_rule
MayCall-mono p role k h m le (by_key key s c) = absurd (cc)
MayCall-mono p role {have} {more} k h m le (by_super_admin u top) =
    by_super_admin k (top_role role more m (ground arith))
MayCall-mono p role {have} {more} k h m le (by_role {r = r} {have = n} u q l fits) =
    by_role k q m (ground arith)

-- A user with a higher role may call whatever a lower one may.
pub authorize_monotone :
    (p : Principal) (procedure : Procedure) (role : Role) {have more : ℕ}
    → p.kind ≡ user
    → role_level p.role ≡ some have
    → role_level role ≡ some more
    → have ≤ more
    → authorize (some p) procedure ≡ none
    → authorize (some (record p { role = role })) procedure ≡ none
authorize_monotone p procedure role k h m le allowed =
    let (rule, e, may) = (authorize_iff (some p) procedure).0 allowed in
    (authorize_iff (some (record p { role = role })) procedure).1
      (rule, e, MayCall-mono p role k h m le may)
