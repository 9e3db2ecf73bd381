-- ===== src/EmailFilter/Recipients.antt =====
-- Whom a message is sent to.
use panmail.Base.{
  [], false, inl, inr, refl, ◌∷◌, List, map, ◌++◌, ◌||◌, ◌≡◌, ap, arith, not, ◌&&◌, Bool-cases,
}
use panmail.EmailFilter.{Message, recipients, recipients_from, key_of}
use panmail.Base.Text.{Text, ◌==◌, ==_iff, holds, holds-append}

-- No two of the addresses have the same key.
abbrev pub AreDistinct : List Text → Type 0
AreDistinct [] = Unit
AreDistinct (a ∷ rest) = (holds (map key_of rest) (key_of a) ≡ false) × AreDistinct rest

keys-append : (xs ys : List Text) → map key_of (xs ++ ys) ≡ map key_of xs ++ map key_of ys
keys-append [] ys = refl
keys-append (x ∷ xs) ys = ap (λ t. key_of x ∷ t) (keys-append xs ys)

AreDistinct-snoc :
    (xs : List Text) (a : Text)
    → AreDistinct xs
    → holds (map key_of xs) (key_of a) ≡ false
    → AreDistinct (xs ++ a ∷ [])
AreDistinct-snoc [] a d h = (refl, tt)
AreDistinct-snoc (x ∷ xs) a d h = (
  ground (
    arith,
    keys-append xs (a ∷ []),
    holds-append (map key_of xs) (key_of a ∷ []) (key_of x),
    ==_iff (key_of a) (key_of x),
    ==_iff (key_of x) (key_of a),
    d.0,
  ),
  AreDistinct-snoc xs a d.1 (ground arith),
)

-- What `seen` holds beside `out`: the same keys, none of them blank.
record Seen (seen out : List Text) : Type 0 where
  pub distinct : AreDistinct out
  pub same : (t : Text) → holds seen t ≡ holds (map key_of out) t
  pub filled : holds seen [] ≡ false

Seen-add :
    (seen out : List Text) (a : Text)
    → Seen seen out
    → ((key_of a == []) || holds seen (key_of a)) ≡ false
    → Seen (key_of a ∷ seen) (out ++ a ∷ [])
Seen-add seen out a h fresh = record {
  distinct = AreDistinct-snoc out a h.distinct (ground (arith, h.same (key_of a)));
  same = λ t.
      ground (
        arith,
        h.same t,
        keys-append out (a ∷ []),
        holds-append (map key_of out) (key_of a ∷ []) t,
      );
  filled = ground (arith, h.filled);
}

recipients_from-Seen :
    (seen out rest : List Text)
    → Seen seen out
    → AreDistinct (recipients_from seen out rest)
      × ((t : Text)
          → holds (map key_of (recipients_from seen out rest)) t
            ≡ (holds (map key_of out) t || (not (t == []) && holds (map key_of rest) t)))
unfolding recipients_from
recipients_from-Seen seen out [] h = (h.distinct, λ t. ground arith)
recipients_from-Seen seen out (a ∷ rest) h =
    elim (Bool-cases (key_of a == [] || holds seen (key_of a))) [
      | inl e ↦
          let (d, k) = recipients_from-Seen seen out rest h in
          rw e (
            d,
            λ t.
                ground
                  (arith, k t, h.same t, ==_iff (key_of a) t, ==_iff (key_of a) [], ==_iff t []),
          )
      | inr e ↦
          let (d, k) =
            recipients_from-Seen (key_of a ∷ seen) (out ++ a ∷ []) rest (Seen-add seen out a h e) in
          rw e (
            d,
            λ t. ground (
              arith,
              k t,
              keys-append out (a ∷ []),
              holds-append (map key_of out) (key_of a ∷ []) t,
              ==_iff (key_of a) t,
              ==_iff (key_of a) [],
              ==_iff t [],
            ),
          )
    ]

-- The recipients of a message are distinct up to case and surrounding space, and they are exactly
-- the addresses of its three lists that are not blank, up to the same.
pub recipients-AreDistinct :
    (m : Message)
    → AreDistinct (recipients m)
      × ((t : Text)
          → holds (map key_of (recipients m)) t
            ≡ (not (t == []) && holds (map key_of (m.to ++ m.cc ++ m.bcc)) t))
unfolding recipients
recipients-AreDistinct m =
    let empty : Seen [] [] = record { distinct = tt; same = λ t. refl; filled = refl } in
    recipients_from-Seen [] [] (m.to ++ m.cc ++ m.bcc) empty
