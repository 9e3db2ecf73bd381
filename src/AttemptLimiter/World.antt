-- ===== src/AttemptLimiter/World.antt =====
-- The limiter among the sign-ins that use it: any number of them, under way at the same time.
use panmail.AttemptLimiter.{
  Attempt, Begun, Config, Limiter, abandon, admitted, begin, failed, locked_out, succeeded,
}
use panmail.Base.{
  ◌==◌ as nat_eq, Bool, List, String, [], ℕ, ◌&&◌, ◌||◌, false, get_elem?, none, some, true, ◌∷◌,
  not, length, filter, zero, suc,
}

pub data Ending : Type 0 where
  success : Ending
  failure : Ending
  abandonment : Ending

pub data Operation : Type 0 where
  begins : ℕ → String → Operation
  ends : ℕ → ℕ → Ending → Operation

abbrev pub time_of : Operation → ℕ
time_of (begins now subject) = now
time_of (ends now i e) = now

-- An admitted attempt, with whom it is for and when it began, and whether it has counted as failed.
pub record Ticket : Type 0 where
  pub subject : String
  pub started : ℕ
  pub attempt : Attempt
  pub has_failed : Bool

-- The latest attempt is the first.
pub record World : Type 0 where
  pub limiter : Limiter
  pub clock : ℕ
  pub tickets : List Ticket

abbrev pub set {ℓ} : {A : Type ℓ} → List A → ℕ → A → List A
set [] i v = []
set (x ∷ xs) zero v = v ∷ xs
set (x ∷ xs) (suc i) v = x ∷ set xs i v

unfoldable pub is_failure : Ending → Bool
is_failure e = elim e [ failure ↦ true | _ ↦ false ]

unfoldable pub end_attempt : Config → ℕ → Ending → Limiter → Attempt → Limiter × Attempt
end_attempt c now success l a = succeeded l a
end_attempt c now failure l a = failed c now l a
end_attempt c now abandonment l a = abandon l a

unfoldable pub note : String → ℕ → Begun → List Ticket → List Ticket
note subject now (locked_out d) ts = ts
note subject now (admitted p) ts =
    record {
      subject = subject;
      started = now;
      attempt = record { rec = p; settled = false };
      has_failed = false;
    }
    ∷ ts

unfoldable pub ended : Ending → Attempt → Ticket → Ticket
ended e a t = record t {
  attempt = a;
  has_failed = t.has_failed || (not t.attempt.settled && is_failure e);
}

unfoldable pub take_step : Config → Operation → World → World
take_step c (begins now subject) w =
    let (l, b) = begin c w.limiter subject now in
    record { limiter = l; clock = now; tickets = note subject now b w.tickets }
take_step c (ends now i e) w = elim (get_elem? w.tickets i) [
  | none ↦ record w { clock = now }
  | some t ↦
      let (l, a) = end_attempt c now e w.limiter t.attempt in
      record { limiter = l; clock = now; tickets = set w.tickets i (ended e a t) }
]

abbrev pub count : (Ticket → Bool) → List Ticket → ℕ
count p ts = length (filter p ts)

-- Under way on this record.
unfoldable pub runs : ℕ → Ticket → Bool
runs p t = nat_eq t.attempt.rec p && not t.attempt.settled
