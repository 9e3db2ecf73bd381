-- ===== src/AttemptLimiter.antt =====
-- internal/auth/usecases/attempt_limiter.go: failed sign-ins counted by subject, and the lockout.
--
-- Records are shared by pointer between the map, the recency list and the attempts under way, so
-- they stand in a heap and a pointer is a number. The limiter's fixed fields are a record of their
-- own. Instants and durations are nanoseconds since Go's zero time, which is 0: an instant before
-- it does not occur, and a difference is zero where Go's would be negative, as the code only asks
-- whether one is large. The mutex makes each operation one step; each takes one reading of the
-- clock. `e.Value` of the recency list is the pointer; a nil `elem` is a pointer that is not in the
-- list. The methods do nothing on a nil attempt, which is left out.
pub mod World
pub mod Pruned
pub mod Counted
pub mod Settled
pub mod Watch
pub mod Begins
pub mod Tries
pub mod Endings
pub mod Window
mod Examples
use panmail.Base.Dict.{Dict, delete, lookup, put}
use panmail.Base.{
  ◌==◌ as nat_eq, Bool, List, Option, String, [], ℕ, ◌&&◌, ◌+◌, ◌-◌, false, if◌then◌else◌, leb,
  none, some, true, ◌∷◌, ltb, not, length, ◌++◌, filter, zero, suc,
}

-- `sweepInterval` in nanoseconds.
abbrev pub sweep_interval : ℕ
sweep_interval = 60000000000

abbrev pub eviction_probe : ℕ
eviction_probe = 64

abbrev pub max_tracked_subjects : ℕ
max_tracked_subjects = 10000

pub record AttemptRecord : Type 0 where
  pub subject : String
  pub failures : ℕ
  pub in_flight : ℕ
  pub last_try : ℕ
  pub blocked_until : ℕ

pub record Config : Type 0 where
  pub max : ℕ
  pub capacity : ℕ
  pub block_for : ℕ

pub record Limiter : Type 0 where
  pub heap : ℕ → AttemptRecord
  pub next_ref : ℕ
  pub records : Dict ℕ
  pub recency : List ℕ
  pub last_sweep : ℕ

abbrev pub new_record : String → AttemptRecord
new_record subject = record {
  subject = subject;
  failures = 0;
  in_flight = 0;
  last_try = 0;
  blocked_until = 0;
}

abbrev pub new_limiter : Limiter
new_limiter = record {
  heap = λ p. new_record "";
  next_ref = 0;
  records = [];
  recency = [];
  last_sweep = 0;
}

abbrev pub new_config : ℕ → ℕ → Config
new_config max block_for = record {
  max = max;
  capacity = max_tracked_subjects;
  block_for = block_for;
}

unfoldable pub blocked : AttemptRecord → ℕ → Bool
blocked r now = ltb now r.blocked_until

-- A write through a pointer.
unfoldable pub write : ℕ → AttemptRecord → Limiter → Limiter
write p r l = record l { heap = λ q. if nat_eq q p then r else l.heap q }

-- Whether the map has this very record for its subject.
unfoldable pub is_tracked : Limiter → ℕ → Bool
is_tracked l p = elim (lookup (l.heap p).subject l.records) [ some q ↦ nat_eq q p | none ↦ false ]

unfoldable pub without : ℕ → List ℕ → List ℕ
without p ps = filter (λ q. not (nat_eq q p)) ps

unfoldable pub remove : Limiter → ℕ → Limiter
remove l p = record l {
  records = if is_tracked l p then delete (l.heap p).subject l.records else l.records;
  recency = without p l.recency;
}

unfoldable pub is_stale : Config → ℕ → AttemptRecord → Bool
is_stale c now r = nat_eq r.in_flight 0 && not (blocked r now) && ltb r.last_try (now - c.block_for)

unfoldable pub sweep : Config → ℕ → Dict ℕ → Limiter → Limiter
sweep c now [] l = l
sweep c now ((k, p) ∷ rest) l =
    sweep c now rest (if is_stale c now (l.heap p) then remove l p else l)

unfoldable pub maybe_sweep : Config → Limiter → ℕ → Limiter
maybe_sweep c l now =
    if ltb (now - l.last_sweep) sweep_interval
    then l
    else sweep c now l.records (record l { last_sweep = now })

-- Two statements, each on what the one before left.
unfoldable pub lift_block : AttemptRecord → ℕ → AttemptRecord
lift_block r now =
    if not (nat_eq r.blocked_until 0) && not (blocked r now)
    then record r { failures = 0; blocked_until = 0 }
    else r

unfoldable pub forget_old : Config → AttemptRecord → ℕ → AttemptRecord
forget_old c r now =
    if ltb 0 r.failures && nat_eq r.blocked_until 0 && ltb c.block_for (now - r.last_try)
    then record r { failures = 0 }
    else r

unfoldable pub expire : Config → AttemptRecord → ℕ → AttemptRecord
expire c r now = forget_old c (lift_block r now) now

-- The first of the least recently used that is neither locked out nor in an attempt.
unfoldable pub find_evictable : (ℕ → AttemptRecord) → ℕ → ℕ → List ℕ → Option ℕ
find_evictable heap now zero ps = none
find_evictable heap now (suc probes) [] = none
find_evictable heap now (suc probes) (p ∷ ps) =
    let rest = find_evictable heap now probes ps in
    if not (blocked (heap p) now) && nat_eq (heap p).in_flight 0 then some p else rest

-- A full map of capacity zero would panic here.
unfoldable pub evict_oldest : Limiter → List ℕ → Limiter
evict_oldest l [] = l
evict_oldest l (p ∷ ps) = remove l p

unfoldable pub make_room : Config → Limiter → ℕ → Limiter
make_room c l now =
    if ltb (length l.records) c.capacity
    then l
    else elim (find_evictable l.heap now eviction_probe l.recency) [
      | some p ↦ remove l p
      | none ↦ evict_oldest l l.recency
    ]

-- `PushBack` and the write to the map.
unfoldable pub track : String → ℕ → Limiter → Limiter
track subject p l = record l { records = put subject p l.records; recency = l.recency ++ p ∷ [] }

unfoldable pub allocate : String → Limiter → Limiter
allocate subject l = record (write l.next_ref (new_record subject) l) { next_ref = l.next_ref + 1 }

unfoldable pub insert : Config → Limiter → String → ℕ → Limiter × ℕ
insert c l subject now =
    let roomy = make_room c l now in
    (track subject roomy.next_ref (allocate subject roomy), roomy.next_ref)

pub data Begun : Type 0 where
  admitted : ℕ → Begun
  locked_out : ℕ → Begun

unfoldable pub admit : Limiter → ℕ → ℕ → Limiter
admit l p now =
    record (write p (record (l.heap p) { in_flight = (l.heap p).in_flight + 1; last_try = now })
      l) { recency = without p l.recency ++ p ∷ [] }

unfoldable pub try_record : Config → Limiter → ℕ → ℕ → Limiter × Begun
try_record c l p now =
    if blocked (l.heap p) now
    then (l, locked_out ((l.heap p).blocked_until - now))
    else if leb c.max ((l.heap p).failures + (l.heap p).in_flight)
    then (l, locked_out 0)
    else (admit l p now, admitted p)

unfoldable pub begin_swept : Config → Limiter → String → ℕ → Limiter × Begun
begin_swept c l subject now = elim (lookup subject l.records) [
  | some p ↦ try_record c (write p (expire c (l.heap p) now) l) p now
  | none ↦ let (l', p) = insert c l subject now in (admit l' p now, admitted p)
]

unfoldable pub begin : Config → Limiter → String → ℕ → Limiter × Begun
begin c l subject now = begin_swept c (maybe_sweep c l now) subject now

pub record Attempt : Type 0 where
  pub rec : ℕ
  pub settled : Bool

-- `a.rec.inFlight--`
unfoldable pub release : ℕ → Limiter → Limiter
release p l = write p (record (l.heap p) { in_flight = (l.heap p).in_flight - 1 }) l

unfoldable pub settle : (Limiter → ℕ → Limiter) → Limiter → Attempt → Limiter × Attempt
settle f l a =
    if a.settled then (l, a) else (f (release a.rec l) a.rec, record a { settled = true })

-- More failures on a record, with the lockout that they may bring.
unfoldable pub add_failures : Config → ℕ → ℕ → ℕ → Limiter → Limiter
add_failures c n now p l =
    let failures = (l.heap p).failures + n in
    write p
      (record (l.heap p) {
        failures = failures;
        blocked_until = if leb c.max failures then now + c.block_for else (l.heap p).blocked_until;
      })
      l

unfoldable pub restore : Config → ℕ → Limiter → ℕ → Limiter
restore c now l p = elim (lookup (l.heap p).subject l.records) [
  | some q ↦ add_failures c (l.heap p).failures now q l
  | none ↦ track (l.heap p).subject p (make_room c l now)
]

unfoldable pub count_failure : Config → ℕ → Limiter → ℕ → Limiter
count_failure c now l p =
    let counted = add_failures c 1 now p l in
    if is_tracked counted p then counted else restore c now counted p

unfoldable pub succeeded : Limiter → Attempt → Limiter × Attempt
succeeded l a = settle remove l a

unfoldable pub failed : Config → ℕ → Limiter → Attempt → Limiter × Attempt
failed c now l a = settle (count_failure c now) l a

unfoldable pub abandon : Limiter → Attempt → Limiter × Attempt
abandon l a = settle (λ l' p. l') l a
