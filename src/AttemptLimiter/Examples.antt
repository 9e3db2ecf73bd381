-- ===== src/AttemptLimiter/Examples.antt =====
-- A limit of two failures: two attempts run at once, a third waits, and two failures lock.
use panmail.AttemptLimiter.Tries.{Reach, is_calm, is_success, is_try, new, next}
use panmail.AttemptLimiter.Window.{Reach-tries}
use panmail.AttemptLimiter.World.{
  Operation, World, begins, count, end_attempt, ended, ends, failure, is_failure, note, success,
  take_step,
}
use panmail.AttemptLimiter.{
  Config, add_failures, admit, allocate, begin, begin_swept, blocked, count_failure, expire, failed,
  forget_old, insert, is_tracked, lift_block, locked_out, make_room, maybe_sweep, new_limiter,
  release, remove, restore, settle, succeeded, sweep, track, try_record, without, write,
}
use panmail.Base.Dict.{delete, lookup, put}
use panmail.Base.{List, [], filter, refl, ◌∷◌, ◌≡◌, ◌≤◌, arith}

abbrev config : Config
config = record { max = 2; capacity = 3; block_for = 100 }

abbrev empty : World
empty = record { limiter = new_limiter; clock = 0; tickets = [] }

-- The latest operation is the first.
run : List Operation → World
run [] = empty
run (o ∷ os) = take_step config o (run os)

abbrev guesses : List Operation
guesses = ends 60 0 failure ∷ begins 50 "eve" ∷ begins 40 "eve" ∷ begins 30 "eve" ∷ []

-- The third is refused, as the two under way could use up the budget.
third_is_refused :
    (begin config (run (begins 40 "eve" ∷ begins 30 "eve" ∷ [])).limiter "eve" 50).1 ≡ locked_out 0
unfolding run take_step begin begin_swept maybe_sweep sweep insert make_room allocate track admit
    write without put lookup filter try_record expire forget_old lift_block blocked note
third_is_refused = refl

-- After two failures the subject is locked out for what is left of the block period.
failures_lock :
    (begin config (run (ends 70 1 failure ∷ guesses)).limiter "eve" 90).1 ≡ locked_out 80
unfolding run take_step begin begin_swept maybe_sweep sweep insert make_room allocate track admit
    write without put lookup filter try_record expire forget_old lift_block blocked note end_attempt
    failed settle count_failure release add_failures is_tracked ended is_failure
failures_lock = refl

-- A success clears the history, and an attempt that was under way beside it brings it back with its
-- own failure.
history_returns :
    ((run (
        ends 70 0 failure
        ∷ ends 65 1 success
        ∷ begins 50 "eve"
        ∷ begins 45 "eve"
        ∷ ends 40 0 failure
        ∷ begins 30 "eve"
        ∷ [])).limiter.heap
      0).failures
    ≡ 2
unfolding run take_step begin begin_swept maybe_sweep sweep insert make_room allocate track admit
    write without put lookup filter try_record expire forget_old lift_block blocked note end_attempt
    failed settle count_failure release add_failures is_tracked ended is_failure succeeded remove
    delete restore
history_returns = refl

guesses_Reach : Reach config 25 "eve" (run guesses)
unfolding run take_step begin begin_swept maybe_sweep sweep insert make_room allocate track admit
    write without put lookup filter try_record expire forget_old lift_block blocked note end_attempt
    failed settle count_failure release add_failures is_tracked ended is_failure is_calm is_success
guesses_Reach =
    next (ends 60 0 failure)
      (next (begins 50 "eve")
        (next (begins 40 "eve")
          (next (begins 30 "eve") new (omega arith) (omega arith) (λ since. refl)) (omega arith)
          (omega arith) (λ since. refl))
        (omega arith) (omega arith) (λ since. refl))
      (omega arith) (omega arith) (λ since. refl)

Reach-tries_example : count (is_try "eve" 25) (run guesses).tickets ≤ 2
Reach-tries_example = Reach-tries config 25 "eve" (omega arith) guesses_Reach
