-- ===== src/Backpressure/Tests.antt =====
-- The backpressure controller under a concrete schedule.
use cachekit_py.Common.{◌≤◌, ◌≡◌, refl, true, List, [], ◌∷◌, sum_of, All}
use cachekit_py.Backpressure.{
  init, queue_full, count_rejection, join_queue, leave_queue, take_permit, release_permit,
  reset_stats, is_healthy,
}
use cachekit_py.Backpressure.Threads.{
  idle, advance, time_out, move, Event, thread, statistics_reset, step, run,
}
use cachekit_py.Backpressure.Safety.{IsConserved, runs, start, run-IsConserved, concurrency_bounded}

-- one permit, a queue of two, three threads: the third is rejected, the second times out
abbrev schedule : List Event
schedule =
    thread 0 advance
    ∷ thread 1 advance
    ∷ thread 2 advance
    ∷ thread 0 advance
    ∷ thread 0 advance
    ∷ thread 1 advance
    ∷ thread 1 time_out
    ∷ thread 1 advance
    ∷ thread 1 advance
    ∷ thread 0 advance
    ∷ []

two_rejected :
    let s = run schedule (start 1 2 3) in
    (s.controller.rejected_count ≡ 2)
    × (s.controller.permits ≡ 1)
    × (is_healthy s.controller ≡ true)
unfolding run step move init queue_full count_rejection join_queue leave_queue take_permit
    release_permit is_healthy
two_rejected = (refl, refl, refl)

reset_forgets :
    (run (statistics_reset ∷ []) (run schedule (start 1 2 3))).controller.rejected_count ≡ 0
unfolding run step move init queue_full count_rejection join_queue leave_queue take_permit
    release_permit reset_stats
reset_forgets = refl

three_threads-IsConserved : IsConserved 1 2 (run schedule (start 1 2 3))
three_threads-IsConserved = run-IsConserved 1 2 3 schedule

concurrency_bounded_example :
    let s = run schedule (start 1 2 3) in
    (sum_of runs s.threads ≤ 1)
    × (All (λ p. p ≡ idle) s.threads → (s.controller.permits ≡ 1) × (s.controller.queue_depth ≡ 0))
concurrency_bounded_example = concurrency_bounded 1 2 3 schedule
