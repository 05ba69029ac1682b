-- ===== src/Backpressure/Threads.antt =====
-- The threads that go through `acquire` of the backpressure controller, as a schedule interleaves
-- them. `Exception`s of the protected operation end it like its normal end; an interrupt that is no
-- `Exception` is not modelled.
use cachekit_py.Common.{ℕ, List, [], ◌∷◌, Option, none, some, ltb, if◌then◌else◌, get_elem?, set}
use cachekit_py.Backpressure.{
  BackpressureController, queue_full, count_rejection, join_queue, leave_queue, take_permit,
  release_permit, reset_stats,
}

-- Where a thread stands: outside; in the queue; with a permit, still counted in the queue; in the
-- protected operation; timed out; timed out and counted as rejected.
pub data Phase : Type 0 where
  idle waiting admitted running expired failing : Phase

-- A thread goes on, or its wait for a permit times out.
pub data Action : Type 0 where
  advance : Action
  time_out : Action

pub record System : Type 0 where
  pub controller : BackpressureController
  pub threads : List Phase

-- one atomic section of `acquire` for a thread in the given phase
unfoldable pub move : Phase → Action → BackpressureController → BackpressureController × Phase
move idle advance c = if queue_full c then (count_rejection c, idle) else (join_queue c, waiting)
move waiting advance c = if ltb 0 c.permits then (take_permit c, admitted) else (c, waiting)
move waiting time_out c = (c, expired)
move admitted advance c = (leave_queue c, running)
move running advance c = (release_permit c, idle)
move expired advance c = (count_rejection c, failing)
move failing advance c = (leave_queue c, idle)
move p time_out c = (c, p)

move_thread : ℕ → Option Phase → Action → System → System
move_thread i none a s = s
move_thread i (some p) a s =
    let (c, q) = move p a s.controller in record { controller = c; threads = set s.threads i q }

-- What happens next: a thread makes its next step, or somebody resets the statistics.
pub data Event : Type 0 where
  thread : ℕ → Action → Event
  statistics_reset : Event

unfoldable pub step : Event → System → System
unfolding move_thread
step (thread i a) s = move_thread i (get_elem? s.threads i) a s
step statistics_reset s = record s { controller = reset_stats s.controller }

unfoldable pub run : List Event → System → System
run [] s = s
run (e ∷ es) s = run es (step e s)
