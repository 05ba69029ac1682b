-- ===== src/Backpressure.antt =====
-- src/cachekit/reliability/load_control.py: the backpressure controller, with any number of threads
-- that go through `acquire`. Each section under the lock, and each semaphore operation, is one
-- function on the controller; a schedule interleaves them. The Prometheus counter is left out.
pub mod Threads
pub mod Safety
mod Tests
use cachekit_py.Common.{ℕ, ◌+◌, ◌-◌, ◌*◌, Bool, Option, none, some, ltb, leb, if◌then◌else◌}

pub record BackpressureController : Type 0 where
  pub max_concurrent : ℕ
  pub queue_size : ℕ
  -- the value of the semaphore
  pub permits : ℕ
  pub queue_depth : ℕ
  pub rejected_count : ℕ

unfoldable pub init : ℕ → ℕ → BackpressureController
init max_concurrent queue_size = record {
  max_concurrent = max_concurrent;
  queue_size = queue_size;
  permits = max_concurrent;
  queue_depth = 0;
  rejected_count = 0;
}

unfoldable pub queue_full : BackpressureController → Bool
queue_full c = leb c.queue_size c.queue_depth

-- phase 1 of `acquire`: into the queue, or rejected with TRANSIENT
unfoldable pub count_rejection : BackpressureController → BackpressureController
count_rejection c = record c { rejected_count = c.rejected_count + 1 }

unfoldable pub join_queue : BackpressureController → BackpressureController
join_queue c = record c { queue_depth = c.queue_depth + 1 }

-- `self._queue_depth -= 1`: with the permit in hand, or in the `except` clause
unfoldable pub leave_queue : BackpressureController → BackpressureController
leave_queue c = record c { queue_depth = c.queue_depth - 1 }

-- the semaphore
unfoldable pub take_permit : BackpressureController → BackpressureController
take_permit c = record c { permits = c.permits - 1 }

unfoldable pub release_permit : BackpressureController → BackpressureController
release_permit c = record c { permits = c.permits + 1 }

unfoldable pub reset_stats : BackpressureController → BackpressureController
reset_stats c = record c { rejected_count = 0 }

-- `queue_depth < queue_size * 0.8`, in tenths
unfoldable pub is_healthy : BackpressureController → Bool
is_healthy c = ltb (c.queue_depth * 10) (c.queue_size * 8)
