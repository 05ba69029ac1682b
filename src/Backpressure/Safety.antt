-- ===== src/Backpressure/Safety.antt =====
-- What holds of the backpressure controller whatever the schedule.
use cachekit_py.Common.{
  ℕ, zero, suc, ◌+◌, ◌≤◌, ◌≡◌, refl, List, [], ◌∷◌, arith, get_elem?, set, sum_of, sum_of-set,
  replicate, All, inl, inr, Option-cases,
}
use cachekit_py.Backpressure.{
  BackpressureController, init, queue_full, count_rejection, join_queue, leave_queue, take_permit,
  release_permit, reset_stats,
}
use cachekit_py.Backpressure.Threads.{
  Phase, idle, waiting, admitted, running, expired, failing, Action, System, move, Event, thread,
  statistics_reset, step, run,
}

-- 1 for a thread that holds a permit
abbrev pub holds : Phase → ℕ
holds admitted = 1
holds running = 1
holds _ = 0

-- 1 for a thread that the queue depth counts
abbrev pub queues : Phase → ℕ
queues waiting = 1
queues admitted = 1
queues expired = 1
queues failing = 1
queues _ = 0

abbrev pub runs : Phase → ℕ
runs running = 1
runs _ = 0

pub record IsConserved (max size : ℕ) (s : System) : Type 0 where
  pub concurrency : s.controller.max_concurrent ≡ max
  pub capacity : s.controller.queue_size ≡ size
  pub permits_conserved : s.controller.permits + sum_of holds s.threads ≡ max
  pub depth_counted : s.controller.queue_depth ≡ sum_of queues s.threads
  pub depth_bounded : s.controller.queue_depth ≤ size

move-IsConserved :
    (max size : ℕ) (p : Phase) (a : Action) (c : BackpressureController) (h q : ℕ)
    → c.max_concurrent ≡ max
    → c.queue_size ≡ size
    → c.permits + h + holds p ≡ max
    → c.queue_depth ≡ q + queues p
    → c.queue_depth ≤ size
    → let (c', p') = move p a c in
      (c'.max_concurrent ≡ max)
      × (c'.queue_size ≡ size)
      × (c'.permits + h + holds p' ≡ max)
      × (c'.queue_depth ≡ q + queues p')
      × (c'.queue_depth ≤ size)
unfolding move queue_full count_rejection join_queue leave_queue take_permit release_permit
move-IsConserved max size p a c h q e1 e2 e3 e4 e5 = ground arith

step-IsConserved :
    (max size : ℕ) (e : Event) (s : System)
    → IsConserved max size s
    → IsConserved max size (step e s)
unfolding step reset_stats
step-IsConserved max size statistics_reset s v = ground arith
step-IsConserved max size (thread i a) s v = elim (Option-cases (get_elem? s.threads i)) [
  | inl e ↦ rw (e, step) v
  | inr (p, e) ↦
      let c = s.controller in
      let q = (move p a c).1 in
      let h = sum_of holds (set s.threads i idle) in
      let w = sum_of queues (set s.threads i idle) in
      let h_out = sum_of-set holds s.threads i p idle e in
      let w_out = sum_of-set queues s.threads i p idle e in
      let h_in = sum_of-set holds s.threads i p q e in
      let w_in = sum_of-set queues s.threads i p q e in
      let moved =
        move-IsConserved max size p a c h w v.concurrency v.capacity
          (omega (arith, v.permits_conserved, h_out)) (omega (arith, v.depth_counted, w_out))
          v.depth_bounded in
      rw (e, step)
        (record {
          concurrency = moved.0;
          capacity = moved.1;
          permits_conserved = omega (arith, moved.2, h_out, h_in);
          depth_counted = omega (arith, moved.3, w_out, w_in);
          depth_bounded = moved.4;
        })
]

sum_of-replicate_idle : (f : Phase → ℕ) (n : ℕ) → f idle ≡ 0 → sum_of f (replicate n idle) ≡ 0
sum_of-replicate_idle f zero z = refl
sum_of-replicate_idle f (suc n) z = omega (arith, z, sum_of-replicate_idle f n z)

-- a new controller, and `n` threads outside it
abbrev pub start : ℕ → ℕ → ℕ → System
start max size n = record { controller = init max size; threads = replicate n idle }

start-IsConserved : (max size n : ℕ) → IsConserved max size (start max size n)
unfolding init
start-IsConserved max size n = record {
  concurrency = refl;
  capacity = refl;
  permits_conserved = omega (arith, sum_of-replicate_idle holds n refl);
  depth_counted = omega (arith, sum_of-replicate_idle queues n refl);
  depth_bounded = omega arith;
}

run-IsConserved_from :
    (max size : ℕ) (es : List Event) (s : System)
    → IsConserved max size s
    → IsConserved max size (run es s)
unfolding run
run-IsConserved_from max size [] s v = v
run-IsConserved_from max size (e ∷ es) s v =
    run-IsConserved_from max size es (step e s) (step-IsConserved max size e s v)

-- Whatever the schedule of any number of threads: the permits left and the threads that hold one add
-- up to `max_concurrent`, the queue depth is the number of threads that are in the queue or on their
-- way out of it, and it never passes `queue_size`.
pub run-IsConserved :
    (max size n : ℕ) (es : List Event) → IsConserved max size (run es (start max size n))
run-IsConserved max size n es =
    run-IsConserved_from max size es (start max size n) (start-IsConserved max size n)

runs-le-holds : (ps : List Phase) → sum_of runs ps ≤ sum_of holds ps
runs-le-holds [] = omega arith
runs-le-holds (p ∷ ps) = ground (arith, runs-le-holds ps)

idle-holds-queues :
    (ps : List Phase) → All (λ p. p ≡ idle) ps → (sum_of holds ps ≡ 0) × (sum_of queues ps ≡ 0)
idle-holds-queues [] a = (refl, refl)
idle-holds-queues (p ∷ ps) a = ground (arith, idle-holds-queues ps a.1)

-- Never more than `max_concurrent` threads are in the protected operation; and when every thread is
-- outside again, no permit is lost and the queue depth is 0.
pub concurrency_bounded :
    (max size n : ℕ) (es : List Event)
    → let s = run es (start max size n) in
      (sum_of runs s.threads ≤ max)
      × (All (λ p. p ≡ idle) s.threads
          → (s.controller.permits ≡ max) × (s.controller.queue_depth ≡ 0))
concurrency_bounded max size n es =
    let s = run es (start max size n) in
    let v = run-IsConserved max size n es in
    (
      omega (arith, runs-le-holds s.threads, v.permits_conserved),
      λ a. (
        omega (arith, (idle-holds-queues s.threads a).0, v.permits_conserved),
        omega (arith, (idle-holds-queues s.threads a).1, v.depth_counted),
      ),
    )
