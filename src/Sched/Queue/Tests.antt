-- ===== src/Sched/Queue/Tests.antt =====
-- The ready queue's theorems at a queue of two threads.
use goshkik_os.Sched.State.{running, ready}
use goshkik_os.Sched.Samples.{two_ready, thread}
use goshkik_os.Sched.Queue.{dequeue_ready_head, add_to_ready_queue, remove_from_ready_queue}
use goshkik_os.Sched.Queue.Seg.{IsQueue}
use goshkik_os.Sched.Queue.Laws.{Returns, Dequeued, dequeue_ready_head-IsQueue}
use goshkik_os.Sched.Queue.Remove.{remove_from_ready_queue-IsQueue}
use goshkik_os.Sched.Queue.Add.{add_to_ready_queue-IsQueue}
use goshkik_os.Prelude.{◌≡◌, refl, false, [], ◌∷◌, arith}

two_ready-IsQueue : IsQueue two_ready (100 ∷ 200 ∷ [])
two_ready-IsQueue = record {
  chain = (
    refl,
    ground arith,
    refl,
    (thread 1 ready 200, refl, (refl, ground arith, refl, (thread 2 ready 0, refl, refl))),
  );
  tail = refl;
}

dequeue_ready_head-IsQueue_example :
    Returns (dequeue_ready_head two_ready) (Dequeued two_ready (100 ∷ 200 ∷ []))
dequeue_ready_head-IsQueue_example =
    dequeue_ready_head-IsQueue two_ready (100 ∷ 200 ∷ []) two_ready-IsQueue

remove_from_ready_queue-IsQueue_example :
    Returns
      (remove_from_ready_queue 3 200 two_ready)
      (λ _ k'. IsQueue k' (100 ∷ []) × (k'.schedule_lock ≡ false) × (k'.current_thread ≡ 300))
remove_from_ready_queue-IsQueue_example =
    remove_from_ready_queue-IsQueue 3 two_ready 200 (100 ∷ 200 ∷ []) (thread 2 ready 0) refl
      two_ready-IsQueue (omega arith) (ground arith) refl

add_to_ready_queue-IsQueue_example : Returns (add_to_ready_queue 3 300 two_ready) (λ _ k'.
    IsQueue k' (100 ∷ 200 ∷ 300 ∷ [])
    × (k'.schedule_lock ≡ false)
    × (k'.mutexes ≡ two_ready.mutexes))
add_to_ready_queue-IsQueue_example =
    add_to_ready_queue-IsQueue 3 two_ready 300 (100 ∷ 200 ∷ []) (thread 3 running 0) refl
      two_ready-IsQueue (omega arith) (ground arith) refl
