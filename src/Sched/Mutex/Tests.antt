-- ===== src/Sched/Mutex/Tests.antt =====
-- The theorems on mutexes at concrete kernels.
use goshkik_os.Sched.State.{
  running, termed, ready, blocked, Mutex, Kernel, ok, out_of_fuel, ◌>>◌, thread_mutex,
}
use goshkik_os.Sched.Samples.{two_ready, thread}
use goshkik_os.Sched.Mutex.{acquire_mutex, release_mutex}
use goshkik_os.Sched.Queue.Seg.{IsQueue}
use goshkik_os.Sched.Queue.Laws.{Returns}
use goshkik_os.Sched.Mutex.Table.{AreThreads}
use goshkik_os.Sched.Mutex.Laws.{without_first, release_mutex-acquire_mutex, release_mutex_wakes}
use goshkik_os.Sched.Mutex.Stuck.{acquire_mutex-endless}
use goshkik_os.Prelude.{◌≡◌, refl, inr, true, false, [], ◌∷◌, arith}

-- held by the current thread, while the thread at 500 waits
abbrev held : Mutex
held = record {
  lock = false;
  locked = true;
  owner = 300;
  waiter_head = 500;
  waiter_tail = 500;
  waiter_count = 1;
}

abbrev contended : Kernel
contended = record two_ready { mutexes = λ _. held }

contended-IsQueue : IsQueue contended (100 ∷ 200 ∷ [])
contended-IsQueue = record {
  chain = (
    refl,
    ground arith,
    refl,
    (thread 1 ready 200, refl, (refl, ground arith, refl, (thread 2 ready 0, refl, refl))),
  );
  tail = refl;
}

release_mutex-acquire_mutex_example :
    (acquire_mutex 1 5 >> release_mutex 1 5) two_ready ≡ ok tt two_ready
release_mutex-acquire_mutex_example = release_mutex-acquire_mutex 0 1 two_ready 5 refl

release_mutex_wakes_example : Returns (release_mutex 3 5 contended) (λ _ k'.
    IsQueue k' (100 ∷ 200 ∷ 500 ∷ [])
    × (k'.schedule_lock ≡ false)
    × (k'.mutexes 5 ≡ record (without_first held (thread 5 blocked 0)) {
      lock = false;
      locked = false;
      owner = 0;
    }))
release_mutex_wakes_example =
    release_mutex_wakes 3 contended 5 held (thread 5 blocked 0) (100 ∷ 200 ∷ []) refl refl refl
      (ground arith) refl refl contended-IsQueue (omega arith) refl

acquire_mutex-endless_example : acquire_mutex 9 thread_mutex contended ≡ out_of_fuel
acquire_mutex-endless_example = acquire_mutex-endless 9 contended (record {
  current = ((λ e. ground arith), (thread 3 running 0, refl));
  tail = inr ((λ e. ground arith), (thread 5 blocked 0, refl));
  locked = refl;
  spin_free = refl;
})

two_ready-AreThreads : AreThreads two_ready two_ready.thread_table
two_ready-AreThreads = (
  inr (thread 1 ready 200, refl),
  (
    inr (thread 2 ready 0, refl),
    (
      inr (thread 3 running 0, refl),
      (inr (thread 4 termed 0, refl), (inr (thread 5 blocked 0, refl), tt)),
    ),
  ),
)
