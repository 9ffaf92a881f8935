-- ===== src/Sched/Samples.antt =====
-- Threads, processes and a kernel for the examples and tests of the scheduler's modules.
use goshkik_os.Prelude.Memory.{Ptr}
use goshkik_os.Sched.State.{
  ThreadState, ready, running, blocked, termed, ring_0, normal, Context, Thread, Mutex, Kernel,
}
use goshkik_os.Prelude.{ℕ, Option, none, some, [], ◌∷◌, false, ◌==◌, if◌then◌else◌}

abbrev pub no_context : Context
no_context = record { rip = 0; rsp = 0; rdi = 0; rsi = 0; rflags = 0; cs = 0; ss = 0; others = [] }

abbrev pub thread : ℕ → ThreadState → Ptr → Thread
thread tid state next = record {
  tid = tid;
  o_pid = 0;
  proc = 0;
  state = state;
  privilege = ring_0;
  priority = normal;
  context = no_context;
  stack_base = 0;
  stack_size = 0;
  kernel_stack = 0;
  cooldown = 0;
  next = next;
}

abbrev pub open_mutex : Mutex
open_mutex = record {
  lock = false;
  locked = false;
  owner = 0;
  waiter_head = 0;
  waiter_tail = 0;
  waiter_count = 0;
}

-- the threads at 100 and 200 are ready, in this order; the one at 300 runs, the one at 400 has
-- ended and the one at 500 waits
abbrev pub heap : Ptr → Option Thread
heap p =
    if p == 100
    then some (thread 1 ready 200)
    else if p == 200
    then some (thread 2 ready 0)
    else if p == 300
    then some (thread 3 running 0)
    else if p == 400
    then some (thread 4 termed 0)
    else if p == 500
    then some (thread 5 blocked 0)
    else none

abbrev pub two_ready : Kernel
two_ready = record {
  threads = heap;
  procs = λ _. none;
  mutexes = λ _. open_mutex;
  schedule_lock = false;
  ready_head = 100;
  ready_tail = 200;
  current_thread = 300;
  thread_table = 100 ∷ 200 ∷ 300 ∷ 400 ∷ 500 ∷ [];
  thread_count = 5;
  next_tid = 6;
  process_table = [];
  next_pid = 1;
  rsp0 = 0;
  supply = [];
  freed = [];
}
