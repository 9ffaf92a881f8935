-- ===== src/Sched/Ending.antt =====
-- thread.c: how threads end, the removal of those that have, and the first two threads.
use goshkik_os.Prelude.Memory.{Ptr}
use goshkik_os.Prelude.Int.{ℤ, pos}
use goshkik_os.Sched.State.{
  running, termed, ring_0, low, immediate, Thread, proc_zombie, fault, M, pure, ◌>>=◌, ◌>>◌, get,
  modify, load, store, set_next, set_state, load_proc, store_proc, unlock_schedule_spin,
  thread_mutex, lock_of, eperm, esrch, hcf, switch_away, kmalloc, kfree,
}
use goshkik_os.Sched.Queue.{remove_from_ready_queue, is_termed}
use goshkik_os.Sched.Mutex.{acquire_mutex, release_mutex, init_mutex, thread_from_tid}
use goshkik_os.Sched.Lookup.{
  process_from_pid, process_add_thread, process_remove_thread, wake_waiters,
}
use goshkik_os.Sched.Thread.{max_threads, is_ring_3, zero_thread, kfree_if, thread_create}
use goshkik_os.Prelude.{ℕ, suc, ◌-◌, ◌^◌, List, [], ◌∷◌, ◌==◌, if◌then◌else◌, set, replicate}

-- `if (current->proc) …` of thread_exit: the end of the main thread is the end of its process
unfoldable pub exit_process : ℕ → Ptr → Ptr → M (Unit {0})
exit_process fuel current proc = if proc == 0 then pure tt else (do
  acquire_mutex fuel (lock_of proc)
  process ← load_proc proc
  if process.main_thread == current
      then (do
        store_proc proc (record process { exit_code = 0; state = proc_zombie })
        release_mutex fuel (lock_of proc)
        wake_waiters fuel proc)
      else release_mutex fuel (lock_of proc))

unfoldable pub thread_exit : {A : Type 0} → ℕ → M A
thread_exit fuel = do
  k ← get
  if k.current_thread == 0 then hcf else (do
    t ← load k.current_thread
    if t.tid == 0 then hcf else (do
      exit_process fuel k.current_thread t.proc
      acquire_mutex fuel thread_mutex
      set_state k.current_thread termed
      release_mutex fuel thread_mutex
      modify (λ k. record k { current_thread = 0 })
      switch_away))

-- `if (t->proc) process_remove_thread(t->proc, t)`
unfoldable pub leave_process : ℕ → Ptr → M (Unit {0})
leave_process fuel p = do
  t ← load p
  if t.proc == 0 then pure tt else (do process_remove_thread fuel t.proc p; pure tt)

unfoldable pub thread_terminate : ℕ → ℕ → M ℤ
thread_terminate fuel tid = if tid == 0 then pure eperm else (do
  acquire_mutex fuel thread_mutex
  p ← thread_from_tid tid
  k ← get
  if p == 0
      then (do release_mutex fuel thread_mutex; pure esrch)
      else (if p == k.current_thread
          then (do release_mutex fuel thread_mutex; thread_exit fuel)
          else (do
            set_state p termed
            leave_process fuel p
            set_next p 0
            release_mutex fuel thread_mutex
            remove_from_ready_queue fuel p
            pure (pos 0))))

-- the body of the loop of clean_up for the thread p in slot i
unfoldable pub clean_up_slot : ℕ → ℕ → Ptr → M (Unit {0})
clean_up_slot fuel i p = do
  t ← load p
  if is_termed t.state
      then (do
        remove_from_ready_queue fuel p
        kfree_if t.stack_base
        if is_ring_3 t.privilege then kfree_if t.kernel_stack else pure tt
        leave_process fuel p
        kfree p
        modify (λ k. record k {
          thread_table = set k.thread_table i 0;
          thread_count = if k.thread_count == 0 then 2 ^ 32 - 1 else k.thread_count - 1;
        }))
      else pure tt

-- the slots from i on, in a table whose rest is given
unfoldable pub clean_up_from : ℕ → ℕ → List Ptr → M (Unit {0})
clean_up_from fuel i [] = pure tt
clean_up_from fuel i (p ∷ ps) = do
  if p == 0 then pure tt else clean_up_slot fuel i p
  clean_up_from fuel (suc i) ps

unfoldable pub clean_up : ℕ → M (Unit {0})
clean_up fuel = do
  acquire_mutex fuel thread_mutex
  k ← get
  clean_up_from fuel 0 k.thread_table
  release_mutex fuel thread_mutex

-- kernel_thread before it is in the table
abbrev pub kernel_thread : Thread
kernel_thread = record zero_thread {
  tid = 0;
  state = running;
  privilege = ring_0;
  priority = immediate;
  next = 0;
}

-- `idle` is the address of idle_task; kmalloc's NULL is written to, a fault
unfoldable pub init_threading : ℕ → ℕ → M (Unit {0})
init_threading fuel idle = do
  modify (λ k. record k { thread_table = replicate max_threads 0 })
  init_mutex thread_mutex
  unlock_schedule_spin
  p ← kmalloc
  if p == 0 then (λ _. fault) else pure tt
  store p kernel_thread
  kp ← process_from_pid fuel (pos 0)
  if kp == 0
      then pure tt
      else (do store p (record kernel_thread { proc = kp }); process_add_thread fuel kp p; pure tt)
  modify (λ k. record k {
    current_thread = p;
    thread_table = set k.thread_table 0 p;
    thread_count = 1;
    next_tid = 1;
  })
  t ← thread_create fuel idle 0 0 ring_0 low 0
  if t == 0 then hcf else pure tt
