-- ===== src/Sched/Process.antt =====
-- process.c: creating, ending and waiting for processes.
use goshkik_os.Prelude.Memory.{Ptr}
use goshkik_os.Prelude.Int.{ℤ, pos, negsuc}
use goshkik_os.Sched.State.{
  ring_0, ring_3, normal, Process, ProcessState, proc_ready, proc_running, proc_zombie, proc_exited,
  fault, M, pure, ◌>>=◌, ◌>>◌, get, modify, load, set_next, load_proc, store_proc,
  process_table_lock, lock_of, eperm, esrch, echild, einval, hcf, kmalloc, kfree,
}
use goshkik_os.Sched.Mutex.{acquire_mutex, release_mutex, init_mutex, thread_block}
use goshkik_os.Sched.Lookup.{process_from_pid, wake_waiters}
use goshkik_os.Sched.Thread.{free_slot, kfree_if, thread_create}
use goshkik_os.Sched.Ending.{thread_exit, thread_terminate}
use goshkik_os.Prelude.{
  ℕ, zero, suc, ◌+◌, ◌%◌, ◌^◌, Bool, true, false, ◌&&◌, Option, none, some, List, [], ◌∷◌, map,
  ◌==◌, if◌then◌else◌, set, replicate,
}

abbrev pub max_procs : ℕ
max_procs = 1024

abbrev pub is_over : ProcessState → Bool
is_over proc_zombie = true
is_over proc_exited = true
is_over _ = false

unfoldable pub find_free_slot : M (Option ℕ)
find_free_slot = do k ← get; pure (free_slot 0 k.process_table)

-- `memset(p, 0, sizeof(process_t))`
abbrev pub zero_process : Process
zero_process = record {
  pid = 0;
  ppid = 0;
  state = proc_ready;
  umask = 0;
  main_thread = 0;
  wait_head = 0;
  wait_tail = 0;
  address_space = 0;
  exit_code = 0;
}

-- the table with slot i empty
abbrev pub clear_slot : ℕ → M (Unit {0})
clear_slot i = modify (λ k. record k { process_table = set k.process_table i 0 })

-- `if (entry) …` of process_create
unfoldable pub start_main : ℕ → Ptr → ℕ → ℕ → ℕ → ℕ → Bool → M Ptr
start_main fuel p slot entry argc argv is_userspace = if entry == 0 then pure p else (do
  process ← load_proc p
  t ←
      thread_create fuel entry argc argv (if is_userspace then ring_3 else ring_0) normal
        (process.pid % 2 ^ 32)
  process ← load_proc p
  if t == 0
      then (do
        acquire_mutex fuel process_table_lock
        clear_slot slot
        release_mutex fuel process_table_lock
        kfree_if process.address_space
        kfree p
        pure 0)
      else (do store_proc p (record process { main_thread = t }); pure p))

-- `space` is what create_address_space would return
unfoldable pub process_create : ℕ → ℕ → ℕ → ℕ → ℕ → ℕ → Bool → M Ptr
process_create fuel space entry argc argv ppid is_userspace = do
  acquire_mutex fuel process_table_lock
  found ← find_free_slot
  elim found [
    | none ↦ (do release_mutex fuel process_table_lock; pure 0)
    | some slot ↦ (do
      p ← kmalloc
      if p == 0 then (do release_mutex fuel process_table_lock; pure 0) else (do
        k ← get
        store_proc p (record zero_process {
          ppid = ppid;
          state = proc_ready;
          umask = 0o22;
          address_space = if is_userspace then space else 0;
          exit_code = 0;
          pid = k.next_pid;
        })
        init_mutex (lock_of p)
        modify (λ k. record k { next_pid = k.next_pid + 1 })
        release_mutex fuel process_table_lock
        start_main fuel p slot entry argc argv is_userspace))
  ]

unfoldable pub process_exit : {A : Type 0} → ℕ → ℕ → M A
process_exit fuel code = do
  k ← get
  if k.current_thread == 0 then hcf else (do
    self ← load k.current_thread
    p ← process_from_pid fuel (pos self.o_pid)
    if p == 0 then hcf else (do
      acquire_mutex fuel (lock_of p)
      process ← load_proc p
      store_proc p (record process { exit_code = code; state = proc_zombie })
      release_mutex fuel (lock_of p)
      wake_waiters fuel p
      thread_exit fuel))

unfoldable pub process_terminate : ℕ → ℤ → M ℤ
process_terminate fuel (pos zero) = pure eperm
process_terminate fuel pid = do
  p ← process_from_pid fuel pid
  if p == 0 then pure esrch else (do
    acquire_mutex fuel (lock_of p)
    process ← load_proc p
    store_proc p (record process { state = proc_zombie })
    if process.main_thread == 0
        then pure tt
        else (do t ← load process.main_thread; thread_terminate fuel t.tid; pure tt)
    release_mutex fuel (lock_of p)
    pure (pos 0))

-- whether a pid asks for any child, and whether it asks for this one
abbrev pub wants : ℤ → ℕ → Bool
wants (pos n) pid = n == pid
wants (negsuc zero) pid = true
wants (negsuc (suc n)) pid = false

-- the first child in the rest of the table, with its slot
unfoldable pub find_child : ℕ → ℤ → ℕ → List Ptr → M (Option (Ptr × ℕ))
find_child cur_pid pid i [] = pure none
find_child cur_pid pid i (p ∷ ps) = if p == 0 then find_child cur_pid pid (suc i) ps else (do
  process ← load_proc p
  if (process.ppid == cur_pid) && wants pid process.pid
      then pure (some (p, i))
      else find_child cur_pid pid (suc i) ps)

abbrev pub is_any : ℤ → Bool
is_any (negsuc zero) = true
is_any _ = false

-- what is written through `exit_code` is the result, if it is not NULL
unfoldable pub process_cleanup : ℕ → Ptr → ℕ → ℤ → Bool → ℕ → M (Option ℕ)
process_cleanup fuel child index pid wanted code = do
  acquire_mutex fuel process_table_lock
  if is_any pid
      then modify
          (λ k. record k { process_table = map (λ p. if p == child then 0 else p) k.process_table })
      else clear_slot index
  release_mutex fuel process_table_lock
  process ← load_proc child
  kfree_if process.address_space
  kfree child
  pure (if wanted then some code else none)

-- `cur->next = NULL; …`: the current thread joins those that wait for the child
unfoldable pub join_waiters : Ptr → Ptr → M (Unit {0})
join_waiters child cur = do
  set_next cur 0
  process ← load_proc child
  if process.wait_head == 0
      then store_proc child (record process { wait_head = cur; wait_tail = cur })
      else (do
        set_next process.wait_tail cur
        store_proc child (record process { wait_tail = cur }))

-- nothing after thread_block is reached: it does not return
unfoldable pub process_wait : ℕ → ℤ → Bool → M (ℤ × Option ℕ)
process_wait fuel pid wanted = do
  k ← get
  if k.current_thread == 0 then pure (einval, none) else (do
    cur ← load k.current_thread
    acquire_mutex fuel process_table_lock
    found ← find_child cur.o_pid pid 0 k.process_table
    release_mutex fuel process_table_lock
    elim found [
      | none ↦ pure (echild, none)
      | some (child, index) ↦ (do
        acquire_mutex fuel (lock_of child)
        process ← load_proc child
        if is_over process.state
            then (do
              store_proc child (record process { state = proc_exited })
              release_mutex fuel (lock_of child)
              written ← process_cleanup fuel child index pid wanted process.exit_code
              pure (pos 0, written))
            else (do
              join_waiters child k.current_thread
              t ← load k.current_thread
              thread_block fuel t.tid))
    ])

unfoldable pub init_processes : ℕ → M (Unit {0})
init_processes fuel = do
  init_mutex process_table_lock
  modify (λ k. record k { process_table = replicate max_procs 0 })
  p ← kmalloc
  if p == 0 then (λ _. fault) else pure tt
  store_proc p (record zero_process { pid = 0; ppid = 0; state = proc_running; address_space = 0 })
  init_mutex (lock_of p)
  acquire_mutex fuel process_table_lock
  modify (λ k. record k { process_table = set k.process_table 0 p })
  release_mutex fuel process_table_lock
