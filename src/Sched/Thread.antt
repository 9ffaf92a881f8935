-- ===== src/Sched/Thread.antt =====
-- thread.c: creating, ending and cleaning up threads.
use goshkik_os.Prelude.Memory.{Ptr}
use goshkik_os.Prelude.Int.{pos}
use goshkik_os.Arch.Gdt.{kernel_code64, kernel_data64, user_code64, user_data64}
use goshkik_os.Sched.State.{
  ready, Privilege, ring_0, ring_3, Priority, low, Context, Thread, M, pure, ◌>>=◌, ◌>>◌, get,
  modify, load, store, lock_schedule_spin, unlock_schedule_spin, thread_mutex, kmalloc, kfree,
}
use goshkik_os.Sched.Queue.{link_tail}
use goshkik_os.Sched.Mutex.{acquire_mutex, release_mutex}
use goshkik_os.Sched.Lookup.{process_from_pid, process_add_thread}
use goshkik_os.Prelude.{
  ℕ, suc, ◌+◌, ◌-◌, ◌%◌, ◌^◌, Bool, true, false, ◌||◌, Option, none, some, List, [], ◌∷◌, leb, ◌==◌,
  if◌then◌else◌, set, replicate,
}

abbrev pub max_threads : ℕ
max_threads = 256

abbrev pub kstack_size : ℕ
kstack_size = 0x8000

abbrev pub tstack_size : ℕ
tstack_size = 0x4000

abbrev pub is_ring_3 : Privilege → Bool
is_ring_3 ring_0 = false
is_ring_3 ring_3 = true

-- `memset(t, 0, sizeof(thread_t))`
abbrev pub zero_context : Context
zero_context = record {
  rip = 0;
  rsp = 0;
  rdi = 0;
  rsi = 0;
  rflags = 0;
  cs = 0;
  ss = 0;
  others = replicate 15 0;
}

abbrev pub zero_thread : Thread
zero_thread = record {
  tid = 0;
  o_pid = 0;
  proc = 0;
  state = ready;
  privilege = ring_0;
  priority = low;
  context = zero_context;
  stack_base = 0;
  stack_size = 0;
  kernel_stack = 0;
  cooldown = 0;
  next = 0;
}

-- the first context of a thread
abbrev pub start_context : ℕ → ℕ → ℕ → ℕ → Privilege → Context
start_context function argc argv stack_base privilege = record zero_context {
  rip = function;
  rsp = (stack_base + tstack_size - 8) % 2 ^ 64;
  rdi = argc;
  rsi = argv;
  rflags = 0x202;
  cs = if is_ring_3 privilege then user_code64 else kernel_code64;
  ss = if is_ring_3 privilege then user_data64 else kernel_data64;
}

-- `if (p) kfree(p)`
abbrev pub kfree_if : Ptr → M (Unit {0})
kfree_if p = if p == 0 then pure tt else kfree p

-- The thread's stacks, and whether both that it needs were there; what a failure frees is freed.
unfoldable pub alloc_stacks : Ptr → Privilege → M Bool
alloc_stacks p ring_3 = do
  base ← kmalloc
  kstack ← kmalloc
  t ← load p
  store p (record t { stack_base = base; kernel_stack = kstack })
  if base == 0 || kstack == 0
      then (do kfree_if base; kfree_if kstack; kfree p; pure false)
      else pure true
alloc_stacks p ring_0 = do
  base ← kmalloc
  t ← load p
  store p (record t { stack_base = base; kernel_stack = 0 })
  if base == 0 then (do kfree p; pure false) else pure true

-- `t->proc = NULL; …`: the process that owns the thread; owner 0 is the kernel's process
unfoldable pub attach : ℕ → Ptr → ℕ → M (Unit {0})
attach fuel p owner_pid = do
  t ← load p
  store p (record t { proc = 0 })
  owner ← process_from_pid fuel (pos owner_pid)
  if owner == 0
      then pure tt
      else (do process_add_thread fuel owner p; t ← load p; store p (record t { proc = owner }))

-- the first NULL at or after `i` in the rest of the table
abbrev pub free_slot : ℕ → List Ptr → Option ℕ
free_slot i [] = none
free_slot i (p ∷ ps) = let rest = free_slot (suc i) ps in if p == 0 then some i else rest

-- slot 0 is the kernel thread's: the search starts at 1
abbrev pub rest_of : List Ptr → List Ptr
rest_of [] = []
rest_of (p ∷ ps) = ps

unfoldable pub place : Ptr → M Bool
place p = do
  k ← get
  elim (free_slot 1 (rest_of k.thread_table)) [
    | none ↦ pure false
    | some i ↦ (do
      modify (λ k. record k {
        thread_table = set k.thread_table i p;
        thread_count = (k.thread_count + 1) % 2 ^ 32;
      })
      pure true)
  ]

-- no slot: the stacks and the thread are freed
unfoldable pub discard : Ptr → Privilege → M Ptr
discard p privilege = do
  t ← load p
  kfree t.stack_base
  if is_ring_3 privilege then kfree t.kernel_stack else pure tt
  kfree p
  pure 0

-- the fields that thread_create sets before it allocates the stacks
abbrev pub fresh_thread : ℕ → ℕ → Privilege → Priority → Thread
fresh_thread tid owner privilege priority = record zero_thread {
  tid = tid;
  o_pid = owner;
  state = ready;
  privilege = privilege;
  priority = priority;
  stack_size = tstack_size;
  next = 0;
}

-- thread_create from the allocated thread on, up to the unlocking of the table
unfoldable pub set_up : ℕ → Ptr → ℕ → ℕ → ℕ → Privilege → Priority → ℕ → M Ptr
set_up fuel p function argc argv privilege priority owner_pid = do
  k ← get
  store p (fresh_thread k.next_tid owner_pid privilege priority)
  modify (λ k. record k { next_tid = (k.next_tid + 1) % 2 ^ 32 })
  have_stacks ← alloc_stacks p privilege
  if have_stacks
      then (do
        t ← load p
        store p (record t { context = start_context function argc argv t.stack_base privilege })
        attach fuel p owner_pid
        placed ← place p
        if placed then pure p else discard p privilege)
      else pure 0

unfoldable pub thread_create : ℕ → ℕ → ℕ → ℕ → Privilege → Priority → ℕ → M Ptr
thread_create fuel function argc argv privilege priority owner_pid =
    if function == 0 then pure 0 else (do
      acquire_mutex fuel thread_mutex
      k ← get
      p ← (if leb max_threads k.thread_count then pure 0 else kmalloc)
      made ←
          (if p == 0 then pure 0 else set_up fuel p function argc argv privilege priority owner_pid)
      release_mutex fuel thread_mutex
      if made == 0
          then pure 0
          else (do lock_schedule_spin; link_tail made; unlock_schedule_spin; pure made))
