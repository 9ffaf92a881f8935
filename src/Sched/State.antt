-- ===== src/Sched/State.antt =====
-- The state that src/scheduling works on: the structs of thread.h, process.h, mutex.h and kernel.h,
-- and the ways in which kernel code can end. Threads and processes live in heaps of their own; a
-- pointer is an address, and NULL is 0.
use goshkik_os.Prelude.{
  ℕ, ◌+◌, Bool, true, false, Option, none, some, List, [], ◌∷◌, ◌==◌, if◌then◌else◌,
}
use goshkik_os.Prelude.Memory.{Ptr, update}
use goshkik_os.Prelude.Int.{ℤ, negsuc}

-- `thread_state_t`
pub data ThreadState : Type 0 where
  ready running blocked termed : ThreadState

-- `thread_privilege_t`
pub data Privilege : Type 0 where
  ring_0 ring_3 : Privilege

-- `thread_priority_t`, with its count as a further value
pub data Priority : Type 0 where
  low bg normal high important immediate priority_levels : Priority

-- `context_t`: the registers that the kernel sets, and the others, which it only copies
pub record Context : Type 0 where
  pub rip : ℕ
  pub rsp : ℕ
  pub rdi : ℕ
  pub rsi : ℕ
  pub rflags : ℕ
  pub cs : ℕ
  pub ss : ℕ
  pub others : List ℕ

-- `thread_t`, without the fields that no function reads or sets
pub record Thread : Type 0 where
  pub tid : ℕ
  pub o_pid : ℕ
  pub proc : Ptr
  pub state : ThreadState
  pub privilege : Privilege
  pub priority : Priority
  pub context : Context
  pub stack_base : ℕ
  pub stack_size : ℕ
  pub kernel_stack : ℕ
  pub cooldown : ℕ
  pub next : Ptr

-- `process_state_t`
pub data ProcessState : Type 0 where
  proc_ready proc_running proc_blocked proc_zombie proc_exited : ProcessState

-- `process_t`, without credentials, directories and files, which src/scheduling only zeroes. Its mutex
-- is number p + 2, for the process at address p.
pub record Process : Type 0 where
  pub pid : ℕ
  pub ppid : ℕ
  pub state : ProcessState
  pub umask : ℕ
  pub main_thread : Ptr
  pub wait_head : Ptr
  pub wait_tail : Ptr
  pub address_space : ℕ
  pub exit_code : ℕ

-- `mutex_t`; `lock` says whether its spinlock is held
pub record Mutex : Type 0 where
  pub lock : Bool
  pub locked : Bool
  pub owner : Ptr
  pub waiter_head : Ptr
  pub waiter_tail : Ptr
  pub waiter_count : ℕ

-- The kernel table, without the answers of the boot loader and the clock, and the globals of thread.c,
-- scheduler.c and process.c; `rsp0` is the stack of the task state segment. `supply` holds what the
-- next calls of kmalloc return, 0 once it is empty; `freed` is what kfree was given, latest first.
pub record Kernel : Type 0 where
  pub threads : Ptr → Option Thread
  pub procs : Ptr → Option Process
  pub mutexes : ℕ → Mutex
  pub schedule_lock : Bool
  pub ready_head : Ptr
  pub ready_tail : Ptr
  pub current_thread : Ptr
  pub thread_table : List Ptr
  pub thread_count : ℕ
  pub next_tid : ℕ
  pub process_table : List Ptr
  pub next_pid : ℕ
  pub rsp0 : ℕ
  pub supply : List Ptr
  pub freed : List Ptr

-- How a call ends: by returning; by giving the processor away for good (`int 0x20` and the switch to
-- another context); in hcf; spinning on a lock that is held; at a NULL or dangling pointer; or with
-- the fuel of a loop used up.
pub data Outcome (A : Type 0) : Type 0 where
  ok : A → Kernel → Outcome A
  switched : Kernel → Outcome A
  halted : Outcome A
  deadlock : Outcome A
  fault : Outcome A
  out_of_fuel : Outcome A

abbrev pub M : Type 0 → Type 0
M A = Kernel → Outcome A

abbrev pub pure : {A : Type 0} → A → M A
pure = ok

module _ {A B : Type 0} where
  abbrev pub and_then : Outcome A → (A → M B) → Outcome B
  and_then (ok a k) f = f a k
  and_then (switched k) f = switched k
  and_then halted f = halted
  and_then deadlock f = deadlock
  and_then fault f = fault
  and_then out_of_fuel f = out_of_fuel

  infixl 5 ◌>>=◌ ◌>>◌
  abbrev pub ◌>>=◌ : M A → (A → M B) → M B
  m >>= f = λ k. and_then (m k) f

  abbrev pub ◌>>◌ : M A → M B → M B
  m >> n = m >>= λ _. n

-- the state itself, and a change of it
abbrev pub get : M Kernel
get k = ok k k

abbrev pub modify : (Kernel → Kernel) → M (Unit {0})
modify f k = ok tt (f k)

-- `*t`, a fault at NULL and at an address that holds no thread
unfoldable pub load : Ptr → M Thread
load p k = if p == 0 then fault else elim (k.threads p) [ none ↦ fault | some t ↦ ok t k ]

unfoldable pub store : Ptr → Thread → M (Unit {0})
store p t k = ok tt (record k { threads = update k.threads p (some t) })

-- `t->next = q` and `t->state = s`
unfoldable pub set_next : Ptr → Ptr → M (Unit {0})
set_next p q = do t ← load p; store p (record t { next = q })

unfoldable pub set_state : Ptr → ThreadState → M (Unit {0})
set_state p s = do t ← load p; store p (record t { state = s })

-- spinlock_acquire and spinlock_release on the scheduler's lock, on one processor
unfoldable pub lock_schedule_spin : M (Unit {0})
lock_schedule_spin k =
    if k.schedule_lock then deadlock else ok tt (record k { schedule_lock = true })

unfoldable pub unlock_schedule_spin : M (Unit {0})
unlock_schedule_spin k = ok tt (record k { schedule_lock = false })

-- The mutexes by number: thread_mutex, process_table_lock and the lock of the process at p
abbrev pub thread_mutex : ℕ
thread_mutex = 0

abbrev pub process_table_lock : ℕ
process_table_lock = 1

abbrev pub lock_of : Ptr → ℕ
lock_of p = p + 2

-- `hcf()`, and the timer interrupt after which the caller never runs on
abbrev pub hcf : {A : Type 0} → M A
hcf k = halted

abbrev pub switch_away : {A : Type 0} → M A
switch_away k = switched k

abbrev pub get_mutex : ℕ → M Mutex
get_mutex m k = ok (k.mutexes m) k

abbrev pub put_mutex : ℕ → Mutex → M (Unit {0})
put_mutex m x = modify (λ k. record k { mutexes = update k.mutexes m x })

-- `*p` for a process, and an assignment to it
unfoldable pub load_proc : Ptr → M Process
load_proc p k = if p == 0 then fault else elim (k.procs p) [ none ↦ fault | some t ↦ ok t k ]

unfoldable pub store_proc : Ptr → Process → M (Unit {0})
store_proc p t k = ok tt (record k { procs = update k.procs p (some t) })

-- the allocator, as the scheduler sees it
unfoldable pub kmalloc : M Ptr
kmalloc k = elim k.supply [ [] ↦ ok 0 k | x ∷ xs ↦ ok x (record k { supply = xs }) ]

-- freed memory holds neither a thread nor a process
unfoldable pub kfree : Ptr → M (Unit {0})
kfree p = modify (λ k. record k {
  threads = update k.threads p none;
  procs = update k.procs p none;
  freed = p ∷ k.freed;
})

-- -EPERM, -ESRCH, -ECHILD and -EINVAL
abbrev pub eperm : ℤ
eperm = negsuc 0

abbrev pub esrch : ℤ
esrch = negsuc 2

abbrev pub echild : ℤ
echild = negsuc 9

abbrev pub einval : ℤ
einval = negsuc 21
