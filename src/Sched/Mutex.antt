-- ===== src/Sched/Mutex.antt =====
-- mutex.c, and thread_block of thread.c, which acquire_mutex calls and which itself takes thread_mutex.
pub mod Laws
pub mod Stuck
pub mod Table
mod Tests
use goshkik_os.Prelude.Memory.{Ptr}
use goshkik_os.Sched.State.{
  ready, blocked, deadlock, out_of_fuel, M, pure, ◌>>=◌, ◌>>◌, get, load, set_next, set_state,
  get_mutex, put_mutex, thread_mutex, hcf, switch_away,
}
use goshkik_os.Sched.Queue.{add_to_ready_queue, remove_from_ready_queue}
use goshkik_os.Prelude.{
  ℕ, zero, suc, ◌+◌, ◌-◌, ◌%◌, ◌^◌, true, false, List, [], ◌∷◌, ◌==◌, if◌then◌else◌,
}

-- spinlock_acquire and spinlock_release on `mutex->lock`
pub acquire_spin : ℕ → M (Unit {0})
acquire_spin m = do
  x ← get_mutex m
  if x.lock then (λ _. deadlock) else put_mutex m (record x { lock = true })

pub release_spin : ℕ → M (Unit {0})
release_spin m = do x ← get_mutex m; put_mutex m (record x { lock = false })

unfoldable pub init_mutex : ℕ → M (Unit {0})
init_mutex m = put_mutex m (record {
  lock = false;
  locked = false;
  owner = 0;
  waiter_head = 0;
  waiter_tail = 0;
  waiter_count = 0;
})

-- the current thread joins the waiters of the mutex
pub enqueue_waiter : ℕ → M (Unit {0})
enqueue_waiter m = do
  k ← get
  set_state k.current_thread blocked
  set_next k.current_thread 0
  x ← get_mutex m
  if x.waiter_tail == 0
      then put_mutex m (record x {
        waiter_head = k.current_thread;
        waiter_tail = k.current_thread;
        waiter_count = (x.waiter_count + 1) % 2 ^ 64;
      })
      else (do
        set_next x.waiter_tail k.current_thread
        put_mutex m (record x {
          waiter_tail = k.current_thread;
          waiter_count = (x.waiter_count + 1) % 2 ^ 64;
        }))

-- `if (mutex->waiter_head) …`: the longest waiting thread becomes ready
pub wake_first : ℕ → ℕ → M (Unit {0})
wake_first fuel m = do
  x ← get_mutex m
  if x.waiter_head == 0 then pure tt else (do
    t ← load x.waiter_head
    put_mutex m (record x {
      waiter_head = t.next;
      waiter_tail = if t.next == 0 then 0 else x.waiter_tail;
      waiter_count = if x.waiter_count == 0 then 2 ^ 64 - 1 else x.waiter_count - 1;
    })
    set_state x.waiter_head ready
    add_to_ready_queue fuel x.waiter_head)

pub release_mutex : ℕ → ℕ → M (Unit {0})
release_mutex fuel m = do
  acquire_spin m
  x ← get_mutex m
  k ← get
  if x.owner == k.current_thread
      then (do
        put_mutex m (record x { locked = false; owner = 0 })
        wake_first fuel m
        release_spin m)
      else release_spin m

-- the thread with this identifier in a part of the table, NULL if there is none
pub find_tid : ℕ → List Ptr → M Ptr
find_tid tid [] = pure 0
find_tid tid (p ∷ ps) =
    if p == 0
    then find_tid tid ps
    else (do t ← load p; if t.tid == tid then pure p else find_tid tid ps)

pub thread_from_tid : ℕ → M Ptr
thread_from_tid tid = do k ← get; find_tid tid k.thread_table

-- the body of thread_block, with the way in which it takes thread_mutex
pub block_with : {A : Type 0} → M (Unit {0}) → ℕ → ℕ → M A
block_with lock_thread_mutex fuel tid = do
  lock_thread_mutex
  p ← thread_from_tid tid
  release_mutex fuel thread_mutex
  if p == 0 then hcf else (do
    t ← load p
    if t.tid == 0
        then hcf
        else (do set_state p blocked; remove_from_ready_queue fuel p; switch_away))

-- The loop tries again behind thread_block. That function is declared noreturn, and its interrupt is
-- followed by __builtin_unreachable, so that its run ends in switch_away.
pub acquire_mutex : ℕ → ℕ → M (Unit {0})
acquire_mutex zero m = λ _. out_of_fuel
acquire_mutex (suc fuel) m = do
  acquire_spin m
  x ← get_mutex m
  k ← get
  if x.locked
      then (do
        enqueue_waiter m
        release_spin m
        t ← load k.current_thread
        block_with {A = Unit {0}} (acquire_mutex fuel thread_mutex) fuel t.tid
        acquire_mutex fuel m)
      else (do put_mutex m (record x { locked = true; owner = k.current_thread }); release_spin m)

unfoldable pub thread_block : {A : Type 0} → ℕ → ℕ → M A
thread_block fuel tid = block_with (acquire_mutex fuel thread_mutex) fuel tid
