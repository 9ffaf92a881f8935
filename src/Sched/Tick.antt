-- ===== src/Sched/Tick.antt =====
-- scheduler_tick of scheduler.c and context_switch of context_switch.asm. priority_counter, which
-- nothing reads, is left out.
pub mod Laws
mod Tests
use goshkik_os.Prelude.Memory.{Ptr}
use goshkik_os.Arch.Gdt.{user_code64, user_data64}
use goshkik_os.Sched.State.{
  ThreadState, ready, running, blocked, termed, Priority, low, bg, normal, high, important,
  immediate, priority_levels, Context, ProcessState, proc_zombie, out_of_fuel, M, pure, ◌>>=◌, ◌>>◌,
  get, modify, load, store, set_state, load_proc, lock_schedule_spin, unlock_schedule_spin,
  thread_mutex,
}
use goshkik_os.Sched.Queue.{
  enqueue_ready_tail, dequeue_ready_head, remove_from_ready_queue, is_termed,
}
use goshkik_os.Sched.Mutex.{acquire_mutex, release_mutex}
use goshkik_os.Sched.Thread.{is_ring_3, kstack_size, rest_of}
use goshkik_os.Sched.Ending.{clean_up}
use goshkik_os.Prelude.{
  ℕ, zero, suc, ◌+◌, ◌-◌, ◌%◌, ◌^◌, bit_or, Bool, true, false, ◌&&◌, Option, none, some, List, [],
  ◌∷◌, ltb, ◌==◌, if◌then◌else◌, get_or, set,
}

unfoldable pub priority_to_stride : Priority → ℕ
priority_to_stride immediate = 1
priority_to_stride important = 2
priority_to_stride high = 4
priority_to_stride normal = 8
priority_to_stride bg = 16
priority_to_stride low = 32
priority_to_stride priority_levels = 8

abbrev pub is_zombie : ProcessState → Bool
is_zombie proc_zombie = true
is_zombie _ = false

abbrev pub is_ready : ThreadState → Bool
is_ready ready = true
is_ready _ = false

-- whether the state is THREAD_BLOCKED or THREAD_TERMED
abbrev pub is_stopped : ThreadState → Bool
is_stopped blocked = true
is_stopped termed = true
is_stopped _ = false

-- the registers after context_switch: the vector and the error code stay for ring 3
unfoldable pub context_switch : Context → Context → Bool → Context
context_switch old new false = new
context_switch old new true = record new {
  rflags = bit_or new.rflags 0x200;
  cs = user_code64;
  ss = user_data64;
  others = set (set new.others 13 (get_or old.others 13 0)) 14 (get_or old.others 14 0);
}

-- `if (old) switch (old->state)`: what becomes of the interrupted thread
pub put_back : ℕ → Ptr → M (Unit {0})
put_back fuel old = if old == 0 then pure tt else (do
  t ← load old
  if is_stopped t.state
      then (do
        lock_schedule_spin
        remove_from_ready_queue fuel old
        unlock_schedule_spin
        modify (λ k. record k { current_thread = 0 }))
      else (do
        set_state old ready
        lock_schedule_spin
        enqueue_ready_tail old
        unlock_schedule_spin))

-- the first thread off the queue whose process is not a zombie
unfoldable pub next_ready : ℕ → M Ptr
next_ready zero = λ _. out_of_fuel
next_ready (suc f) = do
  p ← dequeue_ready_head
  if p == 0 then pure 0 else (do
    t ← load p
    if t.proc == 0 then pure p else (do
      process ← load_proc t.proc
      if is_zombie process.state then next_ready f else pure p))

-- the first ready thread in the rest of the table
unfoldable pub find_ready : List Ptr → M Ptr
find_ready [] = pure 0
find_ready (p ∷ ps) =
    if p == 0
    then find_ready ps
    else (do t ← load p; if is_ready t.state then pure p else find_ready ps)

-- `if (!next) …`, with the table's lock: a ready thread of the table from slot 1 on
unfoldable pub or_from_table : ℕ → Ptr → M Ptr
or_from_table fuel p =
    if p == 0
    then (do
      acquire_mutex fuel thread_mutex
      k ← get
      t ← find_ready (rest_of k.thread_table)
      release_mutex fuel thread_mutex
      pure t)
    else pure p

-- and then the kernel's thread, if it has not terminated
unfoldable pub or_kernel_thread : Ptr → M Ptr
or_kernel_thread p =
    if p == 0
    then (do
      k ← get
      let first = get_or k.thread_table 0 0
      if first == 0
          then pure 0
          else (do t ← load first; pure (if is_termed t.state then 0 else first)))
    else pure p

-- from the committed selection to the end of scheduler_tick
unfoldable pub switch_to : ℕ → Context → Ptr → M Context
switch_to fuel context p = do
  modify (λ k. record k { current_thread = p })
  set_state p running
  t ← load p
  if is_ring_3 t.privilege
      then modify (λ k. record k { rsp0 = (t.kernel_stack + kstack_size - 8) % 2 ^ 64 })
      else pure tt
  unlock_schedule_spin
  clean_up fuel
  pure (context_switch context t.context (is_ring_3 t.privilege))

-- `for (;;)`: `continue` is the call with less fuel
unfoldable pub select : ℕ → ℕ → Context → M Context
select fuel zero context = λ _. out_of_fuel
select fuel (suc f) context = do
  lock_schedule_spin
  p ← next_ready fuel
  unlock_schedule_spin
  p ← or_from_table fuel p
  p ← or_kernel_thread p
  if p == 0 then pure context else (do
    t ← load p
    if is_stopped t.state
        then (do
          lock_schedule_spin
          remove_from_ready_queue fuel p
          unlock_schedule_spin
          select fuel f context)
        else (if ltb 0 t.cooldown
            then (do
              store p (record t { cooldown = t.cooldown - 1 })
              lock_schedule_spin
              enqueue_ready_tail p
              unlock_schedule_spin
              select fuel f context)
            else (do
              store p (record t { cooldown = priority_to_stride t.priority - 1 })
              if is_ring_3 t.privilege && (t.kernel_stack == 0)
                  then (do set_state p termed; select fuel f context)
                  else switch_to fuel context p)))

-- `none` is a NULL context; the result is what the context holds at the end
pub scheduler_tick : ℕ → Option Context → M (Option Context)
scheduler_tick fuel none = pure none
scheduler_tick fuel (some context) = do
  k ← get
  if k.current_thread == 0
      then pure tt
      else (do t ← load k.current_thread; store k.current_thread (record t { context = context }))
  put_back fuel k.current_thread
  c ← select fuel fuel context
  pure (some c)
