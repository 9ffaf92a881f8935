-- ===== src/Sched/Queue.antt =====
-- The ready queue of src/scheduling/scheduler.c: a list of threads linked through their `next` fields,
-- between the globals ready_head and ready_tail. The walks along it run on fuel.
pub mod Seg
pub mod Laws
pub mod Remove
pub mod Add
mod Tests
use goshkik_os.Prelude.Memory.{Ptr}
use goshkik_os.Sched.State.{
  ThreadState, ready, running, blocked, termed, Thread, Kernel, Outcome, ok, out_of_fuel, M, pure,
  ◌>>=◌, ◌>>◌, get, modify, load, set_next, set_state, lock_schedule_spin, unlock_schedule_spin,
}
use goshkik_os.Prelude.{
  ℕ, zero, suc, ◌+◌, ◌-◌, ◌*◌, ◌/◌, ◌%◌, ◌^◌, ◌≤◌, ◌<◌, bit_and, bit_or, ◌≡◌, refl, sym, ap, ap₂,
  ◌∙◌, fun_ext, subst, ◌≢◌, ◌↔◌, ◌⊎◌, inl, inr, Bool, true, false, not, ◌&&◌, ◌||◌, Option, none,
  some, List, [], ◌∷◌, ◌++◌, map, arith, ltb, leb, ◌==◌, if◌then◌else◌, ltb→lt, lt→ltb, le→ltb,
  ltb-false, leb→le, ==_iff, ==_refl, ne→==, ==_false, Bool-cases, Option-cases, length, get_elem?,
  get_or, set, replicate, length-append, length-set, length-replicate, get_or-replicate, get_or-set,
}

abbrev pub is_termed : ThreadState → Bool
is_termed termed = true
is_termed _ = false

-- the part of an enqueue that thread_create and thread_unblock repeat in place
pub link_tail : Ptr → M (Unit {0})
link_tail t = do
  k ← get
  if k.ready_head == 0
      then modify (λ k. record k { ready_head = t; ready_tail = t })
      else (do set_next k.ready_tail t; modify (λ k. record k { ready_tail = t }))

pub enqueue_ready_tail : Ptr → M (Unit {0})
enqueue_ready_tail t = if t == 0 then pure tt else (do set_next t 0; link_tail t)

pub dequeue_ready_head : M Ptr
dequeue_ready_head = do
  k ← get
  if k.ready_head == 0 then pure 0 else (do
    t ← load k.ready_head
    modify (λ k. record k {
      ready_head = t.next;
      ready_tail = if t.next == 0 then 0 else k.ready_tail;
    })
    set_next k.ready_head 0
    pure k.ready_head)

-- `while (check) { if (check == t) …; check = check->next; }`: whether t is in the queue
pub in_queue : ℕ → Ptr → Ptr → M Bool
in_queue zero t check = λ _. out_of_fuel
in_queue (suc f) t check =
    if check == 0
    then pure false
    else (if check == t then pure true else (do c ← load check; in_queue f t c.next))

pub add_to_ready_queue : ℕ → Ptr → M (Unit {0})
add_to_ready_queue fuel t = if t == 0 then pure tt else (do
  thread ← load t
  if is_termed thread.state then pure tt else (do
    lock_schedule_spin
    k ← get
    found ← in_queue fuel t k.ready_head
    if found
        then unlock_schedule_spin
        else (do set_next t 0; set_state t ready; enqueue_ready_tail t; unlock_schedule_spin)))

-- `if (prev) prev->next = next; else ready_head = next`
pub unlink : Ptr → Ptr → M (Unit {0})
unlink prev next =
    if prev == 0 then modify (λ k. record k { ready_head = next }) else set_next prev next

-- what remove_from_ready_queue does once it has found t between `prev` and `next`
pub drop_thread : Ptr → Ptr → Ptr → M (Unit {0})
unfolding unlink
drop_thread t prev next = do
  unlink prev next
  modify (λ k. record k { ready_tail = if t == k.ready_tail then prev else k.ready_tail })
  set_next t 0

-- the loop of remove_from_ready_queue, from `prev` and `cur` on
pub remove_loop : ℕ → Ptr → Ptr → Ptr → M (Unit {0})
remove_loop zero t prev cur = λ _. out_of_fuel
remove_loop (suc f) t prev cur = if cur == 0 then pure tt else (do
  c ← load cur
  if cur == t then drop_thread t prev c.next else remove_loop f t cur c.next)

pub remove_from_ready_queue : ℕ → Ptr → M (Unit {0})
remove_from_ready_queue fuel t =
    if t == 0
    then pure tt
    else (do lock_schedule_spin; k ← get; remove_loop fuel t 0 k.ready_head; unlock_schedule_spin)
