-- ===== src/Sched/Mutex/Stuck.antt =====
-- acquire_mutex and thread_block call each other: what this means for thread_mutex.
use goshkik_os.Prelude.Memory.{Ptr, update, update_same, update_other}
use goshkik_os.Sched.State.{blocked, Thread, Kernel, ok, out_of_fuel, thread_mutex}
use goshkik_os.Sched.Mutex.{enqueue_waiter, block_with, acquire_mutex}
use goshkik_os.Sched.Mutex.Laws.{with_mutex, acquire_spin-ok, release_spin-ok}
use goshkik_os.Sched.Queue.Laws.{load-ok, set_next-ok, set_state-ok}
use goshkik_os.Sched.Queue.Seg.{with_next}
use goshkik_os.Prelude.{
  ℕ, zero, suc, ◌+◌, ◌%◌, ◌^◌, ◌≡◌, refl, sym, ◌∙◌, subst, ◌≢◌, ◌⊎◌, inl, inr, true, false, Option,
  some, ◌==◌, ne→==, ==_false, Bool-cases,
}

-- a thread stands at p
abbrev Lives : (Ptr → Option Thread) → Ptr → Type 0
Lives threads p = (p ≢ 0) × ((t : Thread) × (threads p ≡ some t))

Lives-update :
    (threads : Ptr → Option Thread) (p q : Ptr) (t : Thread)
    → Lives threads q
    → Lives (update threads p (some t)) q
Lives-update threads p q t (ne, (u, at')) = elim (Bool-cases (p == q)) [
  | inl e ↦ (ne, (t, rw e))
  | inr e ↦ (ne, (u, update_other threads p (some t) q (==_false p q e) ∙ at'))
]

-- thread_mutex is taken, its spinlock is free, and the current thread and the last waiter, if there is one,
-- are threads
pub record IsContended (k : Kernel) : Type 0 where
  pub current : Lives k.threads k.current_thread
  pub tail :
      ((k.mutexes thread_mutex).waiter_tail ≡ 0)
      ⊎ Lives k.threads (k.mutexes thread_mutex).waiter_tail
  pub locked : (k.mutexes thread_mutex).locked ≡ true
  pub spin_free : (k.mutexes thread_mutex).lock ≡ false

-- the current thread has become the last waiter
record Waits (k k' : Kernel) : Type 0 where
  same_current : k'.current_thread ≡ k.current_thread
  current : Lives k'.threads k.current_thread
  tail : (k'.mutexes thread_mutex).waiter_tail ≡ k.current_thread
  locked : (k'.mutexes thread_mutex).locked ≡ (k.mutexes thread_mutex).locked

-- the threads after `state = THREAD_BLOCKED` and `next = NULL` for the thread t at c
abbrev parked : Kernel → Ptr → Thread → Kernel
parked k c t = record k {
  threads =
      update (update k.threads c (some (record t { state = blocked }))) c
        (some (with_next (record t { state = blocked }) 0));
}

enqueue_waiter-Waits :
    (k : Kernel)
    → Lives k.threads k.current_thread
    → ((k.mutexes thread_mutex).waiter_tail ≡ 0)
      ⊎ Lives k.threads (k.mutexes thread_mutex).waiter_tail
    → (k' : Kernel) × (enqueue_waiter thread_mutex k ≡ ok tt k') × Waits k k'
unfolding enqueue_waiter
enqueue_waiter-Waits k (ne, (t, at')) last =
    let c = k.current_thread in
    let t1 : Thread = record t { state = blocked } in
    let k1 : Kernel = record k { threads = update k.threads c (some t1) } in
    let k2 = parked k c t in
    let run1 = set_state-ok k c t ne at' blocked in
    let run2 = set_next-ok k1 c t1 ne (update_same k.threads c (some t1)) 0 in
    let alive : Lives k2.threads c =
      (ne, (with_next t1 0, update_same k1.threads c (some (with_next t1 0)))) in
    let x = k.mutexes thread_mutex in
    elim last [
      | inl nil ↦ (
        with_mutex k2 thread_mutex (record x {
          waiter_head = c;
          waiter_tail = c;
          waiter_count = (x.waiter_count + 1) % 2 ^ 64;
        }),
        rw (run1, run2, nil) refl,
        record { same_current = refl; current = alive; tail = refl; locked = refl },
      )
      | inr (nz, (u, at_tail)) ↦
          let (nz2, (w, at2)) =
            Lives-update k1.threads c x.waiter_tail (with_next t1 0)
              (Lives-update k.threads c x.waiter_tail t1 (nz, (u, at_tail))) in
          let run3 = set_next-ok k2 x.waiter_tail w nz at2 c in
          (
            with_mutex
                (record k2 { threads = update k2.threads x.waiter_tail (some (with_next w c)) })
                thread_mutex
                (record x { waiter_tail = c; waiter_count = (x.waiter_count + 1) % 2 ^ 64 }),
            rw (run1, run2, ne→== x.waiter_tail 0 nz, run3) refl,
            record {
              same_current = refl;
              current = Lives-update k2.threads x.waiter_tail c (with_next w c) alive;
              tail = refl;
              locked = refl;
            },
          )
    ]

-- If thread_mutex is taken, its spinlock is free, and the current thread and the last waiter are threads,
-- a request for thread_mutex neither gets it nor gives the processor away: thread_block takes
-- thread_mutex itself before it does that, so that the calls nest without end, and any fuel, which
-- bounds their depth, is used up.
pub acquire_mutex-endless :
    (f : ℕ) (k : Kernel) → IsContended k → acquire_mutex f thread_mutex k ≡ out_of_fuel
unfolding acquire_mutex block_with
acquire_mutex-endless zero k h = refl
acquire_mutex-endless (suc f) k h =
    let x = k.mutexes thread_mutex in
    let k1 = with_mutex k thread_mutex (record x { lock = true; locked = true }) in
    let (k2, run, w) = enqueue_waiter-Waits k1 h.current h.tail in
    let y = k2.mutexes thread_mutex in
    let k3 = with_mutex k2 thread_mutex (record y { lock = false }) in
    let (ne, (t, at')) = w.current in
    let again : IsContended k3 = record {
      current = subst (Lives k2.threads) (sym w.same_current) w.current;
      tail = inr (subst (Lives k2.threads) (sym w.tail) w.current);
      locked = w.locked;
      spin_free = refl;
    } in
    rw
      (
        acquire_spin-ok k thread_mutex x refl h.spin_free,
        h.locked,
        run,
        release_spin-ok k2 thread_mutex y refl,
        load-ok k3 k.current_thread t ne at',
        acquire_mutex-endless f k3 again,
      )
      refl
