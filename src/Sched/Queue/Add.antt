-- ===== src/Sched/Queue/Add.antt =====
-- add_to_ready_queue of scheduler.c on a well-formed queue.
use goshkik_os.Prelude.Memory.{Ptr, update}
use goshkik_os.Sched.State.{ready, Thread, Kernel, lock_schedule_spin, unlock_schedule_spin}
use goshkik_os.Sched.Queue.{is_termed, add_to_ready_queue}
use goshkik_os.Sched.Queue.Seg.{has, IsQueue, frame-Seg, with_next}
use goshkik_os.Sched.Queue.Laws.{
  Returns, load-ok, set_next-ok, set_state-ok, in_queue-has, enqueue_ready_tail-IsQueue,
}
use goshkik_os.Prelude.{
  ℕ, ◌<◌, ◌≡◌, refl, ◌≢◌, inl, inr, true, false, ◌||◌, some, List, [], ◌∷◌, ◌++◌, arith,
  if◌then◌else◌, ne→==, Bool-cases, length,
}

-- the queue after add_to_ready_queue
abbrev pub queued : Thread → Ptr → List Ptr → List Ptr
queued c t xs = if is_termed c.state || has t xs then xs else xs ++ t ∷ []

-- With its lock free and fuel for the queue, add_to_ready_queue returns with its lock free; a thread
-- that has not terminated and is not in the queue is last in it, and for any other the queue
-- is as before: no thread stands in it twice. No
-- mutex is changed.
pub add_to_ready_queue-IsQueue :
    (f : ℕ) (k : Kernel) (t : Ptr) (xs : List Ptr) (c : Thread)
    → k.schedule_lock ≡ false
    → IsQueue k xs
    → length xs < f
    → t ≢ 0
    → k.threads t ≡ some c
    → Returns
        (add_to_ready_queue f t k)
        (λ _ k'. IsQueue k' (queued c t xs) × (k'.schedule_lock ≡ false) × (k'.mutexes ≡ k.mutexes))
unfolding add_to_ready_queue lock_schedule_spin unlock_schedule_spin
add_to_ready_queue-IsQueue f k t xs c free q h nt hc = elim (Bool-cases (is_termed c.state)) [
  | inl dead ↦ (tt, k, rw (ne→== t 0 nt, load-ok k t c nt hc, dead), (rw dead q, free, refl))
  | inr alive ↦
      let held = record k { schedule_lock = true } in
      elim (Bool-cases (has t xs)) [
        | inl here ↦ (
          tt,
          record k { schedule_lock = false },
          rw (
            ne→== t 0 nt,
            load-ok k t c nt hc,
            alive,
            free,
            in_queue-has f held t k.ready_head xs q.chain h,
            here,
          ),
          (rw (alive, here) (record { chain = q.chain; tail = q.tail }), refl, refl),
        )
        | inr fresh ↦
            let h1 = update k.threads t (some (with_next c 0)) in
            let c2 = record c { next = 0; state = ready } in
            let h2 = update h1 t (some c2) in
            let (a, k', run, p) =
              enqueue_ready_tail-IsQueue (record held { threads = h2 }) xs t c2
                (record {
                  chain =
                      frame-Seg h1 t _ k.ready_head xs fresh
                        (frame-Seg k.threads t _ k.ready_head xs fresh q.chain);
                  tail = q.tail;
                })
                fresh nt (ground arith) in
            (
              tt,
              record k' { schedule_lock = false },
              rw (
                ne→== t 0 nt,
                load-ok k t c nt hc,
                alive,
                free,
                in_queue-has f held t k.ready_head xs q.chain h,
                fresh,
                set_next-ok held t c nt hc 0,
                set_state-ok (record held { threads = h1 }) t (with_next c 0) nt (ground arith)
                    ready,
                run,
              ),
              (
                rw (alive, fresh) (record { chain = p.0.chain; tail = p.0.tail }),
                refl,
                p.1.mutexes,
              ),
            )
      ]
]
