-- ===== src/Sched/Queue/Laws.antt =====
-- The operations of the ready queue of scheduler.c refine those of a list of distinct threads.
use goshkik_os.Prelude.Memory.{Ptr, update, update_same, update_other}
use goshkik_os.Sched.State.{
  ThreadState, Thread, Kernel, Outcome, ok, load, store, set_next, set_state,
}
use goshkik_os.Sched.Queue.{link_tail, enqueue_ready_tail, dequeue_ready_head, in_queue}
use goshkik_os.Sched.Queue.Seg.{
  has, Seg, last, IsQueue, frame-Seg, with_next, append-Seg, last-append,
}
use goshkik_os.Prelude.{
  ℕ, zero, suc, ◌<◌, ◌≡◌, refl, sym, ap, ◌∙◌, subst, ◌≢◌, inl, inr, false, Option, some, List, [],
  ◌∷◌, ◌++◌, arith, ◌==◌, if◌then◌else◌, ne→==, Bool-cases, length,
}

-- the run ends normally, in a state that satisfies P
abbrev pub Returns : {A : Type 0} → Outcome A → (A → Kernel → Type 0) → Type 0
Returns {A} r P = (a : A) × (k : Kernel) × (r ≡ ok a k) × P a k

module _ (k : Kernel) (p : Ptr) (t : Thread) (ne : p ≢ 0) (e : k.threads p ≡ some t) where
  pub load-ok : load p k ≡ ok t k
  unfolding load
  load-ok = rw (ne→== p 0 ne, e)

  pub set_next-ok :
      (q : Ptr)
      → set_next p q k ≡ ok tt (record k { threads = update k.threads p (some (with_next t q)) })
  unfolding set_next store
  set_next-ok q = rw load-ok

  pub set_state-ok :
      (s : ThreadState)
      → set_state p s k
        ≡ ok tt (record k { threads = update k.threads p (some (record t { state = s })) })
  unfolding set_state store
  set_state-ok s = rw load-ok

-- everything but the ready queue and the threads' heap is as before
pub record SameRest (k k' : Kernel) : Type 0 where
  pub lock : k'.schedule_lock ≡ k.schedule_lock
  pub current : k'.current_thread ≡ k.current_thread
  pub table : k'.thread_table ≡ k.thread_table
  pub procs : k'.procs ≡ k.procs
  pub mutexes : k'.mutexes ≡ k.mutexes

link_tail-IsQueue :
    (k : Kernel) (xs : List Ptr) (t : Ptr) (u : Thread)
    → IsQueue k xs
    → has t xs ≡ false
    → t ≢ 0
    → k.threads t ≡ some u
    → u.next ≡ 0
    → Returns (link_tail t k) (λ _ k'. IsQueue k' (xs ++ t ∷ []) × SameRest k k')
unfolding link_tail
link_tail-IsQueue k [] t u q out nt hu nil =
    let e : k.ready_head ≡ 0 = q.chain in
    (
      tt,
      record k { ready_head = t; ready_tail = t },
      rw e,
      (
        record { chain = (refl, nt, refl, (u, hu, nil)); tail = refl },
        record { lock = refl; current = refl; table = refl; procs = refl; mutexes = refl },
      ),
    )
link_tail-IsQueue k (x ∷ xs) t u q out nt hu nil =
    let (l, hl, nl, seg) = append-Seg k.threads k.ready_head x xs t u q.chain out nt hu nil in
    let head : (k.ready_head == 0) ≡ false = ne→== _ _ (λ e. q.chain.1 (sym q.chain.0 ∙ e)) in
    (
      tt,
      record k { threads = update k.threads k.ready_tail (some (with_next l t)); ready_tail = t },
      rw (
        head,
        set_next-ok k k.ready_tail l (λ z. nl (sym q.tail ∙ z)) (ap k.threads q.tail ∙ hl) t,
      ),
      (
        record {
          chain =
              subst
                (λ a.
                  Seg (update k.threads a (some (with_next l t))) k.ready_head (x ∷ (xs ++ t ∷ [])))
                (sym q.tail) seg;
          tail = sym (last-append (x ∷ xs) t);
        },
        record { lock = refl; current = refl; table = refl; procs = refl; mutexes = refl },
      ),
    )

-- enqueue_ready_tail appends a thread that is not in the queue to it.
pub enqueue_ready_tail-IsQueue :
    (k : Kernel) (xs : List Ptr) (t : Ptr) (u : Thread)
    → IsQueue k xs
    → has t xs ≡ false
    → t ≢ 0
    → k.threads t ≡ some u
    → Returns (enqueue_ready_tail t k) (λ _ k'. IsQueue k' (xs ++ t ∷ []) × SameRest k k')
unfolding enqueue_ready_tail
enqueue_ready_tail-IsQueue k xs t u q out nt hu =
    let k1 = record k { threads = update k.threads t (some (with_next u 0)) } in
    let (a, k', run, p) =
      link_tail-IsQueue k1 xs t (with_next u 0)
        (record { chain = frame-Seg k.threads t _ k.ready_head xs out q.chain; tail = q.tail }) out
        nt (ground arith) refl in
    (
      a,
      k',
      rw (ne→== _ _ nt, set_next-ok k t u nt hu 0) run,
      (
        p.0,
        record {
          lock = p.1.lock;
          current = p.1.current;
          table = p.1.table;
          procs = p.1.procs;
          mutexes = p.1.mutexes;
        },
      ),
    )

-- the new tail after the head is taken off
tail_after :
    (h : Ptr → Option Thread) (n tail x : Ptr) (xs : List Ptr)
    → Seg h n xs
    → tail ≡ last (x ∷ xs)
    → (if n == 0 then 0 else tail) ≡ last xs
tail_after h n tail x [] s e = rw s
tail_after h n tail x (y ∷ ys) s e = rw (ne→== n 0 (λ z. s.1 (sym s.0 ∙ z))) e

-- the state after dequeue_ready_head has moved the head
abbrev taken : Kernel → Thread → Kernel
taken k u = record k { ready_head = u.next; ready_tail = if u.next == 0 then 0 else k.ready_tail }

-- what dequeue_ready_head does to a queue: NULL and the same state for the empty one; for another its first
-- thread, whose link is cleared while all other threads stay as they are
pub Dequeued : Kernel → List Ptr → Ptr → Kernel → Type 0
Dequeued k [] t k' = (t ≡ 0) × (k' ≡ k)
Dequeued k (x ∷ xs) t k' =
    (t ≡ x)
    × IsQueue k' xs
    × (k'
        ≡ record k { threads = k'.threads; ready_head = k'.ready_head; ready_tail = k'.ready_tail })
    × ((u : Thread) × (k.threads x ≡ some u) × (k'.threads x ≡ some (with_next u 0)))
    × ((p : Ptr) → p ≢ x → k'.threads p ≡ k.threads p)

-- dequeue_ready_head of any ready queue returns. On an empty queue it returns NULL and changes nothing.
-- Otherwise it returns the first thread, the others are left in the queue in their order, the link of
-- the first thread is NULL, and no other thread and nothing else of the kernel changes.
pub dequeue_ready_head-IsQueue :
    (k : Kernel) (xs : List Ptr) → IsQueue k xs → Returns (dequeue_ready_head k) (Dequeued k xs)
unfolding dequeue_ready_head Dequeued
dequeue_ready_head-IsQueue k [] q =
    let e : k.ready_head ≡ 0 = q.chain in (0, k, rw e refl, (refl, refl))
dequeue_ready_head-IsQueue k (x ∷ xs) q =
    let (e, ne, fresh, (u, hu, rest)) = q.chain in
    let n0 : k.ready_head ≢ 0 = λ z. ne (sym e ∙ z) in
    let at_head : k.threads k.ready_head ≡ some u = ap k.threads e ∙ hu in
    (
      k.ready_head,
      record k {
        threads = update k.threads k.ready_head (some (with_next u 0));
        ready_head = u.next;
        ready_tail = if u.next == 0 then 0 else k.ready_tail;
      },
      rw (
        ne→== k.ready_head 0 n0,
        load-ok k k.ready_head u n0 at_head,
        set_next-ok (taken k u) k.ready_head u n0 at_head 0,
      ),
      (
        e,
        record {
          chain = rw e (frame-Seg k.threads x _ u.next xs fresh rest);
          tail = tail_after k.threads u.next k.ready_tail x xs rest q.tail;
        },
        refl,
        (u, hu, rw e (update_same k.threads x (some (with_next u 0)))),
        λ p away. rw e (update_other k.threads x (some (with_next u 0)) p (λ z. away (sym z))),
      ),
    )

-- The walk along the queue finds exactly its threads.
pub in_queue-has :
    (f : ℕ) (k : Kernel) (t p : Ptr) (xs : List Ptr)
    → Seg k.threads p xs
    → length xs < f
    → in_queue f t p k ≡ ok (has t xs) k
unfolding in_queue
in_queue-has zero k t p xs s h = absurd (omega arith)
in_queue-has (suc f) k t p [] s h = rw s
in_queue-has (suc f) k t p (x ∷ xs) (e, ne, fresh, (u, hu, rest)) h = elim (Bool-cases (x == t)) [
  | inl here ↦ rw (e, ne→== x 0 ne, here) (ground arith)
  | inr there ↦
      rw (e, ne→== x 0 ne, there, load-ok k x u ne hu)
        (in_queue-has f k t u.next xs rest (omega arith) ∙ ground arith)
]
