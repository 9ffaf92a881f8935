-- ===== src/Sched/Queue/Remove.antt =====
-- remove_from_ready_queue of scheduler.c on a well-formed queue.
use goshkik_os.Prelude.Memory.{Ptr, update}
use goshkik_os.Sched.State.{Thread, Kernel, ok, deadlock, lock_schedule_spin, unlock_schedule_spin}
use goshkik_os.Sched.Queue.{drop_thread, remove_loop, remove_from_ready_queue}
use goshkik_os.Sched.Queue.Seg.{
  has, Seg, last, IsQueue, frame-Seg, with_next, erase, pred, Distinct, Seg-Distinct, not-has-erase,
  pred-ne, last-erase, erase-absent, has-last, unlink-Seg,
}
use goshkik_os.Sched.Queue.Laws.{Returns, SameRest, load-ok, set_next-ok}
use goshkik_os.Prelude.{
  ℕ, zero, suc, ◌<◌, ◌≡◌, refl, sym, ap, ◌∙◌, subst, ◌≢◌, inl, inr, true, false, Option, some, List,
  [], ◌∷◌, arith, ◌==◌, if◌then◌else◌, ==_iff, ne→==, Bool-cases, length,
}

-- The walk of remove_from_ready_queue finds t with the thread before it, or ends without a change.
remove_loop-absent :
    (f : ℕ) (k : Kernel) (t prev p : Ptr) (xs : List Ptr)
    → Seg k.threads p xs
    → length xs < f
    → has t xs ≡ false
    → remove_loop f t prev p k ≡ ok tt k
unfolding remove_loop
remove_loop-absent zero k t prev p xs s h out = absurd (omega arith)
remove_loop-absent (suc f) k t prev p [] s h out = rw s
remove_loop-absent (suc f) k t prev p (x ∷ xs) (e, ne, fresh, (u, hu, rest)) h out =
    let other : (x == t) ≡ false = ground arith in
    rw (e, ne→== x 0 ne, load-ok k x u ne hu, other)
      (remove_loop-absent f k t x u.next xs rest (omega arith) (ground arith))

remove_loop-found :
    (f : ℕ) (k : Kernel) (t prev p : Ptr) (xs : List Ptr) (c : Thread)
    → Seg k.threads p xs
    → length xs < f
    → has t xs ≡ true
    → k.threads t ≡ some c
    → remove_loop f t prev p k ≡ drop_thread t (pred prev t xs) c.next k
unfolding remove_loop
remove_loop-found zero k t prev p xs c s h i hc = absurd (omega arith)
remove_loop-found (suc f) k t prev p [] c s h i hc = cc
remove_loop-found (suc f) k t prev p (x ∷ xs) c (e, ne, fresh, (u, hu, rest)) h i hc =
    elim (Bool-cases (x == t)) [
      | inl here ↦
          let same : u.next ≡ c.next = ground arith in
          rw (e, ne→== x 0 ne, load-ok k x u ne hu, here) (ap (λ n. drop_thread t prev n k) same)
      | inr there ↦
          rw (e, ne→== x 0 ne, load-ok k x u ne hu, there)
            (remove_loop-found f k t x u.next xs c rest (omega arith) (ground arith) hc)
    ]

-- the state after `unlink` and the update of the tail
abbrev unlinked : Kernel → (Ptr → Option Thread) → Ptr → Ptr → Ptr → Kernel
unlinked k h head prev t = record k {
  threads = h;
  ready_head = head;
  ready_tail = if t == k.ready_tail then prev else k.ready_tail;
}

-- the tail after the head has been taken out
head_tail :
    (t tail : Ptr) (xs : List Ptr)
    → has t xs ≡ false
    → tail ≡ last (t ∷ xs)
    → (if t == tail then 0 else tail) ≡ last xs
head_tail t tail [] out e = ground arith
head_tail t tail (y ∷ ys) out e = ground (arith, has-last y ys)

drop_head-IsQueue :
    (k : Kernel) (t : Ptr) (xs : List Ptr) (c : Thread)
    → IsQueue k (t ∷ xs)
    → k.threads t ≡ some c
    → t ≢ 0
    → Returns (drop_thread t 0 c.next k) (λ _ k'. IsQueue k' xs × SameRest k k')
unfolding drop_thread
drop_head-IsQueue k t xs c q hc nt =
    let (e, ne, fresh, (u, hu, rest)) = q.chain in
    let same : u.next ≡ c.next = ground arith in
    (
      tt,
      record k {
        threads = update k.threads t (some (with_next c 0));
        ready_head = c.next;
        ready_tail = if t == k.ready_tail then 0 else k.ready_tail;
      },
      rw (set_next-ok (unlinked k k.threads c.next 0 t) t c nt hc 0),
      (
        record {
          chain =
              frame-Seg k.threads t _ c.next xs fresh (subst (λ n. Seg k.threads n xs) same rest);
          tail = head_tail t k.ready_tail xs fresh q.tail;
        },
        record { lock = refl; current = refl; table = refl; procs = refl; mutexes = refl },
      ),
    )

-- the tail after a later thread has been taken out
later_tail :
    (t x tail : Ptr) (xs : List Ptr)
    → has t xs ≡ true
    → Distinct xs
    → tail ≡ last (x ∷ xs)
    → (if t == tail then pred x t xs else tail) ≡ last (x ∷ erase t xs)
later_tail t x tail [] i d e = cc
later_tail t x tail (y ∷ ys) i d e =
    subst (λ l. (if t == l then pred x t (y ∷ ys) else l) ≡ last (x ∷ erase t (y ∷ ys))) (sym e)
      (sym (last-erase t x (y ∷ ys) i d))

drop_later-IsQueue :
    (k : Kernel) (t x : Ptr) (xs : List Ptr) (c : Thread)
    → IsQueue k (x ∷ xs)
    → has t xs ≡ true
    → x ≢ t
    → k.threads t ≡ some c
    → t ≢ 0
    → Returns
        (drop_thread t (pred x t xs) c.next k)
        (λ _ k'. IsQueue k' (x ∷ erase t xs) × SameRest k k')
unfolding drop_thread
drop_later-IsQueue k t x xs c q i nx hc nt =
    let (p, hp, np, seg) = unlink-Seg k.threads k.ready_head x t xs c q.chain i hc in
    let d : Distinct (x ∷ xs) = Seg-Distinct k.threads k.ready_head (x ∷ xs) q.chain in
    let pt : pred x t xs ≢ t = pred-ne x t xs d.0 i d.1 in
    let h1 = update k.threads (pred x t xs) (some (with_next p c.next)) in
    (
      tt,
      record k {
        threads = update h1 t (some (with_next c 0));
        ready_tail = if t == k.ready_tail then pred x t xs else k.ready_tail;
      },
      rw (
        ne→== _ _ np,
        set_next-ok k (pred x t xs) p np hp c.next,
        set_next-ok (unlinked k h1 k.ready_head (pred x t xs) t) t c nt (rw (ne→== _ _ pt) hc) 0,
      ),
      (
        record {
          chain =
              frame-Seg h1 t _ k.ready_head (x ∷ erase t xs)
                (ground (arith, not-has-erase t xs d.1)) seg;
          tail = later_tail t x k.ready_tail xs i d.1 q.tail;
        },
        record { lock = refl; current = refl; table = refl; procs = refl; mutexes = refl },
      ),
    )

-- Taking out a thread that is in the queue: the queue is the list without it.
drop_thread-IsQueue :
    (k : Kernel) (t : Ptr) (x : Ptr) (xs : List Ptr) (c : Thread)
    → IsQueue k (x ∷ xs)
    → has t (x ∷ xs) ≡ true
    → k.threads t ≡ some c
    → t ≢ 0
    → Returns
        (drop_thread t (pred 0 t (x ∷ xs)) c.next k)
        (λ _ k'. IsQueue k' (erase t (x ∷ xs)) × SameRest k k')
drop_thread-IsQueue k t x xs c q i hc nt = elim (Bool-cases (x == t)) [
  | inl here ↦
      rw here
        (drop_head-IsQueue k t xs c (subst (λ y. IsQueue k (y ∷ xs)) ((==_iff x t).0 here) q) hc nt)
  | inr there ↦ rw there (drop_later-IsQueue k t x xs c q (ground arith) (ground arith) hc nt)
]

-- The whole loop, from the head of the queue on.
remove_loop-IsQueue :
    (f : ℕ) (k : Kernel) (t : Ptr) (xs : List Ptr) (c : Thread)
    → IsQueue k xs
    → length xs < f
    → t ≢ 0
    → k.threads t ≡ some c
    → Returns (remove_loop f t 0 k.ready_head k) (λ _ k'. IsQueue k' (erase t xs) × SameRest k k')
remove_loop-IsQueue f k t [] c q h nt hc = (
  tt,
  k,
  remove_loop-absent f k t 0 k.ready_head [] q.chain h refl,
  (q, record { lock = refl; current = refl; table = refl; procs = refl; mutexes = refl }),
)
remove_loop-IsQueue f k t (x ∷ xs) c q h nt hc = elim (Bool-cases (has t (x ∷ xs))) [
  | inl here ↦
      let (a, k', run, p) = drop_thread-IsQueue k t x xs c q here hc nt in
      (a, k', remove_loop-found f k t 0 k.ready_head (x ∷ xs) c q.chain h here hc ∙ run, p)
  | inr there ↦ (
    tt,
    k,
    remove_loop-absent f k t 0 k.ready_head (x ∷ xs) q.chain h there,
    (
      subst (IsQueue k) (sym (erase-absent t (x ∷ xs) there)) q,
      record { lock = refl; current = refl; table = refl; procs = refl; mutexes = refl },
    ),
  )
]

-- With its lock free and fuel for the queue, remove_from_ready_queue returns, takes the thread out of
-- the queue if it is there, keeps the order of the others, and leaves the lock free.
pub remove_from_ready_queue-IsQueue :
    (f : ℕ) (k : Kernel) (t : Ptr) (xs : List Ptr) (c : Thread)
    → k.schedule_lock ≡ false
    → IsQueue k xs
    → length xs < f
    → t ≢ 0
    → k.threads t ≡ some c
    → Returns (remove_from_ready_queue f t k) (λ _ k'.
      IsQueue k' (erase t xs) × (k'.schedule_lock ≡ false) × (k'.current_thread ≡ k.current_thread))
unfolding remove_from_ready_queue lock_schedule_spin unlock_schedule_spin
remove_from_ready_queue-IsQueue f k t xs c free q h nt hc =
    let (a, k', run, p) =
      remove_loop-IsQueue f (record k { schedule_lock = true }) t xs c
        (record { chain = q.chain; tail = q.tail }) h nt hc in
    (
      tt,
      record k' { schedule_lock = false },
      rw (ne→== t 0 nt, free, run),
      (record { chain = p.0.chain; tail = p.0.tail }, refl, p.1.current),
    )

-- While its lock is held, as it is in scheduler_tick, remove_from_ready_queue never returns.
pub remove_from_ready_queue_deadlock :
    (f : ℕ) (k : Kernel) (t : Ptr)
    → k.schedule_lock ≡ true
    → t ≢ 0
    → remove_from_ready_queue f t k ≡ deadlock
unfolding remove_from_ready_queue lock_schedule_spin
remove_from_ready_queue_deadlock f k t held nt = rw (ne→== t 0 nt, held)
