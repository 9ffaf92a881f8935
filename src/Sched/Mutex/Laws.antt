-- ===== src/Sched/Mutex/Laws.antt =====
-- Taking and releasing the mutexes of mutex.c.
use goshkik_os.Prelude.Memory.{Ptr, update}
use goshkik_os.Sched.State.{ready, Thread, Mutex, Kernel, ok, ◌>>◌, and_then}
use goshkik_os.Sched.Mutex.{acquire_spin, release_spin, wake_first, release_mutex, acquire_mutex}
use goshkik_os.Sched.Queue.Seg.{has, IsQueue, frame-Seg}
use goshkik_os.Sched.Queue.Laws.{Returns, load-ok, set_state-ok}
use goshkik_os.Sched.Queue.Add.{add_to_ready_queue-IsQueue}
use goshkik_os.Prelude.{
  ℕ, suc, ◌-◌, ◌^◌, ◌<◌, ◌≡◌, refl, sym, ap, ◌∙◌, fun_ext, subst, ◌≢◌, inl, inr, true, false, some,
  List, [], ◌∷◌, ◌++◌, ◌==◌, if◌then◌else◌, ==_iff, ==_refl, ne→==, Bool-cases, length,
}

-- the mutex that nobody holds or waits for
abbrev pub unheld : Mutex
unheld = record {
  lock = false;
  locked = false;
  owner = 0;
  waiter_head = 0;
  waiter_tail = 0;
  waiter_count = 0;
}

-- the kernel with another mutex m
abbrev pub with_mutex : Kernel → ℕ → Mutex → Kernel
with_mutex k m x = record k { mutexes = update k.mutexes m x }

module _ (k : Kernel) (m : ℕ) where
  at_mutex : (x : Mutex) → (with_mutex k m x).mutexes m ≡ x
  at_mutex x = rw (==_refl m)

  overwritten : (x y : Mutex) → with_mutex (with_mutex k m x) m y ≡ with_mutex k m y
  overwritten x y =
      ap (λ h. record k { mutexes = h })
        (fun_ext (λ p. elim (Bool-cases (m == p)) [ inl e ↦ rw e | inr e ↦ rw e ]))

  restored : (x : Mutex) → k.mutexes m ≡ x → with_mutex k m x ≡ k
  restored x e =
      ap (λ h. record k { mutexes = h })
        (fun_ext (λ p. elim (Bool-cases (m == p)) [
          | inl i ↦ rw i (sym e ∙ ap k.mutexes ((==_iff m p).0 i))
          | inr i ↦ rw i
        ]))

  pub acquire_spin-ok :
      (x : Mutex)
      → k.mutexes m ≡ x
      → x.lock ≡ false
      → acquire_spin m k ≡ ok tt (with_mutex k m (record x { lock = true }))
  unfolding acquire_spin
  acquire_spin-ok x e free = rw (e, free)

  pub release_spin-ok :
      (x : Mutex)
      → k.mutexes m ≡ x
      → release_spin m k ≡ ok tt (with_mutex k m (record x { lock = false }))
  unfolding release_spin
  release_spin-ok x e = rw e

==_true : {a b : ℕ} → a ≡ b → (a == b) ≡ true
==_true {a} {b} e = (==_iff a b).1 e

acquire_mutex-free :
    (f : ℕ) (k : Kernel) (m : ℕ) (x : Mutex)
    → k.mutexes m ≡ x
    → x.lock ≡ false
    → x.locked ≡ false
    → acquire_mutex (suc f) m k
      ≡ ok tt (with_mutex k m (record x { lock = false; locked = true; owner = k.current_thread }))
unfolding acquire_mutex
acquire_mutex-free f k m x e free free' =
    let x1 = record x { lock = true; locked = false } in
    let x2 = record x { lock = true; locked = true; owner = k.current_thread } in
    rw (acquire_spin-ok k m x e free, at_mutex k m (record x { lock = true }), free')
      (release_spin-ok (with_mutex (with_mutex k m x1) m x2) m x2
          (at_mutex (with_mutex k m x1) m x2)
        ∙ ap (ok tt) (overwritten (with_mutex k m x1) m x2 _ ∙ overwritten k m x1 _))

-- a mutex that its holder releases while nobody waits
release_mutex-alone :
    (g : ℕ) (k : Kernel) (m : ℕ) (x : Mutex)
    → k.mutexes m ≡ x
    → x.lock ≡ false
    → x.owner ≡ k.current_thread
    → x.waiter_head ≡ 0
    → release_mutex g m k
      ≡ ok tt (with_mutex k m (record x { lock = false; locked = false; owner = 0 }))
unfolding release_mutex wake_first
release_mutex-alone g k m x e free mine nobody =
    let x1 = record x { lock = true; owner = k.current_thread; waiter_head = 0 } in
    let x2 = record x { lock = true; locked = false; owner = 0; waiter_head = 0 } in
    rw
      (
        acquire_spin-ok k m x e free,
        at_mutex k m (record x { lock = true }),
        mine,
        ==_refl k.current_thread,
        ==_refl m,
        nobody,
      )
      (release_spin-ok (with_mutex (with_mutex k m x1) m x2) m x2
          (at_mutex (with_mutex k m x1) m x2)
        ∙ ap (ok tt) (overwritten (with_mutex k m x1) m x2 _ ∙ overwritten k m x1 _))

-- Taking a mutex that nobody holds and waits for, and releasing it, leaves everything as it was.
pub release_mutex-acquire_mutex :
    (f g : ℕ) (k : Kernel) (m : ℕ)
    → k.mutexes m ≡ unheld
    → (acquire_mutex (suc f) m >> release_mutex g m) k ≡ ok tt k
release_mutex-acquire_mutex f g k m e =
    let x1 = record unheld { locked = true; owner = k.current_thread } in
    rw
      (
        acquire_mutex-free f k m unheld e refl refl,
        release_mutex-alone g (with_mutex k m x1) m x1 (at_mutex k m x1) refl refl refl,
      )
      (ap (ok tt) (overwritten k m x1 unheld ∙ restored k m unheld e))

-- a mutex after its first waiter has been taken off
abbrev pub without_first : Mutex → Thread → Mutex
without_first x c = record x {
  waiter_head = c.next;
  waiter_tail = if c.next == 0 then 0 else x.waiter_tail;
  waiter_count = if x.waiter_count == 0 then 2 ^ 64 - 1 else x.waiter_count - 1;
}

module _ (f : ℕ) (k : Kernel) (m : ℕ) (x : Mutex) (c : Thread) (xs : List Ptr) (e : k.mutexes m ≡ x)
    (nt : x.waiter_head ≢ 0) (hc : k.threads x.waiter_head ≡ some c)
    (out : has x.waiter_head xs ≡ false) (q : IsQueue k xs) (h : length xs < f)
    (free : k.schedule_lock ≡ false) where
  wake_first-IsQueue : Returns (wake_first f m k) (λ _ k'.
      IsQueue k' (xs ++ x.waiter_head ∷ [])
      × (k'.schedule_lock ≡ false)
      × (k'.mutexes m ≡ without_first x c))
  unfolding wake_first
  wake_first-IsQueue =
      let k1 = with_mutex k m (without_first x c) in
      let c1 = record c { state = ready } in
      let k2 = record k1 { threads = update k.threads x.waiter_head (some c1) } in
      let (a, k', run, p) =
        add_to_ready_queue-IsQueue f k2 x.waiter_head xs c1 free
          (record {
            chain = frame-Seg k.threads x.waiter_head _ k.ready_head xs out q.chain;
            tail = q.tail;
          })
          h nt (rw (==_refl x.waiter_head)) in
      (
        a,
        k',
        rw
            (
              e,
              ne→== _ _ nt,
              load-ok k x.waiter_head c nt hc,
              set_state-ok k1 x.waiter_head c nt hc ready,
            )
            run,
        (
          subst (IsQueue k') (rw out) p.0,
          p.1,
          ap (λ g. g m) p.2 ∙ at_mutex k m (without_first x c),
        ),
      )

-- When its holder releases a mutex and threads wait for it, the first of these leaves the waiters and is
-- last in the ready queue, and the mutex and both its spinlock and the scheduler's lock are free.
pub release_mutex_wakes :
    (f : ℕ) (k : Kernel) (m : ℕ) (x : Mutex) (c : Thread) (xs : List Ptr)
    → k.mutexes m ≡ x
    → x.lock ≡ false
    → x.owner ≡ k.current_thread
    → x.waiter_head ≢ 0
    → k.threads x.waiter_head ≡ some c
    → has x.waiter_head xs ≡ false
    → IsQueue k xs
    → length xs < f
    → k.schedule_lock ≡ false
    → Returns (release_mutex f m k) (λ _ k'.
      IsQueue k' (xs ++ x.waiter_head ∷ [])
      × (k'.schedule_lock ≡ false)
      × (k'.mutexes m ≡ record (without_first x c) { lock = false; locked = false; owner = 0 }))
unfolding release_mutex
release_mutex_wakes f k m x c xs e spin mine nt hc out q h free =
    let x1 = record x { lock = true } in
    let x2 = record x { lock = true; locked = false; owner = 0 } in
    let k2 = with_mutex (with_mutex k m x1) m x2 in
    let (a, k', run, p) =
      wake_first-IsQueue f k2 m x2 c xs (at_mutex (with_mutex k m x1) m x2) nt hc out
        (record { chain = q.chain; tail = q.tail }) h free in
    (
      tt,
      with_mutex k' m (record (without_first x2 c) { lock = false }),
      rw (acquire_spin-ok k m x e spin, at_mutex k m x1, ==_true mine)
          (ap (λ r. and_then r (λ _. release_spin m)) run
            ∙ release_spin-ok k' m (without_first x2 c) p.2),
      (
        record { chain = p.0.chain; tail = p.0.tail },
        p.1,
        at_mutex k' m (record (without_first x2 c) { lock = false }),
      ),
    )
