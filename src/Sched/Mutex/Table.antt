-- ===== src/Sched/Mutex/Table.antt =====
-- thread_from_tid finds a thread of the table by its identifier.
use goshkik_os.Prelude.Memory.{Ptr}
use goshkik_os.Sched.State.{Thread, Kernel}
use goshkik_os.Sched.Mutex.{find_tid, thread_from_tid}
use goshkik_os.Sched.Queue.Laws.{Returns, load-ok}
use goshkik_os.Prelude.{
  ℕ, ◌≡◌, refl, ◌≢◌, ◌⊎◌, inl, inr, false, some, List, [], ◌∷◌, arith, ◌==◌, ==_iff, Bool-cases,
}

-- every entry of the table is NULL or a thread
abbrev pub AreThreads : Kernel → List Ptr → Type 0
AreThreads k [] = Unit
AreThreads k (p ∷ ps) = ((p ≡ 0) ⊎ ((t : Thread) × (k.threads p ≡ some t))) × AreThreads k ps

-- the thread at p has this identifier
abbrev pub HasTid : Kernel → ℕ → Ptr → Type 0
HasTid k tid p = (p ≢ 0) × ((t : Thread) × (k.threads p ≡ some t) × (t.tid ≡ tid))

-- p is the first entry with this identifier, NULL if there is none
abbrev pub IsFirst : Kernel → ℕ → List Ptr → Ptr → Type 0
IsFirst k tid [] p = p ≡ 0
IsFirst k tid (x ∷ xs) p = (HasTid k tid x × (p ≡ x)) ⊎ ((HasTid k tid x → ⊥) × IsFirst k tid xs p)

not-HasTid :
    (k : Kernel) (tid : ℕ) (x : Ptr) (t : Thread)
    → k.threads x ≡ some t
    → (t.tid == tid) ≡ false
    → HasTid k tid x
    → ⊥
not-HasTid k tid x t e other (ne, (u, eu, same)) = ground arith

find_tid-IsFirst :
    (k : Kernel) (tid : ℕ) (ps : List Ptr)
    → AreThreads k ps
    → Returns (find_tid tid ps k) (λ p k'. (k' ≡ k) × IsFirst k tid ps p)
unfolding find_tid
find_tid-IsFirst k tid [] h = (0, k, refl, (refl, refl))
find_tid-IsFirst k tid (x ∷ xs) (inl z, h) =
    let (p, k', run, r) = find_tid-IsFirst k tid xs h in
    (p, k', rw z run, (r.0, inr (λ i. i.0 z, r.1)))
find_tid-IsFirst k tid (x ∷ xs) (inr (t, e), h) = elim (Bool-cases (x == 0)) [
  | inl z ↦
      let (p, k', run, r) = find_tid-IsFirst k tid xs h in
      (p, k', rw z run, (r.0, inr (λ i. i.0 ((==_iff x 0).0 z), r.1)))
  | inr nz ↦
      let ne : x ≢ 0 = ground arith in
      elim (Bool-cases (t.tid == tid)) [
        | inl same ↦ (
          x,
          k,
          rw (nz, load-ok k x t ne e, same),
          (refl, inl ((ne, (t, e, (==_iff t.tid tid).0 same)), refl)),
        )
        | inr other ↦
            let (p, k', run, r) = find_tid-IsFirst k tid xs h in
            (
              p,
              k',
              rw (nz, load-ok k x t ne e, other) run,
              (r.0, inr (not-HasTid k tid x t e other, r.1)),
            )
      ]
]

-- In a table of threads and empty slots, thread_from_tid returns the first thread with the identifier,
-- NULL if there is none, and changes nothing.
pub thread_from_tid-IsFirst :
    (k : Kernel) (tid : ℕ)
    → AreThreads k k.thread_table
    → Returns (thread_from_tid tid k) (λ p k'. (k' ≡ k) × IsFirst k tid k.thread_table p)
unfolding thread_from_tid
thread_from_tid-IsFirst k tid h = find_tid-IsFirst k tid k.thread_table h
