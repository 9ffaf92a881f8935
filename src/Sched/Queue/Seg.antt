-- ===== src/Sched/Queue/Seg.antt =====
-- The list of threads that stands in the ready queue, and what it needs of the heap.
use goshkik_os.Prelude.Memory.{Ptr, update}
use goshkik_os.Sched.State.{Thread, Kernel}
use goshkik_os.Prelude.{
  ◌≡◌, refl, subst, subst₂, ◌≢◌, inl, inr, Bool, true, false, ◌||◌, Option, some, List, [], ◌∷◌,
  ◌++◌, arith, ◌==◌, if◌then◌else◌, Bool-cases,
}

abbrev pub has : Ptr → List Ptr → Bool
has a [] = false
has a (x ∷ xs) = (a == x) || has a xs

-- from `p` the `next` fields lead through the distinct threads `xs` to NULL
abbrev pub Seg : (Ptr → Option Thread) → Ptr → List Ptr → Type 0
Seg h p [] = p ≡ 0
Seg h p (x ∷ xs) =
    (p ≡ x) × (x ≢ 0) × (has x xs ≡ false) × ((t : Thread) × (h x ≡ some t) × Seg h t.next xs)

-- the last element, NULL in an empty list
abbrev pub last : List Ptr → Ptr
last [] = 0
last (x ∷ []) = x
last (x ∷ y ∷ ys) = last (y ∷ ys)

-- the globals head and tail enclose exactly the threads `xs`, in order
pub record IsQueue (k : Kernel) (xs : List Ptr) : Type 0 where
  pub chain : Seg k.threads k.ready_head xs
  pub tail : k.ready_tail ≡ last xs

-- a segment survives a write outside it
pub frame-Seg :
    (h : Ptr → Option Thread) (a : Ptr) (t : Option Thread) (p : Ptr) (xs : List Ptr)
    → has a xs ≡ false
    → Seg h p xs
    → Seg (update h a t) p xs
frame-Seg h a t p [] out s = s
frame-Seg h a t p (x ∷ xs) out (e, ne, fresh, (u, hu, rest)) =
    (e, ne, fresh, (u, ground arith, frame-Seg h a t u.next xs (ground arith) rest))

has-append : (xs : List Ptr) (y : Ptr) (b : Ptr) → has b (xs ++ y ∷ []) ≡ ((b == y) || has b xs)
has-append [] y b = ground arith
has-append (x ∷ xs) y b = ground (has-append xs y b, arith)

-- the address of a thread with another `next`
abbrev pub with_next : Thread → Ptr → Thread
with_next t q = record t { next = q }

pub last-append : (xs : List Ptr) (y : Ptr) → last (xs ++ y ∷ []) ≡ y
last-append [] y = refl
last-append (x ∷ []) y = refl
last-append (x ∷ z ∷ zs) y = last-append (z ∷ zs) y

pub has-last : (x : Ptr) (xs : List Ptr) → has (last (x ∷ xs)) (x ∷ xs) ≡ true
has-last x [] = ground arith
has-last x (y ∷ ys) = ground (arith, has-last y ys)

-- the last thread of a queue that is not empty, and the queue after it is linked to one more thread
pub append-Seg :
    (h : Ptr → Option Thread) (p : Ptr) (x : Ptr) (xs : List Ptr) (y : Ptr) (u : Thread)
    → Seg h p (x ∷ xs)
    → has y (x ∷ xs) ≡ false
    → y ≢ 0
    → h y ≡ some u
    → u.next ≡ 0
    → (t : Thread) × (h (last (x ∷ xs)) ≡ some t)
      × (last (x ∷ xs) ≢ 0)
      × Seg (update h (last (x ∷ xs)) (some (with_next t y))) p (x ∷ (xs ++ y ∷ []))
append-Seg h p x [] y u (e, ne, fresh, (t, ht, rest)) out ny hu nil = (
  t,
  ht,
  ne,
  (e, ne, ground arith, (with_next t y, ground arith, (refl, ny, refl, (u, ground arith, nil)))),
)
append-Seg h p x (z ∷ zs) y u (e, ne, fresh, (t, ht, rest)) out ny hu nil =
    let (l, hl, nl, seg) = append-Seg h t.next z zs y u rest (ground arith) ny hu nil in
    (
      l,
      hl,
      nl,
      (e, ne, rw (has-append zs y x) (ground arith), (t, ground (arith, has-last z zs), seg)),
    )

-- the list without its first `t`
abbrev pub erase : Ptr → List Ptr → List Ptr
erase t [] = []
erase t (x ∷ xs) = if x == t then xs else x ∷ erase t xs

-- the element before the first `t`, `prev` if that is the first of all
abbrev pub pred : Ptr → Ptr → List Ptr → Ptr
pred prev t [] = prev
pred prev t (x ∷ xs) = if x == t then prev else pred x t xs

abbrev pub Distinct : List Ptr → Type 0
Distinct [] = Unit
Distinct (x ∷ xs) = (has x xs ≡ false) × Distinct xs

pub Seg-Distinct : (h : Ptr → Option Thread) (p : Ptr) (xs : List Ptr) → Seg h p xs → Distinct xs
Seg-Distinct h p [] s = tt
Seg-Distinct h p (x ∷ xs) (e, ne, fresh, (t, ht, rest)) = (fresh, Seg-Distinct h t.next xs rest)

pub not-has-erase : (t : Ptr) (xs : List Ptr) → Distinct xs → has t (erase t xs) ≡ false
not-has-erase t [] d = refl
not-has-erase t (x ∷ xs) d = ground (arith, not-has-erase t xs d.1)

has-erase : (a t : Ptr) (xs : List Ptr) → has a xs ≡ false → has a (erase t xs) ≡ false
has-erase a t [] h = refl
has-erase a t (x ∷ xs) h = ground (arith, has-erase a t xs)

pub erase-absent : (t : Ptr) (xs : List Ptr) → has t xs ≡ false → erase t xs ≡ xs
erase-absent t [] out = refl
erase-absent t (x ∷ xs) out = ground (arith, erase-absent t xs)

has-pred : (p t : Ptr) (xs : List Ptr) → has (pred p t xs) (p ∷ xs) ≡ true
has-pred p t [] = ground arith
has-pred p t (x ∷ xs) = ground (arith, has-pred x t xs)

pub pred-ne :
    (p t : Ptr) (xs : List Ptr) → has p xs ≡ false → has t xs ≡ true → Distinct xs → pred p t xs ≢ t
pred-ne p t [] fresh i d = cc
pred-ne p t (x ∷ xs) fresh i d = ground (arith, pred-ne x t xs)

-- the last element after an erasure: the one before `t`, if `t` was last
pub last-erase :
    (t : Ptr) (p : Ptr) (xs : List Ptr)
    → has t xs ≡ true
    → Distinct xs
    → last (p ∷ erase t xs) ≡ (if t == last xs then pred p t xs else last xs)
last-erase t p [] i d = cc
last-erase t p (x ∷ []) i d = ground arith
last-erase t p (x ∷ y ∷ ys) i d = ground (arith, last-erase t x (y ∷ ys), has-last y ys)

-- the thread at `a` takes `n` for its `next`, and the segment from `p` is `x` and then `ys`
abbrev pub Relinked : (Ptr → Option Thread) → Ptr → Ptr → Ptr → Ptr → List Ptr → Type 0
Relinked h p x n a ys =
    (q : Thread) × (h a ≡ some q) × (a ≢ 0) × Seg (update h a (some (with_next q n))) p (x ∷ ys)

-- Unlinking a thread behind the head: its predecessor takes its `next`.
pub unlink-Seg :
    (h : Ptr → Option Thread) (p x t : Ptr) (ys : List Ptr) (c : Thread)
    → Seg h p (x ∷ ys)
    → has t ys ≡ true
    → h t ≡ some c
    → Relinked h p x c.next (pred x t ys) (erase t ys)
unlink-Seg h p x t [] c s i hc = cc
unlink-Seg h p x t (y ∷ ys) c (e, ne, fresh, (u, hu, (e', ne', fresh', (v, hv, rest')))) i hc =
    elim (Bool-cases (y == t)) [
      | inl here ↦
          let same : v.next ≡ c.next = ground arith in
          let seg = frame-Seg h x (some (with_next u c.next)) v.next ys (ground arith) rest' in
          subst₂ (Relinked h p x c.next) {x = x} {u = ys} (rw here) (rw here) (
            u,
            hu,
            ne,
            (
              e,
              ne,
              ground arith,
              (
                with_next u c.next,
                ground arith,
                subst (λ n. Seg (update h x (some (with_next u c.next))) n ys) same seg,
              ),
            ),
          )
      | inr there ↦
          let (q, hq, nq, seg) =
            unlink-Seg h u.next y t ys c (e', ne', fresh', (v, hv, rest')) (ground arith) hc in
          subst₂ (Relinked h p x c.next) {x = pred y t ys} {u = y ∷ erase t ys} (rw there)
            (rw there)
            (
              q,
              hq,
              nq,
              (e, ne, ground (arith, has-erase x t ys), (u, ground (arith, has-pred y t ys), seg)),
            )
    ]
