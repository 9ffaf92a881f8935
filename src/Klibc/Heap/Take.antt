-- ===== src/Klibc/Heap/Take.antt =====
-- kheap_alloc on a well-formed heap: the block that fits, with a split where it is larger.
use goshkik_os.Klibc.Heap.Alloc.{load-ok}
use goshkik_os.Prelude.Memory.{Ptr, update, update_same, update_other}
use goshkik_os.Prelude.Run.{done, Returns}
use goshkik_os.Klibc.Heap.{Header, Heap, store, split_block, fit, take_block}
use goshkik_os.Klibc.Heap.Blocks.{
  Block, Headers, link, after, Tiles, used, Tiles-le, SameBelow, Tiles-SameFrom,
}
use goshkik_os.Prelude.{
  ℕ, ◌+◌, ◌-◌, ◌%◌, ◌^◌, ◌≤◌, ◌<◌, ◌≡◌, refl, ap, subst, ◌≢◌, inl, inr, true, false, some, List,
  ◌∷◌, arith, leb, leb-false, ==_refl, ne→==, Bool-cases,
}

-- At a free block of n bytes or more: the block, cut where that pays, is in use, and nothing else changes.
abbrev pub Taken : ℕ → ℕ → Block → List Block → ℕ → Heap → Ptr → Heap → Type 0
Taken n p b vs e h q h' =
    (s : ℕ) × (c : Block) × (cs : List Block) × (n ≤ s)
    × (q ≡ p + 24)
    × SameBelow p h.headers h'.headers
    × Tiles h'.headers p (c ∷ cs) e
    × (used p (c ∷ cs) ≡ (p, s) ∷ used p (b ∷ vs))
    × (h'.free_list ≡ h.free_list)
    × (h'.heap_current ≡ h.heap_current)

take_whole :
    (n p : ℕ) (b : Block) (vs : List Block) (e : ℕ) (h : Heap)
    → Tiles h.headers p (b ∷ vs) e
    → e < 2 ^ 64
    → b.free ≡ true
    → n ≤ b.size
    → leb b.size ((n + 24) % 2 ^ 64) ≡ true
    → Returns (take_block n (fit p) h) (Taken n p b vs e h)
unfolding take_block split_block store
take_whole n p b vs e h (pos, eq, t) bound free big small =
    let q = Tiles-le h.headers (after p b) vs e t in
    let h' = record h {
      headers =
          update h.headers p
            (some (record { size = b.size; free = false; next = link vs (after p b) }));
    } in
    (
      p + 24,
      h',
      rw (load-ok h p _ pos eq, small, load-ok h p _ pos eq) (ap (λ m. done m h') (omega arith)),
      (
        b.size,
        record { size = b.size; free = false },
        vs,
        big,
        refl,
        (λ x l. update_other h.headers p _ x (omega arith)),
        (
          pos,
          update_same h.headers p _,
          Tiles-SameFrom h.headers _ (after p b) vs e
              (λ x l. update_other h.headers p _ x (omega arith)) t,
        ),
        rw free refl,
        refl,
        refl,
      ),
    )

-- the header of the rest that split_block makes
abbrev rest_header : ℕ → ℕ → Block → List Block → Header
rest_header n p b vs = record {
  size = (b.size + 2 ^ 64 - (n + 24)) % 2 ^ 64;
  free = true;
  next = link vs (after p b);
}

-- the headers after split_block
abbrev cut_once : Headers → ℕ → ℕ → ℕ → Block → List Block → Headers
cut_once hd n p p' b vs =
    update (update hd p' (some (rest_header n p b vs))) p
      (some (record { size = n; free = b.free; next = p' }))

-- the headers after a block has been cut at p'
abbrev cut_headers : Headers → ℕ → ℕ → ℕ → Block → List Block → Headers
cut_headers hd n p p' b vs =
    update
      (update (update hd p' (some (rest_header n p b vs))) p
        (some (record { size = n; free = b.free; next = p' })))
      p (some (record { size = n; free = false; next = p' }))

cut-other :
    (hd : Headers) (n p p' : ℕ) (b : Block) (vs : List Block) (x : ℕ)
    → p ≢ x
    → p' ≢ x
    → cut_headers hd n p p' b vs x ≡ hd x
cut-other hd n p p' b vs x np np' = rw (ne→== p x np, ne→== p' x np')

cut-Tiles :
    (hd : Headers) (n p p' : ℕ) (b : Block) (vs : List Block) (e : ℕ)
    → Tiles hd p (b ∷ vs) e
    → e < 2 ^ 64
    → n + 24 < b.size
    → p' ≡ p + 24 + n
    → Tiles
        (cut_headers hd n p p' b vs)
        p
        (record { size = n; free = false } ∷ record { size = b.size - (n + 24); free = true } ∷ vs)
        e
cut-Tiles hd n p p' b vs e (pos, eq, t) bound room at' =
    let q = Tiles-le hd (after p b) vs e t in
    let end : p + 24 + b.size ≡ p + 24 + n + 24 + (b.size - (n + 24)) = omega arith in
    let size : (b.size + 2 ^ 64 - (n + 24)) % 2 ^ 64 ≡ b.size - (n + 24) = omega arith in
    (
      pos,
      rw (==_refl p) (ap (λ m. some (record { size = n; free = false; next = m })) at'),
      (
        omega arith,
        rw (ne→== p (p + 24 + n) (omega arith), at', ==_refl (p + 24 + n), size)
            (ap (λ m. some (record { size = b.size - (n + 24); free = true; next = link vs m }))
              end),
        subst (λ m. Tiles (cut_headers hd n p p' b vs) m vs e) end
            (Tiles-SameFrom hd _ (after p b) vs e
              (λ x l. cut-other hd n p p' b vs x (omega arith) (omega arith)) t),
      ),
    )

take_part :
    (n p : ℕ) (b : Block) (vs : List Block) (e : ℕ) (h : Heap)
    → Tiles h.headers p (b ∷ vs) e
    → e < 2 ^ 64
    → b.free ≡ true
    → n ≤ b.size
    → leb b.size ((n + 24) % 2 ^ 64) ≡ false
    → Returns (take_block n (fit p) h) (Taken n p b vs e h)
unfolding take_block split_block store
take_part n p b vs e h (pos, eq, t) bound free big large =
    let q = Tiles-le h.headers (after p b) vs e t in
    let room : n + 24 < b.size = omega (arith, leb-false _ _ large) in
    let p' = (p + 24 + n) % 2 ^ 64 in
    let at' : p' ≡ p + 24 + n = omega arith in
    let h' = record h { headers = cut_headers h.headers n p p' b vs } in
    (
      p + 24,
      h',
      rw
          (
            load-ok h p _ pos eq,
            large,
            load-ok (record h { headers = cut_once h.headers n p p' b vs }) p _ pos
                (update_same (update h.headers p' (some (rest_header n p b vs))) p _),
          )
          (ap (λ m. done m h') (omega arith)),
      (
        n,
        record { size = n; free = false },
        record { size = b.size - (n + 24); free = true } ∷ vs,
        omega arith,
        refl,
        (λ x l. cut-other h.headers n p p' b vs x (omega arith) (omega arith)),
        cut-Tiles h.headers n p p' b vs e (pos, eq, t) bound room at',
        rw free (ap (λ m. (p, n) ∷ used m vs) (omega arith)),
        refl,
        refl,
      ),
    )

pub take_fit :
    (n p : ℕ) (b : Block) (vs : List Block) (e : ℕ) (h : Heap)
    → Tiles h.headers p (b ∷ vs) e
    → e < 2 ^ 64
    → b.free ≡ true
    → n ≤ b.size
    → Returns (take_block n (fit p) h) (Taken n p b vs e h)
take_fit n p b vs e h t bound free big = elim (Bool-cases (leb b.size ((n + 24) % 2 ^ 64))) [
  | inl small ↦ take_whole n p b vs e h t bound free big small
  | inr large ↦ take_part n p b vs e h t bound free big large
]
