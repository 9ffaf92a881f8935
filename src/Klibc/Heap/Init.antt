-- ===== src/Klibc/Heap/Init.antt =====
-- init_kheap, and what follows from where it leaves heap_current.
use goshkik_os.Prelude.Memory.{update}
use goshkik_os.Prelude.Run.{Run, Returns}
use goshkik_os.Klibc.Heap.{Heap, heap_start, store, init_kheap}
use goshkik_os.Klibc.Heap.Alloc.{IsHeap}
use goshkik_os.Klibc.Heap.Grow.{map_page-SameBlocks}
use goshkik_os.Prelude.{
  ℕ, ◌+◌, ◌≡◌, refl, ◌⊎◌, inl, inr, true, false, some, [], ◌∷◌, arith, ◌==◌, Bool-cases,
}

-- One free block in the first page. heap_current is still at the start of that page.
pub record IsFresh (h : Heap) : Type 0 where
  pub heap : IsHeap h (record { size = 4072; free = true } ∷ []) (heap_start + 4096)
  pub first : h.free_list ≡ heap_start
  pub current : h.heap_current ≡ heap_start

-- init_kheap returns 0 when there is no physical page, and else the size of the one free block.
pub init_kheap-IsFresh :
    (h : Heap) → Returns (init_kheap h) (λ r h'. (r ≡ 0) ⊎ ((r ≡ 4072) × IsFresh h'))
unfolding init_kheap store
init_kheap-IsFresh h =
    let h0 = record h { heap_current = heap_start } in
    let (p, h1, run, same) = map_page-SameBlocks heap_start h0 in
    elim (Bool-cases (p == 0)) [
      | inl z ↦ (0, h1, rw (run, z), inl refl)
      | inr z ↦ (
        4072,
        record h1 {
          headers =
              update h1.headers heap_start (some (record { size = 4072; free = true; next = 0 }));
          free_list = heap_start;
        },
        rw (run, z),
        inr (
          refl,
          record {
            heap = record { tiles = (omega arith, refl, refl); bound = omega arith };
            first = refl;
            current = same.heap_current;
          },
        ),
      )
    ]

-- the block at the start of the heap is in use, and linked to itself
abbrev pub IsLoop : Heap → Type 0
IsLoop h =
    (s : ℕ) × (h.free_list ≡ heap_start)
    × (h.headers heap_start ≡ some (record { size = s; free = false; next = heap_start }))
