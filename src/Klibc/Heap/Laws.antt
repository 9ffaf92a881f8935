-- ===== src/Klibc/Heap/Laws.antt =====
-- kheap_alloc adds one block to those in use.
use goshkik_os.Prelude.Memory.{Ptr}
use goshkik_os.Klibc.Heap.{Heap, aligned}
use goshkik_os.Klibc.Heap.Blocks.{Block, span, used, Apart}
use goshkik_os.Klibc.Heap.Alloc.{IsHeap, any_suits}
use goshkik_os.Klibc.Heap.Grow.{Refused, Appended}
use goshkik_os.Prelude.{ℕ, ◌+◌, ◌-◌, ◌≤◌, ◌<◌, ◌≡◌, true, false, List, [], ◌∷◌, ◌++◌}

-- p is the start of a new block of n bytes or more, between the blocks that were in use before, and none
-- of them overlap
abbrev pub Allocates : ℕ → Heap → List Block → Ptr → Heap → Type 0
Allocates n h bs p h' =
    (bs' : List Block) × (e : ℕ) × (s : ℕ) × (ls : List (ℕ × ℕ)) × (rs : List (ℕ × ℕ)) × IsHeap h'
      bs' e
    × (h'.heap_current ≡ h.heap_current)
    × (any_suits (aligned n) bs ≡ true)
    × (n ≤ s)
    × (24 < p)
    × (used h.free_list bs ≡ ls ++ rs)
    × (used h'.free_list bs' ≡ ls ++ (p - 24, s) ∷ rs)
    × Apart h'.free_list (ls ++ (p - 24, s) ∷ rs)

-- No free block is large enough, and the physical pages run out: nothing is allocated.
abbrev pub OutOfPages : ℕ → Heap → List Block → ℕ → Ptr → Heap → Type 0
OutOfPages n h bs e p h' =
    (any_suits (aligned n) bs ≡ false) × IsHeap h' bs e × Refused (aligned n) h p h'

-- No free block is large enough: a block of whole pages is put at heap_current, and linked to the last one.
abbrev pub Extended : ℕ → Heap → List Block → Ptr → Heap → Type 0
Extended n h bs p h' =
    (any_suits (aligned n) bs ≡ false)
    × ((us : List Block) × (c : Block) × (bs ≡ us ++ c ∷ [])
        × Appended (aligned n) (h.free_list + span us) h p h')
