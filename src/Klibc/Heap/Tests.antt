-- ===== src/Klibc/Heap/Tests.antt =====
-- The theorems on the heap at the heap that init_kheap leaves, and runs of it.
use goshkik_os.Prelude.Run.{Run, done, Returns}
use goshkik_os.Arch.Pmm.{Pmm, pmm_alloc_page, alloc_from}
use goshkik_os.Arch.Pmm.Bitmap.{bit_test, bit_set}
use goshkik_os.Prelude.Bits.{byte_test, byte_set}
use goshkik_os.Klibc.Heap.{
  Heap, heap_start, load, store, map_page, map_pages, init_kheap, scan, take_block,
  request_more_memory, kheap_alloc, kheap_free, split_block,
}
use goshkik_os.Klibc.Heap.Blocks.{Block, used}
use goshkik_os.Klibc.Heap.Alloc.{IsHeap}
use goshkik_os.Klibc.Heap.Free.{kheap_free-IsHeap}
use goshkik_os.Prelude.{◌+◌, ◌≡◌, refl, ap, true, false, none, List, [], ◌∷◌, arith}

-- eight physical pages, all free
abbrev pages : Pmm
pages = record { bitmap = 0 ∷ []; managed_base = 0x100000; total_pages = 8 }

abbrev empty : Heap
empty = record {
  headers = λ _. none;
  free_list = 0;
  heap_current = 0;
  pmm = pages;
  mapped = [];
  memory = λ _. 0;
}

-- the state in which a run ends
abbrev end_of : {A : Type 0} → Run Heap A → Heap
end_of (done a h) = h
end_of _ = empty

abbrev started : Heap
started = end_of (init_kheap empty)

-- what init_kheap leaves, and what the first request for a hundred bytes makes of it
abbrev one_block : List Block
one_block = record { size = 4072; free = true } ∷ []

abbrev two_blocks : List Block
two_blocks = record { size = 112; free = false } ∷ record { size = 3936; free = true } ∷ []

abbrev divided : Heap
divided = end_of (kheap_alloc 1 100 started)

divided-IsHeap : IsHeap divided two_blocks (heap_start + 4096)
unfolding init_kheap map_page store load pmm_alloc_page alloc_from bit_test bit_set byte_test
    byte_set kheap_alloc scan take_block split_block
divided-IsHeap = record {
  tiles = (omega arith, refl, (omega arith, refl, refl));
  bound = omega arith;
}

divided_start : divided.free_list ≡ heap_start
unfolding init_kheap map_page store load pmm_alloc_page alloc_from bit_test bit_set byte_test
    byte_set kheap_alloc scan take_block split_block
divided_start = refl

kheap_free-IsHeap_example : Returns (kheap_free 3 (heap_start + 24) divided) (λ _ h'.
    (bs' : List Block) × IsHeap h' bs' (heap_start + 4096)
    × (used h'.free_list bs' ≡ [])
    × (h'.heap_current ≡ divided.heap_current))
kheap_free-IsHeap_example =
    kheap_free-IsHeap 3 divided (record { size = 112; free = false })
      (record { size = 3936; free = true } ∷ []) (heap_start + 4096) [] heap_start 112 []
      divided-IsHeap (omega arith) (ap (λ a. (a, 112) ∷ []) divided_start)

-- the request is not refused there
grown_run :
    kheap_alloc 1 5000 started ≡ done (heap_start + 24) (end_of (kheap_alloc 1 5000 started))
unfolding init_kheap map_page map_pages store load pmm_alloc_page alloc_from bit_test bit_set
    byte_test byte_set kheap_alloc scan take_block request_more_memory
grown_run = refl
