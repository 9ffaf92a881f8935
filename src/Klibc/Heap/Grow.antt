-- ===== src/Klibc/Heap/Grow.antt =====
-- kheap_alloc where no block is large enough: whole pages are added at the end of the heap.
use goshkik_os.Prelude.Memory.{Ptr, update}
use goshkik_os.Prelude.Run.{done, Returns}
use goshkik_os.Arch.Pmm.{pmm_alloc_page}
use goshkik_os.Klibc.Heap.{
  Header, Heap, store, last, map_page, map_pages, pages_for, request_more_memory, take_block,
}
use goshkik_os.Klibc.Heap.Blocks.{Headers}
use goshkik_os.Klibc.Heap.Alloc.{load-ok}
use goshkik_os.Prelude.{
  ℕ, zero, suc, ◌+◌, ◌-◌, ◌*◌, ◌%◌, ◌^◌, ◌≤◌, ◌<◌, ◌≡◌, refl, ap, ap₂, ◌∙◌, ◌⊎◌, inl, inr, true,
  false, some, ◌∷◌, arith, ltb, ◌==◌, le→ltb, ne→==, Bool-cases,
}

-- the blocks and the statics of the heap are as before
pub record SameBlocks (h h' : Heap) : Type 0 where
  pub headers : h'.headers ≡ h.headers
  pub free_list : h'.free_list ≡ h.free_list
  pub heap_current : h'.heap_current ≡ h.heap_current

pub map_page-SameBlocks : (v : ℕ) (h : Heap) → Returns (map_page v h) (λ _ h'. SameBlocks h h')
unfolding map_page
map_page-SameBlocks v h = elim (Bool-cases ((pmm_alloc_page h.pmm).0 == 0)) [
  | inl none_left ↦ (
    0,
    record h { pmm = (pmm_alloc_page h.pmm).1 },
    rw none_left,
    record { headers = refl; free_list = refl; heap_current = refl },
  )
  | inr page ↦ (
    (pmm_alloc_page h.pmm).0,
    record h { pmm = (pmm_alloc_page h.pmm).1; mapped = (v, (pmm_alloc_page h.pmm).0) ∷ h.mapped },
    rw page,
    record { headers = refl; free_list = refl; heap_current = refl },
  )
]

map_pages-SameBlocks :
    (n base : ℕ) (h : Heap) → Returns (map_pages n base h) (λ _ h'. SameBlocks h h')
unfolding map_pages
map_pages-SameBlocks zero base h =
    (true, h, refl, record { headers = refl; free_list = refl; heap_current = refl })
map_pages-SameBlocks (suc n) base h =
    let (p, h1, run, s) = map_page-SameBlocks base h in
    elim (Bool-cases (p == 0)) [
      | inl none_left ↦ (false, h1, rw (run, none_left), s)
      | inr page ↦
          let (r, h2, run2, s2) = map_pages-SameBlocks n ((base + 4096) % 2 ^ 64) h1 in
          (
            r,
            h2,
            rw (run, page) run2,
            record {
              headers = s2.headers ∙ s.headers;
              free_list = s2.free_list ∙ s.free_list;
              heap_current = s2.heap_current ∙ s.heap_current;
            },
          )
    ]

-- NULL since the pages ran out, or the start of the new block
abbrev pub Requested : ℕ → Heap → Ptr → Heap → Type 0
Requested n h p h' =
    ((p ≡ 0)
      × SameBlocks h h'
      × ((h1 : Heap) × (map_pages (pages_for n) h.heap_current h ≡ done false h1)))
    ⊎ ((p ≡ h.heap_current + 24)
        × (h'.headers
            ≡ update h.headers h.heap_current
                (some (record { size = pages_for n * 4096 - 24; free = false; next = 0 })))
        × (h'.free_list ≡ h.free_list)
        × (h'.heap_current ≡ h.heap_current + pages_for n * 4096))

pages_for_bounds :
    (n : ℕ)
    → 0 < n
    → n + 4200 < 2 ^ 64
    → (n + 24 ≤ pages_for n * 4096) × (pages_for n * 4096 ≤ n + 4120)
pages_for_bounds n pos bound = (omega arith, omega arith)

pub request_more_memory-Requested :
    (n : ℕ) (h : Heap)
    → 0 < n
    → h.heap_current + n + 4200 < 2 ^ 64
    → Returns (request_more_memory n h) (Requested n h)
unfolding request_more_memory store
request_more_memory-Requested n h pos bound =
    let small : ltb (2 ^ 64 - 1 - 24) n ≡ false = le→ltb _ _ (omega arith) in
    let (r, h1, run, s) = map_pages-SameBlocks (pages_for n) h.heap_current h in
    let (low, high) = pages_for_bounds n pos (omega arith) in
    elim (Bool-cases r) [
      | inl got ↦ (
        (h.heap_current + 24) % 2 ^ 64,
        record h1 {
          heap_current = (h1.heap_current + pages_for n * 4096) % 2 ^ 64;
          headers = update h1.headers h.heap_current (
              some (record {
                size = (pages_for n * 4096 + 2 ^ 64 - 24) % 2 ^ 64;
                free = false;
                next = 0;
              }));
        },
        rw (small, run, got),
        inr (
          omega arith,
          ap₂
              (λ hd z.
                update hd h.heap_current (some (record { size = z; free = false; next = 0 })))
              s.headers (omega arith),
          s.free_list,
          omega (arith, s.heap_current),
        ),
      )
      | inr short ↦
          (0, h1, rw (small, run, short), inl (refl, s, (h1, run ∙ ap (λ z. done z h1) short)))
    ]

-- the header of a new block of whole pages
abbrev pub page_header : ℕ → Header
page_header n = record { size = pages_for n * 4096 - 24; free = false; next = 0 }

-- the headers with a new block at heap_current
abbrev pub with_pages : ℕ → Heap → Headers
with_pages n h = update h.headers h.heap_current (some (page_header n))

-- A new block of n bytes or more stands at heap_current, whatever stood there before, and what then
-- stands at p, the header w, is linked to it.
abbrev pub Appended : ℕ → Ptr → Heap → Ptr → Heap → Type 0
Appended n p h q h' =
    (w : Header) × (with_pages n h p ≡ some w)
    × (n ≤ (page_header n).size)
    × (q ≡ h.heap_current + 24)
    × (h'.headers ≡ update (with_pages n h) p (some (record w { next = h.heap_current })))
    × (h'.free_list ≡ h.free_list)
    × (h'.heap_current ≡ h.heap_current + pages_for n * 4096)

-- NULL with the blocks as before since the physical pages ran out
abbrev pub Refused : ℕ → Heap → Ptr → Heap → Type 0
Refused n h q h' =
    (q ≡ 0)
    × SameBlocks h h'
    × ((h1 : Heap) × (map_pages (pages_for n) h.heap_current h ≡ done false h1))

something :
    (n : ℕ) (h : Heap) (p : Ptr) (b : Header)
    → h.headers p ≡ some b
    → (w : Header) × (with_pages n h p ≡ some w)
something n h p b at' = elim (Bool-cases (h.heap_current == p)) [
  | inl e ↦ (page_header n, rw e)
  | inr e ↦ (b, rw e at')
]

pub take_last :
    (n p : ℕ) (b : Header) (h : Heap)
    → 0 < p
    → h.headers p ≡ some b
    → 0 < n
    → h.heap_current + n + 4200 < 2 ^ 64
    → Returns (take_block n (last p) h) (λ q h'. Refused n h q h' ⊎ Appended n p h q h')
unfolding take_block store
take_last n p b h pos at' big bound =
    let (q, h1, run, r) = request_more_memory-Requested n h big bound in
    let (low, high) = pages_for_bounds n big (omega arith) in
    let (w, stands) = something n h p b at' in
    elim r [
      | inl (z, same, short) ↦ (0, h1, rw (run, z), inl (refl, same, short))
      | inr (at_end, hds, fl, cur) ↦ (
        q,
        record h1 {
          headers = update h1.headers p (some (record w { next = (q + 2 ^ 64 - 24) % 2 ^ 64 }));
        },
        rw (run, ne→== q 0 (omega arith), load-ok h1 p w pos (ap (λ g. g p) hds ∙ stands)),
        inr (
          w,
          stands,
          omega arith,
          at_end,
          ap₂ (λ g m. update g p (some (record w { next = m }))) hds (omega arith),
          fl,
          cur,
        ),
      )
    ]
