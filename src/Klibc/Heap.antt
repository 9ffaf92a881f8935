-- ===== src/Klibc/Heap.antt =====
-- src/klibc/kmem/kheap.c: the kernel's heap, a list of blocks with their headers in memory. The pages
-- come from pmm_alloc_page of src/arch/x86_64/mem/pmm/pmm.c; the calls of vmm_map are recorded.
pub mod Blocks
pub mod Alloc
pub mod Take
pub mod Grow
pub mod Laws
pub mod Coalesce
pub mod Free
pub mod Init
mod Tests
use goshkik_os.Prelude.Memory.{Ptr, Memory, update}
use goshkik_os.Prelude.Run.{Run, done, fault, out_of_fuel, Prog, pure, ◌>>=◌, ◌>>◌, get, modify}
use goshkik_os.Klibc.Mem.{memset}
use goshkik_os.Arch.Pmm.{Pmm, pmm_alloc_page, page_size}
use goshkik_os.Prelude.{
  ℕ, zero, suc, ◌+◌, ◌-◌, ◌*◌, ◌/◌, ◌%◌, ◌^◌, ◌≤◌, ◌<◌, bit_and, bit_or, ◌≡◌, refl, sym, ap, ap₂,
  ◌∙◌, fun_ext, subst, subst₂, ◌≢◌, ◌↔◌, ◌⊎◌, inl, inr, Bool, true, false, not, ◌&&◌, ◌||◌, Option,
  none, some, List, [], ◌∷◌, ◌++◌, map, arith, ltb, leb, ◌==◌, if◌then◌else◌, ltb→lt, lt→ltb,
  le→ltb, ltb-false, leb→le, ==_iff, ==_refl, ne→==, ==_false, Bool-cases, Option-cases, length,
  get_elem?, get_or, set, replicate, length-append, length-set, length-replicate, get_or-replicate,
  get_or-set,
}

-- `HEAP_START`
abbrev pub heap_start : ℕ
heap_start = 0xFFFF800010000000

-- `block_header_t`, which takes 24 bytes
pub record Header : Type 0 where
  pub size : ℕ
  pub free : Bool
  pub next : Ptr

abbrev pub sizeof_header : ℕ
sizeof_header = 24

-- The statics of kheap.c, the headers that stand in memory, the page allocator, and the pages that
-- vmm_map was asked for, latest first, as virtual and physical addresses. `memory`
-- is what stands in the blocks.
pub record Heap : Type 0 where
  pub headers : Ptr → Option Header
  pub free_list : Ptr
  pub heap_current : ℕ
  pub pmm : Pmm
  pub mapped : List (ℕ × ℕ)
  pub memory : Memory

abbrev pub M : Type 0 → Type 0
M = Prog Heap

-- `*p`, a fault at NULL and where no header stands
unfoldable pub load : Ptr → M Header
load p h = if p == 0 then fault else elim (h.headers p) [ none ↦ fault | some b ↦ done b h ]

unfoldable pub store : Ptr → Header → M (Unit {0})
store p b = modify (λ h. record h { headers = update h.headers p (some b) })

-- one round of mapping: the physical page, 0 if there is none
pub map_page : ℕ → M ℕ
map_page virtual h =
    let (physical, s) = pmm_alloc_page h.pmm in
    if physical == 0
    then done 0 (record h { pmm = s })
    else done physical (record h { pmm = s; mapped = (virtual, physical) ∷ h.mapped })

-- The result is `free_list->size`, 0 when there is no page.
pub init_kheap : M ℕ
init_kheap = do
  modify (λ h. record h { heap_current = heap_start })
  physical ← map_page heap_start
  if physical == 0 then pure 0 else (do
    modify (λ h. record h { free_list = heap_start })
    store heap_start (record { size = page_size - sizeof_header; free = true; next = 0 })
    pure (page_size - sizeof_header))

pub split_block : Ptr → ℕ → M (Unit {0})
split_block block size = do
  b ← load block
  if leb b.size ((size + sizeof_header) % 2 ^ 64) then pure tt else (do
    let new_block = (block + sizeof_header + size) % 2 ^ 64
    store new_block (record {
      size = (b.size + 2 ^ 64 - (size + sizeof_header)) % 2 ^ 64;
      free = true;
      next = b.next;
    })
    store block (record b { size = size; next = new_block }))

-- the loop of request_more_memory over n pages from `base` on: whether all of them were there
pub map_pages : ℕ → ℕ → M Bool
map_pages zero base = pure true
map_pages (suc n) base = do
  physical ← map_page base
  if physical == 0 then pure false else map_pages n ((base + page_size) % 2 ^ 64)

-- `(size + sizeof(block_header_t) + PAGE_SIZE_VMM - 1) & ~(PAGE_SIZE_VMM - 1)`
abbrev pub pages_for : ℕ → ℕ
pages_for size = ((size + sizeof_header + page_size - 1) % 2 ^ 64) / page_size

-- 0 is NULL
pub request_more_memory : ℕ → M Ptr
request_more_memory size = if ltb (2 ^ 64 - 1 - sizeof_header) size then pure 0 else (do
  h ← get
  let alloc_base = h.heap_current
  mapped ← map_pages (pages_for size) alloc_base
  if mapped
      then (do
        modify (λ h. record h {
          heap_current = (h.heap_current + pages_for size * page_size) % 2 ^ 64;
        })
        store alloc_base (record {
          size = (pages_for size * page_size + 2 ^ 64 - sizeof_header) % 2 ^ 64;
          free = false;
          next = 0;
        })
        pure ((alloc_base + sizeof_header) % 2 ^ 64))
      else pure 0)

-- what the walk of kheap_alloc ends with: a block to take, or the last block, NULL in an empty list
pub data Found : Type 0 where
  fit last : Ptr → Found

pub scan : ℕ → ℕ → Ptr → M Found
scan zero size current = λ _. out_of_fuel
scan (suc f) size current = if current == 0 then pure (last 0) else (do
  b ← load current
  if b.free && leb size b.size
      then pure (fit current)
      else (if b.next == 0 then pure (last current) else scan f size b.next))

-- what kheap_alloc does after the walk
pub take_block : ℕ → Found → M Ptr
take_block size (fit current) = do
  split_block current size
  b ← load current
  store current (record b { free = false })
  pure ((current + sizeof_header) % 2 ^ 64)
take_block size (last current) = do
  new_block ← request_more_memory size
  if new_block == 0 then pure 0 else (do
    b ← load current
    store current (record b { next = (new_block + 2 ^ 64 - sizeof_header) % 2 ^ 64 })
    pure new_block)

-- `(size + 15) & ~15`
abbrev pub aligned : ℕ → ℕ
aligned size = ((size + 15) % 2 ^ 64) / 16 * 16

pub kheap_alloc : ℕ → ℕ → M Ptr
kheap_alloc fuel size =
    if size == 0
    then pure 0
    else (do h ← get; found ← scan fuel (aligned size) h.free_list; take_block (aligned size) found)

-- the loop of kheap_free: neighbours in the list that are both free become one block
pub coalesce : ℕ → Ptr → M (Unit {0})
coalesce zero current = λ _. out_of_fuel
coalesce (suc f) current = if current == 0 then pure tt else (do
  b ← load current
  if b.free && not (b.next == 0)
      then (do
        n ← load b.next
        if n.free
            then (do
              store current
                  (record b { size = (b.size + (sizeof_header + n.size)) % 2 ^ 64; next = n.next })
              coalesce f current)
            else coalesce f b.next)
      else coalesce f b.next)

pub kheap_free : ℕ → Ptr → M (Unit {0})
kheap_free fuel ptr = if ptr == 0 then pure tt else (do
  let block = (ptr + 2 ^ 64 - sizeof_header) % 2 ^ 64
  b ← load block
  store block (record b { free = true })
  h ← get
  coalesce fuel h.free_list)

unfoldable pub kmalloc : ℕ → ℕ → M Ptr
unfolding kheap_alloc
kmalloc fuel size = kheap_alloc fuel size

unfoldable pub kfree : ℕ → Ptr → M (Unit {0})
unfolding kheap_free
kfree fuel ptr = kheap_free fuel ptr

unfoldable pub kzalloc : ℕ → ℕ → M Ptr
kzalloc fuel size = do
  ptr ← kmalloc fuel size
  if ptr == 0
      then pure 0
      else (do modify (λ h. record h { memory = (memset ptr 0 size h.memory).1 }); pure ptr)

unfoldable pub kcalloc : ℕ → ℕ → ℕ → M Ptr
kcalloc fuel n size =
    if not (n == 0) && (not (size == 0) && ltb ((2 ^ 64 - 1) / size) n)
    then pure 0
    else kzalloc fuel ((n * size) % 2 ^ 64)
