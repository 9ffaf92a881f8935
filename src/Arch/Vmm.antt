-- ===== src/Arch/Vmm.antt =====
-- src/arch/x86_64/mem/vmm/vmm.c: page tables. A table is named by the physical address that
-- physical_to_virtual gets for it, and its words stand in the direct map, which no other memory overlaps.
pub mod Tree
pub mod Free
pub mod Link
pub mod Walk
pub mod Store
pub mod Laws
pub mod Resolve
pub mod Space
pub mod Range
pub mod Samples
mod Tests
use goshkik_os.Prelude.Memory.{Ptr, update}
use goshkik_os.Prelude.Run.{Run, done, fault, Prog, pure, ◌>>=◌, ◌>>◌, get, modify}
use goshkik_os.Arch.Mmu.{MemmapEntry, usable}
use goshkik_os.Arch.Pmm.{Pmm, pmm_alloc_page}
use goshkik_os.Prelude.{
  ℕ, zero, suc, ◌+◌, ◌-◌, ◌*◌, ◌/◌, ◌%◌, ◌^◌, ◌≤◌, ◌<◌, bit_and, bit_or, bit_xor, ◌≡◌, refl, sym,
  ap, ap₂, ◌∙◌, fun_ext, subst, subst₂, ◌≢◌, ◌↔◌, ◌⊎◌, inl, inr, Bool, true, false, not, ◌&&◌, ◌||◌,
  Option, none, some, List, [], ◌∷◌, ◌++◌, map, arith, ltb, leb, ◌==◌, if◌then◌else◌, ltb→lt,
  lt→ltb, le→ltb, ltb-false, leb→le, leb-false, leb-gt, leb-true, ==_iff, ==_refl, ne→==, ==_false,
  Bool-cases, Option-cases, length, get_elem?, get_or, set, replicate, rev_onto, length-append,
  length-set, length-replicate, get_or-replicate, get_or-set, get_elem?-get_or,
}

-- the constants of vmm.h
abbrev pub page_size_vmm : ℕ
page_size_vmm = 0x1000

abbrev pub vmm_present : ℕ
vmm_present = 1

abbrev pub vmm_write : ℕ
vmm_write = 2

abbrev pub entries_per_table : ℕ
entries_per_table = 512

abbrev pub page_mask : ℕ
page_mask = 0x000FFFFFFFFFF000

-- `PML4_INDEX`, `PDPT_INDEX`, `PD_INDEX` and `PT_INDEX`, where `& 0x1FF` is the remainder by 512
abbrev pub pml4_index : ℕ → ℕ
pml4_index x = x / 2 ^ 39 % 512

abbrev pub pdpt_index : ℕ → ℕ
pdpt_index x = x / 2 ^ 30 % 512

abbrev pub pd_index : ℕ → ℕ
pd_index x = x / 2 ^ 21 % 512

abbrev pub pt_index : ℕ → ℕ
pt_index x = x / 2 ^ 12 % 512

abbrev pub Tables : Type 0
Tables = Ptr → ℕ → ℕ

-- The words of the tables, the static variable, the register, the page allocator, and the addresses that
-- invlpg got, latest first.
pub record Vmm : Type 0 where
  pub tables : Tables
  pub current_pml4 : Ptr
  pub cr3 : ℕ
  pub pmm : Pmm
  pub flushed : List ℕ

abbrev pub M : Type 0 → Type 0
M = Prog Vmm

-- `e & VMM_PRESENT`, and `e & PAGE_MASK`
abbrev pub is_present : ℕ → Bool
is_present e = not (bit_and e vmm_present == 0)

abbrev pub frame : ℕ → ℕ
frame e = bit_and e page_mask

-- the address in the direct map, and back
abbrev pub physical_to_virtual : ℕ → ℕ → ℕ
physical_to_virtual g_hhdm_offset physical = (g_hhdm_offset + physical) % 2 ^ 64

abbrev pub virtual_to_physical : ℕ → ℕ → ℕ
virtual_to_physical g_hhdm_offset virtual = (virtual + 2 ^ 64 - g_hhdm_offset) % 2 ^ 64

abbrev pub get_address_space : ℕ → Vmm → ℕ
get_address_space g_hhdm_offset s = physical_to_virtual g_hhdm_offset s.cr3

abbrev pub write_entry : Tables → Ptr → ℕ → ℕ → Tables
write_entry tables t i e = update tables t (update (tables t) i e)

pub store_entry : Ptr → ℕ → ℕ → M (Unit {0})
store_entry t i e = modify (λ s. record s { tables = write_entry s.tables t i e })

pub invlpg : ℕ → M (Unit {0})
invlpg address = modify (λ s. record s { flushed = address ∷ s.flushed })

-- A page of zeros. Without one the kernel halts, which is `fault` here.
pub alloc_table : M Ptr
alloc_table s =
    let (physical, pmm) = pmm_alloc_page s.pmm in
    if physical == 0
    then fault
    else done physical (record s { tables = update s.tables physical (λ _. 0); pmm = pmm })

-- the entry of a new table
abbrev pub table_entry : ℕ → ℕ
table_entry new = bit_or (bit_or (frame new) vmm_present) vmm_write

-- One of the three blocks of walk: from a table to the table of the next level, none for NULL.
pub descend : Bool → Ptr → ℕ → M (Option Ptr)
descend create t i s =
    if is_present (s.tables t i)
    then done (some (frame (s.tables t i))) s
    else (if not create
        then done none s
        else (do
          new ← alloc_table
          store_entry t i (table_entry new)
          pure (some (frame (table_entry new))))
            s)

-- what goes on at a table, and NULL otherwise
abbrev pub if_table : {A : Type 0} → M A → (Ptr → M A) → Option Ptr → M A
if_table missing next none = missing
if_table missing next (some t) = next t

-- walk over the indices of the levels that are left
pub walk_from : Bool → Ptr → List ℕ → M (Option Ptr)
walk_from create t [] = pure (some t)
walk_from create t (i ∷ is) = do
  next ← descend create t i
  if_table (pure none) (λ t. walk_from create t is) next

-- the indices of the three upper levels
abbrev pub upper : ℕ → List ℕ
upper virtual = pml4_index virtual ∷ pdpt_index virtual ∷ pd_index virtual ∷ []

-- `&pt[PT_INDEX(virtual_address)]` by its table, none for NULL
pub walk : ℕ → Bool → M (Option Ptr)
walk virtual create s = walk_from create s.current_pml4 (upper virtual) s

pub vmm_map : ℕ → ℕ → ℕ → M (Unit {0})
vmm_map virtual physical flags = do
  pt ← walk virtual true
  if_table (λ _. fault)
      (λ t. store_entry t (pt_index virtual) (bit_or (bit_or (frame physical) flags) vmm_present))
      pt
  invlpg virtual

pub clear_entry : ℕ → Ptr → M (Unit {0})
clear_entry virtual t s =
    (if is_present (s.tables t (pt_index virtual))
        then (do store_entry t (pt_index virtual) 0; invlpg virtual)
        else pure tt)
      s

pub vmm_unmap : ℕ → M (Unit {0})
vmm_unmap virtual = do pt ← walk virtual false; if_table (pure tt) (clear_entry virtual) pt

-- `(*pte & PAGE_MASK) | (virtual & (PAGE_SIZE_VMM - 1))`, and 0 where the entry is not present
abbrev pub resolved : ℕ → ℕ → ℕ
resolved virtual e = if is_present e then bit_or (frame e) (virtual % page_size_vmm) else 0

pub vmm_resolve : ℕ → M ℕ
vmm_resolve virtual = do
  pt ← walk virtual false
  if_table (pure 0) (λ t s. done (resolved virtual (s.tables t (pt_index virtual))) s) pt

unfoldable pub vmm_load_cr3 : ℕ → M (Unit {0})
vmm_load_cr3 physical_address =
    modify (λ s. record s { current_pml4 = frame physical_address; cr3 = frame physical_address })

-- `for (i = 256; i < ENTRIES_PER_TABLE; ++i)`: the upper half of a table goes to another
pub copy_upper : ℕ → ℕ → Ptr → Ptr → M (Unit {0})
copy_upper zero i new old = pure tt
copy_upper (suc n) i new old = do
  modify (λ s. record s { tables = write_entry s.tables new i (s.tables old i) })
  copy_upper n (suc i) new old

-- `for (…; address < end; address += PAGE_SIZE_VMM) vmm_map(…)` for n rounds
pub map_range : ℕ → ℕ → ℕ → M (Unit {0})
map_range zero virtual physical = pure tt
map_range (suc n) virtual physical = do
  vmm_map virtual physical vmm_write
  map_range n ((virtual + page_size_vmm) % 2 ^ 64) ((physical + page_size_vmm) % 2 ^ 64)

-- The rounds from `first` up to `end`. A range that reaches into the last page of the address space,
-- where the loop's address would wrap, is not modelled.
abbrev pub pages_between : ℕ → ℕ → ℕ
pages_between first end = (end - first + page_size_vmm - 1) / page_size_vmm

unfoldable pub map_usable : List MemmapEntry → M (Unit {0})
map_usable [] = pure tt
map_usable (e ∷ es) = do
  if e.type == usable
      then map_range (pages_between e.base ((e.base + e.length) % 2 ^ 64)) e.base e.base
      else pure tt
  map_usable es

-- `pmm_bitmap` and its size are those of pmm.c.
unfoldable pub init_vmm : ℕ → List MemmapEntry → ℕ → ℕ → M (Unit {0})
init_vmm g_hhdm_offset memmap pmm_bitmap pmm_bitmap_size = do
  s ← get
  new ← alloc_table
  modify (λ s. record s { current_pml4 = new })
  copy_upper 256 256 new (frame s.cr3)
  map_usable memmap
  if not (pmm_bitmap == 0) && not (pmm_bitmap_size == 0)
      then (do
        let bitmap_physical = virtual_to_physical g_hhdm_offset pmm_bitmap
        map_range (pages_between 0 pmm_bitmap_size) ((bitmap_physical + g_hhdm_offset) % 2 ^ 64)
            bitmap_physical)
      else pure tt
  s ← get
  vmm_load_cr3 s.current_pml4

pub create_address_space : M Ptr
create_address_space = do
  new_pml4_phys ← alloc_table
  s ← get
  copy_upper 256 256 new_pml4_phys s.current_pml4
  pure new_pml4_phys
