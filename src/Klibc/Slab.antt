-- ===== src/Klibc/Slab.antt =====
-- src/klibc/kmem/slab.c: caches of objects of one size, cut from pages that pmm.c and vmm.c of
-- src/arch/x86_64/mem provide. The name of a cache is not modelled.
pub mod FreeList
pub mod Alloc
pub mod Free
pub mod Layout
pub mod Init
pub mod Fresh
pub mod Release
mod Tests
use goshkik_os.Prelude.Memory.{Ptr, update}
use goshkik_os.Prelude.Run.{Run, done, fault, out_of_fuel, Prog, pure, ◌>>=◌, ◌>>◌, get, modify}
use goshkik_os.Arch.Pmm.{pmm_alloc_page, pmm_free_page}
use goshkik_os.Arch.Vmm.{
  Vmm, vmm_map, vmm_unmap, virtual_to_physical, page_size_vmm, vmm_present, vmm_write,
}
use goshkik_os.Prelude.{
  ℕ, zero, suc, ◌+◌, ◌-◌, ◌*◌, ◌/◌, ◌%◌, ◌^◌, ◌≤◌, ◌<◌, bit_and, bit_or, bit_xor, ◌≡◌, refl, sym,
  ap, ap₂, ◌∙◌, fun_ext, subst, subst₂, ◌≢◌, ◌↔◌, ◌⊎◌, inl, inr, Bool, true, false, not, ◌&&◌, ◌||◌,
  Option, none, some, List, [], ◌∷◌, ◌++◌, map, arith, ltb, leb, ◌==◌, if◌then◌else◌, ltb→lt,
  lt→ltb, le→ltb, ltb-false, leb→le, leb-false, leb-gt, leb-true, ==_iff, ==_refl, ne→==, ==_false,
  Bool-cases, Option-cases, length, get_elem?, get_or, set, replicate, rev_onto, length-append,
  length-set, length-replicate, get_or-replicate, get_or-set, get_elem?-get_or,
}

-- `PAGE_SIZE_SLAB`
abbrev pub page_size_slab : ℕ
page_size_slab = page_size_vmm

-- `slab_t`, which takes 40 bytes: a header at the start of a page, with SLAB_MAGIC in it
pub record Slab : Type 0 where
  pub next : Ptr
  pub cache : Ptr
  pub free_count : ℕ
  pub total_objects : ℕ
  pub free_list : Ptr

abbrev pub sizeof_slab : ℕ
sizeof_slab = 40

pub record SlabCache : Type 0 where
  pub object_size : ℕ
  pub align : ℕ
  pub objects_per_slab : ℕ
  pub partial : Ptr
  pub full : Ptr
  pub empty : Ptr
  pub ctor : Bool
  pub dtor : Bool

-- The headers of pages, none where no SLAB_MAGIC stands; the first word of every object; the caches; the
-- page tables and pages; what the next calls of kmalloc return (NULL when the list is empty); what went to
-- kfree, and to the constructors and destructors, latest first.
pub record Slabs : Type 0 where
  pub slabs : Ptr → Option Slab
  pub links : Ptr → Ptr
  pub caches : Ptr → Option SlabCache
  pub vmm : Vmm
  pub heap : List Ptr
  pub freed : List Ptr
  pub constructed : List Ptr
  pub destroyed : List Ptr

abbrev pub M : Type 0 → Type 0
M = Prog Slabs

abbrev or_fault : {A : Type 0} → Option A → M A
or_fault none = λ _. fault
or_fault (some a) = pure a

pub load_slab : Ptr → M Slab
load_slab p s = if p == 0 then fault else or_fault (s.slabs p) s

pub store_slab : Ptr → Slab → M (Unit {0})
store_slab p b = modify (λ s. record s { slabs = update s.slabs p (some b) })

pub load_cache : Ptr → M SlabCache
load_cache p s = if p == 0 then fault else or_fault (s.caches p) s

pub store_cache : Ptr → SlabCache → M (Unit {0})
store_cache p c = modify (λ s. record s { caches = update s.caches p (some c) })

unfoldable pub kmalloc : M Ptr
kmalloc s = elim s.heap [ [] ↦ done 0 s | p ∷ ps ↦ done p (record s { heap = ps }) ]

unfoldable pub kfree : Ptr → M (Unit {0})
kfree p = modify (λ s. record s { freed = p ∷ s.freed })

abbrev pub back : {A : Type 0} → Slabs → Run Vmm A → Run Slabs A
back s (done a v) = done a (record s { vmm = v })
back s fault = fault
back s out_of_fuel = out_of_fuel

-- a call on the page tables
pub on_vmm : {A : Type 0} → Prog Vmm A → M A
on_vmm m s = back s (m s.vmm)

pub align_up : ℕ → ℕ → ℕ
align_up v a =
    let low = (a + 2 ^ 64 - 1) % 2 ^ 64 in bit_and ((v + low) % 2 ^ 64) (2 ^ 64 - 1 - low)

abbrev pub slab_from_object : Ptr → Ptr
slab_from_object object = object - object % page_size_slab

-- `first_object_offset` and `usable` of a cache, the latter a difference of unsigned numbers
pub first_object_offset : ℕ → ℕ
first_object_offset align = align_up (align_up sizeof_slab 8) align

pub usable : ℕ → ℕ
usable align = (page_size_slab + 2 ^ 64 - first_object_offset align) % 2 ^ 64

-- the loop of slab_init over n slots, with the last slot it linked
pub link_slots : ℕ → ℕ → Ptr → Ptr → (Ptr → Ptr) → Ptr × (Ptr → Ptr)
link_slots zero size object previous links = (previous, links)
link_slots (suc n) size object previous links =
    link_slots n size (object + size) object (update links object previous)

-- the part of slab_init behind the page
pub fill_page : Ptr → SlabCache → Ptr → M Ptr
fill_page cache c slab = do
  modify (λ s. record s {
    slabs = update s.slabs slab none;
    links = λ p. if slab_from_object p == slab then 0 else s.links p;
  })
  let objects = usable c.align / c.object_size
  if objects == 0 then pure 0 else (do
    s ← get
    let (previous, links) =
        link_slots objects c.object_size (slab + first_object_offset c.align) 0 s.links
    modify (λ s. record s { links = links })
    store_slab slab (record {
      next = 0;
      cache = cache;
      free_count = objects % 2 ^ 32;
      total_objects = objects % 2 ^ 32;
      free_list = previous;
    })
    pure slab)

-- pmm_alloc_page on the pages under the page tables
pub take_page : Prog Vmm ℕ
take_page v = let (physical, pmm) = pmm_alloc_page v.pmm in done physical (record v { pmm = pmm })

pub slab_init : Ptr → M Ptr
slab_init cache = do
  physical ← on_vmm take_page
  if physical == 0 then pure 0 else (do
    on_vmm (vmm_map physical physical (bit_or vmm_present vmm_write))
    c ← load_cache cache
    fill_page cache c physical)

unfoldable pub slab_cache_create : ℕ → ℕ → Bool → Bool → M Ptr
slab_cache_create object_size align ctor dtor = if object_size == 0 then pure 0 else (do
  let align = if ltb align 8 then 8 else align
  let size = align_up object_size align
  cache ← kmalloc
  if cache == 0 then pure 0 else (do
    store_cache cache (record {
      object_size = size;
      align = align;
      objects_per_slab = usable align / size;
      partial = 0;
      full = 0;
      empty = 0;
      ctor = ctor;
      dtor = dtor;
    })
    if usable align / size == 0 then (do kfree cache; pure 0) else pure cache))

pub slab_pop_object : Ptr → M Ptr
slab_pop_object slab = if slab == 0 then pure 0 else (do
  b ← load_slab slab
  if b.free_list == 0 then pure 0 else (do
    s ← get
    store_slab slab (record b {
      free_list = s.links b.free_list;
      free_count = (b.free_count + 2 ^ 32 - 1) % 2 ^ 32;
    })
    pure b.free_list))

pub slab_push_object : Ptr → Ptr → M (Unit {0})
slab_push_object slab object = do
  b ← load_slab slab
  modify (λ s. record s { links = update s.links object b.free_list })
  store_slab slab (record b { free_list = object; free_count = (b.free_count + 1) % 2 ^ 32 })

-- what `partial_pointer` points at
pub data Place : Type 0 where
  partial_of : Ptr → Place
  full_of : Ptr → Place
  next_of : Ptr → Place

pub read_place : Place → M Ptr
read_place (partial_of cache) = do c ← load_cache cache; pure c.partial
read_place (full_of cache) = do c ← load_cache cache; pure c.full
read_place (next_of slab) = do b ← load_slab slab; pure b.next

pub write_place : Place → Ptr → M (Unit {0})
write_place (partial_of cache) p = do
  c ← load_cache cache
  store_cache cache (record c { partial = p })
write_place (full_of cache) p = do c ← load_cache cache; store_cache cache (record c { full = p })
write_place (next_of slab) p = do b ← load_slab slab; store_slab slab (record b { next = p })

-- `while (*partial_pointer && *partial_pointer != slab)`, and whether it stopped at the slab
pub find_place : ℕ → Place → Ptr → M (Bool × Place)
find_place zero place slab = λ _. out_of_fuel
find_place (suc fuel) place slab = do
  p ← read_place place
  if p == 0
      then pure (false, place)
      else (if p == slab then pure (true, place) else find_place fuel (next_of p) slab)

-- the slab leaves the list that starts at the place; whether it was there
pub unlink_slab : ℕ → Place → Ptr → M Bool
unlink_slab fuel start slab = do
  (found, place) ← find_place fuel start slab
  if not found then pure false else (do b ← load_slab slab; write_place place b.next; pure true)

pub construct : Bool → Ptr → M (Unit {0})
construct ctor object =
    if not ctor then pure tt else modify (λ s. record s { constructed = object ∷ s.constructed })

-- `slab->next = cache->full; cache->full = slab`
pub put_full : Ptr → Ptr → M (Unit {0})
put_full cache slab = do
  c ← load_cache cache
  b ← load_slab slab
  store_slab slab (record b { next = c.full })
  store_cache cache (record c { full = slab })

-- `slab->next = cache->partial; cache->partial = slab`
pub put_partial : Ptr → Ptr → M (Unit {0})
put_partial cache slab = do
  c ← load_cache cache
  b ← load_slab slab
  store_slab slab (record b { next = c.partial })
  store_cache cache (record c { partial = slab })

-- the part of slab_alloc that takes an object of a slab
pub alloc_from_slab : ℕ → Ptr → Ptr → M Ptr
alloc_from_slab fuel cache slab = do
  object ← slab_pop_object slab
  if object == 0 then pure 0 else (do
    b ← load_slab slab
    if not (b.free_count == 0)
        then pure tt
        else (do unlink_slab fuel (partial_of cache) slab; put_full cache slab)
    c ← load_cache cache
    construct c.ctor object
    pure object)

-- the part of slab_alloc where the cache has no slab to take from
pub alloc_from_new : ℕ → Ptr → M Ptr
alloc_from_new fuel cache = do
  slab ← slab_init cache
  if slab == 0 then kmalloc else (do put_partial cache slab; alloc_from_slab fuel cache slab)

-- `fuel` is for the walks along the lists of slabs.
unfoldable pub slab_alloc : ℕ → Ptr → M Ptr
slab_alloc fuel cache = if cache == 0 then pure 0 else (do
  c ← load_cache cache
  let slab = if c.partial == 0 then c.empty else c.partial
  if slab == 0 then alloc_from_new fuel cache else alloc_from_slab fuel cache slab)

-- pmm_free_page on the pages under the page tables
pub give_page : ℕ → Prog Vmm (Unit {0})
give_page physical = modify (λ v. record v { pmm = pmm_free_page physical v.pmm })

-- the page of a slab goes back
pub release_slab : ℕ → Ptr → M (Unit {0})
release_slab g_hhdm_offset slab = do
  on_vmm (vmm_unmap slab)
  on_vmm (give_page (virtual_to_physical g_hhdm_offset slab))

-- the part of slab_free behind slab_push_object
pub refile_slab : ℕ → ℕ → Ptr → Ptr → Bool → M (Unit {0})
refile_slab g_hhdm_offset fuel cache slab true = do
  found ← unlink_slab fuel (full_of cache) slab
  if found then put_partial cache slab else pure tt
refile_slab g_hhdm_offset fuel cache slab false = do
  b ← load_slab slab
  if not (b.free_count == b.total_objects)
      then pure tt
      else (do unlink_slab fuel (partial_of cache) slab; release_slab g_hhdm_offset slab)

pub destruct : Bool → Ptr → M (Unit {0})
destruct dtor object =
    if not dtor then pure tt else modify (λ s. record s { destroyed = object ∷ s.destroyed })

-- the part of slab_free behind slab_from_object, which kfree ends where no magic number stands
pub free_object : ℕ → ℕ → Ptr → Ptr → Option Slab → M (Unit {0})
free_object g_hhdm_offset fuel cache object none = kfree object
free_object g_hhdm_offset fuel cache object (some b) = do
  c ← load_cache cache
  destruct c.dtor object
  slab_push_object (slab_from_object object) object
  refile_slab g_hhdm_offset fuel cache (slab_from_object object) (b.free_count == 0)

unfoldable pub slab_free : ℕ → ℕ → Ptr → Ptr → M (Unit {0})
slab_free g_hhdm_offset fuel cache object = if (cache == 0) || (object == 0) then pure tt else (do
  s ← get
  free_object g_hhdm_offset fuel cache object (s.slabs (slab_from_object object)))

-- `while (slab)`: the pages of a list of slabs go back
unfoldable pub release_all : ℕ → ℕ → Ptr → M (Unit {0})
release_all g_hhdm_offset zero slab = λ _. out_of_fuel
release_all g_hhdm_offset (suc fuel) slab = if slab == 0 then pure tt else (do
  b ← load_slab slab
  release_slab g_hhdm_offset slab
  release_all g_hhdm_offset fuel b.next)

unfoldable pub slab_destroy : ℕ → ℕ → Ptr → M (Unit {0})
slab_destroy g_hhdm_offset fuel cache = if cache == 0 then pure tt else (do
  c ← load_cache cache
  release_all g_hhdm_offset fuel c.partial
  c ← load_cache cache
  release_all g_hhdm_offset fuel c.empty
  kfree cache)
