-- ===== src/Klibc/Slab/Init.antt =====
-- slab_init of slab.c: a page of pmm.c that vmm.c maps to itself, cut into free objects.
use goshkik_os.Prelude.Memory.{Ptr, update, update_same, update_other}
use goshkik_os.Prelude.Run.{done}
use goshkik_os.Arch.Pmm.{pmm_alloc_page}
use goshkik_os.Arch.Vmm.{Vmm, frame}
use goshkik_os.Arch.Vmm.Tree.{Home, IsVmm, resolve}
use goshkik_os.Arch.Vmm.Free.{free_count, free_count-pmm_alloc_page, took-IsVmm}
use goshkik_os.Arch.Vmm.Store.{same_page}
use goshkik_os.Arch.Vmm.Laws.{vmm_map_keeps}
use goshkik_os.Arch.Pmm.Laws.{in_use, page_at}
use goshkik_os.Klibc.Slab.Layout.{offset_for, objects_in, layout, objects_few}
use goshkik_os.Klibc.Slab.{
  Slab, SlabCache, Slabs, store_slab, slab_from_object, slab_init, fill_page, take_page, on_vmm,
  usable, first_object_offset, link_slots,
}
use goshkik_os.Klibc.Slab.FreeList.{FreeList, slots, link_slots_lem}
use goshkik_os.Klibc.Slab.Alloc.{load_cache_lem}
use goshkik_os.Prelude.{
  ℕ, ◌+◌, ◌/◌, ◌%◌, ◌^◌, ◌≤◌, ◌<◌, bit_or, ◌≡◌, refl, sym, ap, ◌∙◌, subst, ◌≢◌, true, false, none,
  some, [], arith, ◌==◌, if◌then◌else◌, ==_refl, ne→==,
}

-- the objects of a slab of this cache, as slab_init counts them
abbrev pub objects_of : SlabCache → ℕ
objects_of c = usable c.align / c.object_size

-- The page of a new slab: all its slots are free objects, and its addresses are mapped to themselves.
pub record IsFresh (s : Slabs) (cache : Ptr) (c : SlabCache) (slab : Ptr) (b : Slab) (home : Home)
    (s' : Slabs) : Type 0 where
  pub positive : 0 < slab
  pub header : s'.slabs slab ≡ some b
  pub next_null : b.next ≡ 0
  pub counted : b.free_count ≡ objects_of c
  pub total : b.total_objects ≡ objects_of c
  pub frees :
      FreeList s'.links b.free_list
        (slots (objects_of c) c.object_size (slab + first_object_offset c.align) [])
  pub others : (p : Ptr) → slab ≢ p → s'.slabs p ≡ s.slabs p
  pub same_caches : s'.caches ≡ s.caches
  pub valid : IsVmm s'.vmm home
  pub identity :
      (other : ℕ)
      → same_page slab other ≡ true
      → resolve s'.vmm.tables s'.vmm.current_pml4 other ≡ bit_or (frame slab) (other % 4096)
  pub page : ℕ
  pub address : slab ≡ page_at s.vmm.pmm page
  pub was_free : in_use s.vmm.pmm page ≡ false
  pub taken : in_use s'.vmm.pmm page ≡ true

-- The tables form a tree, four pages are free, and the cache, whose objects are aligned to 2 ^ shift bytes,
-- a page at most, has room for an object in a page.
pub record CanGrow (s : Slabs) (cache : Ptr) (c : SlabCache) (shift : ℕ) (home : Home)
    : Type 0 where
  pub tree : IsVmm s.vmm home
  pub pages : 4 ≤ free_count s.vmm.pmm
  pub cache_positive : 0 < cache
  pub cache_at : s.caches cache ≡ some c
  pub wide : 0 < c.object_size
  pub aligned : c.align ≡ 2 ^ shift
  pub shift_small : shift ≤ 12
  pub room : 0 < objects_in shift c.object_size

-- the code's layout is that of Layout
module _ (s : Slabs) (cache : Ptr) (c : SlabCache) (shift : ℕ) (home : Home)
    (g : CanGrow s cache c shift home) where
  pub offset_lem : first_object_offset c.align ≡ offset_for shift
  offset_lem = ap first_object_offset g.aligned ∙ (layout shift g.shift_small).0

  pub objects_lem : objects_of c ≡ objects_in shift c.object_size
  objects_lem = ap (λ u. u / c.object_size) (ap usable g.aligned ∙ (layout shift g.shift_small).1)

  pub room_lem : 0 < objects_of c
  room_lem = subst (λ n. 0 < n) (sym objects_lem) g.room

  pub small_lem : objects_of c < 2 ^ 32
  small_lem = subst (λ n. n < 2 ^ 32) (sym objects_lem) (objects_few shift c.object_size g.wide)

pub slab_init-IsFresh :
    (s : Slabs) (cache : Ptr) (c : SlabCache) (shift : ℕ) (home : Home)
    → CanGrow s cache c shift home
    → (slab : Ptr) × (b : Slab) × (home' : Home) × (s' : Slabs) × (slab_init cache s ≡ done slab s')
      × IsFresh s cache c slab b home' s'
unfolding slab_init on_vmm take_page fill_page store_slab
slab_init-IsFresh s cache c shift home g =
    let (i, takes, one) =
      free_count-pmm_alloc_page s.vmm.pmm g.tree.valid (let n = g.pages in omega arith) in
    let slab = (pmm_alloc_page s.vmm.pmm).0 in
    let positive : 0 < slab =
      let n = g.tree.not_null i takes.inside in let a = takes.address in omega arith in
    let v1 : Vmm = record s.vmm { pmm = (pmm_alloc_page s.vmm.pmm).1 } in
    let (v2, home', run, valid, left, maps, keeps) =
      vmm_map_keeps slab slab 3 v1 home (took-IsVmm s.vmm home i g.tree takes)
        (let n = g.pages in omega arith) refl in
    let n = objects_of c in
    let blank : Ptr → Ptr = λ p. if slab_from_object p == slab then 0 else s.links p in
    let linked = link_slots n c.object_size (slab + first_object_offset c.align) 0 blank in
    let b : Slab = record {
      next = 0;
      cache = cache;
      free_count = n % 2 ^ 32;
      total_objects = n % 2 ^ 32;
      free_list = linked.0;
    } in
    let fits : n % 2 ^ 32 ≡ n = let k = small_lem s cache c shift home g in omega arith in
    let s2 : Slabs = record s { vmm = v2 } in
    (
      slab,
      b,
      home',
      record s2 { slabs = update (update s.slabs slab none) slab (some b); links = linked.1 },
      rw
          (
            ne→== slab 0 (λ e. absurd (omega arith)),
            run,
            load_cache_lem cache s2 c g.cache_positive g.cache_at,
            ne→== n 0 (λ e. absurd (let k = room_lem s cache c shift home g in omega arith)),
          )
          refl,
      record {
        positive = positive;
        header = update_same (update s.slabs slab none) slab (some b);
        next_null = refl;
        counted = fits;
        total = fits;
        frees =
            link_slots_lem n c.object_size (slab + first_object_offset c.align) blank (omega arith)
              g.wide;
        others = λ p ne.
            update_other (update s.slabs slab none) slab (some b) p ne
            ∙ update_other s.slabs slab none p ne;
        same_caches = refl;
        valid = valid;
        identity = λ other same. maps.translates other ∙ rw same refl;
        page = i;
        address = takes.address;
        was_free = takes.free;
        taken = keeps i (takes.marks i ∙ rw (==_refl i) refl);
      },
    )
