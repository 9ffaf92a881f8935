-- ===== src/Klibc/Slab/Fresh.antt =====
-- slab_alloc of slab.c where the cache has no slab: a new one is made.
use goshkik_os.Prelude.Memory.{Ptr, update, update_same, update_other}
use goshkik_os.Prelude.Run.{done}
use goshkik_os.Arch.Vmm.{frame}
use goshkik_os.Arch.Vmm.Tree.{Home, IsVmm, resolve}
use goshkik_os.Arch.Vmm.Store.{same_page}
use goshkik_os.Arch.Pmm.Laws.{in_use, page_at}
use goshkik_os.Klibc.Slab.Layout.{offset_for, objects_in, Within, objects-Within}
use goshkik_os.Klibc.Slab.{
  Slab, SlabCache, Slabs, slab_init, first_object_offset, slab_alloc, alloc_from_new,
  alloc_from_slab, put_partial,
}
use goshkik_os.Klibc.Slab.FreeList.{FreeList, slots, length-slots}
use goshkik_os.Klibc.Slab.Alloc.{load_cache_lem, IsReady, header_without, alloc_from_slab_lem}
use goshkik_os.Klibc.Slab.Free.{put_partial_lem}
use goshkik_os.Prelude.{
  ℕ, suc, ◌+◌, ◌%◌, ◌<◌, bit_or, ◌≡◌, refl, sym, ap, ap₂, ◌∙◌, subst, ◌≢◌, true, false, some, List,
  [], ◌∷◌, arith, ne→==, length,
}
use goshkik_os.Klibc.Slab.Init.{
  objects_of, CanGrow, offset_lem, objects_lem, room_lem, small_lem, slab_init-IsFresh,
}

-- The state after slab_alloc on a cache without slabs: a page that was free is in use, and a slab whose slots
-- are all free but the last one, which is the object o.
pub record Grown (s : Slabs) (cache : Ptr) (c : SlabCache) (shift : ℕ) (o : Ptr) (s' : Slabs)
    : Type 0 where
  pub slab : Ptr
  pub os : List Ptr
  pub b : Slab
  pub home : Home
  pub page : ℕ
  pub address : slab ≡ page_at s.vmm.pmm page
  pub was_free : in_use s.vmm.pmm page ≡ false
  pub taken : in_use s'.vmm.pmm page ≡ true
  pub cut :
      o ∷ os ≡ slots (objects_in shift c.object_size) c.object_size (slab + offset_for shift) []
  pub inside : Within c.object_size (slab + 40) (slab + 4096) (o ∷ os)
  pub header : s'.slabs slab ≡ some b
  pub frees : FreeList s'.links b.free_list os
  pub counted : b.free_count ≡ length os
  pub valid : IsVmm s'.vmm home
  pub identity :
      (other : ℕ)
      → same_page slab other ≡ true
      → resolve s'.vmm.tables s'.vmm.current_pml4 other ≡ bit_or (frame slab) (other % 4096)
  pub others : (p : Ptr) → slab ≢ p → s'.slabs p ≡ s.slabs p
  pub other_caches : (p : Ptr) → cache ≢ p → s'.caches p ≡ s.caches p

header_fields :
    (c : SlabCache) (b : Slab) (next : Ptr) (os : List Ptr)
    → ((header_without c b next os).free_list ≡ next)
      × ((header_without c b next os).free_count ≡ length os)
header_fields c b next [] = (refl, refl)
header_fields c b next (o ∷ os) = (refl, refl)

-- a list that is not empty
split : (os : List Ptr) → 0 < length os → (o : Ptr) × (rest : List Ptr) × (os ≡ o ∷ rest)
split [] h = absurd (omega arith)
split (o ∷ os) h = (o, os, refl)

no_slab :
    (fuel : ℕ) (s : Slabs) (cache : Ptr) (c : SlabCache)
    → 0 < cache
    → s.caches cache ≡ some c
    → c.partial ≡ 0
    → c.empty ≡ 0
    → slab_alloc fuel cache s ≡ alloc_from_new fuel cache s
unfolding slab_alloc
no_slab fuel s cache c cp ca e e' =
    rw (ne→== cache 0 (λ e. absurd (omega arith)), load_cache_lem cache s c cp ca, e, e') refl

from_new :
    (fuel : ℕ) (s s1 s2 : Slabs) (cache slab : Ptr)
    → slab_init cache s ≡ done slab s1
    → 0 < slab
    → put_partial cache slab s1 ≡ done tt s2
    → alloc_from_new fuel cache s ≡ alloc_from_slab fuel cache slab s2
unfolding alloc_from_new
from_new fuel s s1 s2 cache slab run positive put =
    rw (run, ne→== slab 0 (λ e. absurd (omega arith)), put) refl

-- If the cache has no slab, four pages are free, the objects are aligned to a power of two up to the page size,
-- and a page has room for one, slab_alloc returns an object. It is a slot of a page that was free before
-- and is in use now, and that is mapped to itself. The page is cut into as many slots as fit in behind
-- the aligned header; all lie behind the header and inside of the page, and the other slots are the free
-- objects of that page. The page tables are a tree again, and other slabs and caches are as before.
pub slab_alloc-Grown :
    (fuel : ℕ) (s : Slabs) (cache : Ptr) (c : SlabCache) (shift : ℕ) (home : Home)
    → CanGrow s cache c shift home
    → c.partial ≡ 0
    → c.empty ≡ 0
    → (o : Ptr) × (s' : Slabs) × (slab_alloc (suc fuel) cache s ≡ done o s')
      × Grown s cache c shift o s'
slab_alloc-Grown fuel s cache c shift home g no_partial no_empty =
    let (slab, b, home', s1, run, f) = slab_init-IsFresh s cache c shift home g in
    let count = length-slots (objects_of c) c.object_size (slab + first_object_offset c.align) [] in
    let (o, os, cut) =
      split (slots (objects_of c) c.object_size (slab + first_object_offset c.align) [])
        (let r = room_lem s cache c shift home g in omega arith) in
    let cp = g.cache_positive in
    let fp = f.positive in
    let ca = ap (λ h. h cache) f.same_caches ∙ g.cache_at in
    let b2 : Slab = record b { next = c.partial } in
    let c2 : SlabCache = record c { partial = slab } in
    let s2 : Slabs = record s1 {
      slabs = update s1.slabs slab (some b2);
      caches = update s1.caches cache (some c2);
    } in
    let n = ap length cut in
    let ready : IsReady s2 cache c2 slab b2 o os = record {
      cache_positive = cp;
      slab_positive = fp;
      cache_at = update_same s1.caches cache (some c2);
      slab_at = update_same s1.slabs slab (some b2);
      head = refl;
      frees = subst (λ l. FreeList s1.links b.free_list l) cut f.frees;
      counted = omega (arith, f.counted, n, count);
      small = (let k = small_lem s cache c shift home g in omega (arith, n, count));
    } in
    let (s3, run', t) = alloc_from_slab_lem fuel s2 cache c2 slab b2 o os ready in
    let laid : o ∷ os
        ≡ slots (objects_in shift c.object_size) c.object_size (slab + offset_for shift) [] =
      sym cut
      ∙ ap₂ (λ m f. slots m c.object_size (slab + f) []) (objects_lem s cache c shift home g)
          (offset_lem s cache c shift home g) in
    let (list, number) = header_fields c2 b2 (s2.links o) os in
    (
      o,
      s3,
      no_slab (suc fuel) s cache c cp g.cache_at no_partial no_empty
          ∙ from_new (suc fuel) s s1 s2 cache slab run fp
              (put_partial_lem cache c slab b s1 cp fp ca f.header)
          ∙ run',
      record {
        slab = slab;
        os = os;
        b = header_without c2 b2 (s2.links o) os;
        home = home';
        page = f.page;
        address = f.address;
        was_free = f.was_free;
        taken = ap (λ v. in_use v.pmm f.page) t.same_vmm ∙ f.taken;
        cut = laid;
        inside =
            subst (Within c.object_size (slab + 40) (slab + 4096)) (sym laid)
              (objects-Within shift c.object_size slab g.shift_small);
        header = t.header;
        frees = rw list t.frees;
        counted = number;
        valid = subst (λ v. IsVmm v home') (sym t.same_vmm) f.valid;
        identity = λ other same.
            ap (λ v. resolve v.tables v.current_pml4 other) t.same_vmm ∙ f.identity other same;
        others = λ p ne. t.others p ne ∙ update_other s1.slabs slab (some b2) p ne ∙ f.others p ne;
        other_caches = λ p ne.
            t.other_caches p ne
            ∙ update_other s1.caches cache (some c2) p ne
            ∙ ap (λ h. h p) f.same_caches;
      },
    )
