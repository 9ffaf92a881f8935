-- ===== src/Klibc/Slab/Tests.antt =====
-- slab.c on four free pages, and its theorems at a slab of three objects.
use goshkik_os.Prelude.Memory.{Ptr, update}
use goshkik_os.Prelude.Run.{done, ◌>>=◌}
use goshkik_os.Arch.Vmm.Tree.{resolve}
use goshkik_os.Arch.Vmm.Store.{same_page}
use goshkik_os.Klibc.Slab.{
  Slab, SlabCache, Slabs, slab_alloc, slab_free, usable, first_object_offset, align_up,
}
use goshkik_os.Klibc.Slab.Alloc.{IsReady, Taken, slab_alloc_lem}
use goshkik_os.Klibc.Slab.Free.{Restored, slab_free-slab_alloc}
use goshkik_os.Klibc.Slab.Fresh.{Grown, slab_alloc-Grown}
use goshkik_os.Klibc.Slab.Init.{CanGrow}
use goshkik_os.Klibc.Slab.Release.{IsLast, slab_free_leaks}
use goshkik_os.Prelude.{ℕ, ◌/◌, ◌≡◌, refl, true, false, none, some, [], ◌∷◌, arith, ◌==◌}
use goshkik_os.Arch.Vmm.Samples.{pages, empty, only_root, empty-IsVmm, four_free}

-- a cache of objects of 1000 bytes
abbrev small_cache : SlabCache
small_cache = record {
  object_size = 1000;
  align = 8;
  objects_per_slab = 4;
  partial = 0;
  full = 0;
  empty = 0;
  ctor = false;
  dtor = true;
}

abbrev fresh_state : Slabs
fresh_state = record {
  slabs = λ p. none;
  links = λ p. 0;
  caches = update (λ p. none) 0x77 (some small_cache);
  vmm = empty;
  heap = 0x88 ∷ [];
  freed = [];
  constructed = [];
  destroyed = [];
}

-- the pages of this state are enough, and a page holds four objects
can_grow : CanGrow fresh_state 0x77 small_cache 3 only_root
can_grow = record {
  tree = empty-IsVmm;
  pages = rw four_free (omega arith);
  cache_positive = omega arith;
  cache_at = refl;
  wide = omega arith;
  aligned = refl;
  shift_small = omega arith;
  room = omega arith;
}

slab_alloc-Grown_example :
    (o : Ptr) × (s' : Slabs) × (slab_alloc 2 0x77 fresh_state ≡ done o s')
    × Grown fresh_state 0x77 small_cache 3 o s'
slab_alloc-Grown_example =
    slab_alloc-Grown 1 fresh_state 0x77 small_cache 3 only_root can_grow refl refl

-- A cache with an alignment above the page size is made, and has slots behind the page.
objects_outside : (usable 8192 / align_up 16 8192 == 0) ≡ false
unfolding usable first_object_offset align_up
objects_outside = refl

-- a slab with three objects, of which two are free
abbrev header : Slab
header = record { next = 0; cache = 0x77; free_count = 2; total_objects = 3; free_list = 0x200410 }

abbrev two_free : Slabs
two_free = record fresh_state {
  slabs = update (λ p. none) 0x200000 (some header);
  links = update (λ p. 0) 0x200410 0x200028;
  caches = update (λ p. none) 0x77 (some (record small_cache { partial = 0x200000 }));
}

two_free-IsReady :
    IsReady two_free 0x77
      (record small_cache { partial = 0x200000 })
      0x200000
      header
      0x200410
      (0x200028 ∷ [])
two_free-IsReady = record {
  cache_positive = omega arith;
  slab_positive = omega arith;
  cache_at = refl;
  slab_at = refl;
  head = refl;
  frees = (refl, omega arith, (refl, omega arith, refl));
  counted = refl;
  small = omega arith;
}

slab_alloc_lem_example :
    (s' : Slabs) × (slab_alloc 1 0x77 two_free ≡ done 0x200410 s')
    × Taken two_free 0x77
        (record small_cache { partial = 0x200000 })
        0x200000
        header
        0x200410
        (0x200028 ∷ [])
        s'
slab_alloc_lem_example =
    slab_alloc_lem 0 two_free 0x77 (record small_cache { partial = 0x200000 }) 0x200000 header
      0x200410 (0x200028 ∷ []) two_free-IsReady

slab_free-slab_alloc_example :
    (s' : Slabs) × ((do object ← slab_alloc 1 0x77; slab_free 0xFFFF800000000000 1 0x77 object)
        two_free
      ≡ done tt s')
    × Restored two_free s'
slab_free-slab_alloc_example =
    slab_free-slab_alloc 0xFFFF800000000000 0 two_free 0x77
      (record small_cache { partial = 0x200000 }) header 0x200410 (0x200028 ∷ []) two_free-IsReady
      (λ h e. absurd (omega arith))

two_free-IsLast :
    IsLast 0xFFFF800000000000 two_free 0x77
      (record small_cache { partial = 0x200000 })
      header
      0x200810
      only_root
two_free-IsLast = record {
  cache_positive = omega arith;
  object_positive = omega arith;
  slab_positive = omega arith;
  cache_at = refl;
  slab_at = refl;
  head = refl;
  some_free = omega arith;
  all_but_one = refl;
  small = omega arith;
  tree = empty-IsVmm;
  below = omega arith;
  canonical = omega arith;
  beyond = omega arith;
}

slab_free_leaks_example :
    (s' : Slabs) × (slab_free 0xFFFF800000000000 1 0x77 0x200810 two_free ≡ done tt s')
    × (s'.caches 0x77 ≡ some (record small_cache { partial = 0 }))
    × (s'.vmm.pmm ≡ pages)
    × ((other : ℕ)
        → same_page 0x200000 other ≡ true
        → resolve s'.vmm.tables s'.vmm.current_pml4 other ≡ 0)
slab_free_leaks_example =
    slab_free_leaks 0xFFFF800000000000 0 two_free 0x77 (record small_cache { partial = 0x200000 })
      header 0x200810 only_root two_free-IsLast
