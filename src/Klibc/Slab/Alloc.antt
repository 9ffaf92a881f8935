-- ===== src/Klibc/Slab/Alloc.antt =====
-- slab_alloc of slab.c takes the first free object.
use goshkik_os.Prelude.Memory.{Ptr, update, update_same, update_other}
use goshkik_os.Prelude.Run.{done}
use goshkik_os.Klibc.Slab.{
  Slab, SlabCache, Slabs, load_slab, store_slab, load_cache, store_cache, slab_pop_object,
  slab_alloc, alloc_from_slab, unlink_slab, find_place, read_place, write_place, put_full,
  construct, partial_of,
}
use goshkik_os.Klibc.Slab.FreeList.{FreeList}
use goshkik_os.Prelude.{
  ℕ, suc, ◌+◌, ◌-◌, ◌%◌, ◌^◌, ◌<◌, ◌≡◌, refl, ◌∙◌, ◌≢◌, Bool, true, false, some, List, [], ◌∷◌,
  arith, ◌==◌, if◌then◌else◌, ==_refl, ne→==, length,
}

pub load_slab_lem :
    (p : Ptr) (s : Slabs) (b : Slab) → 0 < p → s.slabs p ≡ some b → load_slab p s ≡ done b s
unfolding load_slab
load_slab_lem p s b positive at = rw (ne→== p 0 (λ e. absurd (omega arith)), at) refl

pub load_cache_lem :
    (p : Ptr) (s : Slabs) (c : SlabCache) → 0 < p → s.caches p ≡ some c → load_cache p s ≡ done c s
unfolding load_cache
load_cache_lem p s c positive at = rw (ne→== p 0 (λ e. absurd (omega arith)), at) refl

-- The slab is at the head of the partial list of its cache, and os are its free objects behind o.
pub record IsReady (s : Slabs) (cache : Ptr) (c : SlabCache) (slab : Ptr) (b : Slab) (o : Ptr)
    (os : List Ptr) : Type 0 where
  pub cache_positive : 0 < cache
  pub slab_positive : 0 < slab
  pub cache_at : s.caches cache ≡ some c
  pub slab_at : s.slabs slab ≡ some b
  pub head : c.partial ≡ slab
  pub frees : FreeList s.links b.free_list (o ∷ os)
  pub counted : b.free_count ≡ suc (length os)
  pub small : length os < 2 ^ 32 - 1

popped : Slabs → Ptr → Slab → Ptr → List Ptr → Slabs
popped s slab b o os = record s {
  slabs = update s.slabs slab (some (record b { free_list = s.links o; free_count = length os }));
}

pop_lem :
    (s : Slabs) (cache : Ptr) (c : SlabCache) (slab : Ptr) (b : Slab) (o : Ptr) (os : List Ptr)
    → IsReady s cache c slab b o os
    → slab_pop_object slab s ≡ done o (popped s slab b o os)
unfolding slab_pop_object store_slab popped
pop_lem s cache c slab b o os r =
    let (at, positive, rest) = r.frees in
    let sp = r.slab_positive in
    let count : (b.free_count + 2 ^ 32 - 1) % 2 ^ 32 ≡ length os =
      let n = r.counted in let k = r.small in omega arith in
    rw
      (
        ne→== slab 0 (λ e. absurd (omega arith)),
        load_slab_lem slab s b sp r.slab_at,
        count,
        at,
        ne→== o 0 (λ e. absurd (omega arith)),
      )
      refl

pub construct_lem :
    (ctor : Bool) (o : Ptr) (s : Slabs)
    → construct ctor o s
      ≡ done tt (record s { constructed = if ctor then o ∷ s.constructed else s.constructed })
unfolding construct
construct_lem true o s = refl
construct_lem false o s = refl

-- a slab at the head of the partial list is unlinked at once
pub unlink_head :
    (fuel : ℕ) (cache : Ptr) (c : SlabCache) (slab : Ptr) (b : Slab) (s : Slabs)
    → 0 < cache
    → 0 < slab
    → s.caches cache ≡ some c
    → s.slabs slab ≡ some b
    → c.partial ≡ slab
    → unlink_slab (suc fuel) (partial_of cache) slab s
      ≡ done true
          (record s { caches = update s.caches cache (some (record c { partial = b.next })) })
unfolding unlink_slab find_place read_place write_place store_cache
unlink_head fuel cache c slab b s cp sp ca sa head =
    rw
      (
        load_cache_lem cache s c cp ca,
        head,
        ne→== slab 0 (λ e. absurd (omega arith)),
        ==_refl slab,
        load_slab_lem slab s b sp sa,
        load_cache_lem cache s c cp ca,
      )
      refl

put_full_lem :
    (cache : Ptr) (c : SlabCache) (slab : Ptr) (b : Slab) (s : Slabs)
    → 0 < cache
    → 0 < slab
    → s.caches cache ≡ some c
    → s.slabs slab ≡ some b
    → put_full cache slab s
      ≡ done tt (record s {
        slabs = update s.slabs slab (some (record b { next = c.full }));
        caches = update s.caches cache (some (record c { full = slab }));
      })
unfolding put_full store_slab store_cache
put_full_lem cache c slab b s cp sp ca sa =
    rw (load_cache_lem cache s c cp ca, load_slab_lem slab s b sp sa) refl

-- the header of the slab, and its cache, without the first object
abbrev pub header_without : SlabCache → Slab → Ptr → List Ptr → Slab
header_without c b next [] = record b { free_list = next; free_count = 0; next = c.full }
header_without c b next (o ∷ os) = record b { free_list = next; free_count = suc (length os) }

abbrev pub cache_without : SlabCache → Ptr → Slab → List Ptr → SlabCache
cache_without c slab b [] = record c { partial = b.next; full = slab }
cache_without c slab b (o ∷ os) = c

-- The state after o was taken: it is off the free list, and a slab without free objects is in the list
-- of full ones. Nothing else changed but what the constructor got.
pub record Taken (s : Slabs) (cache : Ptr) (c : SlabCache) (slab : Ptr) (b : Slab) (o : Ptr)
    (os : List Ptr) (s' : Slabs) : Type 0 where
  pub header : s'.slabs slab ≡ some (header_without c b (s.links o) os)
  pub frees : FreeList s'.links (s.links o) os
  pub cache_after : s'.caches cache ≡ some (cache_without c slab b os)
  pub others : (p : Ptr) → slab ≢ p → s'.slabs p ≡ s.slabs p
  pub other_caches : (p : Ptr) → cache ≢ p → s'.caches p ≡ s.caches p
  pub same_links : s'.links ≡ s.links
  pub same_vmm : s'.vmm ≡ s.vmm
  pub constructed : s'.constructed ≡ (if c.ctor then o ∷ s.constructed else s.constructed)

take_more :
    (fuel : ℕ) (s : Slabs) (cache : Ptr) (c : SlabCache) (slab : Ptr) (b : Slab) (o o' : Ptr)
    (os : List Ptr)
    → IsReady s cache c slab b o (o' ∷ os)
    → (s' : Slabs) × (alloc_from_slab fuel cache slab s ≡ done o s')
      × Taken s cache c slab b o (o' ∷ os) s'
unfolding alloc_from_slab popped
take_more fuel s cache c slab b o o' os r =
    let (at, positive, rest) = r.frees in
    let s1 = popped s slab b o (o' ∷ os) in
    let b1 : Slab = record b { free_list = s.links o; free_count = suc (length os) } in
    let sa : s1.slabs slab ≡ some b1 = update_same s.slabs slab (some b1) in
    (
      record s1 { constructed = if c.ctor then o ∷ s.constructed else s.constructed },
      rw
          (
            pop_lem s cache c slab b o (o' ∷ os) r,
            ne→== o 0 (λ e. absurd (omega arith)),
            load_slab_lem slab s1 b1 r.slab_positive sa,
            ne→== (suc (length os)) 0 (λ e. absurd (omega arith)),
            load_cache_lem cache s1 c r.cache_positive r.cache_at,
            construct_lem c.ctor o s1,
          )
          refl,
      record {
        header = sa;
        frees = rest;
        cache_after = r.cache_at;
        others = λ p ne. update_other s.slabs slab (some b1) p ne;
        other_caches = λ p ne. refl;
        same_links = refl;
        same_vmm = refl;
        constructed = refl;
      },
    )

take_last :
    (fuel : ℕ) (s : Slabs) (cache : Ptr) (c : SlabCache) (slab : Ptr) (b : Slab) (o : Ptr)
    → IsReady s cache c slab b o []
    → (s' : Slabs) × (alloc_from_slab (suc fuel) cache slab s ≡ done o s')
      × Taken s cache c slab b o [] s'
unfolding alloc_from_slab popped
take_last fuel s cache c slab b o r =
    let (at, positive, rest) = r.frees in
    let s1 = popped s slab b o [] in
    let b1 : Slab = record b { free_list = s.links o; free_count = 0 } in
    let sa : s1.slabs slab ≡ some b1 = update_same s.slabs slab (some b1) in
    let c2 : SlabCache = record c { partial = b.next } in
    let s2 : Slabs = record s1 { caches = update s.caches cache (some c2) } in
    let ca2 : s2.caches cache ≡ some c2 = update_same s.caches cache (some c2) in
    let c3 : SlabCache = record c2 { full = slab } in
    let b3 : Slab = record b1 { next = c.full } in
    let s3 : Slabs = record s2 {
      slabs = update s2.slabs slab (some b3);
      caches = update s2.caches cache (some c3);
    } in
    (
      record s3 { constructed = if c.ctor then o ∷ s.constructed else s.constructed },
      rw
          (
            pop_lem s cache c slab b o [] r,
            ne→== o 0 (λ e. absurd (omega arith)),
            load_slab_lem slab s1 b1 r.slab_positive sa,
            unlink_head fuel cache c slab b1 s1 r.cache_positive r.slab_positive r.cache_at sa
                r.head,
            put_full_lem cache c2 slab b1 s2 r.cache_positive r.slab_positive ca2 sa,
            load_cache_lem cache s3 c3 r.cache_positive (update_same s2.caches cache (some c3)),
            construct_lem c.ctor o s3,
          )
          refl,
      record {
        header = update_same s2.slabs slab (some b3);
        frees = rest;
        cache_after = update_same s2.caches cache (some c3);
        others = λ p ne.
            update_other s2.slabs slab (some b3) p ne ∙ update_other s.slabs slab (some b1) p ne;
        other_caches = λ p ne.
            update_other s2.caches cache (some c3) p ne
            ∙ update_other s.caches cache (some c2) p ne;
        same_links = refl;
        same_vmm = refl;
        constructed = refl;
      },
    )

pub alloc_from_slab_lem :
    (fuel : ℕ) (s : Slabs) (cache : Ptr) (c : SlabCache) (slab : Ptr) (b : Slab) (o : Ptr)
    (os : List Ptr)
    → IsReady s cache c slab b o os
    → (s' : Slabs) × (alloc_from_slab (suc fuel) cache slab s ≡ done o s')
      × Taken s cache c slab b o os s'
alloc_from_slab_lem fuel s cache c slab b o [] r = take_last fuel s cache c slab b o r
alloc_from_slab_lem fuel s cache c slab b o (o' ∷ os) r =
    take_more (suc fuel) s cache c slab b o o' os r

has_slab :
    (fuel : ℕ) (s : Slabs) (cache : Ptr) (c : SlabCache) (slab : Ptr)
    → 0 < cache
    → 0 < slab
    → s.caches cache ≡ some c
    → c.partial ≡ slab
    → slab_alloc fuel cache s ≡ alloc_from_slab fuel cache slab s
unfolding slab_alloc
has_slab fuel s cache c slab cp sp ca head =
    let no_null : (slab == 0) ≡ false = ne→== slab 0 (λ e. absurd (omega arith)) in
    rw
      (
        ne→== cache 0 (λ e. absurd (omega arith)),
        load_cache_lem cache s c cp ca,
        head,
        no_null,
        no_null,
      )
      refl

-- If the first slab of the partial list has the free objects o and then os, slab_alloc returns o, and the
-- slab has the free objects os. Without any left, the slab goes from the partial list to the full one.
-- The links of the objects, the page tables, and all other slabs and caches are as before.
pub slab_alloc_lem :
    (fuel : ℕ) (s : Slabs) (cache : Ptr) (c : SlabCache) (slab : Ptr) (b : Slab) (o : Ptr)
    (os : List Ptr)
    → IsReady s cache c slab b o os
    → (s' : Slabs) × (slab_alloc (suc fuel) cache s ≡ done o s') × Taken s cache c slab b o os s'
slab_alloc_lem fuel s cache c slab b o os r =
    let (s', run, taken) = alloc_from_slab_lem fuel s cache c slab b o os r in
    (
      s',
      has_slab (suc fuel) s cache c slab r.cache_positive r.slab_positive r.cache_at r.head ∙ run,
      taken,
    )
