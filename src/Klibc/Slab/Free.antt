-- ===== src/Klibc/Slab/Free.antt =====
-- slab_free of slab.c, behind slab_alloc and on the last object of a slab.
use goshkik_os.Prelude.Memory.{Ptr, update, update_same, update_other}
use goshkik_os.Prelude.Run.{done, ◌>>=◌}
use goshkik_os.Klibc.Slab.{
  Slab, SlabCache, Slabs, store_slab, store_cache, slab_push_object, slab_from_object, slab_alloc,
  slab_free, free_object, refile_slab, unlink_slab, find_place, read_place, write_place,
  put_partial, destruct, full_of,
}
use goshkik_os.Klibc.Slab.Alloc.{
  load_slab_lem, load_cache_lem, IsReady, Taken, header_without, cache_without, slab_alloc_lem,
}
use goshkik_os.Prelude.{
  ℕ, suc, ◌+◌, ◌%◌, ◌^◌, ◌<◌, ◌≡◌, refl, sym, ap, ap₂, ◌∙◌, subst, ◌≢◌, inl, inr, Bool, true, false,
  some, List, [], ◌∷◌, arith, ◌==◌, if◌then◌else◌, ==_iff, ==_refl, ne→==, ==_false, Bool-cases,
  length,
}

destruct_lem :
    (dtor : Bool) (o : Ptr) (s : Slabs)
    → destruct dtor o s
      ≡ done tt (record s { destroyed = if dtor then o ∷ s.destroyed else s.destroyed })
unfolding destruct
destruct_lem true o s = refl
destruct_lem false o s = refl

-- the state after an object was pushed on the free list of a slab
abbrev pub pushed : Slabs → SlabCache → Ptr → Slab → Ptr → Slabs
pushed s c slab b o = record s {
  destroyed = if c.dtor then o ∷ s.destroyed else s.destroyed;
  links = update s.links o b.free_list;
  slabs =
      update s.slabs slab
        (some (record b { free_list = o; free_count = (b.free_count + 1) % 2 ^ 32 }));
}

pub push_lem :
    (g fuel : ℕ) (s : Slabs) (cache : Ptr) (c : SlabCache) (b : Slab) (o : Ptr)
    → 0 < cache
    → 0 < o
    → 0 < slab_from_object o
    → s.caches cache ≡ some c
    → s.slabs (slab_from_object o) ≡ some b
    → slab_free g fuel cache o s
      ≡ refile_slab g fuel cache
          (slab_from_object o)
          (b.free_count == 0)
          (pushed s c (slab_from_object o) b o)
unfolding slab_free free_object slab_push_object store_slab
push_lem g fuel s cache c b o cp op sp ca sa =
    let s1 : Slabs = record s { destroyed = if c.dtor then o ∷ s.destroyed else s.destroyed } in
    rw
      (
        ne→== cache 0 (λ e. absurd (omega arith)),
        ne→== o 0 (λ e. absurd (omega arith)),
        sa,
        load_cache_lem cache s c cp ca,
        destruct_lem c.dtor o s,
        load_slab_lem (slab_from_object o) s1 b sp sa,
      )
      refl

-- a slab at the head of the full list is unlinked at once
unlink_full :
    (fuel : ℕ) (cache : Ptr) (c : SlabCache) (slab : Ptr) (b : Slab) (s : Slabs)
    → 0 < cache
    → 0 < slab
    → s.caches cache ≡ some c
    → s.slabs slab ≡ some b
    → c.full ≡ slab
    → unlink_slab (suc fuel) (full_of cache) slab s
      ≡ done true (record s { caches = update s.caches cache (some (record c { full = b.next })) })
unfolding unlink_slab find_place read_place write_place store_cache
unlink_full fuel cache c slab b s cp sp ca sa head =
    rw
      (
        load_cache_lem cache s c cp ca,
        head,
        ne→== slab 0 (λ e. absurd (omega arith)),
        ==_refl slab,
        load_slab_lem slab s b sp sa,
        load_cache_lem cache s c cp ca,
      )
      refl

pub put_partial_lem :
    (cache : Ptr) (c : SlabCache) (slab : Ptr) (b : Slab) (s : Slabs)
    → 0 < cache
    → 0 < slab
    → s.caches cache ≡ some c
    → s.slabs slab ≡ some b
    → put_partial cache slab s
      ≡ done tt (record s {
        slabs = update s.slabs slab (some (record b { next = c.partial }));
        caches = update s.caches cache (some (record c { partial = slab }));
      })
unfolding put_partial store_slab store_cache
put_partial_lem cache c slab b s cp sp ca sa =
    rw (load_cache_lem cache s c cp ca, load_slab_lem slab s b sp sa) refl

-- The slabs, the links, the caches and the page tables are the old ones.
pub record Restored (s s' : Slabs) : Type 0 where
  pub slabs_restored : (p : Ptr) → s'.slabs p ≡ s.slabs p
  pub links_restored : (p : Ptr) → s'.links p ≡ s.links p
  pub caches_restored : (p : Ptr) → s'.caches p ≡ s.caches p
  pub same_vmm : s'.vmm ≡ s.vmm

-- a store that differs from another at one cell, with the old value put back
restored_at :
    {V : Type 0} (f g : Ptr → V) (p : Ptr) (v : V)
    → ((q : Ptr) → p ≢ q → g q ≡ f q)
    → f p ≡ v
    → (q : Ptr) → update g p v q ≡ f q
restored_at f g p v others at q = elim (Bool-cases (p == q)) [
  | inl same ↦
      let e = (==_iff p q).0 same in
      subst (λ x. update g p v x ≡ f x) e (update_same g p v ∙ sym at)
  | inr ne ↦ let ne' = ==_false p q ne in update_other g p v q ne' ∙ others q ne'
]

-- stores that agree at one cell and at all others
same_store :
    {V : Type 0} (f g : Ptr → V) (p : Ptr) (v : V)
    → ((q : Ptr) → p ≢ q → g q ≡ f q)
    → f p ≡ v
    → g p ≡ v
    → (q : Ptr) → g q ≡ f q
same_store f g p v others at at' q = elim (Bool-cases (p == q)) [
  | inl same ↦ subst (λ x. g x ≡ f x) ((==_iff p q).0 same) (at' ∙ sym at)
  | inr ne ↦ others q (==_false p q ne)
]

free_more :
    (g fuel : ℕ) (s : Slabs) (cache : Ptr) (c : SlabCache) (b : Slab) (o o' : Ptr) (os : List Ptr)
    (s' : Slabs)
    → IsReady s cache c (slab_from_object o) b o (o' ∷ os)
    → suc (length (o' ∷ os)) ≢ b.total_objects
    → Taken s cache c (slab_from_object o) b o (o' ∷ os) s'
    → (s'' : Slabs) × (slab_free g (suc fuel) cache o s' ≡ done tt s'') × Restored s s''
unfolding refile_slab
free_more g fuel s cache c b o o' os s' r some_used t =
    let slab = slab_from_object o in
    let (at, op, rest) = r.frees in
    let n = r.counted in
    let small = r.small in
    let b1 = header_without c b (s.links o) (o' ∷ os) in
    let s2 = pushed s' c slab b1 o in
    let b2 : Slab = record b1 { free_list = o; free_count = (suc (length os) + 1) % 2 ^ 32 } in
    let sa : s2.slabs slab ≡ some b2 = update_same s'.slabs slab (some b2) in
    let one_more : (suc (length os) + 1) % 2 ^ 32 ≡ suc (suc (length os)) = omega arith in
    let used : (suc (length os) + 1) % 2 ^ 32 ≢ b.total_objects =
      λ e. some_used (sym one_more ∙ e) in
    let same : b2 ≡ b =
      ap₂ (λ l k. record b { free_list = l; free_count = k }) (sym at) (one_more ∙ sym n) in
    (
      s2,
      push_lem g (suc fuel) s' cache c b1 o r.cache_positive op r.slab_positive t.cache_after
            t.header
          ∙ rw
              (
                ne→== (suc (length os)) 0 (λ e. absurd (omega arith)),
                load_slab_lem slab s2 b2 r.slab_positive sa,
                ne→== _ _ used,
              )
              refl,
      record {
        slabs_restored =
            restored_at s.slabs s'.slabs slab (some b2) t.others (r.slab_at ∙ ap some (sym same));
        links_restored =
            restored_at s.links s'.links o (s.links o) (λ q ne. ap (λ f. f q) t.same_links) refl;
        caches_restored =
            same_store s.caches s'.caches cache (some c) t.other_caches r.cache_at t.cache_after;
        same_vmm = t.same_vmm;
      },
    )

free_last :
    (g fuel : ℕ) (s : Slabs) (cache : Ptr) (c : SlabCache) (b : Slab) (o : Ptr) (s' : Slabs)
    → IsReady s cache c (slab_from_object o) b o []
    → Taken s cache c (slab_from_object o) b o [] s'
    → (s'' : Slabs) × (slab_free g (suc fuel) cache o s' ≡ done tt s'') × Restored s s''
unfolding refile_slab
free_last g fuel s cache c b o s' r t =
    let slab = slab_from_object o in
    let (at, op, rest) = r.frees in
    let b1 = header_without c b (s.links o) [] in
    let c1 = cache_without c slab b [] in
    let s2 = pushed s' c1 slab b1 o in
    let b2 : Slab = record b1 { free_list = o; free_count = 1 } in
    let sa : s2.slabs slab ≡ some b2 = update_same s'.slabs slab (some b2) in
    let c3 : SlabCache = record c1 { full = c.full } in
    let s3 : Slabs = record s2 { caches = update s'.caches cache (some c3) } in
    let b4 : Slab = record b2 { next = b.next } in
    let c4 : SlabCache = record c3 { partial = slab } in
    let same : b4 ≡ b =
      ap₂ (λ l k. record b { free_list = l; free_count = k }) (sym at) (sym r.counted) in
    let same' : c4 ≡ c = ap (λ p. record c { partial = p }) (sym r.head) in
    (
      record s3 {
        slabs = update s2.slabs slab (some b4);
        caches = update s3.caches cache (some c4);
      },
      push_lem g (suc fuel) s' cache c1 b1 o r.cache_positive op r.slab_positive t.cache_after
            t.header
          ∙ rw
              (
                unlink_full fuel cache c1 slab b2 s2 r.cache_positive r.slab_positive t.cache_after
                    sa refl,
                put_partial_lem cache c3 slab b2 s3 r.cache_positive r.slab_positive
                    (update_same s'.caches cache (some c3)) sa,
              )
              refl,
      record {
        slabs_restored =
            restored_at s.slabs s2.slabs slab (some b4)
              (λ q ne. update_other s'.slabs slab (some b2) q ne ∙ t.others q ne)
              (r.slab_at ∙ ap some (sym same));
        links_restored =
            restored_at s.links s'.links o (s.links o) (λ q ne. ap (λ f. f q) t.same_links) refl;
        caches_restored =
            restored_at s.caches s3.caches cache (some c4)
              (λ q ne. update_other s'.caches cache (some c3) q ne ∙ t.other_caches q ne)
              (r.cache_at ∙ ap some (sym same'));
        same_vmm = t.same_vmm;
      },
    )

free-Taken :
    (g fuel : ℕ) (s : Slabs) (cache : Ptr) (c : SlabCache) (b : Slab) (o : Ptr) (os : List Ptr)
    (s' : Slabs)
    → IsReady s cache c (slab_from_object o) b o os
    → (0 < length os → suc (length os) ≢ b.total_objects)
    → Taken s cache c (slab_from_object o) b o os s'
    → (s'' : Slabs) × (slab_free g (suc fuel) cache o s' ≡ done tt s'') × Restored s s''
free-Taken g fuel s cache c b o (o' ∷ os) s' r used t =
    free_more g fuel s cache c b o o' os s' r (used (omega arith)) t
free-Taken g fuel s cache c b o [] s' r used t = free_last g fuel s cache c b o s' r t

-- If the first slab of the partial list has a free object, and either no other or one object in use,
-- slab_alloc and then slab_free of what it returned bring every header, link and cache, and the page
-- tables, back to what they were.
pub slab_free-slab_alloc :
    (g fuel : ℕ) (s : Slabs) (cache : Ptr) (c : SlabCache) (b : Slab) (o : Ptr) (os : List Ptr)
    → IsReady s cache c (slab_from_object o) b o os
    → (0 < length os → suc (length os) ≢ b.total_objects)
    → (s' : Slabs) × ((do object ← slab_alloc (suc fuel) cache; slab_free g (suc fuel) cache object)
          s
        ≡ done tt s')
      × Restored s s'
slab_free-slab_alloc g fuel s cache c b o os r used =
    let (s1, run, t) = slab_alloc_lem fuel s cache c (slab_from_object o) b o os r in
    let (s2, run', back) = free-Taken g fuel s cache c b o os s1 r used t in (s2, rw run run', back)
