-- ===== src/Arch/Pmm/Laws.antt =====
-- What the allocator of pmm.c does to the set of pages in use.
use goshkik_os.Arch.Mmu.{MemmapEntry}
use goshkik_os.Arch.Pmm.Bitmap.{
  bit_test, AllBytes, bit_set-AllBytes, bit_clear-AllBytes, bit_test-bit_set, bit_test-bit_clear,
  length-bit_set, length-bit_clear,
}
use goshkik_os.Arch.Pmm.{
  page_size, Pmm, clear_bits, used_pages, alloc_from, pmm_alloc_page, pmm_free_page,
}
use goshkik_os.Prelude.{
  ℕ, zero, suc, ◌+◌, ◌-◌, ◌*◌, ◌/◌, ◌≤◌, ◌<◌, ◌≡◌, refl, ap, ◌∙◌, ◌≢◌, ◌⊎◌, inl, inr, Bool, true,
  false, ◌&&◌, List, arith, ltb, leb, ◌==◌, if◌then◌else◌, lt→ltb, le→ltb, ==_iff, ==_false,
  Bool-cases, length,
}

-- the bitmap is made of bytes and has a bit for every page
pub record IsPmm (s : Pmm) : Type 0 where
  pub bytes : AllBytes s.bitmap
  pub covers : length s.bitmap ≡ (s.total_pages + 7) / 8

-- page i is in use
unfoldable pub in_use : Pmm → ℕ → Bool
in_use s i = bit_test s.bitmap i

-- the address of page i
abbrev pub page_at : Pmm → ℕ → ℕ
page_at s i = s.managed_base + i * page_size

-- Allocation took page i: the first free one, and no other page changed.
pub record Takes (s : Pmm) (i : ℕ) (out : ℕ × Pmm) : Type 0 where
  pub inside : i < s.total_pages
  pub free : in_use s i ≡ false
  pub first : (j : ℕ) → j < i → in_use s j ≡ true
  pub address : out.0 ≡ page_at s i
  pub base : out.1.managed_base ≡ s.managed_base
  pub total : out.1.total_pages ≡ s.total_pages
  pub valid : IsPmm out.1
  pub marks : (j : ℕ) → in_use out.1 j ≡ (if i == j then true else in_use s j)

-- Allocation found no page: every one is in use, the result is 0 and the state is the old one.
pub record Exhausted (s : Pmm) (out : ℕ × Pmm) : Type 0 where
  pub full : (j : ℕ) → j < s.total_pages → in_use s j ≡ true
  pub result : out ≡ (0, s)

alloc_from_lem :
    (n i : ℕ) (s : Pmm)
    → IsPmm s
    → i + n ≡ s.total_pages
    → ((j : ℕ) → j < i → in_use s j ≡ true)
    → Exhausted s (alloc_from n i s) ⊎ ((k : ℕ) × Takes s k (alloc_from n i s))
unfolding alloc_from in_use
alloc_from_lem zero i s v e before =
    inl (record { full = λ j h. before j (omega arith); result = refl })
alloc_from_lem (suc n) i s v e before = elim (Bool-cases (bit_test s.bitmap i)) [
  | inl used ↦ rw used (
      alloc_from_lem n (i + 1) s v (omega arith) (λ j h. elim (Bool-cases (j == i)) [
        | inl same ↦ rw ((==_iff j i).0 same) used
        | inr other ↦ before j (let ne = ==_false j i other in omega arith)
      ]))
  | inr free ↦ rw free (
      inr (
        i,
        record {
          inside = omega arith;
          free = free;
          first = before;
          address = refl;
          base = refl;
          total = refl;
          valid = record {
            bytes = bit_set-AllBytes s.bitmap v.bytes i;
            covers = length-bit_set s.bitmap i ∙ v.covers;
          };
          marks = λ j. bit_test-bit_set s.bitmap v.bytes i (let c = v.covers in omega arith) j;
        },
      ))
]

-- On a well-formed state pmm_alloc_page either takes the free page of the lowest number, returns
-- its address, marks that page and no other, and leaves the state well-formed; or every page is in
-- use, and it returns 0 and changes nothing.
pub pmm_alloc_page_lem :
    (s : Pmm) → IsPmm s → Exhausted s (pmm_alloc_page s) ⊎ ((i : ℕ) × Takes s i (pmm_alloc_page s))
unfolding pmm_alloc_page
pmm_alloc_page_lem s v = alloc_from_lem s.total_pages 0 s v (omega arith) (λ j h. elim h [ ])

-- pmm_free_page on any address inside a managed page i frees page i and no other, and keeps the
-- state well-formed.
pub pmm_free_page_lem :
    (s : Pmm) (i offset : ℕ)
    → IsPmm s
    → i < s.total_pages
    → offset < page_size
    → IsPmm (pmm_free_page (page_at s i + offset) s)
      × ((j : ℕ)
          → in_use (pmm_free_page (page_at s i + offset) s) j
            ≡ (if i == j then false else in_use s j))
unfolding pmm_free_page in_use
pmm_free_page_lem s i offset v h o =
    let above : ltb (page_at s i + offset) s.managed_base ≡ false = le→ltb _ _ (omega arith) in
    let page : (page_at s i + offset - s.managed_base) / page_size ≡ i = omega arith in
    rw (above, page, lt→ltb i s.total_pages h)
      (
        record {
          bytes = bit_clear-AllBytes s.bitmap v.bytes i;
          covers = length-bit_clear s.bitmap i ∙ v.covers;
        },
        λ j. bit_test-bit_clear s.bitmap v.bytes i (let c = v.covers in omega arith) j,
      )

-- An address below the managed base, or past the last page, is ignored by pmm_free_page.
pub pmm_free_page_outside :
    (s : Pmm) (a : ℕ) → (a < s.managed_base) ⊎ (page_at s s.total_pages ≤ a) → pmm_free_page a s ≡ s
unfolding pmm_free_page
pmm_free_page_outside s a (inl below) = rw (lt→ltb a s.managed_base below)
pmm_free_page_outside s a (inr above) = rw (
  le→ltb a s.managed_base (omega arith),
  le→ltb ((a - s.managed_base) / page_size) s.total_pages (omega arith),
)

-- the bitmap after clearing n bits from `first` on
record Cleared (n first : ℕ) (b : List ℕ) : Type 0 where
  bytes : AllBytes (clear_bits n first b)
  size : length (clear_bits n first b) ≡ length b
  bits :
      (j : ℕ)
      → bit_test (clear_bits n first b) j
        ≡ (if leb first j && ltb j (first + n) then false else bit_test b j)

-- The state that init_pmm builds for the region r.
pub record Manages (r : MemmapEntry) (s : Pmm) : Type 0 where
  pub base : s.managed_base ≡ r.base
  pub total : s.total_pages ≡ r.length / page_size
  pub valid : IsPmm s
  pub reserved : (j : ℕ) → j < s.total_pages → in_use s j ≡ ltb j (used_pages (length s.bitmap))

-- a result other than 0 is a page that was taken
taken : (s : Pmm) → IsPmm s → 0 < (pmm_alloc_page s).0 → (i : ℕ) × Takes s i (pmm_alloc_page s)
taken s v h = elim (pmm_alloc_page_lem s v) [
  | inl none_left ↦ absurd (let r = ap (λ p. p.0) none_left.result in omega arith)
  | inr t ↦ t
]

-- On a well-formed state, freeing the address that a successful pmm_alloc_page returned leaves the
-- same pages in use as before the allocation.
pub pmm_free_page-pmm_alloc_page :
    (s : Pmm) (j : ℕ)
    → IsPmm s
    → 0 < (pmm_alloc_page s).0
    → in_use (pmm_free_page (pmm_alloc_page s).0 (pmm_alloc_page s).1) j ≡ in_use s j
pmm_free_page-pmm_alloc_page s j v h =
    let (i, t) = taken s v h in
    let s' = (pmm_alloc_page s).1 in
    let freed = (pmm_free_page_lem s' i 0 t.valid (rw t.total t.inside) (omega arith)).1 j in
    let a : page_at s' i + 0 ≡ (pmm_alloc_page s).0 = omega (arith, t.address, t.base) in
    (rw a at freed) ∙ ground (arith, t.marks j, t.free)

-- On a well-formed state, two successful allocations in a row return different addresses.
pub pmm_alloc_page_distinct :
    (s : Pmm)
    → IsPmm s
    → 0 < (pmm_alloc_page s).0
    → 0 < (pmm_alloc_page (pmm_alloc_page s).1).0
    → (pmm_alloc_page s).0 ≢ (pmm_alloc_page (pmm_alloc_page s).1).0
pmm_alloc_page_distinct s v h h' e =
    let (i, t) = taken s v h in
    let (k, u) = taken (pmm_alloc_page s).1 t.valid h' in
    let same : i ≡ k = omega (arith, t.address, u.address, u.base, t.base) in
    ground (arith, t.marks k, u.free)
