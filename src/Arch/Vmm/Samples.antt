-- ===== src/Arch/Vmm/Samples.antt =====
-- An address space of empty tables with four free pages.
use goshkik_os.Prelude.Memory.{update, update_other}
use goshkik_os.Arch.Pmm.{Pmm}
use goshkik_os.Arch.Pmm.Bitmap.{bit_test}
use goshkik_os.Arch.Pmm.Laws.{in_use, page_at}
use goshkik_os.Arch.Vmm.{Vmm, frame}
use goshkik_os.Arch.Vmm.Tree.{Home, IsVmm, none≢some}
use goshkik_os.Arch.Vmm.Free.{free_count, free_below}
use goshkik_os.Prelude.{
  ℕ, zero, suc, ◌<◌, ◌≡◌, refl, sym, ap, Bool, true, false, Option, none, some, [], ◌∷◌, arith,
}

abbrev pub pages : Pmm
pages = record { bitmap = 0 ∷ []; managed_base = 0x100000; total_pages = 4 }

abbrev pub empty : Vmm
empty = record { tables = λ t i. 0; current_pml4 = 0x1000; cr3 = 0x1000; pmm = pages; flushed = [] }

abbrev pub only_root : Home
only_root = update (λ t. none) 0x1000 (some [])

aligned : (i : ℕ) → i < 4 → frame (page_at pages i) ≡ page_at pages i
aligned zero h = refl
aligned (suc zero) h = refl
aligned (suc (suc zero)) h = refl
aligned (suc (suc (suc zero))) h = refl
aligned (suc (suc (suc (suc i)))) h = absurd (omega arith)

pub empty-IsVmm : IsVmm empty only_root
empty-IsVmm = record {
  root = refl;
  links = λ t path h shallow i present. absurd (none≢some tt (ap some_if (sym present)));
  fresh = λ i inside free.
      update_other (λ t. none) 0x1000 (some []) (page_at pages i) (λ e. absurd (omega arith));
  valid = record { bytes = omega arith; covers = refl };
  aligned = aligned;
  not_null = λ i inside. omega arith;
}
  where
    some_if : Bool → Option (Unit {0})
    some_if true = none
    some_if false = some tt

pub four_free : free_count pages ≡ 4
unfolding free_count free_below in_use bit_test
four_free = refl
