-- ===== src/Arch/Gdt/Laws.antt =====
-- How the processor reads the table of gdt.c: the base of the task state segment, and the privilege
-- and kind of the segment behind each selector.
use goshkik_os.Prelude.{
  ℕ, ◌+◌, ◌*◌, ◌/◌, ◌%◌, ◌^◌, ◌<◌, ◌≡◌, refl, Bool, true, false, arith, ◌==◌, get_or,
}
use goshkik_os.Arch.Gdt.{
  GdtDesc, TssDesc, Gdtr, kernel_code64, kernel_data64, user_code64, user_data64, blank_desc,
  gdt_setup,
}

-- the base address that the processor assembles
pub base_of : TssDesc → ℕ
base_of d = d.base_low + 2 ^ 16 * d.base_mid + 2 ^ 24 * d.base_high + 2 ^ 32 * d.base_upper32

-- a selector's index is above its three low bits, and its privilege in the lowest two
pub desc_at : Gdtr → ℕ → GdtDesc
desc_at g selector = get_or g.entries (selector / 8) blank_desc

-- bits 5 and 6 of the access byte, the descriptor's privilege level
pub dpl : GdtDesc → ℕ
dpl d = (d.access / 2 ^ 5) % 4

-- bit 3 of the access byte: a code segment
pub is_code : GdtDesc → Bool
is_code d = (d.access / 2 ^ 3) % 2 == 1

abbrev pub rpl : ℕ → ℕ
rpl selector = selector % 4

-- For every 64-bit address of the task state segment, the descriptor that gdt_setup writes has that
-- base; each of the four selectors of arch.h names a descriptor of the selector's own privilege;
-- the kernel code selector names a code segment and the kernel data selector does not, while
-- user_code64 names a data segment and user_data64 a code segment.
pub gdt_setup_lem :
    (tss_base : ℕ)
    → tss_base < 2 ^ 64
    → (base_of (gdt_setup tss_base).tss ≡ tss_base)
      × (dpl (desc_at (gdt_setup tss_base) kernel_code64) ≡ rpl kernel_code64)
      × (dpl (desc_at (gdt_setup tss_base) kernel_data64) ≡ rpl kernel_data64)
      × (dpl (desc_at (gdt_setup tss_base) user_code64) ≡ rpl user_code64)
      × (dpl (desc_at (gdt_setup tss_base) user_data64) ≡ rpl user_data64)
      × (is_code (desc_at (gdt_setup tss_base) kernel_code64) ≡ true)
      × (is_code (desc_at (gdt_setup tss_base) kernel_data64) ≡ false)
      × (is_code (desc_at (gdt_setup tss_base) user_code64) ≡ false)
      × (is_code (desc_at (gdt_setup tss_base) user_data64) ≡ true)
unfolding base_of gdt_setup desc_at dpl is_code
gdt_setup_lem b h = (omega arith, refl, refl, refl, refl, refl, refl, refl, refl)
