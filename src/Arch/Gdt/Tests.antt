-- ===== src/Arch/Gdt/Tests.antt =====
-- The theorems about gdt.c at a concrete address.
use goshkik_os.Prelude.{ℕ}

abbrev tss_address : ℕ
tss_address = 0xFFFF_8000_0123_4567
