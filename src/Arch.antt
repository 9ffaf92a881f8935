-- ===== src/Arch.antt =====
-- src/arch/x86_64: the clock, the interrupt hardware and the memory managers.
pub mod Timer
pub mod Pit
pub mod Pic
pub mod Idt
pub mod Gdt
pub mod Mmu
pub mod Pmm
pub mod Vmm
pub mod Serial
