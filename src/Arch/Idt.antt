-- ===== src/Arch/Idt.antt =====
-- src/arch/x86_64/cpu/idt/idt.c and src/scheduling/syscall.c: the interrupt descriptor table and
-- the system call table. The addresses of the assembly stubs are parameters.
mod Laws
mod Tests
use goshkik_os.Arch.Gdt.{kernel_code64}
use goshkik_os.Prelude.{
  ℕ, zero, suc, ◌+◌, ◌-◌, ◌*◌, ◌/◌, ◌%◌, ◌^◌, ◌≤◌, ◌<◌, bit_and, bit_or, ◌≡◌, refl, sym, ap, ◌∙◌,
  fun_ext, ◌≢◌, ◌↔◌, ◌⊎◌, inl, inr, Bool, true, false, not, ◌&&◌, ◌||◌, Option, none, some, List,
  [], ◌∷◌, ◌++◌, map, arith, ltb, leb, ◌==◌, if◌then◌else◌, ltb→lt, lt→ltb, le→ltb, ltb-false,
  leb→le, ==_iff, ==_refl, ne→==, ==_false, Bool-cases, Option-cases, length, get_elem?, get_or,
  set, replicate, length-append, length-set, length-replicate, get_or-replicate, get_or-set,
}

-- `idt_entry_t`
pub record IdtEntry : Type 0 where
  pub offset_low : ℕ
  pub selector : ℕ
  pub ist : ℕ
  pub type_attr : ℕ
  pub offset_mid : ℕ
  pub offset_high : ℕ
  pub reserved : ℕ

abbrev pub idt_type_interrupt_gate : ℕ
idt_type_interrupt_gate = 0x8E

abbrev pub empty_entry : IdtEntry
empty_entry = record {
  offset_low = 0;
  selector = 0;
  ist = 0;
  type_attr = 0;
  offset_mid = 0;
  offset_high = 0;
  reserved = 0;
}

-- what `idt_set_entry` stores, at the widths of the fields
pub entry_of : ℕ → ℕ → ℕ → IdtEntry
entry_of handler selector flags = record {
  offset_low = handler % 2 ^ 16;
  selector = selector;
  ist = 0;
  type_attr = flags;
  offset_mid = (handler / 2 ^ 16) % 2 ^ 16;
  offset_high = (handler / 2 ^ 32) % 2 ^ 32;
  reserved = 0;
}

pub idt_set_entry : ℕ → ℕ → ℕ → ℕ → List IdtEntry → List IdtEntry
idt_set_entry index handler selector flags table = set table index (entry_of handler selector flags)

-- `for (i = first; i < first + n; i++) idt_set_entry(base + i, handler(i), selector, flags)`
pub set_entries : ℕ → ℕ → ℕ → (ℕ → ℕ) → ℕ → ℕ → List IdtEntry → List IdtEntry
unfolding idt_set_entry
set_entries zero first base handler selector flags table = table
set_entries (suc n) first base handler selector flags table =
    set_entries n (first + 1) base handler selector flags
      (idt_set_entry (base + first) (handler first) selector flags table)

-- `idt_entries` is zeroed, then the twenty exceptions and the sixteen interrupts are entered.
pub init_idt : (ℕ → ℕ) → (ℕ → ℕ) → List IdtEntry → List IdtEntry
unfolding set_entries
init_idt isr irq table = set_entries 16 0 32 irq kernel_code64 idt_type_interrupt_gate (
    set_entries 20 0 0 isr kernel_code64 idt_type_interrupt_gate
      (set_entries 256 0 0 (λ _. 0) 0 0 table))

abbrev pub max_sys_calls : ℕ
max_sys_calls = 420

-- a handler takes six words and returns the bit pattern of an `int64_t`
abbrev pub SyscallHandler : Type 0
SyscallHandler = ℕ → ℕ → ℕ → ℕ → ℕ → ℕ → ℕ

-- -1 as a 64-bit pattern
abbrev pub minus_one : ℕ
minus_one = 2 ^ 64 - 1

-- the value left in rax; `none` in the table is a NULL handler
pub syscall_handler : List (Option SyscallHandler) → ℕ → ℕ → ℕ → ℕ → ℕ → ℕ → ℕ → ℕ
syscall_handler table num a b c d e f =
    if leb max_sys_calls num
    then minus_one
    else elim (get_or table num none) [ none ↦ minus_one | some h ↦ h a b c d e f ]

-- The table is emptied and gate 0x80, open to ring 3, leads to `syscall_entry`.
pub init_syscalls : ℕ → List IdtEntry → List (Option SyscallHandler) × List IdtEntry
unfolding idt_set_entry
init_syscalls syscall_entry table =
    (replicate max_sys_calls none, idt_set_entry 0x80 syscall_entry kernel_code64 0xEE table)
