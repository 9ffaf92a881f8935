-- ===== src/Arch/Idt/Laws.antt =====
-- The gates that idt.c and syscall.c install, read back as the processor reads them.
use goshkik_os.Prelude.{
  ℕ, zero, suc, ◌+◌, ◌-◌, ◌*◌, ◌^◌, ◌≤◌, ◌<◌, ◌≡◌, refl, ◌∙◌, ◌⊎◌, inr, ◌&&◌, Option, none, some,
  List, arith, ltb, leb, ◌==◌, if◌then◌else◌, length, get_or, set, replicate, length-set,
  get_or-set,
}
use goshkik_os.Arch.Gdt.{kernel_code64}
use goshkik_os.Arch.Idt.{
  IdtEntry, empty_entry, entry_of, set_entries, init_idt, idt_type_interrupt_gate, max_sys_calls,
  SyscallHandler, minus_one, syscall_handler, init_syscalls,
}

-- the handler address that the processor assembles from a gate
pub handler_of : IdtEntry → ℕ
handler_of e = e.offset_low + 2 ^ 16 * e.offset_mid + 2 ^ 32 * e.offset_high

pub handler_of-entry_of : (h s f : ℕ) → h < 2 ^ 64 → handler_of (entry_of h s f) ≡ h
unfolding handler_of entry_of
handler_of-entry_of h s f lt = omega arith

length-set_entries :
    (n first base : ℕ) (h : ℕ → ℕ) (s f : ℕ) (t : List IdtEntry)
    → length (set_entries n first base h s f t) ≡ length t
unfolding set_entries
length-set_entries zero first base h s f t = refl
length-set_entries (suc n) first base h s f t =
    length-set_entries n (first + 1) base h s f _ ∙ length-set t (base + first) _

-- An entry inside the range is the gate of its handler, and one outside is untouched.
get_or-set_entries :
    (n first base : ℕ) (h : ℕ → ℕ) (s f : ℕ) (t : List IdtEntry) (j : ℕ)
    → base + first + n ≤ length t
    → get_or (set_entries n first base h s f t) j empty_entry ≡ (
        if leb (base + first) j && ltb j (base + first + n)
        then entry_of (h (j - base)) s f
        else get_or t j empty_entry)
unfolding set_entries
get_or-set_entries zero first base h s f t j fits = ground arith
get_or-set_entries (suc n) first base h s f t j fits =
    let v = entry_of (h first) s f in
    ground (
      arith,
      get_or-set_entries n (first + 1) base h s f (set t (base + first) v) j,
      get_or-set t (base + first) j v empty_entry,
      length-set t (base + first) v,
    )

-- the handler that vector i is meant to have: the exceptions, the interrupts, and none elsewhere
abbrev pub vector : (ℕ → ℕ) → (ℕ → ℕ) → ℕ → ℕ
vector isr irq i = if ltb i 20 then isr i else (if leb 32 i && ltb i 48 then irq (i - 32) else 0)

abbrev pub vector_flags : ℕ → ℕ
vector_flags i =
    if ltb i 20
    then idt_type_interrupt_gate
    else (if leb 32 i && ltb i 48 then idt_type_interrupt_gate else 0)

module _ (isr irq : ℕ → ℕ) (t : List IdtEntry) (size : length t ≡ 256) (i : ℕ) (hi : i < 256) where
  entry-init_idt :
      get_or (init_idt isr irq t) i empty_entry
      ≡ entry_of
          (vector isr irq i)
          (if vector_flags i == 0 then 0 else kernel_code64)
          (vector_flags i)
  unfolding init_idt
  entry-init_idt =
      let t0 = set_entries 256 0 0 (λ _. 0) 0 0 t in
      let t1 = set_entries 20 0 0 isr kernel_code64 idt_type_interrupt_gate t0 in
      let l0 = length-set_entries 256 0 0 (λ _. 0) 0 0 t in
      let l1 = length-set_entries 20 0 0 isr kernel_code64 idt_type_interrupt_gate t0 in
      let g0 = get_or-set_entries 256 0 0 (λ _. 0) 0 0 t i (omega arith) in
      let g1 =
        get_or-set_entries 20 0 0 isr kernel_code64 idt_type_interrupt_gate t0 i (omega arith) in
      let g2 =
        get_or-set_entries 16 0 32 irq kernel_code64 idt_type_interrupt_gate t1 i (omega arith) in
      ground (arith, g0, g1, g2)

  -- init_idt on the 256-entry table: the gate of every vector i leads, as the processor assembles
  -- the address, to exception stub i below 20, to interrupt stub i - 32 from 32 to 47, and nowhere
  -- (address 0, attributes 0) elsewhere, if the stub addresses are 64-bit.
  pub handler_of-init_idt :
      ((k : ℕ) → isr k < 2 ^ 64)
      → ((k : ℕ) → irq k < 2 ^ 64)
      → (handler_of (get_or (init_idt isr irq t) i empty_entry) ≡ vector isr irq i)
        × ((get_or (init_idt isr irq t) i empty_entry).type_attr ≡ vector_flags i)
  unfolding entry_of
  handler_of-init_idt bi bq =
      rw entry-init_idt
        (handler_of-entry_of (vector isr irq i) _ _ (ground (arith, bi i, bq (i - 32))), refl)

-- A system call whose number is 420 or more, or whose slot is empty, returns -1; any other returns
-- what the handler in its slot returns on the same six arguments.
pub syscall_handler_lem :
    (table : List (Option SyscallHandler)) (num a b c d e f : ℕ)
    → ((max_sys_calls ≤ num) ⊎ (get_or table num none ≡ none)
        → syscall_handler table num a b c d e f ≡ minus_one)
      × ((h : SyscallHandler)
          → num < max_sys_calls
          → get_or table num none ≡ some h
          → syscall_handler table num a b c d e f ≡ h a b c d e f)
unfolding syscall_handler
syscall_handler_lem table num a b c d e f = ((λ bad. ground arith), (λ h lt slot. ground arith))

get_or-empty : (n i : ℕ) → get_or (replicate {A = Option SyscallHandler} n none) i none ≡ none
get_or-empty zero i = refl
get_or-empty (suc n) zero = refl
get_or-empty (suc n) (suc i) = get_or-empty n i

-- Right after init_syscalls every system call returns -1, and gate 0x80 of the 256-entry table
-- leads to the 64-bit address of syscall_entry with the attributes of a ring-3 interrupt gate.
pub init_syscalls_lem :
    (entry : ℕ) (t : List IdtEntry) (num a b c d e f : ℕ)
    → entry < 2 ^ 64
    → length t ≡ 256
    → (syscall_handler (init_syscalls entry t).0 num a b c d e f ≡ minus_one)
      × (handler_of (get_or (init_syscalls entry t).1 0x80 empty_entry) ≡ entry)
      × ((get_or (init_syscalls entry t).1 0x80 empty_entry).type_attr ≡ 0xEE)
unfolding init_syscalls entry_of
init_syscalls_lem entry t num a b c d e f lt size =
    let stored : get_or (set t 0x80 (entry_of entry kernel_code64 0xEE)) 0x80 empty_entry
        ≡ entry_of entry kernel_code64 0xEE =
      get_or-set t 0x80 0x80 _ empty_entry (omega arith) in
    (
      (syscall_handler_lem _ num a b c d e f).0 (inr (get_or-empty max_sys_calls num)),
      rw stored (handler_of-entry_of entry _ _ lt),
      rw stored refl,
    )
