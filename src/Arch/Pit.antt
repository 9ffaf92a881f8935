-- ===== src/Arch/Pit.antt =====
-- src/arch/x86_64/cpu/pit/pit.c: programming the interval timer. A port write is the pair of the
-- port and the byte, in the order in which `outb` is called.
mod Laws
mod Tests
use goshkik_os.Prelude.{
  ℕ, zero, suc, ◌+◌, ◌-◌, ◌*◌, ◌/◌, ◌%◌, ◌^◌, ◌≤◌, ◌<◌, bit_and, bit_or, ◌≡◌, refl, sym, ap, ◌∙◌,
  fun_ext, ◌≢◌, ◌↔◌, ◌⊎◌, inl, inr, Bool, true, false, not, ◌&&◌, ◌||◌, Option, none, some, List,
  [], ◌∷◌, ◌++◌, map, arith, ltb, leb, ◌==◌, if◌then◌else◌, ltb→lt, lt→ltb, le→ltb, ltb-false,
  leb→le, ==_iff, ==_refl, ne→==, ==_false, Bool-cases, Option-cases, length, get_elem?, get_or,
  set, replicate, length-append, length-set, length-replicate, get_or-replicate, get_or-set,
}

abbrev pub PortWrite : Type 0
PortWrite = ℕ × ℕ

abbrev pub pit_command : ℕ
pit_command = 0x43

abbrev pub pit_data : ℕ
pit_data = 0x40

abbrev pub pit_divisor : ℕ
pit_divisor = 1_193_182

abbrev pub timer_frequency : ℕ
timer_frequency = 1000

-- `count` is a `uint16_t`, and `outb` takes a `uint8_t`
pub pit_set_reload : ℕ → List PortWrite
pit_set_reload count =
    (pit_command, 0x34) ∷ (pit_data, count % 2 ^ 8) ∷ (pit_data, (count / 2 ^ 8) % 2 ^ 8) ∷ []

-- the divisor before it is cut to 16 bits
pub pit_round : ℕ → ℕ
pit_round frequency =
    let divisor = pit_divisor / frequency in
    if ltb (frequency / 2) (pit_divisor % frequency) then divisor + 1 else divisor

-- `none` is the fault of a division by zero
pub pit_set_frequency : ℕ → Option (List PortWrite)
unfolding pit_round pit_set_reload
pit_set_frequency frequency =
    if frequency == 0 then none else some (pit_set_reload (pit_round frequency % 2 ^ 16))

pub init_pit : Option (List PortWrite)
unfolding pit_set_frequency pit_set_reload
init_pit = elim (pit_set_frequency timer_frequency) [
  | none ↦ none
  | some writes ↦ some (pit_set_reload 0xffff ++ writes)
]
