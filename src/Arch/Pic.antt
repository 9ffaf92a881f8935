-- ===== src/Arch/Pic.antt =====
-- src/arch/x86_64/cpu/pic/pic.c: the interrupt controllers. `inb` is the hardware, a parameter;
-- each function returns its port writes in order.
mod Laws
mod Tests
use goshkik_os.Arch.Pit.{PortWrite}
use goshkik_os.Prelude.{
  ℕ, zero, suc, ◌+◌, ◌-◌, ◌*◌, ◌/◌, ◌%◌, ◌^◌, ◌≤◌, ◌<◌, bit_and, bit_or, ◌≡◌, refl, sym, ap, ◌∙◌,
  fun_ext, ◌≢◌, ◌↔◌, ◌⊎◌, inl, inr, Bool, true, false, not, ◌&&◌, ◌||◌, Option, none, some, List,
  [], ◌∷◌, ◌++◌, map, arith, ltb, leb, ◌==◌, if◌then◌else◌, ltb→lt, lt→ltb, le→ltb, ltb-false,
  leb→le, ==_iff, ==_refl, ne→==, ==_false, Bool-cases, Option-cases, length, get_elem?, get_or,
  set, replicate, length-append, length-set, length-replicate, get_or-replicate, get_or-set,
}

abbrev pub pic1_command : ℕ
pic1_command = 0x20

abbrev pub pic1_data : ℕ
pic1_data = 0x21

abbrev pub pic2_command : ℕ
pic2_command = 0xA0

abbrev pub pic2_data : ℕ
pic2_data = 0xA1

-- the offsets are converted to `uint8_t` by `outb`
pub pic_remap : ℕ → ℕ → List PortWrite
pic_remap offset1 offset2 =
    (pic1_command, 0x11)
    ∷ (pic2_command, 0x11)
    ∷ (pic1_data, offset1 % 256)
    ∷ (pic2_data, offset2 % 256)
    ∷ (pic1_data, 0x04)
    ∷ (pic2_data, 0x02)
    ∷ (pic1_data, 0x01)
    ∷ (pic2_data, 0x01)
    ∷ (pic1_data, 0xFE)
    ∷ (pic2_data, 0xFF)
    ∷ []

pub pic_mask_all : List PortWrite
pic_mask_all = (pic1_data, 0xFF) ∷ (pic2_data, 0xFF) ∷ []

-- the port, and the line on it, of an interrupt number
pub pic_port : ℕ → ℕ × ℕ
pic_port irq = if ltb irq 8 then (pic1_data, irq) else (pic2_data, irq - 8)

pub pic_mask_irq : (ℕ → ℕ) → ℕ → List PortWrite
unfolding pic_port
pic_mask_irq inb irq =
    let (port, line) = pic_port irq in (port, bit_or (inb port) (2 ^ line) % 256) ∷ []

pub pic_unmask_irq : (ℕ → ℕ) → ℕ → List PortWrite
unfolding pic_port
pic_unmask_irq inb irq =
    let (port, line) = pic_port irq in (port, bit_and (inb port) (255 - 2 ^ line % 256)) ∷ []

pub pic_send_eoi : ℕ → List PortWrite
pic_send_eoi irq =
    if leb 8 irq
    then (pic2_command, 0x20) ∷ (pic1_command, 0x20) ∷ []
    else (pic1_command, 0x20) ∷ []
