-- ===== src/Arch/Pic/Laws.antt =====
-- Which interrupts the writes of pic.c mask. A data port is the mask register: a read returns what
-- was written last.
use goshkik_os.Prelude.Bits.{
  byte_set, byte_clear, byte_test, byte_test-set, byte_test-clear, byte_set-lt, pow-mod_byte,
}
use goshkik_os.Arch.Pit.{PortWrite}
use goshkik_os.Arch.Pic.{pic1_data, pic2_data, pic_port, pic_mask_irq, pic_unmask_irq}
use goshkik_os.Prelude.{
  ℕ, ◌-◌, ◌%◌, ◌^◌, ◌<◌, bit_or, ◌≡◌, Bool, true, false, List, [], ◌∷◌, arith, ◌==◌, if◌then◌else◌,
}

-- the registers after some writes
pub outb_all : (ℕ → ℕ) → List PortWrite → ℕ → ℕ
outb_all reg [] = reg
outb_all reg ((p, v) ∷ ws) = outb_all (λ q. if p == q then v else reg q) ws

-- whether interrupt `irq` is masked in the registers
pub is_masked : (ℕ → ℕ) → ℕ → Bool
is_masked reg irq = let (port, line) = pic_port irq in byte_test (reg port) line

byte_lt-mod : (b k : ℕ) → b < 256 → k < 8 → bit_or b (2 ^ k) % 256 ≡ byte_set b k
unfolding byte_set
byte_lt-mod b k hb hk = omega (arith, byte_set-lt b k hb hk)

module _ (reg : ℕ → ℕ) (bytes : (p : ℕ) → reg p < 256) (irq j : ℕ) (hi : irq < 16)
    (hj : j < 16) where
  -- pic_mask_irq masks exactly the interrupt that it is given: among the sixteen, that one is
  -- masked afterwards and every other is masked exactly if it was.
  pub is_masked-pic_mask_irq :
      is_masked (outb_all reg (pic_mask_irq reg irq)) j
      ≡ (if irq == j then true else is_masked reg j)
  unfolding is_masked outb_all pic_mask_irq
  is_masked-pic_mask_irq = ground (
    arith,
    byte_lt-mod (reg pic1_data) irq,
    byte_lt-mod (reg pic2_data) (irq - 8),
    byte_test-set (reg pic1_data) irq j,
    byte_test-set (reg pic2_data) (irq - 8) (j - 8),
    bytes pic1_data,
    bytes pic2_data,
  )

  -- pic_unmask_irq unmasks exactly the interrupt that it is given.
  pub is_masked-pic_unmask_irq :
      is_masked (outb_all reg (pic_unmask_irq reg irq)) j
      ≡ (if irq == j then false else is_masked reg j)
  unfolding is_masked outb_all pic_unmask_irq byte_clear
  is_masked-pic_unmask_irq = ground (
    arith,
    pow-mod_byte irq,
    pow-mod_byte (irq - 8),
    byte_test-clear (reg pic1_data) irq j,
    byte_test-clear (reg pic2_data) (irq - 8) (j - 8),
    bytes pic1_data,
    bytes pic2_data,
  )
