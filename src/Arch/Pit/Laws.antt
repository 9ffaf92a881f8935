-- ===== src/Arch/Pit/Laws.antt =====
-- The divisor that pit.c programs, as the device reads it.
use goshkik_os.Prelude.{
  ℕ, zero, suc, ◌+◌, ◌*◌, ◌/◌, ◌%◌, ◌^◌, ◌≤◌, ◌<◌, ◌≡◌, ap, ◌∙◌, inl, inr, ◌&&◌, Option, none, some,
  List, [], ◌∷◌, arith, ltb, ◌==◌, if◌then◌else◌, ltb→lt, ltb-false, ne→==, Bool-cases,
}
use native.Mathlib.Nat.{mul-le-mul_right, mod-lt, div-add-mod'}
use goshkik_os.Arch.Pit.{
  PortWrite, pit_command, pit_data, pit_divisor, pit_set_reload, pit_round, pit_set_frequency,
}

-- The device in mode 2: a command byte 0x34 starts a reload, whose low byte is written first.
pub reload_of : List PortWrite → Option ℕ
reload_of ((c, v) ∷ (d, low) ∷ (e, high) ∷ []) =
    if (c == pit_command) && (v == 0x34) && (d == pit_data) && (e == pit_data)
    then some (low + 256 * high)
    else none
reload_of writes = none

-- The three port writes of pit_set_reload hand the device exactly the 16-bit count.
pub reload_of-pit_set_reload :
    (count : ℕ) → count < 2 ^ 16 → reload_of (pit_set_reload count) ≡ some count
unfolding reload_of pit_set_reload
reload_of-pit_set_reload count h = ground arith

-- the two branches of the rounding, over any quotient and remainder
round_bounds :
    (q r f : ℕ)
    → r < f
    → (2 * ((if ltb (f / 2) r then q + 1 else q) * f) ≤ 2 * (q * f + r) + f)
      × (2 * (q * f + r) ≤ 2 * ((if ltb (f / 2) r then q + 1 else q) * f) + f)
round_bounds q r f h = elim (Bool-cases (ltb (f / 2) r)) [
  | inl up ↦ rw up (let u = ltb→lt _ _ up in (omega arith, omega arith))
  | inr down ↦ rw down (let d = ltb-false _ _ down in (omega arith, omega arith))
]

-- pit_round is the nearest divisor: its product with the frequency differs from the base rate by
-- at most half the frequency, on either side.
pub pit_round_nearest :
    (f : ℕ)
    → 0 < f
    → (2 * (pit_round f * f) ≤ 2 * pit_divisor + f) × (2 * pit_divisor ≤ 2 * (pit_round f * f) + f)
unfolding pit_round
pit_round_nearest f h =
    let b = round_bounds (pit_divisor / f) (pit_divisor % f) f (mod-lt pit_divisor h) in
    rw (div-add-mod' pit_divisor f) at b

range_of_nearest :
    (p f : ℕ)
    → 19 ≤ f
    → f ≤ pit_divisor
    → 2 * (p * f) ≤ 2 * pit_divisor + f
    → 2 * pit_divisor ≤ 2 * (p * f) + f
    → (0 < p) × (p < 2 ^ 16)
range_of_nearest zero f lo hi a b = absurd (omega arith)
range_of_nearest (suc p) f lo hi a b = elim (Bool-cases (ltb (suc p) (2 ^ 16))) [
  | inl small ↦ (omega arith, ltb→lt _ _ small)
  | inr big ↦
      let m : 2 ^ 16 * f ≤ suc p * f = mul-le-mul_right f (ltb-false (suc p) (2 ^ 16) big) in
      absurd (omega arith)
]

round_range : (f : ℕ) → 19 ≤ f → f ≤ pit_divisor → (0 < pit_round f) × (pit_round f < 2 ^ 16)
round_range f lo hi =
    let (a, b) = pit_round_nearest f (omega arith) in range_of_nearest (pit_round f) f lo hi a b

-- At every frequency from 19 Hz up to the base rate the rounded divisor fits 16 bits, is not
-- zero, and is the count that the writes of pit_set_frequency hand to the device.
pub pit_set_frequency_count :
    (f : ℕ)
    → 19 ≤ f
    → f ≤ pit_divisor
    → (w : List PortWrite) × (pit_set_frequency f ≡ some w)
      × (reload_of w ≡ some (pit_round f))
      × (0 < pit_round f)
unfolding pit_set_frequency
pit_set_frequency_count f lo hi =
    let (pos, small) = round_range f lo hi in
    (
      pit_set_reload (pit_round f % 2 ^ 16),
      rw (ne→== f 0 (omega arith)),
      reload_of-pit_set_reload _ (omega arith) ∙ ap some (omega arith),
      pos,
    )
